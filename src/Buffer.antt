-- ===== src/Buffer.antt =====
-- storage/include/buffer.h and storage/src/buffer.c: the growing byte buffer, and the big-endian
-- numbers that it stores. A cell of the allocation is `none` until something has written it, and a
-- write outside of the allocation is the fault `none`. An `int` is its 32-bit pattern.
mod Defs
mod Power
mod Content
mod Puts
mod BigEndian
pub use BigEndian.*
pub use Puts.*
pub use Power.*
pub use Content.*
unfoldable pub use Defs.*
