-- ===== src/Jikukan.antt =====
-- storage/include/jikukan.h and storage/src/jikukan.c: the memory table, a skip list. An address stands
-- for a pointer: 0 is NULL and 1 the header, which is NIL as well. A node's array `forward` is a cell for
-- each of its levels, and a cell that is not there is outside of the array.
mod Defs
mod Valid
mod Keys
mod Search
mod Lookup
mod Ranks
mod Link
mod Insert
mod Grow
mod Maps
mod Enter
unfoldable pub use Defs.*
pub use Valid.*
pub use Keys.*
pub use Lookup.*
pub use Maps.*
pub use Enter.*
