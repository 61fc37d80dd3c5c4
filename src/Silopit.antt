-- ===== src/Silopit.antt =====
-- storage/include/silopit.h and storage/src/silopit.c: the index files. A file is the bytes of its
-- blocks and the fields of its footer, where `to_be32` and `from_be32` undo one another.
mod Files
mod Defs
mod Flush
mod Reads
mod Walk
mod Blocks
mod Writes
mod Made
mod Finds
mod Fresh
mod Tables
mod Merged
mod Held
mod Recalls
mod Again
mod Updates
unfoldable pub use Files.*
unfoldable pub use Defs.*
unfoldable pub use Flush.*
pub use Reads.*
pub use Blocks.*
pub use Writes.*
pub use Made.*
pub use Finds.*
pub use Fresh.*
pub use Tables.*
pub use Merged.*
pub use Held.*
pub use Recalls.*
pub use Again.*
pub use Updates.*
pub use Walk.*
