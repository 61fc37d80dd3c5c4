-- ===== src/Level.antt =====
-- storage/include/level.h and storage/src/level.c: the two recency lists of the cache, as nodes on an
-- explicit heap. `none` is a fault: the read of a NULL pointer or of a node that has been freed.
mod Defs
mod Moving
pub use Moving.*
mod Nodes
unfoldable pub use Nodes.*
unfoldable pub use Defs.*
