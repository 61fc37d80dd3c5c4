-- ===== src/Ht.antt =====
-- storage/include/ht.h and storage/src/ht.c: the chained hash table that indexes the cache.
mod Defs
mod Map
unfoldable pub use Defs.*
pub use Map.*
