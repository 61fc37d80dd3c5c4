-- ===== src/Hiraishin.antt =====
-- storage/include/hiraishin.h and storage/src/hiraishin.c: the Bloom filter that stands in front of
-- the index. The block of bits is a function from an index to its byte.
mod Defs
mod Reports
unfoldable pub use Defs.*
pub use Reports.*
