-- ===== src/Meta.antt =====
-- storage/include/meta.h and storage/src/meta.c: the sorted table that says which index file covers
-- which keys. Names and ends are the bytes of their arrays, read as C strings.
mod Defs
mod Search
mod One
mod Insert
pub use One.*
pub use Insert.*
unfoldable pub use Defs.*
pub use Search.*
