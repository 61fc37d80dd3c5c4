-- ===== src/Db.antt =====
-- storage/include/db.h and storage/src/db.c: the database, a cache in front of the index.
mod Defs
mod Serves
mod Answers
mod Wire
pub use Wire.*
pub use Serves.*
unfoldable pub use Answers.*
unfoldable pub use Defs.*
