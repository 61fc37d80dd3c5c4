-- ===== src/Server.antt =====
-- server/src/siloserver.c: what the server does with a request that has been read, over the store's
-- operations (storage/include/db.h) as an interface.
mod Defs
mod Replies
mod Handler
pub use Replies.*
unfoldable pub use Handler.*
unfoldable pub use Defs.*
