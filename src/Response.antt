-- ===== src/Response.antt =====
-- server/include/response.h and server/src/response.c: the answers of the server.
mod Defs
mod Numerals
mod Answers
pub use Answers.*
pub use Numerals.*
unfoldable pub use Defs.*
