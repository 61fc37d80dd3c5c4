-- ===== src/Request.antt =====
-- server/include/request.h and server/src/request.c: the incremental parser of the server's protocol.
mod Defs
mod Scanning
mod RoundTrip
mod Parsing
mod Pipeline
pub use Pipeline.*
pub use Parsing.*
pub use RoundTrip.*
unfoldable pub use Defs.*
pub use Scanning.*
