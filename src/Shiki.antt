-- ===== src/Shiki.antt =====
-- storage/include/shiki.h and storage/src/shiki.c: the value cache, a hash table over nodes that move
-- between a cold and a hot recency list. The fields `nl_*` and `ol_*` of the source are never used.
mod Defs
mod Touch
mod Valid
mod Cache
mod Removal
mod Copies
pub use Copies.*
pub use Removal.*
pub use Cache.*
pub use Valid.*
unfoldable pub use Defs.*
pub use Touch.*
