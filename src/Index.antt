-- ===== src/Index.antt =====
-- The index of storage/src/index.c: the memory table, its log, and the files of offsets.
mod Defs
mod Values
mod Maps
mod Notes
mod Adds
mod Gets
mod Recovery
mod Reach
mod Disk
mod Views
mod Merges
mod Joins
mod Keeping
mod Readiness
mod Histories
unfoldable pub use Defs.*
pub use Reach.*
pub use Disk.*
pub use Views.*
pub use Merges.*
pub use Joins.*
pub use Histories.*
pub use Keeping.*
pub use Readiness.*
pub use Recovery.*
pub use Gets.*
pub use Adds.*
pub use Notes.*
pub use Maps.*
pub use Values.*
