-- ===== src/Log.antt =====
-- storage/include/log.h and storage/src/log.c: the value file and the log of the index. The files are
-- the lists of their bytes; `write` stands for the system call, and `insert` for `jikukan_insert`.
mod Defs
mod Append
mod Replay
pub use Replay.*
pub use Append.*
unfoldable pub use Defs.*
