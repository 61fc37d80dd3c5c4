-- ===== src/Lib.antt =====
-- Silokatana: the core of a key-value store and of the server in front of it, as executable
-- definitions, with the theorems that say what they do.
--
-- The server (server/) reads requests from sockets, runs each on the store and answers it. The store
-- (storage/) keeps values in one file and their offsets in index files, with a memory table, a log, a
-- cache and a filter before them. A request's bytes go through the request parser; a read then asks
-- the cache, and behind it the index, whose filter says which keys were never written and whose table
-- of files says where a key can be; numbers and records pass through byte buffers on their way to a
-- file.
--
-- Base        the Boolean tests, strings up to their NUL, lists and integers that the parts share
-- Buffer      storage/src/buffer.c: `struct buffer` is `Buffer`, `_buffer_extendby` is `extend_by`,
--             `buffer_putnstr` is `putnstr`, and so on; the readers keep their names
-- Util        storage/include/util.h: the hash functions, and `SETBIT_1` and `GETBIT`
-- Hiraishin   storage/src/hiraishin.c: the filter, with its two hash functions in a list
-- Ht          storage/src/ht.c: the hash table; a chain is the list of its nodes
-- Level       storage/src/level.c: the recency lists, on a heap of nodes
-- Shiki       storage/src/shiki.c: the value cache, from the hash table and two lists
-- Meta        storage/src/meta.c: the table of index files; `search` is the loop of `meta_get` and of
--             `meta_set`
-- Request     server/src/request.c: `request_parse` is `parse`, its loop `read_args`, `req_state_len`
--             is `state_len` with the loop `scan`
-- Log         storage/src/log.c: `append` is `log_append`, `log_read` is `_log_read` with its loop
--             `read_records`; the two files are lists of bytes in the log's record
-- Jikukan     storage/src/jikukan.c: the skip list of the memory table, pointer by pointer; `Refines`
--             says that its lookups are those of a map
-- Silopit     storage/src/silopit.c: Files has one file of offsets (`make_file` is what `_write_mmap`
--             writes), Defs the operations on the directory, and Flush how a list becomes files;
--             Walk is about the order of the nodes that are written, Blocks, Writes and Made about the
--             bytes of a file, Finds about the search in them, Tables, Fresh and Merged about the
--             first merge, Held, Recalls, Again and Updates about one into the file that is there
-- Index       storage/src/index.c: `add` is `index_add`, with `rotate` for a full table, `get` is
--             `index_get`, and `merge_job` is the thread's work as one step; Maps, Disk and Views have
--             the map of each table and of the files, Merges and Joins what a merge does to
--             them, Histories any order of the operations
-- Response    server/src/response.c: `response_detch` is `detch`, over an array of 10240 bytes
-- Server      server/src/siloserver.c: `_process_cmd` is `process`, with a function for each command,
--             over the operations of storage/include/db.h as the interface `Store`, and
--             `read_handler`, from the bytes of a read to the answer
-- Db          storage/src/db.c: `add` is `db_add`, and so on, and `store` fills the interface `Store`
-- Examples    the theorems at concrete inputs
--
-- A module of a part has the names of the C functions without their prefix: `shiki_set` is `set` in
-- Shiki. Bytes are numbers below 256, and a block of memory is the list of its bytes. Where the C
-- program reads or writes outside an object, or through NULL, the result is the fault `none` (in the
-- parser `fault`). Unsigned arithmetic wraps at 2 ^ 32 or 2 ^ 64 where the code's type does; a signed
-- `int` that overflows in the parser is a fault.
--
-- The searches in the table of files and in a file take fuel, one more than the entries: they halve
-- their range, and the theorems on `get` and `set` of Meta and on `read_offset` include that the fuel
-- is enough. A search of the skip list takes one round more than the list has nodes, which is enough in
-- a valid list. The parser's loop recurses on the number of arguments, and every other loop on its
-- list. The loop that reads a log has one round of fuel more than the int that the length of the file
-- is cut to, and a round takes at least thirteen from it.
--
-- In the cache, `slack` is a parameter: what the allocator left behind the block of a key, which the
-- code reads as a string although it has no room for a NUL. `ratio` stands for the product with 0.618
-- in floating point. `malloc` and `calloc` always succeed. In the log, `write` is a parameter, the file
-- after a write, with the hypothesis that all bytes get written, and `insert` is what a record is
-- handed to; `held` says whether the bytes behind the name of a log file, which `recovery` copies with
-- it, can be read. In the skip list, `coin` stands for the draws of `rand`; in a file of offsets, `stale`
-- is a byte of a buffer that was never written. `format` is the text of `db_info`. In the server, `spare`
-- says whether the block of an empty array has room for a pointer, which a miss of `get` writes there;
-- the bytes of an answer are taken as sent.
--
-- Not modelled: the merge thread inside its work, which is one step here that other operations come
-- before or after, its lock, and the removal of log files; the release of memory; the event loop,
-- sockets and allocator, which are copies of another project's; the times and counts that are only
-- printed. How a list is spread over several files is defined and has no theorem; a merge of keys
-- behind the end of the files has none either, since the code does not keep every entry there, and the
-- theorems on files ask for keys of one length, without which the blocks do not stand where they are
-- looked for.
pub mod Base
pub mod Buffer
pub mod Util
pub mod Hiraishin
pub mod Ht
pub mod Level
pub mod Shiki
pub mod Meta
pub mod Request
pub mod Jikukan
pub mod Silopit
pub mod Log
pub mod Index
pub mod Response
pub mod Server
pub mod Db
pub mod Examples
