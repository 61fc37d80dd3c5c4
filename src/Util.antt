-- ===== src/Util.antt =====
-- storage/include/util.h: the hash functions over C strings and the bit macros. An `unsigned int`
-- wraps at 2 ^ 32; the macros work on a byte, an `unsigned char`.
mod Hash
mod Bitset
unfoldable pub use Hash.*
unfoldable pub use Bitset.*
