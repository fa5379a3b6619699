-- ===== src/Key.antt =====
-- Keys: `std::bitset<KEY_SIZE>` and the free functions on it (Sources/miniDHT_const.h), and the
-- digests that carry a key as text (Sources/miniDHT_const.cpp).
pub mod Bits
pub mod Digest
pub mod Order
pub mod Prefix
pub mod Hex
pub mod Reversal
pub mod Local
pub mod Kept
