-- ===== src/Bits.antt =====
-- `u64` masks as sets of bit positions. Part of the shared code, for src/cache.rs, src/coalition.rs
-- and the bitmask algorithms.
pub mod Digits
pub mod Sets
pub mod Lowest
pub mod Peel
pub use Digits.{bit_at}
unfoldable pub use Sets.{trailing_zeros, trailing_zeros_from, members_from}
pub use Sets.*
unfoldable pub use Lowest.{lowest_bit, for_bits, for_each}
