-- ===== src/Bits/Sets.antt =====
-- The tests and updates that the bitmask code writes, read as operations on sets of positions.
use Prim.Native.Nat.{bit_and}
use native.Mathlib.Nat.{pow-suc}
use causasv.Prelude.{
  ℕ, zero, suc, ◌+◌, ◌-◌, ◌*◌, ◌/◌, ◌%◌, ◌^◌, ◌≤◌, ◌<◌, ◌≡◌, refl, ap, arith, true, false, not,
  ◌==◌, if◌then◌else◌, ltb, List, [], ◌∷◌, count, Bool-cases, inl, inr,
}
use causasv.Bits.Digits.{bit_at, bit_at-and, bit_at-zero, bit_at-pow, bit_ext, bit_and-digit}

-- `1u64 << i` (the shift amount is taken mod 64, where a debug build stops)
abbrev pub shl1 : ℕ → ℕ
shl1 i = 2 ^ (i % 64)

-- `x.trailing_zeros()`, with the bits still to be looked at
unfoldable pub trailing_zeros_from : ℕ → ℕ → ℕ
trailing_zeros_from zero x = 0
trailing_zeros_from (suc w) x = if x % 2 == 1 then 0 else suc (trailing_zeros_from w (x / 2))

unfoldable pub trailing_zeros : ℕ → ℕ
unfolding trailing_zeros_from
trailing_zeros x = trailing_zeros_from 64 x

-- The set bits in ascending order, from position `i` on, over `w` positions.
unfoldable pub members_from : ℕ → ℕ → ℕ → List ℕ
members_from i zero x = []
members_from i (suc w) x =
    let rest = members_from (suc i) w (x / 2) in if x % 2 == 1 then i ∷ rest else rest

pub shl1-small : (i : ℕ) → i < 64 → shl1 i ≡ 2 ^ i
shl1-small i h = let e : i % 64 ≡ i = omega arith in rw e

pub bit_at-shl1 : (i j : ℕ) → i < 64 → bit_at j (shl1 i) ≡ i == j
bit_at-shl1 i j h = rw (shl1-small i h) (bit_at-pow i j)

same_bit : (mask i j : ℕ) → i ≡ j → bit_at i mask ≡ bit_at j mask
same_bit mask i j e = ap (λ k. bit_at k mask) e

-- `p & m == 0`
pub disjoint_bits :
    (p m : ℕ) → (bit_and p m == 0) ≡ true → (i : ℕ) → bit_at i p ≡ true → bit_at i m ≡ false
disjoint_bits p m h i e =
    let z : bit_and p m ≡ 0 = ground arith in
    ground (arith, bit_at-and i p m, bit_at-zero i, ap (bit_at i) z)

pub disjoint_of_bits :
    (p m : ℕ) → ((i : ℕ) → bit_at i p ≡ true → bit_at i m ≡ false) → (bit_and p m == 0) ≡ true
disjoint_of_bits p m h =
    let z : bit_and p m ≡ 0 =
      bit_ext (bit_and p m) (bit_and p m) 0 (omega arith) (omega arith)
        (λ i. ground (arith, bit_at-and i p m, bit_at-zero i, h i)) in
    ground arith

-- `mask & (1 << i) == 0`
pub lacks_bit : (mask i : ℕ) → i < 64 → (bit_and mask (shl1 i) == 0) ≡ not (bit_at i mask)
lacks_bit mask i h = elim (Bool-cases (bit_at i mask)) [
  | inl e ↦ ground (
    arith,
    disjoint_bits mask (shl1 i),
    bit_at-and i mask (shl1 i),
    bit_at-shl1 i i h,
    bit_at-zero i,
    λ (z : bit_and mask (shl1 i) ≡ 0). ap (bit_at i) z,
  )
  | inr e ↦ ground (
    arith,
    disjoint_of_bits mask (shl1 i) (λ j set. ground (arith, bit_at-shl1 i j h, same_bit mask i j)),
  )
]

-- `p & m == p`
pub subset_bits :
    (p m : ℕ) → (bit_and p m == p) ≡ true → (i : ℕ) → bit_at i p ≡ true → bit_at i m ≡ true
subset_bits p m h i e =
    let z : bit_and p m ≡ p = ground arith in ground (arith, bit_at-and i p m, ap (bit_at i) z)

pub subset_of_bits :
    (p m : ℕ) → ((i : ℕ) → bit_at i p ≡ true → bit_at i m ≡ true) → (bit_and p m == p) ≡ true
subset_of_bits p m h =
    let z : bit_and p m ≡ p =
      bit_ext (bit_and p m + p) (bit_and p m) p (omega arith) (omega arith)
        (λ i. ground (arith, bit_at-and i p m, h i)) in
    ground arith

-- `x & (x - 1)` clears the lowest set bit.
bit_and_self : (n x : ℕ) → x ≤ n → bit_and x x ≡ x
bit_and_self zero x h = let e : x ≡ 0 = omega arith in rw e refl
bit_and_self (suc n) x h = elim (Bool-cases (x == 0)) [
  | inl e ↦ let e' : x ≡ 0 = ground arith in rw e' refl
  | inr e ↦ ground (arith, bit_and-digit x x, bit_and_self n (x / 2) (ground arith))
]

pub clear_odd : (x : ℕ) → x % 2 ≡ 1 → bit_and x (x - 1) ≡ x - 1
clear_odd x h =
    let e : (x - 1) / 2 ≡ x / 2 = omega arith in
    omega (
      arith,
      bit_and-digit x (x - 1),
      ap (λ y. bit_and (x / 2) y) e,
      bit_and_self (x / 2) (x / 2) (omega arith),
    )

pub clear_even : (x : ℕ) → x % 2 ≡ 0 → 0 < x → bit_and x (x - 1) ≡ 2 * bit_and (x / 2) (x / 2 - 1)
clear_even x h p =
    let e : (x - 1) / 2 ≡ x / 2 - 1 = omega arith in
    omega (arith, bit_and-digit x (x - 1), ap (λ y. bit_and (x / 2) y) e)

bit_at_above : (i j x : ℕ) → i < j → bit_at (j - i) x ≡ bit_at (j - suc i) (x / 2)
bit_at_above i j x h = let e : j - i ≡ suc (j - suc i) = omega arith in rw e

bit_at_self : (i j x : ℕ) → i ≡ j → bit_at (j - i) x ≡ (x % 2 == 1)
bit_at_self i j x h = let e : j - i ≡ 0 = omega arith in rw e

pub count-members_from :
    (i w x j : ℕ)
    → x < 2 ^ w
    → count j (members_from i w x) ≡ (if ltb j i then 0 else if bit_at (j - i) x then 1 else 0)
unfolding members_from
count-members_from i zero x j h =
    let e : x ≡ 0 = omega arith in rw e (ground (arith, bit_at-zero (j - i)))
count-members_from i (suc w) x j h = ground (
  arith,
  count-members_from (suc i) w (x / 2) j (omega (arith, pow-suc 2 w)),
  bit_at_above i j x,
  bit_at_self i j x,
)
