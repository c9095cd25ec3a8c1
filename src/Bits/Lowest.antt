-- ===== src/Bits/Lowest.antt =====
-- `bits & bits.wrapping_neg()` isolates the lowest set bit, and the loop
-- `while bits != 0 { let bit = …; let i = bit.trailing_zeros(); bits ^= bit; … }` of src/dag_dp.rs
-- and src/sampler.rs visits the set bits in ascending order.
use Prim.Native.Nat.{bit_and, bit_xor}
use native.Mathlib.Nat.{pow-suc}
use causasv.Prelude.{
  ℕ, zero, suc, ◌+◌, ◌-◌, ◌/◌, ◌%◌, ◌^◌, ◌≤◌, ◌<◌, ◌≡◌, refl, ap, arith, ◌==◌, if◌then◌else◌, List,
  [], ◌∷◌, Bool-cases, inl, inr, u64_mod,
}
use causasv.Error.{Result, ok, ◌>>=◌}
use causasv.Bits.Digits.{
  bit_and-digit, bit_xor-digit, bit_at-zero, bit_at-xor, bit_ext, differ_bits,
}
use causasv.Bits.Sets.{trailing_zeros, trailing_zeros_from, clear_odd, clear_even}

-- `bits & bits.wrapping_neg()`
unfoldable pub lowest_bit : ℕ → ℕ
lowest_bit bits = bit_and bits ((u64_mod - bits) % u64_mod)

-- The loop over the set bits; a round clears one of at most 64.
unfoldable pub for_bits {ℓ} : {S : Type ℓ} → ℕ → ℕ → (ℕ → S → Result S) → S → Result S
unfolding lowest_bit trailing_zeros
for_bits zero bits body s = ok s
for_bits (suc fuel) bits body s =
    let rest = (do
      s' ← body (trailing_zeros (lowest_bit bits)) s
      for_bits fuel (bit_xor bits (lowest_bit bits)) body s') in
    if bits == 0 then ok s else rest

-- The same over a list.
unfoldable pub for_each {ℓ} : {S : Type ℓ} → List ℕ → (ℕ → S → Result S) → S → Result S
for_each [] body s = ok s
for_each (i ∷ is) body s = do s' ← body i s; for_each is body s'

bit_and_complement : (w x : ℕ) → x < 2 ^ w → bit_and x (2 ^ w - 1 - x) ≡ 0
bit_and_complement zero x h = let e : x ≡ 0 = omega arith in rw e refl
bit_and_complement (suc w) x h =
    let e : (2 ^ suc w - 1 - x) / 2 ≡ 2 ^ w - 1 - x / 2 = omega (arith, pow-suc 2 w) in
    ground (
      arith,
      bit_and-digit x (2 ^ suc w - 1 - x),
      ap (λ y. bit_and (x / 2) y) e,
      bit_and_complement w (x / 2) (omega (arith, pow-suc 2 w)),
      pow-suc 2 w,
    )

pub isolate : (w x : ℕ) → 0 < x → x < 2 ^ w → bit_and x (2 ^ w - x) ≡ 2 ^ trailing_zeros_from w x
unfolding trailing_zeros_from
isolate zero x p h = absurd (omega arith)
isolate (suc w) x p h = elim (Bool-cases (x % 2 == 1)) [
  | inl odd ↦
      let e : (2 ^ suc w - x) / 2 ≡ 2 ^ w - 1 - x / 2 = ground (arith, pow-suc 2 w) in
      rw odd (
        ground (
          arith,
          bit_and-digit x (2 ^ suc w - x),
          ap (λ y. bit_and (x / 2) y) e,
          bit_and_complement w (x / 2) (omega (arith, pow-suc 2 w)),
          pow-suc 2 w,
        ))
  | inr even ↦
      let e : (2 ^ suc w - x) / 2 ≡ 2 ^ w - x / 2 = ground (arith, pow-suc 2 w) in
      rw even (
        ground (
          arith,
          bit_and-digit x (2 ^ suc w - x),
          ap (λ y. bit_and (x / 2) y) e,
          isolate w (x / 2) (ground arith) (omega (arith, pow-suc 2 w)),
          pow-suc 2 w,
          pow-suc 2 (trailing_zeros_from w (x / 2)),
        ))
]

pub bit_xor-zero : (n x : ℕ) → x ≤ n → bit_xor x 0 ≡ x
bit_xor-zero n x h =
    bit_ext (bit_xor x 0 + x) (bit_xor x 0) x (omega arith) (omega arith)
      (λ i. ground (arith, bit_at-xor i x 0, bit_at-zero i))

-- Clearing the lowest bit by `^` and by `& (x - 1)` is the same.
pub clear_lowest :
    (w x : ℕ) → 0 < x → x < 2 ^ w → bit_xor x (2 ^ trailing_zeros_from w x) ≡ bit_and x (x - 1)
unfolding trailing_zeros_from
clear_lowest zero x p h = absurd (omega arith)
clear_lowest (suc w) x p h = elim (Bool-cases (x % 2 == 1)) [
  | inl odd ↦ rw odd (
      ground (
        arith,
        bit_xor-digit x 1,
        differ_bits (x % 2) 1 (omega arith) (omega arith),
        bit_xor-zero (x / 2) (x / 2) (omega arith),
        clear_odd x,
      ))
  | inr even ↦
      let t = trailing_zeros_from w (x / 2) in
      let e : 2 ^ suc t / 2 ≡ 2 ^ t = omega (arith, pow-suc 2 t) in
      rw even (
        ground (
          arith,
          bit_xor-digit x (2 ^ suc t),
          ap (λ y. bit_xor (x / 2) y) e,
          differ_bits (x % 2) (2 ^ suc t % 2) (omega arith) (omega arith),
          clear_lowest w (x / 2) (ground arith) (omega (arith, pow-suc 2 w)),
          clear_even x,
          pow-suc 2 t,
        ))
]

pub zeros_pow : (w k : ℕ) → k < w → trailing_zeros_from w (2 ^ k) ≡ k
unfolding trailing_zeros_from
zeros_pow zero k h = absurd (omega arith)
zeros_pow (suc w) zero h = refl
zeros_pow (suc w) (suc k) h =
    let e : 2 ^ suc k / 2 ≡ 2 ^ k = omega (arith, pow-suc 2 k) in
    ground (arith, pow-suc 2 k, ap (trailing_zeros_from w) e, zeros_pow w k (omega arith))

pub zeros_lt : (w x : ℕ) → 0 < x → x < 2 ^ w → trailing_zeros_from w x < w
unfolding trailing_zeros_from
zeros_lt zero x p h = absurd (omega arith)
zeros_lt (suc w) x p h = ground (arith, zeros_lt w (x / 2), pow-suc 2 w)
