-- ===== src/DagDp/Counting.antt =====
-- The number of linear extensions of an induced subgraph, as a recursion on the subset alone, with
-- no table: the specification of `compute_dp_ind` (src/dag_dp.rs).
use Prim.Native.Nat.{bit_and, bit_xor}
use native.Mathlib.Nat.{pow-suc}
use causasv.Prelude.{
  ℕ, zero, suc, ◌+◌, ◌-◌, ◌/◌, ◌%◌, ◌^◌, ◌≤◌, ◌<◌, ◌≡◌, refl, ◌∙◌, ap, arith, Bool, true, false,
  ◌==◌, if◌then◌else◌, List, get_or, Bool-cases, inl, inr, count,
}
use causasv.Prelude.Totals.{sum_over, sum_over_ext}
use causasv.Bits.{bit_at, shl1, members_from, shl1-small, count-members_from}
use causasv.Bits.Digits.{bit_xor-digit, differ_bits, bit_at_beyond}
use causasv.Bits.Lowest.{bit_xor-zero}

module _ (parents_mask : List ℕ) where
  -- Node `i` has no parent in `mask`.
  abbrev pub is_source : ℕ → ℕ → Bool
  is_source mask i = bit_and (get_or parents_mask i 0) mask == 0

  -- The orders of the nodes of `mask`: one of its sources first, then the rest.
  unfoldable pub extensions_in : ℕ → ℕ → ℕ
  extensions_in zero mask = 1
  extensions_in (suc fuel) mask =
      let rest =
        sum_over (members_from 0 64 mask)
          (λ i. if is_source mask i then extensions_in fuel (bit_xor mask (shl1 i)) else 0) in
      if mask == 0 then 1 else rest

  unfoldable pub linear_extensions : ℕ → ℕ
  linear_extensions mask = extensions_in mask mask

-- Taking a set bit out makes the mask smaller.
xor_pow : (i x : ℕ) → bit_at i x ≡ true → bit_xor x (2 ^ i) + 2 ^ i ≡ x
xor_pow zero x h = ground (
  arith,
  bit_xor-digit x 1,
  differ_bits (x % 2) 1 (omega arith) (omega arith),
  bit_xor-zero (x / 2) (x / 2) (omega arith),
)
xor_pow (suc i) x h =
    let e : 2 ^ suc i / 2 ≡ 2 ^ i = omega (arith, pow-suc 2 i) in
    omega (
      arith,
      bit_xor-digit x (2 ^ suc i),
      ap (λ y. bit_xor (x / 2) y) e,
      differ_bits (x % 2) (2 ^ suc i % 2) (omega arith) (omega arith),
      xor_pow i (x / 2) h,
      pow-suc 2 i,
    )

pow_pos : (i : ℕ) → 0 < 2 ^ i
pow_pos zero = omega arith
pow_pos (suc i) = omega (arith, pow-suc 2 i, pow_pos i)

pub xor_lt : (i x : ℕ) → i < 64 → bit_at i x ≡ true → bit_xor x (shl1 i) < x
xor_lt i x small h = rw (shl1-small i small) (omega (arith, xor_pow i x h, pow_pos i))

pub member_bit :
    (mask i : ℕ)
    → mask < 2 ^ 64
    → 0 < count i (members_from 0 64 mask)
    → (bit_at i mask ≡ true) × (i < 64)
member_bit mask i h m =
    let e : i - 0 ≡ i = omega arith in
    let c = count-members_from 0 64 mask i h in
    let set : bit_at i mask ≡ true = ground (arith, ap (λ k. bit_at k mask) e) in
    (set, ground (arith, bit_at_beyond 64 i mask h))

module _ (parents_mask : List ℕ) where
  enough_fuel :
      (f g mask : ℕ)
      → mask < 2 ^ 64
      → mask ≤ f
      → mask ≤ g
      → extensions_in parents_mask f mask ≡ extensions_in parents_mask g mask
  unfolding extensions_in
  enough_fuel zero zero mask h p q = refl
  enough_fuel zero (suc g) mask h p q = ground arith
  enough_fuel (suc f) zero mask h p q = ground arith
  enough_fuel (suc f) (suc g) mask h p q = elim (Bool-cases (mask == 0)) [
    | inl e ↦ rw e refl
    | inr e ↦ rw e (
        sum_over_ext (members_from 0 64 mask) _ _ (λ i m.
          let (set, small) = member_bit mask i h m in
          let smaller = xor_lt i mask small set in
          ap (λ x. if is_source parents_mask mask i then x else 0)
            (enough_fuel f g (bit_xor mask (shl1 i)) (omega arith) (omega arith) (omega arith))))
  ]

  unfold_once :
      (f mask : ℕ)
      → 0 < mask
      → extensions_in parents_mask (suc f) mask
        ≡ sum_over (members_from 0 64 mask) (λ i.
          if is_source parents_mask mask i
          then extensions_in parents_mask f (bit_xor mask (shl1 i))
          else 0)
  unfolding extensions_in
  unfold_once f mask p = let e : (mask == 0) ≡ false = ground arith in rw e refl

  -- One step of the recursion, with no fuel in sight.
  pub linear_extensions_step :
      (mask : ℕ)
      → mask < 2 ^ 64
      → 0 < mask
      → linear_extensions parents_mask mask
        ≡ sum_over (members_from 0 64 mask) (λ i.
          if is_source parents_mask mask i
          then linear_extensions parents_mask (bit_xor mask (shl1 i))
          else 0)
  unfolding linear_extensions
  linear_extensions_step zero h p = absurd (omega arith)
  linear_extensions_step (suc m) h p =
      unfold_once m (suc m) p
      ∙ sum_over_ext (members_from 0 64 (suc m)) _ _ (λ i listed.
        let (set, small) = member_bit (suc m) i h listed in
        let smaller = xor_lt i (suc m) small set in
        ap (λ x. if is_source parents_mask (suc m) i then x else 0)
          (enough_fuel m _ (bit_xor (suc m) (shl1 i)) (omega arith) (omega arith) (omega arith)))

  pub linear_extensions_zero : linear_extensions parents_mask 0 ≡ 1
  unfolding linear_extensions extensions_in
  linear_extensions_zero = refl
