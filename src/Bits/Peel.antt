-- ===== src/Bits/Peel.antt =====
-- Clearing the lowest set bit until none is left visits the set bits in ascending order.
use Prim.Native.Nat.{bit_and, bit_xor}
use native.Mathlib.Nat.{pow-suc}
use causasv.Prelude.{
  ℕ, zero, suc, ◌-◌, ◌*◌, ◌/◌, ◌%◌, ◌^◌, ◌≤◌, ◌<◌, ◌≡◌, refl, sym, ◌∙◌, ap, arith, true, false,
  ◌==◌, if◌then◌else◌, List, [], ◌∷◌, map, Bool-cases, inl, inr, u64_mod,
}
use causasv.Error.{Result, >>=_ext}
use causasv.Bits.Sets.{trailing_zeros, trailing_zeros_from, members_from, clear_odd, clear_even}
use causasv.Bits.Digits.{bit_and-digit, bit_at-and, bit_at-zero, bit_ext}
use causasv.Bits.Lowest.{lowest_bit, for_bits, for_each, isolate, clear_lowest, zeros_pow, zeros_lt}

-- The positions visited, where each round clears a bit by `x & (x - 1)`.
unfoldable pub peel : ℕ → ℕ → List ℕ
peel zero x = []
peel (suc fuel) x =
    let rest = peel fuel (bit_and x (x - 1)) in if x == 0 then [] else trailing_zeros x ∷ rest

zeros_enough :
    (w l x : ℕ) → 0 < x → x < 2 ^ w → w ≤ l → trailing_zeros_from l x ≡ trailing_zeros_from w x
unfolding trailing_zeros_from
zeros_enough zero l x p h le = absurd (omega arith)
zeros_enough (suc w) zero x p h le = absurd (omega arith)
zeros_enough (suc w) (suc l) x p h le = ground (arith, zeros_enough w l (x / 2), pow-suc 2 w)

odd_zeros : (x : ℕ) → (x % 2 == 1) ≡ true → trailing_zeros x ≡ 0
unfolding trailing_zeros
odd_zeros x e = ground arith

zeros_double_from : (w x : ℕ) → trailing_zeros_from (suc w) (2 * x) ≡ suc (trailing_zeros_from w x)
unfolding trailing_zeros_from
zeros_double_from w x =
    let e : 2 * x / 2 ≡ x = omega arith in ground (arith, ap (trailing_zeros_from w) e)

trailing_zeros_lem : (x : ℕ) → trailing_zeros x ≡ trailing_zeros_from 64 x
unfolding trailing_zeros
trailing_zeros_lem x = refl

zeros_double : (x : ℕ) → 0 < x → x < 2 ^ 63 → trailing_zeros (2 * x) ≡ suc (trailing_zeros x)
zeros_double x p h =
    trailing_zeros_lem (2 * x)
    ∙ zeros_double_from 63 x
    ∙ ap suc (sym (zeros_enough 63 64 x p h (omega arith)) ∙ sym (trailing_zeros_lem x))

bit_and-zero_left : (b : ℕ) → bit_and 0 b ≡ 0
bit_and-zero_left b =
    bit_ext (bit_and 0 b) (bit_and 0 b) 0 (omega arith) (omega arith)
      (λ i. ground (arith, bit_at-and i 0 b, bit_at-zero i))

pub pow-le : (w v : ℕ) → w ≤ v → 2 ^ w ≤ 2 ^ v
pow-le zero v h = one_le v
  where
    one_le : (v : ℕ) → 1 ≤ 2 ^ v
    one_le zero = omega arith
    one_le (suc v) = omega (arith, pow-suc 2 v, one_le v)
pow-le (suc w) zero h = absurd (omega arith)
pow-le (suc w) (suc v) h = omega (arith, pow-suc 2 w, pow-suc 2 v, pow-le w v (omega arith))

pub bit_and-le : (n a b : ℕ) → a ≤ n → bit_and a b ≤ a
bit_and-le zero a b h = let e : a ≡ 0 = omega arith in rw e (omega (arith, bit_and-zero_left b))
bit_and-le (suc n) a b h = elim (Bool-cases (a == 0)) [
  | inl e ↦ let e' : a ≡ 0 = ground arith in rw e' (omega (arith, bit_and-zero_left b))
  | inr e ↦ ground (arith, bit_and-digit a b, bit_and-le n (a / 2) (b / 2))
]

peel-double : (fuel x : ℕ) → x < 2 ^ 63 → peel fuel (2 * x) ≡ map suc (peel fuel x)
unfolding peel
peel-double zero x h = refl
peel-double (suc fuel) x h = elim (Bool-cases (x == 0)) [
  | inl e ↦ let e' : x ≡ 0 = ground arith in rw e' refl
  | inr e ↦
      let e' : (2 * x == 0) ≡ false = ground arith in
      let half : 2 * x / 2 ≡ x = omega arith in
      let cleared : bit_and (2 * x) (2 * x - 1) ≡ 2 * bit_and x (x - 1) =
        rw half at (clear_even (2 * x) (omega arith) (ground arith)) in
      rw (e, e', cleared, zeros_double x (ground arith) h)
        (ap (λ l. suc (trailing_zeros x) ∷ l)
          (peel-double fuel (bit_and x (x - 1))
            (omega (arith, bit_and-le x x (x - 1) (omega arith)))))
]

members_from-suc : (i w x : ℕ) → members_from (suc i) w x ≡ map suc (members_from i w x)
unfolding members_from
members_from-suc i zero x = refl
members_from-suc i (suc w) x = elim (Bool-cases (x % 2 == 1)) [
  | inl e ↦ rw e (ap (λ l. suc i ∷ l) (members_from-suc (suc i) w (x / 2)))
  | inr e ↦ rw e (members_from-suc (suc i) w (x / 2))
]

peel-zero : (fuel : ℕ) → peel fuel 0 ≡ []
unfolding peel
peel-zero zero = refl
peel-zero (suc fuel) = refl

pub peel-members : (w fuel x : ℕ) → x < 2 ^ w → w ≤ 64 → w ≤ fuel → peel fuel x ≡ members_from 0 w x
unfolding peel members_from
peel-members zero fuel x h small le = let e : x ≡ 0 = omega arith in rw e (peel-zero fuel)
peel-members (suc w) zero x h small le = absurd (omega arith)
peel-members (suc w) (suc fuel) x h small le =
    let half_lt : x / 2 < 2 ^ w = omega (arith, pow-suc 2 w) in
    let half_small : x / 2 < 2 ^ 63 = omega (arith, pow-le w 63 (omega arith)) in
    elim (Bool-cases (x % 2 == 1)) [
      | inl e ↦
          let nonzero : (x == 0) ≡ false = ground arith in
          let first : trailing_zeros x ≡ 0 = odd_zeros x e in
          let cleared : bit_and x (x - 1) ≡ 2 * (x / 2) = ground (arith, clear_odd x) in
          rw (e, nonzero, first, cleared)
            (ap (λ l. 0 ∷ l)
              (peel-double fuel (x / 2) half_small
                ∙ ap (map suc) (peel-members w fuel (x / 2) half_lt (omega arith) (omega arith))
                ∙ sym (members_from-suc 0 w (x / 2))))
      | inr e ↦
          let double : 2 * (x / 2) ≡ x = ground arith in
          rw e (
            sym (ap (peel (suc fuel)) double)
            ∙ peel-double (suc fuel) (x / 2) half_small
            ∙ ap (map suc) (peel-members w (suc fuel) (x / 2) half_lt (omega arith) (omega arith))
            ∙ sym (members_from-suc 0 w (x / 2)))
    ]

pub lowest_bit-pow : (x : ℕ) → 0 < x → x < 2 ^ 64 → lowest_bit x ≡ 2 ^ trailing_zeros x
unfolding lowest_bit
lowest_bit-pow x p h =
    let e : (u64_mod - x) % u64_mod ≡ 2 ^ 64 - x = omega arith in
    rw (e, trailing_zeros_lem x) (isolate 64 x p h)

pub zeros-lowest_bit :
    (x : ℕ) → 0 < x → x < 2 ^ 64 → trailing_zeros (lowest_bit x) ≡ trailing_zeros x
zeros-lowest_bit x p h =
    rw (lowest_bit-pow x p h, trailing_zeros_lem (2 ^ trailing_zeros x))
      (zeros_pow 64 (trailing_zeros x) (rw (trailing_zeros_lem x) (zeros_lt 64 x p h)))

pub xor-lowest_bit : (x : ℕ) → 0 < x → x < 2 ^ 64 → bit_xor x (lowest_bit x) ≡ bit_and x (x - 1)
xor-lowest_bit x p h = rw (lowest_bit-pow x p h, trailing_zeros_lem x) (clear_lowest 64 x p h)

for_bits-peel {ℓ} :
    {S : Type ℓ} (fuel bits : ℕ) (body : ℕ → S → Result S) (s : S)
    → bits < 2 ^ 64
    → for_bits fuel bits body s ≡ for_each (peel fuel bits) body s
unfolding for_bits for_each peel
for_bits-peel zero bits body s h = refl
for_bits-peel (suc fuel) bits body s h = elim (Bool-cases (bits == 0)) [
  | inl e ↦ rw e refl
  | inr e ↦
      let pos : 0 < bits = ground arith in
      rw (e, zeros-lowest_bit bits pos h, xor-lowest_bit bits pos h)
        (>>=_ext (body (trailing_zeros bits) s) _ _ (λ s'.
          for_bits-peel fuel (bit_and bits (bits - 1)) body s'
            (omega (arith, bit_and-le bits bits (bits - 1) (omega arith)))))
]

-- The loop over the set bits is the loop over the list of them.
pub for_bits-members {ℓ} :
    {S : Type ℓ} (bits : ℕ) (body : ℕ → S → Result S) (s : S)
    → bits < 2 ^ 64
    → for_bits 64 bits body s ≡ for_each (members_from 0 64 bits) body s
for_bits-members bits body s h =
    for_bits-peel 64 bits body s h
    ∙ ap (λ l. for_each l body s) (peel-members 64 64 bits h (omega arith) (omega arith))
