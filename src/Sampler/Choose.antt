-- ===== src/Sampler/Choose.antt =====
-- The inner loop of `sample_uniform_into` (src/sampler.rs) takes the first entry at which the running
-- sum of the weights passes the draw.
use Prim.Native.Nat.{bit_and, bit_xor}
use causasv.Prelude.{
  ℕ, zero, suc, ◌+◌, ◌-◌, ◌*◌, ◌^◌, ◌%◌, ◌<◌, ◌≤◌, ◌≡◌, refl, sym, ◌∙◌, ap, arith, Bool, true,
  false, Option, none, some, List, [], ◌∷◌, count, get_or, if◌then◌else◌, ◌==◌, ltb, Bool-cases,
  inl, inr, u64_mod,
}
use causasv.Prelude.Words.{as_u64_small}
use causasv.Prelude.Totals.{total, total_ext, sum_over}
use causasv.Bits.{shl1, trailing_zeros, lowest_bit, shl1-small}
use causasv.Bits.Lowest.{zeros_lt}
use causasv.Bits.Peel.{peel, lowest_bit-pow, zeros-lowest_bit, xor-lowest_bit, bit_and-le}
use causasv.Numerics.{Float}
use causasv.Sampler.{Rng, pick}

-- The first entry at which the running sum of the weights passes the draw.
abbrev pub choose : (ℕ → ℕ) → List ℕ → ℕ → Option ℕ
choose weight [] drawn = none
choose weight (i ∷ is) drawn =
    if ltb drawn (weight i) then some i else choose weight is (drawn - weight i)

-- 1 if it is `i` that is chosen.
abbrev pub hits : ℕ → Option ℕ → ℕ
hits i none = 0
hits i (some j) = if j == i then 1 else 0

total_split : (a b : ℕ) (f : ℕ → ℕ) → total (a + b) f ≡ total a f + total b (λ r. f (a + r))
total_split a zero f = let e : a + 0 ≡ a = omega arith in rw e (omega arith)
total_split a (suc b) f =
    let e : a + suc b ≡ suc (a + b) = omega arith in rw e (omega (arith, total_split a b f))

total_const : (n c : ℕ) (f : ℕ → ℕ) → ((v : ℕ) → v < n → f v ≡ c) → total n f ≡ n * c
total_const zero c f h = omega arith
total_const (suc n) c f h =
    omega (arith, h n (omega arith), total_const n c f (λ v lt. h v (omega arith)))

weighted :
    (i j c : ℕ) (weight : ℕ → ℕ)
    → weight j * (if j == i then 1 else 0) + c * weight i
      ≡ ((if j == i then 1 else 0) + c) * weight i
weighted i j c weight = elim (Bool-cases (j == i)) [
  | inl e ↦ let same : j ≡ i = ground arith in rw e (omega (arith, ap weight same))
  | inr e ↦ rw e (omega arith)
]

-- Of the draws below the sum of the weights, `weight i` choose `i`.
pub total-choose :
    (weight : ℕ → ℕ) (is : List ℕ) (i : ℕ)
    → total (sum_over is weight) (λ r. hits i (choose weight is r)) ≡ count i is * weight i
total-choose weight [] i = omega arith
total-choose weight (j ∷ is) i =
    let w = weight j in
    let first =
      total_const w (if j == i then 1 else 0) (λ r. hits i (choose weight (j ∷ is) r))
        (λ r lt. let e : ltb r w ≡ true = ground arith in rw e refl) in
    let later =
      total_ext (sum_over is weight) (λ r. hits i (choose weight (j ∷ is) (w + r)))
        (λ r. hits i (choose weight is r))
        (λ r lt.
          let e : ltb (w + r) w ≡ false = ground arith in
          let back : w + r - w ≡ r = omega arith in rw (e, back) refl) in
    omega (
      arith,
      total_split w (sum_over is weight) (λ r. hits i (choose weight (j ∷ is) r)),
      first,
      later,
      total-choose weight is i,
      weighted i j (count i is) weight,
    )

-- A draw below the sum chooses an entry of positive weight.
pub choose-some :
    (weight : ℕ → ℕ) (is : List ℕ) (drawn : ℕ)
    → drawn < sum_over is weight
    → (i : ℕ) × (choose weight is drawn ≡ some i) × (0 < count i is) × (0 < weight i)
choose-some weight [] drawn h = absurd (omega arith)
choose-some weight (j ∷ is) drawn h = elim (Bool-cases (ltb drawn (weight j))) [
  | inl e ↦ (j, rw e refl, ground arith, ground arith)
  | inr e ↦
      let (i, chosen, member, pos) = choose-some weight is (drawn - weight j) (ground arith) in
      (i, rw e chosen, ground arith, pos)
]

zeros_small : (x : ℕ) → 0 < x → x < 2 ^ 64 → trailing_zeros x < 64
unfolding trailing_zeros
zeros_small x p h = zeros_lt 64 x p h

-- One entry of the loop: a node that can come next moves the running sum up by its value.
choose-step :
    (test : Bool) (v drawn cum : ℕ) (found : Option ℕ) (next after : ℕ → Option ℕ)
    → cum ≤ drawn
    → cum + (if test then v else 0) < u64_mod
    → ((c : ℕ) → c ≤ drawn → c ≡ cum + (if test then v else 0) → next c ≡ after (drawn - c))
    → (if test
        then (if ltb drawn ((cum + v) % u64_mod) then found else next ((cum + v) % u64_mod))
        else next cum)
      ≡ (if ltb (drawn - cum) (if test then v else 0)
          then found
          else after (drawn - cum - (if test then v else 0)))
choose-step false v drawn cum found next after le fits go =
    let e : ltb (drawn - cum) 0 ≡ false = ground arith in
    let same : drawn - cum - 0 ≡ drawn - cum = omega arith in rw (e, same) (go cum le (omega arith))
choose-step true v drawn cum found next after le fits go =
    let sum : (cum + v) % u64_mod ≡ cum + v = as_u64_small (cum + v) fits in
    elim (Bool-cases (ltb drawn (cum + v))) [
      | inl e ↦ let e₂ : ltb (drawn - cum) v ≡ true = ground arith in rw (sum, e, e₂) refl
      | inr e ↦
          let e₂ : ltb (drawn - cum) v ≡ false = ground arith in
          let same : drawn - cum - v ≡ drawn - (cum + v) = omega arith in
          rw (sum, e, e₂, same) (go (cum + v) (ground arith) refl)
    ]

module _ (rng : Rng) (fl : Float) (parents_mask dp_ind : List ℕ) (remaining placed : ℕ) where
  -- The weight that the loop gives node `i`.
  abbrev pub weight : ℕ → ℕ
  weight i =
      if bit_and (get_or parents_mask i 0) placed == get_or parents_mask i 0
      then get_or dp_ind (bit_xor remaining (shl1 i)) 0
      else 0

  pub pick-peel :
      (fuel bits drawn cum : ℕ)
      → bits < 2 ^ 64
      → cum ≤ drawn
      → cum + sum_over (peel fuel bits) weight < u64_mod
      → pick rng fl parents_mask fuel dp_ind bits remaining placed drawn cum
        ≡ choose weight (peel fuel bits) (drawn - cum)
  unfolding pick peel
  pick-peel zero bits drawn cum word le fits = refl
  pick-peel (suc fuel) bits drawn cum word le fits = elim (Bool-cases (bits == 0)) [
    | inl e ↦ rw e refl
    | inr e ↦
        let pos : 0 < bits = ground arith in
        let i = trailing_zeros bits in
        let pow : lowest_bit bits ≡ shl1 i =
          lowest_bit-pow bits pos word ∙ sym (shl1-small i (zeros_small bits pos word)) in
        let cleared : bit_xor bits (shl1 i) ≡ bit_and bits (bits - 1) =
          sym (ap (bit_xor bits) pow) ∙ xor-lowest_bit bits pos word in
        let index : trailing_zeros (shl1 i) ≡ i =
          sym (ap trailing_zeros pow) ∙ zeros-lowest_bit bits pos word in
        let rest = bit_and bits (bits - 1) in
        let next = λ (c : ℕ).
          pick-peel fuel rest drawn c
            (omega (arith, bit_and-le bits bits (bits - 1) (omega arith))) in
        let unfolded : sum_over (peel (suc fuel) bits) weight
            ≡ weight i + sum_over (peel fuel rest) weight =
          rw e refl in
        let value = get_or dp_ind (bit_xor remaining (shl1 i)) 0 in
        let test = bit_and (get_or parents_mask i 0) placed == get_or parents_mask i 0 in
        let found : Option ℕ = some i in
        rw (e, pow, index, cleared)
          (choose-step test value drawn cum found
            (λ c. pick rng fl parents_mask fuel dp_ind rest remaining placed drawn c)
            (λ d. choose weight (peel fuel rest) d) le (omega (arith, unfolded, fits))
            (λ c small same. next c small (omega (arith, unfolded, fits, same))))
  ]
