-- ===== src/Approx/Words.antt =====
-- For at most 64 nodes a large coalition (src/coalition.rs) is one word, the mask of src/approx.rs, and
-- a sample adds the same sums.
use Prim.Native.Nat.{bit_and, bit_or}
use causasv.Prelude.{
  ℕ, zero, suc, ◌+◌, ◌-◌, ◌*◌, ◌/◌, ◌%◌, ◌<◌, ◌≤◌, ◌≡◌, refl, ◌∙◌, ap, arith, List, [], ◌∷◌, ◌++◌,
  as_u32, as_u32_small, ◌==◌, Bool-cases, inl, inr,
}
use causasv.Bits.{shl1, trailing_zeros}
use causasv.Bits.Sets.{trailing_zeros_from}
use causasv.Cache.{mask_to_coalition, mask_loop}
use causasv.Numerics.{Float}
use causasv.Coalition.{
  LargeCoalition, empty, clear, insert, words_to_sorted_nodes, words_loop, word_loop,
}
use causasv.Approx.Masks.{with_bit}
use causasv.Approx.Values.{IsBelow, visit}
use causasv.Approx.MaskValues.{value_at, mask_sums}
use causasv.Approx.LargeValues.{key_value}
use causasv.Approx.Evaluators.{large_sums}

zeros_from-le : (w x : ℕ) → trailing_zeros_from w x ≤ w
unfolding trailing_zeros_from
zeros_from-le zero x = omega arith
zeros_from-le (suc w) x = ground (arith, zeros_from-le w (x / 2))

low_id : (bits : ℕ) → as_u32 (0 * 64 + trailing_zeros bits) ≡ trailing_zeros bits
unfolding trailing_zeros
low_id bits =
    let e : 0 * 64 + trailing_zeros bits ≡ trailing_zeros bits = omega arith in
    ap as_u32 e ∙ as_u32_small (trailing_zeros bits) (omega (arith, zeros_from-le 64 bits))

word_loop-mask_loop :
    (fuel bits : ℕ) (out : List ℕ) → word_loop fuel 0 bits out ≡ mask_loop fuel bits out
unfolding word_loop mask_loop
word_loop-mask_loop zero bits out = refl
word_loop-mask_loop (suc fuel) bits out = elim (Bool-cases (bits == 0)) [
  | inl e ↦ rw e refl
  | inr e ↦
      rw (e, low_id bits)
        (word_loop-mask_loop fuel (bit_and bits (bits - 1)) (out ++ trailing_zeros bits ∷ []))
]

one_word : (mask : ℕ) → words_to_sorted_nodes (mask ∷ []) ≡ mask_to_coalition mask
unfolding words_to_sorted_nodes words_loop mask_to_coalition
one_word mask = word_loop-mask_loop 64 mask []

insert-one_word :
    (c : LargeCoalition) (mask i : ℕ)
    → i < 64
    → c.words ≡ mask ∷ []
    → (insert c i).words ≡ with_bit mask i ∷ []
unfolding insert
insert-one_word c mask i lt same =
    let first : i / 64 ≡ 0 = omega arith in
    let bit : i % 64 ≡ i = omega arith in rw (same, first) (ap (λ k. bit_or mask (shl1 k) ∷ []) bit)

start-one_word : (n : ℕ) → 0 < n → n ≤ 64 → (clear (empty n)).words ≡ 0 ∷ []
unfolding clear empty
start-one_word n pos few = let e : (n + 63) / 64 ≡ 1 = omega arith in rw e refl

module _ (fl : Float) (v : List ℕ → Float.F fl) {E : Type 0} (weigh : Float.F fl → E → E)
    (tally : Float.F fl → ℕ → Float.F fl → E → E) where
  open fl use {F, sub}

  visit-one_word :
      (by : ℕ → F → E → E) (c : LargeCoalition) (mask : ℕ) (ordering : List ℕ) (e : E)
      → IsBelow 64 ordering
      → c.words ≡ mask ∷ []
      → visit fl insert (λ c. key_value v c.words) by c ordering e
        ≡ visit fl with_bit (value_at fl v) by mask ordering e
  visit-one_word by c mask [] e below same = refl
  visit-one_word by c mask (node ∷ rest) e below same =
      let next = insert-one_word c mask node (below node (ground arith)) same in
      let here : key_value v c.words ≡ value_at fl v mask =
        ap (key_value v) same ∙ ap v (one_word mask) in
      let there : key_value v (insert c node).words ≡ value_at fl v (with_bit mask node) =
        ap (key_value v) next ∙ ap v (one_word (with_bit mask node)) in
      rw (here, there)
        (visit-one_word by (insert c node) (with_bit mask node) rest _
          (λ i listed. below i (ground arith)) next)

  -- The two representations add the same.
  pub large_sums-mask_sums :
      (n : ℕ) (w : F) (ordering : List ℕ) (e : E)
      → n ≤ 64
      → IsBelow n ordering
      → large_sums fl v weigh tally n w ordering e ≡ mask_sums fl v weigh tally w ordering e
  large_sums-mask_sums n w [] e few below = refl
  large_sums-mask_sums n w (node ∷ rest) e few below =
      let pos : node < n = below node (ground arith) in
      visit-one_word (tally w) (clear (empty n)) 0 (node ∷ rest) (weigh w e)
        (λ i listed. omega (arith, below i listed)) (start-one_word n (omega arith) few)
