-- ===== src/Coalition/Members.antt =====
-- Which nodes a large coalition has (src/coalition.rs).
use Prim.Native.Nat.{bit_and, bit_or}
use causasv.Prelude.{
  ℕ, zero, suc, ◌/◌, ◌%◌, ◌<◌, ◌≡◌, refl, ap, arith, true, false, List, [], ◌∷◌, map, get_or,
  length, get_or-set, ◌==◌, if◌then◌else◌, Bool-cases, inl, inr, length-map,
}
use causasv.Bits.{bit_at, shl1, bit_at-shl1, lacks_bit}
use causasv.Bits.Digits.{bit_at-or, bit_at-and, bit_at-zero, lt-pow_of_bits, bit_at_beyond}
use causasv.Coalition.{LargeCoalition, words_for_n, clear, insert, contains_node, shifted_bit}

low_bit-le : (word : ℕ) → bit_and word 1 < 2
low_bit-le word =
    lt-pow_of_bits 1 (bit_and word 1)
      (λ i le. ground (arith, bit_at-and i word 1, bit_at_beyond 1 i 1 (omega arith) le))

shifted_bit-bit_at : (k word : ℕ) → shifted_bit k word ≡ bit_at k word
unfolding shifted_bit
shifted_bit-bit_at zero word = ground (arith, lacks_bit word 0 (omega arith), low_bit-le word)
shifted_bit-bit_at (suc k) word = shifted_bit-bit_at k (word / 2)

-- In a coalition with as many words as its `n` nodes need, after `insert` of a node below `n` that
-- node is a member, and every other node is a member if it was one.
pub contains_node-insert :
    (c : LargeCoalition) (i j : ℕ)
    → length c.words ≡ words_for_n c.n
    → i < c.n
    → contains_node (insert c i) j ≡ (if i == j then true else contains_node c j)
unfolding contains_node insert
contains_node-insert c i j sized lt =
    let word = get_or c.words (i / 64) 0 in
    let room : i / 64 < length c.words = omega arith in
    let write = get_or-set c.words (i / 64) (j / 64) (bit_or word (shl1 (i % 64))) 0 room in
    let same = λ (e : i / 64 ≡ j / 64). ap (λ w. bit_at (j % 64) (get_or c.words w 0)) e in
    rw
      (
        shifted_bit-bit_at (j % 64) (get_or (insert c i).words (j / 64) 0),
        shifted_bit-bit_at (j % 64) (get_or c.words (j / 64) 0),
        write,
      )
      (elim (Bool-cases (i / 64 == j / 64)) [
        | inr other ↦ rw other (ground arith)
        | inl one ↦ rw one (
            ground (
              arith,
              same,
              bit_at-or (j % 64) word (shl1 (i % 64)),
              bit_at-shl1 (i % 64) (j % 64) (omega arith),
            ))
      ])

get_or-zeros : (words : List ℕ) (w : ℕ) → get_or (map (λ (_ : ℕ). zero) words) w 0 ≡ 0
get_or-zeros [] w = refl
get_or-zeros (x ∷ words) zero = refl
get_or-zeros (x ∷ words) (suc w) = get_or-zeros words w

-- After `clear` no node is a member of the coalition, and the number of words is as before.
pub contains_node-clear :
    (c : LargeCoalition) (j : ℕ)
    → (contains_node (clear c) j ≡ false) × (length (clear c).words ≡ length c.words)
unfolding contains_node clear
contains_node-clear c j = (
  rw
      (
        shifted_bit-bit_at (j % 64) (get_or (clear c).words (j / 64) 0),
        get_or-zeros c.words (j / 64),
      )
      (bit_at-zero (j % 64)),
  length-map c.words (λ (_ : ℕ). zero),
)
