-- ===== src/Coalition.antt =====
-- Coalitions of graphs with more than 64 nodes (src/coalition.rs).
pub mod Members
use Prim.Native.Nat.{bit_and, bit_or}
use causasv.Prelude.{
  ℕ, zero, suc, ◌+◌, ◌-◌, ◌*◌, ◌/◌, ◌%◌, Bool, List, [], ◌∷◌, ◌++◌, map, get_or, set, replicate,
  length, ◌==◌, if◌then◌else◌, as_u32,
}
use causasv.Bits.{shl1, trailing_zeros, members_from}

abbrev pub words_for_n : ℕ → ℕ
words_for_n n = (n + 63) / 64

-- The `while bits != 0` loop over word `w`, with at most 64 rounds.
unfoldable pub word_loop : ℕ → ℕ → ℕ → List ℕ → List ℕ
word_loop zero w bits out = out
word_loop (suc fuel) w bits out =
    let rest =
      word_loop fuel w (bit_and bits (bits - 1))
        (out ++ as_u32 (w * 64 + trailing_zeros bits) ∷ []) in
    if bits == 0 then out else rest

unfoldable pub words_loop : ℕ → List ℕ → List ℕ → List ℕ
unfolding word_loop
words_loop w [] out = out
words_loop w (word ∷ words) out = words_loop (suc w) words (word_loop 64 w word out)

unfoldable pub words_to_sorted_nodes : List ℕ → List ℕ
unfolding words_loop
words_to_sorted_nodes words = words_loop 0 words []

pub record LargeCoalition : Type 0 where
  pub words : List ℕ
  pub n : ℕ

unfoldable pub empty : ℕ → LargeCoalition
empty n_nodes = record { words = replicate (words_for_n n_nodes) 0; n = n_nodes }

unfoldable pub clear : LargeCoalition → LargeCoalition
clear c = record c { words = map (λ _. 0) c.words }

unfoldable pub insert : LargeCoalition → ℕ → LargeCoalition
insert c i = record c {
  words = set c.words (i / 64) (bit_or (get_or c.words (i / 64) 0) (shl1 (i % 64)));
}

-- `(word >> k) & 1 == 1`
unfoldable pub shifted_bit : ℕ → ℕ → Bool
shifted_bit zero word = bit_and word 1 == 1
shifted_bit (suc k) word = shifted_bit k (word / 2)

unfoldable pub contains_node : LargeCoalition → ℕ → Bool
unfolding shifted_bit
contains_node c i = shifted_bit (i % 64) (get_or c.words (i / 64) 0)

unfoldable pub to_sorted_nodes : LargeCoalition → List ℕ
unfolding words_loop
to_sorted_nodes c = words_loop 0 c.words []

abbrev pub snapshot_key : LargeCoalition → List ℕ
snapshot_key c = c.words

-- `count_ones`
abbrev pub count_ones : ℕ → ℕ
count_ones word = length (members_from 0 64 word)

unfoldable pub count_nodes : LargeCoalition → ℕ
count_nodes c = sum_words c.words
  where
    sum_words : List ℕ → ℕ
    sum_words [] = 0
    sum_words (word ∷ words) = count_ones word + sum_words words
