-- ===== src/Examples/Parts.antt =====
-- The theorems on sparse counting, trees and large coalitions, applied.
use causasv.Prelude.{
  ℕ, ◌≡◌, ◌≤◌, ◌<◌, refl, arith, true, false, List, [], ◌∷◌, ◌⊎◌, length, if◌then◌else◌, ◌==◌,
  u64_mod,
}
use causasv.Error.{ok, err, not_rooted_tree}
use causasv.DagDp.Counting.{linear_extensions}
use causasv.DagDp.Table.{Overflows}
use causasv.DagDpSparse.{dp_ind_lazy}
use causasv.DagDpSparse.Memo.{IsMemo, dp_ind_lazy_exact}
use causasv.Tree.{find_rooted_tree_root}
use causasv.Tree.Root.{IsRoot, find_rooted_tree_root_decides}
use causasv.Coalition.{LargeCoalition, contains_node, insert, clear}
use causasv.Coalition.Members.{contains_node-insert, contains_node-clear}
use causasv.Examples.{sample, sample-IsWellFormed}

no_entry : IsMemo (0 ∷ 0 ∷ 3 ∷ []) []
no_entry m v h = cc

dp_ind_lazy_exact_example :
    ((cache : List (ℕ × ℕ)) × (dp_ind_lazy 7 (0 ∷ 0 ∷ 3 ∷ []) 3 []
        ≡ ok (linear_extensions (0 ∷ 0 ∷ 3 ∷ []) 7, cache))
      × IsMemo (0 ∷ 0 ∷ 3 ∷ []) cache
      × (linear_extensions (0 ∷ 0 ∷ 3 ∷ []) 7 < u64_mod))
    ⊎ (Overflows (dp_ind_lazy 7 (0 ∷ 0 ∷ 3 ∷ []) 3 [])
        × ((m : ℕ) × (m ≤ 7) × (u64_mod ≤ linear_extensions (0 ∷ 0 ∷ 3 ∷ []) m)))
dp_ind_lazy_exact_example =
    dp_ind_lazy_exact (0 ∷ 0 ∷ 3 ∷ []) 3 (omega arith) (omega arith) 7 [] (omega arith) no_entry

find_rooted_tree_root_decides_example :
    ((r : ℕ) × (find_rooted_tree_root sample ≡ ok r) × IsRoot sample r)
    ⊎ ((find_rooted_tree_root sample ≡ err not_rooted_tree) × ¬ ((r : ℕ) × IsRoot sample r))
find_rooted_tree_root_decides_example = find_rooted_tree_root_decides sample sample-IsWellFormed

abbrev two_words : LargeCoalition
two_words = record { words = 5 ∷ 0 ∷ []; n = 100 }

contains_node-insert_example :
    contains_node (insert two_words 70) 70 ≡ (if 70 == 70 then true else contains_node two_words 70)
contains_node-insert_example = contains_node-insert two_words 70 70 refl (omega arith)

contains_node-clear_example :
    (contains_node (clear two_words) 2 ≡ false)
    × (length (clear two_words).words ≡ length two_words.words)
contains_node-clear_example = contains_node-clear two_words 2
