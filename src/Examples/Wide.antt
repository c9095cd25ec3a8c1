-- ===== src/Examples/Wide.antt =====
-- The theorems on the whole of `auto_quality`, applied to a graph of 64 nodes.
use causasv.Prelude.{
  ℕ, ◌≤◌, ◌≡◌, ◌≢◌, ◌⊎◌, refl, arith, true, false, String, some, List, [], ◌∷◌, inr, length,
  replicate,
}
use causasv.Error.{ok, err, invalid_config}
use causasv.Outcome.{AsvResult}
use causasv.Graph.Index.{assoc_index}
use causasv.Graph.{Dag, validate, validate_loop, new, add_node}
use causasv.Graph.WellFormed.{IsWellFormed, new-IsWellFormed}
use causasv.Cpdag.{add_names}
use causasv.Cpdag.Build.{add_names-IsWellFormed}
use causasv.Asv.Exact.{AsvExplainer}
use causasv.Asv.Runs.{run_auto_quality, run_auto_quality_serves, run_auto_quality_returns}
use causasv.Examples.Samples.{naturals, last_rng, size_of}
use causasv.Examples.Estimates.{few_samples, first_state}

abbrev letters : List String
letters =
    "a" ∷ "b" ∷ "c" ∷ "d" ∷ "e" ∷ "f" ∷ "g" ∷ "h" ∷ "i" ∷ "j" ∷ "k" ∷ "l" ∷ "m" ∷ "n" ∷ "o" ∷ "p"
    ∷ "q" ∷ "r" ∷ "s" ∷ "t" ∷ "u" ∷ "v" ∷ "w" ∷ "x" ∷ "y" ∷ "z" ∷ "A" ∷ "B" ∷ "C" ∷ "D" ∷ "E" ∷ "F"
    ∷ "G" ∷ "H" ∷ "I" ∷ "J" ∷ "K" ∷ "L" ∷ "M" ∷ "N" ∷ "O" ∷ "P" ∷ "Q" ∷ "R" ∷ "S" ∷ "T" ∷ "U" ∷ "V"
    ∷ "W" ∷ "X" ∷ "Y" ∷ "Z" ∷ "0" ∷ "1" ∷ "2" ∷ "3" ∷ "4" ∷ "5" ∷ "6" ∷ "7" ∷ "8" ∷ "9" ∷ "+" ∷ "-"
    ∷ []

abbrev wide : Dag assoc_index
wide = add_names letters new

wide-IsWellFormed : IsWellFormed wide
unfolding new
wide-IsWellFormed = add_names-IsWellFormed letters new new-IsWellFormed (omega arith)

wide-validate : validate wide ≡ ok tt
unfolding validate validate_loop new add_node add_names
wide-validate = refl

wide-size : length wide.names ≡ 64
unfolding new add_node add_names
wide-size = refl

abbrev wide_explainer : AsvExplainer assoc_index
wide_explainer = record { dag = wide; parents_mask = replicate 64 0; is_rooted_tree = false }

run_auto_quality_serves_example :
    run_auto_quality naturals last_rng first_state (λ xs. xs) wide_explainer size_of few_samples
    ≢ err (invalid_config [])
run_auto_quality_serves_example =
    run_auto_quality_serves naturals last_rng first_state (λ xs. xs) wide_explainer
      wide-IsWellFormed wide-validate size_of length (λ c. refl) few_samples (omega arith)
      (omega arith) (omega (arith, wide-size)) (inr (omega (arith, wide-size))) []

run_auto_quality_returns_example :
    (result : AsvResult ℕ) × (run_auto_quality naturals last_rng first_state
        (λ xs. xs)
        wide_explainer
        size_of
        few_samples
      ≡ ok result)
    × (result.method_used ≡ some "approx_adaptive")
    × (2 ≤ result.n_samples)
    × (result.n_samples ≤ 5)
    × ((result.converged ≡ some true) ⊎ (result.n_samples ≡ 5))
run_auto_quality_returns_example =
    run_auto_quality_returns naturals last_rng first_state (λ xs. xs) wide_explainer
      wide-IsWellFormed wide-validate size_of length (λ c. refl) few_samples (omega arith)
      (omega arith) (omega (arith, wide-size)) refl
