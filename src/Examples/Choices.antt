-- ===== src/Examples/Choices.antt =====
-- The theorems on the dispatch of the explainer, applied.
use causasv.Prelude.{ℕ, ◌≡◌, ◌≢◌, refl, arith, true, false, String, some, none, [], ◌∷◌, inl}
use causasv.Error.{Result, ok, err, invalid_config}
use causasv.Outcome.{AsvResult}
use causasv.Graph.Index.{assoc_index}
use causasv.Graph.{Dag, validate, validate_loop}
use causasv.Topo.{enumerate_topos, backtrack, each_node}
use causasv.Bits.{trailing_zeros}
use causasv.Cache.{value_cached, mask_to_coalition, mask_loop}
use causasv.Asv.Exact.{AsvExplainer, exact, walk_orders, walk_order}
use causasv.Asv.Auto.{auto, auto_choice, by_method}
use causasv.Asv.Labels.{IsRun, auto_labels}
use causasv.Asv.Dispatch.{auto_serves}
use causasv.Asv.Quality.{auto_quality, quality_choice}
use causasv.Examples.Samples.{naturals, size_of}

-- Two nodes with an edge.
abbrev oriented_pair : Dag assoc_index
oriented_pair = record {
  name_to_id = ("b", 1) ∷ ("a", 0) ∷ [];
  names = "a" ∷ "b" ∷ [];
  children = [] ∷ (0 ∷ []) ∷ [];
  parents = (1 ∷ []) ∷ [] ∷ [];
}

-- A chain of nine nodes: a rooted tree.
abbrev chain : Dag assoc_index
chain = record {
  name_to_id = [];
  names = "a" ∷ "b" ∷ "c" ∷ "d" ∷ "e" ∷ "f" ∷ "g" ∷ "h" ∷ "i" ∷ [];
  children =
      (1 ∷ [])
      ∷ (2 ∷ [])
      ∷ (3 ∷ [])
      ∷ (4 ∷ [])
      ∷ (5 ∷ [])
      ∷ (6 ∷ [])
      ∷ (7 ∷ [])
      ∷ (8 ∷ [])
      ∷ []
      ∷ [];
  parents =
      []
      ∷ (0 ∷ [])
      ∷ (1 ∷ [])
      ∷ (2 ∷ [])
      ∷ (3 ∷ [])
      ∷ (4 ∷ [])
      ∷ (5 ∷ [])
      ∷ (6 ∷ [])
      ∷ (7 ∷ [])
      ∷ [];
}

abbrev chain_explainer : AsvExplainer assoc_index
chain_explainer = record {
  dag = chain;
  parents_mask = 0 ∷ 1 ∷ 2 ∷ 4 ∷ 8 ∷ 16 ∷ 32 ∷ 64 ∷ 128 ∷ [];
  is_rooted_tree = true;
}

chain-validate : validate chain ≡ ok tt
unfolding validate validate_loop
chain-validate = refl

abbrev nothing : AsvResult ℕ
nothing = record {
  values = [];
  n_samples = 0;
  seed = none;
  is_exact = false;
  effective_sample_size = none;
  converged = none;
  stderr = none;
  n_order_ideals = none;
  state_ratio = none;
  memory_mb = none;
  fallback_from = none;
  fallback_reason = none;
  method_used = none;
}

auto_serves_example :
    auto naturals size_of (λ xs. xs) chain_explainer (ok nothing) ≢ err (invalid_config [])
auto_serves_example =
    auto_serves naturals size_of (λ xs. xs) chain_explainer (ok nothing) (omega arith) (inl refl)
      nothing refl chain-validate []

abbrev pair_explainer : AsvExplainer assoc_index
pair_explainer = record { dag = oriented_pair; parents_mask = 2 ∷ 0 ∷ []; is_rooted_tree = true }

abbrev pair_result : AsvResult ℕ
pair_result = record nothing {
  values = (0, 1) ∷ (1, 1) ∷ [];
  n_samples = 1;
  is_exact = true;
  method_used = some "exact";
}

pair-auto : auto naturals size_of (λ xs. xs) pair_explainer (ok nothing) ≡ ok pair_result
unfolding auto auto_choice by_method exact enumerate_topos validate validate_loop backtrack
    each_node walk_orders walk_order value_cached mask_to_coalition mask_loop trailing_zeros
pair-auto = refl

auto_labels_example :
    (method : String) × (run : Result (AsvResult ℕ)) × (found : AsvResult ℕ) × IsRun naturals
      size_of
      (λ xs. xs)
      pair_explainer
      (ok nothing)
      method
      run
    × (run ≡ ok found)
    × (pair_result
        ≡ record found { method_used = some method; fallback_from = none; fallback_reason = none })
auto_labels_example =
    auto_labels naturals size_of (λ xs. xs) pair_explainer (ok nothing) pair_result pair-auto

pair-auto_quality :
    auto_quality naturals size_of (λ xs. xs) pair_explainer (ok nothing) (ok nothing)
    ≡ ok pair_result
unfolding auto_quality quality_choice by_method exact enumerate_topos validate validate_loop
    backtrack each_node walk_orders walk_order value_cached mask_to_coalition mask_loop
    trailing_zeros
pair-auto_quality = refl
