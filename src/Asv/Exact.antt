-- ===== src/Asv/Exact.antt =====
-- The explainer and its exact methods (src/asv.rs).
use Prim.Native.Nat.{bit_or}
use causasv.Prelude.{
  ℕ, Bool, true, false, not, none, List, [], ◌∷◌, get_or, set, replicate, length, ltb,
}
use causasv.Error.{
  Result, ok, err, panicked, out_of_fuel, ◌>>=◌, ◌>>◌, fail_if, invalid_config,
  exact_tree_budget_exceeded, text, num,
}
use causasv.Bits.{shl1}
use causasv.Cache.{value_cached}
use causasv.Numerics.{Float}
use causasv.Outcome.{AsvResult}
use causasv.Graph.Index.{NameIndex}
use causasv.Graph.{Dag, node_count, validate}
use causasv.Topo.{enumerate_topos}
use causasv.Tree.{find_rooted_tree_root, estimate_tree_exact_cost}
use causasv.Tree.Exact.{tree_exact_asv}
use causasv.DagDp.{node_values, dag_exact_asv}
use causasv.DagDpSparse.{ExactDagConfig, default_config, dag_exact_asv_sparse}
use causasv.Asv.ParentsMask.{parents_masks}

pub record ExactTreeConfig : Type 0 where
  pub max_cartesian_terms : ℕ
  pub max_total_terms : ℕ

abbrev pub default_tree_config : ExactTreeConfig
default_tree_config = record { max_cartesian_terms = 50000; max_total_terms = 200000 }

pub record AsvExplainer (im : NameIndex) : Type 0 where
  pub dag : Dag im
  pub parents_mask : List ℕ
  pub is_rooted_tree : Bool

unfoldable pub new_explainer : {im : NameIndex} → Dag im → AsvExplainer im
unfolding find_rooted_tree_root parents_masks
new_explainer d = record {
  dag = d;
  parents_mask = parents_masks d;
  is_rooted_tree = elim (find_rooted_tree_root d) [
    | ok root ↦ true
    | err e ↦ false
    | panicked ↦ false
    | out_of_fuel ↦ false
  ];
}

module _ (fl : Float) where
  open fl use {F, add, sub, mul, div, of_u64}

  -- The variables that `exact` mutates.
  pub record Sums : Type 0 where
    pub phi : List F
    pub cache : List (ℕ × F)

  module _ (value_fn : List ℕ → Result F) where
    -- The loop over one ordering, from a prefix.
    unfoldable pub walk_order : ℕ → List ℕ → Sums → Result Sums
    unfolding value_cached
    walk_order prefix_mask [] st = ok st
    walk_order prefix_mask (node ∷ rest) st = do
      let with_node = bit_or prefix_mask (shl1 node)
      (v_with, cache') ← value_cached value_fn st.cache with_node
      (v_without, cache'') ← value_cached value_fn cache' prefix_mask
      walk_order with_node rest (record {
        phi = set st.phi node (add (get_or st.phi node (of_u64 0)) (sub v_with v_without));
        cache = cache'';
      })

    unfoldable pub walk_orders : List (List ℕ) → Sums → Result Sums
    unfolding walk_order
    walk_orders [] st = ok st
    walk_orders (ordering ∷ rest) st = do st' ← walk_order 0 ordering st; walk_orders rest st'

    module _ {im : NameIndex} where
      unfoldable pub exact : AsvExplainer im → Result (AsvResult F)
      unfolding validate enumerate_topos walk_orders
      exact self = do
        validate self.dag
        let n = node_count self.dag
        fail_if (ltb 64 n)
            (invalid_config (text "bitmask coalitions require n ≤ 64, got " ∷ num n ∷ []))
        orderings ← enumerate_topos self.dag
        st ← walk_orders orderings (record { phi = replicate n (of_u64 0); cache = [] })
        let scale = div (of_u64 1) (of_u64 (length orderings))
        ok (record {
          values = node_values fl (λ x. mul x scale) 0 st.phi;
          n_samples = length orderings;
          seed = none;
          is_exact = true;
          effective_sample_size = none;
          converged = none;
          stderr = none;
          n_order_ideals = none;
          state_ratio = none;
          memory_mb = none;
          fallback_from = none;
          fallback_reason = none;
          method_used = none;
        })

      unfoldable pub exact_tree_with_config :
          AsvExplainer im → ExactTreeConfig → Result (AsvResult F)
      unfolding validate find_rooted_tree_root estimate_tree_exact_cost tree_exact_asv
      exact_tree_with_config self config = do
        validate self.dag
        root ← find_rooted_tree_root self.dag
        estimate ←
            estimate_tree_exact_cost self.dag root config.max_cartesian_terms config.max_total_terms
        fail_if (not estimate.feasible) (
            exact_tree_budget_exceeded estimate.max_cartesian_terms estimate.cartesian_term_budget
              estimate.estimated_total_terms estimate.total_term_budget)
        tree_exact_asv fl self.dag value_fn

      unfoldable pub exact_tree : AsvExplainer im → Result (AsvResult F)
      unfolding exact_tree_with_config
      exact_tree self = exact_tree_with_config self default_tree_config

      unfoldable pub exact_dag : AsvExplainer im → Result (AsvResult F)
      unfolding validate dag_exact_asv
      exact_dag self = do validate self.dag; dag_exact_asv fl self.dag value_fn self.parents_mask

      unfoldable pub exact_dag_sparse_with_config :
          (List (ℕ × ℕ) → List (ℕ × ℕ)) → AsvExplainer im → ExactDagConfig → Result (AsvResult F)
      unfolding validate dag_exact_asv_sparse
      exact_dag_sparse_with_config arrange self config = do
        validate self.dag
        (result, n_order_ideals, state_ratio, memory_mb) ←
            dag_exact_asv_sparse fl arrange self.dag value_fn config self.parents_mask
        ok result

      unfoldable pub exact_dag_sparse :
          (List (ℕ × ℕ) → List (ℕ × ℕ)) → AsvExplainer im → Result (AsvResult F)
      unfolding exact_dag_sparse_with_config
      exact_dag_sparse arrange self = exact_dag_sparse_with_config arrange self default_config
