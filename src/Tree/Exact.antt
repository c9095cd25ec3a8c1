-- ===== src/Tree/Exact.antt =====
-- `log_lin_ext_of_s` and `tree_exact_asv` (src/tree.rs).
use Prim.Native.Nat.{bit_or}
use causasv.Prelude.{
  ℕ, zero, suc, ◌-◌, true, none, List, [], ◌∷◌, ◌++◌, map, get_or, set, replicate, length, ltb,
  ◌==◌, if◌then◌else◌,
}
use causasv.Error.{Result, ok, ◌>>=◌, ◌>>◌, fail_if, invalid_config, text, num}
use causasv.Bits.{shl1}
use causasv.Cache.{vec_to_mask, value_cached}
use causasv.Numerics.{Float}
use causasv.Outcome.{AsvResult}
use causasv.Topo.{heap_push}
use causasv.Graph.Index.{NameIndex}
use causasv.Graph.{Dag, node_count, all_nodes, children_raw}
use causasv.Tree.{
  find_rooted_tree_root, subtree_sizes, ancestors_of, enumerate_order_ideals,
  cartesian_product_vecs, dfs_sizes_in_s, sort_unstable, without,
}

module _ (fl : Float) where
  open fl use {F, add, sub, mul, ln, exp, of_u64}

  -- `iter().sum()`
  abbrev pub sum_f : List F → F
  sum_f xs = sum_on (of_u64 0) xs
    where
      sum_on : F → List F → F
      sum_on total [] = total
      sum_on total (x ∷ xs) = sum_on (add total x) xs

  -- `log_fact[from..]`, after the entry `last`
  abbrev pub log_facts : F → ℕ → ℕ → List F
  log_facts last from zero = []
  log_facts last from (suc k) =
      add last (ln (of_u64 from)) ∷ log_facts (add last (ln (of_u64 from))) (suc from) k

  -- The variables that the accumulation mutates.
  pub record Phi : Type 0 where
    pub phi : List F
    pub cache : List (ℕ × F)

  abbrev pub entry_of : List F → ℕ → F
  entry_of xs i = get_or xs i (of_u64 0)

  module _ {im : NameIndex} (d : Dag im) where
    unfoldable pub log_lin_ext_of_s : List ℕ → ℕ → List F → Result F
    unfolding dfs_sizes_in_s
    log_lin_ext_of_s s root log_fact =
        let sized = (do
          sub_sizes ← dfs_sizes_in_s d (node_count d) s root (replicate (node_count d) 0)
          let sum_log = sum_f (map (λ v. ln (of_u64 (get_or sub_sizes v 0))) s)
          ok (sub (entry_of log_fact (length s)) sum_log)) in
        if length s == 0 then ok (of_u64 0) else sized

    module _ (value_fn : List ℕ → Result F) (root : ℕ) (log_fact log_s : List F) where
      -- The body of the loop over the combinations.
      unfoldable pub weigh_combo : ℕ → List ℕ → List ℕ → Phi → Result Phi
      unfolding log_lin_ext_of_s vec_to_mask value_cached
      weigh_combo i anc combo st = do
        let s_vec = sort_unstable (anc ++ combo)
        let s_plus_i = heap_push i s_vec
        log_ls ← log_lin_ext_of_s s_vec root log_fact
        let n_comp = node_count d - length s_vec - 1
        let sum_log_si = sum_f (map (λ v. entry_of log_s v) s_plus_i)
        let w = exp (
            sub (add (add log_ls (entry_of log_fact n_comp)) sum_log_si)
              (entry_of log_fact (node_count d)))
        let s_mask = vec_to_mask s_vec
        (v_with, cache') ← value_cached value_fn st.cache (bit_or s_mask (shl1 i))
        (v_s, cache'') ← value_cached value_fn cache' s_mask
        ok (record {
          phi = set st.phi i (add (entry_of st.phi i) (mul w (sub v_with v_s)));
          cache = cache'';
        })

      unfoldable pub weigh_combos : ℕ → List ℕ → List (List ℕ) → Phi → Result Phi
      unfolding weigh_combo
      weigh_combos i anc [] st = ok st
      weigh_combos i anc (combo ∷ combos) st = do
        st' ← weigh_combo i anc combo st
        weigh_combos i anc combos st'

      -- The order ideals beside the path, for the ancestors `a_k` from some `k` on.
      unfoldable pub side_ideals : ℕ → List ℕ → Result (List (List (List ℕ)))
      unfolding enumerate_order_ideals
      side_ideals i [] = ok []
      side_ideals i (a_k ∷ below) = do
        let on_path = get_or below 0 i
        ideals ← enumerate_order_ideals d (without on_path (children_raw d a_k))
        rest ← side_ideals i below
        ok (ideals ∷ rest)

      unfoldable pub weigh_targets : List ℕ → Phi → Result Phi
      unfolding ancestors_of side_ideals weigh_combos cartesian_product_vecs
      weigh_targets [] st = ok st
      weigh_targets (i ∷ rest) st = do
        anc ← ancestors_of d i root
        ideals_per_level ← side_ideals i anc
        st' ← weigh_combos i anc (cartesian_product_vecs ideals_per_level) st
        weigh_targets rest st'

    unfoldable pub tree_exact_asv : (List ℕ → Result F) → Result (AsvResult F)
    unfolding find_rooted_tree_root subtree_sizes weigh_targets
    tree_exact_asv value_fn = do
      root ← find_rooted_tree_root d
      sizes ← subtree_sizes d root
      let n = node_count d
      fail_if (ltb 64 n)
          (invalid_config (text "bitmask coalitions require n ≤ 64, got " ∷ num n ∷ []))
      let log_fact = of_u64 0 ∷ log_facts (of_u64 0) 1 n
      let log_s = map (λ s. ln (of_u64 s)) sizes
      st ←
          weigh_targets value_fn root log_fact log_s (all_nodes d)
            (record { phi = replicate n (of_u64 0); cache = [] })
      ok (record {
        values = map (λ v. (v, entry_of st.phi v)) (all_nodes d);
        n_samples = 0;
        seed = none;
        is_exact = true;
        effective_sample_size = none;
        converged = none;
        stderr = none;
        n_order_ideals = none;
        state_ratio = none;
        memory_mb = none;
        fallback_from = none;
        fallback_reason = none;
        method_used = none;
      })
