-- ===== src/DagDpSparse.antt =====
-- Exact values by dynamic programming over the order ideals alone (src/dag_dp_sparse.rs).
-- A `HashMap` is an association list with one entry for each key. The order in which the program
-- goes through its map is not fixed; it is a parameter, `arrange`.
pub mod Memo
use Prim.Native.Nat.{bit_and, bit_or, bit_xor}
use causasv.Prelude.{
  ℕ, zero, suc, ◌+◌, ◌-◌, ◌*◌, ◌/◌, ◌≡◌, Bool, true, false, not, ◌&&◌, Option, none, some, List, [],
  ◌∷◌, ◌++◌, get_or, set, replicate, length, take, contains, ltb, ◌==◌, if◌then◌else◌, checked_add,
}
use causasv.Error.{
  Result, ok, err, out_of_fuel, ◌>>=◌, ◌>>◌, fail_if, unwrap, overflow, invalid_config, text, num,
}
use causasv.Bits.{shl1}
use causasv.Cache.{cache_get, value_cached}
use causasv.Numerics.{Float}
use causasv.Outcome.{AsvResult}
use causasv.DagDp.{overflowed, node_values, Weights}
use causasv.Graph.Index.{NameIndex}
use causasv.Graph.{Dag, node_count}

pub record ExactDagConfig : Type 0 where
  pub max_nodes : ℕ
  pub memory_limit_bytes : ℕ

abbrev pub default_config : ExactDagConfig
default_config = record { max_nodes = 28; memory_limit_bytes = 2 * 1024 * 1024 * 1024 }

-- `for (i, &pmask) in parents_mask.iter().enumerate()`, from node `i` on
unfoldable pub for_nodes {ℓ} : {S : Type ℓ} → (ℕ → ℕ → S → Result S) → ℕ → List ℕ → S → Result S
for_nodes body i [] s = ok s
for_nodes body i (pmask ∷ rest) s = do s' ← body i pmask s; for_nodes body (suc i) rest s'

-- One node of the loop of `dp_ind_lazy`, with the recursive call as a parameter; the state is
-- `result` and the cache.
unfoldable pub lazy_node :
    (ℕ → List (ℕ × ℕ) → Result (ℕ × List (ℕ × ℕ)))
    → ℕ
    → ℕ
    → ℕ
    → ℕ × List (ℕ × ℕ)
    → Result (ℕ × List (ℕ × ℕ))
lazy_node recurse mask i pmask (result, cache) =
    if bit_and mask (shl1 i) == 0
    then ok (result, cache)
    else if bit_and pmask mask == 0
    then (do
      (sub, cache') ← recurse (bit_xor mask (shl1 i)) cache
      elim (checked_add result sub) [
        | some sum ↦ ok (sum, cache')
        | none ↦ err (overflow (overflowed "dp_ind" mask))
      ])
    else ok (result, cache)

-- The count, and the cache as the call leaves it. The masks of nested calls get smaller.
unfoldable pub lazy_calls : ℕ → List ℕ → ℕ → ℕ → List (ℕ × ℕ) → Result (ℕ × List (ℕ × ℕ))
unfolding for_nodes lazy_node
lazy_calls zero parents_mask n mask cache = out_of_fuel
lazy_calls (suc fuel) parents_mask n mask cache =
    let computed = (do
      (result, cache') ←
          for_nodes (lazy_node (lazy_calls fuel parents_mask n) mask) 0 (take n parents_mask)
            (0, cache)
      ok (result, (mask, result) ∷ cache')) in
    if mask == 0
    then ok (1, cache)
    else elim (cache_get cache mask) [ some v ↦ ok (v, cache) | none ↦ computed ]

unfoldable pub dp_ind_lazy : ℕ → List ℕ → ℕ → List (ℕ × ℕ) → Result (ℕ × List (ℕ × ℕ))
unfolding lazy_calls
dp_ind_lazy mask parents_mask n cache = lazy_calls (suc mask) parents_mask n mask cache

-- `insert` into a map with one entry for each key
abbrev pub put : List (ℕ × ℕ) → ℕ → ℕ → List (ℕ × ℕ)
put [] key x = (key, x) ∷ []
put ((k, y) ∷ entries) key x = if k == key then (k, x) ∷ entries else (k, y) ∷ put entries key x

abbrev pub get_zero : List (ℕ × ℕ) → ℕ → ℕ
get_zero entries key = elim (cache_get entries key) [ some x ↦ x | none ↦ 0 ]

-- The variables that the breadth-first search mutates.
pub record Ideals : Type 0 where
  pub dp_fwd : List (ℕ × ℕ)
  pub queue : List ℕ

module _ (config : ExactDagConfig) where
  -- Node `i` after the order ideal `s`.
  unfoldable pub expand_node : ℕ → ℕ → ℕ → ℕ → Ideals → Result Ideals
  expand_node s fwd i pmask st =
      if not (bit_and s (shl1 i) == 0)
      then ok st
      else if bit_and pmask s == pmask
      then (let s_next = bit_or s (shl1 i) in
          let entry = get_zero st.dp_fwd s_next in
          elim (checked_add entry fwd) [
            | none ↦ err (overflow (overflowed "dp_fwd" s_next))
            | some sum ↦
                let dp_fwd' = put st.dp_fwd s_next sum in
                if not (entry == 0)
                then ok (record { dp_fwd = dp_fwd'; queue = st.queue })
                else if ltb config.memory_limit_bytes (length dp_fwd' * 80)
                then err (
                    invalid_config (
                      text "exact_dag_sparse: exceeded memory limit ("
                      ∷ num config.memory_limit_bytes
                      ∷ text " bytes) after "
                      ∷ num (length dp_fwd')
                      ∷ text " order ideals; try approximate method"
                      ∷ []))
                else ok (record { dp_fwd = dp_fwd'; queue = st.queue ++ s_next ∷ [] })
          ])
      else ok st

  -- The `while let` loop. A mask is put on the queue when its entry is new.
  unfoldable pub expand : ℕ → List ℕ → Ideals → Result (List (ℕ × ℕ))
  unfolding for_nodes expand_node
  expand zero parents_mask st = elim st.queue [ [] ↦ ok st.dp_fwd | _ ∷ _ ↦ out_of_fuel ]
  expand (suc fuel) parents_mask st = elim st.queue [
    | [] ↦ ok st.dp_fwd
    | s ∷ rest ↦ do
      fwd ← unwrap (cache_get st.dp_fwd s)
      st' ← for_nodes (expand_node s fwd) 0 parents_mask (record st { queue = rest })
      expand fuel parents_mask st'
  ]

module _ (fl : Float) where
  open fl use {F, add, sub, mul, div, of_u64}

  -- The variables that the accumulation mutates.
  pub record Sums : Type 0 where
    pub phi : List F
    pub dp_ind : List (ℕ × ℕ)
    pub values : List (ℕ × F)

  module _ (value_fn : List ℕ → Result F) (parents_mask : List ℕ) (n full_mask : ℕ) where
    unfoldable pub sparse_node : ℕ → F → ℕ → ℕ → Sums → Result Sums
    unfolding dp_ind_lazy value_cached
    sparse_node s w_prefix i pmask st =
        if not (bit_and s (shl1 i) == 0)
        then ok st
        else if not (bit_and pmask s == pmask)
        then ok st
        else (do
          let suffix_mask = bit_xor full_mask (bit_or s (shl1 i))
          (w_suffix, dp_ind') ← dp_ind_lazy suffix_mask parents_mask n st.dp_ind
          (v_with, values') ← value_cached value_fn st.values (bit_or s (shl1 i))
          (v_s, values'') ← value_cached value_fn values' s
          ok (record {
            phi = set st.phi i (
                add (get_or st.phi i (of_u64 0))
                  (mul (mul w_prefix (of_u64 w_suffix)) (sub v_with v_s)));
            dp_ind = dp_ind';
            values = values'';
          }))

    unfoldable pub sparse_ideals : List (ℕ × ℕ) → Sums → Result Sums
    unfolding for_nodes sparse_node
    sparse_ideals [] st = ok st
    sparse_ideals ((s, fwd_count) ∷ rest) st = if fwd_count == 0 then sparse_ideals rest st else (do
      st' ← for_nodes (sparse_node s (of_u64 fwd_count)) 0 parents_mask st
      sparse_ideals rest st')

  -- The result, the number of order ideals, the share of states and the estimate of the memory.
  unfoldable pub dag_exact_asv_sparse :
      (List (ℕ × ℕ) → List (ℕ × ℕ))
      → {im : NameIndex} → Dag im
      → (List ℕ → Result F)
      → ExactDagConfig
      → List ℕ
      → Result (AsvResult F × ℕ × F × F)
  unfolding expand dp_ind_lazy sparse_ideals
  dag_exact_asv_sparse arrange d value_fn config parents_mask = do
    let n = node_count d
    fail_if (ltb config.max_nodes n) (
        invalid_config (
          text "exact_dag_sparse: n="
          ∷ num n
          ∷ text " exceeds max_nodes="
          ∷ num config.max_nodes
          ∷ text "; use approximate method for large DAGs"
          ∷ []))
    fail_if (ltb 63 n) (
        invalid_config
          (text "bitmask representation requires n ≤ 63 for sparse DP, got " ∷ num n ∷ []))
    let full_mask = shl1 n - 1
    dp_fwd ← expand config (shl1 n) parents_mask (record { dp_fwd = (0, 1) ∷ []; queue = 0 ∷ [] })
    let n_order_ideals = length dp_fwd
    let state_ratio = div (of_u64 n_order_ideals) (of_u64 (shl1 n))
    (total, dp_ind) ← dp_ind_lazy full_mask parents_mask n []
    st ←
        sparse_ideals value_fn parents_mask n full_mask (arrange dp_fwd)
          (record { phi = replicate n (of_u64 0); dp_ind = dp_ind; values = [] })
    let memory_mb =
        div (of_u64 ((length dp_fwd + length st.dp_ind) * 80)) (mul (of_u64 1024) (of_u64 1024))
    ok (
      record {
        values = node_values fl (λ x. div x (of_u64 total)) 0 st.phi;
        n_samples = n_order_ideals;
        seed = none;
        is_exact = true;
        effective_sample_size = none;
        converged = none;
        stderr = none;
        n_order_ideals = some n_order_ideals;
        state_ratio = some state_ratio;
        memory_mb = some memory_mb;
        fallback_from = none;
        fallback_reason = none;
        method_used = none;
      },
      n_order_ideals,
      state_ratio,
      memory_mb,
    )

abbrev pub sparse_state_budget : ExactDagConfig → ℕ
sparse_state_budget config = config.memory_limit_bytes / 80

-- The loop over the nodes; `none` is `return false`. The state is `visited` and the queue.
unfoldable pub visit_nodes : ℕ → ℕ → ℕ → List ℕ → List ℕ → List ℕ → Option (List ℕ × List ℕ)
visit_nodes state_budget s i [] visited queue = some (visited, queue)
visit_nodes state_budget s i (pmask ∷ rest) visited queue =
    let ns = bit_or s (shl1 i) in
    if bit_and s (shl1 i) == 0 && bit_and pmask s == pmask
    then if contains visited ns
      then visit_nodes state_budget s (suc i) rest visited queue
      else if ltb state_budget (length (ns ∷ visited))
      then none
      else visit_nodes state_budget s (suc i) rest (ns ∷ visited) (queue ++ ns ∷ [])
    else visit_nodes state_budget s (suc i) rest visited queue

unfoldable pub visit_ideals : ℕ → List ℕ → ℕ → List ℕ → List ℕ → Result Bool
unfolding visit_nodes
visit_ideals zero parents_mask state_budget visited queue = elim queue [
  | [] ↦ ok true
  | _ ∷ _ ↦ out_of_fuel
]
visit_ideals (suc fuel) parents_mask state_budget visited queue = elim queue [
  | [] ↦ ok true
  | s ∷ rest ↦ elim (visit_nodes state_budget s 0 parents_mask visited rest) [
    | none ↦ ok false
    | some (visited', queue') ↦ visit_ideals fuel parents_mask state_budget visited' queue'
  ]
]

unfoldable pub estimate_sparse_feasible : {im : NameIndex} → Dag im → List ℕ → ℕ → Result Bool
unfolding visit_ideals
estimate_sparse_feasible d parents_mask state_budget =
    visit_ideals (shl1 (node_count d)) (take (node_count d) parents_mask) state_budget (0 ∷ [])
      (0 ∷ [])
