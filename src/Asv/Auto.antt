-- ===== src/Asv/Auto.antt =====
-- `AsvExplainer::auto` (src/asv.rs). What `approximate` returns is a parameter (`approx`): it may run
-- in threads.
use causasv.Prelude.{
  ℕ, ◌-◌, Bool, true, false, String, Option, none, some, List, [], ◌∷◌, leb, if◌then◌else◌,
}
use causasv.Error.{
  CausasvError, Message, Result, ok, err, panicked, out_of_fuel, ◌>>=◌, text, num, cycle_detected,
  invalid_node_id, self_loop, duplicate_edge, empty_graph, not_rooted_tree, value_function_error,
  invalid_config, overflow, exact_tree_budget_exceeded, conflicting_edge, not_extendable,
  hull_fixed_point_not_reached,
}
use causasv.Bits.{shl1}
use causasv.Numerics.{Float}
use causasv.Outcome.{AsvResult}
use causasv.Graph.Index.{NameIndex}
use causasv.Graph.{node_count, validate}
use causasv.DagDpSparse.{default_config, estimate_sparse_feasible, sparse_state_budget}
use causasv.Asv.Exact.{
  AsvExplainer, default_tree_config, exact, exact_tree_with_config, exact_dag,
  exact_dag_sparse_with_config,
}

abbrev pub sparse_preflight_budget : ℕ
sparse_preflight_budget = 250000

-- The message of `InvalidConfig` and of `Overflow`, which `auto` answers with another method.
abbrev pub fallback_message : CausasvError → Option Message
fallback_message cycle_detected = none
fallback_message (invalid_node_id id) = none
fallback_message (self_loop id) = none
fallback_message (duplicate_edge from to) = none
fallback_message empty_graph = none
fallback_message not_rooted_tree = none
fallback_message (value_function_error msg) = none
fallback_message (invalid_config msg) = some msg
fallback_message (overflow msg) = some msg
fallback_message (exact_tree_budget_exceeded a b c d) = none
fallback_message (conflicting_edge from to) = none
fallback_message not_extendable = none
fallback_message hull_fixed_point_not_reached = none

-- The two failures of `exact_tree` that `auto` answers with another method, and why.
abbrev pub tree_reason : CausasvError → Option String
tree_reason cycle_detected = none
tree_reason (invalid_node_id id) = none
tree_reason (self_loop id) = none
tree_reason (duplicate_edge from to) = none
tree_reason empty_graph = none
tree_reason not_rooted_tree = none
tree_reason (value_function_error msg) = none
tree_reason (invalid_config msg) = some "tree exceeds exact_tree's n ≤ 64 bitmask limit"
tree_reason (overflow msg) = none
tree_reason (exact_tree_budget_exceeded a b c d) =
    some "tree shape exceeded exact_tree's feasibility budget"
tree_reason (conflicting_edge from to) = none
tree_reason not_extendable = none
tree_reason hull_fixed_point_not_reached = none

-- `match` on a result: the error is answered where `why` gives a reason, and passed on elsewhere.
unfoldable pub answer {ℓ κ} :
    {A : Type ℓ} {B : Type κ} → (CausasvError → Option B) → Result A → (B → Result A) → Result A
answer why (ok a) handle = ok a
answer why (err e) handle = elim (why e) [ none ↦ err e | some reason ↦ handle reason ]
answer why panicked handle = panicked
answer why out_of_fuel handle = out_of_fuel

module _ {F : Type 0} where
  -- `r.method_used = Some(method)`
  unfoldable pub by_method : String → Result (AsvResult F) → Result (AsvResult F)
  by_method method m = do r ← m; ok (record r { method_used = some method })

  -- The result of another method, with the reason.
  unfoldable pub fallen_back : String → Message → Result (AsvResult F) → Result (AsvResult F)
  fallen_back from reason m = do
    r ← m
    ok (record r { fallback_from = some from; fallback_reason = some reason })

module _ (fl : Float) (value_fn : List ℕ → Result (Float.F fl)) {im : NameIndex}
    (arrange : List (ℕ × ℕ) → List (ℕ × ℕ)) (self : AsvExplainer im)
    (approx : Result (AsvResult (Float.F fl))) where
  -- `exact_dag_sparse` on a graph of any size.
  abbrev pub sparse_any_size : Result (AsvResult (Float.F fl))
  sparse_any_size =
      exact_dag_sparse_with_config fl value_fn arrange self
        (record default_config { max_nodes = node_count self.dag })

  abbrev pub sparse_default : Result (AsvResult (Float.F fl))
  sparse_default = exact_dag_sparse_with_config fl value_fn arrange self default_config

  abbrev pub preflight : ℕ → Result Bool
  preflight budget = estimate_sparse_feasible self.dag self.parents_mask budget

  -- The end of the branch for trees, with the sampling method and the reason why `exact_tree`
  -- failed.
  unfoldable pub tree_last : String → String → Result (AsvResult (Float.F fl))
  tree_last method reason = by_method method (
      fallen_back "exact_tree"
        (if leb (node_count self.dag) 63
          then text reason ∷ text "; exact_dag_sparse also infeasible for this DAG" ∷ []
          else text reason ∷ [])
        approx)

  -- Each branch after its preflight.
  unfoldable pub tree_if : String → String → Bool → Result (AsvResult (Float.F fl))
  tree_if method reason true =
      answer fallback_message
        (by_method "exact_dag_sparse" (fallen_back "exact_tree" (text reason ∷ []) sparse_any_size))
        (λ msg. tree_last method reason)
  tree_if method reason false = tree_last method reason

  unfoldable pub auto_tree_fallback : String → String → Result (AsvResult (Float.F fl))
  auto_tree_fallback method reason =
      if leb (node_count self.dag) 63
      then (preflight sparse_preflight_budget >>= tree_if method reason)
      else tree_last method reason

  -- The branch for trees, with the sampling method.
  unfoldable pub auto_tree : String → Result (AsvResult (Float.F fl))
  auto_tree method =
      answer tree_reason
        (by_method "exact_tree" (exact_tree_with_config fl value_fn self default_tree_config))
        (auto_tree_fallback method)

  unfoldable pub dense_if : Bool → Result (AsvResult (Float.F fl))
  dense_if false = by_method "exact_dag" (exact_dag fl value_fn self)
  dense_if true =
      answer fallback_message (by_method "exact_dag_sparse" sparse_default)
        (λ msg. by_method "exact_dag" (exact_dag fl value_fn self))

  -- At most 20 nodes.
  unfoldable pub auto_dense : Result (AsvResult (Float.F fl))
  auto_dense = preflight (shl1 (node_count self.dag - 1)) >>= dense_if

  unfoldable pub sparse_if : Bool → Result (AsvResult (Float.F fl))
  sparse_if false = by_method "approx" (
      fallen_back "exact_dag_sparse"
        (text "order ideal count exceeds sparse memory budget ("
          ∷ num (sparse_state_budget default_config)
          ∷ text " states)"
          ∷ [])
        approx)
  sparse_if true =
      answer fallback_message (by_method "exact_dag_sparse" sparse_default)
        (λ msg. by_method "approx" (fallen_back "exact_dag_sparse" msg approx))

  -- More than 20 nodes, at most 28.
  unfoldable pub auto_sparse : Result (AsvResult (Float.F fl))
  auto_sparse = preflight (sparse_state_budget default_config) >>= sparse_if

  unfoldable pub wide_if : Bool → Result (AsvResult (Float.F fl))
  wide_if false = by_method "approx" approx
  wide_if true =
      answer fallback_message (by_method "exact_dag_sparse" sparse_any_size)
        (λ msg. by_method "approx" (fallen_back "exact_dag_sparse" msg approx))

  -- More than 28 nodes, at most 63.
  unfoldable pub auto_wide : Result (AsvResult (Float.F fl))
  auto_wide = preflight sparse_preflight_budget >>= wide_if

  -- The choice by the number of nodes.
  unfoldable pub auto_choice : Unit {0} → Result (AsvResult (Float.F fl))
  auto_choice u =
      let n = node_count self.dag in
      if leb n 8
      then by_method "exact" (exact fl value_fn self)
      else if self.is_rooted_tree
      then auto_tree "approx"
      else if leb n 20
      then auto_dense
      else if leb n 28
      then auto_sparse
      else if leb n 63
      then auto_wide
      else by_method "approx" approx

  unfoldable pub auto : Result (AsvResult (Float.F fl))
  auto = validate self.dag >>= auto_choice
