-- ===== src/Asv/Quality.antt =====
-- `AsvExplainer::auto_quality` (src/asv.rs). What `approximate_adaptive` and
-- `approximate_uniform_sparse_adaptive` return are parameters (`adaptive`, `uniform`), which
-- Asv/Runs.antt fills.
use causasv.Prelude.{
  ℕ, ◌<◌, ◌≤◌, ◌≡◌, ◌≢◌, ◌⊎◌, refl, sym, ◌∙◌, arith, Bool, true, false, String, Option, none, some,
  List, leb, if◌then◌else◌, inl, inr,
}
use causasv.Error.{
  CausasvError, Message, Result, ok, err, ◌>>=◌, invalid_config, overflow, cycle_detected,
  invalid_node_id, self_loop, duplicate_edge, empty_graph, not_rooted_tree, value_function_error,
  exact_tree_budget_exceeded, conflicting_edge, not_extendable, hull_fixed_point_not_reached,
}
use causasv.Numerics.{Float}
use causasv.Outcome.{AsvResult}
use causasv.Graph.Index.{NameIndex}
use causasv.Graph.{node_count, validate}
use causasv.Asv.Exact.{AsvExplainer, exact}
use causasv.Asv.Auto.{
  fallback_message, answer, by_method, fallen_back, sparse_preflight_budget, preflight,
  sparse_any_size, auto_tree, auto_dense,
}
use causasv.Error.Served.{IsServed, after-IsServed, if-IsServed}
use causasv.Asv.Answers.{by_method-IsServed, fallen_back-IsServed, answer-IsServed, answer-cases}
use causasv.Asv.Dispatch.{preflight-quiet, covers, tree-IsServed, last-IsServed}

-- The message of `Overflow`, after which the sampling over ideals gives way to another method.
abbrev pub overflow_message : CausasvError → Option Message
overflow_message cycle_detected = none
overflow_message (invalid_node_id id) = none
overflow_message (self_loop id) = none
overflow_message (duplicate_edge from to) = none
overflow_message empty_graph = none
overflow_message not_rooted_tree = none
overflow_message (value_function_error msg) = none
overflow_message (invalid_config msg) = none
overflow_message (overflow msg) = some msg
overflow_message (exact_tree_budget_exceeded a b c d) = none
overflow_message (conflicting_edge from to) = none
overflow_message not_extendable = none
overflow_message hull_fixed_point_not_reached = none

module _ (fl : Float) (value_fn : List ℕ → Result (Float.F fl)) {im : NameIndex}
    (arrange : List (ℕ × ℕ) → List (ℕ × ℕ)) (self : AsvExplainer im)
    (adaptive : Result (AsvResult (Float.F fl))) (uniform : Result (AsvResult (Float.F fl))) where
  -- Each branch after the preflight of the graphs with 21 to 63 nodes.
  unfoldable pub quality_if : Bool → Result (AsvResult (Float.F fl))
  quality_if false =
      answer overflow_message (by_method "uniform_sparse_adaptive" uniform)
        (λ msg. by_method "approx_adaptive" (fallen_back "uniform_sparse_adaptive" msg adaptive))
  quality_if true =
      answer fallback_message
        (by_method "exact_dag_sparse" (sparse_any_size fl value_fn arrange self adaptive))
        (λ failure.
          answer overflow_message
            (by_method "uniform_sparse_adaptive" (fallen_back "exact_dag_sparse" failure uniform))
            (λ msg. by_method "approx_adaptive" (fallen_back "exact_dag_sparse" msg adaptive)))

  -- More than 20 nodes, at most 63.
  unfoldable pub quality_wide : Result (AsvResult (Float.F fl))
  quality_wide = preflight fl value_fn arrange self adaptive sparse_preflight_budget >>= quality_if

  -- The choice by the number of nodes. The branches for trees and for at most 20 nodes are those of
  -- `auto`, with another sampling method.
  unfoldable pub quality_choice : Unit {0} → Result (AsvResult (Float.F fl))
  quality_choice u =
      let n = node_count self.dag in
      if leb n 8
      then by_method "exact" (exact fl value_fn self)
      else if self.is_rooted_tree
      then auto_tree fl value_fn arrange self adaptive "approx_adaptive"
      else if leb n 20
      then auto_dense fl value_fn arrange self adaptive
      else if leb n 63
      then quality_wide
      else by_method "approx_adaptive" adaptive

  unfoldable pub auto_quality : Result (AsvResult (Float.F fl))
  auto_quality = validate self.dag >>= quality_choice

  pub auto_quality-adaptive :
      63 < node_count self.dag
      → self.is_rooted_tree ≡ false
      → validate self.dag ≡ ok tt
      → auto_quality ≡ by_method "approx_adaptive" adaptive
  unfolding auto_quality quality_choice
  auto_quality-adaptive large no_tree valid =
      let n = node_count self.dag in
      let e8 : leb n 8 ≡ false = ground arith in
      let e20 : leb n 20 ≡ false = ground arith in
      let e63 : leb n 63 ≡ false = ground arith in rw (valid, e8, no_tree, e20, e63) refl

  module _ (served : IsServed adaptive) where
    sampled-IsServed :
        (m : Result (AsvResult (Float.F fl))) (from : String)
        → IsServed m
        → IsServed (
            answer overflow_message
              (by_method "uniform_sparse_adaptive" m)
              (λ msg. by_method "approx_adaptive" (fallen_back from msg adaptive)))
    sampled-IsServed m from quiet msg h =
        elim (answer-cases overflow_message (by_method "uniform_sparse_adaptive" m)
          (λ msg. by_method "approx_adaptive" (fallen_back from msg adaptive))) [
            | inl (e, unhandled) ↦ by_method-IsServed _ m quiet msg (sym e ∙ h)
            | inr (b, e) ↦
                last-IsServed fl value_fn arrange self adaptive served _ _ _ msg (sym e ∙ h)
          ]

    quality_if-IsServed : IsServed uniform → (b : Bool) → IsServed (quality_if b)
    unfolding quality_if
    quality_if-IsServed sampled false = sampled-IsServed uniform _ sampled
    quality_if-IsServed sampled true =
        answer-IsServed fallback_message _ _ (covers fl value_fn arrange self adaptive) (λ failure.
          sampled-IsServed _ _ (fallen_back-IsServed "exact_dag_sparse" failure uniform sampled))

    wide-IsServed :
        20 < node_count self.dag
        → (node_count self.dag ≤ 63 → IsServed uniform)
        → IsServed (
            if leb (node_count self.dag) 20
            then auto_dense fl value_fn arrange self adaptive
            else if leb (node_count self.dag) 63
            then quality_wide
            else by_method "approx_adaptive" adaptive)
    unfolding quality_wide
    wide-IsServed large sampled =
        let e : leb (node_count self.dag) 20 ≡ false = ground arith in
        rw e (
          if-IsServed (leb (node_count self.dag) 63) _ _
            (λ small.
              after-IsServed _ quality_if
                (preflight-quiet fl value_fn arrange self adaptive sparse_preflight_budget)
                (quality_if-IsServed (sampled (ground arith))))
            (λ wide. by_method-IsServed _ _ served))

  -- If the graph of an explainer has more than 8 nodes and is marked as a rooted tree or has more
  -- than 20 nodes, `validate` accepts the graph, `approximate_adaptive` returns ok and, where the
  -- graph has at most 63 nodes, `approximate_uniform_sparse_adaptive` does not return
  -- `InvalidConfig`, then `auto_quality` does not return `InvalidConfig`, whatever the value
  -- function does.
  pub auto_quality_serves :
      8 < node_count self.dag
      → (self.is_rooted_tree ≡ true) ⊎ (20 < node_count self.dag)
      → (result : AsvResult (Float.F fl)) → adaptive ≡ ok result
      → (node_count self.dag ≤ 63 → (msg : Message) → uniform ≢ err (invalid_config msg))
      → validate self.dag ≡ ok tt
      → (msg : Message) → auto_quality ≢ err (invalid_config msg)
  unfolding auto_quality quality_choice
  auto_quality_serves above kind result run sampled valid =
      let served : IsServed adaptive = λ msg h. cc in
      let e : leb (node_count self.dag) 8 ≡ false = ground arith in
      let other : (self.is_rooted_tree ≡ false) → 20 < node_count self.dag =
        λ no_tree. elim kind [ inl tree ↦ absurd (cc (no_tree, tree)) | inr large ↦ large ] in
      rw (valid, e)
        (if-IsServed self.is_rooted_tree _ _
          (λ is_tree. tree-IsServed fl value_fn arrange self adaptive served "approx_adaptive")
          (λ no_tree. wide-IsServed served (other no_tree) sampled))
