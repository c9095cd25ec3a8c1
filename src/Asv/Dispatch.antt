-- ===== src/Asv/Dispatch.antt =====
-- `AsvExplainer::auto` (src/asv.rs) does not report the size limit of a method that it tried.
use causasv.Prelude.{
  ℕ, ◌<◌, ◌≡◌, ◌≢◌, ◌⊎◌, arith, Bool, true, false, String, none, List, [], ◌∷◌, take, leb,
  if◌then◌else◌, inl, inr,
}
use causasv.Error.{Message, Result, ok, err, invalid_config}
use causasv.Bits.{shl1}
use causasv.Numerics.{Float}
use causasv.Outcome.{AsvResult}
use causasv.Graph.Index.{NameIndex}
use causasv.Graph.{node_count, validate}
use causasv.DagDpSparse.{estimate_sparse_feasible, sparse_state_budget, default_config}
use causasv.Asv.Exact.{AsvExplainer}
use causasv.Asv.Auto.{
  fallback_message, tree_reason, by_method, fallen_back, sparse_preflight_budget, preflight,
  tree_last, tree_if, sparse_if, wide_if, auto_choice, auto_tree_fallback, auto_tree, auto_dense,
  auto_sparse, auto_wide, auto,
}
use causasv.Error.Served.{IsServed, after-IsServed, if-IsServed}
use causasv.Asv.Answers.{
  by_method-IsServed, fallen_back-IsServed, answer-IsServed, if-keeps, visit_ideals-quiet,
}

module _ (fl : Float) (value_fn : List ℕ → Result (Float.F fl)) {im : NameIndex}
    (arrange : List (ℕ × ℕ) → List (ℕ × ℕ)) (self : AsvExplainer im)
    (approx : Result (AsvResult (Float.F fl))) where
  pub preflight-quiet :
      (budget : ℕ) (msg : Message)
      → preflight fl value_fn arrange self approx budget ≢ err (invalid_config msg)
  unfolding estimate_sparse_feasible
  preflight-quiet budget msg =
      visit_ideals-quiet (shl1 (node_count self.dag)) (take (node_count self.dag) self.parents_mask)
        budget (0 ∷ []) (0 ∷ []) (invalid_config msg)

  pub covers : (msg : Message) → fallback_message (invalid_config msg) ≢ none
  covers msg h = cc

  module _ (served : IsServed approx) where
    pub last-IsServed :
        (method from : String) (reason : Message)
        → IsServed (by_method method (fallen_back from reason approx))
    last-IsServed method from reason =
        by_method-IsServed method (fallen_back from reason approx)
          (fallen_back-IsServed from reason approx served)

    tree_if-IsServed :
        (method reason : String) (b : Bool)
        → IsServed (tree_if fl value_fn arrange self approx method reason b)
    unfolding tree_if tree_last
    tree_if-IsServed method reason false = last-IsServed _ _ _
    tree_if-IsServed method reason true =
        answer-IsServed fallback_message _ _ covers (λ msg. last-IsServed _ _ _)

    pub tree_fallback-IsServed :
        (method reason : String)
        → IsServed (auto_tree_fallback fl value_fn arrange self approx method reason)
    unfolding auto_tree_fallback tree_last
    tree_fallback-IsServed method reason =
        if-keeps IsServed (leb (node_count self.dag) 63) _ _
          (after-IsServed _ (tree_if fl value_fn arrange self approx method reason)
            (preflight-quiet sparse_preflight_budget) (tree_if-IsServed method reason))
          (last-IsServed _ _ _)

    sparse_if-IsServed : (b : Bool) → IsServed (sparse_if fl value_fn arrange self approx b)
    unfolding sparse_if
    sparse_if-IsServed false = last-IsServed _ _ _
    sparse_if-IsServed true =
        answer-IsServed fallback_message _ _ covers (λ msg. last-IsServed _ _ _)

    wide_if-IsServed : (b : Bool) → IsServed (wide_if fl value_fn arrange self approx b)
    unfolding wide_if
    wide_if-IsServed false = by_method-IsServed _ _ served
    wide_if-IsServed true = answer-IsServed fallback_message _ _ covers (λ msg. last-IsServed _ _ _)

    large-IsServed :
        20 < node_count self.dag
        → IsServed (
            if leb (node_count self.dag) 20
            then auto_dense fl value_fn arrange self approx
            else if leb (node_count self.dag) 28
            then auto_sparse fl value_fn arrange self approx
            else if leb (node_count self.dag) 63
            then auto_wide fl value_fn arrange self approx
            else by_method "approx" approx)
    unfolding auto_sparse auto_wide
    large-IsServed large =
        let e : leb (node_count self.dag) 20 ≡ false = ground arith in
        rw e (
          if-keeps IsServed (leb (node_count self.dag) 28) _ _
            (after-IsServed _ (sparse_if fl value_fn arrange self approx)
              (preflight-quiet (sparse_state_budget default_config)) sparse_if-IsServed)
            (if-keeps IsServed (leb (node_count self.dag) 63) _ _
              (after-IsServed _ (wide_if fl value_fn arrange self approx)
                (preflight-quiet sparse_preflight_budget) wide_if-IsServed)
              (by_method-IsServed _ _ served)))

    pub tree-IsServed :
        (method : String) → IsServed (auto_tree fl value_fn arrange self approx method)
    unfolding auto_tree
    tree-IsServed method =
        answer-IsServed tree_reason _ _ (λ msg h. cc) (tree_fallback-IsServed method)

  -- If the graph of an explainer has more than 8 nodes and is marked as a rooted tree or has more
  -- than 20 nodes, `validate` accepts the graph and `approximate` returns ok, then `auto` does not
  -- return `InvalidConfig`, whatever the value function does: the size limit of an exact method is
  -- never reported.
  pub auto_serves :
      8 < node_count self.dag
      → (self.is_rooted_tree ≡ true) ⊎ (20 < node_count self.dag)
      → (result : AsvResult (Float.F fl)) → approx ≡ ok result
      → validate self.dag ≡ ok tt
      → (msg : Message) → auto fl value_fn arrange self approx ≢ err (invalid_config msg)
  unfolding auto auto_choice
  auto_serves above kind result run valid =
      let served : IsServed approx = λ msg h. cc in
      let e : leb (node_count self.dag) 8 ≡ false = ground arith in
      let other : (self.is_rooted_tree ≡ false) → 20 < node_count self.dag =
        λ no_tree. elim kind [ inl tree ↦ absurd (cc (no_tree, tree)) | inr large ↦ large ] in
      rw (valid, e)
        (if-IsServed self.is_rooted_tree _ _ (λ is_tree. tree-IsServed served "approx")
          (λ no_tree. large-IsServed served (other no_tree)))
