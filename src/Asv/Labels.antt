-- ===== src/Asv/Labels.antt =====
-- The name that `AsvExplainer::auto` (src/asv.rs) gives to the method of its result.
use causasv.Prelude.{
  ℕ, ◌<◌, ◌≤◌, ◌≡◌, ◌⊎◌, refl, sym, ◌∙◌, arith, Bool, true, false, String, Option, some, List, leb,
  if◌then◌else◌, inl, inr,
}
use causasv.Error.{CausasvError, Message, Result, ok, err, panicked, out_of_fuel, ◌>>=◌}
use causasv.Numerics.{Float}
use causasv.Outcome.{AsvResult}
use causasv.Graph.Index.{NameIndex}
use causasv.Graph.{node_count, validate}
use causasv.Asv.Exact.{AsvExplainer, default_tree_config, exact, exact_tree_with_config, exact_dag}
use causasv.Asv.Auto.{
  fallback_message, tree_reason, answer, by_method, fallen_back, sparse_any_size, sparse_default,
  tree_last, tree_if, dense_if, sparse_if, wide_if, auto_choice, auto_tree_fallback, auto_tree,
  auto_dense, auto_sparse, auto_wide, auto,
}
use causasv.Asv.Answers.{answer-cases}

module _ (fl : Float) (value_fn : List ℕ → Result (Float.F fl)) {im : NameIndex}
    (arrange : List (ℕ × ℕ) → List (ℕ × ℕ)) (self : AsvExplainer im)
    (approx : Result (AsvResult (Float.F fl))) where
  open fl use {F}

  -- The runs that `auto` may answer with, each with its name and the graphs for which it is one.
  pub data IsRun : String → Result (AsvResult F) → Type 0 where
    exact_run : node_count self.dag ≤ 8 → IsRun "exact" (exact fl value_fn self)
    tree_run :
        8 < node_count self.dag
        → self.is_rooted_tree ≡ true
        → IsRun "exact_tree" (exact_tree_with_config fl value_fn self default_tree_config)
    dag_run :
        8 < node_count self.dag
        → self.is_rooted_tree ≡ false
        → node_count self.dag ≤ 20
        → IsRun "exact_dag" (exact_dag fl value_fn self)
    sparse_run :
        8 < node_count self.dag
        → self.is_rooted_tree ≡ false
        → node_count self.dag ≤ 28
        → IsRun "exact_dag_sparse" (sparse_default fl value_fn arrange self approx)
    any_size_run :
        8 < node_count self.dag
        → (self.is_rooted_tree ≡ true) ⊎ (28 < node_count self.dag)
        → node_count self.dag ≤ 63
        → IsRun "exact_dag_sparse" (sparse_any_size fl value_fn arrange self approx)
    sampling_run :
        8 < node_count self.dag
        → (self.is_rooted_tree ≡ true) ⊎ (20 < node_count self.dag)
        → IsRun "approx" approx

  -- A result is that of one of the runs, with the run's name and a note on the fallback.
  abbrev pub IsLabelled : Result (AsvResult F) → Type 0
  IsLabelled m =
      (r : AsvResult F)
      → m ≡ ok r
      → (method : String) × (run : Result (AsvResult F)) × (found : AsvResult F) × IsRun method run
        × (run ≡ ok found)
        × (r ≡ record found {
          method_used = some method;
          fallback_from = r.fallback_from;
          fallback_reason = r.fallback_reason;
        })

  named :
      (method : String) (m : Result (AsvResult F))
      → IsRun method m
      → IsLabelled (by_method method m)
  unfolding by_method
  named method (ok a) is_run r e = (method, ok a, a, is_run, refl, ground arith)
  named method (err error) is_run r e = cc
  named method panicked is_run r e = cc
  named method out_of_fuel is_run r e = cc

  noted :
      (method from : String) (reason : Message) (m : Result (AsvResult F))
      → IsRun method m
      → IsLabelled (by_method method (fallen_back from reason m))
  unfolding by_method fallen_back
  noted method from reason (ok a) is_run r e = (method, ok a, a, is_run, refl, ground arith)
  noted method from reason (err error) is_run r e = cc
  noted method from reason panicked is_run r e = cc
  noted method from reason out_of_fuel is_run r e = cc

  answered :
      {B : Type 0} (why : CausasvError → Option B) (m : Result (AsvResult F))
      (handle : B → Result (AsvResult F))
      → IsLabelled m
      → ((b : B) → IsLabelled (handle b))
      → IsLabelled (answer why m handle)
  answered why m handle here handled r h = elim (answer-cases why m handle) [
    | inl (e, unhandled) ↦ here r (sym e ∙ h)
    | inr (b, e) ↦ handled b r (sym e ∙ h)
  ]

  after :
      {A : Type 0} (m : Result A) (step : A → Result (AsvResult F))
      → ((a : A) → IsLabelled (step a))
      → IsLabelled (m >>= step)
  after (ok a) step later = later a
  after (err error) step later = λ r e. cc
  after panicked step later = λ r e. cc
  after out_of_fuel step later = λ r e. cc

  branches :
      (test : Bool) (m n : Result (AsvResult F))
      → (test ≡ true → IsLabelled m)
      → (test ≡ false → IsLabelled n)
      → IsLabelled (if test then m else n)
  branches true m n a b = a refl
  branches false m n a b = b refl

  module _ (above : 8 < node_count self.dag) where
    tree_if-IsLabelled :
        self.is_rooted_tree ≡ true
        → node_count self.dag ≤ 63
        → (reason : String) (b : Bool)
        → IsLabelled (tree_if fl value_fn arrange self approx "approx" reason b)
    unfolding tree_if tree_last
    tree_if-IsLabelled tree small reason false = noted _ _ _ _ (sampling_run above (inl tree))
    tree_if-IsLabelled tree small reason true =
        answered fallback_message _ _ (noted _ _ _ _ (any_size_run above (inl tree) small))
          (λ msg. noted _ _ _ _ (sampling_run above (inl tree)))

    tree-IsLabelled :
        self.is_rooted_tree ≡ true → IsLabelled (auto_tree fl value_fn arrange self approx "approx")
    unfolding auto_tree auto_tree_fallback tree_last
    tree-IsLabelled tree = answered tree_reason _ _ (named _ _ (tree_run above tree)) (λ reason.
        branches (leb (node_count self.dag) 63) _ _
          (λ e.
            after _ (tree_if fl value_fn arrange self approx "approx" reason)
              (tree_if-IsLabelled tree (ground arith) reason))
          (λ e. noted _ _ _ _ (sampling_run above (inl tree))))

    module _ (no_tree : self.is_rooted_tree ≡ false) where
      dense_if-IsLabelled :
          node_count self.dag ≤ 20
          → (b : Bool) → IsLabelled (dense_if fl value_fn arrange self approx b)
      unfolding dense_if
      dense_if-IsLabelled small false = named _ _ (dag_run above no_tree small)
      dense_if-IsLabelled small true =
          answered fallback_message _ _ (named _ _ (sparse_run above no_tree (omega arith)))
            (λ msg. named _ _ (dag_run above no_tree small))

      sparse_if-IsLabelled :
          20 < node_count self.dag
          → node_count self.dag ≤ 28
          → (b : Bool) → IsLabelled (sparse_if fl value_fn arrange self approx b)
      unfolding sparse_if
      sparse_if-IsLabelled large small false = noted _ _ _ _ (sampling_run above (inr large))
      sparse_if-IsLabelled large small true =
          answered fallback_message _ _ (named _ _ (sparse_run above no_tree small))
            (λ msg. noted _ _ _ _ (sampling_run above (inr large)))

      wide_if-IsLabelled :
          28 < node_count self.dag
          → node_count self.dag ≤ 63
          → (b : Bool) → IsLabelled (wide_if fl value_fn arrange self approx b)
      unfolding wide_if
      wide_if-IsLabelled large small false = named _ _ (sampling_run above (inr (omega arith)))
      wide_if-IsLabelled large small true =
          answered fallback_message _ _ (named _ _ (any_size_run above (inr large) small))
            (λ msg. noted _ _ _ _ (sampling_run above (inr (omega arith))))

  choice-IsLabelled : (u : Unit {0}) → IsLabelled (auto_choice fl value_fn arrange self approx u)
  unfolding auto_choice auto_dense auto_sparse auto_wide
  choice-IsLabelled u =
      let n = node_count self.dag in
      branches (leb n 8) _ _ (λ e. named _ _ (exact_run (ground arith)))
        (λ e8.
          let above : 8 < node_count self.dag = ground arith in
          branches self.is_rooted_tree _ _ (tree-IsLabelled above) (λ no_tree.
            branches (leb n 20) _ _
              (λ e.
                after _ (dense_if fl value_fn arrange self approx)
                  (dense_if-IsLabelled above no_tree (ground arith)))
              (λ e20.
                branches (leb n 28) _ _
                  (λ e.
                    after _ (sparse_if fl value_fn arrange self approx)
                      (sparse_if-IsLabelled above no_tree (ground arith) (ground arith)))
                  (λ e28.
                    branches (leb n 63) _ _
                      (λ e.
                        after _ (wide_if fl value_fn arrange self approx)
                          (wide_if-IsLabelled above no_tree (ground arith) (ground arith)))
                      (λ e63. named _ _ (sampling_run above (inr (ground arith))))))))

  -- If `auto` returns ok, its result is that of the run which its `method_used` names, but for
  -- that name and the note on the fallback, and that run is one for the size and the shape of the
  -- graph: `exact` for at most 8 nodes, and for more `exact_tree` for a rooted tree; `exact_dag`
  -- for at most 20 nodes and `exact_dag_sparse` for at most 28 where the graph is no rooted tree;
  -- `exact_dag_sparse` with its size limit lifted for a rooted tree or more than 28 nodes, up to
  -- 63; and `approx` for a rooted tree or more than 20 nodes.
  pub auto_labels :
      (r : AsvResult F)
      → auto fl value_fn arrange self approx ≡ ok r
      → (method : String) × (run : Result (AsvResult F)) × (found : AsvResult F) × IsRun method run
        × (run ≡ ok found)
        × (r ≡ record found {
          method_used = some method;
          fallback_from = r.fallback_from;
          fallback_reason = r.fallback_reason;
        })
  unfolding auto
  auto_labels =
      after (validate self.dag) (auto_choice fl value_fn arrange self approx) choice-IsLabelled
