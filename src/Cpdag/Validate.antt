-- ===== src/Cpdag/Validate.antt =====
-- What `validate_pdag` and `validate_cpdag` (src/cpdag.rs) decide.
use causasv.Prelude.{
  ℕ, zero, suc, ◌+◌, ◌≡◌, ◌⊎◌, refl, arith, List, [], ◌∷◌, length, count, inl, inr,
}
use causasv.Error.{ok, err, empty_graph, cycle_detected, not_extendable}
use causasv.Graph.Index.{NameIndex}
use causasv.Graph.{Dag, validate, validate_loop}
use causasv.Graph.WellFormed.{IsWellFormed}
use causasv.Topo.Sort.{validate_decides, accepted-IsAcyclic}
use causasv.Cpdag.{
  Cpdag, children_at, pdag_loop, validate_pdag, validate_cpdag, consistent_extension,
}
use causasv.Cpdag.Edges.{IsSimple}
use causasv.Cpdag.Progress.{IsExtension}
use causasv.Cpdag.Orient.{Grows}
use causasv.Cpdag.Extension.{consistent_extension_decides}

module _ {im : NameIndex} (c : Cpdag im) (simple : IsSimple c) where
  -- The directed edges alone, as a DAG.
  abbrev directed_part : Dag im
  directed_part = record {
    name_to_id = c.name_to_id;
    names = c.names;
    children = c.directed_children;
    parents = c.directed_parents;
  }

  directed_part-IsWellFormed : IsWellFormed directed_part
  directed_part-IsWellFormed = record {
    sized_children = simple.sized_children;
    sized_parents = simple.sized_parents;
    small = simple.small;
    matched = simple.matched;
    simple = λ u v. omega (arith, simple.exclusive u v);
    loopless = λ u. omega (arith, simple.exclusive u u);
    named = simple.named;
    indexed = simple.indexed;
  }

  pdag_loop-eq :
      (fuel : ℕ) (in_deg queue : List ℕ) (visited : ℕ)
      → pdag_loop fuel c in_deg queue visited
        ≡ validate_loop fuel directed_part in_deg queue visited
  unfolding pdag_loop validate_loop
  pdag_loop-eq zero in_deg [] visited = refl
  pdag_loop-eq zero in_deg (u ∷ rest) visited = refl
  pdag_loop-eq (suc fuel) in_deg [] visited = refl
  pdag_loop-eq (suc fuel) in_deg (u ∷ rest) visited = pdag_loop-eq fuel _ _ (visited + 1)

  validate_pdag-eq : validate_pdag c ≡ validate directed_part
  unfolding validate_pdag validate
  validate_pdag-eq = rw (pdag_loop-eq (length c.names)) refl

  -- The directed edges have no cycle.
  abbrev pub IsDirectedAcyclic : Type 0
  IsDirectedAcyclic = (rank : ℕ → ℕ) × Grows c (λ u v. count v (children_at c u)) rank

  -- Some acyclic graph is a consistent extension.
  abbrev pub IsExtendable : Type 0
  IsExtendable = (edges : ℕ → ℕ → ℕ) × (rank : ℕ → ℕ) × IsExtension c edges × Grows c edges rank

  extended :
      ((length c.names ≡ 0) × (consistent_extension c ≡ err empty_graph))
      ⊎ ((consistent_extension c ≡ err not_extendable) × ¬ IsExtendable)
      ⊎ ((dag : Dag im) × (consistent_extension c ≡ ok dag) × IsExtendable)
  extended = elim (consistent_extension_decides c simple) [
    | inl (empty, run) ↦ inl (empty, run)
    | inr (inl (dag, run, wf, valid, names, ext)) ↦
        let (rank, ranked) = accepted-IsAcyclic dag wf valid in
        inr (inr (dag, run, (_, rank, ext, λ u v h. ranked u v (omega (arith, wf.matched u v)))))
    | inr (inr (run, none_left)) ↦ inr (inl (run, none_left))
  ]

  -- If a `Cpdag` meets `IsSimple`, the invariant that its operations keep, then one of these holds.
  -- There is no node and `validate_cpdag` returns `EmptyGraph`. Or it returns ok and some acyclic
  -- graph is a consistent extension. Or it returns `CycleDetected` and no rank grows along all the
  -- directed edges. Or it returns `NotExtendable`, the directed edges have no cycle and no acyclic
  -- graph is a consistent extension.
  pub validate_cpdag_decides :
      ((length c.names ≡ 0) × (validate_cpdag c ≡ err empty_graph))
      ⊎ ((validate_cpdag c ≡ ok tt) × IsExtendable)
      ⊎ ((validate_cpdag c ≡ err cycle_detected) × ¬ IsDirectedAcyclic)
      ⊎ ((validate_cpdag c ≡ err not_extendable) × IsDirectedAcyclic × ¬ IsExtendable)
  unfolding validate_cpdag
  validate_cpdag_decides = elim (validate_decides directed_part directed_part-IsWellFormed) [
    | inl (run, empty) ↦ inl (empty, rw (validate_pdag-eq, run) refl)
    | inr (inl (run, some_node, (rank, ranked))) ↦
        let acyclic : IsDirectedAcyclic =
          (rank, λ u v h. ranked u v (omega (arith, simple.matched u v))) in
        elim extended [
          | inl (empty, later) ↦ absurd (omega arith)
          | inr (inl (later, none_left)) ↦
              inr (inr (inr (rw (validate_pdag-eq, run, later) refl, acyclic, none_left)))
          | inr (inr (dag, later, extendable)) ↦
              inr (inl (rw (validate_pdag-eq, run, later) refl, extendable))
        ]
    | inr (inr (run, cyclic)) ↦ inr (
        inr (
          inl (
            rw (validate_pdag-eq, run) refl,
            λ (rank, grows). cyclic (rank, λ u v h. grows u v (omega (arith, simple.matched u v))),
          )))
  ]
