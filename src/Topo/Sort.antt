-- ===== src/Topo/Sort.antt =====
-- What `topo_sort` (src/topo.rs) and `Dag::validate` (src/graph.rs) decide.
use causasv.Prelude.{
  ℕ, zero, suc, ◌+◌, ◌<◌, ◌≡◌, refl, some, List, [], ◌∷◌, ◌++◌, arith, length, count, count-append,
  length-append, ◌==◌, ◌⊎◌, inl, inr, Bool-cases,
}
use causasv.Error.{ok, err, cycle_detected, empty_graph}
use causasv.Graph.Index.{NameIndex}
use causasv.Graph.{Dag, node_count, in_degrees, sources_from, push_back, validate, validate_loop}
use causasv.Graph.WellFormed.{IsWellFormed}
use causasv.Topo.{topo_loop, topo_sort, heap_push, heap_collect}
use causasv.Topo.Spec.{IsTopoOrder, IsRank}
use causasv.Topo.Kahn.{IsQueue, topo_loop_ends}
use causasv.Topo.Ends.{start-Inv, full-IsTopoOrder, ranked_full, IsTopoOrder-IsRank}

pub push_back-IsQueue : IsQueue push_back
push_back-IsQueue v x queue = ground (arith, count-append x queue (v ∷ []))

pub heap_push-IsQueue : IsQueue heap_push
heap_push-IsQueue v x [] = omega arith
heap_push-IsQueue v x (y ∷ heap) = ground (arith, heap_push-IsQueue v x heap)

pub count-heap_collect : (v : ℕ) (vs : List ℕ) → count v (heap_collect vs) ≡ count v vs
count-heap_collect v [] = refl
count-heap_collect v (x ∷ vs) =
    ground (arith, heap_push-IsQueue x v (heap_collect vs), count-heap_collect v vs)

module _ {im : NameIndex} (d : Dag im) where
  -- `validate` counts what `topo_sort` would list.
  validate_loop-eq :
      (fuel : ℕ) (in_deg queue placed result : List ℕ)
      → topo_loop push_back fuel d in_deg queue placed ≡ some result
      → validate_loop fuel d in_deg queue (length placed) ≡ some (length result)
  unfolding topo_loop validate_loop
  validate_loop-eq zero in_deg [] placed result h = ground arith
  validate_loop-eq zero in_deg (u ∷ rest) placed result h = cc
  validate_loop-eq (suc fuel) in_deg [] placed result h = ground arith
  validate_loop-eq (suc fuel) in_deg (u ∷ rest) placed result h =
      let longer : length placed + 1 ≡ length (placed ++ u ∷ []) =
        omega (arith, length-append placed (u ∷ [])) in
      rw longer (validate_loop-eq fuel _ _ (placed ++ u ∷ []) result h)

  -- A DAG is acyclic if a rank grows along its edges.
  abbrev pub IsAcyclic : Type 0
  IsAcyclic = (rank : ℕ → ℕ) × IsRank d rank

  -- For a well-formed graph: either `topo_sort` returns a topological order of all its nodes, or it
  -- returns the error `CycleDetected` and the graph has no rank that grows along every edge.
  pub topo_sort_decides :
      IsWellFormed d
      → ((order : List ℕ) × (topo_sort d ≡ ok order) × IsTopoOrder d order)
        ⊎ ((topo_sort d ≡ err cycle_detected) × ¬ IsAcyclic)
  unfolding topo_sort
  topo_sort_decides wf = elim (Bool-cases (node_count d == 0)) [
    | inl e ↦ inl ([], rw e, record { each = λ v. ground arith; follows = tt })
    | inr nonempty ↦
        let start =
          start-Inv d wf heap_push heap_push-IsQueue (heap_collect (sources_from 0 (in_degrees d)))
            (λ v. count-heap_collect v (sources_from 0 (in_degrees d))) in
        let (result, in_deg, ends, inv) =
          topo_loop_ends d heap_push heap_push-IsQueue wf (node_count d) [] _ _ start
            (omega arith) in
        elim (Bool-cases (length result == node_count d)) [
          | inl full ↦ inl (
            result,
            rw (nonempty, ends, full),
            full-IsTopoOrder d wf heap_push heap_push-IsQueue result in_deg inv (ground arith),
          )
          | inr short ↦ inr (
            rw (nonempty, ends, short),
            λ (rank, ranked).
                let full =
                  ranked_full d wf heap_push heap_push-IsQueue result in_deg inv rank ranked in
                ground arith,
          )
        ]
  ]

  -- For a well-formed graph, `validate` either returns `EmptyGraph` and there is no node, or
  -- returns ok and there is a node and a rank that grows along every edge, or returns
  -- `CycleDetected` and there is no such rank.
  pub validate_decides :
      IsWellFormed d
      → ((validate d ≡ err empty_graph) × (node_count d ≡ 0))
        ⊎ ((validate d ≡ ok tt) × (0 < node_count d) × IsAcyclic)
        ⊎ ((validate d ≡ err cycle_detected) × ¬ IsAcyclic)
  unfolding validate
  validate_decides wf = elim (Bool-cases (node_count d == 0)) [
    | inl e ↦ inl (rw e, ground arith)
    | inr nonempty ↦
        let start =
          start-Inv d wf push_back push_back-IsQueue (sources_from 0 (in_degrees d)) (λ v. refl) in
        let (result, in_deg, ends, inv) =
          topo_loop_ends d push_back push_back-IsQueue wf (node_count d) [] _ _ start
            (omega arith) in
        let counted = validate_loop-eq (node_count d) _ _ [] result ends in
        elim (Bool-cases (length result == node_count d)) [
          | inl full ↦
              let order =
                full-IsTopoOrder d wf push_back push_back-IsQueue result in_deg inv
                  (ground arith) in
              inr (
                inl (
                  rw (nonempty, counted, full),
                  ground arith,
                  (_, IsTopoOrder-IsRank d wf result order),
                ))
          | inr short ↦ inr (
              inr (
                rw (nonempty, counted, short),
                λ (rank, ranked).
                    let full =
                      ranked_full d wf push_back push_back-IsQueue result in_deg inv rank ranked in
                    ground arith,
              ))
        ]
  ]

  -- A graph that `validate` accepts is acyclic.
  pub accepted-IsAcyclic : IsWellFormed d → validate d ≡ ok tt → IsAcyclic
  accepted-IsAcyclic wf valid = elim (validate_decides wf) [
    | inl (refused, empty) ↦ absurd (cc (refused, valid))
    | inr (inl (accepted, nonempty, acyclic)) ↦ acyclic
    | inr (inr (refused, cyclic)) ↦ absurd (cc (refused, valid))
  ]
