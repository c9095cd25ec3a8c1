-- ===== src/Examples/Pdags.antt =====
-- The theorems on partially directed graphs, applied to one with an edge of either kind.
use causasv.Prelude.{ℕ, ◌≡◌, ◌<◌, ◌^◌, ◌⊎◌, refl, arith, [], ◌∷◌, length, count}
use causasv.Error.{ok, err, empty_graph, not_extendable, cycle_detected}
use causasv.Graph.Index.{assoc_index}
use causasv.Graph.{Dag, children_raw, validate}
use causasv.Graph.WellFormed.{IsWellFormed}
use causasv.Cpdag.{
  Cpdag, new_pdag, add_pdag_node, add_directed_edge, add_undirected_edge, check_pdag_id,
  consistent_extension, validate_cpdag,
}
use causasv.Cpdag.Edges.{
  IsSimple, new_pdag-IsSimple, add_pdag_node-IsSimple, add_directed_edge-IsSimple,
  add_undirected_edge-IsSimple,
}
use causasv.Cpdag.Progress.{IsExtension}
use causasv.Cpdag.Orient.{Grows}
use causasv.Cpdag.Extension.{consistent_extension_decides}
use causasv.Cpdag.Validate.{IsDirectedAcyclic, IsExtendable, validate_cpdag_decides}

abbrev one : Cpdag assoc_index
one = (add_pdag_node new_pdag "a").0

abbrev two : Cpdag assoc_index
two = (add_pdag_node one "b").0

abbrev bare : Cpdag assoc_index
bare = (add_pdag_node two "c").0

one-IsSimple : IsSimple one
unfolding new_pdag
one-IsSimple = add_pdag_node-IsSimple new_pdag "a" new_pdag-IsSimple (omega arith)

two-IsSimple : IsSimple two
unfolding new_pdag add_pdag_node
two-IsSimple = add_pdag_node-IsSimple one "b" one-IsSimple (omega arith)

two_names : length two.names < 2 ^ 32
unfolding new_pdag add_pdag_node
two_names = omega arith

add_pdag_node-IsSimple_example : IsSimple bare
add_pdag_node-IsSimple_example = add_pdag_node-IsSimple two "c" two-IsSimple two_names

bare-IsSimple : IsSimple bare
bare-IsSimple = add_pdag_node-IsSimple two "c" two-IsSimple two_names

abbrev directed : Cpdag assoc_index
directed = record bare {
  directed_children = (1 ∷ []) ∷ [] ∷ [] ∷ [];
  directed_parents = [] ∷ (0 ∷ []) ∷ [] ∷ [];
}

add_directed : add_directed_edge bare 0 1 ≡ ok directed
unfolding add_directed_edge check_pdag_id new_pdag add_pdag_node
add_directed = refl

add_directed_edge-IsSimple_example : IsSimple directed
add_directed_edge-IsSimple_example =
    add_directed_edge-IsSimple bare directed 0 1 bare-IsSimple add_directed

directed-IsSimple : IsSimple directed
directed-IsSimple = add_directed_edge-IsSimple bare directed 0 1 bare-IsSimple add_directed

abbrev mixed : Cpdag assoc_index
mixed = record directed { undirected = [] ∷ (2 ∷ []) ∷ (1 ∷ []) ∷ [] }

add_linked : add_undirected_edge directed 1 2 ≡ ok mixed
unfolding add_undirected_edge check_pdag_id new_pdag add_pdag_node
add_linked = refl

add_undirected_edge-IsSimple_example : IsSimple mixed
add_undirected_edge-IsSimple_example =
    add_undirected_edge-IsSimple directed mixed 1 2 directed-IsSimple add_linked

mixed-IsSimple : IsSimple mixed
mixed-IsSimple = add_undirected_edge-IsSimple directed mixed 1 2 directed-IsSimple add_linked

consistent_extension_decides_example :
    ((length mixed.names ≡ 0) × (consistent_extension mixed ≡ err empty_graph))
    ⊎ ((dag : Dag assoc_index) × (consistent_extension mixed ≡ ok dag)
        × IsWellFormed dag
        × (validate dag ≡ ok tt)
        × (dag.names ≡ mixed.names)
        × IsExtension mixed (λ u v. count v (children_raw dag u)))
    ⊎ ((consistent_extension mixed ≡ err not_extendable)
        × ¬ (
            (edges : ℕ → ℕ → ℕ) × (rank : ℕ → ℕ) × IsExtension mixed edges
            × Grows mixed edges rank))
consistent_extension_decides_example = consistent_extension_decides mixed mixed-IsSimple

validate_cpdag_decides_example :
    ((length mixed.names ≡ 0) × (validate_cpdag mixed ≡ err empty_graph))
    ⊎ ((validate_cpdag mixed ≡ ok tt) × IsExtendable mixed mixed-IsSimple)
    ⊎ ((validate_cpdag mixed ≡ err cycle_detected) × ¬ IsDirectedAcyclic mixed mixed-IsSimple)
    ⊎ ((validate_cpdag mixed ≡ err not_extendable)
        × IsDirectedAcyclic mixed mixed-IsSimple
        × ¬ IsExtendable mixed mixed-IsSimple)
validate_cpdag_decides_example = validate_cpdag_decides mixed mixed-IsSimple
