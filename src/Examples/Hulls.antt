-- ===== src/Examples/Hulls.antt =====
-- The theorems on convex hulls, applied to a sample graph and to sets that are lists.
use causasv.Prelude.{
  ℕ, ◌<◌, ◌≤◌, ◌≡◌, ◌⊎◌, refl, arith, true, Option, some, List, [], ◌∷◌, count, contains,
}
use causasv.Error.{ok, err, invalid_node_id}
use causasv.DConvex.Interface.{list_ids}
use causasv.DConvex.Sets.{Within}
use causasv.DConvex.Ancestors.{IsAncestor, ancestors_or_self_exact}
use causasv.DConvex.Path.{Answers}
use causasv.DConvex.Shortest.{shortest_path_restricted_exact}
use causasv.DConvex.Hull.{IsDConvex, d_convex_hull_reached}
use causasv.DConvex.Strong.{IsOrdered, strong_d_convex_hull_reached}
use causasv.DConvex.{
  ancestors_or_self, shortest_path_restricted, d_convex_hull, strong_d_convex_hull, walk_back,
  visit_neighbours, search,
}
use causasv.Examples.{sample, sample-IsWellFormed}

ancestors_or_self_exact_example :
    (result : List ℕ) × (ancestors_or_self list_ids sample (2 ∷ []) ≡ ok result)
    × Within list_ids 3 result
    × ((v : ℕ)
        → (contains result v ≡ true → IsAncestor sample (2 ∷ []) v)
          × (IsAncestor sample (2 ∷ []) v → contains result v ≡ true))
ancestors_or_self_exact_example =
    ancestors_or_self_exact list_ids sample sample-IsWellFormed (2 ∷ []) (λ v. ground arith)

-- The path 0 – 1 – 2 – 3.
abbrev line : List (List ℕ)
line = (1 ∷ []) ∷ (0 ∷ 2 ∷ []) ∷ (1 ∷ 3 ∷ []) ∷ (2 ∷ []) ∷ []

line_path :
    shortest_path_restricted list_ids line 0 3 (0 ∷ 1 ∷ 2 ∷ 3 ∷ []) 4
    ≡ ok (some (0 ∷ 1 ∷ 2 ∷ 3 ∷ []))
unfolding shortest_path_restricted search visit_neighbours walk_back
line_path = refl

shortest_path_restricted_exact_example :
    (answer : Option (List ℕ)) × (shortest_path_restricted list_ids line 0 3 (0 ∷ 1 ∷ 2 ∷ 3 ∷ []) 4
      ≡ ok answer)
    × Answers list_ids line 0 3 (0 ∷ 1 ∷ 2 ∷ 3 ∷ []) 4 answer
shortest_path_restricted_exact_example =
    shortest_path_restricted_exact list_ids line 0 3 (0 ∷ 1 ∷ 2 ∷ 3 ∷ []) 4 (λ v h. ground arith)
      (omega arith)

d_convex_hull_reached_example :
    ((h : List ℕ) × (d_convex_hull list_ids sample (0 ∷ 2 ∷ []) ≡ ok h)
      × Within list_ids 3 h
      × ((v : ℕ) → 0 < count v (0 ∷ 2 ∷ []) → contains h v ≡ true)
      × IsDConvex list_ids sample h)
    ⊎ ((id : ℕ) × (0 < count id (0 ∷ 2 ∷ []))
        × (3 ≤ id)
        × (d_convex_hull list_ids sample (0 ∷ 2 ∷ []) ≡ err (invalid_node_id id)))
d_convex_hull_reached_example =
    d_convex_hull_reached list_ids sample sample-IsWellFormed (0 ∷ 2 ∷ [])

strong_d_convex_hull_reached_example :
    ((h : List ℕ) × (strong_d_convex_hull list_ids sample (2 ∷ []) ≡ ok h)
      × Within list_ids 3 h
      × ((v : ℕ) → 0 < count v (2 ∷ []) → contains h v ≡ true)
      × IsDConvex list_ids sample h
      × IsOrdered list_ids sample h)
    ⊎ ((id : ℕ) × (0 < count id (2 ∷ []))
        × (3 ≤ id)
        × (strong_d_convex_hull list_ids sample (2 ∷ []) ≡ err (invalid_node_id id)))
strong_d_convex_hull_reached_example =
    strong_d_convex_hull_reached list_ids sample sample-IsWellFormed (2 ∷ [])
