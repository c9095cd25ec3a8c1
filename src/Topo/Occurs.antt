-- ===== src/Topo/Occurs.antt =====
-- How often an order stands in the listing of `enumerate_topos` (src/topo.rs).
use causasv.Prelude.{
  ℕ, ◌+◌, ◌*◌, ◌≡◌, refl, ap, List, [], ◌∷◌, ◌++◌, map, arith, count, if◌then◌else◌, ◌==◌, inl, inr,
  Bool, Bool-cases, true, false, ◌&&◌,
}
use causasv.Graph.Index.{NameIndex}
use causasv.Graph.{Dag}
use causasv.Topo.Backtrack.{placed_at, each_order}

-- How often a list stands in a list of lists.
abbrev same_list : List ℕ → List ℕ → Bool
same_list [] [] = true
same_list [] (y ∷ ys) = false
same_list (x ∷ xs) [] = false
same_list (x ∷ xs) (y ∷ ys) = x == y && same_list xs ys

abbrev pub occurs : List ℕ → List (List ℕ) → ℕ
occurs xs [] = 0
occurs xs (ys ∷ yss) = (if same_list ys xs then 1 else 0) + occurs xs yss

occurs-append :
    (xs : List ℕ) (yss zss : List (List ℕ)) → occurs xs (yss ++ zss) ≡ occurs xs yss + occurs xs zss
occurs-append xs [] zss = omega arith
occurs-append xs (ys ∷ yss) zss = omega (arith, occurs-append xs yss zss)

occurs-map_cons :
    (node x : ℕ) (xs : List ℕ) (found : List (List ℕ))
    → occurs (x ∷ xs) (map (λ order. node ∷ order) found)
      ≡ (if node == x then occurs xs found else 0)
occurs-map_cons node x xs [] = ground arith
occurs-map_cons node x xs (order ∷ found) = ground (arith, occurs-map_cons node x xs found)

occurs-map_nil :
    (node : ℕ) (found : List (List ℕ)) → occurs [] (map (λ order. node ∷ order) found) ≡ 0
occurs-map_nil node [] = refl
occurs-map_nil node (order ∷ found) = omega (arith, occurs-map_nil node found)

module _ {im : NameIndex} (d : Dag im) where
  module _ (recurse : List ℕ → List (List ℕ)) (in_deg : List ℕ) where
    pub occurs-each_order_nil : (nodes : List ℕ) → occurs [] (each_order d recurse in_deg nodes) ≡ 0
    unfolding each_order
    occurs-each_order_nil [] = refl
    occurs-each_order_nil (node ∷ rest) = omega (
      arith,
      occurs-append [] (map (λ order. node ∷ order) (recurse (placed_at d in_deg node)))
          (each_order d recurse in_deg rest),
      occurs-map_nil node (recurse (placed_at d in_deg node)),
      occurs-each_order_nil rest,
    )

    pub occurs-each_order :
        (nodes : List ℕ) (x : ℕ) (xs : List ℕ)
        → occurs (x ∷ xs) (each_order d recurse in_deg nodes)
          ≡ count x nodes * occurs xs (recurse (placed_at d in_deg x))
    unfolding each_order
    occurs-each_order [] x xs = omega arith
    occurs-each_order (node ∷ rest) x xs =
        let split =
          occurs-append (x ∷ xs) (map (λ order. node ∷ order) (recurse (placed_at d in_deg node)))
            (each_order d recurse in_deg rest) in
        elim (Bool-cases (node == x)) [
          | inl e ↦
              let same : node ≡ x = ground arith in
              let moved = ap (λ w. occurs xs (recurse (placed_at d in_deg w))) same in
              ground (
                arith,
                split,
                occurs-map_cons node x xs (recurse (placed_at d in_deg node)),
                occurs-each_order rest x xs,
                moved,
              )
          | inr e ↦ ground (
            arith,
            split,
            occurs-map_cons node x xs (recurse (placed_at d in_deg node)),
            occurs-each_order rest x xs,
          )
        ]
