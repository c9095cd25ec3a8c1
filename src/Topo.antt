-- ===== src/Topo.antt =====
-- Topological orders (src/topo.rs): one order, smallest id first, and all orders.
pub mod Spec
pub mod Kahn
pub mod Ends
pub mod Sort
pub mod Backtrack
pub mod Occurs
pub mod Orders
use causasv.Prelude.{
  ℕ, zero, suc, ◌+◌, Bool, not, Option, none, some, List, [], ◌∷◌, ◌++◌, length, get_or, set, leb,
  ◌==◌, if◌then◌else◌, as_u32, wrapping_pred, wrapping_suc, usize_max,
}
use causasv.Error.{Result, ok, err, out_of_fuel, ◌>>=◌, ◌>>◌, cycle_detected}
use causasv.Graph.Index.{NameIndex}
use causasv.Graph.{Dag, children_raw, node_count, in_degrees, sources_from, release, validate}

-- `BinaryHeap<Reverse<NodeId>>` as the ascending list of its ids: `pop` takes the head.
abbrev pub heap_push : ℕ → List ℕ → List ℕ
heap_push v [] = v ∷ []
heap_push v (x ∷ heap) = if leb v x then v ∷ x ∷ heap else x ∷ heap_push v heap

abbrev pub heap_collect : List ℕ → List ℕ
heap_collect [] = []
heap_collect (v ∷ vs) = heap_push v (heap_collect vs)

-- The variables that `backtrack` mutates.
pub record Search : Type 0 where
  pub in_deg : List ℕ
  pub current : List ℕ
  pub result : List (List ℕ)

-- `current.pop()`
abbrev pub pop : List ℕ → List ℕ
pop [] = []
pop (x ∷ xs) = elim xs [ [] ↦ [] | _ ∷ _ ↦ x ∷ pop xs ]

-- `in_deg[child] -= 1` and `in_deg[child] += 1` for each child
abbrev pub decrease : List ℕ → List ℕ → List ℕ
decrease [] in_deg = in_deg
decrease (child ∷ rest) in_deg =
    decrease rest (set in_deg child (wrapping_pred (get_or in_deg child 0)))

abbrev pub increase : List ℕ → List ℕ → List ℕ
increase [] in_deg = in_deg
increase (child ∷ rest) in_deg =
    increase rest (set in_deg child (wrapping_suc (get_or in_deg child 0)))

module _ {im : NameIndex} where
  -- The `while let` loop, over any queue.
  unfoldable pub topo_loop :
      (ℕ → List ℕ → List ℕ) → ℕ → Dag im → List ℕ → List ℕ → List ℕ → Option (List ℕ)
  topo_loop enqueue zero d in_deg queue result = elim queue [ [] ↦ some result | _ ∷ _ ↦ none ]
  topo_loop enqueue (suc fuel) d in_deg queue result = elim queue [
    | [] ↦ some result
    | node ∷ rest ↦
        let (in_deg', queue') = release enqueue (children_raw d node) in_deg rest in
        topo_loop enqueue fuel d in_deg' queue' (result ++ node ∷ [])
  ]

  -- One round of fuel for each node is enough (`Topo/Sort`).
  unfoldable pub topo_sort : Dag im → Result (List ℕ)
  unfolding topo_loop
  topo_sort d =
      if node_count d == 0
      then ok []
      else elim (topo_loop heap_push (node_count d) d (in_degrees d)
          (heap_collect (sources_from 0 (in_degrees d))) []) [
            | none ↦ out_of_fuel
            | some result ↦
                if not (length result == node_count d) then err cycle_detected else ok result
          ]

  -- The loop over the frontier, with the recursive call as a parameter.
  unfoldable pub each_node : (Search → Search) → Dag im → List ℕ → Search → Search
  each_node recurse d [] s = s
  each_node recurse d (node ∷ rest) s =
      let after = recurse (record {
        in_deg = decrease (children_raw d node) (set s.in_deg node usize_max);
        current = s.current ++ node ∷ [];
        result = s.result;
      }) in
      each_node recurse d rest (record {
        in_deg = set (increase (children_raw d node) after.in_deg) node 0;
        current = pop after.current;
        result = after.result;
      })

  unfoldable pub backtrack : ℕ → Dag im → Search → Search
  unfolding each_node
  backtrack zero d s = record s { result = s.result ++ s.current ∷ [] }
  backtrack (suc remaining) d s = each_node (backtrack remaining d) d (sources_from 0 s.in_deg) s

  unfoldable pub enumerate_topos : Dag im → Result (List (List ℕ))
  unfolding backtrack validate
  enumerate_topos d = do
    validate d
    ok (
        (backtrack (node_count d) d
          (record { in_deg = in_degrees d; current = []; result = [] })).result)
