-- ===== src/Graph.antt =====
-- The DAG (src/graph.rs): its state and its operations. Their properties are in the modules below.
-- A node id is a number; reads are by position, and the invariant of `Graph/WellFormed` shows
-- that they stay in range.
pub mod Index
pub mod WellFormed
pub mod Induced
use Index.{NameIndex}
use causasv.Prelude.{
  ℕ, zero, suc, String, Bool, true, false, not, ◌&&◌, Option, none, some, List, [], ◌∷◌, ◌++◌, map,
  length, get_or, get_elem?, set, replicate, contains, leb, ◌==◌, if◌then◌else◌, as_u32, ◌+◌,
  wrapping_pred,
}
use causasv.Error.{
  Result, ok, err, out_of_fuel, ◌>>=◌, ◌>>◌, fail_if, cycle_detected, invalid_node_id, self_loop,
  duplicate_edge, empty_graph,
}

pub record Dag (im : NameIndex) : Type 0 where
  pub name_to_id : NameIndex.Map im
  pub names : List String
  pub children : List (List ℕ)
  pub parents : List (List ℕ)

-- `(from..from + k).map(|i| NodeId(i as u32))`
abbrev pub node_ids : ℕ → ℕ → List ℕ
node_ids from zero = []
node_ids from (suc k) = as_u32 from ∷ node_ids (suc from) k

-- The ids of the nodes of in-degree 0, where the list holds the in-degrees from node `i` on.
abbrev pub sources_from : ℕ → List ℕ → List ℕ
sources_from i [] = []
sources_from i (d ∷ ds) =
    if d == 0 then as_u32 i ∷ sources_from (suc i) ds else sources_from (suc i) ds

-- The loop over a popped node's children: each in-degree goes down by one, and a child that
-- reaches 0 is put on the queue. Which queue it is, is a parameter.
abbrev pub release : (ℕ → List ℕ → List ℕ) → List ℕ → List ℕ → List ℕ → List ℕ × List ℕ
release enqueue [] in_deg queue = (in_deg, queue)
release enqueue (child ∷ rest) in_deg queue =
    let in_deg' = set in_deg child (wrapping_pred (get_or in_deg child 0)) in
    release enqueue rest in_deg'
      (if get_or in_deg' child 0 == 0 then enqueue child queue else queue)

-- `queue.push_back(child)`
abbrev pub push_back : ℕ → List ℕ → List ℕ
push_back v queue = queue ++ v ∷ []

module _ {im : NameIndex} where
  open im use {new as new_map, get, insert}

  unfoldable pub new : Dag im
  new = record { name_to_id = new_map; names = []; children = []; parents = [] }

  unfoldable pub add_node : Dag im → String → Dag im × ℕ
  add_node d name = elim (get d.name_to_id name) [
    | some id ↦ (d, id)
    | none ↦
        let id = as_u32 (length d.names) in
        (
          record {
            name_to_id = insert d.name_to_id name id;
            names = d.names ++ name ∷ [];
            children = d.children ++ [] ∷ [];
            parents = d.parents ++ [] ∷ [];
          },
          id,
        )
  ]

  unfoldable pub check_id : Dag im → ℕ → Result (Unit {0})
  check_id d id = if leb (length d.names) id then err (invalid_node_id id) else ok tt

  abbrev pub children_raw : Dag im → ℕ → List ℕ
  children_raw d id = get_or d.children id []

  abbrev pub parents_raw : Dag im → ℕ → List ℕ
  parents_raw d id = get_or d.parents id []

  unfoldable pub add_edge : Dag im → ℕ → ℕ → Result (Dag im)
  unfolding check_id
  add_edge d from to = do
    fail_if (from == to) (self_loop from)
    check_id d from
    check_id d to
    fail_if (contains (children_raw d from) to) (duplicate_edge from to)
    ok (record d {
      children = set d.children from (children_raw d from ++ to ∷ []);
      parents = set d.parents to (parents_raw d to ++ from ∷ []);
    })

  abbrev pub node_count : Dag im → ℕ
  node_count d = length d.names

  unfoldable pub node_name : Dag im → ℕ → Option String
  node_name d id = get_elem? d.names id

  unfoldable pub node_id : Dag im → String → Option ℕ
  node_id d name = get d.name_to_id name

  unfoldable pub children : Dag im → ℕ → Result (List ℕ)
  unfolding check_id
  children d id = do check_id d id; ok (children_raw d id)

  unfoldable pub parents : Dag im → ℕ → Result (List ℕ)
  unfolding check_id
  parents d id = do check_id d id; ok (parents_raw d id)

  abbrev pub all_nodes : Dag im → List ℕ
  all_nodes d = node_ids 0 (length d.names)

  abbrev pub in_degrees : Dag im → List ℕ
  in_degrees d = map length d.parents

  -- The `while let` loop of `validate`, with the number of nodes visited.
  unfoldable pub validate_loop : ℕ → Dag im → List ℕ → List ℕ → ℕ → Option ℕ
  validate_loop zero d in_deg queue visited = elim queue [ [] ↦ some visited | _ ∷ _ ↦ none ]
  validate_loop (suc fuel) d in_deg queue visited = elim queue [
    | [] ↦ some visited
    | node ∷ rest ↦
        let (in_deg', queue') = release push_back (children_raw d node) in_deg rest in
        validate_loop fuel d in_deg' queue' (visited + 1)
  ]

  -- One round of fuel for each node is enough (`Topo/Sort`).
  unfoldable pub validate : Dag im → Result (Unit {0})
  unfolding validate_loop
  validate d =
      if length d.names == 0
      then err empty_graph
      else elim (validate_loop (length d.names) d (in_degrees d) (sources_from 0 (in_degrees d))
          0) [
            | none ↦ out_of_fuel
            | some visited ↦ fail_if (not (visited == length d.names)) cycle_detected
          ]
