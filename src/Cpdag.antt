-- ===== src/Cpdag.antt =====
-- Partially directed graphs and their consistent extension (src/cpdag.rs).
pub mod Edges
pub mod Pairs
pub mod Candidate
pub mod Progress
pub mod Rounds
pub mod Orient
pub mod Build
pub mod Validate
pub mod Induced
pub mod Extension
use causasv.Prelude.{
  ℕ, zero, suc, ◌+◌, String, Bool, true, false, not, ◌&&◌, ◌||◌, Option, none, some, List, [], ◌∷◌,
  ◌++◌, map, get_or, get_elem?, set, replicate, length, contains, leb, ltb, ◌==◌, if◌then◌else◌,
  as_u32,
}
use causasv.Error.{
  Result, ok, err, out_of_fuel, ◌>>=◌, ◌>>◌, fail_if, cycle_detected, invalid_node_id, self_loop,
  duplicate_edge, conflicting_edge, empty_graph, not_extendable,
}
use causasv.Graph.Index.{NameIndex}
use causasv.Graph.{
  Dag, new, add_node, add_edge, validate, node_ids, sources_from, release, push_back,
}

pub record Cpdag (im : NameIndex) : Type 0 where
  pub name_to_id : NameIndex.Map im
  pub names : List String
  pub directed_children : List (List ℕ)
  pub directed_parents : List (List ℕ)
  pub undirected : List (List ℕ)

-- `xs[i].push(v)`
abbrev pub push_at : List (List ℕ) → ℕ → ℕ → List (List ℕ)
push_at xss i v = set xss i (get_or xss i [] ++ v ∷ [])

abbrev pub pairs_from : ℕ → List ℕ → List (ℕ × ℕ)
pairs_from from [] = []
pairs_from from (to ∷ rest) = (from, to) ∷ pairs_from from rest

-- The pairs of each node of the list with what `at` gives it: the `flat_map` over the nodes.
abbrev pub edges_from : (ℕ → List ℕ) → List ℕ → List (ℕ × ℕ)
edges_from at [] = []
edges_from at (from ∷ rest) = pairs_from from (at from) ++ edges_from at rest

abbrev pub larger : ℕ → List ℕ → List ℕ
larger a [] = []
larger a (b ∷ rest) = if ltb a b then b ∷ larger a rest else larger a rest

-- `retain(|&x| x != v)`
abbrev pub retain_other : ℕ → List ℕ → List ℕ
retain_other v [] = []
retain_other v (x ∷ xs) = if x == v then retain_other v xs else x ∷ retain_other v xs

abbrev pub retain_at : ℕ → List ℕ → List (List ℕ) → List (List ℕ)
retain_at v [] undirected = undirected
retain_at v (w ∷ rest) undirected =
    retain_at v rest (set undirected w (retain_other v (get_or undirected w [])))

abbrev pub only_active : List Bool → List ℕ → List ℕ
only_active active [] = []
only_active active (w ∷ ws) =
    if get_or active w false then w ∷ only_active active ws else only_active active ws

-- `(w, v)` for each `w`
abbrev pub into : ℕ → List ℕ → List (ℕ × ℕ)
into v [] = []
into v (w ∷ ws) = (w, v) ∷ into v ws

module _ {im : NameIndex} where
  open im use {new as new_map, get, insert as insert_name}

  unfoldable pub new_pdag : Cpdag im
  new_pdag = record {
    name_to_id = new_map;
    names = [];
    directed_children = [];
    directed_parents = [];
    undirected = [];
  }

  unfoldable pub add_pdag_node : Cpdag im → String → Cpdag im × ℕ
  add_pdag_node c name = elim (get c.name_to_id name) [
    | some id ↦ (c, id)
    | none ↦
        let id = as_u32 (length c.names) in
        (
          record {
            name_to_id = insert_name c.name_to_id name id;
            names = c.names ++ name ∷ [];
            directed_children = c.directed_children ++ [] ∷ [];
            directed_parents = c.directed_parents ++ [] ∷ [];
            undirected = c.undirected ++ [] ∷ [];
          },
          id,
        )
  ]

  abbrev pub children_at : Cpdag im → ℕ → List ℕ
  children_at c v = get_or c.directed_children v []

  abbrev pub undirected_at : Cpdag im → ℕ → List ℕ
  undirected_at c v = get_or c.undirected v []

  unfoldable pub check_pdag_id : Cpdag im → ℕ → Result (Unit {0})
  check_pdag_id c id = if leb (length c.names) id then err (invalid_node_id id) else ok tt

  unfoldable pub add_directed_edge : Cpdag im → ℕ → ℕ → Result (Cpdag im)
  unfolding check_pdag_id
  add_directed_edge c from to = do
    fail_if (from == to) (self_loop from)
    check_pdag_id c from
    check_pdag_id c to
    fail_if (contains (children_at c from) to) (duplicate_edge from to)
    fail_if (contains (children_at c to) from || contains (undirected_at c from) to)
        (conflicting_edge from to)
    ok (record c {
      directed_children = push_at c.directed_children from to;
      directed_parents = push_at c.directed_parents to from;
    })

  unfoldable pub add_undirected_edge : Cpdag im → ℕ → ℕ → Result (Cpdag im)
  unfolding check_pdag_id
  add_undirected_edge c a b = do
    fail_if (a == b) (self_loop a)
    check_pdag_id c a
    check_pdag_id c b
    fail_if (contains (undirected_at c a) b) (duplicate_edge a b)
    fail_if (contains (children_at c a) b || contains (children_at c b) a) (conflicting_edge a b)
    ok (record c { undirected = push_at (push_at c.undirected a b) b a })

  unfoldable pub pdag_node_name : Cpdag im → ℕ → Option String
  pdag_node_name c id = get_elem? c.names id

  unfoldable pub pdag_node_id : Cpdag im → String → Option ℕ
  pdag_node_id c name = get c.name_to_id name

  abbrev pub pdag_nodes : Cpdag im → List ℕ
  pdag_nodes c = node_ids 0 (length c.names)

  unfoldable pub directed_edges : Cpdag im → List (ℕ × ℕ)
  directed_edges c = edges_from (children_at c) (pdag_nodes c)

  unfoldable pub undirected_edges : Cpdag im → List (ℕ × ℕ)
  undirected_edges c = edges_from (λ a. larger a (undirected_at c a)) (pdag_nodes c)

  -- The `while let` loop, with one round for each node, and the number of nodes visited.
  unfoldable pub pdag_loop : ℕ → Cpdag im → List ℕ → List ℕ → ℕ → Option ℕ
  pdag_loop zero c in_deg queue visited = elim queue [ [] ↦ some visited | _ ∷ _ ↦ none ]
  pdag_loop (suc fuel) c in_deg queue visited = elim queue [
    | [] ↦ some visited
    | node ∷ rest ↦
        let (in_deg', queue') = release push_back (children_at c node) in_deg rest in
        pdag_loop fuel c in_deg' queue' (visited + 1)
  ]

  unfoldable pub validate_pdag : Cpdag im → Result (Unit {0})
  unfolding pdag_loop
  validate_pdag c =
      let in_deg = map length c.directed_parents in
      if length c.names == 0
      then err empty_graph
      else elim (pdag_loop (length c.names) c in_deg (sources_from 0 in_deg) 0) [
        | none ↦ out_of_fuel
        | some visited ↦ fail_if (not (visited == length c.names)) cycle_detected
      ]

  abbrev pub adjacent : Cpdag im → ℕ → ℕ → Bool
  adjacent c a b =
      contains (children_at c a) b || contains (children_at c b) a || contains (undirected_at c a) b

  -- `w` is adjacent to every other node of the list.
  abbrev pub all_adjacent : Cpdag im → ℕ → List ℕ → Bool
  all_adjacent c w [] = true
  all_adjacent c w (y ∷ ys) = (y == w || adjacent c w y) && all_adjacent c w ys

  abbrev pub clique_with : Cpdag im → List ℕ → List ℕ → Bool
  clique_with c neighbors [] = true
  clique_with c neighbors (w ∷ ws) = all_adjacent c w neighbors && clique_with c neighbors ws

  -- The search over the nodes from `i` on, `active` being their marks.
  unfoldable pub candidate_from : Cpdag im → List Bool → List (List ℕ) → ℕ → List Bool → Result ℕ
  candidate_from c active remaining_undirected i [] = err not_extendable
  candidate_from c active remaining_undirected i (marked ∷ rest) =
      let v = as_u32 i in
      let directed_neighbors = only_active active (get_or c.directed_parents v []) in
      let undirected_neighbors = get_or remaining_undirected v [] in
      let later = candidate_from c active remaining_undirected (suc i) rest in
      if not marked
      then later
      else if not (length (only_active active (children_at c v)) == 0)
      then later
      else if clique_with c (directed_neighbors ++ undirected_neighbors) undirected_neighbors
      then ok v
      else later

  unfoldable pub find_extension_candidate : Cpdag im → List Bool → List (List ℕ) → Result ℕ
  unfolding candidate_from
  find_extension_candidate c active remaining_undirected =
      candidate_from c active remaining_undirected 0 active

  -- The `for _ in 0..n` loop, with `oriented` as it ends.
  unfoldable pub orient_rounds :
      ℕ → Cpdag im → List Bool → List (List ℕ) → List (ℕ × ℕ) → Result (List (ℕ × ℕ))
  unfolding find_extension_candidate
  orient_rounds zero c active remaining_undirected oriented = ok oriented
  orient_rounds (suc k) c active remaining_undirected oriented = do
    v ← find_extension_candidate c active remaining_undirected
    let neighbors = get_or remaining_undirected v []
    let oriented' = oriented ++ into v (only_active active neighbors)
    orient_rounds k c (set active v false) (retain_at v neighbors (set remaining_undirected v []))
        oriented'

  unfoldable pub add_names : List String → Dag im → Dag im
  unfolding add_node
  add_names [] d = d
  add_names (name ∷ names) d = add_names names (add_node d name).0

  unfoldable pub add_oriented : List (ℕ × ℕ) → Dag im → Result (Dag im)
  unfolding add_edge
  add_oriented [] d = ok d
  add_oriented ((from, to) ∷ rest) d = do d' ← add_edge d from to; add_oriented rest d'

  unfoldable pub consistent_extension : Cpdag im → Result (Dag im)
  unfolding directed_edges orient_rounds add_names add_oriented new validate
  consistent_extension c = do
    let n = length c.names
    fail_if (n == 0) empty_graph
    oriented ← orient_rounds n c (replicate n true) c.undirected (directed_edges c)
    dag ← add_oriented oriented (add_names c.names new)
    validate dag
    ok dag

  unfoldable pub validate_cpdag : Cpdag im → Result (Unit {0})
  unfolding validate_pdag consistent_extension
  validate_cpdag c = do validate_pdag c; dag ← consistent_extension c; ok tt
