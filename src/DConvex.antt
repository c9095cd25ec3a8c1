-- ===== src/DConvex.antt =====
-- The d-convex hulls of src/d_convex.rs: their operations. What they satisfy is in the modules
-- below. The fuel of each loop is enough (`DConvex/Hull`): no run ends with `out_of_fuel`.
pub mod Interface
pub mod Sets
pub mod Ancestors
pub mod Trace
pub mod Path
pub mod Shortest
pub mod Rounds
pub mod Hull
pub mod Strong
use Interface.{IdSet, filter, extend, collect}
use causasv.Prelude.{
  ℕ, zero, suc, ◌+◌, Bool, true, false, not, ◌&&◌, ◌||◌, Option, none, some, List, [], ◌∷◌, ◌++◌,
  get_or, set, replicate, contains, ◌==◌, if◌then◌else◌,
}
use causasv.Error.{
  Result, ok, err, panicked, out_of_fuel, ◌>>=◌, ◌>>◌, hull_fixed_point_not_reached,
}
use causasv.Cpdag.{push_at}
use causasv.Graph.Index.{NameIndex}
use causasv.Graph.{Dag, node_count, all_nodes, children_raw, parents_raw, check_id}

abbrev pub reverse : List ℕ → List ℕ
reverse [] = []
reverse (x ∷ xs) = reverse xs ++ x ∷ []

-- A `HashMap` from ids to ids: its entries, latest first.
abbrev pub lookup : List (ℕ × ℕ) → ℕ → Option ℕ
lookup [] k = none
lookup ((j, v) ∷ m) k = if j == k then some v else lookup m k

abbrev pub add_undirected : List (List ℕ) → ℕ → ℕ → List (List ℕ)
add_undirected adj a b =
    if not (a == b) && not (contains (get_or adj a []) b)
    then push_at (push_at adj a b) b a
    else adj

-- The two nested loops over the pairs of a list: `step` on each, the earlier entry first.
abbrev pub each_after {ℓ} : {S : Type ℓ} → (S → ℕ → ℕ → S) → ℕ → List ℕ → S → S
each_after step a [] s = s
each_after step a (b ∷ bs) s = each_after step a bs (step s a b)

abbrev pub each_pair {ℓ} : {S : Type ℓ} → (S → ℕ → ℕ → S) → List ℕ → S → S
each_pair step [] s = s
each_pair step (a ∷ rest) s = each_pair step rest (each_after step a rest s)

-- The same loops, where the step can fail.
abbrev pub try_after {ℓ} : {S : Type ℓ} → (S → ℕ → ℕ → Result S) → ℕ → List ℕ → S → Result S
try_after step a [] s = ok s
try_after step a (b ∷ bs) s = do s' ← step s a b; try_after step a bs s'

abbrev pub try_pair {ℓ} : {S : Type ℓ} → (S → ℕ → ℕ → Result S) → List ℕ → S → Result S
try_pair step [] s = ok s
try_pair step (a ∷ rest) s = do s' ← try_after step a rest s; try_pair step rest s'

-- The walk back from `cur` to `from`, in reverse: the path so far ends with `cur`.
unfoldable pub walk_back : ℕ → List (ℕ × ℕ) → ℕ → ℕ → List ℕ → Result (List ℕ)
walk_back zero prev from cur path = if cur == from then ok (reverse path) else out_of_fuel
walk_back (suc fuel) prev from cur path =
    if cur == from then ok (reverse path) else elim (lookup prev cur) [
      | none ↦ panicked
      | some next ↦ walk_back fuel prev from next (path ++ next ∷ [])
    ]

module _ (ids : IdSet) where
  open ids use {Ids, items, len, has, insert, retain}

  pub record PathSearch : Type 0 where
    pub visited : Ids
    pub prev : List (ℕ × ℕ)
    pub queue : List ℕ

  module _ (adj : List (List ℕ)) (from to : ℕ) (allowed : Ids) where
    -- The loop over the neighbours of `u`: whether `to` is found, and the search after it.
    unfoldable pub visit_neighbours : ℕ → List ℕ → PathSearch → Bool × PathSearch
    visit_neighbours u [] s = (false, s)
    visit_neighbours u (v ∷ vs) s =
        let (is_new, visited') = insert s.visited v in
        let found : PathSearch = record {
          visited = visited';
          prev = (v, u) ∷ s.prev;
          queue = s.queue;
        } in
        let queued : PathSearch = record {
          visited = visited';
          prev = (v, u) ∷ s.prev;
          queue = s.queue ++ v ∷ [];
        } in
        if not (has allowed v)
        then visit_neighbours u vs s
        else if not is_new
        then visit_neighbours u vs (record s { visited = visited' })
        else if v == to
        then (true, found)
        else visit_neighbours u vs queued

    -- The `while let` loop; the walk back has as much fuel as there are nodes.
    unfoldable pub search : ℕ → PathSearch → Result (Option (List ℕ))
    search zero s = elim s.queue [ [] ↦ ok none | u ∷ rest ↦ out_of_fuel ]
    search (suc fuel) s = elim s.queue [
      | [] ↦ ok none
      | u ∷ rest ↦
          let (found, s') = visit_neighbours u (get_or adj u []) (record s { queue = rest }) in
          if found
          then (do
            path ← walk_back (suc (len s'.visited)) s'.prev from to (to ∷ [])
            ok (some path))
          else search fuel s'
    ]

    unfoldable pub shortest_path_restricted : ℕ → Result (Option (List ℕ))
    shortest_path_restricted fuel =
        if from == to
        then ok (some (from ∷ []))
        else search fuel
            (record { visited = (insert (IdSet.new ids) from).1; prev = []; queue = from ∷ [] })

  module _ {im : NameIndex} (d : Dag im) where
    abbrev pub adjacent : ℕ → ℕ → Bool
    adjacent a b = contains (children_raw d a) b || contains (children_raw d b) a

    -- The loop over the parents of a popped node.
    abbrev pub add_ancestors : List ℕ → Ids → List ℕ → Ids × List ℕ
    add_ancestors [] result queue = (result, queue)
    add_ancestors (p ∷ ps) result queue =
        let (is_new, result') = insert result p in
        add_ancestors ps result' (if is_new then queue ++ p ∷ [] else queue)

    unfoldable pub ancestors_loop : ℕ → Ids → List ℕ → Result Ids
    ancestors_loop zero result queue = elim queue [ [] ↦ ok result | v ∷ rest ↦ out_of_fuel ]
    ancestors_loop (suc fuel) result queue = elim queue [
      | [] ↦ ok result
      | v ∷ rest ↦
          let (result', queue') = add_ancestors (parents_raw d v) result rest in
          ancestors_loop fuel result' queue'
    ]

    -- Every id is popped at most once.
    unfoldable pub ancestors_or_self : Ids → Result Ids
    ancestors_or_self seeds = ancestors_loop (node_count d) seeds (items seeds)

    abbrev pub add_children : List ℕ → Ids → Ids
    add_children [] result = result
    add_children (v ∷ vs) result = add_children vs (extend ids result (children_raw d v))

    abbrev pub children_or_self : Ids → Ids
    children_or_self seeds = add_children (items seeds) seeds

    abbrev pub add_families : List ℕ → Ids → Ids
    add_families [] result = result
    add_families (v ∷ vs) result =
        add_families vs (extend ids (insert result v).1 (parents_raw d v))

    abbrev pub markov_boundary_of_set : Ids → Ids
    markov_boundary_of_set m =
        retain (add_families (items (children_or_self m)) (IdSet.new ids)) (λ n. not (has m n))

    abbrev pub join_children : Ids → ℕ → List ℕ → List (List ℕ) → List (List ℕ)
    join_children nodes w [] adj = adj
    join_children nodes w (c ∷ cs) adj =
        join_children nodes w cs (if has nodes c then add_undirected adj w c else adj)

    abbrev pub join_edges : Ids → List ℕ → List (List ℕ) → List (List ℕ)
    join_edges nodes [] adj = adj
    join_edges nodes (w ∷ ws) adj =
        join_edges nodes ws (join_children nodes w (children_raw d w) adj)

    abbrev pub marry_parents : Ids → List ℕ → List (List ℕ) → List (List ℕ)
    marry_parents nodes [] adj = adj
    marry_parents nodes (w ∷ ws) adj =
        marry_parents nodes ws (each_pair add_undirected (filter (has nodes) (parents_raw d w)) adj)

    unfoldable pub moralize : Ids → List (List ℕ)
    moralize nodes =
        marry_parents nodes (items nodes)
          (join_edges nodes (items nodes) (replicate (node_count d) []))

    abbrev pub marginalized_out : Ids → Ids
    marginalized_out h = collect ids (filter (λ n. not (has h n)) (all_nodes d))

    -- One pair of the loop of `shortest_inducing_path_vertices`.
    unfoldable pub collect_path : Ids → Ids → ℕ → ℕ → Result Ids
    collect_path marginalized collected a b =
        let pair = collect ids (a ∷ b ∷ []) in
        if adjacent a b then ok collected else (do
          ancestral ← ancestors_or_self pair
          let moralized = moralize ancestral
          let allowed = collect ids (filter (has ancestral) (items pair ++ items marginalized))
          path ← shortest_path_restricted moralized a b allowed (node_count d)
          ok (elim path [ none ↦ collected | some nodes ↦ extend ids collected nodes ]))

    unfoldable pub shortest_inducing_path_vertices : Ids → Result Ids
    shortest_inducing_path_vertices required =
        let marginalized = marginalized_out required in
        let boundary = markov_boundary_of_set marginalized in
        let candidates = filter (has boundary) (items required) in
        try_pair (collect_path marginalized) candidates (IdSet.new ids)

    unfoldable pub closure_loop : ℕ → Ids → Result Ids
    closure_loop zero h = err hull_fixed_point_not_reached
    closure_loop (suc k) h = do
      absorbed ← shortest_inducing_path_vertices h
      let h' = extend ids h (items absorbed)
      if len h' == len h then ok h' else closure_loop k h'

    unfoldable pub d_convex_closure : Ids → Result Ids
    d_convex_closure h = closure_loop (node_count d + 1) h

    -- One pair of the parents of a node.
    abbrev pub absorb_pair : Ids → Ids → ℕ → ℕ → Ids
    absorb_pair h absorb p1 p2 =
        if has h p1 && has h p2
        then absorb
        else if not (adjacent p1 p2)
        then (insert (insert absorb p1).1 p2).1
        else absorb

    abbrev pub absorb_parents : Ids → List ℕ → Ids → Ids
    absorb_parents h [] absorb = absorb
    absorb_parents h (w ∷ ws) absorb =
        absorb_parents h ws (each_pair (absorb_pair h) (parents_raw d w) absorb)

    -- `intersection` goes through the first set in its order.
    unfoldable pub linear_ordering_violation_parents : Ids → Result Ids
    linear_ordering_violation_parents h = do
      let children_of_marginalized = children_or_self (marginalized_out h)
      ancestors_of_h ← ancestors_or_self h
      ok (
          absorb_parents h (filter (has ancestors_of_h) (items children_of_marginalized))
            (IdSet.new ids))

    abbrev pub check_ids : List ℕ → Result (Unit {0})
    check_ids [] = ok tt
    check_ids (id ∷ rest) = do check_id d id; check_ids rest

    unfoldable pub d_convex_hull : List ℕ → Result Ids
    d_convex_hull required = do check_ids required; d_convex_closure (collect ids required)

    unfoldable pub strong_loop : ℕ → Ids → Result Ids
    strong_loop zero h = err hull_fixed_point_not_reached
    strong_loop (suc k) h = do
      h' ← d_convex_closure h
      absorb ← linear_ordering_violation_parents h'
      if len absorb == 0 then ok h' else strong_loop k (extend ids h' (items absorb))

    unfoldable pub strong_d_convex_hull : List ℕ → Result Ids
    strong_d_convex_hull required = do
      check_ids required
      strong_loop (node_count d + 1) (collect ids required)
