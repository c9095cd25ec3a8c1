-- ===== src/Cpdag/Edges.antt =====
-- The edges that a `Cpdag` (src/cpdag.rs) stores.
use causasv.Prelude.{
  ℕ, String, some, none, get_elem?, u32_mod, as_u32, as_u32_small, eq_iff, refl, Option-cases, inl,
  inr, get_elem?-snoc, length-append, lt-length_of_get_elem?, ◌+◌, ◌≤◌, ◌<◌, ◌≡◌, arith, false, [],
  ◌∷◌, ◌++◌, length, get_or, count, contains, contains-false, length-set, ◌==◌, if◌then◌else◌,
}
use causasv.Error.{ok}
use causasv.Graph.Index.{NameIndex}
use causasv.Graph.WellFormed.{count_edge, get_or-snoc_nil}
use causasv.Cpdag.{
  Cpdag, new_pdag, add_pdag_node, children_at, undirected_at, push_at, check_pdag_id,
  add_directed_edge, add_undirected_edge,
}

module _ {im : NameIndex} where
  open im use {get, get-new, get-insert}

  pub record IsSimple (c : Cpdag im) : Type 0 where
    -- node ids fit in a `u32`
    pub small : length c.names ≤ u32_mod
    -- the index and the list of names are inverse to each other
    pub named :
        (name : String) (i : ℕ) → get c.name_to_id name ≡ some i → get_elem? c.names i ≡ some name
    pub indexed :
        (name : String) (i : ℕ) → get_elem? c.names i ≡ some name → get c.name_to_id name ≡ some i
    pub sized_children : length c.directed_children ≡ length c.names
    pub sized_parents : length c.directed_parents ≡ length c.names
    pub sized_undirected : length c.undirected ≡ length c.names
    -- the two kinds of directed lists store the same edges
    pub matched : (u v : ℕ) → count v (children_at c u) ≡ count u (get_or c.directed_parents v [])
    -- an undirected edge is stored at both ends
    pub symmetric : (u v : ℕ) → count v (undirected_at c u) ≡ count u (undirected_at c v)
    pub loopless : (u : ℕ) → count u (undirected_at c u) ≡ 0
    -- at most one edge, of either kind and direction, for each pair, and no directed self-loop
    pub exclusive :
        (u v : ℕ)
        → count v (children_at c u) + count u (children_at c v) + count v (undirected_at c u) ≤ 1

  pub new_pdag-IsSimple : IsSimple (new_pdag {im = im})
  unfolding new_pdag
  new_pdag-IsSimple = record {
    small = omega arith;
    named = λ name i h. cc (get-new name);
    indexed = λ name i h. cc;
    sized_children = refl;
    sized_parents = refl;
    sized_undirected = refl;
    matched = λ u v. refl;
    symmetric = λ u v. refl;
    loopless = λ u. refl;
    exclusive = λ u v. omega arith;
  }

  add_pdag_node_fresh :
      (c : Cpdag im) (name : String)
      → IsSimple c
      → length c.names < u32_mod
      → get c.name_to_id name ≡ none
      → IsSimple (add_pdag_node c name).0
  unfolding add_pdag_node
  add_pdag_node_fresh c name simple room e =
      let longer = length-append c.names (name ∷ []) in
      rw (e, add_pdag_node)
        (record {
          small = omega arith;
          named = λ k i h. ground (
            arith,
            get-insert c.name_to_id name k (as_u32 (length c.names)),
            as_u32_small (length c.names),
            eq_iff name k,
            simple.named k i,
            get_elem?-snoc c.names name i,
            lt-length_of_get_elem? c.names i k,
          );
          indexed = λ k i h. ground (
            arith,
            get-insert c.name_to_id name k (as_u32 (length c.names)),
            as_u32_small (length c.names),
            eq_iff name k,
            simple.indexed k i,
            get_elem?-snoc c.names name i,
            lt-length_of_get_elem? c.names i k,
          );
          sized_children =
              omega (arith, length-append c.directed_children ([] ∷ []), simple.sized_children);
          sized_parents =
              omega (arith, length-append c.directed_parents ([] ∷ []), simple.sized_parents);
          sized_undirected =
              omega (arith, length-append c.undirected ([] ∷ []), simple.sized_undirected);
          matched = λ u v. simp get_or-snoc_nil (simple.matched u v);
          symmetric = λ u v. simp get_or-snoc_nil (simple.symmetric u v);
          loopless = λ u. simp get_or-snoc_nil (simple.loopless u);
          exclusive = λ u v. simp get_or-snoc_nil (simple.exclusive u v);
        })

  -- If a `Cpdag` has fewer than 2 ^ 32 nodes and each pair of its nodes carries at most one edge,
  -- no node has an edge to itself, the undirected edges are stored at both ends, the lists of
  -- children and of parents store the same directed edges, and the index and the list of its at
  -- most 2 ^ 32 names are inverse to each other, then the same holds of the graph that `add_node`
  -- leaves.
  pub add_pdag_node-IsSimple :
      (c : Cpdag im) (name : String)
      → IsSimple c
      → length c.names < u32_mod
      → IsSimple (add_pdag_node c name).0
  unfolding add_pdag_node
  add_pdag_node-IsSimple c name simple room = elim (Option-cases (get c.name_to_id name)) [
    | inl e ↦ add_pdag_node_fresh c name simple room e
    | inr (id, e) ↦ rw (e, add_pdag_node) simple
  ]

  add_directed_edge-eq-ok :
      (c c' : Cpdag im) (from to : ℕ)
      → add_directed_edge c from to ≡ ok c'
      → ((from == to) ≡ false)
        × (from < length c.names)
        × (to < length c.names)
        × (contains (children_at c from) to ≡ false)
        × (contains (children_at c to) from ≡ false)
        × (contains (undirected_at c from) to ≡ false)
        × (c' ≡ record c {
          directed_children = push_at c.directed_children from to;
          directed_parents = push_at c.directed_parents to from;
        })
  unfolding add_directed_edge check_pdag_id
  add_directed_edge-eq-ok c c' from to h = ground arith

  -- If each pair of nodes of a `Cpdag` carries at most one edge, no node has an edge to itself,
  -- the undirected edges are stored at both ends, the lists of children and of parents store the
  -- same directed edges, and the index and the list of its at most 2 ^ 32 names are inverse to
  -- each other, and `add_directed_edge` on it returns ok with a graph, then the same holds of that
  -- graph.
  pub add_directed_edge-IsSimple :
      (c c' : Cpdag im) (from to : ℕ)
      → IsSimple c
      → add_directed_edge c from to ≡ ok c'
      → IsSimple c'
  add_directed_edge-IsSimple c c' from to simple h =
      let (other, from_lt, to_lt, fresh, no_reverse, no_undirected, e) =
        add_directed_edge-eq-ok c c' from to h in
      let free = contains-false (children_at c from) to fresh in
      let free_reverse = contains-false (children_at c to) from no_reverse in
      let free_undirected = contains-false (undirected_at c from) to no_undirected in
      let room : from < length c.directed_children = omega (arith, simple.sized_children) in
      rw e (record {
        small = simple.small;
        named = simple.named;
        indexed = simple.indexed;
        sized_children = omega (
          arith,
          simple.sized_children,
          length-set c.directed_children from (children_at c from ++ to ∷ []),
        );
        sized_parents = omega (
          arith,
          simple.sized_parents,
          length-set c.directed_parents to (get_or c.directed_parents to [] ++ from ∷ []),
        );
        sized_undirected = simple.sized_undirected;
        matched = λ u v. ground (
          arith,
          simple.matched u v,
          simple.sized_parents,
          count_edge c.directed_children from to u v room,
          count_edge c.directed_parents to from v u,
        );
        symmetric = simple.symmetric;
        loopless = simple.loopless;
        exclusive = λ u v. ground (
          arith,
          simple.exclusive u v,
          simple.exclusive from to,
          simple.symmetric from to,
          count_edge c.directed_children from to u v room,
          count_edge c.directed_children from to v u room,
        );
      })

  add_undirected_edge-eq-ok :
      (c c' : Cpdag im) (a b : ℕ)
      → add_undirected_edge c a b ≡ ok c'
      → ((a == b) ≡ false)
        × (a < length c.names)
        × (b < length c.names)
        × (contains (undirected_at c a) b ≡ false)
        × (contains (children_at c a) b ≡ false)
        × (contains (children_at c b) a ≡ false)
        × (c' ≡ record c { undirected = push_at (push_at c.undirected a b) b a })
  unfolding add_undirected_edge check_pdag_id
  add_undirected_edge-eq-ok c c' a b h = ground arith

  -- How often each neighbour is stored after an undirected edge is pushed at both ends.
  count_undirected :
      (c : Cpdag im) (a b u v : ℕ)
      → (a == b) ≡ false
      → a < length c.undirected
      → b < length c.undirected
      → count v (get_or (push_at (push_at c.undirected a b) b a) u [])
        ≡ count v (undirected_at c u)
          + ((if a == u then (if b == v then 1 else 0) else 0)
              + (if b == u then (if a == v then 1 else 0) else 0))
  count_undirected c a b u v other a_lt b_lt =
      let first = count_edge c.undirected a b u v a_lt in
      let second =
        count_edge (push_at c.undirected a b) b a u v
          (omega (arith, length-set c.undirected a (undirected_at c a ++ b ∷ []))) in
      omega (arith, first, second)

  -- If each pair of nodes of a `Cpdag` carries at most one edge, no node has an edge to itself,
  -- the undirected edges are stored at both ends, the lists of children and of parents store the
  -- same directed edges, and the index and the list of its at most 2 ^ 32 names are inverse to
  -- each other, and `add_undirected_edge` on it returns ok with a graph, then the same holds of
  -- that graph.
  pub add_undirected_edge-IsSimple :
      (c c' : Cpdag im) (a b : ℕ) → IsSimple c → add_undirected_edge c a b ≡ ok c' → IsSimple c'
  add_undirected_edge-IsSimple c c' a b simple h =
      let (other, a_lt, b_lt, fresh, no_edge, no_reverse, e) =
        add_undirected_edge-eq-ok c c' a b h in
      let free = contains-false (undirected_at c a) b fresh in
      let free_edge = contains-false (children_at c a) b no_edge in
      let free_reverse = contains-false (children_at c b) a no_reverse in
      let pushed = λ (u v : ℕ).
        count_undirected c a b u v other (omega (arith, simple.sized_undirected))
          (omega (arith, simple.sized_undirected)) in
      let first = push_at c.undirected a b in
      rw e (record {
        small = simple.small;
        named = simple.named;
        indexed = simple.indexed;
        sized_children = simple.sized_children;
        sized_parents = simple.sized_parents;
        matched = simple.matched;
        sized_undirected = omega (
          arith,
          simple.sized_undirected,
          length-set c.undirected a (undirected_at c a ++ b ∷ []),
          length-set first b (get_or first b [] ++ a ∷ []),
        );
        symmetric = λ u v. ground (arith, simple.symmetric u v, pushed u v, pushed v u);
        loopless = λ u. ground (arith, simple.loopless u, pushed u u);
        exclusive = λ u v.
            ground
              (arith, simple.exclusive u v, simple.exclusive a b, simple.symmetric a b, pushed u v);
      })
