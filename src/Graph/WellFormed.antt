-- ===== src/Graph/WellFormed.antt =====
-- The invariant of a DAG's representation, and that the operations keep it (src/graph.rs).
use causasv.Prelude.{
  ℕ, ◌+◌, ◌≤◌, ◌<◌, ◌≡◌, refl, String, none, some, List, [], ◌∷◌, ◌++◌, arith, length, get_or,
  get_elem?, set, count, count-append, contains-false, length-append, length-set, get_or-set, ◌≢◌,
  get_or_beyond, get_or-snoc, get_elem?-snoc, lt-length_of_get_elem?, if◌then◌else◌, ◌==◌, as_u32,
  as_u32_small, u32_mod, inl, inr, Option-cases, eq_iff,
}
use causasv.Error.{ok}
use causasv.Graph.Index.{NameIndex}
use causasv.Graph.{Dag, new, add_node, add_edge, check_id, children_raw, parents_raw}

pub get_or-snoc_nil : (xss : List (List ℕ)) (u : ℕ) → get_or (xss ++ [] ∷ []) u [] ≡ get_or xss u []
get_or-snoc_nil xss u = ground (arith, get_or-snoc xss [] u [], get_or_beyond xss u [])

-- How often each neighbour is stored after a new one is added.
pub count_edge :
    (xss : List (List ℕ)) (u v x y : ℕ)
    → u < length xss
    → count y (get_or (set xss u (get_or xss u [] ++ v ∷ [])) x [])
      ≡ count y (get_or xss x []) + (if u == x then (if v == y then 1 else 0) else 0)
count_edge xss u v x y h = ground (
  arith,
  get_or-set xss u x (get_or xss u [] ++ v ∷ []) [],
  count-append y (get_or xss u []) (v ∷ []),
)

module _ {im : NameIndex} where
  open im use {get, get-new, get-insert}

  pub record IsWellFormed (d : Dag im) : Type 0 where
    -- one adjacency list of either kind for each node
    pub sized_children : length d.children ≡ length d.names
    pub sized_parents : length d.parents ≡ length d.names
    -- node ids fit in a `u32`
    pub small : length d.names ≤ u32_mod
    -- the two kinds of lists store the same edges, each once, and no self-loop
    pub matched : (u v : ℕ) → count v (children_raw d u) ≡ count u (parents_raw d v)
    pub simple : (u v : ℕ) → count v (children_raw d u) ≤ 1
    pub loopless : (u : ℕ) → count u (children_raw d u) ≡ 0
    -- the index and the list of names are inverse to each other
    pub named :
        (name : String) (i : ℕ) → get d.name_to_id name ≡ some i → get_elem? d.names i ≡ some name
    pub indexed :
        (name : String) (i : ℕ) → get_elem? d.names i ≡ some name → get d.name_to_id name ≡ some i

  pub new-IsWellFormed : IsWellFormed (new {im = im})
  unfolding new
  new-IsWellFormed = record {
    sized_children = refl;
    sized_parents = refl;
    small = omega arith;
    matched = λ u v. refl;
    simple = λ u v. omega arith;
    loopless = λ u. refl;
    named = λ name i h. cc (get-new name);
    indexed = λ name i h. cc;
  }

  -- an id that stands in an adjacency list is the id of a node
  pub child-lt :
      (d : Dag im)
      → IsWellFormed d
      → (u v : ℕ) → 0 < count v (children_raw d u)
      → v < length d.names
  child-lt d wf u v h =
      ground (arith, wf.matched u v, wf.sized_parents, get_or_beyond d.parents v [])

  pub parent-lt :
      (d : Dag im) → IsWellFormed d → (u v : ℕ) → 0 < count u (parents_raw d v) → u < length d.names
  parent-lt d wf u v h =
      ground (arith, wf.matched u v, wf.sized_children, get_or_beyond d.children u [])

  add_node_fresh :
      (d : Dag im) (name : String)
      → IsWellFormed d
      → length d.names < u32_mod
      → get d.name_to_id name ≡ none
      → IsWellFormed (add_node d name).0
  unfolding add_node
  add_node_fresh d name wf room e =
      rw (e, add_node)
        (record {
          sized_children = omega (
            arith,
            length-append d.children ([] ∷ []),
            length-append d.names (name ∷ []),
            wf.sized_children,
          );
          sized_parents = omega (
            arith,
            length-append d.parents ([] ∷ []),
            length-append d.names (name ∷ []),
            wf.sized_parents,
          );
          small = omega (arith, length-append d.names (name ∷ []));
          matched = λ u v. simp get_or-snoc_nil (wf.matched u v);
          simple = λ u v. simp get_or-snoc_nil (wf.simple u v);
          loopless = λ u. simp get_or-snoc_nil (wf.loopless u);
          named = λ k i h. ground (
            arith,
            get-insert d.name_to_id name k (as_u32 (length d.names)),
            as_u32_small (length d.names),
            eq_iff name k,
            wf.named k i,
            get_elem?-snoc d.names name i,
            lt-length_of_get_elem? d.names i k,
          );
          indexed = λ k i h. ground (
            arith,
            get-insert d.name_to_id name k (as_u32 (length d.names)),
            as_u32_small (length d.names),
            eq_iff name k,
            wf.indexed k i,
            get_elem?-snoc d.names name i,
            lt-length_of_get_elem? d.names i k,
          );
        })

  -- If a graph is well-formed and has fewer than 2 ^ 32 nodes, then the graph that `add_node`
  -- leaves is well-formed.
  pub add_node-IsWellFormed :
      (d : Dag im) (name : String)
      → IsWellFormed d
      → length d.names < u32_mod
      → IsWellFormed (add_node d name).0
  unfolding add_node
  add_node-IsWellFormed d name wf room = elim (Option-cases (get d.name_to_id name)) [
    | inl e ↦ add_node_fresh d name wf room e
    | inr (id, e) ↦ rw (e, add_node) wf
  ]

  check_id-eq-ok : (d : Dag im) (u : ℕ) → check_id d u ≡ ok tt → u < length d.names
  unfolding check_id
  check_id-eq-ok d u h = ground arith

  -- What a successful `add_edge` has checked, and the graph that it returns.
  pub add_edge-eq-ok :
      (d d' : Dag im) (from to : ℕ)
      → add_edge d from to ≡ ok d'
      → (from ≢ to)
        × (from < length d.names)
        × (to < length d.names)
        × (count to (children_raw d from) ≡ 0)
        × (d' ≡ record d {
          children = set d.children from (children_raw d from ++ to ∷ []);
          parents = set d.parents to (parents_raw d to ++ from ∷ []);
        })
  unfolding add_edge
  add_edge-eq-ok d d' from to h = ground (arith, contains-false (children_raw d from) to)

  -- If a graph is well-formed and `add_edge` on it returns ok with a graph, then that graph is
  -- well-formed.
  pub add_edge-IsWellFormed :
      (d d' : Dag im) (from to : ℕ) → IsWellFormed d → add_edge d from to ≡ ok d' → IsWellFormed d'
  add_edge-IsWellFormed d d' from to wf h =
      let (other, from_lt, to_lt, fresh, e) = add_edge-eq-ok d d' from to h in
      rw e (record {
        sized_children =
            omega (
              arith,
              length-set d.children from (children_raw d from ++ to ∷ []),
              wf.sized_children,
            );
        sized_parents =
            omega
              (arith, length-set d.parents to (parents_raw d to ++ from ∷ []), wf.sized_parents);
        small = wf.small;
        matched = λ u v. ground (
          arith,
          wf.matched u v,
          count_edge d.children from to u v,
          count_edge d.parents to from v u,
          wf.sized_children,
          wf.sized_parents,
        );
        simple = λ u v.
            ground (arith, wf.simple u v, count_edge d.children from to u v, wf.sized_children);
        loopless = λ u.
            ground (arith, wf.loopless u, count_edge d.children from to u u, wf.sized_children);
        named = wf.named;
        indexed = wf.indexed;
      })
