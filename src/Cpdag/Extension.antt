-- ===== src/Cpdag/Extension.antt =====
-- What `consistent_extension` (src/cpdag.rs) decides.
use causasv.Prelude.{
  ℕ, zero, suc, ◌<◌, ◌≤◌, ◌≡◌, ◌⊎◌, refl, ap, arith, true, false, not, Bool, List, [], ◌∷◌, length,
  count, get_or_beyond, u32_mod, ◌==◌, if◌then◌else◌, Bool-cases, inl, inr,
}
use causasv.Error.{Result, ok, err, empty_graph, not_extendable}
use causasv.Graph.Index.{NameIndex}
use causasv.Graph.{Dag, node_count, new, children_raw, validate}
use causasv.Graph.WellFormed.{IsWellFormed, new-IsWellFormed}
use causasv.Topo.Spec.{IsRank}
use causasv.Topo.Sort.{validate_decides}
use causasv.Cpdag.{
  Cpdag, add_names, add_oriented, find_extension_candidate, candidate_from, orient_rounds,
  directed_edges, consistent_extension,
}
use causasv.Cpdag.Edges.{IsSimple}
use causasv.Cpdag.Pairs.{edge_count}
use causasv.Cpdag.Progress.{IsExtension}
use causasv.Cpdag.Orient.{Grows, all_active, orient_rounds_sound, orient_rounds_complete}
use causasv.Cpdag.Build.{
  AreDistinct, length-new, add_names-IsWellFormed, children-add_names, names-add_names,
  add_oriented_free,
}

search_if :
    (mark sink clique : Bool) (i : ℕ) (later : Result ℕ)
    → ((v : ℕ) × (later ≡ ok v)) ⊎ (later ≡ err not_extendable)
    → ((v : ℕ) × ((if not mark
            then later
            else if not sink
            then later
            else if clique
            then ok i
            else later)
          ≡ ok v))
      ⊎ ((if not mark then later else if not sink then later else if clique then ok i else later)
          ≡ err not_extendable)
search_if false sink clique i later h = h
search_if true false clique i later h = h
search_if true true true i later h = inl (i, refl)
search_if true true false i later h = h

module _ {im : NameIndex} (c : Cpdag im) where
  open im use {get, get-new}

  -- A search or a loop that fails says that there is no candidate.
  candidate_from-cases :
      (active : List Bool) (remaining : List (List ℕ)) (i : ℕ) (marked : List Bool)
      → ((v : ℕ) × (candidate_from c active remaining i marked ≡ ok v))
        ⊎ (candidate_from c active remaining i marked ≡ err not_extendable)
  unfolding candidate_from
  candidate_from-cases active remaining i [] = inr refl
  candidate_from-cases active remaining i (mark ∷ marked) =
      search_if mark _ _ _ _ (candidate_from-cases active remaining (suc i) marked)

  orient_rounds-cases :
      (k : ℕ) (active : List Bool) (remaining : List (List ℕ)) (oriented : List (ℕ × ℕ))
      → ((result : List (ℕ × ℕ)) × (orient_rounds k c active remaining oriented ≡ ok result))
        ⊎ (orient_rounds k c active remaining oriented ≡ err not_extendable)
  unfolding orient_rounds find_extension_candidate
  orient_rounds-cases zero active remaining oriented = inl (oriented, refl)
  orient_rounds-cases (suc k) active remaining oriented =
      elim (candidate_from-cases active remaining 0 active) [
        | inl (v, found) ↦ rw found (orient_rounds-cases k _ _ _)
        | inr none_found ↦ inr (rw none_found)
      ]

  valid_of_rank :
      (dag : Dag im)
      → IsWellFormed dag
      → (rank : ℕ → ℕ) → IsRank dag rank
      → 0 < node_count dag
      → validate dag ≡ ok tt
  valid_of_rank dag wf rank ranked nonempty = elim (validate_decides dag wf) [
    | inl (refused, empty) ↦ absurd (omega arith)
    | inr (inl (accepted, some_node, acyclic)) ↦ accepted
    | inr (inr (refused, cyclic)) ↦ absurd (cyclic (rank, ranked))
  ]

  -- A graph with the same edges is an extension too.
  IsExtension-same :
      (f g : ℕ → ℕ → ℕ) → ((u v : ℕ) → g u v ≡ f u v) → IsExtension c f → IsExtension c g
  IsExtension-same f g same ext = record {
    kept = λ u v. omega (arith, ext.kept u v, same u v);
    skeleton = λ u v. omega (arith, ext.skeleton u v, same u v, same v u);
    no_new_collider = λ u v w other hu hv.
        ext.no_new_collider u v w other (omega (arith, same u w)) (omega (arith, same v w));
  }

  module _ (simple : IsSimple c) (edges : ℕ → ℕ → ℕ) (ext : IsExtension c edges) where
    extension_once : (u v : ℕ) → edges u v ≤ 1
    extension_once u v = omega (arith, ext.skeleton u v, simple.exclusive u v)

    extension_loopless : (u : ℕ) → edges u u ≡ 0
    extension_loopless u = omega (arith, ext.skeleton u u, simple.exclusive u u, simple.loopless u)

    extension_below : (u v : ℕ) → 0 < edges u v → (u < length c.names) × (v < length c.names)
    extension_below u v h = ground (
      arith,
      ext.skeleton u v,
      simple.matched u v,
      simple.matched v u,
      simple.symmetric u v,
      simple.sized_children,
      simple.sized_parents,
      simple.sized_undirected,
      get_or_beyond c.directed_children u [],
      get_or_beyond c.directed_children v [],
      get_or_beyond c.directed_parents u [],
      get_or_beyond c.directed_parents v [],
      get_or_beyond c.undirected u [],
      get_or_beyond c.undirected v [],
    )

  module _ (simple : IsSimple c) where
    room : length c.names ≤ u32_mod
    room = simple.small

    distinct : AreDistinct c.names
    distinct i j name hi hj = cc (simple.indexed name i hi, simple.indexed name j hj)

    named : Dag im
    named = add_names c.names new

    named-IsWellFormed : IsWellFormed named
    unfolding named
    named-IsWellFormed =
        add_names-IsWellFormed c.names new new-IsWellFormed (omega (arith, length-new im))

    names-named : named.names ≡ c.names
    unfolding named new
    names-named = names-add_names c.names new distinct (λ i k h. get-new k)

    children-named : (u : ℕ) → children_raw named u ≡ []
    unfolding named new
    children-named u = children-add_names c.names new u

    -- The graph built from the edges of an acyclic extension.
    built :
        (oriented : List (ℕ × ℕ))
        → 0 < length c.names
        → IsExtension c (λ u v. edge_count u v oriented)
        → (rank : ℕ → ℕ) → Grows c (λ u v. edge_count u v oriented) rank
        → (dag : Dag im) × (add_oriented oriented named ≡ ok dag)
          × IsWellFormed dag
          × (validate dag ≡ ok tt)
          × (dag.names ≡ c.names)
          × IsExtension c (λ u v. count v (children_raw dag u))
    built oriented nonempty ext rank grows =
        let bare : (u v : ℕ) → count v (children_raw named u) ≡ 0 =
          λ u v. ap (count v) (children-named u) in
        let (dag, run, wf, names, counted) =
          add_oriented_free oriented named named-IsWellFormed
            (λ u v. omega (arith, bare u v, extension_once simple _ ext u v))
            (extension_loopless simple _ ext)
            (λ u v h. rw names-named (extension_below simple _ ext u v h)) in
        let same : (u v : ℕ) → count v (children_raw dag u) ≡ edge_count u v oriented =
          λ u v. omega (arith, counted u v, bare u v) in
        let ranked : IsRank dag rank =
          λ u v h. grows u v (omega (arith, wf.matched u v, same u v)) in
        (
          dag,
          run,
          wf,
          valid_of_rank dag wf rank ranked (ground (arith, ap length names, ap length names-named)),
          rw names names-named,
          IsExtension-same _ _ same ext,
        )

    -- If the lists of a `Cpdag` meet `IsSimple`, the invariant that its operations keep, then one of
    -- these holds. There is no node and `consistent_extension` returns `EmptyGraph`. Or
    -- it returns ok with a well-formed graph with the same names that `validate` accepts and that is
    -- a consistent extension: it keeps the directed edges, it has one edge where the `Cpdag` has one
    -- of either kind and none elsewhere, and where two edges meet in a node, both are directed edges
    -- of the `Cpdag` or their other ends have an edge between them. Or it returns `NotExtendable` and
    -- no acyclic graph is such an extension.
    pub consistent_extension_decides :
        ((length c.names ≡ 0) × (consistent_extension c ≡ err empty_graph))
        ⊎ ((dag : Dag im) × (consistent_extension c ≡ ok dag)
            × IsWellFormed dag
            × (validate dag ≡ ok tt)
            × (dag.names ≡ c.names)
            × IsExtension c (λ u v. count v (children_raw dag u)))
        ⊎ ((consistent_extension c ≡ err not_extendable)
            × ¬ ((edges : ℕ → ℕ → ℕ) × (rank : ℕ → ℕ) × IsExtension c edges × Grows c edges rank))
    unfolding consistent_extension named
    consistent_extension_decides = elim (Bool-cases (length c.names == 0)) [
      | inl e ↦ inl (ground arith, rw e refl)
      | inr e ↦
          elim (orient_rounds-cases (length c.names) (all_active c simple room) c.undirected
            (directed_edges c)) [
              | inl (oriented, run) ↦
                  let (ext, (rank, grows)) = orient_rounds_sound c simple room oriented run in
                  let (dag, added, wf, valid, names, extends) =
                    built oriented (ground arith) ext rank grows in
                  inr (inl (dag, rw (e, run, added, valid) refl, wf, valid, names, extends))
              | inr failed ↦ inr (
                  inr (
                    rw (e, failed) refl,
                    λ (edges, rank, ext, grows).
                        let (oriented, run) =
                          orient_rounds_complete c simple room edges rank ext grows in
                        cc (run, failed),
                  ))
            ]
    ]
