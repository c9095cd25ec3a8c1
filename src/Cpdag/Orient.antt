-- ===== src/Cpdag/Orient.antt =====
-- The `for _ in 0..n` loop of `consistent_extension` (src/cpdag.rs), from its start to its end.
use causasv.Prelude.{
  ℕ, zero, suc, ◌≤◌, ◌<◌, ◌≡◌, refl, sym, subst, arith, true, false, Bool, ◌&&◌, List, [], ◌∷◌,
  ◌++◌, length, get_or, get_or_beyond, count, count-append, replicate, length-replicate, ltb,
  u32_mod, Bool-cases, zero-cases, inl, inr,
}
use causasv.Error.{ok, >>=-eq-ok}
use causasv.Graph.Index.{NameIndex}
use causasv.Cpdag.{
  Cpdag, children_at, undirected_at, only_active, orient_rounds, directed_edges,
  find_extension_candidate,
}
use causasv.Cpdag.Edges.{IsSimple}
use causasv.Cpdag.Pairs.{
  edge_count, edge_count-edges_from, count-only_active, marks, marks-set, marks_none,
  marks-replicate, get_or-replicate-true,
}
use causasv.Cpdag.Candidate.{
  IsCandidate, find_extension_candidate_sound, find_extension_candidate_complete,
}
use causasv.Cpdag.Progress.{IsExtension, IsProgress, IsRanked}
use causasv.Cpdag.Rounds.{step-IsProgress, step-IsRanked}

covers :
    (mark : Bool) (active : List Bool) (rank : ℕ → ℕ) (bound : ℕ)
    → (mark ≡ true → rank 0 ≤ bound)
    → ((u : ℕ) → get_or active u false ≡ true → rank (suc u) ≤ bound)
    → (u : ℕ) → get_or (mark ∷ active) u false ≡ true
    → rank u ≤ bound
covers mark active rank bound here later zero h = here h
covers mark active rank bound here later (suc u) h = later u h

-- An active node of the greatest rank.
last_active :
    (active : List Bool) (rank : ℕ → ℕ)
    → 0 < marks active
    → (v : ℕ) × (get_or active v false ≡ true)
      × ((u : ℕ) → get_or active u false ≡ true → rank u ≤ rank v)
last_active [] rank h = absurd (omega arith)
last_active (mark ∷ active) rank h = elim (zero-cases (marks active)) [
  | inl none_left ↦
      let first : mark ≡ true = ground arith in
      (
        0,
        first,
        covers mark active rank (rank 0) (λ m. omega arith)
            (λ u m. let off = marks_none active u none_left in absurd (cc)),
      )
  | inr some_left ↦
      let (v, here, last) = last_active active (λ u. rank (suc u)) some_left in
      elim (Bool-cases (mark && ltb (rank (suc v)) (rank 0))) [
        | inl first ↦ (
          0,
          ground arith,
          covers mark active rank (rank 0) (λ m. omega arith) (λ u m. ground (arith, last u m)),
        )
        | inr not_first ↦
            (suc v, here, covers mark active rank (rank (suc v)) (λ m. ground arith) last)
      ]
]

module _ {im : NameIndex} (c : Cpdag im) where
  -- The ranks of nodes grow along the edges.
  abbrev pub Grows : (ℕ → ℕ → ℕ) → (ℕ → ℕ) → Type 0
  Grows edges rank = (u v : ℕ) → 0 < edges u v → rank u < rank v

  module _ (simple : IsSimple c) (room : length c.names ≤ u32_mod) where
    abbrev pub all_active : List Bool
    all_active = replicate (length c.names) true

    directed_count : (u v : ℕ) → edge_count u v (directed_edges c) ≡ count v (children_at c u)
    unfolding directed_edges
    directed_count u v = ground (
      arith,
      edge_count-edges_from (children_at c) u v 0 (length c.names) (omega arith),
      get_or_beyond c.directed_children u [],
      simple.sized_children,
    )

    start-IsProgress : IsProgress c all_active c.undirected (directed_edges c)
    start-IsProgress = record {
      sized_active = length-replicate (length c.names) true;
      sized_remaining = simple.sized_undirected;
      remains = λ u v. ground (
        arith,
        get_or-replicate-true (length c.names) u,
        get_or-replicate-true (length c.names) v,
        get_or_beyond c.undirected u [],
        get_or_beyond c.undirected v [],
        simple.symmetric u v,
        simple.sized_undirected,
      );
      closed = λ u v hu hv. ground (
        arith,
        get_or-replicate-true (length c.names) u,
        get_or_beyond c.directed_children u [],
        simple.sized_children,
      );
      fresh = λ u v h. directed_count u v;
      keeps = λ u v. omega (arith, directed_count u v);
      joined = λ u v. ground (
        arith,
        directed_count u v,
        directed_count v u,
        get_or-replicate-true (length c.names) u,
        get_or-replicate-true (length c.names) v,
        get_or_beyond c.undirected u [],
        get_or_beyond c.undirected v [],
        simple.symmetric u v,
        simple.sized_undirected,
      );
      met = λ u v w other hu hv.
          inl (omega (arith, directed_count u w), omega (arith, directed_count v w));
    }

    start-IsRanked :
        IsRanked c all_active (directed_edges c) (length c.names) (λ u. suc (length c.names))
    start-IsRanked = record {
      late = λ u h. omega arith;
      ordered = λ u v h hu hv. ground (
        arith,
        directed_count u v,
        get_or-replicate-true (length c.names) u,
        get_or_beyond c.directed_children u [],
        simple.sized_children,
      );
    }

    -- What the edges are when no node is active.
    end-IsExtension :
        (active : List Bool) (remaining : List (List ℕ)) (oriented : List (ℕ × ℕ))
        → IsProgress c active remaining oriented
        → marks active ≡ 0
        → IsExtension c (λ u v. edge_count u v oriented)
    end-IsExtension active remaining oriented p none_left = record {
      kept = p.keeps;
      skeleton = λ u v. ground (arith, p.joined u v, marks_none active u none_left);
      no_new_collider = p.met;
    }

    rounds_sound :
        (k : ℕ) (active : List Bool) (remaining : List (List ℕ)) (oriented result : List (ℕ × ℕ))
        (rank : ℕ → ℕ)
        → IsProgress c active remaining oriented
        → IsRanked c active oriented k rank
        → marks active ≡ k
        → orient_rounds k c active remaining oriented ≡ ok result
        → IsExtension c (λ u v. edge_count u v result)
          × ((last_rank : ℕ → ℕ) × Grows (λ u v. edge_count u v result) last_rank)
    unfolding orient_rounds
    rounds_sound zero active remaining oriented result rank p r left h =
        let e : oriented ≡ result = cc in
        subst
          (λ es.
            IsExtension c (λ u v. edge_count u v es)
            × ((last_rank : ℕ → ℕ) × Grows (λ u v. edge_count u v es) last_rank))
          e
          (
            end-IsExtension active remaining oriented p left,
            (rank, λ u v m. r.ordered u v m (marks_none active u left) (marks_none active v left)),
          )
    rounds_sound (suc k) active remaining oriented result rank p r left h =
        let (v, found, later) = >>=-eq-ok (find_extension_candidate c active remaining) _ h in
        let can =
          find_extension_candidate_sound c active remaining v (omega (arith, p.sized_active))
            found in
        rounds_sound k _ _ _ result _ (step-IsProgress c simple active remaining oriented p v can)
          (step-IsRanked c simple active remaining oriented p v can k rank r)
          (omega (arith, marks-set active v can.is_active)) later

    module _ (edges : ℕ → ℕ → ℕ) (rank : ℕ → ℕ) (ext : IsExtension c edges)
        (grows : Grows edges rank) where
      -- A remaining undirected edge at an active node of greatest rank leads into it.
      arrives :
          (active : List Bool) (remaining : List (List ℕ)) (oriented : List (ℕ × ℕ))
          → IsProgress c active remaining oriented
          → (v : ℕ) → get_or active v false ≡ true
          → ((u : ℕ) → get_or active u false ≡ true → rank u ≤ rank v)
          → (w : ℕ) → 0 < count w (get_or remaining v [])
          → (0 < edges w v) × (0 < count w (undirected_at c v))
      arrives active remaining oriented p v here last w m =
          ground (arith, p.remains v w, ext.skeleton v w, grows v w, last w)

      arrives_any :
          (active : List Bool) (remaining : List (List ℕ)) (oriented : List (ℕ × ℕ))
          → IsProgress c active remaining oriented
          → (v : ℕ) → get_or active v false ≡ true
          → ((u : ℕ) → get_or active u false ≡ true → rank u ≤ rank v)
          → (y : ℕ)
          → 0
            < count y (only_active active (get_or c.directed_parents v []) ++ get_or remaining v [])
          → 0 < edges y v
      arrives_any active remaining oriented p v here last y n = ground (
        arith,
        count-append y (only_active active (get_or c.directed_parents v []))
            (get_or remaining v []),
        count-only_active active y (get_or c.directed_parents v []),
        simple.matched y v,
        ext.kept y v,
        λ (m : 0 < count y (get_or remaining v [])).
            (arrives active remaining oriented p v here last y m).0,
      )

      last-IsCandidate :
          (active : List Bool) (remaining : List (List ℕ)) (oriented : List (ℕ × ℕ))
          → IsProgress c active remaining oriented
          → (v : ℕ) → get_or active v false ≡ true
          → ((u : ℕ) → get_or active u false ≡ true → rank u ≤ rank v)
          → IsCandidate c active remaining v
      last-IsCandidate active remaining oriented p v here last = record {
        is_active = here;
        is_sink = λ w a. ground (arith, ext.kept v w, grows v w, last w);
        is_clique = λ w y m n other.
            let fact = arrives active remaining oriented p v here last in
            let (w_in, w_undirected) = fact w m in
            let y_in = arrives_any active remaining oriented p v here last y n in
            elim (ext.no_new_collider w y v (λ e. other (sym e)) w_in y_in) [
              | inl (w_directed, y_directed) ↦ absurd (omega (arith, simple.exclusive v w))
              | inr joined ↦ joined
            ];
      }

      rounds_complete :
          (k : ℕ) (active : List Bool) (remaining : List (List ℕ)) (oriented : List (ℕ × ℕ))
          → IsProgress c active remaining oriented
          → marks active ≡ k
          → (result : List (ℕ × ℕ)) × (orient_rounds k c active remaining oriented ≡ ok result)
      unfolding orient_rounds
      rounds_complete zero active remaining oriented p left = (oriented, refl)
      rounds_complete (suc k) active remaining oriented p left =
          let (v, here, last) = last_active active rank (omega arith) in
          let can = last-IsCandidate active remaining oriented p v here last in
          let (u, found) =
            find_extension_candidate_complete c active remaining v (omega (arith, p.sized_active))
              can (ground (arith, here, get_or_beyond active v false)) in
          let can_u =
            find_extension_candidate_sound c active remaining u (omega (arith, p.sized_active))
              found in
          rw found (
            rounds_complete k _ _ _ (step-IsProgress c simple active remaining oriented p u can_u)
              (omega (arith, marks-set active u can_u.is_active)))

      -- If there is an acyclic consistent extension, the loop ends with a list of edges.
      pub orient_rounds_complete :
          (result : List (ℕ × ℕ)) × (orient_rounds
              (length c.names)
              c
              all_active
              c.undirected
              (directed_edges c)
            ≡ ok result)
      orient_rounds_complete =
          rounds_complete (length c.names) all_active c.undirected (directed_edges c)
            start-IsProgress (marks-replicate (length c.names))

    -- The edges with which the loop ends are those of an acyclic consistent extension.
    pub orient_rounds_sound :
        (result : List (ℕ × ℕ))
        → orient_rounds (length c.names) c all_active c.undirected (directed_edges c) ≡ ok result
        → IsExtension c (λ u v. edge_count u v result)
          × ((rank : ℕ → ℕ) × Grows (λ u v. edge_count u v result) rank)
    orient_rounds_sound result h =
        rounds_sound (length c.names) all_active c.undirected (directed_edges c) result _
          start-IsProgress start-IsRanked (marks-replicate (length c.names)) h
