-- ===== src/Cpdag/Rounds.antt =====
-- A round of `consistent_extension` (src/cpdag.rs) keeps what holds between the rounds.
use causasv.Prelude.{
  ℕ, suc, ◌+◌, ◌≤◌, ◌<◌, ◌≡◌, ◌≢◌, sym, ap, subst, arith, true, false, Bool, ◌&&◌, List, [], ◌++◌,
  length, get_or, set, get_or-set, get_or_beyond, length-set, count, count-append, ◌==◌,
  if◌then◌else◌, Bool-cases, zero-cases, ◌⊎◌, inl, inr,
}
use causasv.Graph.Index.{NameIndex}
use causasv.Cpdag.{Cpdag, children_at, undirected_at, only_active, into, retain_at}
use causasv.Cpdag.Edges.{IsSimple}
use causasv.Cpdag.Pairs.{
  edge_count, edge_count-append, edge_count-into, count-only_active, count-retain_at,
  length-retain_at,
}
use causasv.Cpdag.Progress.{IsProgress, IsRanked}
use causasv.Cpdag.Candidate.{edges_between, IsCandidate}

module _ {im : NameIndex} (c : Cpdag im) where
  module _ (simple : IsSimple c) (active : List Bool) (remaining : List (List ℕ))
      (oriented : List (ℕ × ℕ)) (p : IsProgress c active remaining oriented) (v : ℕ)
      (can : IsCandidate c active remaining v) where
    abbrev active' : List Bool
    active' = set active v false

    abbrev neighbors : List ℕ
    neighbors = get_or remaining v []

    abbrev remaining' : List (List ℕ)
    remaining' = retain_at v neighbors (set remaining v [])

    abbrev oriented' : List (ℕ × ℕ)
    oriented' = oriented ++ into v (only_active active neighbors)

    active_lt : v < length active
    active_lt = ground (arith, can.is_active, get_or_beyond active v false)

    active'_at :
        (u : ℕ) → get_or active' u false ≡ (if v == u then false else get_or active u false)
    active'_at u = get_or-set active v u false false active_lt

    edge_count-oriented' :
        (x y : ℕ)
        → edge_count x y oriented'
          ≡ edge_count x y oriented
            + (if v == y
                then (if get_or active x false then count x (undirected_at c v) else 0)
                else 0)
    edge_count-oriented' x y = ground (
      arith,
      edge_count-append x y oriented (into v (only_active active neighbors)),
      edge_count-into x y v (only_active active neighbors),
      count-only_active active x neighbors,
      p.remains v x,
      can.is_active,
    )

    step_remains :
        (x y : ℕ)
        → count y (get_or remaining' x []) ≡ (
            if get_or active' x false && get_or active' y false
            then count y (undirected_at c x)
            else 0)
    step_remains x y = ground (
      arith,
      active'_at x,
      active'_at y,
      count-retain_at v neighbors (set remaining v []) x y,
      get_or-set remaining v x [] [],
      p.remains x y,
      p.remains v x,
      p.sized_active,
      p.sized_remaining,
      active_lt,
      can.is_active,
      simple.symmetric v x,
      λ (same : y ≡ v). ap (λ (t : ℕ). count t (undirected_at c x)) same,
    )

    step_closed :
        (x y : ℕ)
        → get_or active' x false ≡ false
        → get_or active' y false ≡ true
        → count y (children_at c x) ≡ 0
    step_closed x y ex ey = ground (
      arith,
      active'_at x,
      active'_at y,
      p.closed x y,
      can.is_sink y,
      λ (same : v ≡ x). ap (λ (t : ℕ). count y (children_at c t)) same,
    )

    step_fresh :
        (x y : ℕ)
        → get_or active' y false ≡ true
        → edge_count x y oriented' ≡ count y (children_at c x)
    step_fresh x y ey = ground (arith, active'_at y, edge_count-oriented' x y, p.fresh x y)

    step_keeps : (x y : ℕ) → count y (children_at c x) ≤ edge_count x y oriented'
    step_keeps x y = omega (arith, edge_count-oriented' x y, p.keeps x y)

    step_joined :
        (x y : ℕ)
        → edge_count x y oriented' + edge_count y x oriented'
          ≡ count y (children_at c x)
            + count x (children_at c y)
            + (if get_or active' x false && get_or active' y false
                then 0
                else count y (undirected_at c x))
    step_joined x y = ground (
      arith,
      active'_at x,
      active'_at y,
      edge_count-oriented' x y,
      edge_count-oriented' y x,
      p.joined x y,
      can.is_active,
      simple.symmetric x y,
      simple.loopless v,
      λ (same : v ≡ x). ap (λ (t : ℕ). count y (undirected_at c t)) same,
      λ (same : v ≡ y). ap (λ (t : ℕ). count x (undirected_at c t)) same,
      λ (same : v ≡ x). ap (λ (t : ℕ). get_or active t false) same,
      λ (same : v ≡ y). ap (λ (t : ℕ). get_or active t false) same,
      λ (same : v ≡ x). ap (λ (t : ℕ). count t (undirected_at c v)) same,
    )

    -- An edge into the candidate is directed, or was undirected until this round.
    incoming :
        (x : ℕ)
        → 0 < edge_count x v oriented'
        → (0 < count v (children_at c x)) ⊎ (0 < count x neighbors)
    incoming x h = elim (zero-cases (count v (children_at c x))) [
      | inl none_directed ↦
          inr (ground (arith, edge_count-oriented' x v, p.fresh x v, p.remains v x, can.is_active))
      | inr directed ↦ inl directed
    ]

    near :
        (x : ℕ)
        → (0 < count v (children_at c x)) ⊎ (0 < count x neighbors)
        → 0 < count x (only_active active (get_or c.directed_parents v []) ++ neighbors)
    near x h = ground (
      arith,
      h,
      count-append x (only_active active (get_or c.directed_parents v [])) neighbors,
      count-only_active active x (get_or c.directed_parents v []),
      simple.matched x v,
      p.closed x v,
      can.is_active,
    )

    met_candidate :
        (x y : ℕ)
        → x ≢ y
        → (0 < count v (children_at c x)) ⊎ (0 < count x neighbors)
        → (0 < count v (children_at c y)) ⊎ (0 < count y neighbors)
        → ((0 < count v (children_at c x)) × (0 < count v (children_at c y)))
          ⊎ (0 < edges_between c x y)
    met_candidate x y other (inr nx) hy =
        inr (can.is_clique x y nx (near y hy) (λ e. other (sym e)))
    met_candidate x y other (inl dx) (inr ny) =
        let back = can.is_clique y x ny (near x (inl dx)) other in
        inr (omega (arith, simple.symmetric x y, back))
    met_candidate x y other (inl dx) (inl dy) = inl (dx, dy)

    step_met :
        (x y w : ℕ)
        → x ≢ y
        → 0 < edge_count x w oriented'
        → 0 < edge_count y w oriented'
        → ((0 < count w (children_at c x)) × (0 < count w (children_at c y)))
          ⊎ (0 < edges_between c x y)
    step_met x y w other hx hy = elim (Bool-cases (v == w)) [
      | inl same ↦
          let e : v ≡ w = ground arith in
          let hx' : 0 < edge_count x v oriented' =
            subst (λ t. 0 < edge_count x t oriented') (sym e) hx in
          let hy' : 0 < edge_count y v oriented' =
            subst (λ t. 0 < edge_count y t oriented') (sym e) hy in
          subst
            (λ t.
              ((0 < count t (children_at c x)) × (0 < count t (children_at c y)))
              ⊎ (0 < edges_between c x y))
            e (met_candidate x y other (incoming x hx') (incoming y hy'))
      | inr elsewhere ↦
          p.met x y w other (ground (arith, edge_count-oriented' x w))
            (ground (arith, edge_count-oriented' y w))
    ]

    pub step-IsProgress : IsProgress c active' remaining' oriented'
    step-IsProgress = record {
      sized_active = omega (arith, p.sized_active, length-set active v false);
      sized_remaining = omega (
        arith,
        p.sized_remaining,
        length-retain_at v neighbors (set remaining v []),
        length-set remaining v [],
      );
      remains = step_remains;
      closed = step_closed;
      fresh = step_fresh;
      keeps = step_keeps;
      joined = step_joined;
      met = step_met;
    }

    -- The rank of a node is the number of rounds left before its own.
    pub step-IsRanked :
        (k : ℕ) (rank : ℕ → ℕ)
        → IsRanked c active oriented (suc k) rank
        → IsRanked c active' oriented' k (λ u. if v == u then suc k else rank u)
    step-IsRanked k rank r = record {
      late = λ u h. ground (arith, active'_at u, r.late u);
      ordered = λ x y h hx hy. ground (
        arith,
        active'_at x,
        active'_at y,
        edge_count-oriented' x y,
        r.late x,
        r.late y,
        r.ordered x y,
        p.fresh x v,
        p.closed x v,
        p.fresh v v,
        simple.exclusive v v,
        simple.loopless v,
        can.is_active,
        λ (same : v ≡ y). ap (λ (t : ℕ). edge_count x t oriented) same,
        λ (same : v ≡ x). ap (λ (t : ℕ). edge_count t y oriented) same,
        λ (same : v ≡ x). ap (λ (t : ℕ). count t (undirected_at c v)) same,
        λ (same : v ≡ x). ap (λ (t : ℕ). get_or active t false) same,
        λ (same : v ≡ y). ap (λ (t : ℕ). get_or active t false) same,
      );
    }
