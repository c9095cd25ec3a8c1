-- ===== src/Cpdag/Candidate.antt =====
-- What `find_extension_candidate` (src/cpdag.rs) looks for, and that it finds it.
use causasv.Prelude.{
  ℕ, suc, ◌+◌, ◌≤◌, ◌<◌, ◌≡◌, ◌≢◌, refl, sym, ap, ◌∙◌, subst, arith, true, false, Bool, not, List,
  [], ◌∷◌, ◌++◌, length, get_or, count, contains-false, contains-true, ◌==◌, as_u32, as_u32_small,
  u32_mod, if◌then◌else◌, Bool-cases, ◌⊎◌, inl, inr,
}
use causasv.Error.{Result, ok}
use causasv.Graph.Index.{NameIndex}
use causasv.Cpdag.{
  Cpdag, children_at, undirected_at, only_active, adjacent, all_adjacent, clique_with,
  candidate_from, find_extension_candidate,
}

-- The branches of one round of the search.
chosen :
    (mark sink clique : Bool) (i v : ℕ) (later : Result ℕ)
    → (if not mark then later else if not sink then later else if clique then ok i else later)
      ≡ ok v
    → (later ≡ ok v) ⊎ ((mark ≡ true) × (sink ≡ true) × (clique ≡ true) × (i ≡ v))
chosen false sink clique i v later h = inl h
chosen true false clique i v later h = inl h
chosen true true true i v later h = inr (refl, refl, refl, cc)
chosen true true false i v later h = inl h

found :
    (mark sink clique : Bool) (i : ℕ) (later : Result ℕ)
    → (u : ℕ) × (later ≡ ok u)
    → (u : ℕ) × ((if not mark
          then later
          else if not sink
          then later
          else if clique
          then ok i
          else later)
        ≡ ok u)
found false sink clique i later h = h
found true false clique i later h = h
found true true true i later h = (i, refl)
found true true false i later h = h

module _ {im : NameIndex} (c : Cpdag im) where
  -- The edges between two nodes, of either kind and direction.
  abbrev pub edges_between : ℕ → ℕ → ℕ
  edges_between u v =
      count v (children_at c u) + count u (children_at c v) + count v (undirected_at c u)

  adjacent-edges_between : (u v : ℕ) → adjacent c u v ≡ true → 0 < edges_between u v
  adjacent-edges_between u v h = ground (
    arith,
    contains-true (children_at c u) v,
    contains-true (children_at c v) u,
    contains-true (undirected_at c u) v,
  )

  edges_between-adjacent : (u v : ℕ) → 0 < edges_between u v → adjacent c u v ≡ true
  edges_between-adjacent u v h = ground (
    arith,
    contains-false (children_at c u) v,
    contains-false (children_at c v) u,
    contains-false (undirected_at c u) v,
  )

  all_adjacent_sound :
      (w : ℕ) (ys : List ℕ)
      → all_adjacent c w ys ≡ true
      → (y : ℕ) → 0 < count y ys
      → y ≢ w
      → 0 < edges_between w y
  all_adjacent_sound w [] h y m other = absurd (omega arith)
  all_adjacent_sound w (x ∷ ys) h y m other = elim (Bool-cases (x == y)) [
    | inl same ↦
        let e : x ≡ y = ground arith in
        let adj : adjacent c w x ≡ true = ground arith in
        adjacent-edges_between w y (subst (λ t. adjacent c w t ≡ true) e adj)
    | inr later ↦ all_adjacent_sound w ys (ground arith) y (ground arith) other
  ]

  all_adjacent_complete :
      (w : ℕ) (ys : List ℕ)
      → ((y : ℕ) → 0 < count y ys → y ≢ w → 0 < edges_between w y)
      → all_adjacent c w ys ≡ true
  all_adjacent_complete w [] h = refl
  all_adjacent_complete w (x ∷ ys) h =
      let rest = all_adjacent_complete w ys (λ y m other. h y (ground arith) other) in
      elim (Bool-cases (x == w)) [
        | inl same ↦ rw (same, rest)
        | inr other ↦
            rw (other, edges_between-adjacent w x (h x (ground arith) (ground arith)), rest)
      ]

  clique_sound :
      (neighbors ws : List ℕ)
      → clique_with c neighbors ws ≡ true
      → (w y : ℕ) → 0 < count w ws
      → 0 < count y neighbors
      → y ≢ w
      → 0 < edges_between w y
  clique_sound neighbors [] h w y m n other = absurd (omega arith)
  clique_sound neighbors (x ∷ ws) h w y m n other = elim (Bool-cases (x == w)) [
    | inl same ↦
        all_adjacent_sound w neighbors
          (let e : x ≡ w = ground arith in
            let adj : all_adjacent c x neighbors ≡ true = ground arith in
            subst (λ t. all_adjacent c t neighbors ≡ true) e adj)
          y n other
    | inr later ↦ clique_sound neighbors ws (ground arith) w y (ground arith) n other
  ]

  clique_complete :
      (neighbors ws : List ℕ)
      → ((w y : ℕ) → 0 < count w ws → 0 < count y neighbors → y ≢ w → 0 < edges_between w y)
      → clique_with c neighbors ws ≡ true
  clique_complete neighbors [] h = refl
  clique_complete neighbors (x ∷ ws) h =
      let here = all_adjacent_complete x neighbors (λ y n other. h x y (ground arith) n other) in
      let rest = clique_complete neighbors ws (λ w y m n other. h w y (ground arith) n other) in
      rw (here, rest)

  module _ (active : List Bool) (remaining : List (List ℕ)) where
    -- A node that can be the last of the active ones: no active child, and each node that its
    -- remaining undirected edges would orient into it has an edge to every other active neighbour.
    pub record IsCandidate (v : ℕ) : Type 0 where
      pub is_active : get_or active v false ≡ true
      pub is_sink : (w : ℕ) → get_or active w false ≡ true → count w (children_at c v) ≡ 0
      pub is_clique :
          (w y : ℕ)
          → 0 < count w (get_or remaining v [])
          → 0
            < count y (only_active active (get_or c.directed_parents v []) ++ get_or remaining v [])
          → y ≢ w
          → 0 < edges_between w y

    no_active :
        (ws : List ℕ) (w : ℕ)
        → length (only_active active ws) ≡ 0
        → get_or active w false ≡ true
        → count w ws ≡ 0
    no_active [] w h a = refl
    no_active (x ∷ ws) w h a =
        let e : (x ≡ w) → get_or active x false ≡ true =
          λ same. ap (λ (t : ℕ). get_or active t false) same ∙ a in
        ground (arith, no_active ws w, e)

    no_active_complete :
        (ws : List ℕ)
        → ((w : ℕ) → get_or active w false ≡ true → count w ws ≡ 0)
        → length (only_active active ws) ≡ 0
    no_active_complete [] h = refl
    no_active_complete (x ∷ ws) h =
        let rest = no_active_complete ws (λ w a. omega (arith, h w a)) in ground (arith, h x)

    shifted :
        (i : ℕ) (mark : Bool) (marked : List Bool)
        → ((j : ℕ) → get_or (mark ∷ marked) j false ≡ get_or active (i + j) false)
        → (j : ℕ) → get_or marked j false ≡ get_or active (suc i + j) false
    shifted i mark marked tail j =
        let e : i + suc j ≡ suc i + j = omega arith in
        tail (suc j) ∙ ap (λ (t : ℕ). get_or active t false) e

    is_marked :
        (i : ℕ) (mark : Bool) (marked : List Bool)
        → ((j : ℕ) → get_or (mark ∷ marked) j false ≡ get_or active (i + j) false)
        → as_u32 i ≡ i
        → mark ≡ true
        → get_or active (as_u32 i) false ≡ true
    is_marked i mark marked tail small m =
        let e : i + 0 ≡ i = omega arith in
        rw small (sym (tail 0 ∙ ap (λ (t : ℕ). get_or active t false) e) ∙ m)

    -- What the tests of a round say.
    passed :
        (v : ℕ)
        → get_or active v false ≡ true
        → (length (only_active active (children_at c v)) == 0) ≡ true
        → clique_with c
            (only_active active (get_or c.directed_parents v []) ++ get_or remaining v [])
            (get_or remaining v [])
          ≡ true
        → IsCandidate v
    passed v a sink clique = record {
      is_active = a;
      is_sink = λ w b. no_active (children_at c v) w (ground arith) b;
      is_clique = λ w y m n other.
          clique_sound
            (only_active active (get_or c.directed_parents v []) ++ get_or remaining v [])
            (get_or remaining v []) clique w y m n other;
    }

    candidate_from_sound :
        (i : ℕ) (marked : List Bool) (v : ℕ)
        → i + length marked ≤ u32_mod
        → ((j : ℕ) → get_or marked j false ≡ get_or active (i + j) false)
        → candidate_from c active remaining i marked ≡ ok v
        → IsCandidate v
    unfolding candidate_from
    candidate_from_sound i [] v room tail h = cc
    candidate_from_sound i (mark ∷ marked) v room tail h =
        let small : as_u32 i ≡ i = as_u32_small i (omega arith) in
        let later =
          candidate_from_sound (suc i) marked v (omega arith) (λ j. shifted i mark marked tail j) in
        elim (chosen mark _ _ _ v _ h) [
          | inl rest ↦ later rest
          | inr (marked_i, sink, clique, same) ↦
              let at_v : IsCandidate (as_u32 i) =
                passed (as_u32 i) (is_marked i mark marked tail small marked_i) sink clique in
              subst IsCandidate same at_v
        ]

    candidate_from_complete :
        (i : ℕ) (marked : List Bool) (v : ℕ)
        → i + length marked ≤ u32_mod
        → ((j : ℕ) → get_or marked j false ≡ get_or active (i + j) false)
        → IsCandidate v
        → i ≤ v
        → v < i + length marked
        → (u : ℕ) × (candidate_from c active remaining i marked ≡ ok u)
    unfolding candidate_from
    candidate_from_complete i [] v room tail can from below = absurd (omega arith)
    candidate_from_complete i (mark ∷ marked) v room tail can from below =
        let small : as_u32 i ≡ i = as_u32_small i (omega arith) in
        elim (Bool-cases (i == v)) [
          | inl same ↦
              let e : v ≡ i = ground arith in
              let at_i : IsCandidate i = subst IsCandidate e can in
              let at_0 : i + 0 ≡ i = omega arith in
              let m : mark ≡ true =
                tail 0 ∙ ap (λ (t : ℕ). get_or active t false) at_0 ∙ at_i.is_active in
              let sink = no_active_complete (children_at c i) at_i.is_sink in
              let clique =
                clique_complete
                  (only_active active (get_or c.directed_parents i []) ++ get_or remaining i [])
                  (get_or remaining i []) at_i.is_clique in
              (i, rw (small, m, sink, clique))
          | inr other ↦ found mark _ _ (as_u32 i) _ (
              candidate_from_complete (suc i) marked v (omega arith)
                (λ j. shifted i mark marked tail j) can (ground arith) (omega arith))
        ]

    pub find_extension_candidate_sound :
        (v : ℕ)
        → length active ≤ u32_mod
        → find_extension_candidate c active remaining ≡ ok v
        → IsCandidate v
    unfolding find_extension_candidate
    find_extension_candidate_sound v room h =
        candidate_from_sound 0 active v (omega arith)
          (λ j. let e : j ≡ 0 + j = omega arith in ap (λ (t : ℕ). get_or active t false) e) h

    pub find_extension_candidate_complete :
        (v : ℕ)
        → length active ≤ u32_mod
        → IsCandidate v
        → v < length active
        → (u : ℕ) × (find_extension_candidate c active remaining ≡ ok u)
    unfolding find_extension_candidate
    find_extension_candidate_complete v room can below =
        candidate_from_complete 0 active v (omega arith)
          (λ j. let e : j ≡ 0 + j = omega arith in ap (λ (t : ℕ). get_or active t false) e) can
          (omega arith) (omega arith)
