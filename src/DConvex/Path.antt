-- ===== src/DConvex/Path.antt =====
-- `shortest_path_restricted` (src/d_convex.rs) ends, with a path if and only if there is one.
use causasv.Prelude.{
  ℕ, ◌+◌, ◌<◌, ◌≡◌, ◌≢◌, ◌⊎◌, refl, sym, subst, ap, arith, Bool, true, false, Option, some, none,
  List, [], ◌∷◌, ◌++◌, count, count-append, get_or, length, length-append, ◌==◌, Bool-cases, inl,
  inr,
}
use causasv.DConvex.Interface.{IdSet}
use causasv.DConvex.Sets.{has-insert, len-insert}
use causasv.DConvex.Trace.{Steps, LeadsBack, IsTrace, link-IsTrace, same-IsTrace}
use causasv.DConvex.{PathSearch, reverse, visit_neighbours}

module _ (ids : IdSet) (adj : List (List ℕ)) (from to : ℕ) (allowed : IdSet.Ids ids) (n : ℕ) where
  open ids use {Ids, len, has, insert, insert-is_new}

  -- The state inside a round that has popped `u`.
  pub record IsVisiting (u : ℕ) (s : PathSearch ids) : Type 0 where
    pub trace : IsTrace ids adj from allowed n s.visited s.prev
    pub known : has s.visited u ≡ true
    pub queued : (v : ℕ) → 0 < count v s.queue → has s.visited v ≡ true
    pub closed :
        (v w : ℕ)
        → has s.visited v ≡ true
        → count v s.queue ≡ 0
        → v ≢ u
        → Steps ids adj from allowed v w
        → has s.visited w ≡ true
    pub not_yet : has s.visited to ≡ false

  -- What the loop over the neighbours leaves.
  abbrev pub Visited : ℕ → List ℕ → PathSearch ids → Bool × PathSearch ids → Type 0
  Visited u vs s (found, s') =
      ((found ≡ true)
        × IsTrace ids adj from allowed n s'.visited s'.prev
        × (has s'.visited to ≡ true))
      ⊎ ((found ≡ false)
          × IsVisiting u s'
          × ((w : ℕ) → 0 < count w vs → has allowed w ≡ true → has s'.visited w ≡ true)
          × ((w : ℕ) → has s.visited w ≡ true → has s'.visited w ≡ true)
          × (length s'.queue + len s.visited ≡ length s.queue + len s'.visited))

  -- The first neighbour leaves `s₁`; the rest of the loop goes on from there.
  then-Visited :
      (u v : ℕ) (vs : List ℕ) (s s₁ : PathSearch ids) (result : Bool × PathSearch ids)
      → ((w : ℕ) → has s.visited w ≡ true → has s₁.visited w ≡ true)
      → (has allowed v ≡ true → has s₁.visited v ≡ true)
      → length s₁.queue + len s.visited ≡ length s.queue + len s₁.visited
      → Visited u vs s₁ result
      → Visited u (v ∷ vs) s result
  then-Visited u v vs s s₁ result kept own size (inl found) = inl found
  then-Visited u v vs s s₁ result kept own size (inr (e, c, all, more, sizes)) = inr (
    e,
    c,
    λ w m h. elim (Bool-cases (v == w)) [
      | inl same ↦
          let here : v ≡ w = ground arith in
          more w (
            subst (λ x. has s₁.visited x ≡ true) here
              (own (subst (λ x. has allowed x ≡ true) (sym here) h)))
      | inr other ↦ all w (ground arith) h
    ],
    λ w h. more w (kept w h),
    omega (arith, size, sizes),
  )

  -- A neighbour that is visited already.
  again-IsVisiting :
      (u v : ℕ) (s : PathSearch ids)
      → IsVisiting u s
      → has s.visited v ≡ true
      → v < n
      → IsVisiting u (record s { visited = (insert s.visited v).1 })
  again-IsVisiting u v s c old lt =
      let same = λ (x : ℕ). has-insert ids s.visited v x in
      let own = λ (x : ℕ). ap (has s.visited) {x = v} {y = x} in
      record {
        trace = same-IsTrace ids adj from allowed n s.visited s.prev v c.trace old lt;
        known = ground (arith, same u, c.known);
        queued = λ x m. ground (arith, same x, c.queued x m);
        closed = λ x w h idle apart steps.
            let there = c.closed x w (ground (arith, same x, own x)) idle apart steps in
            ground (arith, same w);
        not_yet = ground (arith, same to, own to, c.not_yet);
      }

  -- A neighbour that is new, and is not the end of the path.
  new-IsVisiting :
      (u v : ℕ) (s : PathSearch ids)
      → IsVisiting u s
      → has s.visited v ≡ false
      → v < n
      → (v == to) ≡ false
      → Steps ids adj from allowed u v
      → IsVisiting u (record {
        visited = (insert s.visited v).1;
        prev = (v, u) ∷ s.prev;
        queue = s.queue ++ v ∷ [];
      })
  new-IsVisiting u v s c fresh lt other steps =
      let grown = λ (x : ℕ). has-insert ids s.visited v x in
      let joined = λ (x : ℕ). count-append x s.queue (v ∷ []) in
      record {
        trace =
            link-IsTrace ids adj from allowed n s.visited s.prev u v c.trace c.known fresh lt steps;
        known = ground (arith, grown u, c.known);
        queued = λ x m. ground (arith, grown x, c.queued x, joined x);
        closed = λ x w h idle apart steps.
            let old : has s.visited x ≡ true = ground (arith, grown x, joined x) in
            let there = c.closed x w old (ground (arith, joined x)) apart steps in
            ground (arith, grown w);
        not_yet = ground (arith, grown to, c.not_yet);
      }

  module _ (inside : (v : ℕ) → has allowed v ≡ true → v < n) where
    pub visit_neighbours-Visited :
        (u : ℕ) (vs : List ℕ) (s : PathSearch ids)
        → IsVisiting u s
        → ((w : ℕ) → 0 < count w vs → 0 < count w (get_or adj u []))
        → Visited u vs s (visit_neighbours ids adj from to allowed u vs s)
    unfolding visit_neighbours
    visit_neighbours-Visited u [] s c edges =
        inr (refl, c, λ w m. absurd (omega arith), λ w h. h, refl)
    visit_neighbours-Visited u (v ∷ vs) s c edges =
        let later = λ (w : ℕ) (m : 0 < count w vs). edges w (ground arith) in
        let grown = λ (x : ℕ). has-insert ids s.visited v x in
        let size = len-insert ids s.visited v in
        elim (Bool-cases (has allowed v)) [
          | inr e ↦ rw e (
              then-Visited u v vs s s _ (λ w h. h) (λ h. ground arith) refl
                (visit_neighbours-Visited u vs s c later))
          | inl e ↦ elim (Bool-cases (has s.visited v)) [
            | inl old ↦
                let stale : (insert s.visited v).0 ≡ false =
                  ground (arith, insert-is_new s.visited v) in
                rw (e, stale)
                  (then-Visited u v vs s (record s { visited = (insert s.visited v).1 }) _
                    (λ w h. ground (arith, grown w)) (λ h. ground (arith, grown v)) (ground arith)
                    (visit_neighbours-Visited u vs _ (again-IsVisiting u v s c old (inside v e))
                      later))
            | inr fresh ↦
                let new : (insert s.visited v).0 ≡ true =
                  ground (arith, insert-is_new s.visited v) in
                let steps : Steps ids adj from allowed u v = (edges v (ground arith), e) in
                elim (Bool-cases (v == to)) [
                  | inl end ↦
                      rw (e, new, end)
                        (inl (
                          refl,
                          link-IsTrace ids adj from allowed n s.visited s.prev u v c.trace c.known
                              fresh (inside v e) steps,
                          ground (arith, grown to),
                        ))
                  | inr other ↦
                      rw (e, new, other)
                        (then-Visited u v vs s
                          (record {
                            visited = (insert s.visited v).1;
                            prev = (v, u) ∷ s.prev;
                            queue = s.queue ++ v ∷ [];
                          })
                          _ (λ w h. ground (arith, grown w)) (λ h. ground (arith, grown v))
                          (ground (arith, length-append s.queue (v ∷ [])))
                          (visit_neighbours-Visited u vs _
                            (new-IsVisiting u v s c fresh (inside v e) other steps) later))
                ]
          ]
        ]

  -- The nodes that the search may reach.
  pub data IsReached : ℕ → Type 0 where
    at_start : IsReached from
    onward : {u v : ℕ} → IsReached u → Steps ids adj from allowed u v → IsReached v

  -- The state between two rounds.
  pub record IsSearching (s : PathSearch ids) : Type 0 where
    pub trace : IsTrace ids adj from allowed n s.visited s.prev
    pub queued : (v : ℕ) → 0 < count v s.queue → has s.visited v ≡ true
    pub closed :
        (v w : ℕ)
        → has s.visited v ≡ true
        → count v s.queue ≡ 0
        → Steps ids adj from allowed v w
        → has s.visited w ≡ true
    pub not_yet : has s.visited to ≡ false

  pub pop-IsVisiting :
      (s : PathSearch ids) (u : ℕ) (rest : List ℕ)
      → IsSearching s
      → s.queue ≡ u ∷ rest
      → IsVisiting u (record s { queue = rest })
  pop-IsVisiting s u rest c e =
      let popped = λ (x : ℕ). ap (count x) e in
      record {
        trace = c.trace;
        known = c.queued u (ground (arith, popped u));
        queued = λ v m. c.queued v (ground (arith, popped v));
        closed = λ v w h idle apart steps. c.closed v w h (ground (arith, popped v)) steps;
        not_yet = c.not_yet;
      }

  -- Once the queue is empty, all that can be reached is visited.
  pub reached_visited :
      (s : PathSearch ids)
      → IsSearching s
      → s.queue ≡ []
      → (v : ℕ) → IsReached v
      → has s.visited v ≡ true
  reached_visited s c e v at_start = c.trace.start
  reached_visited s c e w (onward {u} before steps) =
      c.closed u w (reached_visited s c e u before) (ap (count u) e) steps

  -- What the search answers: a path, or nothing where there is none.
  abbrev pub Answers : Option (List ℕ) → Type 0
  Answers none = ¬ IsReached to
  Answers (some path) =
      (back : List ℕ) × (path ≡ reverse (to ∷ back))
      × LeadsBack ids adj from allowed to back
      × ((v : ℕ) → 0 < count v path → v < n)
