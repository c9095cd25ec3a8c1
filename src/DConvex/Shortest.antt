-- ===== src/DConvex/Shortest.antt =====
-- The search loop of `shortest_path_restricted` (src/d_convex.rs) ends, with a path if and only if
-- there is one.
use causasv.Prelude.{
  ℕ, zero, suc, ◌+◌, ◌<◌, ◌≤◌, ◌≡◌, refl, ap, subst, arith, true, false, Option, some, none, List,
  [], ◌∷◌, count, get_or, length, ◌==◌, Bool-cases, List-cases, inl, inr,
}
use causasv.Error.{ok}
use causasv.DConvex.Interface.{IdSet}
use causasv.DConvex.Sets.{
  has-insert, len-insert, len-le, has-new, Within-new, Within-insert, below_of_has,
}
use causasv.DConvex.Trace.{walk_back-ends, count-reverse}
use causasv.DConvex.Path.{
  IsVisiting, IsSearching, Answers, visit_neighbours-Visited, pop-IsVisiting, reached_visited,
}
use causasv.DConvex.{PathSearch, reverse, visit_neighbours, search, shortest_path_restricted}

module _ (ids : IdSet) (adj : List (List ℕ)) (from to : ℕ) (allowed : IdSet.Ids ids) (n : ℕ)
    (inside : (v : ℕ) → IdSet.has ids allowed v ≡ true → v < n) where
  open ids use {Ids, new, len, has, insert}

  -- A round that does not find `to` leaves a state between rounds.
  next-IsSearching :
      (u : ℕ) (s s' : PathSearch ids)
      → IsVisiting ids adj from to allowed n u s'
      → ((w : ℕ) → 0 < count w (get_or adj u []) → has allowed w ≡ true → has s'.visited w ≡ true)
      → IsSearching ids adj from to allowed n s'
  next-IsSearching u s s' c all = record {
    trace = c.trace;
    queued = c.queued;
    closed = λ v w h idle steps. elim (Bool-cases (v == u)) [
      | inl same ↦
          let here : v ≡ u = ground arith in
          all w (subst (λ x. 0 < count w (get_or adj x [])) here steps.0) steps.1
      | inr other ↦ c.closed v w h idle (λ here. ground arith) steps
    ];
    not_yet = c.not_yet;
  }

  on_path :
      (visited : Ids) (back : List ℕ) (v : ℕ)
      → has visited to ≡ true
      → ((w : ℕ) → 0 < count w back → has visited w ≡ true)
      → 0 < count v (to ∷ back)
      → has visited v ≡ true
  on_path visited back v end seen m = elim (Bool-cases (to == v)) [
    | inl same ↦ ground (arith, ap (has visited) {x = to} {y = v})
    | inr other ↦ seen v (ground arith)
  ]

  -- A round for each node is enough.
  search-ends :
      (fuel : ℕ) (s : PathSearch ids)
      → IsSearching ids adj from to allowed n s
      → length s.queue + n ≤ fuel + len s.visited
      → (answer : Option (List ℕ)) × (search ids adj from to allowed fuel s ≡ ok answer)
        × Answers ids adj from to allowed n answer
  unfolding search
  search-ends zero s c enough = elim (List-cases s.queue) [
    | inl e ↦ (
      none,
      rw e refl,
      λ r. ground (arith, reached_visited ids adj from to allowed n s c e to r, c.not_yet),
    )
    | inr (u, rest, e) ↦ absurd (omega (arith, len-le ids n s.visited c.trace.within, ap length e))
  ]
  search-ends (suc fuel) s c enough = elim (List-cases s.queue) [
    | inl e ↦ (
      none,
      rw e refl,
      λ r. ground (arith, reached_visited ids adj from to allowed n s c e to r, c.not_yet),
    )
    | inr (u, rest, e) ↦
        let round =
          visit_neighbours ids adj from to allowed u (get_or adj u [])
            (record s { queue = rest }) in
        elim (visit_neighbours-Visited ids adj from to allowed n inside u (get_or adj u [])
          (record s { queue = rest }) (pop-IsVisiting ids adj from to allowed n s u rest c e)
          (λ w m. m)) [
            | inl (found, trace, end) ↦
                let (back, run, leads, seen) =
                  walk_back-ends ids adj from allowed n _ _ trace (suc (len round.1.visited)) to
                    (to ∷ []) end (omega (arith, trace.low to end)) in
                (
                  some (reverse (to ∷ back)),
                  rw (e, found, run) refl,
                  (
                    back,
                    refl,
                    leads,
                    λ v m. below_of_has ids n round.1.visited v trace.within (
                        on_path round.1.visited back v end seen
                          (omega (arith, count-reverse (to ∷ back) v))),
                  ),
                )
            | inr (found, c', all, more, sizes) ↦
                let (answer, run, answers) =
                  search-ends fuel round.1
                    (next-IsSearching u (record s { queue = rest }) round.1 c' all)
                    (omega (arith, sizes, ap length e)) in
                (answer, rw (e, found) run, answers)
          ]
  ]

  start-IsSearching :
      from < n
      → (from == to) ≡ false
      → IsSearching ids adj from to allowed n
          (record { visited = (insert new from).1; prev = []; queue = from ∷ [] })
  start-IsSearching lt apart =
      let held = λ (x : ℕ). has-insert ids new from x in
      let empty = λ (x : ℕ). has-new ids x in
      record {
        trace = record {
          rank = λ x. 0;
          within = Within-insert ids n new from (Within-new ids n) lt;
          start = ground (arith, held from);
          linked = λ v u e. cc;
          named = λ v h. inl (ground (arith, held v, empty v));
          low = λ v h. ground (arith, len-insert ids new from, empty from);
        };
        queued = λ v m. ground (arith, held v);
        closed = λ v w h idle steps. absurd (ground (arith, held v, empty v));
        not_yet = ground (arith, held to, empty to);
      }

  -- If all allowed ids and the start are below `n`, then `shortest_path_restricted` with `n` rounds
  -- of fuel returns: nothing, and no path from the start to the end steps along the adjacency lists
  -- to allowed ids only; or a path of ids below `n`, which read backwards leads from the end to the
  -- start by such steps.
  pub shortest_path_restricted_exact :
      from < n
      → (answer : Option (List ℕ)) × (shortest_path_restricted ids adj from to allowed n
          ≡ ok answer)
        × Answers ids adj from to allowed n answer
  unfolding shortest_path_restricted
  shortest_path_restricted_exact lt = elim (Bool-cases (from == to)) [
    | inl e ↦ (
      some (from ∷ []),
      rw e refl,
      ([], ap (λ x. x ∷ []) (ground arith), ground arith, λ v m. ground arith),
    )
    | inr e ↦
        let (answer, run, answers) =
          search-ends n _ (start-IsSearching lt e)
            (ground (arith, len-insert ids new from, has-new ids from)) in
        (answer, rw e run, answers)
  ]
