-- ===== src/DConvex/Ancestors.antt =====
-- `ancestors_or_self` (src/d_convex.rs) ends, and what it collects.
use causasv.Prelude.{
  ℕ, zero, suc, ◌+◌, ◌<◌, ◌≤◌, ◌≡◌, ◌⊎◌, refl, ◌∙◌, ap, arith, true, false, List, [], ◌∷◌, ◌++◌,
  count, count-append, length, length-append, if◌then◌else◌, ◌==◌, Bool-cases, inl, inr,
}
use causasv.Error.{ok}
use causasv.Cache.Masks.{contains-count}
use causasv.Graph.Index.{NameIndex}
use causasv.Graph.{Dag, node_count, parents_raw}
use causasv.Graph.WellFormed.{IsWellFormed, parent-lt}
use causasv.DConvex.Interface.{IdSet, extend}
use causasv.DConvex.Sets.{
  Within, Within-extend, has-insert, has-extend, has-count, len-insert, len-le,
}
use causasv.DConvex.{add_ancestors, ancestors_loop, ancestors_or_self}

-- A node from which an edge path, maybe an empty one, leads to one of the seeds.
pub data IsAncestor {im : NameIndex} (d : Dag im) (seeds : List ℕ) : ℕ → Type 0 where
  itself : {v : ℕ} → 0 < count v seeds → IsAncestor d seeds v
  parent_of :
      {v p : ℕ} → IsAncestor d seeds v → 0 < count p (parents_raw d v) → IsAncestor d seeds p

module _ (ids : IdSet) {im : NameIndex} (d : Dag im) where
  open ids use {Ids, items, len, has, insert, insert-is_new, len-items}

  add_ancestors-extend :
      (ps : List ℕ) (result : Ids) (queue : List ℕ)
      → (add_ancestors ids d ps result queue).0 ≡ extend ids result ps
  add_ancestors-extend [] result queue = refl
  add_ancestors-extend (p ∷ ps) result queue = add_ancestors-extend ps _ _

  -- One parent: an id that is there changes nothing, another goes to the queue.
  add_ancestors-there :
      (p : ℕ) (ps : List ℕ) (result : Ids) (queue : List ℕ)
      → has result p ≡ true
      → add_ancestors ids d (p ∷ ps) result queue ≡ add_ancestors ids d ps (insert result p).1 queue
  add_ancestors-there p ps result queue e =
      let old : (insert result p).0 ≡ false = ground (arith, insert-is_new result p) in
      ap (λ b. add_ancestors ids d ps (insert result p).1 (if b then queue ++ p ∷ [] else queue))
        old

  add_ancestors-fresh :
      (p : ℕ) (ps : List ℕ) (result : Ids) (queue : List ℕ)
      → has result p ≡ false
      → add_ancestors ids d (p ∷ ps) result queue
        ≡ add_ancestors ids d ps (insert result p).1 (queue ++ p ∷ [])
  add_ancestors-fresh p ps result queue e =
      let is_new : (insert result p).0 ≡ true = ground (arith, insert-is_new result p) in
      ap (λ b. add_ancestors ids d ps (insert result p).1 (if b then queue ++ p ∷ [] else queue))
        is_new

  -- Each new id, and no other, goes to the queue.
  length-add_ancestors :
      (ps : List ℕ) (result : Ids) (queue : List ℕ)
      → length (add_ancestors ids d ps result queue).1 + len result
        ≡ length queue + len (add_ancestors ids d ps result queue).0
  length-add_ancestors [] result queue = refl
  length-add_ancestors (p ∷ ps) result queue = elim (Bool-cases (has result p)) [
    | inl e ↦
        rw (add_ancestors-there p ps result queue e) (
          ground
            (arith, length-add_ancestors ps (insert result p).1 queue, len-insert ids result p))
    | inr e ↦ rw (add_ancestors-fresh p ps result queue e) (
        ground (
          arith,
          length-add_ancestors ps (insert result p).1 (queue ++ p ∷ []),
          len-insert ids result p,
          length-append queue (p ∷ []),
        ))
  ]

  -- What is queued after the loop was queued before it, or is new.
  count-add_ancestors :
      (ps : List ℕ) (result : Ids) (queue : List ℕ) (v : ℕ)
      → (0 < count v queue → 0 < count v (add_ancestors ids d ps result queue).1)
        × (has result v ≡ false
            → 0 < count v ps
            → 0 < count v (add_ancestors ids d ps result queue).1)
        × (0 < count v (add_ancestors ids d ps result queue).1
            → (0 < count v queue) ⊎ (0 < count v ps))
  count-add_ancestors [] result queue v = (λ m. m, λ h m. absurd (omega arith), inl)
  count-add_ancestors (p ∷ ps) result queue v = elim (Bool-cases (has result p)) [
    | inl e ↦
        let (kept, added, known) = count-add_ancestors ps (insert result p).1 queue v in
        rw (add_ancestors-there p ps result queue e) (
          kept,
          λ h m.
              added (ground (arith, has-insert ids result p v, ap (has result) {x = p} {y = v}))
                (ground (arith, ap (has result) {x = p} {y = v})),
          λ m. elim (known m) [ inl q ↦ inl q | inr q ↦ inr (ground arith) ],
        )
    | inr e ↦
        let (kept, added, known) = count-add_ancestors ps (insert result p).1 (queue ++ p ∷ []) v in
        let joined = count-append v queue (p ∷ []) in
        rw (add_ancestors-fresh p ps result queue e) (
          λ m. kept (omega (arith, joined)),
          λ h m. elim (Bool-cases (p == v)) [
            | inl same ↦ kept (ground (arith, joined))
            | inr other ↦ added (ground (arith, has-insert ids result p v)) (ground arith)
          ],
          λ m. elim (known m) [
            | inl q ↦ elim (Bool-cases (p == v)) [
              | inl same ↦ inr (ground arith)
              | inr other ↦ inl (ground (arith, joined))
            ]
            | inr q ↦ inr (ground arith)
          ],
        )
  ]

  module _ (wf : IsWellFormed d) (seeds : List ℕ) where
    -- The state of the loop: the ids found are ancestors, and the parents of those that are not
    -- queued are found.
    record IsClosing (result : Ids) (queue : List ℕ) : Type 0 where
      within : Within ids (node_count d) result
      queued : (v : ℕ) → 0 < count v queue → has result v ≡ true
      found : (v : ℕ) → has result v ≡ true → IsAncestor d seeds v
      closed :
          (v p : ℕ)
          → has result v ≡ true
          → count v queue ≡ 0
          → 0 < count p (parents_raw d v)
          → has result p ≡ true

    add_ancestors-IsClosing :
        (result : Ids) (v : ℕ) (rest : List ℕ)
        → IsClosing result (v ∷ rest)
        → IsClosing
            (add_ancestors ids d (parents_raw d v) result rest).0
            (add_ancestors ids d (parents_raw d v) result rest).1
    add_ancestors-IsClosing result v rest c =
        let ps = parents_raw d v in
        let after = add_ancestors-extend ps result rest in
        let own : has result v ≡ true = c.queued v (ground arith) in
        let grown = λ (x : ℕ). ap (λ s. has s x) after ∙ has-extend ids ps result x in
        record {
          within =
              rw after
                (Within-extend ids (node_count d) ps result c.within (λ p m. parent-lt d wf p v m));
          queued = λ x m. elim ((count-add_ancestors ps result rest x).2 m) [
            | inl q ↦ ground (arith, grown x, c.queued x (ground arith))
            | inr q ↦ ground (arith, grown x, contains-count ps x)
          ];
          found = λ x h. elim (Bool-cases (has result x)) [
            | inl old ↦ c.found x old
            | inr fresh ↦ parent_of (c.found v own) (ground (arith, grown x, contains-count ps x))
          ];
          closed = λ x p h idle m. elim (Bool-cases (has result x)) [
            | inl old ↦ elim (Bool-cases (v == x)) [
              | inl same ↦ ground (
                arith,
                grown p,
                contains-count ps p,
                ap (λ w. count p (parents_raw d w)) {x = v} {y = x},
              )
              | inr other ↦
                  let waiting = (count-add_ancestors ps result rest x).0 in
                  ground (arith, grown p, c.closed x p old (ground (arith, waiting)) m)
            ]
            | inr fresh ↦
                let added = (count-add_ancestors ps result rest x).1 in
                absurd (ground (arith, added, grown x, contains-count ps x))
          ];
        }

    -- Each id is popped at most once, so a round for every node is enough.
    ancestors_loop-ends :
        (fuel : ℕ) (result : Ids) (queue : List ℕ)
        → IsClosing result queue
        → length queue + node_count d ≤ fuel + len result
        → (result' : Ids) × (ancestors_loop ids d fuel result queue ≡ ok result')
          × IsClosing result' []
          × ((v : ℕ) → has result v ≡ true → has result' v ≡ true)
    unfolding ancestors_loop
    ancestors_loop-ends zero result [] c enough = (result, refl, c, λ v h. h)
    ancestors_loop-ends (suc fuel) result [] c enough = (result, refl, c, λ v h. h)
    ancestors_loop-ends zero result (v ∷ rest) c enough =
        absurd (omega (arith, len-le ids (node_count d) result c.within))
    ancestors_loop-ends (suc fuel) result (v ∷ rest) c enough =
        let ps = parents_raw d v in
        let (result', run, c', more) =
          ancestors_loop-ends fuel _ _ (add_ancestors-IsClosing result v rest c)
            (omega (arith, length-add_ancestors ps result rest)) in
        (
          result',
          run,
          c',
          λ x h. more x (
              ground (
                arith,
                ap (λ s. has s x) (add_ancestors-extend ps result rest),
                has-extend ids ps result x,
              )),
        )

    -- Once the queue is empty, the set is closed under parents, so every ancestor is in it.
    ancestor_found :
        (result : Ids)
        → IsClosing result []
        → ((v : ℕ) → 0 < count v seeds → has result v ≡ true)
        → (v : ℕ) → IsAncestor d seeds v
        → has result v ≡ true
    ancestor_found result c start v (itself m) = start v m
    ancestor_found result c start p (parent_of {v} below m) =
        c.closed v p (ancestor_found result c start v below) refl m

  -- For a well-formed graph and a set of its ids, each once: `ancestors_or_self` returns a set of
  -- ids of the graph, and an id is in it exactly if a path of edges, maybe an empty one, leads from
  -- it to one of the seeds.
  pub ancestors_or_self_exact :
      IsWellFormed d
      → (seeds : Ids) → Within ids (node_count d) seeds
      → (result : Ids) × (ancestors_or_self ids d seeds ≡ ok result)
        × Within ids (node_count d) result
        × ((v : ℕ)
            → (has result v ≡ true → IsAncestor d (items seeds) v)
              × (IsAncestor d (items seeds) v → has result v ≡ true))
  unfolding ancestors_or_self
  ancestors_or_self_exact wf seeds within =
      let held = λ (v : ℕ). has-count ids seeds v in
      let start : IsClosing wf (items seeds) seeds (items seeds) = record {
        within = within;
        queued = λ v m. ground (arith, held v);
        found = λ v h. itself (ground (arith, held v));
        closed = λ v p h idle m. absurd (ground (arith, held v));
      } in
      let (result, run, c, more) =
        ancestors_loop-ends wf (items seeds) (node_count d) seeds (items seeds) start
          (omega (arith, len-items seeds)) in
      (
        result,
        run,
        c.within,
        λ v. (
          c.found v,
          ancestor_found wf (items seeds) result c (λ u m. more u (ground (arith, held u))) v,
        ),
      )
