-- ===== src/DConvex/Trace.antt =====
-- The predecessors that `shortest_path_restricted` (src/d_convex.rs) records, and the walk back
-- along them.
use causasv.Prelude.{
  ℕ, zero, suc, ◌+◌, ◌<◌, ◌≡◌, ◌⊎◌, refl, ◌∙◌, ap, arith, true, false, some, List, [], ◌∷◌, ◌++◌,
  count, count-append, get_or, if◌then◌else◌, ◌==◌, Bool-cases, inl, inr,
}
use mathlib.Core.List.{append-nil, append_assoc}
use causasv.Error.{ok}
use causasv.DConvex.Interface.{IdSet}
use causasv.DConvex.Sets.{Within, Within-insert, has-insert, len-insert}
use causasv.DConvex.{lookup, reverse, walk_back}

pub count-reverse : (xs : List ℕ) (v : ℕ) → count v (reverse xs) ≡ count v xs
count-reverse [] v = refl
count-reverse (x ∷ xs) v = omega (arith, count-append v (reverse xs) (x ∷ []), count-reverse xs v)

module _ (ids : IdSet) (adj : List (List ℕ)) (from : ℕ) (allowed : IdSet.Ids ids) where
  open ids use {Ids, len, has, insert}

  -- The search may step from `u` to `v`.
  abbrev pub Steps : ℕ → ℕ → Type 0
  Steps u v = (0 < count v (get_or adj u [])) × (has allowed v ≡ true)

  -- `cur` followed by `back` is a path of such steps that starts at `from`, read backwards.
  abbrev pub LeadsBack : ℕ → List ℕ → Type 0
  LeadsBack cur [] = cur ≡ from
  LeadsBack cur (next ∷ back) = Steps next cur × LeadsBack next back

  -- The predecessors lead back to `from`: their rank falls.
  pub record IsTrace (n : ℕ) (visited : Ids) (prev : List (ℕ × ℕ)) : Type 0 where
    pub rank : ℕ → ℕ
    pub within : Within ids n visited
    pub start : has visited from ≡ true
    pub linked :
        (v u : ℕ)
        → lookup prev v ≡ some u
        → (has visited v ≡ true) × (has visited u ≡ true) × (rank u < rank v) × Steps u v
    pub named : (v : ℕ) → has visited v ≡ true → (v ≡ from) ⊎ ((u : ℕ) × (lookup prev v ≡ some u))
    pub low : (v : ℕ) → has visited v ≡ true → rank v < len visited

  pub link-IsTrace :
      (n : ℕ) (visited : Ids) (prev : List (ℕ × ℕ)) (u v : ℕ)
      → IsTrace n visited prev
      → has visited u ≡ true
      → has visited v ≡ false
      → v < n
      → Steps u v
      → IsTrace n (insert visited v).1 ((v, u) ∷ prev)
  link-IsTrace n visited prev u v t known fresh lt steps =
      let grown = λ (x : ℕ). has-insert ids visited v x in
      let size : len (insert visited v).1 ≡ len visited + 1 =
        ground (arith, len-insert ids visited v) in
      record {
        rank = λ x. if v == x then len visited else t.rank x;
        within = Within-insert ids n visited v t.within lt;
        start = ground (arith, grown from, t.start);
        linked = λ x w e. elim (Bool-cases (v == x)) [
          | inl same ↦
              let here : x ≡ v = ground arith in
              let there : w ≡ u = ground arith in
              let self : (v == v) ≡ true = ground arith in
              let apart : (v == u) ≡ false = ground (arith, ap (has visited) {x = v} {y = u}) in
              rw (here, there, self, apart)
                (ground (arith, grown v), ground (arith, grown u), t.low u known, steps)
          | inr other ↦
              let (there, before, falls, edge) = t.linked x w (rw other at e) in
              let apart : (v == w) ≡ false = ground (arith, ap (has visited) {x = v} {y = w}) in
              rw (other, apart) (ground (arith, grown x), ground (arith, grown w), falls, edge)
        ];
        named = λ x h. elim (Bool-cases (v == x)) [
          | inl same ↦ inr (u, rw same refl)
          | inr other ↦ elim (t.named x (ground (arith, grown x))) [
            | inl e ↦ inl e
            | inr (w, e) ↦ inr (w, rw other e)
          ]
        ];
        low = λ x h. elim (Bool-cases (v == x)) [
          | inl same ↦ rw (same, size) (omega arith)
          | inr other ↦ rw (other, size) (omega (arith, t.low x (ground (arith, grown x))))
        ];
      }

  pub same-IsTrace :
      (n : ℕ) (visited : Ids) (prev : List (ℕ × ℕ)) (v : ℕ)
      → IsTrace n visited prev
      → has visited v ≡ true
      → v < n
      → IsTrace n (insert visited v).1 prev
  same-IsTrace n visited prev v t old lt =
      let kept = λ (x : ℕ). has-insert ids visited v x in
      let own = λ (x : ℕ). ap (has visited) {x = v} {y = x} in
      let size : len (insert visited v).1 ≡ len visited =
        ground (arith, len-insert ids visited v) in
      record {
        rank = t.rank;
        within = Within-insert ids n visited v t.within lt;
        start = ground (arith, kept from, t.start);
        linked = λ x w e.
            let (there, before, falls, edge) = t.linked x w e in
            (ground (arith, kept x), ground (arith, kept w), falls, edge);
        named = λ x h. t.named x (ground (arith, kept x, own x));
        low = λ x h. omega (arith, size, t.low x (ground (arith, kept x, own x)));
      }

  -- The walk back succeeds: no key is missing, and its rank bounds its length.
  pub walk_back-ends :
      (n : ℕ) (visited : Ids) (prev : List (ℕ × ℕ))
      → (t : IsTrace n visited prev) → (fuel cur : ℕ) (path : List ℕ) → has visited cur ≡ true
      → t.rank cur < fuel
      → (back : List ℕ) × (walk_back fuel prev from cur path ≡ ok (reverse (path ++ back)))
        × LeadsBack cur back
        × ((v : ℕ) → 0 < count v back → has visited v ≡ true)
  unfolding walk_back
  walk_back-ends n visited prev t zero cur path h low = absurd (omega arith)
  walk_back-ends n visited prev t (suc fuel) cur path h low = elim (Bool-cases (cur == from)) [
    | inl e ↦
        let end : path ++ [] ≡ path = append-nil path in
        ([], rw (e, end) refl, ground arith, λ v m. absurd (omega arith))
    | inr e ↦ elim (t.named cur h) [
      | inl here ↦ absurd (ground arith)
      | inr (next, found) ↦
          let (there, before, falls, edge) = t.linked cur next found in
          let (back, run, leads, seen) =
            walk_back-ends n visited prev t fuel next (path ++ next ∷ []) before (omega arith) in
          (
            next ∷ back,
            rw (e, found) (run ∙ ap (λ xs. ok (reverse xs)) (append_assoc path (next ∷ []) back)),
            (edge, leads),
            λ v m. elim (Bool-cases (next == v)) [
              | inl same ↦ ground (arith, ap (has visited) {x = next} {y = v})
              | inr other ↦ seen v (ground arith)
            ],
          )
    ]
  ]
