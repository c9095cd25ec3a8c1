-- ===== src/DConvex/Sets.antt =====
-- What the laws of the sets of src/d_convex.rs give: membership, size and bounds.
use causasv.Prelude.{
  ℕ, ◌+◌, ◌<◌, ◌≤◌, ◌≡◌, refl, sym, ◌∙◌, ap, arith, Bool, true, false, ◌&&◌, ◌||◌, List, [], ◌∷◌,
  ◌++◌, contains, count, count-append, length-append, if◌then◌else◌, ◌==◌, ltb, Bool-cases, inl,
  inr,
}
use causasv.Prelude.Totals.{length-le_of_once}
use causasv.Cache.Masks.{contains-count}
use causasv.DConvex.Interface.{IdSet, filter, extend, collect}

pub count-filter :
    (keep : ℕ → Bool) (xs : List ℕ) (v : ℕ)
    → count v (filter keep xs) ≡ (if keep v then count v xs else 0)
count-filter keep [] v = ground arith
count-filter keep (x ∷ xs) v = ground (arith, count-filter keep xs v, ap keep {x = x} {y = v})

module _ (ids : IdSet) where
  open ids use {
    Ids, new, items, len, has, insert, retain, items-new, len-items, has-items, items-insert,
    items-retain, items-same,
  }

  pub has-count : (s : Ids) (v : ℕ) → has s v ≡ ltb 0 (count v (items s))
  has-count s v = has-items s v ∙ contains-count (items s) v

  count-insert :
      (s : Ids) (x v : ℕ)
      → count v (items (insert s x).1)
        ≡ (if has s x then count v (items s) else count v (items s) + (if x == v then 1 else 0))
  count-insert s x v = elim (Bool-cases (has s x)) [
    | inl e ↦ let step = items-insert s x in rw (step, e) refl
    | inr e ↦
        let step = items-insert s x in
        rw (step, e) (ground (arith, count-append v (items s) (x ∷ [])))
  ]

  pub has-new : (v : ℕ) → has new v ≡ false
  has-new v = has-items new v ∙ ap (λ xs. contains xs v) items-new

  pub has-insert : (s : Ids) (x v : ℕ) → has (insert s x).1 v ≡ has s v || x == v
  has-insert s x v = ground (
    arith,
    has-count (insert s x).1 v,
    has-count s v,
    count-insert s x v,
    ap (has s) {x = x} {y = v},
  )

  pub has-extend :
      (xs : List ℕ) (s : Ids) (v : ℕ) → has (extend ids s xs) v ≡ has s v || contains xs v
  has-extend [] s v = ground arith
  has-extend (x ∷ xs) s v = ground (arith, has-extend xs (insert s x).1 v, has-insert s x v)

  pub len-insert : (s : Ids) (x : ℕ) → len (insert s x).1 ≡ (if has s x then len s else len s + 1)
  len-insert s x = elim (Bool-cases (has s x)) [
    | inl e ↦
        let step = items-insert s x in rw (e, len-items (insert s x).1, step, e) (sym (len-items s))
    | inr e ↦
        let step = items-insert s x in
        rw (e, len-items (insert s x).1, step, e)
          (omega (arith, length-append (items s) (x ∷ []), len-items s))
  ]

  pub len-extend-le : (xs : List ℕ) (s : Ids) → len s ≤ len (extend ids s xs)
  len-extend-le [] s = omega arith
  len-extend-le (x ∷ xs) s = ground (arith, len-extend-le xs (insert s x).1, len-insert s x)

  -- A set that did not grow held all that was put in.
  pub has_of_len :
      (xs : List ℕ) (s : Ids)
      → len (extend ids s xs) ≡ len s
      → (v : ℕ) → 0 < count v xs
      → has s v ≡ true
  has_of_len [] s e v m = absurd (omega arith)
  has_of_len (x ∷ xs) s e v m = elim (Bool-cases (has s x)) [
    | inl h ↦
        let same : len (insert s x).1 ≡ len s = ground (arith, len-insert s x) in
        ground (
          arith,
          has_of_len xs (insert s x).1 (e ∙ sym same) v,
          has-insert s x v,
          ap (has s) {x = x} {y = v},
        )
    | inr h ↦ absurd (ground (arith, len-insert s x, len-extend-le xs (insert s x).1))
  ]

  insert_there : (s : Ids) (x : ℕ) → has s x ≡ true → (insert s x).1 ≡ s
  insert_there s x h =
      items-same (insert s x).1 s
        (items-insert s x ∙ ap (λ b. if b then items s else items s ++ x ∷ []) h)

  -- Putting in what is there changes nothing.
  pub extend_there :
      (xs : List ℕ) (s : Ids) → ((v : ℕ) → 0 < count v xs → has s v ≡ true) → extend ids s xs ≡ s
  extend_there [] s all = refl
  extend_there (x ∷ xs) s all =
      ap (λ t. extend ids t xs) (insert_there s x (all x (ground arith)))
      ∙ extend_there xs s (λ v m. all v (ground arith))

  -- Putting in a value that was not there makes the set grow.
  pub len-extend-lt :
      (xs : List ℕ) (s : Ids) (v : ℕ)
      → has s v ≡ false
      → 0 < count v xs
      → len s < len (extend ids s xs)
  len-extend-lt xs s v fresh m = ground (arith, len-extend-le xs s, has_of_len xs s _ v m)

  -- The ids are below `n`, each once.
  abbrev pub Within : ℕ → Ids → Type 0
  Within n s = (v : ℕ) → count v (items s) ≤ (if ltb v n then 1 else 0)

  pub Within-new : (n : ℕ) → Within n new
  Within-new n v = let e = items-new in rw e (omega arith)

  pub Within-insert : (n : ℕ) (s : Ids) (x : ℕ) → Within n s → x < n → Within n (insert s x).1
  Within-insert n s x h lt v = ground (
    arith,
    h v,
    h x,
    count-insert s x v,
    has-count s x,
    ap (λ y. count y (items s)) {x = x} {y = v},
  )

  pub Within-extend :
      (n : ℕ) (xs : List ℕ) (s : Ids)
      → Within n s
      → ((v : ℕ) → 0 < count v xs → v < n)
      → Within n (extend ids s xs)
  Within-extend n [] s h below = h
  Within-extend n (x ∷ xs) s h below =
      Within-extend n xs (insert s x).1 (Within-insert n s x h (below x (ground arith)))
        (λ v m. below v (ground arith))

  pub Within-retain : (n : ℕ) (s : Ids) (keep : ℕ → Bool) → Within n s → Within n (retain s keep)
  Within-retain n s keep h v =
      let e = items-retain s keep in rw e (ground (arith, h v, count-filter keep (items s) v))

  pub has-retain : (s : Ids) (keep : ℕ → Bool) (v : ℕ) → has (retain s keep) v ≡ keep v && has s v
  has-retain s keep v =
      let e = items-retain s keep in
      ground (
        arith,
        has-count (retain s keep) v,
        has-count s v,
        count-filter keep (items s) v,
        ap (count v) e,
      )

  pub below_of_has : (n : ℕ) (s : Ids) (v : ℕ) → Within n s → has s v ≡ true → v < n
  below_of_has n s v h m = ground (arith, h v, has-count s v)

  pub len-le : (n : ℕ) (s : Ids) → Within n s → len s ≤ n
  len-le n s h = omega (
    arith,
    len-items s,
    length-le_of_once n (items s) (λ v m. ground (arith, h v)) (λ v lt. ground (arith, h v)),
  )

  pub has-collect : (xs : List ℕ) (v : ℕ) → has (collect ids xs) v ≡ contains xs v
  has-collect xs v = ground (arith, has-extend xs new v, has-new v)

  pub Within-collect :
      (n : ℕ) (xs : List ℕ) → ((v : ℕ) → 0 < count v xs → v < n) → Within n (collect ids xs)
  Within-collect n xs below = Within-extend n xs new (Within-new n) below
