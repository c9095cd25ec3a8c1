-- ===== src/Approx/Batch.antt =====
-- One call of the batch value function (src/approx.rs) gets every value that the samples need.
use Prim.Native.Nat.{bit_or}
use causasv.Prelude.{
  ℕ, zero, suc, ◌+◌, ◌/◌, ◌%◌, ◌^◌, ◌<◌, ◌≤◌, ◌≡◌, ◌⊎◌, refl, sym, ◌∙◌, ap, arith, true, false,
  Option, none, some, List, [], ◌∷◌, map, count, count-append, length, length-map, if◌then◌else◌,
  ◌==◌, Bool-cases, zero-cases, inl, inr,
}
use causasv.Error.{Result, ok, validate_batch_result_len}
use causasv.Bits.{bit_at, shl1, members_from, lacks_bit, bit_at-shl1}
use causasv.Bits.Digits.{bit_at-or, bit_at_beyond, lt-pow_of_bits}
use causasv.Bits.Peel.{peel-members, pow-le}
use causasv.Cache.{mask_to_coalition, cache_get}
use causasv.Cache.Masks.{mask_to_coalition-members}
use causasv.Numerics.{Float}
use causasv.Approx.{SampledOrdering}
use causasv.Approx.Masks.{
  prefix_masks, all_masks, missing, contains_key, store_all, fetch_batch, mask_members,
  sorted_insert, sort, dedup, dedup_after,
}
use causasv.Approx.Values.{Below}
use causasv.Approx.MaskValues.{value_at, Holds}

-- Sorting and removing repetitions loses no mask.
count-sorted_insert :
    (x : ℕ) (ys : List ℕ) (m : ℕ) → count m (sorted_insert x ys) ≡ count m (x ∷ ys)
count-sorted_insert x [] m = refl
count-sorted_insert x (y ∷ ys) m = ground (arith, count-sorted_insert x ys m)

count-sort : (xs : List ℕ) (m : ℕ) → count m (sort xs) ≡ count m xs
count-sort [] m = refl
count-sort (x ∷ xs) m = omega (arith, count-sorted_insert x (sort xs) m, count-sort xs m)

dedup_after-keeps :
    (x : ℕ) (ys : List ℕ) (m : ℕ) → 0 < count m (x ∷ ys) → 0 < count m (x ∷ dedup_after x ys)
dedup_after-keeps x [] m h = h
dedup_after-keeps x (y ∷ ys) m h = elim (Bool-cases (y == x)) [
  | inl e ↦ ground (arith, dedup_after-keeps x ys m)
  | inr e ↦ ground (arith, dedup_after-keeps y ys m)
]

dedup-keeps : (xs : List ℕ) (m : ℕ) → 0 < count m xs → 0 < count m (dedup xs)
dedup-keeps [] m h = h
dedup-keeps (x ∷ xs) m h = dedup_after-keeps x xs m h

dedup_after-only : (x : ℕ) (ys : List ℕ) (m : ℕ) → 0 < count m (dedup_after x ys) → 0 < count m ys
dedup_after-only x [] m h = h
dedup_after-only x (y ∷ ys) m h = ground (arith, dedup_after-only x ys m, dedup_after-only y ys m)

dedup-only : (xs : List ℕ) (m : ℕ) → 0 < count m (dedup xs) → 0 < count m xs
dedup-only [] m h = h
dedup-only (x ∷ xs) m h = ground (arith, dedup_after-only x xs m)

-- The coalition of a mask of `n` bits, as the two estimators list it.
mask_members-from :
    (n from x mask : ℕ)
    → from + n ≤ 64
    → ((i : ℕ) → bit_at i x ≡ bit_at (from + i) mask)
    → mask_members from n mask ≡ members_from from n x
unfolding members_from
mask_members-from zero from x mask fits same = refl
mask_members-from (suc n) from x mask fits same =
    let here : from + 0 ≡ from = omega arith in
    let first : bit_at 0 x ≡ bit_at from mask = same 0 ∙ ap (λ k. bit_at k mask) here in
    let rest = mask_members-from n (suc from) (x / 2) mask (omega arith) (λ i.
      let next : from + suc i ≡ suc from + i = omega arith in
      same (suc i) ∙ ap (λ k. bit_at k mask) next) in
    let test = lacks_bit mask from (omega arith) in
    elim (Bool-cases (bit_at from mask)) [
      | inl e ↦
          let odd : (x % 2 == 1) ≡ true = first ∙ e in rw (test, e, odd) (ap (λ xs. from ∷ xs) rest)
      | inr e ↦ let even : (x % 2 == 1) ≡ false = first ∙ e in rw (test, e, even) rest
    ]

mask_members-mask_to_coalition :
    (n mask : ℕ) → n ≤ 64 → mask < 2 ^ n → mask_members 0 n mask ≡ mask_to_coalition mask
mask_members-mask_to_coalition n mask few small =
    let word : mask < 2 ^ 64 = omega (arith, pow-le n 64 few) in
    mask_members-from n 0 mask mask (omega arith)
      (λ i. let same : i ≡ 0 + i = omega arith in ap (λ k. bit_at k mask) same)
    ∙ sym (peel-members n 64 mask small few few)
    ∙ peel-members 64 64 mask word (omega arith) (omega arith)
    ∙ sym (mask_to_coalition-members mask word)

-- The masks of an ordering of nodes below `n` have `n` bits.
prefix_masks-lt :
    (n : ℕ) (ordering : List ℕ) (mask m : ℕ)
    → n ≤ 64
    → mask < 2 ^ n
    → ((i : ℕ) → 0 < count i ordering → i < n)
    → 0 < count m (prefix_masks mask ordering)
    → m < 2 ^ n
prefix_masks-lt n [] mask m few lt below h = ground arith
prefix_masks-lt n (node ∷ rest) mask m few lt below h =
    let node_lt : node < n = below node (ground arith) in
    let next : bit_or mask (shl1 node) < 2 ^ n = lt-pow_of_bits n (bit_or mask (shl1 node)) (λ i le.
      ground (
        arith,
        bit_at-or i mask (shl1 node),
        bit_at_beyond n i mask lt,
        bit_at-shl1 node i (omega arith),
      )) in
    elim (Bool-cases (mask == m)) [
      | inl e ↦ ground arith
      | inr e ↦
          prefix_masks-lt n rest (bit_or mask (shl1 node)) m few next
            (λ i l. below i (ground arith)) (ground arith)
    ]

count-le : (m : ℕ) (xs : List ℕ) → count m xs ≤ length xs
count-le m [] = omega arith
count-le m (x ∷ xs) = ground (arith, count-le m xs)

module _ (fl : Float) (v : List ℕ → Float.F fl) where
  open fl use {F}

  some_inj : {a b : F} → ◌≡◌ {A = Option F} (some a) (some b) → a ≡ b
  some_inj h = cc

  -- Every entry is the value of its mask.
  abbrev pub IsRight : List (ℕ × F) → Type 0
  IsRight cache = (m : ℕ) (w : F) → cache_get cache m ≡ some w → w ≡ value_at fl v m

  contains_key-get :
      (cache : List (ℕ × F)) (m : ℕ)
      → ((contains_key fl cache m ≡ true) × ((w : F) × (cache_get cache m ≡ some w)))
        ⊎ ((contains_key fl cache m ≡ false) × (cache_get cache m ≡ none))
  contains_key-get [] m = inr (refl, refl)
  contains_key-get ((j, w) ∷ cache) m = elim (Bool-cases (j == m)) [
    | inl e ↦ inl (ground arith, (w, rw e refl))
    | inr e ↦ rw e (contains_key-get cache m)
  ]

  -- What is missing: the masks asked for that the cache does not have.
  count-missing :
      (cache : List (ℕ × F)) (masks : List ℕ) (m : ℕ)
      → count m (missing fl cache masks) ≡ (if contains_key fl cache m then 0 else count m masks)
  count-missing cache [] m = ground arith
  count-missing cache (x ∷ masks) m =
      ground (arith, count-missing cache masks m, ap (contains_key fl cache) {x = x} {y = m})

  -- What the cache answers after the values are stored.
  stored :
      (f : ℕ → F) (masks : List ℕ) (cache : List (ℕ × F)) (m : ℕ)
      → ((0 < count m masks) × (cache_get (store_all fl masks (map f masks) cache) m ≡ some (f m)))
        ⊎ ((count m masks ≡ 0)
            × (cache_get (store_all fl masks (map f masks) cache) m ≡ cache_get cache m))
  stored f [] cache m = inr (refl, refl)
  stored f (x ∷ masks) cache m = elim (stored f masks ((x, f x) ∷ cache) m) [
    | inl (listed, e) ↦ inl (ground arith, e)
    | inr (absent, e) ↦ elim (Bool-cases (x == m)) [
      | inl same ↦
          let here : x ≡ m = ground arith in
          inl (ground arith, e ∙ rw same (ap (λ k. some (f k)) here))
      | inr other ↦ inr (ground arith, e ∙ rw other refl)
    ]
  ]

  module _ (value_fn_batch : List (List ℕ) → Result (List F))
      (total : (cs : List (List ℕ)) → value_fn_batch cs ≡ ok (map v cs)) (n : ℕ)
      (few : n ≤ 64) where
    map_values :
        (masks : List ℕ)
        → map v (map (mask_members 0 n) masks) ≡ map (λ m. v (mask_members 0 n m)) masks
    map_values [] = refl
    map_values (m ∷ masks) = ap (λ xs. v (mask_members 0 n m) ∷ xs) (map_values masks)

    all_masks-lt :
        (samples : List (SampledOrdering fl))
        → Below fl n samples
        → (m : ℕ) → 0 < count m (all_masks fl samples)
        → m < 2 ^ n
    all_masks-lt [] below m h = absurd (omega arith)
    all_masks-lt (s ∷ samples) (first, below) m h =
        elim (zero-cases (count m (prefix_masks 0 s.ordering))) [
          | inl none_here ↦
              all_masks-lt samples below m
                (omega (arith, count-append m (prefix_masks 0 s.ordering) (all_masks fl samples)))
          | inr here ↦
              prefix_masks-lt n s.ordering 0 m few (omega (arith, pow-le 0 n (omega arith))) first
                here
        ]

    asked_only :
        (samples : List (SampledOrdering fl)) (cache : List (ℕ × F)) (m : ℕ)
        → 0 < count m (missing fl cache (dedup (sort (all_masks fl samples))))
        → 0 < count m (all_masks fl samples)
    asked_only samples cache m h =
        let needed = all_masks fl samples in
        ground (
          arith,
          count-missing cache (dedup (sort needed)) m,
          dedup-only (sort needed) m,
          count-sort needed m,
        )

    own_value :
        (samples : List (SampledOrdering fl)) (m : ℕ)
        → Below fl n samples
        → 0 < count m (all_masks fl samples)
        → v (mask_members 0 n m) ≡ value_at fl v m
    own_value samples m below h =
        ap v (mask_members-mask_to_coalition n m few (all_masks-lt samples below m h))

    -- A mask that is needed and not asked for is in the cache.
    found_before :
        (samples : List (SampledOrdering fl)) (cache : List (ℕ × F)) (m : ℕ)
        → IsRight cache
        → 0 < count m (all_masks fl samples)
        → count m (missing fl cache (dedup (sort (all_masks fl samples)))) ≡ 0
        → cache_get cache m ≡ some (value_at fl v m)
    found_before samples cache m right h absent =
        let needed = all_masks fl samples in
        let asked = dedup (sort needed) in
        let listed : 0 < count m asked =
          dedup-keeps (sort needed) m (omega (arith, count-sort needed m)) in
        elim (contains_key-get cache m) [
          | inl (e, (w, got)) ↦ got ∙ ap some (right m w got)
          | inr (e, got) ↦ absurd (ground (arith, count-missing cache asked m))
        ]

    -- After the values are stored, the cache has all that the samples need.
    store_all-Holds :
        (samples : List (SampledOrdering fl)) (cache : List (ℕ × F))
        → Below fl n samples
        → IsRight cache
        → let uncached = missing fl cache (dedup (sort (all_masks fl samples))) in
          let cache' = store_all fl uncached (map (λ m. v (mask_members 0 n m)) uncached) cache in
          IsRight cache' × Holds fl v cache' (all_masks fl samples)
    store_all-Holds samples cache below right =
        let uncached = missing fl cache (dedup (sort (all_masks fl samples))) in
        let f = λ (m : ℕ). v (mask_members 0 n m) in
        (
          λ m w got. elim (stored f uncached cache m) [
            | inl (listed, e) ↦
                let same : f m ≡ w = some_inj (sym e ∙ got) in
                sym same ∙ own_value samples m below (asked_only samples cache m listed)
            | inr (absent, e) ↦ right m w (sym e ∙ got)
          ],
          λ m h. elim (stored f uncached cache m) [
            | inl (listed, e) ↦ e ∙ ap some (own_value samples m below h)
            | inr (absent, e) ↦ e ∙ found_before samples cache m right h absent
          ],
        )

    -- After the call the cache has the value of every mask that the samples need.
    pub fetch_batch-Holds :
        (samples : List (SampledOrdering fl)) (cache : List (ℕ × F))
        → Below fl n samples
        → IsRight cache
        → (cache' : List (ℕ × F)) × (fetch_batch fl value_fn_batch n samples cache ≡ ok cache')
          × IsRight cache'
          × Holds fl v cache' (all_masks fl samples)
    unfolding fetch_batch validate_batch_result_len
    fetch_batch-Holds samples cache below right =
        let uncached = missing fl cache (dedup (sort (all_masks fl samples))) in
        let masks = map (mask_members 0 n) uncached in
        elim (Bool-cases (length uncached == 0)) [
          | inl e ↦ (
            cache,
            rw e refl,
            right,
            λ m h. found_before samples cache m right h (ground (arith, count-le m uncached)),
          )
          | inr e ↦
              let sized : (length uncached == length (map v masks)) ≡ true =
                ground (arith, length-map uncached (mask_members 0 n), length-map masks v) in
              let (right', holds) = store_all-Holds samples cache below right in
              (
                store_all fl uncached (map (λ m. v (mask_members 0 n m)) uncached) cache,
                rw (e, total masks, sized)
                    (ap (λ values. ok (store_all fl uncached values cache)) (map_values uncached)),
                right',
                holds,
              )
        ]
