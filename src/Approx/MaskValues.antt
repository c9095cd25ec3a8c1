-- ===== src/Approx/MaskValues.antt =====
-- The values of masks in the estimators of src/approx.rs: one call for each coalition through the
-- cache gives the values, and so does a cache that has them all.
use causasv.Prelude.{ℕ, ◌<◌, ◌≡◌, refl, ◌∙◌, ap, arith, some, List, [], ◌∷◌, count, count-append}
use causasv.Error.{Result, ok, >>=-eq-ok}
use causasv.Cache.{mask_to_coalition, cache_get, value_cached}
use causasv.Cache.Values.{IsConsistent, value_cached_transparent}
use causasv.Numerics.{Float}
use causasv.Approx.{SampledOrdering, each}
use causasv.Approx.Masks.{
  prefix_masks, all_masks, with_bit, ask_cached, ask_stored, add_cached, add_stored,
}
use causasv.Approx.Values.{Along, all_Along, sample_sums, add_sample-sums, add_each, Adds}

prefix-first : (mask : ℕ) (ordering : List ℕ) → 0 < count mask (prefix_masks mask ordering)
prefix-first mask [] = ground arith
prefix-first mask (node ∷ rest) = ground arith

-- What holds of the masks of the prefixes holds along the walk.
prefixes-Along :
    (Q : ℕ → Type 0) (mask : ℕ) (ordering : List ℕ)
    → ((m : ℕ) → 0 < count m (prefix_masks mask ordering) → Q m)
    → Along with_bit Q mask ordering
prefixes-Along Q mask [] h = h mask (ground arith)
prefixes-Along Q mask (node ∷ rest) h = (
  h mask (ground arith),
  prefixes-Along Q (with_bit mask node) rest (λ m listed. h m (ground arith)),
)

module _ (fl : Float) (v : List ℕ → Float.F fl) where
  open fl use {F, exp, sub, neg}

  abbrev pub value_at : ℕ → F
  value_at mask = v (mask_to_coalition mask)

  -- The cache has the values of all these masks.
  abbrev pub Holds : List (ℕ × F) → List ℕ → Type 0
  Holds cache masks = (m : ℕ) → 0 < count m masks → cache_get cache m ≡ some (value_at m)

  module _ {E : Type 0} (weigh : F → E → E) (tally : F → ℕ → F → E → E) where
    -- What one sample adds, where coalitions are masks.
    abbrev pub mask_sums : F → List ℕ → E → E
    mask_sums = sample_sums fl with_bit value_at 0 weigh tally

    module _ (value_fn : List ℕ → Result F) (total : (c : List ℕ) → value_fn c ≡ ok (v c)) where
      ask_cached-returns :
          (mask : ℕ) (cache : List (ℕ × F))
          → IsConsistent value_fn cache
          → (cache' : List (ℕ × F)) × (ask_cached fl value_fn mask cache
              ≡ ok (value_at mask, cache'))
            × IsConsistent value_fn cache'
      ask_cached-returns mask cache good =
          let (same, keeps) = value_cached_transparent value_fn cache mask good in
          let ((value, cache'), run, e) =
            >>=-eq-ok (value_cached value_fn cache mask) (λ r. ok r.0)
              (same ∙ total (mask_to_coalition mask)) in
          let here : value ≡ value_at mask = cc e in
          let run' : value_cached value_fn cache mask ≡ ok (value_at mask, cache') =
            run ∙ ap (λ x. ok (x, cache')) here in
          (cache', run', keeps (value_at mask) cache' run')

      -- One call for each coalition.
      pub add_cached-Adds :
          (n : ℕ) → Adds fl mask_sums (IsConsistent value_fn) n (add_cached fl weigh tally value_fn)
      unfolding add_cached
      add_cached-Adds n w ordering e cache below good =
          add_sample-sums fl with_bit value_at (ask_cached fl value_fn) (IsConsistent value_fn)
            (λ m. Unit {0}) (λ m c u g. ask_cached-returns m c g) 0 weigh tally w ordering e cache
            (all_Along with_bit (λ m. Unit {0}) (λ m. tt) 0 ordering) good

    -- Every value stands in the cache.
    pub each_stored-add_each :
        (top : F) (samples : List (SampledOrdering fl)) (cache : List (ℕ × F)) (e : E)
        → Holds cache (all_masks fl samples)
        → each fl (add_stored fl weigh tally) top samples e cache
          ≡ ok (add_each fl mask_sums top samples e, cache)
    unfolding each add_stored
    each_stored-add_each top [] cache e holds = refl
    each_stored-add_each top (s ∷ samples) cache e holds =
        let w = exp (sub (neg s.log_q) top) in
        let own = prefix_masks 0 s.ordering in
        let joined = λ (m : ℕ). count-append m own (all_masks fl samples) in
        let later : Holds cache (all_masks fl samples) =
          λ m listed. holds m (omega (arith, joined m)) in
        let (cache', run, same) =
          add_sample-sums fl with_bit value_at (ask_stored fl) (λ c. c ≡ cache)
            (λ m. cache_get cache m ≡ some (value_at m))
            (λ m c found same. (c, rw (same, found) refl, same)) 0 weigh tally w s.ordering e cache
            (prefixes-Along _ 0 s.ordering (λ m listed. holds m (omega (arith, joined m)))) refl in
        rw (run, same) (each_stored-add_each top samples cache (mask_sums w s.ordering e) later)
