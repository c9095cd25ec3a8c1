-- ===== src/Approx/Evaluators.antt =====
-- Each way to evaluate a batch of samples (src/approx.rs, src/approx_large.rs) adds the same sums: by
-- single calls or by batch calls, with masks or with large coalitions.
use causasv.Prelude.{ℕ, ◌≤◌, ◌≡◌, refl, ◌∙◌, arith, true, List, [], ◌∷◌, map, length}
use causasv.Error.{Result, ok}
use causasv.Numerics.{Float}
use causasv.Coalition.{LargeCoalition, empty, clear, insert}
use causasv.Approx.{SampledOrdering, each}
use causasv.Approx.Masks.{evaluate_batch}
use causasv.Approx.LargeCache.{value_cached_large}
use causasv.Approx.Large.{
  prefix_keys, all_keys, ask_resolved, add_cached_large, add_resolved, evaluate_batch_large,
  max_unique_coalitions_per_large_batch,
}
use causasv.Approx.Values.{
  Along, all_Along, sample_sums, add_sample-sums, add_each, Adds, Evaluates,
}
use causasv.Approx.Resolve.{resolve_batch-Knows}
use causasv.Approx.MaskValues.{mask_sums, each_stored-add_each}
use causasv.Approx.Batch.{IsRight, fetch_batch-Holds}
use causasv.Approx.Keys.{words_eq_refl, has_key, has_key-append}
use causasv.Approx.LargeValues.{key_value, Knows, IsSound, value_cached_large-returns}

-- What holds of the keys of the prefixes holds along the walk.
keys-Along :
    (Q : LargeCoalition → Type 0) (R : List ℕ → Type 0) (coalition : LargeCoalition)
    (ordering : List ℕ)
    → ((c : LargeCoalition) → R c.words → Q c)
    → ((k : List ℕ) → has_key k (prefix_keys coalition ordering) ≡ true → R k)
    → Along insert Q coalition ordering
keys-Along Q R coalition [] step h =
    step coalition (h coalition.words (ground (arith, words_eq_refl coalition.words)))
keys-Along Q R coalition (node ∷ rest) step h = (
  step coalition (h coalition.words (ground (arith, words_eq_refl coalition.words))),
  keys-Along Q R (insert coalition node) rest step (λ k listed. h k (ground arith)),
)

module _ (fl : Float) (v : List ℕ → Float.F fl) {E : Type 0} (weigh : Float.F fl → E → E)
    (tally : Float.F fl → ℕ → Float.F fl → E → E) where
  open fl use {F, exp, sub, neg}

  module _ (value_fn_batch : List (List ℕ) → Result (List F))
      (total : (cs : List (List ℕ)) → value_fn_batch cs ≡ ok (map v cs)) (n : ℕ)
      (few : n ≤ 64) where
    pub evaluate_batch-Evaluates :
        Evaluates fl
          (mask_sums fl v weigh tally)
          (IsRight fl v)
          n
          (evaluate_batch fl weigh tally value_fn_batch n)
    unfolding evaluate_batch
    evaluate_batch-Evaluates top samples e cache below right =
        let (cache', run, right', holds) =
          fetch_batch-Holds fl v value_fn_batch total n few samples cache below right in
        (cache', rw run (each_stored-add_each fl v weigh tally top samples cache' e holds), right')

  -- What one sample adds, where coalitions are lists of words.
  abbrev pub large_sums : ℕ → F → List ℕ → E → E
  large_sums n = sample_sums fl insert (λ c. key_value v c.words) (clear (empty n)) weigh tally

  module _ (most : ℕ) where
    pub add_cached_large-Adds :
        (value_fn : List ℕ → Result F)
        → ((c : List ℕ) → value_fn c ≡ ok (v c))
        → (n : ℕ)
        → Adds fl (large_sums n) (IsSound v most) n (add_cached_large fl weigh tally value_fn n)
    unfolding add_cached_large
    add_cached_large-Adds value_fn total n w ordering e cache below sound =
        add_sample-sums fl insert (λ c. key_value v c.words) (value_cached_large value_fn)
          (IsSound v most) (λ c. Unit {0})
          (λ c cache u good. value_cached_large-returns v most value_fn total c cache good)
          (clear (empty n)) weigh tally w ordering e cache
          (all_Along insert (λ c. Unit {0}) (λ c. tt) (clear (empty n)) ordering) sound

    each_resolved-add_each :
        (n : ℕ) (top : F) (samples : List (SampledOrdering fl)) (value_cache : List (List ℕ × F))
        (e : E)
        → ((k : List ℕ) → has_key k (all_keys fl n samples) ≡ true → Knows v value_cache k)
        → each fl (add_resolved fl weigh tally n) top samples e value_cache
          ≡ ok (add_each fl (large_sums n) top samples e, value_cache)
    unfolding each add_resolved
    each_resolved-add_each n top [] value_cache e known = refl
    each_resolved-add_each n top (s ∷ samples) value_cache e known =
        let w = exp (sub (neg s.log_q) top) in
        let own = prefix_keys (clear (empty n)) s.ordering in
        let joined = λ (k : List ℕ). has_key-append k own (all_keys fl n samples) in
        let (cache', run, same) =
          add_sample-sums fl insert (λ c. key_value v c.words) (ask_resolved fl)
            (λ c. c ≡ value_cache) (λ c. Knows v value_cache c.words)
            (λ c cache found same. (cache, rw (same, found) refl, same)) (clear (empty n)) weigh
            tally w s.ordering e value_cache
            (keys-Along (λ c. Knows v value_cache c.words) (Knows v value_cache) (clear (empty n))
              s.ordering (λ c h. h) (λ k listed. known k (joined k ∙ rw listed refl)))
            refl in
        rw (run, same)
          (each_resolved-add_each n top samples value_cache (large_sums n w s.ordering e)
            (λ k listed. known k (ground (arith, joined k))))

    module _ (value_fn_batch : List (List ℕ) → Result (List F))
        (total : (cs : List (List ℕ))
          → length cs ≤ max_unique_coalitions_per_large_batch
          → value_fn_batch cs ≡ ok (map v cs)) where
      pub evaluate_batch_large-Evaluates :
          (n : ℕ)
          → Evaluates fl
              (large_sums n)
              (IsSound v most)
              n
              (evaluate_batch_large fl weigh tally value_fn_batch n)
      unfolding evaluate_batch_large
      evaluate_batch_large-Evaluates n top samples e cache below sound =
          let (value_cache, cache', run, sound', known) =
            resolve_batch-Knows fl v most value_fn_batch total n samples cache sound in
          (cache', rw (run, each_resolved-add_each n top samples value_cache e known) refl, sound')
