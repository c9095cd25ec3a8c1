-- ===== src/Approx/Resolve.antt =====
-- The values of the coalitions of a batch (`resolve_batch_unique_coalitions` of src/approx_large.rs).
use causasv.Prelude.{ℕ, ◌≤◌, ◌≡◌, arith, true, List, [], map, length, inr}
use causasv.Error.{Result, ok}
use causasv.Numerics.{Float}
use causasv.Approx.{SampledOrdering}
use causasv.Approx.LargeCache.{LargeCoalitionCache, sort_keys, dedup_keys, hits_of, misses_of}
use causasv.Approx.Large.{
  all_keys, resolve_batch_unique_coalitions, max_unique_coalitions_per_large_batch,
}
use causasv.Approx.Keys.{has_key, unique-keeps}
use causasv.Approx.LargeValues.{Knows, IsSound, hits_of-Knows, resolve_chunks-Knows}

module _ (fl : Float) (v : List ℕ → Float.F fl) (most : ℕ) where
  open fl use {F}

  module _ (value_fn_batch : List (List ℕ) → Result (List F))
      (total : (cs : List (List ℕ))
        → length cs ≤ max_unique_coalitions_per_large_batch
        → value_fn_batch cs ≡ ok (map v cs)) where
    -- If the batch value function returns the values of any list of at most 4096 coalitions, and
    -- every entry of the cache is the value of its coalition and the cache has at most as many
    -- entries as its limit, then `resolve_batch_unique_coalitions` returns ok, the cache stays so
    -- with the same limit, and the map of values has the value of every prefix of every sample.
    pub resolve_batch-Knows :
        (n : ℕ) (samples : List (SampledOrdering fl)) (cache : LargeCoalitionCache F)
        → IsSound v most cache
        → (value_cache : List (List ℕ × F)) × (cache' : LargeCoalitionCache F)
          × (resolve_batch_unique_coalitions fl n samples value_fn_batch cache
              ≡ ok (value_cache, cache'))
          × IsSound v most cache'
          × ((k : List ℕ) → has_key k (all_keys fl n samples) ≡ true → Knows v value_cache k)
    unfolding resolve_batch_unique_coalitions
    resolve_batch-Knows n samples cache sound =
        let unique = dedup_keys (sort_keys (all_keys fl n samples)) in
        let misses = misses_of cache unique in
        let (value_cache, cache', run, sound', known) =
          resolve_chunks-Knows v most value_fn_batch 4095 total (length misses) misses
            (hits_of cache unique []) cache (omega arith) sound in
        (
          value_cache,
          cache',
          run,
          sound',
          λ k needed. known k (
              hits_of-Knows v most cache unique [] k sound
                (inr (unique-keeps k (all_keys fl n samples) needed))),
        )
