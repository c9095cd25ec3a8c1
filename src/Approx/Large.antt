-- ===== src/Approx/Large.antt =====
-- The estimators of src/approx_large.rs, for more than 64 nodes: coalitions are lists of words, and
-- the cache of values is bounded.
use causasv.Prelude.{ℕ, Option, List, [], ◌∷◌, ◌++◌, length}
use causasv.Error.{Result, ok, ◌>>=◌, ◌>>◌, unwrap}
use causasv.Numerics.{Float}
use causasv.Outcome.{AsvResult}
use causasv.Graph.Index.{NameIndex}
use causasv.Graph.{Dag, node_count}
use causasv.Coalition.{LargeCoalition, empty, clear, insert, snapshot_key}
use causasv.Sampler.{Rng, SamplingConfig, AdaptiveSamplingConfig}
use causasv.Approx.LargeCache.{
  LargeCoalitionCache, new_cache, value_cached_large, sort_keys, dedup_keys, misses_of, hits_of,
  resolve_chunks, key_get,
}
use causasv.Approx.{
  SampledOrdering, Evaluator, add_sample, walk, each, count_weight, count_delta, check_adaptive,
  run_adaptive,
}
use causasv.Approx.Fixed.{
  Rayon, weigh_sums, tally_sums, weigh_plain, tally_plain, check_samples, run_fixed, run_batched,
}

abbrev pub default_large_cache_max_entries : ℕ
default_large_cache_max_entries = 50000

abbrev pub max_unique_coalitions_per_large_batch : ℕ
max_unique_coalitions_per_large_batch = 4096

-- The keys of the prefixes of an ordering, from a coalition on.
abbrev pub prefix_keys : LargeCoalition → List ℕ → List (List ℕ)
prefix_keys coalition [] = snapshot_key coalition ∷ []
prefix_keys coalition (node ∷ rest) =
    snapshot_key coalition ∷ prefix_keys (insert coalition node) rest

module _ (fl : Float) where
  open fl use {F}

  abbrev pub all_keys : ℕ → List (SampledOrdering fl) → List (List ℕ)
  all_keys n [] = []
  all_keys n (s ∷ samples) = prefix_keys (clear (empty n)) s.ordering ++ all_keys n samples

  unfoldable pub resolve_batch_unique_coalitions :
      ℕ
      → List (SampledOrdering fl)
      → (List (List ℕ) → Result (List F))
      → LargeCoalitionCache F
      → Result (List (List ℕ × F) × LargeCoalitionCache F)
  resolve_batch_unique_coalitions n samples value_fn_batch cache =
      let unique_keys = dedup_keys (sort_keys (all_keys n samples)) in
      let misses = misses_of cache unique_keys in
      resolve_chunks value_fn_batch max_unique_coalitions_per_large_batch (length misses) misses
        (hits_of cache unique_keys []) cache

  -- The value of a coalition that was resolved.
  abbrev pub ask_resolved : LargeCoalition → List (List ℕ × F) → Result (F × List (List ℕ × F))
  ask_resolved coalition value_cache = do
    value ← unwrap (key_get value_cache coalition.words)
    ok (value, value_cache)

  module _ {E : Type 0} (weigh : F → E → E) (tally : F → ℕ → F → E → E) where
    unfoldable pub add_cached_large :
        (List ℕ → Result F) → ℕ → Evaluator fl E (LargeCoalitionCache F)
    unfolding add_sample walk
    add_cached_large value_fn n =
        add_sample fl insert (value_cached_large value_fn) (clear (empty n)) weigh tally

    unfoldable pub add_resolved : ℕ → Evaluator fl E (List (List ℕ × F))
    unfolding add_sample walk
    add_resolved n = add_sample fl insert ask_resolved (clear (empty n)) weigh tally

    unfoldable pub evaluate_batch_large :
        (List (List ℕ) → Result (List F))
        → ℕ
        → F
        → List (SampledOrdering fl)
        → E
        → LargeCoalitionCache F
        → Result (E × LargeCoalitionCache F)
    evaluate_batch_large value_fn_batch n top samples e cache = do
      (value_cache, cache') ← resolve_batch_unique_coalitions n samples value_fn_batch cache
      (e', _) ← each fl (add_resolved n) top samples e value_cache
      ok (e', cache')

  abbrev pub start_cache : LargeCoalitionCache F
  start_cache = new_cache default_large_cache_max_entries

  module _ (rng : Rng) (make_rng : Option ℕ → Rng.R rng) {im : NameIndex} (d : Dag im) where
    open rng use {R}

    unfoldable pub approximate_asv_large :
        Rayon R → (List ℕ → Result F) → SamplingConfig → Result (AsvResult F)
    approximate_asv_large rayon value_fn config =
        check_samples fl config
        >> run_fixed fl rng make_rng d rayon
            (add_cached_large (weigh_sums fl) (tally_sums fl) value_fn (node_count d))
            (add_cached_large (weigh_plain fl) (tally_plain fl) value_fn (node_count d)) start_cache
            config

    unfoldable pub approximate_asv_adaptive_large :
        (List ℕ → Result F) → AdaptiveSamplingConfig fl → Result (AsvResult F)
    approximate_asv_adaptive_large value_fn config =
        check_adaptive fl config
        >> run_adaptive fl rng make_rng d
            (each fl (add_cached_large (count_weight fl) (count_delta fl) value_fn (node_count d)))
            start_cache config

    unfoldable pub approximate_asv_batched_large :
        (List (List ℕ) → Result (List F)) → SamplingConfig → Result (AsvResult F)
    approximate_asv_batched_large value_fn_batch config =
        check_samples fl config
        >> run_batched fl rng make_rng d
            (evaluate_batch_large (weigh_plain fl) (tally_plain fl) value_fn_batch (node_count d))
            start_cache config

    unfoldable pub approximate_asv_adaptive_batched_large :
        (List (List ℕ) → Result (List F)) → AdaptiveSamplingConfig fl → Result (AsvResult F)
    approximate_asv_adaptive_batched_large value_fn_batch config =
        check_adaptive fl config
        >> run_adaptive fl rng make_rng d
            (evaluate_batch_large (count_weight fl) (count_delta fl) value_fn_batch (node_count d))
            start_cache config
