-- ===== src/Approx/Uniform.antt =====
-- The estimators of src/approx.rs over uniform orderings: every sample has weight 1.
use causasv.Prelude.{
  ℕ, zero, suc, ◌+◌, ◌-◌, Bool, true, false, Option, List, [], ◌∷◌, length, replicate, ltb,
  if◌then◌else◌,
}
use causasv.Error.{Result, ok, out_of_fuel, ◌>>=◌, ◌>>◌, Message}
use causasv.Numerics.{Float}
use causasv.Outcome.{AsvResult}
use causasv.Sampler.{
  Rng, SamplingConfig, AdaptiveSamplingConfig, sample_uniform_into, sample_uniform_sparse_into,
}
use causasv.Approx.{SampledOrdering, Evaluator, each, minimum, check_adaptive}
use causasv.Approx.Masks.{fetch_batch}
use causasv.Approx.Moments.{
  zero_deltas, Moments, zero_moments, add_delta, add_moments, add_stored_moments, uniform_result,
  guard_memory, sparse_message, adaptive_message, batch_message, UniformProgress, check_stable,
  stable_result,
}

module _ (fl : Float) where
  open fl use {F, nan, of_u64}

  module _ (rng : Rng) (make_rng : Option ℕ → Rng.R rng) (parents_mask : List ℕ) where
    open rng use {R}

    unfoldable pub uniform_samples :
        {E C : Type 0} → Evaluator fl E C → ℕ → R → List ℕ → C → E → Result E
    uniform_samples add_one zero r dp_ind cache s = ok s
    uniform_samples add_one (suc k) r dp_ind cache s = do
      let (r', ordering) = sample_uniform_into rng fl parents_mask r dp_ind
      (s', cache') ← add_one (of_u64 1) ordering s cache
      uniform_samples add_one k r' dp_ind cache' s'

    unfoldable pub approximate_asv_uniform :
        (List ℕ → Result F) → SamplingConfig → List ℕ → Result (AsvResult F)
    unfolding add_delta
    approximate_asv_uniform value_fn config dp_ind = do
      s ←
          uniform_samples (add_delta fl value_fn) config.n_samples (make_rng config.seed) dp_ind []
            (zero_deltas fl (length parents_mask))
      ok (uniform_result fl config (length parents_mask) s)

    -- The generator, the counts, the values and the sums after `k` samples.
    unfoldable pub sparse_samples :
        {E C : Type 0}
        → Evaluator fl E C
        → (ℕ → Message)
        → ℕ
        → ℕ
        → R
        → List (ℕ × ℕ)
        → C
        → E
        → Result (R × List (ℕ × ℕ) × C × E)
    sparse_samples add_one message limit zero r dp_ind_cache cache s =
        ok (r, dp_ind_cache, cache, s)
    sparse_samples add_one message limit (suc k) r dp_ind_cache cache s = do
      (r', dp_ind_cache', ordering) ←
          sample_uniform_sparse_into rng fl parents_mask r (length parents_mask) dp_ind_cache
      guard_memory fl message limit dp_ind_cache'
      (s', cache') ← add_one (of_u64 1) ordering s cache
      sparse_samples add_one message limit k r' dp_ind_cache' cache' s'

    unfoldable pub approximate_asv_uniform_sparse :
        (List ℕ → Result F) → SamplingConfig → ℕ → Result (AsvResult F)
    unfolding add_delta
    approximate_asv_uniform_sparse value_fn config memory_limit_bytes = do
      (_, _, _, s) ←
          sparse_samples (add_delta fl value_fn) (sparse_message fl memory_limit_bytes)
            memory_limit_bytes config.n_samples (make_rng config.seed) [] []
            (zero_deltas fl (length parents_mask))
      ok (uniform_result fl config (length parents_mask) s)

    -- The adaptive estimators run this loop. They differ in `round`, which draws a batch and adds it.
    unfoldable pub stable_rounds :
        {C : Type 0}
        → (ℕ → R → List (ℕ × ℕ) → C → Moments fl → Result (R × List (ℕ × ℕ) × C × Moments fl))
        → AdaptiveSamplingConfig fl
        → ℕ
        → R
        → List (ℕ × ℕ)
        → C
        → UniformProgress fl
        → Result (UniformProgress fl × Bool)
    stable_rounds round config zero r dp_ind_cache cache p =
        if ltb p.total_samples config.max_samples then out_of_fuel else ok (p, false)
    stable_rounds round config (suc fuel) r dp_ind_cache cache p =
        if ltb p.total_samples config.max_samples
        then (do
          let batch = minimum config.batch_size (config.max_samples - p.total_samples)
          (r', dp_ind_cache', cache', s) ← round batch r dp_ind_cache cache p.moments
          let total = p.total_samples + batch
          let (stop, prev) = check_stable fl config (length parents_mask) s total p.prev_values
          let p' : UniformProgress fl = record {
            moments = s;
            total_samples = total;
            prev_values = prev;
          }
          if stop
              then ok (p', true)
              else stable_rounds round config fuel r' dp_ind_cache' cache' p')
        else ok (p, false)

    -- Every round adds at least one sample, so `max_samples` rounds are enough.
    unfoldable pub run_stable :
        (ℕ
          → R
          → List (ℕ × ℕ)
          → List (ℕ × F)
          → Moments fl
          → Result (R × List (ℕ × ℕ) × List (ℕ × F) × Moments fl))
        → AdaptiveSamplingConfig fl
        → Result (AsvResult F)
    run_stable round config = do
      check_adaptive fl config
      (p, converged) ←
          stable_rounds round config config.max_samples (make_rng config.seed) [] [] (record {
            moments = zero_moments fl (length parents_mask);
            total_samples = 0;
            prev_values = replicate (length parents_mask) nan;
          })
      ok (stable_result fl config (length parents_mask) p converged)

    unfoldable pub approximate_asv_uniform_sparse_adaptive :
        (List ℕ → Result F) → AdaptiveSamplingConfig fl → ℕ → Result (AsvResult F)
    unfolding add_moments
    approximate_asv_uniform_sparse_adaptive value_fn config memory_limit_bytes =
        run_stable
          (sparse_samples (add_moments fl value_fn) (adaptive_message fl memory_limit_bytes)
            memory_limit_bytes)
          config

    -- The orderings of a batch, as samples of weight 1.
    unfoldable pub draw_orderings :
        (ℕ → Message)
        → ℕ
        → ℕ
        → R
        → List (ℕ × ℕ)
        → Result (List (SampledOrdering fl) × R × List (ℕ × ℕ))
    draw_orderings message limit zero r dp_ind_cache = ok ([], r, dp_ind_cache)
    draw_orderings message limit (suc k) r dp_ind_cache = do
      (r', dp_ind_cache', ordering) ←
          sample_uniform_sparse_into rng fl parents_mask r (length parents_mask) dp_ind_cache
      guard_memory fl message limit dp_ind_cache'
      (rest, r'', dp_ind_cache'') ← draw_orderings message limit k r' dp_ind_cache'
      ok (record { ordering = ordering; log_q = of_u64 0 } ∷ rest, r'', dp_ind_cache'')

    -- One batch: all orderings, one call for what the cache misses, then the sums.
    unfoldable pub batch_round :
        (List (List ℕ) → Result (List F))
        → ℕ
        → ℕ
        → R
        → List (ℕ × ℕ)
        → List (ℕ × F)
        → Moments fl
        → Result (R × List (ℕ × ℕ) × List (ℕ × F) × Moments fl)
    unfolding add_stored_moments
    batch_round value_fn_batch memory_limit_bytes batch r dp_ind_cache cache s = do
      (orderings, r', dp_ind_cache') ←
          draw_orderings (batch_message fl memory_limit_bytes) memory_limit_bytes batch r
            dp_ind_cache
      cache' ← fetch_batch fl value_fn_batch (length parents_mask) orderings cache
      (s', _) ← each fl (add_stored_moments fl) (of_u64 0) orderings s cache'
      ok (r', dp_ind_cache', cache', s')

    unfoldable pub approximate_asv_uniform_sparse_adaptive_batched :
        (List (List ℕ) → Result (List F)) → AdaptiveSamplingConfig fl → ℕ → Result (AsvResult F)
    approximate_asv_uniform_sparse_adaptive_batched value_fn_batch config memory_limit_bytes =
        run_stable (batch_round value_fn_batch memory_limit_bytes) config
