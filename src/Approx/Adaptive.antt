-- ===== src/Approx/Adaptive.antt =====
-- The adaptive estimators of src/approx.rs return, within the bounds of their configuration, and
-- both return the same, on graphs of any size.
use causasv.Prelude.{
  ℕ, zero, suc, ◌<◌, ◌≤◌, ◌≡◌, ◌⊎◌, refl, ap, arith, true, false, Option, some, List, [], ◌∷◌, map,
  ltb, ◌==◌, Bool-cases, inl, inr,
}
use causasv.Error.{Result, ok}
use causasv.Numerics.{Float}
use causasv.Outcome.{AsvResult}
use causasv.Graph.Index.{NameIndex}
use causasv.Graph.{Dag, node_count, validate}
use causasv.Graph.WellFormed.{IsWellFormed}
use causasv.Cache.Values.{IsConsistent}
use causasv.Sampler.{Rng, SamplingConfig, AdaptiveSamplingConfig}
use causasv.Approx.{float_at, tabulate, count_weight, count_delta, check_adaptive}
use causasv.Approx.Fixed.{PlainSums, weigh_plain, tally_plain, fixed_result}
use causasv.Approx.Large.{
  start_cache, default_large_cache_max_entries, approximate_asv_adaptive_large,
  approximate_asv_batched_large, approximate_asv_adaptive_batched_large,
}
use causasv.Approx.Estimators.{
  approximate_asv_adaptive, approximate_asv_batched, approximate_asv_adaptive_batched,
}
use causasv.Approx.Values.{each-Evaluates}
use causasv.Approx.MaskValues.{mask_sums, add_cached-Adds}
use causasv.Approx.Batch.{IsRight}
use causasv.Approx.LargeValues.{IsSound}
use causasv.Approx.Evaluators.{
  evaluate_batch-Evaluates, large_sums, add_cached_large-Adds, evaluate_batch_large-Evaluates,
}
use causasv.Approx.Rounds.{adaptive_outcome, run_adaptive-outcome, adaptive_bounds}
use causasv.Approx.FixedRuns.{run_batched-returns}
use causasv.Approx.Backends.{start_cache-IsSound}

pub check_adaptive-ok :
    (fl : Float) (config : AdaptiveSamplingConfig fl)
    → 0 < config.batch_size
    → config.min_samples ≤ config.max_samples
    → check_adaptive fl config ≡ ok tt
check_adaptive-ok fl config pos ordered =
    let sized : (config.batch_size == 0) ≡ false = ground arith in
    let bounded : ltb config.max_samples config.min_samples ≡ false = ground arith in
    rw (sized, bounded) refl

module _ (fl : Float) (rng : Rng) (make_rng : Option ℕ → Rng.R rng) {im : NameIndex} (d : Dag im)
    (wf : IsWellFormed d) (valid : validate d ≡ ok tt) (v : List ℕ → Float.F fl) where
  open fl use {F, div}
  open rng use {R}

  -- For a well-formed graph that `validate` accepts, of any size, a configuration with a positive
  -- batch size and a minimum that is at most the maximum, a value function that returns a value on
  -- every coalition and a batch value function that returns the same values:
  -- `approximate_asv_adaptive` and `approximate_asv_adaptive_batched` return ok with the same
  -- result, whatever the random generator and the floating-point operations, and its number of
  -- samples is between the minimum and the maximum; if it is not the maximum, the result is marked
  -- as converged.
  pub approximate_asv_adaptive-batched :
      (config : AdaptiveSamplingConfig fl) (value_fn : List ℕ → Result F)
      (value_fn_batch : List (List ℕ) → Result (List F))
      → 0 < config.batch_size
      → config.min_samples ≤ config.max_samples
      → ((c : List ℕ) → value_fn c ≡ ok (v c))
      → ((cs : List (List ℕ)) → value_fn_batch cs ≡ ok (map v cs))
      → (result : AsvResult F) × (approximate_asv_adaptive fl rng make_rng d value_fn config
          ≡ ok result)
        × (approximate_asv_adaptive_batched fl rng make_rng d value_fn_batch config ≡ ok result)
        × (config.min_samples ≤ result.n_samples)
        × (result.n_samples ≤ config.max_samples)
        × ((result.converged ≡ some true) ⊎ (result.n_samples ≡ config.max_samples))
  unfolding approximate_asv_adaptive approximate_asv_adaptive_batched approximate_asv_adaptive_large
      approximate_asv_adaptive_batched_large
  approximate_asv_adaptive-batched config value_fn value_fn_batch pos ordered total total_batch =
      let n = node_count d in
      let most = default_large_cache_max_entries in
      let pass = check_adaptive-ok fl config pos ordered in
      elim (Bool-cases (ltb 64 n)) [
        | inr small ↦
            let one = mask_sums fl v (count_weight fl) (count_delta fl) in
            let (low, high, end) =
              adaptive_bounds fl rng make_rng d wf valid one config pos ordered in
            (
              adaptive_outcome fl rng make_rng d wf valid one config pos,
              rw (pass, small)
                  (run_adaptive-outcome fl rng make_rng d wf valid one config pos _ _
                    (IsConsistent value_fn) []
                    (each-Evaluates fl one (IsConsistent value_fn) n _
                      (add_cached-Adds fl v (count_weight fl) (count_delta fl) value_fn total n))
                    (λ m w h. cc)),
              rw (pass, small)
                  (run_adaptive-outcome fl rng make_rng d wf valid one config pos _ _ (IsRight fl v)
                    []
                    (evaluate_batch-Evaluates fl v (count_weight fl) (count_delta fl) value_fn_batch
                      total_batch n (ground arith))
                    (λ m w h. cc)),
              low,
              high,
              end,
            )
        | inl large ↦
            let one = large_sums fl v (count_weight fl) (count_delta fl) n in
            let (low, high, end) =
              adaptive_bounds fl rng make_rng d wf valid one config pos ordered in
            (
              adaptive_outcome fl rng make_rng d wf valid one config pos,
              rw (pass, large)
                  (run_adaptive-outcome fl rng make_rng d wf valid one config pos _ _
                    (IsSound v most) (start_cache fl)
                    (each-Evaluates fl one (IsSound v most) n _ (
                      add_cached_large-Adds fl v (count_weight fl) (count_delta fl) most value_fn
                        total n))
                    (start_cache-IsSound fl v)),
              rw (pass, large)
                  (run_adaptive-outcome fl rng make_rng d wf valid one config pos _ _
                    (IsSound v most) (start_cache fl)
                    (evaluate_batch_large-Evaluates fl v (count_weight fl) (count_delta fl) most
                      value_fn_batch (λ cs short. total_batch cs) n)
                    (start_cache-IsSound fl v)),
              low,
              high,
              end,
            )
      ]

  -- The outcome of the batched estimator: every node has an estimate.
  abbrev Estimated : SamplingConfig → Result (AsvResult F) → Type 0
  Estimated config outcome =
      (result : AsvResult F) × (outcome ≡ ok result)
      × (result.n_samples ≡ config.n_samples)
      × (map (λ (entry : ℕ × F). entry.0) result.values ≡ tabulate (λ i. i) 0 (node_count d))

  estimated :
      (config : SamplingConfig) (last : PlainSums fl) (outcome : Result (AsvResult F))
      → outcome ≡ ok (fixed_result fl config (node_count d) last)
      → Estimated config outcome
  estimated config last outcome run =
      (fixed_result fl config (node_count d) last, run, refl, keys-map_from 0 (node_count d))
    where
      keys-map_from :
          (from k : ℕ)
          → map
              (λ (entry : ℕ × F). entry.0)
              (tabulate (λ i. (i, div (float_at fl last.numerator i) last.denominator)) from k)
            ≡ tabulate (λ i. i) from k
      keys-map_from from zero = refl
      keys-map_from from (suc k) = ap (λ xs. from ∷ xs) (keys-map_from (suc from) k)

  -- For a well-formed graph that `validate` accepts, of any size, a positive number of samples and
  -- a batch value function that returns a value for every coalition: `approximate_asv_batched`
  -- returns ok, its result has the number of samples of the configuration and one estimate for each
  -- node, in the order of the ids.
  pub approximate_asv_batched_returns :
      (config : SamplingConfig) (value_fn_batch : List (List ℕ) → Result (List F))
      → 0 < config.n_samples
      → ((cs : List (List ℕ)) → value_fn_batch cs ≡ ok (map v cs))
      → (result : AsvResult F) × (approximate_asv_batched fl rng make_rng d value_fn_batch config
          ≡ ok result)
        × (result.n_samples ≡ config.n_samples)
        × (map (λ (entry : ℕ × F). entry.0) result.values ≡ tabulate (λ i. i) 0 (node_count d))
  unfolding approximate_asv_batched approximate_asv_batched_large
  approximate_asv_batched_returns config value_fn_batch some_samples total =
      let n = node_count d in
      let most = default_large_cache_max_entries in
      let pass : (config.n_samples == 0) ≡ false = ground arith in
      elim (Bool-cases (ltb 64 n)) [
        | inr small ↦
            let (last, outcome) =
              run_batched-returns fl rng make_rng d wf valid
                (mask_sums fl v (weigh_plain fl) (tally_plain fl)) config in
            estimated config last _ (
              rw (pass, small)
                (outcome _ _ (IsRight fl v) []
                  (evaluate_batch-Evaluates fl v (weigh_plain fl) (tally_plain fl) value_fn_batch
                    total n (ground arith))
                  (λ m w h. cc)))
        | inl large ↦
            let (last, outcome) =
              run_batched-returns fl rng make_rng d wf valid
                (large_sums fl v (weigh_plain fl) (tally_plain fl) n) config in
            estimated config last _ (
              rw (pass, large)
                (outcome _ _ (IsSound v most) (start_cache fl)
                  (evaluate_batch_large-Evaluates fl v (weigh_plain fl) (tally_plain fl) most
                    value_fn_batch (λ cs short. total cs) n)
                  (start_cache-IsSound fl v)))
      ]
