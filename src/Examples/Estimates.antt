-- ===== src/Examples/Estimates.antt =====
-- The theorems on the estimators, applied to a sample graph.
use causasv.Prelude.{
  ℕ, ◌*◌, ◌<◌, ◌≤◌, ◌≡◌, ◌⊎◌, refl, arith, true, Option, some, List, [], ◌∷◌, length, map,
}
use causasv.Error.{Result, ok, err, overflow, ◌>>=◌}
use causasv.Outcome.{AsvResult}
use causasv.Sampler.{AdaptiveSamplingConfig, SamplingConfig, new_config, with_seed}
use causasv.Approx.{tabulate, SampledOrdering}
use causasv.Approx.Fixed.{Rayon, workers_of}
use causasv.Approx.LargeCache.{LargeCoalitionCache}
use causasv.Approx.Large.{
  start_cache, all_keys, default_large_cache_max_entries, resolve_batch_unique_coalitions,
  approximate_asv_large, approximate_asv_adaptive_large, approximate_asv_batched_large,
  approximate_asv_adaptive_batched_large,
}
use causasv.Approx.Estimators.{
  approximate_asv, approximate_asv_batched, approximate_asv_adaptive,
  approximate_asv_adaptive_batched,
}
use causasv.Approx.Uniform.{approximate_asv_uniform, approximate_asv_uniform_sparse}
use causasv.Approx.Moments.{sparse_message}
use causasv.Approx.Keys.{has_key}
use causasv.Approx.LargeValues.{IsSound, Knows}
use causasv.Approx.Resolve.{resolve_batch-Knows}
use causasv.Approx.Backends.{start_cache-IsSound, approximate_asv_large-approximate_asv}
use causasv.Approx.Adaptive.{approximate_asv_adaptive-batched, approximate_asv_batched_returns}
use causasv.Approx.Workers.{total_count, total_count-workers_of}
use causasv.Approx.OnDemand.{uniform_sparse-uniform}
use causasv.Examples.{sample, sample-IsWellFormed, sample-validate}
use causasv.Examples.Samples.{
  naturals, last_rng, size_of, sample_masks, sample_counts, sample-compute_masks,
}

abbrev pub few_samples : AdaptiveSamplingConfig naturals
few_samples = record {
  min_samples = 2;
  max_samples = 5;
  batch_size = 2;
  rel_tol = 1;
  ess_ratio_min = 0;
  seed = some 7;
}

abbrev no_samples : AdaptiveSamplingConfig naturals
no_samples = record few_samples { batch_size = 0 }

abbrev three_samples : SamplingConfig
three_samples = with_seed (new_config 3) 7

abbrev pub first_state : Option ℕ → ℕ
first_state seed = 0

abbrev sizes_of : List (List ℕ) → Result (List ℕ)
sizes_of cs = ok (map length cs)

-- A reduction from left to right.
abbrev reduce : (A : Type 0) → A → (A → A → Result A) → List (Result A) → Result A
reduce A first join [] = ok first
reduce A first join (m ∷ ms) = m >>= λ a. join first a >>= λ b. reduce A b join ms

abbrev one_thread : Rayon ℕ
one_thread = record {
  current_num_threads = 1;
  folds = λ rounds. (rounds, 0) ∷ [];
  try_reduce = reduce;
}

approximate_asv_adaptive-batched_example :
    (result : AsvResult ℕ) × (approximate_asv_adaptive naturals last_rng first_state sample size_of
        few_samples
      ≡ ok result)
    × (approximate_asv_adaptive_batched naturals last_rng first_state sample sizes_of few_samples
        ≡ ok result)
    × (2 ≤ result.n_samples)
    × (result.n_samples ≤ 5)
    × ((result.converged ≡ some true) ⊎ (result.n_samples ≡ 5))
approximate_asv_adaptive-batched_example =
    approximate_asv_adaptive-batched naturals last_rng first_state sample sample-IsWellFormed
      sample-validate length few_samples size_of sizes_of (omega arith) (omega arith) (λ c. refl)
      (λ cs. refl)

approximate_asv_batched_returns_example :
    (result : AsvResult ℕ) × (approximate_asv_batched naturals last_rng first_state sample sizes_of
        three_samples
      ≡ ok result)
    × (result.n_samples ≡ 3)
    × (map (λ (entry : ℕ × ℕ). entry.0) result.values ≡ tabulate (λ i. i) 0 3)
approximate_asv_batched_returns_example =
    approximate_asv_batched_returns naturals last_rng first_state sample sample-IsWellFormed
      sample-validate length three_samples sizes_of (omega arith) (λ cs. refl)

approximate_asv_large-approximate_asv_example :
    (approximate_asv naturals last_rng first_state sample one_thread size_of three_samples
      ≡ approximate_asv_large naturals last_rng first_state sample one_thread size_of three_samples)
    × (approximate_asv_adaptive naturals last_rng first_state sample size_of few_samples
        ≡ approximate_asv_adaptive_large naturals last_rng first_state sample size_of few_samples)
    × (approximate_asv_batched naturals last_rng first_state sample sizes_of three_samples
        ≡ approximate_asv_batched_large naturals last_rng first_state sample sizes_of three_samples)
    × (approximate_asv_adaptive_batched naturals last_rng first_state sample sizes_of few_samples
        ≡ approximate_asv_adaptive_batched_large naturals last_rng first_state sample sizes_of
            few_samples)
approximate_asv_large-approximate_asv_example =
    approximate_asv_large-approximate_asv naturals last_rng first_state sample sample-IsWellFormed
      sample-validate (omega arith) length one_thread size_of sizes_of three_samples few_samples
      (λ c. refl) (λ cs. refl)

total_count-workers_of_example : total_count (workers_of 10 3 7) ≡ 10
total_count-workers_of_example = total_count-workers_of 10 3 7 (omega arith) (omega arith)

abbrev two_orders : List (SampledOrdering naturals)
two_orders =
    record { ordering = 0 ∷ 1 ∷ 2 ∷ []; log_q = 0 }
    ∷ record { ordering = 1 ∷ 0 ∷ 2 ∷ []; log_q = 0 }
    ∷ []

resolve_batch-Knows_example :
    (value_cache : List (List ℕ × ℕ)) × (cache' : LargeCoalitionCache ℕ)
    × (resolve_batch_unique_coalitions naturals 3 two_orders sizes_of (start_cache naturals)
        ≡ ok (value_cache, cache'))
    × IsSound length default_large_cache_max_entries cache'
    × ((k : List ℕ)
        → has_key k (all_keys naturals 3 two_orders) ≡ true
        → Knows length value_cache k)
resolve_batch-Knows_example =
    resolve_batch-Knows naturals length default_large_cache_max_entries sizes_of (λ cs short. refl)
      3 two_orders (start_cache naturals) (start_cache-IsSound naturals length)

uniform_sparse-uniform_example :
    let sparse =
      approximate_asv_uniform_sparse naturals last_rng first_state sample_masks size_of
        three_samples 1000 in
    ((entries : ℕ) × (1000 < entries * 80)
      × (sparse ≡ err (overflow (sparse_message naturals 1000 entries))))
    ⊎ (sparse
        ≡ approximate_asv_uniform naturals last_rng first_state sample_masks size_of three_samples
            sample_counts)
uniform_sparse-uniform_example =
    uniform_sparse-uniform naturals last_rng first_state sample_masks (omega arith) sample_counts
      size_of three_samples 1000 sample-compute_masks
