-- ===== src/Approx/Estimators.antt =====
-- The estimators of src/approx.rs that weigh their samples: at most 64 nodes here, more by those of
-- src/approx_large.rs.
use causasv.Prelude.{ℕ, ltb, Option, List, [], if◌then◌else◌}
use causasv.Error.{Result, ◌>>◌}
use causasv.Numerics.{Float}
use causasv.Outcome.{AsvResult}
use causasv.Graph.Index.{NameIndex}
use causasv.Graph.{Dag, node_count}
use causasv.Sampler.{Rng, SamplingConfig, AdaptiveSamplingConfig}
use causasv.Approx.{each, count_weight, count_delta, check_adaptive, run_adaptive}
use causasv.Approx.Fixed.{
  Rayon, weigh_sums, tally_sums, weigh_plain, tally_plain, check_samples, run_fixed, run_batched,
}
use causasv.Approx.Masks.{add_cached, evaluate_batch}
use causasv.Approx.Large.{
  approximate_asv_large, approximate_asv_adaptive_large, approximate_asv_batched_large,
  approximate_asv_adaptive_batched_large,
}

module _ (fl : Float) (rng : Rng) (make_rng : Option ℕ → Rng.R rng) {im : NameIndex}
    (d : Dag im) where
  open fl use {F}
  open rng use {R}

  unfoldable pub approximate_asv :
      Rayon R → (List ℕ → Result F) → SamplingConfig → Result (AsvResult F)
  approximate_asv rayon value_fn config =
      check_samples fl config
      >> (if ltb 64 (node_count d)
          then approximate_asv_large fl rng make_rng d rayon value_fn config
          else run_fixed fl rng make_rng d rayon
              (add_cached fl (weigh_sums fl) (tally_sums fl) value_fn)
              (add_cached fl (weigh_plain fl) (tally_plain fl) value_fn) [] config)

  unfoldable pub approximate_asv_batched :
      (List (List ℕ) → Result (List F)) → SamplingConfig → Result (AsvResult F)
  approximate_asv_batched value_fn_batch config =
      check_samples fl config
      >> (if ltb 64 (node_count d)
          then approximate_asv_batched_large fl rng make_rng d value_fn_batch config
          else run_batched fl rng make_rng d
              (evaluate_batch fl (weigh_plain fl) (tally_plain fl) value_fn_batch (node_count d)) []
              config)

  unfoldable pub approximate_asv_adaptive :
      (List ℕ → Result F) → AdaptiveSamplingConfig fl → Result (AsvResult F)
  approximate_asv_adaptive value_fn config =
      check_adaptive fl config
      >> (if ltb 64 (node_count d)
          then approximate_asv_adaptive_large fl rng make_rng d value_fn config
          else run_adaptive fl rng make_rng d
              (each fl (add_cached fl (count_weight fl) (count_delta fl) value_fn)) [] config)

  unfoldable pub approximate_asv_adaptive_batched :
      (List (List ℕ) → Result (List F)) → AdaptiveSamplingConfig fl → Result (AsvResult F)
  approximate_asv_adaptive_batched value_fn_batch config =
      check_adaptive fl config
      >> (if ltb 64 (node_count d)
          then approximate_asv_adaptive_batched_large fl rng make_rng d value_fn_batch config
          else run_adaptive fl rng make_rng d
              (evaluate_batch fl (count_weight fl) (count_delta fl) value_fn_batch (node_count d))
              [] config)
