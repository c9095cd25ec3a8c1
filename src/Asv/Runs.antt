-- ===== src/Asv/Runs.antt =====
-- `AsvExplainer::auto_quality` (src/asv.rs) with the sampling methods that it calls.
use causasv.Prelude.{
  ℕ, ◌<◌, ◌≤◌, ◌≡◌, ◌≢◌, ◌⊎◌, refl, ◌∙◌, arith, true, false, Option, some, List, map, ltb,
}
use causasv.Error.{Message, Result, ok, err, invalid_config}
use causasv.Error.Served.{IsServed}
use causasv.Numerics.{Float}
use causasv.Outcome.{AsvResult}
use causasv.Graph.Index.{NameIndex}
use causasv.Graph.{node_count, validate}
use causasv.Graph.WellFormed.{IsWellFormed}
use causasv.Sampler.{Rng, AdaptiveSamplingConfig}
use causasv.Approx.Adaptive.{check_adaptive-ok, approximate_asv_adaptive-batched}
use causasv.Approx.Served.{approximate_asv_uniform_sparse_adaptive-IsServed}
use causasv.Asv.Exact.{AsvExplainer}
use causasv.Asv.Auto.{by_method}
use causasv.Asv.Quality.{auto_quality, auto_quality-adaptive, auto_quality_serves}
use causasv.Asv.Approximate.{approximate_adaptive, approximate_uniform_sparse_adaptive}

module _ (fl : Float) (rng : Rng) (make_rng : Option ℕ → Rng.R rng) {im : NameIndex}
    (arrange : List (ℕ × ℕ) → List (ℕ × ℕ)) (self : AsvExplainer im) where
  open fl use {F}

  unfoldable pub run_auto_quality :
      (List ℕ → Result F) → AdaptiveSamplingConfig fl → Result (AsvResult F)
  run_auto_quality value_fn config =
      auto_quality fl value_fn arrange self
        (approximate_adaptive fl rng make_rng self value_fn config)
        (approximate_uniform_sparse_adaptive fl rng make_rng self value_fn config)

  module _ (wf : IsWellFormed self.dag) (valid : validate self.dag ≡ ok tt)
      (value_fn : List ℕ → Result F) (v : List ℕ → F) (total : (c : List ℕ) → value_fn c ≡ ok (v c))
      (config : AdaptiveSamplingConfig fl) (pos : 0 < config.batch_size)
      (ordered : config.min_samples ≤ config.max_samples) where
    approximate_adaptive-returns :
        (result : AsvResult F) × (approximate_adaptive fl rng make_rng self value_fn config
          ≡ ok result)
        × (config.min_samples ≤ result.n_samples)
        × (result.n_samples ≤ config.max_samples)
        × ((result.converged ≡ some true) ⊎ (result.n_samples ≡ config.max_samples))
    unfolding approximate_adaptive
    approximate_adaptive-returns =
        let (result, run, batched, low, high, stopped) =
          approximate_asv_adaptive-batched fl rng make_rng self.dag wf valid v config value_fn
            (λ cs. ok (map v cs)) pos ordered total (λ cs. refl) in
        (result, rw valid run, low, high, stopped)

    uniform-IsServed :
        node_count self.dag ≤ 63
        → IsServed (approximate_uniform_sparse_adaptive fl rng make_rng self value_fn config)
    unfolding approximate_uniform_sparse_adaptive
    uniform-IsServed small =
        let e : ltb 63 (node_count self.dag) ≡ false = ground arith in
        rw (e, valid)
          (approximate_asv_uniform_sparse_adaptive-IsServed fl value_fn (λ c msg h. cc (total c, h))
            rng make_rng self.parents_mask config _ (check_adaptive-ok fl config pos ordered))

    -- For an explainer whose graph is well-formed, accepted by `validate`, of more than 8 nodes and
    -- marked as a rooted tree or of more than 20 nodes, a value function that returns a value on
    -- every coalition, and a configuration with a positive batch size and a minimum that is at most
    -- the maximum: `auto_quality`, with the sampling methods that it calls, does not return
    -- `InvalidConfig`.
    pub run_auto_quality_serves :
        8 < node_count self.dag
        → (self.is_rooted_tree ≡ true) ⊎ (20 < node_count self.dag)
        → (msg : Message) → run_auto_quality value_fn config ≢ err (invalid_config msg)
    unfolding run_auto_quality
    run_auto_quality_serves above kind =
        let sampled = approximate_adaptive-returns in
        auto_quality_serves fl value_fn arrange self _ _ above kind sampled.0 sampled.1
          uniform-IsServed valid

    -- For an explainer whose graph is well-formed, accepted by `validate`, of more than 63 nodes
    -- and not marked as a rooted tree, a value function that returns a value on every coalition,
    -- and a configuration with a positive batch size and a minimum that is at most the maximum:
    -- `auto_quality`, with the sampling methods that it calls, returns ok, its result names
    -- `approx_adaptive` as the method, its number of samples is between the minimum and the
    -- maximum, and if it is not the maximum, the result is marked as converged.
    pub run_auto_quality_returns :
        63 < node_count self.dag
        → self.is_rooted_tree ≡ false
        → (result : AsvResult F) × (run_auto_quality value_fn config ≡ ok result)
          × (result.method_used ≡ some "approx_adaptive")
          × (config.min_samples ≤ result.n_samples)
          × (result.n_samples ≤ config.max_samples)
          × ((result.converged ≡ some true) ⊎ (result.n_samples ≡ config.max_samples))
    unfolding run_auto_quality by_method
    run_auto_quality_returns large no_tree =
        let (result, run, low, high, stopped) = approximate_adaptive-returns in
        (
          record result { method_used = some "approx_adaptive" },
          auto_quality-adaptive fl value_fn arrange self _ _ large no_tree valid ∙ rw run refl,
          refl,
          low,
          high,
          stopped,
        )
