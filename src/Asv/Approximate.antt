-- ===== src/Asv/Approximate.antt =====
-- The sampling methods of `AsvExplainer` (src/asv.rs): their guards and the estimators that they call.
use causasv.Prelude.{ℕ, ◌*◌, ◌==◌, ltb, Option, List, [], ◌∷◌}
use causasv.Error.{Result, ◌>>=◌, ◌>>◌, fail_if, invalid_config, text, num}
use causasv.Numerics.{Float}
use causasv.Outcome.{AsvResult}
use causasv.Graph.Index.{NameIndex}
use causasv.Graph.{node_count, validate}
use causasv.DagDp.{compute_dp_ind}
use causasv.Sampler.{Rng, SamplingConfig, AdaptiveSamplingConfig}
use causasv.Approx.Fixed.{Rayon}
use causasv.Approx.Estimators.{
  approximate_asv, approximate_asv_batched, approximate_asv_adaptive,
  approximate_asv_adaptive_batched,
}
use causasv.Approx.Uniform.{
  approximate_asv_uniform, approximate_asv_uniform_sparse, approximate_asv_uniform_sparse_adaptive,
  approximate_asv_uniform_sparse_adaptive_batched,
}
use causasv.Asv.Exact.{AsvExplainer}

-- 2 GiB
abbrev pub sparse_memory_limit : ℕ
sparse_memory_limit = 2 * 1024 * 1024 * 1024

module _ (fl : Float) (rng : Rng) (make_rng : Option ℕ → Rng.R rng) {im : NameIndex}
    (self : AsvExplainer im) where
  open fl use {F}
  open rng use {R}

  unfoldable pub approximate : Rayon R → (List ℕ → Result F) → SamplingConfig → Result (AsvResult F)
  approximate rayon value_fn config =
      validate self.dag >> approximate_asv fl rng make_rng self.dag rayon value_fn config

  unfoldable pub approximate_uniform : (List ℕ → Result F) → SamplingConfig → Result (AsvResult F)
  approximate_uniform value_fn config = do
    let n = node_count self.dag
    fail_if (ltb 20 n) (
        invalid_config (
          text "approximate_uniform requires n ≤ 20 (2^n dp_ind table), got "
          ∷ num n
          ∷ text "; use approximate() for larger DAGs"
          ∷ []))
    fail_if (config.n_samples == 0) (invalid_config (text "n_samples must be > 0" ∷ []))
    validate self.dag
    dp_ind ← compute_dp_ind self.parents_mask n
    approximate_asv_uniform fl rng make_rng self.parents_mask value_fn config dp_ind

  unfoldable pub approximate_uniform_sparse :
      (List ℕ → Result F) → SamplingConfig → Result (AsvResult F)
  approximate_uniform_sparse value_fn config = do
    let n = node_count self.dag
    fail_if (ltb 63 n) (
        invalid_config (
          text "approximate_uniform_sparse requires n ≤ 63 (u64 bitmask), got "
          ∷ num n
          ∷ text "; use approximate() for larger DAGs"
          ∷ []))
    fail_if (config.n_samples == 0) (invalid_config (text "n_samples must be > 0" ∷ []))
    validate self.dag
    approximate_asv_uniform_sparse fl rng make_rng self.parents_mask value_fn config
        sparse_memory_limit

  unfoldable pub approximate_uniform_sparse_adaptive :
      (List ℕ → Result F) → AdaptiveSamplingConfig fl → Result (AsvResult F)
  approximate_uniform_sparse_adaptive value_fn config = do
    let n = node_count self.dag
    fail_if (ltb 63 n) (
        invalid_config
          (text "approximate_uniform_sparse_adaptive requires n ≤ 63, got " ∷ num n ∷ []))
    validate self.dag
    approximate_asv_uniform_sparse_adaptive fl rng make_rng self.parents_mask value_fn config
        sparse_memory_limit

  unfoldable pub approximate_adaptive :
      (List ℕ → Result F) → AdaptiveSamplingConfig fl → Result (AsvResult F)
  approximate_adaptive value_fn config =
      validate self.dag >> approximate_asv_adaptive fl rng make_rng self.dag value_fn config

  unfoldable pub approximate_batched :
      (List (List ℕ) → Result (List F)) → SamplingConfig → Result (AsvResult F)
  approximate_batched value_fn_batch config =
      validate self.dag >> approximate_asv_batched fl rng make_rng self.dag value_fn_batch config

  unfoldable pub approximate_adaptive_batched :
      (List (List ℕ) → Result (List F)) → AdaptiveSamplingConfig fl → Result (AsvResult F)
  approximate_adaptive_batched value_fn_batch config =
      validate self.dag
      >> approximate_asv_adaptive_batched fl rng make_rng self.dag value_fn_batch config

  unfoldable pub approximate_uniform_sparse_adaptive_batched :
      (List (List ℕ) → Result (List F)) → AdaptiveSamplingConfig fl → Result (AsvResult F)
  approximate_uniform_sparse_adaptive_batched value_fn_batch config = do
    let n = node_count self.dag
    fail_if (ltb 63 n) (
        invalid_config
          (text "approximate_uniform_sparse_adaptive_batched requires n ≤ 63, got " ∷ num n ∷ []))
    validate self.dag
    approximate_asv_uniform_sparse_adaptive_batched fl rng make_rng self.parents_mask value_fn_batch
        config sparse_memory_limit
