-- ===== src/Approx/Moments.antt =====
-- The sums, the guards and the results of the estimators over uniform orderings (src/approx.rs).
use causasv.Prelude.{
  ℕ, ◌*◌, ◌/◌, Bool, false, none, some, List, [], ◌∷◌, length, replicate, set, get_or, ltb,
  if◌then◌else◌,
}
use causasv.Error.{Result, fail_if, overflow, text, num, Message}
use causasv.Numerics.{Float, kahan_add}
use causasv.Outcome.{AsvResult}
use causasv.Sampler.{SamplingConfig, AdaptiveSamplingConfig}
use causasv.Approx.{Evaluator, float_at, fold_max, tabulate, map_from}
use causasv.Approx.Masks.{add_cached, add_stored}

module _ (fl : Float) where
  open fl use {F, add, sub, mul, div, abs, sqrt, max, lt, infinity, nan, is_nan, of_u64}

  -- The sum of the changes at each node, compensated.
  pub record Deltas : Type 0 where
    pub numerator : List F
    pub num_comp : List F

  abbrev pub zero_deltas : ℕ → Deltas
  zero_deltas n = record { numerator = replicate n (of_u64 0); num_comp = replicate n (of_u64 0) }

  abbrev pub tally_delta : ℕ → F → Deltas → Deltas
  tally_delta node delta s =
      let (sum, comp) =
        kahan_add fl (float_at fl s.numerator node) (float_at fl s.num_comp node) delta in
      record { numerator = set s.numerator node sum; num_comp = set s.num_comp node comp }

  -- The sums of the changes and of their squares.
  pub record Moments : Type 0 where
    pub numerator : List F
    pub num_comp : List F
    pub num_sq : List F
    pub num_sq_comp : List F

  abbrev pub zero_moments : ℕ → Moments
  zero_moments n = record {
    numerator = replicate n (of_u64 0);
    num_comp = replicate n (of_u64 0);
    num_sq = replicate n (of_u64 0);
    num_sq_comp = replicate n (of_u64 0);
  }

  abbrev pub tally_moments : ℕ → F → Moments → Moments
  tally_moments node delta s =
      let (sum, comp) =
        kahan_add fl (float_at fl s.numerator node) (float_at fl s.num_comp node) delta in
      let (sum_sq, comp_sq) =
        kahan_add fl (float_at fl s.num_sq node) (float_at fl s.num_sq_comp node)
          (mul delta delta) in
      record {
        numerator = set s.numerator node sum;
        num_comp = set s.num_comp node comp;
        num_sq = set s.num_sq node sum_sq;
        num_sq_comp = set s.num_sq_comp node comp_sq;
      }

  -- No weight is counted.
  unfoldable pub add_delta : (List ℕ → Result F) → Evaluator fl Deltas (List (ℕ × F))
  unfolding add_cached
  add_delta value_fn = add_cached fl (λ w s. s) (λ w. tally_delta) value_fn

  unfoldable pub add_moments : (List ℕ → Result F) → Evaluator fl Moments (List (ℕ × F))
  unfolding add_cached
  add_moments value_fn = add_cached fl (λ w s. s) (λ w. tally_moments) value_fn

  unfoldable pub add_stored_moments : Evaluator fl Moments (List (ℕ × F))
  unfolding add_stored
  add_stored_moments = add_stored fl (λ w s. s) (λ w. tally_moments)

  abbrev pub uniform_result : SamplingConfig → ℕ → Deltas → AsvResult F
  uniform_result config n s =
      let n_f = of_u64 config.n_samples in
      record {
        values = map_from (λ i. div (float_at fl s.numerator i) n_f) n;
        n_samples = config.n_samples;
        seed = config.seed;
        is_exact = false;
        effective_sample_size = some n_f;
        converged = none;
        stderr = none;
        n_order_ideals = none;
        state_ratio = none;
        memory_mb = none;
        fallback_from = none;
        fallback_reason = none;
        method_used = none;
      }

  -- `dp_ind_cache.len() * 80 > memory_limit_bytes`, with the message for the number of entries.
  abbrev pub guard_memory : (ℕ → Message) → ℕ → List (ℕ × ℕ) → Result (Unit {0})
  guard_memory message limit dp_ind_cache =
      fail_if (ltb limit (length dp_ind_cache * 80)) (overflow (message (length dp_ind_cache)))

  abbrev pub sparse_message : ℕ → ℕ → Message
  sparse_message limit entries =
      text "approximate_uniform_sparse: dp_ind cache exceeded "
      ∷ num (limit / (1024 * 1024))
      ∷ text "MB at "
      ∷ num entries
      ∷ text " entries; use approximate() for this DAG"
      ∷ []

  abbrev pub adaptive_message : ℕ → ℕ → Message
  adaptive_message limit entries =
      text "approximate_uniform_sparse_adaptive: dp_ind cache exceeded "
      ∷ num (limit / (1024 * 1024))
      ∷ text "MB; use approximate_adaptive() for this DAG"
      ∷ []

  abbrev pub batch_message : ℕ → ℕ → Message
  batch_message limit entries =
      text "uniform_sparse_adaptive_batch: dp_ind cache exceeded "
      ∷ num (limit / (1024 * 1024))
      ∷ text "MB; use approximate_adaptive_batched() for this DAG"
      ∷ []

  -- The loop variables of the adaptive estimators, beside the generator and the caches.
  pub record UniformProgress : Type 0 where
    pub moments : Moments
    pub total_samples : ℕ
    pub prev_values : List F

  abbrev pub mean_of : Moments → ℕ → ℕ → F
  mean_of s total i = div (float_at fl s.numerator i) (of_u64 total)

  abbrev pub mean_change : Moments → ℕ → List F → ℕ → F
  mean_change s total prev_values i =
      let cur = mean_of s total i in
      let prev = get_or prev_values i nan in
      if is_nan prev
      then infinity
      else div (abs (sub cur prev)) (add (abs prev) (div (of_u64 1) (of_u64 10000000000)))

  unfoldable pub check_stable : AdaptiveSamplingConfig fl → ℕ → Moments → ℕ → List F → Bool × List F
  check_stable config n s total prev_values =
      if ltb total config.min_samples then (false, prev_values) else (
        lt (fold_max fl (of_u64 0) (tabulate (mean_change s total prev_values) 0 n)) config.rel_tol,
        tabulate (mean_of s total) 0 n,
      )

  abbrev pub uniform_stderr : Moments → ℕ → ℕ → F
  uniform_stderr s total i =
      let n_f = of_u64 total in
      let mean_sq = div (float_at fl s.num_sq i) n_f in
      let mean = div (float_at fl s.numerator i) n_f in
      sqrt (div (max (sub mean_sq (mul mean mean)) (of_u64 0)) n_f)

  abbrev pub stable_result : AdaptiveSamplingConfig fl → ℕ → UniformProgress → Bool → AsvResult F
  stable_result config n p converged = record {
    values = map_from (mean_of p.moments p.total_samples) n;
    n_samples = p.total_samples;
    seed = config.seed;
    is_exact = false;
    effective_sample_size = some (of_u64 p.total_samples);
    converged = some converged;
    stderr = some (map_from (uniform_stderr p.moments p.total_samples) n);
    n_order_ideals = none;
    state_ratio = none;
    memory_mb = none;
    fallback_from = none;
    fallback_reason = none;
    method_used = none;
  }
