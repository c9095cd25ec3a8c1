-- ===== src/Approx.antt =====
-- What the estimators of src/approx.rs and src/approx_large.rs share: the sums, the walk over a
-- sampled ordering and the adaptive loop. `f64`, the random generator and its construction
-- (`make_rng`) are parameters.
pub mod Masks
pub mod Fixed
pub mod LargeCache
pub mod Large
pub mod Estimators
pub mod Values
pub mod MaskValues
pub mod Batch
pub mod Keys
pub mod LargeValues
pub mod Resolve
pub mod Evaluators
pub mod Words
pub mod Rounds
pub mod FixedRuns
pub mod Backends
pub mod Workers
pub mod Moments
pub mod Uniform
pub mod Served
pub mod OnDemand
pub mod Adaptive
use Prim.Native.Nat.{bit_and, bit_or}
use causasv.Prelude.{
  ℕ, zero, suc, ◌+◌, ◌-◌, Bool, true, false, not, ◌||◌, Option, none, some, List, [], ◌∷◌, ◌++◌,
  map, length, get_or, set, replicate, leb, ltb, ◌==◌, if◌then◌else◌,
}
use causasv.Error.{
  Result, ok, out_of_fuel, ◌>>=◌, ◌>>◌, fail_if, unwrap, invalid_config, text,
  validate_batch_result_len,
}
use causasv.Bits.{shl1}
use causasv.Cache.{cache_get, value_cached}
use causasv.Numerics.{Float, kahan_add}
use causasv.Outcome.{AsvResult}
use causasv.Graph.Index.{NameIndex}
use causasv.Graph.{Dag, node_count, in_degrees}
use causasv.Sampler.{Rng, AdaptiveSamplingConfig, sample_one_into}

abbrev pub minimum : ℕ → ℕ → ℕ
minimum a b = if ltb b a then b else a

-- The entries of `f` at `from..from + k`.
abbrev pub tabulate {ℓ} : {A : Type ℓ} → (ℕ → A) → ℕ → ℕ → List A
tabulate f from zero = []
tabulate f from (suc k) = f from ∷ tabulate f (suc from) k

abbrev pub map_from {ℓ} : {A : Type ℓ} → (ℕ → A) → ℕ → List (ℕ × A)
map_from f n = tabulate (λ i. (i, f i)) 0 n

module _ (fl : Float) where
  open fl use {F, add, sub, mul, div, exp, neg, abs, sqrt, max, lt, infinity, nan, is_nan, of_u64}

  abbrev pub float_at : List F → ℕ → F
  float_at xs i = get_or xs i (of_u64 0)

  pub record SampledOrdering : Type 0 where
    pub ordering : List ℕ
    pub log_q : F

  -- The sums that the adaptive estimators keep.
  pub record Estimate : Type 0 where
    pub numerator : List F
    pub num_comp : List F
    pub num_sq : List F
    pub num_sq_comp : List F
    pub denominator : F
    pub denom_comp : F
    pub sum_w_sq : F
    pub wsq_comp : F

  abbrev pub zero_estimate : ℕ → Estimate
  zero_estimate n = record {
    numerator = replicate n (of_u64 0);
    num_comp = replicate n (of_u64 0);
    num_sq = replicate n (of_u64 0);
    num_sq_comp = replicate n (of_u64 0);
    denominator = of_u64 0;
    denom_comp = of_u64 0;
    sum_w_sq = of_u64 0;
    wsq_comp = of_u64 0;
  }

  -- The sums once a new maximum of the log-weights is found.
  abbrev pub rescale : F → Estimate → Estimate
  rescale scale e =
      let scale_sq = mul scale scale in
      let by = map (λ x. mul x scale) in
      let by_sq = map (λ x. mul x scale_sq) in
      record {
        numerator = by e.numerator;
        num_comp = by e.num_comp;
        num_sq = by_sq e.num_sq;
        num_sq_comp = by_sq e.num_sq_comp;
        denominator = mul e.denominator scale;
        denom_comp = mul e.denom_comp scale;
        sum_w_sq = mul e.sum_w_sq scale_sq;
        wsq_comp = mul e.wsq_comp scale_sq;
      }

  abbrev pub count_weight : F → Estimate → Estimate
  count_weight w e =
      let (denominator', denom_comp') = kahan_add fl e.denominator e.denom_comp w in
      let (sum_w_sq', wsq_comp') = kahan_add fl e.sum_w_sq e.wsq_comp (mul w w) in
      record e {
        denominator = denominator';
        denom_comp = denom_comp';
        sum_w_sq = sum_w_sq';
        wsq_comp = wsq_comp';
      }

  -- `w * delta` and its square are added at the node.
  abbrev pub count_delta : F → ℕ → F → Estimate → Estimate
  count_delta w node delta e =
      let wd = mul w delta in
      let (sum, comp) = kahan_add fl (float_at e.numerator node) (float_at e.num_comp node) wd in
      let (sum_sq, comp_sq) =
        kahan_add fl (float_at e.num_sq node) (float_at e.num_sq_comp node) (mul wd wd) in
      record e {
        numerator = set e.numerator node sum;
        num_comp = set e.num_comp node comp;
        num_sq = set e.num_sq node sum_sq;
        num_sq_comp = set e.num_sq_comp node comp_sq;
      }

  -- The largest log-weight of a batch.
  abbrev pub largest : F → List SampledOrdering → F
  largest m [] = m
  largest m (s ∷ samples) = largest (max m (neg s.log_q)) samples

  -- What one sample of weight `w` adds to the sums, with the cache of values as the call leaves it.
  abbrev pub Evaluator : Type 0 → Type 0 → Type 0
  Evaluator E C = F → List ℕ → E → C → Result (E × C)

  -- The walk over one ordering, for any representation `S` of coalitions. `grow` inserts a node,
  -- `ask` gets the value of a coalition, `tally` counts the change at a node.
  module _ {S C E : Type 0} (grow : S → ℕ → S) (ask : S → C → Result (F × C)) where
    unfoldable pub walk : (ℕ → F → E → E) → S → F → List ℕ → E → C → Result (E × C)
    walk tally coalition prev_value [] e cache = ok (e, cache)
    walk tally coalition prev_value (node ∷ rest) e cache = do
      let with_node = grow coalition node
      (with_value, cache') ← ask with_node cache
      walk tally with_node with_value rest (tally node (sub with_value prev_value) e) cache'

    -- The walk from the empty coalition, after the weight is counted.
    unfoldable pub add_sample : S → (F → E → E) → (F → ℕ → F → E → E) → Evaluator E C
    add_sample start weigh tally w ordering e cache = do
      (prev_value, cache') ← ask start cache
      walk (tally w) start prev_value ordering (weigh w e) cache'

  -- The loop over the samples of a batch.
  unfoldable pub each :
      {E C : Type 0} → Evaluator E C → F → List SampledOrdering → E → C → Result (E × C)
  each add_one top [] e cache = ok (e, cache)
  each add_one top (s ∷ samples) e cache = do
    (e', cache') ← add_one (exp (sub (neg s.log_q) top)) s.ordering e cache
    each add_one top samples e' cache'

  -- `f64::NEG_INFINITY`
  abbrev pub neg_infinity : F
  neg_infinity = neg infinity

  -- The estimate of node `i`.
  abbrev pub value_of : Estimate → ℕ → F
  value_of e i = div (float_at e.numerator i) e.denominator

  -- The change of one node's estimate since the last check.
  abbrev pub rel_change : Estimate → List F → ℕ → F
  rel_change e prev_values i =
      let cur = value_of e i in
      let prev = get_or prev_values i nan in
      if is_nan prev
      then infinity
      else div (abs (sub cur prev)) (add (abs prev) (div (of_u64 1) (of_u64 10000000000)))

  -- `fold(m, f64::max)`
  abbrev pub fold_max : F → List F → F
  fold_max m [] = m
  fold_max m (x ∷ xs) = fold_max (max m x) xs

  -- The state of the adaptive loop, beside the generator and the cache.
  pub record Progress : Type 0 where
    pub estimate : Estimate
    pub total_samples : ℕ
    pub prev_values : List F
    pub global_max_log_w : F

  -- The end of a round: whether it converged, and the values to compare the next round with.
  unfoldable pub check_converged :
      AdaptiveSamplingConfig fl → ℕ → Estimate → ℕ → List F → Bool × List F
  check_converged config n e total_samples prev_values =
      let ess = div (mul e.denominator e.denominator) e.sum_w_sq in
      if ltb total_samples config.min_samples
      then (false, prev_values)
      else if lt (div ess (of_u64 total_samples)) config.ess_ratio_min
      then (false, prev_values)
      else (
        lt (fold_max (of_u64 0) (tabulate (rel_change e prev_values) 0 n)) config.rel_tol,
        tabulate (value_of e) 0 n,
      )

  -- The standard error of node `i`.
  abbrev pub stderr_of : Estimate → ℕ → ℕ → F
  stderr_of e total_samples i =
      let n_f = of_u64 total_samples in
      let mean_num_sq = div (float_at e.num_sq i) n_f in
      let mean_num = div (float_at e.numerator i) n_f in
      let var_num = max (sub mean_num_sq (mul mean_num mean_num)) (of_u64 0) in
      div (sqrt (div var_num n_f)) (div e.denominator n_f)

  abbrev pub adaptive_result : AdaptiveSamplingConfig fl → ℕ → Progress → Bool → AsvResult F
  adaptive_result config n p converged =
      let e = p.estimate in
      record {
        values = map_from (value_of e) n;
        n_samples = p.total_samples;
        seed = config.seed;
        is_exact = false;
        effective_sample_size = some (div (mul e.denominator e.denominator) e.sum_w_sq);
        converged = some converged;
        stderr = some (map_from (stderr_of e p.total_samples) n);
        n_order_ideals = none;
        state_ratio = none;
        memory_mb = none;
        fallback_from = none;
        fallback_reason = none;
        method_used = none;
      }

  -- The guards on the configuration.
  abbrev pub check_adaptive : AdaptiveSamplingConfig fl → Result (Unit {0})
  check_adaptive config = do
    fail_if (config.batch_size == 0) (invalid_config (text "batch_size must be > 0" ∷ []))
    fail_if (ltb config.max_samples config.min_samples)
        (invalid_config (text "min_samples must be ≤ max_samples" ∷ []))

  module _ (rng : Rng) (make_rng : Option ℕ → Rng.R rng) {im : NameIndex} (d : Dag im) where
    open rng use {R}

    -- The samples of one batch.
    unfoldable pub draw_batch : ℕ → R → Result (List SampledOrdering × R)
    draw_batch zero r = ok ([], r)
    draw_batch (suc k) r = do
      (log_q, r', scratch) ← sample_one_into rng fl d r (in_degrees d)
      (samples, r'') ← draw_batch k r'
      ok (record { ordering = scratch.ordering; log_q = log_q } ∷ samples, r'')

    -- The adaptive estimators run this loop. They differ in `evaluate`, which gets the samples of
    -- a round to the cache and the sums.
    unfoldable pub adaptive_rounds :
        {C : Type 0}
        → (F → List SampledOrdering → Estimate → C → Result (Estimate × C))
        → AdaptiveSamplingConfig fl
        → ℕ
        → R
        → C
        → Progress
        → Result (Progress × Bool)
    adaptive_rounds evaluate config zero r cache p =
        if ltb p.total_samples config.max_samples then out_of_fuel else ok (p, false)
    adaptive_rounds evaluate config (suc fuel) r cache p =
        if ltb p.total_samples config.max_samples
        then (do
          let batch = minimum config.batch_size (config.max_samples - p.total_samples)
          (samples, r') ← draw_batch batch r
          let batch_max = largest neg_infinity samples
          let higher = lt p.global_max_log_w batch_max
          let scaled =
              if higher
              then rescale (exp (sub p.global_max_log_w batch_max)) p.estimate
              else p.estimate
          let top = if higher then batch_max else p.global_max_log_w
          (e, cache') ← evaluate top samples scaled cache
          let total = p.total_samples + batch
          let (stop, prev) = check_converged config (node_count d) e total p.prev_values
          let p' : Progress = record {
            estimate = e;
            total_samples = total;
            prev_values = prev;
            global_max_log_w = top;
          }
          if stop then ok (p', true) else adaptive_rounds evaluate config fuel r' cache' p')
        else ok (p, false)

    abbrev pub start_progress : Progress
    start_progress = record {
      estimate = zero_estimate (node_count d);
      total_samples = 0;
      prev_values = replicate (node_count d) nan;
      global_max_log_w = neg_infinity;
    }

    -- Every round adds at least one sample, so `max_samples` rounds are enough.
    unfoldable pub run_adaptive :
        {C : Type 0}
        → (F → List SampledOrdering → Estimate → C → Result (Estimate × C))
        → C
        → AdaptiveSamplingConfig fl
        → Result (AsvResult F)
    run_adaptive evaluate cache config = do
      (p, converged) ←
          adaptive_rounds evaluate config config.max_samples (make_rng config.seed) cache
            start_progress
      ok (adaptive_result config (node_count d) p converged)
