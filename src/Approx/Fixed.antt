-- ===== src/Approx/Fixed.antt =====
-- The estimators with a fixed number of samples (src/approx.rs, src/approx_large.rs): in one thread
-- with compensated sums, in seeded workers, in the folds of an unseeded run, and in batches. What
-- the `rayon` package decides is a parameter.
use causasv.Prelude.{
  ℕ, zero, suc, ◌+◌, ◌-◌, ◌*◌, ◌/◌, ◌%◌, Bool, true, false, Option, none, some, List, [], ◌∷◌, map,
  replicate, set, ltb, ◌==◌, if◌then◌else◌, u64_mod,
}
use causasv.Error.{Result, ok, out_of_fuel, ◌>>=◌, fail_if, invalid_config, text}
use causasv.Numerics.{Float, kahan_add}
use causasv.Outcome.{AsvResult}
use causasv.Graph.Index.{NameIndex}
use causasv.Graph.{Dag, node_count, in_degrees}
use causasv.Sampler.{Rng, SamplingConfig, sample_one_into, worker_seed}
use causasv.Approx.{
  SampledOrdering, Evaluator, float_at, minimum, largest, neg_infinity, draw_batch, map_from,
  tabulate,
}

-- The number of samples and the seed of worker `k`.
abbrev pub worker : ℕ → ℕ → ℕ → ℕ → ℕ × ℕ
worker n_samples num_threads global_seed k =
    let start = n_samples * k % u64_mod / num_threads in
    let end = n_samples * (k + 1) % u64_mod / num_threads in
    ((end + u64_mod - start) % u64_mod, worker_seed global_seed k)

-- `filter(|(count, _)| *count > 0)`
abbrev pub busy : List (ℕ × ℕ) → List (ℕ × ℕ)
busy [] = []
busy ((count, seed) ∷ workers) = if ltb 0 count then (count, seed) ∷ busy workers else busy workers

unfoldable pub workers_of : ℕ → ℕ → ℕ → List (ℕ × ℕ)
workers_of n_samples num_threads global_seed =
    busy (tabulate (worker n_samples num_threads global_seed) 0 num_threads)

-- `config.batch_size.unwrap_or(256).max(1)`
abbrev pub batch_size_of : Option ℕ → ℕ
batch_size_of none = 256
batch_size_of (some size) = if ltb size 1 then 1 else size

-- `rayon`, with generators `R`: the default number of threads, the folds that a parallel loop is
-- split into, each with its number of rounds and its fresh generator, and the order of a reduction.
pub record Rayon (R : Type 0) : Type 1 where
  pub current_num_threads : ℕ
  pub folds : ℕ → List (ℕ × R)
  pub try_reduce : (A : Type 0) → A → (A → A → Result A) → List (Result A) → Result A

module _ (fl : Float) where
  open fl use {F, add, sub, mul, div, exp, neg, lt, of_u64}

  -- Compensated sums.
  pub record Sums : Type 0 where
    pub numerator : List F
    pub num_comp : List F
    pub denominator : F
    pub denom_comp : F
    pub sum_w_sq : F
    pub wsq_comp : F

  -- Plain sums, also what a worker returns.
  pub record PlainSums : Type 0 where
    pub numerator : List F
    pub denominator : F
    pub sum_w_sq : F

  abbrev pub zero_sums : ℕ → Sums
  zero_sums n = record {
    numerator = replicate n (of_u64 0);
    num_comp = replicate n (of_u64 0);
    denominator = of_u64 0;
    denom_comp = of_u64 0;
    sum_w_sq = of_u64 0;
    wsq_comp = of_u64 0;
  }

  abbrev pub zero_plain : ℕ → PlainSums
  zero_plain n = record {
    numerator = replicate n (of_u64 0);
    denominator = of_u64 0;
    sum_w_sq = of_u64 0;
  }

  abbrev pub plain_of : Sums → PlainSums
  plain_of s = record {
    numerator = s.numerator;
    denominator = s.denominator;
    sum_w_sq = s.sum_w_sq;
  }

  abbrev pub rescale_sums : F → Sums → Sums
  rescale_sums scale s =
      let scale_sq = mul scale scale in
      record {
        numerator = map (λ x. mul x scale) s.numerator;
        num_comp = map (λ x. mul x scale) s.num_comp;
        denominator = mul s.denominator scale;
        denom_comp = mul s.denom_comp scale;
        sum_w_sq = mul s.sum_w_sq scale_sq;
        wsq_comp = mul s.wsq_comp scale_sq;
      }

  abbrev pub weigh_sums : F → Sums → Sums
  weigh_sums w s =
      let (denominator', denom_comp') = kahan_add fl s.denominator s.denom_comp w in
      let (sum_w_sq', wsq_comp') = kahan_add fl s.sum_w_sq s.wsq_comp (mul w w) in
      record s {
        denominator = denominator';
        denom_comp = denom_comp';
        sum_w_sq = sum_w_sq';
        wsq_comp = wsq_comp';
      }

  abbrev pub tally_sums : F → ℕ → F → Sums → Sums
  tally_sums w node delta s =
      let (sum, comp) =
        kahan_add fl (float_at fl s.numerator node) (float_at fl s.num_comp node) (mul w delta) in
      record s { numerator = set s.numerator node sum; num_comp = set s.num_comp node comp }

  abbrev pub rescale_plain : F → PlainSums → PlainSums
  rescale_plain scale s = record {
    numerator = map (λ x. mul x scale) s.numerator;
    denominator = mul s.denominator scale;
    sum_w_sq = mul s.sum_w_sq (mul scale scale);
  }

  abbrev pub weigh_plain : F → PlainSums → PlainSums
  weigh_plain w s = record s {
    denominator = add s.denominator w;
    sum_w_sq = add s.sum_w_sq (mul w w);
  }

  abbrev pub tally_plain : F → ℕ → F → PlainSums → PlainSums
  tally_plain w node delta s = record s {
    numerator = set s.numerator node (add (float_at fl s.numerator node) (mul w delta));
  }

  -- The entries are added in pairs.
  abbrev pub add_entries : List F → List F → List F
  add_entries [] ys = []
  add_entries (x ∷ xs) [] = x ∷ xs
  add_entries (x ∷ xs) (y ∷ ys) = add x y ∷ add_entries xs ys

  abbrev pub join_sums : PlainSums → PlainSums → Result PlainSums
  join_sums a b = ok (record {
    numerator = add_entries a.numerator b.numerator;
    denominator = add a.denominator b.denominator;
    sum_w_sq = add a.sum_w_sq b.sum_w_sq;
  })

  abbrev pub fixed_result : SamplingConfig → ℕ → PlainSums → AsvResult F
  fixed_result config n s = record {
    values = map_from (λ i. div (float_at fl s.numerator i) s.denominator) n;
    n_samples = config.n_samples;
    seed = config.seed;
    is_exact = false;
    effective_sample_size = some (div (mul s.denominator s.denominator) s.sum_w_sq);
    converged = none;
    stderr = none;
    n_order_ideals = none;
    state_ratio = none;
    memory_mb = none;
    fallback_from = none;
    fallback_reason = none;
    method_used = none;
  }

  abbrev pub check_samples : SamplingConfig → Result (Unit {0})
  check_samples config =
      fail_if (config.n_samples == 0) (invalid_config (text "n_samples must be > 0" ∷ []))

  module _ (rng : Rng) (make_rng : Option ℕ → Rng.R rng) {im : NameIndex} (d : Dag im) where
    open rng use {R}

    -- The seeded run in one thread.
    unfoldable pub stream : {C : Type 0} → Evaluator fl Sums C → ℕ → R → C → F → Sums → Result Sums
    stream add_one zero r cache top s = ok s
    stream add_one (suc k) r cache top s = do
      (log_q, r', scratch) ← sample_one_into rng fl d r (in_degrees d)
      let log_w = neg log_q
      let higher = lt top log_w
      let scaled = if higher then rescale_sums (exp (sub top log_w)) s else s
      let top' = if higher then log_w else top
      (s', cache') ← add_one (exp (sub log_w top')) scratch.ordering scaled cache
      stream add_one k r' cache' top' s'

    -- The rounds of a seeded worker (`Sums`) or of a fold of an unseeded run (`PlainSums`).
    unfoldable pub unscaled : {E C : Type 0} → Evaluator fl E C → ℕ → R → C → E → Result E
    unscaled add_one zero r cache s = ok s
    unscaled add_one (suc k) r cache s = do
      (log_q, r', scratch) ← sample_one_into rng fl d r (in_degrees d)
      (s', cache') ← add_one (exp (neg log_q)) scratch.ordering s cache
      unscaled add_one k r' cache' s'

    -- The `while remaining > 0` loop of the batched estimators.
    unfoldable pub batched_rounds :
        {C : Type 0}
        → (F → List (SampledOrdering fl) → PlainSums → C → Result (PlainSums × C))
        → ℕ
        → ℕ
        → R
        → C
        → F
        → PlainSums
        → ℕ
        → Result PlainSums
    batched_rounds evaluate batch_size zero r cache top s remaining =
        if ltb 0 remaining then out_of_fuel else ok s
    batched_rounds evaluate batch_size (suc fuel) r cache top s remaining =
        if ltb 0 remaining
        then (do
          let batch = minimum remaining batch_size
          (samples, r') ← draw_batch fl rng make_rng d batch r
          let batch_max = largest fl (neg_infinity fl) samples
          let higher = lt top batch_max
          let scaled = if higher then rescale_plain (exp (sub top batch_max)) s else s
          let top' = if higher then batch_max else top
          (s', cache') ← evaluate top' samples scaled cache
          batched_rounds evaluate batch_size fuel r' cache' top' s' (remaining - batch))
        else ok s

    -- Every round takes at least one sample, so `n_samples` rounds are enough.
    unfoldable pub run_batched :
        {C : Type 0}
        → (F → List (SampledOrdering fl) → PlainSums → C → Result (PlainSums × C))
        → C
        → SamplingConfig
        → Result (AsvResult F)
    run_batched evaluate cache config = do
      s ←
          batched_rounds evaluate (batch_size_of config.batch_size) config.n_samples
            (make_rng config.seed) cache (neg_infinity fl) (zero_plain (node_count d))
            config.n_samples
      ok (fixed_result config (node_count d) s)

    module _ (rayon : Rayon R) {C : Type 0} (exactly : Evaluator fl Sums C)
        (plainly : Evaluator fl PlainSums C) (cache : C) (config : SamplingConfig) where
      -- One seeded worker.
      unfoldable pub run_worker : ℕ × ℕ → Result PlainSums
      run_worker (count, seed) = do
        s ← unscaled exactly count (make_rng (some seed)) cache (zero_sums (node_count d))
        ok (plain_of s)

      -- One fold of the unseeded run.
      unfoldable pub run_fold : ℕ × R → Result PlainSums
      run_fold (rounds, r) = unscaled plainly rounds r cache (zero_plain (node_count d))

      abbrev pub num_threads_of : Option ℕ → ℕ
      num_threads_of none = rayon.current_num_threads
      num_threads_of (some k) = k

      -- The three ways to run, by the seed and the `parallel` flag.
      unfoldable pub sampled_sums : Option ℕ → Bool → Result PlainSums
      unfolding run_worker run_fold
      sampled_sums none parallel =
          rayon.try_reduce PlainSums (zero_plain (node_count d)) join_sums
            (map run_fold (rayon.folds config.n_samples))
      sampled_sums (some global_seed) true =
          rayon.try_reduce PlainSums (zero_plain (node_count d)) join_sums (
            map run_worker
              (workers_of config.n_samples (num_threads_of config.num_threads) global_seed))
      sampled_sums (some seed) false = do
        s ←
            stream exactly config.n_samples (make_rng (some seed)) cache (neg_infinity fl)
              (zero_sums (node_count d))
        ok (plain_of s)

      unfoldable pub run_fixed : Result (AsvResult F)
      unfolding sampled_sums
      run_fixed = do
        s ← sampled_sums config.seed config.parallel
        ok (fixed_result config (node_count d) s)
