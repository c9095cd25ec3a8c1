-- ===== src/Approx/Backends.antt =====
-- For at most 64 nodes the estimators of src/approx_large.rs return what those of src/approx.rs do.
use causasv.Prelude.{
  ℕ, ◌<◌, ◌≤◌, ◌≡◌, refl, sym, ◌∙◌, ap, arith, false, Option, List, [], ◌∷◌, map, ltb, ◌==◌,
  Bool-cases, inl, inr,
}
use causasv.Error.{Result, ok, err, panicked, out_of_fuel, ◌>>◌}
use causasv.Numerics.{Float}
use causasv.Graph.Index.{NameIndex}
use causasv.Graph.{Dag, node_count, validate}
use causasv.Graph.WellFormed.{IsWellFormed}
use causasv.Cache.Values.{IsConsistent}
use causasv.Sampler.{Rng, SamplingConfig, AdaptiveSamplingConfig}
use causasv.Approx.{SampledOrdering, Evaluator, count_weight, count_delta, check_adaptive}
use causasv.Approx.Fixed.{Rayon, weigh_sums, tally_sums, weigh_plain, tally_plain, check_samples}
use causasv.Approx.Large.{
  start_cache, default_large_cache_max_entries, approximate_asv_large,
  approximate_asv_adaptive_large, approximate_asv_batched_large,
  approximate_asv_adaptive_batched_large,
}
use causasv.Approx.Estimators.{
  approximate_asv, approximate_asv_adaptive, approximate_asv_batched,
  approximate_asv_adaptive_batched,
}
use causasv.Approx.Values.{Below, add_each, Adds, Evaluates, each-Evaluates}
use causasv.Approx.MaskValues.{mask_sums, add_cached-Adds}
use causasv.Approx.Batch.{IsRight}
use causasv.Approx.LargeValues.{IsSound}
use causasv.Approx.Evaluators.{
  evaluate_batch-Evaluates, large_sums, add_cached_large-Adds, evaluate_batch_large-Evaluates,
}
use causasv.Approx.Words.{large_sums-mask_sums}
use causasv.Approx.Rounds.{run_adaptive-outcome}
use causasv.Approx.FixedRuns.{run_fixed-same, run_batched-returns}

-- What follows a guard matters only where the guard lets it through.
pub after_guard :
    {A : Type 0} (guard : Result (Unit {0})) (first second : Result A)
    → (guard ≡ ok tt → first ≡ second)
    → (guard >> first) ≡ (guard >> second)
after_guard (ok tt) first second same = same refl
after_guard (err e) first second same = refl
after_guard panicked first second same = refl
after_guard out_of_fuel first second same = refl

pub check_adaptive-pos :
    (fl : Float) (config : AdaptiveSamplingConfig fl)
    → check_adaptive fl config ≡ ok tt
    → 0 < config.batch_size
check_adaptive-pos fl config h = elim (Bool-cases (config.batch_size == 0)) [
  | inl e ↦ absurd (cc (rw e at h))
  | inr e ↦ ground arith
]

pub start_cache-IsSound :
    (fl : Float) (v : List ℕ → Float.F fl)
    → IsSound v default_large_cache_max_entries (start_cache fl)
start_cache-IsSound fl v = record { right = λ words w h. cc; limit = refl; bounded = omega arith }

module _ (fl : Float) (v : List ℕ → Float.F fl) {E : Type 0} (weigh : Float.F fl → E → E)
    (tally : Float.F fl → ℕ → Float.F fl → E → E) (n : ℕ) (few : n ≤ 64) where
  open fl use {F, exp, sub, neg}

  add_each-same :
      (top : F) (samples : List (SampledOrdering fl)) (e : E)
      → Below fl n samples
      → add_each fl (large_sums fl v weigh tally n) top samples e
        ≡ add_each fl (mask_sums fl v weigh tally) top samples e
  add_each-same top [] e below = refl
  add_each-same top (s ∷ samples) e below =
      let w = exp (sub (neg s.log_q) top) in
      ap (add_each fl (large_sums fl v weigh tally n) top samples)
        (large_sums-mask_sums fl v weigh tally n w s.ordering e few below.0)
      ∙ add_each-same top samples (mask_sums fl v weigh tally w s.ordering e) below.1

  module _ {C : Type 0} (P : C → Type 0) where
    Adds-masks :
        (add_one : Evaluator fl E C)
        → Adds fl (large_sums fl v weigh tally n) P n add_one
        → Adds fl (mask_sums fl v weigh tally) P n add_one
    Adds-masks add_one adds w ordering e cache below good =
        let (cache', run, good') = adds w ordering e cache below good in
        (
          cache',
          run
              ∙ ap (λ x. ok (x, cache'))
                  (large_sums-mask_sums fl v weigh tally n w ordering e few below),
          good',
        )

    Evaluates-masks :
        (evaluate : F → List (SampledOrdering fl) → E → C → Result (E × C))
        → Evaluates fl (large_sums fl v weigh tally n) P n evaluate
        → Evaluates fl (mask_sums fl v weigh tally) P n evaluate
    Evaluates-masks evaluate ev top samples e cache below good =
        let (cache', run, good') = ev top samples e cache below good in
        (cache', run ∙ ap (λ x. ok (x, cache')) (add_each-same top samples e below), good')

module _ (fl : Float) (rng : Rng) (make_rng : Option ℕ → Rng.R rng) {im : NameIndex} (d : Dag im)
    (wf : IsWellFormed d) (valid : validate d ≡ ok tt) (few : node_count d ≤ 64)
    (v : List ℕ → Float.F fl) where
  open fl use {F}
  open rng use {R}

  small : ltb 64 (node_count d) ≡ false
  small = ground arith

  fixed_same :
      (rayon : Rayon R) (value_fn : List ℕ → Result F) (config : SamplingConfig)
      → ((c : List ℕ) → value_fn c ≡ ok (v c))
      → approximate_asv fl rng make_rng d rayon value_fn config
        ≡ approximate_asv_large fl rng make_rng d rayon value_fn config
  unfolding approximate_asv approximate_asv_large
  fixed_same rayon value_fn config total =
      let n = node_count d in
      let most = default_large_cache_max_entries in
      after_guard (check_samples fl config) _ _ (λ pass. rw small (
        run_fixed-same fl rng make_rng d wf valid rayon config
          (mask_sums fl v (weigh_sums fl) (tally_sums fl))
          (mask_sums fl v (weigh_plain fl) (tally_plain fl)) _ _ (IsConsistent value_fn) []
          (add_cached-Adds fl v (weigh_sums fl) (tally_sums fl) value_fn total n)
          (add_cached-Adds fl v (weigh_plain fl) (tally_plain fl) value_fn total n) (λ m w h. cc) _
          _ (IsSound v most) (start_cache fl)
          (Adds-masks fl v (weigh_sums fl) (tally_sums fl) n few (IsSound v most) _
            (add_cached_large-Adds fl v (weigh_sums fl) (tally_sums fl) most value_fn total n))
          (Adds-masks fl v (weigh_plain fl) (tally_plain fl) n few (IsSound v most) _
            (add_cached_large-Adds fl v (weigh_plain fl) (tally_plain fl) most value_fn total n))
          (start_cache-IsSound fl v)))

  adaptive_same :
      (value_fn : List ℕ → Result F) (config : AdaptiveSamplingConfig fl)
      → ((c : List ℕ) → value_fn c ≡ ok (v c))
      → approximate_asv_adaptive fl rng make_rng d value_fn config
        ≡ approximate_asv_adaptive_large fl rng make_rng d value_fn config
  unfolding approximate_asv_adaptive approximate_asv_adaptive_large
  adaptive_same value_fn config total =
      let n = node_count d in
      let most = default_large_cache_max_entries in
      let one = mask_sums fl v (count_weight fl) (count_delta fl) in
      after_guard (check_adaptive fl config) _ _ (λ pass.
        let outcome =
          run_adaptive-outcome fl rng make_rng d wf valid one config
            (check_adaptive-pos fl config pass) in
        rw small (
          outcome _ _ (IsConsistent value_fn) []
            (each-Evaluates fl one (IsConsistent value_fn) n _
              (add_cached-Adds fl v (count_weight fl) (count_delta fl) value_fn total n))
            (λ m w h. cc)
          ∙ sym (
              outcome _ _ (IsSound v most) (start_cache fl)
                (each-Evaluates fl one (IsSound v most) n _ (
                  Adds-masks fl v (count_weight fl) (count_delta fl) n few (IsSound v most) _ (
                    add_cached_large-Adds fl v (count_weight fl) (count_delta fl) most value_fn
                      total n)))
                (start_cache-IsSound fl v))))

  batched_same :
      (value_fn_batch : List (List ℕ) → Result (List F)) (config : SamplingConfig)
      → ((cs : List (List ℕ)) → value_fn_batch cs ≡ ok (map v cs))
      → approximate_asv_batched fl rng make_rng d value_fn_batch config
        ≡ approximate_asv_batched_large fl rng make_rng d value_fn_batch config
  unfolding approximate_asv_batched approximate_asv_batched_large
  batched_same value_fn_batch config total =
      let n = node_count d in
      let most = default_large_cache_max_entries in
      let (last, outcome) =
        run_batched-returns fl rng make_rng d wf valid
          (mask_sums fl v (weigh_plain fl) (tally_plain fl)) config in
      after_guard (check_samples fl config) _ _ (λ pass. rw small (
        outcome _ _ (IsRight fl v) []
          (evaluate_batch-Evaluates fl v (weigh_plain fl) (tally_plain fl) value_fn_batch total n
            few)
          (λ m w h. cc)
        ∙ sym (
            outcome _ _ (IsSound v most) (start_cache fl)
              (Evaluates-masks fl v (weigh_plain fl) (tally_plain fl) n few (IsSound v most) _ (
                evaluate_batch_large-Evaluates fl v (weigh_plain fl) (tally_plain fl) most
                  value_fn_batch (λ cs short. total cs) n))
              (start_cache-IsSound fl v))))

  adaptive_batched_same :
      (value_fn_batch : List (List ℕ) → Result (List F)) (config : AdaptiveSamplingConfig fl)
      → ((cs : List (List ℕ)) → value_fn_batch cs ≡ ok (map v cs))
      → approximate_asv_adaptive_batched fl rng make_rng d value_fn_batch config
        ≡ approximate_asv_adaptive_batched_large fl rng make_rng d value_fn_batch config
  unfolding approximate_asv_adaptive_batched approximate_asv_adaptive_batched_large
  adaptive_batched_same value_fn_batch config total =
      let n = node_count d in
      let most = default_large_cache_max_entries in
      let one = mask_sums fl v (count_weight fl) (count_delta fl) in
      after_guard (check_adaptive fl config) _ _ (λ pass.
        let outcome =
          run_adaptive-outcome fl rng make_rng d wf valid one config
            (check_adaptive-pos fl config pass) in
        rw small (
          outcome _ _ (IsRight fl v) []
            (evaluate_batch-Evaluates fl v (count_weight fl) (count_delta fl) value_fn_batch total n
              few)
            (λ m w h. cc)
          ∙ sym (
              outcome _ _ (IsSound v most) (start_cache fl)
                (Evaluates-masks fl v (count_weight fl) (count_delta fl) n few (IsSound v most) _ (
                  evaluate_batch_large-Evaluates fl v (count_weight fl) (count_delta fl) most
                    value_fn_batch (λ cs short. total cs) n))
                (start_cache-IsSound fl v))))

  -- For a well-formed graph of at most 64 nodes that `validate` accepts, a value function that
  -- returns a value on every coalition and a batch value function that returns the same values:
  -- each of `approximate_asv`, `approximate_asv_adaptive`, `approximate_asv_batched` and
  -- `approximate_asv_adaptive_batched` has the same outcome as its counterpart for large graphs,
  -- whose coalitions are lists of words and whose cache is bounded, whatever the configuration, the
  -- random generator, the floating-point operations and the way in which rayon splits and joins the
  -- work.
  pub approximate_asv_large-approximate_asv :
      (rayon : Rayon R) (value_fn : List ℕ → Result F)
      (value_fn_batch : List (List ℕ) → Result (List F)) (config : SamplingConfig)
      (adaptive : AdaptiveSamplingConfig fl)
      → ((c : List ℕ) → value_fn c ≡ ok (v c))
      → ((cs : List (List ℕ)) → value_fn_batch cs ≡ ok (map v cs))
      → (approximate_asv fl rng make_rng d rayon value_fn config
          ≡ approximate_asv_large fl rng make_rng d rayon value_fn config)
        × (approximate_asv_adaptive fl rng make_rng d value_fn adaptive
            ≡ approximate_asv_adaptive_large fl rng make_rng d value_fn adaptive)
        × (approximate_asv_batched fl rng make_rng d value_fn_batch config
            ≡ approximate_asv_batched_large fl rng make_rng d value_fn_batch config)
        × (approximate_asv_adaptive_batched fl rng make_rng d value_fn_batch adaptive
            ≡ approximate_asv_adaptive_batched_large fl rng make_rng d value_fn_batch adaptive)
  approximate_asv_large-approximate_asv rayon value_fn value_fn_batch config adaptive total
        total_batch =
      (
        fixed_same rayon value_fn config total,
        adaptive_same value_fn adaptive total,
        batched_same value_fn_batch config total_batch,
        adaptive_batched_same value_fn_batch adaptive total_batch,
      )
