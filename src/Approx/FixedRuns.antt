-- ===== src/Approx/FixedRuns.antt =====
-- The loops of the estimators with a fixed number of samples (src/approx.rs, src/approx_large.rs)
-- return, with sums that do not depend on how the values of coalitions are got.
use causasv.Prelude.{
  ℕ, zero, suc, ◌-◌, ◌<◌, ◌≤◌, ◌≡◌, refl, ap, arith, Bool, true, false, Option, none, some, List,
  [], ◌∷◌, map, ltb, if◌then◌else◌, Bool-cases, inl, inr,
}
use causasv.Error.{Result, ok}
use causasv.Numerics.{Float}
use causasv.Graph.Index.{NameIndex}
use causasv.Graph.{Dag, node_count, validate}
use causasv.Graph.WellFormed.{IsWellFormed}
use causasv.Sampler.{Rng, SamplingConfig}
use causasv.Sampler.Frontier.{sample_one_into_exact}
use causasv.Approx.{SampledOrdering, Evaluator, minimum, largest, neg_infinity}
use causasv.Approx.Fixed.{
  Sums, PlainSums, Rayon, stream, unscaled, batched_rounds, run_batched, run_worker, run_fold,
  sampled_sums, run_fixed, rescale_sums, rescale_plain, zero_sums, zero_plain, join_sums,
  batch_size_of, fixed_result,
}
use causasv.Approx.Values.{add_each, Adds, Evaluates}
use causasv.Approx.Rounds.{draw_batch-returns}

pub batch_size_of-pos : (size : Option ℕ) → 0 < batch_size_of size
batch_size_of-pos none = omega arith
batch_size_of-pos (some size) = ground arith

module _ (fl : Float) (rng : Rng) (make_rng : Option ℕ → Rng.R rng) {im : NameIndex} (d : Dag im)
    (wf : IsWellFormed d) (valid : validate d ≡ ok tt) where
  open fl use {F, exp, sub, neg, lt}
  open rng use {R}

  -- What is left of a seeded run: the sums do not depend on the evaluator.
  pub stream-returns :
      (one : F → List ℕ → Sums fl → Sums fl) (k : ℕ) (r : R) (top : F) (s : Sums fl)
      → (last : Sums fl) × ((C : Type 0) (add_one : Evaluator fl (Sums fl) C) (P : C → Type 0)
            (cache : C)
          → Adds fl one P (node_count d) add_one
          → P cache
          → stream fl rng make_rng d add_one k r cache top s ≡ ok last)
  unfolding stream
  stream-returns one zero r top s = (s, λ C add_one P cache adds good. refl)
  stream-returns one (suc k) r top s =
      let (log_q, r', scratch, run, topo) = sample_one_into_exact d wf rng fl valid r in
      let log_w = neg log_q in
      let higher = lt top log_w in
      let scaled = if higher then rescale_sums fl (exp (sub top log_w)) s else s in
      let top' = if higher then log_w else top in
      let w = exp (sub log_w top') in
      let (last, later) = stream-returns one k r' top' (one w scratch.ordering scaled) in
      (
        last,
        λ C add_one P cache adds good.
            let (cache', added, good') =
              adds w scratch.ordering scaled cache (λ i h. ground (arith, topo.each i)) good in
            rw (run, added) (later C add_one P cache' adds good'),
      )

  -- The same for a worker or a fold.
  pub unscaled-returns :
      {E : Type 0} (one : F → List ℕ → E → E) (k : ℕ) (r : R) (s : E)
      → (last : E) × ((C : Type 0) (add_one : Evaluator fl E C) (P : C → Type 0) (cache : C)
          → Adds fl one P (node_count d) add_one
          → P cache
          → unscaled fl rng make_rng d add_one k r cache s ≡ ok last)
  unfolding unscaled
  unscaled-returns one zero r s = (s, λ C add_one P cache adds good. refl)
  unscaled-returns one (suc k) r s =
      let (log_q, r', scratch, run, topo) = sample_one_into_exact d wf rng fl valid r in
      let w = exp (neg log_q) in
      let (last, later) = unscaled-returns one k r' (one w scratch.ordering s) in
      (
        last,
        λ C add_one P cache adds good.
            let (cache', added, good') =
              adds w scratch.ordering s cache (λ i h. ground (arith, topo.each i)) good in
            rw (run, added) (later C add_one P cache' adds good'),
      )

  -- The batched loop: the fuel is enough, since every round takes at least one sample.
  pub batched_rounds-returns :
      (one : F → List ℕ → PlainSums fl → PlainSums fl) (size : ℕ)
      → 0 < size
      → (fuel : ℕ) (r : R) (top : F) (s : PlainSums fl) (remaining : ℕ) → remaining ≤ fuel
      → (last : PlainSums fl) × ((C : Type 0)
            (evaluate : F
              → List (SampledOrdering fl)
              → PlainSums fl
              → C
              → Result (PlainSums fl × C))
            (P : C → Type 0) (cache : C)
          → Evaluates fl one P (node_count d) evaluate
          → P cache
          → batched_rounds fl rng make_rng d evaluate size fuel r cache top s remaining ≡ ok last)
  unfolding batched_rounds
  batched_rounds-returns one size pos zero r top s remaining enough =
      let done : ltb 0 remaining ≡ false = ground arith in
      (s, λ C evaluate P cache ev good. rw done refl)
  batched_rounds-returns one size pos (suc fuel) r top s remaining enough =
      elim (Bool-cases (ltb 0 remaining)) [
        | inr done ↦ (s, λ C evaluate P cache ev good. rw done refl)
        | inl more ↦
            let batch = minimum remaining size in
            let (samples, r', drawn, below) =
              draw_batch-returns fl rng make_rng d wf valid batch r in
            let batch_max = largest fl (neg_infinity fl) samples in
            let higher = lt top batch_max in
            let scaled = if higher then rescale_plain fl (exp (sub top batch_max)) s else s in
            let top' = if higher then batch_max else top in
            let fewer : remaining - batch ≤ fuel = ground arith in
            let (last, later) =
              batched_rounds-returns one size pos fuel r' top' (add_each fl one top' samples scaled)
                (remaining - batch) fewer in
            (
              last,
              λ C evaluate P cache ev good.
                  let (cache', run, good') = ev top' samples scaled cache below good in
                  rw (more, drawn, run) (later C evaluate P cache' ev good'),
            )
      ]

  -- Two evaluators that add the same give the same run, whatever is parallel.
  module _ (rayon : Rayon R) (config : SamplingConfig) (one : F → List ℕ → Sums fl → Sums fl)
      (plain : F → List ℕ → PlainSums fl → PlainSums fl) {C D : Type 0}
      (exactly : Evaluator fl (Sums fl) C) (plainly : Evaluator fl (PlainSums fl) C)
      (P : C → Type 0) (cache : C) (adds : Adds fl one P (node_count d) exactly)
      (adds_plain : Adds fl plain P (node_count d) plainly) (good : P cache)
      (exactly' : Evaluator fl (Sums fl) D) (plainly' : Evaluator fl (PlainSums fl) D)
      (Q : D → Type 0) (start : D) (adds' : Adds fl one Q (node_count d) exactly')
      (adds_plain' : Adds fl plain Q (node_count d) plainly') (good' : Q start) where
    workers_same :
        (workers : List (ℕ × ℕ))
        → map (run_worker fl rng make_rng d rayon exactly plainly cache config) workers
          ≡ map (run_worker fl rng make_rng d rayon exactly' plainly' start config) workers
    unfolding run_worker
    workers_same [] = refl
    workers_same ((count, seed) ∷ workers) =
        let (last, same) =
          unscaled-returns one count (make_rng (some seed)) (zero_sums fl (node_count d)) in
        rw
          (
            same C exactly P cache adds good,
            same D exactly' Q start adds' good',
            workers_same workers,
          )
          refl

    folds_same :
        (folds : List (ℕ × R))
        → map (run_fold fl rng make_rng d rayon exactly plainly cache config) folds
          ≡ map (run_fold fl rng make_rng d rayon exactly' plainly' start config) folds
    unfolding run_fold
    folds_same [] = refl
    folds_same ((rounds, r) ∷ folds) =
        let (last, same) = unscaled-returns plain rounds r (zero_plain fl (node_count d)) in
        rw
          (
            same C plainly P cache adds_plain good,
            same D plainly' Q start adds_plain' good',
            folds_same folds,
          )
          refl

    sums_same :
        (seed : Option ℕ) (parallel : Bool)
        → sampled_sums fl rng make_rng d rayon exactly plainly cache config seed parallel
          ≡ sampled_sums fl rng make_rng d rayon exactly' plainly' start config seed parallel
    unfolding sampled_sums
    sums_same none true =
        ap (rayon.try_reduce (PlainSums fl) (zero_plain fl (node_count d)) (join_sums fl))
          (folds_same (rayon.folds config.n_samples))
    sums_same none false =
        ap (rayon.try_reduce (PlainSums fl) (zero_plain fl (node_count d)) (join_sums fl))
          (folds_same (rayon.folds config.n_samples))
    sums_same (some seed) true =
        ap (rayon.try_reduce (PlainSums fl) (zero_plain fl (node_count d)) (join_sums fl))
          (workers_same _)
    sums_same (some seed) false =
        let (last, same) =
          stream-returns one config.n_samples (make_rng (some seed)) (neg_infinity fl)
            (zero_sums fl (node_count d)) in
        rw (same C exactly P cache adds good, same D exactly' Q start adds' good') refl

    pub run_fixed-same :
        run_fixed fl rng make_rng d rayon exactly plainly cache config
        ≡ run_fixed fl rng make_rng d rayon exactly' plainly' start config
    unfolding run_fixed
    run_fixed-same = rw (sums_same config.seed config.parallel) refl

  -- The outcome of a batched run.
  pub run_batched-returns :
      (one : F → List ℕ → PlainSums fl → PlainSums fl) (config : SamplingConfig)
      → (last : PlainSums fl) × ((C : Type 0)
            (evaluate : F
              → List (SampledOrdering fl)
              → PlainSums fl
              → C
              → Result (PlainSums fl × C))
            (P : C → Type 0) (cache : C)
          → Evaluates fl one P (node_count d) evaluate
          → P cache
          → run_batched fl rng make_rng d evaluate cache config
            ≡ ok (fixed_result fl config (node_count d) last))
  unfolding run_batched
  run_batched-returns one config =
      let (last, same) =
        batched_rounds-returns one (batch_size_of config.batch_size)
          (batch_size_of-pos config.batch_size) config.n_samples (make_rng config.seed)
          (neg_infinity fl) (zero_plain fl (node_count d)) config.n_samples (omega arith) in
      (last, λ C evaluate P cache ev good. rw (same C evaluate P cache ev good) refl)
