-- ===== src/Approx/Rounds.antt =====
-- The adaptive loop of src/approx.rs and src/approx_large.rs: it returns within the bounds of its
-- configuration, however the values of coalitions are got.
use causasv.Prelude.{
  ℕ, zero, suc, ◌+◌, ◌-◌, ◌<◌, ◌≤◌, ◌≡◌, ◌⊎◌, refl, ◌∙◌, ap, arith, Bool, true, false, Option, some,
  List, [], ◌∷◌, ltb, if◌then◌else◌, Bool-cases, inl, inr,
}
use causasv.Error.{Result, ok}
use causasv.Numerics.{Float}
use causasv.Outcome.{AsvResult}
use causasv.Graph.Index.{NameIndex}
use causasv.Graph.{Dag, node_count, validate}
use causasv.Graph.WellFormed.{IsWellFormed}
use causasv.Sampler.{Rng, AdaptiveSamplingConfig}
use causasv.Sampler.Frontier.{sample_one_into_exact}
use causasv.Approx.{
  SampledOrdering, Estimate, Progress, minimum, largest, neg_infinity, rescale, check_converged,
  adaptive_result, draw_batch, adaptive_rounds, start_progress, run_adaptive,
}
use causasv.Approx.Values.{Below, add_each, Evaluates}

module _ (fl : Float) (rng : Rng) (make_rng : Option ℕ → Rng.R rng) {im : NameIndex} (d : Dag im)
    (wf : IsWellFormed d) (valid : validate d ≡ ok tt) where
  open fl use {F, exp, sub, lt}
  open rng use {R}

  pub draw_batch-returns :
      (k : ℕ) (r : R)
      → (samples : List (SampledOrdering fl)) × (r' : R) × (draw_batch fl rng make_rng d k r
          ≡ ok (samples, r'))
        × Below fl (node_count d) samples
  unfolding draw_batch
  draw_batch-returns zero r = ([], r, refl, tt)
  draw_batch-returns (suc k) r =
      let (log_q, r₁, scratch, run, topo) = sample_one_into_exact d wf rng fl valid r in
      let (samples, r₂, runs, below) = draw_batch-returns k r₁ in
      (
        record { ordering = scratch.ordering; log_q = log_q } ∷ samples,
        r₂,
        rw (run, runs) refl,
        (λ i h. ground (arith, topo.each i), below),
      )

  module _ (one : F → List ℕ → Estimate fl → Estimate fl) (config : AdaptiveSamplingConfig fl) where
    converged_late :
        (n total : ℕ) (e : Estimate fl) (prev : List F)
        → (check_converged fl config n e total prev).0 ≡ true
        → config.min_samples ≤ total
    unfolding check_converged
    converged_late n total e prev h = ground arith

    -- What a run of the loop from `p` ends with, however the values are got.
    pub record IsRun (fuel : ℕ) (r : R) (p : Progress fl) : Type 1 where
      pub last : Progress fl
      pub converged : Bool
      pub same :
          (C : Type 0)
          (evaluate : F → List (SampledOrdering fl) → Estimate fl → C → Result (Estimate fl × C))
          (P : C → Type 0) (cache : C)
          → Evaluates fl one P (node_count d) evaluate
          → P cache
          → adaptive_rounds fl rng make_rng d evaluate config fuel r cache p ≡ ok (last, converged)
      pub late : converged ≡ true → config.min_samples ≤ last.total_samples
      pub full : converged ≡ false → last.total_samples ≡ config.max_samples
      pub within : last.total_samples ≤ config.max_samples

    finished :
        (fuel : ℕ) (r : R) (p : Progress fl) → p.total_samples ≡ config.max_samples → IsRun fuel r p
    unfolding adaptive_rounds
    finished zero r p e =
        let stop : ltb p.total_samples config.max_samples ≡ false = ground arith in
        record {
          last = p;
          converged = false;
          same = λ C evaluate P cache ev good. rw stop refl;
          late = λ h. cc;
          full = λ h. e;
          within = omega (arith, e);
        }
    finished (suc fuel) r p e =
        let stop : ltb p.total_samples config.max_samples ≡ false = ground arith in
        record {
          last = p;
          converged = false;
          same = λ C evaluate P cache ev good. rw stop refl;
          late = λ h. cc;
          full = λ h. e;
          within = omega (arith, e);
        }

    -- The maximum, the rescaled sums and the state that one round leaves.
    abbrev next_top : Progress fl → List (SampledOrdering fl) → F
    next_top p samples =
        let batch_max = largest fl (neg_infinity fl) samples in
        if lt p.global_max_log_w batch_max then batch_max else p.global_max_log_w

    abbrev next_sums : Progress fl → List (SampledOrdering fl) → Estimate fl
    next_sums p samples =
        let batch_max = largest fl (neg_infinity fl) samples in
        if lt p.global_max_log_w batch_max
        then rescale fl (exp (sub p.global_max_log_w batch_max)) p.estimate
        else p.estimate

    abbrev next_progress : Progress fl → List (SampledOrdering fl) → ℕ → Bool × Progress fl
    next_progress p samples total =
        let e = add_each fl one (next_top p samples) samples (next_sums p samples) in
        let (stop, prev) = check_converged fl config (node_count d) e total p.prev_values in
        (
          stop,
          record {
            estimate = e;
            total_samples = total;
            prev_values = prev;
            global_max_log_w = next_top p samples;
          },
        )

    one_round :
        {C : Type 0}
        (evaluate : F → List (SampledOrdering fl) → Estimate fl → C → Result (Estimate fl × C))
        (fuel : ℕ) (r r' : R) (cache cache' : C) (p : Progress fl)
        (samples : List (SampledOrdering fl))
        → let batch = minimum config.batch_size (config.max_samples - p.total_samples) in
          let after = next_progress p samples (p.total_samples + batch) in
          ltb p.total_samples config.max_samples ≡ true
          → draw_batch fl rng make_rng d batch r ≡ ok (samples, r')
          → evaluate (next_top p samples) samples (next_sums p samples) cache
            ≡ ok (add_each fl one (next_top p samples) samples (next_sums p samples), cache')
          → adaptive_rounds fl rng make_rng d evaluate config (suc fuel) r cache p ≡ (
              if after.0
              then ok (after.1, true)
              else adaptive_rounds fl rng make_rng d evaluate config fuel r' cache' after.1)
    unfolding adaptive_rounds
    one_round evaluate fuel r r' cache cache' p samples more drawn run = rw (more, drawn, run) refl

    -- The fuel is enough: every round draws at least one sample, and never too many.
    pub rounds_end :
        0 < config.batch_size
        → (fuel : ℕ) (r : R) (p : Progress fl) → p.total_samples ≤ config.max_samples
        → config.max_samples ≤ fuel + p.total_samples
        → IsRun fuel r p
    rounds_end pos zero r p le enough = finished zero r p (omega arith)
    rounds_end pos (suc fuel) r p le enough =
        elim (Bool-cases (ltb p.total_samples config.max_samples)) [
          | inr done ↦ finished (suc fuel) r p (ground arith)
          | inl more ↦
              let batch = minimum config.batch_size (config.max_samples - p.total_samples) in
              let (samples, r', drawn, below) = draw_batch-returns batch r in
              let after = next_progress p samples (p.total_samples + batch) in
              let p' = after.1 in
              let bound : p.total_samples + batch ≤ config.max_samples = ground arith in
              let grown : p.total_samples + 1 ≤ p.total_samples + batch = ground arith in
              elim (Bool-cases after.0) [
                | inl stop ↦ record {
                  last = p';
                  converged = true;
                  same = λ C evaluate P cache ev good.
                      let (cache', run, good') =
                        ev (next_top p samples) samples (next_sums p samples) cache below good in
                      one_round evaluate fuel r r' cache cache' p samples more drawn run
                      ∙ ap
                          (λ b.
                            if b
                            then ok (p', true)
                            else adaptive_rounds fl rng make_rng d evaluate config fuel r' cache'
                                p')
                          stop;
                  late = λ h.
                      converged_late (node_count d) (p.total_samples + batch) p'.estimate
                        p.prev_values stop;
                  full = λ h. cc;
                  within = bound;
                }
                | inr go_on ↦
                    let later = rounds_end pos fuel r' p' bound (omega (arith, grown)) in
                    record {
                      last = later.last;
                      converged = later.converged;
                      same = λ C evaluate P cache ev good.
                          let (cache', run, good') =
                            ev (next_top p samples) samples (next_sums p samples) cache below
                              good in
                          one_round evaluate fuel r r' cache cache' p samples more drawn run
                          ∙ ap
                              (λ b.
                                if b
                                then ok (p', true)
                                else adaptive_rounds fl rng make_rng d evaluate config fuel r'
                                    cache' p')
                              go_on
                          ∙ later.same C evaluate P cache' ev good';
                      late = later.late;
                      full = later.full;
                      within = later.within;
                    }
              ]
        ]

  -- The adaptive loop returns, within the bounds of the configuration, the same however the values
  -- are got.
  module _ (one : F → List ℕ → Estimate fl → Estimate fl) (config : AdaptiveSamplingConfig fl)
      (pos : 0 < config.batch_size) where
    pub adaptive-IsRun :
        IsRun one config config.max_samples
          (make_rng config.seed)
          (start_progress fl rng make_rng d)
    adaptive-IsRun =
        rounds_end one config pos config.max_samples (make_rng config.seed)
          (start_progress fl rng make_rng d) (omega arith) (omega arith)

    abbrev pub adaptive_outcome : AsvResult F
    adaptive_outcome =
        adaptive_result fl config (node_count d) adaptive-IsRun.last adaptive-IsRun.converged

    pub run_adaptive-outcome :
        (C : Type 0)
        (evaluate : F → List (SampledOrdering fl) → Estimate fl → C → Result (Estimate fl × C))
        (P : C → Type 0) (cache : C)
        → Evaluates fl one P (node_count d) evaluate
        → P cache
        → run_adaptive fl rng make_rng d evaluate cache config ≡ ok adaptive_outcome
    unfolding run_adaptive
    run_adaptive-outcome C evaluate P cache ev good =
        rw (adaptive-IsRun.same C evaluate P cache ev good) refl

    pub adaptive_bounds :
        config.min_samples ≤ config.max_samples
        → (config.min_samples ≤ adaptive_outcome.n_samples)
          × (adaptive_outcome.n_samples ≤ config.max_samples)
          × ((adaptive_outcome.converged ≡ some true)
              ⊎ (adaptive_outcome.n_samples ≡ config.max_samples))
    adaptive_bounds ordered =
        let run = adaptive-IsRun in
        (
          elim (Bool-cases run.converged) [
            | inl e ↦ run.late e
            | inr e ↦ omega (arith, run.full e)
          ],
          run.within,
          elim (Bool-cases run.converged) [ inl e ↦ inl (ap some e) | inr e ↦ inr (run.full e) ],
        )
