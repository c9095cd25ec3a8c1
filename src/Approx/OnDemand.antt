-- ===== src/Approx/OnDemand.antt =====
-- `approximate_asv_uniform_sparse` (src/approx.rs), which counts on demand, returns what
-- `approximate_asv_uniform` does, as long as its cache of counts fits.
use causasv.Prelude.{
  ℕ, zero, suc, ◌*◌, ◌<◌, ◌≡◌, ◌⊎◌, refl, ap, arith, Option, List, [], length, ltb, ◌∙◌, Bool-cases,
  inl, inr,
}
use causasv.Error.{Result, ok, err, panicked, out_of_fuel, ◌>>=◌, overflow, Message}
use causasv.Numerics.{Float}
use causasv.DagDp.{compute_dp_ind}
use causasv.DagDpSparse.Memo.{IsMemo}
use causasv.Sampler.{Rng, SamplingConfig, sample_uniform_into}
use causasv.Sampler.Uniform.{IsTable, compute_dp_ind-IsTable}
use causasv.Sampler.Sparse.{sparse_into-uniform_into}
use causasv.Approx.{Evaluator}
use causasv.Approx.Uniform.{
  uniform_samples, approximate_asv_uniform, sparse_samples, approximate_asv_uniform_sparse,
}
use causasv.Approx.Moments.{add_delta, zero_deltas, uniform_result, sparse_message}

module _ (message : ℕ → Message) (limit : ℕ) where
  -- The memory guard has stopped the run: the cache of counts had too many entries.
  abbrev pub Exceeds {ℓ} : {A : Type ℓ} → Result A → Type ℓ
  Exceeds r = (entries : ℕ) × (limit < entries * 80) × (r ≡ err (overflow (message entries)))

  -- A step that both runs make.
  both_after :
      {A B C : Type 0} (m : Result A) (f : A → Result B) (g : A → Result C) (last : B → Result C)
      → ((a : A) → Exceeds (f a) ⊎ ((f a >>= last) ≡ g a))
      → Exceeds (m >>= f) ⊎ (((m >>= f) >>= last) ≡ (m >>= g))
  both_after (ok a) f g last same = same a
  both_after (err e) f g last same = inr refl
  both_after panicked f g last same = inr refl
  both_after out_of_fuel f g last same = inr refl

  Exceeds-after : {A B : Type 0} (m : Result A) (f : A → Result B) → Exceeds m → Exceeds (m >>= f)
  Exceeds-after m f (entries, over, e) = (entries, over, rw e refl)

  module _ (fl : Float) (rng : Rng) (make_rng : Option ℕ → Rng.R rng) (parents_mask : List ℕ)
      (few : length parents_mask < 64) (table : List ℕ)
      (right : IsTable parents_mask (length parents_mask) few table) where
    open rng use {R}
    open fl use {F, of_u64}

    sparse_samples-uniform_samples :
        {E C : Type 0} (add_one : Evaluator fl E C) (k : ℕ) (r : R) (counts : List (ℕ × ℕ))
        (cache : C) (s : E)
        → IsMemo parents_mask counts
        → let run =
            sparse_samples fl rng make_rng parents_mask add_one message limit k r counts cache s in
          Exceeds run
          ⊎ ((run >>= λ out. ok out.3)
              ≡ uniform_samples fl rng make_rng parents_mask add_one k r table cache s)
    unfolding sparse_samples uniform_samples
    sparse_samples-uniform_samples add_one zero r counts cache s memo = inr refl
    sparse_samples-uniform_samples add_one (suc k) r counts cache s memo =
        let drawn = sample_uniform_into rng fl parents_mask r table in
        let (counts', run, memo') =
          sparse_into-uniform_into parents_mask few rng fl table right r counts memo in
        elim (Bool-cases (ltb limit (length counts' * 80))) [
          | inl over ↦ inl (length counts', ground arith, rw (run, over) refl)
          | inr room ↦
              rw (run, room)
                (both_after (add_one (of_u64 1) drawn.1 s cache) _ _ _ (λ (s', cache').
                  sparse_samples-uniform_samples add_one k drawn.0 counts' cache' s' memo'))
        ]

finish_after :
    {A B C E G : Type 0} (m : Result (A × B × C × E)) (finish : E → G)
    → (m >>= λ out. ok (finish out.3)) ≡ ((m >>= λ out. ok out.3) >>= λ s. ok (finish s))
finish_after (ok out) finish = refl
finish_after (err e) finish = refl
finish_after panicked finish = refl
finish_after out_of_fuel finish = refl

module _ (fl : Float) (rng : Rng) (make_rng : Option ℕ → Rng.R rng) (parents_mask : List ℕ)
    (few : length parents_mask < 64) where
  open fl use {F}

  -- With fewer than 64 parent masks of which `compute_dp_ind` returns ok with a table, for any
  -- value function and memory limit: `approximate_asv_uniform_sparse`, which counts linear
  -- extensions on demand, returns the outcome of `approximate_asv_uniform` with that table, errors
  -- of the value function included; or it returns the overflow error of its memory guard, and 80
  -- times the number of entries in its message exceeds the limit.
  pub uniform_sparse-uniform :
      (table : List ℕ) (value_fn : List ℕ → Result F) (config : SamplingConfig)
      (memory_limit_bytes : ℕ)
      → compute_dp_ind parents_mask (length parents_mask) ≡ ok table
      → let sparse =
          approximate_asv_uniform_sparse fl rng make_rng parents_mask value_fn config
            memory_limit_bytes in
        ((entries : ℕ) × (memory_limit_bytes < entries * 80)
          × (sparse ≡ err (overflow (sparse_message fl memory_limit_bytes entries))))
        ⊎ (sparse ≡ approximate_asv_uniform fl rng make_rng parents_mask value_fn config table)
  unfolding approximate_asv_uniform_sparse approximate_asv_uniform
  uniform_sparse-uniform table value_fn config limit computed =
      let message = sparse_message fl limit in
      let right = compute_dp_ind-IsTable parents_mask (length parents_mask) few table computed in
      elim (sparse_samples-uniform_samples message limit fl rng make_rng parents_mask few table
        right (add_delta fl value_fn) config.n_samples (make_rng config.seed) [] []
        (zero_deltas fl (length parents_mask)) (λ m v h. cc)) [
          | inl over ↦ inl (Exceeds-after message limit _ _ over)
          | inr same ↦ inr (
              finish_after _ (uniform_result fl config (length parents_mask))
              ∙ ap (λ m. m >>= λ s. ok (uniform_result fl config (length parents_mask) s)) same)
        ]
