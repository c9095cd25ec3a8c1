-- ===== src/Approx/Served.antt =====
-- The sampling loops over uniform orderings (src/sampler.rs, src/approx.rs) do not return
-- `InvalidConfig` of their own.
use Prim.Native.Nat.{bit_and, bit_xor}
use causasv.Prelude.{
  ℕ, zero, suc, ◌+◌, ◌-◌, ◌*◌, ◌%◌, ◌≡◌, Bool, true, false, Option, none, some, List, [], ◌∷◌,
  length, take, get_or, ltb, ◌==◌, Option-cases, inl, inr, u64_mod, checked_add,
}
use causasv.Error.{Message, Result, ok, err, overflow, fail_if}
use causasv.Error.Served.{IsServed, ok-IsServed, out_of_fuel-IsServed, after-IsServed, if-IsServed}
use causasv.Numerics.{Float}
use causasv.Bits.{shl1, lowest_bit, trailing_zeros}
use causasv.Cache.{cache_get, value_cached, mask_to_coalition}
use causasv.DagDp.{overflowed}
use causasv.DagDpSparse.{for_nodes, lazy_node, lazy_calls, dp_ind_lazy}
use causasv.Sampler.{
  Rng, AdaptiveSamplingConfig, pick_sparse, sparse_rounds, sample_uniform_sparse_into,
}
use causasv.Approx.{walk, add_sample, minimum, check_adaptive}
use causasv.Approx.Masks.{with_bit, ask_cached, add_cached}
use causasv.Approx.Uniform.{
  sparse_samples, stable_rounds, run_stable, approximate_asv_uniform_sparse_adaptive,
}
use causasv.Approx.Moments.{
  Moments, UniformProgress, check_stable, add_moments, adaptive_message, tally_moments,
}

for_nodes-IsServed :
    {S : Type 0} (body : ℕ → ℕ → S → Result S) (i : ℕ) (masks : List ℕ) (s : S)
    → ((j pmask : ℕ) (t : S) → IsServed (body j pmask t))
    → IsServed (for_nodes body i masks s)
unfolding for_nodes
for_nodes-IsServed body i [] s each = ok-IsServed s
for_nodes-IsServed body i (pmask ∷ rest) s each =
    after-IsServed (body i pmask s) _ (each i pmask s)
      (λ t. for_nodes-IsServed body (suc i) rest t each)

-- The end of a step, after the checked addition.
sum-IsServed :
    (mask : ℕ) (cache : List (ℕ × ℕ)) (o : Option ℕ)
    → IsServed {A = ℕ × List (ℕ × ℕ)}
        (elim o [ some sum ↦ ok (sum, cache) | none ↦ err (overflow (overflowed "dp_ind" mask)) ])
sum-IsServed mask cache none msg h = cc
sum-IsServed mask cache (some sum) msg h = cc

lazy_node-IsServed :
    (recurse : ℕ → List (ℕ × ℕ) → Result (ℕ × List (ℕ × ℕ))) (mask i pmask : ℕ)
    (st : ℕ × List (ℕ × ℕ))
    → ((m : ℕ) (cache : List (ℕ × ℕ)) → IsServed (recurse m cache))
    → IsServed (lazy_node recurse mask i pmask st)
unfolding lazy_node
lazy_node-IsServed recurse mask i pmask (result, cache) calls =
    if-IsServed (bit_and mask (shl1 i) == 0) _ _ (λ e. ok-IsServed (result, cache))
      (λ e.
        if-IsServed (bit_and pmask mask == 0) _ _
          (λ f.
            after-IsServed _ _ (calls (bit_xor mask (shl1 i)) cache)
              (λ (sub, cache'). sum-IsServed mask cache' (checked_add result sub)))
          (λ f. ok-IsServed (result, cache)))

lazy_calls-IsServed :
    (fuel : ℕ) (parents_mask : List ℕ) (n mask : ℕ) (cache : List (ℕ × ℕ))
    → IsServed (lazy_calls fuel parents_mask n mask cache)
unfolding lazy_calls
lazy_calls-IsServed zero parents_mask n mask cache = out_of_fuel-IsServed
lazy_calls-IsServed (suc fuel) parents_mask n mask cache =
    if-IsServed (mask == 0) _ _ (λ e. ok-IsServed (1, cache))
      (λ e. elim (Option-cases (cache_get cache mask)) [
        | inr (v, found) ↦ rw found (ok-IsServed _)
        | inl absent ↦ rw absent (
            after-IsServed _ _
              (for_nodes-IsServed (lazy_node (lazy_calls fuel parents_mask n) mask) 0
                (take n parents_mask) (0, cache)
                (λ j pmask t.
                  lazy_node-IsServed _ mask j pmask t
                    (λ m c. lazy_calls-IsServed fuel parents_mask n m c)))
              (λ (result, cache'). ok-IsServed _))
      ])

dp_ind_lazy-IsServed :
    (mask : ℕ) (parents_mask : List ℕ) (n : ℕ) (cache : List (ℕ × ℕ))
    → IsServed (dp_ind_lazy mask parents_mask n cache)
unfolding dp_ind_lazy
dp_ind_lazy-IsServed mask parents_mask n cache =
    lazy_calls-IsServed (suc mask) parents_mask n mask cache

module _ (rng : Rng) (fl : Float) (parents_mask : List ℕ) where
  open rng use {R}
  open fl use {F, of_u64}

  pick_sparse-IsServed :
      (fuel n : ℕ) (cache : List (ℕ × ℕ)) (bits remaining placed drawn cum : ℕ)
      → IsServed (pick_sparse rng fl parents_mask fuel n cache bits remaining placed drawn cum)
  unfolding pick_sparse
  pick_sparse-IsServed zero n cache bits remaining placed drawn cum = ok-IsServed _
  pick_sparse-IsServed (suc fuel) n cache bits remaining placed drawn cum =
      let bit = lowest_bit bits in
      let pmask = get_or parents_mask (trailing_zeros bit) 0 in
      if-IsServed (bits == 0) _ _ (λ e. ok-IsServed (none, cache))
        (λ e.
          if-IsServed (bit_and pmask placed == pmask) _ _
            (λ ready.
              after-IsServed _ _ (dp_ind_lazy-IsServed _ parents_mask n cache) (λ (count, cache').
                if-IsServed (ltb drawn ((cum + count) % u64_mod)) _ _ (λ f. ok-IsServed _)
                  (λ f. pick_sparse-IsServed fuel n cache' _ remaining placed drawn _)))
            (λ blocked. pick_sparse-IsServed fuel n cache _ remaining placed drawn cum))

  sparse_rounds-IsServed :
      (k : ℕ) (r : R) (n : ℕ) (cache : List (ℕ × ℕ)) (full placed : ℕ) (ordering : List ℕ)
      → IsServed (sparse_rounds rng fl parents_mask k r n cache full placed ordering)
  unfolding sparse_rounds
  sparse_rounds-IsServed zero r n cache full placed ordering = ok-IsServed _
  sparse_rounds-IsServed (suc k) r n cache full placed ordering =
      after-IsServed _ _ (dp_ind_lazy-IsServed _ parents_mask n cache) (λ (total, cache').
        after-IsServed _ _ (pick_sparse-IsServed 64 n cache' _ _ placed _ 0) (λ (picked, cache'').
          elim (Option-cases picked) [
            | inl none_left ↦
                rw none_left (sparse_rounds-IsServed k _ n cache'' full placed ordering)
            | inr (i, found) ↦ rw found (sparse_rounds-IsServed k _ n cache'' full _ _)
          ]))

  sample_uniform_sparse_into-IsServed :
      (r : R) (n : ℕ) (cache : List (ℕ × ℕ))
      → IsServed (sample_uniform_sparse_into rng fl parents_mask r n cache)
  unfolding sample_uniform_sparse_into
  sample_uniform_sparse_into-IsServed r n cache = sparse_rounds-IsServed n r n cache _ 0 []

module _ (fl : Float) (value_fn : List ℕ → Result (Float.F fl))
    (quiet : (c : List ℕ) → IsServed (value_fn c)) where
  open fl use {F, sub}

  ask_cached-IsServed :
      (mask : ℕ) (cache : List (ℕ × F)) → IsServed (ask_cached fl value_fn mask cache)
  unfolding value_cached
  ask_cached-IsServed mask cache = elim (Option-cases (cache_get cache mask)) [
    | inl absent ↦
        rw (ask_cached, value_cached, absent)
          (after-IsServed _ _ (quiet (mask_to_coalition mask)) (λ v. ok-IsServed _))
    | inr (v, found) ↦ rw (ask_cached, value_cached, found) (ok-IsServed _)
  ]

  walk-IsServed :
      {E : Type 0} (tally : ℕ → F → E → E) (mask : ℕ) (prev : F) (ordering : List ℕ) (e : E)
      (cache : List (ℕ × F))
      → IsServed (walk fl with_bit (ask_cached fl value_fn) tally mask prev ordering e cache)
  unfolding walk
  walk-IsServed tally mask prev [] e cache = ok-IsServed _
  walk-IsServed tally mask prev (node ∷ rest) e cache =
      after-IsServed _ _ (ask_cached-IsServed (with_bit mask node) cache) (λ (v, cache').
        walk-IsServed tally (with_bit mask node) v rest (tally node (sub v prev) e) cache')

  add_moments-IsServed :
      (w : F) (ordering : List ℕ) (e : Moments fl) (cache : List (ℕ × F))
      → IsServed (add_moments fl value_fn w ordering e cache)
  unfolding add_moments add_cached add_sample
  add_moments-IsServed w ordering e cache =
      after-IsServed _ _ (ask_cached-IsServed 0 cache)
        (λ (v, cache'). walk-IsServed (tally_moments fl) 0 v ordering e cache')

  module _ (rng : Rng) (make_rng : Option ℕ → Rng.R rng) (parents_mask : List ℕ) where
    open rng use {R}

    sparse_samples-IsServed :
        (message : ℕ → Message) (limit k : ℕ) (r : R) (counts : List (ℕ × ℕ)) (cache : List (ℕ × F))
        (s : Moments fl)
        → IsServed (
            sparse_samples fl rng make_rng parents_mask
              (add_moments fl value_fn)
              message
              limit
              k
              r
              counts
              cache
              s)
    unfolding sparse_samples
    sparse_samples-IsServed message limit zero r counts cache s = ok-IsServed _
    sparse_samples-IsServed message limit (suc k) r counts cache s =
        after-IsServed _ _ (sample_uniform_sparse_into-IsServed rng fl parents_mask r _ counts)
          (λ (r', counts', ordering).
            after-IsServed _ _ (guard-IsServed (ltb limit (length counts' * 80)) _) (λ u.
              after-IsServed _ _ (add_moments-IsServed _ ordering s cache)
                (λ (s', cache'). sparse_samples-IsServed message limit k r' counts' cache' s')))
      where
        guard-IsServed : (test : Bool) (m : Message) → IsServed (fail_if test (overflow m))
        guard-IsServed true m msg h = cc
        guard-IsServed false m msg h = cc

    stable_rounds-IsServed :
        (limit : ℕ) (config : AdaptiveSamplingConfig fl) (fuel : ℕ) (r : R) (counts : List (ℕ × ℕ))
        (cache : List (ℕ × F)) (p : UniformProgress fl)
        → IsServed (
            stable_rounds fl rng make_rng parents_mask
              (sparse_samples fl rng make_rng parents_mask
                (add_moments fl value_fn)
                (adaptive_message fl limit)
                limit)
              config
              fuel
              r
              counts
              cache
              p)
    unfolding stable_rounds
    stable_rounds-IsServed limit config zero r counts cache p =
        if-IsServed (ltb p.total_samples config.max_samples) _ _ (λ e. out_of_fuel-IsServed)
          (λ e. ok-IsServed _)
    stable_rounds-IsServed limit config (suc fuel) r counts cache p =
        if-IsServed (ltb p.total_samples config.max_samples) _ _
          (λ e.
            after-IsServed _ _ (sparse_samples-IsServed _ limit _ r counts cache _)
              (λ (r', counts', cache', s).
                let total =
                  p.total_samples
                  + minimum config.batch_size (config.max_samples - p.total_samples) in
                let checked = check_stable fl config (length parents_mask) s total p.prev_values in
                let p' : UniformProgress fl = record {
                  moments = s;
                  total_samples = total;
                  prev_values = checked.1;
                } in
                if-IsServed checked.0 _ _ (λ stop. ok-IsServed (p', true))
                  (λ go_on. stable_rounds-IsServed limit config fuel r' counts' cache' p')))
          (λ e. ok-IsServed _)

    pub approximate_asv_uniform_sparse_adaptive-IsServed :
        (config : AdaptiveSamplingConfig fl) (limit : ℕ)
        → check_adaptive fl config ≡ ok tt
        → IsServed (
            approximate_asv_uniform_sparse_adaptive fl rng make_rng parents_mask value_fn config
              limit)
    unfolding approximate_asv_uniform_sparse_adaptive run_stable
    approximate_asv_uniform_sparse_adaptive-IsServed config limit pass = rw pass (
        after-IsServed _ _ (stable_rounds-IsServed limit config _ _ [] [] _)
          (λ (p, converged). ok-IsServed _))
