-- ===== src/Approx/Workers.antt =====
-- The workers of a seeded parallel run (src/approx.rs, src/approx_large.rs) share out the samples.
use causasv.Prelude.{
  ℕ, zero, suc, ◌+◌, ◌-◌, ◌*◌, ◌/◌, ◌%◌, ◌<◌, ◌≤◌, ◌≡◌, refl, ◌∙◌, ap, arith, List, [], ◌∷◌,
  u64_mod, as_u64_small,
}
use native.Mathlib.Nat.{
  mul-div_cancel, div-le_self, mul-le-mul_left, lt-mul-div-succ, div-lt_iff_lt-mul, mul-zero,
  mul_comm, zero-div,
}
use causasv.Approx.{tabulate}
use causasv.Approx.Fixed.{worker, busy, workers_of}

abbrev pub total_count : List (ℕ × ℕ) → ℕ
total_count [] = 0
total_count ((count, seed) ∷ workers) = count + total_count workers

total_count-busy : (workers : List (ℕ × ℕ)) → total_count (busy workers) ≡ total_count workers
total_count-busy [] = refl
total_count-busy ((count, seed) ∷ workers) = ground (arith, total_count-busy workers)

div_mono : (a b t : ℕ) → 0 < t → a ≤ b → a / t ≤ b / t
div_mono a b t pos le =
    let above : b < t * (b / t + 1) = lt-mul-div-succ b pos in
    let swap : t * (b / t + 1) ≡ (b / t + 1) * t = mul_comm t (b / t + 1) in
    let below : a / t < b / t + 1 = (div-lt_iff_lt-mul pos).1 (omega (arith, swap)) in omega arith

between : (x y : ℕ) → x ≤ y → y < u64_mod → (y + u64_mod - x) % u64_mod + x ≡ y
between x y le lt = omega arith

module _ (n_samples num_threads global_seed : ℕ) (pos : 0 < num_threads)
    (fits : n_samples * num_threads < u64_mod) where
  edge_le : (k : ℕ) → k ≤ num_threads → n_samples * k ≤ n_samples * num_threads
  edge_le k le = mul-le-mul_left n_samples le

  worker-count :
      (k : ℕ)
      → k < num_threads
      → (worker n_samples num_threads global_seed k).0 + n_samples * k / num_threads
        ≡ n_samples * (k + 1) / num_threads
  worker-count k lt =
      let first = n_samples * k in
      let last = n_samples * (k + 1) in
      let a_fits : first < u64_mod = omega (arith, edge_le k (omega arith)) in
      let b_fits : last < u64_mod = omega (arith, edge_le (k + 1) (omega arith)) in
      let up : first ≤ last = mul-le-mul_left n_samples (omega arith) in
      let ordered : first / num_threads ≤ last / num_threads =
        div_mono first last num_threads pos up in
      let small : last / num_threads ≤ last = div-le_self last num_threads in
      rw (as_u64_small first a_fits, as_u64_small last b_fits)
        (between (first / num_threads) (last / num_threads) ordered (omega arith))

  total_count-tabulate :
      (from k : ℕ)
      → from + k ≤ num_threads
      → total_count (tabulate (worker n_samples num_threads global_seed) from k)
          + n_samples * from / num_threads
        ≡ n_samples * (from + k) / num_threads
  total_count-tabulate from zero le = let e : from + 0 ≡ from = omega arith in rw e (omega arith)
  total_count-tabulate from (suc k) le =
      let e : from + suc k ≡ suc from + k = omega arith in
      let f : suc from ≡ from + 1 = omega arith in
      let step = worker-count from (omega arith) in
      let rest = total_count-tabulate (suc from) k (omega arith) in
      rw e (omega (arith, step, rest, ap (λ x. n_samples * x / num_threads) f))

  -- With at least one thread, and a number of samples times threads below 2 ^ 64, the samples of
  -- the workers of a seeded parallel run add up to the number of samples.
  pub total_count-workers_of :
      total_count (workers_of n_samples num_threads global_seed) ≡ n_samples
  unfolding workers_of
  total_count-workers_of =
      let whole = total_count-tabulate 0 num_threads (omega arith) in
      let e : 0 + num_threads ≡ num_threads = omega arith in
      let all : n_samples * (0 + num_threads) / num_threads ≡ n_samples =
        ap (λ k. n_samples * k / num_threads) e ∙ mul-div_cancel n_samples pos in
      let zero_first : n_samples * 0 / num_threads ≡ 0 = simp (mul-zero, zero-div) in
      omega (
        arith,
        whole,
        all,
        zero_first,
        total_count-busy (tabulate (worker n_samples num_threads global_seed) 0 num_threads),
      )
