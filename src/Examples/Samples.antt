-- ===== src/Examples/Samples.antt =====
-- The theorems on the samplers, applied to a sample graph.
use causasv.Prelude.{
  ℕ, ◌+◌, ◌-◌, ◌*◌, ◌^◌, ◌<◌, ◌≡◌, refl, arith, false, length, List, [], ◌∷◌, get_or, zero, suc,
  ltb, if◌then◌else◌,
}
use causasv.Prelude.Totals.{total}
use causasv.Error.{Result, ok}
use causasv.Numerics.{Float}
use causasv.Topo.Spec.{IsTopoOrder}
use causasv.Graph.{in_degrees}
use causasv.DagDp.Counting.{linear_extensions}
use causasv.DagDp.{compute_dp_ind}
use causasv.Asv.ParentsMask.{parents_masks}
use causasv.Sampler.{
  Rng, SamplerScratch, sample_one_into, sample_uniform_into, sample_uniform_sparse_into, pick,
}
use causasv.Sampler.Frontier.{sample_one_into_exact}
use causasv.DagDpSparse.Memo.{IsMemo}
use causasv.Sampler.Uniform.{IsTable, pick_uniform, compute_dp_ind-IsTable}
use causasv.Sampler.Choose.{hits}
use causasv.Sampler.Walk.{sample_uniform_into_exact}
use causasv.Sampler.Sparse.{sparse_into-uniform_into}
use causasv.Examples.{sample, sample-IsWellFormed, sample-validate}

-- A generator that always draws the last number.
abbrev pub last_rng : Rng
last_rng = record {
  R = ℕ;
  random_range = λ r k. (k - 1, r + 1);
  random_range-lt = λ r k pos. omega arith;
}

-- Numbers in place of floating-point numbers.
abbrev pub naturals : Float
naturals = record {
  F = ℕ;
  add = λ x y. x + y;
  sub = λ x y. x - y;
  mul = λ x y. x * y;
  div = λ x y. x;
  ln = λ x. 0;
  exp = λ x. 1;
  of_u64 = λ x. x;
  neg = λ x. 0;
  abs = λ x. x;
  sqrt = λ x. x;
  max = λ x y. if ltb x y then y else x;
  lt = ltb;
  infinity = 0;
  nan = 0;
  is_nan = λ x. false;
}

sample_one_into_exact_example :
    (log_q : ℕ) × (r : ℕ) × (scratch : SamplerScratch last_rng naturals) × (sample_one_into last_rng
        naturals sample 0
        (in_degrees sample)
      ≡ ok (log_q, r, scratch))
    × IsTopoOrder sample scratch.ordering
sample_one_into_exact_example =
    sample_one_into_exact sample sample-IsWellFormed last_rng naturals sample-validate 0

-- The parents of the sample graph, and its counts.
abbrev pub sample_masks : List ℕ
sample_masks = 0 ∷ 0 ∷ 3 ∷ []

abbrev pub sample_counts : List ℕ
sample_counts = 1 ∷ 1 ∷ 1 ∷ 2 ∷ 1 ∷ 1 ∷ 1 ∷ 2 ∷ []

sample-compute_dp_ind : compute_dp_ind (parents_masks sample) 3 ≡ ok sample_counts
unfolding compute_dp_ind parents_masks
sample-compute_dp_ind = refl

pub sample-compute_masks : compute_dp_ind sample_masks 3 ≡ ok sample_counts
unfolding compute_dp_ind
sample-compute_masks = refl

sample-IsTable : IsTable sample_masks 3 (omega arith) sample_counts
sample-IsTable =
    compute_dp_ind-IsTable sample_masks 3 (omega arith) sample_counts sample-compute_masks

sample_masks-known : (v : ℕ) → v < 3 → get_or sample_masks v 0 < 2 ^ 3
sample_masks-known zero lt = omega arith
sample_masks-known (suc zero) lt = omega arith
sample_masks-known (suc (suc zero)) lt = omega arith
sample_masks-known (suc (suc (suc v))) lt = absurd (omega arith)

pick_uniform_example :
    total 2 (λ drawn. hits 1 (pick last_rng naturals sample_masks 64 sample_counts 7 7 0 drawn 0))
    ≡ linear_extensions sample_masks 5
pick_uniform_example =
    pick_uniform sample_masks 3 (omega arith) last_rng naturals sample_counts sample-IsTable 0 1
      (omega arith) sample_masks-known (omega arith)

sample_uniform_into_exact_example :
    IsTopoOrder sample
      (sample_uniform_into last_rng naturals (parents_masks sample) 0 sample_counts).1
sample_uniform_into_exact_example =
    sample_uniform_into_exact sample sample-IsWellFormed (omega arith) last_rng naturals
      sample-validate sample_counts sample-compute_dp_ind 0

-- A coalition is worth its size.
abbrev pub size_of : List ℕ → Result ℕ
size_of c = ok (length c)

sparse_into-uniform_into_example :
    let drawn = sample_uniform_into last_rng naturals sample_masks 0 sample_counts in
    (cache' : List (ℕ × ℕ)) × (sample_uniform_sparse_into last_rng naturals sample_masks 0 3 []
      ≡ ok (drawn.0, cache', drawn.1))
    × IsMemo sample_masks cache'
sparse_into-uniform_into_example =
    sparse_into-uniform_into sample_masks (omega arith) last_rng naturals sample_counts
      sample-IsTable 0 [] (λ m v h. cc)
