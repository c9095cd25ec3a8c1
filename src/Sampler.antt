-- ===== src/Sampler.antt =====
-- The samplers of topological orders (src/sampler.rs).
-- The random number generator is the `rand` package: a parameter.
pub mod Frontier
pub mod Choose
pub mod Uniform
pub mod Walk
pub mod Sparse
use Prim.Native.Nat.{bit_and, bit_or, bit_xor}
use causasv.Prelude.{
  ℕ, zero, suc, ◌+◌, ◌-◌, ◌*◌, ◌/◌, ◌%◌, ◌^◌, ◌<◌, Bool, false, Option, none, some, List, [], ◌∷◌,
  ◌++◌, get_or, set, length, ltb, ◌==◌, if◌then◌else◌, as_u32, u64_mod,
}
use causasv.Error.{Result, ok, panicked, ◌>>=◌}
use causasv.Bits.{shl1, lowest_bit, trailing_zeros}
use causasv.Numerics.{Float}
use causasv.Topo.{pop}
use causasv.Graph.Index.{NameIndex}
use causasv.Graph.{Dag, node_count, children_raw, release, push_back}
use causasv.DagDpSparse.{dp_ind_lazy}

pub record SamplingConfig : Type 0 where
  pub n_samples : ℕ
  pub seed : Option ℕ
  pub batch_size : Option ℕ
  pub parallel : Bool
  pub num_threads : Option ℕ

abbrev pub new_config : ℕ → SamplingConfig
new_config n_samples = record {
  n_samples = n_samples;
  seed = none;
  batch_size = none;
  parallel = false;
  num_threads = none;
}

abbrev pub with_seed : SamplingConfig → ℕ → SamplingConfig
with_seed self seed = record self { seed = some seed }

abbrev pub with_batch_size : SamplingConfig → ℕ → SamplingConfig
with_batch_size self batch_size = record self { batch_size = some batch_size }

abbrev pub with_parallel : SamplingConfig → Bool → SamplingConfig
with_parallel self parallel = record self { parallel = parallel }

abbrev pub with_num_threads : SamplingConfig → ℕ → SamplingConfig
with_num_threads self num_threads = record self { num_threads = some num_threads }

-- `x ^ (x >> k)`
abbrev pub xor_shift : ℕ → ℕ → ℕ
xor_shift x k = bit_xor x (x / 2 ^ k)

unfoldable pub worker_seed : ℕ → ℕ → ℕ
worker_seed global k =
    let x₀ = (global + k) % u64_mod * 0x9e3779b97f4a7c15 % u64_mod in
    let x₁ = xor_shift x₀ 30 * 0xbf58476d1ce4e5b9 % u64_mod in
    let x₂ = xor_shift x₁ 27 * 0x94d049bb133111eb % u64_mod in xor_shift x₂ 31

-- A generator: a number below a positive bound, and the generator after the draw.
pub record Rng : Type 1 where
  pub R : Type 0
  pub random_range : R → ℕ → ℕ × R
  pub random_range-lt : (r : R) (k : ℕ) → 0 < k → (random_range r k).0 < k

-- `swap_remove`: the last entry takes the place of the one taken out.
abbrev pub swap_remove : List ℕ → ℕ → List ℕ
swap_remove xs idx = pop (set xs idx (get_or xs (length xs - 1) 0))

-- The positions of the zeros, from position `i` on.
abbrev pub zeros_from : ℕ → List ℕ → List ℕ
zeros_from i [] = []
zeros_from i (d ∷ ds) = if d == 0 then i ∷ zeros_from (suc i) ds else zeros_from (suc i) ds

module _ (rng : Rng) (fl : Float) where
  open rng use {R, random_range}
  open fl use {F, sub, ln, of_u64}

  pub record SamplerScratch : Type 0 where
    pub in_deg : List ℕ
    pub frontier : List ℕ
    pub ordering : List ℕ

  -- One draw from `0..k`; an empty range panics.
  abbrev pub draw : R → ℕ → Result (ℕ × R)
  draw r k = if k == 0 then panicked else ok (random_range r k)

  module _ {im : NameIndex} (d : Dag im) where
    unfoldable pub sample_rounds : ℕ → R → SamplerScratch → F → Result (F × R × SamplerScratch)
    sample_rounds zero r scratch log_q = ok (log_q, r, scratch)
    sample_rounds (suc k) r scratch log_q = do
      let size = length scratch.frontier
      (idx, r') ← draw r size
      let node = as_u32 (get_or scratch.frontier idx 0)
      let (in_deg', frontier') =
          release push_back (children_raw d node) scratch.in_deg (swap_remove scratch.frontier idx)
      sample_rounds k r'
          (record {
            in_deg = in_deg';
            frontier = frontier';
            ordering = scratch.ordering ++ node ∷ [];
          })
          (sub log_q (ln (of_u64 size)))

    -- `log_q`, the generator and the scratch after the call
    unfoldable pub sample_one_into : R → List ℕ → Result (F × R × SamplerScratch)
    unfolding sample_rounds
    sample_one_into r base_in_deg =
        sample_rounds (node_count d) r
          (record { in_deg = base_in_deg; frontier = zeros_from 0 base_in_deg; ordering = [] })
          (of_u64 0)

  module _ (parents_mask : List ℕ) where
    -- The inner loop: the node at which `cum` passes the draw, if there is one.
    unfoldable pub pick : ℕ → List ℕ → ℕ → ℕ → ℕ → ℕ → ℕ → Option ℕ
    pick zero dp_ind bits remaining placed drawn cum = none
    pick (suc fuel) dp_ind bits remaining placed drawn cum =
        let bit = lowest_bit bits in
        let i = trailing_zeros bit in
        let rest = bit_xor bits bit in
        let pmask = get_or parents_mask i 0 in
        let cum' = (cum + get_or dp_ind (bit_xor remaining bit) 0) % u64_mod in
        let skip = pick fuel dp_ind rest remaining placed drawn cum in
        let go_on = pick fuel dp_ind rest remaining placed drawn cum' in
        if bits == 0
        then none
        else if bit_and pmask placed == pmask
        then (if ltb drawn cum' then some i else go_on)
        else skip

    unfoldable pub uniform_rounds : ℕ → R → List ℕ → ℕ → ℕ → List ℕ → R × List ℕ
    uniform_rounds zero r dp_ind full placed ordering = (r, ordering)
    uniform_rounds (suc k) r dp_ind full placed ordering =
        let remaining = bit_xor full placed in
        let total = get_or dp_ind remaining 0 in
        let (drawn, r') = if ltb 1 total then random_range r total else (0, r) in
        elim (pick 64 dp_ind remaining remaining placed drawn 0) [
          | none ↦ uniform_rounds k r' dp_ind full placed ordering
          | some i ↦
              uniform_rounds k r' dp_ind full (bit_or placed (shl1 i)) (ordering ++ as_u32 i ∷ [])
        ]

    unfoldable pub sample_uniform_into : R → List ℕ → R × List ℕ
    sample_uniform_into r dp_ind =
        uniform_rounds (length parents_mask) r dp_ind (shl1 (length parents_mask) - 1) 0 []

    -- The inner loop, with the counts from `dp_ind_lazy`; the state is the cache.
    unfoldable pub pick_sparse :
        ℕ → ℕ → List (ℕ × ℕ) → ℕ → ℕ → ℕ → ℕ → ℕ → Result (Option ℕ × List (ℕ × ℕ))
    pick_sparse zero n cache bits remaining placed drawn cum = ok (none, cache)
    pick_sparse (suc fuel) n cache bits remaining placed drawn cum =
        let bit = lowest_bit bits in
        let i = trailing_zeros bit in
        let rest = bit_xor bits bit in
        let pmask = get_or parents_mask i 0 in
        let skip = pick_sparse fuel n cache rest remaining placed drawn cum in
        let counted = (do
          (sub_count, cache') ← dp_ind_lazy (bit_xor remaining bit) parents_mask n cache
          let cum' = (cum + sub_count) % u64_mod
          let go_on = pick_sparse fuel n cache' rest remaining placed drawn cum'
          if ltb drawn cum' then ok (some i, cache') else go_on) in
        if bits == 0
        then ok (none, cache)
        else if bit_and pmask placed == pmask
        then counted
        else skip

    unfoldable pub sparse_rounds :
        ℕ → R → ℕ → List (ℕ × ℕ) → ℕ → ℕ → List ℕ → Result (R × List (ℕ × ℕ) × List ℕ)
    sparse_rounds zero r n cache full placed ordering = ok (r, cache, ordering)
    sparse_rounds (suc k) r n cache full placed ordering = do
      let remaining = bit_xor full placed
      (total, cache') ← dp_ind_lazy remaining parents_mask n cache
      let (drawn, r') = if ltb 1 total then random_range r total else (0, r)
      (picked, cache'') ← pick_sparse 64 n cache' remaining remaining placed drawn 0
      elim picked [
        | none ↦ sparse_rounds k r' n cache'' full placed ordering
        | some i ↦
            sparse_rounds k r' n cache'' full (bit_or placed (shl1 i)) (ordering ++ as_u32 i ∷ [])
      ]

    -- The generator, the cache and the ordering after the call.
    unfoldable pub sample_uniform_sparse_into :
        R → ℕ → List (ℕ × ℕ) → Result (R × List (ℕ × ℕ) × List ℕ)
    unfolding sparse_rounds
    sample_uniform_sparse_into r n dp_ind_cache = sparse_rounds n r n dp_ind_cache (shl1 n - 1) 0 []

module _ (fl : Float) where
  open fl use {F, div, of_u64}

  pub record AdaptiveSamplingConfig : Type 0 where
    pub min_samples : ℕ
    pub max_samples : ℕ
    pub batch_size : ℕ
    pub rel_tol : F
    pub ess_ratio_min : F
    pub seed : Option ℕ

  abbrev pub default_adaptive : AdaptiveSamplingConfig
  default_adaptive = record {
    min_samples = 1000;
    max_samples = 100000;
    batch_size = 1000;
    rel_tol = div (of_u64 1) (of_u64 100);
    ess_ratio_min = div (of_u64 1) (of_u64 10);
    seed = none;
  }

  abbrev pub with_adaptive_seed : AdaptiveSamplingConfig → ℕ → AdaptiveSamplingConfig
  with_adaptive_seed self seed = record self { seed = some seed }

  abbrev pub with_rel_tol : AdaptiveSamplingConfig → F → AdaptiveSamplingConfig
  with_rel_tol self tol = record self { rel_tol = tol }

  abbrev pub with_max_samples : AdaptiveSamplingConfig → ℕ → AdaptiveSamplingConfig
  with_max_samples self max_count = record self { max_samples = max_count }
