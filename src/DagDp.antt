-- ===== src/DagDp.antt =====
-- Exact values by dynamic programming over all bitmasks (src/dag_dp.rs).
pub mod Counting
pub mod Table
pub mod Orders
use Prim.Native.Nat.{bit_and, bit_or, bit_xor}
use causasv.Prelude.{
  ℕ, zero, suc, ◌+◌, ◌-◌, String, Bool, true, false, not, Option, none, some, List, [], ◌∷◌, get_or,
  set, replicate, ltb, ◌==◌, if◌then◌else◌, checked_add, usize_max, as_u32, length,
}
use causasv.Error.{
  Result, ok, err, ◌>>=◌, ◌>>◌, fail_if, overflow, invalid_config, text, num, bin, Message,
}
use causasv.Bits.{shl1, for_bits}
use causasv.Cache.{mask_to_coalition}
use causasv.Numerics.{Float}
use causasv.Outcome.{AsvResult}
use causasv.Graph.Index.{NameIndex}
use causasv.Graph.{Dag, node_count}

-- `for mask in from..from + k`
unfoldable pub for_masks {ℓ} : {S : Type ℓ} → ℕ → ℕ → (ℕ → S → Result S) → S → Result S
for_masks zero from body s = ok s
for_masks (suc k) from body s = do s' ← body from s; for_masks k (suc from) body s'

abbrev pub overflowed : String → ℕ → Message
overflowed table mask =
    text table ∷ text "[" ∷ bin mask ∷ text "] overflowed u64 — use approx for this DAG" ∷ []

-- `table[at] = table[at].checked_add(x).ok_or_else(…)?`
unfoldable pub add_at : String → ℕ → List ℕ → ℕ → ℕ → Result (List ℕ)
add_at name reported table at x = elim (checked_add (get_or table at 0) x) [
  | some sum ↦ ok (set table at sum)
  | none ↦ err (overflow (overflowed name reported))
]

-- `(!mask64) & full64`
abbrev pub complement : ℕ → ℕ → ℕ
complement full mask = bit_and (usize_max - mask) full

module _ (parents_mask : List ℕ) where
  -- The body of the loop over the bits of `mask`: a source of the induced subgraph counts.
  unfoldable pub ind_node : ℕ → ℕ → List ℕ → Result (List ℕ)
  ind_node mask i dp_ind =
      if bit_and (get_or parents_mask i 0) mask == 0
      then add_at "dp_ind" mask dp_ind mask (get_or dp_ind (bit_xor mask (shl1 i)) 0)
      else ok dp_ind

  unfoldable pub compute_dp_ind : ℕ → Result (List ℕ)
  unfolding for_masks for_bits ind_node add_at
  compute_dp_ind n =
      for_masks (shl1 n - 1) 1 (λ mask. for_bits 64 mask (ind_node mask))
        (set (replicate (shl1 n) 0) 0 1)

  -- The body of the loop over the nodes not in `mask`: one with all parents in `mask` may be next.
  unfoldable pub fwd_node : ℕ → ℕ → List ℕ → Result (List ℕ)
  fwd_node mask i dp_fwd =
      if bit_and (get_or parents_mask i 0) mask == get_or parents_mask i 0
      then add_at "dp_fwd" mask dp_fwd (bit_or mask (shl1 i)) (get_or dp_fwd mask 0)
      else ok dp_fwd

  unfoldable pub fwd_mask : ℕ → ℕ → List ℕ → Result (List ℕ)
  unfolding for_bits fwd_node add_at
  fwd_mask full mask dp_fwd =
      let visit = for_bits 64 (complement full mask) (fwd_node mask) dp_fwd in
      if get_or dp_fwd mask 0 == 0 then ok dp_fwd else visit

  unfoldable pub compute_dp_fwd : ℕ → Result (List ℕ)
  unfolding for_masks fwd_mask
  compute_dp_fwd n = for_masks (shl1 n) 0 (fwd_mask (shl1 n - 1)) (set (replicate (shl1 n) 0) 0 1)

module _ (fl : Float) where
  open fl use {F, add, sub, mul, div, of_u64, nan, is_nan}

  -- `value_cached_dense`: the value, and the cache as the call leaves it.
  unfoldable pub value_cached_dense : (List ℕ → Result F) → List F → ℕ → Result (F × List F)
  value_cached_dense value_fn cache mask =
      if not (is_nan (get_or cache mask nan))
      then ok (get_or cache mask nan, cache)
      else (do v ← value_fn (mask_to_coalition mask); ok (v, set cache mask v))

  -- The variables that the accumulation of weights mutates.
  pub record Weights : Type 0 where
    pub phi : List F
    pub cache : List F

  module _ (value_fn : List ℕ → Result F) (parents_mask : List ℕ) (full : ℕ) (dp_ind : List ℕ) where
    -- One candidate node `i` after the order ideal `mask`, whose value is `v_s`.
    unfoldable pub weigh_node : ℕ → F → F → ℕ → Weights → Result Weights
    unfolding value_cached_dense
    weigh_node mask w_prefix v_s i s =
        let pmask = get_or parents_mask i 0 in
        if not (bit_and pmask mask == pmask) then ok s else (do
          let suffix_mask = bit_xor full (bit_or mask (shl1 i))
          let w_suffix = of_u64 (get_or dp_ind suffix_mask 0)
          (v_with, cache') ← value_cached_dense value_fn s.cache (bit_or mask (shl1 i))
          ok (record {
            phi =
                set s.phi i
                  (add (get_or s.phi i (of_u64 0)) (mul (mul w_prefix w_suffix) (sub v_with v_s)));
            cache = cache';
          }))

    unfoldable pub weigh_mask : List ℕ → ℕ → Weights → Result Weights
    unfolding value_cached_dense for_bits weigh_node
    weigh_mask dp_fwd mask s =
        let fwd_count = get_or dp_fwd mask 0 in
        if fwd_count == 0 then ok s else (do
          (v_s, cache') ← value_cached_dense value_fn s.cache mask
          for_bits 64 (complement full mask) (weigh_node mask (of_u64 fwd_count) v_s)
              (record s { cache = cache' }))

  -- `(0..n).map(|i| (NodeId(i as u32), f(phi[i])))`
  abbrev pub node_values : (F → F) → ℕ → List F → List (ℕ × F)
  node_values f i [] = []
  node_values f i (x ∷ phi) = (as_u32 i, f x) ∷ node_values f (suc i) phi

  unfoldable pub dag_exact_asv :
      {im : NameIndex} → Dag im → (List ℕ → Result F) → List ℕ → Result (AsvResult F)
  unfolding for_masks compute_dp_fwd compute_dp_ind weigh_mask
  dag_exact_asv d value_fn parents_mask = do
    let n = node_count d
    fail_if (ltb 20 n)
        (invalid_config (text "exact_dag requires n ≤ 20 (2^n DP states), got " ∷ num n ∷ []))
    let total_masks = shl1 n
    let full_mask = total_masks - 1
    dp_fwd ← compute_dp_fwd parents_mask n
    dp_ind ← compute_dp_ind parents_mask n
    let total = of_u64 (get_or dp_ind full_mask 0)
    weights ←
        for_masks total_masks 0 (weigh_mask value_fn parents_mask full_mask dp_ind dp_fwd)
          (record { phi = replicate n (of_u64 0); cache = replicate total_masks nan })
    ok (record {
      values = node_values (λ x. div x total) 0 weights.phi;
      n_samples = total_masks;
      seed = none;
      is_exact = true;
      effective_sample_size = none;
      converged = none;
      stderr = none;
      n_order_ideals = none;
      state_ratio = none;
      memory_mb = none;
      fallback_from = none;
      fallback_reason = none;
      method_used = none;
    })
