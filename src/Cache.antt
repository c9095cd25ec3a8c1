-- ===== src/Cache.antt =====
-- Coalitions as `u64` masks, and the cache of the value function (src/cache.rs).
pub mod Masks
pub mod Values
use Prim.Native.Nat.{bit_and, bit_or}
use causasv.Prelude.{
  ℕ, zero, suc, ◌-◌, Option, none, some, List, [], ◌∷◌, ◌++◌, ◌==◌, if◌then◌else◌,
}
use causasv.Bits.{shl1, trailing_zeros}
use causasv.Error.{Result, ok, ◌>>=◌}

-- The `while mask != 0` loop. A `u64` has at most 64 set bits, and each round clears one.
unfoldable pub mask_loop : ℕ → ℕ → List ℕ → List ℕ
mask_loop zero mask out = out
mask_loop (suc fuel) mask out =
    let rest = mask_loop fuel (bit_and mask (mask - 1)) (out ++ trailing_zeros mask ∷ []) in
    if mask == 0 then out else rest

unfoldable pub mask_to_coalition : ℕ → List ℕ
unfolding mask_loop trailing_zeros
mask_to_coalition mask = mask_loop 64 mask []

abbrev pub or_nodes : ℕ → List ℕ → ℕ
or_nodes m [] = m
or_nodes m (n ∷ nodes) = or_nodes (bit_or m (shl1 n)) nodes

unfoldable pub vec_to_mask : List ℕ → ℕ
vec_to_mask nodes = or_nodes 0 nodes

-- `HashMap<u64, f64>` as an association list, latest entry first.
module _ {V : Type 0} where
  abbrev pub cache_get : List (ℕ × V) → ℕ → Option V
  cache_get [] mask = none
  cache_get ((m, v) ∷ cache) mask = if m == mask then some v else cache_get cache mask

  -- The result, and the cache as the call leaves it. An error of the value function is passed on.
  unfoldable pub value_cached : (List ℕ → Result V) → List (ℕ × V) → ℕ → Result (V × List (ℕ × V))
  value_cached value_fn cache mask = elim (cache_get cache mask) [
    | some v ↦ ok (v, cache)
    | none ↦ do v ← value_fn (mask_to_coalition mask); ok (v, (mask, v) ∷ cache)
  ]
