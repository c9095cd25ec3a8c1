-- ===== src/Approx/Masks.antt =====
-- Coalitions as masks in the estimators of src/approx.rs, for at most 64 nodes: the values through
-- the cache, or by one call of the batch value function.
use causasv.Prelude.{
  ℕ, zero, suc, Bool, false, not, ◌||◌, List, [], ◌∷◌, ◌++◌, map, length, leb, ◌==◌, if◌then◌else◌,
}
use causasv.Error.{Result, ok, ◌>>=◌, ◌>>◌, unwrap, validate_batch_result_len}
use causasv.Bits.{shl1}
use causasv.Cache.{cache_get, value_cached}
use causasv.Numerics.{Float}
use causasv.Approx.{SampledOrdering, Evaluator, add_sample, walk, each}
use Prim.Native.Nat.{bit_and, bit_or}

-- `sort_unstable`: equal masks cannot be told apart.
abbrev pub sorted_insert : ℕ → List ℕ → List ℕ
sorted_insert x [] = x ∷ []
sorted_insert x (y ∷ ys) = if leb x y then x ∷ y ∷ ys else y ∷ sorted_insert x ys

abbrev pub sort : List ℕ → List ℕ
sort [] = []
sort (x ∷ xs) = sorted_insert x (sort xs)

-- `dedup` removes an entry that is equal to the one before it.
abbrev pub dedup_after : ℕ → List ℕ → List ℕ
dedup_after x [] = []
dedup_after x (y ∷ ys) = if y == x then dedup_after x ys else y ∷ dedup_after y ys

abbrev pub dedup : List ℕ → List ℕ
dedup [] = []
dedup (x ∷ xs) = x ∷ dedup_after x xs

-- The masks of the prefixes of an ordering, from `mask` on.
abbrev pub prefix_masks : ℕ → List ℕ → List ℕ
prefix_masks mask [] = mask ∷ []
prefix_masks mask (node ∷ rest) = mask ∷ prefix_masks (bit_or mask (shl1 node)) rest

-- The members of a mask among the nodes `from..from + k`.
abbrev pub mask_members : ℕ → ℕ → ℕ → List ℕ
mask_members from zero mask = []
mask_members from (suc k) mask =
    if not (bit_and mask (shl1 from) == 0)
    then from ∷ mask_members (suc from) k mask
    else mask_members (suc from) k mask

-- `mask | (1 << node)`
abbrev pub with_bit : ℕ → ℕ → ℕ
with_bit mask node = bit_or mask (shl1 node)

module _ (fl : Float) where
  open fl use {F}

  abbrev pub ask_cached : (List ℕ → Result F) → ℕ → List (ℕ × F) → Result (F × List (ℕ × F))
  ask_cached value_fn mask cache = value_cached value_fn cache mask

  -- The value of a mask that stands in the cache.
  abbrev pub ask_stored : ℕ → List (ℕ × F) → Result (F × List (ℕ × F))
  ask_stored mask cache = do value ← unwrap (cache_get cache mask); ok (value, cache)

  -- The masks that the samples of a batch need and the cache does not hold.
  abbrev pub all_masks : List (SampledOrdering fl) → List ℕ
  all_masks [] = []
  all_masks (s ∷ samples) = prefix_masks 0 s.ordering ++ all_masks samples

  abbrev pub contains_key : List (ℕ × F) → ℕ → Bool
  contains_key [] m = false
  contains_key ((j, v) ∷ cache) m = j == m || contains_key cache m

  abbrev pub missing : List (ℕ × F) → List ℕ → List ℕ
  missing cache [] = []
  missing cache (m ∷ masks) =
      if not (contains_key cache m) then m ∷ missing cache masks else missing cache masks

  abbrev pub store_all : List ℕ → List F → List (ℕ × F) → List (ℕ × F)
  store_all [] values cache = cache
  store_all (m ∷ masks) [] cache = cache
  store_all (m ∷ masks) (v ∷ values) cache = store_all masks values ((m, v) ∷ cache)

  -- One call of the batch value function for all that is missing.
  unfoldable pub fetch_batch :
      (List (List ℕ) → Result (List F))
      → ℕ
      → List (SampledOrdering fl)
      → List (ℕ × F)
      → Result (List (ℕ × F))
  fetch_batch value_fn_batch n samples cache =
      let uncached = missing cache (dedup (sort (all_masks samples))) in
      if length uncached == 0 then ok cache else (do
        values ← value_fn_batch (map (mask_members 0 n) uncached)
        validate_batch_result_len (length uncached) (length values)
        ok (store_all uncached values cache))

  module _ {E : Type 0} (weigh : F → E → E) (tally : F → ℕ → F → E → E) where
    unfoldable pub add_cached : (List ℕ → Result F) → Evaluator fl E (List (ℕ × F))
    unfolding add_sample walk
    add_cached value_fn = add_sample fl with_bit (ask_cached value_fn) 0 weigh tally

    unfoldable pub add_stored : Evaluator fl E (List (ℕ × F))
    unfolding add_sample walk
    add_stored = add_sample fl with_bit ask_stored 0 weigh tally

    -- What a batched estimator does with the samples of a round.
    unfoldable pub evaluate_batch :
        (List (List ℕ) → Result (List F))
        → ℕ
        → F
        → List (SampledOrdering fl)
        → E
        → List (ℕ × F)
        → Result (E × List (ℕ × F))
    evaluate_batch value_fn_batch n top samples e cache = do
      cache' ← fetch_batch value_fn_batch n samples cache
      each fl add_stored top samples e cache'
