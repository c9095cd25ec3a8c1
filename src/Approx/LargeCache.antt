-- ===== src/Approx/LargeCache.antt =====
-- The bounded cache of src/approx_large.rs, whose keys are the words of coalitions, and the calls of
-- the batch value function for what it misses.
use causasv.Prelude.{
  ℕ, zero, suc, Bool, true, false, Option, none, some, List, [], ◌∷◌, map, length, take, ltb, ◌==◌,
  ◌&&◌, if◌then◌else◌,
}
use causasv.Error.{Result, ok, out_of_fuel, ◌>>=◌, ◌>>◌, validate_batch_result_len}
use causasv.Coalition.{LargeCoalition, to_sorted_nodes, words_to_sorted_nodes, snapshot_key}

-- Equality and lexicographic order of keys.
abbrev pub words_eq : List ℕ → List ℕ → Bool
words_eq [] [] = true
words_eq [] (y ∷ ys) = false
words_eq (x ∷ xs) [] = false
words_eq (x ∷ xs) (y ∷ ys) = x == y && words_eq xs ys

abbrev pub words_le : List ℕ → List ℕ → Bool
words_le [] ys = true
words_le (x ∷ xs) [] = false
words_le (x ∷ xs) (y ∷ ys) = if ltb x y then true else x == y && words_le xs ys

-- `sort_unstable`: equal keys cannot be told apart.
abbrev pub key_insert : List ℕ → List (List ℕ) → List (List ℕ)
key_insert k [] = k ∷ []
key_insert k (j ∷ keys) = if words_le k j then k ∷ j ∷ keys else j ∷ key_insert k keys

abbrev pub sort_keys : List (List ℕ) → List (List ℕ)
sort_keys [] = []
sort_keys (k ∷ keys) = key_insert k (sort_keys keys)

-- `dedup` removes a key that is equal to the one before it.
abbrev pub dedup_keys_after : List ℕ → List (List ℕ) → List (List ℕ)
dedup_keys_after k [] = []
dedup_keys_after k (j ∷ keys) =
    if words_eq j k then dedup_keys_after k keys else j ∷ dedup_keys_after j keys

abbrev pub dedup_keys : List (List ℕ) → List (List ℕ)
dedup_keys [] = []
dedup_keys (k ∷ keys) = k ∷ dedup_keys_after k keys

abbrev pub drop {ℓ} : {A : Type ℓ} → ℕ → List A → List A
drop zero xs = xs
drop (suc n) [] = []
drop (suc n) (x ∷ xs) = drop n xs

pub record LargeCoalitionCache (V : Type 0) : Type 0 where
  pub values : List (List ℕ × V)
  pub max_entries : ℕ

-- `HashMap<Box<[u64]>, f64>` as a list with one entry for each key.
module _ {V : Type 0} where
  abbrev pub key_get : List (List ℕ × V) → List ℕ → Option V
  key_get [] words = none
  key_get ((key, v) ∷ values) words = if words_eq key words then some v else key_get values words

  abbrev pub key_put : List ℕ → V → List (List ℕ × V) → List (List ℕ × V)
  key_put key v [] = (key, v) ∷ []
  key_put key v ((j, w) ∷ values) =
      if words_eq j key then (key, v) ∷ values else (j, w) ∷ key_put key v values

  abbrev pub new_cache : ℕ → LargeCoalitionCache V
  new_cache max_entries = record { values = []; max_entries = max_entries }

  abbrev pub large_get : LargeCoalitionCache V → List ℕ → Option V
  large_get self words = key_get self.values words

  unfoldable pub large_insert : List ℕ → V → LargeCoalitionCache V → LargeCoalitionCache V
  large_insert key value self =
      if ltb (length self.values) self.max_entries
      then record self { values = key_put key value self.values }
      else self

  unfoldable pub value_cached_large :
      (List ℕ → Result V)
      → LargeCoalition
      → LargeCoalitionCache V
      → Result (V × LargeCoalitionCache V)
  value_cached_large value_fn coalition cache = elim (large_get cache coalition.words) [
    | some v ↦ ok (v, cache)
    | none ↦ do
      v ← value_fn (to_sorted_nodes coalition)
      ok (v, large_insert (snapshot_key coalition) v cache)
  ]

  -- The keys that the cache has, with their values, and those that it misses.
  abbrev pub hits_of : LargeCoalitionCache V → List (List ℕ) → List (List ℕ × V) → List (List ℕ × V)
  hits_of cache [] value_cache = value_cache
  hits_of cache (key ∷ keys) value_cache = elim (large_get cache key) [
    | some v ↦ hits_of cache keys (key_put key v value_cache)
    | none ↦ hits_of cache keys value_cache
  ]

  abbrev pub misses_of : LargeCoalitionCache V → List (List ℕ) → List (List ℕ)
  misses_of cache [] = []
  misses_of cache (key ∷ keys) = elim (large_get cache key) [
    | some v ↦ misses_of cache keys
    | none ↦ key ∷ misses_of cache keys
  ]

  -- The values of one chunk go to both maps.
  abbrev pub store_chunk :
      List (List ℕ)
      → List V
      → List (List ℕ × V)
      → LargeCoalitionCache V
      → List (List ℕ × V) × LargeCoalitionCache V
  store_chunk [] values value_cache cache = (value_cache, cache)
  store_chunk (key ∷ keys) [] value_cache cache = (value_cache, cache)
  store_chunk (key ∷ keys) (v ∷ values) value_cache cache =
      store_chunk keys values (key_put key v value_cache) (large_insert key v cache)

  -- `for chunk in misses.chunks(size)`. Every chunk has at least one key, so as many rounds as keys
  -- are enough.
  unfoldable pub resolve_chunks :
      (List (List ℕ) → Result (List V))
      → ℕ
      → ℕ
      → List (List ℕ)
      → List (List ℕ × V)
      → LargeCoalitionCache V
      → Result (List (List ℕ × V) × LargeCoalitionCache V)
  resolve_chunks value_fn_batch size fuel [] value_cache cache = ok (value_cache, cache)
  resolve_chunks value_fn_batch size zero (key ∷ keys) value_cache cache = out_of_fuel
  resolve_chunks value_fn_batch size (suc fuel) (key ∷ keys) value_cache cache = do
    let chunk = take size (key ∷ keys)
    values ← value_fn_batch (map words_to_sorted_nodes chunk)
    validate_batch_result_len (length chunk) (length values)
    let (value_cache', cache') = store_chunk chunk values value_cache cache
    resolve_chunks value_fn_batch size fuel (drop size (key ∷ keys)) value_cache' cache'
