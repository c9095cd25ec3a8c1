-- ===== src/Approx/LargeValues.antt =====
-- The bounded cache of src/approx_large.rs has right values and keeps its bound, and the batch calls
-- get every value that the samples need, in calls of bounded size.
use causasv.Prelude.{
  ℕ, zero, suc, ◌≤◌, ◌≡◌, ◌⊎◌, refl, sym, ◌∙◌, ap, arith, true, Option, some, List, [], ◌∷◌, map,
  length, take, ltb, ◌==◌, Bool-cases, Option-cases, inl, inr, length-map,
}
use causasv.Error.{Result, ok, validate_batch_result_len}
use causasv.Coalition.{LargeCoalition, to_sorted_nodes, words_to_sorted_nodes}
use causasv.Approx.LargeCache.{
  LargeCoalitionCache, large_get, large_insert, value_cached_large, words_eq, key_get, key_put,
  hits_of, misses_of, store_chunk, resolve_chunks, drop,
}
use causasv.Approx.Keys.{
  eq_of_words_eq, has_key, has_key-take-drop, length-drop, length-take-le, key_get-key_put,
  length-key_put,
}

module _ {V : Type 0} (v : List ℕ → V) where
  abbrev pub key_value : List ℕ → V
  key_value words = v (words_to_sorted_nodes words)

  -- The map has the value of this key.
  abbrev pub Knows : List (List ℕ × V) → List ℕ → Type 0
  Knows values words = key_get values words ≡ some (key_value words)

  some_inj : {a b : V} → ◌≡◌ {A = Option V} (some a) (some b) → a ≡ b
  some_inj h = cc

  pub key_put-Knows :
      (key words : List ℕ) (values : List (List ℕ × V))
      → Knows values words ⊎ (words_eq key words ≡ true)
      → Knows (key_put key (key_value key) values) words
  key_put-Knows key words values h = elim (Bool-cases (words_eq key words)) [
    | inl e ↦
        key_get-key_put key words (key_value key) values
        ∙ rw e (ap (λ k. some (key_value k)) (eq_of_words_eq key words e))
    | inr e ↦ elim h [
      | inl known ↦ key_get-key_put key words (key_value key) values ∙ rw e known
      | inr same ↦ cc
    ]
  ]

  module _ (most : ℕ) where
    -- Every entry is the value of its key, and there are no more entries than `most`.
    pub record IsSound (cache : LargeCoalitionCache V) : Type 0 where
      pub right :
          (words : List ℕ) (w : V) → key_get cache.values words ≡ some w → w ≡ key_value words
      pub limit : cache.max_entries ≡ most
      pub bounded : length cache.values ≤ most

    pub large_insert-IsSound :
        (key : List ℕ) (cache : LargeCoalitionCache V)
        → IsSound cache
        → IsSound (large_insert key (key_value key) cache)
    unfolding large_insert
    large_insert-IsSound key cache sound =
        elim (Bool-cases (ltb (length cache.values) cache.max_entries)) [
          | inr full ↦ rw full sound
          | inl room ↦ rw room (record {
            right = λ words w got. elim (Bool-cases (words_eq key words)) [
              | inl e ↦
                  let put = key_get-key_put key words (key_value key) cache.values in
                  let same : key_value key ≡ w = some_inj (sym (put ∙ rw e refl) ∙ got) in
                  sym same ∙ ap key_value (eq_of_words_eq key words e)
              | inr e ↦
                  let put = key_get-key_put key words (key_value key) cache.values in
                  sound.right words w (sym (put ∙ rw e refl) ∙ got)
            ];
            limit = sound.limit;
            bounded = ground (arith, length-key_put key (key_value key) cache.values);
          })
        ]

    -- A value function that always returns: the cache gives its values.
    pub value_cached_large-returns :
        (value_fn : List ℕ → Result V)
        → ((c : List ℕ) → value_fn c ≡ ok (v c))
        → (coalition : LargeCoalition) (cache : LargeCoalitionCache V) → IsSound cache
        → (cache' : LargeCoalitionCache V) × (value_cached_large value_fn coalition cache
            ≡ ok (key_value coalition.words, cache'))
          × IsSound cache'
    unfolding value_cached_large to_sorted_nodes words_to_sorted_nodes
    value_cached_large-returns value_fn total coalition cache sound =
        elim (Option-cases (large_get cache coalition.words)) [
          | inr (w, hit) ↦ (
            cache,
            rw (hit, value_cached_large)
                (ap (λ x. ok (x, cache)) (sound.right coalition.words w hit)),
            sound,
          )
          | inl miss ↦ (
            large_insert coalition.words (key_value coalition.words) cache,
            rw (miss, value_cached_large) (rw (total (to_sorted_nodes coalition)) refl),
            large_insert-IsSound coalition.words cache sound,
          )
        ]

    -- After a chunk is stored, the values of its keys are known, and no value is lost.
    store_chunk-Knows :
        (chunk : List (List ℕ)) (value_cache : List (List ℕ × V)) (cache : LargeCoalitionCache V)
        → IsSound cache
        → let out = store_chunk chunk (map v (map words_to_sorted_nodes chunk)) value_cache cache in
          IsSound out.1
          × ((j : List ℕ) → Knows value_cache j ⊎ (has_key j chunk ≡ true) → Knows out.0 j)
    store_chunk-Knows [] value_cache cache sound =
        (sound, λ j h. elim h [ inl known ↦ known | inr e ↦ cc ])
    store_chunk-Knows (key ∷ chunk) value_cache cache sound =
        let (sound', known') =
          store_chunk-Knows chunk (key_put key (key_value key) value_cache)
            (large_insert key (key_value key) cache) (large_insert-IsSound key cache sound) in
        (
          sound',
          λ j h. elim (Bool-cases (words_eq key j)) [
            | inl here ↦ known' j (inl (key_put-Knows key j value_cache (inr here)))
            | inr other ↦ elim h [
              | inl known ↦ known' j (inl (key_put-Knows key j value_cache (inl known)))
              | inr e ↦ known' j (inr (ground arith))
            ]
          ],
        )

    module _ (value_fn_batch : List (List ℕ) → Result (List V)) (s : ℕ)
        (total : (cs : List (List ℕ)) → length cs ≤ suc s → value_fn_batch cs ≡ ok (map v cs)) where
      -- The chunks are enough fuel, and no call gets more coalitions than the size of a chunk.
      pub resolve_chunks-Knows :
          (fuel : ℕ) (misses : List (List ℕ)) (value_cache : List (List ℕ × V))
          (cache : LargeCoalitionCache V)
          → length misses ≤ fuel
          → IsSound cache
          → (value_cache' : List (List ℕ × V)) × (cache' : LargeCoalitionCache V) × (resolve_chunks
                value_fn_batch
                (suc s)
                fuel
                misses
                value_cache
                cache
              ≡ ok (value_cache', cache'))
            × IsSound cache'
            × ((j : List ℕ)
                → Knows value_cache j ⊎ (has_key j misses ≡ true)
                → Knows value_cache' j)
      unfolding resolve_chunks validate_batch_result_len
      resolve_chunks-Knows fuel [] value_cache cache enough sound =
          (value_cache, cache, refl, sound, λ j h. elim h [ inl known ↦ known | inr e ↦ cc ])
      resolve_chunks-Knows zero (key ∷ keys) value_cache cache enough sound = absurd (omega arith)
      resolve_chunks-Knows (suc fuel) (key ∷ keys) value_cache cache enough sound =
          let chunk = take (suc s) (key ∷ keys) in
          let rest = drop (suc s) (key ∷ keys) in
          let cs = map words_to_sorted_nodes chunk in
          let short : length cs ≤ suc s =
            omega (
              arith,
              length-map chunk words_to_sorted_nodes,
              length-take-le (suc s) (key ∷ keys),
            ) in
          let sized : (length chunk == length (map v cs)) ≡ true =
            ground (arith, length-map chunk words_to_sorted_nodes, length-map cs v) in
          let out = store_chunk chunk (map v cs) value_cache cache in
          let (sound₁, known₁) = store_chunk-Knows chunk value_cache cache sound in
          let (value_cache', cache', run, sound', known') =
            resolve_chunks-Knows fuel rest out.0 out.1 (omega (arith, length-drop s keys)) sound₁ in
          let split = λ (j : List ℕ). has_key-take-drop j (suc s) (key ∷ keys) in
          (
            value_cache',
            cache',
            rw (total cs short, sized) run,
            sound',
            λ j h. elim h [
              | inl known ↦ known' j (inl (known₁ j (inl known)))
              | inr e ↦ elim (Bool-cases (has_key j chunk)) [
                | inl here ↦ known' j (inl (known₁ j (inr here)))
                | inr other ↦ known' j (inr (ground (arith, split j)))
              ]
            ],
          )

    -- A key is among the hits, with its value, or among the misses.
    pub hits_of-Knows :
        (cache : LargeCoalitionCache V) (keys : List (List ℕ)) (value_cache : List (List ℕ × V))
        (j : List ℕ)
        → IsSound cache
        → Knows value_cache j ⊎ (has_key j keys ≡ true)
        → Knows (hits_of cache keys value_cache) j ⊎ (has_key j (misses_of cache keys) ≡ true)
    hits_of-Knows cache [] value_cache j sound h = h
    hits_of-Knows cache (key ∷ keys) value_cache j sound h =
        elim (Option-cases (large_get cache key)) [
          | inr (w, hit) ↦
              let same : w ≡ key_value key = sound.right key w hit in
              let found : large_get cache key ≡ some (key_value key) = hit ∙ ap some same in
              rw (found, hits_of, misses_of)
                (hits_of-Knows cache keys (key_put key (key_value key) value_cache) j sound
                  (elim (Bool-cases (words_eq key j)) [
                    | inl here ↦ inl (key_put-Knows key j value_cache (inr here))
                    | inr other ↦ elim h [
                      | inl known ↦ inl (key_put-Knows key j value_cache (inl known))
                      | inr e ↦ inr (ground arith)
                    ]
                  ]))
          | inl miss ↦
              rw (miss, hits_of, misses_of)
                (elim (Bool-cases (words_eq key j)) [
                  | inl here ↦ inr (rw here refl)
                  | inr other ↦
                      elim (hits_of-Knows cache keys value_cache j sound
                        (elim h [ inl known ↦ inl known | inr e ↦ inr (ground arith) ])) [
                          | inl known ↦ inl known
                          | inr e ↦ inr (rw (other, e) refl)
                        ]
                ])
        ]
