-- ===== src/Approx/Keys.antt =====
-- Keys of large coalitions (src/approx_large.rs): equality, sorted lists without repetitions, chunks,
-- and the map from keys to values.
use causasv.Prelude.{
  ℕ, zero, suc, ◌+◌, ◌≤◌, ◌≡◌, refl, sym, ◌∙◌, ap, arith, Bool, true, false, ◌||◌, some, List, [],
  ◌∷◌, ◌++◌, length, take, if◌then◌else◌, Bool-cases, inl, inr,
}
use causasv.Approx.LargeCache.{
  words_eq, words_le, key_insert, sort_keys, dedup_keys_after, dedup_keys, drop, key_get, key_put,
}

pub words_eq_refl : (xs : List ℕ) → words_eq xs xs ≡ true
words_eq_refl [] = refl
words_eq_refl (x ∷ xs) = ground (arith, words_eq_refl xs)

pub eq_of_words_eq : (xs ys : List ℕ) → words_eq xs ys ≡ true → xs ≡ ys
eq_of_words_eq [] [] h = refl
eq_of_words_eq [] (y ∷ ys) h = cc
eq_of_words_eq (x ∷ xs) [] h = cc
eq_of_words_eq (x ∷ xs) (y ∷ ys) h = ground (arith, eq_of_words_eq xs ys)

abbrev pub has_key : List ℕ → List (List ℕ) → Bool
has_key k [] = false
has_key k (j ∷ keys) = words_eq j k || has_key k keys

pub has_key-append :
    (k : List ℕ) (xs ys : List (List ℕ)) → has_key k (xs ++ ys) ≡ (has_key k xs || has_key k ys)
has_key-append k [] ys = refl
has_key-append k (x ∷ xs) ys = ground (arith, has_key-append k xs ys)

has_key-key_insert :
    (k j : List ℕ) (keys : List (List ℕ))
    → has_key k (key_insert j keys) ≡ (words_eq j k || has_key k keys)
has_key-key_insert k j [] = refl
has_key-key_insert k j (i ∷ keys) = elim (Bool-cases (words_le j i)) [
  | inl e ↦ rw e refl
  | inr e ↦ rw e (ground (arith, has_key-key_insert k j keys))
]

has_key-sort_keys :
    (k : List ℕ) (keys : List (List ℕ)) → has_key k (sort_keys keys) ≡ has_key k keys
has_key-sort_keys k [] = refl
has_key-sort_keys k (j ∷ keys) =
    has_key-key_insert k j (sort_keys keys) ∙ ap (λ b. words_eq j k || b) (has_key-sort_keys k keys)

-- Removing repetitions loses no key.
dedup_keys_after-keeps :
    (k j : List ℕ) (keys : List (List ℕ))
    → has_key k (j ∷ keys) ≡ true
    → has_key k (j ∷ dedup_keys_after j keys) ≡ true
dedup_keys_after-keeps k j [] h = h
dedup_keys_after-keeps k j (i ∷ keys) h = elim (Bool-cases (words_eq i j)) [
  | inl e ↦
      let same : i ≡ j = eq_of_words_eq i j e in
      rw e (dedup_keys_after-keeps k j keys (ground (arith, ap (λ x. words_eq x k) same)))
  | inr e ↦ rw e (ground (arith, dedup_keys_after-keeps k i keys))
]

-- Sorting and removing repetitions loses no key.
pub unique-keeps :
    (k : List ℕ) (keys : List (List ℕ))
    → has_key k keys ≡ true
    → has_key k (dedup_keys (sort_keys keys)) ≡ true
unique-keeps k keys h = kept (sort_keys keys) (has_key-sort_keys k keys ∙ h)
  where
    kept : (xs : List (List ℕ)) → has_key k xs ≡ true → has_key k (dedup_keys xs) ≡ true
    kept [] e = e
    kept (x ∷ xs) e = dedup_keys_after-keeps k x xs e

-- A key of a list is in its first `n` entries or in the others.
pub has_key-take-drop :
    (k : List ℕ) (n : ℕ) (keys : List (List ℕ))
    → has_key k keys ≡ (has_key k (take n keys) || has_key k (drop n keys))
has_key-take-drop k zero [] = refl
has_key-take-drop k zero (j ∷ keys) = refl
has_key-take-drop k (suc n) [] = refl
has_key-take-drop k (suc n) (j ∷ keys) = ground (arith, has_key-take-drop k n keys)

pub length-drop {ℓ} : {A : Type ℓ} (n : ℕ) (xs : List A) → length (drop n xs) ≤ length xs
length-drop zero xs = omega arith
length-drop (suc n) [] = omega arith
length-drop (suc n) (x ∷ xs) = omega (arith, length-drop n xs)

pub length-take-le {ℓ} : {A : Type ℓ} (n : ℕ) (xs : List A) → length (take n xs) ≤ n
length-take-le zero xs = omega arith
length-take-le (suc n) [] = omega arith
length-take-le (suc n) (x ∷ xs) = omega (arith, length-take-le n xs)

module _ {V : Type 0} where
  pub key_get-key_put :
      (key words : List ℕ) (v : V) (values : List (List ℕ × V))
      → key_get (key_put key v values) words
        ≡ (if words_eq key words then some v else key_get values words)
  key_get-key_put key words v [] = refl
  key_get-key_put key words v ((j, w) ∷ values) = elim (Bool-cases (words_eq j key)) [
    | inl e ↦ elim (Bool-cases (words_eq key words)) [
      | inl here ↦ rw (e, here) refl
      | inr other ↦
          let same : words_eq j words ≡ false =
            ap (λ x. words_eq x words) (eq_of_words_eq j key e) ∙ other in
          rw (e, same) refl
    ]
    | inr e ↦ elim (Bool-cases (words_eq key words)) [
      | inl here ↦
          let same : words_eq j words ≡ false =
            ap (words_eq j) (sym (eq_of_words_eq key words here)) ∙ e in
          rw (e, same) (key_get-key_put key words v values)
      | inr other ↦ elim (Bool-cases (words_eq j words)) [
        | inl hit ↦ rw (e, hit) (rw other refl)
        | inr miss ↦ rw (e, miss) (key_get-key_put key words v values)
      ]
    ]
  ]

  pub length-key_put :
      (key : List ℕ) (v : V) (values : List (List ℕ × V))
      → length (key_put key v values) ≤ length values + 1
  length-key_put key v [] = omega arith
  length-key_put key v ((j, w) ∷ values) = elim (Bool-cases (words_eq j key)) [
    | inl e ↦ rw e (omega arith)
    | inr e ↦ rw e (omega (arith, length-key_put key v values))
  ]
