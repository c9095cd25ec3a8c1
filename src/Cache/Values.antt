-- ===== src/Cache/Values.antt =====
-- The cache of the value function cannot be observed (src/cache.rs).
use causasv.Prelude.{
  ℕ, ◌≡◌, refl, sym, arith, none, some, List, ◌∷◌, Option-cases, inl, inr, ap, subst, Bool-cases,
  ◌==◌,
}
use causasv.Error.{Result, ok, err, panicked, out_of_fuel, ◌>>=◌, >>=-eq-ok}
use causasv.Cache.{mask_to_coalition, cache_get, value_cached}

module _ {V : Type 0} (value_fn : List ℕ → Result V) where
  -- Every entry is the value of its coalition.
  abbrev pub IsConsistent : List (ℕ × V) → Type 0
  IsConsistent cache =
      (mask : ℕ) (v : V) → cache_get cache mask ≡ some v → value_fn (mask_to_coalition mask) ≡ ok v

  kept_entry :
      (cache : List (ℕ × V)) (mask m : ℕ) (v w : V)
      → IsConsistent cache
      → value_fn (mask_to_coalition mask) ≡ ok v
      → cache_get ((mask, v) ∷ cache) m ≡ some w
      → value_fn (mask_to_coalition m) ≡ ok w
  kept_entry cache mask m v w good computed h = elim (Bool-cases (mask == m)) [
    | inl e ↦
        let same : mask ≡ m = ground arith in
        ground (arith, ap (λ k. value_fn (mask_to_coalition k)) same)
    | inr e ↦ good m w (ground arith)
  ]

  fetched :
      (m : Result V) (mask : ℕ) (cache : List (ℕ × V)) (with_entry : V → Result (V × List (ℕ × V)))
      → ((v : V) → with_entry v ≡ ok (v, (mask, v) ∷ cache))
      → ((m >>= with_entry) >>= λ r. ok r.0) ≡ m
  fetched (ok v) mask cache f h = rw (h v) refl
  fetched (err e) mask cache f h = refl
  fetched panicked mask cache f h = refl
  fetched out_of_fuel mask cache f h = refl

  on_hit :
      (cache : List (ℕ × V)) (mask : ℕ) (v : V)
      → cache_get cache mask ≡ some v
      → value_cached value_fn cache mask ≡ ok (v, cache)
  unfolding value_cached
  on_hit cache mask v e = rw (value_cached, e) refl

  on_miss :
      (cache : List (ℕ × V)) (mask : ℕ)
      → cache_get cache mask ≡ none
      → value_cached value_fn cache mask
        ≡ (value_fn (mask_to_coalition mask) >>= λ v. ok (v, (mask, v) ∷ cache))
  unfolding value_cached
  on_miss cache mask e = rw (value_cached, e) refl

  same_pair :
      (P : List (ℕ × V) → Type 0) {v w : V} {xs ys : List (ℕ × V)}
      → ◌≡◌ {A = Result (V × List (ℕ × V))} (ok (v, xs)) (ok (w, ys))
      → P xs
      → P ys
  same_pair P {xs = xs} {ys = ys} h p = let e : xs ≡ ys = cc in subst P e p

  -- With a cache whose entries are all values of the value function on the masks' coalitions:
  -- `value_cached` returns what the value function returns on the mask's coalition, an error
  -- included, and a cache that it returns has only such entries.
  pub value_cached_transparent :
      (cache : List (ℕ × V)) (mask : ℕ)
      → IsConsistent cache
      → ((value_cached value_fn cache mask >>= λ r. ok r.0) ≡ value_fn (mask_to_coalition mask))
        × ((v : V) (cache' : List (ℕ × V))
            → value_cached value_fn cache mask ≡ ok (v, cache')
            → IsConsistent cache')
  value_cached_transparent cache mask good = elim (Option-cases (cache_get cache mask)) [
    | inl e ↦ rw (on_miss cache mask e) (
      fetched (value_fn (mask_to_coalition mask)) mask cache _ (λ v. refl),
      λ v cache' h.
          let (w, computed, e') = >>=-eq-ok (value_fn (mask_to_coalition mask)) _ h in
          same_pair IsConsistent e' (λ m x at. kept_entry cache mask m w x good computed at),
    )
    | inr (v, e) ↦
        rw (on_hit cache mask v e)
          (sym (good mask v e), λ w cache' h. same_pair IsConsistent h good)
  ]
