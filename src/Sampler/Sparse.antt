-- ===== src/Sampler/Sparse.antt =====
-- The sampler of src/sampler.rs that counts on demand (`sample_uniform_sparse_into`) draws what the
-- one with a table (`sample_uniform_into`) does.
use Prim.Native.Nat.{bit_and, bit_or, bit_xor}
use causasv.Prelude.{
  ℕ, zero, suc, ◌+◌, ◌-◌, ◌%◌, ◌^◌, ◌<◌, ◌≡◌, refl, sym, ◌∙◌, ap, arith, some, List, [], ◌∷◌, ◌++◌,
  get_or, length, ltb, ◌==◌, if◌then◌else◌, as_u32, u64_mod, Bool-cases, Option-cases, inl, inr,
  subst,
}
use causasv.Error.{ok}
use causasv.Bits.{shl1, lowest_bit, trailing_zeros, bit_at-shl1}
use causasv.Bits.Digits.{bit_at-and, bit_at-or, bit_at-xor, bit_at_beyond, lt-pow_of_bits}
use causasv.Bits.Sets.{trailing_zeros_from, shl1-small}
use causasv.Bits.Lowest.{isolate, zeros_pow}
use causasv.Bits.Peel.{pow-le}
use causasv.Numerics.{Float}
use causasv.DagDpSparse.{dp_ind_lazy}
use causasv.DagDpSparse.Memo.{IsMemo, dp_ind_lazy_exact}
use causasv.Sampler.{
  Rng, pick, uniform_rounds, sample_uniform_into, pick_sparse, sparse_rounds,
  sample_uniform_sparse_into,
}
use causasv.Sampler.Uniform.{IsTable}

exponent-lt : (t n : ℕ) → 2 ^ t < 2 ^ n → t < n
exponent-lt t n lt = elim (Bool-cases (ltb t n)) [
  | inl e ↦ ground arith
  | inr e ↦ absurd (omega (arith, pow-le n t (ground arith)))
]

zeros_index : (w k : ℕ) → w ≡ 64 → k < w → trailing_zeros (2 ^ k) ≡ k
unfolding trailing_zeros
zeros_index w k e lt = subst (λ v. trailing_zeros_from v (2 ^ k) ≡ k) e (zeros_pow w k lt)

-- The lowest bit stands alone, and has its index.
lowest_alone :
    (bits : ℕ)
    → 0 < bits
    → bits < 2 ^ 64
    → (t : ℕ) × (lowest_bit bits ≡ 2 ^ t) × (t < 64 → trailing_zeros (lowest_bit bits) ≡ t)
unfolding lowest_bit
lowest_alone bits pos word =
    let wrap : (u64_mod - bits) % u64_mod ≡ 2 ^ 64 - bits = omega arith in
    let alone : lowest_bit bits ≡ 2 ^ trailing_zeros_from 64 bits =
      ap (bit_and bits) wrap ∙ isolate 64 bits pos word in
    (
      trailing_zeros_from 64 bits,
      alone,
      λ lt. ap trailing_zeros alone ∙ zeros_index 64 (trailing_zeros_from 64 bits) refl lt,
    )

module _ (n : ℕ) (few : n < 64) where
  lowest_bit-lt : (bits : ℕ) → bits < 2 ^ n → lowest_bit bits < 2 ^ n
  unfolding lowest_bit
  lowest_bit-lt bits lt =
      let other = (u64_mod - bits) % u64_mod in
      lt-pow_of_bits n (bit_and bits other)
        (λ i le. ground (arith, bit_at-and i bits other, bit_at_beyond n i bits lt))

  xor-lt : (a b : ℕ) → a < 2 ^ n → b < 2 ^ n → bit_xor a b < 2 ^ n
  xor-lt a b la lb =
      lt-pow_of_bits n (bit_xor a b)
        (λ i le. ground (arith, bit_at-xor i a b, bit_at_beyond n i a la, bit_at_beyond n i b lb))

  or-shl1-lt : (a i : ℕ) → a < 2 ^ n → i < n → bit_or a (shl1 i) < 2 ^ n
  or-shl1-lt a i la li = lt-pow_of_bits n (bit_or a (shl1 i)) (λ j le.
      ground (arith, bit_at-or j a (shl1 i), bit_at_beyond n j a la, bit_at-shl1 i j (omega arith)))

  -- The index of the lowest bit.
  lowest_index-lt : (bits : ℕ) → 0 < bits → bits < 2 ^ n → trailing_zeros (lowest_bit bits) < n
  lowest_index-lt bits pos lt =
      let word : bits < 2 ^ 64 = omega (arith, pow-le n 64 (omega arith)) in
      let (t, alone, same) = lowest_alone bits pos word in
      let below : t < n = exponent-lt t n (omega (arith, alone, lowest_bit-lt bits lt)) in
      omega (arith, same (omega arith))

module _ (parents_mask : List ℕ) (few : length parents_mask < 64) (rng : Rng) (fl : Float)
    (table : List ℕ) (right : IsTable parents_mask (length parents_mask) few table) where
  open rng use {R, random_range}

  abbrev n : ℕ
  n = length parents_mask

  -- The count on demand is the entry of the table.
  lazy-table :
      (mask : ℕ) (cache : List (ℕ × ℕ))
      → mask < 2 ^ n
      → IsMemo parents_mask cache
      → (cache' : List (ℕ × ℕ)) × (dp_ind_lazy mask parents_mask n cache
          ≡ ok (get_or table mask 0, cache'))
        × IsMemo parents_mask cache'
  lazy-table mask cache lt memo =
      elim (dp_ind_lazy_exact parents_mask n (omega arith) (omega arith) mask cache lt memo) [
        | inl (cache', run, memo', fits) ↦
            (cache', run ∙ ap (λ x. ok (x, cache')) (sym (right mask lt).0), memo')
        | inr (failed, (m, le, many)) ↦ absurd (omega (arith, (right m (omega arith)).1))
      ]

  pick-lt :
      (fuel bits remaining placed drawn cum i : ℕ)
      → bits < 2 ^ n
      → pick rng fl parents_mask fuel table bits remaining placed drawn cum ≡ some i
      → i < n
  unfolding pick
  pick-lt zero bits remaining placed drawn cum i lt h = cc
  pick-lt (suc fuel) bits remaining placed drawn cum i lt h = elim (Bool-cases (bits == 0)) [
    | inl e ↦ cc (rw e at h)
    | inr e ↦
        let bit = lowest_bit bits in
        let node = trailing_zeros bit in
        let pmask = get_or parents_mask node 0 in
        let rest_lt = xor-lt n few bits bit lt (lowest_bit-lt n few bits lt) in
        let cum' = (cum + get_or table (bit_xor remaining bit) 0) % u64_mod in
        elim (Bool-cases (bit_and pmask placed == pmask)) [
          | inl source ↦ elim (Bool-cases (ltb drawn cum')) [
            | inl here ↦
                let same : node ≡ i = cc (rw (e, source, here) at h) in
                omega (arith, lowest_index-lt n few bits (ground arith) lt)
            | inr later ↦
                pick-lt fuel (bit_xor bits bit) remaining placed drawn cum' i rest_lt
                  (rw (e, source, later) at h)
          ]
          | inr other ↦
              pick-lt fuel (bit_xor bits bit) remaining placed drawn cum i rest_lt
                (rw (e, other) at h)
        ]
  ]

  pick_sparse-pick :
      (fuel : ℕ) (cache : List (ℕ × ℕ)) (bits remaining placed drawn cum : ℕ)
      → bits < 2 ^ n
      → remaining < 2 ^ n
      → IsMemo parents_mask cache
      → (cache' : List (ℕ × ℕ)) × (pick_sparse rng fl parents_mask fuel n cache bits remaining
            placed drawn cum
          ≡ ok (pick rng fl parents_mask fuel table bits remaining placed drawn cum, cache'))
        × IsMemo parents_mask cache'
  unfolding pick pick_sparse
  pick_sparse-pick zero cache bits remaining placed drawn cum lt all memo = (cache, refl, memo)
  pick_sparse-pick (suc fuel) cache bits remaining placed drawn cum lt all memo =
      elim (Bool-cases (bits == 0)) [
        | inl e ↦ (cache, rw e refl, memo)
        | inr e ↦
            let bit = lowest_bit bits in
            let pmask = get_or parents_mask (trailing_zeros bit) 0 in
            let bit_lt = lowest_bit-lt n few bits lt in
            let rest_lt = xor-lt n few bits bit lt bit_lt in
            let (cache₁, counted, memo₁) =
              lazy-table (bit_xor remaining bit) cache (xor-lt n few remaining bit all bit_lt)
                memo in
            let cum' = (cum + get_or table (bit_xor remaining bit) 0) % u64_mod in
            elim (Bool-cases (bit_and pmask placed == pmask)) [
              | inr other ↦
                  let (cache', run, memo') =
                    pick_sparse-pick fuel cache (bit_xor bits bit) remaining placed drawn cum
                      rest_lt all memo in
                  (cache', rw (e, other) run, memo')
              | inl source ↦ elim (Bool-cases (ltb drawn cum')) [
                | inl here ↦ (cache₁, rw (e, source, counted, here) refl, memo₁)
                | inr later ↦
                    let (cache', run, memo') =
                      pick_sparse-pick fuel cache₁ (bit_xor bits bit) remaining placed drawn cum'
                        rest_lt all memo₁ in
                    (cache', rw (e, source, counted, later) run, memo')
              ]
            ]
      ]

  sparse_rounds-uniform_rounds :
      (k : ℕ) (r : R) (cache : List (ℕ × ℕ)) (full placed : ℕ) (ordering : List ℕ)
      → full < 2 ^ n
      → placed < 2 ^ n
      → IsMemo parents_mask cache
      → let drawn = uniform_rounds rng fl parents_mask k r table full placed ordering in
        (cache' : List (ℕ × ℕ)) × (sparse_rounds rng fl parents_mask k r n cache full placed
            ordering
          ≡ ok (drawn.0, cache', drawn.1))
        × IsMemo parents_mask cache'
  unfolding sparse_rounds uniform_rounds
  sparse_rounds-uniform_rounds zero r cache full placed ordering top lt memo = (cache, refl, memo)
  sparse_rounds-uniform_rounds (suc k) r cache full placed ordering top lt memo =
      let remaining = bit_xor full placed in
      let small = xor-lt n few full placed top lt in
      let (cache₁, counted, memo₁) = lazy-table remaining cache small memo in
      let total = get_or table remaining 0 in
      let draw = if ltb 1 total then random_range r total else (0, r) in
      let (cache₂, run, memo₂) =
        pick_sparse-pick 64 cache₁ remaining remaining placed draw.0 0 small small memo₁ in
      elim (Option-cases (pick rng fl parents_mask 64 table remaining remaining placed draw.0 0)) [
        | inl stop ↦
            let (cache', runs, memo') =
              sparse_rounds-uniform_rounds k draw.1 cache₂ full placed ordering top lt memo₂ in
            (cache', rw (counted, run) (rw (stop, uniform_rounds) runs), memo')
        | inr (i, found) ↦
            let next =
              or-shl1-lt n few placed i lt
                (pick-lt 64 remaining remaining placed draw.0 0 i small found) in
            let (cache', runs, memo') =
              sparse_rounds-uniform_rounds k draw.1 cache₂ full (bit_or placed (shl1 i))
                (ordering ++ as_u32 i ∷ []) top next memo₂ in
            (cache', rw (counted, run) (rw (found, uniform_rounds) runs), memo')
      ]

  -- With fewer than 64 parent masks, a table of the numbers of linear extensions that all fit in 64
  -- bits, and a cache whose entries are such numbers: `sample_uniform_sparse_into` returns ok with
  -- the same generator and the same ordering as `sample_uniform_into` with the table, and with a
  -- cache of that kind.
  pub sparse_into-uniform_into :
      (r : R) (cache : List (ℕ × ℕ))
      → IsMemo parents_mask cache
      → let drawn = sample_uniform_into rng fl parents_mask r table in
        (cache' : List (ℕ × ℕ)) × (sample_uniform_sparse_into rng fl parents_mask r n cache
          ≡ ok (drawn.0, cache', drawn.1))
        × IsMemo parents_mask cache'
  unfolding sample_uniform_sparse_into sample_uniform_into
  sparse_into-uniform_into r cache memo =
      let one : shl1 n ≡ 2 ^ n = shl1-small n few in
      let pos = pow-le 0 n (omega arith) in
      sparse_rounds-uniform_rounds n r cache (shl1 n - 1) 0 [] (omega (arith, one, pos))
        (omega (arith, pos)) memo
