-- ===== src/DagDpSparse/Memo.antt =====
-- `dp_ind_lazy` (src/dag_dp_sparse.rs) counts linear extensions, whatever its cache has in store.
use Prim.Native.Nat.{bit_and, bit_xor}
use causasv.Prelude.{
  ℕ, zero, suc, ◌+◌, ◌-◌, ◌*◌, ◌^◌, ◌≤◌, ◌<◌, ◌≡◌, refl, sym, ◌∙◌, ap, arith, true, false, none,
  some, List, [], ◌∷◌, ◌==◌, ltb, if◌then◌else◌, get_or, length, take, length-take, get_or-take,
  count, ◌⊎◌, inl, inr, Bool-cases, Option-cases, u64_mod, checked_add,
}
use causasv.Prelude.Totals.{total, total_ext, sum_over-count}
use causasv.Error.{Result, ok, err, overflow}
use causasv.Bits.{bit_at, shl1, members_from, count-members_from, lacks_bit}
use causasv.Bits.Digits.{bit_at_beyond}
use causasv.Bits.Peel.{pow-le}
use causasv.Cache.{cache_get}
use causasv.DagDp.{overflowed}
use causasv.DagDp.Table.{Overflows}
use causasv.DagDp.Counting.{
  is_source, linear_extensions, linear_extensions_step, linear_extensions_zero, member_bit, xor_lt,
}
use causasv.DagDpSparse.{for_nodes, lazy_node, lazy_calls, dp_ind_lazy}

fits_sum : (a b : ℕ) → ltb (a + b) u64_mod ≡ true → checked_add a b ≡ some (a + b)
fits_sum a b h = ground arith

exceeds_sum : (a b : ℕ) → ltb (a + b) u64_mod ≡ false → checked_add a b ≡ none
exceeds_sum a b h = ground arith

module _ (parents_mask : List ℕ) where
  abbrev counted : ℕ → ℕ
  counted m = linear_extensions parents_mask m

  -- Every entry of the cache is a number of linear extensions, and a word.
  abbrev pub IsMemo : List (ℕ × ℕ) → Type 0
  IsMemo cache =
      (m v : ℕ)
      → cache_get cache m ≡ some v
      → (v ≡ linear_extensions parents_mask m) × (v < u64_mod)

  -- What node `i` adds to the count of `mask`.
  abbrev term : ℕ → ℕ → ℕ → ℕ
  term mask i pmask =
      if bit_and mask (shl1 i) == 0
      then 0
      else if bit_and pmask mask == 0
      then counted (bit_xor mask (shl1 i))
      else 0

  abbrev terms : ℕ → ℕ → List ℕ → ℕ
  terms mask i [] = 0
  terms mask i (pmask ∷ rest) = term mask i pmask + terms mask (suc i) rest

  terms-total :
      (mask i : ℕ) (rest : List ℕ)
      → ((k : ℕ) → k < length rest → get_or rest k 0 ≡ get_or parents_mask (i + k) 0)
      → terms mask i rest + total i (λ v. term mask v (get_or parents_mask v 0))
        ≡ total (i + length rest) (λ v. term mask v (get_or parents_mask v 0))
  terms-total mask i [] h = let e : i + 0 ≡ i = omega arith in rw e (omega arith)
  terms-total mask i (pmask ∷ rest) h =
      let e : i + suc (length rest) ≡ suc i + length rest = omega arith in
      let same : i + 0 ≡ i = omega arith in
      let first : pmask ≡ get_or parents_mask i 0 =
        h 0 (omega arith) ∙ ap (λ k. get_or parents_mask k 0) same in
      let later = terms-total mask (suc i) rest (λ k lt.
        let next : i + suc k ≡ suc i + k = omega arith in
        h (suc k) (omega arith) ∙ ap (λ j. get_or parents_mask j 0) next) in
      rw e (omega (arith, later, ap (λ p. term mask i p) first))

  same_term :
      (n mask v : ℕ)
      → n ≤ 63
      → mask < 2 ^ n
      → v < n
      → count v (members_from 0 64 mask)
          * (if is_source parents_mask mask v then counted (bit_xor mask (shl1 v)) else 0)
        ≡ term mask v (get_or parents_mask v 0)
  same_term n mask v few small lt =
      let e : v - 0 ≡ v = omega arith in
      let word : mask < 2 ^ 64 = omega (arith, pow-le n 63 few) in
      let member = rw e at (count-members_from 0 64 mask v word) in
      let bit = lacks_bit mask v (omega arith) in
      elim (Bool-cases (bit_at v mask)) [
        | inl set ↦ ground (arith, member, bit)
        | inr unset ↦ ground (arith, member, bit)
      ]

  -- The loop over the first `n` nodes adds up to the count of `mask`.
  terms-counted :
      (n mask : ℕ)
      → n ≤ 63
      → n ≤ length parents_mask
      → mask < 2 ^ n
      → 0 < mask
      → terms mask 0 (take n parents_mask) ≡ counted mask
  terms-counted n mask few enough small pos =
      let word : mask < 2 ^ 64 = omega (arith, pow-le n 63 few) in
      let g =
        λ (i : ℕ). if is_source parents_mask mask i then counted (bit_xor mask (shl1 i)) else 0 in
      let members =
        linear_extensions_step parents_mask mask word pos
        ∙ sum_over-count n (members_from 0 64 mask) g (λ i m.
          let (set, lt) = member_bit mask i word m in ground (arith, bit_at_beyond n i mask small))
        ∙ total_ext n _ _ (λ v lt. same_term n mask v few small lt) in
      let listed = terms-total mask 0 (take n parents_mask) (λ k lt.
        let z : 0 + k ≡ k = omega arith in
        rw z (get_or-take n parents_mask k 0 (omega (arith, length-take n parents_mask enough)))) in
      let size : 0 + length (take n parents_mask) ≡ n =
        omega (arith, length-take n parents_mask enough) in
      omega (
        arith,
        listed,
        members,
        ap (λ k. total k (λ v. term mask v (get_or parents_mask v 0))) size,
      )

  -- Some set of at most `mask` has more orders than a word can count.
  abbrev Excess : ℕ → Type 0
  Excess mask = (m : ℕ) × (m ≤ mask) × (u64_mod ≤ counted m)

  -- A run from a mask: it returns the count and a right cache, or overflows for a reason.
  abbrev Counts : ℕ → ℕ → Result (ℕ × List (ℕ × ℕ)) → Type 0
  Counts mask value run =
      ((cache : List (ℕ × ℕ)) × (run ≡ ok (value, cache)) × IsMemo cache × (value < u64_mod))
      ⊎ (Overflows run × Excess mask)

  module _ (recurse : ℕ → List (ℕ × ℕ) → Result (ℕ × List (ℕ × ℕ))) (mask : ℕ)
      (word : mask < 2 ^ 64)
      (below : (m : ℕ) (cache : List (ℕ × ℕ))
        → m < mask
        → IsMemo cache
        → Counts m (counted m) (recurse m cache)) where
    add_sub-Counts :
        (result sub : ℕ) (cache : List (ℕ × ℕ))
        → result + sub ≤ counted mask
        → IsMemo cache
        → Counts mask (result + sub) (elim (checked_add result sub) [
          | some sum ↦ ok (sum, cache)
          | none ↦ err (overflow (overflowed "dp_ind" mask))
        ])
    add_sub-Counts result sub cache most memo = elim (Bool-cases (ltb (result + sub) u64_mod)) [
      | inl lt ↦ rw (fits_sum result sub lt) (inl (cache, refl, memo, ground arith))
      | inr full ↦
          rw (exceeds_sum result sub full)
            (inr ((overflowed "dp_ind" mask, refl), (mask, omega arith, ground arith)))
    ]

    lazy_node-Counts :
        (i pmask result : ℕ) (cache : List (ℕ × ℕ))
        → i < 64
        → result < u64_mod
        → result + term mask i pmask ≤ counted mask
        → IsMemo cache
        → Counts mask (result + term mask i pmask) (lazy_node recurse mask i pmask (result, cache))
    unfolding lazy_node
    lazy_node-Counts i pmask result cache small fits most memo =
        let kept : result + 0 ≡ result = omega arith in
        elim (Bool-cases (bit_and mask (shl1 i) == 0)) [
          | inl lacks ↦ rw (lacks, kept) (inl (cache, refl, memo, fits))
          | inr has ↦ elim (Bool-cases (bit_and pmask mask == 0)) [
            | inr blocked ↦ rw (has, blocked, kept) (inl (cache, refl, memo, fits))
            | inl source ↦
                let sub = bit_xor mask (shl1 i) in
                let smaller = xor_lt i mask small (ground (arith, lacks_bit mask i small)) in
                let most_of : result + counted sub ≤ counted mask = ground (arith, most) in
                rw (has, source)
                  (elim (below sub cache smaller memo) [
                    | inr ((msg, e), (m, le, big)) ↦ inr ((msg, rw e refl), (m, omega arith, big))
                    | inl (cache', e, memo', fits') ↦
                        rw e (
                          add_sub-Counts result (counted sub) cache' (omega (arith, most_of)) memo')
                  ])
          ]
        ]

    for_nodes-Counts :
        (i : ℕ) (rest : List ℕ) (result : ℕ) (cache : List (ℕ × ℕ))
        → i + length rest ≤ 64
        → result < u64_mod
        → result + terms mask i rest ≤ counted mask
        → IsMemo cache
        → Counts mask
            (result + terms mask i rest)
            (for_nodes (lazy_node recurse mask) i rest (result, cache))
    unfolding for_nodes
    for_nodes-Counts i [] result cache small fits most memo =
        let kept : result + 0 ≡ result = omega arith in rw kept (inl (cache, refl, memo, fits))
    for_nodes-Counts i (pmask ∷ rest) result cache small fits most memo =
        let assoc : result + (term mask i pmask + terms mask (suc i) rest)
            ≡ result + term mask i pmask + terms mask (suc i) rest =
          omega arith in
        elim (lazy_node-Counts i pmask result cache (omega arith) fits (omega arith) memo) [
          | inr ((msg, e), excess) ↦ inr ((msg, rw e refl), excess)
          | inl (cache', e, memo', fits') ↦
              rw (e, assoc)
                (for_nodes-Counts (suc i) rest (result + term mask i pmask) cache' (omega arith)
                  fits' (omega arith) memo')
        ]

  IsMemo-cons :
      (cache : List (ℕ × ℕ)) (mask v : ℕ)
      → IsMemo cache
      → v ≡ counted mask
      → v < u64_mod
      → IsMemo ((mask, v) ∷ cache)
  IsMemo-cons cache mask v memo e lt m w at = elim (Bool-cases (mask == m)) [
    | inl same ↦
        let equal : mask ≡ m = ground arith in
        ground (arith, ap (linear_extensions parents_mask) equal)
    | inr other ↦ memo m w (ground arith)
  ]

  module _ (n : ℕ) (few : n ≤ 63) (enough : n ≤ length parents_mask) where
    lazy_calls-Counts :
        (fuel mask : ℕ) (cache : List (ℕ × ℕ))
        → mask < fuel
        → mask < 2 ^ n
        → IsMemo cache
        → Counts mask (counted mask) (lazy_calls fuel parents_mask n mask cache)
    unfolding lazy_calls
    lazy_calls-Counts zero mask cache lt small memo = absurd (omega arith)
    lazy_calls-Counts (suc fuel) zero cache lt small memo =
        rw (linear_extensions_zero parents_mask) (inl (cache, refl, memo, omega arith))
    lazy_calls-Counts (suc fuel) (suc k) cache lt small memo =
        let mask = suc k in
        let nonzero : (suc k == 0) ≡ false = ground arith in
        elim (Option-cases (cache_get cache mask)) [
          | inr (v, e) ↦
              let (right, fits) = memo mask v e in
              rw (nonzero, e, sym right) (inl (cache, refl, memo, fits))
          | inl e ↦
              let sum = terms-counted n mask few enough small (omega arith) in
              let word : mask < 2 ^ 64 = omega (arith, pow-le n 63 few) in
              rw (nonzero, e)
                (elim (for_nodes-Counts (lazy_calls fuel parents_mask n) mask word
                  (λ m cache' less memo'.
                    lazy_calls-Counts fuel m cache' (omega arith) (omega arith) memo')
                  0 (take n parents_mask) 0 cache (omega (arith, length-take n parents_mask enough))
                  (omega arith) (omega (arith, sum)) memo) [
                    | inr ((msg, over), excess) ↦ inr ((msg, rw over refl), excess)
                    | inl (cache', run, memo', fits) ↦
                        let value : 0 + terms mask 0 (take n parents_mask) ≡ counted mask =
                          omega (arith, sum) in
                        rw (run, value)
                          (inl (
                            (mask, counted mask) ∷ cache',
                            refl,
                            IsMemo-cons cache' mask (counted mask) memo' refl (omega arith),
                            omega arith,
                          ))
                  ])
        ]

    -- For n ≤ 63 nodes, at least n parent masks, a mask below 2 ^ n and a cache whose entries are
    -- numbers of linear extensions: either `dp_ind_lazy` returns the number of linear extensions of
    -- the mask, which is below 2 ^ 64, and a cache of that kind; or it returns an overflow error,
    -- and some mask that is not greater has at least 2 ^ 64 linear extensions.
    pub dp_ind_lazy_exact :
        (mask : ℕ) (cache : List (ℕ × ℕ))
        → mask < 2 ^ n
        → IsMemo cache
        → ((cache' : List (ℕ × ℕ)) × (dp_ind_lazy mask parents_mask n cache
              ≡ ok (linear_extensions parents_mask mask, cache'))
            × IsMemo cache'
            × (linear_extensions parents_mask mask < u64_mod))
          ⊎ (Overflows (dp_ind_lazy mask parents_mask n cache)
              × ((m : ℕ) × (m ≤ mask) × (u64_mod ≤ linear_extensions parents_mask m)))
    unfolding dp_ind_lazy
    dp_ind_lazy_exact mask cache small memo =
        lazy_calls-Counts (suc mask) mask cache (omega arith) small memo
