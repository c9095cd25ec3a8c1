-- ===== src/DagDp/Table.antt =====
-- `compute_dp_ind` (src/dag_dp.rs) fills its table with the numbers of linear extensions, and fails
-- exactly if one of them does not fit in a `u64`.
use Prim.Native.Nat.{bit_xor}
use causasv.Prelude.{
  ℕ, zero, suc, ◌+◌, ◌-◌, ◌^◌, ◌≤◌, ◌<◌, ◌≡◌, refl, ◌∙◌, ap, arith, String, false, ◌==◌, ltb,
  get_or-replicate, if◌then◌else◌, List, [], ◌∷◌, get_or, set, replicate, length, length-set,
  get_or-set, length-replicate, Bool-cases, ◌⊎◌, inl, inr, count, u64_mod,
}
use causasv.Error.{Result, ok, err, overflow, Message}
use causasv.Prelude.Totals.{sum_over}
use causasv.Bits.{shl1, members_from, for_bits, for_each, shl1-small}
use causasv.Bits.Peel.{for_bits-members, pow-le}
use causasv.DagDp.{for_masks, add_at, overflowed, ind_node, compute_dp_ind}
use causasv.DagDp.Counting.{
  is_source, linear_extensions, linear_extensions_step, linear_extensions_zero, member_bit, xor_lt,
}

-- The run fails with an overflow.
abbrev pub Overflows {ℓ} : {A : Type ℓ} → Result A → Type ℓ
Overflows r = (msg : Message) × (r ≡ err (overflow msg))

add_at_fits :
    (name : String) (reported : ℕ) (table : List ℕ) (at x : ℕ)
    → get_or table at 0 + x < u64_mod
    → add_at name reported table at x ≡ ok (set table at (get_or table at 0 + x))
unfolding add_at
add_at_fits name reported table at x h = ground arith

add_at_overflows :
    (name : String) (reported : ℕ) (table : List ℕ) (at x : ℕ)
    → u64_mod ≤ get_or table at 0 + x
    → add_at name reported table at x ≡ err (overflow (overflowed name reported))
unfolding add_at
add_at_overflows name reported table at x h = ground arith

module _ (parents_mask : List ℕ) where
  -- The table is right below `mask`, and still 0 from `mask` on.
  record Filled (size mask : ℕ) (dp : List ℕ) : Type 0 where
    sized : length dp ≡ size
    done : (m : ℕ) → m < mask → m < size → get_or dp m 0 ≡ linear_extensions parents_mask m
    fits : (m : ℕ) → m < mask → m < size → linear_extensions parents_mask m < u64_mod
    fresh : (m : ℕ) → mask ≤ m → get_or dp m 0 ≡ 0

  -- What the loop over the bits `is` of `mask` has added to the entry of `mask`.
  abbrev part : ℕ → ℕ → ℕ
  part mask i =
      if is_source parents_mask mask i
      then linear_extensions parents_mask (bit_xor mask (shl1 i))
      else 0

  -- Only the entry of `mask` differs between the tables.
  abbrev Agrees : ℕ → List ℕ → List ℕ → Type 0
  Agrees mask dp dp' =
      (length dp' ≡ length dp) × ((m : ℕ) → (mask == m) ≡ false → get_or dp' m 0 ≡ get_or dp m 0)

  ind_node_adds :
      (mask i : ℕ) (dp : List ℕ)
      → mask < length dp
      → get_or dp mask 0 < u64_mod
      → get_or dp (bit_xor mask (shl1 i)) 0 ≡ linear_extensions parents_mask (bit_xor mask (shl1 i))
      → ((dp' : List ℕ) × (ind_node parents_mask mask i dp ≡ ok dp')
          × Agrees mask dp dp'
          × (get_or dp' mask 0 ≡ get_or dp mask 0 + part mask i)
          × (get_or dp mask 0 + part mask i < u64_mod))
        ⊎ (Overflows (ind_node parents_mask mask i dp) × (u64_mod ≤ get_or dp mask 0 + part mask i))
  unfolding ind_node
  ind_node_adds mask i dp lt small known = elim (Bool-cases (is_source parents_mask mask i)) [
    | inr e ↦ inl (dp, rw e refl, (refl, λ m other. refl), rw e (omega arith), rw e (omega arith))
    | inl e ↦
        let x = linear_extensions parents_mask (bit_xor mask (shl1 i)) in
        let sum = get_or dp mask 0 + x in
        let write = λ (m : ℕ). get_or-set dp mask m sum 0 lt in
        elim (Bool-cases (ltb sum u64_mod)) [
          | inl fits ↦ inl (
            set dp mask sum,
            rw (e, known) (add_at_fits _ mask dp mask x (ground arith)),
            (length-set dp mask sum, λ m other. ground (arith, write m)),
            rw e (ground (arith, write mask)),
            rw e (ground arith),
          )
          | inr full ↦ inr (
            (
              overflowed "dp_ind" mask,
              rw (e, known) (add_at_overflows _ mask dp mask x (ground arith)),
            ),
            rw e (ground arith),
          )
        ]
  ]

  -- The whole loop over a list of nodes adds up their parts, or overflows.
  bits_add :
      (mask : ℕ) (is : List ℕ) (dp : List ℕ)
      → mask < length dp
      → get_or dp mask 0 < u64_mod
      → ((i : ℕ)
          → 0 < count i is
          → ((mask == bit_xor mask (shl1 i)) ≡ false)
            × (get_or dp (bit_xor mask (shl1 i)) 0
                ≡ linear_extensions parents_mask (bit_xor mask (shl1 i))))
      → ((dp' : List ℕ) × (for_each is (ind_node parents_mask mask) dp ≡ ok dp')
          × Agrees mask dp dp'
          × (get_or dp' mask 0 ≡ get_or dp mask 0 + sum_over is (part mask))
          × (get_or dp mask 0 + sum_over is (part mask) < u64_mod))
        ⊎ (Overflows (for_each is (ind_node parents_mask mask) dp)
            × (u64_mod ≤ get_or dp mask 0 + sum_over is (part mask)))
  unfolding for_each
  bits_add mask [] dp lt small known =
      inl (dp, refl, (refl, λ m other. refl), omega arith, omega arith)
  bits_add mask (i ∷ is) dp lt small known =
      elim (ind_node_adds mask i dp lt small (known i (ground arith)).1) [
        | inr ((msg, e), big) ↦ inr ((msg, rw e refl), omega arith)
        | inl (dp₁, e, (size₁, same₁), entry₁, fits₁) ↦
            elim (bits_add mask is dp₁ (omega arith) (omega arith) (λ j m.
              let (other, value) = known j (ground arith) in
              (other, same₁ (bit_xor mask (shl1 j)) other ∙ value))) [
                | inr ((msg, e'), big) ↦ inr ((msg, rw e e'), omega arith)
                | inl (dp₂, e', (size₂, same₂), entry₂, fits₂) ↦ inl (
                  dp₂,
                  rw e e',
                  (size₂ ∙ size₁, λ m other. same₂ m other ∙ same₁ m other),
                  omega arith,
                  omega arith,
                )
              ]
      ]

  -- One round of the outer loop fills in the entry of `mask`.
  mask_round :
      (size mask : ℕ) (dp : List ℕ)
      → size ≤ 2 ^ 63
      → 0 < mask
      → mask < size
      → Filled size mask dp
      → ((dp' : List ℕ) × (for_bits 64 mask (ind_node parents_mask mask) dp ≡ ok dp')
          × Filled size (suc mask) dp')
        ⊎ (Overflows (for_bits 64 mask (ind_node parents_mask mask) dp)
            × (u64_mod ≤ linear_extensions parents_mask mask))
  mask_round size mask dp big pos lt filled =
      let word : mask < 2 ^ 64 = omega arith in
      let listed = for_bits-members mask (ind_node parents_mask mask) dp word in
      let total = linear_extensions_step parents_mask mask word pos in
      let blank = filled.fresh mask (omega arith) in
      let at_mask = λ (m : ℕ) (e : mask ≡ m). ap (linear_extensions parents_mask) e in
      let at_entry = λ (m : ℕ) (table : List ℕ) (e : mask ≡ m). ap (λ k. get_or table k 0) e in
      rw listed
        (elim (bits_add mask (members_from 0 64 mask) dp (omega (arith, filled.sized)) (omega arith)
          (λ i m.
            let (set, small) = member_bit mask i word m in
            let smaller = xor_lt i mask small set in
            (ground arith, filled.done (bit_xor mask (shl1 i)) smaller (omega arith)))) [
              | inr (over, excess) ↦ inr (over, omega arith)
              | inl (dp', e, (size', same), entry, fits) ↦ inl (
                dp',
                e,
                record {
                  sized = omega (arith, filled.sized);
                  done = λ m below inside.
                      ground (arith, filled.done m, same m, at_mask m, at_entry m dp');
                  fits = λ m below inside. ground (arith, filled.fits m, at_mask m);
                  fresh = λ m above. ground (arith, same m, filled.fresh m);
                },
              )
            ])

  masks_fill :
      (size k mask : ℕ) (dp : List ℕ)
      → size ≤ 2 ^ 63
      → 0 < mask
      → mask + k ≡ size
      → Filled size mask dp
      → ((dp' : List ℕ) × (for_masks k mask (λ m. for_bits 64 m (ind_node parents_mask m)) dp
            ≡ ok dp')
          × Filled size size dp')
        ⊎ (Overflows (for_masks k mask (λ m. for_bits 64 m (ind_node parents_mask m)) dp)
            × ((m : ℕ) × (m < size) × (u64_mod ≤ linear_extensions parents_mask m)))
  unfolding for_masks
  masks_fill size zero mask dp big pos end filled =
      let e : mask ≡ size = omega arith in inl (dp, refl, rw e at filled)
  masks_fill size (suc k) mask dp big pos end filled =
      elim (mask_round size mask dp big pos (omega arith) filled) [
        | inr ((msg, e), excess) ↦ inr ((msg, rw e refl), (mask, omega arith, excess))
        | inl (dp', e, filled') ↦
            rw e (masks_fill size k (suc mask) dp' big (omega arith) (omega arith) filled')
      ]

  start-Filled : (size : ℕ) → 0 < size → Filled size 1 (set (replicate size 0) 0 1)
  start-Filled size pos =
      let blank : List ℕ = replicate size 0 in
      let room : 0 < length blank = omega (arith, length-replicate {A = ℕ} size 0) in
      let read = λ (m : ℕ). get_or-set blank 0 m 1 0 room in
      let first = linear_extensions_zero parents_mask in
      let at_zero = λ (m : ℕ) (e : m ≡ 0). ap (linear_extensions parents_mask) e in
      record {
        sized = length-set blank 0 1 ∙ length-replicate size 0;
        done = λ m below inside. ground (arith, read m, first, at_zero m);
        fits = λ m below inside. ground (arith, first, at_zero m);
        fresh = λ m above. ground (arith, read m, get_or-replicate {A = ℕ} size m 0);
      }

  -- For n < 64 nodes and any parent masks: either `compute_dp_ind` returns a table whose entry for
  -- each mask below 2 ^ n is the number of linear extensions of the subgraph on that mask, and all
  -- these numbers are below 2 ^ 64; or it returns an overflow error, and some mask below 2 ^ n has
  -- at least 2 ^ 64 linear extensions.
  pub compute_dp_ind_exact :
      (n : ℕ)
      → n < 64
      → ((table : List ℕ) × (compute_dp_ind parents_mask n ≡ ok table)
          × ((mask : ℕ)
              → mask < 2 ^ n
              → (get_or table mask 0 ≡ linear_extensions parents_mask mask)
                × (linear_extensions parents_mask mask < u64_mod)))
        ⊎ (Overflows (compute_dp_ind parents_mask n)
            × ((mask : ℕ) × (mask < 2 ^ n) × (u64_mod ≤ linear_extensions parents_mask mask)))
  unfolding compute_dp_ind
  compute_dp_ind_exact n small =
      let pos : 1 ≤ 2 ^ n = omega (arith, pow-le 0 n (omega arith)) in
      rw (shl1-small n small)
        (elim (masks_fill (2 ^ n) (2 ^ n - 1) 1 (set (replicate (2 ^ n) 0) 0 1)
          (omega (arith, pow-le n 63 (omega arith))) (omega arith) (omega arith)
          (start-Filled (2 ^ n) pos)) [
            | inr over ↦ inr over
            | inl (table, e, filled) ↦
                inl (table, e, λ mask lt. (filled.done mask lt lt, filled.fits mask lt lt))
          ])
