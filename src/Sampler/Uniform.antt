-- ===== src/Sampler/Uniform.antt =====
-- The choice of the next node by `sample_uniform_into` (src/sampler.rs): each candidate is taken by
-- as many draws as orders go on with it.
use Prim.Native.Nat.{bit_and, bit_xor}
use causasv.Prelude.{
  ℕ, ◌-◌, ◌^◌, ◌<◌, ◌≡◌, refl, sym, ◌∙◌, ap, arith, List, count, get_or, if◌then◌else◌, ◌==◌, ◌&&◌,
  Bool-cases, inl, inr, u64_mod,
}
use causasv.Prelude.Totals.{total, total_ext, sum_over, sum_over_ext}
use causasv.Bits.{bit_at, shl1, members_from, count-members_from}
use causasv.Bits.Digits.{bit_at-xor, bit_at_beyond, lt-pow_of_bits}
use causasv.Bits.Sets.{subset_bits, subset_of_bits, disjoint_bits, disjoint_of_bits}
use causasv.Error.{ok}
use causasv.DagDp.{compute_dp_ind}
use causasv.DagDp.Table.{compute_dp_ind_exact}
use causasv.DagDp.Orders.{bit_at-ones}
use causasv.Bits.Peel.{peel, peel-members, pow-le}
use causasv.DagDp.Counting.{
  is_source, linear_extensions, linear_extensions_step, member_bit, xor_lt,
}
use causasv.Numerics.{Float}
use causasv.Sampler.{Rng, pick}
use causasv.Sampler.Choose.{choose, hits, total-choose, weight, pick-peel}

module _ (parents_mask : List ℕ) (n : ℕ) (few : n < 64) where
  -- The table of `compute_dp_ind`, where no count overflows.
  abbrev pub IsTable : List ℕ → Type 0
  IsTable table =
      (mask : ℕ)
      → mask < 2 ^ n
      → (get_or table mask 0 ≡ linear_extensions parents_mask mask)
        × (linear_extensions parents_mask mask < u64_mod)

  -- What `compute_dp_ind` returns is such a table.
  pub compute_dp_ind-IsTable :
      (table : List ℕ) → compute_dp_ind parents_mask n ≡ ok table → IsTable table
  compute_dp_ind-IsTable table computed = elim (compute_dp_ind_exact parents_mask n few) [
    | inl (filled, returned, entries) ↦
        let same : filled ≡ table = cc (returned, computed) in
        λ mask lt.
          let (value, fits) = entries mask lt in
          (ap (λ t. get_or t mask 0) (sym same) ∙ value, fits)
    | inr ((msg, failed), many) ↦ absurd (cc (failed, computed))
  ]

  -- With all the other nodes placed, a node has its parents placed exactly if it is a source of
  -- what remains.
  placed-is_source :
      (placed i : ℕ)
      → placed < 2 ^ n
      → get_or parents_mask i 0 < 2 ^ n
      → (bit_and (get_or parents_mask i 0) placed == get_or parents_mask i 0)
        ≡ is_source parents_mask (bit_xor (2 ^ n - 1) placed) i
  placed-is_source placed i lt known =
      let pmask = get_or parents_mask i 0 in
      let rest = bit_xor (2 ^ n - 1) placed in
      let inner = λ (j : ℕ). bit_at-xor j (2 ^ n - 1) placed in
      let ones = λ (j : ℕ). bit_at-ones n j in
      let beyond = λ (j : ℕ). bit_at_beyond n j pmask known in
      elim (Bool-cases (bit_and pmask placed == pmask)) [
        | inl e ↦ rw e (
            sym (
              disjoint_of_bits pmask rest (λ j set.
                ground (arith, subset_bits pmask placed e j set, inner j, ones j, beyond j))))
        | inr e ↦ rw e (elim (Bool-cases (is_source parents_mask rest i)) [
          | inr f ↦ sym f
          | inl f ↦
              let sub = subset_of_bits pmask placed (λ j set.
                ground (arith, disjoint_bits pmask rest f j set, inner j, ones j, beyond j)) in
              absurd (ground arith)
        ])
      ]

  pub rest-lt : (placed : ℕ) → placed < 2 ^ n → bit_xor (2 ^ n - 1) placed < 2 ^ n
  rest-lt placed lt = lt-pow_of_bits n (bit_xor (2 ^ n - 1) placed) (λ i le.
      ground (arith, bit_at-xor i (2 ^ n - 1) placed, bit_at-ones n i, bit_at_beyond n i placed lt))

  -- A node that remains is weighed by the orders of the rest, if it is a source.
  pub weight-is_source :
      (rng : Rng) (fl : Float) (table : List ℕ)
      → IsTable table
      → (placed i : ℕ) → placed < 2 ^ n
      → ((v : ℕ) → v < n → get_or parents_mask v 0 < 2 ^ n)
      → 0 < count i (members_from 0 64 (bit_xor (2 ^ n - 1) placed))
      → weight rng fl parents_mask table (bit_xor (2 ^ n - 1) placed) placed i ≡ (
          if is_source parents_mask (bit_xor (2 ^ n - 1) placed) i
          then linear_extensions parents_mask (bit_xor (bit_xor (2 ^ n - 1) placed) (shl1 i))
          else 0)
  weight-is_source rng fl table right placed i lt known listed =
      let remaining = bit_xor (2 ^ n - 1) placed in
      let word : remaining < 2 ^ 64 = omega (arith, pow-le n 64 (omega arith), rest-lt placed lt) in
      let (set, small) = member_bit remaining i word listed in
      let node : i < n = ground (arith, bit_at_beyond n i remaining (rest-lt placed lt)) in
      let smaller = xor_lt i remaining small set in
      let (value, fits) =
        right (bit_xor remaining (shl1 i)) (omega (arith, smaller, rest-lt placed lt)) in
      rw (placed-is_source placed i lt (known i node), value) refl

  -- With all nodes but `remaining` placed, the loop reads its draw off the weights of the sources.
  pub pick-choose :
      (rng : Rng) (fl : Float) (table : List ℕ)
      → IsTable table
      → (placed : ℕ) → placed < 2 ^ n
      → ((v : ℕ) → v < n → get_or parents_mask v 0 < 2 ^ n)
      → 0 < bit_xor (2 ^ n - 1) placed
      → let remaining = bit_xor (2 ^ n - 1) placed in
        let w = weight rng fl parents_mask table remaining placed in
        let nodes = members_from 0 64 remaining in
        (sum_over nodes w ≡ get_or table remaining 0)
        × ((drawn : ℕ)
            → pick rng fl parents_mask 64 table remaining remaining placed drawn 0
              ≡ choose w nodes drawn)
  pick-choose rng fl table right placed lt known pos =
      let remaining = bit_xor (2 ^ n - 1) placed in
      let small = rest-lt placed lt in
      let word : remaining < 2 ^ 64 = omega (arith, pow-le n 64 (omega arith), small) in
      let w = weight rng fl parents_mask table remaining placed in
      let nodes = members_from 0 64 remaining in
      let listed : peel 64 remaining ≡ nodes =
        peel-members 64 64 remaining word (omega arith) (omega arith) in
      let (value, fits) = right remaining small in
      let sum : sum_over nodes w ≡ get_or table remaining 0 =
        sum_over_ext nodes w _ (λ j m. weight-is_source rng fl table right placed j lt known m)
        ∙ sym (linear_extensions_step parents_mask remaining word pos)
        ∙ sym value in
      let start = λ (drawn : ℕ).
        pick-peel rng fl parents_mask table remaining placed 64 remaining drawn 0 word (omega arith)
          (omega (arith, sum, value, fits, ap (λ is. sum_over is w) listed)) in
      (
        sum,
        λ drawn.
            let back : drawn - 0 ≡ drawn = omega arith in
            start drawn
            ∙ ap (choose w (peel 64 remaining)) back
            ∙ ap (λ is. choose w is drawn) listed,
      )

  -- With fewer than 64 nodes, a table of the numbers of linear extensions that all fit in 64 bits,
  -- parent masks below `2 ^ n` for the nodes below `n`, and at least one node not placed: of the
  -- draws below the table entry of what remains, as many make the inner loop choose node `i` as
  -- there are linear extensions of what remains without `i`, if `i` remains and is a source of what
  -- remains, and none otherwise.
  pub pick_uniform :
      (rng : Rng) (fl : Float) (table : List ℕ)
      → IsTable table
      → (placed i : ℕ) → placed < 2 ^ n
      → ((v : ℕ) → v < n → get_or parents_mask v 0 < 2 ^ n)
      → 0 < bit_xor (2 ^ n - 1) placed
      → let remaining = bit_xor (2 ^ n - 1) placed in
        total
          (get_or table remaining 0)
          (λ drawn. hits i (pick rng fl parents_mask 64 table remaining remaining placed drawn 0))
        ≡ (if bit_at i remaining && is_source parents_mask remaining i
            then linear_extensions parents_mask (bit_xor remaining (shl1 i))
            else 0)
  pick_uniform rng fl table right placed i lt known pos =
      let remaining = bit_xor (2 ^ n - 1) placed in
      let word : remaining < 2 ^ 64 = omega (arith, pow-le n 64 (omega arith), rest-lt placed lt) in
      let w = weight rng fl parents_mask table remaining placed in
      let nodes = members_from 0 64 remaining in
      let (sum, chosen) = pick-choose rng fl table right placed lt known pos in
      let counted =
        total_ext (get_or table remaining 0) _ (λ drawn. hits i (choose w nodes drawn))
          (λ drawn below. ap (hits i) (chosen drawn))
        ∙ ap (λ k. total k (λ drawn. hits i (choose w nodes drawn))) (sym sum)
        ∙ total-choose w nodes i in
      let once = count-members_from 0 64 remaining i word in
      let same : i - 0 ≡ i = omega arith in
      counted ∙ elim (Bool-cases (bit_at i remaining)) [
        | inl e ↦
            let one : count i nodes ≡ 1 = ground (arith, ap (λ k. bit_at k remaining) same) in
            rw (one, e, weight-is_source rng fl table right placed i lt known (omega arith))
              (omega arith)
        | inr e ↦
            let none_left : count i nodes ≡ 0 = ground (arith, ap (λ k. bit_at k remaining) same) in
            rw (none_left, e) (omega arith)
      ]
