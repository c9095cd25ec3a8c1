-- ===== src/Sampler/Walk.antt =====
-- `sample_uniform_into` (src/sampler.rs) on a table without overflow: every round finds a node, and
-- the nodes found are a topological order.
use Prim.Native.Nat.{bit_or, bit_xor}
use causasv.Prelude.{
  ℕ, zero, suc, ◌+◌, ◌-◌, ◌^◌, ◌<◌, ◌≤◌, ◌≡◌, refl, ◌∙◌, ap, arith, Bool, true, false, List, [],
  ◌∷◌, ◌++◌, length, length-append, get_or, if◌then◌else◌, ltb, Bool-cases, inl, inr, Option, none,
  some, as_u32, as_u32_small,
}
use causasv.Bits.{bit_at, shl1, shl1-small, members_from, bit_at-shl1}
use causasv.Cache.Masks.{contains-count}
use causasv.Bits.Digits.{bit_at-xor, bit_at-or, bit_at_beyond, bit_ext, lt-pow_of_bits}
use causasv.Bits.Lowest.{bit_xor-zero}
use causasv.Bits.Peel.{pow-le}
use causasv.Graph.Index.{NameIndex}
use causasv.Error.{ok}
use causasv.Graph.{Dag, validate, in_degrees, push_back, node_count, parents_raw}
use causasv.Graph.WellFormed.{IsWellFormed, parent-lt}
use causasv.Topo.Spec.{Follows, IsTopoOrder, waiting-zero_mem}
use causasv.Topo.Sort.{topo_sort_decides, accepted-IsAcyclic, push_back-IsQueue}
use causasv.Topo.Kahn.{Follows-snoc}
use causasv.Topo.Backtrack.{placed_at}
use causasv.Topo.Orders.{enumerate_topos_exact, At, At-next, all_placed, start-At}
use causasv.Topo.Occurs.{occurs}
use causasv.Asv.ParentsMask.{parents_masks, length-parents_masks, bit_at-parents_masks}
use causasv.DagDp.Counting.{is_source, linear_extensions, member_bit}
use causasv.DagDp.{compute_dp_ind}
use causasv.DagDp.Orders.{
  linear_extensions-enumerate_topos, IsRest, bit_at-ones, source-degree, rest_pos, next-IsRest,
}
use causasv.Numerics.{Float}
use causasv.Sampler.{Rng, uniform_rounds, sample_uniform_into, pick}
use causasv.Sampler.Uniform.{
  compute_dp_ind-IsTable, IsTable, weight-is_source, pick-choose, rest-lt,
}
use causasv.Sampler.Choose.{choose-some, weight}

of_if : (test : Bool) (x w : ℕ) → w ≡ (if test then x else 0) → 0 < w → (test ≡ true) × (0 < x)
of_if true x w e pos = (refl, omega arith)
of_if false x w e pos = absurd (omega arith)

module _ {im : NameIndex} (d : Dag im) (wf : IsWellFormed d) (few : node_count d ≤ 63) where
  parents_known : (v : ℕ) → v < node_count d → get_or (parents_masks d) v 0 < 2 ^ node_count d
  parents_known v lt = lt-pow_of_bits (node_count d) (get_or (parents_masks d) v 0) (λ p le.
      ground (
        arith,
        bit_at-parents_masks d wf few v lt p,
        contains-count (parents_raw d v) p,
        parent-lt d wf p v,
      ))

  -- Placing one more node takes it out of what remains.
  remaining_next :
      (placed i : ℕ)
      → placed < 2 ^ node_count d
      → i < 64
      → bit_at i (bit_xor (2 ^ node_count d - 1) placed) ≡ true
      → bit_xor (2 ^ node_count d - 1) (bit_or placed (shl1 i))
        ≡ bit_xor (bit_xor (2 ^ node_count d - 1) placed) (shl1 i)
  remaining_next placed i lt small set =
      let full = 2 ^ node_count d - 1 in
      let a = bit_xor full (bit_or placed (shl1 i)) in
      let b = bit_xor (bit_xor full placed) (shl1 i) in
      bit_ext (a + b) a b (omega arith) (omega arith) (λ j. ground (
        arith,
        bit_at-xor j full (bit_or placed (shl1 i)),
        bit_at-or j placed (shl1 i),
        bit_at-xor j (bit_xor full placed) (shl1 i),
        bit_at-xor j full placed,
        bit_at-shl1 i j small,
        bit_at-ones (node_count d) j,
        bit_at_beyond (node_count d) j placed lt,
        ap (λ k. bit_at k (bit_xor full placed)) {x = i} {y = j},
      ))

  node-lt :
      (ordering : List ℕ) (mask i : ℕ)
      → IsRest d ordering mask
      → bit_at i mask ≡ true
      → i < node_count d
  node-lt ordering mask i rest set = ground (arith, rest i)

  -- The state between two rounds: what is placed, what remains, and that an order goes on from it.
  record IsWalk (placed : ℕ) (ordering in_deg : List ℕ) : Type 0 where
    mask : placed < 2 ^ node_count d
    at : At d ordering in_deg
    rest : IsRest d ordering (bit_xor (2 ^ node_count d - 1) placed)
    follows : Follows d [] ordering
    goes_on : 0 < linear_extensions (parents_masks d) (bit_xor (2 ^ node_count d - 1) placed)

  module _ (rng : Rng) (fl : Float) (table : List ℕ)
      (right : IsTable (parents_masks d) (node_count d) (omega arith) table) where
    open rng use {R, random_range, random_range-lt}

    -- A source that remains, of positive count, can be placed.
    place-IsWalk :
        (placed i : ℕ) (ordering in_deg : List ℕ)
        → IsWalk placed ordering in_deg
        → let remaining = bit_xor (2 ^ node_count d - 1) placed in
          bit_at i remaining ≡ true
          → is_source (parents_masks d) remaining i ≡ true
          → 0 < linear_extensions (parents_masks d) (bit_xor remaining (shl1 i))
          → IsWalk (bit_or placed (shl1 i)) (ordering ++ i ∷ []) (placed_at d in_deg i)
    place-IsWalk placed i ordering in_deg walk set source pos =
        let remaining = bit_xor (2 ^ node_count d - 1) placed in
        let lt : i < node_count d = ground (arith, walk.rest i) in
        let free : get_or in_deg i 0 ≡ 0 =
          ground
            (arith, source-degree d wf few ordering in_deg remaining i walk.at walk.rest set) in
        let next = remaining_next placed i walk.mask (omega arith) set in
        record {
          mask = lt-pow_of_bits (node_count d) (bit_or placed (shl1 i)) (λ j le. ground (
            arith,
            bit_at-or j placed (shl1 i),
            bit_at_beyond (node_count d) j placed walk.mask,
            bit_at-shl1 i j (omega arith),
          ));
          at = At-next d wf ordering in_deg i walk.at lt free;
          rest = rw next (next-IsRest d wf few ordering remaining i walk.rest set);
          follows = Follows-snoc d push_back push_back-IsQueue [] ordering i walk.follows (λ p m.
              omega (
                arith,
                waiting-zero_mem ordering (parents_raw d i) (ground (arith, walk.at.degree i lt)) p
                    m,
              ));
          goes_on = rw next pos;
        }

    draw-lt :
        (r : R) (total : ℕ)
        → 0 < total
        → (if ltb 1 total then random_range r total else (0, r)).0 < total
    draw-lt r total pos = elim (Bool-cases (ltb 1 total)) [
      | inl e ↦ rw e (random_range-lt r total pos)
      | inr e ↦ rw e pos
    ]

    uniform_rounds-done :
        (placed : ℕ) (r : R) (ordering : List ℕ)
        → uniform_rounds rng fl
            (parents_masks d)
            zero
            r
            table
            (2 ^ node_count d - 1)
            placed
            ordering
          ≡ (r, ordering)
    unfolding uniform_rounds
    uniform_rounds-done placed r ordering = refl

    -- A round that finds node `i`.
    uniform_rounds-step :
        (k placed full i : ℕ) (r : R) (pm ordering : List ℕ)
        → let remaining = bit_xor full placed in
          let total = get_or table remaining 0 in
          let draw = if ltb 1 total then random_range r total else (0, r) in
          pick rng fl pm 64 table remaining remaining placed draw.0 0 ≡ some i
          → uniform_rounds rng fl pm (suc k) r table full placed ordering
            ≡ uniform_rounds rng fl pm k draw.1 table full
                (bit_or placed (shl1 i))
                (ordering ++ as_u32 i ∷ [])
    unfolding uniform_rounds
    uniform_rounds-step k placed full i r pm ordering found =
        let remaining = bit_xor full placed in
        let total = get_or table remaining 0 in
        let draw = if ltb 1 total then random_range r total else (0, r) in
        ap
          (λ (o : Option ℕ). elim o as (λ x. R × List ℕ) [
            | none ↦ uniform_rounds rng fl pm k draw.1 table full placed ordering
            | some j ↦
                uniform_rounds rng fl pm k draw.1 table full (bit_or placed (shl1 j))
                  (ordering ++ as_u32 j ∷ [])
          ])
          found

    uniform_rounds-topo :
        (k placed : ℕ) (r : R) (ordering in_deg : List ℕ)
        → IsWalk placed ordering in_deg
        → k + length ordering ≡ node_count d
        → IsTopoOrder d
            (uniform_rounds rng fl
              (parents_masks d)
              k
              r
              table
              (2 ^ node_count d - 1)
              placed
              ordering).1
    uniform_rounds-topo zero placed r ordering in_deg walk full =
        let done = all_placed d wf ordering in_deg walk.at (omega arith) in
        rw (uniform_rounds-done placed r ordering)
          (record { each = λ v. omega (arith, done.each v); follows = walk.follows })
    uniform_rounds-topo (suc k) placed r ordering in_deg walk full =
        let remaining = bit_xor (2 ^ node_count d - 1) placed in
        let pm = parents_masks d in
        let small = rest-lt pm (node_count d) (omega arith) placed walk.mask in
        let word : remaining < 2 ^ 64 =
          omega (arith, pow-le (node_count d) 64 (omega arith), small) in
        let left = rest_pos d wf few ordering in_deg remaining walk.at walk.rest (omega arith) in
        let (sum, chosen) =
          pick-choose pm (node_count d) (omega arith) rng fl table right placed walk.mask
            parents_known left in
        let (value, fits) = right remaining small in
        let total = get_or table remaining 0 in
        let drawn = (if ltb 1 total then random_range r total else (0, r)).0 in
        let below : drawn < total = draw-lt r total (omega (arith, value, walk.goes_on)) in
        let (i, picked, listed, weighs) =
          choose-some (weight rng fl pm table remaining placed) (members_from 0 64 remaining) drawn
            (omega (arith, below, sum)) in
        let (set, low) = member_bit remaining i word listed in
        let lt : i < node_count d = node-lt ordering remaining i walk.rest set in
        let weight_of =
          weight-is_source pm (node_count d) (omega arith) rng fl table right placed i walk.mask
            parents_known listed in
        let (src, pos) = of_if _ _ _ weight_of weighs in
        let found = chosen drawn ∙ picked in
        let same : as_u32 i ≡ i = as_u32_small i (omega (arith, wf.small)) in
        rw (uniform_rounds-step k placed (2 ^ node_count d - 1) i r pm ordering found, same)
          (uniform_rounds-topo k (bit_or placed (shl1 i)) _ (ordering ++ i ∷ []) _
            (place-IsWalk placed i ordering in_deg walk set src pos)
            (omega (arith, length-append ordering (i ∷ []))))

    sample_uniform_into-topo :
        0 < linear_extensions (parents_masks d) (2 ^ node_count d - 1)
        → length (parents_masks d) ≡ node_count d
        → (r : R) → IsTopoOrder d (sample_uniform_into rng fl (parents_masks d) r table).1
    unfolding sample_uniform_into
    sample_uniform_into-topo pos size r =
        let n = node_count d in
        let same : bit_xor (2 ^ n - 1) 0 ≡ 2 ^ n - 1 =
          bit_xor-zero (2 ^ n - 1) (2 ^ n - 1) (omega arith) in
        rw (size, shl1-small n (omega arith))
          (uniform_rounds-topo n 0 r [] (in_degrees d)
            (record {
              mask = pow-le 0 n (omega arith);
              at = start-At d wf;
              rest = λ i. rw (same, bit_at-ones n i) (ground arith);
              follows = tt;
              goes_on = rw same pos;
            })
            (omega arith))

  occurs-pos : (xs : List ℕ) (xss : List (List ℕ)) → 0 < occurs xs xss → 0 < length xss
  occurs-pos xs [] h = absurd (omega arith)
  occurs-pos xs (ys ∷ xss) h = omega arith

  -- A graph that `validate` accepts has an order, so the count of all of them is positive.
  accepted_goes_on :
      validate d ≡ ok tt → 0 < linear_extensions (parents_masks d) (2 ^ node_count d - 1)
  accepted_goes_on valid =
      let (listing, listed, exact) = enumerate_topos_exact d wf valid in
      let counted = linear_extensions-enumerate_topos d wf few listing listed in
      elim (topo_sort_decides d wf) [
        | inl (order, sorted, topo) ↦
            omega (arith, counted, occurs-pos order listing (omega (arith, (exact order).1 topo)))
        | inr (refused, cyclic) ↦ absurd (cyclic (accepted-IsAcyclic d wf valid))
      ]

  -- For a well-formed graph of at most 63 nodes that `validate` accepts: if `compute_dp_ind` on the
  -- masks of the parents returns ok with a table, then the ordering that `sample_uniform_into`
  -- leaves with this table is a topological order of all nodes, whatever the random generator
  -- draws.
  pub sample_uniform_into_exact :
      (rng : Rng) (fl : Float)
      → validate d ≡ ok tt
      → (table : List ℕ) → compute_dp_ind (parents_masks d) (node_count d) ≡ ok table
      → (r : Rng.R rng) → IsTopoOrder d (sample_uniform_into rng fl (parents_masks d) r table).1
  sample_uniform_into_exact rng fl valid table computed r =
      sample_uniform_into-topo rng fl table
        (compute_dp_ind-IsTable (parents_masks d) (node_count d) (omega arith) table computed)
        (accepted_goes_on valid) (length-parents_masks d few) r
