-- ===== src/DagDp/Orders.antt =====
-- The count of linear extensions is the number of orders that `enumerate_topos` lists
-- (src/dag_dp.rs, src/topo.rs).
use Prim.Native.Nat.{bit_xor}
use causasv.Prelude.{
  ℕ, zero, suc, ◌+◌, ◌-◌, ◌*◌, ◌/◌, ◌^◌, ◌≤◌, ◌<◌, ◌≡◌, refl, sym, ◌∙◌, ap, ◌⊎◌, arith, true, ◌&&◌,
  ◌==◌, ltb, if◌then◌else◌, List, [], ◌∷◌, ◌++◌, map, get_or, length, length-append, length-map,
  count, count-append, Bool-cases, inl, inr,
}
use causasv.Bits.{
  bit_at, shl1, members_from, bit_at-shl1, disjoint_bits, disjoint_of_bits, count-members_from,
}
use causasv.Bits.Digits.{bit_at-xor, bit_at-zero, bit_ext}
use causasv.Cache.Masks.{contains-count}
use causasv.Graph.Index.{NameIndex}
use causasv.Graph.{Dag, node_count, parents_raw, sources_from}
use causasv.Graph.WellFormed.{IsWellFormed, parent-lt}
use causasv.Topo.Spec.{waiting-zero, waiting-zero_mem}
use causasv.Prelude.Totals.{
  total_ext, total-count, total_ones, sum_over, sum_over_ext, sum_over-count,
}
use causasv.Topo.Ends.{count-sources}
use causasv.Topo.Backtrack.{orders, each_order, placed_at}
use causasv.Topo.Orders.{At, At-next, all_placed, start-At, enumerate_topos-orders}
use causasv.Topo.{enumerate_topos}
use causasv.Error.{ok, >>=-eq-ok}
use causasv.Bits.Peel.{pow-le}
use native.Mathlib.Nat.{pow-suc}
use causasv.Graph.{validate, in_degrees}
use causasv.Asv.ParentsMask.{parents_masks, bit_at-parents_masks}
use causasv.DagDp.{compute_dp_ind}
use causasv.DagDp.Table.{Overflows, compute_dp_ind_exact}
use causasv.DagDp.Counting.{
  is_source, linear_extensions, linear_extensions_step, linear_extensions_zero, member_bit, xor_lt,
}

-- The lowest `n` bits of `2 ^ n - 1` are set, and no other.
pub bit_at-ones : (n i : ℕ) → bit_at i (2 ^ n - 1) ≡ ltb i n
bit_at-ones zero i = rw (bit_at-zero i) (ground arith)
bit_at-ones (suc n) zero = ground (arith, pow-suc 2 n, pow-le 0 n (omega arith))
bit_at-ones (suc n) (suc i) =
    let e : (2 ^ suc n - 1) / 2 ≡ 2 ^ n - 1 =
      omega (arith, pow-suc 2 n, pow-le 0 n (omega arith)) in
    rw e (ground (arith, bit_at-ones n i))

module _ {im : NameIndex} (d : Dag im) where
  -- The nodes that are not placed yet, as a mask.
  abbrev pub IsRest : List ℕ → ℕ → Type 0
  IsRest placed mask = (i : ℕ) → bit_at i mask ≡ (ltb i (node_count d) && count i placed == 0)

  module _ (wf : IsWellFormed d) (few : node_count d ≤ 63) where
    length-each_order :
        (recurse : List ℕ → List (List ℕ)) (in_deg nodes : List ℕ)
        → length (each_order d recurse in_deg nodes)
          ≡ sum_over nodes (λ v. length (recurse (placed_at d in_deg v)))
    unfolding each_order
    length-each_order recurse in_deg [] = refl
    length-each_order recurse in_deg (v ∷ vs) = omega (
      arith,
      length-append (map (λ order. v ∷ order) (recurse (placed_at d in_deg v)))
          (each_order d recurse in_deg vs),
      length-map (recurse (placed_at d in_deg v)) (λ (order : List ℕ). v ∷ order),
      length-each_order recurse in_deg vs,
    )

    -- A node still to be placed is a source of the rest exactly if its in-degree is 0.
    pub source-degree :
        (placed in_deg : List ℕ) (mask v : ℕ)
        → At d placed in_deg
        → IsRest placed mask
        → bit_at v mask ≡ true
        → is_source (parents_masks d) mask v ≡ (get_or in_deg v 0 == 0)
    source-degree placed in_deg mask v at rest set =
        let pmask = get_or (parents_masks d) v 0 in
        let lt : v < node_count d = ground (arith, rest v) in
        let entry = at.degree v lt in
        let parent_bit = λ (p : ℕ). bit_at-parents_masks d wf few v lt p in
        elim (Bool-cases (get_or in_deg v 0 == 0)) [
          | inl free ↦
              let placed_parents =
                waiting-zero_mem placed (parents_raw d v) (ground (arith, rest v)) in
              rw free (
                disjoint_of_bits pmask mask (λ p h. ground (
                  arith,
                  parent_bit p,
                  contains-count (parents_raw d v) p,
                  placed_parents p,
                  rest p,
                )))
          | inr busy ↦ rw busy (elim (Bool-cases (is_source (parents_masks d) mask v)) [
            | inr e ↦ e
            | inl e ↦
                let none_waits = waiting-zero placed (parents_raw d v) (λ p m. ground (
                  arith,
                  disjoint_bits pmask mask e p,
                  parent_bit p,
                  contains-count (parents_raw d v) p,
                  parent-lt d wf p v m,
                  rest p,
                )) in
                absurd (ground (arith, rest v))
          ])
        ]

    pub next-IsRest :
        (placed : List ℕ) (mask v : ℕ)
        → IsRest placed mask
        → bit_at v mask ≡ true
        → IsRest (placed ++ v ∷ []) (bit_xor mask (shl1 v))
    next-IsRest placed mask v rest set i =
        let lt : v < node_count d = ground (arith, rest v) in
        ground (
          arith,
          bit_at-xor i mask (shl1 v),
          bit_at-shl1 v i (omega arith),
          count-append i placed (v ∷ []),
          rest i,
          ap (λ k. bit_at k mask) {x = v} {y = i},
        )

    free-bit :
        (placed in_deg : List ℕ) (mask v : ℕ)
        → At d placed in_deg
        → IsRest placed mask
        → v < node_count d
        → get_or in_deg v 0 ≡ 0
        → bit_at v mask ≡ true
    free-bit placed in_deg mask v at rest lt free = ground (arith, at.degree v lt, rest v)

    pub rest_pos :
        (placed in_deg : List ℕ) (mask : ℕ)
        → At d placed in_deg
        → IsRest placed mask
        → length placed < node_count d
        → 0 < mask
    rest_pos placed in_deg zero at rest short = absurd (
        omega (
          arith,
          total-count (node_count d) placed at.below,
          total_ones (node_count d) (λ v. count v placed)
              (λ v lt. ground (arith, rest v, bit_at-zero v, at.once v)),
        ))
    rest_pos placed in_deg (suc m) at rest short = omega arith

    same_terms :
        (placed in_deg : List ℕ) (mask v x : ℕ)
        → At d placed in_deg
        → mask < 2 ^ 64
        → IsRest placed mask
        → v < node_count d
        → count v (sources_from 0 in_deg) * x
          ≡ count v (members_from 0 64 mask) * (if is_source (parents_masks d) mask v then x else 0)
    same_terms placed in_deg mask v x at word rest lt =
        let e : v - 0 ≡ v = omega arith in
        let listed = count-sources in_deg v (omega (arith, at.size, wf.small)) in
        let member = rw e at (count-members_from 0 64 mask v word) in
        elim (Bool-cases (bit_at v mask)) [
          | inl set ↦
              rw (source-degree placed in_deg mask v at rest set)
                (ground (arith, listed, member, at.size))
          | inr unset ↦ ground (arith, listed, member, at.degree v lt, rest v)
        ]

    -- The orders that `enumerate_topos` lists from a state are as many as the linear extensions of
    -- the nodes still to be placed.
    length-orders :
        (remaining : ℕ) (placed in_deg : List ℕ) (mask : ℕ)
        → At d placed in_deg
        → remaining + length placed ≡ node_count d
        → mask < 2 ^ 64
        → IsRest placed mask
        → length (orders d remaining in_deg) ≡ linear_extensions (parents_masks d) mask
    unfolding orders
    length-orders zero placed in_deg mask at full word rest =
        let done = all_placed d wf placed in_deg at (omega arith) in
        let e : mask ≡ 0 =
          bit_ext mask mask 0 (omega arith) (omega arith)
            (λ i. ground (arith, rest i, bit_at-zero i, done.each i)) in
        rw (e, linear_extensions_zero (parents_masks d)) refl
    length-orders (suc remaining) placed in_deg mask at full word rest =
        let pm = parents_masks d in
        let sources = sources_from 0 in_deg in
        let listed = λ (v : ℕ). count-sources in_deg v (omega (arith, at.size, wf.small)) in
        let g = λ (v : ℕ). linear_extensions pm (bit_xor mask (shl1 v)) in
        length-each_order (orders d remaining) in_deg sources
        ∙ sum_over_ext sources _ g (λ v m.
          let lt : v < node_count d = ground (arith, listed v, at.size) in
          let free : get_or in_deg v 0 ≡ 0 = ground (arith, listed v) in
          let set = free-bit placed in_deg mask v at rest lt free in
          let smaller = xor_lt v mask (omega arith) set in
          length-orders remaining (placed ++ v ∷ []) (placed_at d in_deg v) (bit_xor mask (shl1 v))
            (At-next d wf placed in_deg v at lt free) (omega (arith, length-append placed (v ∷ [])))
            (omega arith) (next-IsRest placed mask v rest set))
        ∙ sum_over-count (node_count d) sources g (λ v m. ground (arith, listed v, at.size))
        ∙ total_ext (node_count d) _ _
            (λ v lt. same_terms placed in_deg mask v (g v) at word rest lt)
        ∙ sym (
            sum_over-count (node_count d) (members_from 0 64 mask)
              (λ v. if is_source pm mask v then g v else 0)
              (λ v m. let (set, small) = member_bit mask v word m in ground (arith, rest v)))
        ∙ sym (
            linear_extensions_step pm mask word (rest_pos placed in_deg mask at rest (omega arith)))

    same_length :
        {xss yss : List (List ℕ)} {k : ℕ}
        → enumerate_topos d ≡ ok xss
        → enumerate_topos d ≡ ok yss
        → length xss ≡ k
        → k ≡ length yss
    same_length h h' e = cc

    pub linear_extensions-enumerate_topos :
        (listing : List (List ℕ))
        → enumerate_topos d ≡ ok listing
        → linear_extensions (parents_masks d) (2 ^ node_count d - 1) ≡ length listing
    unfolding enumerate_topos
    linear_extensions-enumerate_topos listing h =
        let (u, valid, later) = >>=-eq-ok (validate d) _ h in
        let listed = enumerate_topos-orders d wf valid in
        let counted =
          length-orders (node_count d) [] (in_degrees d) (2 ^ node_count d - 1) (start-At d wf)
            (omega arith) (omega (arith, pow-le (node_count d) 63 few))
            (λ i. rw (bit_at-ones (node_count d) i) (ground arith)) in
        same_length listed h counted

    -- For a well-formed graph of at most 63 nodes of which `enumerate_topos` returns a list of
    -- orders: either `compute_dp_ind`, on the masks of the parents, returns a table whose entry for
    -- the set of all nodes is the length of that list, or it returns an overflow error.
    pub compute_dp_ind-enumerate_topos :
        (listing : List (List ℕ))
        → enumerate_topos d ≡ ok listing
        → ((table : List ℕ) × (compute_dp_ind (parents_masks d) (node_count d) ≡ ok table)
            × (get_or table (2 ^ node_count d - 1) 0 ≡ length listing))
          ⊎ Overflows (compute_dp_ind (parents_masks d) (node_count d))
    compute_dp_ind-enumerate_topos listing h =
        elim (compute_dp_ind_exact (parents_masks d) (node_count d) (omega arith)) [
          | inl (table, computed, entries) ↦
              let last =
                entries (2 ^ node_count d - 1)
                  (omega (arith, pow-le 0 (node_count d) (omega arith))) in
              inl (table, computed, last.0 ∙ linear_extensions-enumerate_topos listing h)
          | inr (overflows, many) ↦ inr overflows
        ]
