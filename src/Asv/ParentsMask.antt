-- ===== src/Asv/ParentsMask.antt =====
-- The bitmasks of the parents that `AsvExplainer::new` computes (src/asv.rs).
use causasv.Prelude.{
  length, length-map, ◌∙◌, ℕ, zero, suc, ◌+◌, ◌<◌, ◌≤◌, ◌≡◌, refl, arith, List, [], map, leb,
  if◌then◌else◌, as_u32_small, get_or, contains, count, u32_mod, true,
}
use causasv.Bits.{bit_at}
use causasv.Bits.Digits.{bit_at-zero}
use causasv.Cache.{or_nodes}
use causasv.Cache.Masks.{bit_at-or_nodes}
use causasv.Graph.Index.{NameIndex}
use causasv.Graph.{Dag, node_count, node_ids, parents_raw}
use causasv.Graph.WellFormed.{IsWellFormed, parent-lt}

module _ {im : NameIndex} (d : Dag im) where
  abbrev masks_of : List ℕ → List ℕ
  masks_of ids = map (λ i. or_nodes 0 (parents_raw d i)) ids

  unfoldable pub parents_masks : List ℕ
  parents_masks = if leb (node_count d) 63 then masks_of (node_ids 0 (node_count d)) else []

  get_or-masks_of :
      (from k i : ℕ)
      → from + k ≤ u32_mod
      → i < k
      → get_or (masks_of (node_ids from k)) i 0 ≡ or_nodes 0 (parents_raw d (from + i))
  get_or-masks_of from zero i h lt = absurd (omega arith)
  get_or-masks_of from (suc k) zero h lt =
      let e : from + 0 ≡ from = omega arith in rw (e, as_u32_small from (omega arith)) refl
  get_or-masks_of from (suc k) (suc i) h lt =
      let e : from + suc i ≡ suc from + i = omega arith in
      rw e (get_or-masks_of (suc from) k i (omega arith) (omega arith))

  -- For a well-formed graph of at most 63 nodes, bit `p` of the mask that is computed for a node is
  -- set if and only if `p` is among the parents of the node.
  pub bit_at-parents_masks :
      IsWellFormed d
      → node_count d ≤ 63
      → (v : ℕ) → v < node_count d
      → (p : ℕ) → bit_at p (get_or parents_masks v 0) ≡ contains (parents_raw d v) p
  unfolding parents_masks
  bit_at-parents_masks wf few v lt p =
      let small : (u : ℕ) → 0 < count u (parents_raw d v) → u < 64 =
        λ u m. omega (arith, parent-lt d wf u v m) in
      let guard : leb (node_count d) 63 ≡ true = ground arith in
      let same : 0 + v ≡ v = omega arith in
      rw (guard, get_or-masks_of 0 (node_count d) v (omega (arith, wf.small)) lt, same)
        (ground (arith, bit_at-or_nodes 0 (parents_raw d v) p small, bit_at-zero p))

  length-node_ids : (from k : ℕ) → length (node_ids from k) ≡ k
  length-node_ids from zero = refl
  length-node_ids from (suc k) = omega (arith, length-node_ids (suc from) k)

  pub length-parents_masks : node_count d ≤ 63 → length parents_masks ≡ node_count d
  unfolding parents_masks
  length-parents_masks few =
      let guard : leb (node_count d) 63 ≡ true = ground arith in
      let ids = node_ids 0 (node_count d) in
      rw guard
        (length-map ids (λ i. or_nodes 0 (parents_raw d i)) ∙ length-node_ids 0 (node_count d))
