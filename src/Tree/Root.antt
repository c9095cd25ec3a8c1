-- ===== src/Tree/Root.antt =====
-- What `find_rooted_tree_root` (src/tree.rs) decides.
use causasv.Prelude.{
  ℕ, zero, suc, ◌+◌, ◌≤◌, ◌<◌, ◌≡◌, ◌≢◌, refl, ap, arith, true, List, [], ◌∷◌, get_or, length, ltb,
  ◌==◌, ◌⊎◌, inl, inr, Bool-cases, count, u32_mod, length-map, if◌then◌else◌,
}
use causasv.Prelude.Totals.{total-count, total_one, total_ext}
use causasv.Error.{ok, err, not_rooted_tree}
use causasv.Graph.Index.{NameIndex}
use causasv.Graph.{Dag, node_count, parents_raw, in_degrees, sources_from}
use causasv.Graph.WellFormed.{IsWellFormed}
use causasv.Topo.Ends.{count-sources, get_or-map-length}
use causasv.Tree.{find_rooted_tree_root, all_unit}

all_unit-true :
    (root i : ℕ) (ds : List ℕ)
    → i + length ds ≤ u32_mod
    → all_unit root i ds ≡ true
    → (v : ℕ) → v < length ds
    → i + v ≢ root
    → get_or ds v 0 ≡ 1
all_unit-true root i [] fit h v lt other = absurd (omega arith)
all_unit-true root i (d ∷ ds) fit h zero lt other = ground arith
all_unit-true root i (d ∷ ds) fit h (suc v) lt other =
    all_unit-true root (suc i) ds (omega arith) (ground arith) v (omega arith)
      (λ e. other (omega arith))

all_unit-false :
    (root i : ℕ) (ds : List ℕ)
    → i + length ds ≤ u32_mod
    → ((v : ℕ) → v < length ds → i + v ≢ root → get_or ds v 0 ≡ 1)
    → all_unit root i ds ≡ true
all_unit-false root i [] fit h = refl
all_unit-false root i (d ∷ ds) fit h = ground (
  arith,
  h 0 (omega arith),
  all_unit-false root (suc i) ds (omega arith)
      (λ v lt other. h (suc v) (omega arith) (λ e. other (omega arith))),
)

one_member :
    (xs : List ℕ) → length xs ≡ 1 → (v : ℕ) → count v xs ≡ (if get_or xs 0 0 == v then 1 else 0)
one_member [] h v = absurd (omega arith)
one_member (x ∷ []) h v = ground arith
one_member (x ∷ y ∷ xs) h v = absurd (omega arith)

module _ {im : NameIndex} (d : Dag im) where
  -- `root` is the only node with no parent, and the others have one each.
  pub record IsRoot (root : ℕ) : Type 0 where
    pub inside : root < node_count d
    pub top : length (parents_raw d root) ≡ 0
    pub single : (v : ℕ) → v < node_count d → v ≢ root → length (parents_raw d v) ≡ 1

  module _ (wf : IsWellFormed d) where
    size : length (in_degrees d) ≡ node_count d
    size = omega (arith, length-map d.parents length, wf.sized_parents)

    listed :
        (v : ℕ)
        → count v (sources_from 0 (in_degrees d))
          ≡ (if ltb v (node_count d) then (if length (parents_raw d v) == 0 then 1 else 0) else 0)
    listed v = ground (
      arith,
      count-sources (in_degrees d) v (omega (arith, size, wf.small)),
      size,
      get_or-map-length d.parents v,
    )

    found :
        length (sources_from 0 (in_degrees d)) ≡ 1
        → all_unit (get_or (sources_from 0 (in_degrees d)) 0 0) 0 (in_degrees d) ≡ true
        → IsRoot (get_or (sources_from 0 (in_degrees d)) 0 0)
    found one units =
        let root = get_or (sources_from 0 (in_degrees d)) 0 0 in
        let member = one_member (sources_from 0 (in_degrees d)) one root in
        record {
          inside = ground (arith, listed root, member);
          top = ground (arith, listed root, member);
          single = λ v lt other. omega (
            arith,
            get_or-map-length d.parents v,
            all_unit-true root 0 (in_degrees d) (omega (arith, size, wf.small)) units v
                (omega (arith, size)) (λ e. other (omega arith)),
          );
        }

    one_source : (r : ℕ) → IsRoot r → length (sources_from 0 (in_degrees d)) ≡ 1
    one_source r root =
        let n = node_count d in
        let same = λ (v : ℕ) (e : r ≡ v). ap (λ w. length (parents_raw d w)) e in
        let counted =
          total_ext n (λ v. count v (sources_from 0 (in_degrees d))) (λ v. if r == v then 1 else 0)
            (λ v lt. ground (arith, listed v, root.single v lt, root.top, same v)) in
        ground (
          arith,
          total-count n (sources_from 0 (in_degrees d)) (λ v m. ground (arith, listed v)),
          counted,
          total_one n r,
          root.inside,
        )

    source_is : (r : ℕ) → IsRoot r → get_or (sources_from 0 (in_degrees d)) 0 0 ≡ r
    source_is r root = ground (
      arith,
      one_member (sources_from 0 (in_degrees d)) (one_source r root) r,
      listed r,
      root.inside,
      root.top,
    )

    units_hold :
        (r : ℕ)
        → IsRoot r
        → all_unit (get_or (sources_from 0 (in_degrees d)) 0 0) 0 (in_degrees d) ≡ true
    units_hold r root = rw (source_is r root) (
        all_unit-false r 0 (in_degrees d) (omega (arith, size, wf.small)) (λ v lt other. omega (
          arith,
          get_or-map-length d.parents v,
          root.single v (omega (arith, size)) (λ e. other (omega arith)),
        )))

    -- For a well-formed graph: either `find_rooted_tree_root` returns a node that has no parent
    -- while every other node has exactly one, or it returns `NotRootedTree` and there is no such
    -- node.
    pub find_rooted_tree_root_decides :
        ((r : ℕ) × (find_rooted_tree_root d ≡ ok r) × IsRoot r)
        ⊎ ((find_rooted_tree_root d ≡ err not_rooted_tree) × ¬ ((r : ℕ) × IsRoot r))
    unfolding find_rooted_tree_root
    find_rooted_tree_root_decides =
        let roots = sources_from 0 (in_degrees d) in
        elim (Bool-cases (length roots == 1)) [
          | inr many ↦ inr (rw many refl, λ (r, root). ground (arith, one_source r root))
          | inl one ↦ elim (Bool-cases (all_unit (get_or roots 0 0) 0 (in_degrees d))) [
            | inl units ↦ inl (get_or roots 0 0, rw (one, units) refl, found (ground arith) units)
            | inr uneven ↦ inr (rw (one, uneven) refl, λ (r, root). cc (units_hold r root))
          ]
        ]
