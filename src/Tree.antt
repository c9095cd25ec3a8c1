-- ===== src/Tree.antt =====
-- Rooted trees: their root, the cost estimate and the exact values (src/tree.rs). Recursion along
-- the edges gets one unit of fuel for each level; a tree has at most as many levels as nodes.
pub mod Root
pub mod Exact
use Prim.Native.Nat.{max, bit_or}
use causasv.Prelude.{
  ℕ, zero, suc, ◌+◌, ◌-◌, Bool, true, false, not, ◌&&◌, ◌||◌, none, some, List, [], ◌∷◌, ◌++◌, map,
  get_or, set, replicate, length, contains, leb, ◌==◌, if◌then◌else◌, as_u32, saturating_add,
  saturating_mul,
}
use causasv.Error.{
  Result, ok, err, out_of_fuel, ◌>>=◌, ◌>>◌, fail_if, not_rooted_tree, invalid_config, text, num,
}
use causasv.Bits.{shl1}
use causasv.Cache.{vec_to_mask, value_cached}
use causasv.Numerics.{Float}
use causasv.Outcome.{AsvResult}
use causasv.Topo.{heap_push, heap_collect, pop}
use causasv.Graph.Index.{NameIndex}
use causasv.Graph.{Dag, node_count, all_nodes, children_raw, in_degrees, sources_from}

-- Every node but the root, from node `i` on, has in-degree 1.
abbrev pub all_unit : ℕ → ℕ → List ℕ → Bool
all_unit root i [] = true
all_unit root i (d ∷ ds) = (as_u32 i == root || d == 1) && all_unit root (suc i) ds

-- `for &child in …`, with a body that may fail
unfoldable pub for_children {ℓ} : {S : Type ℓ} → (ℕ → S → Result S) → List ℕ → S → Result S
for_children body [] s = ok s
for_children body (child ∷ rest) s = do s' ← body child s; for_children body rest s'

-- `sort_unstable` on ids
abbrev pub sort_unstable : List ℕ → List ℕ
sort_unstable nodes = heap_collect nodes

-- Each vector of `group` after `prev`.
abbrev pub extend_each : List ℕ → List (List ℕ) → List (List ℕ)
extend_each prev group = map (λ item. prev ++ item) group

abbrev pub extend_all : List (List ℕ) → List (List ℕ) → List (List ℕ)
extend_all [] group = []
extend_all (prev ∷ result) group = extend_each prev group ++ extend_all result group

abbrev pub product_from : List (List ℕ) → List (List (List ℕ)) → List (List ℕ)
product_from result [] = result
product_from result (group ∷ groups) = product_from (extend_all result group) groups

unfoldable pub cartesian_product_vecs : List (List (List ℕ)) → List (List ℕ)
cartesian_product_vecs groups = product_from ([] ∷ []) groups

-- `out.push(f(x)?)` for each `x`
unfoldable pub try_map {ℓ} : {B : Type ℓ} → (ℕ → Result B) → List ℕ → Result (List B)
try_map f [] = ok []
try_map f (x ∷ xs) = do y ← f x; ys ← try_map f xs; ok (y ∷ ys)

abbrev pub without : ℕ → List ℕ → List ℕ
without c [] = []
without c (x ∷ xs) = if x == c then without c xs else x ∷ without c xs

pub record TreeExactCostEstimate : Type 0 where
  pub feasible : Bool
  pub max_cartesian_terms : ℕ
  pub cartesian_term_budget : ℕ
  pub estimated_total_terms : ℕ
  pub total_term_budget : ℕ

-- `prefix[0]`, …, `prefix[m]` and `suffix[0]`, …, `suffix[m]`
abbrev pub prefix_products : ℕ → List ℕ → List ℕ
prefix_products p [] = p ∷ []
prefix_products p (c ∷ counts) = p ∷ prefix_products (saturating_mul p c) counts

abbrev pub suffix_products : List ℕ → List ℕ
suffix_products [] = 1 ∷ []
suffix_products (c ∷ counts) =
    let later = suffix_products counts in saturating_mul (get_or later 0 1) c ∷ later

module _ {im : NameIndex} (d : Dag im) where
  unfoldable pub find_rooted_tree_root : Result ℕ
  find_rooted_tree_root =
      let in_deg = in_degrees d in
      let roots = sources_from 0 in_deg in
      if not (length roots == 1)
      then err not_rooted_tree
      else if not (all_unit (get_or roots 0 0) 0 in_deg)
      then err not_rooted_tree
      else ok (get_or roots 0 0)

  unfoldable pub dfs_sizes : ℕ → ℕ → List ℕ → Result (List ℕ)
  unfolding for_children
  dfs_sizes zero node sizes = out_of_fuel
  dfs_sizes (suc fuel) node sizes =
      for_children
        (λ child s. do
          s' ← dfs_sizes fuel child s
          ok (set s' node (get_or s' node 0 + get_or s' child 0)))
        (children_raw d node) (set sizes node 1)

  unfoldable pub subtree_sizes : ℕ → Result (List ℕ)
  unfolding dfs_sizes
  subtree_sizes root = dfs_sizes (node_count d) root (replicate (node_count d) 0)

  unfoldable pub dfs_ideal_counts : ℕ → ℕ → List ℕ → Result (List ℕ)
  unfolding for_children
  dfs_ideal_counts zero node counts = out_of_fuel
  dfs_ideal_counts (suc fuel) node counts = do
    (product, counts') ←
        for_children
          (λ child (s : ℕ × List ℕ). do
            c ← dfs_ideal_counts fuel child s.1
            ok (saturating_mul s.0 (get_or c child 0), c))
          (children_raw d node) (1, counts)
    ok (set counts' node (saturating_add 1 product))

  unfoldable pub subtree_ideal_counts : ℕ → Result (List ℕ)
  unfolding dfs_ideal_counts
  subtree_ideal_counts root = dfs_ideal_counts (node_count d) root (replicate (node_count d) 0)

  -- The children at the positions from `j` on; the state is `max_cartesian_terms` and
  -- `estimated_total_terms`.
  unfoldable pub cost_children :
      (ℕ → ℕ → ℕ × ℕ → Result (ℕ × ℕ)) → List ℕ → List ℕ → ℕ → ℕ → List ℕ → ℕ × ℕ → Result (ℕ × ℕ)
  cost_children recurse prefix suffix running_product j [] s = ok s
  cost_children recurse prefix suffix running_product j (child ∷ rest) s = do
    let side_product = saturating_mul (get_or prefix j 1) (get_or suffix (suc j) 1)
    s' ← recurse child (saturating_mul running_product side_product) s
    cost_children recurse prefix suffix running_product (suc j) rest s'

  unfoldable pub accumulate_cost : ℕ → List ℕ → ℕ → ℕ → ℕ × ℕ → Result (ℕ × ℕ)
  unfolding cost_children
  accumulate_cost zero ideal_counts node running_product s = out_of_fuel
  accumulate_cost (suc fuel) ideal_counts node running_product (most, sum) =
      let child_counts = map (λ c. get_or ideal_counts c 0) (children_raw d node) in
      cost_children (accumulate_cost fuel ideal_counts) (prefix_products 1 child_counts)
        (suffix_products child_counts) running_product 0 (children_raw d node)
        (max most running_product, saturating_add sum running_product)

  unfoldable pub estimate_tree_exact_cost : ℕ → ℕ → ℕ → Result TreeExactCostEstimate
  unfolding subtree_ideal_counts accumulate_cost
  estimate_tree_exact_cost root cartesian_term_budget total_term_budget = do
    ideal_counts ← subtree_ideal_counts root
    (most, sum) ← accumulate_cost (node_count d) ideal_counts root 1 (0, 0)
    ok (record {
      feasible = leb most cartesian_term_budget && leb sum total_term_budget;
      max_cartesian_terms = most;
      cartesian_term_budget = cartesian_term_budget;
      estimated_total_terms = sum;
      total_term_budget = total_term_budget;
    })

  -- The loop over the children stops at the one below which the target is.
  unfoldable pub find_below :
      (ℕ → List ℕ → Result (Bool × List ℕ)) → List ℕ → List ℕ → Result (Bool × List ℕ)
  find_below recurse [] path = ok (false, pop path)
  find_below recurse (child ∷ rest) path = do
    (found, path') ← recurse child path
    let later = find_below recurse rest path'
    if found then ok (true, path') else later

  unfoldable pub find_path : ℕ → ℕ → ℕ → List ℕ → Result (Bool × List ℕ)
  unfolding find_below
  find_path zero current target path = out_of_fuel
  find_path (suc fuel) current target path =
      let below =
        find_below (λ c p. find_path fuel c target p) (children_raw d current)
          (path ++ current ∷ []) in
      if current == target then ok (true, path ++ current ∷ []) else below

  unfoldable pub ancestors_of : ℕ → ℕ → Result (List ℕ)
  unfolding find_path
  ancestors_of target root =
      if target == root
      then ok []
      else (do (found, path) ← find_path (node_count d) root target []; ok (pop path))

  unfoldable pub tree_ideals : ℕ → ℕ → Result (List (List ℕ))
  unfolding try_map cartesian_product_vecs
  tree_ideals zero root = out_of_fuel
  tree_ideals (suc fuel) root = do
    children_ideals ← try_map (tree_ideals fuel) (children_raw d root)
    ok ([] ∷ map (λ combo. sort_unstable (root ∷ combo)) (cartesian_product_vecs children_ideals))

  unfoldable pub enumerate_order_ideals : List ℕ → Result (List (List ℕ))
  unfolding tree_ideals try_map cartesian_product_vecs
  enumerate_order_ideals roots = do
    per_tree ← try_map (tree_ideals (node_count d)) roots
    ok (map sort_unstable (cartesian_product_vecs per_tree))

  unfoldable pub dfs_sizes_in_s : ℕ → List ℕ → ℕ → List ℕ → Result (List ℕ)
  unfolding for_children
  dfs_sizes_in_s zero s_set node sizes = out_of_fuel
  dfs_sizes_in_s (suc fuel) s_set node sizes =
      let visit =
        for_children
          (λ child s.
            let deeper = (do
              s' ← dfs_sizes_in_s fuel s_set child s
              ok (set s' node (get_or s' node 0 + get_or s' child 0))) in
            if contains s_set child then deeper else ok s)
          (children_raw d node) (set sizes node 1) in
      if contains s_set node then visit else ok sizes
