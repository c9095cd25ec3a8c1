-- ===== src/Examples.antt =====
-- A sample graph, and the theorems applied to it.
pub mod Parts
pub mod Pdags
pub mod Hulls
pub mod Samples
pub mod Estimates
pub mod Wide
pub mod Choices
use causasv.Prelude.{
  ℕ, zero, suc, ◌≡◌, subst, ◌≤◌, ◌<◌, ◌^◌, ◌-◌, refl, arith, List, [], ◌∷◌, ◌++◌, map, ◌⊎◌, inl,
  inr, count, contains, length, get_or, if◌then◌else◌, ◌==◌, Bool-cases, u64_mod, usize_max,
}
use causasv.Error.{Result, ok, err, ◌>>=◌, cycle_detected, empty_graph, not_rooted_tree}
use causasv.Graph.Index.{assoc_index}
use causasv.Graph.{Dag, node_count, new, add_node, add_edge, check_id, validate, validate_loop}
use causasv.Graph.WellFormed.{
  IsWellFormed, new-IsWellFormed, add_node-IsWellFormed, add_edge-IsWellFormed,
}
use causasv.Topo.{Search, topo_sort, enumerate_topos, backtrack, each_node}
use causasv.Topo.Spec.{IsTopoOrder}
use causasv.Topo.Sort.{IsAcyclic, topo_sort_decides, validate_decides}
use causasv.Topo.Backtrack.{IsWords, orders, backtrack-Restores}
use causasv.Topo.Orders.{enumerate_topos_exact}
use causasv.Topo.Occurs.{occurs}
use causasv.Bits.{bit_at, trailing_zeros, trailing_zeros_from}
use causasv.Cache.{mask_loop, mask_to_coalition, vec_to_mask, value_cached}
use causasv.Cache.Masks.{
  IsAscending, mask_to_coalition_sorted, vec_to_mask-mask_to_coalition,
  mask_to_coalition-vec_to_mask,
}
use causasv.Cache.Values.{IsConsistent, value_cached_transparent}
use causasv.Asv.ParentsMask.{parents_masks, bit_at-parents_masks}
use causasv.DagDp.{compute_dp_ind}
use causasv.DagDp.Counting.{linear_extensions}
use causasv.DagDp.Table.{Overflows, compute_dp_ind_exact}
use causasv.DagDp.Orders.{compute_dp_ind-enumerate_topos}

-- Three nodes, with the edges `a → c` and `b → c`.
abbrev nodes : Dag assoc_index
nodes = record {
  name_to_id = ("c", 2) ∷ ("b", 1) ∷ ("a", 0) ∷ [];
  names = "a" ∷ "b" ∷ "c" ∷ [];
  children = [] ∷ [] ∷ [] ∷ [];
  parents = [] ∷ [] ∷ [] ∷ [];
}

add-nodes : (add_node (add_node (add_node new "a").0 "b").0 "c").0 ≡ nodes
unfolding new add_node
add-nodes = refl

abbrev one_edge : Dag assoc_index
one_edge = record nodes { children = (2 ∷ []) ∷ [] ∷ [] ∷ []; parents = [] ∷ [] ∷ (0 ∷ []) ∷ [] }

abbrev pub sample : Dag assoc_index
sample = record nodes {
  children = (2 ∷ []) ∷ (2 ∷ []) ∷ [] ∷ [];
  parents = [] ∷ [] ∷ (0 ∷ 1 ∷ []) ∷ [];
}

add-one_edge : add_edge nodes 0 2 ≡ ok one_edge
unfolding add_edge check_id
add-one_edge = refl

add-sample : add_edge one_edge 1 2 ≡ ok sample
unfolding add_edge check_id
add-sample = refl

nodes-IsWellFormed : IsWellFormed nodes
unfolding new add_node
nodes-IsWellFormed = subst IsWellFormed add-nodes (
    add_node-IsWellFormed (add_node (add_node new "a").0 "b").0 "c"
      (add_node-IsWellFormed (add_node new "a").0 "b"
        (add_node-IsWellFormed new "a" new-IsWellFormed (omega arith)) (omega arith))
      (omega arith))

pub sample-IsWellFormed : IsWellFormed sample
sample-IsWellFormed =
    add_edge-IsWellFormed one_edge sample 1 2
      (add_edge-IsWellFormed nodes one_edge 0 2 nodes-IsWellFormed add-one_edge) add-sample

pub sample-validate : validate sample ≡ ok tt
unfolding validate validate_loop
sample-validate = refl

abbrev listing : List (List ℕ)
listing = (0 ∷ 1 ∷ 2 ∷ []) ∷ (1 ∷ 0 ∷ 2 ∷ []) ∷ []

sample-enumerate_topos : enumerate_topos sample ≡ ok listing
unfolding enumerate_topos backtrack each_node validate validate_loop
sample-enumerate_topos = refl

enumerate_topos_exact_example :
    (found : List (List ℕ)) × (enumerate_topos sample ≡ ok found)
    × ((order : List ℕ)
        → (0 < occurs order found → IsTopoOrder sample order)
          × (IsTopoOrder sample order → occurs order found ≡ 1))
enumerate_topos_exact_example = enumerate_topos_exact sample sample-IsWellFormed sample-validate

topo_sort_decides_example :
    ((order : List ℕ) × (topo_sort sample ≡ ok order) × IsTopoOrder sample order)
    ⊎ ((topo_sort sample ≡ err cycle_detected) × ¬ IsAcyclic sample)
topo_sort_decides_example = topo_sort_decides sample sample-IsWellFormed

validate_decides_example :
    ((validate sample ≡ err empty_graph) × (node_count sample ≡ 0))
    ⊎ ((validate sample ≡ ok tt) × (0 < node_count sample) × IsAcyclic sample)
    ⊎ ((validate sample ≡ err cycle_detected) × ¬ IsAcyclic sample)
validate_decides_example = validate_decides sample sample-IsWellFormed

compute_dp_ind_exact_example :
    ((table : List ℕ) × (compute_dp_ind (0 ∷ 0 ∷ 3 ∷ []) 3 ≡ ok table)
      × ((mask : ℕ)
          → mask < 2 ^ 3
          → (get_or table mask 0 ≡ linear_extensions (0 ∷ 0 ∷ 3 ∷ []) mask)
            × (linear_extensions (0 ∷ 0 ∷ 3 ∷ []) mask < u64_mod)))
    ⊎ (Overflows (compute_dp_ind (0 ∷ 0 ∷ 3 ∷ []) 3)
        × ((mask : ℕ) × (mask < 2 ^ 3) × (u64_mod ≤ linear_extensions (0 ∷ 0 ∷ 3 ∷ []) mask)))
compute_dp_ind_exact_example = compute_dp_ind_exact (0 ∷ 0 ∷ 3 ∷ []) 3 (omega arith)

compute_dp_ind-enumerate_topos_example :
    ((table : List ℕ) × (compute_dp_ind (parents_masks sample) 3 ≡ ok table)
      × (get_or table (2 ^ 3 - 1) 0 ≡ 2))
    ⊎ Overflows (compute_dp_ind (parents_masks sample) 3)
compute_dp_ind-enumerate_topos_example =
    compute_dp_ind-enumerate_topos sample sample-IsWellFormed (omega arith) listing
      sample-enumerate_topos

abbrev search : Search
search = record { in_deg = 0 ∷ 0 ∷ 2 ∷ []; current = 7 ∷ []; result = [] }

search-IsWords : IsWords search.in_deg
search-IsWords = (omega arith, entry)
  where
    entry : (v : ℕ) → get_or (0 ∷ 0 ∷ 2 ∷ []) v 0 ≤ usize_max
    entry zero = omega arith
    entry (suc zero) = omega arith
    entry (suc (suc zero)) = omega arith
    entry (suc (suc (suc v))) = omega arith

backtrack-Restores_example : backtrack 3 sample search ≡ record search {
  result = [] ++ map (λ order. (7 ∷ []) ++ order) (orders sample 3 (0 ∷ 0 ∷ 2 ∷ []));
}
backtrack-Restores_example = backtrack-Restores sample 3 search search-IsWords

add_edge-IsWellFormed_example : IsWellFormed one_edge
add_edge-IsWellFormed_example =
    add_edge-IsWellFormed nodes one_edge 0 2 nodes-IsWellFormed add-one_edge

add_node-IsWellFormed_example : IsWellFormed (add_node sample "d").0
add_node-IsWellFormed_example = add_node-IsWellFormed sample "d" sample-IsWellFormed (omega arith)

mask_to_coalition_sorted_example :
    IsAscending 0 (mask_to_coalition 13)
    × ((i : ℕ) → count i (mask_to_coalition 13) ≡ (if bit_at i 13 then 1 else 0))
mask_to_coalition_sorted_example = mask_to_coalition_sorted 13 (omega arith)

vec_to_mask-mask_to_coalition_example : vec_to_mask (mask_to_coalition 13) ≡ 13
vec_to_mask-mask_to_coalition_example = vec_to_mask-mask_to_coalition 13 (omega arith)

mask_to_coalition-vec_to_mask_example :
    mask_to_coalition (vec_to_mask (0 ∷ 2 ∷ 3 ∷ [])) ≡ 0 ∷ 2 ∷ 3 ∷ []
mask_to_coalition-vec_to_mask_example =
    mask_to_coalition-vec_to_mask (0 ∷ 2 ∷ 3 ∷ []) (omega arith, (omega arith, (omega arith, tt)))
      (λ v m. ground arith)

bit_at-parents_masks_example :
    bit_at 1 (get_or (parents_masks sample) 2 0) ≡ contains (0 ∷ 1 ∷ []) 1
bit_at-parents_masks_example =
    bit_at-parents_masks sample sample-IsWellFormed (omega arith) 2 (omega arith) 1

-- A value function that counts the members, and fails on the grand coalition of three.
abbrev size_fn : List ℕ → Result ℕ
size_fn nodes = if length nodes == 3 then err not_rooted_tree else ok (length nodes)

size_fn-IsConsistent : IsConsistent size_fn ((5, 2) ∷ [])
unfolding mask_to_coalition mask_loop trailing_zeros trailing_zeros_from
size_fn-IsConsistent mask v h = elim (Bool-cases (5 == mask)) [
  | inl e ↦ let same : mask ≡ 5 = ground arith in rw same (ground arith)
  | inr e ↦ absurd (ground arith)
]

value_cached_transparent_example :
    ((value_cached size_fn ((5, 2) ∷ []) 7 >>= λ r. ok r.0) ≡ size_fn (mask_to_coalition 7))
    × ((v : ℕ) (cache' : List (ℕ × ℕ))
        → value_cached size_fn ((5, 2) ∷ []) 7 ≡ ok (v, cache')
        → IsConsistent size_fn cache')
value_cached_transparent_example =
    value_cached_transparent size_fn ((5, 2) ∷ []) 7 size_fn-IsConsistent
