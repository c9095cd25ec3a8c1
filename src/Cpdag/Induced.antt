-- ===== src/Cpdag/Induced.antt =====
-- `Cpdag::induced_subgraph` and `Cpdag::strong_d_convex_hull` (src/cpdag.rs).
use causasv.Prelude.{
  ℕ, String, Bool, true, false, ◌&&◌, List, [], ◌∷◌, length, get_or, set, replicate, if◌then◌else◌,
}
use causasv.Error.{Result, ok, ◌>>=◌, ◌>>◌, unwrap}
use causasv.Graph.Index.{NameIndex}
use causasv.DConvex.Interface.{IdSet}
use causasv.DConvex.{strong_d_convex_hull}
use causasv.Cpdag.{
  Cpdag, new_pdag, add_pdag_node, add_directed_edge, add_undirected_edge, check_pdag_id,
  pdag_node_id, pdag_nodes, directed_edges, undirected_edges, consistent_extension,
}

module _ {im : NameIndex} (c : Cpdag im) where
  abbrev pub pdag_name_at : ℕ → String
  pdag_name_at id = get_or c.names id ""

  -- The loop over `keep` that checks and marks the ids.
  unfoldable pub mark_kept_pdag : List ℕ → List Bool → Result (List Bool)
  mark_kept_pdag [] keep_mask = ok keep_mask
  mark_kept_pdag (id ∷ keep) keep_mask = do
    check_pdag_id c id
    mark_kept_pdag keep (set keep_mask id true)

  -- The loop that adds the nodes kept.
  unfoldable pub add_kept_pdag : List Bool → List ℕ → Cpdag im → Cpdag im
  add_kept_pdag keep_mask [] sub = sub
  add_kept_pdag keep_mask (id ∷ ids) sub =
      add_kept_pdag keep_mask ids
        (if get_or keep_mask id false then (add_pdag_node sub (pdag_name_at id)).0 else sub)

  -- A loop over edges that adds, by `add`, those between kept nodes.
  unfoldable pub add_kept_pairs :
      (Cpdag im → ℕ → ℕ → Result (Cpdag im))
      → List Bool
      → List (ℕ × ℕ)
      → Cpdag im
      → Result (Cpdag im)
  add_kept_pairs add keep_mask [] sub = ok sub
  add_kept_pairs add keep_mask ((from, to) ∷ rest) sub = do
    sub' ←
        (if get_or keep_mask from false && get_or keep_mask to false
          then (do
            new_from ← unwrap (pdag_node_id sub (pdag_name_at from))
            new_to ← unwrap (pdag_node_id sub (pdag_name_at to))
            add sub new_from new_to)
          else ok sub)
    add_kept_pairs add keep_mask rest sub'

  unfoldable pub induced_subpdag : List ℕ → Result (Cpdag im)
  induced_subpdag keep = do
    keep_mask ← mark_kept_pdag keep (replicate (length c.names) false)
    sub ←
        add_kept_pairs add_directed_edge keep_mask (directed_edges c)
          (add_kept_pdag keep_mask (pdag_nodes c) new_pdag)
    add_kept_pairs add_undirected_edge keep_mask (undirected_edges c) sub

  -- The hull in one consistent extension.
  unfoldable pub pdag_strong_d_convex_hull : (ids : IdSet) → List ℕ → Result (IdSet.Ids ids)
  pdag_strong_d_convex_hull ids required = do
    dag ← consistent_extension c
    strong_d_convex_hull ids dag required
