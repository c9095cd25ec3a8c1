-- ===== src/Graph/Induced.antt =====
-- `Dag::induced_subgraph` (src/graph.rs).
use causasv.Prelude.{
  ℕ, String, Bool, true, false, List, [], ◌∷◌, get_or, set, replicate, if◌then◌else◌,
}
use causasv.Error.{Result, ok, ◌>>=◌, ◌>>◌, unwrap}
use causasv.Graph.Index.{NameIndex}
use causasv.Graph.{
  Dag, new, add_node, add_edge, check_id, node_id, node_count, all_nodes, children_raw,
}

module _ {im : NameIndex} (d : Dag im) where
  abbrev name_at : ℕ → String
  name_at id = get_or d.names id ""

  -- The loop over `keep` that checks and marks the ids.
  mark_kept : List ℕ → List Bool → Result (List Bool)
  mark_kept [] keep_mask = ok keep_mask
  mark_kept (id ∷ keep) keep_mask = do check_id d id; mark_kept keep (set keep_mask id true)

  -- The loop that adds the nodes kept.
  add_kept : List Bool → List ℕ → Dag im → Dag im
  add_kept keep_mask [] sub = sub
  add_kept keep_mask (id ∷ ids) sub =
      add_kept keep_mask ids
        (if get_or keep_mask id false then (add_node sub (name_at id)).0 else sub)

  -- The loop over the children of one kept node.
  add_kept_edges : List Bool → ℕ → List ℕ → Dag im → Result (Dag im)
  add_kept_edges keep_mask from [] sub = ok sub
  add_kept_edges keep_mask from (to ∷ rest) sub = do
    sub' ←
        (if get_or keep_mask to false
          then (do
            new_from ← unwrap (node_id sub (name_at from))
            new_to ← unwrap (node_id sub (name_at to))
            add_edge sub new_from new_to)
          else ok sub)
    add_kept_edges keep_mask from rest sub'

  -- The loop over the nodes that adds the edges between kept nodes.
  add_edges_from : List Bool → List ℕ → Dag im → Result (Dag im)
  unfolding add_kept_edges
  add_edges_from keep_mask [] sub = ok sub
  add_edges_from keep_mask (from ∷ ids) sub = do
    sub' ←
        (if get_or keep_mask from false
          then add_kept_edges keep_mask from (children_raw d from) sub
          else ok sub)
    add_edges_from keep_mask ids sub'

  unfoldable pub induced_subgraph : List ℕ → Result (Dag im)
  unfolding mark_kept add_kept add_edges_from
  induced_subgraph keep = do
    keep_mask ← mark_kept keep (replicate (node_count d) false)
    add_edges_from keep_mask (all_nodes d) (add_kept keep_mask (all_nodes d) new)
