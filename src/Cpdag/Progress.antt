-- ===== src/Cpdag/Progress.antt =====
-- What a consistent extension is, and what holds between the rounds of `consistent_extension`
-- (src/cpdag.rs).
use causasv.Prelude.{
  ℕ, ◌+◌, ◌≤◌, ◌<◌, ◌≡◌, ◌≢◌, true, false, Bool, ◌&&◌, List, [], length, get_or, count,
  if◌then◌else◌, ◌⊎◌,
}
use causasv.Graph.Index.{NameIndex}
use causasv.Cpdag.{Cpdag, children_at, undirected_at}
use causasv.Cpdag.Pairs.{edge_count}
use causasv.Cpdag.Candidate.{edges_between}

module _ {im : NameIndex} (c : Cpdag im) where
  -- A graph, given by how often it has each edge, is a consistent extension: it keeps the directed
  -- edges, has one edge where the `Cpdag` has one of either kind and none elsewhere, and where two
  -- of its edges meet in a node, both are directed edges of the `Cpdag` or their other ends have an
  -- edge between them.
  pub record IsExtension (edges : ℕ → ℕ → ℕ) : Type 0 where
    pub kept : (u v : ℕ) → count v (children_at c u) ≤ edges u v
    pub skeleton : (u v : ℕ) → edges u v + edges v u ≡ edges_between c u v
    pub no_new_collider :
        (u v w : ℕ)
        → u ≢ v
        → 0 < edges u w
        → 0 < edges v w
        → ((0 < count w (children_at c u)) × (0 < count w (children_at c v)))
          ⊎ (0 < edges_between c u v)

  pub record IsProgress (active : List Bool) (remaining : List (List ℕ)) (oriented : List (ℕ × ℕ))
      : Type 0 where
    pub sized_active : length active ≡ length c.names
    pub sized_remaining : length remaining ≡ length c.names
    -- what is left of the undirected edges: those between active nodes
    pub remains :
        (u v : ℕ)
        → count v (get_or remaining u []) ≡ (
            if get_or active u false && get_or active v false
            then count v (undirected_at c u)
            else 0)
    -- no directed edge leads from an inactive node to an active one
    pub closed :
        (u v : ℕ)
        → get_or active u false ≡ false
        → get_or active v false ≡ true
        → count v (children_at c u) ≡ 0
    -- only directed edges lead to active nodes
    pub fresh :
        (u v : ℕ)
        → get_or active v false ≡ true
        → edge_count u v oriented ≡ count v (children_at c u)
    pub keeps : (u v : ℕ) → count v (children_at c u) ≤ edge_count u v oriented
    pub joined :
        (u v : ℕ)
        → edge_count u v oriented + edge_count v u oriented
          ≡ count v (children_at c u)
            + count u (children_at c v)
            + (if get_or active u false && get_or active v false
                then 0
                else count v (undirected_at c u))
    pub met :
        (u v w : ℕ)
        → u ≢ v
        → 0 < edge_count u w oriented
        → 0 < edge_count v w oriented
        → ((0 < count w (children_at c u)) × (0 < count w (children_at c v)))
          ⊎ (0 < edges_between c u v)

  -- The oriented edges grow along the rank between the inactive nodes, `k` rounds before the end.
  pub record IsRanked (active : List Bool) (oriented : List (ℕ × ℕ)) (k : ℕ) (rank : ℕ → ℕ)
      : Type 0 where
    pub late : (u : ℕ) → get_or active u false ≡ false → k < rank u
    pub ordered :
        (u v : ℕ)
        → 0 < edge_count u v oriented
        → get_or active u false ≡ false
        → get_or active v false ≡ false
        → rank u < rank v
