-- ===== src/DConvex/Hull.antt =====
-- `d_convex_hull` and `strong_d_convex_hull` (src/d_convex.rs): a hull is always reached.
use causasv.Prelude.{
  ℕ, zero, suc, ◌+◌, ◌<◌, ◌≤◌, ◌≡◌, ◌⊎◌, refl, ap, arith, true, List, [], ◌∷◌, count, leb, ◌==◌,
  Bool-cases, inl, inr,
}
use causasv.Error.{ok, err, invalid_node_id}
use causasv.Cache.Masks.{contains-count}
use causasv.Graph.Index.{NameIndex}
use causasv.Graph.{Dag, node_count, check_id}
use causasv.Graph.WellFormed.{IsWellFormed}
use causasv.DConvex.Interface.{IdSet, extend, collect}
use causasv.DConvex.Sets.{
  Within, Within-collect, Within-extend, has-collect, has-count, has-extend, below_of_has,
  extend_there, has_of_len, len-le, len-extend-le,
}
use causasv.DConvex.Rounds.{shortest_inducing_path_vertices-ends}
use causasv.DConvex.{
  shortest_inducing_path_vertices, closure_loop, d_convex_closure, check_ids, d_convex_hull,
}

module _ (ids : IdSet) {im : NameIndex} (d : Dag im) where
  open ids use {Ids, items, len, has, insert}

  -- A round finds nothing that is not in the set.
  pub record IsDConvex (h : Ids) : Type 0 where
    pub absorbed : Ids
    pub round : shortest_inducing_path_vertices ids d h ≡ ok absorbed
    pub inside : (v : ℕ) → 0 < count v (items absorbed) → has h v ≡ true

  module _ (wf : IsWellFormed d) where
    -- Each round but the last one makes the set grow, so `node_count + 1` rounds are enough.
    pub closure_loop-ends :
        (k : ℕ) (h : Ids)
        → Within ids (node_count d) h
        → node_count d < k + len h
        → (h' : Ids) × (closure_loop ids d k h ≡ ok h')
          × Within ids (node_count d) h'
          × IsDConvex h'
          × (len h ≤ len h')
          × ((v : ℕ) → has h v ≡ true → has h' v ≡ true)
    unfolding closure_loop
    closure_loop-ends zero h within enough =
        absurd (omega (arith, len-le ids (node_count d) h within))
    closure_loop-ends (suc k) h within enough =
        let (absorbed, run, absorbed_in) = shortest_inducing_path_vertices-ends ids d wf h within in
        let h' = extend ids h (items absorbed) in
        let more = len-extend-le ids (items absorbed) h in
        elim (Bool-cases (len h' == len h)) [
          | inl same ↦
              let held = has_of_len ids (items absorbed) h (ground arith) in
              let fixed : h' ≡ h = extend_there ids (items absorbed) h held in
              (
                h,
                rw (run, same) (ap ok fixed),
                within,
                record { absorbed = absorbed; round = run; inside = held },
                omega arith,
                λ v m. m,
              )
          | inr grew ↦
              let within' : Within ids (node_count d) h' =
                Within-extend ids (node_count d) (items absorbed) h within (λ v m.
                  below_of_has ids (node_count d) absorbed v absorbed_in
                    (ground (arith, has-count ids absorbed v))) in
              let (end, ends, end_in, convex, longer, kept) =
                closure_loop-ends k h' within' (ground (arith, more)) in
              (
                end,
                rw (run, grew) ends,
                end_in,
                convex,
                omega (arith, more, longer),
                λ v m. kept v (ground (arith, has-extend ids (items absorbed) h v)),
              )
        ]

    pub check_ids-decides :
        (required : List ℕ)
        → ((check_ids ids d required ≡ ok tt) × ((v : ℕ) → 0 < count v required → v < node_count d))
          ⊎ ((id : ℕ) × (0 < count id required)
              × (node_count d ≤ id)
              × (check_ids ids d required ≡ err (invalid_node_id id)))
    unfolding check_id
    check_ids-decides [] = inl (refl, λ v m. absurd (omega arith))
    check_ids-decides (id ∷ rest) = elim (Bool-cases (leb (node_count d) id)) [
      | inl e ↦ inr (id, ground arith, ground arith, rw e refl)
      | inr e ↦ elim (check_ids-decides rest) [
        | inl (run, below) ↦ inl (rw e run, λ v m. ground (arith, below v))
        | inr (bad, m, beyond, run) ↦ inr (bad, ground arith, beyond, rw e run)
      ]
    ]

    pub start-Within :
        (required : List ℕ)
        → ((v : ℕ) → 0 < count v required → v < node_count d)
        → Within ids (node_count d) (collect ids required)
    start-Within required below = Within-collect ids (node_count d) required below

    -- For a well-formed graph and any list of required ids: either `d_convex_hull` returns ok with
    -- a set of ids of the graph, each once, that has all the required ones and on which a round of
    -- path vertices finds nothing outside the set; or some required id is not in the graph and the
    -- result is `InvalidNodeId` with such an id.
    pub d_convex_hull_reached :
        (required : List ℕ)
        → ((h : Ids) × (d_convex_hull ids d required ≡ ok h)
            × Within ids (node_count d) h
            × ((v : ℕ) → 0 < count v required → has h v ≡ true)
            × IsDConvex h)
          ⊎ ((id : ℕ) × (0 < count id required)
              × (node_count d ≤ id)
              × (d_convex_hull ids d required ≡ err (invalid_node_id id)))
    unfolding d_convex_hull d_convex_closure
    d_convex_hull_reached required = elim (check_ids-decides required) [
      | inr (id, m, beyond, run) ↦ inr (id, m, beyond, rw run refl)
      | inl (run, below) ↦
          let start = collect ids required in
          let (h, ends, within, convex, longer, kept) =
            closure_loop-ends (node_count d + 1) start (start-Within required below)
              (omega arith) in
          inl (
            h,
            rw run ends,
            within,
            λ v m. kept v (ground (arith, has-collect ids required v, contains-count required v)),
            convex,
          )
    ]
