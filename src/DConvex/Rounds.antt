-- ===== src/DConvex/Rounds.antt =====
-- One round of `d_convex_closure` (src/d_convex.rs) always returns, with ids of the graph.
use causasv.Prelude.{
  ℕ, zero, suc, ◌+◌, ◌<◌, ◌≤◌, ◌≡◌, refl, arith, true, not, Option, some, none, List, [], ◌∷◌, ◌++◌,
  count, u32_mod, as_u32_small, Bool-cases, inl, inr,
}
use causasv.Error.{Result, ok}
use causasv.Cache.Masks.{contains-count}
use causasv.Graph.Index.{NameIndex}
use causasv.Graph.{Dag, node_count, node_ids, all_nodes}
use causasv.Graph.WellFormed.{IsWellFormed}
use causasv.DConvex.Interface.{IdSet, filter, extend, collect}
use causasv.DConvex.Sets.{
  Within, Within-collect, Within-extend, Within-new, count-filter, has-collect, has-count,
  below_of_has,
}
use causasv.DConvex.Ancestors.{ancestors_or_self_exact}
use causasv.DConvex.Path.{Answers}
use causasv.DConvex.Shortest.{shortest_path_restricted_exact}
use causasv.DConvex.{
  try_after, try_pair, adjacent, moralize, markov_boundary_of_set, marginalized_out, collect_path,
  shortest_inducing_path_vertices,
}

pub node_ids-lt : (from k v : ℕ) → from + k ≤ u32_mod → 0 < count v (node_ids from k) → v < from + k
node_ids-lt from zero v small m = absurd (omega arith)
node_ids-lt from (suc k) v small m =
    ground (arith, as_u32_small from (omega arith), node_ids-lt (suc from) k v (omega arith))

-- A step that succeeds and keeps a property, on the pairs of a list: so do the loops.
module _ {S : Type 0} (step : S → ℕ → ℕ → Result S) (P : S → Type 0) where
  abbrev Keeps : ℕ → ℕ → Type 0
  Keeps a b = (s : S) → P s → (s' : S) × (step s a b ≡ ok s') × P s'

  try_after-Keeps :
      (a : ℕ) (bs : List ℕ) (s : S)
      → ((b : ℕ) → 0 < count b bs → Keeps a b)
      → P s
      → (s' : S) × (try_after step a bs s ≡ ok s') × P s'
  try_after-Keeps a [] s keeps p = (s, refl, p)
  try_after-Keeps a (b ∷ bs) s keeps p =
      let (s₁, e₁, p₁) = keeps b (ground arith) s p in
      let (s₂, e₂, p₂) = try_after-Keeps a bs s₁ (λ c m. keeps c (ground arith)) p₁ in
      (s₂, rw e₁ e₂, p₂)

  try_pair-Keeps :
      (xs : List ℕ) (s : S)
      → ((a b : ℕ) → 0 < count a xs → 0 < count b xs → Keeps a b)
      → P s
      → (s' : S) × (try_pair step xs s ≡ ok s') × P s'
  try_pair-Keeps [] s keeps p = (s, refl, p)
  try_pair-Keeps (a ∷ rest) s keeps p =
      let (s₁, e₁, p₁) =
        try_after-Keeps a rest s (λ b m. keeps a b (ground arith) (ground arith)) p in
      let (s₂, e₂, p₂) =
        try_pair-Keeps rest s₁ (λ b c m m'. keeps b c (ground arith) (ground arith)) p₁ in
      (s₂, rw e₁ e₂, p₂)

module _ (ids : IdSet) {im : NameIndex} (d : Dag im) (wf : IsWellFormed d) where
  open ids use {Ids, items, has}

  pub Within-marginalized_out : (h : Ids) → Within ids (node_count d) (marginalized_out ids d h)
  Within-marginalized_out h =
      let others = filter (λ n. not (has h n)) (all_nodes d) in
      Within-collect ids (node_count d) others (λ v m. omega (
        arith,
        node_ids-lt 0 (node_count d) v (omega (arith, wf.small))
            (ground (arith, count-filter (λ n. not (has h n)) (all_nodes d) v)),
      ))

  path-Within :
      (adj : List (List ℕ)) (a b : ℕ) (allowed collected : Ids) (answer : Option (List ℕ))
      → Within ids (node_count d) collected
      → Answers ids adj a b allowed (node_count d) answer
      → Within ids
          (node_count d)
          (elim answer [ none ↦ collected | some nodes ↦ extend ids collected nodes ])
  path-Within adj a b allowed collected none within answers = within
  path-Within adj a b allowed collected (some nodes) within (back, e, leads, below) =
      Within-extend ids (node_count d) nodes collected within below

  collect_path-ends :
      (marginalized : Ids) (a b : ℕ)
      → a < node_count d
      → b < node_count d
      → (collected : Ids) → Within ids (node_count d) collected
      → (collected' : Ids) × (collect_path ids d marginalized collected a b ≡ ok collected')
        × Within ids (node_count d) collected'
  unfolding collect_path
  collect_path-ends marginalized a b a_lt b_lt collected within =
      let n = node_count d in
      let pair = collect ids (a ∷ b ∷ []) in
      let (ancestral, run, ancestral_in, anc) =
        ancestors_or_self_exact ids d wf pair
          (Within-collect ids n (a ∷ b ∷ []) (λ v m. ground arith)) in
      let among = filter (has ancestral) (items pair ++ items marginalized) in
      let allowed = collect ids among in
      let inside = λ (v : ℕ) (h : has allowed v ≡ true).
        below_of_has ids n ancestral v ancestral_in (
          ground (
            arith,
            has-collect ids among v,
            contains-count among v,
            count-filter (has ancestral) (items pair ++ items marginalized) v,
          )) in
      elim (Bool-cases (adjacent ids d a b)) [
        | inl e ↦ (collected, rw e refl, within)
        | inr e ↦
            let (answer, found, answers) =
              shortest_path_restricted_exact ids (moralize ids d ancestral) a b allowed n inside
                a_lt in
            (
              _,
              rw (e, run, found) refl,
              path-Within (moralize ids d ancestral) a b allowed collected answer within answers,
            )
      ]

  -- A round returns, and what it collects is in the graph.
  pub shortest_inducing_path_vertices-ends :
      (required : Ids)
      → Within ids (node_count d) required
      → (absorbed : Ids) × (shortest_inducing_path_vertices ids d required ≡ ok absorbed)
        × Within ids (node_count d) absorbed
  unfolding shortest_inducing_path_vertices
  shortest_inducing_path_vertices-ends required within =
      let marginalized = marginalized_out ids d required in
      let boundary = markov_boundary_of_set ids d marginalized in
      let inside = λ (v : ℕ) (m : 0 < count v (filter (has boundary) (items required))).
        below_of_has ids (node_count d) required v within (
          ground
            (arith, has-count ids required v, count-filter (has boundary) (items required) v)) in
      try_pair-Keeps (collect_path ids d marginalized) (Within ids (node_count d))
        (filter (has boundary) (items required)) (IdSet.new ids)
        (λ a b m m'. collect_path-ends marginalized a b (inside a m) (inside b m'))
        (Within-new ids (node_count d))
