-- ===== src/Cpdag/Build.antt =====
-- The graph that `consistent_extension` (src/cpdag.rs) builds from the names and the edges.
use causasv.Prelude.{
  ℕ, suc, ◌+◌, ◌<◌, ◌≤◌, ◌≡◌, ◌≢◌, refl, sym, ap, ◌∙◌, arith, String, List, [], ◌∷◌, ◌++◌, length,
  some, none, length-append, count, get_or, set, get_elem?, u32_mod, ◌==◌, if◌then◌else◌,
  Option-cases, inl, inr, contains-true, as_u32, eq_iff,
}
use mathlib.Core.List.{append_assoc, append-nil}
use causasv.Error.{ok}
use causasv.Graph.Index.{NameIndex}
use causasv.Graph.{Dag, new, add_node, add_edge, check_id, children_raw}
use causasv.Graph.WellFormed.{
  IsWellFormed, add_node-IsWellFormed, add_edge-IsWellFormed, count_edge, get_or-snoc_nil,
}
use causasv.Cpdag.{add_names, add_oriented}
use causasv.Cpdag.Pairs.{edge_count}

-- No name stands twice.
abbrev pub AreDistinct : List String → Type 0
AreDistinct names =
    (i j : ℕ) (name : String)
    → get_elem? names i ≡ some name
    → get_elem? names j ≡ some name
    → i ≡ j

pub length-new : (im : NameIndex) → length (new {im = im}).names ≡ 0
unfolding new
length-new im = refl

module _ {im : NameIndex} where
  open im use {get, get-insert}

  length-add_node :
      (d : Dag im) (name : String) → length (add_node d name).0.names ≤ length d.names + 1
  unfolding add_node
  length-add_node d name = elim (Option-cases (get d.name_to_id name)) [
    | inl e ↦ rw (e, add_node) (omega (arith, length-append d.names (name ∷ [])))
    | inr (id, e) ↦ rw (e, add_node) (omega arith)
  ]

  pub add_names-IsWellFormed :
      (names : List String) (d : Dag im)
      → IsWellFormed d
      → length d.names + length names ≤ u32_mod
      → IsWellFormed (add_names names d)
  unfolding add_names
  add_names-IsWellFormed [] d wf room = wf
  add_names-IsWellFormed (name ∷ names) d wf room =
      add_names-IsWellFormed names (add_node d name).0
        (add_node-IsWellFormed d name wf (omega arith)) (omega (arith, length-add_node d name))

  pub children-add_names :
      (names : List String) (d : Dag im) (u : ℕ)
      → children_raw (add_names names d) u ≡ children_raw d u
  unfolding add_names add_node
  children-add_names [] d u = refl
  children-add_names (name ∷ names) d u = elim (Option-cases (get d.name_to_id name)) [
    | inl e ↦
        children-add_names names (add_node d name).0 u
        ∙ rw (e, add_node) (get_or-snoc_nil d.children u)
    | inr (id, e) ↦ children-add_names names (add_node d name).0 u ∙ rw (e, add_node) refl
  ]

  unknown_later :
      (d : Dag im) (name : String) (names : List String) (i : ℕ) (k : String)
      → AreDistinct (name ∷ names)
      → ((i : ℕ) (k : String) → get_elem? (name ∷ names) i ≡ some k → get d.name_to_id k ≡ none)
      → get_elem? names i ≡ some k
      → get (add_node d name).0.name_to_id k ≡ none
  unfolding add_node
  unknown_later d name names i k distinct unknown h =
      rw (unknown 0 name refl, add_node)
        (ground (
          arith,
          get-insert d.name_to_id name k (as_u32 (length d.names)),
          eq_iff name k,
          unknown (suc i) k h,
          λ (same : name ≡ k). distinct 0 (suc i) k (ap some same) h,
        ))

  pub names-add_names :
      (names : List String) (d : Dag im)
      → AreDistinct names
      → ((i : ℕ) (name : String) → get_elem? names i ≡ some name → get d.name_to_id name ≡ none)
      → (add_names names d).names ≡ d.names ++ names
  unfolding add_names
  names-add_names [] d distinct unknown = sym (append-nil d.names)
  names-add_names (name ∷ names) d distinct unknown =
      let e : get d.name_to_id name ≡ none = unknown 0 name refl in
      let one : (add_node d name).0.names ≡ d.names ++ name ∷ [] = rw (e, add_node) refl in
      names-add_names names (add_node d name).0
        (λ i j k hi hj. omega (arith, distinct (suc i) (suc j) k hi hj))
        (λ i k h. unknown_later d name names i k distinct unknown h)
      ∙ rw one (append_assoc d.names (name ∷ []) names)

  add_edge_free :
      (d : Dag im) (from to : ℕ)
      → from ≢ to
      → from < length d.names
      → to < length d.names
      → count to (children_raw d from) ≡ 0
      → (d' : Dag im) × (add_edge d from to ≡ ok d')
        × (d'.names ≡ d.names)
        × (d'.children ≡ set d.children from (children_raw d from ++ to ∷ []))
  unfolding add_edge check_id
  add_edge_free d from to other from_lt to_lt free = (
    record d {
      children = set d.children from (children_raw d from ++ to ∷ []);
      parents = set d.parents to (get_or d.parents to [] ++ from ∷ []);
    },
    ground (arith, contains-true (children_raw d from) to),
    refl,
    refl,
  )

  -- Edges that are free, in range and no self-loops are all added.
  pub add_oriented_free :
      (edges : List (ℕ × ℕ)) (d : Dag im)
      → IsWellFormed d
      → ((u v : ℕ) → count v (children_raw d u) + edge_count u v edges ≤ 1)
      → ((u : ℕ) → edge_count u u edges ≡ 0)
      → ((u v : ℕ) → 0 < edge_count u v edges → (u < length d.names) × (v < length d.names))
      → (d' : Dag im) × (add_oriented edges d ≡ ok d')
        × IsWellFormed d'
        × (d'.names ≡ d.names)
        × ((u v : ℕ)
            → count v (children_raw d' u) ≡ count v (children_raw d u) + edge_count u v edges)
  unfolding add_oriented
  add_oriented_free [] d wf free loopless below = (d, refl, wf, refl, λ u v. omega arith)
  add_oriented_free ((from, to) ∷ edges) d wf free loopless below =
      let (from_lt, to_lt) = below from to (ground arith) in
      let (d₁, added, same₁, grown) =
        add_edge_free d from to (λ e. ground (arith, loopless from)) from_lt to_lt
          (ground (arith, free from to)) in
      let wf₁ = add_edge-IsWellFormed d d₁ from to wf added in
      let counted : (u v : ℕ)
          → count v (children_raw d₁ u)
            ≡ count v (children_raw d u) + (if from == u then (if to == v then 1 else 0) else 0) =
        λ u v. rw grown (count_edge d.children from to u v (omega (arith, wf.sized_children))) in
      let (d', ends, wf', same', later) =
        add_oriented_free edges d₁ wf₁ (λ u v. ground (arith, free u v, counted u v))
          (λ u. omega (arith, loopless u)) (λ u v m. rw same₁ (below u v (ground arith))) in
      (d', rw added ends, wf', rw same' same₁, λ u v. omega (arith, later u v, counted u v))
