-- ===== src/Topo/Ends.antt =====
-- The state in which the loop of `Dag::validate` and `topo_sort` starts, and what its result is.
use causasv.Prelude.{
  ℕ, zero, suc, ◌+◌, ◌-◌, ◌<◌, ◌≤◌, ◌≡◌, refl, ◌∙◌, List, [], ◌∷◌, ◌++◌, ◌&&◌, arith, length, count,
  count-append, get_or, if◌then◌else◌, ◌==◌, leb, ltb, map, as_u32_small, u32_mod, get_or_beyond,
  ◌⊎◌, inl, inr, Bool-cases, length-map,
}
use native.Mathlib.Nat.{sub-zero}
use causasv.Graph.Index.{NameIndex}
use causasv.Graph.{Dag, node_count, parents_raw, in_degrees, sources_from}
use causasv.Graph.WellFormed.{IsWellFormed, parent-lt}
use causasv.Topo.Spec.{IsTopoOrder, Follows, IsRank, waiting-nil, waiting-zero}
use causasv.Prelude.Totals.{total-count, total_full, total_ones}
use causasv.Topo.Kahn.{IsQueue, Inv}

pub get_or-map-length :
    (xss : List (List ℕ)) (v : ℕ) → get_or (map length xss) v 0 ≡ length (get_or xss v [])
get_or-map-length [] v = refl
get_or-map-length (xs ∷ xss) zero = refl
get_or-map-length (xs ∷ xss) (suc v) = get_or-map-length xss v

get_or-sub :
    (d : ℕ) (ds : List ℕ) (i v : ℕ) → i < v → get_or (d ∷ ds) (v - i) 1 ≡ get_or ds (v - suc i) 1
get_or-sub d ds i v h = let e : v - i ≡ suc (v - suc i) = omega arith in rw e

get_or-sub_self : (d : ℕ) (ds : List ℕ) (v : ℕ) → get_or (d ∷ ds) (v - v) 1 ≡ d
get_or-sub_self d ds v = let e : v - v ≡ 0 = omega arith in rw e

-- The sources are the positions of in-degree 0, each once.
pub count-sources_from :
    (i : ℕ) (ds : List ℕ) (v : ℕ)
    → i + length ds ≤ u32_mod
    → count v (sources_from i ds) ≡ (if leb i v && get_or ds (v - i) 1 == 0 then 1 else 0)
count-sources_from i [] v h = ground arith
count-sources_from i (d ∷ ds) v h = ground (
  arith,
  as_u32_small i (omega arith),
  count-sources_from (suc i) ds v (omega arith),
  get_or-sub d ds i v,
  get_or-sub_self d ds v,
)

get_or_in_range : (ds : List ℕ) (v a b : ℕ) → v < length ds → get_or ds v a ≡ get_or ds v b
get_or_in_range [] v a b h = absurd (omega arith)
get_or_in_range (d ∷ ds) zero a b h = refl
get_or_in_range (d ∷ ds) (suc v) a b h = get_or_in_range ds v a b (omega arith)

pub count-sources :
    (ds : List ℕ) (v : ℕ)
    → length ds ≤ u32_mod
    → count v (sources_from 0 ds) ≡ (if ltb v (length ds) && get_or ds v 0 == 0 then 1 else 0)
count-sources ds v h = ground (
  arith,
  count-sources_from 0 ds v (omega arith),
  get_or_in_range ds v 0 1,
  get_or_beyond ds v 1,
  sub-zero v,
)

-- The position of `v`, or the length of the list.
abbrev pub index_of : ℕ → List ℕ → ℕ
index_of v [] = 0
index_of v (x ∷ xs) = if x == v then 0 else suc (index_of v xs)

module _ {im : NameIndex} (d : Dag im) (wf : IsWellFormed d) where
  length-in_degrees : length (in_degrees d) ≡ node_count d
  length-in_degrees = length-map d.parents length ∙ wf.sized_parents

  pub start-Inv :
      (enqueue : ℕ → List ℕ → List ℕ) (keeps : IsQueue enqueue) (queue : List ℕ)
      → ((v : ℕ) → count v queue ≡ count v (sources_from 0 (in_degrees d)))
      → Inv d enqueue keeps [] (in_degrees d) queue
  start-Inv enqueue keeps queue same = record {
    mid = record {
      size = omega (arith, length-map d.parents length, wf.sized_parents);
      degree = λ v lt. omega (arith, get_or-map-length d.parents v, waiting-nil (parents_raw d v));
      once = λ v lt. ground (
        arith,
        same v,
        count-sources (in_degrees d) v (omega (arith, length-in_degrees, wf.small)),
        length-in_degrees,
      );
      queued = λ v h. ground (
        arith,
        same v,
        count-sources (in_degrees d) v (omega (arith, length-in_degrees, wf.small)),
        length-in_degrees,
      );
      releasing = λ v h. absurd (omega arith);
    };
    below = λ v h. absurd (omega arith);
    ordered = tt;
  }

  -- A result that is as long as the graph is a topological order.
  pub full-IsTopoOrder :
      (enqueue : ℕ → List ℕ → List ℕ) (keeps : IsQueue enqueue) (result in_deg : List ℕ)
      → Inv d enqueue keeps result in_deg []
      → length result ≡ node_count d
      → IsTopoOrder d result
  full-IsTopoOrder enqueue keeps result in_deg inv full = record {
    each = λ v. ground (
      arith,
      inv.below v,
      total_full (node_count d) (λ w. count w result) (λ w lt. ground (arith, inv.once w lt))
          (total-count (node_count d) result inv.below ∙ full) v,
    );
    follows = inv.ordered;
  }

  -- If a rank grows along every edge, every node has been placed.
  ranked_placed :
      (enqueue : ℕ → List ℕ → List ℕ) (keeps : IsQueue enqueue) (result in_deg : List ℕ)
      → Inv d enqueue keeps result in_deg []
      → (rank : ℕ → ℕ) → IsRank d rank
      → (k v : ℕ) → rank v < k
      → v < node_count d
      → count v result ≡ 1
  ranked_placed enqueue keeps result in_deg inv rank ranked zero v lt v_lt = absurd (omega arith)
  ranked_placed enqueue keeps result in_deg inv rank ranked (suc k) v lt v_lt =
      let parents_placed = λ (p : ℕ) (m : 0 < count p (parents_raw d v)).
        ranked_placed enqueue keeps result in_deg inv rank ranked k p (omega (arith, ranked p v m))
          (parent-lt d wf p v m) in
      ground (
        arith,
        inv.once v v_lt,
        inv.degree v v_lt,
        waiting-zero result (parents_raw d v) (λ p m. omega (arith, parents_placed p m)),
      )

  pub ranked_full :
      (enqueue : ℕ → List ℕ → List ℕ) (keeps : IsQueue enqueue) (result in_deg : List ℕ)
      → Inv d enqueue keeps result in_deg []
      → (rank : ℕ → ℕ) → IsRank d rank
      → length result ≡ node_count d
  ranked_full enqueue keeps result in_deg inv rank ranked = omega (
    arith,
    total-count (node_count d) result inv.below,
    total_ones (node_count d) (λ v. count v result)
        (λ v lt.
          ranked_placed enqueue keeps result in_deg inv rank ranked (suc (rank v)) v (omega arith)
            lt),
  )

  index_lt :
      (before xs : List ℕ) (u v : ℕ)
      → Follows d before xs
      → 0 < count v xs
      → 0 < count u (parents_raw d v)
      → (0 < count u before) ⊎ (index_of u xs < index_of v xs)
  index_lt before [] u v f mv mu = absurd (omega arith)
  index_lt before (y ∷ ys) u v f mv mu = elim (Bool-cases (y == v)) [
    | inl e ↦ let same : y ≡ v = ground arith in inl (f.0 u (rw same mu))
    | inr e ↦ ground (
      arith,
      index_lt (before ++ y ∷ []) ys u v f.1 (ground arith) mu,
      count-append u before (y ∷ []),
    )
  ]

  -- The positions in a topological order are a rank.
  pub IsTopoOrder-IsRank : (order : List ℕ) → IsTopoOrder d order → IsRank d (λ v. index_of v order)
  IsTopoOrder-IsRank order topo u v m =
      let placed : 0 < count v order =
        ground (arith, topo.each v, get_or_beyond d.parents v [], wf.sized_parents) in
      elim (index_lt [] order u v topo.follows placed m) [
        | inl h ↦ absurd (omega arith)
        | inr h ↦ h
      ]
