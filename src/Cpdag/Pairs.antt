-- ===== src/Cpdag/Pairs.antt =====
-- How often a pair stands in the lists of edges that `src/cpdag.rs` collects.
use causasv.Prelude.{
  ℕ, zero, suc, ◌+◌, ◌≤◌, ◌≡◌, refl, ap, ◌∙◌, arith, true, false, Bool, ◌&&◌, List, [], ◌∷◌, ◌++◌,
  length, get_or, set, length-set, replicate, count, ◌==◌, leb, ltb, if◌then◌else◌, as_u32,
  as_u32_small, u32_mod,
}
use causasv.Graph.{node_ids}
use causasv.Cpdag.{pairs_from, edges_from, into, only_active, retain_other, retain_at}

abbrev pub edge_count : ℕ → ℕ → List (ℕ × ℕ) → ℕ
edge_count u v [] = 0
edge_count u v ((a, b) ∷ edges) =
    (if a == u then (if b == v then 1 else 0) else 0) + edge_count u v edges

pub edge_count-append :
    (u v : ℕ) (front back : List (ℕ × ℕ))
    → edge_count u v (front ++ back) ≡ edge_count u v front + edge_count u v back
edge_count-append u v [] back = omega arith
edge_count-append u v ((a, b) ∷ front) back = omega (arith, edge_count-append u v front back)

edge_count-pairs_from :
    (u v a : ℕ) (ws : List ℕ)
    → edge_count u v (pairs_from a ws) ≡ (if a == u then count v ws else 0)
edge_count-pairs_from u v a [] = ground arith
edge_count-pairs_from u v a (w ∷ ws) = ground (arith, edge_count-pairs_from u v a ws)

pub edge_count-into :
    (u v b : ℕ) (ws : List ℕ) → edge_count u v (into b ws) ≡ (if b == v then count u ws else 0)
edge_count-into u v b [] = ground arith
edge_count-into u v b (w ∷ ws) = ground (arith, edge_count-into u v b ws)

pub edge_count-edges_from :
    (at : ℕ → List ℕ) (u v i k : ℕ)
    → i + k ≤ u32_mod
    → edge_count u v (edges_from at (node_ids i k))
      ≡ (if leb i u && ltb u (i + k) then count v (at u) else 0)
edge_count-edges_from at u v i zero room = ground arith
edge_count-edges_from at u v i (suc k) room =
    let e : as_u32 i ≡ i = as_u32_small i (omega arith) in
    rw e (
      ground (
        arith,
        edge_count-append u v (pairs_from i (at i)) (edges_from at (node_ids (suc i) k)),
        edge_count-pairs_from u v i (at i),
        edge_count-edges_from at u v (suc i) k (omega arith),
        λ (same : i ≡ u). ap (λ (t : ℕ). count v (at t)) same,
      ))

pub count-only_active :
    (active : List Bool) (u : ℕ) (ws : List ℕ)
    → count u (only_active active ws) ≡ (if get_or active u false then count u ws else 0)
count-only_active active u [] = ground arith
count-only_active active u (w ∷ ws) = ground (
  arith,
  count-only_active active u ws,
  λ (same : w ≡ u). ap (λ (t : ℕ). get_or active t false) same,
)

pub count-retain_other :
    (u v : ℕ) (ws : List ℕ) → count u (retain_other v ws) ≡ (if u == v then 0 else count u ws)
count-retain_other u v [] = ground arith
count-retain_other u v (w ∷ ws) = ground (arith, count-retain_other u v ws)

pub length-retain_at :
    (v : ℕ) (ws : List ℕ) (xss : List (List ℕ)) → length (retain_at v ws xss) ≡ length xss
length-retain_at v [] xss = refl
length-retain_at v (w ∷ ws) xss =
    length-retain_at v ws (set xss w (retain_other v (get_or xss w [])))
    ∙ length-set xss w (retain_other v (get_or xss w []))

count-set_retained :
    (v w : ℕ) (xss : List (List ℕ)) (x y : ℕ)
    → count y (get_or (set xss w (retain_other v (get_or xss w []))) x [])
      ≡ (if y == v && w == x then 0 else count y (get_or xss x []))
count-set_retained v w [] x y = ground arith
count-set_retained v zero (xs ∷ xss) zero y = ground (arith, count-retain_other y v xs)
count-set_retained v zero (xs ∷ xss) (suc x) y = ground arith
count-set_retained v (suc w) (xs ∷ xss) zero y = ground arith
count-set_retained v (suc w) (xs ∷ xss) (suc x) y = ground (arith, count-set_retained v w xss x y)

pub count-retain_at :
    (v : ℕ) (ws : List ℕ) (xss : List (List ℕ)) (x y : ℕ)
    → count y (get_or (retain_at v ws xss) x [])
      ≡ (if y == v && ltb 0 (count x ws) then 0 else count y (get_or xss x []))
count-retain_at v [] xss x y = ground arith
count-retain_at v (w ∷ ws) xss x y = ground (
  arith,
  count-retain_at v ws (set xss w (retain_other v (get_or xss w []))) x y,
  count-set_retained v w xss x y,
)

-- The nodes marked.
abbrev pub marks : List Bool → ℕ
marks [] = 0
marks (marked ∷ active) = (if marked then 1 else 0) + marks active

pub marks-set :
    (active : List Bool) (v : ℕ)
    → get_or active v false ≡ true
    → marks active ≡ suc (marks (set active v false))
marks-set [] v h = ground arith
marks-set (marked ∷ active) zero h = ground arith
marks-set (marked ∷ active) (suc v) h = omega (arith, marks-set active v h)

pub marks_none : (active : List Bool) (v : ℕ) → marks active ≡ 0 → get_or active v false ≡ false
marks_none [] v h = refl
marks_none (true ∷ active) v h = absurd (omega arith)
marks_none (false ∷ active) zero h = refl
marks_none (false ∷ active) (suc v) h = marks_none active v (omega arith)

pub marks-replicate : (n : ℕ) → marks (replicate n true) ≡ n
marks-replicate zero = refl
marks-replicate (suc n) = omega (arith, marks-replicate n)

pub get_or-replicate-true : (n i : ℕ) → get_or (replicate n true) i false ≡ ltb i n
get_or-replicate-true zero i = ground arith
get_or-replicate-true (suc n) zero = ground arith
get_or-replicate-true (suc n) (suc i) = ground (arith, get_or-replicate-true n i)
