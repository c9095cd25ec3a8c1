-- ===== src/Topo/Spec.antt =====
-- What a topological order of a DAG is, with no reference to the algorithms.
use causasv.Prelude.{
  ℕ, ◌+◌, ◌<◌, ◌≡◌, refl, List, [], ◌∷◌, ◌++◌, arith, length, count, count-append, if◌then◌else◌,
  ◌==◌, ltb,
}
use causasv.Graph.Index.{NameIndex}
use causasv.Graph.{Dag, parents_raw, node_count}

-- How many of `ps` do not stand in `placed`, repetitions counted.
abbrev pub waiting : List ℕ → List ℕ → ℕ
waiting placed [] = 0
waiting placed (p ∷ ps) = (if count p placed == 0 then 1 else 0) + waiting placed ps

module _ {im : NameIndex} (d : Dag im) where
  -- All parents of each node of the list stand before it, in the list or in `before`.
  abbrev pub Follows : List ℕ → List ℕ → Type 0
  Follows before [] = Unit
  Follows before (v ∷ vs) =
      ((p : ℕ) → 0 < count p (parents_raw d v) → 0 < count p before) × Follows (before ++ v ∷ []) vs

  -- Every node stands in the order exactly once, and nothing else does; parents come first.
  pub record IsTopoOrder (order : List ℕ) : Type 0 where
    pub each : (v : ℕ) → count v order ≡ (if ltb v (node_count d) then 1 else 0)
    pub follows : Follows [] order

  -- A rank that grows along every edge. A finite graph has one if and only if it has no cycle.
  abbrev pub IsRank : (ℕ → ℕ) → Type 0
  IsRank rank = (u v : ℕ) → 0 < count u (parents_raw d v) → rank u < rank v

pub waiting-zero :
    (placed ps : List ℕ) → ((p : ℕ) → 0 < count p ps → 0 < count p placed) → waiting placed ps ≡ 0
waiting-zero placed [] h = refl
waiting-zero placed (q ∷ ps) h =
    ground (arith, h q, waiting-zero placed ps (λ p m. h p (ground arith)))

pub waiting-zero_mem :
    (placed ps : List ℕ) → waiting placed ps ≡ 0 → (p : ℕ) → 0 < count p ps → 0 < count p placed
waiting-zero_mem placed [] e p h = absurd (omega arith)
waiting-zero_mem placed (q ∷ ps) e p h = ground (arith, waiting-zero_mem placed ps _ p)

pub waiting-nil : (ps : List ℕ) → waiting [] ps ≡ length ps
waiting-nil [] = refl
waiting-nil (p ∷ ps) = omega (arith, waiting-nil ps)

-- Placing `u` ends the wait of its children.
pub waiting-snoc :
    (placed : List ℕ) (u : ℕ) (ps : List ℕ)
    → count u placed ≡ 0
    → waiting placed ps ≡ waiting (placed ++ u ∷ []) ps + count u ps
waiting-snoc placed u [] h = omega arith
waiting-snoc placed u (p ∷ ps) h =
    ground (arith, waiting-snoc placed u ps h, count-append p placed (u ∷ []))
