-- ===== src/Topo/Kahn.antt =====
-- The loop that `Dag::validate` (src/graph.rs) and `topo_sort` (src/topo.rs) share: its invariant,
-- and what it has done when the queue is empty.
use causasv.Prelude.{
  ℕ, zero, suc, ◌+◌, ◌<◌, ◌≤◌, ◌≡◌, refl, some, List, [], ◌∷◌, ◌++◌, arith, length, count,
  count-append, get_or, set, length-set, length-append, get_or-set, if◌then◌else◌, ◌==◌,
  wrapping_pred,
}
use causasv.Graph.Index.{NameIndex}
use causasv.Graph.{Dag, node_count, children_raw, parents_raw, release}
use causasv.Graph.WellFormed.{IsWellFormed, child-lt}
use causasv.Topo.{topo_loop}
use causasv.Topo.Spec.{Follows, waiting, waiting-snoc, waiting-zero_mem}
use causasv.Prelude.Totals.{length-le_of_once}

-- A queue that keeps what is put on it.
abbrev pub IsQueue : (ℕ → List ℕ → List ℕ) → Type 0
IsQueue enqueue =
    (v x : ℕ) (queue : List ℕ)
    → count x (enqueue v queue) ≡ count x queue + (if v == x then 1 else 0)

module _ {im : NameIndex} (d : Dag im) (enqueue : ℕ → List ℕ → List ℕ)
    (keeps : IsQueue enqueue) where
  -- The state while the children `rest` of the last node of `placed` are still to be released.
  pub record Mid (placed rest in_deg queue : List ℕ) : Type 0 where
    pub size : length in_deg ≡ node_count d
    pub degree :
        (v : ℕ)
        → v < node_count d
        → get_or in_deg v 0 ≡ waiting placed (parents_raw d v) + count v rest
    pub once :
        (v : ℕ)
        → v < node_count d
        → count v queue + count v placed ≡ (if get_or in_deg v 0 == 0 then 1 else 0)
    pub queued : (v : ℕ) → 0 < count v queue → v < node_count d
    pub releasing : (v : ℕ) → 0 < count v rest → v < node_count d

  Mid-step :
      (placed rest in_deg queue : List ℕ) (c : ℕ)
      → Mid placed (c ∷ rest) in_deg queue
      → (in_deg' : List ℕ) → in_deg' ≡ set in_deg c (wrapping_pred (get_or in_deg c 0))
      → Mid placed rest in_deg' (if get_or in_deg' c 0 == 0 then enqueue c queue else queue)
  Mid-step placed rest in_deg queue c m in_deg' e =
      let c_lt : c < node_count d = m.releasing c (ground arith) in
      let write = λ (v : ℕ). get_or-set in_deg c v (wrapping_pred (get_or in_deg c 0)) 0 in
      rw e (record {
        size = omega (arith, length-set in_deg c (wrapping_pred (get_or in_deg c 0)), m.size);
        degree =
            λ v lt. ground (arith, m.degree v lt, m.degree c c_lt, write v (omega (arith, m.size)));
        once = λ v lt. ground (
          arith,
          m.degree c c_lt,
          m.once v lt,
          m.once c c_lt,
          write v (omega (arith, m.size)),
          write c (omega (arith, m.size)),
          keeps c v queue,
        );
        queued = λ v h. ground (arith, keeps c v queue, m.queued v);
        releasing = λ v h. m.releasing v (ground arith);
      })

  release-Mid :
      (placed rest in_deg queue : List ℕ)
      → Mid placed rest in_deg queue
      → Mid placed [] (release enqueue rest in_deg queue).0 (release enqueue rest in_deg queue).1
  release-Mid placed [] in_deg queue m = m
  release-Mid placed (c ∷ rest) in_deg queue m =
      release-Mid placed rest _ _ (Mid-step placed rest in_deg queue c m _ refl)

  -- The state between two rounds.
  pub record Inv (placed in_deg queue : List ℕ) : Type 0 where
    pub mid : Mid placed [] in_deg queue
    pub open mid use {size, degree, once, queued}
    pub below : (v : ℕ) → 0 < count v placed → v < node_count d
    pub ordered : Follows d [] placed

  pub Follows-snoc :
      (before placed : List ℕ) (v : ℕ)
      → Follows d before placed
      → ((p : ℕ) → 0 < count p (parents_raw d v) → 0 < count p before + count p placed)
      → Follows d before (placed ++ v ∷ [])
  Follows-snoc before [] v f h = (λ p m. omega (arith, h p m), tt)
  Follows-snoc before (u ∷ placed) v f h = (
    f.0,
    Follows-snoc (before ++ u ∷ []) placed v f.1
        (λ p m. omega (arith, h p m, count-append p before (u ∷ []))),
  )

  module _ (wf : IsWellFormed d) where
    -- One round: the head of the queue is placed and its children are released.
    pub Inv-round :
        (placed in_deg rest : List ℕ) (u : ℕ)
        → Inv placed in_deg (u ∷ rest)
        → Inv
            (placed ++ u ∷ [])
            (release enqueue (children_raw d u) in_deg rest).0
            (release enqueue (children_raw d u) in_deg rest).1
    Inv-round placed in_deg rest u inv =
        let u_lt : u < node_count d = inv.queued u (ground arith) in
        let u_once = inv.once u u_lt in
        let fresh : count u placed ≡ 0 = ground arith in
        let free : get_or in_deg u 0 ≡ 0 = ground arith in
        record {
          mid = release-Mid (placed ++ u ∷ []) (children_raw d u) in_deg rest (record {
            size = inv.size;
            degree = λ v lt. omega (
              arith,
              inv.degree v lt,
              waiting-snoc placed u (parents_raw d v) fresh,
              wf.matched u v,
            );
            once = λ v lt. ground (arith, inv.once v lt, count-append v placed (u ∷ []));
            queued = λ v h. inv.queued v (ground arith);
            releasing = λ v h. child-lt d wf u v h;
          });
          below = λ v h. ground (arith, inv.below v, count-append v placed (u ∷ []));
          ordered = Follows-snoc [] placed u inv.ordered (λ p m. omega (
            arith,
            waiting-zero_mem placed (parents_raw d u) (omega (arith, inv.degree u u_lt)) p m,
          ));
        }

    length-placed-le :
        (placed in_deg queue : List ℕ) → Inv placed in_deg queue → length placed ≤ node_count d
    length-placed-le placed in_deg queue inv =
        length-le_of_once (node_count d) placed inv.below (λ v lt. ground (arith, inv.once v lt))

    -- With a round of fuel for each node that is not placed the loop ends with an empty queue.
    pub topo_loop_ends :
        (fuel : ℕ) (placed in_deg queue : List ℕ)
        → Inv placed in_deg queue
        → node_count d ≤ fuel + length placed
        → (result : List ℕ) × (in_deg' : List ℕ) × (topo_loop enqueue fuel d in_deg queue placed
            ≡ some result)
          × Inv result in_deg' []
    unfolding topo_loop
    topo_loop_ends zero placed in_deg [] inv h = (placed, in_deg, refl, inv)
    topo_loop_ends (suc fuel) placed in_deg [] inv h = (placed, in_deg, refl, inv)
    topo_loop_ends zero placed in_deg (u ∷ rest) inv h =
        let longer = length-placed-le (placed ++ u ∷ []) _ _ (Inv-round placed in_deg rest u inv) in
        absurd (omega (arith, longer, length-append placed (u ∷ [])))
    topo_loop_ends (suc fuel) placed in_deg (u ∷ rest) inv h =
        topo_loop_ends fuel (placed ++ u ∷ []) _ _ (Inv-round placed in_deg rest u inv)
          (omega (arith, length-append placed (u ∷ [])))
