-- ===== src/Sampler/Frontier.antt =====
-- Whatever the draws, the frontier sampler (src/sampler.rs) returns a topological order.
use causasv.Prelude.{
  ℕ, zero, suc, ◌+◌, ◌-◌, ◌<◌, ◌≤◌, ◌≡◌, refl, ap, ◌∙◌, List, [], ◌∷◌, ◌++◌, arith, length,
  length-append, length-map, length-set, count, get_or, set, get_or-set, if◌then◌else◌, ◌==◌,
  as_u32, as_u32_small, u32_mod, false,
}
use causasv.Error.{ok}
use causasv.Graph.Index.{NameIndex}
use causasv.Graph.{Dag, node_count, in_degrees, sources_from, push_back, validate}
use causasv.Graph.WellFormed.{IsWellFormed}
use causasv.Topo.{pop}
use causasv.Topo.Spec.{IsTopoOrder, IsRank}
use causasv.Topo.Kahn.{Inv, Inv-round}
use causasv.Topo.Ends.{start-Inv, full-IsTopoOrder, ranked_full}
use causasv.Topo.Sort.{push_back-IsQueue, accepted-IsAcyclic}
use causasv.Prelude.Totals.{total-count, total_full}
use causasv.Numerics.{Float}
use causasv.Sampler.{Rng, SamplerScratch, swap_remove, zeros_from, sample_rounds, sample_one_into}

count-set :
    (xs : List ℕ) (i y v : ℕ)
    → i < length xs
    → count v (set xs i y) + (if get_or xs i 0 == v then 1 else 0)
      ≡ count v xs + (if y == v then 1 else 0)
count-set [] i y v h = absurd (omega arith)
count-set (x ∷ xs) zero y v h = omega arith
count-set (x ∷ xs) (suc i) y v h = omega (arith, count-set xs i y v (omega arith))

count-pop :
    (xs : List ℕ) (v : ℕ)
    → 0 < length xs
    → count v xs ≡ count v (pop xs) + (if get_or xs (length xs - 1) 0 == v then 1 else 0)
count-pop [] v h = absurd (omega arith)
count-pop (x ∷ []) v h = omega arith
count-pop (x ∷ y ∷ xs) v h =
    let e : length (x ∷ y ∷ xs) - 1 ≡ suc (length (y ∷ xs) - 1) = omega arith in
    rw e (omega (arith, count-pop (y ∷ xs) v (omega arith)))

-- `swap_remove` takes out the entry at the position, once, and keeps the others.
count-swap_remove :
    (xs : List ℕ) (i v : ℕ)
    → i < length xs
    → count v xs ≡ (if get_or xs i 0 == v then 1 else 0) + count v (swap_remove xs i)
count-swap_remove xs i v h =
    let last = get_or xs (length xs - 1) 0 in
    let size = length-set xs i last in
    let e : length (set xs i last) - 1 ≡ length xs - 1 = omega (arith, size) in
    ground (
      arith,
      count-set xs i last v h,
      count-pop (set xs i last) v (omega (arith, size)),
      ap (λ k. get_or (set xs i last) k 0) e,
      get_or-set xs i (length xs - 1) last 0 h,
    )

zeros_from-sources :
    (i : ℕ) (ds : List ℕ) → i + length ds ≤ u32_mod → zeros_from i ds ≡ sources_from i ds
zeros_from-sources i [] h = refl
zeros_from-sources i (d ∷ ds) h =
    rw (zeros_from-sources (suc i) ds (omega arith), as_u32_small i (omega arith)) refl

module _ {im : NameIndex} (d : Dag im) where
  -- The invariant looks at a queue only as to what it has.
  Inv-same :
      (placed in_deg queue queue' : List ℕ)
      → Inv d push_back push_back-IsQueue placed in_deg queue
      → ((v : ℕ) → count v queue' ≡ count v queue)
      → Inv d push_back push_back-IsQueue placed in_deg queue'
  Inv-same placed in_deg queue queue' inv same = record {
    mid = record {
      size = inv.size;
      degree = inv.degree;
      once = λ v lt. omega (arith, inv.once v lt, same v);
      queued = λ v h. inv.queued v (omega (arith, same v));
      releasing = λ v h. absurd (omega arith);
    };
    below = inv.below;
    ordered = inv.ordered;
  }

  module _ (wf : IsWellFormed d) (rng : Rng) (fl : Float) where
    open rng use {R, random_range, random_range-lt}

    -- When all nodes are placed, the ordering is complete.
    all_placed :
        (placed in_deg queue : List ℕ)
        → Inv d push_back push_back-IsQueue placed in_deg queue
        → length placed ≡ node_count d
        → IsTopoOrder d placed
    all_placed placed in_deg queue inv full =
        let each =
          total_full (node_count d) (λ w. count w placed) (λ w lt. ground (arith, inv.once w lt))
            (total-count (node_count d) placed inv.below ∙ full) in
        full-IsTopoOrder d wf push_back push_back-IsQueue placed in_deg
          (Inv-same placed in_deg queue [] inv
            (λ v. ground (arith, inv.queued v, each v, inv.once v)))
          full

    sample_rounds_exact :
        (rank : ℕ → ℕ)
        → IsRank d rank
        → (k : ℕ) (r : R) (placed in_deg frontier : List ℕ) (log_q : Float.F fl)
        → Inv d push_back push_back-IsQueue placed in_deg frontier
        → k + length placed ≡ node_count d
        → (log_q' : Float.F fl) × (r' : R) × (scratch : SamplerScratch rng fl) × (sample_rounds rng
              fl d k r
              (record { in_deg = in_deg; frontier = frontier; ordering = placed })
              log_q
            ≡ ok (log_q', r', scratch))
          × IsTopoOrder d scratch.ordering
    unfolding sample_rounds
    sample_rounds_exact rank ranked zero r placed in_deg frontier log_q inv full = (
      log_q,
      r,
      record { in_deg = in_deg; frontier = frontier; ordering = placed },
      refl,
      all_placed placed in_deg frontier inv (omega arith),
    )
    sample_rounds_exact rank ranked (suc k) r placed in_deg [] log_q inv full =
        absurd (
          omega (arith, ranked_full d wf push_back push_back-IsQueue placed in_deg inv rank ranked))
    sample_rounds_exact rank ranked (suc k) r placed in_deg (x ∷ xs) log_q inv full =
        let frontier = x ∷ xs in
        let idx = (random_range r (length frontier)).0 in
        let lt : idx < length frontier = random_range-lt r (length frontier) (omega arith) in
        let node = get_or frontier idx 0 in
        let rest = swap_remove frontier idx in
        let taken = count-swap_remove frontier idx in
        let inv' =
          Inv-same placed in_deg frontier (node ∷ rest) inv (λ v. omega (arith, taken v lt)) in
        let inside : node < node_count d = inv'.queued node (ground arith) in
        let nonempty : (length frontier == 0) ≡ false = ground arith in
        let same : as_u32 node ≡ node = as_u32_small node (omega (arith, wf.small)) in
        rw (nonempty, same)
          (sample_rounds_exact rank ranked k (random_range r (length frontier)).1
            (placed ++ node ∷ []) _ _ _
            (Inv-round d push_back push_back-IsQueue wf placed in_deg rest node inv')
            (omega (arith, length-append placed (node ∷ []))))

    -- For a well-formed graph that `validate` accepts, whatever the random generator draws:
    -- `sample_one_into` from the in-degrees of the graph returns (no empty range is drawn from),
    -- and the ordering in the scratch is a topological order of all nodes.
    pub sample_one_into_exact :
        validate d ≡ ok tt
        → (r : R)
        → (log_q : Float.F fl) × (r' : R) × (scratch : SamplerScratch rng fl) × (sample_one_into rng
              fl d r
              (in_degrees d)
            ≡ ok (log_q, r', scratch))
          × IsTopoOrder d scratch.ordering
    unfolding sample_one_into
    sample_one_into_exact valid r =
        let (rank, ranked) = accepted-IsAcyclic d wf valid in
        let size = length-map d.parents length in
        rw (zeros_from-sources 0 (in_degrees d) (omega (arith, size, wf.sized_parents, wf.small))) (
          sample_rounds_exact rank ranked (node_count d) r [] (in_degrees d)
            (sources_from 0 (in_degrees d)) (Float.of_u64 fl 0)
            (start-Inv d wf push_back push_back-IsQueue (sources_from 0 (in_degrees d)) (λ v. refl))
            (omega arith))
