-- ===== src/Topo/Orders.antt =====
-- `enumerate_topos` (src/topo.rs) lists every topological order, and each once.
use causasv.Prelude.{
  ℕ, zero, suc, ◌+◌, ◌*◌, ◌<◌, ◌≤◌, ◌≡◌, refl, ap, ◌∙◌, List, [], ◌∷◌, ◌++◌, map, arith, length,
  count, count-append, length-append, get_or, set, length-set, length-map, get_or-set,
  if◌then◌else◌, ◌==◌, ltb, wrapping_pred, usize_max,
}
use causasv.Error.{ok}
use causasv.Graph.Index.{NameIndex}
use causasv.Graph.{Dag, children_raw, parents_raw, sources_from, node_count, in_degrees, validate}
use causasv.Graph.WellFormed.{IsWellFormed, parent-lt}
use causasv.Topo.{enumerate_topos}
use causasv.Topo.Spec.{
  IsTopoOrder, Follows, waiting, waiting-zero, waiting-zero_mem, waiting-snoc, waiting-nil,
}
use causasv.Prelude.Totals.{length-le_of_once, total-count, total_full, total_ones}
use causasv.Topo.Ends.{count-sources, get_or-map-length}
use causasv.Topo.Backtrack.{
  IsWords, placed_at, orders, get_or-decrease, length-decrease, repeat, backtrack-Restores,
}
use causasv.Topo.Occurs.{occurs, occurs-each_order_nil, occurs-each_order}

repeat_small : (k : ℕ) (f : ℕ → ℕ) (y : ℕ) → k ≤ 1 → repeat k f y ≡ (if k == 0 then y else f y)
repeat_small zero f y h = refl
repeat_small (suc zero) f y h = ground arith
repeat_small (suc (suc k)) f y h = absurd (omega arith)

pos_of_mul : (a b : ℕ) → 0 < a * b → (0 < a) × (0 < b)
pos_of_mul zero b h = absurd (omega arith)
pos_of_mul (suc a) zero h = absurd (omega arith)
pos_of_mul (suc a) (suc b) h = omega arith

module _ {im : NameIndex} (d : Dag im) where
  -- `rest` places the nodes that `placed` leaves, in an order that goes on from `placed`.
  pub record IsExtension (placed rest : List ℕ) : Type 0 where
    pub each : (v : ℕ) → count v placed + count v rest ≡ (if ltb v (node_count d) then 1 else 0)
    pub follows : Follows d placed rest

  -- The in-degrees while `placed` is the current prefix.
  pub record At (placed in_deg : List ℕ) : Type 0 where
    pub size : length in_deg ≡ node_count d
    pub degree :
        (v : ℕ)
        → v < node_count d
        → get_or in_deg v 0
          ≡ (if 0 == count v placed then waiting placed (parents_raw d v) else usize_max)
    pub once : (v : ℕ) → count v placed ≤ 1
    pub below : (v : ℕ) → 0 < count v placed → v < node_count d
    -- a placed node's parents are placed
    pub closed : (u v : ℕ) → 0 < count v placed → 0 < count u (parents_raw d v) → 0 < count u placed

  module _ (wf : IsWellFormed d) where
    count_edge_le : (u v : ℕ) → count u (parents_raw d v) ≤ 1
    count_edge_le u v = omega (arith, wf.matched u v, wf.simple u v)

    -- One write and at most one decrement reach the entry of `v`.
    read_next :
        (placed in_deg : List ℕ) (x v : ℕ)
        → At placed in_deg
        → x < node_count d
        → v < node_count d
        → get_or (placed_at d in_deg x) v 0 ≡ (
            if x == v
            then usize_max
            else if count x (parents_raw d v) == 0
            then get_or in_deg v 0
            else wrapping_pred (get_or in_deg v 0))
    read_next placed in_deg x v at lt v_lt =
        let read =
          get_or-decrease (children_raw d x) (set in_deg x usize_max) v
            (omega (arith, at.size, length-set in_deg x usize_max)) in
        let few =
          repeat_small (count v (children_raw d x)) wrapping_pred
            (get_or (set in_deg x usize_max) v 0) (wf.simple x v) in
        let write = get_or-set in_deg x v usize_max 0 (omega (arith, at.size)) in
        let own = λ (e : x ≡ v). ap (λ w. count w (children_raw d x)) e in
        rw (read, few, write, wf.matched x v) (ground (arith, wf.loopless x, own, wf.matched x v))

    next_degree :
        (placed in_deg : List ℕ) (x v : ℕ)
        → At placed in_deg
        → x < node_count d
        → get_or in_deg x 0 ≡ 0
        → v < node_count d
        → get_or (placed_at d in_deg x) v 0 ≡ (
            if 0 == count v (placed ++ x ∷ [])
            then waiting (placed ++ x ∷ []) (parents_raw d v)
            else usize_max)
    next_degree placed in_deg x v at lt source v_lt =
        let free : count x placed ≡ 0 = ground (arith, at.degree x lt) in
        ground (
          arith,
          read_next placed in_deg x v at lt v_lt,
          at.degree v v_lt,
          at.closed x v,
          waiting-snoc placed x (parents_raw d v) free,
          count-append v placed (x ∷ []),
          count_edge_le x v,
        )

    pub At-next :
        (placed in_deg : List ℕ) (x : ℕ)
        → At placed in_deg
        → x < node_count d
        → get_or in_deg x 0 ≡ 0
        → At (placed ++ x ∷ []) (placed_at d in_deg x)
    At-next placed in_deg x at lt source =
        let free : count x placed ≡ 0 = ground (arith, at.degree x lt) in
        let ready : waiting placed (parents_raw d x) ≡ 0 = ground (arith, at.degree x lt) in
        let ready_parents = waiting-zero_mem placed (parents_raw d x) ready in
        let x_parents = λ (u v : ℕ) (e : x ≡ v). ap (λ w. count u (parents_raw d w)) e in
        record {
          size = omega (
            arith,
            at.size,
            length-set in_deg x usize_max,
            length-decrease (children_raw d x) (set in_deg x usize_max),
          );
          degree = λ v v_lt. next_degree placed in_deg x v at lt source v_lt;
          once = λ v. ground (arith, at.once v, count-append v placed (x ∷ []));
          below = λ v h. ground (arith, at.below v, count-append v placed (x ∷ []));
          closed = λ u v h m. ground (
            arith,
            at.closed u v,
            count-append v placed (x ∷ []),
            count-append u placed (x ∷ []),
            ready_parents u,
            x_parents u v,
          );
        }

    -- When as many nodes are placed as there are, every node is.
    pub all_placed :
        (placed in_deg : List ℕ)
        → At placed in_deg
        → length placed ≡ node_count d
        → IsExtension placed []
    all_placed placed in_deg at full = record {
      each = λ v. ground (
        arith,
        at.below v,
        total_full (node_count d) (λ w. count w placed) (λ w _. at.once w)
            (total-count (node_count d) placed at.below ∙ full) v,
      );
      follows = tt;
    }

    orders_sound :
        (remaining : ℕ) (placed in_deg xs : List ℕ)
        → At placed in_deg
        → remaining + length placed ≡ node_count d
        → 0 < occurs xs (orders d remaining in_deg)
        → IsExtension placed xs
    unfolding orders
    orders_sound zero placed in_deg [] at full h = all_placed placed in_deg at (omega arith)
    orders_sound zero placed in_deg (x ∷ xs) at full h = absurd (omega arith)
    orders_sound (suc remaining) placed in_deg [] at full h =
        absurd (
          omega
            (arith, occurs-each_order_nil d (orders d remaining) in_deg (sources_from 0 in_deg)))
    orders_sound (suc remaining) placed in_deg (x ∷ xs) at full h =
        let found = occurs-each_order d (orders d remaining) in_deg (sources_from 0 in_deg) x xs in
        let (chosen, later) =
          pos_of_mul (count x (sources_from 0 in_deg))
            (occurs xs (orders d remaining (placed_at d in_deg x))) (omega (arith, found)) in
        let listed = count-sources in_deg x (omega (arith, at.size, wf.small)) in
        let lt : x < node_count d = ground (arith, listed, at.size) in
        let source : get_or in_deg x 0 ≡ 0 = ground (arith, listed) in
        let ready : waiting placed (parents_raw d x) ≡ 0 = ground (arith, at.degree x lt) in
        let ext =
          orders_sound remaining (placed ++ x ∷ []) (placed_at d in_deg x) xs
            (At-next placed in_deg x at lt source) (omega (arith, length-append placed (x ∷ [])))
            later in
        record {
          each = λ v. omega (arith, ext.each v, count-append v placed (x ∷ []));
          follows = (waiting-zero_mem placed (parents_raw d x) ready, ext.follows);
        }

    orders_complete :
        (remaining : ℕ) (placed in_deg xs : List ℕ)
        → At placed in_deg
        → remaining + length placed ≡ node_count d
        → IsExtension placed xs
        → occurs xs (orders d remaining in_deg) ≡ 1
    unfolding orders
    orders_complete zero placed in_deg [] at full ext = refl
    orders_complete zero placed in_deg (x ∷ xs) at full ext =
        let done = all_placed placed in_deg at (omega arith) in
        absurd (ground (arith, done.each x, ext.each x))
    orders_complete (suc remaining) placed in_deg [] at full ext = absurd (
        omega (
          arith,
          total-count (node_count d) placed at.below,
          total_ones (node_count d) (λ v. count v placed) (λ v lt. ground (arith, ext.each v)),
        ))
    orders_complete (suc remaining) placed in_deg (x ∷ xs) at full ext =
        let lt : x < node_count d = ground (arith, ext.each x) in
        let source : get_or in_deg x 0 ≡ 0 = ground (
          arith,
          at.degree x lt,
          ext.each x,
          waiting-zero placed (parents_raw d x) ext.follows.0,
        ) in
        let later =
          orders_complete remaining (placed ++ x ∷ []) (placed_at d in_deg x) xs
            (At-next placed in_deg x at lt source) (omega (arith, length-append placed (x ∷ [])))
            (record {
              each = λ v. omega (arith, ext.each v, count-append v placed (x ∷ []));
              follows = ext.follows.1;
            }) in
        ground (
          arith,
          occurs-each_order d (orders d remaining) in_deg (sources_from 0 in_deg) x xs,
          count-sources in_deg x (omega (arith, at.size, wf.small)),
          at.size,
          later,
        )

    degree_le : (v : ℕ) → length (parents_raw d v) ≤ node_count d
    degree_le v =
        length-le_of_once (node_count d) (parents_raw d v) (λ u m. parent-lt d wf u v m)
          (λ u _. count_edge_le u v)

    start-IsWords : IsWords (in_degrees d)
    start-IsWords = (
      omega (arith, length-map d.parents length, wf.sized_parents, wf.small),
      λ v. omega (arith, get_or-map-length d.parents v, degree_le v, wf.small),
    )

    pub start-At : At [] (in_degrees d)
    start-At = record {
      size = omega (arith, length-map d.parents length, wf.sized_parents);
      degree = λ v lt. omega (arith, get_or-map-length d.parents v, waiting-nil (parents_raw d v));
      once = λ v. omega arith;
      below = λ v h. absurd (omega arith);
      closed = λ u v h m. absurd (omega arith);
    }

    map_append_nil : (found : List (List ℕ)) → map (λ order. [] ++ order) found ≡ found
    map_append_nil [] = refl
    map_append_nil (order ∷ found) = ap (λ l. order ∷ l) (map_append_nil found)

    pub enumerate_topos-orders :
        validate d ≡ ok tt → enumerate_topos d ≡ ok (orders d (node_count d) (in_degrees d))
    unfolding enumerate_topos
    enumerate_topos-orders valid =
        rw
          (
            valid,
            backtrack-Restores d (node_count d)
                (record { in_deg = in_degrees d; current = []; result = [] }) start-IsWords,
            map_append_nil (orders d (node_count d) (in_degrees d)),
          )
          refl

    -- For a well-formed graph on which `validate` returns ok: `enumerate_topos` returns ok with a
    -- list of which every member is a topological order and in which every topological order stands
    -- exactly once.
    pub enumerate_topos_exact :
        validate d ≡ ok tt
        → (listing : List (List ℕ)) × (enumerate_topos d ≡ ok listing)
          × ((order : List ℕ)
              → (0 < occurs order listing → IsTopoOrder d order)
                × (IsTopoOrder d order → occurs order listing ≡ 1))
    enumerate_topos_exact valid = (
      orders d (node_count d) (in_degrees d),
      enumerate_topos-orders valid,
      λ order. (
        λ h.
            let ext =
              orders_sound (node_count d) [] (in_degrees d) order start-At (omega arith) h in
            record { each = λ v. omega (arith, ext.each v); follows = ext.follows },
        λ topo.
            orders_complete (node_count d) [] (in_degrees d) order start-At (omega arith)
              (record { each = λ v. omega (arith, topo.each v); follows = topo.follows }),
      ),
    )
