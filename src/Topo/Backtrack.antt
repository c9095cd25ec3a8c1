-- ===== src/Topo/Backtrack.antt =====
-- `backtrack` (src/topo.rs) restores the state that it mutates: what it adds to the result is
-- listed by a function that mutates nothing.
use causasv.Prelude.{
  ℕ, zero, suc, ◌<◌, ◌≤◌, ◌≡◌, refl, ap, sym, ◌∙◌, List, [], ◌∷◌, ◌++◌, map, arith, length, count,
  get_or, set, length-set, get_or_beyond, if◌then◌else◌, ◌==◌, ltb, wrapping_pred, wrapping_suc,
  usize_max, u32_mod, inl, inr, Bool-cases,
}
use mathlib.Core.List.{append-nil, append_assoc, map-append}
use causasv.Graph.Index.{NameIndex}
use causasv.Graph.{Dag, children_raw, sources_from}
use causasv.Topo.Ends.{count-sources}
use causasv.Topo.{Search, decrease, increase, pop, each_node, backtrack}

abbrev pub repeat : ℕ → (ℕ → ℕ) → ℕ → ℕ
repeat zero f x = x
repeat (suc k) f x = repeat k f (f x)

-- every position is a `u32` and every entry a `usize`
abbrev pub IsWords : List ℕ → Type 0
IsWords in_deg = (length in_deg ≤ u32_mod) × ((v : ℕ) → get_or in_deg v 0 ≤ usize_max)

list_ext :
    (xs ys : List ℕ) → length xs ≡ length ys → ((v : ℕ) → get_or xs v 0 ≡ get_or ys v 0) → xs ≡ ys
list_ext [] [] e h = refl
list_ext [] (y ∷ ys) e h = absurd (omega arith)
list_ext (x ∷ xs) [] e h = absurd (omega arith)
list_ext (x ∷ xs) (y ∷ ys) e h = cc (h 0, list_ext xs ys (omega arith) (λ v. h (suc v)))

-- a write out of range changes nothing, and an absent entry reads as the default
get_or-set_any :
    (xs : List ℕ) (i j v : ℕ)
    → get_or (set xs i v) j 0
      ≡ (if ltb i (length xs) then (if i == j then v else get_or xs j 0) else get_or xs j 0)
get_or-set_any [] i j v = ground arith
get_or-set_any (x ∷ xs) zero zero v = ground arith
get_or-set_any (x ∷ xs) zero (suc j) v = ground arith
get_or-set_any (x ∷ xs) (suc i) zero v = ground arith
get_or-set_any (x ∷ xs) (suc i) (suc j) v = ground (arith, get_or-set_any xs i j v)

get_or-step :
    (f : ℕ → ℕ) (D : List ℕ) (c v : ℕ)
    → v < length D
    → get_or (set D c (f (get_or D c 0))) v 0 ≡ (if c == v then f (get_or D v 0) else get_or D v 0)
get_or-step f D c v h = elim (Bool-cases (c == v)) [
  | inl e ↦
      let same : c ≡ v = ground arith in
      ground (arith, get_or-set_any D c v (f (get_or D c 0)), ap (λ w. f (get_or D w 0)) same)
  | inr e ↦ ground (arith, get_or-set_any D c v (f (get_or D c 0)))
]

repeat-count :
    (f : ℕ → ℕ) (c : ℕ) (cs : List ℕ) (v x : ℕ)
    → repeat (count v (c ∷ cs)) f x ≡ repeat (count v cs) f (if c == v then f x else x)
repeat-count f c cs v x = elim (Bool-cases (c == v)) [
  | inl e ↦ let more : count v (c ∷ cs) ≡ suc (count v cs) = ground arith in rw more (rw e)
  | inr e ↦ let same : count v (c ∷ cs) ≡ count v cs = ground arith in rw same (rw e)
]

pub length-decrease : (cs D : List ℕ) → length (decrease cs D) ≡ length D
length-decrease [] D = refl
length-decrease (c ∷ cs) D = length-decrease cs _ ∙ length-set D c (wrapping_pred (get_or D c 0))

length-increase : (cs D : List ℕ) → length (increase cs D) ≡ length D
length-increase [] D = refl
length-increase (c ∷ cs) D = length-increase cs _ ∙ length-set D c (wrapping_suc (get_or D c 0))

pub get_or-decrease :
    (cs D : List ℕ) (v : ℕ)
    → v < length D
    → get_or (decrease cs D) v 0 ≡ repeat (count v cs) wrapping_pred (get_or D v 0)
get_or-decrease [] D v h = refl
get_or-decrease (c ∷ cs) D v h =
    get_or-decrease cs _ v (omega (arith, length-set D c (wrapping_pred (get_or D c 0))))
    ∙ ap (repeat (count v cs) wrapping_pred) (get_or-step wrapping_pred D c v h)
    ∙ sym (repeat-count wrapping_pred c cs v (get_or D v 0))

get_or-increase :
    (cs D : List ℕ) (v : ℕ)
    → v < length D
    → get_or (increase cs D) v 0 ≡ repeat (count v cs) wrapping_suc (get_or D v 0)
get_or-increase [] D v h = refl
get_or-increase (c ∷ cs) D v h =
    get_or-increase cs _ v (omega (arith, length-set D c (wrapping_suc (get_or D c 0))))
    ∙ ap (repeat (count v cs) wrapping_suc) (get_or-step wrapping_suc D c v h)
    ∙ sym (repeat-count wrapping_suc c cs v (get_or D v 0))

repeat_out :
    (k : ℕ) (x : ℕ)
    → repeat k wrapping_pred (wrapping_pred x) ≡ wrapping_pred (repeat k wrapping_pred x)
repeat_out zero x = refl
repeat_out (suc k) x = repeat_out k (wrapping_pred x)

repeat-le : (k x : ℕ) → x ≤ usize_max → repeat k wrapping_pred x ≤ usize_max
repeat-le zero x h = h
repeat-le (suc k) x h = repeat-le k (wrapping_pred x) (ground arith)

suc-pred : (x : ℕ) → x ≤ usize_max → wrapping_suc (wrapping_pred x) ≡ x
suc-pred x h = ground arith

repeat_back : (k x : ℕ) → x ≤ usize_max → repeat k wrapping_suc (repeat k wrapping_pred x) ≡ x
repeat_back zero x h = refl
repeat_back (suc k) x h =
    ap (repeat k wrapping_suc)
      (ap wrapping_suc (repeat_out k x) ∙ suc-pred (repeat k wrapping_pred x) (repeat-le k x h))
    ∙ repeat_back k x h

increase-decrease : (cs D : List ℕ) → IsWords D → increase cs (decrease cs D) ≡ D
increase-decrease cs D words =
    list_ext _ D (length-increase cs (decrease cs D) ∙ length-decrease cs D) pointwise
  where
    pointwise : (v : ℕ) → get_or (increase cs (decrease cs D)) v 0 ≡ get_or D v 0
    pointwise v = elim (Bool-cases (ltb v (length D))) [
      | inl h ↦
          get_or-increase cs (decrease cs D) v (ground (arith, length-decrease cs D))
          ∙ ap (repeat (count v cs) wrapping_suc) (get_or-decrease cs D v (ground arith))
          ∙ repeat_back (count v cs) (get_or D v 0) (words.1 v)
      | inr h ↦
          get_or_beyond _ v 0
            (ground (arith, length-increase cs (decrease cs D), length-decrease cs D))
          ∙ sym (get_or_beyond D v 0 (ground arith))
    ]

set_back : (D : List ℕ) (v x : ℕ) → get_or D v 0 ≡ 0 → set (set D v x) v 0 ≡ D
set_back [] v x h = refl
set_back (d ∷ D) zero x h = cc
set_back (d ∷ D) (suc v) x h = ap (λ ds. d ∷ ds) (set_back D v x h)

pop-snoc : (xs : List ℕ) (v : ℕ) → pop (xs ++ v ∷ []) ≡ xs
pop-snoc [] v = refl
pop-snoc (x ∷ []) v = refl
pop-snoc (x ∷ y ∷ xs) v = ap (λ l. x ∷ l) (pop-snoc (y ∷ xs) v)

map_regroup :
    (current : List ℕ) (node : ℕ) (found : List (List ℕ))
    → map (λ order. (current ++ node ∷ []) ++ order) found
      ≡ map (λ order. current ++ order) (map (λ order. node ∷ order) found)
map_regroup current node [] = refl
map_regroup current node (order ∷ found) =
    cc (append_assoc current (node ∷ []) order, map_regroup current node found)

module _ {im : NameIndex} (d : Dag im) where
  -- The in-degrees after `node` is placed.
  abbrev pub placed_at : List ℕ → ℕ → List ℕ
  placed_at in_deg node = decrease (children_raw d node) (set in_deg node usize_max)

  unfoldable pub each_order : (List ℕ → List (List ℕ)) → List ℕ → List ℕ → List (List ℕ)
  each_order recurse in_deg [] = []
  each_order recurse in_deg (node ∷ rest) =
      map (λ order. node ∷ order) (recurse (placed_at in_deg node))
      ++ each_order recurse in_deg rest

  -- The orders of the nodes still to be placed, from the in-degrees alone.
  unfoldable pub orders : ℕ → List ℕ → List (List ℕ)
  unfolding each_order
  orders zero in_deg = [] ∷ []
  orders (suc remaining) in_deg = each_order (orders remaining) in_deg (sources_from 0 in_deg)

  restored :
      (in_deg : List ℕ) (node : ℕ)
      → IsWords in_deg
      → get_or in_deg node 0 ≡ 0
      → set (increase (children_raw d node) (placed_at in_deg node)) node 0 ≡ in_deg
  restored in_deg node words source =
      ap (λ ds. set ds node 0)
        (increase-decrease (children_raw d node) (set in_deg node usize_max) (
          omega (arith, words.0, length-set in_deg node usize_max),
          λ v. ground (arith, words.1 v, get_or-set_any in_deg node v usize_max),
        ))
      ∙ set_back in_deg node usize_max source

  placed_at-IsWords :
      (in_deg : List ℕ) (node : ℕ) → IsWords in_deg → IsWords (placed_at in_deg node)
  placed_at-IsWords in_deg node words =
      let D = set in_deg node usize_max in
      (
        omega (
          arith,
          words.0,
          length-set in_deg node usize_max,
          length-decrease (children_raw d node) D,
        ),
        λ v. elim (Bool-cases (ltb v (length D))) [
          | inl h ↦ rw (get_or-decrease (children_raw d node) D v (ground arith)) (
              repeat-le (count v (children_raw d node)) (get_or D v 0)
                (ground (arith, words.1 v, get_or-set_any in_deg node v usize_max)))
          | inr h ↦
              rw
                (get_or_beyond (placed_at in_deg node) v 0
                  (ground (arith, length-decrease (children_raw d node) D)))
                (omega arith)
        ],
      )

  -- What the recursive call does is known: it restores its state and adds its orders.
  Restores : (Search → Search) → (List ℕ → List (List ℕ)) → Type 0
  Restores recurse list =
      (s : Search)
      → IsWords s.in_deg
      → recurse s
        ≡ record s { result = s.result ++ map (λ order. s.current ++ order) (list s.in_deg) }

  each_node-Restores :
      (recurse : Search → Search) (list : List ℕ → List (List ℕ))
      → Restores recurse list
      → (nodes : List ℕ) (s : Search) → IsWords s.in_deg
      → ((v : ℕ) → 0 < count v nodes → get_or s.in_deg v 0 ≡ 0)
      → each_node recurse d nodes s ≡ record s {
        result = s.result ++ map (λ order. s.current ++ order) (each_order list s.in_deg nodes);
      }
  unfolding each_node each_order Restores
  each_node-Restores recurse list h [] s words free = rw append-nil
  each_node-Restores recurse list h (node ∷ rest) s words free =
      let found = list (placed_at s.in_deg node) in
      let more = map (λ (order : List ℕ). (s.current ++ node ∷ []) ++ order) found in
      rw
        (
          h
              (record {
                in_deg = placed_at s.in_deg node;
                current = s.current ++ node ∷ [];
                result = s.result;
              })
              (placed_at-IsWords s.in_deg node words),
          restored s.in_deg node words (free node (ground arith)),
          pop-snoc s.current node,
        )
        (each_node-Restores recurse list h rest (record s { result = s.result ++ more }) words
            (λ v m. free v (ground arith))
          ∙ ap (λ r. record s { result = r })
              (append_assoc s.result more _
                ∙ ap (λ r. s.result ++ r)
                    (ap
                        (λ r.
                          r ++ map (λ order. s.current ++ order) (each_order list s.in_deg rest))
                        (map_regroup s.current node found)
                      ∙ sym (
                          map-append (λ order. s.current ++ order)
                            (map (λ order. node ∷ order) found) (each_order list s.in_deg rest)))))

  -- If the in-degrees are words and their positions fit in a `u32`, then `backtrack` leaves the
  -- in-degrees and the current prefix as they were and adds to the result, for each order of the
  -- rest that the specification `orders` lists, that order after the prefix.
  pub backtrack-Restores :
      (remaining : ℕ) (s : Search)
      → IsWords s.in_deg
      → backtrack remaining d s ≡ record s {
        result = s.result ++ map (λ order. s.current ++ order) (orders remaining s.in_deg);
      }
  unfolding backtrack orders Restores
  backtrack-Restores zero s words = rw append-nil
  backtrack-Restores (suc remaining) s words =
      each_node-Restores (backtrack remaining d) (orders remaining) (backtrack-Restores remaining)
        (sources_from 0 s.in_deg) s words (λ v m. ground (arith, count-sources s.in_deg v words.0))
