-- ===== src/Cache/Masks.antt =====
-- `mask_to_coalition` and `vec_to_mask` (src/cache.rs) are inverse to each other.
use Prim.Native.Nat.{bit_and, bit_or}
use causasv.Prelude.{
  ℕ, zero, suc, ◌+◌, ◌-◌, ◌/◌, ◌%◌, ◌^◌, ◌≤◌, ◌<◌, ◌≡◌, refl, sym, ◌∙◌, arith, ◌||◌, ◌==◌,
  if◌then◌else◌, ltb, List, [], ◌∷◌, ◌++◌, count, contains, Bool-cases, inl, inr,
}
use mathlib.Core.List.{append-nil, append_assoc}
use causasv.Bits.{bit_at, shl1, trailing_zeros, members_from, count-members_from, bit_at-shl1}
use causasv.Bits.Digits.{bit_at-or, bit_at-zero, bit_ext, bit_at_beyond, lt-pow_of_bits}
use causasv.Bits.Peel.{peel, peel-members}
use causasv.Cache.{mask_loop, mask_to_coalition, or_nodes, vec_to_mask}

mask_loop-peel : (fuel x : ℕ) (out : List ℕ) → mask_loop fuel x out ≡ out ++ peel fuel x
unfolding mask_loop peel
mask_loop-peel zero x out = sym (append-nil out)
mask_loop-peel (suc fuel) x out = elim (Bool-cases (x == 0)) [
  | inl e ↦ rw e (sym (append-nil out))
  | inr e ↦ rw e (
      mask_loop-peel fuel (bit_and x (x - 1)) (out ++ trailing_zeros x ∷ [])
      ∙ append_assoc out (trailing_zeros x ∷ []) _)
]

pub mask_to_coalition-members :
    (mask : ℕ) → mask < 2 ^ 64 → mask_to_coalition mask ≡ members_from 0 64 mask
unfolding mask_to_coalition
mask_to_coalition-members mask h =
    mask_loop-peel 64 mask [] ∙ peel-members 64 64 mask h (omega arith) (omega arith)

pub count-mask_to_coalition :
    (mask i : ℕ)
    → mask < 2 ^ 64
    → count i (mask_to_coalition mask) ≡ (if bit_at i mask then 1 else 0)
count-mask_to_coalition mask i h =
    let e : i - 0 ≡ i = omega arith in
    rw (mask_to_coalition-members mask h) (count-members_from 0 64 mask i h ∙ rw e (ground arith))

pub contains-count : (xs : List ℕ) (i : ℕ) → contains xs i ≡ ltb 0 (count i xs)
contains-count [] i = ground arith
contains-count (x ∷ xs) i = ground (arith, contains-count xs i)

small_member : (mask : ℕ) → mask < 2 ^ 64 → (v : ℕ) → 0 < count v (mask_to_coalition mask) → v < 64
small_member mask h v p =
    ground (arith, count-mask_to_coalition mask v h, bit_at_beyond 64 v mask h)

pub bit_at-or_nodes :
    (m : ℕ) (nodes : List ℕ) (i : ℕ)
    → ((v : ℕ) → 0 < count v nodes → v < 64)
    → bit_at i (or_nodes m nodes) ≡ bit_at i m || contains nodes i
bit_at-or_nodes m [] i h = ground arith
bit_at-or_nodes m (n ∷ nodes) i h = ground (
  arith,
  bit_at-or_nodes (bit_or m (shl1 n)) nodes i (λ v p. h v (ground arith)),
  bit_at-or i m (shl1 n),
  bit_at-shl1 n i (h n (ground arith)),
)

-- Each id comes after the ones before it.
abbrev pub IsAscending : ℕ → List ℕ → Type 0
IsAscending low [] = Unit
IsAscending low (x ∷ xs) = (low ≤ x) × IsAscending (suc x) xs

IsAscending-weaken :
    (low high : ℕ) (xs : List ℕ) → low ≤ high → IsAscending high xs → IsAscending low xs
IsAscending-weaken low high [] le h = tt
IsAscending-weaken low high (x ∷ xs) le h = (omega arith, h.1)

members_from-IsAscending : (i w x : ℕ) → IsAscending i (members_from i w x)
unfolding members_from
members_from-IsAscending i zero x = tt
members_from-IsAscending i (suc w) x =
    let rest = members_from-IsAscending (suc i) w (x / 2) in
    elim (Bool-cases (x % 2 == 1)) [
      | inl e ↦ rw e (omega arith, rest)
      | inr e ↦
          rw e (IsAscending-weaken i (suc i) (members_from (suc i) w (x / 2)) (omega arith) rest)
    ]

-- Ascending lists with the same members are equal.
absent_below : (low i : ℕ) (xs : List ℕ) → IsAscending low xs → i < low → count i xs ≡ 0
absent_below low i [] a h = refl
absent_below low i (x ∷ xs) a h = ground (arith, absent_below (suc x) i xs a.1)

ascending_once : (low i : ℕ) (xs : List ℕ) → IsAscending low xs → count i xs ≤ 1
ascending_once low i [] a = omega arith
ascending_once low i (x ∷ xs) a =
    ground (arith, absent_below (suc x) i xs a.1, ascending_once (suc x) i xs a.1)

ascending_eq :
    (low : ℕ) (xs ys : List ℕ)
    → IsAscending low xs
    → IsAscending low ys
    → ((i : ℕ) → count i xs ≡ count i ys)
    → xs ≡ ys
ascending_eq low [] [] a b h = refl
ascending_eq low [] (y ∷ ys) a b h = absurd (ground (arith, h y))
ascending_eq low (x ∷ xs) [] a b h = absurd (ground (arith, h x))
ascending_eq low (x ∷ xs) (y ∷ ys) a b h =
    let same : x ≡ y =
      ground (arith, h x, h y, absent_below (suc x) y xs a.1, absent_below (suc y) x ys b.1) in
    let rest = ascending_eq (suc x) xs ys a.1 (rw same b.1) (λ i. ground (arith, h i)) in cc

-- For a mask below 2 ^ 64, `vec_to_mask` of `mask_to_coalition` is the mask.
pub vec_to_mask-mask_to_coalition :
    (mask : ℕ) → mask < 2 ^ 64 → vec_to_mask (mask_to_coalition mask) ≡ mask
unfolding vec_to_mask
vec_to_mask-mask_to_coalition mask h =
    let nodes = mask_to_coalition mask in
    let small = λ (v : ℕ) (p : 0 < count v nodes). small_member mask h v p in
    bit_ext (or_nodes 0 nodes + mask) (or_nodes 0 nodes) mask (omega arith) (omega arith) (λ i.
      ground (
        arith,
        bit_at-or_nodes 0 nodes i small,
        bit_at-zero i,
        contains-count nodes i,
        count-mask_to_coalition mask i h,
      ))

-- For a mask below 2 ^ 64, `mask_to_coalition` is ascending and lists each position once or not at
-- all, as its bit is set or not.
pub mask_to_coalition_sorted :
    (mask : ℕ)
    → mask < 2 ^ 64
    → IsAscending 0 (mask_to_coalition mask)
      × ((i : ℕ) → count i (mask_to_coalition mask) ≡ (if bit_at i mask then 1 else 0))
mask_to_coalition_sorted mask h = (
  rw (mask_to_coalition-members mask h) (members_from-IsAscending 0 64 mask),
  λ i. count-mask_to_coalition mask i h,
)

-- For an ascending list of ids below 64, `mask_to_coalition` of `vec_to_mask` is the list.
pub mask_to_coalition-vec_to_mask :
    (nodes : List ℕ)
    → IsAscending 0 nodes
    → ((v : ℕ) → 0 < count v nodes → v < 64)
    → mask_to_coalition (vec_to_mask nodes) ≡ nodes
unfolding vec_to_mask
mask_to_coalition-vec_to_mask nodes a small =
    let mask = or_nodes 0 nodes in
    let bits = λ (i : ℕ). bit_at-or_nodes 0 nodes i small in
    let fits : mask < 2 ^ 64 =
      lt-pow_of_bits 64 mask
        (λ i le. ground (arith, bits i, bit_at-zero i, contains-count nodes i, small i)) in
    let (sorted, counts) = mask_to_coalition_sorted mask fits in
    ascending_eq 0 (mask_to_coalition mask) nodes sorted a (λ i.
      ground (
        arith,
        counts i,
        bits i,
        bit_at-zero i,
        contains-count nodes i,
        ascending_once 0 i nodes a,
      ))
