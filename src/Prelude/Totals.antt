-- ===== src/Prelude/Totals.antt =====
-- Sums over the numbers below a bound, and over the counts of a list.
use Prim.Native.Nat.{ℕ, zero, suc, ◌+◌, ◌*◌, ◌≤◌, ◌<◌}
use mathlib.Core.Path.{◌≡◌, refl, ap}
use mathlib.Core.Logic.{inl, inr}
use mathlib.Core.List.{List, [], ◌∷◌}
use native.Mathlib.Omega.{arith}
use causasv.Prelude.Tests.{ltb, ◌==◌, if◌then◌else◌, Bool-cases}
use causasv.Prelude.Lists.{length, count}

-- A sum over the numbers below a bound.
abbrev pub total : ℕ → (ℕ → ℕ) → ℕ
total zero f = 0
total (suc n) f = f n + total n f

pub total_zero : (n : ℕ) (f : ℕ → ℕ) → ((v : ℕ) → v < n → f v ≡ 0) → total n f ≡ 0
total_zero zero f h = refl
total_zero (suc n) f h = omega (arith, h n (omega arith), total_zero n f (λ v p. h v (omega arith)))

pub total_le : (n : ℕ) (f : ℕ → ℕ) → ((v : ℕ) → v < n → f v ≤ 1) → total n f ≤ n
total_le zero f h = omega arith
total_le (suc n) f h = omega (arith, h n (omega arith), total_le n f (λ v p. h v (omega arith)))

pub total_full :
    (n : ℕ) (f : ℕ → ℕ) → ((v : ℕ) → v < n → f v ≤ 1) → total n f ≡ n → (v : ℕ) → v < n → f v ≡ 1
total_full zero f h e v lt = absurd (omega arith)
total_full (suc n) f h e v lt =
    let below = λ (w : ℕ) (p : w < n). h w (omega arith) in
    ground (
      arith,
      h n (omega arith),
      total_le n f below,
      λ (e' : total n f ≡ n) (lt' : v < n). total_full n f below e' v lt',
    )

pub total_add : (n : ℕ) (f g : ℕ → ℕ) → total n (λ v. f v + g v) ≡ total n f + total n g
total_add zero f g = refl
total_add (suc n) f g = omega (arith, total_add n f g)

pub total_one : (n x : ℕ) → total n (λ v. if x == v then 1 else 0) ≡ (if ltb x n then 1 else 0)
total_one zero x = ground arith
total_one (suc n) x = ground (arith, total_one n x)

pub total-count :
    (n : ℕ) (xs : List ℕ)
    → ((v : ℕ) → 0 < count v xs → v < n)
    → total n (λ v. count v xs) ≡ length xs
total-count n [] h = total_zero n (λ v. 0) (λ v p. refl)
total-count n (x ∷ xs) h = ground (
  arith,
  total_add n (λ v. if x == v then 1 else 0) (λ v. count v xs),
  total_one n x,
  h x (ground arith),
  total-count n xs (λ v p. h v (ground arith)),
)

-- A list whose members are below `n`, each once, has at most `n` members.
pub length-le_of_once :
    (n : ℕ) (xs : List ℕ)
    → ((v : ℕ) → 0 < count v xs → v < n)
    → ((v : ℕ) → v < n → count v xs ≤ 1)
    → length xs ≤ n
length-le_of_once n xs below once =
    omega (arith, total-count n xs below, total_le n (λ v. count v xs) once)

pub total_ones : (n : ℕ) (f : ℕ → ℕ) → ((v : ℕ) → v < n → f v ≡ 1) → total n f ≡ n
total_ones zero f h = refl
total_ones (suc n) f h = omega (arith, h n (omega arith), total_ones n f (λ v p. h v (omega arith)))

pub total_ext : (n : ℕ) (f g : ℕ → ℕ) → ((v : ℕ) → v < n → f v ≡ g v) → total n f ≡ total n g
total_ext zero f g h = refl
total_ext (suc n) f g h =
    omega (arith, h n (omega arith), total_ext n f g (λ v p. h v (omega arith)))

total_pick : (n x c : ℕ) → total n (λ v. if x == v then c else 0) ≡ (if ltb x n then c else 0)
total_pick zero x c = ground arith
total_pick (suc n) x c = ground (arith, total_pick n x c)

-- The sum over a list.
abbrev pub sum_over : List ℕ → (ℕ → ℕ) → ℕ
sum_over [] f = 0
sum_over (x ∷ xs) f = f x + sum_over xs f

pub sum_over_ext :
    (xs : List ℕ) (f g : ℕ → ℕ)
    → ((x : ℕ) → 0 < count x xs → f x ≡ g x)
    → sum_over xs f ≡ sum_over xs g
sum_over_ext [] f g h = refl
sum_over_ext (x ∷ xs) f g h =
    omega (arith, h x (ground arith), sum_over_ext xs f g (λ y p. h y (ground arith)))

count_times :
    (x v k : ℕ) (f : ℕ → ℕ)
    → ((if x == v then 1 else 0) + k) * f v ≡ (if x == v then f x else 0) + k * f v
count_times x v k f = elim (Bool-cases (x == v)) [
  | inl e ↦ let same : x ≡ v = ground arith in rw e (omega (arith, ap f same))
  | inr e ↦ rw e (omega arith)
]

-- A sum over a list of numbers below `n` is a sum over their counts.
pub sum_over-count :
    (n : ℕ) (xs : List ℕ) (f : ℕ → ℕ)
    → ((v : ℕ) → 0 < count v xs → v < n)
    → sum_over xs f ≡ total n (λ v. count v xs * f v)
sum_over-count n [] f h = let e = total_zero n (λ v. 0 * f v) (λ v p. omega arith) in omega arith
sum_over-count n (x ∷ xs) f h = ground (
  arith,
  total_ext n (λ v. count v (x ∷ xs) * f v) (λ v. (if x == v then f x else 0) + count v xs * f v)
      (λ v p. count_times x v (count v xs) f),
  total_add n (λ v. if x == v then f x else 0) (λ v. count v xs * f v),
  total_pick n x (f x),
  h x (ground arith),
  sum_over-count n xs f (λ v p. h v (ground arith)),
)
