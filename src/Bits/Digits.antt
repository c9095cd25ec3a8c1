-- ===== src/Bits/Digits.antt =====
-- The native bit operations, one binary digit at a time.
use Prim.Native.Nat.{
  min, max, differ, digits, bitwise, bit_and, bit_or, bit_xor, bit_and-bitwise, bit_or-bitwise,
  bit_xor-bitwise,
}
use causasv.Prelude.{
  ℕ, zero, suc, ◌+◌, ◌*◌, ◌/◌, ◌%◌, ◌^◌, ◌≤◌, ◌<◌, ◌≡◌, refl, sym, ◌∙◌, arith, Bool, false, not,
  ◌&&◌, ◌||◌, ◌==◌, if◌then◌else◌,
}
use native.Mathlib.Nat.{pow-suc}

-- Enough fuel is enough, for any operation on digits.
enough_fuel :
    (z : ℕ → ℕ) (f : ℕ → ℕ → ℕ) (k l a b : ℕ) → a ≤ k → a ≤ l → digits z f k a b ≡ digits z f l a b
enough_fuel z f k l zero b p q = zero_first k l
  where
    zero_first : (k l : ℕ) → digits z f k 0 b ≡ digits z f l 0 b
    zero_first zero zero = refl
    zero_first zero (suc l) = refl
    zero_first (suc k) zero = refl
    zero_first (suc k) (suc l) = refl
enough_fuel z f zero l (suc a) b p q = absurd (omega arith)
enough_fuel z f (suc k) zero (suc a) b p q = absurd (omega arith)
enough_fuel z f (suc k) (suc l) (suc a) b p q =
    omega (arith, enough_fuel z f k l (suc a / 2) (b / 2) (omega arith) (omega arith))

lowest_digit :
    (z : ℕ → ℕ) (f : ℕ → ℕ → ℕ) (a b : ℕ)
    → bitwise z f (suc a) b ≡ bitwise z f (suc a / 2) (b / 2) * 2 + f (suc a % 2) (b % 2)
lowest_digit z f a b =
    omega (arith, enough_fuel z f a (suc a / 2) (suc a / 2) (b / 2) (omega arith) (omega arith))

pub bit_and-digit : (a b : ℕ) → bit_and a b ≡ bit_and (a / 2) (b / 2) * 2 + min (a % 2) (b % 2)
bit_and-digit zero b = simp bit_and-bitwise (omega arith)
bit_and-digit (suc a) b = simp bit_and-bitwise (lowest_digit (λ y. 0) min a b)

pub bit_or-digit : (a b : ℕ) → bit_or a b ≡ bit_or (a / 2) (b / 2) * 2 + max (a % 2) (b % 2)
bit_or-digit zero b = simp bit_or-bitwise (omega arith)
bit_or-digit (suc a) b = simp bit_or-bitwise (lowest_digit (λ y. y) max a b)

pub bit_xor-digit : (a b : ℕ) → bit_xor a b ≡ bit_xor (a / 2) (b / 2) * 2 + differ (a % 2) (b % 2)
bit_xor-digit zero b = simp bit_xor-bitwise (omega arith)
bit_xor-digit (suc a) b = simp bit_xor-bitwise (lowest_digit (λ y. y) differ a b)

-- Is bit `i` of `x` set?
abbrev pub bit_at : ℕ → ℕ → Bool
bit_at zero x = x % 2 == 1
bit_at (suc i) x = bit_at i (x / 2)

half_of : (q r : ℕ) → r < 2 → (q * 2 + r) / 2 ≡ q
half_of q r h = omega arith

pub bit_at-and : (i a b : ℕ) → bit_at i (bit_and a b) ≡ bit_at i a && bit_at i b
bit_at-and zero a b = ground (arith, bit_and-digit a b)
bit_at-and (suc i) a b =
    let e : bit_and a b / 2 ≡ bit_and (a / 2) (b / 2) = omega (arith, bit_and-digit a b) in
    rw e (bit_at-and i (a / 2) (b / 2))

pub bit_at-or : (i a b : ℕ) → bit_at i (bit_or a b) ≡ bit_at i a || bit_at i b
bit_at-or zero a b = ground (arith, bit_or-digit a b)
bit_at-or (suc i) a b =
    let e : bit_or a b / 2 ≡ bit_or (a / 2) (b / 2) = omega (arith, bit_or-digit a b) in
    rw e (bit_at-or i (a / 2) (b / 2))

pub differ_bits : (x y : ℕ) → x < 2 → y < 2 → differ x y ≡ (x + y) % 2
differ_bits zero y p q = omega arith
differ_bits (suc zero) zero p q = refl
differ_bits (suc zero) (suc zero) p q = refl
differ_bits (suc zero) (suc (suc y)) p q = absurd (omega arith)
differ_bits (suc (suc x)) y p q = absurd (omega arith)

pub bit_at-xor :
    (i a b : ℕ) → bit_at i (bit_xor a b) ≡ (if bit_at i a then not (bit_at i b) else bit_at i b)
bit_at-xor zero a b =
    ground (arith, bit_xor-digit a b, differ_bits (a % 2) (b % 2) (omega arith) (omega arith))
bit_at-xor (suc i) a b =
    let e : bit_xor a b / 2 ≡ bit_xor (a / 2) (b / 2) =
      omega (arith, bit_xor-digit a b, differ_bits (a % 2) (b % 2) (omega arith) (omega arith)) in
    rw e (bit_at-xor i (a / 2) (b / 2))

pub bit_at-zero : (i : ℕ) → bit_at i 0 ≡ false
bit_at-zero zero = refl
bit_at-zero (suc i) = bit_at-zero i

pub bit_at-pow : (i j : ℕ) → bit_at j (2 ^ i) ≡ i == j
bit_at-pow zero zero = refl
bit_at-pow zero (suc j) = ground (arith, bit_at-zero j)
bit_at-pow (suc i) zero = ground (arith, pow-suc 2 i)
bit_at-pow (suc i) (suc j) =
    let e : 2 ^ suc i / 2 ≡ 2 ^ i = omega (arith, pow-suc 2 i) in
    rw e (ground (arith, bit_at-pow i j))

-- Numbers with the same bits are equal.
pub bit_ext : (n a b : ℕ) → a ≤ n → b ≤ n → ((i : ℕ) → bit_at i a ≡ bit_at i b) → a ≡ b
bit_ext zero a b p q h = omega arith
bit_ext (suc n) a b p q h =
    ground (arith, h 0, bit_ext n (a / 2) (b / 2) (omega arith) (omega arith) (λ i. h (suc i)))

-- A number below `2 ^ w` has no bit from `w` on, and the other way round.
pub bit_at_beyond : (w i x : ℕ) → x < 2 ^ w → w ≤ i → bit_at i x ≡ false
bit_at_beyond zero i x h le = let e : x ≡ 0 = omega arith in rw e (bit_at-zero i)
bit_at_beyond (suc w) zero x h le = absurd (omega arith)
bit_at_beyond (suc w) (suc i) x h le =
    bit_at_beyond w i (x / 2) (omega (arith, pow-suc 2 w)) (omega arith)

pub lt-pow_of_bits : (w x : ℕ) → ((i : ℕ) → w ≤ i → bit_at i x ≡ false) → x < 2 ^ w
lt-pow_of_bits zero x h =
    let e =
      bit_ext x x 0 (omega arith) (omega arith) (λ i. h i (omega arith) ∙ sym (bit_at-zero i)) in
    omega arith
lt-pow_of_bits (suc w) x h =
    omega (arith, pow-suc 2 w, lt-pow_of_bits w (x / 2) (λ i le. h (suc i) (omega arith)))
