-- ===== src/Prelude/Words.antt =====
-- Machine integers as native numbers, with their wrap-around written out.
use Prim.Native.Nat.{ℕ, ◌+◌, ◌-◌, ◌*◌, ◌%◌, ◌^◌, ◌<◌}
use mathlib.Core.Path.{◌≡◌}
use mathlib.Core.Option.{Option, none, some}
use native.Mathlib.Omega.{arith}
use causasv.Prelude.Tests.{ltb, ◌==◌, if◌then◌else◌}

abbrev pub u32_mod : ℕ
u32_mod = 2 ^ 32

abbrev pub u64_mod : ℕ
u64_mod = 2 ^ 64

abbrev pub usize_max : ℕ
usize_max = 2 ^ 64 - 1

-- `x as u32`
abbrev pub as_u32 : ℕ → ℕ
as_u32 x = x % u32_mod

-- `x -= 1` on a `usize`: it wraps at zero (a debug build stops there).
abbrev pub wrapping_pred : ℕ → ℕ
wrapping_pred x = if x == 0 then usize_max else x - 1

-- `x += 1` on a `usize`, wrapping.
abbrev pub wrapping_suc : ℕ → ℕ
wrapping_suc x = if x == usize_max then 0 else x + 1

-- `u64::checked_add`
abbrev pub checked_add : ℕ → ℕ → Option ℕ
checked_add a b = if ltb (a + b) u64_mod then some (a + b) else none

-- `u64::saturating_add` and `u64::saturating_mul`
abbrev pub saturating_add : ℕ → ℕ → ℕ
saturating_add a b = if ltb (a + b) u64_mod then a + b else usize_max

abbrev pub saturating_mul : ℕ → ℕ → ℕ
saturating_mul a b = if ltb (a * b) u64_mod then a * b else usize_max

pub as_u32_small : (x : ℕ) → x < u32_mod → as_u32 x ≡ x
as_u32_small x h = omega arith

pub as_u64_small : (x : ℕ) → x < u64_mod → x % u64_mod ≡ x
as_u64_small x h = omega arith
