-- ===== src/Numerics.antt =====
-- Floating-point numbers as a parameter, and compensated addition (src/numerics.rs).
-- `f64` is abstract: its type and the operations that the sources use. No law of arithmetic is
-- assumed of it here; theorems that need laws take them as hypotheses.
use causasv.Prelude.{ℕ, Bool}

pub record Float : Type 1 where
  pub F : Type 0
  pub add : F → F → F
  pub sub : F → F → F
  pub mul : F → F → F
  pub div : F → F → F
  pub ln : F → F
  pub exp : F → F
  -- `x as f64`, also for the literals
  pub of_u64 : ℕ → F
  pub neg : F → F
  pub abs : F → F
  pub sqrt : F → F
  pub max : F → F → F
  -- `x < y`
  pub lt : F → F → Bool
  pub infinity : F
  pub nan : F
  pub is_nan : F → Bool

module _ (fl : Float) where
  open fl use {F, add, sub}

  -- `*sum` and `*comp` after the call.
  unfoldable pub kahan_add : F → F → F → F × F
  kahan_add sum comp x = let y = sub x comp in let t = add sum y in (t, sub (sub t sum) y)
