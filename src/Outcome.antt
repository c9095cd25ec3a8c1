-- ===== src/Outcome.antt =====
-- The result of an ASV computation (`AsvResult`, src/asv.rs), for a type `F` of values.
use causasv.Prelude.{ℕ, Bool, String, Option, List}
use causasv.Error.{Message}

pub record AsvResult (F : Type 0) : Type 0 where
  -- a `BTreeMap`: in ascending order of node ids
  pub values : List (ℕ × F)
  pub n_samples : ℕ
  pub seed : Option ℕ
  pub is_exact : Bool
  pub effective_sample_size : Option F
  pub converged : Option Bool
  pub stderr : Option (List (ℕ × F))
  pub n_order_ideals : Option ℕ
  pub state_ratio : Option F
  pub memory_mb : Option F
  pub fallback_from : Option String
  pub fallback_reason : Option Message
  pub method_used : Option String
