-- ===== src/Error.antt =====
-- The error type that every fallible operation shares (src/error.rs), and results.
pub mod Served
use causasv.Prelude.{
  ℕ, ◌≡◌, refl, String, Option, none, some, List, [], ◌∷◌, Bool, true, false, ◌==◌, if◌then◌else◌,
}

-- A formatted message is the sequence of its pieces: literal text, and the numbers put in, in
-- decimal (`{}`) or in binary (`{:#b}`).
pub data Piece : Type 0 where
  text : String → Piece
  num bin : ℕ → Piece

abbrev pub Message : Type 0
Message = List Piece

-- Node ids stand as plain numbers.
pub data CausasvError : Type 0 where
  cycle_detected : CausasvError
  invalid_node_id : ℕ → CausasvError
  self_loop : ℕ → CausasvError
  duplicate_edge : ℕ → ℕ → CausasvError
  empty_graph : CausasvError
  not_rooted_tree : CausasvError
  value_function_error : Message → CausasvError
  invalid_config : Message → CausasvError
  overflow : Message → CausasvError
  exact_tree_budget_exceeded :
      (max_cartesian_terms cartesian_term_budget estimated_total_terms total_term_budget : ℕ)
      → CausasvError
  conflicting_edge : ℕ → ℕ → CausasvError
  not_extendable : CausasvError
  hull_fixed_point_not_reached : CausasvError

-- `panicked` is an `unwrap` of nothing. `out_of_fuel` stands for no outcome of the program: a loop
-- of the model that stopped too early.
pub data Result {ℓ} (A : Type ℓ) : Type ℓ where
  ok : A → Result A
  err : CausasvError → Result A
  panicked out_of_fuel : Result A

infixl 5 ◌>>=◌ ◌>>◌
abbrev pub ◌>>=◌ {ℓ κ} : {A : Type ℓ} {B : Type κ} → Result A → (A → Result B) → Result B
panicked >>= step = panicked
out_of_fuel >>= step = out_of_fuel
err error >>= step = err error
ok value >>= step = step value

abbrev pub ◌>>◌ {κ} : {B : Type κ} → Result (Unit {0}) → Result B → Result B
first >> second = first >>= λ _. second

-- `?` on an error that a test raises.
abbrev pub fail_if : Bool → CausasvError → Result (Unit {0})
fail_if true e = err e
fail_if false e = ok tt

unfoldable pub validate_batch_result_len : ℕ → ℕ → Result (Unit {0})
validate_batch_result_len expected actual =
    if expected == actual
    then ok tt
    else err (
        value_function_error (
          text "value_fn_batch returned "
          ∷ num actual
          ∷ text " values for "
          ∷ num expected
          ∷ text " coalitions"
          ∷ []))

-- `o.unwrap()`
abbrev pub unwrap {ℓ} : {A : Type ℓ} → Option A → Result A
unwrap (some a) = ok a
unwrap none = panicked

-- A step whose chain succeeds has succeeded.
pub >>=-eq-ok {ℓ κ} :
    {A : Type ℓ} {B : Type κ} (first : Result A) (step : A → Result B) {result : B}
    → (first >>= step) ≡ ok result
    → (value : A) × (first ≡ ok value) × (step value ≡ ok result)
>>=-eq-ok panicked step h = cc
>>=-eq-ok out_of_fuel step h = cc
>>=-eq-ok (err error) step h = cc
>>=-eq-ok (ok value) step h = (value, refl, h)

pub >>=_ext {ℓ κ} :
    {A : Type ℓ} {B : Type κ} (m : Result A) (f g : A → Result B)
    → ((a : A) → f a ≡ g a)
    → (m >>= f) ≡ (m >>= g)
>>=_ext (ok a) f g h = h a
>>=_ext (err e) f g h = refl
>>=_ext panicked f g h = refl
>>=_ext out_of_fuel f g h = refl
