-- ===== src/Asv/Answers.antt =====
-- The outcomes of the automatic choice of a method (src/asv.rs): which of
-- them are not `InvalidConfig`.
use causasv.Prelude.{
  ℕ, zero, suc, ◌≡◌, ◌≢◌, ◌⊎◌, refl, sym, ◌∙◌, ap, Bool, true, false, String, Option, none, List,
  [], ◌∷◌, if◌then◌else◌, Option-cases, inl, inr,
}
use causasv.Error.{CausasvError, Message, Result, ok, err, panicked, out_of_fuel, invalid_config}
use causasv.Error.Served.{IsServed}
use causasv.Outcome.{AsvResult}
use causasv.DagDpSparse.{visit_ideals, visit_nodes}
use causasv.Asv.Auto.{answer, by_method, fallen_back}

module _ {F : Type 0} where
  pub by_method-IsServed :
      (method : String) (m : Result (AsvResult F)) → IsServed m → IsServed (by_method method m)
  unfolding by_method
  by_method-IsServed method (ok a) served msg e = cc
  by_method-IsServed method (err error) served msg e = served msg cc
  by_method-IsServed method panicked served msg e = cc
  by_method-IsServed method out_of_fuel served msg e = cc

  pub fallen_back-IsServed :
      (from : String) (reason : Message) (m : Result (AsvResult F))
      → IsServed m
      → IsServed (fallen_back from reason m)
  unfolding fallen_back
  fallen_back-IsServed from reason (ok a) served msg e = cc
  fallen_back-IsServed from reason (err error) served msg e = served msg cc
  fallen_back-IsServed from reason panicked served msg e = cc
  fallen_back-IsServed from reason out_of_fuel served msg e = cc

  -- The outcomes of `answer`: the first one where nothing is handled, or the handler's.
  pub answer-cases :
      {B : Type 0} (why : CausasvError → Option B) (m : Result (AsvResult F))
      (handle : B → Result (AsvResult F))
      → ((answer why m handle ≡ m) × ((e : CausasvError) → m ≡ err e → why e ≡ none))
        ⊎ ((b : B) × (answer why m handle ≡ handle b))
  unfolding answer
  answer-cases why (ok a) handle = inl (refl, λ e h. cc)
  answer-cases why (err error) handle = elim (Option-cases (why error)) [
    | inl e ↦ inl (rw (answer, e) refl, λ x h. let same : error ≡ x = cc in ap why (sym same) ∙ e)
    | inr (b, e) ↦ inr (b, rw (answer, e) refl)
  ]
  answer-cases why panicked handle = inl (refl, λ e h. cc)
  answer-cases why out_of_fuel handle = inl (refl, λ e h. cc)

  -- Where `InvalidConfig` is handled, only the handler can leave it.
  pub answer-IsServed :
      {B : Type 0} (why : CausasvError → Option B) (m : Result (AsvResult F))
      (handle : B → Result (AsvResult F))
      → ((msg : Message) → why (invalid_config msg) ≢ none)
      → ((b : B) → IsServed (handle b))
      → IsServed (answer why m handle)
  answer-IsServed why m handle covers handled msg h = elim (answer-cases why m handle) [
    | inl (e, unhandled) ↦ covers msg (unhandled (invalid_config msg) (sym e ∙ h))
    | inr (b, e) ↦ handled b msg (sym e ∙ h)
  ]

  pub if-keeps :
      (P : Result (AsvResult F) → Type 0) (test : Bool) (m n : Result (AsvResult F))
      → P m
      → P n
      → P (if test then m else n)
  if-keeps P true m n a b = a
  if-keeps P false m n a b = b

pub visit_ideals-quiet :
    (fuel : ℕ) (pm : List ℕ) (budget : ℕ) (visited queue : List ℕ) (e : CausasvError)
    → visit_ideals fuel pm budget visited queue ≢ err e
unfolding visit_ideals
visit_ideals-quiet zero pm budget visited [] e h = cc
visit_ideals-quiet zero pm budget visited (s ∷ rest) e h = cc
visit_ideals-quiet (suc fuel) pm budget visited [] e h = cc
visit_ideals-quiet (suc fuel) pm budget visited (s ∷ rest) e h =
    elim (Option-cases (visit_nodes budget s 0 pm visited rest)) [
      | inl stop ↦ let run : ok false ≡ err e = rw (visit_ideals, stop) at h in cc
      | inr ((visited', queue'), go_on) ↦
          visit_ideals-quiet fuel pm budget visited' queue' e (rw (visit_ideals, go_on) at h)
    ]
