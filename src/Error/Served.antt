-- ===== src/Error/Served.antt =====
-- Outcomes (src/error.rs) other than `InvalidConfig`, which a chain of steps keeps.
use causasv.Prelude.{◌≡◌, ◌≢◌, refl, Bool, true, false, if◌then◌else◌}
use causasv.Error.{Message, Result, ok, err, panicked, out_of_fuel, ◌>>=◌, invalid_config}

-- The outcome is not `InvalidConfig`.
abbrev pub IsServed {ℓ} : {A : Type ℓ} → Result A → Type ℓ
IsServed m = (msg : Message) → m ≢ err (invalid_config msg)

pub ok-IsServed {ℓ} : {A : Type ℓ} (a : A) → IsServed (ok a)
ok-IsServed a msg e = cc

pub out_of_fuel-IsServed {ℓ} : {A : Type ℓ} → IsServed {A = A} out_of_fuel
out_of_fuel-IsServed msg e = cc

pub after-IsServed {ℓ κ} :
    {A : Type ℓ} {B : Type κ} (m : Result A) (step : A → Result B)
    → IsServed m
    → ((a : A) → IsServed (step a))
    → IsServed (m >>= step)
after-IsServed (ok a) step quiet served = served a
after-IsServed (err error) step quiet served = λ msg e. quiet msg cc
after-IsServed panicked step quiet served = λ msg e. cc
after-IsServed out_of_fuel step quiet served = λ msg e. cc

pub if-IsServed {ℓ} :
    {A : Type ℓ} (test : Bool) (m n : Result A)
    → (test ≡ true → IsServed m)
    → (test ≡ false → IsServed n)
    → IsServed (if test then m else n)
if-IsServed true m n a b = a refl
if-IsServed false m n a b = b refl
