-- ===== src/Config/Gives.antt =====
-- crates/core/src/config.rs: properties of the values that the steps of loading yield.
-- What holds of the value where it is read.
use ferro_http.Base.{◌≡◌, refl, Bool, true, false, if◌then◌else◌}
use ferro_http.Config.{ConfigError, Result, ok, err, out_of_fuel, ◌>>=◌, ◌>>◌, refuse}

abbrev pub Gives : {A : Type 0} → (A → Type 0) → Result A → Type 0
Gives P (ok a) = P a
Gives P (err e) = Unit
Gives P out_of_fuel = Unit

pub >>=-Gives :
    {A B : Type 0} (P : A → Type 0) (Q : B → Type 0) (r : Result A) (next : A → Result B)
    → Gives P r
    → ((a : A) → P a → Gives Q (next a))
    → Gives Q (r >>= next)
>>=-Gives P Q (ok a) next h later = later a h
>>=-Gives P Q (err e) next h later = tt
>>=-Gives P Q out_of_fuel next h later = tt

-- After a step of which nothing is asked.
pub any-Gives :
    {A B : Type 0} (Q : B → Type 0) (r : Result A) (next : A → Result B)
    → ((a : A) → Gives Q (next a))
    → Gives Q (r >>= next)
any-Gives Q (ok a) next later = later a
any-Gives Q (err e) next later = tt
any-Gives Q out_of_fuel next later = tt

pub refuse-Gives :
    {B : Type 0} (Q : B → Type 0) (b : Bool) (e : ConfigError) (rest : Result B)
    → (b ≡ false → Gives Q rest)
    → Gives Q (refuse b e >> rest)
refuse-Gives Q true e rest later = tt
refuse-Gives Q false e rest later = later refl

pub Gives-ok : {A : Type 0} (P : A → Type 0) (r : Result A) {a : A} → Gives P r → r ≡ ok a → P a
Gives-ok P r h e = rw e at h

pub if-Gives :
    {A : Type 0} (P : A → Type 0) (b : Bool) (x y : Result A)
    → (b ≡ true → Gives P x)
    → (b ≡ false → Gives P y)
    → Gives P (if b then x else y)
if-Gives P true x y yes_case no_case = yes_case refl
if-Gives P false x y yes_case no_case = no_case refl

pub refuse_last :
    (Q : Type 0) (b : Bool) (e : ConfigError) → (b ≡ false → Q) → Gives (λ u. Q) (refuse b e)
refuse_last Q true e later = tt
refuse_last Q false e later = later refl
