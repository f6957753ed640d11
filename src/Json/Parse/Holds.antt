-- ===== src/Json/Parse/Holds.antt =====
-- crates/core/src/json.rs: properties of the values that the steps of the parser yield.
use ferro_http.Base.{ℕ, ◌≡◌, refl, Bool, true, false, if◌then◌else◌, is_empty}
use ferro_http.Json.{Parser, Reply, ok, err, out_of_fuel, ◌>>=◌, at_byte}
use ferro_http.Json.Parse.{after_element}

-- What holds of the value where the step succeeds.
abbrev pub Holds : {A : Type 0} → (A → Type 0) → Reply A → Type 0
Holds P (ok a q) = P a
Holds P (err e) = Unit
Holds P out_of_fuel = Unit

pub >>=-Holds :
    {A B : Type 0} (P : A → Type 0) (Q : B → Type 0) (r : Reply A) (next : A × Parser → Reply B)
    → Holds P r
    → ((a : A) (q : Parser) → P a → Holds Q (next (a, q)))
    → Holds Q (r >>= next)
>>=-Holds P Q (ok a q) next h later = later a q h
>>=-Holds P Q (err x) next h later = tt
>>=-Holds P Q out_of_fuel next h later = tt

pub any_value : {A : Type 0} (r : Reply A) → Holds (λ a. Unit) r
any_value (ok a q) = tt
any_value (err x) = tt
any_value out_of_fuel = tt

pub if-Holds :
    {A : Type 0} (P : A → Type 0) (b : Bool) (x y : Reply A)
    → (b ≡ true → Holds P x)
    → (b ≡ false → Holds P y)
    → Holds P (if b then x else y)
if-Holds P true x y yes_case no_case = yes_case refl
if-Holds P false x y yes_case no_case = no_case refl

pub after_element-Holds :
    {A : Type 0} (P : A → Type 0) (close : ℕ) (p : Parser) (next : Parser → Reply A) (done : A)
    → P done
    → ((q : Parser) → Holds P (next q))
    → Holds P (after_element close p next done)
unfolding after_element
after_element-Holds P close p next done h later =
    if-Holds P (at_byte p b',') _ _ (λ e. later _)
      λ e.
        if-Holds P (at_byte p close) _ _ (λ e. h)
          λ e. if-Holds P (is_empty p.rest) _ _ (λ e. tt) (λ e. tt)

pub Holds-ok :
    {A : Type 0} (P : A → Type 0) (r : Reply A) {a : A} {q : Parser} → Holds P r → r ≡ ok a q → P a
Holds-ok P r h e = rw e at h
