-- ===== src/Common/Results.antt =====
-- Results of code that may stop. `panicf` and `panic` loop for ever (include/debug.h), `trap` is an
-- `asm volatile("break")` that stops the processor after a fault, or what C leaves undefined.
use mathlib.Core.Path.{◌≡◌, refl}
use mathlib.Core.Option.{Option, none, some}
use mathlib.Core.Bool.{Bool, true, false}

pub data Result {ℓ} (Value : Type ℓ) : Type ℓ where
  panic trap : Result Value
  ok : Value → Result Value

-- What comes after, where the code has not stopped.
infixl 5 ◌>>=◌
abbrev pub ◌>>=◌ {ℓ κ} :
    {Value : Type ℓ} {Next : Type κ} → Result Value → (Value → Result Next) → Result Next
panic >>= next = panic
trap >>= next = trap
ok value >>= next = next value

infixl 5 ◌>>◌
abbrev pub ◌>>◌ {ℓ} : {Next : Type ℓ} → Result (Unit {0}) → Result Next → Result Next
◌>>◌ r next = r >>= λ _. next

-- What is checked when a module is compiled: `if (!test) panicf(...)`.
abbrev pub check : Bool → Result (Unit {0})
check true = ok tt
check false = panic

-- The value, or the code stops.
abbrev pub or_panic {ℓ} : {Value : Type ℓ} → Option Value → Result Value
or_panic none = panic
or_panic (some value) = ok value

abbrev pub or_trap {ℓ} : {Value : Type ℓ} → Option Value → Result Value
or_trap none = trap
or_trap (some value) = ok value

pub or_panic-eq-ok {ℓ} :
    {Value : Type ℓ} (o : Option Value) {value : Value} → or_panic o ≡ ok value → o ≡ some value
or_panic-eq-ok none e = cc
or_panic-eq-ok (some v) e = cc

pub or_trap-eq-ok {ℓ} :
    {Value : Type ℓ} (o : Option Value) {value : Value} → or_trap o ≡ ok value → o ≡ some value
or_trap-eq-ok none e = cc
or_trap-eq-ok (some v) e = cc

pub >>=-eq-ok {ℓ κ} :
    {Value : Type ℓ} {Next : Type κ} (r : Result Value) (next : Value → Result Next) {last : Next}
    → (r >>= next) ≡ ok last
    → (value : Value) × (r ≡ ok value) × (next value ≡ ok last)
>>=-eq-ok panic next e = cc
>>=-eq-ok trap next e = cc
>>=-eq-ok (ok value) next e = (value, refl, e)
