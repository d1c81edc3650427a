-- ===== src/Base/Outcome.antt =====
-- What a call ends in: a value, or what stops it. An exception that no handler of the source
-- catches leaves the event loop; `undefined` is behaviour that C++ leaves open, such as a call
-- through a null pointer.
use mathlib.Core.Path.{◌≡◌, refl}
use mathlib.Core.Logic.{◌⊎◌, inl, inr}
use mathlib.Core.Option.{Option, none, some}
use mathlib.Core.Bool.{Bool, true, false}
use liquid.Base.Tests.{if◌then◌else◌, if_case}

pub data Stop : Type 0 where
  out_of_range invalid_argument length_error system_error undefined : Stop

pub data Outcome {ℓ} (A : Type ℓ) : Type ℓ where
  ok : A → Outcome A
  stop : Stop → Outcome A

-- `map::at`
abbrev pub or_stop {ℓ} : {A : Type ℓ} → Option A → Stop → Outcome A
or_stop none e = stop e
or_stop (some a) e = ok a

-- `try { … } catch (const std::exception&) { … }`: undefined behaviour is not caught.
abbrev pub catch {ℓ} : {A : Type ℓ} → Outcome A → A → Outcome A
catch (ok a) h = ok a
catch (stop out_of_range) h = ok h
catch (stop invalid_argument) h = ok h
catch (stop length_error) h = ok h
catch (stop system_error) h = ok h
catch (stop undefined) h = stop undefined

infixl 5 ◌>>=◌
abbrev pub ◌>>=◌ {ℓ κ} : {A : Type ℓ} {B : Type κ} → Outcome A → (A → Outcome B) → Outcome B
stop e >>= k = stop e
ok a >>= k = k a

pub >>=-eq-ok {ℓ κ} :
    {A : Type ℓ} {B : Type κ} (o : Outcome A) (k : A → Outcome B) {b : B}
    → (o >>= k) ≡ ok b
    → (a : A) × (o ≡ ok a) × (k a ≡ ok b)
>>=-eq-ok (stop e) k h = cc
>>=-eq-ok (ok a) k h = (a, refl, h)

pub or_stop-eq-ok {ℓ} :
    {A : Type ℓ} (o : Option A) (e : Stop) {a : A} → or_stop o e ≡ ok a → o ≡ some a
or_stop-eq-ok none e h = cc
or_stop-eq-ok (some b) e h = cc

pub Outcome-cases {ℓ} :
    {A : Type ℓ} (m : Outcome A) → ((a : A) × (m ≡ ok a)) ⊎ ((e : Stop) × (m ≡ stop e))
Outcome-cases (ok a) = inl (a, refl)
Outcome-cases (stop e) = inr (e, refl)

pub ok-injective {ℓ} : {A : Type ℓ} {a b : A} → ok a ≡ ok b → a ≡ b
ok-injective h = cc

pub stop-injective {ℓ} : {A : Type ℓ} {d e : Stop} → ◌≡◌ {A = Outcome A} (stop d) (stop e) → d ≡ e
stop-injective h = cc

-- Every value that a computation ends in has a property.
abbrev pub Ends {ℓ κ} : {A : Type ℓ} → (A → Type κ) → Outcome A → Type (ℓ ⊔ κ)
Ends {A = A} P o = (a : A) → o ≡ ok a → P a

pub Ends-ok {ℓ κ} : {A : Type ℓ} (P : A → Type κ) (a : A) → P a → Ends P (ok a)
Ends-ok P a p b e = rw (ok-injective e) at p

pub Ends-bind {ℓ κ μ ν} :
    {A : Type ℓ} {B : Type κ} (P : A → Type μ) (Q : B → Type ν) (o : Outcome A) (k : A → Outcome B)
    → Ends P o
    → ((a : A) → P a → Ends Q (k a))
    → Ends Q (o >>= k)
Ends-bind P Q o k p q b e = let (a, e1, e2) = >>=-eq-ok o k e in q a (p a e1) b e2

-- Where nothing is known of the first value.
pub Ends-after {ℓ κ ν} :
    {A : Type ℓ} {B : Type κ} (Q : B → Type ν) (o : Outcome A) (k : A → Outcome B)
    → ((a : A) → Ends Q (k a))
    → Ends Q (o >>= k)
Ends-after Q o k q b e = let (a, _, e2) = >>=-eq-ok o k e in q a b e2

pub Ends-if {ℓ κ} :
    {A : Type ℓ} (P : A → Type κ) (b : Bool) {x y : Outcome A}
    → Ends P x
    → Ends P y
    → Ends P (if b then x else y)
Ends-if P b p q = if_case (Ends P) b p q

-- A computation ends in a value, which has a property.
abbrev pub Gives {ℓ κ} : {A : Type ℓ} → (A → Type κ) → Outcome A → Type (ℓ ⊔ κ)
Gives {A = A} P o = (a : A) × (o ≡ ok a) × P a

pub Gives-ok {ℓ κ} : {A : Type ℓ} (P : A → Type κ) (a : A) → P a → Gives P (ok a)
Gives-ok P a p = (a, refl, p)

pub Gives-bind {ℓ κ μ ν} :
    {A : Type ℓ} {B : Type κ} (P : A → Type μ) (Q : B → Type ν) (o : Outcome A) (k : A → Outcome B)
    → Gives P o
    → ((a : A) → P a → Gives Q (k a))
    → Gives Q (o >>= k)
Gives-bind P Q (stop x) k (a, e, p) q = cc
Gives-bind P Q (ok c) k (a, e, p) q = q c (rw (ok-injective e) p)

-- Where the value is known.
pub Gives-after {ℓ κ ν} :
    {A : Type ℓ} {B : Type κ} (Q : B → Type ν) (o : Outcome A) (k : A → Outcome B) (a : A)
    → o ≡ ok a
    → Gives Q (k a)
    → Gives Q (o >>= k)
Gives-after Q o k a e g = rw e g

pub Gives-if {ℓ κ} :
    {A : Type ℓ} (P : A → Type κ) (b : Bool) {x y : Outcome A}
    → (b ≡ true → Gives P x)
    → (b ≡ false → Gives P y)
    → Gives P (if b then x else y)
Gives-if P true p q = p refl
Gives-if P false p q = q refl

pub Gives-Ends {ℓ κ μ} :
    {A : Type ℓ} (P : A → Type κ) (Q : A → Type μ) (o : Outcome A)
    → Gives P o
    → Ends Q o
    → Gives (λ a. Q a × P a) o
Gives-Ends P Q o (a, e, p) q = (a, e, (q a e, p))
