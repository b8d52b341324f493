-- ===== src/Base/Outcomes.antt =====
-- How a kernel routine ends: it returns, calls `fmt::panic` (which loops for ever), sleeps with
-- nobody left to wake it, or leaves the bounds of an object.
use Prim.Native.String.{String}
use mathlib.Core.Bool.{Bool, true, false}
use mathlib.Core.Option.{Option, none, some}
use os_cpp.Base.Tests.{if◌then◌else◌}
use mathlib.Core.Path.{◌≡◌, sym, subst}

pub data Outcome {ℓ} (A : Type ℓ) : Type ℓ where
  ok : A → Outcome A
  panic : String → Outcome A
  blocked : Outcome A
  fault : Outcome A

infixl 5 ◌>>=◌ ◌>>◌
abbrev pub ◌>>=◌ {ℓ κ} : {A : Type ℓ} {B : Type κ} → Outcome A → (A → Outcome B) → Outcome B
ok a >>= f = f a
panic s >>= f = panic s
blocked >>= f = blocked
fault >>= f = fault

abbrev pub ◌>>◌ {ℓ} : {B : Type ℓ} → Outcome (Unit {0}) → Outcome B → Outcome B
m >> k = m >>= λ _. k

-- What holds of the value, if the routine returns one.
abbrev pub Ensures {ℓ} : {A : Type ℓ} → (A → Type 0) → Outcome A → Type 0
Ensures P (ok a) = P a
Ensures P (panic s) = Unit
Ensures P blocked = Unit
Ensures P fault = Unit

-- The routine returns, and this holds of its value.
abbrev pub Returns {ℓ} : {A : Type ℓ} → (A → Type 0) → Outcome A → Type 0
Returns P (ok a) = P a
Returns P (panic s) = ⊥
Returns P blocked = ⊥
Returns P fault = ⊥

pub Ensures-mono {ℓ} :
    {A : Type ℓ} (P Q : A → Type 0) (o : Outcome A)
    → ((a : A) → P a → Q a)
    → Ensures P o
    → Ensures Q o
Ensures-mono P Q (ok a) f h = f a h
Ensures-mono P Q (panic s) f h = tt
Ensures-mono P Q blocked f h = tt
Ensures-mono P Q fault f h = tt

pub Returns-mono {ℓ} :
    {A : Type ℓ} (P Q : A → Type 0) (o : Outcome A)
    → ((a : A) → P a → Q a)
    → Returns P o
    → Returns Q o
Returns-mono P Q (ok a) f h = f a h
Returns-mono P Q (panic s) f h = h
Returns-mono P Q blocked f h = h
Returns-mono P Q fault f h = h

pub Returns-bind {ℓ κ} :
    {A : Type ℓ} {B : Type κ} (P : A → Type 0) (Q : B → Type 0) (m : Outcome A) (f : A → Outcome B)
    → Returns P m
    → ((a : A) → P a → Returns Q (f a))
    → Returns Q (m >>= f)
Returns-bind P Q (ok a) f h k = k a h
Returns-bind P Q (panic s) f h k = h
Returns-bind P Q blocked f h k = h
Returns-bind P Q fault f h k = h

pub Ensures-bind {ℓ κ} :
    {A : Type ℓ} {B : Type κ} (P : A → Type 0) (Q : B → Type 0) (m : Outcome A) (f : A → Outcome B)
    → Ensures P m
    → ((a : A) → P a → Ensures Q (f a))
    → Ensures Q (m >>= f)
Ensures-bind P Q (ok a) f h k = k a h
Ensures-bind P Q (panic s) f h k = tt
Ensures-bind P Q blocked f h k = tt
Ensures-bind P Q fault f h k = tt

-- To go past a call whose result is known.
pub Returns-ok {ℓ κ} :
    {A : Type ℓ} {B : Type κ} (P : B → Type 0) (m : Outcome A) (a : A) (f : A → Outcome B)
    → m ≡ ok a
    → Returns P (f a)
    → Returns P (m >>= f)
Returns-ok P m a f e h = subst (λ o. Returns P (o >>= f)) (sym e) h

-- A call whose result does not matter.
anything {ℓ} : {A : Type ℓ} (m : Outcome A) → Ensures (λ a. Unit) m
anything (ok a) = tt
anything (panic s) = tt
anything blocked = tt
anything fault = tt

pub Ensures-after {ℓ κ} :
    {A : Type ℓ} {B : Type κ} (Q : B → Type 0) (m : Outcome A) (f : A → Outcome B)
    → ((a : A) → Ensures Q (f a))
    → Ensures Q (m >>= f)
Ensures-after Q m f h = Ensures-bind (λ a. Unit) Q m f (anything m) (λ a t. h a)

pub Ensures-Returns {ℓ} : {A : Type ℓ} (P : A → Type 0) (m : Outcome A) → Returns P m → Ensures P m
Ensures-Returns P (ok a) h = h
Ensures-Returns P (panic s) h = tt
Ensures-Returns P blocked h = tt
Ensures-Returns P fault h = tt

-- The result of a call, with the equation that it is the result.
itself : {A : Type 0} (m : Outcome A) → Ensures (λ a. m ≡ ok a) m
itself (ok a) = λ i. ok a
itself (panic s) = tt
itself blocked = tt
itself fault = tt

pub Ensures-call {κ} :
    {A : Type 0} {B : Type κ} (Q : B → Type 0) (m : Outcome A) (f : A → Outcome B)
    → ((a : A) → m ≡ ok a → Ensures Q (f a))
    → Ensures Q (m >>= f)
Ensures-call Q m f h = Ensures-bind (λ a. m ≡ ok a) Q m f (itself m) h

-- Either way of a test.
pub Ensures-option {ℓ κ} :
    {A : Type ℓ} {B : Type κ} (Q : B → Type 0) (o : Option A) (x : Outcome B) (f : A → Outcome B)
    → Ensures Q x
    → ((a : A) → Ensures Q (f a))
    → Ensures Q (elim o [ none ↦ x | some a ↦ f a ])
Ensures-option Q none x f h k = h
Ensures-option Q (some a) x f h k = k a

pub Ensures-bool {ℓ} :
    {B : Type ℓ} (Q : B → Type 0) (b : Bool) (x y : Outcome B)
    → Ensures Q x
    → Ensures Q y
    → Ensures Q (elim b [ false ↦ x | true ↦ y ])
Ensures-bool Q false x y h k = h
Ensures-bool Q true x y h k = k

pub Ensures-if {ℓ} :
    {B : Type ℓ} (Q : B → Type 0) (b : Bool) (x y : Outcome B)
    → Ensures Q x
    → Ensures Q y
    → Ensures Q (if b then x else y)
Ensures-if Q true x y h k = h
Ensures-if Q false x y h k = k

-- Either way of a test on the first of a pair, with what is known of the pair.
pub Ensures-pair {ℓ κ μ} :
    {A : Type ℓ} {B : Type κ} {S : Type μ} (P : Option A × S → Type 0) (Q : B → Type 0)
    (r : Option A × S) (x : S → Outcome B) (f : A → S → Outcome B)
    → P r
    → ((s : S) → P (none, s) → Ensures Q (x s))
    → ((a : A) (s : S) → P (some a, s) → Ensures Q (f a s))
    → Ensures Q (elim r.0 [ none ↦ x r.1 | some a ↦ f a r.1 ])
Ensures-pair P Q (none, s) x f p h k = h s p
Ensures-pair P Q (some a, s) x f p h k = k a s p
