-- ===== src/Base/Results.antt =====
-- Results of code that throws.
use mathlib.Core.Bool.{Bool, true, false}
use micro_jbase.Base.Tests.{if◌then◌else◌}
use mathlib.Core.Logic.{◌⊎◌, inl, inr}
use mathlib.Core.Path.{◌≡◌, refl, subst}

pub data Result {ℓ} (E A : Type ℓ) : Type ℓ where
  ok : A → Result E A
  err : E → Result E A

-- `if (!b) throw e`
abbrev pub guard {ℓ} : {E : Type ℓ} → Bool → E → Result E (Unit {ℓ})
guard false thrown = err thrown
guard true _ = ok tt

-- the next step gets the value that is returned, and nothing follows a throw
infixl 5 ◌>>=◌ ◌>>◌
abbrev pub ◌>>=◌ {ℓ} : {E A B : Type ℓ} → Result E A → (A → Result E B) → Result E B
err thrown >>= next = err thrown
ok value >>= next = next value

abbrev pub ◌>>◌ {ℓ} : {E B : Type ℓ} → Result E (Unit {ℓ}) → Result E B → Result E B
first >> next = first >>= (λ done. next)

abbrev pub is_ok {ℓ} : {E A : Type ℓ} → Result E A → Bool
is_ok (ok a) = true
is_ok (err e) = false

pub >>=-eq-ok {ℓ} :
    {E A B : Type ℓ} (first : Result E A) (next : A → Result E B) {result : B}
    → (first >>= next) ≡ ok result
    → (value : A) × (first ≡ ok value) × (next value ≡ ok result)
>>=-eq-ok (err thrown) next returned = cc
>>=-eq-ok (ok value) next returned = (value, refl, returned)

pub guard-eq-ok {ℓ} : {E : Type ℓ} (b : Bool) (e : E) {u : Unit {ℓ}} → guard b e ≡ ok u → b ≡ true
guard-eq-ok true e h = refl
guard-eq-ok false e h = cc

pub Result-cases {ℓ} :
    {E A : Type ℓ} (r : Result E A) → ((a : A) × (r ≡ ok a)) ⊎ ((e : E) × (r ≡ err e))
Result-cases (ok a) = inl (a, refl)
Result-cases (err e) = inr (e, refl)

-- the predicate on the value that is returned, if one is
abbrev pub Returned {ℓ κ} : {E A : Type ℓ} → (A → Type κ) → Result E A → Type κ
Returned P (ok a) = P a
Returned P (err e) = Unit

-- a fact about the value that is returned carries over to an equal one
pub ok_subst {ℓ κ} :
    {E A : Type ℓ} (P : A → Type κ) (a : A) {b : A} → ◌≡◌ {A = Result E A} (ok a) (ok b) → P a → P b
ok_subst P a e p = subst (Returned P) e p

-- the predicate on the error that is thrown, if one is
abbrev pub Throws {ℓ κ} : {E A : Type ℓ} → (E → Type κ) → Result E A → Type κ
Throws P (ok a) = Unit
Throws P (err e) = P e

pub Throws-bind {ℓ κ} :
    {E A B : Type ℓ} (P : E → Type κ) (m : Result E A) (f : A → Result E B)
    → Throws P m
    → ((a : A) → Throws P (f a))
    → Throws P (m >>= f)
Throws-bind P (ok a) f h k = k a
Throws-bind P (err e) f h k = h

pub Throws-guard {ℓ κ} :
    {E : Type ℓ} (P : E → Type κ) (b : Bool) (e : E) → P e → Throws P (guard b e)
Throws-guard P true e p = tt
Throws-guard P false e p = p

pub Returned-bind {ℓ κ ι} :
    {E A B : Type ℓ} (Q : A → Type κ) (P : B → Type ι) (m : Result E A) (f : A → Result E B)
    → Returned Q m
    → ((a : A) → Q a → Returned P (f a))
    → Returned P (m >>= f)
Returned-bind Q P (ok a) f q k = k a q
Returned-bind Q P (err e) f q k = tt

-- the same, where nothing is known of the value that is handed on
pub Returned-after {ℓ κ} :
    {E A B : Type ℓ} (P : B → Type κ) (m : Result E A) (f : A → Result E B)
    → ((a : A) → Returned P (f a))
    → Returned P (m >>= f)
Returned-after P (ok a) f k = k a
Returned-after P (err e) f k = tt

pub Returned-if {ℓ κ} :
    {E A : Type ℓ} (P : A → Type κ) (b : Bool) (m n : Result E A)
    → (b ≡ true → Returned P m)
    → (b ≡ false → Returned P n)
    → Returned P (if b then m else n)
Returned-if P true m n h k = h refl
Returned-if P false m n h k = k refl

pub Returned-eq {ℓ κ} :
    {E A B : Type ℓ} (P : B → Type κ) (m : Result E A) (f : A → Result E B)
    → ((a : A) → m ≡ ok a → Returned P (f a))
    → Returned P (m >>= f)
Returned-eq P (ok a) f k = k a refl
Returned-eq P (err e) f k = tt

pub Returned-guard {ℓ κ} :
    {E B : Type ℓ} (P : B → Type κ) (b : Bool) (e : E) (f : Unit {ℓ} → Result E B)
    → (b ≡ true → Returned P (f tt))
    → Returned P (guard b e >>= f)
Returned-guard P true e f k = k refl
Returned-guard P false e f k = tt
