-- ===== src/Prelude/Outcome.antt =====
-- Python's exceptions as values. An exception is told by its class; its message is not kept.
use mathlib.Core.Path.{◌≡◌, refl, subst}
use mathlib.Core.Bool.{Bool, true, false}
use mathlib.Core.Logic.{◌⊎◌, inl, inr}

pub data Error : Type 0 where
  value_error assertion_error key_error index_error type_error runtime_error overflow_error : Error
  invalid_state_error cancelled_error fail_fast_error system_exit : Error

pub data Result {ℓ} (A : Type ℓ) : Type ℓ where
  ok : A → Result A
  err : Error → Result A

-- `if not b: raise e`
abbrev pub guard : Bool → Error → Result (Unit {0})
guard false e = err e
guard true _ = ok tt

-- An exception ends the call; a value goes on to the rest.
infixl 5 ◌>>=◌
abbrev pub ◌>>=◌ {ℓ ℓ'} :
    {A : Type ℓ} {B : Type ℓ'} (call : Result A) (rest : A → Result B) → Result B
err e >>= rest = err e
ok value >>= rest = rest value

infixl 5 ◌>>◌
abbrev pub ◌>>◌ {ℓ ℓ'} : {A : Type ℓ} {B : Type ℓ'} (call : Result A) (rest : Result B) → Result B
call >> rest = call >>= λ _. rest

-- A call that returns, taken apart at the bind.
pub >>=-eq-ok {ℓ ℓ'} :
    {A : Type ℓ} {B : Type ℓ'} (call : Result A) (rest : A → Result B) {result : B}
    → (call >>= rest) ≡ ok result
    → (value : A) × (call ≡ ok value) × (rest value ≡ ok result)
>>=-eq-ok (err e) rest h = cc
>>=-eq-ok (ok value) rest h = (value, refl, h)

-- `P` holds of what is returned, if anything is.
abbrev pub Ensures {ℓ κ} : {A : Type ℓ} → (A → Type κ) → Result A → Type κ
Ensures P (ok a) = P a
Ensures P (err e) = Unit

pub Ensures-bind {ℓ ℓ' κ κ'} :
    {A : Type ℓ} {B : Type ℓ'} (P : A → Type κ) (Q : B → Type κ') (m : Result A) (f : A → Result B)
    → Ensures P m
    → ((a : A) → P a → Ensures Q (f a))
    → Ensures Q (m >>= f)
Ensures-bind P Q (ok a) f h k = k a h
Ensures-bind P Q (err e) f h k = tt

pub Ensures-of {ℓ κ} :
    {A : Type ℓ} (P : A → Type κ) (m : Result A) → ((a : A) → m ≡ ok a → P a) → Ensures P m
Ensures-of P (ok a) h = h a refl
Ensures-of P (err e) h = tt

pub eq-ok_Ensures {ℓ κ} :
    {A : Type ℓ} (P : A → Type κ) {m : Result A} {a : A} → m ≡ ok a → Ensures P m → P a
eq-ok_Ensures P e h = subst (Ensures P) e h

-- A guard that lets the call go on.
pub guard_inv : (b : Bool) (e : Error) {u : Unit {0}} → guard b e ≡ ok u → b ≡ true
guard_inv false e h = cc
guard_inv true e h = refl

pub Result-cases {ℓ} :
    {A : Type ℓ} (r : Result A) → ((a : A) × (r ≡ ok a)) ⊎ ((e : Error) × (r ≡ err e))
Result-cases (ok a) = inl (a, refl)
Result-cases (err e) = inr (e, refl)
