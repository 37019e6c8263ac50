-- ===== src/Base/Raise.antt =====
-- Python code that may raise: the exceptions that the modelled code can meet, and their chains.
use moza_simulator.Base.{ap}
use mathlib.Core.Path.{◌≡◌, refl, subst}
use mathlib.Core.Logic.{◌⊎◌, inl, inr}
use mathlib.Core.Option.{Option, none, some}

pub data Error : Type 0 where
  value_error key_error index_error unicode_error overflow_error stop_iteration : Error

pub data Result {ℓ} (A : Type ℓ) : Type ℓ where
  ok : A → Result A
  err : Error → Result A

infixl 5 ◌>>=◌
abbrev pub ◌>>=◌ {ℓ κ} : {A : Type ℓ} {B : Type κ} → Result A → (A → Result B) → Result B
ok a >>= f = f a
err e >>= f = err e

abbrev pub map_result {ℓ κ} : {A : Type ℓ} {B : Type κ} → (A → B) → Result A → Result B
map_result f (ok a) = ok (f a)
map_result f (err e) = err e

-- `d[k]` on a dictionary: a missing key raises `KeyError`.
abbrev pub require {ℓ} : {A : Type ℓ} → Option A → Result A
require none = err key_error
require (some a) = ok a

-- The call returns and does not raise.
abbrev pub Returns {ℓ} : {A : Type ℓ} → Result A → Type 0
Returns (ok a) = Unit
Returns (err e) = ⊥

-- What the call returns, if it returns, has the property.
abbrev pub Ensures {ℓ κ} : {A : Type ℓ} → (A → Type κ) → Result A → Type κ
Ensures Q (ok a) = Q a
Ensures Q (err e) = Unit

pub Ensures-bind {ℓ κ μ} :
    {A : Type ℓ} {B : Type κ} (Q : B → Type μ) (m : Result A) (f : A → Result B)
    → ((a : A) → m ≡ ok a → Ensures Q (f a))
    → Ensures Q (m >>= f)
Ensures-bind Q (ok a) f h = h a refl
Ensures-bind Q (err e) f h = tt

pub Ensures-ok {ℓ κ} :
    {A : Type ℓ} (Q : A → Type κ) (m : Result A) {a : A} → Ensures Q m → m ≡ ok a → Q a
Ensures-ok Q m h e = subst (Ensures Q) e h

pub Ensures-map {ℓ κ μ} :
    {A : Type ℓ} (P : A → Type κ) (Q : A → Type μ) (m : Result A)
    → ((a : A) → P a → Q a)
    → Ensures P m
    → Ensures Q m
Ensures-map P Q (ok a) f h = f a h
Ensures-map P Q (err e) f h = tt

pub Ensures-both {ℓ κ μ} :
    {A : Type ℓ} (P : A → Type κ) (Q : A → Type μ) (m : Result A)
    → Ensures P m
    → Ensures Q m
    → Ensures (λ a. P a × Q a) m
Ensures-both P Q (ok a) p q = (p, q)
Ensures-both P Q (err e) p q = tt

pub Result-cases {ℓ} :
    {A : Type ℓ} (r : Result A) → ((a : A) × (r ≡ ok a)) ⊎ ((e : Error) × (r ≡ err e))
Result-cases (ok a) = inl (a, refl)
Result-cases (err e) = inr (e, refl)

abbrev pub get_ok {ℓ} : {A : Type ℓ} → A → Result A → A
get_ok d (ok a) = a
get_ok d (err e) = d

-- What `require` returns was there.
pub required {ℓ} : {A : Type ℓ} {o : Option A} {a : A} → require o ≡ ok a → o ≡ some a
required {o = none} e = cc
required {o = some b} e = ap (λ r. some (get_ok b r)) e
