-- ===== src/Base/Tests.antt =====
-- Boolean tests on the native numbers, the conditional, and equality of keys as an interface.
use Prim.Native.Nat.{ℕ, ◌≤◌, ◌<◌, compare, Ordering}
use Prim.Native.String.{String}
use text.Mathlib.Text.{◌==◌ as str_eq}
use text.Mathlib.TextEquality.{eq_iff}
use mathlib.Core.Path.{◌≡◌, refl, ap, subst}
use mathlib.Core.Logic.{◌↔◌, ◌⊎◌, inl, inr}
use mathlib.Core.Bool.{Bool, true, false, ◌&&◌}
use mathlib.Core.Option.{Option, none, some}
use mathlib.Core.List.{List, [], ◌∷◌}
use native.Mathlib.Omega.{arith}

abbrev pub ltb : ℕ → ℕ → Bool
ltb a b = elim (compare a b) [ Ordering.lt ↦ true | _ ↦ false ]

abbrev pub leb : ℕ → ℕ → Bool
leb a b = elim (compare a b) [ Ordering.gt ↦ false | _ ↦ true ]

infix 50 ◌==◌
abbrev pub ◌==◌ : ℕ → ℕ → Bool
a == b = elim (compare a b) [ Ordering.eq ↦ true | _ ↦ false ]

infix 1 if◌then◌else◌
abbrev pub if◌then◌else◌ {ℓ} : {A : Type ℓ} → Bool → A → A → A
if true then x else y = x
if false then x else y = y

pub ltb→lt : (a b : ℕ) → ltb a b ≡ true → a < b
ltb→lt a b h = ground arith

pub leb→le : (a b : ℕ) → leb a b ≡ true → a ≤ b
leb→le a b h = ground arith

pub le→leb : (a b : ℕ) → a ≤ b → leb a b ≡ true
le→leb a b h = ground arith

pub ==_iff : (a b : ℕ) → ((a == b) ≡ true) ↔ (a ≡ b)
==_iff a b = ground arith

pub ==_refl : (a : ℕ) → (a == a) ≡ true
==_refl a = ground arith

pub Bool-cases : (b : Bool) → (b ≡ true) ⊎ (b ≡ false)
Bool-cases true = inl refl
Bool-cases false = inr refl

pub Option-cases {ℓ} : {A : Type ℓ} (o : Option A) → (o ≡ none) ⊎ ((a : A) × (o ≡ some a))
Option-cases none = inl refl
Option-cases (some a) = inr (a, refl)

-- Equality of the keys of a dictionary.
pub record Key {ℓ} (A : Type ℓ) : Type ℓ where
  pub eqb : A → A → Bool
  pub eqb_iff : (a b : A) → (eqb a b ≡ true) ↔ (a ≡ b)

instance abbrev pub ℕ-key : Key ℕ
ℕ-key = record { eqb = ◌==◌; eqb_iff = ==_iff }

instance abbrev pub String-key : Key String
String-key = record { eqb = str_eq; eqb_iff = eq_iff }

abbrev pub Bytes : Type 0
Bytes = List ℕ

abbrev pub bytes_eqb : Bytes → Bytes → Bool
bytes_eqb [] [] = true
bytes_eqb [] (y ∷ ys) = false
bytes_eqb (x ∷ xs) [] = false
bytes_eqb (x ∷ xs) (y ∷ ys) = (x == y) && bytes_eqb xs ys

bytes_eqb→eq : (a b : Bytes) → bytes_eqb a b ≡ true → a ≡ b
bytes_eqb→eq [] [] h = refl
bytes_eqb→eq [] (y ∷ ys) h = cc
bytes_eqb→eq (x ∷ xs) [] h = cc
bytes_eqb→eq (x ∷ xs) (y ∷ ys) h = ground (arith, bytes_eqb→eq xs ys)

pub bytes_eqb_refl : (a : Bytes) → bytes_eqb a a ≡ true
bytes_eqb_refl [] = refl
bytes_eqb_refl (x ∷ xs) = ground (arith, bytes_eqb_refl xs)

pub bytes_eqb_iff : (a b : Bytes) → (bytes_eqb a b ≡ true) ↔ (a ≡ b)
bytes_eqb_iff a b = (bytes_eqb→eq a b, λ e. subst (λ c. bytes_eqb a c ≡ true) e (bytes_eqb_refl a))

instance abbrev pub Bytes-key : Key Bytes
Bytes-key = record { eqb = bytes_eqb; eqb_iff = bytes_eqb_iff }

and_parts : (a b : Bool) → (a && b) ≡ true → (a ≡ true) × (b ≡ true)
and_parts true b h = (refl, h)
and_parts false b h = cc

-- Keys of two parts.
abbrev pub pair_eqb {ℓ κ} : {A : Type ℓ} {B : Type κ} ⦃e : Key A⦄ ⦃f : Key B⦄ → A × B → A × B → Bool
pair_eqb ⦃e⦄ ⦃f⦄ (a, b) (c, d) = e.eqb a c && f.eqb b d

pub pair_eqb_iff {ℓ κ} :
    {A : Type ℓ} {B : Type κ} ⦃e : Key A⦄ ⦃f : Key B⦄ (p q : A × B)
    → (pair_eqb p q ≡ true) ↔ (p ≡ q)
pair_eqb_iff ⦃e⦄ ⦃f⦄ (a, b) (c, d) = (
  λ h.
      let (x, y) = and_parts (e.eqb a c) (f.eqb b d) h in
      λ i. ((e.eqb_iff a c).0 x i, (f.eqb_iff b d).0 y i),
  λ h.
      rw ((e.eqb_iff a c).1 (ap (λ (t : _ × _). t.0) h))
        ((f.eqb_iff b d).1 (ap (λ (t : _ × _). t.1) h)),
)

instance abbrev pub pair-key {ℓ κ} : {A : Type ℓ} {B : Type κ} ⦃e : Key A⦄ ⦃f : Key B⦄ → Key (A × B)
pair-key = record { eqb = pair_eqb; eqb_iff = pair_eqb_iff }
