-- ===== src/Base/Dict.antt =====
-- Python's `dict` as an association list in insertion order: a new key goes to the end, and a
-- write to a key that is there keeps its place.
use moza_simulator.Base.{◌⊎◌, false, sym}
use mathlib.Core.Path.{◌≡◌, refl, subst}
use mathlib.Core.Logic.{inl, inr}
use mathlib.Core.Bool.{true}
use mathlib.Core.Option.{Option, none, some}
use mathlib.Core.List.{List, [], ◌∷◌}
use native.Mathlib.Omega.{arith}
use moza_simulator.Base.Lists.{All}
use moza_simulator.Base.Tests.{Key, if◌then◌else◌, Bool-cases}

abbrev pub Dict {ℓ κ} : Type ℓ → Type κ → Type (ℓ ⊔ κ)
Dict K V = List (K × V)

pub eqb_refl {ℓ} : {K : Type ℓ} ⦃e : Key K⦄ (k : K) → e.eqb k k ≡ true
eqb_refl ⦃e⦄ k = (e.eqb_iff k k).1 refl

module _ {ℓ κ} {K : Type ℓ} {V : Type κ} ⦃e : Key K⦄ where
  -- `d.get(k)`
  unfoldable pub lookup : K → Dict K V → Option V
  lookup k [] = none
  lookup k ((j, v) ∷ d) = if e.eqb j k then some v else lookup k d

  -- `d[k] = v`
  unfoldable pub insert : K → V → Dict K V → Dict K V
  insert k v [] = (k, v) ∷ []
  insert k v ((j, w) ∷ d) = if e.eqb j k then (j, v) ∷ d else (j, w) ∷ insert k v d

  -- `d.update(other)`
  unfoldable pub update : Dict K V → Dict K V → Dict K V
  unfolding insert
  update d [] = d
  update d ((k, v) ∷ other) = update (insert k v d) other

  pub lookup-insert :
      (k j : K) (v : V) (d : Dict K V)
      → lookup j (insert k v d) ≡ (if e.eqb k j then some v else lookup j d)
  unfolding lookup insert
  lookup-insert k j v [] = refl
  lookup-insert k j v ((i, w) ∷ d) = elim (Bool-cases (e.eqb i k)) [
    | inl h ↦ rw (h, (e.eqb_iff i k).0 h) (ground arith)
    | inr h ↦ ground (arith, lookup-insert k j v d, e.eqb_iff k j, e.eqb_iff i j, e.eqb_iff i k)
  ]

  pub lookup-insert_self : (k : K) (v : V) (d : Dict K V) → lookup k (insert k v d) ≡ some v
  lookup-insert_self k v d = rw (lookup-insert k k v d) (rw (eqb_refl k))

-- A predicate on the values of a dictionary.
abbrev pub AllValues {ℓ κ μ} : {K : Type ℓ} {V : Type κ} → (V → Type μ) → Dict K V → Type μ
AllValues Q d = All (λ e. Q e.1) d

abbrev OnSome {κ μ} : {V : Type κ} → (V → Type μ) → Option V → Type μ
OnSome Q none = Unit
OnSome Q (some v) = Q v

module _ {ℓ κ μ} {K : Type ℓ} {V : Type κ} ⦃e : Key K⦄ (Q : V → Type μ) where
  lookup-OnSome : (k : K) (d : Dict K V) → AllValues Q d → OnSome Q (lookup k d)
  unfolding lookup
  lookup-OnSome k [] h = tt
  lookup-OnSome k ((j, w) ∷ d) h = pick (lookup-OnSome k d h.1)
    where
      pick : OnSome Q (lookup k d) → OnSome Q (lookup k ((j, w) ∷ d))
      pick rest = elim (Bool-cases (e.eqb j k)) [ inl b ↦ rw b h.0 | inr b ↦ rw b rest ]

  pub AllValues-lookup : (k : K) (d : Dict K V) {v : V} → AllValues Q d → lookup k d ≡ some v → Q v
  AllValues-lookup k d h q = subst (OnSome Q) q (lookup-OnSome k d h)

  pub AllValues-insert :
      (k : K) (v : V) (d : Dict K V) → Q v → AllValues Q d → AllValues Q (insert k v d)
  unfolding insert
  AllValues-insert k v [] q h = (q, tt)
  AllValues-insert k v ((j, w) ∷ d) q h = pick (AllValues-insert k v d q h.1)
    where
      pick : AllValues Q (insert k v d) → AllValues Q (insert k v ((j, w) ∷ d))
      pick rest = elim (Bool-cases (e.eqb j k)) [ inl b ↦ rw b (q, h.1) | inr b ↦ rw b (h.0, rest) ]

  pub AllValues-update :
      (d other : Dict K V) → AllValues Q d → AllValues Q other → AllValues Q (update d other)
  unfolding update
  AllValues-update d [] h k = h
  AllValues-update d ((j, v) ∷ other) h k =
      AllValues-update (insert j v d) other (AllValues-insert j v d k.0 h) k.1

pub insert-All {ℓ κ μ} :
    {K : Type ℓ} {V : Type κ} ⦃e : Key K⦄ (Q : K × V → Type μ) (k : K) (v : V) (d : Dict K V)
    → Q (k, v)
    → All Q d
    → All Q (insert k v d)
unfolding insert
insert-All Q k v [] q h = (q, tt)
insert-All ⦃e⦄ Q k v ((j, w) ∷ d) q h = pick (Bool-cases (e.eqb j k)) (insert-All Q k v d q h.1)
  where
    pick :
        (e.eqb j k ≡ true) ⊎ (e.eqb j k ≡ false)
        → All Q (insert k v d)
        → All Q (insert k v ((j, w) ∷ d))
    pick (inl b) rest = rw b (subst (λ x. Q (x, v)) (sym ((e.eqb_iff j k).0 b)) q, h.1)
    pick (inr b) rest = rw b (h.0, rest)

-- A property of the entries holds of the entry that is found.
pub lookup-All {ℓ κ μ} :
    {K : Type ℓ} {V : Type κ} ⦃e : Key K⦄ (Q : K × V → Type μ) (k : K) (d : Dict K V) {v : V}
    → All Q d
    → lookup k d ≡ some v
    → Q (k, v)
unfolding lookup
lookup-All Q k [] h q = cc
lookup-All ⦃e⦄ Q k ((j, w) ∷ d) {v} h q = pick (Bool-cases (e.eqb j k)) (lookup-All Q k d h.1)
  where
    pick : (e.eqb j k ≡ true) ⊎ (e.eqb j k ≡ false) → (lookup k d ≡ some v → Q (k, v)) → Q (k, v)
    pick (inl b) rest =
        let same : w ≡ v = ground arith in
        subst (λ x. Q (k, x)) same (subst (λ x. Q (x, w)) ((e.eqb_iff j k).0 b) h.0)
    pick (inr b) rest = rest (ground arith)
