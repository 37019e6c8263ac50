-- ===== src/Mbooster/Watch.antt =====
-- Predicates on the units of a lane, and what writes to the dictionary of units do to them.
use moza_simulator.Base.{
  ℕ, ℕ-key, Bytes-key, pair-key, Bytes, ◌≡◌, Option, some, inl, [], inr, ◌∷◌, true, Bool-cases,
  ◌==◌, none, arith, ◌⊎◌, ◌∙◌, false, refl, if◌then◌else◌, sym, subst,
}
use moza_simulator.Base.Raise.{ok, require}
use moza_simulator.Base.Dict.{lookup, insert, Dict, lookup-insert, lookup-insert_self}
use mathlib.Core.Option.{some-injective}
use moza_simulator.Mbooster.Reboot.{all_offline, take_offline}
use moza_simulator.Mbooster.{PedalUnit, Lane, host, reg_key}

-- A predicate on the units with their devices, and a device whose unit is there.
pub record Watch : Type 1 where
  pub holds : ℕ → PedalUnit → Type 0
  pub watched : ℕ

abbrev pub IsThere : ℕ → Dict ℕ PedalUnit → Type 0
IsThere dev units = (u : PedalUnit) × (lookup dev units ≡ some u)

abbrev pub AllHold : Watch → Dict ℕ PedalUnit → Type 0
AllHold P units = (d : ℕ) (u : PedalUnit) → lookup d units ≡ some u → P.holds d u

abbrev pub Kept : Watch → Dict ℕ PedalUnit → Type 0
Kept P units = AllHold P units × IsThere P.watched units

abbrev pub Everywhere : Watch → Lane → Type 0
Everywhere P lane = Kept P lane.units

abbrev pub write_unit : Bytes → PedalUnit → PedalUnit
write_unit payload u = record u { regs = insert (reg_key payload).0 (reg_key payload).1 u.regs }

-- What `self.host` finds.
pub host_found :
    (lane : Lane) {u : PedalUnit} → host lane ≡ ok u → lookup lane.host_dev lane.units ≡ some u
unfolding host
host_found lane {u} e = found (lookup lane.host_dev lane.units) e
  where
    found : (o : Option PedalUnit) → require o ≡ ok u → o ≡ some u
    found none q = cc
    found (some v) q = ground arith

pub insert-IsThere :
    (d dev : ℕ) (u : PedalUnit) (units : Dict ℕ PedalUnit)
    → IsThere d units
    → IsThere d (insert dev u units)
insert-IsThere d dev u units (v, e) = elim (Bool-cases (dev == d)) [
  | inl b ↦ (u, lookup-insert dev d u units ∙ rw b refl)
  | inr b ↦ (v, lookup-insert dev d u units ∙ rw b e)
]

module _ (P : Watch) where
  insert-AllHold :
      (dev : ℕ) (u : PedalUnit) (units : Dict ℕ PedalUnit)
      → P.holds dev u
      → AllHold P units
      → AllHold P (insert dev u units)
  insert-AllHold dev u units q h d v e =
      pick (Bool-cases (dev == d)) (sym (lookup-insert dev d u units) ∙ e)
    where
      pick :
          ((dev == d) ≡ true) ⊎ ((dev == d) ≡ false)
          → (if dev == d then some u else lookup d units) ≡ some v
          → P.holds d v
      pick (inl b) f =
          let same_dev : dev ≡ d = ground arith in
          let same : u ≡ v = ground arith in
          subst (λ x. P.holds x v) same_dev (subst (P.holds dev) same q)
      pick (inr b) f = h d v (ground arith)

  pub Kept-insert :
      (dev : ℕ) (u : PedalUnit) (units : Dict ℕ PedalUnit)
      → P.holds dev u
      → Kept P units
      → Kept P (insert dev u units)
  Kept-insert dev u units q h =
      (insert-AllHold dev u units q h.0, insert-IsThere P.watched dev u units h.1)

  pub Kept-at :
      (dev : ℕ) (units : Dict ℕ PedalUnit) {u : PedalUnit}
      → Kept P units
      → lookup dev units ≡ some u
      → P.holds dev u
  Kept-at dev units {u} h e = h.0 dev u e

abbrev pub offline_option : ℕ → Option PedalUnit → Option PedalUnit
offline_option now none = none
offline_option now (some u) = some (take_offline now u)

pub all_offline-lookup :
    (now d : ℕ) (units : Dict ℕ PedalUnit)
    → lookup d (all_offline now units) ≡ offline_option now (lookup d units)
unfolding lookup all_offline
all_offline-lookup now d [] = refl
all_offline-lookup now d ((j, w) ∷ units) =
    pick (Bool-cases (j == d)) (all_offline-lookup now d units)
  where
    pick :
        ((j == d) ≡ true) ⊎ ((j == d) ≡ false)
        → lookup d (all_offline now units) ≡ offline_option now (lookup d units)
        → lookup d (all_offline now ((j, w) ∷ units))
          ≡ offline_option now (lookup d ((j, w) ∷ units))
    pick (inl b) rest = rw b refl
    pick (inr b) rest = rw b rest

-- A property of the unit of one device.
abbrev pub At : ℕ → (PedalUnit → Type 0) → Watch
At dev Q = record { holds = λ d u. d ≡ dev → Q u; watched = dev }

pub At-holds :
    (dev : ℕ) (Q : PedalUnit → Type 0) (units : Dict ℕ PedalUnit) {u : PedalUnit}
    → lookup dev units ≡ some u
    → Q u
    → Kept (At dev Q) units
At-holds dev Q units {u} e q = (
  λ d v f same_dev.
      let g : lookup dev units ≡ some v = subst (λ x. lookup x units ≡ some v) same_dev f in
      subst Q (some-injective _ _ (sym e ∙ g)) q,
  (u, e),
)

pub insert-At :
    (dev : ℕ) (Q : PedalUnit → Type 0) (u : PedalUnit) (units : Dict ℕ PedalUnit)
    → Q u
    → Kept (At dev Q) (insert dev u units)
insert-At dev Q u units q = At-holds dev Q (insert dev u units) (lookup-insert_self dev u units) q
