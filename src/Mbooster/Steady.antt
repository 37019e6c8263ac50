-- ===== src/Mbooster/Steady.antt =====
-- Predicates on the units that all that the engine does on frames keeps.
use moza_simulator.Base.{
  ℕ, ℕ-key, Bytes-key, pair-key, Bytes, ◌≡◌, List, Option, Option-cases, some, inl, inr, true,
  Bool-cases, Bool, ◌==◌, none, ◌∙◌, refl, sym, subst,
}
use moza_simulator.Base.Raise.{Ensures, ok, Ensures-bind, Result-cases, Ensures-ok}
use moza_simulator.Base.Dict.{lookup, insert, Dict}
use moza_simulator.Mbooster.Watch.{
  Watch, Everywhere, AllHold, Kept, Kept-insert, all_offline-lookup, Kept-at, host_found,
}
use moza_simulator.Mbooster.Poll.{clear_lost, advance, stamp_report}
use moza_simulator.Identity.{get_else}
use mathlib.Core.Option.{some-injective}
use moza_simulator.Mbooster.Reboot.{
  all_offline, reset_units, set_boot_due, lose_chained, reboot, reset_unit, take_offline,
  role_letter, raise_lost, lost_lines, after_reset,
}
use moza_simulator.Mbooster.Calibration.{
  start_sweep, calibration, motor_cal, stop_sweep, located, stop_calibration, index_in,
}
use moza_simulator.Mbooster.{
  PedalUnit, Lane, log, host, put_unit, cal_start, cal_stop, role_in, channel_reg, role,
}

-- The predicate is kept by what follows on a reset.
pub record SteadyLoss (P : Watch) : Type 0 where
  pub raises : (d : ℕ) (u : PedalUnit) → P.holds d u → P.holds d (raise_lost u)
  pub boots :
      (d : ℕ) (due : Bool) (u : PedalUnit) → P.holds d u → P.holds d (record u { boot_due = due })

-- The predicate is kept by what the engine does to a unit at a time, besides a write to a register.
pub record Steady (now : ℕ) (P : Watch) : Type 0 where
  pub loss : SteadyLoss P
  pub starts_sweep : (d r : ℕ) (u : PedalUnit) → P.holds d u → P.holds d (start_sweep now r u)
  pub stops_sweep : (d : ℕ) (u : PedalUnit) → P.holds d u → P.holds d (stop_sweep u)
  pub locates :
      (d : ℕ) (payload : Bytes) (u : PedalUnit) → P.holds d u → P.holds d (located now payload u)
  pub resets : (d : ℕ) (u : PedalUnit) → P.holds d u → P.holds d (reset_unit now u)
  pub goes_offline : (d : ℕ) (u : PedalUnit) → P.holds d u → P.holds d (take_offline now u)
  pub clears : (d : ℕ) (u : PedalUnit) → P.holds d u → P.holds d (clear_lost u)
  pub acks :
      (d : ℕ) (codes : List ℕ) (u : PedalUnit)
      → P.holds d u
      → P.holds d (record u { acked = codes })
  pub advances : (d : ℕ) (u : PedalUnit) → P.holds d u → P.holds d (advance now u)
  pub stamps : (d : ℕ) (u : PedalUnit) → P.holds d u → P.holds d (stamp_report now u)

module _ (P : Watch) (k : SteadyLoss P) where
  set_boot_due-Everywhere :
      (dev : ℕ) (lane : Lane) → Everywhere P lane → Everywhere P (set_boot_due dev lane)
  unfolding set_boot_due
  set_boot_due-Everywhere dev lane h = elim (Option-cases (lookup dev lane.units)) [
    | inl e ↦ rw (e, set_boot_due) h
    | inr (u, e) ↦
        rw (e, set_boot_due)
          (Kept-insert P dev _ lane.units (k.boots dev true u (Kept-at P dev lane.units h e)) h)
  ]

  lose_chained-Everywhere :
      (u : PedalUnit) (lane : Lane)
      → Everywhere P lane
      → Ensures (Everywhere P) (lose_chained u lane)
  unfolding lose_chained log
  lose_chained-Everywhere u lane h = Ensures-bind (Everywhere P) (host lane) _ λ g e.
      Ensures-bind (Everywhere P) (role_letter (get_else (role_in (channel_reg 0 g)) (role u)))
        (λ letter.
          ok (put_unit lane.host_dev (raise_lost g) (log lane.host_dev (lost_lines letter) lane)))
        λ letter l.
          Kept-insert P lane.host_dev _ lane.units
            (k.raises lane.host_dev g (Kept-at P lane.host_dev lane.units h (host_found lane e))) h

  after_reset-Everywhere :
      (dev : ℕ) (u : PedalUnit) (lane : Lane)
      → Everywhere P lane
      → Everywhere P (after_reset dev u lane).0
  unfolding after_reset
  after_reset-Everywhere dev u lane h = elim (Bool-cases (u.dev == lane.host_dev)) [
    | inl e ↦ rw e (set_boot_due-Everywhere dev lane h)
    | inr e ↦ elim (Result-cases (lose_chained u lane)) [
      | inl (t, f) ↦
          rw (e, f, after_reset)
            (set_boot_due-Everywhere dev t
              (Ensures-ok (Everywhere P) _ (lose_chained-Everywhere u lane h) f))
      | inr (x, f) ↦ rw (e, f, after_reset) h
    ]
  ]

module _ (now : ℕ) (P : Watch)
    (g : (d : ℕ) (u : PedalUnit) → P.holds d u → P.holds d (take_offline now u)) where
  all_offline-AllHold :
      (units : Dict ℕ PedalUnit) → AllHold P units → AllHold P (all_offline now units)
  all_offline-AllHold units h d v e = pick (lookup d units) refl
    where
      pick : (o : Option PedalUnit) → lookup d units ≡ o → P.holds d v
      pick none f =
          let gone : none ≡ some v = sym (all_offline-lookup now d units ∙ rw f refl) ∙ e in cc
      pick (some u) f =
          let found : some (take_offline now u) ≡ some v =
            sym (all_offline-lookup now d units ∙ rw f refl) ∙ e in
          subst (P.holds d) (some-injective _ _ found) (g d u (h d u f))

  all_offline-Kept : (units : Dict ℕ PedalUnit) → Kept P units → Kept P (all_offline now units)
  all_offline-Kept units h = (
    all_offline-AllHold units h.0,
    (take_offline now h.1.0, all_offline-lookup now P.watched units ∙ rw h.1.1 refl),
  )

  reset_units-of :
      (dev : ℕ) (u : PedalUnit) (lane : Lane)
      → Kept P (insert dev (reset_unit now u) lane.units)
      → Everywhere P (reset_units now dev u lane)
  unfolding reset_units log
  reset_units-of dev u lane reset = elim (Bool-cases (u.dev == lane.host_dev)) [
    | inl e ↦ rw e (all_offline-Kept (insert dev (reset_unit now u) lane.units) reset)
    | inr e ↦ rw e reset
  ]

  pub reboot-of :
      (dev : ℕ) (u : PedalUnit) (lane : Lane)
      → SteadyLoss P
      → Kept P (insert dev (reset_unit now u) lane.units)
      → Everywhere P (reboot now dev u lane).0
  unfolding reboot
  reboot-of dev u lane k reset =
      after_reset-Everywhere P k dev (reset_unit now u) (reset_units now dev u lane)
        (reset_units-of dev u lane reset)

module _ (now : ℕ) (P : Watch) (k : Steady now P) where
  stop_calibration-Everywhere :
      (dev r : ℕ) (u : PedalUnit) (lane : Lane)
      → P.holds dev u
      → Everywhere P lane
      → Everywhere P (stop_calibration dev r u lane)
  unfolding stop_calibration log
  stop_calibration-Everywhere dev r u lane q h = elim (Option-cases u.cal) [
    | inl e ↦ rw (e, stop_calibration) h
    | inr (sweep, e) ↦
        rw (e, stop_calibration) (Kept-insert P dev _ lane.units (k.stops_sweep dev u q) h)
  ]

  pub calibration-Everywhere :
      (cmd dev : ℕ) (u : PedalUnit) (lane : Lane)
      → P.holds dev u
      → Everywhere P lane
      → Everywhere P (calibration now cmd dev u lane)
  unfolding calibration log
  calibration-Everywhere cmd dev u lane q h = elim (Option-cases (index_in cmd cal_start)) [
    | inr (r, e) ↦ rw (e, calibration) (Kept-insert P dev _ lane.units (k.starts_sweep dev r u q) h)
    | inl e ↦ elim (Option-cases (index_in cmd cal_stop)) [
      | inr (r, f) ↦ rw (e, f, calibration) (stop_calibration-Everywhere dev r u lane q h)
      | inl f ↦ rw (e, f, calibration) h
    ]
  ]

  pub motor_cal-Everywhere :
      (payload : Bytes) (dev : ℕ) (u : PedalUnit) (lane : Lane)
      → P.holds dev u
      → Everywhere P lane
      → Everywhere P (motor_cal now payload dev u lane)
  unfolding motor_cal log
  motor_cal-Everywhere payload dev u lane q h =
      Kept-insert P dev _ lane.units (k.locates dev payload u q) h

  pub reboot-Everywhere :
      (dev : ℕ) (u : PedalUnit) (lane : Lane)
      → P.holds dev u
      → Everywhere P lane
      → Everywhere P (reboot now dev u lane).0
  reboot-Everywhere dev u lane q h =
      reboot-of now P k.goes_offline dev u lane k.loss
        (Kept-insert P dev (reset_unit now u) lane.units (k.resets dev u q) h)
