-- ===== src/Mbooster/Sleep.antt =====
-- The sleep time of a unit, register 0xB4, which a calibration takes away and a reset gives back.
use moza_simulator.Base.{
  ℕ, ℕ-key, Bytes-key, pair-key, Bytes, ◌≡◌, none, Option, Bool-cases, some, refl, inl, inr, ◌∙◌,
  ap, ◌≢◌, Bool, ◌∷◌, take, bytes_eqb, List, false, All, bytes_eqb_iff, true, subst, sym, [],
}
use moza_simulator.Base.Raise.{ok, Ensures-ok}
use moza_simulator.Base.Dict.{lookup, Dict, lookup-insert_self, insert, lookup-insert}
use moza_simulator.Mbooster.Silent.{reset_handled}
use moza_simulator.Wire.{framed}
use moza_simulator.Mbooster.Dispatch.{mbooster_hook, arm_heartbeat}
use moza_simulator.Mbooster.Awake.{IsAwake}
use moza_simulator.Standalone.{Sim, handle}
use moza_simulator.Mbooster.Poll.{advance_sweep, clear_lost, advance}
use moza_simulator.Mbooster.Calibration.{
  sleep_reg, located, no_sleep, starts_locate, start_sweep, hold_sleep,
}
use moza_simulator.Mbooster.Watch.{Watch, write_unit, At, Everywhere, insert-At, At-holds}
use moza_simulator.Mbooster.Steady.{SteadyLoss, Steady, reboot-of}
use moza_simulator.Identity.{get_else}
use moza_simulator.Mbooster.Runs.{
  Event, polls, arrives, EventKeeps, lane_run, InEngine, lane_run-InEngine, time_of,
}
use moza_simulator.Mbooster.Reboot.{reset_unit, raise_lost, restored_regs, reboot}
use moza_simulator.Mbooster.{PedalUnit, Sweep, reg_key, Lane}

-- What the register reads; where it is missing, 0 counts.
abbrev pub sleep_value : PedalUnit → Bytes
sleep_value u = get_else (lookup sleep_reg u.regs) no_sleep

-- The sleep time that the user has set.
abbrev set_sleep : PedalUnit → Bytes
set_sleep u = get_else u.sleep_before_cal (sleep_value u)

abbrev SetSleep : ℕ → Bytes → Watch
SetSleep dev v = At dev (λ u. set_sleep u ≡ v)

-- The register is itself again.
abbrev Restored : ℕ → Bytes → Watch
Restored dev v = At dev (λ u. (u.sleep_before_cal ≡ none) × (sleep_value u ≡ v))

Restored-SteadyLoss : (dev : ℕ) (v : Bytes) → SteadyLoss (Restored dev v)
Restored-SteadyLoss dev v = record {
  raises = λ d u q e. unfold raise_lost in q e;
  boots = λ d due u q e. q e;
}

lookup-restored_regs :
    (o : Option Bytes) (regs : Dict Bytes Bytes)
    → get_else (lookup sleep_reg (restored_regs o regs)) no_sleep
      ≡ get_else o (get_else (lookup sleep_reg regs) no_sleep)
unfolding restored_regs
lookup-restored_regs none regs = refl
lookup-restored_regs (some v) regs =
    ap (λ x. get_else x no_sleep) (lookup-insert_self sleep_reg v regs)

set_sleep-reset_unit : (now : ℕ) (u : PedalUnit) → sleep_value (reset_unit now u) ≡ set_sleep u
unfolding reset_unit
set_sleep-reset_unit now u = lookup-restored_regs u.sleep_before_cal u.regs

SetSleep-Steady : (dev : ℕ) (v : Bytes) (now : ℕ) → Steady now (SetSleep dev v)
SetSleep-Steady dev v now = record {
  loss = record { raises = λ d u q e. unfold raise_lost in q e; boots = λ d due u q e. q e };
  starts_sweep = λ d r u q e. unfold start_sweep hold_sleep in q e;
  stops_sweep = λ d u q e. q e;
  locates = λ d payload u q e. located_sleep payload u (q e);
  resets = λ d u q e. reset_none now u ∙ set_sleep-reset_unit now u ∙ q e;
  goes_offline = λ d u q e. q e;
  clears = λ d u q e. unfold clear_lost in q e;
  acks = λ d codes u q e. q e;
  advances = λ d u q e. unfold advance in advanced u u.cal (q e);
  stamps = λ d u q e. q e;
}
  where
    reset_none :
        (now : ℕ) (u : PedalUnit) → set_sleep (reset_unit now u) ≡ sleep_value (reset_unit now u)
    reset_none now u = unfold reset_unit in refl

    located_sleep :
        (payload : Bytes) (u : PedalUnit) → set_sleep u ≡ v → set_sleep (located now payload u) ≡ v
    located_sleep payload u q =
        unfold located in
        elim (Bool-cases (starts_locate payload)) [ inl b ↦ rw b q | inr b ↦ rw b q ]

    advanced :
        (u : PedalUnit) (o : Option Sweep) → set_sleep u ≡ v → set_sleep (advance_sweep now u o) ≡ v
    advanced u none q = unfold advance_sweep in q
    advanced u (some sweep) q = unfold advance_sweep in q

-- The event writes no sleep time to the device.
abbrev pub LeavesSleep : ℕ → Event → Type 0
LeavesSleep dev (polls now) = Unit
LeavesSleep dev (arrives now frame) = FrameLeaves frame
  where
    FrameLeaves : Bytes → Type 0
    FrameLeaves (start ∷ n ∷ group ∷ device ∷ body) =
        group ≡ 0x24 → device ≡ dev → (reg_key (take n body)).0 ≢ sleep_reg
    FrameLeaves _ = Unit

set_sleep-write_unit :
    (payload : Bytes) (u : PedalUnit)
    → (reg_key payload).0 ≢ sleep_reg
    → set_sleep (write_unit payload u) ≡ set_sleep u
set_sleep-write_unit payload u k =
    let key = (reg_key payload).0 in
    let other : bytes_eqb key sleep_reg ≡ false = unequal (bytes_eqb key sleep_reg) refl in
    let same : lookup sleep_reg (insert key (reg_key payload).1 u.regs) ≡ lookup sleep_reg u.regs =
      lookup-insert key sleep_reg (reg_key payload).1 u.regs ∙ rw other refl in
    ap (λ o. get_else u.sleep_before_cal (get_else o no_sleep)) same
  where
    unequal : (b : Bool) → bytes_eqb (reg_key payload).0 sleep_reg ≡ b → b ≡ false
    unequal true e = absurd (k ((bytes_eqb_iff (reg_key payload).0 sleep_reg).0 e))
    unequal false e = refl

LeavesSleep-keeps :
    (dev : ℕ) (v : Bytes) (event : Event)
    → LeavesSleep dev event
    → EventKeeps (SetSleep dev v) event
LeavesSleep-keeps dev v (polls now) k = tt
LeavesSleep-keeps dev v (arrives now []) k = tt
LeavesSleep-keeps dev v (arrives now (a ∷ [])) k = tt
LeavesSleep-keeps dev v (arrives now (a ∷ b ∷ [])) k = tt
LeavesSleep-keeps dev v (arrives now (a ∷ b ∷ c ∷ [])) k = tt
LeavesSleep-keeps dev v (arrives now (start ∷ n ∷ group ∷ device ∷ body)) k =
    λ g u q e. set_sleep-write_unit (take n body) u (k g e) ∙ q e

events_keep :
    (dev : ℕ) (v : Bytes) (events : List Event)
    → All (LeavesSleep dev) events
    → All
        (λ event. Steady (time_of event) (SetSleep dev v) × EventKeeps (SetSleep dev v) event)
        events
events_keep dev v [] k = tt
events_keep dev v (x ∷ xs) k =
    ((SetSleep-Steady dev v (time_of x), LeavesSleep-keeps dev v x k.0), events_keep dev v xs k.1)

reboot-Restored :
    (t dev : ℕ) (u : PedalUnit) (v : Bytes) (lane : Lane)
    → set_sleep u ≡ v
    → Everywhere (Restored dev v) (reboot t dev u lane).0
reboot-Restored t dev u v lane q =
    reboot-of t (Restored dev v) (λ d w r e. r e) dev u lane (Restored-SteadyLoss dev v)
      (insert-At dev (λ w. (w.sleep_before_cal ≡ none) × (sleep_value w ≡ v)) (reset_unit t u)
        lane.units (unfold reset_unit in refl, set_sleep-reset_unit t u ∙ q))

-- A unit for which no sleep time is put aside, so neither in a calibration nor stopped in one and
-- not reset since, reads a sleep time. Whatever frames and polls come, with
-- calibrations of any kind and resets among them, but no write to the sleep register of the unit
-- and no exception, a soft reset of the unit, when it is awake, leaves that sleep time in the
-- register, and none put aside.
pub reset_restores_sleep :
    (s : Sim Lane) (dev t : ℕ) (u w : PedalUnit) (events : List Event) (rest : Bytes)
    {later : Sim Lane}
    → lookup dev s.engine.units ≡ some u
    → u.sleep_before_cal ≡ none
    → All (LeavesSleep dev) events
    → lane_run s events ≡ ok later
    → IsAwake later t dev w
    → (x : PedalUnit) × (lookup dev
          (handle (mbooster_hook t) later (framed 0x01 dev (0x02 ∷ rest))).0.engine.units
        ≡ some x)
      × (x.sleep_before_cal ≡ none)
      × (sleep_value x ≡ sleep_value u)
reset_restores_sleep s dev t u w events rest {later} there fresh leaves run h =
    let v = sleep_value u in
    let before : InEngine (SetSleep dev v) s =
      At-holds dev (λ x. set_sleep x ≡ v) s.engine.units there (rw fresh refl) in
    let kept : InEngine (SetSleep dev v) later =
      Ensures-ok (InEngine (SetSleep dev v)) _
        (lane_run-InEngine (SetSleep dev v) s events (events_keep dev v events leaves) before)
        run in
    let set : set_sleep w ≡ v = kept.0 dev w h.there refl in
    let after : Everywhere (Restored dev v)
        (handle (mbooster_hook t) later (framed 0x01 dev (0x02 ∷ rest))).0.engine =
      subst (Everywhere (Restored dev v)) (sym (reset_handled later t dev w rest h))
        (reboot-Restored t dev w v (arm_heartbeat t later.engine) set) in
    let (x, e) = after.1 in
    let (none_left, value) = after.0 dev x e refl in (x, e, none_left, value)
