-- ===== src/Mbooster/Silent.antt =====
-- A unit that was reset stays silent until its time is up, whatever comes between.
use moza_simulator.Base.{
  ℕ, ℕ-key, Bytes-key, pair-key, ◌≤◌, ◌≡◌, ◌+◌, Bytes, some, ◌<◌, Bool-cases, ◌∷◌, [], inl, inr,
  arith, Option, false, none, refl, List, take, ap, All, subst, sym,
}
use moza_simulator.Base.Raise.{ok, Ensures-ok}
use moza_simulator.Mbooster.Awake.{IsAwake, hook_away, handled_awake}
use moza_simulator.Mbooster.Reboot.{reset_unit, raise_lost, reboot}
use moza_simulator.Mbooster.Poll.{advance, clear_lost, advance_sweep}
use moza_simulator.Wire.{framed, verify}
use moza_simulator.Mbooster.Dispatch.{
  mbooster_hook, online_unit, arm_heartbeat, starts, soft_reboot,
}
use moza_simulator.Mbooster.Calibration.{located, starts_locate, start_sweep, hold_sleep}
use moza_simulator.Mbooster.Runs.{
  InEngine, Event, time_of, lane_run, EventKeeps, WritesKeep, arrives, polls, lane_run-InEngine,
}
use moza_simulator.Standalone.{
  Sim, handle, after_hook, count_frame, contains, record_frame, Replies,
}
use moza_simulator.Mbooster.Watch.{Watch, Everywhere, At, insert-At}
use moza_simulator.Mbooster.Steady.{Steady, reboot-of}
use moza_simulator.Mbooster.{PedalUnit, Lane, reboot_time, online, Sweep}

-- The unit of the device is offline until the time.
abbrev OfflineUntil : ℕ → ℕ → Watch
OfflineUntil dev time = At dev (λ u. time ≤ u.offline_until)

-- Nothing brings a unit back earlier, from the time of its reset on.
OfflineUntil-Steady : (dev t now : ℕ) → t ≤ now → Steady now (OfflineUntil dev (t + reboot_time))
OfflineUntil-Steady dev t now h = record {
  loss = record { raises = λ d u q e. unfold raise_lost in q e; boots = λ d due u q e. q e };
  starts_sweep = λ d r u q e. unfold start_sweep hold_sleep in q e;
  stops_sweep = λ d u q e. q e;
  locates = λ d payload u q e. located-offline payload u (q e);
  resets = λ d u q e. unfold reset_unit in omega arith;
  goes_offline = λ d u q e. omega arith;
  clears = λ d u q e. unfold clear_lost in q e;
  acks = λ d codes u q e. q e;
  advances = λ d u q e. advance-offline u (q e);
  stamps = λ d u q e. q e;
}
  where
    located-offline :
        (payload : Bytes) (u : PedalUnit)
        → t + reboot_time ≤ u.offline_until
        → t + reboot_time ≤ (located now payload u).offline_until
    located-offline payload u q =
        unfold located in
        elim (Bool-cases (starts_locate payload)) [ inl b ↦ rw b q | inr b ↦ rw b q ]

    advance-offline :
        (u : PedalUnit)
        → t + reboot_time ≤ u.offline_until
        → t + reboot_time ≤ (advance now u).offline_until
    advance-offline u q = unfold advance in swept u.cal
      where
        swept : (o : Option Sweep) → t + reboot_time ≤ (advance_sweep now u o).offline_until
        swept none = unfold advance_sweep in q
        swept (some sweep) = unfold advance_sweep in q

module _ (s : Sim Lane) (t dev : ℕ) (u : PedalUnit) (rest : Bytes) where
  -- The engine takes the frame as a soft reset.
  pub reset_handled :
      IsAwake s t dev u
      → (handle (mbooster_hook t) s (framed 0x01 dev (0x02 ∷ rest))).0.engine
        ≡ (reboot t dev u (arm_heartbeat t s.engine)).0
  unfolding online_unit starts soft_reboot after_hook contains record_frame
  reset_handled h =
      ap (λ (r : Sim Lane × Replies). r.0.engine) (handled_awake s t 0x01 dev u (0x02 ∷ rest) h)

reboot-OfflineUntil :
    (t dev : ℕ) (u : PedalUnit) (lane : Lane)
    → Everywhere (OfflineUntil dev (t + reboot_time)) (reboot t dev u lane).0
reboot-OfflineUntil t dev u lane =
    let k = OfflineUntil-Steady dev t t (omega arith) in
    reboot-of t (OfflineUntil dev (t + reboot_time)) k.goes_offline dev u lane k.loss (
      insert-At dev (λ w. t + reboot_time ≤ w.offline_until) (reset_unit t u) lane.units
        (unfold reset_unit in omega arith))

-- A unit that is offline says nothing.
offline_silent :
    (now dev time : ℕ) (s : Sim Lane) (start n group : ℕ) (body : Bytes)
    → now < time
    → InEngine (OfflineUntil dev time) s
    → (handle (mbooster_hook now) s (start ∷ n ∷ group ∷ dev ∷ body)).1 ≡ ok []
unfolding handle
offline_silent now dev time s start n group body h k =
    let frame = start ∷ n ∷ group ∷ dev ∷ body in
    let u = k.1.0 in
    let away : time ≤ u.offline_until = k.0 dev u k.1.1 refl in
    let off : online now u ≡ false = unfold online in ground arith in
    let hooked = hook_away now (count_frame s) frame group dev (take n body) k.1.1 off in
    elim (Bool-cases (verify frame)) [
      | inl v ↦ rw (v, hooked) (unfold after_hook in refl)
      | inr v ↦ rw v refl
    ]

-- A unit that is awake and is reset by a frame at time `t` answers no frame, valid or not, before
-- 4.6 seconds are over, whatever frames to any unit and polls come between, at times from `t` on,
-- if none of them raises an exception.
pub reset_silences :
    (s : Sim Lane) (t now dev : ℕ) (u : PedalUnit) (rest : Bytes) (events : List Event)
    (start n group : ℕ) (body : Bytes) {later : Sim Lane}
    → IsAwake s t dev u
    → All (λ event. t ≤ time_of event) events
    → lane_run (handle (mbooster_hook t) s (framed 0x01 dev (0x02 ∷ rest))).0 events ≡ ok later
    → now < t + reboot_time
    → (handle (mbooster_hook now) later (start ∷ n ∷ group ∷ dev ∷ body)).1 ≡ ok []
reset_silences s t now dev u rest events start n group body {later} h times run early =
    let W = OfflineUntil dev (t + reboot_time) in
    let start_kept : InEngine W (handle (mbooster_hook t) s (framed 0x01 dev (0x02 ∷ rest))).0 =
      subst (Everywhere W) (sym (reset_handled s t dev u rest h))
        (reboot-OfflineUntil t dev u (arm_heartbeat t s.engine)) in
    offline_silent now dev (t + reboot_time) later start n group body early (
      Ensures-ok (InEngine W) _ (lane_run-InEngine W _ events (events_keep events times) start_kept)
        run)
  where
    events_keep :
        (xs : List Event)
        → All (λ event. t ≤ time_of event) xs
        → All
            (λ event.
              Steady (time_of event) (OfflineUntil dev (t + reboot_time))
              × EventKeeps (OfflineUntil dev (t + reboot_time)) event)
            xs
    events_keep [] k = tt
    events_keep (x ∷ xs) k =
        ((OfflineUntil-Steady dev t (time_of x) k.0, keeps x), events_keep xs k.1)
      where
        frame_keeps : (frame : Bytes) → WritesKeep (OfflineUntil dev (t + reboot_time)) frame
        frame_keeps [] = tt
        frame_keeps (a ∷ []) = tt
        frame_keeps (a ∷ b ∷ []) = tt
        frame_keeps (a ∷ b ∷ c ∷ []) = tt
        frame_keeps (a ∷ b ∷ c ∷ d ∷ bytes) = λ g v q e. q e

        keeps : (event : Event) → EventKeeps (OfflineUntil dev (t + reboot_time)) event
        keeps (arrives at frame) = frame_keeps frame
        keeps (polls at) = tt
