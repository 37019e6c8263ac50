-- ===== src/Mbooster/Runs.antt =====
-- The engine of a lane over a run of frames and polls.
use moza_simulator.Base.{
  ℕ, ℕ-key, Bytes-key, pair-key, Bytes, List, ◌≡◌, ◌∷◌, Option, Bool-cases, All, take, Option-cases,
  [], inl, some, inr, none, drop, get_or,
}
use moza_simulator.Base.Raise.{
  Result, map_result, ok, ◌>>=◌, Ensures, Result-cases, Ensures-ok, Ensures-bind,
}
use moza_simulator.Base.Dict.{lookup}
use moza_simulator.Mbooster.SteadyPoll.{poll-Everywhere}
use moza_simulator.Standalone.Outcome.{
  Outcome, handle_generic-Outcome, silent, acknowledged, identified, wrote, read, absorbed,
  unhandled,
}
use moza_simulator.Mbooster.Poll.{poll}
use moza_simulator.Wire.{verify}
use moza_simulator.Mbooster.Cases.{Handles, claimed_unit-holds}
use moza_simulator.Mbooster.Dispatch.{
  mbooster_hook, with_lane, error_ack, arm_heartbeat, write_register, calibrate, calibrate_motor,
  soft_reboot,
}
use moza_simulator.Mbooster.Watch.{Everywhere, write_unit, Kept-insert, Kept-at, Watch}
use moza_simulator.Mbooster.Steady.{
  Steady, calibration-Everywhere, motor_cal-Everywhere, reboot-Everywhere,
}
use moza_simulator.Standalone.{
  Sim, handle, record_frame, after_hook, record_unhandled, Replies, count_frame, store_setting,
}
use moza_simulator.Mbooster.{PedalUnit, Lane, add_code, from_bytes}

-- A turn of the serial loop at a time of the clock.
pub data Event : Type 0 where
  arrives : ℕ → Bytes → Event
  polls : ℕ → Event

abbrev pub time_of : Event → ℕ
time_of (arrives now frame) = now
time_of (polls now) = now

-- The frames that go out are dropped; an exception ends the loop.
unfoldable pub lane_step : Sim Lane → Event → Result (Sim Lane)
lane_step s (arrives now frame) =
    map_result (λ replies. (handle (mbooster_hook now) s frame).0)
      (handle (mbooster_hook now) s frame).1
lane_step s (polls now) = map_result (λ r. with_lane r.0 s) (poll now s.engine)

unfoldable pub lane_run : Sim Lane → List Event → Result (Sim Lane)
unfolding lane_step
lane_run s [] = ok s
lane_run s (event ∷ events) = lane_step s event >>= λ t. lane_run t events

-- The writes to registers that a frame makes keep the predicate.
abbrev pub WritesKeep : Watch → Bytes → Type 0
WritesKeep P (start ∷ n ∷ group ∷ device ∷ body) =
    group ≡ 0x24 → (u : PedalUnit) → P.holds device u → P.holds device (write_unit (take n body) u)
WritesKeep P _ = Unit

abbrev pub EventKeeps : Watch → Event → Type 0
EventKeeps P (arrives now frame) = WritesKeep P frame
EventKeeps P (polls now) = Unit

module _ (P : Watch) where
  abbrev pub InEngine : Sim Lane → Type 0
  InEngine s = Everywhere P s.engine

  module _ (s : Sim Lane) (frame : Bytes) (group device : ℕ) (payload : Bytes) where
    store_setting-InEngine : (value : Bytes) → InEngine s → InEngine (store_setting device value s)
    unfolding store_setting
    store_setting-InEngine [] h = h
    store_setting-InEngine (cmd ∷ value) h = h

    Outcome-InEngine :
        (r : Sim Lane × Replies)
        → Outcome s frame group device payload r
        → InEngine s
        → InEngine r.0
    unfolding record_frame record_unhandled
    Outcome-InEngine r (silent e) h = rw e h
    Outcome-InEngine r (acknowledged tag body p e) h = rw e h
    Outcome-InEngine r (identified idr p e) h = rw e h
    Outcome-InEngine r (wrote e) h = rw e (store_setting-InEngine payload h)
    Outcome-InEngine r (read cmd e) h = rw e h
    Outcome-InEngine r (absorbed e) h = rw e h
    Outcome-InEngine r (unhandled e) h = rw e h

    after_hook-InEngine :
        (o : Option Replies)
        → InEngine s
        → InEngine (after_hook frame group device payload (s, o)).0
    unfolding after_hook
    after_hook-InEngine none h =
        Outcome-InEngine _ (handle_generic-Outcome s frame group device payload) h
    after_hook-InEngine (some replies) h = h

module _ (now : ℕ) (P : Watch) (k : Steady now P) where
  module _ (s : Sim Lane) (frame : Bytes) (group device : ℕ) (payload : Bytes) (u : PedalUnit) where
    handles_all :
        InEngine P s
        → P.holds device u
        → (group ≡ 0x24 → P.holds device (write_unit payload u))
        → Handles (λ r. InEngine P r.0) now s frame group device payload u
    handles_all h q w = record {
      recorded = λ tag. unfold record_frame in h;
      answered = λ tag body. unfold record_frame in h;
      unknown = unfold record_unhandled in h;
      acks = λ g.
          unfold error_ack record_frame in
          Kept-insert P device _ s.engine.units
            (k.acks device (add_code (from_bytes (take 2 (drop 1 payload))) u.acked) u q) h;
      writes = λ g e.
          unfold write_register record_frame in
          rw e (Kept-insert P device _ s.engine.units (w g) h);
      calibrates = λ g.
          unfold calibrate record_frame in
          calibration-Everywhere now P k (get_or payload 0 0) device u s.engine q h;
      locates = λ g.
          unfold calibrate_motor record_frame in
          motor_cal-Everywhere now P k payload device u s.engine q h;
      reboots =
          λ g. unfold soft_reboot record_frame in reboot-Everywhere now P k device u s.engine q h;
      passes = h;
    }

  hook-InEngine :
      (s : Sim Lane) (frame : Bytes) (group device : ℕ) (payload : Bytes)
      → InEngine P s
      → (group ≡ 0x24 → (u : PedalUnit) → P.holds device u → P.holds device (write_unit payload u))
      → InEngine P (mbooster_hook now s frame group device payload).0
  unfolding mbooster_hook
  hook-InEngine s frame group device payload h w =
      elim (Option-cases (lookup device s.engine.units)) [
        | inl e ↦ rw (e, mbooster_hook) h
        | inr (u, e) ↦
            let q : P.holds device u = Kept-at P device s.engine.units h e in
            let armed = with_lane (arm_heartbeat now s.engine) s in
            let ha : InEngine P armed = unfold arm_heartbeat in h in
            rw (e, mbooster_hook)
              (claimed_unit-holds (λ r. InEngine P r.0) now armed frame group device payload u
                (handles_all armed frame group device payload u ha q (λ g. w g u q)))
      ]

  handle-InEngine :
      (s : Sim Lane) (frame : Bytes)
      → InEngine P s
      → WritesKeep P frame
      → InEngine P (handle (mbooster_hook now) s frame).0
  unfolding handle
  handle-InEngine s [] h w = h
  handle-InEngine s (start ∷ []) h w = h
  handle-InEngine s (start ∷ n ∷ []) h w = h
  handle-InEngine s (start ∷ n ∷ group ∷ []) h w = h
  handle-InEngine s (start ∷ n ∷ group ∷ device ∷ body) h w =
      elim (Bool-cases (verify (start ∷ n ∷ group ∷ device ∷ body))) [
        | inl v ↦ rw v (
            let r =
              mbooster_hook now (count_frame s) (start ∷ n ∷ group ∷ device ∷ body) group device
                (take n body) in
            after_hook-InEngine P r.0 _ group device (take n body) r.1
              (hook-InEngine (count_frame s) _ group device (take n body) h w))
        | inr v ↦ rw v h
      ]

-- A run keeps what each of its events keeps.
pub lane_run-InEngine :
    (P : Watch) (s : Sim Lane) (events : List Event)
    → All (λ event. Steady (time_of event) P × EventKeeps P event) events
    → InEngine P s
    → Ensures (InEngine P) (lane_run s events)
unfolding lane_run
lane_run-InEngine P s [] k h = h
lane_run-InEngine P s (event ∷ events) k h =
    Ensures-bind (InEngine P) (lane_step s event) _
      λ t e. lane_run-InEngine P t events k.1 (Ensures-ok (InEngine P) _ (stepped event k.0) e)
  where
    stepped :
        (x : Event) → Steady (time_of x) P × EventKeeps P x → Ensures (InEngine P) (lane_step s x)
    stepped (arrives now frame) k =
        unfold lane_step in
        elim (Result-cases (handle (mbooster_hook now) s frame).1) [
          | inl (replies, e) ↦ rw e (handle-InEngine now P k.0 s frame h k.1)
          | inr (x, e) ↦ rw e tt
        ]
    stepped (polls now) k =
        unfold lane_step in
        elim (Result-cases (poll now s.engine)) [
          | inl (r, e) ↦
              rw e (Ensures-ok (λ r. Everywhere P r.0) _ (poll-Everywhere now P s.engine k.0 h) e)
          | inr (x, e) ↦ rw e tt
        ]
