-- ===== src/Mbooster/SteadyPoll.antt =====
-- `poll` keeps what is kept of the units.
use moza_simulator.Base.{
  ℕ, ℕ-key, Bytes-key, pair-key, List, Bool-cases, ◌∷◌, ◌≡◌, ◌==◌, ◌&&◌, [], subst, refl, inl,
  false, inr, sym, Bool, if◌then◌else◌, ◌∙◌, some, true, ◌+◌,
}
use moza_simulator.Base.Raise.{Ensures, Ensures-bind, require, Ensures-ok, Result-cases, required}
use moza_simulator.Base.Dict.{lookup}
use moza_simulator.Mbooster.Heartbeat.{host_heartbeat}
use moza_simulator.Mbooster.Poll.{
  chained_blocks, beat, poll_beat, poll, find_chained, boot, poll_boot, report_errors, poll_unit,
  poll_units, poll_steps, all_online, report_due, devices, code_frames, sort_codes, open_codes,
  beat_due, clear_lost, advance, stamp_report,
}
use moza_simulator.Mbooster.Watch.{Everywhere, Kept-insert, Kept-at, host_found, Watch, Kept}
use moza_simulator.Mbooster.Steady.{Steady}
use moza_simulator.Mbooster.{PedalUnit, log, Lane, chained, online, host, put_unit, heartbeat_time}

-- What polls do to a unit, but for the steps of a calibration, keeps the predicate.
pub record PollQuiet (now : ℕ) (P : Watch) : Type 0 where
  pub clears : (d : ℕ) (u : PedalUnit) → P.holds d u → P.holds d (clear_lost u)
  pub wakes : (d : ℕ) (u : PedalUnit) → P.holds d u → P.holds d (record u { boot_due = false })
  pub stamps : (d : ℕ) (u : PedalUnit) → P.holds d u → P.holds d (stamp_report now u)

-- What polls do to a unit keeps the predicate.
pub record PollSteady (now : ℕ) (P : Watch) : Type 0 where
  pub clears : (d : ℕ) (u : PedalUnit) → P.holds d u → P.holds d (clear_lost u)
  pub wakes : (d : ℕ) (u : PedalUnit) → P.holds d u → P.holds d (record u { boot_due = false })
  pub advances : (d : ℕ) (u : PedalUnit) → P.holds d u → P.holds d (advance now u)
  pub stamps : (d : ℕ) (u : PedalUnit) → P.holds d u → P.holds d (stamp_report now u)

pub quiet : {now : ℕ} {P : Watch} → PollSteady now P → PollQuiet now P
quiet k = record { clears = k.clears; wakes = k.wakes; stamps = k.stamps }

pub Steady-PollSteady : {now : ℕ} {P : Watch} → Steady now P → PollSteady now P
Steady-PollSteady k = record {
  clears = k.clears;
  wakes = λ d u. k.loss.boots d false u;
  advances = k.advances;
  stamps = k.stamps;
}

module _ (now : ℕ) (P : Watch) (k : PollQuiet now P) where
  find_chained-Everywhere :
      (lane : Lane) → Everywhere P lane → Ensures (Everywhere P) (find_chained now lane)
  unfolding find_chained log
  find_chained-Everywhere lane h = elim (Bool-cases (all_online now (chained lane))) [
    | inl e ↦ rw e (
        Ensures-bind (Everywhere P) (host lane) _ λ g f.
          Kept-insert P lane.host_dev _ lane.units
            (k.clears lane.host_dev g (Kept-at P lane.host_dev lane.units h (host_found lane f))) h)
    | inr e ↦ rw e h
  ]

  pub boot-Everywhere :
      (u : PedalUnit) (lane : Lane) → Everywhere P lane → Ensures (Everywhere P) (boot now u lane)
  unfolding boot log
  boot-Everywhere u lane h = elim (Bool-cases (u.dev == lane.host_dev)) [
    | inl e ↦ rw e h
    | inr e ↦ elim (Result-cases (find_chained now lane)) [
      | inl (t, f) ↦
          rw (e, f, boot) (Ensures-ok (Everywhere P) _ (find_chained-Everywhere lane h) f)
      | inr (x, f) ↦ rw (e, f, boot) tt
    ]
  ]

  pub poll_boot-Everywhere :
      (dev : ℕ) (u : PedalUnit) (lane : Lane)
      → P.holds dev u
      → Everywhere P lane
      → Ensures (Everywhere P) (poll_boot now dev u lane)
  unfolding poll_boot
  poll_boot-Everywhere dev u lane q h = elim (Bool-cases (u.boot_due && online now u)) [
    | inl e ↦ rw e (
        boot-Everywhere (record u { boot_due = false })
          (put_unit dev (record u { boot_due = false }) lane)
          (Kept-insert P dev _ lane.units (k.wakes dev u q) h))
    | inr e ↦ rw e h
  ]

  pub report_errors-Everywhere :
      (dev : ℕ) (u : PedalUnit) (lane : Lane)
      → P.holds dev u
      → Everywhere P lane
      → Ensures (Everywhere P) (report_errors now dev u lane)
  unfolding report_errors
  report_errors-Everywhere dev u lane q h = elim (Bool-cases (report_due now u)) [
    | inl e ↦ elim (Result-cases (code_frames u.dev (sort_codes (open_codes u)))) [
      | inl (frames, f) ↦
          rw (e, f, report_errors) (Kept-insert P dev _ lane.units (k.stamps dev u q) h)
      | inr (x, f) ↦ rw (e, f, report_errors) tt
    ]
    | inr e ↦ rw e h
  ]

  pub poll_unit-Everywhere :
      (dev : ℕ) (lane : Lane)
      → ((u : PedalUnit) → P.holds dev u → P.holds dev (advance now u))
      → Everywhere P lane
      → Ensures (Everywhere P) (poll_unit now dev lane)
  unfolding poll_unit poll_steps log
  poll_unit-Everywhere dev lane advances h =
      Ensures-bind (Everywhere P) (require (lookup dev lane.units)) _ λ u e.
        Ensures-bind (Everywhere P) (poll_boot now dev u lane) _ λ booted f.
          let hb =
            Ensures-ok (Everywhere P) _
              (poll_boot-Everywhere dev u lane (Kept-at P dev lane.units h (required e)) h) f in
          Ensures-bind (Everywhere P) (require (lookup dev booted.units)) _ λ v g.
            let swept = poll_steps now dev v booted in
            let hs : Everywhere P swept =
              Kept-insert P dev _ booted.units
                (advances v (Kept-at P dev booted.units hb (required g))) hb in
            Ensures-bind (Everywhere P) (require (lookup dev swept.units)) _ λ w i.
              report_errors-Everywhere dev w swept (Kept-at P dev swept.units hs (required i)) hs

pub poll_units-Everywhere :
    (now : ℕ) (P : Watch)
    → PollSteady now P
    → (devs : List ℕ) (lane : Lane) → Everywhere P lane
    → Ensures (Everywhere P) (poll_units now devs lane)
unfolding poll_units
poll_units-Everywhere now P k [] lane h = h
poll_units-Everywhere now P k (dev ∷ devs) lane h =
    Ensures-bind (Everywhere P) (poll_unit now dev lane) _ λ next e.
      poll_units-Everywhere now P k devs next (
        Ensures-ok (Everywhere P) _
          (poll_unit-Everywhere now P (quiet k) dev lane (k.advances dev) h) e)

if-units : (c : Bool) (a b : Lane) → a.units ≡ b.units → (if c then a else b).units ≡ b.units
if-units true a b e = e
if-units false a b e = refl

-- The heartbeat changes no unit.
chained_blocks-units :
    (now : ℕ) (units : List PedalUnit) (lane : Lane)
    → (chained_blocks now units lane).units ≡ lane.units
unfolding chained_blocks log
chained_blocks-units now [] lane = refl
chained_blocks-units now (c ∷ units) lane =
    chained_blocks-units now units (if online now c then log c.dev c.heartbeat lane else lane)
    ∙ if-units (online now c) (log c.dev c.heartbeat lane) lane refl

beat-units : (now : ℕ) (lane : Lane) → Ensures (λ t. t.units ≡ lane.units) (beat now lane)
unfolding beat log
beat-units now lane =
    Ensures-bind (λ t. t.units ≡ lane.units) (host lane) _
      λ h e.
        let block = log lane.host_dev (host_heartbeat now lane.passive (chained lane) h) lane in
        chained_blocks-units now (chained lane) (if online now h then block else lane)
        ∙ if-units (online now h) block lane refl

pub poll_beat-units :
    (now : ℕ) (lane : Lane) → Ensures (λ t. t.units ≡ lane.units) (poll_beat now lane)
unfolding poll_beat
poll_beat-units now lane = elim (Bool-cases (beat_due now lane.next_heartbeat)) [
  | inl e ↦ rw e (beat-units now (record lane { next_heartbeat = some (now + heartbeat_time) }))
  | inr e ↦ rw e refl
]

pub poll-Everywhere :
    (now : ℕ) (P : Watch) (lane : Lane)
    → Steady now P
    → Everywhere P lane
    → Ensures (λ r. Everywhere P r.0) (poll now lane)
unfolding poll
poll-Everywhere now P lane k h =
    Ensures-bind (λ r. Everywhere P r.0) (poll_units now (devices lane.units) lane) _
      λ polled e.
        Ensures-bind (λ r. Everywhere P r.0) (poll_beat now polled) _
          λ done f.
            subst (Kept P)
              (sym (Ensures-ok (λ t. t.units ≡ polled.units) _ (poll_beat-units now polled) f))
              (Ensures-ok (Everywhere P) _
                (poll_units-Everywhere now P (Steady-PollSteady k) (devices lane.units) lane h) e)
