-- ===== src/Mbooster/Grows.antt =====
-- The parts of `poll` add frames behind those that wait, and keep the host's device.
use moza_simulator.Base.Dict.{lookup}
use moza_simulator.Mbooster.Heartbeat.{host_heartbeat}
use moza_simulator.Identity.{Text}
use moza_simulator.Mbooster.Poll.{
  find_chained, boot, poll_boot, report_errors, poll_unit, poll_units, chained_blocks, beaten,
  poll_beat, poll_steps, beat, all_online, report_due, beat_due, advance_lines, startup_lines,
  clear_lines, code_frames, map_line, sort_codes, open_codes,
}
use moza_simulator.Base.{
  ℕ, ℕ-key, Bytes-key, ◌≡◌, [], ◌∙◌, List, Bytes, sym, ◌++◌, Bool-cases, ◌∷◌, append-nil, ap, ◌==◌,
  ◌&&◌, refl, append_assoc, inl, false, some, inr, map, ◌+◌, Bool, if◌then◌else◌, true,
}
use moza_simulator.Base.Raise.{
  Ensures, Ensures-bind, Ensures-ok, require, Ensures-map, Result-cases,
}
use moza_simulator.Mbooster.{
  PedalUnit, Lane, log, log_frames, put_unit, online, chained, host, heartbeat_time,
}

-- The second lane has the frames of the first one and more.
abbrev pub Grows : Lane → Lane → Type 0
Grows lane t =
    (t.host_dev ≡ lane.host_dev) × ((new : List Bytes) × (t.pending ≡ lane.pending ++ new))

pub Grows-refl : (lane : Lane) → Grows lane lane
Grows-refl lane = (refl, ([], sym (append-nil lane.pending)))

pub Grows-trans : (a b c : Lane) → Grows a b → Grows b c → Grows a c
Grows-trans a b c (h, (new, e)) (k, (more, f)) =
    (k ∙ h, (new ++ more, f ∙ ap (◌++ more) e ∙ append_assoc a.pending new more))

pub log-Grows : (dev : ℕ) (lines : List Text) (lane : Lane) → Grows lane (log dev lines lane)
unfolding log
log-Grows dev lines lane = (refl, (log_frames dev lines, refl))

-- As before, from a lane that has the same host's device and the same frames.
abbrev put-Grows : (dev : ℕ) (u : PedalUnit) (lane : Lane) → Grows lane (put_unit dev u lane)
put-Grows dev u lane = (refl, ([], sym (append-nil lane.pending)))

find_chained-Grows : (now : ℕ) (lane : Lane) → Ensures (Grows lane) (find_chained now lane)
unfolding find_chained
find_chained-Grows now lane = elim (Bool-cases (all_online now (chained lane))) [
  | inl e ↦
      rw e (Ensures-bind (Grows lane) (host lane) _ λ g f. log-Grows lane.host_dev clear_lines lane)
  | inr e ↦ rw e (Grows-refl lane)
]

boot-Grows : (now : ℕ) (u : PedalUnit) (lane : Lane) → Ensures (Grows lane) (boot now u lane)
unfolding boot
boot-Grows now u lane = elim (Bool-cases (u.dev == lane.host_dev)) [
  | inl e ↦ rw e (log-Grows u.dev startup_lines lane)
  | inr e ↦ elim (Result-cases (find_chained now lane)) [
    | inl (t, f) ↦
        let map_lines = map (map_line u) (0 ∷ 1 ∷ 2 ∷ []) in
        let found = Ensures-ok (Grows lane) _ (find_chained-Grows now lane) f in
        let mapped = log u.dev map_lines t in
        rw (e, f, boot)
          (Grows-trans lane mapped (log u.dev startup_lines mapped)
            (Grows-trans lane t mapped found (log-Grows u.dev map_lines t))
            (log-Grows u.dev startup_lines mapped))
    | inr (x, f) ↦ rw (e, f, boot) tt
  ]
]

pub poll_boot-Grows :
    (now dev : ℕ) (u : PedalUnit) (lane : Lane) → Ensures (Grows lane) (poll_boot now dev u lane)
unfolding poll_boot
poll_boot-Grows now dev u lane = elim (Bool-cases (u.boot_due && online now u)) [
  | inl e ↦ let v = record u { boot_due = false } in rw e (boot-Grows now v (put_unit dev v lane))
  | inr e ↦ rw e (Grows-refl lane)
]

pub report_errors-Grows :
    (now dev : ℕ) (u : PedalUnit) (lane : Lane)
    → Ensures (Grows lane) (report_errors now dev u lane)
unfolding report_errors
report_errors-Grows now dev u lane = elim (Bool-cases (report_due now u)) [
  | inl e ↦ elim (Result-cases (code_frames u.dev (sort_codes (open_codes u)))) [
    | inl (frames, f) ↦ rw (e, f, report_errors) (refl, (frames, refl))
    | inr (x, f) ↦ rw (e, f, report_errors) tt
  ]
  | inr e ↦ rw e (Grows-refl lane)
]

pub poll_unit-Grows : (now dev : ℕ) (lane : Lane) → Ensures (Grows lane) (poll_unit now dev lane)
unfolding poll_unit poll_steps
poll_unit-Grows now dev lane = Ensures-bind (Grows lane) (require (lookup dev lane.units)) _ λ u e.
    Ensures-bind (Grows lane) (poll_boot now dev u lane) _ λ booted f.
      let first = Ensures-ok (Grows lane) _ (poll_boot-Grows now dev u lane) f in
      Ensures-bind (Grows lane) (require (lookup dev booted.units)) _ λ v g.
        let swept = poll_steps now dev v booted in
        Ensures-bind (Grows lane) (require (lookup dev swept.units)) _ λ w i.
          Ensures-map (Grows swept) (Grows lane) (report_errors now dev w swept)
            (λ t.
              Grows-trans lane swept t (
                Grows-trans lane booted swept first (log-Grows v.dev (advance_lines now v) booted)))
            (report_errors-Grows now dev w swept)

pub poll_units-Grows :
    (now : ℕ) (devs : List ℕ) (lane : Lane) → Ensures (Grows lane) (poll_units now devs lane)
unfolding poll_units
poll_units-Grows now [] lane = Grows-refl lane
poll_units-Grows now (dev ∷ devs) lane =
    Ensures-bind (Grows lane) (poll_unit now dev lane) _ λ next e.
      let first = Ensures-ok (Grows lane) _ (poll_unit-Grows now dev lane) e in
      Ensures-map (Grows next) (Grows lane) (poll_units now devs next)
        (λ t. Grows-trans lane next t first) (poll_units-Grows now devs next)

if-Grows : (c : Bool) (a b : Lane) → Grows b a → Grows b (if c then a else b)
if-Grows true a b g = g
if-Grows false a b g = Grows-refl b

chained_blocks-Grows :
    (now : ℕ) (units : List PedalUnit) (lane : Lane) → Grows lane (chained_blocks now units lane)
unfolding chained_blocks
chained_blocks-Grows now [] lane = Grows-refl lane
chained_blocks-Grows now (c ∷ units) lane =
    let block = log c.dev c.heartbeat lane in
    let next = if online now c then block else lane in
    Grows-trans lane next (chained_blocks now units next)
      (if-Grows (online now c) block lane (log-Grows c.dev c.heartbeat lane))
      (chained_blocks-Grows now units next)

beaten-Grows : (now : ℕ) (lane : Lane) (h : PedalUnit) → Grows lane (beaten now lane h)
unfolding beaten
beaten-Grows now lane h =
    let lines = host_heartbeat now lane.passive (chained lane) h in
    let block = log lane.host_dev lines lane in
    let next = if online now h then block else lane in
    Grows-trans lane next (chained_blocks now (chained lane) next)
      (if-Grows (online now h) block lane (log-Grows lane.host_dev lines lane))
      (chained_blocks-Grows now (chained lane) next)

pub poll_beat-Grows : (now : ℕ) (lane : Lane) → Ensures (Grows lane) (poll_beat now lane)
unfolding poll_beat beat
poll_beat-Grows now lane = elim (Bool-cases (beat_due now lane.next_heartbeat)) [
  | inl e ↦
      let next = record lane { next_heartbeat = some (now + heartbeat_time) } in
      rw e (Ensures-bind (Grows lane) (host next) _ λ h f. beaten-Grows now next h)
  | inr e ↦ rw e (Grows-refl lane)
]
