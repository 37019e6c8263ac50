-- ===== src/Mbooster/Poll.antt =====
-- sim/engines/mbooster.py: `poll` and `_boot`, the frames that the units send unprompted.
use moza_simulator.Base.{
  ℕ, ℕ-key, Bytes-key, List, Option, Bool, if◌then◌else◌, ◌∷◌, Bytes, map, true, ◌++◌, [], ◌==◌,
  leb, ltb, ◌&&◌, false, some, ◌+◌, not, none, ◌/◌, ◌%◌,
}
use moza_simulator.Base.Dict.{Dict, lookup}
use moza_simulator.Base.Raise.{Result, ok, ◌>>=◌, map_result, require, err, overflow_error}
use moza_simulator.Wire.{build_frame, swap_nibbles}
use moza_simulator.Mbooster.Heartbeat.{host_heartbeat}
use moza_simulator.Identity.{Text, get_else}
use moza_simulator.Standalone.{contains, is_empty}
use moza_simulator.Mbooster.Texts.{decimal}
use moza_simulator.Profile.Devices.{text}
use moza_simulator.Mbooster.{
  PedalUnit, online, discard_code, chained, log, Lane, host, from_bytes_on, err_chained_offline,
  put_unit, from_bytes, heartbeat_time, error_report_time, channel_reg, Sweep,
}

-- `all(c.online(now) for c in units)`
unfoldable pub all_online : ℕ → List PedalUnit → Bool
unfolding online
all_online now [] = true
all_online now (u ∷ units) = online now u && all_online now units

-- The line that the parameter 44, 45 or 46 of the map is written.
unfoldable pub map_line : PedalUnit → ℕ → Text
unfolding decimal from_bytes_on
map_line u c =
    text "[INFO]param_manage.c:340 Table 6, Param "
    ++ decimal (44 + c)
    ++ text " Written: "
    ++ decimal (from_bytes (get_else (channel_reg c u) (0x00 ∷ 0x00 ∷ [])))
    ++ text " 0.00000"

unfoldable pub clear_lost : PedalUnit → PedalUnit
unfolding discard_code
clear_lost h = record h { errors = discard_code err_chained_offline h.errors }

abbrev pub clear_lines : List Text
clear_lines = text "[INFO]diag_svr_event.c:108 error_code 40 clear" ∷ []

-- The host clears the error of a lost unit once all chained units are back.
unfoldable pub find_chained : ℕ → Lane → Result Lane
unfolding chained all_online host clear_lost log
find_chained now lane =
    if all_online now (chained lane)
    then (do
      h ← host lane
      ok (put_unit lane.host_dev (clear_lost h) (log lane.host_dev clear_lines lane)))
    else ok lane

abbrev pub startup_lines : List Text
startup_lines = text "[INFO]motor_wrapper.c:58 Motor StartupCheck Success" ∷ []

-- `_boot`
unfoldable pub boot : ℕ → PedalUnit → Lane → Result Lane
unfolding find_chained log map_line
boot now u lane =
    if u.dev == lane.host_dev
    then ok (log u.dev startup_lines lane)
    else map_result
        (λ found. log u.dev startup_lines (log u.dev (map (map_line u) (0 ∷ 1 ∷ 2 ∷ [])) found))
        (find_chained now lane)

-- The steps of a calibration that are due, and those that are left.
unfoldable pub due_steps : ℕ → ℕ → List (ℕ × Text) → List Text × List (ℕ × Text)
due_steps now t0 [] = ([], [])
due_steps now t0 ((after, ln) ∷ steps) =
    let (lines, left) = due_steps now t0 steps in
    if leb (t0 + after) now then (ln ∷ lines, left) else ([], (after, ln) ∷ steps)

-- The unit after the steps that are due.
unfoldable pub advance_sweep : ℕ → PedalUnit → Option Sweep → PedalUnit
unfolding due_steps
advance_sweep now u none = u
advance_sweep now u (some sweep) = record u {
  cal = some (record sweep { steps = (due_steps now sweep.t0 sweep.steps).1 });
}

unfoldable pub advance : ℕ → PedalUnit → PedalUnit
unfolding advance_sweep
advance now u = advance_sweep now u u.cal

unfoldable pub sweep_lines : ℕ → Option Sweep → List Text
unfolding due_steps
sweep_lines now none = []
sweep_lines now (some sweep) = (due_steps now sweep.t0 sweep.steps).0

unfoldable pub advance_lines : ℕ → PedalUnit → List Text
unfolding sweep_lines
advance_lines now u = sweep_lines now u.cal

-- `u.errors - u.acked`
unfoldable pub codes_without : List ℕ → List ℕ → List ℕ
unfolding contains
codes_without acked [] = []
codes_without acked (c ∷ codes) =
    let rest = codes_without acked codes in if contains c acked then rest else c ∷ rest

unfoldable pub open_codes : PedalUnit → List ℕ
unfolding codes_without
open_codes u = codes_without u.acked u.errors

-- `sorted` on codes
unfoldable pub place_code : ℕ → List ℕ → List ℕ
place_code c [] = c ∷ []
place_code c (d ∷ codes) =
    let rest = place_code c codes in if leb c d then c ∷ d ∷ codes else d ∷ rest

unfoldable pub sort_codes : List ℕ → List ℕ
unfolding place_code
sort_codes [] = []
sort_codes (c ∷ codes) = place_code c (sort_codes codes)

-- A report of an active error; `code.to_bytes(2, "big")` raises `OverflowError` on a larger code.
unfoldable pub code_frame : ℕ → ℕ → Result Bytes
code_frame dev code =
    if ltb code 65536
    then build_frame 0x0E (swap_nibbles dev) (0x03 ∷ code / 256 ∷ code % 256 ∷ 0x00 ∷ 0x01 ∷ [])
    else err overflow_error

unfoldable pub code_frames : ℕ → List ℕ → Result (List Bytes)
unfolding code_frame
code_frames dev [] = ok []
code_frames dev (c ∷ codes) = do
  frame ← code_frame dev c
  frames ← code_frames dev codes
  ok (frame ∷ frames)

-- The unit has an error to report, and its last report is a second old.
unfoldable pub report_due : ℕ → PedalUnit → Bool
unfolding online open_codes
report_due now u =
    online now u
    && not (is_empty (open_codes u))
    && leb (u.last_error_report + error_report_time) now

abbrev pub stamp_report : ℕ → PedalUnit → PedalUnit
stamp_report now u = record u { last_error_report = now }

unfoldable pub report_errors : ℕ → ℕ → PedalUnit → Lane → Result Lane
unfolding report_due sort_codes code_frames open_codes
report_errors now dev u lane =
    if report_due now u
    then map_result
        (λ frames.
          put_unit dev (stamp_report now u) (record lane { pending = lane.pending ++ frames }))
        (code_frames u.dev (sort_codes (open_codes u)))
    else ok lane

-- The boot lines of a unit that is back online.
unfoldable pub poll_boot : ℕ → ℕ → PedalUnit → Lane → Result Lane
unfolding online boot
poll_boot now dev u lane =
    if u.boot_due && online now u
    then (let v = record u { boot_due = false } in boot now v (put_unit dev v lane))
    else ok lane

unfoldable pub poll_steps : ℕ → ℕ → PedalUnit → Lane → Lane
unfolding advance advance_lines log
poll_steps now dev u lane = put_unit dev (advance now u) (log u.dev (advance_lines now u) lane)

-- One unit in `poll`. Each part reads the unit again, since the one before may have changed it.
unfoldable pub poll_unit : ℕ → ℕ → Lane → Result Lane
unfolding poll_boot poll_steps report_errors
poll_unit now dev lane = do
  u ← require (lookup dev lane.units)
  booted ← poll_boot now dev u lane
  v ← require (lookup dev booted.units)
  let swept = poll_steps now dev v booted
  w ← require (lookup dev swept.units)
  report_errors now dev w swept

unfoldable pub poll_units : ℕ → List ℕ → Lane → Result Lane
unfolding poll_unit
poll_units now [] lane = ok lane
poll_units now (dev ∷ devs) lane = poll_unit now dev lane >>= λ next. poll_units now devs next

-- The block of each chained unit that is online.
unfoldable pub chained_blocks : ℕ → List PedalUnit → Lane → Lane
unfolding online log
chained_blocks now [] lane = lane
chained_blocks now (c ∷ units) lane =
    chained_blocks now units (if online now c then log c.dev c.heartbeat lane else lane)

-- The blocks of the host `h` and of the chained units.
unfoldable pub beaten : ℕ → Lane → PedalUnit → Lane
unfolding online log chained chained_blocks
beaten now lane h = chained_blocks now (chained lane) (
    if online now h
    then log lane.host_dev (host_heartbeat now lane.passive (chained lane) h) lane
    else lane)

unfoldable pub beat : ℕ → Lane → Result Lane
unfolding host beaten
beat now lane = do h ← host lane; ok (beaten now lane h)

unfoldable pub beat_due : ℕ → Option ℕ → Bool
beat_due now none = false
beat_due now (some next) = leb next now

unfoldable pub poll_beat : ℕ → Lane → Result Lane
unfolding beat_due beat
poll_beat now lane =
    if beat_due now lane.next_heartbeat
    then beat now (record lane { next_heartbeat = some (now + heartbeat_time) })
    else ok lane

abbrev pub devices : Dict ℕ PedalUnit → List ℕ
devices = map (λ (e : ℕ × PedalUnit). e.0)

-- `poll`: the new lane and the frames to send.
unfoldable pub poll : ℕ → Lane → Result (Lane × List Bytes)
unfolding poll_units poll_beat
poll now lane = do
  polled ← poll_units now (devices lane.units) lane
  done ← poll_beat now polled
  ok (record done { pending = [] }, done.pending)
