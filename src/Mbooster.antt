-- ===== src/Mbooster.antt =====
-- sim/engines/mbooster.py: the mBooster lane, a `StandaloneSimulator` whose hook answers for a host
-- unit and its chained units. The clock is a number of milliseconds, and a text the list of its code
-- points. A set of codes is a list; a unit is read from and written back to the dictionary of units.
pub mod Texts
pub mod Build
pub mod Calibration
pub mod Reboot
pub mod Heartbeat
pub mod Poll
pub mod Watch
pub mod Steady
pub mod Cases
pub mod Answers
pub mod Grows
pub mod Prints
pub mod SteadyPoll
pub mod Runs
pub mod Awake
pub mod Silent
pub mod Sweeps
pub mod Registers
pub mod Lines
pub mod Delivers
pub mod Settles
pub mod PollReturns
pub mod Sleep
pub mod Dispatch
use moza_simulator.Base.{
  ℕ, List, Bytes, Bool, Option, ◌∷◌, leb, none, map, ◌++◌, if◌then◌else◌, some, [], ◌&&◌, ◌*◌, ◌+◌,
  not, ltb, ◌==◌, length, ◌-◌, take, drop, ℕ-key, Bytes-key,
}
use moza_simulator.Base.Dict.{Dict, insert, lookup}
use moza_simulator.Base.Raise.{Result, require}
use moza_simulator.Wire.{framed, swap_nibbles}
use moza_simulator.Session.{split_chunks}
use moza_simulator.Standalone.{contains, is_empty}
use moza_simulator.Profile.Devices.{text}
use moza_simulator.Identity.{Text, get_else}

abbrev pub role_letters : Text
role_letters = text "TBC"

abbrev pub role_names : List Text
role_names = text "Throttle" ∷ text "Brake" ∷ text "Clutch" ∷ []

abbrev pub cal_start : List ℕ
cal_start = 12 ∷ 13 ∷ 14 ∷ []

abbrev pub cal_stop : List ℕ
cal_stop = 16 ∷ 17 ∷ 18 ∷ []

abbrev pub motor_channel : ℕ
motor_channel = 1

abbrev pub identity_groups : List ℕ
identity_groups = 0x02 ∷ 0x04 ∷ 0x05 ∷ 0x06 ∷ 0x07 ∷ 0x08 ∷ 0x09 ∷ 0x0F ∷ 0x10 ∷ 0x11 ∷ []

abbrev pub selector_cmds : List ℕ
selector_cmds = 0xAB ∷ 0xB2 ∷ 0xAE ∷ 0xAD ∷ []

abbrev pub motor_cmd : ℕ
motor_cmd = 0xB1

-- The durations, in milliseconds.
abbrev pub reboot_time : ℕ
reboot_time = 4600

abbrev pub heartbeat_time : ℕ
heartbeat_time = 60000

abbrev pub locate_time : ℕ
locate_time = 59500

abbrev pub error_report_time : ℕ
error_report_time = 1000

abbrev pub param_unset : Bytes
param_unset = 0x00 ∷ 0x00 ∷ 0x80 ∷ 0x00 ∷ []

abbrev pub err_chained_offline : ℕ
err_chained_offline = 40

abbrev pub text_chunk : ℕ
text_chunk = 60

-- A running travel calibration: the steps still to print, each with the time after its start.
pub record Sweep : Type 0 where
  pub succeeds : Bool
  pub t0 : ℕ
  pub steps : List (ℕ × Text)

-- `Unit`
pub record PedalUnit : Type 0 where
  pub dev : ℕ
  pub default_role : ℕ
  pub identity : Dict (ℕ × Bytes) Bytes
  pub regs : Dict Bytes Bytes
  pub params : Dict Bytes Bytes
  pub heartbeat : List Text
  pub errors : List ℕ
  pub acked : List ℕ
  pub offline_until : ℕ
  pub cal : Option Sweep
  pub locate_started : ℕ
  pub last_error_report : ℕ
  pub boot_due : Bool
  pub sleep_before_cal : Option Bytes

-- What `MBoosterSimulator` adds to the state of the engine.
pub record Lane : Type 0 where
  pub host_dev : ℕ
  pub passive : List ℕ
  pub units : Dict ℕ PedalUnit
  pub pending : List Bytes
  pub next_heartbeat : Option ℕ

-- `_reg_key`
unfoldable pub reg_key : Bytes → Bytes × Bytes
unfolding contains
reg_key [] = ([], [])
reg_key (p ∷ rest) =
    if contains p selector_cmds && leb 3 (length (p ∷ rest))
    then (take 3 (p ∷ rest), drop 3 (p ∷ rest))
    else (p ∷ [], rest)

-- `int.from_bytes(bs, "big")`
unfoldable pub from_bytes_on : ℕ → Bytes → ℕ
from_bytes_on acc [] = acc
from_bytes_on acc (b ∷ bs) = from_bytes_on (acc * 256 + b) bs

abbrev pub from_bytes : Bytes → ℕ
from_bytes = from_bytes_on 0

unfoldable pub online : ℕ → PedalUnit → Bool
online now u = leb u.offline_until now

-- `int.from_bytes(v, "big") - 1` where a register holds a role from 1 to 3.
unfoldable pub role_in : Option Bytes → Option ℕ
unfolding from_bytes_on
role_in none = none
role_in (some v) =
    if leb 1 (from_bytes v) && leb (from_bytes v) 3 then some (from_bytes v - 1) else none

-- The register 0x21, 0x22 or 0x23 of a channel.
abbrev pub channel_reg : ℕ → PedalUnit → Option Bytes
channel_reg c u = lookup ((0x21 + c) ∷ []) u.regs

unfoldable pub role : PedalUnit → ℕ
unfolding role_in
role u = get_else (role_in (channel_reg 1 u)) u.default_role

-- `_channel_for_role`, from a channel on.
unfoldable pub channel_from : List ℕ → PedalUnit → ℕ → Option ℕ
unfolding from_bytes_on
channel_from [] u r = none
channel_from (c ∷ cs) u r =
    let rest = channel_from cs u r in
    elim (channel_reg c u) [
      | none ↦ rest
      | some v ↦ if not (is_empty v) && (from_bytes v == r + 1) then some c else rest
    ]

unfoldable pub channel_for_role : PedalUnit → ℕ → Option ℕ
unfolding channel_from
channel_for_role u r = channel_from (0 ∷ 1 ∷ 2 ∷ []) u r

-- `encode("latin-1", errors="replace")`
unfoldable pub latin1 : Text → Bytes
latin1 = map (λ c. if ltb c 256 then c else 63)

-- The frames of a text line: the payload is 05 and a piece of the line with its line end.
unfoldable pub line_frames : ℕ → Text → List Bytes
unfolding latin1 split_chunks
line_frames dev ln =
    let txt = latin1 (ln ++ 10 ∷ []) in
    map (λ piece. framed 0x0E (swap_nibbles dev) (0x05 ∷ piece))
      (split_chunks (length txt) text_chunk txt)

unfoldable pub log_frames : ℕ → List Text → List Bytes
unfolding line_frames
log_frames dev [] = []
log_frames dev (ln ∷ lines) = line_frames dev ln ++ log_frames dev lines

-- `_log`; a line's frames have at most 61 payload bytes, so that `build_frame` does not raise.
unfoldable pub log : ℕ → List Text → Lane → Lane
unfolding log_frames
log dev lines lane = record lane { pending = lane.pending ++ log_frames dev lines }

-- `host`
unfoldable pub host : Lane → Result PedalUnit
host lane = require (lookup lane.host_dev lane.units)

abbrev pub put_unit : ℕ → PedalUnit → Lane → Lane
put_unit dev u lane = record lane { units = insert dev u lane.units }

-- `_chained`
unfoldable pub chained_in : ℕ → Dict ℕ PedalUnit → List PedalUnit
chained_in host_dev [] = []
chained_in host_dev ((d, u) ∷ units) =
    let rest = chained_in host_dev units in if d == host_dev then rest else u ∷ rest

unfoldable pub chained : Lane → List PedalUnit
unfolding chained_in
chained lane = chained_in lane.host_dev lane.units

-- `set.add` and `set.discard`
unfoldable pub add_code : ℕ → List ℕ → List ℕ
unfolding contains
add_code code codes = if contains code codes then codes else codes ++ code ∷ []

unfoldable pub discard_code : ℕ → List ℕ → List ℕ
discard_code code [] = []
discard_code code (c ∷ codes) =
    let rest = discard_code code codes in if c == code then rest else c ∷ rest
