-- ===== src/Tests/Mbooster.antt =====
-- The mBooster lane of two units, a host 0x12 and a chained unit 0x1D, at frames of its self-test.
use moza_simulator.Mbooster.Delivers.{Fits}
use moza_simulator.Base.{
  ℕ, ℕ-key, Bytes-key, String-key, pair-key, List, [], ◌∷◌, arith, none, ◌≡◌, some, refl, All,
  if◌then◌else◌, ◌++◌, true, Bytes,
}
use moza_simulator.Base.Raise.{ok, get_ok}
use moza_simulator.Base.Dict.{Dict, lookup, insert, update, AllValues-lookup}
use moza_simulator.Mbooster.PollReturns.{poll_settles}
use moza_simulator.Mbooster.Watch.{IsThere, Kept, At}
use moza_simulator.Mbooster.Settles.{IsLane, IsSettled}
use moza_simulator.Mbooster.Registers.{register_read_after_write}
use moza_simulator.Mbooster.Lines.{IsLineFrame, join_frames, line_frames-IsLine}
use moza_simulator.Mbooster.Answers.{mbooster_hook-Answering}
use moza_simulator.Standalone.Answers.{Answering}
use moza_simulator.Mbooster.Calibration.{on_motor, start_sweep, hold_sleep, sweep_steps}
use moza_simulator.Mbooster.Sweeps.{lines_of, calibration_sweeps, poll_all, HandsOut}
use moza_simulator.Mbooster.Silent.{reset_silences}
use moza_simulator.Mbooster.Sleep.{sleep_value, reset_restores_sleep}
use moza_simulator.Mbooster.Texts.{hex_byte, hex_digit}
use moza_simulator.Mbooster.Poll.{poll, advance}
use moza_simulator.Mbooster.Dispatch.{mbooster_hook, starts}
use moza_simulator.Wire.{
  framed, frame_head, verify, swap_nibbles, frame_checksum, checksum, sum, count, build_frame,
}
use moza_simulator.Mbooster.Runs.{lane_run, Event, lane_step, arrives, polls}
use moza_simulator.Mbooster.Heartbeat.{host_heartbeat}
use moza_simulator.Mbooster.Awake.{IsAwake}
use moza_simulator.Standalone.{Sim, blank, handle, answer, contains}
use moza_simulator.Mbooster.{
  Lane, PedalUnit, channel_for_role, channel_from, reg_key, line_frames, from_bytes_on, latin1,
}
use moza_simulator.Mbooster.Build.{
  SeedUnit, UnitSpec, LaneExtras, build_lane, build_unit, find_host_seed, unit_identity,
  build_units, make_unique, synthetic_id, repeat_tag, code_set,
}
use moza_simulator.Profile.Devices.{text}

-- Slots 1, 2 and 3, and a sleep time of 300 minutes.
abbrev seed_unit : SeedUnit
seed_unit = record {
  identity = ((0x06, []), 1 ∷ 2 ∷ 3 ∷ []) ∷ [];
  registers =
      (0x21 ∷ [], 0x00 ∷ 0x01 ∷ [])
      ∷ (0x22 ∷ [], 0x00 ∷ 0x02 ∷ [])
      ∷ (0x23 ∷ [], 0x00 ∷ 0x03 ∷ [])
      ∷ (0xB4 ∷ [], 0x00 ∷ 0x00 ∷ 0x01 ∷ 0x2C ∷ [])
      ∷ [];
  heartbeat = text "Throttle pedal is gone" ∷ text "PD Linked:[?]" ∷ [];
  params = [];
}

abbrev host_spec : UnitSpec
host_spec = record { dev = 0x12; role = 1; regs = [] }

abbrev chained_spec : UnitSpec
chained_spec = record { dev = 0x1D; role = 0; regs = [] }

abbrev lane_extras : LaneExtras
lane_extras = record {
  host_dev = 0x12;
  passive = 2 ∷ [];
  units = host_spec ∷ chained_spec ∷ [];
  errors = [];
}

abbrev seed : Dict ℕ SeedUnit
seed = (0x12, seed_unit) ∷ []

abbrev empty_lane : Lane
empty_lane = record { host_dev = 0; passive = []; units = []; pending = []; next_heartbeat = none }

abbrev two_units : Sim Lane
two_units = blank (get_ok empty_lane (build_lane seed lane_extras))

abbrev host_unit : PedalUnit
host_unit = build_unit seed seed_unit [] host_spec

host_unit-there : lookup 0x12 two_units.engine.units ≡ some host_unit
unfolding build_lane find_host_seed build_units lookup insert
host_unit-there = refl

host_unit-IsAwake : IsAwake two_units 0 0x12 host_unit
host_unit-IsAwake = record { there = host_unit-there; awake = unfold build_unit in omega arith }

-- The unit of the capture that is chained has an identity of its own.
chained_identity :
    (build_unit seed seed_unit [] chained_spec).identity ≡ ((0x06, []), text "AZ1") ∷ []
unfolding build_unit unit_identity make_unique synthetic_id repeat_tag hex_byte hex_digit lookup
    insert update
chained_identity = refl

-- The host's block: the chained throttle and the passive clutch are linked.
host_block :
    host_heartbeat 0 (2 ∷ []) (build_unit seed seed_unit [] chained_spec ∷ []) host_unit
    ≡ text "Throttle pedal is connected, type: active pedal"
      ∷ text "Throttle Mean Loss Rate : 0.00000 (%)"
      ∷ text "Throttle Max Loss  Rate : 1.00000 (%)"
      ∷ text "Throttle Max Recv  Gap  : 10.00000 (ms)"
      ∷ text "Brake pedal is connected, type: active pedal"
      ∷ text "Clutch pedal is connected, type: passive pedal"
      ∷ text "PD Linked:[T 1 B 1 C 1]"
      ∷ []
unfolding host_heartbeat build_unit lookup insert update
host_block = refl

-- A brake calibration of the host, a keep-alive of the chained unit and a poll.
abbrev calibration_frames : List Event
calibration_frames =
    arrives 10 (framed 0x26 0x12 (13 ∷ 0 ∷ 0 ∷ []))
    ∷ arrives 20 (framed 0x00 0x1D [])
    ∷ polls 3000
    ∷ []

abbrev calibrated : Sim Lane
calibrated = get_ok two_units (lane_run two_units calibration_frames)

calibrated-run : lane_run two_units calibration_frames ≡ ok calibrated
unfolding lane_run lane_step handle mbooster_hook poll lookup framed frame_head verify
    frame_checksum checksum sum count build_lane insert answer build_frame swap_nibbles
calibrated-run = refl

-- The sweep of the host is running, with one of its steps printed, and its sleep time is saved.
abbrev sweeping_unit : PedalUnit
sweeping_unit = advance 3000 (start_sweep 10 1 host_unit)

sweeping_unit-there : lookup 0x12 calibrated.engine.units ≡ some sweeping_unit
unfolding lane_run lane_step handle mbooster_hook poll lookup framed frame_head verify
    frame_checksum checksum sum count build_lane insert answer build_frame swap_nibbles
sweeping_unit-there = refl

sweeping_unit_online : sweeping_unit.offline_until ≡ 0
unfolding advance start_sweep on_motor channel_for_role channel_from hold_sleep build_unit
sweeping_unit_online = refl

sweeping_unit-IsAwake : IsAwake calibrated 5000 0x12 sweeping_unit
sweeping_unit-IsAwake = record {
  there = sweeping_unit-there;
  awake = omega (arith, sweeping_unit_online);
}

reset_restores_sleep_example :
    (x : PedalUnit) × (lookup 0x12
        (handle (mbooster_hook 5000) calibrated (framed 0x01 0x12 (0x02 ∷ []))).0.engine.units
      ≡ some x)
    × (x.sleep_before_cal ≡ none)
    × (sleep_value x ≡ sleep_value host_unit)
unfolding build_unit framed frame_head
reset_restores_sleep_example =
    reset_restores_sleep two_units 0x12 5000 host_unit sweeping_unit calibration_frames []
      host_unit-there refl ((λ g e. ground arith), ((λ g e. ground arith), (tt, tt))) calibrated-run
      sweeping_unit-IsAwake

-- After the reset of the host, frames to it and polls.
abbrev reset_engine : Sim Lane
reset_engine = (handle (mbooster_hook 100) two_units (framed 0x01 0x12 (0x02 ∷ []))).0

abbrev later_events : List Event
later_events = arrives 200 (framed 0x00 0x12 []) ∷ polls 300 ∷ []

abbrev later_engine : Sim Lane
later_engine = get_ok two_units (lane_run reset_engine later_events)

later-run : lane_run reset_engine later_events ≡ ok later_engine
unfolding lane_run lane_step handle mbooster_hook poll lookup framed frame_head verify
    frame_checksum checksum sum count build_lane insert answer build_frame swap_nibbles
later-run = refl

reset_silences_example :
    (handle (mbooster_hook 4699) later_engine (0x7E ∷ 0x00 ∷ 0x00 ∷ 0x12 ∷ 0x9D ∷ [])).1 ≡ ok []
reset_silences_example =
    reset_silences two_units 100 4699 0x12 host_unit [] later_events 0x7E 0x00 0x00 (0x9D ∷ [])
      (record { there = host_unit-there; awake = unfold build_unit in omega arith })
      (omega arith, (omega arith, tt)) later-run (omega arith)

-- The brake is on the motor channel of the host.
brake_moves : on_motor (hold_sleep host_unit) 1 ≡ true
unfolding on_motor channel_for_role channel_from hold_sleep build_unit lookup insert update
    from_bytes_on
brake_moves = refl

register_read_after_write_example :
    (handle
      (mbooster_hook 900)
      (handle (mbooster_hook 0) two_units (framed 0x24 0x12 (0x22 ∷ 0x00 ∷ 0x03 ∷ []))).0
      (framed 0x23 0x12 (0x22 ∷ 0x00 ∷ 0x00 ∷ []))).1
    ≡ answer 0xA3
        (swap_nibbles 0x12)
        ((reg_key (0x22 ∷ 0x00 ∷ 0x03 ∷ [])).0 ++ (reg_key (0x22 ∷ 0x00 ∷ 0x03 ∷ [])).1)
register_read_after_write_example =
    register_read_after_write two_units 0 900 0x12 host_unit (0x22 ∷ 0x00 ∷ 0x03 ∷ [])
      (0x22 ∷ 0x00 ∷ 0x00 ∷ []) host_unit-IsAwake (unfold build_unit in omega arith)
      (unfold starts in refl) (unfold reg_key contains in refl)

mbooster_hook-Answering_example : Answering (mbooster_hook 250)
mbooster_hook-Answering_example = mbooster_hook-Answering 250

line_frames-IsLine_example :
    All
      (IsLineFrame 0x1D)
      (line_frames 0x1D (text "PD Linked:[T 1 B 1 C 1] and a line that needs two frames"))
    × (join_frames
          (line_frames 0x1D (text "PD Linked:[T 1 B 1 C 1] and a line that needs two frames"))
        ≡ ok (latin1 (text "PD Linked:[T 1 B 1 C 1] and a line that needs two frames" ++ 10 ∷ [])))
line_frames-IsLine_example =
    line_frames-IsLine 0x1D (text "PD Linked:[T 1 B 1 C 1] and a line that needs two frames")

-- The chained unit is back from a reset, and the host has two steps of a sweep to print.
abbrev back_unit : PedalUnit
back_unit = record (build_unit seed seed_unit [] chained_spec) {
  boot_due = true;
  offline_until = 4600;
  errors = 50 ∷ [];
}

abbrev busy_lane : Lane
busy_lane = record {
  host_dev = 0x12;
  passive = [];
  units = (0x12, sweeping_unit) ∷ (0x1D, back_unit) ∷ [];
  pending = (0x7E ∷ 0x00 ∷ 0x0E ∷ 0x21 ∷ 0xBA ∷ []) ∷ [];
  next_heartbeat = some 5000;
}

busy_lane-IsLane : IsLane busy_lane
unfolding lookup advance start_sweep on_motor channel_for_role channel_from hold_sleep build_unit
    code_set
busy_lane-IsLane = record {
  host_there = (sweeping_unit, refl);
  fits = λ d u. AllValues-lookup Fits d busy_lane.units (
    record { dev_fits = omega arith; codes_fit = tt },
    (record { dev_fits = omega arith; codes_fit = (omega arith, tt) }, tt),
  );
}

poll_settles_example :
    (t : Lane) × (out more : List Bytes) × (poll 9800 busy_lane ≡ ok (t, out))
    × (out ≡ busy_lane.pending ++ more)
    × (t.pending ≡ [])
    × ((d : ℕ) → IsThere d busy_lane.units → Kept (At d (IsSettled 9800)) t.units)
    × IsLane t
poll_settles_example = poll_settles 9800 busy_lane busy_lane-IsLane

-- The host starts a calibration of the brake while the chained unit is away.
abbrev started_lane : Lane
started_lane = record busy_lane {
  units = (0x12, start_sweep 10 1 host_unit) ∷ (0x1D, back_unit) ∷ [];
}

started_lane-IsLane : IsLane started_lane
unfolding lookup start_sweep on_motor channel_for_role channel_from hold_sleep build_unit code_set
started_lane-IsLane = record {
  host_there = (start_sweep 10 1 host_unit, refl);
  fits = λ d u. AllValues-lookup Fits d started_lane.units (
    record { dev_fits = omega arith; codes_fit = tt },
    (record { dev_fits = omega arith; codes_fit = (omega arith, tt) }, tt),
  );
}

started-there : lookup 0x12 started_lane.units ≡ some (start_sweep 10 1 host_unit)
unfolding lookup
started-there = refl

calibration_sweeps_example :
    (t : Lane) × (outs : List (List Bytes)) × (poll_all
        (2600 ∷ 2700 ∷ 9000 ∷ 9710 ∷ [])
        started_lane
      ≡ ok (t, outs))
    × HandsOut host_unit.dev outs
        (if on_motor (hold_sleep host_unit) 1 then lines_of sweep_steps else [])
calibration_sweeps_example =
    calibration_sweeps 10 1 0x12 host_unit started_lane (2600 ∷ 2700 ∷ 9000 ∷ []) 9710
      started_lane-IsLane started-there (omega arith)
