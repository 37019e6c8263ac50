-- ===== src/Mbooster/Calibration.antt =====
-- sim/engines/mbooster.py: `_calibration` and `_motor_cal`. What they do to the unit and the lines
-- that they print are apart.
use moza_simulator.Base.{
  ℕ, Bytes-key, Bytes, List, some, get_or, none, ◌∷◌, Option, Bool, [], false, if◌then◌else◌, ◌==◌,
  suc, ◌++◌, ◌&&◌, leb, length, ◌+◌, ◌*◌,
}
use moza_simulator.Base.Dict.{lookup, insert}
use moza_simulator.Identity.{Text, get_else}
use moza_simulator.Profile.Devices.{text}
use moza_simulator.Mbooster.{
  PedalUnit, channel_for_role, Sweep, log, role_letters, Lane, put_unit, cal_start, cal_stop,
  motor_channel, locate_time,
}

-- The register 0xB4, the minutes to sleep.
abbrev pub sleep_reg : Bytes
sleep_reg = 0xB4 ∷ []

abbrev pub no_sleep : Bytes
no_sleep = 0x00 ∷ 0x00 ∷ 0x00 ∷ 0x00 ∷ []

-- `xs.index(x)` where `x in xs`
unfoldable pub index_in : ℕ → List ℕ → Option ℕ
index_in x [] = none
index_in x (y ∷ ys) =
    let rest = index_in x ys in
    if x == y then some 0 else elim rest [ none ↦ none | some i ↦ some (suc i) ]

abbrev pub sweep_steps : List (ℕ × Text)
sweep_steps =
    (2500, text "[INFO]common_wrapper.c:57 Pedal Calib Backward")
    ∷ (6100, text "[INFO]common_wrapper.c:57 Pedal Calib Forward")
    ∷ (9700, text "[INFO]common_wrapper.c:57 Pedal Calib pressure Calculating....")
    ∷ []

-- `self._channel_for_role(u, role) == MOTOR_CHANNEL`
unfoldable pub on_motor : PedalUnit → ℕ → Bool
unfolding channel_for_role
on_motor u r = elim (channel_for_role u r) [ none ↦ false | some c ↦ c == motor_channel ]

-- The unit saves its sleep time once, and sleeps no more.
unfoldable pub hold_sleep : PedalUnit → PedalUnit
hold_sleep u = record u {
  sleep_before_cal =
      some (get_else u.sleep_before_cal (get_else (lookup sleep_reg u.regs) no_sleep));
  regs = insert sleep_reg no_sleep u.regs;
}

unfoldable pub start_sweep : ℕ → ℕ → PedalUnit → PedalUnit
unfolding hold_sleep on_motor
start_sweep now r u =
    let v = hold_sleep u in
    let moves = on_motor v r in
    record v {
      cal = some (record { succeeds = moves; t0 = now; steps = if moves then sweep_steps else [] });
    }

-- `ROLE_LETTERS[role]` of a command's role, which is at most 2.
abbrev pub cal_letter : ℕ → ℕ
cal_letter r = get_or role_letters r 0

unfoldable pub start_lines : ℕ → PedalUnit → List Text
start_lines r u =
    if on_motor (hold_sleep u) r
    then (text "[INFO]pedal_cmd.c:781 " ++ cal_letter r ∷ text "-PD-C-S")
      ∷ text "[INFO]model_app.c:65 pedal_active_mode changed: 4"
      ∷ text "[INFO]motor_mode.c:28 Set MotorMode to:12"
      ∷ text "[INFO]pedal_active.c:387 Foot on, motor enabled"
      ∷ text "[INFO]common_wrapper.c:57 Pedal Calib Start"
      ∷ []
    else (text "[INFO]pedal_cmd.c:768 " ++ cal_letter r ∷ text "-PD-C-S") ∷ []

unfoldable pub stop_lines : ℕ → ℕ → Sweep → PedalUnit → List Text
stop_lines host_dev r sweep u =
    if sweep.succeeds && on_motor u r
    then text "[INFO]common_wrapper.c:57 Pedal Calib End" ∷ []
    else (text "[ERRO]pedal_cmd.c:818 "
        ++ cal_letter r ∷ text "-PD-C Err:"
        ++ (if u.dev == host_dev then 51 else 50) ∷ [])
      ∷ text "[INFO]param_manage.c:312 Table Id 6, ParamAddr 28: Failed to Write"
      ∷ []

abbrev pub stop_sweep : PedalUnit → PedalUnit
stop_sweep u = record u { cal = none }

unfoldable pub stop_calibration : ℕ → ℕ → PedalUnit → Lane → Lane
unfolding stop_lines log
stop_calibration dev r u lane = elim u.cal [
  | none ↦ lane
  | some sweep ↦ put_unit dev (stop_sweep u) (log u.dev (stop_lines lane.host_dev r sweep u) lane)
]

-- `_calibration`
unfoldable pub calibration : ℕ → ℕ → ℕ → PedalUnit → Lane → Lane
unfolding index_in start_sweep start_lines stop_calibration log
calibration now cmd dev u lane = elim (index_in cmd cal_start) [
  | some r ↦ put_unit dev (start_sweep now r u) (log u.dev (start_lines r u) lane)
  | none ↦ elim (index_in cmd cal_stop) [ some r ↦ stop_calibration dev r u lane | none ↦ lane ]
]

-- `int.from_bytes(payload[1:3], "big")` where there are three bytes
unfoldable pub motor_param : Bytes → ℕ
motor_param payload =
    if leb 3 (length payload) then get_or payload 1 0 * 256 + get_or payload 2 0 else 0

unfoldable pub starts_locate : Bytes → Bool
unfolding motor_param
starts_locate payload = get_or payload 0 0 == 0x15 && motor_param payload == 0x0103

unfoldable pub located : ℕ → Bytes → PedalUnit → PedalUnit
unfolding starts_locate
located now payload u = if starts_locate payload then record u { locate_started = now } else u

unfoldable pub locate_lines : Bytes → List Text
unfolding starts_locate
locate_lines payload =
    if starts_locate payload then text "[INFO]motor_wrapper.c:58 Motor Locate Start" ∷ [] else []

-- A start time of 0 counts as none.
unfoldable pub locate_state : ℕ → PedalUnit → ℕ
locate_state now u =
    if u.locate_started == 0 then 0 else if leb (u.locate_started + locate_time) now then 3 else 1

-- The payload of the reply of `_motor_cal`.
unfoldable pub motor_body : ℕ → Bytes → PedalUnit → Bytes
unfolding motor_param locate_state
motor_body now payload u =
    if get_or payload 0 0 == 0x15 && motor_param payload == 0
    then 0x15 ∷ 0x00 ∷ locate_state now u ∷ []
    else payload

-- The lane after `_motor_cal`.
unfoldable pub motor_cal : ℕ → Bytes → ℕ → PedalUnit → Lane → Lane
unfolding located locate_lines log
motor_cal now payload dev u lane =
    put_unit dev (located now payload u) (log u.dev (locate_lines payload) lane)
