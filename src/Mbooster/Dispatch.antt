-- ===== src/Mbooster/Dispatch.antt =====
-- sim/engines/mbooster.py: `_device_specific`, the hook of the lane at a time of the clock.
use moza_simulator.Base.{
  ℕ, ℕ-key, pair-key, Bytes-key, String, Bytes, Option, some, ◌++◌, Bool, take, bytes_eqb, get_or,
  bit_or, ◌+◌, drop, ◌∷◌, [], if◌then◌else◌, ◌==◌, ◌&&◌, leb, length, not, none,
}
use moza_simulator.Base.Raise.{ok}
use moza_simulator.Base.Dict.{lookup, insert}
use moza_simulator.Wire.{swap_nibbles}
use moza_simulator.Identity.{get_else}
use moza_simulator.Mbooster.Reboot.{reboot}
use moza_simulator.Mbooster.Calibration.{calibration, motor_cal, motor_body, located}
use moza_simulator.Standalone.{
  Sim, Hook, Replies, record_frame, answer, is_empty, contains, record_unhandled,
}
use moza_simulator.Mbooster.{
  PedalUnit, Lane, put_unit, add_code, reg_key, from_bytes, param_unset, motor_cmd, online,
  identity_groups,
}

-- The set `identity_groups` and the dictionaries of the units decide who answers; a handler records
-- the frame on the engine with the new lane.
abbrev pub with_lane : Lane → Sim Lane → Sim Lane
with_lane lane s = record s { engine = lane }

abbrev pub Claimed : Type 0
Claimed = Sim Lane × Option Replies

abbrev pub says : String → Bytes → Sim Lane → Replies → Claimed
says tag frame s reply = (record_frame tag frame s, some reply)

-- `_reply`, in a list
unfoldable pub unit_reply : ℕ → ℕ → Bytes → Replies
unit_reply group dev payload = answer (bit_or group 0x80) (swap_nibbles dev) payload

-- The first frame to a unit sets the time of the first heartbeat.
unfoldable pub arm_heartbeat : ℕ → Lane → Lane
arm_heartbeat now lane = record lane {
  next_heartbeat = some (get_else lane.next_heartbeat (now + 1000));
}

abbrev pub put_in : ℕ → PedalUnit → Sim Lane → Sim Lane
put_in dev u s = with_lane (put_unit dev u s.engine) s

-- `payload[:1] == bytes([b])`
unfoldable pub starts : ℕ → Bytes → Bool
starts b payload = bytes_eqb (take 1 payload) (b ∷ [])

module _ (now : ℕ) (s : Sim Lane) (frame : Bytes) (group device : ℕ) (payload : Bytes)
    (u : PedalUnit) where
  -- The acknowledgement of an error report.
  unfoldable pub error_ack : Claimed
  unfolding add_code unit_reply
  error_ack =
      let code = take 2 (drop 1 payload) in
      says "error_ack" frame
        (put_in device (record u { acked = add_code (from_bytes code) u.acked }) s)
        (unit_reply 0x0E device (0x04 ∷ code ++ 0x00 ∷ 0x01 ∷ []))

  unfoldable pub read_param : Claimed
  unfolding unit_reply
  read_param = says "param" frame s (
      unit_reply 0x0E device
        (payload ++ get_else (lookup (take 2 (drop 1 payload)) u.params) param_unset))

  unfoldable pub read_identity : Claimed
  unfolding unit_reply
  read_identity = elim (lookup (group, payload) u.identity) [
    | none ↦ (record_unhandled frame group device payload s, some (ok []))
    | some rsp ↦ says "identity" frame s (unit_reply group device rsp)
  ]

  unfoldable pub read_register : Claimed
  unfolding unit_reply reg_key
  read_register =
      let key = (reg_key payload).0 in
      elim (lookup key u.regs) [
        | none ↦ (record_unhandled frame group device payload s, some (ok []))
        | some val ↦ says "read" frame s (unit_reply group device (key ++ val))
      ]

  unfoldable pub write_register : Claimed
  unfolding unit_reply reg_key starts
  write_register =
      let reply = unit_reply group device payload in
      if starts motor_cmd payload
      then says "mbooster_motor" frame s reply
      else (let (key, val) = reg_key payload in
          says "write" frame (put_in device (record u { regs = insert key val u.regs }) s) reply)

  unfoldable pub calibrate : Claimed
  unfolding unit_reply calibration
  calibrate =
      says "calibration" frame
        (with_lane (calibration now (get_or payload 0 0) device u s.engine) s)
        (unit_reply group device payload)

  unfoldable pub calibrate_motor : Claimed
  unfolding unit_reply motor_cal motor_body
  calibrate_motor =
      says "motor_cal" frame (with_lane (motor_cal now payload device u s.engine) s)
        (unit_reply 0x2A device (motor_body now payload (located now payload u)))

  unfoldable pub soft_reboot : Claimed
  unfolding reboot
  soft_reboot =
      let recorded = record_frame "soft_reboot" frame s in
      let (lane, replies) = reboot now device u recorded.engine in
      (with_lane lane recorded, some replies)

  -- The handlers of a unit that is online, in the order of the source.
  unfoldable pub online_unit : Claimed
  unfolding error_ack read_param read_identity read_register write_register calibrate
      calibrate_motor soft_reboot starts
  online_unit =
      if group == 0x00 && is_empty payload
      then says "heartbeat" frame s (unit_reply 0x00 device [])
      else if group == 0x0E && (starts 0x04 payload && leb 3 (length payload))
      then error_ack
      else if group == 0x0E && (length payload == 3 && get_or payload 0 0 == 0x00)
      then read_param
      else if contains group identity_groups
      then read_identity
      else if group == 0x23
      then read_register
      else if group == 0x24
      then write_register
      else if group == 0x25
      then says "output" frame s (unit_reply group device (take 1 payload ++ 0x00 ∷ 0x00 ∷ []))
      else if group == 0x26 && not (is_empty payload)
      then calibrate
      else if group == 0x2A && not (is_empty payload)
      then calibrate_motor
      else if group == 0x01 && starts 0x02 payload
      then soft_reboot
      else (s, none)

  unfoldable pub claimed_unit : Claimed
  unfolding online_unit
  claimed_unit = if online now u then online_unit else says "offline" frame s (ok [])

-- `_device_specific`
unfoldable pub mbooster_hook : ℕ → Hook Lane
unfolding claimed_unit arm_heartbeat
mbooster_hook now s frame group device payload = elim (lookup device s.engine.units) [
  | none ↦ (s, none)
  | some u ↦
      claimed_unit now (with_lane (arm_heartbeat now s.engine) s) frame group device payload u
]
