-- ===== src/Mbooster/Reboot.antt =====
-- sim/engines/mbooster.py: `_reboot`, the soft reset of a unit.
use moza_simulator.Base.{
  ℕ, ℕ-key, none, ◌+◌, List, some, ◌∷◌, true, ◌++◌, [], if◌then◌else◌, Bytes-key, ltb, ◌==◌, get_or,
  Option, Bytes,
}
use moza_simulator.Base.Dict.{Dict, lookup, insert}
use moza_simulator.Base.Raise.{Result, ◌>>=◌, ok, err, index_error}
use moza_simulator.Mbooster.Calibration.{sleep_reg}
use moza_simulator.Standalone.{Replies}
use moza_simulator.Identity.{Text, get_else}
use moza_simulator.Profile.Devices.{text}
use moza_simulator.Mbooster.{
  PedalUnit, add_code, host, Lane, log, reboot_time, discard_code, role, put_unit,
  err_chained_offline, role_in, channel_reg, role_letters,
}

-- `ROLE_LETTERS[i]`
unfoldable pub role_letter : ℕ → Result ℕ
role_letter i = if ltb i 3 then ok (get_or role_letters i 0) else err index_error

-- The saved sleep time goes back into the register.
unfoldable pub restored_regs : Option Bytes → Dict Bytes Bytes → Dict Bytes Bytes
restored_regs none regs = regs
restored_regs (some v) regs = insert sleep_reg v regs

-- What the reset does to the unit itself.
unfoldable pub reset_unit : ℕ → PedalUnit → PedalUnit
unfolding restored_regs
reset_unit now u = record u {
  cal = none;
  locate_started = 0;
  regs = restored_regs u.sleep_before_cal u.regs;
  sleep_before_cal = none;
  offline_until = now + reboot_time;
}

abbrev pub take_offline : ℕ → PedalUnit → PedalUnit
take_offline now u = record u { offline_until = now + reboot_time }

unfoldable pub all_offline : ℕ → Dict ℕ PedalUnit → Dict ℕ PedalUnit
all_offline now [] = []
all_offline now ((d, u) ∷ units) = (d, take_offline now u) ∷ all_offline now units

-- The lines of the host on a chained unit that is gone.
unfoldable pub lost_lines : ℕ → List Text
lost_lines letter =
    text "[INFO]motor_mode.c:28 Set MotorMode to:0"
    ∷ text "[INFO]pedal_active.c:367 Foot off, motor disabled"
    ∷ text "[ERRO]diag_svr_event.c:86 error_code 40 occurs"
    ∷ (text "[ERRO]pedal_diagnostic.c:69 " ++ letter ∷ text "-PD Offline!")
    ∷ []

unfoldable pub raise_lost : PedalUnit → PedalUnit
unfolding add_code discard_code
raise_lost h = record h {
  errors = add_code err_chained_offline h.errors;
  acked = discard_code err_chained_offline h.acked;
}

-- The host on the loss of the chained unit `u`; `self.host` and `ROLE_LETTERS[...]` may raise.
unfoldable pub lose_chained : PedalUnit → Lane → Result Lane
unfolding host role_letter raise_lost lost_lines log role role_in
lose_chained u lane = do
  h ← host lane
  letter ← role_letter (get_else (role_in (channel_reg 0 h)) (role u))
  ok (put_unit lane.host_dev (raise_lost h) (log lane.host_dev (lost_lines letter) lane))

unfoldable pub set_boot_due : ℕ → Lane → Lane
set_boot_due dev lane = elim (lookup dev lane.units) [
  | none ↦ lane
  | some u ↦ put_unit dev (record u { boot_due = true }) lane
]

-- The unit prints the reset, and is offline; the host takes all units with it.
unfoldable pub reset_units : ℕ → ℕ → PedalUnit → Lane → Lane
unfolding reset_unit all_offline log
reset_units now dev u lane =
    let reset =
      put_unit dev (reset_unit now u)
        (log u.dev (text "[INFO]serial_cmd_com.c:262 Software reset" ∷ []) lane) in
    if u.dev == lane.host_dev then record reset { units = all_offline now reset.units } else reset

-- What follows on the reset of the unit: the lane so far, and whether the rest raised.
unfoldable pub after_reset : ℕ → PedalUnit → Lane → Lane × Replies
unfolding lose_chained set_boot_due
after_reset dev u lane =
    if u.dev == lane.host_dev then (set_boot_due dev lane, ok []) else elim (lose_chained u lane) [
      | ok lost ↦ (set_boot_due dev lost, ok [])
      | err e ↦ (lane, err e)
    ]

-- `_reboot`
unfoldable pub reboot : ℕ → ℕ → PedalUnit → Lane → Lane × Replies
unfolding reset_units after_reset
reboot now dev u lane = after_reset dev (reset_unit now u) (reset_units now dev u lane)
