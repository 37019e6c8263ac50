-- ===== src/Mbooster/Registers.antt =====
-- The registers of a unit: what is written to a register is what it reads.
use moza_simulator.Base.{
  ℕ, ℕ-key, Bytes-key, pair-key, Bytes, ◌≤◌, ◌≡◌, false, some, ◌++◌, ap, ◌∙◌, refl,
}
use moza_simulator.Base.Dict.{lookup, lookup-insert_self}
use moza_simulator.Mbooster.Watch.{write_unit}
use moza_simulator.Wire.{framed, swap_nibbles}
use moza_simulator.Mbooster.Awake.{IsAwake, handled_awake}
use moza_simulator.Mbooster.Dispatch.{
  online_unit, write_register, starts, mbooster_hook, arm_heartbeat, read_register, unit_reply,
}
use moza_simulator.Standalone.{Sim, after_hook, contains, record_frame, handle, answer, Replies}
use moza_simulator.Mbooster.{PedalUnit, Lane, reg_key, motor_cmd, put_unit}

module _ (s : Sim Lane) (now dev : ℕ) (u : PedalUnit) (payload : Bytes) where
  -- The engine after a write that is no motor effect.
  write_handled :
      IsAwake s now dev u
      → starts motor_cmd payload ≡ false
      → (handle (mbooster_hook now) s (framed 0x24 dev payload)).0.engine
        ≡ put_unit dev (write_unit payload u) (arm_heartbeat now s.engine)
  unfolding online_unit write_register after_hook contains record_frame
  write_handled h m =
      ap (λ (r : Sim Lane × Replies). r.0.engine) (handled_awake s now 0x24 dev u payload h)
      ∙ rw m refl

  read_handled :
      IsAwake s now dev u
      → (val : Bytes) → lookup (reg_key payload).0 u.regs ≡ some val
      → (handle (mbooster_hook now) s (framed 0x23 dev payload)).1
        ≡ answer 0xA3 (swap_nibbles dev) ((reg_key payload).0 ++ val)
  unfolding online_unit after_hook contains
  read_handled h val e =
      ap (λ (r : Sim Lane × Replies). r.1) (handled_awake s now 0x23 dev u payload h)
      ∙ rw (e, read_register) (unfold unit_reply in refl)

-- After a write to a register of a unit that is awake, of any command but the motor effect, a read
-- of the register, whatever its further bytes, is answered with the value, at any later time at
-- which the unit is awake.
pub register_read_after_write :
    (s : Sim Lane) (now later dev : ℕ) (u : PedalUnit) (written args : Bytes)
    → IsAwake s now dev u
    → u.offline_until ≤ later
    → starts motor_cmd written ≡ false
    → (reg_key args).0 ≡ (reg_key written).0
    → (handle
        (mbooster_hook later)
        (handle (mbooster_hook now) s (framed 0x24 dev written)).0
        (framed 0x23 dev args)).1
      ≡ answer 0xA3 (swap_nibbles dev) ((reg_key written).0 ++ (reg_key written).1)
register_read_after_write s now later dev u written args h awake m same =
    let t = (handle (mbooster_hook now) s (framed 0x24 dev written)).0 in
    let v = write_unit written u in
    let there : lookup dev t.engine.units ≡ some v =
      ap (λ (lane : Lane). lookup dev lane.units) (write_handled s now dev u written h m)
      ∙ unfold arm_heartbeat in lookup-insert_self dev v s.engine.units in
    let found : lookup (reg_key args).0 v.regs ≡ some (reg_key written).1 =
      ap (λ k. lookup k v.regs) same
      ∙ lookup-insert_self (reg_key written).0 (reg_key written).1 u.regs in
    read_handled t later dev v args (record { there = there; awake = awake }) (reg_key written).1
      found
    ∙ ap (λ k. answer 0xA3 (swap_nibbles dev) (k ++ (reg_key written).1)) same
