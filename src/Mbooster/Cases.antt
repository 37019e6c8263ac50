-- ===== src/Mbooster/Cases.antt =====
-- A property of what the hook of a lane returns, from that of its handlers.
use moza_simulator.Base.{
  ℕ, ℕ-key, Bytes-key, pair-key, Bytes, Bool, String, ◌≡◌, arith, true, take, if◌then◌else◌, [],
  ◌++◌, ◌∷◌, false, refl, some, none, subst, Bool-cases, drop, inl, inr, Option-cases, ◌==◌, ◌&&◌,
  leb, length, get_or, not,
}
use moza_simulator.Base.Raise.{ok}
use moza_simulator.Base.Dict.{lookup}
use moza_simulator.Identity.{get_else}
use moza_simulator.Standalone.{Sim, record_unhandled, is_empty, contains}
use moza_simulator.Mbooster.Dispatch.{
  Claimed, online_unit, says, unit_reply, error_ack, starts, write_register, calibrate,
  calibrate_motor, soft_reboot, claimed_unit, read_param, read_identity, read_register,
}
use moza_simulator.Mbooster.{
  PedalUnit, Lane, motor_cmd, online, param_unset, reg_key, identity_groups,
}

module _ (Q : Claimed → Type 0) (now : ℕ) (s : Sim Lane) (frame : Bytes) (group device : ℕ)
    (payload : Bytes) (u : PedalUnit) where
  if-holds : (c : Bool) (x y : Claimed) → (c ≡ true → Q x) → Q y → Q (if c then x else y)
  if-holds true x y h k = h refl
  if-holds false x y h k = k

  -- The handlers of a unit, each under the test of its group.
  pub record Handles : Type 0 where
    pub recorded : (tag : String) → Q (says tag frame s (ok []))
    pub answered :
        (tag : String) (body : Bytes) → Q (says tag frame s (unit_reply group device body))
    pub unknown : Q (record_unhandled frame group device payload s, some (ok []))
    pub acks : group ≡ 0x0E → Q (error_ack now s frame group device payload u)
    pub writes :
        group ≡ 0x24
        → (starts motor_cmd payload ≡ false)
        → Q (write_register now s frame group device payload u)
    pub calibrates : group ≡ 0x26 → Q (calibrate now s frame group device payload u)
    pub locates : group ≡ 0x2A → Q (calibrate_motor now s frame group device payload u)
    pub reboots : group ≡ 0x01 → Q (soft_reboot now s frame group device payload u)
    pub passes : Q (s, none)

  module _ (h : Handles) where
    pub online_unit-holds : Q (online_unit now s frame group device payload u)
    unfolding online_unit
    online_unit-holds =
        if-holds (group == 0x00 && is_empty payload) _ _ (λ c. on_heartbeat (ground arith))
          (if-holds (group == 0x0E && (starts 0x04 payload && leb 3 (length payload))) _ _
            (λ c. h.acks (ground arith))
            (if-holds (group == 0x0E && (length payload == 3 && get_or payload 0 0 == 0x00)) _ _
              (λ c. on_param (ground arith))
              (if-holds (contains group identity_groups) _ _ (λ c. on_identity)
                (if-holds (group == 0x23) _ _ (λ c. on_register)
                  (if-holds (group == 0x24) _ _ (λ c. on_write (ground arith))
                    (if-holds (group == 0x25) _ _
                      (λ c. h.answered "output" (take 1 payload ++ 0x00 ∷ 0x00 ∷ []))
                      (if-holds (group == 0x26 && not (is_empty payload)) _ _
                        (λ c. h.calibrates (ground arith))
                        (if-holds (group == 0x2A && not (is_empty payload)) _ _
                          (λ c. h.locates (ground arith))
                          (if-holds (group == 0x01 && starts 0x02 payload) _ _
                            (λ c. h.reboots (ground arith)) h.passes)))))))))
      where
        on_heartbeat : group ≡ 0x00 → Q (says "heartbeat" frame s (unit_reply 0x00 device []))
        on_heartbeat g =
            subst (λ x. Q (says "heartbeat" frame s (unit_reply x device []))) g
              (h.answered "heartbeat" [])

        on_param : group ≡ 0x0E → Q (read_param now s frame group device payload u)
        on_param g =
            unfold read_param in
            subst
              (λ x. Q (
                says "param" frame s (
                  unit_reply x device
                    (payload ++ get_else (lookup (take 2 (drop 1 payload)) u.params) param_unset))))
              g (h.answered "param" _)

        on_identity : Q (read_identity now s frame group device payload u)
        on_identity = elim (Option-cases (lookup (group, payload) u.identity)) [
          | inl e ↦ rw (e, read_identity) h.unknown
          | inr (rsp, e) ↦ rw (e, read_identity) (h.answered "identity" rsp)
        ]

        on_register : Q (read_register now s frame group device payload u)
        on_register = elim (Option-cases (lookup (reg_key payload).0 u.regs)) [
          | inl e ↦ rw (e, read_register) h.unknown
          | inr (val, e) ↦ rw (e, read_register) (h.answered "read" ((reg_key payload).0 ++ val))
        ]

        on_write : group ≡ 0x24 → Q (write_register now s frame group device payload u)
        on_write g = elim (Bool-cases (starts motor_cmd payload)) [
          | inl e ↦ unfold write_register in rw e (h.answered "mbooster_motor" payload)
          | inr e ↦ h.writes g e
        ]

    pub claimed_unit-holds : Q (claimed_unit now s frame group device payload u)
    unfolding claimed_unit
    claimed_unit-holds = elim (Bool-cases (online now u)) [
      | inl e ↦ rw e online_unit-holds
      | inr e ↦ rw e (h.recorded "offline")
    ]
