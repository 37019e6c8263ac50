-- ===== src/Mbooster/Answers.antt =====
-- What the units of a lane reply.
use moza_simulator.Base.{
  ℕ, ℕ-key, Bytes-key, pair-key, ◌≡◌, Bytes, [], inl, Option-cases, ◌⊎◌, inr, Bool-cases, ◌==◌,
  refl, ◌∷◌, take, drop, ◌++◌,
}
use moza_simulator.Base.Dict.{lookup}
use moza_simulator.Base.Raise.{ok, Error, err, Result-cases}
use moza_simulator.Mbooster.Calibration.{motor_body, located}
use moza_simulator.Mbooster.Cases.{Handles, claimed_unit-holds}
use moza_simulator.Standalone.Answers.{Answering, HookAnswer}
use moza_simulator.Mbooster.Dispatch.{
  mbooster_hook, Claimed, claimed_unit, unit_reply, error_ack, write_register, calibrate,
  calibrate_motor, soft_reboot,
}
use moza_simulator.Standalone.{Sim, record_frame}
use moza_simulator.Mbooster.Reboot.{after_reset, lose_chained, reboot, reset_unit, reset_units}
use moza_simulator.Mbooster.{PedalUnit, Lane}

-- The reset replies nothing, if it does not raise.
after_reset-silent :
    (dev : ℕ) (u : PedalUnit) (lane : Lane)
    → ((after_reset dev u lane).1 ≡ ok []) ⊎ ((e : Error) × ((after_reset dev u lane).1 ≡ err e))
unfolding after_reset
after_reset-silent dev u lane = elim (Bool-cases (u.dev == lane.host_dev)) [
  | inl e ↦ rw e (inl refl)
  | inr e ↦ elim (Result-cases (lose_chained u lane)) [
    | inl (t, f) ↦ rw (e, f, after_reset) (inl refl)
    | inr (x, f) ↦ rw (e, f, after_reset) (inr (x, refl))
  ]
]

module _ (now : ℕ) (s : Sim Lane) (frame : Bytes) (group device : ℕ) (payload : Bytes)
    (u : PedalUnit) where
  abbrev Answers : Claimed → Type 0
  Answers r = HookAnswer group device r.1

  Answers-Handles : Handles Answers now s frame group device payload u
  Answers-Handles = record {
    recorded = λ tag. inl (inl refl);
    answered = λ tag body. unfold unit_reply in inr (body, refl);
    unknown = inl (inl refl);
    acks = λ g.
        unfold error_ack unit_reply in
        inr (0x04 ∷ take 2 (drop 1 payload) ++ 0x00 ∷ 0x01 ∷ [], rw g refl);
    writes = λ g e. unfold write_register unit_reply in rw e (inr (payload, refl));
    calibrates = λ g. unfold calibrate unit_reply in inr (payload, refl);
    locates = λ g.
        unfold calibrate_motor unit_reply in
        inr (motor_body now payload (located now payload u), rw g refl);
    reboots = λ g.
        unfold soft_reboot reboot in
        inl (
          after_reset-silent device (reset_unit now u)
            (reset_units now device u (record_frame "soft_reboot" frame s).engine));
    passes = tt;
  }

  claimed_unit-Answers : Answers (claimed_unit now s frame group device payload u)
  claimed_unit-Answers =
      claimed_unit-holds Answers now s frame group device payload u Answers-Handles

-- The hook of a lane answers, if at all, the device and group that asked.
pub mbooster_hook-Answering : (now : ℕ) → Answering (mbooster_hook now)
unfolding mbooster_hook
mbooster_hook-Answering now = record { at = answered }
  where
    answered :
        (s : Sim Lane) (frame : Bytes) (group device : ℕ) (payload : Bytes)
        → HookAnswer group device (mbooster_hook now s frame group device payload).1
    answered s frame group device payload = elim (Option-cases (lookup device s.engine.units)) [
      | inl e ↦ rw (e, mbooster_hook) tt
      | inr (u, e) ↦ rw (e, mbooster_hook) (claimed_unit-Answers now _ frame group device payload u)
    ]
