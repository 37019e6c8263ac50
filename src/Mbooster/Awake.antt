-- ===== src/Mbooster/Awake.antt =====
-- The hook of a lane at a unit that is online, and at one that is not.
use moza_simulator.Base.{
  ℕ, ℕ-key, Bytes-key, pair-key, Bytes, ◌≡◌, some, ◌≤◌, false, [], true, ◌∙◌, le→leb, ap, refl,
}
use moza_simulator.Base.Raise.{ok}
use moza_simulator.Base.Dict.{lookup}
use moza_simulator.Standalone.Settings.{handle-framed}
use moza_simulator.Wire.{framed}
use moza_simulator.Standalone.{Sim, handle, after_hook, count_frame}
use moza_simulator.Mbooster.Dispatch.{
  mbooster_hook, claimed_unit, with_lane, arm_heartbeat, says, online_unit,
}
use moza_simulator.Mbooster.{PedalUnit, Lane, online}

-- What the hook does with the unit of the device.
pub hook_at :
    (now : ℕ) (s : Sim Lane) (frame : Bytes) (group device : ℕ) (payload : Bytes) {u : PedalUnit}
    → lookup device s.engine.units ≡ some u
    → mbooster_hook now s frame group device payload
      ≡ claimed_unit now (with_lane (arm_heartbeat now s.engine) s) frame group device payload u
unfolding mbooster_hook claimed_unit
hook_at now s frame group device payload e = rw (e, mbooster_hook)

pub hook_away :
    (now : ℕ) (s : Sim Lane) (frame : Bytes) (group device : ℕ) (payload : Bytes) {u : PedalUnit}
    → lookup device s.engine.units ≡ some u
    → online now u ≡ false
    → mbooster_hook now s frame group device payload
      ≡ says "offline" frame (with_lane (arm_heartbeat now s.engine) s) (ok [])
hook_away now s frame group device payload e off =
    hook_at now s frame group device payload e ∙ unfold claimed_unit in rw off refl

-- A unit with a device, and awake at a time.
pub record IsAwake (s : Sim Lane) (now dev : ℕ) (u : PedalUnit) : Type 0 where
  pub there : lookup dev s.engine.units ≡ some u
  pub awake : u.offline_until ≤ now

pub handled_awake :
    (s : Sim Lane) (now group dev : ℕ) (u : PedalUnit) (payload : Bytes)
    → IsAwake s now dev u
    → handle (mbooster_hook now) s (framed group dev payload)
      ≡ after_hook (framed group dev payload) group dev payload (
          online_unit now
            (with_lane (arm_heartbeat now s.engine) (count_frame s))
            (framed group dev payload)
            group
            dev
            payload
            u)
handled_awake s now group dev u payload h =
    let on : online now u ≡ true = unfold online in le→leb _ _ h.awake in
    handle-framed (mbooster_hook now) s group dev payload
    ∙ ap (after_hook (framed group dev payload) group dev payload) (
        hook_at now (count_frame s) (framed group dev payload) group dev payload h.there
        ∙ unfold claimed_unit in rw on refl)
