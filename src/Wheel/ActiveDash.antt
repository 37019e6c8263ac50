-- ===== src/Wheel/ActiveDash.antt =====
-- The active dashboard of a `WheelSimulator`: what a base parameter write commits, a query reads.
use moza_simulator.Base.{◌≡◌, List, [], ◌∷◌, none, Bytes, false, pair-key, ℕ-key, Bytes-key}
use moza_simulator.Base.Dict.{lookup}
use moza_simulator.Standalone.{in_groups}
use moza_simulator.Wheel.{Wheel}
use moza_simulator.Wheel.Handlers.{
  Handler, try_active_dash_query, try_hub_cfg, try_plugin_probe, try_synth_probe,
  try_pithouse_identity, try_device_identity, try_param_0e, try_heartbeat, try_keepalive_43,
  try_wheel_write_echo, try_base_write, try_settings_echo, try_absorb,
}

-- The handlers before the base parameter write have no answer to one, and the wheel is at 0x17.
pub record CommitsFree {X : Type 0} (s : Wheel X) (payload : Bytes) : Type 0 where
  pub new_protocol : s.wheel_device ≡ 0x17
  pub no_probe : (sub : Bytes) → lookup (0x2A, (0x13, sub)) s.plugin_probe_rsp ≡ none
  pub no_identity : lookup (0x13, (0x2A, payload)) s.device_id_rsp ≡ none
  pub no_echo : in_groups 0x2A (lookup 0x13 s.settings_echo) ≡ false
  pub no_absorb : in_groups 0x2A (lookup 0x13 s.absorb) ≡ false

module _ {X : Type 0} (s : Wheel X) (frame : Bytes) where
  -- The handlers before the base parameter write.
  abbrev earlier : List (Handler X)
  earlier =
      try_active_dash_query ∷ try_hub_cfg ∷ try_plugin_probe ∷ try_synth_probe
      ∷ try_pithouse_identity ∷ try_device_identity ∷ try_param_0e ∷ try_heartbeat
      ∷ try_keepalive_43 ∷ try_wheel_write_echo ∷ try_base_write ∷ try_settings_echo ∷ try_absorb
      ∷ []
