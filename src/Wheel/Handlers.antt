-- ===== src/Wheel/Handlers.antt =====
-- sim/wheel_sim.py, the `_try_*` handlers of `WheelSimulator`: the new state and the replies, or
-- `none` to fall through.
use moza_simulator.Base.{
  ℕ, ◌+◌, ◌%◌, List, [], ◌∷◌, ◌++◌, Option, none, some, Bytes, length, take, get_or, Bool, false,
  ◌&&◌, ◌||◌, not, leb, ◌==◌, if◌then◌else◌, bit_or, String, Key, ℕ-key, pair-key, Bytes-key,
  bytes_eqb,
}
use moza_simulator.Base.Raise.{ok}
use moza_simulator.Base.Dict.{Dict, lookup}
use moza_simulator.Identity.{get_else}
use moza_simulator.Wire.{swap_nibbles}
use moza_simulator.Standalone.{Replies, answer, contains, in_groups, is_empty}
use moza_simulator.Wheel.{Wheel, RequestKey, record_tagged}
use moza_simulator.Wheel.Tables.{
  wheel_echo_prefixes, base_param_ack_val, hub_cfg_values, probe_synth,
}

abbrev pub Tries : Type 0 → Type 0
Tries X = Option (Wheel X × Replies)

abbrev pub Handler : Type 0 → Type 0
Handler X = Wheel X → Bytes → ℕ → ℕ → Bytes → Tries X

-- The first of the prefixes of these lengths that `find` knows, with what it finds.
unfoldable pub first_prefix {ℓ} :
    {B : Type ℓ} → List ℕ → (Bytes → Option B) → Bytes → Option (Bytes × B)
first_prefix [] find payload = none
first_prefix (n ∷ ns) find payload =
    let later = first_prefix ns find payload in
    if leb n (length payload)
    then elim (find (take n payload)) [ none ↦ later | some b ↦ some (take n payload, b) ]
    else later

-- `k in xs`
unfoldable pub is_member {ℓ} : {K : Type ℓ} ⦃e : Key K⦄ → K → List K → Bool
is_member ⦃e⦄ k [] = false
is_member ⦃e⦄ k (x ∷ xs) = e.eqb x k || is_member k xs

-- A handler goes on with what it looked up, or falls through.
abbrev pub on_found {ℓ} : {X : Type 0} {A : Type ℓ} → Option A → (A → Wheel X × Replies) → Tries X
on_found none reply = none
on_found (some a) reply = some (reply a)

-- `len(pl) >= 3 and pl[0] == 0x43 and pl[1] == 0x01`
unfoldable pub is_dash_commit : Bytes → Bool
is_dash_commit pl = (leb 3 (length pl) && get_or pl 0 0 == 0x43) && get_or pl 1 0 == 0x01

unfoldable pub param_ack : Bytes → Bytes
unfolding is_dash_commit
param_ack pl =
    if is_dash_commit pl
    then pl
    else if leb 3 (length pl)
    then elim (lookup (take 2 pl) base_param_ack_val) [
      | some fixed ↦ take 2 pl ++ fixed ∷ []
      | none ↦ pl
    ]
    else pl

-- `self._replay.lookup(frame)`, where an empty frame counts as none.
unfoldable pub replay_lookup : Option (Dict RequestKey Bytes) → ℕ → ℕ → Bytes → Option Bytes
replay_lookup none group device payload = none
replay_lookup (some table) group device payload = elim (lookup (group, (device, payload)) table) [
  | none ↦ none
  | some recorded ↦ if is_empty recorded then none else some recorded
]

module _ {X : Type 0} where
  -- `self._record(tag, frame); return [build_frame(group, device, body)]`
  abbrev pub replied : Wheel X → String → Bytes → ℕ → ℕ → Bytes → Wheel X × Replies
  replied s tag frame group device body = (record_tagged tag frame s, answer group device body)

  -- The same with `group | 0x80` and `swap_nibbles(device)`.
  abbrev pub answered : Wheel X → String → Bytes → ℕ → ℕ → Bytes → Wheel X × Replies
  answered s tag frame group device body =
      replied s tag frame (bit_or group 0x80) (swap_nibbles device) body

  unfoldable pub try_active_dash_query : Handler X
  try_active_dash_query s frame group device payload =
      let sub = get_or payload 1 0 in
      let index = s.active_dash_index % 256 in
      if ((group == 0x40 && device == s.wheel_device) && leb 2 (length payload))
        && get_or payload 0 0 == 0x28
      then if sub == 0x00
        then some
            (answered s "active_dash_query" frame group device (0x28 ∷ 0x00 ∷ 0x00 ∷ index ∷ []))
        else if sub == 0x01
        then some (
            answered s "active_dash_query" frame group device
              (0x28 ∷ 0x01 ∷ s.active_dash_pages % 256 ∷ index ∷ []))
        else none
      else none

  unfoldable pub try_hub_cfg : Handler X
  unfolding first_prefix
  try_hub_cfg s frame group device payload =
      if (group == 0x1F && device == 0x12) && not (is_empty payload)
      then on_found (first_prefix (3 ∷ 2 ∷ 1 ∷ []) (λ sub. lookup sub hub_cfg_values) payload)
          (λ (sub, val). answered s "hub_cfg" frame group device (sub ++ val))
      else none

  unfoldable pub try_plugin_probe : Handler X
  unfolding first_prefix
  try_plugin_probe s frame group device payload =
      on_found
        (first_prefix (4 ∷ 3 ∷ 2 ∷ 1 ∷ []) (λ sub. lookup (group, (device, sub)) s.plugin_probe_rsp)
          payload)
        (λ (sub, rsp). answered s "plugin_probe" frame group device rsp)

  unfoldable pub try_synth_probe : Handler X
  try_synth_probe s frame group device payload =
      on_found (lookup (group, device) probe_synth)
        (λ (rsp_group, rsp_dev). replied s "probe" frame rsp_group rsp_dev payload)

  unfoldable pub try_pithouse_identity : Handler X
  try_pithouse_identity s frame group device payload =
      if device == s.wheel_device
      then on_found (lookup (group, payload) s.pithouse_id_rsp)
          (λ id_rsp. replied s "identity" frame (bit_or group 0x80) s.wheel_device_rsp id_rsp)
      else none

  unfoldable pub try_device_identity : Handler X
  try_device_identity s frame group device payload =
      on_found (lookup (device, (group, payload)) s.device_id_rsp)
        (λ dev_id_rsp. answered s "dev_identity" frame group device dev_id_rsp)

  -- A parameter that is not in the table reads as zero.
  unfoldable pub param_0e_fallback : Wheel X → Bytes → ℕ → Bytes → Wheel X × Replies
  param_0e_fallback s frame device payload =
      if length payload == 3
      then replied s "param_0e_zero" frame 0x8E (swap_nibbles device)
          (payload ++ 0x00 ∷ 0x00 ∷ 0x00 ∷ 0x00 ∷ [])
      else (record_tagged "fw_debug" frame s, ok [])

  unfoldable pub try_param_0e : Handler X
  unfolding param_0e_fallback
  try_param_0e s frame group device payload =
      if group == 0x0E
      then some (elim (lookup payload (get_else (lookup device s.param_0e_tables) [])) [
        | some resp ↦ replied s "param_0e" frame 0x8E (swap_nibbles device) resp
        | none ↦ param_0e_fallback s frame device payload
      ])
      else none

  -- A device that is not simulated is dropped without a record.
  unfoldable pub ack_simulated : Wheel X → String → Bytes → ℕ → ℕ → Bytes → Wheel X × Replies
  unfolding contains
  ack_simulated s tag frame device rsp_group body =
      if contains device s.simulated_devices
      then replied s tag frame rsp_group (swap_nibbles device) body
      else (s, ok [])

  unfoldable pub try_heartbeat : Handler X
  unfolding ack_simulated
  try_heartbeat s frame group device payload =
      if group == 0x00 && is_empty payload
      then some (ack_simulated s "heartbeat" frame device 0x80 [])
      else none

  unfoldable pub try_keepalive_43 : Handler X
  unfolding ack_simulated
  try_keepalive_43 s frame group device payload =
      if group == 0x43 && bytes_eqb payload (0x00 ∷ [])
      then some (ack_simulated s "keepalive_43" frame device 0xC3 (0x80 ∷ []))
      else none

  unfoldable pub try_wheel_write_echo : Handler X
  unfolding first_prefix is_member
  try_wheel_write_echo s frame group device payload =
      on_found
        (first_prefix (2 ∷ 1 ∷ [])
          (λ sub. if is_member (group, (device, sub)) wheel_echo_prefixes then some sub else none)
          payload)
        (λ found. answered s "wheel_write" frame group device payload)

  unfoldable pub try_base_write : Handler X
  try_base_write s frame group device payload =
      if group == 0x29 && device == 0x13
      then some (answered s "base_write" frame group device payload)
      else none

  unfoldable pub try_settings_echo : Handler X
  unfolding in_groups contains
  try_settings_echo s frame group device payload =
      if in_groups group (lookup device s.settings_echo) && contains device s.simulated_devices
      then some (answered s "settings_write" frame group device payload)
      else none

  unfoldable pub try_absorb : Handler X
  unfolding in_groups
  try_absorb s frame group device payload =
      if in_groups group (lookup device s.absorb)
      then some (record_tagged "absorb" frame s, ok [])
      else none

  unfoldable pub commit_dash : Bytes → Wheel X → Wheel X
  unfolding is_dash_commit
  commit_dash pl s =
      if is_dash_commit pl then record s { active_dash_index = get_or pl 2 0 % 256 } else s

  unfoldable pub try_base_param_write : Handler X
  unfolding commit_dash param_ack
  try_base_param_write s frame group device payload =
      if group == 0x2A && device == 0x13
      then some (
          answered (commit_dash payload s) "base_param_write" frame group device
            (param_ack payload))
      else none

  unfoldable pub try_replay : Handler X
  unfolding replay_lookup
  try_replay s frame group device payload =
      if ((group == 0x43 && device == 0x17) && not (is_empty payload)) && get_or payload 0 0 == 0x7C
      then none
      else on_found (replay_lookup s.replay group device payload) (λ recorded. (
        record_tagged "replay" frame (record s { replay_hits = s.replay_hits + 1 }),
        ok (recorded ∷ []),
      ))

  unfoldable pub try_wheel_cfg_echo : Handler X
  try_wheel_cfg_echo s frame group device payload =
      if group == 0x40 && device == s.wheel_device
      then some (replied s "wheel_cfg_echo" frame 0xC0 s.wheel_device_rsp payload)
      else none
