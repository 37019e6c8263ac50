-- ===== src/Wheel/Tried.antt =====
-- What a handler of the dispatch chain can do, as a relation: the handlers are its cases.
use moza_simulator.Base.{
  ℕ, ◌+◌, ◌≡◌, refl, subst, List, [], ◌∷◌, Option, none, some, Bytes, String, Bool, true, false,
  if◌then◌else◌, inl, inr, ◌⊎◌, Option-cases, Bool-cases, length, ◌==◌, ℕ-key, Bytes-key, All,
}
use moza_simulator.Base.Raise.{ok}
use moza_simulator.Base.Dict.{lookup}
use moza_simulator.Identity.{get_else}
use moza_simulator.Standalone.{Replies, answer, contains}
use moza_simulator.Wire.{swap_nibbles}
use moza_simulator.Wheel.{Wheel, record_tagged, record_gap}
use moza_simulator.Wheel.Handlers.{
  Handler, Tries, on_found, replied, answered, ack_simulated, param_0e_fallback, commit_dash,
  param_ack, is_dash_commit, replay_lookup, try_active_dash_query, try_hub_cfg, try_plugin_probe,
  try_synth_probe, try_pithouse_identity, try_device_identity, try_param_0e, try_heartbeat,
  try_keepalive_43, try_wheel_write_echo, try_base_write, try_settings_echo, try_absorb,
  try_base_param_write, try_replay, try_wheel_cfg_echo,
}
use moza_simulator.Wheel.Dispatch.{first_of, dispatch_chain, decode_led_mask, dispatch}

module _ {X : Type 0} (s : Wheel X) (frame : Bytes) where
  pub data Tried (r : Tries X) : Type 0 where
    passed : r ≡ none → Tried r
    dropped : r ≡ some (s, ok []) → Tried r
    absorbed : (tag : String) → r ≡ some (record_tagged tag frame s, ok []) → Tried r
    sent :
        (tag : String) (group device : ℕ) (body : Bytes)
        → r ≡ some (record_tagged tag frame s, answer group device body)
        → Tried r
    committed :
        (index group device : ℕ) (body : Bytes)
        → r
          ≡ some (
            record_tagged "base_param_write" frame (record s { active_dash_index = index }),
            answer group device body,
          )
        → Tried r
    replayed :
        (group device : ℕ) (payload recorded : Bytes)
        → replay_lookup s.replay group device payload ≡ some recorded
        → r
          ≡ some (
            record_tagged "replay" frame (record s { replay_hits = s.replay_hits + 1 }),
            ok (recorded ∷ []),
          )
        → Tried r

  Tried-if : (c : Bool) {r q : Tries X} → Tried r → Tried q → Tried (if c then r else q)
  Tried-if true h k = h
  Tried-if false h k = k

  Tried-on_found {ℓ} :
      {A : Type ℓ} (o : Option A) (f : A → Wheel X × Replies)
      → ((a : A) → o ≡ some a → Tried (some (f a)))
      → Tried (on_found o f)
  Tried-on_found none f h = passed refl
  Tried-on_found (some a) f h = h a refl

  Tried-replied :
      (tag : String) (group device : ℕ) (body : Bytes)
      → Tried (some (replied s tag frame group device body))
  Tried-replied tag group device body = sent tag group device body refl

  Tried-acknowledge :
      (tag : String) (device rsp_group : ℕ) (body : Bytes)
      → Tried (some (ack_simulated s tag frame device rsp_group body))
  unfolding ack_simulated
  Tried-acknowledge tag device rsp_group body =
      elim (Bool-cases (contains device s.simulated_devices)) [
        | inl e ↦ rw e (sent _ _ _ _ refl)
        | inr e ↦ rw e (dropped refl)
      ]

  module _ (group device : ℕ) (payload : Bytes) where
    try_active_dash_query-Tried : Tried (try_active_dash_query s frame group device payload)
    unfolding try_active_dash_query
    try_active_dash_query-Tried = search (Tried-if, Tried-replied, passed)

    try_hub_cfg-Tried : Tried (try_hub_cfg s frame group device payload)
    unfolding try_hub_cfg
    try_hub_cfg-Tried = Tried-if _ (Tried-on_found _ _ (λ a e. sent _ _ _ _ refl)) (passed refl)

    try_plugin_probe-Tried : Tried (try_plugin_probe s frame group device payload)
    unfolding try_plugin_probe
    try_plugin_probe-Tried = Tried-on_found _ _ (λ a e. sent _ _ _ _ refl)

    try_synth_probe-Tried : Tried (try_synth_probe s frame group device payload)
    unfolding try_synth_probe
    try_synth_probe-Tried = Tried-on_found _ _ (λ a e. sent _ _ _ _ refl)

    try_pithouse_identity-Tried : Tried (try_pithouse_identity s frame group device payload)
    unfolding try_pithouse_identity
    try_pithouse_identity-Tried =
        Tried-if _ (Tried-on_found _ _ (λ a e. sent _ _ _ _ refl)) (passed refl)

    try_device_identity-Tried : Tried (try_device_identity s frame group device payload)
    unfolding try_device_identity
    try_device_identity-Tried = Tried-on_found _ _ (λ a e. sent _ _ _ _ refl)

    param_0e_fallback-Tried : Tried (some (param_0e_fallback s frame device payload))
    unfolding param_0e_fallback
    param_0e_fallback-Tried = elim (Bool-cases (length payload == 3)) [
      | inl e ↦ rw e (sent _ _ _ _ refl)
      | inr e ↦ rw e (absorbed _ refl)
    ]

    try_param_0e-Tried : Tried (try_param_0e s frame group device payload)
    unfolding try_param_0e
    try_param_0e-Tried = Tried-if _ read (passed refl)
      where
        entry : Option Bytes
        entry = lookup payload (get_else (lookup device s.param_0e_tables) [])

        read : Tried (
            some (elim entry [
              | some resp ↦ replied s "param_0e" frame 0x8E (swap_nibbles device) resp
              | none ↦ param_0e_fallback s frame device payload
            ]))
        read = elim (Option-cases entry) [
          | inl e ↦ rw e param_0e_fallback-Tried
          | inr (resp, e) ↦ rw e (sent _ _ _ _ refl)
        ]

    try_heartbeat-Tried : Tried (try_heartbeat s frame group device payload)
    unfolding try_heartbeat
    try_heartbeat-Tried = Tried-if _ (Tried-acknowledge _ device _ _) (passed refl)

    try_keepalive_43-Tried : Tried (try_keepalive_43 s frame group device payload)
    unfolding try_keepalive_43
    try_keepalive_43-Tried = Tried-if _ (Tried-acknowledge _ device _ _) (passed refl)

    try_wheel_write_echo-Tried : Tried (try_wheel_write_echo s frame group device payload)
    unfolding try_wheel_write_echo
    try_wheel_write_echo-Tried = Tried-on_found _ _ (λ a e. sent _ _ _ _ refl)

    try_base_write-Tried : Tried (try_base_write s frame group device payload)
    unfolding try_base_write
    try_base_write-Tried = Tried-if _ (sent _ _ _ _ refl) (passed refl)

    try_settings_echo-Tried : Tried (try_settings_echo s frame group device payload)
    unfolding try_settings_echo
    try_settings_echo-Tried = Tried-if _ (sent _ _ _ _ refl) (passed refl)

    try_absorb-Tried : Tried (try_absorb s frame group device payload)
    unfolding try_absorb
    try_absorb-Tried = Tried-if _ (absorbed _ refl) (passed refl)

    try_base_param_write-Tried : Tried (try_base_param_write s frame group device payload)
    unfolding try_base_param_write commit_dash
    try_base_param_write-Tried = Tried-if _ written (passed refl)
      where
        written : Tried (
            some (
              answered
                (commit_dash payload s)
                "base_param_write"
                frame
                group
                device
                (param_ack payload)))
        written = elim (Bool-cases (is_dash_commit payload)) [
          | inl e ↦ rw e (committed _ _ _ _ refl)
          | inr e ↦ rw e (sent _ _ _ _ refl)
        ]

    try_replay-Tried : Tried (try_replay s frame group device payload)
    unfolding try_replay
    try_replay-Tried =
        Tried-if _ (passed refl)
          (Tried-on_found _ _ (λ recorded e. replayed group device payload recorded e refl))

    try_wheel_cfg_echo-Tried : Tried (try_wheel_cfg_echo s frame group device payload)
    unfolding try_wheel_cfg_echo
    try_wheel_cfg_echo-Tried = Tried-if _ (sent _ _ _ _ refl) (passed refl)

    first_of-Tried :
        (tries : List (Handler X))
        → All (λ try. Tried (try s frame group device payload)) tries
        → Tried (first_of tries s frame group device payload)
    unfolding first_of
    first_of-Tried [] h = passed refl
    first_of-Tried (try ∷ tries) h = elim (Option-cases (try s frame group device payload)) [
      | inl e ↦ rw e (first_of-Tried tries h.1)
      | inr (done, e) ↦ rw (e, ← e) h.0
    ]

    dispatch_chain-Tried : Tried (first_of dispatch_chain s frame group device payload)
    dispatch_chain-Tried = first_of-Tried dispatch_chain (
        search (
          try_active_dash_query-Tried, try_hub_cfg-Tried, try_plugin_probe-Tried,
          try_synth_probe-Tried, try_pithouse_identity-Tried, try_device_identity-Tried,
          try_param_0e-Tried, try_heartbeat-Tried, try_keepalive_43-Tried,
          try_wheel_write_echo-Tried, try_base_write-Tried, try_settings_echo-Tried,
          try_absorb-Tried, try_base_param_write-Tried, try_replay-Tried, try_wheel_cfg_echo-Tried,
        ))

module _ {X : Type 0} (s : Wheel X) (frame : Bytes) (group device : ℕ) (payload : Bytes) where
  -- The state that the chain starts from.
  abbrev pub masked : Wheel X
  masked = decode_led_mask group device payload s

  -- `dispatch` takes what the chain gives, or records the frame as unhandled.
  pub dispatch-Tried :
      ((r : Wheel X × Replies) × (Tried masked frame (some r))
        × (dispatch s frame group device payload ≡ r))
      ⊎ (dispatch s frame group device payload
          ≡ (record_gap frame group device payload masked, ok []))
  unfolding dispatch
  dispatch-Tried = elim (Option-cases (first_of dispatch_chain masked frame group device payload)) [
    | inl e ↦ inr (rw (dispatch, e) refl)
    | inr (r, e) ↦ inl (
      r,
      subst (Tried masked frame) e (dispatch_chain-Tried masked frame group device payload),
      rw (dispatch, e) refl,
    )
  ]
