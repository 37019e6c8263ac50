-- ===== src/Wheel/Dispatch.antt =====
-- sim/wheel_sim.py, `WheelSimulator._handle_core` and `handle`.
use moza_simulator.Base.{
  ℕ, ◌+◌, ◌*◌, List, [], ◌∷◌, ◌++◌, Option, none, some, Bytes, length, take, get_or, ◌&&◌, ◌||◌,
  not, leb, ◌==◌, if◌then◌else◌, String,
}
use moza_simulator.Base.Raise.{Result, ok, err}
use moza_simulator.Wire.{verify}
use moza_simulator.Standalone.{Replies}
use moza_simulator.Wheel.{Wheel, record_tagged, record_gap}
use moza_simulator.Wheel.Handlers.{
  Handler, try_active_dash_query, try_hub_cfg, try_plugin_probe, try_synth_probe,
  try_pithouse_identity, try_device_identity, try_param_0e, try_heartbeat, try_keepalive_43,
  try_wheel_write_echo, try_base_write, try_settings_echo, try_absorb, try_base_param_write,
  try_replay, try_wheel_cfg_echo,
}

-- `_handle_wheel`: the new state, with the tag and the replies, `none` for a frame that it does not
-- know, or an exception.
abbrev pub SessionHandler : Type 0 → Type 0
SessionHandler X = Wheel X → Bytes → Wheel X × Result (Option (String × List Bytes))

module _ {X : Type 0} where
  unfoldable pub decode_led_mask : ℕ → ℕ → Bytes → Wheel X → Wheel X
  decode_led_mask group device payload s =
      let mask = get_or payload 2 0 + get_or payload 3 0 * 256 in
      if ((group == 0x3F && device == 0x17) && leb 4 (length payload))
        && (get_or payload 0 0 == 0x1A
            && (get_or payload 1 0 == 0x00 || get_or payload 1 0 == 0x01))
      then if get_or payload 1 0 == 0x00
        then record s { rpm_led_mask = mask }
        else record s { button_led_mask = mask }
      else s

  -- The first handler that does not fall through.
  unfoldable pub first_of : List (Handler X) → Handler X
  first_of [] s frame group device payload = none
  first_of (try ∷ tries) s frame group device payload = elim (try s frame group device payload) [
    | some done ↦ some done
    | none ↦ first_of tries s frame group device payload
  ]

  abbrev pub dispatch_chain : List (Handler X)
  dispatch_chain =
      try_active_dash_query ∷ try_hub_cfg ∷ try_plugin_probe ∷ try_synth_probe
      ∷ try_pithouse_identity ∷ try_device_identity ∷ try_param_0e ∷ try_heartbeat
      ∷ try_keepalive_43 ∷ try_wheel_write_echo ∷ try_base_write ∷ try_settings_echo ∷ try_absorb
      ∷ try_base_param_write ∷ try_replay ∷ try_wheel_cfg_echo ∷ []

  -- From the LED masks on.
  unfoldable pub dispatch : Wheel X → Bytes → ℕ → ℕ → Bytes → Wheel X × Replies
  unfolding decode_led_mask first_of record_gap
  dispatch s frame group device payload =
      let t = decode_led_mask group device payload s in
      elim (first_of dispatch_chain t frame group device payload) [
        | some done ↦ done
        | none ↦ (record_gap frame group device payload t, ok [])
      ]

  unfoldable pub after_session :
      Bytes → ℕ → ℕ → Bytes → Wheel X × Result (Option (String × List Bytes)) → Wheel X × Replies
  unfolding dispatch record_tagged
  after_session frame group device payload (s, err e) = (s, err e)
  after_session frame group device payload (s, ok (some (tag, rsp))) =
      (record_tagged tag frame s, ok rsp)
  after_session frame group device payload (s, ok none) = dispatch s frame group device payload

  -- A frame that is counted.
  unfoldable pub handle_counted :
      SessionHandler X → Wheel X → Bytes → ℕ → ℕ → Bytes → Wheel X × Replies
  unfolding after_session dispatch record_tagged
  handle_counted session s frame group device payload =
      if device == 0x17 && not (s.wheel_device == 0x17)
      then (record_tagged "es_drop_17" frame s, ok [])
      else if group == 0x43 && device == s.wheel_device
      then after_session frame group device payload (session s frame)
      else dispatch s frame group device payload

  -- `frame_payload(frame)` is `frame[4:4 + frame[1]]`.
  unfoldable pub handle_core : SessionHandler X → Wheel X → Bytes → Wheel X × Replies
  unfolding handle_counted
  handle_core session s (start ∷ n ∷ group ∷ device ∷ body) =
      let frame = start ∷ n ∷ group ∷ device ∷ body in
      let t = record s { frames_total = s.frames_total + 1 } in
      if verify frame then handle_counted session t frame group device (take n body) else (s, ok [])
  handle_core session s _ = (s, ok [])

  -- The frames that timers have queued go out behind the replies.
  unfoldable pub flush_pending : Wheel X × Replies → Wheel X × Replies
  flush_pending (s, ok rsp) = (record s { pending_sends = [] }, ok (rsp ++ s.pending_sends))
  flush_pending (s, err e) = (s, err e)

  unfoldable pub handle_frame : SessionHandler X → Wheel X → Bytes → Wheel X × Replies
  unfolding handle_core flush_pending
  handle_frame session s frame = flush_pending (handle_core session s frame)
