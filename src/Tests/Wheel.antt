-- ===== src/Tests/Wheel.antt =====
-- The dispatch chain of `WheelSimulator` at concrete frames.
use moza_simulator.Base.{◌≡◌, refl, [], ◌∷◌, none, some, Bytes, arith, pair-key, ℕ-key, Bytes-key}
use moza_simulator.Base.Raise.{ok}
use moza_simulator.Wire.{verify, framed, frame_head, frame_checksum, checksum, sum, count}
use moza_simulator.Wire.Frame.{verify-framed}
use moza_simulator.Wheel.{Wheel}
use moza_simulator.Wheel.Dispatch.{SessionHandler, handle_frame}
use moza_simulator.Wheel.Led.{masks, handle_frame-masks}
use moza_simulator.Wheel.Verified.{SoundReplies, handle_frame-SoundReplies}

-- A captured answer of the base.
abbrev recorded : Bytes
recorded = framed 0xAB 0x31 (0x02 ∷ [])

-- A wheel at 0x17 with an identity and one recorded answer.
abbrev wheel : Wheel Unit
wheel = record {
  wheel_device = 0x17;
  wheel_device_rsp = 0x71;
  plugin_probe_rsp = ((0x40, (0x17, 0x05 ∷ [])), 0x05 ∷ 0x00 ∷ []) ∷ [];
  pithouse_id_rsp = ((0x09, []), 0x00 ∷ 0x01 ∷ []) ∷ [];
  device_id_rsp = ((0x12, (0x02, [])), 0x02 ∷ []) ∷ [];
  param_0e_tables = [];
  settings_echo = (0x19, 0x24 ∷ []) ∷ [];
  absorb = [];
  simulated_devices = 0x12 ∷ 0x13 ∷ 0x17 ∷ [];
  replay = some (((0x2C, (0x13, 0x02 ∷ [])), recorded) ∷ []);
  annotate = λ group device payload. "";
  active_dash_index = 1;
  active_dash_pages = 1;
  rpm_led_mask = 0;
  button_led_mask = 7;
  frames_total = 0;
  replay_hits = 0;
  cat_counts = [];
  last_frame = [];
  last_handler_tag = "";
  recent_frames = [];
  unhandled_counts = [];
  unhandled_labels = [];
  unhandled_total = 0;
  last_unhandled = none;
  last_unhandled_label = "";
  pending_sends = framed 0xC3 0x71 (0x7E ∷ []) ∷ [];
  engine = tt;
}

-- A session handler that acknowledges every frame.
abbrev acknowledging : SessionHandler Unit
acknowledging s frame = (s, ok (some ("session", framed 0xC3 0x71 (0xFC ∷ []) ∷ [])))

-- Five RPM LEDs on.
abbrev leds : Bytes
leds = framed 0x3F 0x17 (0x1A ∷ 0x00 ∷ 0x1F ∷ 0x00 ∷ [])

handle_frame-masks_example : masks (handle_frame acknowledging wheel leds).0 ≡ (31, 7)
unfolding framed frame_head frame_checksum checksum sum count verify
handle_frame-masks_example =
    handle_frame-masks acknowledging wheel 0x7E 4 0x00 0x1F 0x00
      (0x1A ∷ 0x00 ∷ 0x1F ∷ 0x00 ∷ 0x1E ∷ []) [] refl refl refl (omega arith)

-- The recorded answer and the queued frame go out.
handle_frame-SoundReplies_example :
    SoundReplies (handle_frame acknowledging wheel (framed 0x2C 0x13 (0x02 ∷ [])))
handle_frame-SoundReplies_example =
    handle_frame-SoundReplies acknowledging wheel (framed 0x2C 0x13 (0x02 ∷ []))
      (λ s frame h. (h, (verify-framed 0xC3 0x71 (0xFC ∷ []), tt)))
      ((verify-framed 0xAB 0x31 (0x02 ∷ []), tt), (verify-framed 0xC3 0x71 (0x7E ∷ []), tt))
