-- ===== src/Wheel/Led.antt =====
-- The LED masks of a `WheelSimulator`.
use moza_simulator.Base.{
  ℕ, zero, suc, le→leb, ◌+◌, ◌*◌, ◌≤◌, ◌≡◌, refl, ap, ◌∙◌, ◌∷◌, none, some, Bytes, take, true, inl,
  inr, ◌==◌, if◌then◌else◌, length, arith,
}
use moza_simulator.Base.Raise.{ok, err}
use moza_simulator.Wire.{verify}
use moza_simulator.Standalone.{Replies}
use moza_simulator.Wheel.{Wheel, record_tagged, record_gap}
use moza_simulator.Wheel.Handlers.{Tries}
use moza_simulator.Wheel.Dispatch.{
  SessionHandler, decode_led_mask, dispatch, handle_core, handle_frame, flush_pending,
}
use moza_simulator.Wheel.Routes.{counted, handle_core-dispatch}
use moza_simulator.Wheel.Tried.{
  Tried, passed, dropped, absorbed, sent, committed, replayed, masked, dispatch-Tried,
}

abbrev pub masks : {X : Type 0} → Wheel X → ℕ × ℕ
masks s = (s.rpm_led_mask, s.button_led_mask)

abbrev masks_in : {X : Type 0} → Wheel X → Tries X → ℕ × ℕ
masks_in s none = masks s
masks_in s (some done) = masks done.0

module _ {X : Type 0} where
  Tried-masks :
      (s : Wheel X) (frame : Bytes) (r : Tries X) → Tried s frame r → masks_in s r ≡ masks s
  unfolding record_tagged
  Tried-masks s frame r (passed e) = ap (masks_in s) e
  Tried-masks s frame r (dropped e) = ap (masks_in s) e
  Tried-masks s frame r (absorbed tag e) = ap (masks_in s) e
  Tried-masks s frame r (sent tag group device body e) = ap (masks_in s) e
  Tried-masks s frame r (committed index group device body e) = ap (masks_in s) e
  Tried-masks s frame r (replayed group device payload recorded h e) = ap (masks_in s) e

  dispatch-masks :
      (s : Wheel X) (frame : Bytes) (group device : ℕ) (payload : Bytes)
      → masks (dispatch s frame group device payload).0
        ≡ masks (masked s frame group device payload)
  unfolding record_gap record_tagged
  dispatch-masks s frame group device payload = elim (dispatch-Tried s frame group device payload) [
    | inl (r, h, e) ↦
        ap (λ t. masks t.0) e ∙ Tried-masks (masked s frame group device payload) frame (some r) h
    | inr e ↦ ap (λ t. masks t.0) e
  ]

  flush_pending-masks : (r : Wheel X × Replies) → masks (flush_pending r).0 ≡ masks r.0
  unfolding flush_pending
  flush_pending-masks (s, ok rsp) = refl
  flush_pending-masks (s, err e) = refl

  decode_led_mask-masks :
      (s : Wheel X) (which low high : ℕ) (rest : Bytes)
      → which ≤ 1
      → masks (decode_led_mask 0x3F 0x17 (0x1A ∷ which ∷ low ∷ high ∷ rest) s) ≡ (
          if which == 0
          then (low + high * 256, s.button_led_mask)
          else (s.rpm_led_mask, low + high * 256))
  unfolding decode_led_mask
  decode_led_mask-masks s zero low high rest h =
      rw (le→leb 4 (length (0x1A ∷ 0 ∷ low ∷ high ∷ rest)) (omega arith)) refl
  decode_led_mask-masks s (suc zero) low high rest h =
      rw (le→leb 4 (length (0x1A ∷ 1 ∷ low ∷ high ∷ rest)) (omega arith)) refl
  decode_led_mask-masks s (suc (suc w)) low high rest h = absurd (omega arith)

  -- On a wheel of the new protocol, at the address 0x17, a frame that verifies and writes the RPM
  -- or the button LEDs sets that mask to its two bytes, low byte first, and keeps the other mask,
  -- whichever handler of the chain answers the frame.
  pub handle_frame-masks :
      (session : SessionHandler X) (s : Wheel X) (start n which low high : ℕ) (body rest : Bytes)
      → s.wheel_device ≡ 0x17
      → verify (start ∷ n ∷ 0x3F ∷ 0x17 ∷ body) ≡ true
      → take n body ≡ 0x1A ∷ which ∷ low ∷ high ∷ rest
      → which ≤ 1
      → masks (handle_frame session s (start ∷ n ∷ 0x3F ∷ 0x17 ∷ body)).0 ≡ (
          if which == 0
          then (low + high * 256, s.button_led_mask)
          else (s.rpm_led_mask, low + high * 256))
  unfolding handle_frame
  handle_frame-masks session s start n which low high body rest w v p c =
      flush_pending-masks (handle_core session s (start ∷ n ∷ 0x3F ∷ 0x17 ∷ body))
      ∙ ap (λ t. masks t.0)
          (handle_core-dispatch session s start n 0x3F 0x17 body (rw w refl, refl) v p)
      ∙ dispatch-masks (counted session s) (start ∷ n ∷ 0x3F ∷ 0x17 ∷ body) 0x3F 0x17
          (0x1A ∷ which ∷ low ∷ high ∷ rest)
      ∙ decode_led_mask-masks (counted session s) which low high rest c
