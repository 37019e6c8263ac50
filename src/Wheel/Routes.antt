-- ===== src/Wheel/Routes.antt =====
-- Which frames of a `WheelSimulator` reach its dispatch chain.
use moza_simulator.Base.{ℕ, ◌+◌, ◌≡◌, refl, ◌∷◌, Bytes, take, true, false, ◌&&◌, not, ◌==◌}
use moza_simulator.Wire.{verify}
use moza_simulator.Wheel.{Wheel}
use moza_simulator.Wheel.Dispatch.{SessionHandler, dispatch, handle_counted, handle_core}

module _ {X : Type 0} (session : SessionHandler X) (s : Wheel X) where
  abbrev pub counted : Wheel X
  counted = record s { frames_total = s.frames_total + 1 }

  -- Neither for 0x17 on a wheel at another address, nor a session frame of the wheel.
  abbrev pub IsPlain : ℕ → ℕ → Type 0
  IsPlain group device =
      ((device == 0x17 && not (s.wheel_device == 0x17)) ≡ false)
      × ((group == 0x43 && device == s.wheel_device) ≡ false)

  handle_counted-dispatch :
      (frame : Bytes) (group device : ℕ) (payload : Bytes)
      → IsPlain group device
      → handle_counted session counted frame group device payload
        ≡ dispatch counted frame group device payload
  unfolding handle_counted
  handle_counted-dispatch frame group device payload (es, plain) = rw (es, plain) refl

  pub handle_core-dispatch :
      (start n group device : ℕ) (body : Bytes) {payload : Bytes}
      → IsPlain group device
      → verify (start ∷ n ∷ group ∷ device ∷ body) ≡ true
      → take n body ≡ payload
      → handle_core session s (start ∷ n ∷ group ∷ device ∷ body)
        ≡ dispatch counted (start ∷ n ∷ group ∷ device ∷ body) group device payload
  unfolding handle_core
  handle_core-dispatch start n group device body {payload} h v p =
      rw (v, p) (handle_counted-dispatch (start ∷ n ∷ group ∷ device ∷ body) group device payload h)
