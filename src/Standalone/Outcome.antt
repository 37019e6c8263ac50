-- ===== src/Standalone/Outcome.antt =====
-- The generic steps of `StandaloneSimulator.handle` as a relation: the ways in which a frame can be
-- handled, with the state and the replies of each.
use moza_simulator.Base.{
  ℕ, ◌+◌, ◌≤◌, ◌≡◌, refl, [], ◌∷◌, none, some, Bytes, length, bit_or, String, true, ◌&&◌, ◌==◌,
  arith, bytes_eqb, ℕ-key, pair-key, Bytes-key, inl, inr, ◌⊎◌, Bool-cases, Option-cases,
}
use moza_simulator.Base.Raise.{ok}
use moza_simulator.Base.Dict.{lookup}
use moza_simulator.Wire.{swap_nibbles}
use moza_simulator.Standalone.{
  Sim, Replies, answer, in_groups, contains, is_empty, handle_generic, handle_identity,
  handle_settings, handle_settings_read, handle_settings_write, settings_reply, stored_value,
  store_setting, record_frame, record_unhandled, handle_rest, acknowledge,
}

module _ {X : Type 0} (s : Sim X) (frame : Bytes) (group device : ℕ) (payload : Bytes) where
  -- A reply to the frame.
  abbrev pub reply_with : Bytes → Replies
  reply_with body = answer (bit_or group 0x80) (swap_nibbles device) body

  pub data Outcome (r : Sim X × Replies) : Type 0 where
    silent : r ≡ (s, ok []) → Outcome r
    acknowledged :
        (tag : String) (body : Bytes)
        → length body ≤ 1
        → r ≡ (record_frame tag frame s, reply_with body)
        → Outcome r
    identified :
        (idr : Bytes)
        → lookup (device, (group, payload)) s.identity ≡ some idr
        → r ≡ (record_frame "identity" frame s, reply_with idr)
        → Outcome r
    wrote :
        r ≡ (
          record_frame "settings_write" frame (store_setting device payload s),
          reply_with payload,
        )
        → Outcome r
    read :
        (cmd : ℕ)
        → r ≡ (record_frame "settings_read" frame s, reply_with (cmd ∷ stored_value s device cmd))
        → Outcome r
    absorbed : r ≡ (record_frame "absorb" frame s, ok []) → Outcome r
    unhandled : r ≡ (record_unhandled frame group device payload s, ok []) → Outcome r

  rest-Outcome : Outcome (handle_rest s frame group device payload)
  unfolding handle_rest
  rest-Outcome = elim (Bool-cases (in_groups group (lookup device s.absorb_groups))) [
    | inl h ↦ absorbed (rw h)
    | inr h ↦ unhandled (rw h)
  ]

  read_cases :
      (handle_settings_read s frame group device payload ≡ none)
      ⊎ ((cmd : ℕ) × (handle_settings_read s frame group device payload
            ≡ some (
              record_frame "settings_read" frame s,
              reply_with (cmd ∷ stored_value s device cmd),
            )))
  unfolding handle_settings_read
  read_cases = elim (Bool-cases (in_groups (group + 1) (lookup device s.settings_groups))) [
    | inl h ↦ rw h (replied payload)
    | inr h ↦ inl (rw h)
  ]
    where
      replied :
          (p : Bytes)
          → (settings_reply s frame group device p ≡ none)
            ⊎ ((cmd : ℕ) × (settings_reply s frame group device p
                  ≡ some (
                    record_frame "settings_read" frame s,
                    reply_with (cmd ∷ stored_value s device cmd),
                  )))
      replied [] = inl (unfold settings_reply in refl)
      replied (cmd ∷ rest) = inr (cmd, unfold settings_reply in refl)

  settings-Outcome : Outcome (handle_settings s frame group device payload)
  unfolding handle_settings
  settings-Outcome = elim (Bool-cases (in_groups group (lookup device s.settings_groups))) [
    | inl h ↦ rw h (wrote (unfold handle_settings_write in refl))
    | inr h ↦
        rw h (elim read_cases [ inl e ↦ rw e rest-Outcome | inr (cmd, e) ↦ rw e (read cmd refl) ])
  ]

  identity-Outcome : Outcome (handle_identity s frame group device payload)
  unfolding handle_identity
  identity-Outcome = elim (Option-cases (lookup (device, (group, payload)) s.identity)) [
    | inl e ↦ rw (e, handle_identity) settings-Outcome
    | inr (idr, e) ↦ rw (e, handle_identity) (identified idr e refl)
  ]

  ack-Outcome :
      (tag : String) (g : ℕ) (body : Bytes)
      → g ≡ bit_or group 0x80
      → length body ≤ 1
      → Outcome (acknowledge s tag frame device (answer g (swap_nibbles device) body))
  unfolding acknowledge
  ack-Outcome tag g body e h = elim (Bool-cases (contains device s.present)) [
    | inl p ↦ rw p (rw e (acknowledged tag body h refl))
    | inr p ↦ rw p (silent refl)
  ]

  -- Each frame that no hook claims is handled in one of these ways.
  pub handle_generic-Outcome : Outcome (handle_generic s frame group device payload)
  unfolding handle_generic
  handle_generic-Outcome = elim (Bool-cases (group == 0x00 && is_empty payload)) [
    | inl h ↦
        rw h
          (let e : group ≡ 0 = zero_group h in ack-Outcome "heartbeat" 0x80 [] (rw e) (omega arith))
    | inr h ↦ rw h (elim (Bool-cases (group == 0x43 && bytes_eqb payload (0x00 ∷ []))) [
      | inl k ↦ rw k (
          let e : group ≡ 0x43 = ping_group k in
          ack-Outcome "keepalive_43" 0xC3 (0x80 ∷ []) (rw e) (omega arith))
      | inr k ↦ rw k identity-Outcome
    ])
  ]
    where
      zero_group : (group == 0x00 && is_empty payload) ≡ true → group ≡ 0
      zero_group h = ground arith

      ping_group : (group == 0x43 && bytes_eqb payload (0x00 ∷ [])) ≡ true → group ≡ 0x43
      ping_group h = ground arith
