-- ===== src/Standalone/Settings.antt =====
-- Settings of a `StandaloneSimulator`: a write is echoed and stored, a read returns what was stored.
use moza_simulator.Base.{
  ℕ, ◌+◌, ◌≡◌, ◌≢◌, refl, ap, ◌∙◌, [], ◌∷◌, ◌++◌, none, Bytes, length, bit_or, true, false, arith,
  take-append, ℕ-key, pair-key, Bytes-key,
}
use moza_simulator.Base.Dict.{lookup, lookup-insert_self}
use moza_simulator.Wire.{msg_start, verify, framed, frame_head, frame_checksum, swap_nibbles}
use moza_simulator.Wire.Frame.{verify-framed}
use moza_simulator.Standalone.{
  Sim, Hook, Replies, answer, in_groups, handle, handle_generic, handle_identity, handle_settings,
  handle_settings_read, handle_settings_write, settings_reply, stored_value, store_setting,
  record_frame, after_hook, count_frame, no_hook,
}

-- A frame that `build_frame` made reaches the hook with its own group, device and payload.
pub handle-framed :
    {X : Type 0} (hook : Hook X) (s : Sim X) (group device : ℕ) (payload : Bytes)
    → handle hook s (framed group device payload)
      ≡ after_hook
          (framed group device payload)
          group
          device
          payload
          (hook (count_frame s) (framed group device payload) group device payload)
unfolding framed frame_head handle
handle-framed hook s group device payload =
    let ck = frame_checksum (msg_start ∷ length payload ∷ group ∷ device ∷ payload) in
    let verified : verify (msg_start ∷ length payload ∷ group ∷ device ∷ payload ++ ck ∷ [])
        ≡ true =
      verify-framed group device payload in
    rw (verified, take-append (length payload) payload (ck ∷ []) refl)

-- A device with the settings group `group + 1`, so that `group` reads and `group + 1` writes; the
-- group that reads is itself no settings group, neither is the keepalive's, and no identity probe
-- has the form of these two frames.
pub record IsSetting {X : Type 0} (s : Sim X) (group device cmd : ℕ) (value args : Bytes)
    : Type 0 where
  pub writes : in_groups (group + 1) (lookup device s.settings_groups) ≡ true
  pub reads : in_groups group (lookup device s.settings_groups) ≡ false
  pub no_ping : (group ≢ 0x43) × (group + 1 ≢ 0x43)
  pub no_probe_write : lookup (device, (group + 1, cmd ∷ value)) s.identity ≡ none
  pub no_probe_read : lookup (device, (group, cmd ∷ args)) s.identity ≡ none

module _ {X : Type 0} (s : Sim X) (frame : Bytes) (group device cmd : ℕ) (value args : Bytes) where
  -- A frame that is neither a heartbeat nor a ping goes on to the identity probes.
  past_acks :
      (g : ℕ) (p : Bytes)
      → g ≢ 0x43
      → handle_generic s frame g device (cmd ∷ p) ≡ handle_identity s frame g device (cmd ∷ p)
  unfolding handle_generic
  past_acks g p h = ground arith

  handle_generic_write :
      IsSetting s group device cmd value args
      → handle_generic s frame (group + 1) device (cmd ∷ value)
        ≡ handle_settings_write s frame (group + 1) device (cmd ∷ value)
  unfolding handle_identity
  handle_generic_write h =
      past_acks (group + 1) value h.no_ping.1
      ∙ rw (h.no_probe_write, handle_identity) (unfold handle_settings in rw h.writes)

  handle_generic_read :
      IsSetting s group device cmd value args
      → handle_generic s frame group device (cmd ∷ args) ≡ (
        record_frame "settings_read" frame s,
        answer (bit_or group 0x80) (swap_nibbles device) (cmd ∷ stored_value s device cmd),
      )
  unfolding handle_identity
  handle_generic_read h =
      past_acks group args h.no_ping.0
      ∙ rw (h.no_probe_read, handle_identity)
          (unfold handle_settings handle_settings_read settings_reply in rw (h.reads, h.writes))

module _ {X : Type 0} (s : Sim X) (group device cmd : ℕ) (value args : Bytes) where
  handle_write :
      IsSetting s group device cmd value args
      → handle no_hook s (framed (group + 1) device (cmd ∷ value))
        ≡ handle_settings_write
            (count_frame s)
            (framed (group + 1) device (cmd ∷ value))
            (group + 1)
            device
            (cmd ∷ value)
  unfolding after_hook no_hook
  handle_write h =
      handle-framed no_hook s (group + 1) device (cmd ∷ value)
      ∙ handle_generic_write (count_frame s) _ group device cmd value args (record {
        writes = h.writes;
        reads = h.reads;
        no_ping = h.no_ping;
        no_probe_write = h.no_probe_write;
        no_probe_read = h.no_probe_read;
      })

  handle_read :
      IsSetting s group device cmd value args
      → (handle no_hook s (framed group device (cmd ∷ args))).1
        ≡ answer (bit_or group 0x80) (swap_nibbles device) (cmd ∷ stored_value s device cmd)
  unfolding after_hook no_hook stored_value
  handle_read h =
      ap (λ (r : Sim X × Replies). r.1)
        (handle-framed no_hook s group device (cmd ∷ args)
          ∙ handle_generic_read (count_frame s) _ group device cmd value args (record {
            writes = h.writes;
            reads = h.reads;
            no_ping = h.no_ping;
            no_probe_write = h.no_probe_write;
            no_probe_read = h.no_probe_read;
          }))

module _ {X : Type 0} (s : Sim X) (group device cmd : ℕ) (value args : Bytes) where
  written_eq :
      IsSetting s group device cmd value args
      → (handle no_hook s (framed (group + 1) device (cmd ∷ value))).0
        ≡ record_frame "settings_write"
            (framed (group + 1) device (cmd ∷ value))
            (store_setting device (cmd ∷ value) (count_frame s))
  unfolding handle_settings_write
  written_eq h = ap (λ (r : Sim X × Replies). r.0) (handle_write s group device cmd value args h)

  -- In the base engine, where group + 1 is a settings group of the device and group is none,
  -- neither group is 0x43, and no identity probe of the device matches the write frame or the read
  -- frame, its arguments included: after the write of a value to a command in group + 1, the read
  -- of that command in group, with these arguments, is answered with the value, or with the
  -- exception of `build_frame` where command and value do not fit a frame.
  pub read_after_write :
      IsSetting s group device cmd value args
      → (handle no_hook
          (handle no_hook s (framed (group + 1) device (cmd ∷ value))).0
          (framed group device (cmd ∷ args))).1
        ≡ answer (bit_or group 0x80) (swap_nibbles device) (cmd ∷ value)
  unfolding record_frame store_setting stored_value
  read_after_write h = rw (written_eq h) (
      handle_read _ group device cmd value args (record {
        writes = h.writes;
        reads = h.reads;
        no_ping = h.no_ping;
        no_probe_write = h.no_probe_write;
        no_probe_read = h.no_probe_read;
      })
      ∙ rw (lookup-insert_self (device, cmd) value s.stored))
