-- ===== src/Standalone/Answers.antt =====
-- What a `StandaloneSimulator` sends: at most one frame, back to the device and group that asked.
use moza_simulator.Base.{
  ℕ, ◌≤◌, ◌≡◌, refl, sym, ◌∙◌, List, [], ◌∷◌, Option, none, some, Bytes, length, take, get_or,
  bit_or, true, inl, inr, ◌⊎◌, arith, All, Bool-cases, ℕ-key, pair-key, Bytes-key,
}
use moza_simulator.Base.Raise.{Error, ok, err}
use moza_simulator.Wire.{verify, build_frame, framed, frame_head, swap_nibbles}
use moza_simulator.Wire.Decode.{IsShaped}
use moza_simulator.Wire.RoundTrip.{framed-IsShaped}
use moza_simulator.Wire.Frame.{verify-framed}
use moza_simulator.Standalone.Outcome.{
  Outcome, silent, acknowledged, identified, wrote, read, absorbed, unhandled,
  handle_generic-Outcome,
}
use moza_simulator.Standalone.{
  Sim, Hook, Replies, answer, stored_value, handle, after_hook, count_frame, no_hook,
}

-- No reply, an exception, or the one frame `[group | 0x80] [swapped device]` with some payload.
abbrev pub IsAnswer : ℕ → ℕ → Replies → Type 0
IsAnswer group device replies =
    ((replies ≡ ok []) ⊎ ((e : Error) × (replies ≡ err e)))
    ⊎ ((payload : Bytes) × (replies ≡ answer (bit_or group 0x80) (swap_nibbles device) payload))

abbrev pub HookAnswer : ℕ → ℕ → Option Replies → Type 0
HookAnswer group device none = Unit
HookAnswer group device (some replies) = IsAnswer group device replies

module _ {X : Type 0} (s : Sim X) (frame : Bytes) (group device : ℕ) (payload : Bytes) where
  Outcome-IsAnswer :
      (r : Sim X × Replies) → Outcome s frame group device payload r → IsAnswer group device r.1
  Outcome-IsAnswer r (silent e) = rw e (inl (inl refl))
  Outcome-IsAnswer r (acknowledged tag body h e) = rw e (inr (body, refl))
  Outcome-IsAnswer r (identified idr h e) = rw e (inr (idr, refl))
  Outcome-IsAnswer r (wrote e) = rw e (inr (payload, refl))
  Outcome-IsAnswer r (read cmd e) = rw e (inr (cmd ∷ stored_value s device cmd, refl))
  Outcome-IsAnswer r (absorbed e) = rw e (inl (inl refl))
  Outcome-IsAnswer r (unhandled e) = rw e (inl (inl refl))

  pub after_hook-IsAnswer :
      (r : Option Replies)
      → HookAnswer group device r
      → IsAnswer group device (after_hook frame group device payload (s, r)).1
  unfolding after_hook
  after_hook-IsAnswer none h =
      Outcome-IsAnswer _ (handle_generic-Outcome s frame group device payload)
  after_hook-IsAnswer (some replies) h = h

-- A frame that answers (group, device).
pub record IsReply (group device : ℕ) (reply : Bytes) : Type 0 where
  pub verified : verify reply ≡ true
  pub group_byte : get_or reply 2 0 ≡ bit_or group 0x80
  pub device_byte : get_or reply 3 0 ≡ swap_nibbles device
  pub shaped : IsShaped reply

answer-eq-ok :
    (group device : ℕ) (payload : Bytes) {replies : List Bytes}
    → answer group device payload ≡ ok replies
    → replies ≡ framed group device payload ∷ []
unfolding answer build_frame
answer-eq-ok group device payload h = ground arith

framed-IsReply :
    (group device : ℕ) (payload : Bytes)
    → IsReply group device (framed (bit_or group 0x80) (swap_nibbles device) payload)
framed-IsReply group device payload = record {
  verified = verify-framed (bit_or group 0x80) (swap_nibbles device) payload;
  group_byte = unfold framed frame_head in refl;
  device_byte = unfold framed frame_head in refl;
  shaped = framed-IsShaped (bit_or group 0x80) (swap_nibbles device) payload;
}

IsAnswer-IsReply :
    (group device : ℕ) (r : Replies) {replies : List Bytes}
    → IsAnswer group device r
    → r ≡ ok replies
    → (length replies ≤ 1) × All (IsReply group device) replies
IsAnswer-IsReply group device r (inl (inr (x, e))) h = absurd (ground arith)
IsAnswer-IsReply group device r {replies} (inl (inl e)) h =
    let empty : replies ≡ [] = ground arith in rw empty (omega arith, tt)
IsAnswer-IsReply group device r (inr (payload, e)) h =
    rw (answer-eq-ok _ _ payload (sym e ∙ h))
      (omega arith, (framed-IsReply group device payload, tt))

-- A hook that itself answers in this way.
pub record Answering {X : Type 0} (hook : Hook X) : Type 0 where
  pub at :
      (s : Sim X) (frame : Bytes) (group device : ℕ) (payload : Bytes)
      → HookAnswer group device (hook s frame group device payload).1

pub no_hook-Answering : {X : Type 0} → Answering (no_hook {X = X})
unfolding no_hook
no_hook-Answering = record { at = λ s frame group device payload. tt }

-- Whatever state the engine is in, a frame gets at most one reply, and the reply verifies, has the
-- group of the request with its high bit set, the nibble-swapped device of the request, and the
-- length that its second byte announces. The engine's own hook must answer in this way too.
pub handle-IsReply :
    {X : Type 0} (hook : Hook X) (s : Sim X) (start n group device : ℕ) (body : Bytes)
    {replies : List Bytes}
    → Answering hook
    → (handle hook s (start ∷ n ∷ group ∷ device ∷ body)).1 ≡ ok replies
    → (length replies ≤ 1) × All (IsReply group device) replies
handle-IsReply {X} hook s start n group device body a h = IsAnswer-IsReply group device _ answered h
  where
    frame : Bytes
    frame = start ∷ n ∷ group ∷ device ∷ body

    result : Sim X × Option Replies
    result = hook (count_frame s) frame group device (take n body)

    answered : IsAnswer group device (handle hook s (start ∷ n ∷ group ∷ device ∷ body)).1
    answered =
        unfold handle in
        elim (Bool-cases (verify frame)) [
          | inl v ↦ rw v (
              after_hook-IsAnswer result.0 frame group device (take n body) result.1
                (a.at (count_frame s) frame group device (take n body)))
          | inr v ↦ rw v (inl (inl refl))
        ]
