-- ===== src/Wheel/Verified.antt =====
-- What a `WheelSimulator` puts on the wire verifies.
use moza_simulator.Base.{
  ℕ, ◌+◌, ◌≡◌, subst, List, [], ◌∷◌, Option, none, some, Bytes, take, get_or, true, false, Bool,
  ◌&&◌, inl, inr, Bool-cases, Option-cases, All, All-append, String, ◌==◌, not, leb, length,
  pair-key, ℕ-key, Bytes-key, if◌then◌else◌,
}
use moza_simulator.Base.Raise.{Result, ok, err, Ensures}
use moza_simulator.Base.Dict.{Dict, lookup, AllValues, AllValues-lookup}
use moza_simulator.Wire.{verify, build_frame}
use moza_simulator.Wire.Frame.{verify-framed}
use moza_simulator.Standalone.{Replies, answer, is_empty}
use moza_simulator.Wheel.{Wheel, RequestKey, record_tagged, record_gap}
use moza_simulator.Wheel.Handlers.{Tries, replay_lookup}
use moza_simulator.Wheel.Dispatch.{
  SessionHandler, decode_led_mask, dispatch, after_session, handle_counted, handle_core,
  flush_pending, handle_frame,
}
use moza_simulator.Wheel.Tried.{
  Tried, passed, dropped, absorbed, sent, committed, replayed, masked, dispatch-Tried,
}

abbrev pub Verifies : Bytes → Type 0
Verifies frame = verify frame ≡ true

abbrev pub SoundTable : Option (Dict RequestKey Bytes) → Type 0
SoundTable none = Unit
SoundTable (some table) = AllValues Verifies table

-- The frames that wait in the replay table and behind the timers verify.
abbrev pub IsSound : {X : Type 0} → Wheel X → Type 0
IsSound s = SoundTable s.replay × All Verifies s.pending_sends

abbrev pub SoundReplies : {X : Type 0} → Wheel X × Replies → Type 0
SoundReplies (s, replies) = IsSound s × Ensures (All Verifies) replies

abbrev SoundTry : {X : Type 0} → Tries X → Type 0
SoundTry none = Unit
SoundTry (some done) = SoundReplies done

abbrev pub SoundAnswer : Result (Option (String × List Bytes)) → Type 0
SoundAnswer (err e) = Unit
SoundAnswer (ok none) = Unit
SoundAnswer (ok (some (tag, rsp))) = All Verifies rsp

-- A session handler that answers and queues frames that verify.
abbrev pub SoundSession : {X : Type 0} → SessionHandler X → Type 0
SoundSession {X} session =
    (s : Wheel X) (frame : Bytes)
    → IsSound s
    → IsSound (session s frame).0 × SoundAnswer (session s frame).1

answer-Verifies :
    (group device : ℕ) (body : Bytes) → Ensures (All Verifies) (answer group device body)
unfolding answer build_frame
answer-Verifies group device body =
    elim (Bool-cases ((leb (length body) 255 && leb group 255) && leb device 255)) [
      | inl e ↦ rw (answer, build_frame, e) (verify-framed group device body, tt)
      | inr e ↦ rw (answer, build_frame, e) tt
    ]

abbrev OnRecorded : Option Bytes → Type 0
OnRecorded none = Unit
OnRecorded (some recorded) = Verifies recorded

replay_lookup-OnRecorded :
    (table : Option (Dict RequestKey Bytes)) (group device : ℕ) (payload : Bytes)
    → SoundTable table
    → OnRecorded (replay_lookup table group device payload)
unfolding replay_lookup
replay_lookup-OnRecorded none group device payload h = tt
replay_lookup-OnRecorded (some table) group device payload h =
    elim (Option-cases (lookup (group, (device, payload)) table)) [
      | inl e ↦ rw (replay_lookup, e) tt
      | inr (recorded, e) ↦
          rw (replay_lookup, e)
            (kept (is_empty recorded) recorded
              (AllValues-lookup Verifies (group, (device, payload)) table h e))
    ]
  where
    kept :
        (c : Bool) (recorded : Bytes)
        → Verifies recorded
        → OnRecorded (if c then none else some recorded)
    kept true recorded v = tt
    kept false recorded v = v

module _ {X : Type 0} where
  Tried-SoundTry :
      (s : Wheel X) (frame : Bytes) (r : Tries X) → Tried s frame r → IsSound s → SoundTry r
  unfolding record_tagged
  Tried-SoundTry s frame r (passed e) h = rw e tt
  Tried-SoundTry s frame r (dropped e) h = rw e (h, tt)
  Tried-SoundTry s frame r (absorbed tag e) h = rw e (h, tt)
  Tried-SoundTry s frame r (sent tag group device body e) h =
      rw e (h, answer-Verifies group device body)
  Tried-SoundTry s frame r (committed index group device body e) h =
      rw e (h, answer-Verifies group device body)
  Tried-SoundTry s frame r (replayed group device payload recorded k e) h =
      rw e
        (h, (subst OnRecorded k (replay_lookup-OnRecorded s.replay group device payload h.0), tt))

  IsSound-if : (c : Bool) (s t : Wheel X) → IsSound s → IsSound t → IsSound (if c then s else t)
  IsSound-if true s t h k = h
  IsSound-if false s t h k = k

  decode_led_mask-IsSound :
      (group device : ℕ) (payload : Bytes) (s : Wheel X)
      → IsSound s
      → IsSound (decode_led_mask group device payload s)
  unfolding decode_led_mask
  decode_led_mask-IsSound group device payload s h =
      IsSound-if _ _ s (IsSound-if (get_or payload 1 0 == 0x00) _ _ h h) h

  dispatch-SoundReplies :
      (s : Wheel X) (frame : Bytes) (group device : ℕ) (payload : Bytes)
      → IsSound s
      → SoundReplies (dispatch s frame group device payload)
  unfolding record_gap record_tagged
  dispatch-SoundReplies s frame group device payload h =
      let m = decode_led_mask-IsSound group device payload s h in
      elim (dispatch-Tried s frame group device payload) [
        | inl (r, t, e) ↦
            rw e (Tried-SoundTry (masked s frame group device payload) frame (some r) t m)
        | inr e ↦ rw e (m, tt)
      ]

  after_session-SoundReplies :
      (frame : Bytes) (group device : ℕ) (payload : Bytes) (s : Wheel X)
      (a : Result (Option (String × List Bytes)))
      → IsSound s
      → SoundAnswer a
      → SoundReplies (after_session frame group device payload (s, a))
  unfolding after_session record_tagged
  after_session-SoundReplies frame group device payload s (err e) h k = (h, tt)
  after_session-SoundReplies frame group device payload s (ok none) h k =
      dispatch-SoundReplies s frame group device payload h
  after_session-SoundReplies frame group device payload s (ok (some (tag, rsp))) h k = (h, k)

  SoundReplies-if :
      (c : Bool) (r q : Wheel X × Replies)
      → SoundReplies r
      → SoundReplies q
      → SoundReplies (if c then r else q)
  SoundReplies-if true r q h k = h
  SoundReplies-if false r q h k = k

  handle_counted-SoundReplies :
      (session : SessionHandler X) (s : Wheel X) (frame : Bytes) (group device : ℕ)
      (payload : Bytes)
      → SoundSession session
      → IsSound s
      → SoundReplies (handle_counted session s frame group device payload)
  unfolding handle_counted record_tagged
  handle_counted-SoundReplies session s frame group device payload c h =
      let k = c s frame h in
      SoundReplies-if (device == 0x17 && not (s.wheel_device == 0x17)) _ _ (h, tt)
        (SoundReplies-if (group == 0x43 && device == s.wheel_device) _ _
          (after_session-SoundReplies frame group device payload (session s frame).0
            (session s frame).1 k.0 k.1)
          (dispatch-SoundReplies s frame group device payload h))

  handle_core-SoundReplies :
      (session : SessionHandler X) (s : Wheel X) (frame : Bytes)
      → SoundSession session
      → IsSound s
      → SoundReplies (handle_core session s frame)
  unfolding handle_core
  handle_core-SoundReplies session s [] c h = (h, tt)
  handle_core-SoundReplies session s (start ∷ []) c h = (h, tt)
  handle_core-SoundReplies session s (start ∷ n ∷ []) c h = (h, tt)
  handle_core-SoundReplies session s (start ∷ n ∷ group ∷ []) c h = (h, tt)
  handle_core-SoundReplies session s (start ∷ n ∷ group ∷ device ∷ body) c h =
      SoundReplies-if (verify (start ∷ n ∷ group ∷ device ∷ body)) _ _
        (handle_counted-SoundReplies session (record s { frames_total = s.frames_total + 1 })
          (start ∷ n ∷ group ∷ device ∷ body) group device (take n body) c h)
        (h, tt)

  flush_pending-SoundReplies :
      (r : Wheel X × Replies) → SoundReplies r → SoundReplies (flush_pending r)
  unfolding flush_pending
  flush_pending-SoundReplies (s, ok rsp) h =
      ((h.0.0, tt), All-append Verifies rsp s.pending_sends h.1 h.0.1)
  flush_pending-SoundReplies (s, err e) h = h

  -- Where the frames of the replay table and the queued frames verify, and the session handler adds
  -- only such frames, every frame that is sent in answer to any input verifies, and the same holds
  -- of the state that is left for the next input.
  pub handle_frame-SoundReplies :
      (session : SessionHandler X) (s : Wheel X) (frame : Bytes)
      → SoundSession session
      → IsSound s
      → SoundReplies (handle_frame session s frame)
  unfolding handle_frame
  handle_frame-SoundReplies session s frame c h =
      flush_pending-SoundReplies (handle_core session s frame)
        (handle_core-SoundReplies session s frame c h)
