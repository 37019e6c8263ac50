-- ===== src/Standalone/Loop.antt =====
-- `StandaloneSimulator.run_serial`: one turn of its loop reads a frame from the port, handles it,
-- sends the replies, and sends what the engine's `poll` returns, where it has one. What it writes to
-- the port is the list of bytes.
use moza_simulator.Base.{
  ℕ, ◌≤◌, ◌≡◌, refl, ap, ◌∙◌, List, [], ◌∷◌, ◌++◌, Option, none, some, Bytes, length, All, sym,
  append_assoc, All-append,
}
use moza_simulator.Base.Raise.{Result, ok, err}
use moza_simulator.Wire.{msg_start, framed, frame_head, frame_checksum}
use moza_simulator.Wire.Stream.{stuff, parse_frames}
use moza_simulator.Wire.Decode.{IsIdle, IsShaped}
use moza_simulator.Wire.RoundTrip.{
  Traffic, wire_of, frames_of, IsTraffic, parse_frames-send, framed-IsShaped,
}
use moza_simulator.Wire.Serial.{Reads, read_one_frame}
use moza_simulator.Wire.Serial.Laws.{arriving, read_one_frame-send}
use moza_simulator.Standalone.{Sim, Hook, handle, Replies}
use moza_simulator.Standalone.Answers.{Answering, IsReply, handle-IsReply}

-- `for rsp in …: send(rsp)`
unfoldable pub send_all : List Bytes → Bytes
send_all [] = []
send_all (rsp ∷ rest) = stuff rsp ++ send_all rest

-- The new state, what is left to read, and the bytes written, or the exception raised.
abbrev pub TurnResult : Type 0 → Type 0
TurnResult X = Sim X × (Reads × Result Bytes)

-- `getattr(self, "poll", None)`: an engine's `poll`, with the new state and its frames.
abbrev pub Poll : Type 0 → Type 0
Poll X = Option (Sim X → Result (Sim X × List Bytes))

module _ {X : Type 0} where
  unfoldable pub run_poll : Poll X → Sim X → Result (Sim X × List Bytes)
  run_poll none s = ok (s, [])
  run_poll (some poll) s = poll s

  -- The end of a turn, which has written some bytes; an exception ends the loop.
  unfoldable pub turn_end : Reads → Sim X → Bytes → Result (Sim X × List Bytes) → TurnResult X
  unfolding send_all
  turn_end reads s written (err e) = (s, (reads, err e))
  turn_end reads s written (ok (t, frames)) = (t, (reads, ok (written ++ send_all frames)))

  unfoldable pub turn_replied : Poll X → Reads → Sim X × Replies → TurnResult X
  unfolding run_poll turn_end send_all
  turn_replied poll reads (s, err e) = (s, (reads, err e))
  turn_replied poll reads (s, ok replies) = turn_end reads s (send_all replies) (run_poll poll s)

  unfoldable pub turn_on : Hook X → Poll X → Sim X → Option Bytes → Reads → TurnResult X
  unfolding turn_replied
  turn_on hook poll s none reads = turn_replied poll reads (s, ok [])
  turn_on hook poll s (some frame) reads = turn_replied poll reads (handle hook s frame)

  unfoldable pub turn : Hook X → Poll X → Sim X → Reads → TurnResult X
  unfolding turn_on
  turn hook poll s reads =
      let (frame, rest) = read_one_frame reads in turn_on hook poll s frame rest

abbrev unspaced : List Bytes → Traffic
unspaced [] = []
unspaced (f ∷ fs) = ([], f) ∷ unspaced fs

frames_of-unspaced : (fs : List Bytes) → frames_of (unspaced fs) ≡ fs
frames_of-unspaced [] = refl
frames_of-unspaced (f ∷ fs) = ap (λ t. f ∷ t) (frames_of-unspaced fs)

wire_of-unspaced : (fs : List Bytes) → wire_of (unspaced fs) [] ≡ send_all fs
unfolding send_all
wire_of-unspaced [] = refl
wire_of-unspaced (f ∷ fs) = ap (λ t. stuff f ++ t) (wire_of-unspaced fs)

unspaced-IsTraffic : (fs : List Bytes) → All IsShaped fs → IsTraffic (unspaced fs)
unspaced-IsTraffic [] h = tt
unspaced-IsTraffic (f ∷ fs) h = ((tt, h.0), unspaced-IsTraffic fs h.1)

IsReply-IsShaped :
    (group device : ℕ) (fs : List Bytes) → All (IsReply group device) fs → All IsShaped fs
IsReply-IsShaped group device [] h = tt
IsReply-IsShaped group device (f ∷ fs) h = (h.0.shaped, IsReply-IsShaped group device fs h.1)

send_all-append : (fs gs : List Bytes) → send_all (fs ++ gs) ≡ send_all fs ++ send_all gs
unfolding send_all
send_all-append [] gs = refl
send_all-append (f ∷ fs) gs =
    ap (stuff f ++◌) (send_all-append fs gs)
    ∙ sym (append_assoc (stuff f) (send_all fs) (send_all gs))

parse_frames-send_all : (fs : List Bytes) → All IsShaped fs → parse_frames (send_all fs) ≡ fs
parse_frames-send_all fs h =
    ap parse_frames (rw (← wire_of-unspaced fs))
    ∙ parse_frames-send (unspaced fs) [] (unspaced-IsTraffic fs h) tt
    ∙ frames_of-unspaced fs

-- A host that writes one frame to the port, behind idle bytes, and reads the bytes that the engine
-- writes back in that turn, reads exactly the replies of `handle` and, behind them, the frames of the
-- engine's `poll`, where it has one, provided that `handle` and `poll` raise no exception and that
-- each frame of `poll` starts with 7E and has the length that its second byte announces; what the
-- host sent after the frame is still to be read.
pub turn_answers :
    {X : Type 0} (hook : Hook X) (poll : Poll X) (s t : Sim X) (idle : Bytes) (group device : ℕ)
    (payload : Bytes) (rest : Reads) {replies frames : List Bytes}
    → Answering hook
    → IsIdle idle
    → (handle hook s (framed group device payload)).1 ≡ ok replies
    → run_poll poll (handle hook s (framed group device payload)).0 ≡ ok (t, frames)
    → All IsShaped frames
    → (out : Bytes) × (turn hook poll s
          (arriving idle ++ (arriving (stuff (framed group device payload)) ++ rest))
        ≡ (t, (rest, ok out)))
      × (parse_frames out ≡ replies ++ frames)
turn_answers {X} hook poll s t idle group device payload rest {replies} {frames} a i h polled k =
    (send_all replies ++ send_all frames, ran, back)
  where
    handled :
        handle hook s (framed group device payload)
        ≡ ((handle hook s (framed group device payload)).0, ok replies)
    handled = ap (λ r. ((handle hook s (framed group device payload)).0, r)) h

    ran :
        turn hook poll s (arriving idle ++ (arriving (stuff (framed group device payload)) ++ rest))
        ≡ (t, (rest, ok (send_all replies ++ send_all frames)))
    ran =
        unfold turn in
        rw
          (read_one_frame-send idle (framed group device payload) rest i
            (framed-IsShaped group device payload))
          (unfold turn_on in
            ap (turn_replied poll rest) handled
            ∙ unfold turn_replied in
              ap (turn_end rest (handle hook s (framed group device payload)).0 (send_all replies))
                polled
              ∙ unfold turn_end in refl)

    shaped : (length replies ≤ 1) × All (IsReply group device) replies
    shaped =
        handle-IsReply hook s msg_start (length payload) group device
          (payload ++ frame_checksum (frame_head group device payload) ∷ []) a
          (unfold framed frame_head in h)

    back : parse_frames (send_all replies ++ send_all frames) ≡ replies ++ frames
    back =
        ap parse_frames (sym (send_all-append replies frames))
        ∙ parse_frames-send_all (replies ++ frames)
            (All-append IsShaped replies frames (IsReply-IsShaped group device replies shaped.1) k)
