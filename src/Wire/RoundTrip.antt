-- ===== src/Wire/RoundTrip.antt =====
-- `parse_frames` reads back what `send` wrote.
use moza_simulator.Base.{
  ℕ, zero, suc, ◌+◌, ◌≤◌, ◌<◌, ◌≡◌, ◌≢◌, refl, ap, ◌∙◌, List, [], ◌∷◌, ◌++◌, true, false, inl, inr,
  ◌⊎◌, none, Bytes, length, ◌==◌, ==_iff, arith, All, length-append, Bool-cases,
}
use moza_simulator.Wire.{msg_start, framed, frame_head, frame_checksum}
use moza_simulator.Wire.Stream.{
  escape, stuff, decode_body, push_byte, emit, parse_from, parse_frames,
}
use moza_simulator.Wire.Decode.{IsShaped, IsIdle, decode-escape, decode_plain, parse_from_fuel}

-- Traffic on the wire: before each frame some idle bytes, and idle bytes behind the last.
abbrev pub Traffic : Type 0
Traffic = List (Bytes × Bytes)

abbrev pub wire_of : Traffic → Bytes → Bytes
wire_of [] idle = idle
wire_of ((before, frame) ∷ rest) idle = before ++ (stuff frame ++ wire_of rest idle)

abbrev pub frames_of : Traffic → List Bytes
frames_of [] = []
frames_of ((before, frame) ∷ rest) = frame ∷ frames_of rest

abbrev pub IsTraffic : Traffic → Type 0
IsTraffic = All (λ s. IsIdle s.0 × IsShaped s.1)

skip_one :
    (fuel b : ℕ) (wire : Bytes)
    → (b == msg_start) ≡ false
    → parse_from (suc fuel) (b ∷ wire) ≡ parse_from fuel wire
unfolding parse_from
skip_one zero b [] h = refl
skip_one (suc fuel) b [] h = refl
skip_one fuel b (c ∷ wire) h = rw h

skip_idle :
    (idle wire : Bytes) (fuel : ℕ)
    → IsIdle idle
    → length (idle ++ wire) ≤ fuel
    → parse_from fuel (idle ++ wire) ≡ parse_from fuel wire
skip_idle [] wire fuel h k = refl
skip_idle (b ∷ idle) wire zero h k = absurd (omega arith)
skip_idle (b ∷ idle) wire (suc fuel) h k =
    skip_one fuel b (idle ++ wire) h.0
    ∙ skip_idle idle wire fuel h.1 (omega arith)
    ∙ parse_from_fuel fuel (suc fuel) wire (omega (arith, length-append idle wire))
        (omega (arith, length-append idle wire))

read_frame :
    (fuel : ℕ) (frame wire : Bytes)
    → IsShaped frame
    → parse_from (suc fuel) (stuff frame ++ wire) ≡ frame ∷ parse_from fuel wire
unfolding parse_from stuff emit
read_frame fuel [] wire h = elim h [ ]
read_frame fuel (s ∷ []) wire h = elim h [ ]
read_frame fuel (s ∷ n ∷ rest) wire (start, len) =
    rw start (rw (← len) (rw (decode-escape rest wire)))

only_idle : (idle : Bytes) (fuel : ℕ) → IsIdle idle → parse_from fuel idle ≡ []
only_idle [] zero h = unfold parse_from in refl
only_idle [] (suc fuel) h = unfold parse_from in refl
only_idle (b ∷ idle) zero h = unfold parse_from in refl
only_idle (b ∷ idle) (suc fuel) h = skip_one fuel b idle h.0 ∙ only_idle idle fuel h.1

stuff_pos : (frame : Bytes) → IsShaped frame → 1 ≤ length (stuff frame)
unfolding stuff
stuff_pos [] h = elim h [ ]
stuff_pos (s ∷ []) h = elim h [ ]
stuff_pos (s ∷ n ∷ rest) h = omega arith

parse_traffic :
    (traffic : Traffic) (idle : Bytes) (fuel : ℕ)
    → IsTraffic traffic
    → IsIdle idle
    → length (wire_of traffic idle) ≤ fuel
    → parse_from fuel (wire_of traffic idle) ≡ frames_of traffic
parse_traffic [] idle fuel h k le = only_idle idle fuel k
parse_traffic ((before, frame) ∷ rest) idle zero h k le = absurd (
    omega (
      arith,
      stuff_pos frame h.0.1,
      length-append before (stuff frame ++ wire_of rest idle),
      length-append (stuff frame) (wire_of rest idle),
    ))
parse_traffic ((before, frame) ∷ rest) idle (suc fuel) h k le =
    skip_idle before (stuff frame ++ wire_of rest idle) (suc fuel) h.0.0 le
    ∙ read_frame fuel frame (wire_of rest idle) h.0.1
    ∙ ap (λ t. frame ∷ t)
        (parse_traffic rest idle fuel h.1 k (
          omega (
            arith,
            stuff_pos frame h.0.1,
            length-append before (stuff frame ++ wire_of rest idle),
            length-append (stuff frame) (wire_of rest idle),
          )))

-- `parse_frames` returns exactly the frames that `send` wrote, in their order, whatever idle bytes
-- stand before, between and behind them, and whatever bytes the frames hold.
pub parse_frames-send :
    (traffic : Traffic) (idle : Bytes)
    → IsTraffic traffic
    → IsIdle idle
    → parse_frames (wire_of traffic idle) ≡ frames_of traffic
unfolding parse_frames
parse_frames-send traffic idle h k =
    parse_traffic traffic idle (length (wire_of traffic idle)) h k (omega arith)

pub framed-IsShaped : (group device : ℕ) (payload : Bytes) → IsShaped (framed group device payload)
unfolding framed frame_head
framed-IsShaped group device payload = (
  refl,
  omega (arith, length-append payload (frame_checksum (frame_head group device payload) ∷ [])),
)

decode_broken :
    (xs wire : Bytes) (need c : ℕ)
    → length xs < need
    → (c == msg_start) ≡ false
    → decode_body need (escape xs ++ msg_start ∷ c ∷ wire) ≡ none
decode_broken xs wire zero c h k = absurd (omega arith)
decode_broken [] wire (suc need) c h k = unfold escape decode_body in rw k
decode_broken (b ∷ bs) wire (suc need) c h k =
    step (Bool-cases (b == msg_start)) (decode_broken bs wire need c (omega arith) k)
  where
    step :
        ((b == msg_start) ≡ true) ⊎ ((b == msg_start) ≡ false)
        → decode_body need (escape bs ++ msg_start ∷ c ∷ wire) ≡ none
        → decode_body (suc need) (escape (b ∷ bs) ++ msg_start ∷ c ∷ wire) ≡ none
    step (inl e) ih =
        unfold escape in rw ((==_iff b msg_start).0 e) (unfold decode_body push_byte in rw ih)
    step (inr e) ih =
        unfold escape in
        rw e (
          rw (decode_plain need b (escape bs ++ msg_start ∷ c ∷ wire) e)
            (unfold push_byte in rw ih))

-- A frame that breaks off, so that the 7E of the next frame stands where its bytes should go on,
-- ends the reading: `parse_frames` drops it and everything behind it, complete frames too.
pub parse_frames_broken :
    (n c : ℕ) (xs wire : Bytes)
    → length xs < n + 3
    → c ≢ msg_start
    → parse_frames (msg_start ∷ n ∷ escape xs ++ msg_start ∷ c ∷ wire) ≡ []
unfolding parse_frames parse_from emit
parse_frames_broken n c xs wire h k = rw (decode_broken xs wire (n + 3) c h (ground arith))
