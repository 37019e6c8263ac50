-- ===== src/Tests/Wire.antt =====
-- The frame primitives and the wire at concrete frames.
use moza_simulator.Base.{◌≡◌, refl, [], ◌∷◌, ◌++◌, true, none, some, Bytes, length, arith, All}
use moza_simulator.Base.Raise.{ok, err, value_error}
use moza_simulator.Wire.{
  verify, build_frame, framed, frame_head, frame_checksum, frame_payload, frame_len, checksum, sum,
  count,
}
use moza_simulator.Wire.Frame.{build_frame-IsSound, build_frame_complete}
use moza_simulator.Wire.Stream.{
  escape, stuff, parse_frames, parse_from, decode_body, emit, push_byte,
}
use moza_simulator.Wire.RoundTrip.{
  Traffic, wire_of, frames_of, parse_frames-send, parse_frames_broken,
}
use moza_simulator.Wire.Decode.{IsShaped, parse_frames-IsShaped}
use moza_simulator.Wire.Serial.{read_one_frame}
use moza_simulator.Wire.Serial.Laws.{arriving, read_one_frame-send}

-- The presence probe of sim/engines/standalone.py's self-test.
abbrev presence : Bytes
presence = 0x7E ∷ 0x00 ∷ 0x00 ∷ 0x12 ∷ 0x9D ∷ []

build_presence : build_frame 0x00 0x12 [] ≡ ok presence
unfolding build_frame framed frame_head frame_checksum checksum sum count
build_presence = refl

-- A payload with the start byte in it.
abbrev stuffed_frame : Bytes
stuffed_frame = framed 0x43 0x17 (0x7E ∷ 0x01 ∷ [])

build_stuffed : build_frame 0x43 0x17 (0x7E ∷ 0x01 ∷ []) ≡ ok stuffed_frame
unfolding build_frame
build_stuffed = refl

build_no_byte : build_frame 0x143 0x17 [] ≡ err value_error
unfolding build_frame
build_no_byte = refl

build_frame-IsSound_example :
    (verify stuffed_frame ≡ true)
    × (length stuffed_frame ≡ frame_len 2)
    × (frame_payload stuffed_frame ≡ ok (0x7E ∷ 0x01 ∷ []))
build_frame-IsSound_example = build_frame-IsSound 0x43 0x17 (0x7E ∷ 0x01 ∷ []) build_stuffed

verify-presence : verify presence ≡ true
unfolding verify checksum sum count
verify-presence = refl

build_frame_complete_example : build_frame 0x00 0x12 [] ≡ ok presence
build_frame_complete_example =
    build_frame_complete 0x00 0x00 0x12 0x9D [] refl (omega arith) (omega arith) (omega arith)
      verify-presence

abbrev traffic : Traffic
traffic = (0x00 ∷ 0x9D ∷ [], presence) ∷ ([], 0x7E ∷ 0x01 ∷ 0x7E ∷ 0x17 ∷ 0x7E ∷ 0x7E ∷ []) ∷ []

parse_frames-send_example : parse_frames (wire_of traffic (0x0D ∷ [])) ≡ frames_of traffic
parse_frames-send_example =
    parse_frames-send traffic (0x0D ∷ [])
      (((refl, (refl, tt)), (refl, refl)), ((tt, (refl, refl)), tt)) (refl, tt)

-- The same by evaluation: three start bytes are doubled on the wire.
wire_of-traffic :
    wire_of traffic []
    ≡ 0x00 ∷ 0x9D ∷ 0x7E ∷ 0x00 ∷ 0x00 ∷ 0x12 ∷ 0x9D ∷ 0x7E ∷ 0x01 ∷ 0x7E ∷ 0x7E ∷ 0x17 ∷ 0x7E
      ∷ 0x7E ∷ 0x7E ∷ 0x7E ∷ []
unfolding stuff escape
wire_of-traffic = refl

-- A lone start byte, a frame, and a frame that ends too early.
abbrev ragged : Bytes
ragged = 0x11 ∷ 0x7E ∷ 0x00 ∷ 0x00 ∷ 0x12 ∷ 0x9D ∷ 0x7E ∷ 0x03 ∷ 0x00 ∷ []

parse_frames-IsShaped_example : All IsShaped (parse_frames ragged)
parse_frames-IsShaped_example = parse_frames-IsShaped ragged

parse_ragged : parse_frames ragged ≡ presence ∷ []
unfolding parse_frames parse_from decode_body emit push_byte
parse_ragged = refl

-- A frame that breaks off after its device byte, and the complete presence probe behind it.
parse_frames_broken_example : parse_frames (0x7E ∷ 0x00 ∷ 0x00 ∷ 0x12 ∷ presence) ≡ []
unfolding escape
parse_frames_broken_example =
    parse_frames_broken 0x00 0x00 (0x00 ∷ 0x12 ∷ []) (0x00 ∷ 0x12 ∷ 0x9D ∷ []) (omega arith)
      (omega arith)

read_one_frame-send_example :
    read_one_frame (arriving (0x55 ∷ []) ++ (arriving (stuff presence) ++ (none ∷ [])))
    ≡ (some presence, none ∷ [])
read_one_frame-send_example =
    read_one_frame-send (0x55 ∷ []) presence (none ∷ []) (refl, tt) (refl, refl)
