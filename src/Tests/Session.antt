-- ===== src/Tests/Session.antt =====
-- The session theorems at concrete messages. `digest` stands in for zlib.crc32.
use moza_simulator.Base.{ℕ, ◌*◌, ◌%◌, ◌<◌, ◌≡◌, refl, [], ◌∷◌, Bytes, length, false, ◌==◌, arith}
use moza_simulator.Base.Raise.{ok}
use moza_simulator.Wire.{msg_start, build_frame, verify, framed, frame_head, count}
use moza_simulator.Session.{
  chunk_session_payload, chunk_catalog_message, split_chunks, message, receive_frames, read_chunk,
  build_session_data_frame, chunk_frames,
}
use moza_simulator.Session.Order.{Rearranged, add_all, message-Rearranged}
use moza_simulator.Session.Chunks.{chunks_of, frame_of, message-chunk_session_payload}
use moza_simulator.Session.Catalog.{chunk_catalog_message-chunk_session_payload}
use moza_simulator.Session.Rewrite.{
  rewrite_session_frame_seq, verify-rewrite_session_frame_seq, escaped_bytes, data_frame,
}

abbrev digest : Bytes → ℕ
digest bs = length bs * 257

abbrev small_digest : Bytes → ℕ
small_digest bs = digest bs % 4294967296

small_digest_fits : (bs : Bytes) → small_digest bs < 4294967296
small_digest_fits bs = omega arith

abbrev greeting : Bytes
greeting = 0x7E ∷ 0x41 ∷ 0x42 ∷ []

-- The two frames of `greeting` on session 1, from sequence number 4.
abbrev first_frame : Bytes
first_frame = frame_of small_digest 1 4 (0x7E ∷ 0x41 ∷ [])

abbrev second_frame : Bytes
second_frame = frame_of small_digest 1 5 (0x42 ∷ [])

split_greeting : length (split_chunks (length greeting) 2 greeting) ≡ 2
unfolding split_chunks
split_greeting = refl

greeting_frames :
    chunk_session_payload small_digest 1 4 greeting 2 4 ≡ ok (first_frame ∷ second_frame ∷ [])
unfolding chunk_session_payload split_chunks chunk_frames build_session_data_frame build_frame
greeting_frames = refl

late :
    Rearranged
      (chunks_of (first_frame ∷ second_frame ∷ []))
      (chunks_of (second_frame ∷ second_frame ∷ first_frame ∷ []))
unfolding chunks_of read_chunk framed frame_head
late = Rearranged.chain (Rearranged.swap (omega arith)) Rearranged.again

-- The second frame arrives first, and twice.
message-chunk_session_payload_example :
    message (receive_frames small_digest (second_frame ∷ second_frame ∷ first_frame ∷ []) [])
    ≡ greeting
message-chunk_session_payload_example =
    message-chunk_session_payload small_digest 1 4 greeting 2 small_digest_fits (omega arith)
      (omega arith) (omega arith) (omega (arith, split_greeting))
      (second_frame ∷ second_frame ∷ first_frame ∷ []) greeting_frames late

message-Rearranged_example :
    message (add_all small_digest ((5, 0x42 ∷ []) ∷ (4, 0x41 ∷ []) ∷ []) [])
    ≡ message (add_all small_digest ((4, 0x41 ∷ []) ∷ (5, 0x42 ∷ []) ∷ []) [])
message-Rearranged_example = message-Rearranged small_digest [] (Rearranged.swap (omega arith))

chunk_catalog_message-chunk_session_payload_example :
    chunk_catalog_message small_digest 2 greeting 70000
    ≡ chunk_session_payload small_digest 2 70000 greeting 54 4
chunk_catalog_message-chunk_session_payload_example =
    chunk_catalog_message-chunk_session_payload small_digest 2 70000 greeting

-- A chunk with one start byte: the rewritten frame does not verify.
verify-rewrite_session_frame_seq_example :
    (out : Bytes) × (rewrite_session_frame_seq (data_frame 1 4 (0x7E ∷ [])) 9 ≡ ok out)
    × (verify out ≡ (escaped_bytes 1 9 (0x7E ∷ []) * msg_start % 256 == 0))
verify-rewrite_session_frame_seq_example = verify-rewrite_session_frame_seq 1 4 9 (0x7E ∷ [])

one_start_byte : (escaped_bytes 1 9 (0x7E ∷ []) * msg_start % 256 == 0) ≡ false
unfolding count frame_head
one_start_byte = refl
