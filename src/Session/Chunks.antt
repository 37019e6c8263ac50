-- ===== src/Session/Chunks.antt =====
-- `chunk_session_payload` and `ChunkBuffer`: what was cut into frames is put together again.
use moza_simulator.Base.{
  ℕ, zero, suc, ◌+◌, ◌-◌, ◌%◌, ◌<◌, ◌≤◌, ◌≡◌, refl, sym, ap, ◌∙◌, List, [], ◌∷◌, ◌++◌, none, some,
  Option-cases, inl, inr, true, false, Bytes, length, take, drop, concat, All, ltb, ◌==◌, ==_refl,
  append_assoc, append-nil, length-append, length-drop, length-take, take-append, drop-append,
  take-append-drop, le→leb, arith,
}
use moza_simulator.Base.Raise.{ok}
use moza_simulator.Wire.{verify, framed, frame_head, frame_checksum}
use moza_simulator.Wire.Frame.{build_frame_fits, verify-framed}
use moza_simulator.Session.{
  Chunks, place, sort_chunks, values, message, add, strip_crc, with_crc, split_chunks, chunk_frames,
  chunk_session_payload, build_session_data_frame, data_payload, read_chunk, receive_frame,
  receive_frames, grp_wheel, dev_wheel_rsp,
}
use moza_simulator.Session.Little.{le_bytes, le_value, le_value-le_bytes, le_value-le_bytes_2}
use moza_simulator.Session.Order.{
  Rearranged, add_all, place_all, sort_chunks-add_all, message-Rearranged,
}

-- The chunks that a list of frames carries.
unfoldable pub chunks_of : List Bytes → List (ℕ × Bytes)
chunks_of [] = []
chunks_of (frame ∷ frames) = elim (read_chunk frame) [
  | none ↦ chunks_of frames
  | some e ↦ e ∷ chunks_of frames
]

pub concat-split_chunks :
    (fuel size : ℕ) (payload : Bytes)
    → 1 ≤ size
    → length payload ≤ fuel
    → concat (split_chunks fuel size payload) ≡ payload
unfolding split_chunks
concat-split_chunks zero size [] h f = refl
concat-split_chunks (suc fuel) size [] h f = refl
concat-split_chunks zero size (b ∷ bs) h f = absurd (omega arith)
concat-split_chunks (suc fuel) size (b ∷ bs) h f =
    rw
      (concat-split_chunks fuel size (drop size (b ∷ bs)) h
        (omega (arith, length-drop size (b ∷ bs))))
      (take-append-drop size (b ∷ bs))

pub split_chunks-IsShort :
    (fuel size limit : ℕ) (payload : Bytes)
    → size ≤ limit
    → All (λ net. length net ≤ limit) (split_chunks fuel size payload)
unfolding split_chunks
split_chunks-IsShort zero size limit [] h = tt
split_chunks-IsShort (suc fuel) size limit [] h = tt
split_chunks-IsShort zero size limit (b ∷ bs) h = tt
split_chunks-IsShort (suc fuel) size limit (b ∷ bs) h = (
  omega (arith, length-take size (b ∷ bs)),
  split_chunks-IsShort fuel size limit (drop size (b ∷ bs)) h,
)

module _ (crc32 : Bytes → ℕ) where
  receive_frames-add_all :
      (frames : List Bytes) (d : Chunks)
      → receive_frames crc32 frames d ≡ add_all crc32 (chunks_of frames) d
  unfolding receive_frames receive_frame chunks_of add_all
  receive_frames-add_all [] d = refl
  receive_frames-add_all (frame ∷ frames) d = elim (Option-cases (read_chunk frame)) [
    | inl e ↦ rw (e, receive_frames, receive_frame, chunks_of) (receive_frames-add_all frames d)
    | inr ((seq, chunk), e) ↦
        rw (e, receive_frames, receive_frame, chunks_of, add_all)
          (receive_frames-add_all frames (add crc32 seq chunk d))
  ]

  -- The chunks of a message, numbered from `seq`.
  abbrev numbered : ℕ → List Bytes → List (ℕ × Bytes)
  numbered seq [] = []
  numbered seq (net ∷ nets) = (seq, with_crc crc32 4 net) ∷ numbered (suc seq) nets

  strip_crc-append :
      (net tail : Bytes)
      → length tail ≡ 4
      → le_value tail ≡ crc32 net
      → strip_crc crc32 (net ++ tail) ≡ net
  unfolding strip_crc
  strip_crc-append net tail l v =
      rw
        (
          long,
          short,
          take-append (length net) net tail refl,
          drop-append (length net) net tail refl,
          v,
          ==_refl (crc32 net),
        )
        refl
    where
      long : ltb (length (net ++ tail)) 4 ≡ false
      long = rw (length-append net tail, l) (ground arith)

      short : length (net ++ tail) - 4 ≡ length net
      short = omega (arith, length-append net tail)

  strip_crc-with_crc :
      (net : Bytes) → crc32 net < 4294967296 → strip_crc crc32 (with_crc crc32 4 net) ≡ net
  unfolding with_crc
  strip_crc-with_crc net h =
      strip_crc-append net (le_bytes 4 (crc32 net)) refl (le_value-le_bytes (crc32 net) h)

  place-last :
      (k : ℕ) (v : Bytes) (d : Chunks) → All (λ e. e.0 < k) d → place k v d ≡ d ++ (k, v) ∷ []
  unfolding place
  place-last k v [] h = refl
  place-last k v ((j, w) ∷ d) h = ground (arith, place-last k v d h.1, h.0)

  All-below_last :
      (k : ℕ) (v : Bytes) (d : Chunks)
      → All (λ e. e.0 < k) d
      → All (λ e. e.0 < suc k) (d ++ (k, v) ∷ [])
  All-below_last k v [] h = (omega arith, tt)
  All-below_last k v ((j, w) ∷ d) h = (omega (arith, h.0), All-below_last k v d h.1)

  values-append : (d e : Chunks) → values (d ++ e) ≡ values d ++ values e
  values-append [] e = refl
  values-append ((k, v) ∷ d) e = ap (λ t. v ∷ t) (values-append d e)

  -- Chunks that follow those of `d` go behind them.
  place_all-numbered :
      (seq : ℕ) (nets : List Bytes) (d : Chunks)
      → ((net : Bytes) → crc32 net < 4294967296)
      → All (λ e. e.0 < seq) d
      → values (place_all crc32 (numbered seq nets) d) ≡ values d ++ nets
  place_all-numbered seq [] d c h = sym (append-nil (values d))
  place_all-numbered seq (net ∷ nets) d c h =
      ap (λ t. values (place_all crc32 (numbered (suc seq) nets) t))
        (ap (λ t. place seq t d) (strip_crc-with_crc net (c net)) ∙ place-last seq net d h)
      ∙ place_all-numbered (suc seq) nets (d ++ (seq, net) ∷ []) c (All-below_last seq net d h)
      ∙ (rw (values-append d ((seq, net) ∷ [])) (append_assoc (values d) (net ∷ []) nets))

  message-numbered :
      (seq : ℕ) (nets : List Bytes)
      → ((net : Bytes) → crc32 net < 4294967296)
      → message (add_all crc32 (numbered seq nets) []) ≡ concat nets
  unfolding message sort_chunks
  message-numbered seq nets c =
      ap (λ t. concat (values t)) (sort_chunks-add_all crc32 (numbered seq nets) [])
      ∙ ap concat (place_all-numbered seq nets [] c tt)

  abbrev pub frame_of : ℕ → ℕ → Bytes → Bytes
  frame_of session seq net =
      framed grp_wheel dev_wheel_rsp (data_payload session seq (with_crc crc32 4 net))

  abbrev sent : ℕ → ℕ → List Bytes → List Bytes
  sent session seq [] = []
  sent session seq (net ∷ nets) = frame_of session seq net ∷ sent session (suc seq) nets

  length-with_crc : (net : Bytes) → length (with_crc crc32 4 net) ≡ length net + 4
  unfolding with_crc
  length-with_crc net = length-append net (le_bytes 4 (crc32 net))

  build_session_data_frame_fits :
      (session seq : ℕ) (net : Bytes)
      → session ≤ 255
      → length net ≤ 245
      → build_session_data_frame session seq (with_crc crc32 4 net) ≡ ok (frame_of session seq net)
  unfolding build_session_data_frame
  build_session_data_frame_fits session seq net s l = rw (le→leb session 255 s) (
      build_frame_fits grp_wheel dev_wheel_rsp (data_payload session seq (with_crc crc32 4 net))
        (omega (arith, length-with_crc net)) (omega arith) (omega arith))

  chunk_frames-sent :
      (session seq : ℕ) (nets : List Bytes)
      → session ≤ 255
      → All (λ net. length net ≤ 245) nets
      → seq + length nets ≤ 65536
      → chunk_frames crc32 session seq 4 nets ≡ ok (sent session seq nets)
  unfolding chunk_frames
  chunk_frames-sent session seq [] s l h = refl
  chunk_frames-sent session seq (net ∷ []) s l h =
      rw (build_session_data_frame_fits session seq net s l.0) refl
  chunk_frames-sent session seq (net ∷ m ∷ nets) s l h =
      let next : (seq + 1) % 65536 ≡ suc seq = omega arith in
      rw
        (
          next,
          build_session_data_frame_fits session seq net s l.0,
          chunk_frames-sent session (suc seq) (m ∷ nets) s l.1 (omega arith),
        )
        refl

  chunks_of-sent :
      (session seq : ℕ) (nets : List Bytes)
      → seq + length nets ≤ 65536
      → chunks_of (sent session seq nets) ≡ numbered seq nets
  unfolding chunks_of read_chunk framed frame_head
  chunks_of-sent session seq [] h = refl
  chunks_of-sent session seq (net ∷ nets) h =
      rw
        (le_value-le_bytes_2 seq (omega arith), chunks_of-sent session (suc seq) nets (omega arith))
        (ap (λ t. (seq, t) ∷ numbered (suc seq) nets) carried)
    where
      chunk : Bytes
      chunk = with_crc crc32 4 net

      rest : Bytes
      rest =
          frame_checksum (frame_head grp_wheel dev_wheel_rsp (data_payload session seq chunk)) ∷ []

      carried : take (suc (suc (suc (suc (suc (suc (length chunk)))))) - 6) (chunk ++ rest) ≡ chunk
      carried = take-append _ chunk rest (omega arith)

  sent-verify :
      (session seq : ℕ) (nets : List Bytes) → All (λ f. verify f ≡ true) (sent session seq nets)
  sent-verify session seq [] = tt
  sent-verify session seq (net ∷ nets) = (
    verify-framed grp_wheel dev_wheel_rsp (data_payload session seq (with_crc crc32 4 net)),
    sent-verify session (suc seq) nets,
  )

  length-sent : (session seq : ℕ) (nets : List Bytes) → length (sent session seq nets) ≡ length nets
  length-sent session seq [] = refl
  length-sent session seq (net ∷ nets) = ap suc (length-sent session (suc seq) nets)

module _ (crc32 : Bytes → ℕ) (session start_seq : ℕ) (payload : Bytes) (chunk_size : ℕ)
    (crc32_fits : (net : Bytes) → crc32 net < 4294967296) (session_fits : session ≤ 255)
    (size_positive : 1 ≤ chunk_size) (size_fits : chunk_size ≤ 245)
    (seq_fits : start_seq + length (split_chunks (length payload) chunk_size payload) ≤ 65536) where
  abbrev nets : List Bytes
  nets = split_chunks (length payload) chunk_size payload

  chunk_session_payload-sent :
      chunk_session_payload crc32 session start_seq payload chunk_size 4
      ≡ ok (sent crc32 session start_seq nets)
  unfolding chunk_session_payload
  chunk_session_payload-sent =
      let positive : (chunk_size == 0) ≡ false = ground arith in
      rw
        (
          positive,
          chunk_frames-sent crc32 session start_seq nets session_fits
              (split_chunks-IsShort (length payload) chunk_size 245 payload size_fits) seq_fits,
        )
        refl

  -- A payload cut into chunks with the four byte trailer, whose frames arrive in any order and any
  -- of them several times, is put together again, provided that the sequence numbers stay below
  -- 2 ^ 16 and that a chunk with its header and trailer fits a frame.
  pub message-chunk_session_payload :
      (arrived : List Bytes) {frames : List Bytes}
      → chunk_session_payload crc32 session start_seq payload chunk_size 4 ≡ ok frames
      → Rearranged (chunks_of frames) (chunks_of arrived)
      → message (receive_frames crc32 arrived []) ≡ payload
  message-chunk_session_payload arrived {frames} h r =
      ap message (receive_frames-add_all crc32 arrived [])
      ∙ sym (message-Rearranged crc32 [] r)
      ∙ ap (λ t. message (add_all crc32 t []))
          (ap chunks_of frames-sent ∙ chunks_of-sent crc32 session start_seq nets seq_fits)
      ∙ message-numbered crc32 start_seq nets crc32_fits
      ∙ concat-split_chunks (length payload) chunk_size payload size_positive (omega arith)
    where
      frames-sent : frames ≡ sent crc32 session start_seq nets
      frames-sent = cc (h, chunk_session_payload-sent)

  -- Under the same conditions the payload is cut into frames that all verify, one for each chunk.
  chunk_session_payload_complete :
      (frames : List Bytes) × (chunk_session_payload crc32 session start_seq payload chunk_size 4
        ≡ ok frames)
      × All (λ f. verify f ≡ true) frames
      × (length frames ≡ length (split_chunks (length payload) chunk_size payload))
  chunk_session_payload_complete = (
    sent crc32 session start_seq nets,
    chunk_session_payload-sent,
    sent-verify crc32 session start_seq nets,
    length-sent crc32 session start_seq nets,
  )
