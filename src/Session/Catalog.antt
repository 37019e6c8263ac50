-- ===== src/Session/Catalog.antt =====
-- `_chunk_catalog_message` against `chunk_session_payload`.
use moza_simulator.Base.{ℕ, ◌+◌, ◌/◌, ◌%◌, ◌≡◌, refl, List, [], ◌∷◌, Bytes, length, arith}
use moza_simulator.Session.{
  build_session_data_frame, chunk_frames, catalog_frames, chunk_session_payload,
  chunk_catalog_message, split_chunks,
}

module _ (crc32 : Bytes → ℕ) where
  catalog_frames-chunk_frames :
      (session seq wrapped : ℕ) (nets : List Bytes)
      → seq % 65536 ≡ wrapped % 65536
      → catalog_frames crc32 session seq nets ≡ chunk_frames crc32 session wrapped 4 nets
  unfolding catalog_frames chunk_frames build_session_data_frame
  catalog_frames-chunk_frames session seq wrapped [] h = refl
  catalog_frames-chunk_frames session seq wrapped (net ∷ nets) h =
      let low : seq % 256 ≡ wrapped % 256 = omega arith in
      let high : seq / 256 % 256 ≡ wrapped / 256 % 256 = omega arith in
      rw
        (
          low,
          high,
          catalog_frames-chunk_frames session (seq + 1) ((wrapped + 1) % 65536) nets (omega arith),
        )
        refl

  -- The catalog chunker cuts every message as `chunk_session_payload` does with its default chunk
  -- size and trailer, sequence numbers above 2 ^ 16 included.
  pub chunk_catalog_message-chunk_session_payload :
      (session start_seq : ℕ) (payload : Bytes)
      → chunk_catalog_message crc32 session payload start_seq
        ≡ chunk_session_payload crc32 session start_seq payload 54 4
  unfolding chunk_catalog_message chunk_session_payload
  chunk_catalog_message-chunk_session_payload session start_seq payload =
      catalog_frames-chunk_frames session start_seq start_seq
        (split_chunks (length payload) 54 payload) refl
