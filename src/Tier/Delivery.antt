-- ===== src/Tier/Delivery.antt =====
-- A channel catalog on its way over a session: built, cut into frames, put together and read.
use moza_simulator.Base.{
  ℕ, ◌+◌, ◌<◌, ◌≤◌, ◌≡◌, sym, ap, ◌∙◌, List, [], Bytes, length, String, All, arith,
}
use moza_simulator.Base.Raise.{ok}
use moza_simulator.Base.Dict.{Dict}
use moza_simulator.Identity.{Text}
use moza_simulator.Session.{chunk_catalog_message, message, receive_frames, split_chunks}
use moza_simulator.Session.Order.{Rearranged}
use moza_simulator.Session.Chunks.{chunks_of, message-chunk_session_payload}
use moza_simulator.Session.Catalog.{chunk_catalog_message-chunk_session_payload}
use moza_simulator.Tier.{build_session2_message, parse_v0_tier_def}
use moza_simulator.Tier.Sorting.{sort_texts}
use moza_simulator.Tier.Catalog.{IsUrl, described, parse_v0_tier_def-build_session2_message}

-- The catalog that the wheel sends for these channels, its frames arriving in any order and any of
-- them several times, reads as the channels in the order of their URLs, provided that there are at
-- most 255 with ASCII URLs of less than 65535 characters and that the sequence numbers stay below
-- 2 ^ 16.
pub parse_v0_tier_def_delivered :
    (crc32 : Bytes → ℕ) (db : Dict Text String) (urls : List Text) (session start_seq : ℕ)
    (arrived : List Bytes) {built : Bytes} {frames : List Bytes}
    → ((net : Bytes) → crc32 net < 4294967296)
    → All IsUrl urls
    → length urls ≤ 255
    → session ≤ 255
    → start_seq + length (split_chunks (length built) 54 built) ≤ 65536
    → build_session2_message urls ≡ ok built
    → chunk_catalog_message crc32 session built start_seq ≡ ok frames
    → Rearranged (chunks_of frames) (chunks_of arrived)
    → parse_v0_tier_def (message (receive_frames crc32 arrived [])) db
      ≡ described db 1 (sort_texts urls)
parse_v0_tier_def_delivered crc32 db urls session start_seq arrived {built} {frames} c u n s q b f
      r =
    let (catalog, made, read) = parse_v0_tier_def-build_session2_message db urls u n in
    let same : catalog ≡ built = cc (b, made) in
    ap (λ t. parse_v0_tier_def t db)
      (message-chunk_session_payload crc32 session start_seq built 54 c s (omega arith)
        (omega arith) q arrived
        (sym (chunk_catalog_message-chunk_session_payload crc32 session start_seq built) ∙ f) r)
    ∙ ap (λ t. parse_v0_tier_def t db) (sym same)
    ∙ read
