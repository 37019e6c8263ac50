-- ===== src/Tests/Tier.antt =====
-- The channel catalog of two channels. `digest` stands in for zlib.crc32.
use moza_simulator.Base.{
  ℕ, ◌%◌, ◌<◌, ◌≡◌, refl, List, [], ◌∷◌, ◌++◌, Bytes, length, String, All, arith, Bytes-key,
  String-key,
}
use moza_simulator.Base.Raise.{ok}
use moza_simulator.Base.Dict.{Dict, lookup}
use moza_simulator.Identity.{Text, encode_ascii}
use moza_simulator.Wire.{build_frame, framed, frame_head}
use moza_simulator.Session.{
  chunk_catalog_message, message, with_crc, read_chunk, receive_frames, split_chunks,
  catalog_frames,
}
use moza_simulator.Session.Little.{le_bytes}
use moza_simulator.Session.Order.{Rearranged}
use moza_simulator.Session.Chunks.{chunks_of, frame_of}
use moza_simulator.Tier.{
  build_session2_message, parse_v0_tier_def, url_entries, url_entry, describe, last_segment,
  catalog_head, catalog_tail,
}
use moza_simulator.Tier.Sorting.{sort_texts, place_text}
use moza_simulator.Tier.Catalog.{IsUrl, described, parse_v0_tier_def-build_session2_message}
use moza_simulator.Tier.V2.{parse_v2_tier_def}
use moza_simulator.Tier.V2.Layout.{
  Item, other, tier_of, ItemFits, write_items, tiers_of, parse_v2_tier_def-write_items,
}
use moza_simulator.Tier.Device.{desc_parts}
use moza_simulator.Tier.Bits.{read_bits, read_bits_position, read_from}
use moza_simulator.Tier.Delivery.{parse_v0_tier_def_delivered}

-- "v1/Rpm" and "v1/Gear"
abbrev rpm : Text
rpm = 0x76 ∷ 0x31 ∷ 0x2F ∷ 0x52 ∷ 0x70 ∷ 0x6D ∷ []

abbrev gear : Text
gear = 0x76 ∷ 0x31 ∷ 0x2F ∷ 0x47 ∷ 0x65 ∷ 0x61 ∷ 0x72 ∷ []

abbrev urls : List Text
urls = rpm ∷ gear ∷ []

-- "Rpm" is sent as a 16 bit number.
abbrev db : Dict Text String
db = (0x52 ∷ 0x70 ∷ 0x6D ∷ [], "uint16_t") ∷ []

urls-IsUrl : All IsUrl urls
urls-IsUrl = ground arith

abbrev digest : Bytes → ℕ
digest bs = length bs % 4294967296

parse_v0_tier_def-build_session2_message_example :
    (built : Bytes) × (build_session2_message urls ≡ ok built)
    × (parse_v0_tier_def built db ≡ described db 1 (sort_texts urls))
parse_v0_tier_def-build_session2_message_example =
    parse_v0_tier_def-build_session2_message db urls urls-IsUrl (omega arith)

-- The catalog, whose URLs come in order.
abbrev catalog : Bytes
catalog =
    catalog_head
    ++ (0x04 ∷ le_bytes 4 8 ++ 1 ∷ gear)
    ++ (0x04 ∷ le_bytes 4 7 ++ 2 ∷ rpm)
    ++ catalog_tail 2

built_catalog : build_session2_message urls ≡ ok catalog
unfolding build_session2_message sort_texts place_text url_entries url_entry encode_ascii
built_catalog = refl

described-urls :
    described db 1 (sort_texts urls)
    ≡ record {
      index = 1;
      name = 0x47 ∷ 0x65 ∷ 0x61 ∷ 0x72 ∷ [];
      url = gear;
      compression = "uint8_t";
      bit_width = 8;
    }
      ∷ record {
        index = 2;
        name = 0x52 ∷ 0x70 ∷ 0x6D ∷ [];
        url = rpm;
        compression = "uint16_t";
        bit_width = 16;
      }
      ∷ []
unfolding sort_texts place_text describe last_segment lookup
described-urls = refl

-- The one frame of the catalog arrives twice.
sent_catalog : chunk_catalog_message digest 2 catalog 5 ≡ ok (frame_of digest 2 5 catalog ∷ [])
unfolding chunk_catalog_message catalog_frames split_chunks with_crc build_frame
sent_catalog = refl

one_chunk : length (split_chunks (length catalog) 54 catalog) ≡ 1
unfolding split_chunks
one_chunk = refl

again :
    Rearranged
      (chunks_of (frame_of digest 2 5 catalog ∷ []))
      (chunks_of (frame_of digest 2 5 catalog ∷ frame_of digest 2 5 catalog ∷ []))
unfolding chunks_of read_chunk framed frame_head
again = Rearranged.again

digest_fits : (bs : Bytes) → digest bs < 4294967296
digest_fits bs = omega arith

parse_v0_tier_def_delivered_example :
    parse_v0_tier_def
      (message
        (receive_frames digest (frame_of digest 2 5 catalog ∷ frame_of digest 2 5 catalog ∷ []) []))
      db
    ≡ described db 1 (sort_texts urls)
parse_v0_tier_def_delivered_example =
    parse_v0_tier_def_delivered digest db urls 2 5
      (frame_of digest 2 5 catalog ∷ frame_of digest 2 5 catalog ∷ []) digest_fits urls-IsUrl
      (omega arith) (omega arith) (omega (arith, one_chunk)) built_catalog sent_catalog again

-- A preamble, a tier of one channel under flag 2, an enable tag, the end tag and one
-- more tier.
abbrev items : List Item
items =
    other 0x07 (0x02 ∷ 0x00 ∷ 0x00 ∷ 0x00 ∷ [])
    ∷ tier_of 0x02 (record { index = 1; comp_code = 0x04; bit_width = 16; unread = 0 } ∷ [])
    ∷ other 0x00 (0x02 ∷ [])
    ∷ other 0x06 (0x01 ∷ 0x00 ∷ 0x00 ∷ 0x00 ∷ [])
    ∷ tier_of 0x03 (record { index = 2; comp_code = 0x07; bit_width = 32; unread = 0 } ∷ [])
    ∷ []

items-ItemFits : All ItemFits items
items-ItemFits = ground arith

parse_v2_tier_def-write_items_example :
    parse_v2_tier_def (write_items items) ≡ ok (tiers_of items [])
parse_v2_tier_def-write_items_example = parse_v2_tier_def-write_items items items-ItemFits

-- A description that is longer than the sizes ask for.
abbrev description : Bytes
description = 0x07 ∷ 0x04 ∷ 0x00 ∷ 0x0C ∷ 0x06 ∷ []

three_parts :
    desc_parts (2 ∷ 1 ∷ []) description ≡ (0x07 ∷ 0x04 ∷ []) ∷ (0x00 ∷ []) ∷ (0x0C ∷ 0x06 ∷ []) ∷ []
unfolding desc_parts
three_parts = refl

read_bits_position_example : (read_bits (0xA5 ∷ 0x0F ∷ []) 3 7).1 ≡ 10
read_bits_position_example = read_bits_position (0xA5 ∷ 0x0F ∷ []) 3 7 (omega arith)

-- Bits 3 to 9 of 0FA5.
seven_bits : read_bits (0xA5 ∷ 0x0F ∷ []) 3 7 ≡ (0x74, 10)
unfolding read_bits read_from
seven_bits = refl
