-- ===== src/Tier.antt =====
-- sim/wheel_sim.py, the channel catalogs: `_build_session2_message`, which lists the URLs of the
-- channels, and `parse_v0_tier_def`, which reads such a list. A text is the list of its code points.
pub mod Sorting
pub mod Catalog
pub mod Delivery
pub mod V2
pub mod Device
pub mod Bits
use moza_simulator.Base.{
  ℕ, zero, suc, ◌+◌, ◌-◌, ◌*◌, ◌%◌, List, [], ◌∷◌, ◌++◌, Option, none, some, Bytes, length, take,
  drop, get_or, map, Bool, true, false, ◌&&◌, ltb, leb, ◌==◌, if◌then◌else◌, String, String-key,
  Bytes-key,
}
use moza_simulator.Base.Raise.{Result, ok, err, value_error, ◌>>=◌}
use moza_simulator.Base.Dict.{Dict, lookup}
use moza_simulator.Identity.{Text, encode_ascii, get_else}
use moza_simulator.Session.Little.{le_bytes, le_value}
use moza_simulator.Tier.Sorting.{sort_texts, sort_channels, Channel, channel}

-- `COMP_BITS`
abbrev pub comp_bits : Dict String ℕ
comp_bits =
    ("bool", 1)
    ∷ ("uint3", 4)
    ∷ ("uint8", 4)
    ∷ ("uint15", 4)
    ∷ ("int30", 5)
    ∷ ("uint30", 5)
    ∷ ("uint31", 5)
    ∷ ("int8_t", 8)
    ∷ ("uint8_t", 8)
    ∷ ("percent_1", 10)
    ∷ ("float_001", 10)
    ∷ ("tyre_pressure_1", 12)
    ∷ ("tyre_temp_1", 14)
    ∷ ("track_temp_1", 14)
    ∷ ("oil_pressure_1", 14)
    ∷ ("uint16_t", 16)
    ∷ ("int16_t", 16)
    ∷ ("float_6000_1", 16)
    ∷ ("float_600_2", 16)
    ∷ ("brake_temp_1", 16)
    ∷ ("uint24_t", 24)
    ∷ ("float", 32)
    ∷ ("int32_t", 32)
    ∷ ("uint32_t", 32)
    ∷ ("double", 64)
    ∷ ("location_t", 64)
    ∷ ("int64_t", 64)
    ∷ ("uint64_t", 64)
    ∷ []

-- `bs.decode('ascii', errors='replace')`: U+FFFD stands for a byte that is not ASCII.
unfoldable pub decode_ascii : Bytes → Text
decode_ascii [] = []
decode_ascii (b ∷ bs) = (if ltb b 128 then b else 0xFFFD) ∷ decode_ascii bs

-- `url.split('/')[-1]`, from the segment that is being read; 0x2F is the slash.
unfoldable pub last_segment : Text → Text → Text
last_segment seen [] = seen
last_segment seen (c ∷ url) =
    let fresh = last_segment [] url in
    let longer = last_segment (seen ++ c ∷ []) url in if c == 0x2F then fresh else longer

-- The entry that `parse_v0_tier_def` appends. `db` gives the compression of a channel's name.
unfoldable pub describe : Dict Text String → ℕ → Text → Channel
unfolding last_segment
describe db index url =
    let suffix = last_segment [] url in
    let compression = get_else (lookup suffix db) "uint8_t" in
    channel index suffix url compression (get_else (lookup compression comp_bits) 8)

-- What one round of the loop does: it stops, goes on behind a tag, or appends a channel.
pub data Round : Type 0 where
  stop : Round
  skip : Bytes → Round
  found : ℕ → Text → Bytes → Round

-- From a tag with a size on: `i + 5 > len(data)` ends the loop.
unfoldable pub read_tag : ℕ → ℕ → Bytes → Round
unfolding decode_ascii
read_tag tag param_size body =
    if (tag == 0x04 && leb 1 param_size) && leb param_size (length body)
    then found (get_or body 0 0) (decode_ascii (take (param_size - 1) (drop 1 body)))
        (drop param_size body)
    else if tag == 0x06
    then stop
    else if tag == 0x03 && leb param_size 16
    then skip (drop param_size body)
    else if ltb param_size 512
    then skip (drop param_size body)
    else stop

unfoldable pub read_round : Bytes → Round
unfolding read_tag
read_round [] = stop
read_round (tag ∷ rest) =
    let param_size = le_value (take 4 rest) in
    if tag == 0xFF
    then skip rest
    else if ltb (length rest) 4
    then stop
    else if ltb 0xFFFF param_size
    then stop
    else read_tag tag param_size (drop 4 rest)

-- The channels in the order of the data; each round shortens it, so its length is fuel enough.
unfoldable pub v0_channels : Dict Text String → ℕ → Bytes → List Channel
unfolding read_round describe
v0_channels db zero bytes = []
v0_channels db (suc fuel) bytes = elim (read_round bytes) [
  | stop ↦ []
  | skip rest ↦ v0_channels db fuel rest
  | found index url rest ↦ describe db index url ∷ v0_channels db fuel rest
]

-- `parse_v0_tier_def`
unfoldable pub parse_v0_tier_def : Bytes → Dict Text String → List Channel
unfolding v0_channels
parse_v0_tier_def bytes db = sort_channels (v0_channels db (length bytes) bytes)

-- One URL: tag 04, its size, the low byte of the index, and the URL. `struct.pack('<I', n)` raises
-- on a number of more than 32 bits.
unfoldable pub url_entry : ℕ → Bytes → Result Bytes
url_entry idx url_bytes =
    if ltb (1 + length url_bytes) 4294967296
    then ok (0x04 ∷ le_bytes 4 (1 + length url_bytes) ++ idx % 256 ∷ url_bytes)
    else err value_error

-- `for idx, url in enumerate(urls, start=idx)`
unfoldable pub url_entries : ℕ → List Text → Result Bytes
unfolding url_entry
url_entries idx [] = ok []
url_entries idx (url ∷ urls) = do
  url_bytes ← encode_ascii url
  entry ← url_entry idx url_bytes
  rest ← url_entries (suc idx) urls
  ok (entry ++ rest)

abbrev pub catalog_head : Bytes
catalog_head = 0xFF ∷ 0x03 ∷ le_bytes 4 4 ++ le_bytes 4 1

abbrev pub catalog_tail : ℕ → Bytes
catalog_tail n = (0x03 ∷ le_bytes 4 4 ++ le_bytes 4 2) ++ (0x06 ∷ le_bytes 4 4 ++ le_bytes 4 n)

-- `_build_session2_message`
unfoldable pub build_session2_message : List Text → Result Bytes
unfolding url_entries
build_session2_message channel_urls = do
  entries ← url_entries 1 (sort_texts channel_urls)
  ok (catalog_head ++ entries ++ catalog_tail (length channel_urls))
