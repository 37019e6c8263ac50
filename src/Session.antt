-- ===== src/Session.antt =====
-- sim/wheel_sim.py, the chunks of a session: `ChunkBuffer`, `build_session_data_frame`,
-- `resp_session_ack`, `resp_device_session_open`, `resp_wheel_model_ident`, `build_7c23_frames`, `chunk_session_payload` and
-- `_chunk_catalog_message`, with the lines of `_handle_wheel` that read a data frame.
-- `crc32` stands for `zlib.crc32`. On a number `x` that is not negative, `x & 0xFF` is `x % 256`,
-- `x >> 8` is `x / 256` and `x & 0xFFFF` is `x % 65536`.
pub mod Little
pub mod Order
pub mod Chunks
pub mod Catalog
pub mod Rewrite
use moza_simulator.Base.{
  ℕ, zero, suc, ◌+◌, ◌-◌, ◌*◌, ◌/◌, ◌%◌, ◌^◌, ◌<◌, List, [], ◌∷◌, ◌++◌, Option, none, some, Bytes,
  length, take, drop, concat, map, Bool, true, false, ◌&&◌, ◌||◌, ltb, leb, ◌==◌, bytes_eqb,
  if◌then◌else◌, ℕ-key,
}
use moza_simulator.Base.Raise.{Result, ok, err, value_error, ◌>>=◌}
use moza_simulator.Base.Dict.{Dict, insert}
use moza_simulator.Wire.{build_frame}
use moza_simulator.Identity.{Text, id_str}
use moza_simulator.Session.Little.{le_bytes, le_value}

abbrev pub grp_wheel : ℕ
grp_wheel = 0xC3

abbrev pub dev_wheel_rsp : ℕ
dev_wheel_rsp = 0x71

abbrev pub session_type_data : ℕ
session_type_data = 0x01

abbrev pub session_type_open : ℕ
session_type_open = 0x81

-- A number put in `bytes([…])` has to be a byte.
abbrev pub build_wheel_frame : ℕ → Bytes → Result Bytes
build_wheel_frame session payload =
    if leb session 255 then build_frame grp_wheel dev_wheel_rsp payload else err value_error

unfoldable pub resp_session_ack : ℕ → ℕ → Result Bytes
resp_session_ack session ack_seq =
    build_wheel_frame session (0xFC ∷ 0x00 ∷ session ∷ ack_seq % 256 ∷ ack_seq / 256 % 256 ∷ [])

unfoldable pub resp_device_session_open : ℕ → ℕ → Result Bytes
resp_device_session_open session port =
    let low = port % 256 in
    let high = port / 256 % 256 in
    build_wheel_frame session
      (0x7C ∷ 0x00 ∷ session ∷ session_type_open ∷ low ∷ high ∷ low ∷ high ∷ 0xFD ∷ 0x02 ∷ [])

-- The payload of a data frame.
abbrev pub data_payload : ℕ → ℕ → Bytes → Bytes
data_payload session seq chunk =
    0x7C ∷ 0x00 ∷ session ∷ session_type_data ∷ seq % 256 ∷ seq / 256 % 256 ∷ chunk

unfoldable pub build_session_data_frame : ℕ → ℕ → Bytes → Result Bytes
build_session_data_frame session seq chunk =
    build_wheel_frame session (data_payload session seq chunk)

abbrev pub display_identity_cmd : ℕ
display_identity_cmd = 0x87

abbrev pub display_subdev : ℕ
display_subdev = 0x01

-- The padded name of the display.
unfoldable pub resp_wheel_model_ident : Text → Result Bytes
resp_wheel_model_ident model = id_str model >>= λ name.
    build_frame grp_wheel dev_wheel_rsp (display_identity_cmd ∷ display_subdev ∷ name)

unfoldable pub build_7c23_frames : List Bytes → Result (List Bytes)
build_7c23_frames [] = ok []
build_7c23_frames (p ∷ payloads) = do
  frame ← build_frame grp_wheel dev_wheel_rsp p
  frames ← build_7c23_frames payloads
  ok (frame ∷ frames)

-- `payload[off:off + size]` for `off in range(0, len(payload), size)`; the length is fuel enough.
unfoldable pub split_chunks : ℕ → ℕ → Bytes → List Bytes
split_chunks fuel size [] = []
split_chunks zero size (b ∷ bs) = []
split_chunks (suc fuel) size (b ∷ bs) =
    take size (b ∷ bs) ∷ split_chunks fuel size (drop size (b ∷ bs))

-- `_chunks`, and `sorted(self._chunks)` with the chunks: the keys of a dictionary are distinct.
abbrev pub Chunks : Type 0
Chunks = Dict ℕ Bytes

unfoldable pub place : ℕ → Bytes → Chunks → Chunks
place k v [] = (k, v) ∷ []
place k v ((j, w) ∷ d) =
    if ltb k j then (k, v) ∷ (j, w) ∷ d else if k == j then (k, v) ∷ d else (j, w) ∷ place k v d

unfoldable pub sort_chunks : Chunks → Chunks
unfolding place
sort_chunks [] = []
sort_chunks ((k, v) ∷ d) = place k v (sort_chunks d)

abbrev pub values : Chunks → List Bytes
values [] = []
values ((k, v) ∷ d) = v ∷ values d

-- `message`
unfoldable pub message : Chunks → Bytes
unfolding sort_chunks
message d = concat (values (sort_chunks d))

-- `seq = payload[4] | (payload[5] << 8)` and `chunk = bytes(payload[6:])` of a data frame.
unfoldable pub read_chunk : Bytes → Option (ℕ × Bytes)
read_chunk (start ∷ n ∷ group ∷ device ∷ c0 ∷ c1 ∷ session ∷ kind ∷ low ∷ high ∷ body) =
    some (low + high * 256, take (n - 6) body)
read_chunk _ = none

module _ (crc32 : Bytes → ℕ) where
  -- What `ChunkBuffer.add` keeps of a chunk.
  unfoldable pub strip_crc : Bytes → Bytes
  strip_crc raw =
      let n = length raw in
      let crc4 = le_value (drop (n - 4) raw) in
      if ltb n 4
      then raw
      else if crc32 (take (n - 4) raw) == crc4
      then take (n - 4) raw
      else if leb 5 n && (crc32 (take (n - 5) (drop 1 raw)) == crc4)
      then take (n - 5) (drop 1 raw)
      else if bytes_eqb (take 3 (le_bytes 4 (crc32 (take (n - 3) raw)))) (drop (n - 3) raw)
      then take (n - 3) raw
      else take (n - 4) raw

  -- `ChunkBuffer.add`
  unfoldable pub add : ℕ → Bytes → Chunks → Chunks
  unfolding strip_crc
  add seq raw d = insert seq (strip_crc raw) d

  -- `net` with its trailer of `crc_bytes` bytes
  unfoldable pub with_crc : ℕ → Bytes → Bytes
  with_crc crc_bytes net = net ++ take crc_bytes (le_bytes 4 (crc32 net))

  unfoldable pub chunk_frames : ℕ → ℕ → ℕ → List Bytes → Result (List Bytes)
  unfolding build_session_data_frame with_crc
  chunk_frames session seq crc_bytes [] = ok []
  chunk_frames session seq crc_bytes (net ∷ rest) = do
    frame ← build_session_data_frame session seq (with_crc crc_bytes net)
    frames ← chunk_frames session ((seq + 1) % 65536) crc_bytes rest
    ok (frame ∷ frames)

  -- A `chunk_size` of 0 is refused by `range`.
  unfoldable pub chunk_session_payload : ℕ → ℕ → Bytes → ℕ → ℕ → Result (List Bytes)
  unfolding chunk_frames split_chunks
  chunk_session_payload session start_seq payload chunk_size crc_bytes =
      if (crc_bytes == 0 || crc_bytes == 3) || crc_bytes == 4
      then if chunk_size == 0
        then err value_error
        else chunk_frames session start_seq crc_bytes
            (split_chunks (length payload) chunk_size payload)
      else err value_error

  -- `_chunk_catalog_message`, whose `seq` does not wrap at 2 ^ 16; its bytes on the wire do.
  unfoldable pub catalog_frames : ℕ → ℕ → List Bytes → Result (List Bytes)
  unfolding with_crc
  catalog_frames session seq [] = ok []
  catalog_frames session seq (net ∷ rest) = do
    frame ← build_wheel_frame session (data_payload session seq (with_crc 4 net))
    frames ← catalog_frames session (seq + 1) rest
    ok (frame ∷ frames)

  unfoldable pub chunk_catalog_message : ℕ → Bytes → ℕ → Result (List Bytes)
  unfolding catalog_frames split_chunks
  chunk_catalog_message session message start_seq =
      catalog_frames session start_seq (split_chunks (length message) 54 message)

  -- `_handle_wheel` on a data frame: the chunk is added.
  unfoldable pub receive_frame : Bytes → Chunks → Chunks
  unfolding add
  receive_frame frame d = elim (read_chunk frame) [ none ↦ d | some (seq, chunk) ↦ add seq chunk d ]

  unfoldable pub receive_frames : List Bytes → Chunks → Chunks
  unfolding receive_frame
  receive_frames [] d = d
  receive_frames (frame ∷ frames) d = receive_frames frames (receive_frame frame d)
