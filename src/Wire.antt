-- ===== src/Wire.antt =====
-- sim/wheel_sim.py, the frame primitives: `checksum`, `verify`, `build_frame`, `frame_payload`,
-- `frame_len` and `swap_nibbles`. A frame is the list of its bytes,
-- 7E [n] [group] [device] [n payload bytes] [checksum], with the wire escaping already undone.
pub mod Frame
pub mod Stream
pub mod Decode
pub mod RoundTrip
pub mod Serial
pub mod Nibbles
use moza_simulator.Base.{
  ℕ, ◌+◌, ◌-◌, ◌*◌, ◌/◌, ◌%◌, bit_and, bit_or, List, [], ◌∷◌, ◌++◌, Bool, false, ◌&&◌, Bytes,
  length, take, drop, get_or, leb, ltb, ◌==◌, if◌then◌else◌,
}
use moza_simulator.Base.Raise.{Result, ok, err, value_error, index_error}

abbrev pub msg_start : ℕ
msg_start = 0x7E

abbrev pub checksum_seed : ℕ
checksum_seed = 0x0D

-- `sum(data)`
unfoldable pub sum : Bytes → ℕ
sum [] = 0
sum (b ∷ bs) = b + sum bs

-- `data.count(b)`
unfoldable pub count : ℕ → Bytes → ℕ
count b [] = 0
count b (x ∷ xs) = (if x == b then 1 else 0) + count b xs

unfoldable pub checksum : Bytes → ℕ
checksum bs = (checksum_seed + sum bs) % 256

-- `frame[-1]`, `frame[:-1]` and `frame[2:-1]` are written with the length.
unfoldable pub verify : Bytes → Bool
verify frame =
    if ltb (length frame) 2
    then false
    else (let body = take (length frame - 1) frame in
        let escaped_extra = count msg_start (drop 2 body) * msg_start in
        get_or frame (length frame - 1) 0 == (checksum body + escaped_extra) % 256)

-- The bytes of a frame before its checksum.
unfoldable pub frame_head : ℕ → ℕ → Bytes → Bytes
frame_head group device payload = msg_start ∷ length payload ∷ group ∷ device ∷ payload

unfoldable pub frame_checksum : Bytes → ℕ
frame_checksum buf = (checksum buf + count msg_start (drop 2 buf) * msg_start) % 256

-- The frame, where `bytes([MSG_START, n, group, device])` does not raise.
unfoldable pub framed : ℕ → ℕ → Bytes → Bytes
framed group device payload =
    let buf = frame_head group device payload in buf ++ frame_checksum buf ∷ []

-- `bytes([…])` raises `ValueError` on a number that is no byte.
unfoldable pub build_frame : ℕ → ℕ → Bytes → Result Bytes
build_frame group device payload =
    if leb (length payload) 255 && leb group 255 && leb device 255
    then ok (framed group device payload)
    else err value_error

-- `frame[1]` raises `IndexError` on a frame of less than two bytes.
unfoldable pub frame_payload : Bytes → Result Bytes
frame_payload (start ∷ n ∷ rest) = ok (take n (drop 2 rest))
frame_payload _ = err index_error

unfoldable pub frame_len : ℕ → ℕ
frame_len n = 5 + n

-- `((b & 0x0F) << 4) | ((b & 0xF0) >> 4)`
unfoldable pub swap_nibbles : ℕ → ℕ
swap_nibbles b = bit_or (bit_and b 0x0F * 16) (bit_and b 0xF0 / 16)
