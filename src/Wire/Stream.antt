-- ===== src/Wire/Stream.antt =====
-- The byte-stuffed wire: `send` of sim/engines/standalone.py and sim/wheel_sim.py's `parse_frames`.
-- What follows the length byte is escaped, each 7E doubled.
use moza_simulator.Base.{
  ℕ, zero, suc, ◌+◌, List, [], ◌∷◌, ◌++◌, Option, none, some, Bytes, length, take, drop, ◌==◌,
  if◌then◌else◌,
}
use moza_simulator.Wire.{msg_start}

-- `for b in rsp[2:]: body.append(b); if b == MSG_START: body.append(MSG_START)`
unfoldable pub escape : Bytes → Bytes
escape [] = []
escape (b ∷ bs) = b ∷ (if b == msg_start then msg_start ∷ escape bs else escape bs)

-- What `send` writes to the port for one frame.
unfoldable pub stuff : Bytes → Bytes
stuff rsp = take 2 rsp ++ escape (drop 2 rsp)

unfoldable pub push_byte : ℕ → Option (Bytes × Bytes) → Option (Bytes × Bytes)
push_byte b none = none
push_byte b (some (decoded, rest)) = some (b ∷ decoded, rest)

-- The inner loop of `parse_frames` from `data[j:]`, with `need - len(decoded)` bytes to go: the
-- bytes decoded and `data[j:]` behind them, or `none` where the loop stops short.
unfoldable pub decode_body : ℕ → Bytes → Option (Bytes × Bytes)
unfolding push_byte
decode_body zero wire = some ([], wire)
decode_body (suc need) [] = none
decode_body (suc need) (b ∷ []) = if b == msg_start then none else push_byte b (decode_body need [])
decode_body (suc need) (b ∷ c ∷ wire) =
    let plain = push_byte b (decode_body need (c ∷ wire)) in
    let pair = push_byte msg_start (decode_body need wire) in
    if b == msg_start then (if c == msg_start then pair else none) else plain

-- One complete frame, and the frames behind it.
unfoldable pub emit : (Bytes → List Bytes) → ℕ → Option (Bytes × Bytes) → List Bytes
emit rest n none = []
emit rest n (some (decoded, wire)) = (msg_start ∷ n ∷ decoded) ∷ rest wire

-- The outer loop, on `data[i:]`; each round shortens it, so its length is fuel enough.
unfoldable pub parse_from : ℕ → Bytes → List Bytes
unfolding emit
parse_from zero wire = []
parse_from (suc fuel) [] = []
parse_from (suc fuel) (b ∷ []) = []
parse_from (suc fuel) (b ∷ n ∷ wire) =
    let skipped = parse_from fuel (n ∷ wire) in
    let found = emit (parse_from fuel) n (decode_body (n + 3) wire) in
    if b == msg_start then found else skipped

unfoldable pub parse_frames : Bytes → List Bytes
unfolding parse_from
parse_frames wire = parse_from (length wire) wire
