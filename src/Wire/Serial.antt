-- ===== src/Wire/Serial.antt =====
-- sim/wheel_sim.py's `read_one_frame`: one frame from a serial port. The port is the list of the
-- results of `ser.read(1)`: a byte, or nothing (a timeout); behind the list nothing comes.
pub mod Laws
use moza_simulator.Base.{
  ℕ, zero, suc, ◌+◌, List, [], ◌∷◌, Option, none, some, Bytes, ◌==◌, if◌then◌else◌,
}
use moza_simulator.Wire.{msg_start}

abbrev pub Reads : Type 0
Reads = List (Option ℕ)

-- What `read_one_frame` returns, and what is left to read.
abbrev pub ReadResult : Type 0
ReadResult = Option Bytes × Reads

unfoldable pub push_read : ℕ → ReadResult → ReadResult
push_read b (none, reads) = (none, reads)
push_read b (some decoded, reads) = (some (b ∷ decoded), reads)

-- The loop for the `n + 3` decoded bytes.
unfoldable pub read_body : ℕ → Reads → ReadResult
unfolding push_read
read_body zero reads = (some [], reads)
read_body (suc need) [] = (none, [])
read_body (suc need) (none ∷ reads) = (none, reads)
read_body (suc need) (some b ∷ []) =
    if b == msg_start then (none, []) else push_read b (read_body need [])
read_body (suc need) (some b ∷ none ∷ reads) =
    if b == msg_start then (none, reads) else push_read b (read_body need (none ∷ reads))
read_body (suc need) (some b ∷ some esc ∷ reads) =
    let plain = push_read b (read_body need (some esc ∷ reads)) in
    let pair = push_read msg_start (read_body need reads) in
    if b == msg_start then (if esc == msg_start then pair else (none, reads)) else plain

-- The length byte, and the frame behind it.
unfoldable pub read_sized : Reads → ReadResult
unfolding read_body
read_sized [] = (none, [])
read_sized (none ∷ reads) = (none, reads)
read_sized (some n ∷ reads) = push_read msg_start (push_read n (read_body (n + 3) reads))

unfoldable pub read_one_frame : Reads → ReadResult
unfolding read_sized
read_one_frame [] = (none, [])
read_one_frame (none ∷ reads) = (none, reads)
read_one_frame (some b ∷ reads) = if b == msg_start then read_sized reads else read_one_frame reads
