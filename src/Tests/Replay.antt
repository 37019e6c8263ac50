-- ===== src/Tests/Replay.antt =====
-- A table of recorded answers, and a capture with one request and two answers.
use moza_simulator.Base.{◌≡◌, refl, List, [], ◌∷◌, Bytes, true, pair-key, ℕ-key, Bytes-key}
use moza_simulator.Base.Dict.{lookup, AllValues}
use moza_simulator.Wire.{
  verify, framed, frame_head, frame_checksum, checksum, sum, count, swap_nibbles,
}
use moza_simulator.Wire.Frame.{verify-framed}
use moza_simulator.Replay.{
  Captured, host, device, Replay, load_pcapng, load_entries, pair_request, find_response,
  answers_request, add_pair,
}
use moza_simulator.Replay.Table.{load_pcapng-AllValues}

abbrev old_answer : Bytes
old_answer = framed 0xAB 0x31 (0x02 ∷ 0x01 ∷ [])

abbrev replay : Replay
replay = record {
  table = ((0x2B, (0x13, 0x02 ∷ [])), old_answer) ∷ [];
  by_device = [];
  sources = [];
}

abbrev capture : List Captured
capture =
    record { direction = host; at = 0; frame = framed 0x2B 0x13 (0x02 ∷ []) }
    ∷ record { direction = device; at = 90; frame = framed 0xAB 0x31 (0x02 ∷ 0x05 ∷ []) }
    ∷ record { direction = host; at = 100; frame = framed 0x2B 0x13 (0x04 ∷ []) }
    ∷ record { direction = device; at = 190; frame = framed 0xAB 0x31 (0x04 ∷ 0x06 ∷ []) }
    ∷ []

load_pcapng-AllValues_example :
    AllValues (λ rsp. verify rsp ≡ true) (load_pcapng "a.pcapng" capture replay).0.table
load_pcapng-AllValues_example =
    load_pcapng-AllValues "a.pcapng" capture replay (verify-framed 0xAB 0x31 (0x02 ∷ 0x01 ∷ []), tt)

-- The second request is new.
one_added : (load_pcapng "a.pcapng" capture replay).1 ≡ 1
unfolding load_pcapng load_entries pair_request find_response answers_request add_pair lookup verify
    framed frame_head frame_checksum checksum sum count swap_nibbles
one_added = refl
