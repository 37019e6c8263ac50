-- ===== src/Replay.antt =====
-- sim/wheel_sim.py, `ResponseReplay`: the table of recorded answers, and `load_pcapng` on the frames
-- that were extracted from a capture. Time stamps are whole microseconds, where the program has
-- seconds in floating point.
pub mod Table
use moza_simulator.Base.{
  ℕ, ◌+◌, ◌≡◌, refl, ap, ◌∙◌, List, [], ◌∷◌, ◌++◌, Option, none, some, Bytes, length, take, drop,
  get_or, Bool, true, false, ◌&&◌, ◌||◌, not, ltb, ◌==◌, if◌then◌else◌, bit_or, String, pair-key,
  ℕ-key, Bytes-key, Bool-cases, Option-cases, inl, inr, Key,
}
use moza_simulator.Base.Dict.{Dict, lookup, insert, lookup-insert, AllValues, AllValues-insert}
use moza_simulator.Wire.{verify, swap_nibbles}
use moza_simulator.Identity.{get_else}
use moza_simulator.Standalone.{bump, is_empty}

-- `PAIRING_WINDOW_SEC`
abbrev pub pairing_window : ℕ
pairing_window = 250000

pub data Direction : Type 0 where
  host device : Direction

pub record Captured : Type 0 where
  pub direction : Direction
  pub at : ℕ
  pub frame : Bytes

abbrev pub Requests : Type 0
Requests = Dict (ℕ × (ℕ × Bytes)) Bytes

pub record Replay : Type 0 where
  pub table : Requests
  pub by_device : Dict (ℕ × ℕ) ℕ
  pub sources : List String

-- `verify(frame)` and at least four bytes.
abbrev pub is_usable : Bytes → Bool
is_usable frame = verify frame && not (ltb (length frame) 4)

-- `frame[4:4 + frame[1]]`
abbrev pub payload_of : Bytes → Bytes
payload_of frame = take (get_or frame 1 0) (drop 4 frame)

-- Group, device and, where both payloads of a 43 request have one, the command.
unfoldable pub answers_request : ℕ → ℕ → Bytes → Bytes → Bool
answers_request group dev req_pl rsp =
    (get_or rsp 2 0 == bit_or group 0x80 && get_or rsp 3 0 == swap_nibbles dev)
    && not (
        ((group == 0x43 && not (is_empty req_pl)) && not (is_empty (payload_of rsp)))
        && not (get_or (payload_of rsp) 0 0 == bit_or (get_or req_pl 0 0) 0x80))

abbrev pub from_device : Captured → Bool
from_device e = elim e.direction [ host ↦ false | device ↦ true ]

-- The inner loop: the first answer within the window.
unfoldable pub find_response : ℕ → ℕ → Bytes → ℕ → List Captured → Option Bytes
unfolding answers_request
find_response group dev req_pl ts [] = none
find_response group dev req_pl ts (e ∷ entries) =
    let later = find_response group dev req_pl ts entries in
    if ltb (ts + pairing_window) e.at
    then none
    else if (from_device e && is_usable e.frame) && answers_request group dev req_pl e.frame
    then some e.frame
    else later

-- A key that is there keeps its answer; the number says whether an entry was added.
unfoldable pub add_pair : ℕ → ℕ → Bytes → Bytes → Replay → Replay × ℕ
add_pair group dev req_pl rsp r = elim (lookup (group, (dev, req_pl)) r.table) [
  | some old ↦ (r, 0)
  | none ↦ (
    record r {
      table = insert (group, (dev, req_pl)) rsp r.table;
      by_device = bump (group, dev) r.by_device;
    },
    1,
  )
]

unfoldable pub pair_request : Captured → List Captured → Replay → Replay × ℕ
unfolding find_response add_pair
pair_request e entries r =
    let group = get_or e.frame 2 0 in
    let dev = get_or e.frame 3 0 in
    if not (from_device e) && is_usable e.frame
    then elim (find_response group dev (payload_of e.frame) e.at entries) [
      | some rsp ↦ add_pair group dev (payload_of e.frame) rsp r
      | none ↦ (r, 0)
    ]
    else (r, 0)

unfoldable pub load_entries : List Captured → Replay → ℕ → Replay × ℕ
unfolding pair_request
load_entries [] r added = (r, added)
load_entries (e ∷ entries) r added =
    let (t, n) = pair_request e entries r in load_entries entries t (added + n)

-- `load_pcapng`, on the frames of the capture.
unfoldable pub load_pcapng : String → List Captured → Replay → Replay × ℕ
unfolding load_entries
load_pcapng path entries r =
    let (t, added) = load_entries entries r 0 in
    if added == 0 then (t, 0) else (record t { sources = t.sources ++ path ∷ [] }, added)
