-- ===== src/Tests/Standalone.antt =====
-- The standalone engines at the devices of their profiles.
use moza_simulator.Wire.RoundTrip.{framed-IsShaped}
use moza_simulator.Base.{
  ◌≤◌, ◌≡◌, refl, [], ◌∷◌, ◌++◌, none, some, Bytes, arith, All, bit_or, ℕ-key, pair-key, Bytes-key,
  String-key,
}
use moza_simulator.Base.Raise.{Result, ok, err, Returns}
use moza_simulator.Base.Dict.{Dict, lookup, insert, update}
use moza_simulator.Wire.{
  verify, build_frame, framed, frame_head, frame_checksum, checksum, sum, count, swap_nibbles,
}
use moza_simulator.Wire.Stream.{stuff, parse_frames}
use moza_simulator.Wire.Serial.Laws.{arriving}
use moza_simulator.Identity.{
  ProbeKey, Ident, Text, no_ident, encode_ascii, id_str, id_slices, build_device_identity,
  has_ident,
}
use moza_simulator.Identity.Name.{SpellsName, build_device_identity-SpellsName}
use moza_simulator.Profile.Devices.{text, handbrake_profile}
use moza_simulator.Standalone.{Sim, answer, handle, no_hook, init, blank, contains, in_groups}
use moza_simulator.Standalone.Answers.{IsReply, handle-IsReply, no_hook-Answering}
use moza_simulator.Standalone.Accounting.{IsAccounted, IsAccounted-blank, handle-IsAccounted}
use moza_simulator.Standalone.Settings.{IsSetting, read_after_write}
use moza_simulator.Standalone.Safety.{IsSafe, handle-IsSafe, no_hook-SafeHook}
use moza_simulator.Standalone.Setup.{init-IsSafe}
use moza_simulator.Standalone.Loop.{turn, turn_answers, Poll, run_poll}
use moza_simulator.Cm1.{param_value, param_reg}

-- The engine that `init` returns, or `d` where it raises.
abbrev engine_or : Sim (Unit {0}) → Result (Sim (Unit {0})) → Sim (Unit {0})
engine_or d (ok s) = s
engine_or d (err e) = d

abbrev handbrake : Sim (Unit {0})
handbrake = engine_or (blank tt) (init tt handbrake_profile)

init-handbrake : init tt handbrake_profile ≡ ok handbrake
unfolding init encode_ascii id_str id_slices build_device_identity has_ident update insert
init-handbrake = refl

-- The name probe of the self-test, and its answer.
abbrev name_probe : Bytes
name_probe = 0x7E ∷ 0x01 ∷ 0x07 ∷ 0x1B ∷ 0x01 ∷ 0xAF ∷ []

abbrev name_reply : Bytes
name_reply = framed 0x87 0xB1 (0x01 ∷ text "HB # S01" ++ 0 ∷ 0 ∷ 0 ∷ 0 ∷ 0 ∷ 0 ∷ 0 ∷ 0 ∷ [])

name_probe_replies : (handle no_hook handbrake name_probe).1 ≡ ok (name_reply ∷ [])
unfolding handle no_hook init encode_ascii id_str id_slices build_device_identity has_ident update
    insert lookup verify checksum sum count answer build_frame swap_nibbles
name_probe_replies = refl

handle-IsReply_example : (1 ≤ 1) × All (IsReply 0x07 0x1B) (name_reply ∷ [])
handle-IsReply_example =
    handle-IsReply no_hook handbrake 0x7E 0x01 0x07 0x1B (0x01 ∷ 0xAF ∷ []) no_hook-Answering
      name_probe_replies

handle-IsAccounted_example : IsAccounted (handle no_hook (blank (tt {0})) name_probe).0
handle-IsAccounted_example = handle-IsAccounted (blank tt) name_probe (IsAccounted-blank tt)

init-IsSafe_example : IsSafe handbrake
init-IsSafe_example = init-IsSafe tt handbrake_profile (omega arith) init-handbrake

handle-IsSafe_example :
    Returns (handle no_hook handbrake name_probe).1 × IsSafe (handle no_hook handbrake name_probe).0
handle-IsSafe_example =
    handle-IsSafe no_hook handbrake name_probe no_hook-SafeHook init-IsSafe_example (omega arith)

-- The pedals' settings: group 23 reads, 24 writes.
abbrev pedals : Sim (Unit {0})
pedals = record (blank tt) { present = 0x19 ∷ []; settings_groups = (0x19, 0x24 ∷ []) ∷ [] }

pedals-IsSetting : IsSetting pedals 0x23 0x19 0x02 (0x34 ∷ 0x12 ∷ []) (0x00 ∷ 0x00 ∷ [])
unfolding lookup in_groups
pedals-IsSetting = record {
  writes = refl;
  reads = refl;
  no_ping = omega arith;
  no_probe_write = refl;
  no_probe_read = refl;
}

read_after_write_example :
    (handle no_hook
      (handle no_hook pedals (framed 0x24 0x19 (0x02 ∷ 0x34 ∷ 0x12 ∷ []))).0
      (framed 0x23 0x19 (0x02 ∷ 0x00 ∷ 0x00 ∷ []))).1
    ≡ answer (bit_or 0x23 0x80) (swap_nibbles 0x19) (0x02 ∷ 0x34 ∷ 0x12 ∷ [])
read_after_write_example =
    read_after_write pedals 0x23 0x19 0x02 (0x34 ∷ 0x12 ∷ []) (0x00 ∷ 0x00 ∷ []) pedals-IsSetting

-- A wheelbase's name of 20 characters.
abbrev base_name : Text
base_name = text "R9 Black # MOT-1-V01"

abbrev base_ident : Ident
base_ident = record no_ident { name = some base_name }

abbrev entries_or : Result (Dict ProbeKey Bytes) → Dict ProbeKey Bytes
entries_or (ok d) = d
entries_or (err e) = []

base_entries :
    build_device_identity 0x13 base_ident ≡ ok (entries_or (build_device_identity 0x13 base_ident))
unfolding build_device_identity encode_ascii id_str id_slices
base_entries = refl

encode_base_name : encode_ascii base_name ≡ ok base_name
unfolding encode_ascii
encode_base_name = refl

build_device_identity-SpellsName_example :
    SpellsName 0x13 base_name (entries_or (build_device_identity 0x13 base_ident))
build_device_identity-SpellsName_example =
    build_device_identity-SpellsName 0x13 base_ident base_name refl encode_base_name (omega arith)
      (omega arith) base_entries

heartbeat_replies : (handle no_hook pedals (framed 0x00 0x19 [])).1 ≡ ok (framed 0x80 0x91 [] ∷ [])
unfolding handle no_hook verify framed frame_head frame_checksum checksum sum count answer
    build_frame swap_nibbles contains
heartbeat_replies = refl

-- A `poll` that leaves its mark and sends one frame.
abbrev ticking : Poll (Unit {0})
ticking = some (λ s. ok (record s { last_handler_tag = "poll" }, framed 0x0E 0x91 (0x05 ∷ []) ∷ []))

turn_answers_example :
    (out : Bytes) × (turn no_hook ticking pedals
        (arriving (0x00 ∷ []) ++ (arriving (stuff (framed 0x00 0x19 [])) ++ (none ∷ [])))
      ≡ (
        record (handle no_hook pedals (framed 0x00 0x19 [])).0 { last_handler_tag = "poll" },
        (none ∷ [], ok out),
      ))
    × (parse_frames out ≡ framed 0x80 0x91 [] ∷ framed 0x0E 0x91 (0x05 ∷ []) ∷ [])
turn_answers_example =
    turn_answers no_hook ticking pedals _ (0x00 ∷ []) 0x00 0x19 [] (none ∷ []) no_hook-Answering
      (refl, tt) heartbeat_replies (unfold run_poll in refl)
      (framed-IsShaped 0x0E 0x91 (0x05 ∷ []), tt)

-- Register 300 holds 875, and register 6 is not listed.
params_run :
    (param_value (param_reg 0x01 0x2C) ≡ 875) × (param_value (param_reg 0x00 0x06) ≡ 0xFFFF8000)
unfolding param_value param_reg lookup
params_run = (refl, refl)
