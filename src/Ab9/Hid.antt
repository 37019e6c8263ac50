-- ===== src/Ab9/Hid.antt =====
-- sim/ab9_sim.py: the gear state on the HID endpoint. Whether the file opens and takes a report is
-- an argument. A gear label is a text of ASCII letters and digits.
use moza_simulator.Base.{
  ℕ, ◌-◌, ◌/◌, ◌%◌, [], ◌∷◌, ◌++◌, Bytes, replicate, concat, bit_or, leb, if◌then◌else◌, ◌&&◌, map,
  Bytes-key, false, true, Bool,
}
use moza_simulator.Base.Dict.{Dict, lookup}
use moza_simulator.Profile.Devices.{text}
use moza_simulator.Identity.{Text, get_else}
use moza_simulator.Ab9.{Ab9}

abbrev pub ab9_axis_centre : ℕ
ab9_axis_centre = 0x7FFF

abbrev pub ab9_gear_bits : Dict Text (ℕ × ℕ)
ab9_gear_bits =
    (text "N", (0x00, 0x00))
    ∷ (text "1", (0x20, 0x00))
    ∷ (text "2", (0x40, 0x00))
    ∷ (text "3", (0x80, 0x00))
    ∷ (text "4", (0x00, 0x01))
    ∷ (text "5", (0x00, 0x02))
    ∷ (text "6", (0x10, 0x00))
    ∷ (text "7", (0x00, 0x04))
    ∷ (text "R", (0x00, 0x08))
    ∷ []

-- `str.upper` on ASCII
unfoldable pub upper : Text → Text
upper = map (λ c. if leb 97 c && leb c 122 then c - 32 else c)

-- The report with the two gear bytes.
unfoldable pub hid_report : ℕ × ℕ → Bytes
hid_report (b17, b18) =
    0x01 ∷ concat (replicate 8 (ab9_axis_centre % 256 ∷ ab9_axis_centre / 256 % 256 ∷ []))
    ++ bit_or 0x08 b17 ∷ b18 ∷ replicate 15 0

unfoldable pub build_ab9_hid_report : Text → Bytes
unfolding hid_report upper
build_ab9_hid_report gear = hid_report (get_else (lookup (upper gear) ab9_gear_bits) (0x00, 0x00))

-- The write to the file: one that fails closes it.
unfoldable pub write_report : (write_works : Bool) → Bytes → Ab9 → Ab9
write_report write_works report s =
    if s.hid_open
    then (if write_works
        then record s { hid_reports = s.hid_reports ++ report ∷ [] }
        else record s { hid_open = false })
    else s

unfoldable pub emit_hid_gear : (write_works : Bool) → Text → Ab9 → Ab9 × Bytes
unfolding upper write_report
emit_hid_gear write_works label s =
    let report = build_ab9_hid_report (upper label) in
    (write_report write_works report (record s { gear = upper label }), report)

unfoldable pub open_hid : (open_works write_works : Bool) → Ab9 → Ab9 × Bool
unfolding emit_hid_gear
open_hid open_works write_works s =
    if open_works
    then ((emit_hid_gear write_works s.gear (record s { hid_open = true })).0, true)
    else (record s { hid_open = false }, false)
