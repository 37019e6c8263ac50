-- ===== src/Ab9/Gear.antt =====
-- What a host reads from the gear reports of the shifter.
use moza_simulator.Ab9.Hid.{
  upper, build_ab9_hid_report, ab9_gear_bits, hid_report, emit_hid_gear, write_report,
}
use moza_simulator.Identity.{Text, get_else}
use moza_simulator.Base.{
  ℕ, Bytes, Bytes-key, pair-key, ℕ-key, Option, All, Bool, get_or, ◌≡◌, length, ◌∷◌, some, true, [],
  ◌++◌, if◌then◌else◌, leb, refl, ◌&&◌, none, ◌-◌, arith, subst, sym, append-nil, false,
}
use mathlib.Core.Path.{ap₂}
use moza_simulator.Base.Dict.{lookup, lookup-All}
use moza_simulator.Profile.Devices.{text}
use moza_simulator.Ab9.{Ab9, some}

-- The gear whose button bits the bytes 17 and 18 of a report have.
unfoldable shown_gear : Bytes → Option Text
shown_gear report =
    lookup {K = ℕ × ℕ} (get_or report 17 0, get_or report 18 0)
      (((0x08, 0x00), text "N")
        ∷ ((0x28, 0x00), text "1")
        ∷ ((0x48, 0x00), text "2")
        ∷ ((0x88, 0x00), text "3")
        ∷ ((0x08, 0x01), text "4")
        ∷ ((0x08, 0x02), text "5")
        ∷ ((0x18, 0x00), text "6")
        ∷ ((0x08, 0x04), text "7")
        ∷ ((0x08, 0x08), text "R")
        ∷ [])

-- The gear itself where it has button bits, and neutral otherwise.
abbrev gear_or_neutral : Text → Option (ℕ × ℕ) → Text
gear_or_neutral gear (some bits) = gear
gear_or_neutral gear none = text "N"

abbrev pub known_gear : Text → Text
known_gear gear = gear_or_neutral gear (lookup gear ab9_gear_bits)

upper_code :
    (c : ℕ)
    → (let d = if leb 97 c && leb c 122 then c - 32 else c in
        if leb 97 d && leb d 122 then d - 32 else d)
      ≡ (if leb 97 c && leb c 122 then c - 32 else c)
upper_code c = ground arith

upper-upper : (s : Text) → upper (upper s) ≡ upper s
unfolding upper
upper-upper [] = refl
upper-upper (c ∷ s) = ap₂ (λ d t. d ∷ t) (upper_code c) (upper-upper s)

-- A report as a host takes it: of 34 bytes, and showing the gear.
pub record IsReport (gear : Text) (report : Bytes) : Type 0 where
  size : length report ≡ 34
  shows : shown_gear report ≡ some gear

table-IsReport : All (λ e. IsReport e.0 (hid_report e.1)) ab9_gear_bits
unfolding hid_report shown_gear lookup
table-IsReport = (
  record { size = refl; shows = refl },
  (
    record { size = refl; shows = refl },
    (
      record { size = refl; shows = refl },
      (
        record { size = refl; shows = refl },
        (
          record { size = refl; shows = refl },
          (
            record { size = refl; shows = refl },
            (
              record { size = refl; shows = refl },
              (record { size = refl; shows = refl }, (record { size = refl; shows = refl }, tt)),
            ),
          ),
        ),
      ),
    ),
  ),
)

looked_up-IsReport :
    (gear : Text) (o : Option (ℕ × ℕ))
    → lookup gear ab9_gear_bits ≡ o
    → IsReport (gear_or_neutral gear o) (hid_report (get_else o (0x00, 0x00)))
looked_up-IsReport gear none e = table-IsReport.0
looked_up-IsReport gear (some bits) e =
    lookup-All (λ d. IsReport d.0 (hid_report d.1)) gear ab9_gear_bits table-IsReport e

build_ab9_hid_report-IsReport :
    (gear : Text) → IsReport (known_gear (upper gear)) (build_ab9_hid_report gear)
unfolding build_ab9_hid_report
build_ab9_hid_report-IsReport gear = looked_up-IsReport (upper gear) _ refl

-- `emit_hid_gear` upper-cases the label, and the report again.
set_gear-IsReport :
    (gear : Text) → IsReport (known_gear (upper gear)) (build_ab9_hid_report (upper gear))
set_gear-IsReport gear =
    subst (λ g. IsReport (known_gear g) (build_ab9_hid_report (upper gear))) (upper-upper gear)
      (build_ab9_hid_report-IsReport (upper gear))

-- Setting a gear, known or not, in whatever case its letter is written, returns a report of 34
-- bytes that shows the gear, or neutral for an unknown one; the open HID file takes the report as
-- its last where the write works, and is closed where it does not.
pub emit_hid_gear_shows :
    (write_works : Bool) (gear : Text) (s : Ab9)
    → s.hid_open ≡ true
    → IsReport (known_gear (upper gear)) (emit_hid_gear write_works gear s).1
      × ((emit_hid_gear write_works gear s).0.gear ≡ upper gear)
      × ((emit_hid_gear write_works gear s).0.hid_open ≡ write_works)
      × ((emit_hid_gear write_works gear s).0.hid_reports
          ≡ s.hid_reports
            ++ (if write_works then (emit_hid_gear write_works gear s).1 ∷ [] else []))
unfolding emit_hid_gear write_report
emit_hid_gear_shows true gear s h = (set_gear-IsReport gear, rw h refl, rw h refl, rw h refl)
emit_hid_gear_shows false gear s h =
    (set_gear-IsReport gear, rw h refl, rw h refl, rw h (sym (append-nil s.hid_reports)))
