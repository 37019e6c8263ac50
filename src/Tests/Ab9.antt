-- ===== src/Tests/Ab9.antt =====
-- The shifter of sim/ab9_sim.py, as it is constructed, at frames of its self-test.
use moza_simulator.Base.Raise.{ok}
use moza_simulator.Standalone.{contains, answer}
use moza_simulator.Ab9.Refines.{ab9_handle-Refines}
use moza_simulator.Ab9.Settings.{ab9_run, read_after_set, Leaves}
use moza_simulator.Wire.{framed, frame_head, build_frame}
use moza_simulator.Ab9.Tables.{ab9_init, default_identity}
use moza_simulator.Ab9.Gear.{IsReport, known_gear, emit_hid_gear_shows}
use moza_simulator.Ab9.Hid.{open_hid, emit_hid_gear, write_report, upper}
use moza_simulator.Ab9.Handlers.{ab9_handle, handle_addressed, ab9_dispatch, h_ffb, value_bytes}
use moza_simulator.Ab9.Spec.{
  shifter, request_of, step, Keeps, request_in, promised, ffb_request, write_request, read_request,
  allocate, read_setting, set_setting,
}
use moza_simulator.Ab9.Slots.{IsSlotted, ab9_handle-IsSlotted, IsSlotted-init}
use moza_simulator.Ab9.{Ab9, ab9_reply}
use moza_simulator.Base.{
  ℕ-key, Bytes-key, String-key, pair-key, Bytes, ◌≡◌, true, ◌∷◌, [], ◌++◌, refl, All, arith,
}
use moza_simulator.Base.Dict.{lookup}
use moza_simulator.Profile.Devices.{text}

abbrev fresh_shifter : Ab9
fresh_shifter = ab9_init default_identity []

-- A write of 0x32 to the spring setting, an allocation, a write to the mode and a read.
abbrev spring_write : Bytes
spring_write = framed 0x1F 0x12 (0xAF ∷ 0x00 ∷ 0x32 ∷ [])

abbrev allocation : Bytes
allocation = framed 0x20 0x12 (0x07 ∷ 0x03 ∷ [])

abbrev mode_write : Bytes
mode_write = framed 0x1F 0x12 (0xD3 ∷ 0x09 ∷ [])

abbrev spring_read : Bytes
spring_read = framed 0x1E 0x12 (0xAF ∷ [])

ab9_handle-IsSlotted_example : IsSlotted (ab9_handle fresh_shifter allocation).0
ab9_handle-IsSlotted_example =
    ab9_handle-IsSlotted fresh_shifter allocation (IsSlotted-init default_identity [])

ab9_handle-Refines_example :
    (shifter (ab9_handle fresh_shifter allocation).0
      ≡ step (request_of allocation) (shifter fresh_shifter))
    × Keeps
        (promised (request_of allocation) (shifter fresh_shifter))
        (ab9_handle fresh_shifter allocation).1
ab9_handle-Refines_example =
    ab9_handle-Refines fresh_shifter allocation (IsSlotted-init default_identity [])

allocation_asks : request_of allocation ≡ allocate 0x03
unfolding request_of framed frame_head request_in ffb_request
allocation_asks = refl

spring_write_asks : request_of spring_write ≡ set_setting 0xAF 0x32
unfolding request_of framed frame_head request_in write_request contains
spring_write_asks = refl

spring_read_asks : request_of spring_read ≡ read_setting 0xAF
unfolding request_of framed frame_head request_in read_request
spring_read_asks = refl

no_spring : All (λ frame. Leaves 0xAF (request_of frame)) (allocation ∷ mode_write ∷ [])
unfolding request_of framed frame_head request_in write_request ffb_request contains
no_spring = (tt, ((λ e. ground arith), tt))

read_after_set_example :
    (ab9_handle
      (ab9_run (ab9_handle fresh_shifter spring_write).0 (allocation ∷ mode_write ∷ []))
      spring_read).1
    ≡ ab9_reply 0x1E (0xAF ∷ value_bytes 0xAF 0x32)
read_after_set_example =
    read_after_set fresh_shifter spring_write spring_read (allocation ∷ mode_write ∷ []) 0xAF 0x32
      spring_write_asks no_spring spring_read_asks

-- The allocation is answered with the first slot.
allocation_replies :
    (ab9_handle fresh_shifter allocation).1 ≡ ok (framed 0xA0 0x21 (0x07 ∷ 0x01 ∷ []) ∷ [])
unfolding ab9_handle ab9_init handle_addressed ab9_dispatch lookup h_ffb ab9_reply answer
    build_frame framed frame_head
allocation_replies = refl

abbrev open_shifter : Ab9
open_shifter = (open_hid true true fresh_shifter).0

open_shifter-open : open_shifter.hid_open ≡ true
unfolding open_hid emit_hid_gear write_report
open_shifter-open = refl

emit_hid_gear_shows_example :
    IsReport (known_gear (upper (text "r"))) (emit_hid_gear true (text "r") open_shifter).1
    × ((emit_hid_gear true (text "r") open_shifter).0.gear ≡ upper (text "r"))
    × ((emit_hid_gear true (text "r") open_shifter).0.hid_open ≡ true)
    × ((emit_hid_gear true (text "r") open_shifter).0.hid_reports
        ≡ open_shifter.hid_reports ++ (emit_hid_gear true (text "r") open_shifter).1 ∷ [])
emit_hid_gear_shows_example = emit_hid_gear_shows true (text "r") open_shifter open_shifter-open
