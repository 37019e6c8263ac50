-- ===== src/Tests/Identity.antt =====
-- The identity tables of a wheel with a display.
use moza_simulator.Base.{
  ◌≡◌, refl, [], ◌∷◌, none, some, Bytes, replicate, All, pair-key, ℕ-key, Bytes-key,
}
use moza_simulator.Base.Raise.{ok}
use moza_simulator.Base.Dict.{update}
use moza_simulator.Identity.{encode_ascii, ljust, id_str}
use moza_simulator.Identity.Tables.{
  Display, WheelModel, WheelTexts, DisplayTexts, wheel_texts, plugin_entries, display_texts,
  display_rows, display_entries, wheel_entries, build_identity_tables,
}
use moza_simulator.Identity.Agree.{identity_reads, Agrees, build_identity_tables-Agrees}

abbrev display : Display
display = record {
  name = none;
  dev_type = some (0x01 ∷ []);
  caps = some (0x02 ∷ []);
  hw_id = some (0x03 ∷ []);
  sw_version = some (0x53 ∷ []);
  hw_sub = none;
  hw_version = some (0x48 ∷ []);
  serial0 = some [];
  serial1 = some [];
}

-- A wheel named "CS".
abbrev model : WheelModel
model = record {
  name = some (0x43 ∷ 0x53 ∷ []);
  display = some display;
  wheel_device = none;
  sw_version = some (0x56 ∷ []);
  hw_version = none;
  hw_sub = none;
  serial0 = none;
  serial1 = none;
  dev_type = none;
  caps = none;
  hw_id = none;
  identity_11 = none;
  base_identity = none;
  pedal_identity = none;
}

abbrev blank_text : Bytes
blank_text = replicate 16 0x00

abbrev texts : WheelTexts
texts = record {
  name = 0x43 ∷ 0x53 ∷ replicate 14 0x00;
  sw_version = 0x56 ∷ replicate 15 0x00;
  hw_version = blank_text;
  hw_sub = blank_text;
  serial0 = blank_text;
  serial1 = blank_text;
}

abbrev shown : DisplayTexts
shown = record {
  dev_type = 0x01 ∷ [];
  caps = 0x02 ∷ [];
  hw_id = 0x03 ∷ [];
  sw_version = 0x53 ∷ replicate 15 0x00;
  hw_sub = blank_text;
  hw_version = 0x48 ∷ replicate 15 0x00;
  serial0 = blank_text;
  serial1 = blank_text;
  name = blank_text;
}

tables_built :
    build_identity_tables model
    ≡ ok (update (plugin_entries 0x17 texts) (display_rows shown), (wheel_entries model texts, []))
unfolding build_identity_tables wheel_texts display_entries display_texts id_str encode_ascii ljust
    update
tables_built = refl

build_identity_tables-Agrees_example :
    All
      (Agrees 0x17
        (update (plugin_entries 0x17 texts) (display_rows shown))
        (wheel_entries model texts))
      identity_reads
build_identity_tables-Agrees_example = build_identity_tables-Agrees model tables_built
