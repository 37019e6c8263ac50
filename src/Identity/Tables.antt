-- ===== src/Identity/Tables.antt =====
-- sim/wheel_sim.py, `_build_identity_tables`: the probe and identity tables of a wheel model. The
-- model and its display block are records, whose `none` is a missing key.
use moza_simulator.Base.{
  ℕ, [], ◌∷◌, Option, none, some, Bytes, replicate, pair-key, ℕ-key, Bytes-key,
}
use moza_simulator.Base.Raise.{Result, ok, ◌>>=◌, map_result, require}
use moza_simulator.Base.Dict.{Dict, update}
use moza_simulator.Identity.{Text, ProbeKey, Ident, get_else, id_str, build_device_identity}

pub record Display : Type 0 where
  pub name : Option Text
  pub dev_type : Option Bytes
  pub caps : Option Bytes
  pub hw_id : Option Bytes
  pub sw_version : Option Text
  pub hw_sub : Option Text
  pub hw_version : Option Text
  pub serial0 : Option Text
  pub serial1 : Option Text

pub record WheelModel : Type 0 where
  pub name : Option Text
  pub display : Option Display
  pub wheel_device : Option ℕ
  pub sw_version : Option Text
  pub hw_version : Option Text
  pub hw_sub : Option Text
  pub serial0 : Option Text
  pub serial1 : Option Text
  pub dev_type : Option Bytes
  pub caps : Option Bytes
  pub hw_id : Option Bytes
  pub identity_11 : Option Bytes
  pub base_identity : Option Ident
  pub pedal_identity : Option Ident

-- Keys are group, device and payload.
abbrev pub PluginTable : Type 0
PluginTable = Dict (ℕ × (ℕ × Bytes)) Bytes

abbrev pub WheelTable : Type 0
WheelTable = Dict (ℕ × Bytes) Bytes

-- The padded names, versions and serial numbers of the wheel.
pub record WheelTexts : Type 0 where
  pub name : Bytes
  pub sw_version : Bytes
  pub hw_version : Bytes
  pub hw_sub : Bytes
  pub serial0 : Bytes
  pub serial1 : Bytes

unfoldable pub wheel_texts : WheelModel → Result WheelTexts
wheel_texts model = do
  name ← require model.name
  name16 ← id_str name
  sw_version16 ← id_str (get_else model.sw_version [])
  hw_version16 ← id_str (get_else model.hw_version [])
  hw_sub16 ← id_str (get_else model.hw_sub [])
  serial0_16 ← id_str (get_else model.serial0 [])
  serial1_16 ← id_str (get_else model.serial1 [])
  ok (record {
    name = name16;
    sw_version = sw_version16;
    hw_version = hw_version16;
    hw_sub = hw_sub16;
    serial0 = serial0_16;
    serial1 = serial1_16;
  })

-- `plugin_rsp` before the display's entries.
unfoldable pub plugin_entries : ℕ → WheelTexts → PluginTable
plugin_entries wheel_dev t =
    ((0x40, (0x17, 0x28 ∷ 0x00 ∷ [])), 0x28 ∷ 0x00 ∷ 0x01 ∷ [])
    ∷ ((0x40, (0x15, 0x28 ∷ 0x00 ∷ [])), 0x28 ∷ 0x00 ∷ 0x01 ∷ [])
    ∷ ((0x40, (0x13, 0x28 ∷ 0x00 ∷ [])), 0x28 ∷ 0x00 ∷ 0x01 ∷ [])
    ∷ ((0x40, (0x17, 0x24 ∷ 0x00 ∷ [])), 0x24 ∷ 0x00 ∷ 0x03 ∷ 0xE8 ∷ [])
    ∷ ((0x40, (0x15, 0x24 ∷ 0x00 ∷ [])), 0x24 ∷ 0x00 ∷ 0x03 ∷ 0xE8 ∷ [])
    ∷ ((0x40, (0x13, 0x24 ∷ 0x00 ∷ [])), 0x24 ∷ 0x00 ∷ 0x03 ∷ 0xE8 ∷ [])
    ∷ ((0x2B, (0x13, 0x01 ∷ [])), 0x01 ∷ 0x00 ∷ 0x00 ∷ [])
    ∷ ((0x2B, (0x13, 0x02 ∷ [])), 0x02 ∷ 0x00 ∷ 0x00 ∷ [])
    ∷ ((0x2B, (0x13, 0x04 ∷ [])), 0x04 ∷ 0x01 ∷ 0x2C ∷ [])
    ∷ ((0x2B, (0x13, 0x05 ∷ [])), 0x05 ∷ 0x01 ∷ 0x2C ∷ [])
    ∷ ((0x2B, (0x13, 0x06 ∷ [])), 0x06 ∷ 0x01 ∷ 0x2C ∷ [])
    ∷ ((0x33, (0x14, 0x11 ∷ 0x00 ∷ [])), 0x11 ∷ 0x00 ∷ 0x01 ∷ [])
    ∷ ((0x3F, (0x17, 0x09 ∷ 0x32 ∷ [])), 0x09 ∷ 0x28 ∷ [])
    ∷ ((0x3F, (0x17, 0x09 ∷ 0x00 ∷ [])), 0x09 ∷ 0x28 ∷ [])
    ∷ ((0x07, (wheel_dev, 0x01 ∷ [])), 0x01 ∷ t.name)
    ∷ ((0x0F, (wheel_dev, 0x01 ∷ [])), 0x01 ∷ t.sw_version)
    ∷ ((0x08, (wheel_dev, 0x01 ∷ [])), 0x01 ∷ t.hw_version)
    ∷ ((0x08, (wheel_dev, 0x02 ∷ [])), 0x02 ∷ t.hw_sub)
    ∷ ((0x10, (wheel_dev, 0x00 ∷ [])), 0x00 ∷ t.serial0)
    ∷ ((0x10, (wheel_dev, 0x01 ∷ [])), 0x01 ∷ t.serial1)
    ∷ []

-- What a key of group 0x43 and device 0x17 answers.
abbrev pub display_key : Bytes → ℕ × (ℕ × Bytes)
display_key payload = (0x43, (0x17, payload))

-- The values that a display has to have, its texts padded.
pub record DisplayTexts : Type 0 where
  pub dev_type : Bytes
  pub caps : Bytes
  pub hw_id : Bytes
  pub sw_version : Bytes
  pub hw_sub : Bytes
  pub hw_version : Bytes
  pub serial0 : Bytes
  pub serial1 : Bytes
  pub name : Bytes

unfoldable pub display_texts : Display → Result DisplayTexts
display_texts disp = do
  dev_type ← require disp.dev_type
  caps ← require disp.caps
  hw_id ← require disp.hw_id
  sw_version ← require disp.sw_version
  sw_version16 ← id_str sw_version
  hw_sub16 ← id_str (get_else disp.hw_sub [])
  hw_version ← require disp.hw_version
  hw_version16 ← id_str hw_version
  serial0 ← require disp.serial0
  serial0_16 ← id_str serial0
  serial1 ← require disp.serial1
  serial1_16 ← id_str serial1
  name16 ← id_str (get_else disp.name [])
  ok (record {
    dev_type = dev_type;
    caps = caps;
    hw_id = hw_id;
    sw_version = sw_version16;
    hw_sub = hw_sub16;
    hw_version = hw_version16;
    serial0 = serial0_16;
    serial1 = serial1_16;
    name = name16;
  })

unfoldable pub display_rows : DisplayTexts → PluginTable
display_rows t =
    (display_key (0x09 ∷ []), 0x89 ∷ 0x00 ∷ 0x01 ∷ [])
    ∷ (display_key (0x02 ∷ []), 0x82 ∷ 0x02 ∷ [])
    ∷ (display_key (0x04 ∷ 0x00 ∷ 0x00 ∷ 0x00 ∷ []), 0x84 ∷ t.dev_type)
    ∷ (display_key (0x05 ∷ 0x00 ∷ 0x00 ∷ 0x00 ∷ []), 0x85 ∷ t.caps)
    ∷ (display_key (0x06 ∷ []), 0x86 ∷ t.hw_id)
    ∷ (display_key (0x0F ∷ 0x01 ∷ []), 0x8F ∷ 0x01 ∷ t.sw_version)
    ∷ (display_key (0x0F ∷ 0x02 ∷ []), 0x8F ∷ 0x02 ∷ t.hw_sub)
    ∷ (display_key (0x08 ∷ 0x01 ∷ []), 0x88 ∷ 0x01 ∷ t.hw_version)
    ∷ (display_key (0x08 ∷ 0x02 ∷ []), 0x88 ∷ 0x02 ∷ t.hw_sub)
    ∷ (display_key (0x10 ∷ 0x00 ∷ []), 0x90 ∷ 0x00 ∷ t.serial0)
    ∷ (display_key (0x10 ∷ 0x01 ∷ []), 0x90 ∷ 0x01 ∷ t.serial1)
    ∷ (display_key (0x11 ∷ 0x04 ∷ []), 0x91 ∷ 0x04 ∷ 0x01 ∷ [])
    ∷ (display_key (0x07 ∷ []), 0x87 ∷ 0x01 ∷ t.name)
    ∷ (display_key (0x08 ∷ []), 0x88 ∷ 0x01 ∷ t.hw_version)
    ∷ (display_key (0x0F ∷ []), 0x8F ∷ 0x01 ∷ t.sw_version)
    ∷ (display_key (0x10 ∷ []), 0x90 ∷ 0x00 ∷ t.serial0)
    ∷ (display_key (0x11 ∷ []), 0x91 ∷ 0x04 ∷ [])
    ∷ []

unfoldable pub display_entries : Display → Result PluginTable
unfolding display_texts display_rows
display_entries disp = map_result display_rows (display_texts disp)

-- `if disp:`; a block that is there but empty counts as none here.
abbrev pub optional_display : Option Display → Result PluginTable
optional_display none = ok []
optional_display (some disp) = display_entries disp

-- `pithouse_rsp`
unfoldable pub wheel_entries : WheelModel → WheelTexts → WheelTable
wheel_entries model t =
    ((0x09, []), 0x00 ∷ 0x01 ∷ [])
    ∷ ((0x02, 0x00 ∷ []), 0x02 ∷ [])
    ∷ ((0x04, replicate 4 0x00), get_else model.dev_type (0x01 ∷ 0x02 ∷ 0x04 ∷ 0x06 ∷ []))
    ∷ ((0x05, replicate 4 0x00), get_else model.caps (0x01 ∷ 0x02 ∷ 0x00 ∷ 0x00 ∷ []))
    ∷ ((0x06, []), get_else model.hw_id (replicate 12 0x00))
    ∷ ((0x07, 0x01 ∷ []), t.name)
    ∷ ((0x08, 0x01 ∷ []), t.hw_version)
    ∷ ((0x08, 0x02 ∷ []), t.hw_sub)
    ∷ ((0x0F, 0x01 ∷ []), t.sw_version)
    ∷ ((0x10, 0x00 ∷ []), t.serial0)
    ∷ ((0x10, 0x01 ∷ []), t.serial1)
    ∷ ((0x11, 0x04 ∷ []), get_else model.identity_11 (0x04 ∷ 0x01 ∷ []))
    ∷ []

-- `if base_ident:` and the like; here too an empty block counts as none.
abbrev pub optional_identity : ℕ → Option Ident → Result (Dict ProbeKey Bytes)
optional_identity dev_id none = ok []
optional_identity dev_id (some ident) = build_device_identity dev_id ident

abbrev pub dev_wheel : ℕ
dev_wheel = 0x17

unfoldable pub build_identity_tables :
    WheelModel → Result (PluginTable × (WheelTable × Dict ProbeKey Bytes))
unfolding wheel_texts plugin_entries display_entries wheel_entries
build_identity_tables model = do
  t ← wheel_texts model
  shown ← optional_display model.display
  hub ← optional_identity 0x12 model.base_identity
  base ← optional_identity 0x13 model.base_identity
  pedal ← optional_identity 0x19 model.pedal_identity
  ok (
    update (plugin_entries (get_else model.wheel_device dev_wheel) t) shown,
    (wheel_entries model t, update (update (update [] hub) base) pedal),
  )
