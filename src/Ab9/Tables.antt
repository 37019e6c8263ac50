-- ===== src/Ab9/Tables.antt =====
-- sim/ab9_sim.py: the tables of the shifter and a device as it is constructed.
use moza_simulator.Base.{
  ℕ, [], ◌∷◌, Option, none, some, String, ℕ-key, String-key, false, length, Bool,
}
use moza_simulator.Base.Dict.{Dict, lookup, update}
use moza_simulator.Profile.Devices.{text}
use moza_simulator.Identity.{Text, get_else}
use moza_simulator.Ab9.{Ab9, Ab9Identity}

abbrev pub default_identity : Ab9Identity
default_identity = record {
  name = text "BA0 # MOT-1-V01";
  hw_version = text "AS23-BA0-HW BM-C";
  hw_sub = text "U-V15B";
  sw_version = text "AS23-BA0-MC BA0";
  hash0 = text "AB9SIM0000000000";
  hash1 = text "AB9SIM0000000001";
  identity_11 = 0x04 ∷ 0x01 ∷ [];
  id_02 = 0x02 ∷ [];
  id_04 = 0x01 ∷ 0x01 ∷ 0x0C ∷ 0x02 ∷ [];
  id_05 = 0x01 ∷ 0x02 ∷ 0x28 ∷ 0x01 ∷ [];
  id_06 = 0x4B ∷ 0x00 ∷ 0x45 ∷ 0x00 ∷ 0x01 ∷ 0x00 ∷ 0x00 ∷ 0x00 ∷ 0x00 ∷ 0x00 ∷ 0x20 ∷ 0x20 ∷ [];
  id_09 = 0x00 ∷ 0x08 ∷ [];
}

abbrev pub default_settings : Dict ℕ ℕ
default_settings =
    (0x5D, 0x0001)
    ∷ (0xA9, 0x0064)
    ∷ (0xAF, 0x0064)
    ∷ (0xB0, 0x0005)
    ∷ (0xB2, 0x0064)
    ∷ (0xD3, 0x0006)
    ∷ (0xD4, 0x0000)
    ∷ (0xD6, 0x0023)
    ∷ (0xD7, 0x66E7)
    ∷ (0xD8, 0x8001)
    ∷ []

abbrev pub read_val_size : Dict ℕ ℕ
read_val_size = (0x5D, 1) ∷ []

abbrev pub mode_labels : Dict ℕ String
mode_labels =
    (0x00, "5+R Layout 1")
    ∷ (0x04, "6+R Layout 1")
    ∷ (0x05, "6+R Layout 2")
    ∷ (0x06, "7+R Layout 1")
    ∷ (0x07, "7+R Layout 2")
    ∷ (0x09, "Sequential")
    ∷ []

abbrev pub slider_cmds : Dict String ℕ
slider_cmds =
    ("mode", 0xD3)
    ∷ ("mech_resistance", 0xD6)
    ∷ ("spring", 0xAF)
    ∷ ("natural_damping", 0xB0)
    ∷ ("natural_friction", 0xB2)
    ∷ ("max_torque_limit", 0xA9)
    ∷ []

-- `Ab9Simulator(identity, settings)`, where the identity is the default one already updated.
unfoldable pub ab9_init : Ab9Identity → Dict ℕ ℕ → Ab9
ab9_init ident own = record {
  identity = ident;
  settings = update default_settings own;
  next_effect_index = 0;
  effects = [];
  cat_counts = [];
  last_handler_tag = ("", []);
  unhandled_counts = [];
  gear = text "N";
  hid_open = false;
  hid_reports = [];
}

pub record Sliders : Type 0 where
  mech_resistance : Option ℕ
  spring : Option ℕ
  natural_damping : Option ℕ
  natural_friction : Option ℕ
  max_torque_limit : Option ℕ

-- What `snapshot` tells of the stored state; the run time and the frame counts of the serial loop
-- are left out.
pub record Snapshot : Type 0 where
  mode : Option ℕ
  mode_label : String
  sliders : Sliders
  shifter_x : Option ℕ
  shifter_y : Option ℕ
  status_5d : Option ℕ
  gear : Text
  hid_attached : Bool
  effects_allocated : ℕ
  effects : Dict ℕ ℕ
  unhandled_unique : ℕ

unfoldable pub label_of : Option ℕ → String
label_of none = "unknown"
label_of (some mode) = get_else (lookup mode mode_labels) "unknown"

unfoldable pub snapshot : Ab9 → Snapshot
unfolding label_of
snapshot s = record {
  mode = lookup 0xD3 s.settings;
  mode_label = label_of (lookup 0xD3 s.settings);
  sliders = record {
    mech_resistance = lookup 0xD6 s.settings;
    spring = lookup 0xAF s.settings;
    natural_damping = lookup 0xB0 s.settings;
    natural_friction = lookup 0xB2 s.settings;
    max_torque_limit = lookup 0xA9 s.settings;
  };
  shifter_x = lookup 0xD7 s.settings;
  shifter_y = lookup 0xD8 s.settings;
  status_5d = lookup 0x5D s.settings;
  gear = s.gear;
  hid_attached = s.hid_open;
  effects_allocated = s.next_effect_index;
  effects = s.effects;
  unhandled_unique = length s.unhandled_counts;
}
