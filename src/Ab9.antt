-- ===== src/Ab9.antt =====
-- sim/ab9_sim.py: the AB9 active shifter. Its state is a record, a tag is its fixed part with the
-- bytes that the source formats into it, and a value of `effects` is the type byte of a slot.
pub mod Tables
pub mod Hid
pub mod Handlers
pub mod Spec
pub mod Handled
pub mod Refines
pub mod Slots
pub mod Settings
pub mod Gear
use moza_simulator.Base.{
  ℕ, ◌+◌, ◌/◌, ◌%◌, List, [], ◌∷◌, ◌++◌, Option, none, some, Bytes, String, bit_or, take, length,
  ℕ-key, pair-key, Bytes-key, String-key, Bool,
}
use moza_simulator.Base.Raise.{Result, ok, err, ◌>>=◌}
use moza_simulator.Base.Dict.{Dict, lookup, insert, update}
use moza_simulator.Identity.{Text, encode_ascii, ljust, get_else}
use moza_simulator.Standalone.{Replies, answer, bump}

abbrev pub Tag : Type 0
Tag = String × Bytes

-- The identity fields of group 0x02 and of groups 0x04 to 0x11.
pub record Ab9Identity : Type 0 where
  pub name : Text
  pub hw_version : Text
  pub hw_sub : Text
  pub sw_version : Text
  pub hash0 : Text
  pub hash1 : Text
  pub identity_11 : Bytes
  pub id_02 : Bytes
  pub id_04 : Bytes
  pub id_05 : Bytes
  pub id_06 : Bytes
  pub id_09 : Bytes

pub record Ab9 : Type 0 where
  pub identity : Ab9Identity
  pub settings : Dict ℕ ℕ
  pub next_effect_index : ℕ
  pub effects : Dict ℕ ℕ
  pub cat_counts : Dict Tag ℕ
  pub last_handler_tag : Tag
  pub unhandled_counts : Dict (ℕ × (ℕ × Bytes)) ℕ
  pub gear : Text
  pub hid_open : Bool
  -- The reports that the HID file has taken.
  pub hid_reports : List Bytes

-- `_tag`
unfoldable pub tag_frame : Tag → Ab9 → Ab9
tag_frame tag s = record s { last_handler_tag = tag; cat_counts = bump tag s.cat_counts }

-- The reply to a request of a group, from the device 0x21.
abbrev pub dev_ab9 : ℕ
dev_ab9 = 0x12

abbrev pub dev_ab9_rsp : ℕ
dev_ab9_rsp = 0x21

unfoldable pub ab9_reply : ℕ → Bytes → Replies
ab9_reply group body = answer (bit_or group 0x80) dev_ab9_rsp body

-- `_id_padded`
unfoldable pub id_padded : Text → ℕ → Result Bytes
unfolding ljust
id_padded s n = do b ← encode_ascii s; ok (ljust n (take n b))

-- `_id_field`
unfoldable pub id_field : ℕ → Text → Result Bytes
unfolding id_padded
id_field slot s = do b ← id_padded s 16; ok (slot ∷ b)
