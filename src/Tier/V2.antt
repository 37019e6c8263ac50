-- ===== src/Tier/V2.antt =====
-- sim/wheel_sim.py, `parse_v2_tier_def`. The program names a channel `ch` and its index, and a
-- compression that it does not know `code_` and its number in hexadecimal; the index and the number
-- stand for these names.
pub mod Layout
use moza_simulator.Base.{
  ℕ, zero, suc, ◌+◌, ◌-◌, List, [], ◌∷◌, ◌++◌, Option, none, some, Bytes, length, take, drop, Bool,
  true, false, ltb, leb, ◌==◌, if◌then◌else◌, String, ℕ-key,
}
use moza_simulator.Base.Raise.{Result, ok, err, index_error}
use moza_simulator.Base.Dict.{Dict, lookup, insert}
use moza_simulator.Session.Little.{le_value}

pub data Compression : Type 0 where
  named : String → Compression
  code : ℕ → Compression

pub record TierChannel : Type 0 where
  pub index : ℕ
  pub compression : Compression
  pub bit_width : ℕ

abbrev pub code_to_comp : Dict ℕ String
code_to_comp =
    (0x00, "bool")
    ∷ (0x14, "uint3")
    ∷ (0x0D, "int30")
    ∷ (0x01, "uint8_t")
    ∷ (0x02, "int8_t")
    ∷ (0x17, "float_001")
    ∷ (0x0E, "percent_1")
    ∷ (0x04, "uint16_t")
    ∷ (0x05, "int16_t")
    ∷ (0x0F, "float_6000_1")
    ∷ (0x15, "float_600_2")
    ∷ (0x16, "brake_temp_1")
    ∷ (0x07, "float")
    ∷ (0x08, "int32_t")
    ∷ (0x09, "uint32_t")
    ∷ (0x0A, "double")
    ∷ []

unfoldable pub compression_of : ℕ → Compression
compression_of comp_code = elim (lookup comp_code code_to_comp) [
  | some name ↦ named name
  | none ↦ code comp_code
]

-- One entry: three numbers of four bytes, and four bytes that are not read.
unfoldable pub read_channel : Bytes → TierChannel
unfolding compression_of
read_channel bytes = record {
  index = le_value (take 4 bytes);
  compression = compression_of (le_value (take 4 (drop 4 bytes)));
  bit_width = le_value (take 4 (drop 8 bytes));
}

-- `while j + 16 <= end`; the number of bytes is fuel enough.
unfoldable pub read_channels : ℕ → Bytes → List TierChannel
unfolding read_channel
read_channels zero bytes = []
read_channels (suc fuel) bytes =
    let rest = read_channels fuel (drop 16 bytes) in
    if leb 16 (length bytes) then read_channel (take 16 bytes) ∷ rest else []

abbrev pub Tiers : Type 0
Tiers = Dict ℕ (List TierChannel)

pub data TierRound : Type 0 where
  stop : TierRound
  skip : Bytes → TierRound
  tier : ℕ → List TierChannel → Bytes → TierRound

-- A tier whose size fits; `data[i + 5]` raises `IndexError` where the data ends there.
unfoldable pub read_tier : ℕ → Bytes → Result TierRound
unfolding read_channels
read_tier size [] = err index_error
read_tier size (flag ∷ body) =
    ok (tier flag (read_channels size (take (size - 1) body)) (drop size (flag ∷ body)))

-- One round of the loop, from `data[i:]`.
unfoldable pub tier_round : Bytes → Result TierRound
unfolding read_tier
tier_round [] = ok stop
tier_round (tag ∷ rest) =
    let param = le_value (take 4 rest) in
    let body = drop 4 rest in
    if ltb (length rest) 4
    then ok stop
    else if ltb (length body) param
    then ok stop
    else if tag == 0x01
    then read_tier param body
    else ok (skip (drop param body))

-- The loop; each round that goes on shortens the data, so its length is fuel enough.
unfoldable pub v2_tiers : ℕ → Bytes → Tiers → Result Tiers
unfolding tier_round
v2_tiers zero bytes tiers = ok tiers
v2_tiers (suc fuel) bytes tiers = elim (tier_round bytes) [
  | err e ↦ err e
  | ok stop ↦ ok tiers
  | ok (skip rest) ↦ v2_tiers fuel rest tiers
  | ok (tier flag channels rest) ↦ v2_tiers fuel rest (insert flag channels tiers)
]

unfoldable pub parse_v2_tier_def : Bytes → Result Tiers
unfolding v2_tiers
parse_v2_tier_def bytes = v2_tiers (length bytes) bytes []
