-- ===== src/Cm1.antt =====
-- sim/engines/standalone.py: `Cm1Simulator`, the CM1 racing dash, a `StandaloneSimulator` whose hook
-- answers reads of the parameter registers.
pub mod Params
use moza_simulator.Base.{
  ℕ, ◌+◌, ◌*◌, ◌/◌, ◌%◌, ◌^◌, [], ◌∷◌, List, Option, none, some, Bytes, length, bit_or, Bool, ◌&&◌,
  ◌==◌, if◌then◌else◌, ℕ-key,
}
use moza_simulator.Base.Dict.{Dict, lookup}
use moza_simulator.Wire.{swap_nibbles}
use moza_simulator.Identity.{get_else}
use moza_simulator.Standalone.{Sim, Hook, Replies, answer, record_frame}

-- `DEVICE`
abbrev pub cm1_device : ℕ
cm1_device = 0x14

abbrev pub param_sentinel : ℕ
param_sentinel = 0xFFFF8000

abbrev pub param_table : Dict ℕ ℕ
param_table =
    (1, 27)
    ∷ (2, 22)
    ∷ (3, 26)
    ∷ (4, 35)
    ∷ (5, 24)
    ∷ (7, 12)
    ∷ (9, 23)
    ∷ (10, 32)
    ∷ (13, 825)
    ∷ (300, 875)
    ∷ (301, 51)
    ∷ (302, 9318)
    ∷ (303, 0)
    ∷ (304, 0)
    ∷ (305, 223)
    ∷ (307, 70)
    ∷ (309, 164)
    ∷ (310, 91)
    ∷ (313, 843)
    ∷ (400, 839)
    ∷ (401, 878)
    ∷ (3000, 100)
    ∷ (3001, 0)
    ∷ (3002, 0)
    ∷ (3003, 0)
    ∷ (3004, 1)
    ∷ (3005, 62)
    ∷ []

-- `struct.pack('>I', v)` for v below 2 ^ 32
unfoldable pub pack_be32 : ℕ → Bytes
pack_be32 v = (v / 2 ^ 24 % 256) ∷ (v / 2 ^ 16 % 256) ∷ (v / 2 ^ 8 % 256) ∷ (v % 256) ∷ []

unfoldable pub param_value : ℕ → ℕ
param_value reg = get_else (lookup reg param_table) param_sentinel

-- `(payload[1] << 8) | payload[2]`
unfoldable pub param_reg : ℕ → ℕ → ℕ
param_reg hi lo = bit_or (hi * 256) lo

unfoldable pub param_body : ℕ → ℕ → Bytes
param_body hi lo = hi ∷ lo ∷ 0x00 ∷ pack_be32 (param_value (param_reg hi lo))

module _ {X : Type 0} where
  unfoldable pub param_read : Sim X → Bytes → ℕ → ℕ → Sim X × Option Replies
  unfolding record_frame param_body
  param_read s frame hi lo = (
    record_frame "cm1_param" frame s,
    some (answer 0x8E (swap_nibbles cm1_device) (param_body hi lo)),
  )

  -- `_device_specific`
  unfoldable pub cm1_hook : Hook X
  unfolding param_read
  cm1_hook s frame group device (p ∷ hi ∷ lo ∷ rest) =
      if device == cm1_device && (group == 0x0E && p == 0x00)
      then param_read s frame hi lo
      else (s, none)
  cm1_hook s frame group device _ = (s, none)
