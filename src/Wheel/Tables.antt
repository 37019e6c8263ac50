-- ===== src/Wheel/Tables.antt =====
-- sim/wheel_sim.py, the constant tables of the wheel's handlers.
use moza_simulator.Base.{ℕ, List, [], ◌∷◌, Bytes}
use moza_simulator.Base.Dict.{Dict}

-- `_WHEEL_ECHO_PREFIXES`
abbrev pub wheel_echo_prefixes : List (ℕ × (ℕ × Bytes))
wheel_echo_prefixes =
    (0x3F, (0x17, 0x1F ∷ 0x00 ∷ []))
    ∷ (0x3F, (0x17, 0x1F ∷ 0x01 ∷ []))
    ∷ (0x3F, (0x17, 0x1E ∷ 0x00 ∷ []))
    ∷ (0x3F, (0x17, 0x1E ∷ 0x01 ∷ []))
    ∷ (0x3F, (0x17, 0x1B ∷ 0x00 ∷ []))
    ∷ (0x3F, (0x17, 0x1B ∷ 0x01 ∷ []))
    ∷ (0x3F, (0x17, 0x1C ∷ 0x00 ∷ []))
    ∷ (0x3F, (0x17, 0x1D ∷ 0x00 ∷ []))
    ∷ (0x3F, (0x17, 0x1D ∷ 0x01 ∷ []))
    ∷ (0x3F, (0x17, 0x1F ∷ 0x02 ∷ []))
    ∷ (0x3F, (0x17, 0x1F ∷ 0x03 ∷ []))
    ∷ (0x3F, (0x17, 0x1E ∷ 0x02 ∷ []))
    ∷ (0x3F, (0x17, 0x1E ∷ 0x03 ∷ []))
    ∷ (0x3F, (0x17, 0x1D ∷ 0x02 ∷ []))
    ∷ (0x3F, (0x17, 0x1D ∷ 0x03 ∷ []))
    ∷ (0x3F, (0x17, 0x1C ∷ 0x01 ∷ []))
    ∷ (0x3F, (0x17, 0x1C ∷ 0x02 ∷ []))
    ∷ (0x3F, (0x17, 0x1C ∷ 0x03 ∷ []))
    ∷ (0x3F, (0x17, 0x1B ∷ 0x02 ∷ []))
    ∷ (0x3F, (0x17, 0x1B ∷ 0x03 ∷ []))
    ∷ (0x3F, (0x17, 0x27 ∷ 0x00 ∷ []))
    ∷ (0x3F, (0x17, 0x27 ∷ 0x01 ∷ []))
    ∷ (0x3F, (0x17, 0x27 ∷ 0x02 ∷ []))
    ∷ (0x3F, (0x17, 0x27 ∷ 0x03 ∷ []))
    ∷ (0x3F, (0x17, 0x27 ∷ 0x04 ∷ []))
    ∷ (0x3F, (0x17, 0x2A ∷ 0x00 ∷ []))
    ∷ (0x3F, (0x17, 0x2A ∷ 0x01 ∷ []))
    ∷ (0x3F, (0x17, 0x2A ∷ 0x02 ∷ []))
    ∷ (0x3F, (0x17, 0x2A ∷ 0x03 ∷ []))
    ∷ (0x3F, (0x17, 0x2A ∷ 0x04 ∷ []))
    ∷ (0x3F, (0x17, 0x0A ∷ 0x00 ∷ []))
    ∷ (0x3F, (0x17, 0x24 ∷ 0xFF ∷ []))
    ∷ (0x3F, (0x17, 0x20 ∷ 0x01 ∷ []))
    ∷ (0x3F, (0x17, 0x1A ∷ 0x00 ∷ []))
    ∷ (0x3F, (0x17, 0x1A ∷ 0x01 ∷ []))
    ∷ (0x3F, (0x17, 0x19 ∷ 0x00 ∷ []))
    ∷ (0x3F, (0x17, 0x19 ∷ 0x01 ∷ []))
    ∷ (0x3E, (0x17, 0x0B ∷ []))
    ∷ (0x3F, (0x17, 0x03 ∷ []))
    ∷ (0x3F, (0x17, 0x09 ∷ []))
    ∷ (0x3F, (0x17, 0x0A ∷ []))
    ∷ (0x3F, (0x17, 0x0B ∷ []))
    ∷ (0x3F, (0x17, 0x21 ∷ []))
    ∷ []

-- `_BASE_PARAM_ACK_VAL`
abbrev pub base_param_ack_val : Dict Bytes ℕ
base_param_ack_val = (0x43 ∷ 0x02 ∷ [], 0x01) ∷ (0x44 ∷ 0x01 ∷ [], 0x80) ∷ []

-- `_HUB_CFG_VALUES`
abbrev pub hub_cfg_values : Dict Bytes Bytes
hub_cfg_values =
    (0x0A ∷ [], 0x01 ∷ [])
    ∷ (0x0F ∷ [], 0x00 ∷ [])
    ∷ (0x10 ∷ [], 0x27 ∷ 0x10 ∷ [])
    ∷ (0x18 ∷ [], 0x00 ∷ 0x00 ∷ [])
    ∷ (0x19 ∷ [], 0x00 ∷ 0x00 ∷ [])
    ∷ (0x20 ∷ [], 0x00 ∷ 0x00 ∷ [])
    ∷ (0x21 ∷ [], 0x00 ∷ 0x00 ∷ [])
    ∷ (0x23 ∷ [], 0x00 ∷ 0x00 ∷ 0x00 ∷ 0x00 ∷ [])
    ∷ (0x25 ∷ [], 0x27 ∷ 0x10 ∷ [])
    ∷ (0x4D ∷ [], 0x00 ∷ [])
    ∷ (0x17 ∷ 0x00 ∷ [], [])
    ∷ (0x34 ∷ 0x00 ∷ [], [])
    ∷ (0x36 ∷ 0x00 ∷ [], [])
    ∷ (0x46 ∷ 0x00 ∷ [], [])
    ∷ (0x4C ∷ 0x00 ∷ [], [])
    ∷ (0x4E ∷ 0x08 ∷ 0xFF ∷ [], [])
    ∷ (0x4E ∷ 0x09 ∷ 0xFF ∷ [], [])
    ∷ (0x4E ∷ 0x0A ∷ 0xFF ∷ [], [])
    ∷ (0x4E ∷ 0x0B ∷ 0xFF ∷ [], [])
    ∷ (0x4E ∷ 0x08 ∷ [], [])
    ∷ (0x4E ∷ 0x09 ∷ [], [])
    ∷ (0x4E ∷ 0x0A ∷ [], [])
    ∷ (0x4E ∷ 0x0B ∷ [], [])
    ∷ (0x4E ∷ 0x08 ∷ 0x80 ∷ [], [])
    ∷ (0x4E ∷ 0x09 ∷ 0x80 ∷ [], [])
    ∷ (0x4E ∷ 0x0A ∷ 0x80 ∷ [], [])
    ∷ (0x4E ∷ 0x0B ∷ 0x80 ∷ [], [])
    ∷ (0x4F ∷ 0x08 ∷ [], 0xFF ∷ 0x00 ∷ [])
    ∷ (0x4F ∷ 0x09 ∷ [], 0xFF ∷ 0x00 ∷ [])
    ∷ (0x4F ∷ 0x0A ∷ [], 0xFF ∷ 0x00 ∷ [])
    ∷ (0x4F ∷ 0x0B ∷ [], 0xFF ∷ 0x00 ∷ [])
    ∷ (0x55 ∷ 0x00 ∷ [], 0x43 ∷ 0xBA ∷ 0x9B ∷ 0x40 ∷ [])
    ∷ (
      0x56 ∷ 0x00 ∷ [],
      0x00 ∷ 0x00 ∷ 0xFA ∷ 0x45 ∷ 0x00 ∷ 0x00 ∷ 0x7A ∷ 0x45 ∷ 0x00 ∷ 0x40 ∷ 0x1C ∷ 0x46 ∷ [],
    )
    ∷ []

-- `_PROBE_SYNTH`
abbrev pub probe_synth : Dict (ℕ × ℕ) (ℕ × ℕ)
probe_synth = ((0x2B, 0x13), (0xAB, 0x31)) ∷ ((0x64, 0x12), (0xE4, 0x21)) ∷ []
