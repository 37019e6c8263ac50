-- ===== src/Identity.antt =====
-- sim/wheel_sim.py, the identity cascade: `_id_str`, `_id_slices` and `_build_device_identity`.
-- A text is the list of its code points.
pub mod Laws
pub mod Name
pub mod Tables
pub mod Agree
use moza_simulator.Base.{
  ℕ, zero, suc, ◌+◌, ◌-◌, ◌*◌, List, [], ◌∷◌, ◌++◌, Option, none, some, Bytes, length, take, drop,
  get_or, replicate, ltb, leb, if◌then◌else◌, Bytes-key, ℕ-key, pair-key, Bool, ◌||◌,
}
use moza_simulator.Base.Raise.{
  Result, ok, err, unicode_error, key_error, require, ◌>>=◌, map_result,
}
use moza_simulator.Base.Dict.{Dict, insert}

abbrev pub Text : Type 0
Text = List ℕ

-- (device, group, payload)
abbrev pub ProbeKey : Type 0
ProbeKey = ℕ × (ℕ × Bytes)

-- `s.encode('ascii')`
unfoldable pub encode_ascii : Text → Result Bytes
encode_ascii [] = ok []
encode_ascii (c ∷ s) =
    let rest = encode_ascii s in
    if ltb c 128 then map_result (λ t. c ∷ t) rest else err unicode_error

-- `bs.ljust(n, b'\x00')`
unfoldable pub ljust : ℕ → Bytes → Bytes
ljust n bs = bs ++ replicate (n - length bs) 0

unfoldable pub id_str : Text → Result Bytes
unfolding ljust
id_str s = do b ← encode_ascii s; ok (ljust 16 (take 16 b))

-- `[data[i * 16:(i + 1) * 16] for i in range(n)]`
unfoldable pub slices : ℕ → Bytes → List Bytes
slices zero bs = []
slices (suc n) bs = take 16 bs ∷ slices n (drop 16 bs)

unfoldable pub id_slices : Text → ℕ → Result (List Bytes)
unfolding ljust slices
id_slices s n = do b ← encode_ascii s; ok (slices n (ljust (n * 16) (take (n * 16) b)))

-- The `ident` dictionary; `none` is a missing key.
pub record Ident : Type 0 where
  pub name : Option Text
  pub hw_version : Option Text
  pub hw_sub : Option Text
  pub sw_version : Option Text
  pub serial0 : Option Text
  pub serial1 : Option Text
  pub hw_id : Option Bytes
  pub caps : Option Bytes
  pub dev_type : Option Bytes
  pub identity_09 : Option Bytes
  pub identity_11 : Option Bytes

abbrev pub no_ident : Ident
no_ident = record {
  name = none;
  hw_version = none;
  hw_sub = none;
  sw_version = none;
  serial0 = none;
  serial1 = none;
  hw_id = none;
  caps = none;
  dev_type = none;
  identity_09 = none;
  identity_11 = none;
}

-- `ident.get(k, default)`
abbrev pub get_else {ℓ} : {A : Type ℓ} → Option A → A → A
get_else none d = d
get_else (some a) d = a

abbrev is_some {ℓ} : {A : Type ℓ} → Option A → Bool
is_some none = Bool.false
is_some (some a) = Bool.true

-- The truth of the dictionary `ident`: some key is there.
unfoldable pub has_ident : Ident → Bool
has_ident i =
    is_some i.name
    || is_some i.hw_version
    || is_some i.hw_sub
    || is_some i.sw_version
    || is_some i.serial0
    || is_some i.serial1
    || is_some i.hw_id
    || is_some i.caps
    || is_some i.dev_type
    || is_some i.identity_09
    || is_some i.identity_11

abbrev pub probe : ℕ → ℕ → Bytes → ProbeKey
probe dev_id group payload = (dev_id, (group, payload))

-- `entries`, before the second slice of a long name is added.
unfoldable pub identity_entries :
    ℕ → Ident → Bytes → Bytes → Bytes → Bytes → Bytes → Bytes → Dict ProbeKey Bytes
identity_entries dev_id ident name hw_version hw_sub sw_version serial0 serial1 =
    (probe dev_id 0x02 (0 ∷ []), 0x02 ∷ [])
    ∷ (
      probe dev_id 0x04 (0 ∷ 0 ∷ 0 ∷ 0 ∷ []),
      get_else ident.dev_type (0x01 ∷ 0x02 ∷ 0x00 ∷ 0x00 ∷ []),
    )
    ∷ (probe dev_id 0x05 (0 ∷ 0 ∷ 0 ∷ 0 ∷ []), get_else ident.caps (0x01 ∷ 0x02 ∷ 0x00 ∷ 0x00 ∷ []))
    ∷ (probe dev_id 0x06 [], get_else ident.hw_id (replicate 12 0))
    ∷ (probe dev_id 0x07 (0x01 ∷ []), 0x01 ∷ name)
    ∷ (probe dev_id 0x08 (0x01 ∷ []), 0x01 ∷ hw_version)
    ∷ (probe dev_id 0x08 (0x02 ∷ []), 0x02 ∷ hw_sub)
    ∷ (probe dev_id 0x09 [], get_else ident.identity_09 (0x00 ∷ 0x01 ∷ []))
    ∷ (probe dev_id 0x0F (0x01 ∷ []), 0x01 ∷ sw_version)
    ∷ (probe dev_id 0x10 (0x00 ∷ []), 0x00 ∷ serial0)
    ∷ (probe dev_id 0x10 (0x01 ∷ []), 0x01 ∷ serial1)
    ∷ (probe dev_id 0x11 (0x04 ∷ []), 0x04 ∷ 0x01 ∷ [])
    ∷ []

unfoldable pub build_device_identity : ℕ → Ident → Result (Dict ProbeKey Bytes)
unfolding identity_entries
build_device_identity dev_id ident = do
  name ← require ident.name
  parts ← id_slices name 4
  hw_version ← id_str (get_else ident.hw_version [])
  hw_sub ← id_str (get_else ident.hw_sub [])
  sw_version ← id_str (get_else ident.sw_version [])
  serial0 ← id_str (get_else ident.serial0 [])
  serial1 ← id_str (get_else ident.serial1 [])
  let entries =
      identity_entries dev_id ident (get_or parts 0 []) hw_version hw_sub sw_version serial0 serial1
  if leb (length name) 16
      then ok entries
      else ok (insert (probe dev_id 0x07 (0x02 ∷ [])) (0x02 ∷ get_or parts 1 []) entries)
