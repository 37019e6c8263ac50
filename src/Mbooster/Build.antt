-- ===== src/Mbooster/Build.antt =====
-- sim/engines/mbooster.py: `MBoosterSimulator.__init__` and `_synthetic_id`. The seed file is read
-- and its hex texts are bytes; a unit of the seed stands under the number that its key spells.
use moza_simulator.Base.{
  ℕ, ℕ-key, pair-key, Bytes-key, List, Bytes, Option, take, ◌∷◌, if◌then◌else◌, [], concat, ◌==◌,
  replicate, ◌++◌, some, ◌/◌, length, none, ◌+◌, drop, false, get_or,
}
use moza_simulator.Base.Raise.{Result, err, stop_iteration, ◌>>=◌, ok}
use moza_simulator.Base.Dict.{Dict, lookup, insert, update}
use moza_simulator.Mbooster.Texts.{hex_byte, decimal}
use moza_simulator.Identity.{Text, get_else}
use moza_simulator.Profile.Devices.{text}
use moza_simulator.Mbooster.{PedalUnit, add_code, Lane}

pub record SeedUnit : Type 0 where
  pub identity : Dict (ℕ × Bytes) Bytes
  pub registers : Dict Bytes Bytes
  pub heartbeat : List Text
  pub params : Dict Bytes Bytes

-- An entry of `extras["units"]`.
pub record UnitSpec : Type 0 where
  pub dev : ℕ
  pub role : ℕ
  pub regs : Dict Bytes Bytes

-- `extras` with its defaults filled in.
pub record LaneExtras : Type 0 where
  pub host_dev : ℕ
  pub passive : List ℕ
  pub units : List UnitSpec
  pub errors : Dict ℕ (List ℕ)

-- `(tag * (n // len(tag) + 1))[:n]`
unfoldable pub repeat_tag : Text → ℕ → Bytes
repeat_tag tag n = take n (concat (replicate (n / length tag + 1) tag))

-- The bytes before the first zero, and those from it on.
unfoldable pub until_zero : Bytes → Bytes × Bytes
until_zero [] = ([], [])
until_zero (b ∷ bs) =
    let (before, after) = until_zero bs in if b == 0 then ([], b ∷ bs) else (b ∷ before, after)

unfoldable pub synthetic_id : ℕ × Bytes → Bytes → ℕ → Bytes
unfolding repeat_tag until_zero hex_byte
synthetic_id (group, req) template dev =
    if group == 0x06
    then repeat_tag (text "AZ" ++ hex_byte dev ++ text "UID") (length template)
    else (let (before, after) = until_zero (drop 1 template) in
        take 1 template
        ++ repeat_tag (text "AZ" ++ hex_byte dev ++ 83 ∷ decimal (get_or req 0 0)) (length before)
        ++ after)

-- The keys of what identifies a unit.
abbrev pub unique_keys : List (ℕ × Bytes)
unique_keys = (0x06, []) ∷ (0x10, 0x00 ∷ []) ∷ (0x10, 0x01 ∷ []) ∷ []

-- A unique reply that the unit's own seed lacks is made up from the host's.
unfoldable pub make_unique :
    ℕ → Dict (ℕ × Bytes) Bytes → List (ℕ × Bytes) → Dict (ℕ × Bytes) Bytes → Dict (ℕ × Bytes) Bytes
unfolding synthetic_id
make_unique dev own [] ident = ident
make_unique dev own (k ∷ keys) ident = make_unique dev own keys (elim (lookup k own) [
  | some reply ↦ ident
  | none ↦ elim (lookup k ident) [
    | none ↦ ident
    | some reply ↦ insert k (synthetic_id k reply dev) ident
  ]
])

-- The identity of a unit: the host's, updated by its own.
unfoldable pub unit_identity : ℕ → SeedUnit → Option SeedUnit → Dict (ℕ × Bytes) Bytes
unfolding make_unique
unit_identity dev host_seed own =
    let replies : Dict (ℕ × Bytes) Bytes = elim own [ none ↦ [] | some s ↦ s.identity ] in
    make_unique dev replies unique_keys (update host_seed.identity replies)

-- `set(codes)`
unfoldable pub code_set : List ℕ → List ℕ → List ℕ
unfolding add_code
code_set codes [] = codes
code_set codes (c ∷ rest) = code_set (add_code c codes) rest

unfoldable pub build_unit : Dict ℕ SeedUnit → SeedUnit → Dict ℕ (List ℕ) → UnitSpec → PedalUnit
unfolding unit_identity code_set
build_unit seed host_seed errors spec =
    let s = get_else (lookup spec.dev seed) host_seed in
    record {
      dev = spec.dev;
      default_role = spec.role;
      identity = unit_identity spec.dev host_seed (lookup spec.dev seed);
      regs = update s.registers spec.regs;
      params = s.params;
      heartbeat = s.heartbeat;
      errors = code_set [] (get_else (lookup spec.dev errors) []);
      acked = [];
      offline_until = 0;
      cal = none;
      locate_started = 0;
      last_error_report = 0;
      boot_due = false;
      sleep_before_cal = none;
    }

unfoldable pub build_units :
    Dict ℕ SeedUnit
    → SeedUnit
    → Dict ℕ (List ℕ)
    → List UnitSpec
    → Dict ℕ PedalUnit
    → Dict ℕ PedalUnit
unfolding build_unit
build_units seed host_seed errors [] units = units
build_units seed host_seed errors (spec ∷ specs) units =
    build_units seed host_seed errors specs
      (insert spec.dev (build_unit seed host_seed errors spec) units)

-- `next(iter(seed_units.values()))`
unfoldable pub first_seed : Dict ℕ SeedUnit → Result SeedUnit
first_seed [] = err stop_iteration
first_seed ((dev, s) ∷ seed) = ok s

unfoldable pub find_host_seed : ℕ → Dict ℕ SeedUnit → Result SeedUnit
unfolding first_seed
find_host_seed dev seed = elim (lookup dev seed) [ some s ↦ ok s | none ↦ first_seed seed ]

-- The lane that `__init__` adds to the engine.
unfoldable pub build_lane : Dict ℕ SeedUnit → LaneExtras → Result Lane
unfolding find_host_seed build_units
build_lane seed extras = do
  host_seed ← find_host_seed extras.host_dev seed
  ok (record {
    host_dev = extras.host_dev;
    passive = extras.passive;
    units = build_units seed host_seed extras.errors extras.units [];
    pending = [];
    next_heartbeat = none;
  })
