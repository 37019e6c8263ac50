-- ===== src/Profile.antt =====
-- sim/profiles/schema.py: a device profile is one or more USB gadgets, each in front of bus devices
-- ("blocks"). A block's `extras` are read by the wheel and mBooster engines alone.
pub mod Devices
use moza_simulator.Base.{
  ℕ, List, [], ◌∷◌, Option, none, some, String, Bool, if◌then◌else◌, String-key,
}
use moza_simulator.Identity.{Ident}

pub record GadgetSpec : Type 0 where
  pub pid : ℕ
  pub product_str : String
  pub serial_str : String
  pub functions : List String
  pub engine : String

pub record DeviceBlock : Type 0 where
  pub role : String
  pub address : ℕ
  pub ident : Ident
  pub present : Bool
  pub answers_identity : Bool
  pub echo_write_groups : List ℕ
  pub absorb_groups : List ℕ

pub record DeviceProfile : Type 0 where
  pub key : String
  pub friendly : String
  pub gadgets : List GadgetSpec
  pub blocks : List DeviceBlock

-- `DeviceProfile.block`: the first block of the role.
unfoldable pub find_block : String → List DeviceBlock → Option DeviceBlock
find_block role [] = none
find_block role (b ∷ blocks) = if String-key.eqb b.role role then some b else find_block role blocks

unfoldable pub present_of : List DeviceBlock → List ℕ
present_of [] = []
present_of (b ∷ blocks) =
    let rest = present_of blocks in if b.present then b.address ∷ rest else rest

unfoldable pub present_addresses : DeviceProfile → List ℕ
unfolding present_of
present_addresses p = present_of p.blocks
