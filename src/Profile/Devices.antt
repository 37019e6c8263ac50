-- ===== src/Profile/Devices.antt =====
-- The profiles of the devices that `StandaloneSimulator` and `Cm1Simulator` drive:
-- sim/profiles/standalone/handbrake.py, sim/profiles/pedals/srp.py and sim/profiles/dashes/cm1.py.
use Prim.Native.Char.{code}
use Prim.Native.String.{String}
use moza_simulator.Base.{[], ◌∷◌, some, true, false, replicate}
use moza_simulator.Identity.{Text, no_ident}
use moza_simulator.Profile.{DeviceProfile}

-- The code points of a literal.
abbrev pub text : String → Text
text String.[] = []
text (String.◌∷◌ c s) = code c ∷ text s

abbrev pub handbrake_profile : DeviceProfile
handbrake_profile = record {
  key = "handbrake";
  friendly = "Handbrake (HBP)";
  gadgets =
      record {
        pid = 0x001F;
        product_str = "MOZA HBP Handbrake";
        serial_str = "";
        functions = "acm" ∷ [];
        engine = "standalone";
      }
      ∷ [];
  blocks =
      record {
        role = "handbrake";
        address = 0x1B;
        ident = record no_ident {
          name = some (text "HB # S01");
          hw_version = some (text "RS21-S01-HW HB-C");
          sw_version = some (text "RS21-S01-MC HB");
          dev_type = some (0x01 ∷ 0x02 ∷ 0x03 ∷ 0x01 ∷ []);
        };
        present = true;
        answers_identity = true;
        echo_write_groups = 0x5C ∷ [];
        absorb_groups = [];
      }
      ∷ [];
}

abbrev pub srp_profile : DeviceProfile
srp_profile = record {
  key = "srp";
  friendly = "SRP Pedals";
  gadgets =
      record {
        pid = 0x0003;
        product_str = "MOZA SRP Pedals";
        serial_str = "";
        functions = "acm" ∷ [];
        engine = "standalone";
      }
      ∷ [];
  blocks =
      record {
        role = "pedal";
        address = 0x19;
        ident = record no_ident {
          name = some (text "SRP");
          hw_version = some (text "RS21-D01-HW PM-C");
          hw_sub = some (text "U-V11");
          sw_version = some (text "RS21-D01-MC PB");
          serial0 = some (text "SRPPEDAL00000000");
          serial1 = some (text "SRPPEDAL00000001");
          hw_id = some (replicate 12 0);
          caps = some (0x01 ∷ 0x02 ∷ 0x18 ∷ 0x00 ∷ []);
          dev_type = some (0x01 ∷ 0x02 ∷ 0x02 ∷ 0x05 ∷ []);
          identity_09 = some (0x00 ∷ 0x04 ∷ []);
        };
        present = true;
        answers_identity = true;
        echo_write_groups = 0x24 ∷ [];
        absorb_groups = 0x26 ∷ [];
      }
      ∷ [];
}

abbrev pub cm1_profile : DeviceProfile
cm1_profile = record {
  key = "cm1";
  friendly = "CM1 Racing Dash";
  gadgets =
      record {
        pid = 0x0006;
        product_str = "MOZA CM1 Racing Dash";
        serial_str = "";
        functions = "acm" ∷ [];
        engine = "cm1";
      }
      ∷ [];
  blocks =
      record {
        role = "dash-cm1";
        address = 0x14;
        ident = no_ident;
        present = true;
        answers_identity = false;
        echo_write_groups = 0x32 ∷ [];
        absorb_groups = 0x35 ∷ 0x36 ∷ [];
      }
      ∷ [];
}
