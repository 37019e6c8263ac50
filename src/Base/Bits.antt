-- ===== src/Base/Bits.antt =====
-- Facts about the bit operations, by evaluation over all bytes.
use Prim.Native.Nat.{ℕ, zero, suc, ◌<◌, bit_or}
use mathlib.Core.Path.{◌≡◌, refl}
use mathlib.Core.Bool.{Bool, true, ◌&&◌}
use native.Mathlib.Omega.{arith}
use moza_simulator.Base.Tests.{ltb, ltb→lt}

-- `p` holds of every number below the bound.
unfoldable pub holds_below : (ℕ → Bool) → ℕ → Bool
holds_below p zero = true
holds_below p (suc top) = holds_below p top && p top

pub holds_below→holds : (p : ℕ → Bool) (top b : ℕ) → holds_below p top ≡ true → b < top → p b ≡ true
unfolding holds_below
holds_below→holds p zero b all h = absurd (omega arith)
holds_below→holds p (suc top) b all h = ground (arith, holds_below→holds p top b)

-- `group | 0x80` of a byte is a byte.
high_bit_table : holds_below (λ x. ltb (bit_or x 0x80) 256) 256 ≡ true
unfolding holds_below
high_bit_table = refl

pub high_bit-lt : (x : ℕ) → x < 256 → bit_or x 0x80 < 256
high_bit-lt x h = ltb→lt _ _ (holds_below→holds _ 256 x high_bit_table h)
