-- ===== src/Wire/Nibbles.antt =====
-- `swap_nibbles`: the two hex digits of a byte change places.
use moza_simulator.Base.{ℕ, ◌+◌, ◌*◌, ◌/◌, ◌%◌, ◌<◌, ◌≡◌, refl, true, arith, ◌==◌, ==_iff}
use moza_simulator.Base.Bits.{holds_below, holds_below→holds}
use moza_simulator.Wire.{swap_nibbles}

swap_table : holds_below (λ b. swap_nibbles b == b % 16 * 16 + b / 16) 256 ≡ true
unfolding holds_below swap_nibbles
swap_table = refl

pub swap_nibbles_lem : (b : ℕ) → b < 256 → swap_nibbles b ≡ b % 16 * 16 + b / 16
swap_nibbles_lem b h = (==_iff _ _).0 (holds_below→holds _ 256 b swap_table h)

pub swap_nibbles-lt : (b : ℕ) → b < 256 → swap_nibbles b < 256
swap_nibbles-lt b h = omega (arith, swap_nibbles_lem b h)

-- On bytes, `swap_nibbles` is its own inverse: a reply's device names the device that was asked.
swap_nibbles_involutive : (b : ℕ) → b < 256 → swap_nibbles (swap_nibbles b) ≡ b
swap_nibbles_involutive b h =
    omega (arith, swap_nibbles_lem b h, swap_nibbles_lem (swap_nibbles b) (swap_nibbles-lt b h))
