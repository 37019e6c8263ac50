-- ===== src/Tier/Bits.antt =====
-- sim/wheel_sim.py, `BitReader`: bits from the low end of each byte. The state is the position.
-- `x >> n` is `x / 2 ^ n`, `x << n` is `x * 2 ^ n`, and `x & ((1 << n) - 1)` is `x % 2 ^ n`.
use moza_simulator.Base.{
  ℕ, zero, suc, ◌+◌, ◌-◌, ◌*◌, ◌/◌, ◌%◌, ◌^◌, ◌≤◌, ◌≡◌, Bytes, length, get_or, leb, ◌==◌, ==_iff,
  leb→le, if◌then◌else◌, min, bit_or, arith, Bool-cases, inl, inr,
}

-- The bits to take from one byte.
abbrev pub bits_here : ℕ → ℕ → ℕ
bits_here left pos = min left (8 - pos % 8)

-- The loop, with the bits that are left to read; each round reads at least one, so their number is
-- fuel enough. The result is the value and the new position.
unfoldable pub read_from : Bytes → ℕ → ℕ → ℕ → ℕ → ℕ → ℕ × ℕ
read_from bytes zero left bits_done pos value = (value, pos)
read_from bytes (suc fuel) left bits_done pos value =
    let n = bits_here left pos in
    let chunk = get_or bytes (pos / 8) 0 / 2 ^ (pos % 8) % 2 ^ n in
    let next =
      read_from bytes fuel (left - n) (bits_done + n) (pos + n)
        (bit_or value (chunk * 2 ^ bits_done)) in
    if left == 0 then (value, pos) else if leb (length bytes) (pos / 8) then (value, pos) else next

unfoldable pub read_bits : Bytes → ℕ → ℕ → ℕ × ℕ
unfolding read_from
read_bits bytes pos count = read_from bytes count count 0 pos 0

read_from_position :
    (bytes : Bytes) (fuel left bits_done pos value : ℕ)
    → left ≤ fuel
    → pos ≤ 8 * length bytes
    → (read_from bytes fuel left bits_done pos value).1 ≡ min (pos + left) (8 * length bytes)
unfolding read_from
read_from_position bytes zero left bits_done pos value f h = omega arith
read_from_position bytes (suc fuel) left bits_done pos value f h =
    let n = bits_here left pos in
    elim (Bool-cases (left == 0)) [
      | inl z ↦ rw (read_from, z) (omega (arith, (==_iff left 0).0 z))
      | inr z ↦ elim (Bool-cases (leb (length bytes) (pos / 8))) [
        | inl e ↦ rw (read_from, z, e) (omega (arith, leb→le (length bytes) (pos / 8) e))
        | inr e ↦
            rw (read_from, z, e)
              (ground (
                arith,
                z,
                e,
                read_from_position bytes fuel (left - n) (bits_done + n) (pos + n) (
                    bit_or value
                      (get_or bytes (pos / 8) 0 / 2 ^ (pos % 8) % 2 ^ n * 2 ^ bits_done)),
              ))
      ]
    ]

-- Reading moves the position on by as many bits as were asked for, or to the end of the data, from
-- any position in it.
pub read_bits_position :
    (bytes : Bytes) (pos count : ℕ)
    → pos ≤ 8 * length bytes
    → (read_bits bytes pos count).1 ≡ min (pos + count) (8 * length bytes)
unfolding read_bits
read_bits_position bytes pos count h = read_from_position bytes count count 0 pos 0 (omega arith) h
