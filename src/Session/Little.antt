-- ===== src/Session/Little.antt =====
-- Little-endian numbers: `struct.pack('<I', n)`, `n.to_bytes(4, 'little')` and
-- `int.from_bytes(bs, 'little')`.
use moza_simulator.Base.{
  ℕ, zero, suc, ◌+◌, ◌*◌, ◌/◌, ◌%◌, ◌<◌, ◌≡◌, refl, [], ◌∷◌, Bytes, length, IsBytes, arith,
}

-- The `k` low bytes of a number; `struct.pack` and `to_bytes` raise where it has more.
abbrev pub le_bytes : ℕ → ℕ → Bytes
le_bytes zero n = []
le_bytes (suc k) n = n % 256 ∷ le_bytes k (n / 256)

abbrev pub le_value : Bytes → ℕ
le_value [] = 0
le_value (b ∷ bs) = b + 256 * le_value bs

pub length-le_bytes : (k n : ℕ) → length (le_bytes k n) ≡ k
length-le_bytes zero n = refl
length-le_bytes (suc k) n = omega (arith, length-le_bytes k (n / 256))

pub le_bytes-IsBytes : (k n : ℕ) → IsBytes (le_bytes k n)
le_bytes-IsBytes zero n = tt
le_bytes-IsBytes (suc k) n = (omega arith, le_bytes-IsBytes k (n / 256))

pub le_value-le_bytes : (n : ℕ) → n < 4294967296 → le_value (le_bytes 4 n) ≡ n
le_value-le_bytes n h = omega arith

pub le_value-le_bytes_2 : (n : ℕ) → n < 65536 → n % 256 + n / 256 % 256 * 256 ≡ n
le_value-le_bytes_2 n h = omega arith
