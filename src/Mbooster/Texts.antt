-- ===== src/Mbooster/Texts.antt =====
-- The operations on texts that sim/engines/mbooster.py uses.
use moza_simulator.Base.{
  ℕ, bytes_eqb, Bool, Option, [], ◌+◌, if◌then◌else◌, ◌/◌, take, none, ltb, ◌∷◌, suc, length, some,
  false, ◌%◌, drop, true, ◌++◌, zero,
}
use moza_simulator.Identity.{Text}

-- `t.startswith(p)`
unfoldable pub starts_with : Text → Text → Bool
starts_with p t = bytes_eqb (take (length p) t) p

-- `t.split(p, 1)`, or none where `p`, which is not empty, does not occur.
unfoldable pub split_once : Text → Text → Option (Text × Text)
unfolding starts_with
split_once p [] = none
split_once p (c ∷ t) =
    let rest = split_once p t in
    if starts_with p (c ∷ t)
    then some ([], drop (length p) (c ∷ t))
    else elim rest [ none ↦ none | some (a, b) ↦ some (c ∷ a, b) ]

-- `p in t`
unfoldable pub occurs : Text → Text → Bool
unfolding split_once
occurs p t = elim (split_once p t) [ none ↦ false | some ab ↦ true ]

-- `str(n)`, with fuel for its digits.
unfoldable pub digits : ℕ → ℕ → Text
digits zero n = []
digits (suc fuel) n = elim (ltb n 10) [
  | true ↦ (48 + n) ∷ []
  | false ↦ digits fuel (n / 10) ++ (48 + n % 10) ∷ []
]

unfoldable pub decimal : ℕ → Text
unfolding digits
decimal n = digits (n + 1) n

-- `f"{n:02X}"` of a byte
unfoldable pub hex_digit : ℕ → ℕ
hex_digit d = if ltb d 10 then 48 + d else 55 + d

unfoldable pub hex_byte : ℕ → Text
unfolding hex_digit
hex_byte n = hex_digit (n / 16) ∷ hex_digit (n % 16) ∷ []
