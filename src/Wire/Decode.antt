-- ===== src/Wire/Decode.antt =====
-- What `parse_frames` decodes from any wire, and the fuel of its loop.
use moza_simulator.Base.{
  if◌then◌else◌, suc, ◌+◌, ◌≤◌, ◌<◌, List, All, ap, ◌==◌, ℕ, zero, ◌≡◌, refl, [], ◌∷◌, ◌++◌, true,
  false, inl, inr, ◌⊎◌, Option, none, some, Bytes, length, ==_iff, arith, Bool-cases,
}
use moza_simulator.Wire.{msg_start}
use moza_simulator.Wire.Stream.{escape, push_byte, decode_body, emit, parse_from, parse_frames}

-- 7E, a length byte n, and n + 3 further bytes.
abbrev pub IsShaped : Bytes → Type 0
IsShaped (start ∷ n ∷ rest) = (start ≡ msg_start) × (length rest ≡ n + 3)
IsShaped _ = ⊥

-- Bytes among which no frame starts.
abbrev pub IsIdle : Bytes → Type 0
IsIdle = All (λ b. (b == msg_start) ≡ false)

pub decode_plain :
    (need b : ℕ) (wire : Bytes)
    → (b == msg_start) ≡ false
    → decode_body (suc need) (b ∷ wire) ≡ push_byte b (decode_body need wire)
unfolding decode_body
decode_plain need b [] h = rw h
decode_plain need b (c ∷ wire) h = rw h

pub decode-escape :
    (xs wire : Bytes) → decode_body (length xs) (escape xs ++ wire) ≡ some (xs, wire)
unfolding escape
decode-escape [] wire = unfold decode_body in refl
decode-escape (b ∷ bs) wire = step (Bool-cases (b == msg_start)) (decode-escape bs wire)
  where
    step :
        ((b == msg_start) ≡ true) ⊎ ((b == msg_start) ≡ false)
        → decode_body (length bs) (escape bs ++ wire) ≡ some (bs, wire)
        → decode_body (length (b ∷ bs)) (escape (b ∷ bs) ++ wire) ≡ some (b ∷ bs, wire)
    step (inl h) ih = rw ((==_iff b msg_start).0 h) (unfold decode_body push_byte in rw ih)
    step (inr h) ih =
        rw h (rw (decode_plain (length bs) b (escape bs ++ wire) h) (unfold push_byte in rw ih))

-- What is decoded has the length asked for, and what is left of the wire is shorter by it.
abbrev Sized : ℕ → ℕ → Option (Bytes × Bytes) → Type 0
Sized need len none = Unit
Sized need len (some (decoded, rest)) = (length decoded ≡ need) × (length rest + need ≤ len)

Sized-push_byte :
    (need len len' b : ℕ) (r : Option (Bytes × Bytes))
    → len < len'
    → Sized need len r
    → Sized (suc need) len' (push_byte b r)
unfolding push_byte
Sized-push_byte need len len' b none lt h = tt
Sized-push_byte need len len' b (some (decoded, rest)) lt h = omega arith

decode_body-Sized : (need : ℕ) (wire : Bytes) → Sized need (length wire) (decode_body need wire)
unfolding decode_body
decode_body-Sized zero wire = omega arith
decode_body-Sized (suc need) [] = tt
decode_body-Sized (suc need) (b ∷ []) = pick (decode_body-Sized need [])
  where
    pick :
        Sized need 0 (decode_body need [])
        → Sized (suc need) 1 (if b == msg_start then none else push_byte b (decode_body need []))
    pick h =
        elim (b == msg_start)
          as (λ t. Sized (suc need) 1 (if t then none else push_byte b (decode_body need []))) [
            | true ↦ tt
            | false ↦ Sized-push_byte need 0 1 b _ (omega arith) h
          ]
decode_body-Sized (suc need) (b ∷ c ∷ wire) =
    pick (decode_body-Sized need (c ∷ wire)) (decode_body-Sized need wire)
  where
    pick :
        Sized need (length (c ∷ wire)) (decode_body need (c ∷ wire))
        → Sized need (length wire) (decode_body need wire)
        → Sized (suc need) (length (b ∷ c ∷ wire)) (decode_body (suc need) (b ∷ c ∷ wire))
    pick plain pair = elim (Bool-cases (b == msg_start)) [
      | inl h ↦ rw h (elim (Bool-cases (c == msg_start)) [
        | inl k ↦ rw k (Sized-push_byte need (length wire) _ msg_start _ (omega arith) pair)
        | inr k ↦ rw k tt
      ])
      | inr h ↦ rw h (Sized-push_byte need (length (c ∷ wire)) _ b _ (omega arith) plain)
    ]

emit-IsShaped :
    (rest : Bytes → List Bytes) (n len : ℕ) (r : Option (Bytes × Bytes))
    → Sized (n + 3) len r
    → ((wire : Bytes) → All IsShaped (rest wire))
    → All IsShaped (emit rest n r)
unfolding emit
emit-IsShaped rest n len none h k = tt
emit-IsShaped rest n len (some (decoded, wire)) h k = ((refl, h.0), k wire)

parse_from-IsShaped : (fuel : ℕ) (wire : Bytes) → All IsShaped (parse_from fuel wire)
unfolding parse_from
parse_from-IsShaped zero wire = tt
parse_from-IsShaped (suc fuel) [] = tt
parse_from-IsShaped (suc fuel) (b ∷ []) = tt
parse_from-IsShaped (suc fuel) (b ∷ n ∷ wire) =
    pick (parse_from-IsShaped fuel (n ∷ wire)) (parse_from-IsShaped fuel)
  where
    pick :
        All IsShaped (parse_from fuel (n ∷ wire))
        → ((rest : Bytes) → All IsShaped (parse_from fuel rest))
        → All IsShaped (parse_from (suc fuel) (b ∷ n ∷ wire))
    pick skipped found = elim (Bool-cases (b == msg_start)) [
      | inl h ↦
          rw h (
            emit-IsShaped (parse_from fuel) n (length wire) _ (decode_body-Sized (n + 3) wire)
              found)
      | inr h ↦ rw h skipped
    ]

-- Whatever the wire holds, each frame that `parse_frames` returns starts with 7E and has the
-- length that its second byte announces.
pub parse_frames-IsShaped : (wire : Bytes) → All IsShaped (parse_frames wire)
unfolding parse_frames
parse_frames-IsShaped wire = parse_from-IsShaped (length wire) wire

emit_fuel :
    (rest rest' : Bytes → List Bytes) (n len : ℕ) (r : Option (Bytes × Bytes))
    → Sized (n + 3) len r
    → ((wire : Bytes) → length wire ≤ len → rest wire ≡ rest' wire)
    → emit rest n r ≡ emit rest' n r
unfolding emit
emit_fuel rest rest' n len none h k = refl
emit_fuel rest rest' n len (some (decoded, wire)) h k =
    ap (λ t. (msg_start ∷ n ∷ decoded) ∷ t) (k wire (omega arith))

-- Fuel beyond the length of the wire changes nothing.
pub parse_from_fuel :
    (fuel more : ℕ) (wire : Bytes)
    → length wire ≤ fuel
    → length wire ≤ more
    → parse_from fuel wire ≡ parse_from more wire
unfolding parse_from
parse_from_fuel zero zero wire h k = refl
parse_from_fuel zero (suc more) [] h k = refl
parse_from_fuel zero (suc more) (b ∷ wire) h k = absurd (omega arith)
parse_from_fuel (suc fuel) zero [] h k = refl
parse_from_fuel (suc fuel) zero (b ∷ wire) h k = absurd (omega arith)
parse_from_fuel (suc fuel) (suc more) [] h k = refl
parse_from_fuel (suc fuel) (suc more) (b ∷ []) h k = refl
parse_from_fuel (suc fuel) (suc more) (b ∷ n ∷ wire) h k =
    pick (parse_from_fuel fuel more (n ∷ wire) (omega arith) (omega arith))
      (λ w q. parse_from_fuel fuel more w (omega arith) (omega arith))
  where
    pick :
        parse_from fuel (n ∷ wire) ≡ parse_from more (n ∷ wire)
        → ((w : Bytes) → length w ≤ length wire → parse_from fuel w ≡ parse_from more w)
        → parse_from (suc fuel) (b ∷ n ∷ wire) ≡ parse_from (suc more) (b ∷ n ∷ wire)
    pick skipped found = elim (Bool-cases (b == msg_start)) [
      | inl e ↦ rw e (
          emit_fuel (parse_from fuel) (parse_from more) n (length wire) _
            (decode_body-Sized (n + 3) wire) found)
      | inr e ↦ rw e skipped
    ]
