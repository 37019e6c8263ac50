-- ===== src/Identity/Name.antt =====
-- The name that a device's identity answers spell.
use moza_simulator.Base.{
  ℕ, zero, suc, ◌+◌, ◌*◌, ◌≤◌, ◌<◌, ◌≡◌, refl, ap, ◌∙◌, List, [], ◌∷◌, ◌++◌, some, Bytes, length,
  take, drop, get_or, arith, false, leb, if◌then◌else◌, Bytes-key, ℕ-key, pair-key, ==_refl, ◌-◌,
  replicate, ltb, take_all,
}
use moza_simulator.Base.Raise.{
  Result, ok, err, unicode_error, map_result, require, Ensures, Ensures-bind, Ensures-ok,
}
use moza_simulator.Base.Dict.{Dict, lookup, insert, lookup-insert, lookup-insert_self}
use moza_simulator.Identity.{
  Text, ProbeKey, encode_ascii, ljust, id_str, slices, id_slices, Ident, get_else, identity_entries,
  build_device_identity, probe,
}
use native.Mathlib.Nat.{add-zero}
use Prim.Native.Nat.add

-- The name answer among the entries that are there for every device.
first_answer :
    (dev_id : ℕ) (i : Ident) (name hw_version hw_sub sw_version serial0 serial1 : Bytes)
    → lookup
        (probe dev_id 0x07 (0x01 ∷ []))
        (identity_entries dev_id i name hw_version hw_sub sw_version serial0 serial1)
      ≡ some (0x01 ∷ name)
unfolding lookup identity_entries
first_answer dev_id i name hw_version hw_sub sw_version serial0 serial1 = rw (==_refl dev_id)

take_two : (m n : ℕ) (xs : Bytes) → take m xs ++ take n (drop m xs) ≡ take (m + n) xs
take_two zero n xs = rw (add.zero n)
take_two (suc m) zero [] = rw (add-zero (suc m))
take_two (suc m) (suc n) [] = rw (add.suc m (suc n))
take_two (suc m) n (x ∷ xs) = rw (add.suc m n) (ap (λ t. x ∷ t) (take_two m n xs))

take-replicate : (n k : ℕ) → n ≤ k → take {A = ℕ} n (replicate k 0) ≡ replicate n 0
take-replicate zero k h = refl
take-replicate (suc n) zero h = absurd (omega arith)
take-replicate (suc n) (suc k) h = ap (λ t. 0 ∷ t) (take-replicate n k (omega arith))

take-padded :
    (n k : ℕ) (xs : Bytes)
    → length xs ≤ n
    → n ≤ length xs + k
    → take n (xs ++ replicate k 0) ≡ xs ++ replicate (n - length xs) 0
take-padded n k [] h q = take-replicate n k (omega arith) ∙ ap (λ t. replicate t 0) (omega arith)
take-padded zero k (x ∷ xs) h q = absurd (omega arith)
take-padded (suc n) k (x ∷ xs) h q =
    ap (λ t. x ∷ t)
      (take-padded n k xs (omega arith) (omega arith) ∙ ap (λ t. xs ++ replicate t 0) (omega arith))

length-encode_ascii : (s : Text) {b : Bytes} → encode_ascii s ≡ ok b → length b ≡ length s
unfolding encode_ascii
length-encode_ascii [] h = ground arith
length-encode_ascii (c ∷ s) {b} h = go (encode_ascii s) (λ t e. length-encode_ascii s e) h
  where
    go :
        (r : Result Bytes)
        → ((t : Bytes) → r ≡ ok t → length t ≡ length s)
        → (if ltb c 128 then map_result (λ t. c ∷ t) r else err unicode_error) ≡ ok b
        → length b ≡ suc (length s)
    go (ok t) ih q = ground (arith, ih t refl)
    go (err x) ih q = ground arith

-- The probes 07:01 and 07:02 of a device: the two halves of its name, padded with NUL to 32 bytes.
pub record SpellsName (dev_id : ℕ) (b : Bytes) (entries : Dict ProbeKey Bytes) : Type 0 where
  pub part1 : Bytes
  pub part2 : Bytes
  pub answer1 : lookup (probe dev_id 0x07 (0x01 ∷ [])) entries ≡ some (0x01 ∷ part1)
  pub answer2 : lookup (probe dev_id 0x07 (0x02 ∷ [])) entries ≡ some (0x02 ∷ part2)
  pub spelled : part1 ++ part2 ≡ ljust 32 b

halves :
    (b : Bytes)
    → length b ≤ 32
    → (d : Bytes) → d ≡ ljust 64 (take 64 b)
    → take 16 d ++ take 16 (drop 16 d) ≡ ljust 32 b
unfolding ljust
halves b h d e =
    take_two 16 16 d
    ∙ ap (take 32) (e ∙ rw (take_all 64 b (omega arith)))
    ∙ take-padded 32 (64 - length b) b h (omega arith)

long_name :
    (dev_id : ℕ) (i : Ident) (parts : List Bytes)
    (b hw_version hw_sub sw_version serial0 serial1 : Bytes)
    → length b ≤ 32
    → parts ≡ slices 4 (ljust 64 (take 64 b))
    → SpellsName dev_id b (
        insert (probe dev_id 0x07 (0x02 ∷ [])) (0x02 ∷ get_or parts 1 []) (
          identity_entries dev_id i
            (get_or parts 0 [])
            hw_version
            hw_sub
            sw_version
            serial0
            serial1))
long_name dev_id i parts b hw_version hw_sub sw_version serial0 serial1 h e = record {
  part1 = get_or parts 0 [];
  part2 = get_or parts 1 [];
  answer1 =
      lookup-insert _ _ _ _
      ∙ rw (==_refl dev_id)
          (first_answer dev_id i (get_or parts 0 []) hw_version hw_sub sw_version serial0 serial1);
  answer2 = lookup-insert_self (probe dev_id 0x07 (0x02 ∷ [])) (0x02 ∷ get_or parts 1 []) _;
  spelled = rw e (unfold slices in halves b h (ljust 64 (take 64 b)) refl);
}

id_slices_eq :
    (s : Text) (n : ℕ) {b : Bytes} {parts : List Bytes}
    → encode_ascii s ≡ ok b
    → id_slices s n ≡ ok parts
    → parts ≡ slices n (ljust (n * 16) (take (n * 16) b))
unfolding id_slices
id_slices_eq s n e h = ground arith

-- A device whose name has 17 to 32 ASCII characters answers the probes 07:01 and 07:02 with the
-- two parts of that name, padded with NUL to 32 bytes.
pub build_device_identity-SpellsName :
    (dev_id : ℕ) (i : Ident) (name : Text) {b : Bytes} {entries : Dict ProbeKey Bytes}
    → i.name ≡ some name
    → encode_ascii name ≡ ok b
    → 16 < length name
    → length name ≤ 32
    → build_device_identity dev_id i ≡ ok entries
    → SpellsName dev_id b entries
unfolding build_device_identity
build_device_identity-SpellsName dev_id i name {b} e a lo hi h =
    Ensures-ok (SpellsName dev_id b) _
      (Ensures-bind (SpellsName dev_id b) (require i.name) _ λ name' e0.
        Ensures-bind (SpellsName dev_id b) (id_slices name' 4) _ λ parts e1.
          Ensures-bind (SpellsName dev_id b) (id_str (get_else i.hw_version [])) _ λ hw_version e2.
            Ensures-bind (SpellsName dev_id b) (id_str (get_else i.hw_sub [])) _ λ hw_sub e3.
              Ensures-bind (SpellsName dev_id b) (id_str (get_else i.sw_version [])) _
                λ sw_version e4.
                  Ensures-bind (SpellsName dev_id b) (id_str (get_else i.serial0 [])) _
                    λ serial0 e5.
                      Ensures-bind (SpellsName dev_id b) (id_str (get_else i.serial1 [])) _
                        λ serial1 e6.
                          finish name' parts hw_version hw_sub sw_version serial0 serial1
                            (same name' e0) e1)
      h
  where
    same : (name' : Text) → require i.name ≡ ok name' → name' ≡ name
    same name' q = ground arith

    finish :
        (name' : Text) (parts : List Bytes) (hw_version hw_sub sw_version serial0 serial1 : Bytes)
        → name' ≡ name
        → id_slices name' 4 ≡ ok parts
        → Ensures (SpellsName dev_id b) (
            if leb (length name') 16
            then ok (
                identity_entries dev_id i
                  (get_or parts 0 [])
                  hw_version
                  hw_sub
                  sw_version
                  serial0
                  serial1)
            else ok (
                insert (probe dev_id 0x07 (0x02 ∷ [])) (0x02 ∷ get_or parts 1 []) (
                  identity_entries dev_id i
                    (get_or parts 0 [])
                    hw_version
                    hw_sub
                    sw_version
                    serial0
                    serial1)))
    finish name' parts hw_version hw_sub sw_version serial0 serial1 n p =
        let long : leb (length name') 16 ≡ false = rw n (ground arith) in
        rw long (
          long_name dev_id i parts b hw_version hw_sub sw_version serial0 serial1
            (omega (arith, length-encode_ascii name a)) (id_slices_eq name 4 a (rw (← n) p)))
