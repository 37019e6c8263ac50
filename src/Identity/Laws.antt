-- ===== src/Identity/Laws.antt =====
-- The answers of the identity cascade: their sizes, and the name that they spell.
use moza_simulator.Base.{
  ℕ, zero, suc, ◌-◌, ◌*◌, ◌≤◌, ◌≡◌, refl, ap, ◌∙◌, List, [], ◌∷◌, ◌++◌, Option, none, some, Bytes,
  length, take, drop, get_or, replicate, arith, Bool, true, false, leb, if◌then◌else◌, Bytes-key,
  ℕ-key, pair-key, All, length-append, length-take, length-drop, length-replicate, take-append-drop,
  concat,
}
use moza_simulator.Base.Raise.{Result, ok, err, require, Ensures, Ensures-bind, Ensures-ok, ◌>>=◌}
use moza_simulator.Base.Dict.{Dict, insert, AllValues, AllValues-insert}
use moza_simulator.Identity.{
  Text, ProbeKey, encode_ascii, ljust, id_str, slices, id_slices, Ident, get_else, identity_entries,
  build_device_identity, probe,
}

pub length-ljust : (n : ℕ) (bs : Bytes) → length bs ≤ n → length (ljust n bs) ≡ n
unfolding ljust
length-ljust n bs h = omega (
  arith,
  length-append bs (replicate (n - length bs) 0),
  length-replicate {A = ℕ} (n - length bs) 0,
)

pub length-id_str : (s : Text) {b : Bytes} → id_str s ≡ ok b → length b ≡ 16
unfolding id_str
length-id_str s {b} h = go (encode_ascii s) h
  where
    go : (r : Result Bytes) → (r >>= λ e. ok (ljust 16 (take 16 e))) ≡ ok b → length b ≡ 16
    go (ok e) q =
        let same : ljust 16 (take 16 e) ≡ b = ground arith in
        rw (← same) (length-ljust 16 (take 16 e) (omega (arith, length-take 16 e)))
    go (err x) q = cc

concat-slices : (n : ℕ) (bs : Bytes) → length bs ≡ n * 16 → concat (slices n bs) ≡ bs
unfolding slices
concat-slices zero [] h = refl
concat-slices zero (b ∷ bs) h = absurd (omega arith)
concat-slices (suc n) bs h =
    ap (λ t. take 16 bs ++ t) (concat-slices n (drop 16 bs) (omega (arith, length-drop 16 bs)))
    ∙ take-append-drop 16 bs

-- The slices of a text, put together, are its first 16 * n bytes, padded with NUL to that length.
pub concat-id_slices :
    (s : Text) (n : ℕ) {b : Bytes} {parts : List Bytes}
    → encode_ascii s ≡ ok b
    → id_slices s n ≡ ok parts
    → concat parts ≡ ljust (n * 16) (take (n * 16) b)
unfolding id_slices
concat-id_slices s n {b} {parts} e h =
    let same : slices n (ljust (n * 16) (take (n * 16) b)) ≡ parts = ground arith in
    rw (← same) (
      concat-slices n _
        (length-ljust (n * 16) (take (n * 16) b) (omega (arith, length-take (n * 16) b))))

All-slices : (n : ℕ) (bs : Bytes) → All (λ p. length p ≤ 16) (slices n bs)
unfolding slices
All-slices zero bs = tt
All-slices (suc n) bs = (omega (arith, length-take 16 bs), All-slices n (drop 16 bs))

-- The captured byte fields of an `ident` fit a frame.
pub record HasShortFields (i : Ident) : Type 0 where
  pub hw_id : length (get_else i.hw_id []) ≤ 255
  pub caps : length (get_else i.caps []) ≤ 255
  pub dev_type : length (get_else i.dev_type []) ≤ 255
  pub identity_09 : length (get_else i.identity_09 []) ≤ 255

abbrev pub FitsFrame : Bytes → Type 0
FitsFrame b = length b ≤ 255

get_else_fits :
    (o : Option Bytes) (d : Bytes)
    → length (get_else o []) ≤ 255
    → length d ≤ 255
    → length (get_else o d) ≤ 255
get_else_fits none d h k = k
get_else_fits (some b) d h k = h

get_or_fits :
    (parts : List Bytes) (i : ℕ) → All (λ p. length p ≤ 16) parts → length (get_or parts i []) ≤ 16
get_or_fits [] i h = omega arith
get_or_fits (p ∷ parts) zero h = h.0
get_or_fits (p ∷ parts) (suc i) h = get_or_fits parts i h.1

identity_entries_fit :
    (dev_id : ℕ) (i : Ident) (name hw_version hw_sub sw_version serial0 serial1 : Bytes)
    → HasShortFields i
    → length name ≤ 16
    → length hw_version ≡ 16
    → length hw_sub ≡ 16
    → length sw_version ≡ 16
    → length serial0 ≡ 16
    → length serial1 ≡ 16
    → AllValues FitsFrame
        (identity_entries dev_id i name hw_version hw_sub sw_version serial0 serial1)
unfolding identity_entries
identity_entries_fit dev_id i name hw_version hw_sub sw_version serial0 serial1 s n a b c d e = (
  omega arith,
  (
    get_else_fits i.dev_type _ s.dev_type (omega arith),
    (
      get_else_fits i.caps _ s.caps (omega arith),
      (
        get_else_fits i.hw_id _ s.hw_id (omega arith),
        (
          omega arith,
          (
            omega arith,
            (omega arith, (get_else_fits i.identity_09 _ s.identity_09 (omega arith), omega arith)),
          ),
        ),
      ),
    ),
  ),
)

All-id_slices :
    (s : Text) (n : ℕ) {parts : List Bytes}
    → id_slices s n ≡ ok parts
    → All (λ p. length p ≤ 16) parts
unfolding id_slices
All-id_slices s n {parts} h =
    Ensures-ok (All (λ p. length p ≤ 16)) _
      (Ensures-bind (All (λ p. length p ≤ 16)) (encode_ascii s) _
        λ b e. All-slices n (ljust (n * 16) (take (n * 16) b)))
      h

entries_ensured :
    (dev_id : ℕ) (i : Ident)
    → HasShortFields i
    → Ensures (AllValues FitsFrame) (build_device_identity dev_id i)
unfolding build_device_identity
entries_ensured dev_id i s = Ensures-bind (AllValues FitsFrame) (require i.name) _ λ name e0.
    Ensures-bind (AllValues FitsFrame) (id_slices name 4) _ λ parts e1.
      Ensures-bind (AllValues FitsFrame) (id_str (get_else i.hw_version [])) _ λ hw_version e2.
        Ensures-bind (AllValues FitsFrame) (id_str (get_else i.hw_sub [])) _ λ hw_sub e3.
          Ensures-bind (AllValues FitsFrame) (id_str (get_else i.sw_version [])) _ λ sw_version e4.
            Ensures-bind (AllValues FitsFrame) (id_str (get_else i.serial0 [])) _ λ serial0 e5.
              Ensures-bind (AllValues FitsFrame) (id_str (get_else i.serial1 [])) _ λ serial1 e6.
                finish (leb (length name) 16) _ (get_or parts 1 [])
                  (identity_entries_fit dev_id i (get_or parts 0 []) hw_version hw_sub sw_version
                    serial0 serial1 s (get_or_fits parts 0 (All-id_slices name 4 e1))
                    (length-id_str (get_else i.hw_version []) e2)
                    (length-id_str (get_else i.hw_sub []) e3)
                    (length-id_str (get_else i.sw_version []) e4)
                    (length-id_str (get_else i.serial0 []) e5)
                    (length-id_str (get_else i.serial1 []) e6))
                  (get_or_fits parts 1 (All-id_slices name 4 e1))
  where
    finish :
        (b : Bool) (entries : Dict ProbeKey Bytes) (second : Bytes)
        → AllValues FitsFrame entries
        → length second ≤ 16
        → Ensures (AllValues FitsFrame) (
            if b
            then ok entries
            else ok (insert (probe dev_id 0x07 (0x02 ∷ [])) (0x02 ∷ second) entries))
    finish true entries second h k = h
    finish false entries second h k = AllValues-insert FitsFrame _ _ entries (omega arith) h

-- Every answer of the cascade fits a frame, where the captured fields do.
pub build_device_identity_fits :
    (dev_id : ℕ) (i : Ident) {entries : Dict ProbeKey Bytes}
    → HasShortFields i
    → build_device_identity dev_id i ≡ ok entries
    → AllValues FitsFrame entries
build_device_identity_fits dev_id i s h =
    Ensures-ok (AllValues FitsFrame) _ (entries_ensured dev_id i s) h
