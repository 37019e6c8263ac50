-- ===== src/Tier/Catalog.antt =====
-- The channel catalog that `_build_session2_message` builds, read by `parse_v0_tier_def`.
use moza_simulator.Base.{
  ℕ, zero, suc, ◌+◌, ◌-◌, ◌%◌, ◌<◌, ◌≤◌, ◌≡◌, refl, ap, ◌∙◌, List, [], ◌∷◌, ◌++◌, Bytes, length,
  true, false, ltb, leb, le→leb, String, All, arith, length-append, take-append, drop-append,
  append_assoc,
}
use moza_simulator.Base.Raise.{ok}
use moza_simulator.Base.Dict.{Dict}
use moza_simulator.Identity.{Text, encode_ascii}
use moza_simulator.Session.Little.{le_bytes, le_value, le_value-le_bytes}
use moza_simulator.Tier.Sorting.{
  Channel, sort_texts, sort_channels, length-sort_texts, All-sort_texts, IsAscending,
  sort_channels-IsAscending,
}
use moza_simulator.Tier.{
  decode_ascii, describe, found, read_tag, read_round, v0_channels, parse_v0_tier_def, url_entry,
  url_entries, catalog_head, catalog_tail, build_session2_message,
}

-- An ASCII text that fits a tag.
abbrev pub IsUrl : Text → Type 0
IsUrl url = All (λ c. c < 128) url × (length url < 65535)

encode_ascii-eq-ok : (url : Text) → All (λ c. c < 128) url → encode_ascii url ≡ ok url
unfolding encode_ascii
encode_ascii-eq-ok [] h = refl
encode_ascii-eq-ok (c ∷ url) h = ground (arith, encode_ascii-eq-ok url h.1, h.0)

decode_ascii_plain : (url : Text) → All (λ c. c < 128) url → decode_ascii url ≡ url
unfolding decode_ascii
decode_ascii_plain [] h = refl
decode_ascii_plain (c ∷ url) h = ground (arith, decode_ascii_plain url h.1, h.0)

abbrev entry_of : ℕ → Text → Bytes
entry_of idx url = 0x04 ∷ le_bytes 4 (1 + length url) ++ idx % 256 ∷ url

abbrev entries_of : ℕ → List Text → Bytes
entries_of idx [] = []
entries_of idx (url ∷ urls) = entry_of idx url ++ entries_of (suc idx) urls

url_entries-eq-ok :
    (idx : ℕ) (urls : List Text) → All IsUrl urls → url_entries idx urls ≡ ok (entries_of idx urls)
unfolding url_entries url_entry
url_entries-eq-ok idx [] h = refl
url_entries-eq-ok idx (url ∷ urls) h =
    let short : ltb (1 + length url) 4294967296 ≡ true = ground (arith, h.0.1) in
    rw (encode_ascii-eq-ok url h.0.0, short, url_entries-eq-ok (suc idx) urls h.1) refl

length-entries_of : (idx : ℕ) (urls : List Text) → length urls ≤ length (entries_of idx urls)
length-entries_of idx [] = omega arith
length-entries_of idx (url ∷ urls) =
    omega (arith, length-entries_of (suc idx) urls, length-append url (entries_of (suc idx) urls))

read_tag-entry :
    (idx : ℕ) (url rest : Text)
    → idx ≤ 255
    → IsUrl url
    → read_tag 0x04 (1 + length url) (idx % 256 ∷ url ++ rest) ≡ found idx url rest
unfolding read_tag
read_tag-entry idx url rest i h =
    let size : 1 + length url ≡ suc (length url) = omega arith in
    let fits : leb (suc (length url)) (suc (length (url ++ rest))) ≡ true =
      le→leb _ _ (omega (arith, length-append url rest)) in
    let before : suc (length url) - 1 ≡ length url = omega arith in
    let small : idx % 256 ≡ idx = omega arith in
    rw
      (
        size,
        le→leb 1 (suc (length url)) (omega arith),
        fits,
        before,
        take-append (length url) url rest refl,
        drop-append (length url) url rest refl,
        small,
        decode_ascii_plain url h.0,
      )
      refl

read_round-entry :
    (idx : ℕ) (url rest : Text)
    → idx ≤ 255
    → IsUrl url
    → read_round (entry_of idx url ++ rest) ≡ found idx url rest
unfolding read_round
read_round-entry idx url rest i h =
    let long : ltb (length (le_bytes 4 (1 + length url) ++ idx % 256 ∷ url ++ rest)) 4 ≡ false =
      ground arith in
    let value : le_value (le_bytes 4 (1 + length url)) ≡ 1 + length url =
      le_value-le_bytes (1 + length url) (omega (arith, h.1)) in
    let fits : ltb 0xFFFF (1 + length url) ≡ false = ground (arith, h.1) in
    rw (long, value, fits) (read_tag-entry idx url rest i h)

-- The channels of these URLs, numbered from `idx`.
abbrev pub described : Dict Text String → ℕ → List Text → List Channel
described db idx [] = []
described db idx (url ∷ urls) = describe db idx url ∷ described db (suc idx) urls

described-IsAscending :
    (db : Dict Text String) (idx : ℕ) (urls : List Text) → IsAscending idx (described db idx urls)
unfolding describe
described-IsAscending db idx [] = tt
described-IsAscending db idx (url ∷ urls) = (omega arith, described-IsAscending db (suc idx) urls)

v0_channels-catalog_tail :
    (db : Dict Text String) (fuel n : ℕ) → v0_channels db fuel (catalog_tail n) ≡ []
unfolding v0_channels read_round read_tag
v0_channels-catalog_tail db zero n = refl
v0_channels-catalog_tail db (suc zero) n = refl
v0_channels-catalog_tail db (suc (suc fuel)) n = refl

v0_channels-entries :
    (db : Dict Text String) (fuel n idx : ℕ) (urls : List Text)
    → length urls ≤ fuel
    → idx + length urls ≤ 256
    → All IsUrl urls
    → v0_channels db fuel (entries_of idx urls ++ catalog_tail n) ≡ described db idx urls
unfolding v0_channels
v0_channels-entries db fuel n idx [] f i h = v0_channels-catalog_tail db fuel n
v0_channels-entries db zero n idx (url ∷ urls) f i h = absurd (omega arith)
v0_channels-entries db (suc fuel) n idx (url ∷ urls) f i h =
    ap (v0_channels db (suc fuel))
      (append_assoc (entry_of idx url) (entries_of (suc idx) urls) (catalog_tail n))
    ∙ rw
        (
          v0_channels,
          read_round-entry idx url (entries_of (suc idx) urls ++ catalog_tail n) (omega arith) h.0,
        )
        (ap (λ t. describe db idx url ∷ t)
          (v0_channels-entries db fuel n (suc idx) urls (omega arith) (omega arith) h.1))

v0_channels-catalog_head :
    (db : Dict Text String) (fuel : ℕ) (rest : Bytes)
    → v0_channels db (suc (suc fuel)) (catalog_head ++ rest) ≡ v0_channels db fuel rest
unfolding v0_channels read_round read_tag
v0_channels-catalog_head db fuel rest =
    let long : ltb (length (le_bytes 4 4 ++ le_bytes 4 1 ++ rest)) 4 ≡ false = ground arith in
    rw (v0_channels, long) refl

-- Of at most 255 channels with ASCII URLs of less than 65535 characters each, the catalog can be
-- built, and a reader of it gets the channels in the order of their URLs, numbered from 1, each
-- with the name, the compression and the width that its URL stands for.
pub parse_v0_tier_def-build_session2_message :
    (db : Dict Text String) (urls : List Text)
    → All IsUrl urls
    → length urls ≤ 255
    → (message : Bytes) × (build_session2_message urls ≡ ok message)
      × (parse_v0_tier_def message db ≡ described db 1 (sort_texts urls))
unfolding build_session2_message parse_v0_tier_def
parse_v0_tier_def-build_session2_message db urls h n =
    (catalog_head ++ body, rw (url_entries-eq-ok 1 sorted short) refl, read)
  where
    sorted : List Text
    sorted = sort_texts urls

    short : All IsUrl sorted
    short = All-sort_texts IsUrl urls h

    body : Bytes
    body = entries_of 1 sorted ++ catalog_tail (length urls)

    left : ℕ
    left = length (le_bytes 4 4 ++ le_bytes 4 1 ++ body)

    enough : length sorted ≤ left
    enough = omega (
      arith,
      length-entries_of 1 sorted,
      length-append (entries_of 1 sorted) (catalog_tail (length urls)),
    )

    read :
        sort_channels (v0_channels db (length (catalog_head ++ body)) (catalog_head ++ body))
        ≡ described db 1 sorted
    read =
        ap sort_channels (
          v0_channels-catalog_head db left body
          ∙ v0_channels-entries db left (length urls) 1 sorted enough
              (omega (arith, length-sort_texts urls)) short)
        ∙ sort_channels-IsAscending 1 (described db 1 sorted) (described-IsAscending db 1 sorted)
