-- ===== src/Tier/V2/Layout.antt =====
-- The layout that the loop of `parse_v2_tier_def` reads. Its comment on the tags to be skipped
-- describes that layout; the docstring describes another one for the tags 0x00 and 0x06.
use moza_simulator.Base.{
  ℕ, zero, suc, ◌-◌, ◌<◌, ◌≤◌, ◌≡◌, ◌≢◌, refl, List, [], ◌∷◌, ◌++◌, Bytes, length, false, ltb, ◌==◌,
  ==_iff, le→leb, All, arith, length-append, take-append, drop-append, ℕ-key,
}
use moza_simulator.Base.Raise.{ok}
use moza_simulator.Base.Dict.{insert}
use moza_simulator.Session.Little.{le_bytes, le_value, le_value-le_bytes}
use moza_simulator.Tier.V2.{
  TierChannel, compression_of, read_channel, read_channels, Tiers, skip, tier, read_tier,
  tier_round, v2_tiers, parse_v2_tier_def,
}

-- A channel as it is written: its index, the code of its compression, its width, and the four
-- bytes behind them as a number.
pub record Entry : Type 0 where
  pub index : ℕ
  pub comp_code : ℕ
  pub bit_width : ℕ
  pub unread : ℕ

abbrev pub write_entry : Entry → Bytes
write_entry e =
    le_bytes 4 e.index ++ le_bytes 4 e.comp_code ++ le_bytes 4 e.bit_width ++ le_bytes 4 e.unread

abbrev pub write_entries : List Entry → Bytes
write_entries [] = []
write_entries (e ∷ es) = write_entry e ++ write_entries es

abbrev pub channel_of : Entry → TierChannel
channel_of e = record {
  index = e.index;
  compression = compression_of e.comp_code;
  bit_width = e.bit_width;
}

abbrev pub channels_of : List Entry → List TierChannel
channels_of [] = []
channels_of (e ∷ es) = channel_of e ∷ channels_of es

-- The numbers of an entry that are read have 32 bits.
abbrev pub Fits : Entry → Type 0
Fits e = (e.index < 4294967296) × ((e.comp_code < 4294967296) × (e.bit_width < 4294967296))

-- A tag that is skipped, or a tier.
pub data Item : Type 0 where
  other : ℕ → Bytes → Item
  tier_of : ℕ → List Entry → Item

abbrev pub write_item : Item → Bytes
write_item (other tag body) = tag ∷ le_bytes 4 (length body) ++ body
write_item (tier_of flag es) =
    0x01 ∷ le_bytes 4 (suc (length (write_entries es))) ++ flag ∷ write_entries es

abbrev pub write_items : List Item → Bytes
write_items [] = []
write_items (i ∷ js) = write_item i ++ write_items js

abbrev pub ItemFits : Item → Type 0
ItemFits (other tag body) = (tag ≢ 0x01) × (length body < 4294967296)
ItemFits (tier_of flag es) = All Fits es × (length (write_entries es) < 4294967295)

-- The tiers of the items, a later one in place of an earlier one with the same flag.
abbrev pub tiers_of : List Item → Tiers → Tiers
tiers_of [] tiers = tiers
tiers_of (other tag body ∷ js) tiers = tiers_of js tiers
tiers_of (tier_of flag es ∷ js) tiers = tiers_of js (insert flag (channels_of es) tiers)

read_channel-write_entry : (e : Entry) → Fits e → read_channel (write_entry e) ≡ channel_of e
unfolding read_channel
read_channel-write_entry e (i, (c, b)) =
    rw
      (
        le_value-le_bytes e.index i,
        le_value-le_bytes e.comp_code c,
        le_value-le_bytes e.bit_width b,
      )
      refl

read_channels-write_entries :
    (fuel : ℕ) (es : List Entry)
    → length (write_entries es) < fuel
    → All Fits es
    → read_channels fuel (write_entries es) ≡ channels_of es
unfolding read_channels
read_channels-write_entries zero es f h = absurd (omega arith)
read_channels-write_entries (suc fuel) [] f h = refl
read_channels-write_entries (suc fuel) (e ∷ es) f h =
    rw
      (
        le→leb 16 (length (write_entries (e ∷ es))) (omega arith),
        read_channel-write_entry e h.0,
        read_channels-write_entries fuel es (omega arith) h.1,
      )
      refl

tier_round-other :
    (tag : ℕ) (body rest : Bytes)
    → tag ≢ 0x01
    → length body < 4294967296
    → tier_round (write_item (other tag body) ++ rest) ≡ ok (skip rest)
unfolding tier_round
tier_round-other tag body rest t h =
    let long : ltb (length (le_bytes 4 (length body) ++ body ++ rest)) 4 ≡ false = ground arith in
    let value : le_value (le_bytes 4 (length body)) ≡ length body =
      le_value-le_bytes (length body) h in
    let fits : ltb (length (body ++ rest)) (length body) ≡ false =
      ground (arith, length-append body rest) in
    let differs : (tag == 0x01) ≡ false = ground (arith, ==_iff tag 0x01) in
    rw (long, value, fits, differs, drop-append (length body) body rest refl) refl

tier_round-tier :
    (flag : ℕ) (es : List Entry) (rest : Bytes)
    → ItemFits (tier_of flag es)
    → tier_round (write_item (tier_of flag es) ++ rest) ≡ ok (tier flag (channels_of es) rest)
unfolding tier_round read_tier
tier_round-tier flag es rest h =
    let body = write_entries es in
    let long : ltb (length (le_bytes 4 (suc (length body)) ++ flag ∷ body ++ rest)) 4 ≡ false =
      ground arith in
    let value : le_value (le_bytes 4 (suc (length body))) ≡ suc (length body) =
      le_value-le_bytes (suc (length body)) (omega (arith, h.1)) in
    let fits : ltb (suc (length (body ++ rest))) (suc (length body)) ≡ false =
      ground (arith, length-append body rest) in
    let before : suc (length body) - 1 ≡ length body = omega arith in
    rw
      (
        long,
        value,
        fits,
        before,
        take-append (length body) body rest refl,
        drop-append (length body) body rest refl,
        read_channels-write_entries (suc (length body)) es (omega arith) h.0,
      )
      refl

length-write_items : (items : List Item) → length items ≤ length (write_items items)
length-write_items [] = omega arith
length-write_items (other tag body ∷ items) =
    omega (arith, length-write_items items, length-append body (write_items items))
length-write_items (tier_of flag es ∷ items) =
    omega (arith, length-write_items items, length-append (write_entries es) (write_items items))

v2_tiers-write_items :
    (fuel : ℕ) (items : List Item) (tiers : Tiers)
    → length items ≤ fuel
    → All ItemFits items
    → v2_tiers fuel (write_items items) tiers ≡ ok (tiers_of items tiers)
unfolding v2_tiers tier_round
v2_tiers-write_items zero [] tiers f h = refl
v2_tiers-write_items (suc fuel) [] tiers f h = refl
v2_tiers-write_items zero (i ∷ items) tiers f h = absurd (omega arith)
v2_tiers-write_items (suc fuel) (other tag body ∷ items) tiers f h =
    rw (v2_tiers, tier_round-other tag body (write_items items) h.0.0 h.0.1)
      (v2_tiers-write_items fuel items tiers (omega arith) h.1)
v2_tiers-write_items (suc fuel) (tier_of flag es ∷ items) tiers f h =
    rw (v2_tiers, tier_round-tier flag es (write_items items) h.0)
      (v2_tiers-write_items fuel items (insert flag (channels_of es) tiers) (omega arith) h.1)

-- Data of tiers, under the tag 0x01, and of other tags, each with a size of four bytes and as many
-- bytes, in any order, parses to the channels of each tier under its flag, a later tier in place of
-- an earlier one with the same flag, provided that every number and size fits its four bytes. The
-- other tags may be 0x00 and 0x06, and tiers behind a tag 0x06 count like those before it.
pub parse_v2_tier_def-write_items :
    (items : List Item)
    → All ItemFits items
    → parse_v2_tier_def (write_items items) ≡ ok (tiers_of items [])
unfolding parse_v2_tier_def
parse_v2_tier_def-write_items items h =
    v2_tiers-write_items (length (write_items items)) items [] (length-write_items items) h
