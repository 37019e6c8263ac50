-- ===== src/Tier/Device.antt =====
-- sim/wheel_sim.py, `build_device_catalog`: the frames that a wheel sends unasked on sessions 1 and
-- 2. The model dictionary is a record; an absent description is empty, as the code treats both
-- alike.
use moza_simulator.Base.{
  ℕ, suc, ◌+◌, ◌≡◌, refl, ap, ◌∙◌, List, [], ◌∷◌, ◌++◌, Option, Bytes, length, take, drop, concat,
  Bool, false, if◌then◌else◌, String, String-key, ℕ-key, All, append-nil, take-append-drop,
  Bool-cases, inl, inr,
}
use moza_simulator.Base.Raise.{Result, ok, ◌>>=◌}
use moza_simulator.Base.Dict.{Dict, insert}
use moza_simulator.Identity.{Text, get_else}
use moza_simulator.Standalone.{is_empty}
use moza_simulator.Session.{chunk_catalog_message}
use moza_simulator.Tier.{build_session2_message}

pub record DeviceModel : Type 0 where
  pub session1_desc : Bytes
  pub session_layout : Option String
  pub session1_emits_catalog : Bool
  pub session2_desc_chunks : List ℕ

abbrev pub default_desc_chunks : List ℕ
default_desc_chunks = 26 ∷ 5 ∷ 2 ∷ 9 ∷ 2 ∷ []

-- The parts of the description: those of the stated sizes up to an empty one, and what is left.
unfoldable pub desc_parts : List ℕ → Bytes → List Bytes
desc_parts [] desc = if is_empty desc then [] else desc ∷ []
desc_parts (size ∷ sizes) desc =
    let later = desc_parts sizes (drop size desc) in
    if is_empty (take size desc)
    then (if is_empty desc then [] else desc ∷ [])
    else take size desc ∷ later

module _ (crc32 : Bytes → ℕ) where
  -- Each part starts at the next sequence number.
  unfoldable pub part_frames : ℕ → List Bytes → Result (List Bytes)
  part_frames seq [] = ok []
  part_frames seq (part ∷ parts) = do
    frames ← chunk_catalog_message crc32 0x02 part seq
    rest ← part_frames (suc seq) parts
    ok (frames ++ rest)

  -- The channel catalog on a session, where there are channels.
  unfoldable pub url_frames : ℕ → ℕ → List Text → Result (List Bytes)
  url_frames session seq channel_urls =
      if is_empty channel_urls
      then ok []
      else build_session2_message channel_urls >>= λ msg.
          chunk_catalog_message crc32 session msg seq

  -- `session_layout` is `vgs_combined`.
  unfoldable pub combined_catalog : DeviceModel → List Text → Result (Dict ℕ (List Bytes))
  unfolding desc_parts part_frames url_frames
  combined_catalog model channel_urls = do
    seed ← chunk_catalog_message crc32 0x01 (0xFF ∷ []) 4
    magic ←
        chunk_catalog_message crc32 0x01
          (0x03 ∷ 0x04 ∷ 0x00 ∷ 0x00 ∷ 0x00 ∷ 0x01 ∷ 0x00 ∷ 0x00 ∷ 0x00 ∷ []) 5
    s1_urls ← if model.session1_emits_catalog then url_frames 0x01 6 channel_urls else ok []
    let sizes =
        if is_empty model.session2_desc_chunks
        then default_desc_chunks
        else model.session2_desc_chunks
    let parts = desc_parts sizes model.session1_desc
    desc ← part_frames 5 parts
    urls ← url_frames 0x02 (5 + length parts) channel_urls
    let s2_frames = desc ++ urls
    let s1 = (0x01, seed ++ magic ++ s1_urls) ∷ []
    ok (if is_empty s2_frames then s1 else insert 0x02 s2_frames s1)

  -- The other layouts.
  unfoldable pub legacy_catalog : DeviceModel → List Text → Result (Dict ℕ (List Bytes))
  legacy_catalog model channel_urls = do
    desc ← chunk_catalog_message crc32 0x01 model.session1_desc 4
    urls ← url_frames 0x02 5 channel_urls
    let s1 = if is_empty model.session1_desc then [] else insert 0x01 desc []
    ok (if is_empty channel_urls then s1 else insert 0x02 urls s1)

  unfoldable pub build_device_catalog : DeviceModel → List Text → Result (Dict ℕ (List Bytes))
  unfolding combined_catalog legacy_catalog
  build_device_catalog model channel_urls =
      if String-key.eqb (get_else model.session_layout "legacy") "vgs_combined"
      then combined_catalog model channel_urls
      else legacy_catalog model channel_urls

abbrev IsPartition : Bytes → List Bytes → Type 0
IsPartition desc parts = (concat parts ≡ desc) × All (λ part. is_empty part ≡ false) parts

whole-IsPartition : (desc : Bytes) → IsPartition desc (if is_empty desc then [] else desc ∷ [])
whole-IsPartition [] = (refl, tt)
whole-IsPartition (b ∷ desc) = (append-nil (b ∷ desc), (refl, tt))

-- The parts that carry the description are not empty and, one behind the other, are the description,
-- whatever sizes the model asks for.
desc_parts-IsPartition :
    (sizes : List ℕ) (desc : Bytes)
    → (concat (desc_parts sizes desc) ≡ desc)
      × All (λ part. is_empty part ≡ false) (desc_parts sizes desc)
unfolding desc_parts
desc_parts-IsPartition [] desc = whole-IsPartition desc
desc_parts-IsPartition (size ∷ sizes) desc = elim (Bool-cases (is_empty (take size desc))) [
  | inl e ↦ rw (desc_parts, e) (whole-IsPartition desc)
  | inr e ↦
      let (joined, full) = desc_parts-IsPartition sizes (drop size desc) in
      rw (desc_parts, e)
        (ap (λ t. take size desc ++ t) joined ∙ take-append-drop size desc, (e, full))
]
