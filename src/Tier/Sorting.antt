-- ===== src/Tier/Sorting.antt =====
-- `sorted` on texts and `list.sort` by the index of a channel: both are stable.
use moza_simulator.Base.{
  ℕ, suc, ◌≤◌, ◌≡◌, refl, ap, ◌∙◌, List, [], ◌∷◌, length, Bool, true, false, ltb, leb, ◌==◌,
  if◌then◌else◌, String, All, inl, inr, Bool-cases, arith,
}
use moza_simulator.Identity.{Text}

pub record Channel : Type 0 where
  pub index : ℕ
  pub name : Text
  pub url : Text
  pub compression : String
  pub bit_width : ℕ

abbrev pub channel : ℕ → Text → Text → String → ℕ → Channel
channel index name url compression bit_width = record {
  index = index;
  name = name;
  url = url;
  compression = compression;
  bit_width = bit_width;
}

-- `a <= b` on texts, by their code points
abbrev pub text_leb : Text → Text → Bool
text_leb [] b = true
text_leb (x ∷ a) [] = false
text_leb (x ∷ a) (y ∷ b) = if x == y then text_leb a b else ltb x y

unfoldable pub place_text : Text → List Text → List Text
place_text a [] = a ∷ []
place_text a (b ∷ bs) = if text_leb a b then a ∷ b ∷ bs else b ∷ place_text a bs

unfoldable pub sort_texts : List Text → List Text
unfolding place_text
sort_texts [] = []
sort_texts (a ∷ ts) = place_text a (sort_texts ts)

unfoldable pub place_channel : Channel → List Channel → List Channel
place_channel c [] = c ∷ []
place_channel c (d ∷ ds) = if leb c.index d.index then c ∷ d ∷ ds else d ∷ place_channel c ds

unfoldable pub sort_channels : List Channel → List Channel
unfolding place_channel
sort_channels [] = []
sort_channels (c ∷ cs) = place_channel c (sort_channels cs)

length-place_text : (a : Text) (bs : List Text) → length (place_text a bs) ≡ suc (length bs)
unfolding place_text
length-place_text a [] = refl
length-place_text a (b ∷ bs) = ground (arith, length-place_text a bs)

pub length-sort_texts : (ts : List Text) → length (sort_texts ts) ≡ length ts
unfolding sort_texts
length-sort_texts [] = refl
length-sort_texts (a ∷ ts) = length-place_text a (sort_texts ts) ∙ ap suc (length-sort_texts ts)

module _ {κ} (P : Text → Type κ) where
  All-place_text : (a : Text) (bs : List Text) → P a → All P bs → All P (place_text a bs)
  unfolding place_text
  All-place_text a [] h k = (h, tt)
  All-place_text a (b ∷ bs) h k = elim (Bool-cases (text_leb a b)) [
    | inl e ↦ rw (place_text, e) (h, k)
    | inr e ↦ rw (place_text, e) (k.0, All-place_text a bs h k.1)
  ]

  pub All-sort_texts : (ts : List Text) → All P ts → All P (sort_texts ts)
  unfolding sort_texts
  All-sort_texts [] h = tt
  All-sort_texts (a ∷ ts) h = All-place_text a (sort_texts ts) h.0 (All-sort_texts ts h.1)

-- Every index is at least `n` and they ascend.
abbrev pub IsAscending : ℕ → List Channel → Type 0
IsAscending n [] = Unit
IsAscending n (c ∷ cs) = (n ≤ c.index) × IsAscending (suc c.index) cs

place_channel_first :
    (c : Channel) (cs : List Channel) → IsAscending (suc c.index) cs → place_channel c cs ≡ c ∷ cs
unfolding place_channel
place_channel_first c [] h = refl
place_channel_first c (d ∷ ds) h = ground (arith, h.0)

pub sort_channels-IsAscending :
    (n : ℕ) (cs : List Channel) → IsAscending n cs → sort_channels cs ≡ cs
unfolding sort_channels
sort_channels-IsAscending n [] h = refl
sort_channels-IsAscending n (c ∷ cs) h =
    ap (place_channel c) (sort_channels-IsAscending (suc c.index) cs h.1)
    ∙ place_channel_first c cs h.1
