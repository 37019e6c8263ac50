-- ===== src/Ab9/Slots.antt =====
-- The effect slots of the shifter: they are numbered from 1 without a gap, and none is reused.
use moza_simulator.Base.{
  ℕ-key, ℕ, ◌≡◌, Bytes, length, ◌∷◌, map, ◌+◌, sym, ◌++◌, ◌∙◌, refl, ap, [], suc, arith,
  length-append, List,
}
use moza_simulator.Base.Dict.{Dict, insert}
use moza_simulator.Standalone.{Replies}
use moza_simulator.Ab9.Handled.{
  ab9_handle-Handled, Handled, kept, unclaimed, answered, stored, allocated,
}
use moza_simulator.Ab9.Spec.{request_of, Request}
use moza_simulator.Ab9.Handlers.{allocate_effect, count_unhandled, ab9_handle, put_setting}
use moza_simulator.Ab9.Tables.{ab9_init}
use moza_simulator.Ab9.{Ab9, tag_frame, Ab9Identity}

-- Types numbered from a slot on.
unfoldable pub numbered : ℕ → List ℕ → Dict ℕ ℕ
numbered k [] = []
numbered k (t ∷ ts) = (k, t) ∷ numbered (k + 1) ts

abbrev pub types_of : Dict ℕ ℕ → List ℕ
types_of = map (λ (e : ℕ × ℕ). e.1)

-- The slots are the numbers from 1 to the last index given out, each with the type of its effect.
pub record IsSlotted (s : Ab9) : Type 0 where
  pub effects_eq : s.effects ≡ numbered 1 (types_of s.effects)
  pub index_eq : s.next_effect_index ≡ length s.effects

length-numbered : (k : ℕ) (ts : List ℕ) → length (numbered k ts) ≡ length ts
unfolding numbered
length-numbered k [] = refl
length-numbered k (t ∷ ts) = ap suc (length-numbered (k + 1) ts)

types_of-numbered : (k : ℕ) (ts : List ℕ) → types_of (numbered k ts) ≡ ts
unfolding numbered
types_of-numbered k [] = refl
types_of-numbered k (t ∷ ts) = ap (λ us. t ∷ us) (types_of-numbered (k + 1) ts)

-- A write behind the last number appends.
insert-numbered :
    (k j t : ℕ) (ts : List ℕ)
    → j ≡ k + length ts
    → insert j t (numbered k ts) ≡ numbered k (ts ++ t ∷ [])
unfolding numbered insert
insert-numbered k j t [] h = ground arith
insert-numbered k j t (u ∷ ts) h = ground (arith, insert-numbered (k + 1) j t ts)

pub length-types_of : (s : Ab9) → IsSlotted s → length (types_of s.effects) ≡ length s.effects
length-types_of s h =
    let ts = types_of s.effects in sym (length-numbered 1 ts) ∙ ap length (sym h.effects_eq)

module _ (s : Ab9) (h : IsSlotted s) (effect_type : ℕ) where
  pub allocated_effects :
      (allocate_effect effect_type s).effects ≡ numbered 1 (types_of s.effects ++ effect_type ∷ [])
  unfolding allocate_effect
  allocated_effects =
      ap (insert (s.next_effect_index + 1) effect_type) h.effects_eq
      ∙ insert-numbered 1 _ effect_type (types_of s.effects)
          (omega (arith, length-types_of s h, h.index_eq))

  pub allocated_types :
      types_of (allocate_effect effect_type s).effects ≡ types_of s.effects ++ effect_type ∷ []
  allocated_types = ap types_of allocated_effects ∙ types_of-numbered 1 _

  IsSlotted-allocate : IsSlotted (allocate_effect effect_type s)
  IsSlotted-allocate = record {
    effects_eq = allocated_effects ∙ ap (numbered 1) (sym allocated_types);
    index_eq =
        unfold allocate_effect in
        omega (
          arith,
          h.index_eq,
          length-types_of s h,
          length-append (types_of s.effects) (effect_type ∷ []),
          ap length allocated_effects,
          length-numbered 1 (types_of s.effects ++ effect_type ∷ []),
        );
  }

-- Only the slots matter.
IsSlotted-alike :
    {s t : Ab9}
    → t.effects ≡ s.effects
    → t.next_effect_index ≡ s.next_effect_index
    → IsSlotted s
    → IsSlotted t
IsSlotted-alike {s} {t} e k h = record {
  effects_eq = rw e h.effects_eq;
  index_eq = rw (e, k) h.index_eq;
}

Handled-IsSlotted :
    (s : Ab9) (q : Request) (r : Ab9 × Replies) → IsSlotted s → Handled s q r → IsSlotted r.0
unfolding tag_frame count_unhandled put_setting
Handled-IsSlotted s q r h (kept tag reply a e) = rw e (IsSlotted-alike refl refl h)
Handled-IsSlotted s q r h (unclaimed tag group dev payload a e) = rw e (IsSlotted-alike refl refl h)
Handled-IsSlotted s q r h (answered tag cmd a e) = rw e (IsSlotted-alike refl refl h)
Handled-IsSlotted s q r h (stored tag cmd value reply a e) = rw e (IsSlotted-alike refl refl h)
Handled-IsSlotted s q r h (allocated tag effect_type a e) =
    rw e (IsSlotted-alike refl refl (IsSlotted-allocate s h effect_type))

pub IsSlotted-init : (ident : Ab9Identity) (own : Dict ℕ ℕ) → IsSlotted (ab9_init ident own)
unfolding ab9_init numbered
IsSlotted-init ident own = record { effects_eq = refl; index_eq = refl }

-- Every frame, valid or not, keeps the slots numbered from 1 without a gap, up to the index that
-- was given out last.
pub ab9_handle-IsSlotted :
    (s : Ab9) (frame : Bytes) → IsSlotted s → IsSlotted (ab9_handle s frame).0
ab9_handle-IsSlotted s frame h =
    Handled-IsSlotted s (request_of frame) _ h (ab9_handle-Handled s frame)
