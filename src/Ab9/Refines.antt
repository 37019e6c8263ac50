-- ===== src/Ab9/Refines.antt =====
-- The shifter implements the table and the list of Ab9/Spec.
use moza_simulator.Base.{ℕ-key, Bytes, ℕ, ◌≡◌, refl, ap, ◌∷◌, ◌+◌, ◌%◌, [], ◌∙◌, sym}
use moza_simulator.Base.Dict.{lookup, lookup-insert}
use moza_simulator.Ab9.Handled.{
  Handled, kept, ab9_handle-Handled, unclaimed, answered, stored, allocated,
}
use moza_simulator.Ab9.Slots.{IsSlotted, allocated_types, types_of, length-types_of}
use moza_simulator.Standalone.{Replies}
use moza_simulator.Ab9.Handlers.{put_setting, allocate_effect, ab9_handle, count_unhandled}
use moza_simulator.Ab9.Spec.{
  shifter, Request, promised, step, set_setting, allocate, request_of, Keeps,
}
use moza_simulator.Ab9.{Ab9, tag_frame, ab9_reply}

-- One step of the state.
module _ (s : Ab9) where
  shifter-put :
      (cmd value : ℕ) → shifter (put_setting cmd value s) ≡ step (set_setting cmd value) (shifter s)
  unfolding shifter put_setting step
  shifter-put cmd value = λ i. record {
    values = λ k. lookup-insert cmd k value s.settings i;
    slots = types_of s.effects;
  }

  shifter-allocate :
      (effect_type : ℕ)
      → IsSlotted s
      → shifter (allocate_effect effect_type s) ≡ step (allocate effect_type) (shifter s)
  unfolding shifter step allocate_effect
  shifter-allocate effect_type h =
      λ i. record { values = λ k. lookup k s.settings; slots = allocated_types s h effect_type i }

Handled-state :
    (s : Ab9) (q : Request) (r : Ab9 × Replies)
    → IsSlotted s
    → Handled s q r
    → shifter r.0 ≡ step q (shifter s)
Handled-state s q r h (kept tag reply a e) = rw (e, a) (unfold tag_frame shifter step in refl)
Handled-state s q r h (unclaimed tag group dev payload a e) =
    rw (e, a) (unfold tag_frame count_unhandled shifter step in refl)
Handled-state s q r h (answered tag cmd a e) = rw (e, a) (unfold tag_frame shifter step in refl)
Handled-state s q r h (stored tag cmd value reply a e) =
    rw (e, a) (unfold tag_frame shifter in shifter-put s cmd value)
Handled-state s q r h (allocated tag effect_type a e) =
    rw (e, a) (unfold tag_frame shifter in shifter-allocate s effect_type h)

Handled-reply :
    (s : Ab9) (q : Request) (r : Ab9 × Replies)
    → IsSlotted s
    → Handled s q r
    → Keeps (promised q (shifter s)) r.1
unfolding promised
Handled-reply s q r h (kept tag reply a e) = rw a tt
Handled-reply s q r h (unclaimed tag group dev payload a e) = rw a tt
Handled-reply s q r h (answered tag cmd a e) = rw (a, e) (unfold shifter in refl)
Handled-reply s q r h (stored tag cmd value reply a e) = rw a tt
Handled-reply s q r h (allocated tag effect_type a e) =
    rw (a, e)
      (unfold shifter in
        ap (λ n. ab9_reply 0x20 (0x07 ∷ (n + 1) % 256 ∷ []))
          (h.index_eq ∙ sym (length-types_of s h)))

-- A frame moves the settings and the list of effects as its request says, and the reply to a read
-- or an allocation is the one that they determine, where the slots are numbered without a gap.
pub ab9_handle-Refines :
    (s : Ab9) (frame : Bytes)
    → IsSlotted s
    → (shifter (ab9_handle s frame).0 ≡ step (request_of frame) (shifter s))
      × Keeps (promised (request_of frame) (shifter s)) (ab9_handle s frame).1
ab9_handle-Refines s frame h = (
  Handled-state s _ _ h (ab9_handle-Handled s frame),
  Handled-reply s _ _ h (ab9_handle-Handled s frame),
)
