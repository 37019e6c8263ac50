-- ===== src/Cm1/Params.antt =====
-- What the CM1 answers to reads of its registers.
use moza_simulator.Base.{
  ℕ, ◌+◌, ◌*◌, ◌^◌, ◌≤◌, ◌<◌, ◌≡◌, ap, [], ◌∷◌, Bytes, length, ◌&&◌, ◌==◌, arith, inl, inr,
  Bool-cases, All, Option-cases, ℕ-key,
}
use moza_simulator.Base.Dict.{lookup, AllValues-lookup}
use moza_simulator.Wire.{framed, swap_nibbles, build_frame}
use moza_simulator.Standalone.{Sim, Replies, answer, handle, after_hook}
use moza_simulator.Standalone.Answers.{Answering, HookAnswer}
use moza_simulator.Standalone.Safety.{SafeHook, IsSafe, HookFine}
use moza_simulator.Standalone.Settings.{handle-framed}
use moza_simulator.Cm1.{
  cm1_device, param_table, pack_be32, param_value, param_reg, param_body, cm1_hook,
}

-- The number that four bytes in big-endian order stand for.
abbrev pub be_value : Bytes → ℕ
be_value (a ∷ b ∷ c ∷ d ∷ []) = ((a * 256 + b) * 256 + c) * 256 + d
be_value _ = 0

be_value-pack_be32 : (v : ℕ) → v < 2 ^ 32 → be_value (pack_be32 v) ≡ v
unfolding pack_be32
be_value-pack_be32 v h = omega arith

param_value-lt : (reg : ℕ) → param_value reg < 2 ^ 32
unfolding param_value
param_value-lt reg = elim (Option-cases (lookup reg param_table)) [
  | inl e ↦ rw e (omega arith)
  | inr (v, e) ↦ rw e (AllValues-lookup (λ v. v < 2 ^ 32) reg param_table (omega arith) e)
]

-- A read of a register, whatever follows the register's two bytes in the request, is answered on
-- group 8E with the register's bytes, a zero, and four bytes that are its value in big-endian order.
handle_param_read :
    {X : Type 0} (s : Sim X) (hi lo : ℕ) (rest : Bytes)
    → ((handle cm1_hook s (framed 0x0E cm1_device (0x00 ∷ hi ∷ lo ∷ rest))).1
        ≡ answer 0x8E 0x41 (hi ∷ lo ∷ 0x00 ∷ pack_be32 (param_value (param_reg hi lo))))
      × (be_value (pack_be32 (param_value (param_reg hi lo))) ≡ param_value (param_reg hi lo))
unfolding after_hook cm1_hook swap_nibbles
handle_param_read s hi lo rest = (
  ap (λ (r : Sim _ × Replies). r.1)
      (handle-framed cm1_hook s 0x0E cm1_device (0x00 ∷ hi ∷ lo ∷ rest)),
  be_value-pack_be32 _ (param_value-lt (param_reg hi lo)),
)

pub cm1_hook-Answering : {X : Type 0} → Answering (cm1_hook {X = X})
unfolding cm1_hook
cm1_hook-Answering {X} = record { at = answered }
  where
    answered :
        (s : Sim X) (frame : Bytes) (group device : ℕ) (payload : Bytes)
        → HookAnswer group device (cm1_hook s frame group device payload).1
    answered s frame group device [] = tt
    answered s frame group device (p ∷ []) = tt
    answered s frame group device (p ∷ hi ∷ []) = tt
    answered s frame group device (p ∷ hi ∷ lo ∷ rest) =
        elim (Bool-cases (device == cm1_device && (group == 0x0E && p == 0x00))) [
          | inl h ↦ rw h (
              let g : group ≡ 0x0E = ground arith in
              let d : device ≡ cm1_device = ground arith in inr (param_body hi lo, rw (g, d)))
          | inr h ↦ rw h tt
        ]

pub cm1_hook-SafeHook : {X : Type 0} → SafeHook (cm1_hook {X = X})
unfolding cm1_hook
cm1_hook-SafeHook {X} = record { at = fine }
  where
    fine :
        (s : Sim X) (frame : Bytes) (group device : ℕ) (payload : Bytes)
        → IsSafe s
        → All (λ b. b < 256) payload
        → length payload ≤ 255
        → HookFine (cm1_hook s frame group device payload)
    fine s frame group device [] h b n = h
    fine s frame group device (p ∷ []) h b n = h
    fine s frame group device (p ∷ hi ∷ []) h b n = h
    fine s frame group device (p ∷ hi ∷ lo ∷ rest) h b n =
        elim (Bool-cases (device == cm1_device && (group == 0x0E && p == 0x00))) [
          | inl e ↦ rw e (
            unfold answer build_frame swap_nibbles pack_be32 in tt,
            record { answers = h.answers; settings = h.settings },
          )
          | inr e ↦ rw e h
        ]
