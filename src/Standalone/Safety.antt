-- ===== src/Standalone/Safety.antt =====
-- No frame makes a `StandaloneSimulator` raise: its replies are always frames that can be built.
use moza_simulator.Base.{
  ℕ, ◌≤◌, ◌<◌, [], ◌∷◌, Option, none, some, Bytes, IsByte, IsBytes, All-take, length, take, bit_or,
  String, arith, inl, inr, Bool-cases, Option-cases, length-take, ℕ-key, pair-key, Bytes-key,
}
use moza_simulator.Base.Bits.{high_bit-lt}
use moza_simulator.Base.Raise.{Returns}
use moza_simulator.Base.Dict.{lookup, AllValues, AllValues-lookup, AllValues-insert}
use moza_simulator.Wire.{verify, swap_nibbles}
use moza_simulator.Wire.Nibbles.{swap_nibbles-lt}
use moza_simulator.Wire.Frame.{build_frame_fits}
use moza_simulator.Identity.Laws.{FitsFrame}
use moza_simulator.Standalone.{
  Sim, Hook, Replies, answer, handle, stored_value, store_setting, record_frame, record_unhandled,
  after_hook, count_frame, no_hook,
}
use moza_simulator.Standalone.Outcome.{
  Outcome, silent, acknowledged, identified, wrote, read, absorbed, unhandled,
  handle_generic-Outcome,
}

-- What the engine holds fits the frames that carry it.
pub record IsSafe {X : Type 0} (s : Sim X) : Type 0 where
  pub answers : AllValues FitsFrame s.identity
  pub settings : AllValues (λ v. length v ≤ 254) s.stored

answer-Returns :
    (group device : ℕ) (payload : Bytes)
    → group < 256
    → device < 256
    → length payload ≤ 255
    → Returns (answer group device payload)
unfolding answer
answer-Returns group device payload g d h = rw (build_frame_fits group device payload h g d) tt

stored_value_fits :
    {X : Type 0} (s : Sim X) (device cmd : ℕ) → IsSafe s → length (stored_value s device cmd) ≤ 254
unfolding stored_value
stored_value_fits s device cmd h = elim (Option-cases (lookup (device, cmd) s.stored)) [
  | inl e ↦ rw e (omega arith)
  | inr (v, e) ↦ rw e (AllValues-lookup (λ v. length v ≤ 254) (device, cmd) s.stored h.settings e)
]

module _ {X : Type 0} where
  IsSafe-record_frame :
      (tag : String) (frame : Bytes) (s : Sim X) → IsSafe s → IsSafe (record_frame tag frame s)
  unfolding record_frame
  IsSafe-record_frame tag frame s h = record { answers = h.answers; settings = h.settings }

  IsSafe-store_setting :
      (device : ℕ) (payload : Bytes) (s : Sim X)
      → length payload ≤ 255
      → IsSafe s
      → IsSafe (store_setting device payload s)
  unfolding store_setting
  IsSafe-store_setting device [] s n h = h
  IsSafe-store_setting device (cmd ∷ value) s n h = record {
    answers = h.answers;
    settings =
        AllValues-insert (λ v. length v ≤ 254) (device, cmd) value s.stored (omega arith)
          h.settings;
  }

-- A result that is no exception, and a state that is safe.
abbrev pub IsFine : {X : Type 0} → Sim X × Replies → Type 0
IsFine r = Returns r.1 × IsSafe r.0

module _ {X : Type 0} (s : Sim X) (frame : Bytes) (group device : ℕ) (payload : Bytes) where
  pub Outcome-IsFine :
      (r : Sim X × Replies)
      → group < 256
      → device < 256
      → length payload ≤ 255
      → IsSafe s
      → Outcome s frame group device payload r
      → IsFine r
  Outcome-IsFine r g d n h o = go o
    where
      sent :
          (body : Bytes)
          → length body ≤ 255
          → Returns (answer (bit_or group 0x80) (swap_nibbles device) body)
      sent body = answer-Returns _ _ body (high_bit-lt group g) (swap_nibbles-lt device d)

      go : Outcome s frame group device payload r → IsFine r
      go (silent e) = rw e (tt, h)
      go (acknowledged tag body k e) =
          rw e (sent body (omega arith), IsSafe-record_frame tag frame s h)
      go (identified idr k e) = rw e (
        sent idr (AllValues-lookup FitsFrame _ s.identity h.answers k),
        IsSafe-record_frame "identity" frame s h,
      )
      go (wrote e) = rw e (
        sent payload n,
        IsSafe-record_frame "settings_write" frame _ (IsSafe-store_setting device payload s n h),
      )
      go (read cmd e) = rw e (
        sent _ (omega (arith, stored_value_fits s device cmd h)),
        IsSafe-record_frame "settings_read" frame s h,
      )
      go (absorbed e) = rw e (tt, IsSafe-record_frame "absorb" frame s h)
      go (unhandled e) =
          rw e
            (tt, unfold record_unhandled in record { answers = h.answers; settings = h.settings })

-- A hook that keeps the engine safe and raises nothing itself.
abbrev pub HookFine : {X : Type 0} → Sim X × Option Replies → Type 0
HookFine (s, none) = IsSafe s
HookFine (s, some replies) = Returns replies × IsSafe s

pub record SafeHook {X : Type 0} (hook : Hook X) : Type 0 where
  pub at :
      (s : Sim X) (frame : Bytes) (group device : ℕ) (payload : Bytes)
      → IsSafe s
      → IsBytes payload
      → length payload ≤ 255
      → HookFine (hook s frame group device payload)

pub no_hook-SafeHook : {X : Type 0} → SafeHook (no_hook {X = X})
unfolding no_hook
no_hook-SafeHook = record { at = λ s frame group device payload h b n. h }

after_hook-IsFine :
    {X : Type 0} (frame : Bytes) (group device : ℕ) (payload : Bytes) (r : Sim X × Option Replies)
    → group < 256
    → device < 256
    → length payload ≤ 255
    → HookFine r
    → IsFine (after_hook frame group device payload r)
unfolding after_hook
after_hook-IsFine frame group device payload (s, none) g d n h =
    Outcome-IsFine s frame group device payload _ g d n h
      (handle_generic-Outcome s frame group device payload)
after_hook-IsFine frame group device payload (s, some replies) g d n h = h

-- An engine whose identity answers and stored settings fit a frame handles every frame of bytes,
-- valid or not, without an exception, and they fit again afterwards; its hook must do so too.
pub handle-IsSafe :
    {X : Type 0} (hook : Hook X) (s : Sim X) (frame : Bytes)
    → SafeHook hook
    → IsSafe s
    → IsBytes frame
    → Returns (handle hook s frame).1 × IsSafe (handle hook s frame).0
unfolding handle
handle-IsSafe hook s [] k h b = (tt, h)
handle-IsSafe hook s (start ∷ []) k h b = (tt, h)
handle-IsSafe hook s (start ∷ n ∷ []) k h b = (tt, h)
handle-IsSafe hook s (start ∷ n ∷ group ∷ []) k h b = (tt, h)
handle-IsSafe hook s (start ∷ n ∷ group ∷ device ∷ body) k h b =
    elim (Bool-cases (verify (start ∷ n ∷ group ∷ device ∷ body))) [
      | inl v ↦ rw v (
          after_hook-IsFine _ group device (take n body) _ b.1.1.0 b.1.1.1.0 short (
            k.at (count_frame s) _ group device (take n body)
              (record { answers = h.answers; settings = h.settings })
              (All-take IsByte n body b.1.1.1.1) short))
      | inr v ↦ rw v (tt, h)
    ]
  where
    short : length (take n body) ≤ 255
    short = omega (arith, length-take n body, b.1.0)
