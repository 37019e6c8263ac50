-- ===== src/Standalone/Accounting.antt =====
-- The bookkeeping of a `StandaloneSimulator`: each accepted frame is counted once, under a tag or
-- as unhandled, or was dropped without a word; the ring of recent frames never outgrows its size.
use moza_simulator.Base.{
  ℕ, ◌+◌, ◌-◌, ◌≤◌, ◌≡◌, refl, List, [], ◌∷◌, ◌++◌, Bytes, length, take, arith, ℕ-key, pair-key,
  Bytes-key, String-key, inl, inr, ◌⊎◌, Bool-cases, String, Key, length-append, length-drop, min,
}
use moza_simulator.Base.Dict.{Dict, lookup, insert}
use moza_simulator.Wire.{verify}
use moza_simulator.Identity.{get_else}
use moza_simulator.Standalone.Outcome.{
  Outcome, silent, acknowledged, identified, wrote, read, absorbed, unhandled,
  handle_generic-Outcome,
}
use moza_simulator.Standalone.{
  blank, Sim, Replies, handle, store_setting, record_frame, record_unhandled, after_hook,
  count_frame, no_hook, bump, push_recent, recent_size,
}

-- The sum of a dictionary of counts.
abbrev pub total {ℓ} : {K : Type ℓ} → Dict K ℕ → ℕ
total [] = 0
total ((k, n) ∷ d) = n + total d

total-insert {ℓ} :
    {K : Type ℓ} ⦃e : Key K⦄ (k : K) (n : ℕ) (d : Dict K ℕ)
    → total (insert k n d) + get_else (lookup k d) 0 ≡ total d + n
unfolding lookup insert
total-insert k n [] = omega arith
total-insert ⦃e⦄ k n ((j, m) ∷ d) = ground (arith, total-insert k n d)

total-bump {ℓ} : {K : Type ℓ} ⦃e : Key K⦄ (k : K) (d : Dict K ℕ) → total (bump k d) ≡ total d + 1
unfolding bump
total-bump k d = omega (arith, total-insert k (get_else (lookup k d) 0 + 1) d)

length-push_recent :
    (x : String × Bytes) (xs : List (String × Bytes))
    → length (push_recent x xs) ≡ min recent_size (length xs + 1)
unfolding push_recent
length-push_recent x xs = omega (
  arith,
  length-append xs (x ∷ []),
  length-drop (length (xs ++ x ∷ []) - recent_size) (xs ++ x ∷ []),
)

module _ {X : Type 0} where
  -- The frames that were claimed by a handler or by none.
  abbrev pub recorded : Sim X → ℕ
  recorded s = total s.cat_counts + total s.unhandled_counts

  -- From `s` to `t` at most one frame was recorded, and the recent frames are the last recorded.
  record Recorded (s t : Sim X) : Type 0 where
    frames : t.frames_total ≡ s.frames_total
    entries :
        ((recorded t ≡ recorded s) × (length t.recent_frames ≡ length s.recent_frames))
        ⊎ ((recorded t ≡ recorded s + 1)
            × (length t.recent_frames ≡ min recent_size (length s.recent_frames + 1)))

  Recorded-refl : (s : Sim X) → Recorded s s
  Recorded-refl s = record { frames = refl; entries = inl (refl, refl) }

  Recorded-record_frame :
      (tag : String) (frame : Bytes) (s : Sim X) → Recorded s (record_frame tag frame s)
  unfolding record_frame
  Recorded-record_frame tag frame s = record {
    frames = refl;
    entries = inr (
      omega (arith, total-bump tag s.cat_counts),
      length-push_recent (tag, frame) s.recent_frames,
    );
  }

  Recorded-record_unhandled :
      (frame : Bytes) (group device : ℕ) (payload : Bytes) (s : Sim X)
      → Recorded s (record_unhandled frame group device payload s)
  unfolding record_unhandled
  Recorded-record_unhandled frame group device payload s = record {
    frames = refl;
    entries = inr (
      omega (arith, total-bump (group, (device, take 2 payload)) s.unhandled_counts),
      length-push_recent ("unhandled", frame) s.recent_frames,
    );
  }

  Recorded-store :
      (device : ℕ) (payload : Bytes) (tag : String) (frame : Bytes) (s : Sim X)
      → Recorded s (record_frame tag frame (store_setting device payload s))
  unfolding store_setting
  Recorded-store device [] tag frame s = Recorded-record_frame tag frame s
  Recorded-store device (cmd ∷ value) tag frame s =
      let r = Recorded-record_frame tag frame (store_setting device (cmd ∷ value) s) in
      record { frames = r.frames; entries = r.entries }

module _ {X : Type 0} (s : Sim X) (frame : Bytes) (group device : ℕ) (payload : Bytes) where
  Outcome-Recorded : (r : Sim X × Replies) → Outcome s frame group device payload r → Recorded s r.0
  Outcome-Recorded r (silent e) = rw e (Recorded-refl s)
  Outcome-Recorded r (acknowledged tag body h e) = rw e (Recorded-record_frame tag frame s)
  Outcome-Recorded r (identified idr h e) = rw e (Recorded-record_frame "identity" frame s)
  Outcome-Recorded r (wrote e) = rw e (Recorded-store device payload "settings_write" frame s)
  Outcome-Recorded r (read cmd e) = rw e (Recorded-record_frame "settings_read" frame s)
  Outcome-Recorded r (absorbed e) = rw e (Recorded-record_frame "absorb" frame s)
  Outcome-Recorded r (unhandled e) = rw e (Recorded-record_unhandled frame group device payload s)

-- The counters of an engine: no more frames recorded than accepted, and the ring holds the last
-- 2000 of the recorded frames.
pub record IsAccounted {X : Type 0} (s : Sim X) : Type 0 where
  pub counted : recorded s ≤ s.frames_total
  pub ring : length s.recent_frames ≡ min recent_size (recorded s)

IsAccounted-step :
    {X : Type 0} {s t : Sim X} → IsAccounted s → Recorded (count_frame s) t → IsAccounted t
IsAccounted-step {X} {s} {t} h r = record { counted = counted r.entries; ring = ring r.entries }
  where
    Entries : Type 0
    Entries =
        ((recorded t ≡ recorded s) × (length t.recent_frames ≡ length s.recent_frames))
        ⊎ ((recorded t ≡ recorded s + 1)
            × (length t.recent_frames ≡ min recent_size (length s.recent_frames + 1)))

    counted : Entries → recorded t ≤ t.frames_total
    counted (inl e) = omega (arith, h.counted, r.frames, e)
    counted (inr e) = omega (arith, h.counted, r.frames, e)

    ring : Entries → length t.recent_frames ≡ min recent_size (recorded t)
    ring (inl e) = omega (arith, h.ring, e)
    ring (inr e) = omega (arith, h.ring, e)

pub IsAccounted-blank : {X : Type 0} (x : X) → IsAccounted (blank x)
IsAccounted-blank x = record { counted = omega arith; ring = refl }

-- Every frame, valid or not, keeps the counters: at most one more frame is recorded where one more
-- is accepted, and the ring of recent frames holds as many of the recorded frames as fit.
pub handle-IsAccounted :
    {X : Type 0} (s : Sim X) (frame : Bytes)
    → IsAccounted s
    → IsAccounted (handle no_hook s frame).0
unfolding handle
handle-IsAccounted s [] h = h
handle-IsAccounted s (start ∷ []) h = h
handle-IsAccounted s (start ∷ n ∷ []) h = h
handle-IsAccounted s (start ∷ n ∷ group ∷ []) h = h
handle-IsAccounted s (start ∷ n ∷ group ∷ device ∷ body) h =
    elim (Bool-cases (verify (start ∷ n ∷ group ∷ device ∷ body))) [
      | inl v ↦ rw v (
          unfold after_hook no_hook in
          IsAccounted-step h (
            Outcome-Recorded (count_frame s) _ group device (take n body) _
              (handle_generic-Outcome (count_frame s) _ group device (take n body))))
      | inr v ↦ rw v h
    ]
