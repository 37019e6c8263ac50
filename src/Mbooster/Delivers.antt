-- ===== src/Mbooster/Delivers.antt =====
-- The parts of `poll` return, on a lane that has its host and codes of two bytes.
use moza_simulator.Base.{
  ℕ, ℕ-key, Bytes-key, ◌<◌, All, List, Bytes, Bool-cases, ◌≡◌, ◌==◌, ◌&&◌, ◌∷◌, leb, [], inl, false,
  true, ◌/◌, refl, inr, ◌⊎◌, ◌%◌, some, ltb, ◌+◌, arith, map, ◌++◌,
}
use moza_simulator.Base.Raise.{Result, ok}
use moza_simulator.Wire.Nibbles.{swap_nibbles-lt}
use moza_simulator.Wire.Frame.{build_frame_fits}
use moza_simulator.Wire.{framed, swap_nibbles}
use moza_simulator.Standalone.{contains}
use moza_simulator.Mbooster.Watch.{IsThere, insert-IsThere}
use moza_simulator.Mbooster.Poll.{
  find_chained, boot, poll_boot, place_code, sort_codes, codes_without, code_frame, code_frames,
  report_errors, poll_beat, beat, all_online, report_due, open_codes, beat_due, clear_lost,
  startup_lines, stamp_report, beaten, clear_lines, map_line,
}
use moza_simulator.Mbooster.{PedalUnit, Lane, host, log, chained, online, put_unit, heartbeat_time}

-- The call returns a lane with the same host.
abbrev pub Delivers : Lane → Result Lane → Type 0
Delivers lane r = (t : Lane) × (r ≡ ok t) × (t.host_dev ≡ lane.host_dev)

-- A unit whose device and error codes fit their bytes.
pub record Fits (u : PedalUnit) : Type 0 where
  pub dev_fits : u.dev < 256
  pub codes_fit : All (λ c. c < 65536) u.errors

host-Delivers :
    (lane : Lane) → IsThere lane.host_dev lane.units → (h : PedalUnit) × (host lane ≡ ok h)
unfolding host
host-Delivers lane (h, e) = (h, rw e refl)

find_chained-Delivers :
    (now : ℕ) (lane : Lane)
    → IsThere lane.host_dev lane.units
    → Delivers lane (find_chained now lane)
unfolding find_chained log
find_chained-Delivers now lane there = elim (Bool-cases (all_online now (chained lane))) [
  | inl e ↦
      let (h, f) = host-Delivers lane there in
      (
        put_unit lane.host_dev (clear_lost h) (log lane.host_dev clear_lines lane),
        rw (e, f) refl,
        refl,
      )
  | inr e ↦ (lane, rw e refl, refl)
]

boot-Delivers :
    (now : ℕ) (u : PedalUnit) (lane : Lane)
    → IsThere lane.host_dev lane.units
    → Delivers lane (boot now u lane)
unfolding boot log
boot-Delivers now u lane there = elim (Bool-cases (u.dev == lane.host_dev)) [
  | inl e ↦ (log u.dev startup_lines lane, rw e refl, refl)
  | inr e ↦
      let (t, f, same) = find_chained-Delivers now lane there in
      (
        log u.dev startup_lines (log u.dev (map (map_line u) (0 ∷ 1 ∷ 2 ∷ [])) t),
        rw (e, f) refl,
        same,
      )
]

pub poll_boot-Delivers :
    (now dev : ℕ) (u : PedalUnit) (lane : Lane)
    → IsThere lane.host_dev lane.units
    → Delivers lane (poll_boot now dev u lane)
unfolding poll_boot
poll_boot-Delivers now dev u lane there = elim (Bool-cases (u.boot_due && online now u)) [
  | inl e ↦
      let v = record u { boot_due = false } in
      let (t, f, same) =
        boot-Delivers now v (put_unit dev v lane)
          (insert-IsThere lane.host_dev dev v lane.units there) in
      (t, rw (e, f) refl, same)
  | inr e ↦ (lane, rw e refl, refl)
]

place_code-All :
    (Q : ℕ → Type 0) (c : ℕ) (codes : List ℕ) → Q c → All Q codes → All Q (place_code c codes)
unfolding place_code
place_code-All Q c [] q h = (q, tt)
place_code-All Q c (d ∷ codes) q h = pick (Bool-cases (leb c d)) (place_code-All Q c codes q h.1)
  where
    pick :
        (leb c d ≡ true) ⊎ (leb c d ≡ false)
        → All Q (place_code c codes)
        → All Q (place_code c (d ∷ codes))
    pick (inl e) rest = rw e (q, h)
    pick (inr e) rest = rw e (h.0, rest)

sort_codes-All : (Q : ℕ → Type 0) (codes : List ℕ) → All Q codes → All Q (sort_codes codes)
unfolding sort_codes
sort_codes-All Q [] h = tt
sort_codes-All Q (c ∷ codes) h =
    place_code-All Q c (sort_codes codes) h.0 (sort_codes-All Q codes h.1)

codes_without-All :
    (Q : ℕ → Type 0) (acked codes : List ℕ) → All Q codes → All Q (codes_without acked codes)
unfolding codes_without
codes_without-All Q acked [] h = tt
codes_without-All Q acked (c ∷ codes) h =
    pick (Bool-cases (contains c acked)) (codes_without-All Q acked codes h.1)
  where
    pick :
        (contains c acked ≡ true) ⊎ (contains c acked ≡ false)
        → All Q (codes_without acked codes)
        → All Q (codes_without acked (c ∷ codes))
    pick (inl e) rest = rw e rest
    pick (inr e) rest = rw e (h.0, rest)

code_frame-ok :
    (dev code : ℕ) → dev < 256 → code < 65536 → (f : Bytes) × (code_frame dev code ≡ ok f)
unfolding code_frame
code_frame-ok dev code d c =
    let body = 0x03 ∷ code / 256 ∷ code % 256 ∷ 0x00 ∷ 0x01 ∷ [] in
    let small : ltb code 65536 ≡ true = ground arith in
    (
      framed 0x0E (swap_nibbles dev) body,
      rw small (
          build_frame_fits 0x0E (swap_nibbles dev) body (omega arith) (omega arith)
            (swap_nibbles-lt dev d)),
    )

code_frames-ok :
    (dev : ℕ) (codes : List ℕ)
    → dev < 256
    → All (λ c. c < 65536) codes
    → (fs : List Bytes) × (code_frames dev codes ≡ ok fs)
unfolding code_frames
code_frames-ok dev [] d h = ([], refl)
code_frames-ok dev (c ∷ codes) d h =
    let (f, e) = code_frame-ok dev c d h.0 in
    let (fs, g) = code_frames-ok dev codes d h.1 in (f ∷ fs, rw (e, g) refl)

pub report_errors-Delivers :
    (now dev : ℕ) (u : PedalUnit) (lane : Lane)
    → Fits u
    → Delivers lane (report_errors now dev u lane)
unfolding report_errors
report_errors-Delivers now dev u lane h = elim (Bool-cases (report_due now u)) [
  | inl e ↦
      let small =
        sort_codes-All (λ c. c < 65536) (open_codes u)
          (unfold open_codes in codes_without-All (λ c. c < 65536) u.acked u.errors h.codes_fit) in
      let (fs, f) = code_frames-ok u.dev (sort_codes (open_codes u)) h.dev_fits small in
      (
        put_unit dev (stamp_report now u) (record lane { pending = lane.pending ++ fs }),
        rw (e, f) refl,
        refl,
      )
  | inr e ↦ (lane, rw e refl, refl)
]

pub poll_beat-Delivers :
    (now : ℕ) (lane : Lane)
    → IsThere lane.host_dev lane.units
    → (t : Lane) × (poll_beat now lane ≡ ok t)
unfolding poll_beat beat
poll_beat-Delivers now lane there = elim (Bool-cases (beat_due now lane.next_heartbeat)) [
  | inl e ↦
      let next = record lane { next_heartbeat = some (now + heartbeat_time) } in
      let (h, f) = host-Delivers next there in (beaten now next h, rw (e, f) refl)
  | inr e ↦ (lane, rw e refl)
]
