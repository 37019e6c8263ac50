-- ===== src/Mbooster/Sweeps.antt =====
-- The text of a travel calibration over runs of polls of the lane.
use moza_simulator.Mbooster.Grows.{Grows, poll_beat-Grows}
use moza_simulator.Mbooster.SteadyPoll.{poll_beat-units}
use moza_simulator.Mbooster.PollReturns.{poll_settles}
use moza_simulator.Mbooster.Calibration.{start_sweep, on_motor, hold_sleep, sweep_steps}
use moza_simulator.Mbooster.Prints.{Sweeping, Swept, poll_units-Swept, Prints-after}
use moza_simulator.Standalone.{contains}
use moza_simulator.Mbooster.Poll.{due_steps, devices, poll, poll_units, poll_beat}
use moza_simulator.Base.{
  ℕ, ℕ-key, Bytes-key, List, Bytes, map, ◌++◌, All, ◌≡◌, ◌∷◌, ◌+◌, true, some, Bool-cases, ◌≤◌, [],
  leb, le→leb, ◌==◌, if◌then◌else◌, sym, refl, inl, ap, ◌∙◌, inr, arith, false, append_assoc, subst,
}
use moza_simulator.Base.Raise.{Result, ok, Ensures, Ensures-bind, Ensures-ok, ◌>>=◌}
use moza_simulator.Base.Dict.{Dict, lookup}
use moza_simulator.Identity.{Text}
use moza_simulator.Mbooster.Watch.{IsThere, At, At-holds, Everywhere, Kept}
use moza_simulator.Mbooster.Settles.{IsLane}
use moza_simulator.Mbooster.{PedalUnit, Lane, log_frames}

-- Polls at the given times, with what each hands out.
unfoldable pub poll_all : List ℕ → Lane → Result (Lane × List (List Bytes))
poll_all [] lane = ok (lane, [])
poll_all (now ∷ times) lane = do
  polled ← poll now lane
  rest ← poll_all times polled.0
  ok (rest.0, polled.1 ∷ rest.1)

-- Among the frames handed out are those of the lines, in order, with the lines of one poll behind
-- each other.
abbrev pub HandsOut : ℕ → List (List Bytes) → List Text → Type 0
HandsOut own [] lines = lines ≡ []
HandsOut own (out ∷ outs) lines =
    (before after : List Bytes) × (mine rest : List Text) × (lines ≡ mine ++ rest)
    × (out ≡ before ++ (log_frames own mine ++ after))
    × HandsOut own outs rest

abbrev pub lines_of : List (ℕ × Text) → List Text
lines_of = map (λ (step : ℕ × Text). step.1)

-- What a poll prints and what it leaves are the steps.
due_steps-split :
    (now t0 : ℕ) (steps : List (ℕ × Text))
    → (due_steps now t0 steps).0 ++ lines_of (due_steps now t0 steps).1 ≡ lines_of steps
unfolding due_steps
due_steps-split now t0 [] = refl
due_steps-split now t0 ((after, ln) ∷ steps) = elim (Bool-cases (leb (t0 + after) now)) [
  | inl e ↦ rw e (ap (λ t. ln ∷ t) (due_steps-split now t0 steps))
  | inr e ↦ rw e refl
]

-- Every step that is left after a poll was there before.
due_steps-All :
    (now t0 : ℕ) (steps : List (ℕ × Text)) (Q : ℕ × Text → Type 0)
    → All Q steps
    → All Q (due_steps now t0 steps).1
unfolding due_steps
due_steps-All now t0 [] Q h = tt
due_steps-All now t0 ((after, ln) ∷ steps) Q h = elim (Bool-cases (leb (t0 + after) now)) [
  | inl e ↦ rw e (due_steps-All now t0 steps Q h.1)
  | inr e ↦ rw e h
]

-- Once all steps are due, none is left.
due_steps_done :
    (now t0 : ℕ) (steps : List (ℕ × Text))
    → All (λ step. t0 + step.0 ≤ now) steps
    → (due_steps now t0 steps).1 ≡ []
unfolding due_steps
due_steps_done now t0 [] h = refl
due_steps_done now t0 ((after, ln) ∷ steps) h =
    rw (le→leb (t0 + after) now h.0) (due_steps_done now t0 steps h.1)

IsThere-contains :
    (dev : ℕ) (units : Dict ℕ PedalUnit) → IsThere dev units → contains dev (devices units) ≡ true
unfolding contains lookup
IsThere-contains dev [] (u, e) = cc
IsThere-contains dev ((d, w) ∷ units) (u, e) = elim (Bool-cases (d == dev)) [
  | inl b ↦ rw b refl
  | inr b ↦ rw b (IsThere-contains dev units (u, rw b at e))
]

-- What a poll hands out, and what it leaves of the steps.
module _ (now dev own t0 : ℕ) (steps : List (ℕ × Text)) where
  PollPrints : Lane → Lane × List Bytes → Type 0
  PollPrints lane (t, out) =
      ((before after : List Bytes) × (out
          ≡ before ++ (log_frames own (due_steps now t0 steps).0 ++ after)))
      × Everywhere (At dev (Sweeping own t0 (due_steps now t0 steps).1)) t

  poll-Prints :
      (lane : Lane)
      → Everywhere (At dev (Sweeping own t0 steps)) lane
      → Ensures (PollPrints lane) (poll now lane)
  unfolding poll PollPrints
  poll-Prints lane h =
      Ensures-bind (PollPrints lane) (poll_units now (devices lane.units) lane) _ λ polled e.
        let (prints, kept) =
          Ensures-ok (Swept now dev own t0 steps lane) _
            (poll_units-Swept now dev own t0 steps (devices lane.units) lane
              (IsThere-contains dev lane.units h.1) h)
            e in
        Ensures-bind (PollPrints lane) (poll_beat now polled) _ λ done f.
          let same = Ensures-ok (λ t. t.units ≡ polled.units) _ (poll_beat-units now polled) f in
          let (before, after, frames) =
            Prints-after own (due_steps now t0 steps).0 lane polled done prints
              (Ensures-ok (Grows polled) _ (poll_beat-Grows now polled) f) in
          (
            (
              lane.pending ++ before,
              after,
              frames
                  ∙ sym (
                      append_assoc lane.pending before
                        (log_frames own (due_steps now t0 steps).0 ++ after)),
            ),
            subst (Kept (At dev (Sweeping own t0 (due_steps now t0 steps).1))) (sym same) kept,
          )

poll_all-HandsOut :
    (times : List ℕ) (last : ℕ) (lane : Lane) (dev own t0 : ℕ) (steps : List (ℕ × Text))
    → IsLane lane
    → Everywhere (At dev (Sweeping own t0 steps)) lane
    → All (λ step. t0 + step.0 ≤ last) steps
    → (t : Lane) × (outs : List (List Bytes)) × (poll_all (times ++ last ∷ []) lane ≡ ok (t, outs))
      × HandsOut own outs (lines_of steps)
unfolding poll_all PollPrints
poll_all-HandsOut [] last lane dev own t0 steps l h k =
    let (t, out, more, e, _, _, _, again) = poll_settles last lane l in
    let ((before, after, frames), kept) =
      Ensures-ok (PollPrints last dev own t0 steps lane) _
        (poll-Prints last dev own t0 steps lane h) e in
    let lines = (due_steps last t0 steps).0 in
    (
      t,
      out ∷ [],
      rw e refl,
      (
        before,
        after,
        lines,
        [],
        sym (due_steps-split last t0 steps)
            ∙ ap (λ left. lines ++ lines_of left) (due_steps_done last t0 steps k),
        frames,
        refl,
      ),
    )
poll_all-HandsOut (now ∷ times) last lane dev own t0 steps l h k =
    let (t, out, more, e, _, _, _, again) = poll_settles now lane l in
    let ((before, after, frames), kept) =
      Ensures-ok (PollPrints now dev own t0 steps lane) _ (poll-Prints now dev own t0 steps lane h)
        e in
    let left = (due_steps now t0 steps).1 in
    let (t', outs, f, rest) =
      poll_all-HandsOut times last t dev own t0 left again kept
        (due_steps-All now t0 steps (λ step. t0 + step.0 ≤ last) k) in
    (
      t',
      out ∷ outs,
      rw (e, f) refl,
      (
        before,
        after,
        (due_steps now t0 steps).0,
        lines_of left,
        sym (due_steps-split now t0 steps),
        frames,
        rest,
      ),
    )

-- On a lane with its host, whose units have bytes for devices and error codes of two bytes, and on
-- which a unit has just started a calibration whose role is on its motor channel: polls at any times
-- and a last one 9.7 seconds after the start return, and among the frames they hand out are those of
-- the unit's three lines of the sweep, in order and divided among the polls. Where the role is not on
-- the motor channel the polls return too, and nothing is said of their frames.
pub calibration_sweeps :
    (t0 r dev : ℕ) (u : PedalUnit) (lane : Lane) (times : List ℕ) (last : ℕ)
    → IsLane lane
    → lookup dev lane.units ≡ some (start_sweep t0 r u)
    → t0 + 9700 ≤ last
    → (t : Lane) × (outs : List (List Bytes)) × (poll_all (times ++ last ∷ []) lane ≡ ok (t, outs))
      × HandsOut u.dev outs (if on_motor (hold_sleep u) r then lines_of sweep_steps else [])
calibration_sweeps t0 r dev u lane times last l there h =
    elim (Bool-cases (on_motor (hold_sleep u) r)) [
      | inl e ↦ rw e (
          poll_all-HandsOut times last lane dev u.dev t0 sweep_steps l
            (At-holds dev (Sweeping u.dev t0 sweep_steps) lane.units there
              (unfold start_sweep hold_sleep in refl, (true, unfold start_sweep in rw e refl)))
            (omega arith, (omega arith, (omega arith, tt))))
      | inr e ↦ rw e (
          poll_all-HandsOut times last lane dev u.dev t0 [] l
            (At-holds dev (Sweeping u.dev t0 []) lane.units there
              (unfold start_sweep hold_sleep in refl, (false, unfold start_sweep in rw e refl)))
            tt)
    ]
