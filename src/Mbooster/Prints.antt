-- ===== src/Mbooster/Prints.antt =====
-- One poll of a unit with a calibration: what it adds to the frames, and what it leaves of the steps.
use moza_simulator.Standalone.{contains}
use moza_simulator.Mbooster.SteadyPoll.{
  PollQuiet, poll_boot-Everywhere, report_errors-Everywhere, PollSteady, poll_units-Everywhere,
  poll_unit-Everywhere,
}
use moza_simulator.Identity.{Text}
use moza_simulator.Mbooster.Poll.{
  clear_lost, advance, advance_lines, sweep_lines, due_steps, poll_unit, poll_boot, advance_sweep,
  poll_steps, report_errors, poll_units,
}
use moza_simulator.Base.{
  ℕ, ℕ-key, Bytes-key, List, ◌≡◌, Bytes, Bool, ◌++◌, Option, ap, some, ◌∙◌, append_assoc, none,
  refl, sym, subst, true, arith, ◌∷◌, Bool-cases, leb, ◌==◌, ◌+◌, inl, inr, [], ◌≢◌,
}
use moza_simulator.Base.Raise.{
  Ensures, Ensures-bind, Ensures-ok, Ensures-map, require, required, Ensures-both, ok,
}
use moza_simulator.Base.Dict.{lookup}
use moza_simulator.Mbooster.Watch.{At, Everywhere, Kept-at, insert-At}
use moza_simulator.Mbooster.Grows.{
  Grows, poll_boot-Grows, report_errors-Grows, poll_units-Grows, poll_unit-Grows,
}
use moza_simulator.Mbooster.{PedalUnit, Lane, log, log_frames, Sweep}

-- The unit prints under this device, and has these steps of a calibration left.
abbrev pub Sweeping : ℕ → ℕ → List (ℕ × Text) → PedalUnit → Type 0
Sweeping own t0 steps u =
    (u.dev ≡ own)
    × ((moves : Bool) × (u.cal ≡ some (record { succeeds = moves; t0 = t0; steps = steps })))

-- The lane has the frames of the first one, then others, then those of the lines, then others.
abbrev pub Prints : ℕ → List Text → Lane → Lane → Type 0
Prints own lines lane t =
    (before after : List Bytes) × (t.pending
      ≡ lane.pending ++ (before ++ (log_frames own lines ++ after)))

Sweeping-PollQuiet :
    (now dev own t0 : ℕ) (steps : List (ℕ × Text)) → PollQuiet now (At dev (Sweeping own t0 steps))
unfolding clear_lost
Sweeping-PollQuiet now dev own t0 steps = record {
  clears = λ d u q e. q e;
  wakes = λ d u q e. q e;
  stamps = λ d u q e. q e;
}

advance-Sweeping :
    (now own t0 : ℕ) (steps : List (ℕ × Text)) (u : PedalUnit)
    → Sweeping own t0 steps u
    → Sweeping own t0 (due_steps now t0 steps).1 (advance now u)
unfolding advance
advance-Sweeping now own t0 steps u (same, (moves, e)) =
    (kept u.cal, (moves, unfold advance_sweep in ap (λ o. (advance_sweep now u o).cal) e))
  where
    kept : (o : Option Sweep) → (advance_sweep now u o).dev ≡ own
    kept none = unfold advance_sweep in same
    kept (some sweep) = unfold advance_sweep in same

advance_lines-Sweeping :
    (now own t0 : ℕ) (steps : List (ℕ × Text)) (u : PedalUnit)
    → Sweeping own t0 steps u
    → advance_lines now u ≡ (due_steps now t0 steps).0
unfolding advance_lines sweep_lines
advance_lines-Sweeping now own t0 steps u (same, (moves, e)) = ap (sweep_lines now) e

-- A poll of the unit, among the others of the lane.
module _ (now dev own t0 : ℕ) (steps : List (ℕ × Text)) where
  abbrev left : List (ℕ × Text)
  left = (due_steps now t0 steps).1

  abbrev pub Swept : Lane → Lane → Type 0
  Swept lane t =
      Prints own (due_steps now t0 steps).0 lane t × Everywhere (At dev (Sweeping own t0 left)) t

  Prints-between :
      (a b c d : Lane) (v : PedalUnit)
      → Grows a b
      → Sweeping own t0 steps v
      → c.pending ≡ b.pending ++ log_frames v.dev (advance_lines now v)
      → Grows c d
      → Prints own (due_steps now t0 steps).0 a d
  Prints-between a b c d v (h, (new, e)) (same, q) printed (k, (more, f)) =
      let lines = (due_steps now t0 steps).0 in
      let frames : log_frames v.dev (advance_lines now v) ≡ log_frames own lines =
        ap (λ x. log_frames x (advance_lines now v)) same
        ∙ ap (log_frames own) (advance_lines-Sweeping now own t0 steps v (same, q)) in
      (
        new,
        more,
        f
            ∙ ap (◌++ more) (printed ∙ ap (b.pending ++◌) frames ∙ ap (◌++ log_frames own lines) e)
            ∙ append_assoc (a.pending ++ new) (log_frames own lines) more
            ∙ append_assoc a.pending new (log_frames own lines ++ more),
      )

  poll_unit-Swept :
      (lane : Lane)
      → Everywhere (At dev (Sweeping own t0 steps)) lane
      → Ensures (Swept lane) (poll_unit now dev lane)
  unfolding poll_unit
  poll_unit-Swept lane h =
      let P = At dev (Sweeping own t0 steps) in
      let still = Sweeping-PollQuiet now dev own t0 steps in
      Ensures-bind (Swept lane) (require (lookup dev lane.units)) _ λ u e.
        Ensures-bind (Swept lane) (poll_boot now dev u lane) _ λ booted f.
          let first = Ensures-ok (Grows lane) _ (poll_boot-Grows now dev u lane) f in
          let kept =
            Ensures-ok (Everywhere P) _
              (poll_boot-Everywhere now P still dev u lane (Kept-at P dev lane.units h (required e))
                h)
              f in
          Ensures-bind (Swept lane) (require (lookup dev booted.units)) _ λ v g.
            let swept = poll_steps now dev v booted in
            let here = Kept-at P dev booted.units kept (required g) refl in
            Ensures-bind (Swept lane) (require (lookup dev swept.units)) _ λ w i.
              let after : Everywhere (At dev (Sweeping own t0 left)) swept =
                unfold poll_steps log in
                insert-At dev (Sweeping own t0 left) (advance now v) booted.units
                  (advance-Sweeping now own t0 steps v here) in
              Ensures-both _ _ (report_errors now dev w swept)
                (Ensures-map (Grows swept) _ (report_errors now dev w swept)
                  (λ t more.
                    Prints-between lane booted swept t v first here (unfold poll_steps log in refl)
                      more)
                  (report_errors-Grows now dev w swept))
                (report_errors-Everywhere now (At dev (Sweeping own t0 left))
                  (Sweeping-PollQuiet now dev own t0 left) dev w swept
                  (Kept-at (At dev (Sweeping own t0 left)) dev swept.units after (required i))
                  after)

due_steps-again :
    (now t0 : ℕ) (steps : List (ℕ × Text))
    → (due_steps now t0 (due_steps now t0 steps).1).1 ≡ (due_steps now t0 steps).1
unfolding due_steps
due_steps-again now t0 [] = refl
due_steps-again now t0 ((after, ln) ∷ steps) = elim (Bool-cases (leb (t0 + after) now)) [
  | inl e ↦ rw e (due_steps-again now t0 steps)
  | inr e ↦ rw e (rw e refl)
]

left-PollSteady :
    (now dev own t0 : ℕ) (steps : List (ℕ × Text))
    → PollSteady now (At dev (Sweeping own t0 (due_steps now t0 steps).1))
unfolding clear_lost
left-PollSteady now dev own t0 steps =
    let left = (due_steps now t0 steps).1 in
    record {
      clears = λ d u q e. q e;
      wakes = λ d u q e. q e;
      advances = λ d u q e.
          subst (λ x. Sweeping own t0 x (advance now u)) (due_steps-again now t0 steps)
            (advance-Sweeping now own t0 left u (q e));
      stamps = λ d u q e. q e;
    }

Prints-before :
    (own : ℕ) (lines : List Text) (a b c : Lane)
    → Grows a b
    → Prints own lines b c
    → Prints own lines a c
Prints-before own lines a b c (h, (new, e)) (before, after, f) = (
  new ++ before,
  after,
  f
      ∙ ap (◌++ (before ++ (log_frames own lines ++ after))) e
      ∙ append_assoc a.pending new (before ++ (log_frames own lines ++ after))
      ∙ ap (a.pending ++◌) (sym (append_assoc new before (log_frames own lines ++ after))),
)

pub Prints-after :
    (own : ℕ) (lines : List Text) (a b c : Lane)
    → Prints own lines a b
    → Grows b c
    → Prints own lines a c
Prints-after own lines a b c (before, after, f) (h, (more, e)) =
    let frames = log_frames own lines in
    (
      before,
      after ++ more,
      e
          ∙ ap (◌++ more) f
          ∙ append_assoc a.pending (before ++ (frames ++ after)) more
          ∙ ap (a.pending ++◌) (
              append_assoc before (frames ++ after) more
              ∙ ap (before ++◌) (append_assoc frames after more)),
    )

module _ (now dev own t0 : ℕ) (steps : List (ℕ × Text)) where
  pub poll_units-Swept :
      (devs : List ℕ) (lane : Lane)
      → contains dev devs ≡ true
      → Everywhere (At dev (Sweeping own t0 steps)) lane
      → Ensures (Swept now dev own t0 steps lane) (poll_units now devs lane)
  unfolding poll_units contains
  poll_units-Swept [] lane c h = ground (arith, c)
  poll_units-Swept (d ∷ devs) lane c h = elim (Bool-cases (d == dev)) [
    | inl e ↦
        let same : d ≡ dev = ground (arith, e) in
        Ensures-bind (Swept now dev own t0 steps lane) (poll_unit now d lane) _ λ next f.
          let (prints, kept) =
            Ensures-ok (Swept now dev own t0 steps lane) _
              (poll_unit-Swept now dev own t0 steps lane h)
              (subst (λ x. poll_unit now x lane ≡ ok next) same f) in
          Ensures-both _ _ (poll_units now devs next)
            (Ensures-map (Grows next) _ (poll_units now devs next)
              (λ t more. Prints-after own (due_steps now t0 steps).0 lane next t prints more)
              (poll_units-Grows now devs next))
            (poll_units-Everywhere now _ (left-PollSteady now dev own t0 steps) devs next kept)
    | inr e ↦
        let other : d ≢ dev = ground (arith, e) in
        Ensures-bind (Swept now dev own t0 steps lane) (poll_unit now d lane) _ λ next f.
          let grown = Ensures-ok (Grows lane) _ (poll_unit-Grows now d lane) f in
          let kept =
            Ensures-ok (Everywhere (At dev (Sweeping own t0 steps))) _
              (poll_unit-Everywhere now _ (Sweeping-PollQuiet now dev own t0 steps) d lane
                (λ u q same. absurd (other same)) h)
              f in
          Ensures-map (Swept now dev own t0 steps next) _ (poll_units now devs next)
            (λ t done.
              (Prints-before own (due_steps now t0 steps).0 lane next t grown done.0, done.1))
            (poll_units-Swept devs next (rw e at c) kept)
  ]
