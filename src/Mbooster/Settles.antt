-- ===== src/Mbooster/Settles.antt =====
-- When a unit of the lane has no lines left that are due.
use moza_simulator.Base.{
  ℕ, ℕ-key, Bytes-key, ◌&&◌, ◌≡◌, List, Option, false, [], All, some, ◌∷◌, refl, Bool-cases, ◌==◌,
  none, leb, true, inl, ◌+◌, ◌⊎◌, inr, ap,
}
use moza_simulator.Base.Raise.{Ensures}
use moza_simulator.Base.Dict.{lookup}
use moza_simulator.Mbooster.Delivers.{Fits}
use moza_simulator.Identity.{Text}
use moza_simulator.Mbooster.SteadyPoll.{PollSteady, boot-Everywhere, quiet}
use moza_simulator.Mbooster.Watch.{Watch, IsThere, At, Everywhere, insert-At, At-holds}
use moza_simulator.Mbooster.Poll.{
  advance_lines, due_steps, advance, clear_lost, poll_boot, advance_sweep, sweep_lines,
}
use moza_simulator.Mbooster.{
  PedalUnit, online, discard_code, Lane, Sweep, err_chained_offline, put_unit,
}

-- No unit that is online waits for its boot lines.
abbrev pub IsBooted : ℕ → PedalUnit → Type 0
IsBooted now u = (u.boot_due && online now u) ≡ false

-- Neither boot lines nor steps of a calibration are left to print.
pub record IsSettled (now : ℕ) (u : PedalUnit) : Type 0 where
  pub booted : IsBooted now u
  pub swept : advance_lines now u ≡ []

-- What is left of the steps is not due.
due_steps-left :
    (now t0 : ℕ) (steps : List (ℕ × Text)) → (due_steps now t0 (due_steps now t0 steps).1).0 ≡ []
unfolding due_steps
due_steps-left now t0 [] = refl
due_steps-left now t0 ((after, ln) ∷ steps) = elim (Bool-cases (leb (t0 + after) now)) [
  | inl e ↦ rw e (due_steps-left now t0 steps)
  | inr e ↦ rw e (rw e refl)
]

pub advance-IsSettled : (now : ℕ) (u : PedalUnit) → IsBooted now u → IsSettled now (advance now u)
unfolding advance advance_lines online
advance-IsSettled now u h = record { booted = booted u.cal; swept = swept u.cal refl }
  where
    booted : (o : Option Sweep) → IsBooted now (advance_sweep now u o)
    booted none = unfold advance_sweep in h
    booted (some sweep) = unfold advance_sweep in h

    swept : (o : Option Sweep) → u.cal ≡ o → advance_lines now (advance_sweep now u o) ≡ []
    swept none e = unfold advance_sweep sweep_lines in ap (sweep_lines now) e
    swept (some sweep) e =
        unfold advance_sweep sweep_lines in due_steps-left now sweep.t0 sweep.steps

pub IsBooted-PollSteady : (now dev : ℕ) → PollSteady now (At dev (IsBooted now))
unfolding online clear_lost
IsBooted-PollSteady now dev = record {
  clears = λ d u q e. q e;
  wakes = λ d u q e. refl;
  advances = λ d u q e. (advance-IsSettled now u (q e)).booted;
  stamps = λ d u q e. q e;
}

pub IsSettled-PollSteady : (now dev : ℕ) → PollSteady now (At dev (IsSettled now))
unfolding online clear_lost advance_lines
IsSettled-PollSteady now dev = record {
  clears = λ d u q e. record { booted = (q e).booted; swept = (q e).swept };
  wakes = λ d u q e. record { booted = refl; swept = (q e).swept };
  advances = λ d u q e. advance-IsSettled now u (q e).booted;
  stamps = λ d u q e. record { booted = (q e).booted; swept = (q e).swept };
}

-- All units fit, and one is there.
abbrev pub FitAt : ℕ → Watch
FitAt dev = record { holds = λ d u. Fits u; watched = dev }

discard_code-All :
    (Q : ℕ → Type 0) (code : ℕ) (codes : List ℕ) → All Q codes → All Q (discard_code code codes)
unfolding discard_code
discard_code-All Q code [] h = tt
discard_code-All Q code (c ∷ codes) h =
    pick (Bool-cases (c == code)) (discard_code-All Q code codes h.1)
  where
    pick :
        ((c == code) ≡ true) ⊎ ((c == code) ≡ false)
        → All Q (discard_code code codes)
        → All Q (discard_code code (c ∷ codes))
    pick (inl e) rest = rw e rest
    pick (inr e) rest = rw e (h.0, rest)

pub FitAt-PollSteady : (now dev : ℕ) → PollSteady now (FitAt dev)
unfolding clear_lost advance
FitAt-PollSteady now dev = record {
  clears = λ d u q. record {
    dev_fits = q.dev_fits;
    codes_fit = discard_code-All _ err_chained_offline u.errors q.codes_fit;
  };
  wakes = λ d u q. record { dev_fits = q.dev_fits; codes_fit = q.codes_fit };
  advances = λ d u q. advanced u q u.cal;
  stamps = λ d u q. record { dev_fits = q.dev_fits; codes_fit = q.codes_fit };
}
  where
    advanced : (u : PedalUnit) → Fits u → (o : Option Sweep) → Fits (advance_sweep now u o)
    advanced u q none = unfold advance_sweep in q
    advanced u q (some sweep) =
        unfold advance_sweep in record { dev_fits = q.dev_fits; codes_fit = q.codes_fit }

-- A lane with its host, whose units fit their bytes.
pub record IsLane (lane : Lane) : Type 0 where
  pub host_there : IsThere lane.host_dev lane.units
  pub fits : (d : ℕ) (u : PedalUnit) → lookup d lane.units ≡ some u → Fits u

pub poll_boot-IsBooted :
    (now dev : ℕ) (u : PedalUnit) (lane : Lane)
    → lookup dev lane.units ≡ some u
    → Ensures (Everywhere (At dev (IsBooted now))) (poll_boot now dev u lane)
unfolding poll_boot
poll_boot-IsBooted now dev u lane there = elim (Bool-cases (u.boot_due && online now u)) [
  | inl e ↦
      let v = record u { boot_due = false } in
      rw e (
        boot-Everywhere now (At dev (IsBooted now)) (quiet (IsBooted-PollSteady now dev)) v
          (put_unit dev v lane) (insert-At dev (IsBooted now) v lane.units refl))
  | inr e ↦ rw e (At-holds dev (IsBooted now) lane.units there e)
]
