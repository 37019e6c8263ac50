-- ===== src/Mbooster/PollReturns.antt =====
-- What `poll` does to every unit of its lane.
use moza_simulator.Mbooster.Grows.{Grows, poll_beat-Grows, Grows-trans, poll_units-Grows}
use moza_simulator.Base.{
  ℕ, ℕ-key, Bytes-key, ◌≡◌, List, false, [], All, some, ◌∷◌, refl, Bool-cases, ◌==◌, true, inl, ◌⊎◌,
  inr, ◌∙◌, subst, Bytes, sym, ==_refl, ==_iff, arith, ◌++◌, ap,
}
use moza_simulator.Base.Raise.{ok, Ensures-ok}
use moza_simulator.Base.Dict.{lookup, lookup-insert_self, Dict}
use moza_simulator.Mbooster.Settles.{
  IsSettled, IsLane, FitAt, FitAt-PollSteady, IsSettled-PollSteady, IsBooted, poll_boot-IsBooted,
  advance-IsSettled,
}
use moza_simulator.Mbooster.Delivers.{
  poll_boot-Delivers, Fits, report_errors-Delivers, poll_beat-Delivers,
}
use moza_simulator.Mbooster.SteadyPoll.{
  poll_boot-Everywhere, report_errors-Everywhere, poll_units-Everywhere, poll_unit-Everywhere,
  poll_beat-units, quiet,
}
use moza_simulator.Mbooster.Watch.{IsThere, At, Kept, Everywhere, At-holds}
use moza_simulator.Mbooster.Poll.{advance, poll_unit, poll_steps, poll_units, poll, devices}
use moza_simulator.Mbooster.{PedalUnit, Lane, log}

-- What `poll` makes of one unit.
record Polled (now dev : ℕ) (lane : Lane) : Type 0 where
  result : Lane
  returns : poll_unit now dev lane ≡ ok result
  same_host : result.host_dev ≡ lane.host_dev
  settled : Kept (At dev (IsSettled now)) result.units

poll_unit-Polled :
    (now dev : ℕ) (lane : Lane) → IsLane lane → IsThere dev lane.units → Polled now dev lane
poll_unit-Polled now dev lane h (u, e) =
    let (booted, f, same) = poll_boot-Delivers now dev u lane h.host_there in
    let fit : Kept (FitAt dev) booted.units =
      Ensures-ok (Everywhere (FitAt dev)) _
        (poll_boot-Everywhere now (FitAt dev) (quiet (FitAt-PollSteady now dev)) dev u lane
          (h.fits dev u e) (h.fits, (u, e)))
        f in
    let awake : Kept (At dev (IsBooted now)) booted.units =
      Ensures-ok (Everywhere (At dev (IsBooted now))) _ (poll_boot-IsBooted now dev u lane e) f in
    let v = fit.1.0 in
    let there = fit.1.1 in
    let w = advance now v in
    let swept = poll_steps now dev v booted in
    let found : lookup dev swept.units ≡ some w =
      unfold poll_steps log in lookup-insert_self dev w booted.units in
    let w_fits : Fits w = (FitAt-PollSteady now dev).advances dev v (fit.0 dev v there) in
    let w_settled : IsSettled now w = advance-IsSettled now v (awake.0 dev v there refl) in
    let (t, g, same2) = report_errors-Delivers now dev w swept w_fits in
    record {
      result = t;
      returns = unfold poll_unit in rw (e, f, there, found, g) refl;
      same_host = same2 ∙ unfold poll_steps log in same;
      settled =
          Ensures-ok (Everywhere (At dev (IsSettled now))) _
            (report_errors-Everywhere now (At dev (IsSettled now))
              (quiet (IsSettled-PollSteady now dev)) dev w swept (λ q. w_settled)
              (At-holds dev (IsSettled now) swept.units found w_settled))
            g;
    }

-- The state of the lane after the polls of some units.
record PolledAll (now : ℕ) (devs : List ℕ) (lane : Lane) : Type 0 where
  result : Lane
  returns : poll_units now devs lane ≡ ok result
  lane_kept : IsLane result
  settled : All (λ d. Kept (At d (IsSettled now)) result.units) devs

module _ (now dev : ℕ) (lane : Lane) (h : IsLane lane) (there : IsThere dev lane.units) where
  unit-Kept :
      (d : ℕ) (p : Polled now dev lane) → IsThere d lane.units → Kept (FitAt d) p.result.units
  unit-Kept d p k =
      Ensures-ok (Everywhere (FitAt d)) _
        (poll_unit-Everywhere now (FitAt d) (quiet (FitAt-PollSteady now d)) dev lane
          ((FitAt-PollSteady now d).advances dev) (h.fits, k))
        p.returns

  Polled-IsLane : (p : Polled now dev lane) → IsLane p.result
  Polled-IsLane p =
      let kept = unit-Kept lane.host_dev p h.host_there in
      record {
        host_there = subst (λ d. IsThere d p.result.units) (sym p.same_host) kept.1;
        fits = kept.0;
      }

poll_units-PolledAll :
    (now : ℕ) (devs : List ℕ) (lane : Lane)
    → IsLane lane
    → All (λ d. IsThere d lane.units) devs
    → PolledAll now devs lane
unfolding poll_units
poll_units-PolledAll now [] lane h k = record {
  result = lane;
  returns = refl;
  lane_kept = h;
  settled = tt;
}
poll_units-PolledAll now (dev ∷ devs) lane h k =
    let p = poll_unit-Polled now dev lane h k.0 in
    let rest =
      poll_units-PolledAll now devs p.result (Polled-IsLane now dev lane h k.0 p)
        (still_there p devs k.1) in
    record {
      result = rest.result;
      returns = rw p.returns rest.returns;
      lane_kept = rest.lane_kept;
      settled = (
        Ensures-ok (Everywhere (At dev (IsSettled now))) _
            (poll_units-Everywhere now (At dev (IsSettled now)) (IsSettled-PollSteady now dev) devs
              p.result p.settled)
            rest.returns,
        rest.settled,
      );
    }
  where
    still_there :
        (p : Polled now dev lane) (ds : List ℕ)
        → All (λ d. IsThere d lane.units) ds
        → All (λ d. IsThere d p.result.units) ds
    still_there p [] q = tt
    still_there p (d ∷ ds) q = ((unit-Kept now dev lane h k.0 d p q.0).1, still_there p ds q.1)

IsThere-cons :
    (d e : ℕ) (u : PedalUnit) (units : Dict ℕ PedalUnit)
    → IsThere e units
    → IsThere e ((d, u) ∷ units)
unfolding lookup
IsThere-cons d e u units (v, f) = elim (Bool-cases (d == e)) [
  | inl b ↦ (u, rw b refl)
  | inr b ↦ (v, rw b f)
]

-- The devices of a dictionary have their units, and nothing else has.
devices-IsThere :
    (units all : Dict ℕ PedalUnit)
    → ((d : ℕ) → IsThere d units → IsThere d all)
    → All (λ d. IsThere d all) (devices units)
unfolding lookup
devices-IsThere [] all k = tt
devices-IsThere ((d, u) ∷ units) all k = (
  k d (u, rw (==_refl d) refl),
  devices-IsThere units all (λ e t. k e (IsThere-cons d e u units t)),
)

at_device :
    (Q : ℕ → Type 0) (d : ℕ) (units : Dict ℕ PedalUnit)
    → All Q (devices units)
    → IsThere d units
    → Q d
unfolding lookup
at_device Q d [] h (u, e) = cc
at_device Q d ((j, w) ∷ units) h (u, e) = pick (Bool-cases (j == d)) (at_device Q d units h.1)
  where
    pick : ((j == d) ≡ true) ⊎ ((j == d) ≡ false) → (IsThere d units → Q d) → Q d
    pick (inl b) rest = subst Q ((==_iff j d).0 b) h.0
    pick (inr b) rest = rest (u, ground arith)

-- On a lane with its host, whose units have bytes for devices and error codes of two bytes, a poll
-- returns at any time; it hands out every frame that waited, in order and in front of those that the
-- poll itself adds, and leaves none; each unit of the lane is still there, waits for no boot lines if
-- it is online, and has no calibration line left that is due; and the lane is such a lane again.
pub poll_settles :
    (now : ℕ) (lane : Lane)
    → IsLane lane
    → (t : Lane) × (out more : List Bytes) × (poll now lane ≡ ok (t, out))
      × (out ≡ lane.pending ++ more)
      × (t.pending ≡ [])
      × ((d : ℕ) → IsThere d lane.units → Kept (At d (IsSettled now)) t.units)
      × IsLane t
unfolding poll
poll_settles now lane h =
    let p =
      poll_units-PolledAll now (devices lane.units) lane h
        (devices-IsThere lane.units lane.units (λ d k. k)) in
    let (done, e) = poll_beat-Delivers now p.result p.lane_kept.host_there in
    let same : done.units ≡ p.result.units =
      Ensures-ok (λ t. t.units ≡ p.result.units) _ (poll_beat-units now p.result) e in
    let beat_grows = Ensures-ok (Grows p.result) _ (poll_beat-Grows now p.result) e in
    let (same_host, (more, waits)) =
      Grows-trans lane p.result done
        (Ensures-ok (Grows lane) _ (poll_units-Grows now (devices lane.units) lane) p.returns)
        beat_grows in
    (
      record done { pending = [] },
      done.pending,
      more,
      rw (p.returns, e) refl,
      waits,
      refl,
      λ d k.
          subst (Kept (At d (IsSettled now))) (sym same)
            (at_device (λ x. Kept (At x (IsSettled now)) p.result.units) d lane.units p.settled k),
      record {
        host_there =
            subst (IsThere done.host_dev) (sym same)
              (subst (λ x. IsThere x p.result.units) (sym beat_grows.0) p.lane_kept.host_there);
        fits = λ d u f. p.lane_kept.fits d u (sym (ap (lookup d) same) ∙ f);
      },
    )
