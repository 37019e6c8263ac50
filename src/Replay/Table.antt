-- ===== src/Replay/Table.antt =====
-- What `load_pcapng` does to the table of recorded answers.
use moza_simulator.Base.{
  ℕ, ◌+◌, ◌≡◌, refl, ap, List, [], ◌∷◌, Option, none, some, Bytes, get_or, Bool, true, false, ◌&&◌,
  not, ltb, ◌==◌, if◌then◌else◌, String, pair-key, ℕ-key, Bytes-key, Bool-cases, Option-cases, inl,
  inr, Key,
}
use moza_simulator.Base.Dict.{Dict, lookup, insert, lookup-insert, AllValues, AllValues-insert}
use moza_simulator.Wire.{verify}
use moza_simulator.Replay.{
  Captured, Replay, is_usable, payload_of, answers_request, from_device, pairing_window,
  find_response, add_pair, pair_request, load_entries, load_pcapng,
}

abbrev Verifies : Bytes → Type 0
Verifies frame = verify frame ≡ true

abbrev OnFound : Option Bytes → Type 0
OnFound none = Unit
OnFound (some frame) = Verifies frame

second_holds : (a v l c : Bool) → ((a && (v && l)) && c) ≡ true → v ≡ true
second_holds true true l c h = refl
second_holds true false l c h = cc
second_holds false v l c h = cc

insert_keeps {ℓ κ} :
    {K : Type ℓ} {V : Type κ} ⦃e : Key K⦄ (k j : K) (v : V) (d : Dict K V) {w : V}
    → lookup k d ≡ none
    → lookup j d ≡ some w
    → lookup j (insert k v d) ≡ some w
insert_keeps ⦃e⦄ k j v d n h = elim (Bool-cases (e.eqb k j)) [
  | inl b ↦ (let same = ap (λ t. lookup t d) ((e.eqb_iff k j).0 b) in cc)
  | inr b ↦ rw (lookup-insert k j v d, b) h
]

find_response-OnFound :
    (group dev : ℕ) (req_pl : Bytes) (ts : ℕ) (entries : List Captured)
    → OnFound (find_response group dev req_pl ts entries)
unfolding find_response
find_response-OnFound group dev req_pl ts [] = tt
find_response-OnFound group dev req_pl ts (e ∷ entries) =
    elim (Bool-cases (ltb (ts + pairing_window) e.at)) [
      | inl l ↦ rw (find_response, l) tt
      | inr l ↦
          elim (Bool-cases
            ((from_device e && is_usable e.frame) && answers_request group dev req_pl e.frame)) [
              | inl u ↦
                  rw (find_response, l, u) (second_holds (from_device e) (verify e.frame) _ _ u)
              | inr u ↦ rw (find_response, l, u) (find_response-OnFound group dev req_pl ts entries)
            ]
    ]

-- From one table to the next: every entry is kept, and answers that verify are only joined by
-- answers that verify.
record Extends (r t : Replay) : Type 0 where
  kept :
      (key : ℕ × (ℕ × Bytes)) {rsp : Bytes}
      → lookup key r.table ≡ some rsp
      → lookup key t.table ≡ some rsp
  sound : AllValues Verifies r.table → AllValues Verifies t.table

Extends-refl : (r : Replay) → Extends r r
Extends-refl r = record { kept = λ key h. h; sound = λ h. h }

add_pair-Extends :
    (group dev : ℕ) (req_pl rsp : Bytes) (r : Replay)
    → Verifies rsp
    → Extends r (add_pair group dev req_pl rsp r).0
unfolding add_pair
add_pair-Extends group dev req_pl rsp r v =
    elim (Option-cases (lookup (group, (dev, req_pl)) r.table)) [
      | inr (old, e) ↦ rw (add_pair, e) (Extends-refl r)
      | inl e ↦
          rw (add_pair, e)
            (record {
              kept = λ key h. insert_keeps (group, (dev, req_pl)) key rsp r.table e h;
              sound = λ h. AllValues-insert Verifies (group, (dev, req_pl)) rsp r.table v h;
            })
    ]

pair_request-Extends :
    (e : Captured) (entries : List Captured) (r : Replay) → Extends r (pair_request e entries r).0
unfolding pair_request
pair_request-Extends e entries r =
    tried (not (from_device e) && is_usable e.frame)
      (find_response group dev (payload_of e.frame) e.at entries)
      (find_response-OnFound group dev (payload_of e.frame) e.at entries)
  where
    group : ℕ
    group = get_or e.frame 2 0

    dev : ℕ
    dev = get_or e.frame 3 0

    tried :
        (c : Bool) (o : Option Bytes)
        → OnFound o
        → (let t : Replay × ℕ =
              if c
              then elim o [
                | some rsp ↦ add_pair group dev (payload_of e.frame) rsp r
                | none ↦ (r, 0)
              ]
              else (r, 0) in
            Extends r t.0)
    tried false o h = Extends-refl r
    tried true none h = Extends-refl r
    tried true (some rsp) h = add_pair-Extends group dev (payload_of e.frame) rsp r h

load_entries-Extends :
    (entries : List Captured) (r : Replay) (added : ℕ) → Extends r (load_entries entries r added).0
unfolding load_entries
load_entries-Extends [] r added = Extends-refl r
load_entries-Extends (e ∷ entries) r added =
    let next = pair_request e entries r in
    let first = pair_request-Extends e entries r in
    let rest = load_entries-Extends entries next.0 (added + next.1) in
    record {
      kept = λ key h. rest.kept key (first.kept key h);
      sound = λ h. rest.sound (first.sound h);
    }

load_pcapng-Extends :
    (path : String) (entries : List Captured) (r : Replay)
    → Extends r (load_pcapng path entries r).0
unfolding load_pcapng
load_pcapng-Extends path entries r =
    let x = load_entries-Extends entries r 0 in
    elim (Bool-cases ((load_entries entries r 0).1 == 0)) [
      | inl e ↦ rw (load_pcapng, e) x
      | inr e ↦ rw (load_pcapng, e) (record { kept = x.kept; sound = x.sound })
    ]

-- Loading a capture never changes an answer that the table already has, whatever the capture holds.
load_pcapng_first_wins :
    (path : String) (entries : List Captured) (r : Replay) (key : ℕ × (ℕ × Bytes)) {rsp : Bytes}
    → lookup key r.table ≡ some rsp
    → lookup key (load_pcapng path entries r).0.table ≡ some rsp
load_pcapng_first_wins path entries r key h = (load_pcapng-Extends path entries r).kept key h

-- Loading a capture leaves only answers that verify in a table of such answers.
pub load_pcapng-AllValues :
    (path : String) (entries : List Captured) (r : Replay)
    → AllValues (λ rsp. verify rsp ≡ true) r.table
    → AllValues (λ rsp. verify rsp ≡ true) (load_pcapng path entries r).0.table
load_pcapng-AllValues path entries r h = (load_pcapng-Extends path entries r).sound h
