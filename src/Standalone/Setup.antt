-- ===== src/Standalone/Setup.antt =====
-- `StandaloneSimulator.__init__`: what a profile makes of a fresh engine.
use moza_simulator.Base.{
  ℕ, ◌≡◌, refl, ◌∙◌, List, [], ◌∷◌, ◌++◌, Bytes, arith, ◌&&◌, ◌||◌, ◌==◌, not, All, inl, inr,
  Bool-cases, ℕ-key, pair-key, Bytes-key,
}
use moza_simulator.Base.Raise.{Result, ok, err, Ensures, Ensures-bind, Ensures-ok, map_result}
use moza_simulator.Base.Dict.{Dict, update, AllValues-update}
use moza_simulator.Identity.{has_ident, build_device_identity, ProbeKey}
use moza_simulator.Identity.Laws.{HasShortFields, FitsFrame, build_device_identity_fits}
use moza_simulator.Profile.{DeviceBlock, DeviceProfile, present_of, present_addresses}
use moza_simulator.Standalone.{
  Sim, add_block, add_blocks, blank, init, contains, add_present, add_identity, add_groups,
}
use moza_simulator.Standalone.Safety.{IsSafe}

-- The captured fields of every block fit a frame.
abbrev pub HasShortBlocks : List DeviceBlock → Type 0
HasShortBlocks = All (λ b. HasShortFields b.ident)

add_identity-IsSafe :
    {X : Type 0} (b : DeviceBlock) (s : Sim X)
    → HasShortFields b.ident
    → IsSafe s
    → Ensures IsSafe (add_identity b s)
unfolding add_identity
add_identity-IsSafe b s f h = elim (Bool-cases (b.answers_identity && has_ident b.ident)) [
  | inl e ↦ rw e (
      go (build_device_identity b.address b.ident)
        (λ t q. build_device_identity_fits b.address b.ident f q))
  | inr e ↦ rw e h
]
  where
    go :
        (r : Result (Dict ProbeKey Bytes))
        → ((t : Dict ProbeKey Bytes) → r ≡ ok t → All (λ e. FitsFrame e.1) t)
        → Ensures IsSafe (map_result (λ t. record s { identity = update s.identity t }) r)
    go (ok t) k = record {
      answers = AllValues-update FitsFrame s.identity t h.answers (k t refl);
      settings = h.settings;
    }
    go (err x) k = tt

add_present-IsSafe :
    {X : Type 0} (b : DeviceBlock) (s : Sim X) → IsSafe s → IsSafe (add_present b s)
unfolding add_present
add_present-IsSafe b s h = elim (Bool-cases (b.present && not (contains b.address s.present))) [
  | inl e ↦ rw e (record { answers = h.answers; settings = h.settings })
  | inr e ↦ rw e h
]

add_block-IsSafe :
    {X : Type 0} (s : Sim X) (b : DeviceBlock)
    → HasShortFields b.ident
    → IsSafe s
    → Ensures IsSafe (add_block s b)
unfolding add_block
add_block-IsSafe s b f h = Ensures-bind IsSafe (add_identity b (add_present b s)) _ λ t e.
    let safe =
      Ensures-ok IsSafe _ (add_identity-IsSafe b (add_present b s) f (add_present-IsSafe b s h))
        e in
    unfold add_groups in record { answers = safe.answers; settings = safe.settings }

add_blocks-IsSafe :
    {X : Type 0} (s : Sim X) (blocks : List DeviceBlock)
    → HasShortBlocks blocks
    → IsSafe s
    → Ensures IsSafe (add_blocks s blocks)
unfolding add_blocks
add_blocks-IsSafe s [] f h = h
add_blocks-IsSafe s (b ∷ blocks) f h =
    let rest = λ (t : Sim _). add_blocks-IsSafe t blocks f.1 in
    Ensures-bind IsSafe (add_block s b) _
      (λ t e. rest t (Ensures-ok IsSafe _ (add_block-IsSafe s b f.0 h) e))

-- An engine that is set up from a profile whose captured fields fit a frame is safe.
pub init-IsSafe :
    {X : Type 0} (x : X) (profile : DeviceProfile) {s : Sim X}
    → HasShortBlocks profile.blocks
    → init x profile ≡ ok s
    → IsSafe s
unfolding init
init-IsSafe x profile f h =
    Ensures-ok IsSafe _
      (add_blocks-IsSafe (blank x) profile.blocks f (record { answers = tt; settings = tt })) h

contains-append :
    (a : ℕ) (xs ys : List ℕ) → contains a (xs ++ ys) ≡ (contains a xs || contains a ys)
unfolding contains
contains-append a [] ys = refl
contains-append a (x ∷ xs) ys = ground (arith, contains-append a xs ys)

-- The addresses present before `blocks` are added, and those of `blocks`.
abbrev PresentAre : {X : Type 0} → List ℕ → List DeviceBlock → Sim X → Type 0
PresentAre before blocks s =
    (a : ℕ) → contains a s.present ≡ (contains a before || contains a (present_of blocks))

add_present_lem :
    {X : Type 0} (b : DeviceBlock) (s : Sim X) (a : ℕ)
    → contains a (add_present b s).present ≡ (contains a s.present || (b.present && b.address == a))
unfolding add_present
add_present_lem b s a = elim (Bool-cases (b.present && not (contains b.address s.present))) [
  | inl e ↦ rw e (contains-append a s.present (b.address ∷ []) ∙ unfold contains in ground arith)
  | inr e ↦ rw e (elim (Bool-cases (b.address == a)) [
    | inl q ↦ let same : b.address ≡ a = ground arith in let e' = rw same at e in ground arith
    | inr q ↦ ground arith
  ])
]

present_of_cons :
    (b : DeviceBlock) (blocks : List DeviceBlock) (a : ℕ)
    → contains a (present_of (b ∷ blocks))
      ≡ ((b.present && b.address == a) || contains a (present_of blocks))
unfolding present_of contains
present_of_cons b blocks a = ground arith

add_identity_present :
    {X : Type 0} (b : DeviceBlock) (s : Sim X)
    → Ensures (λ (t : Sim X). t.present ≡ s.present) (add_identity b s)
unfolding add_identity
add_identity_present b s = elim (Bool-cases (b.answers_identity && has_ident b.ident)) [
  | inl e ↦ rw e (go (build_device_identity b.address b.ident))
  | inr e ↦ rw e refl
]
  where
    go :
        (r : Result (Dict ProbeKey Bytes))
        → Ensures
            (λ (t : Sim _). t.present ≡ s.present)
            (map_result (λ t. record s { identity = update s.identity t }) r)
    go (ok t) = refl
    go (err x) = tt

add_blocks_present :
    {X : Type 0} (s : Sim X) (blocks : List DeviceBlock)
    → Ensures (PresentAre s.present blocks) (add_blocks s blocks)
unfolding add_blocks add_block
add_blocks_present s [] = λ a. unfold present_of contains in ground arith
add_blocks_present {X} s (b ∷ blocks) =
    let rest = λ (t : Sim X). add_blocks_present t blocks in
    Ensures-bind (PresentAre s.present (b ∷ blocks)) (add_block s b) _
      λ t e. widen t (rest t) (kept t e)
  where
    kept : (t : Sim X) → add_block s b ≡ ok t → t.present ≡ (add_present b s).present
    kept t e =
        Ensures-ok (λ (u : Sim X). u.present ≡ (add_present b s).present) _
          (Ensures-bind (λ (u : Sim X). u.present ≡ (add_present b s).present)
            (add_identity b (add_present b s)) _
            λ u q.
              unfold add_groups in
              Ensures-ok (λ (v : Sim X). v.present ≡ (add_present b s).present) _
                (add_identity_present b (add_present b s)) q)
          e

    widen :
        (t : Sim X)
        → Ensures (PresentAre t.present blocks) (add_blocks t blocks)
        → t.present ≡ (add_present b s).present
        → Ensures (PresentAre s.present (b ∷ blocks)) (add_blocks t blocks)
    widen t h q = weaken (add_blocks t blocks) h
      where
        weaken :
            (r : Result (Sim X))
            → Ensures (PresentAre t.present blocks) r
            → Ensures (PresentAre s.present (b ∷ blocks)) r
        weaken (ok u) k = λ a.
            k a ∙ rw q (rw (add_present_lem b s a) (rw (present_of_cons b blocks a) (ground arith)))
        weaken (err x) k = tt

-- The engine's set of present devices is that of the profile's `present_addresses`.
init_present :
    {X : Type 0} (x : X) (profile : DeviceProfile) {s : Sim X}
    → init x profile ≡ ok s
    → (a : ℕ) → contains a s.present ≡ contains a (present_addresses profile)
unfolding init present_addresses
init_present x profile h a =
    Ensures-ok (PresentAre [] profile.blocks) _ (add_blocks_present (blank x) profile.blocks) h a
    ∙ unfold contains in refl
