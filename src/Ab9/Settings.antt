-- ===== src/Ab9/Settings.antt =====
-- The settings of the shifter over a run of frames: the last write to a command is what it reads.
use moza_simulator.Base.{
  ℕ-key, ℕ, Bytes, ◌∷◌, All, ◌≢◌, ◌≡◌, ◌∙◌, refl, subst, ◌==◌, false, arith, [], List, some,
}
use moza_simulator.Base.Dict.{lookup, lookup-insert, lookup-insert_self}
use moza_simulator.Ab9.Handled.{
  Handled, ab9_handle-Handled, kept, unclaimed, answered, stored, allocated,
}
use moza_simulator.Standalone.{Replies}
use moza_simulator.Ab9.Handlers.{
  count_unhandled, ab9_handle, allocate_effect, put_setting, value_bytes,
}
use moza_simulator.Ab9.Spec.{Request, request_of, set_setting, read_setting, read_reply}
use moza_simulator.Ab9.{Ab9, tag_frame, ab9_reply}

-- The states after frames; the replies are dropped.
unfoldable pub ab9_run : Ab9 → List Bytes → Ab9
ab9_run s [] = s
ab9_run s (frame ∷ frames) = ab9_run (ab9_handle s frame).0 frames

-- The request leaves the setting of the command alone.
abbrev pub Leaves : ℕ → Request → Type 0
Leaves cmd (set_setting other_cmd value) = other_cmd ≢ cmd
Leaves cmd _ = Unit

Handled-Leaves :
    (s : Ab9) (q : Request) (r : Ab9 × Replies) (cmd : ℕ)
    → Handled s q r
    → Leaves cmd q
    → lookup cmd r.0.settings ≡ lookup cmd s.settings
unfolding tag_frame count_unhandled allocate_effect put_setting
Handled-Leaves s q r cmd (kept tag reply a e) l = rw e refl
Handled-Leaves s q r cmd (unclaimed tag group dev payload a e) l = rw e refl
Handled-Leaves s q r cmd (answered tag c a e) l = rw e refl
Handled-Leaves s q r cmd (allocated tag effect_type a e) l = rw e refl
Handled-Leaves s q r cmd (stored tag c value reply a e) l =
    let differ : c ≢ cmd = subst (Leaves cmd) a l in
    let test : (c == cmd) ≡ false = ground arith in
    rw e (lookup-insert c cmd value s.settings ∙ rw test refl)

ab9_run-Leaves :
    (s : Ab9) (cmd : ℕ) (frames : List Bytes)
    → All (λ frame. Leaves cmd (request_of frame)) frames
    → lookup cmd (ab9_run s frames).settings ≡ lookup cmd s.settings
unfolding ab9_run
ab9_run-Leaves s cmd [] l = refl
ab9_run-Leaves s cmd (frame ∷ frames) l =
    ab9_run-Leaves (ab9_handle s frame).0 cmd frames l.1
    ∙ Handled-Leaves s (request_of frame) _ cmd (ab9_handle-Handled s frame) l.0

Handled-stored :
    (s : Ab9) (q : Request) (r : Ab9 × Replies) (cmd value : ℕ)
    → Handled s q r
    → q ≡ set_setting cmd value
    → lookup cmd r.0.settings ≡ some value
Handled-stored s q r cmd value (kept tag reply a e) w = cc
Handled-stored s q r cmd value (unclaimed tag group dev payload a e) w = cc
Handled-stored s q r cmd value (answered tag c a e) w = cc
Handled-stored s q r cmd value (allocated tag effect_type a e) w = cc
Handled-stored s q r cmd value (stored tag c v reply a e) w =
    let same_cmd : c ≡ cmd = cc in
    let same_value : v ≡ value = cc in
    rw e (
      unfold tag_frame put_setting in
      rw (same_cmd, same_value) (lookup-insert_self cmd value s.settings))

Handled-answered :
    (s : Ab9) (q : Request) (r : Ab9 × Replies) (cmd : ℕ)
    → Handled s q r
    → q ≡ read_setting cmd
    → r.1 ≡ read_reply cmd (lookup cmd s.settings)
Handled-answered s q r cmd (kept tag reply a e) w = cc
Handled-answered s q r cmd (unclaimed tag group dev payload a e) w = cc
Handled-answered s q r cmd (stored tag c v reply a e) w = cc
Handled-answered s q r cmd (allocated tag effect_type a e) w = cc
Handled-answered s q r cmd (answered tag c a e) w = let same : c ≡ cmd = cc in rw (e, same) refl

-- After a frame that writes a value to a command, and any frames that write to other commands
-- only, a frame that reads the command is answered with the value.
pub read_after_set :
    (s : Ab9) (write read : Bytes) (frames : List Bytes) (cmd value : ℕ)
    → request_of write ≡ set_setting cmd value
    → All (λ frame. Leaves cmd (request_of frame)) frames
    → request_of read ≡ read_setting cmd
    → (ab9_handle (ab9_run (ab9_handle s write).0 frames) read).1
      ≡ ab9_reply 0x1E (cmd ∷ value_bytes cmd value)
read_after_set s write read frames cmd value w l q =
    let s1 = (ab9_handle s write).0 in
    let s2 = ab9_run s1 frames in
    let found : lookup cmd s2.settings ≡ some value =
      ab9_run-Leaves s1 cmd frames l
      ∙ Handled-stored s _ _ cmd value (ab9_handle-Handled s write) w in
    Handled-answered s2 _ _ cmd (ab9_handle-Handled s2 read) q ∙ unfold read_reply in rw found refl
