-- ===== src/Wire/Frame.antt =====
-- What `verify`, `frame_payload` and `frame_len` say of a frame that `build_frame` made, and back.
use moza_simulator.Base.{
  ℕ, ◌-◌, ◌≤◌, ◌<◌, ◌≡◌, refl, ap, sym, ◌∙◌, true, [], ◌∷◌, ◌++◌, arith, Bytes, length, ◌==◌, ltb,
  false, ==_iff, ==_refl, take-append, get_or-append, length-append,
}
use moza_simulator.Base.Raise.{ok}
use mathlib.Core.Path.{ap₂, subst}
use moza_simulator.Wire.{
  verify, build_frame, framed, frame_head, frame_checksum, frame_payload, frame_len, msg_start,
}

length-snoc : (buf : Bytes) (ck : ℕ) → length (buf ++ ck ∷ []) - 1 ≡ length buf
length-snoc buf ck = omega (arith, length-append buf (ck ∷ []))

long_enough : (buf : Bytes) (ck : ℕ) → 1 ≤ length buf → ltb (length (buf ++ ck ∷ [])) 2 ≡ false
long_enough buf ck h = ground (arith, length-append buf (ck ∷ []))

-- `verify` compares the last byte with the checksum of the rest.
pub verify-snoc :
    (buf : Bytes) (ck : ℕ) → 1 ≤ length buf → verify (buf ++ ck ∷ []) ≡ (ck == frame_checksum buf)
unfolding verify frame_checksum
verify-snoc buf ck h = rw (
  long_enough buf ck h,
  length-snoc buf ck,
  take-append (length buf) buf (ck ∷ []) refl,
  get_or-append (length buf) buf ck 0 refl,
)

pub verify-framed :
    (group device : ℕ) (payload : Bytes) → verify (framed group device payload) ≡ true
unfolding framed
verify-framed group device payload =
    let buf = frame_head group device payload in
    verify-snoc buf (frame_checksum buf) (unfold frame_head in omega arith)
    ∙ ==_refl (frame_checksum buf)

pub frame_payload-framed :
    (group device : ℕ) (payload : Bytes) → frame_payload (framed group device payload) ≡ ok payload
unfolding framed frame_payload frame_head
frame_payload-framed group device payload = ap ok (
    take-append (length payload) payload (frame_checksum (frame_head group device payload) ∷ [])
      refl)

pub length-framed :
    (group device : ℕ) (payload : Bytes)
    → length (framed group device payload) ≡ frame_len (length payload)
unfolding framed frame_len frame_head
length-framed group device payload =
    omega (arith, length-append payload (frame_checksum (frame_head group device payload) ∷ []))

pub build_frame_fits :
    (group device : ℕ) (payload : Bytes)
    → length payload ≤ 255
    → group < 256
    → device < 256
    → build_frame group device payload ≡ ok (framed group device payload)
unfolding build_frame
build_frame_fits group device payload n g d = ground arith

pub build_frame-eq-ok :
    (group device : ℕ) (payload : Bytes) {frame : Bytes}
    → build_frame group device payload ≡ ok frame
    → (frame ≡ framed group device payload)
      × (length payload ≤ 255)
      × (group < 256)
      × (device < 256)
unfolding build_frame
build_frame-eq-ok group device payload h = ground arith

-- A frame that `build_frame` returns verifies, has the length that `frame_len` gives, and carries
-- its payload.
pub build_frame-IsSound :
    (group device : ℕ) (payload : Bytes) {frame : Bytes}
    → build_frame group device payload ≡ ok frame
    → (verify frame ≡ true)
      × (length frame ≡ frame_len (length payload))
      × (frame_payload frame ≡ ok payload)
build_frame-IsSound group device payload h =
    let e = (build_frame-eq-ok group device payload h).0 in
    rw e (
      verify-framed group device payload,
      length-framed group device payload,
      frame_payload-framed group device payload,
    )

-- The other way round: a frame that starts with 7E, holds bytes, has the length that its second
-- byte announces and verifies is what `build_frame` makes of its own group, device and payload.
pub build_frame_complete :
    (n group device ck : ℕ) (payload : Bytes)
    → n ≡ length payload
    → n < 256
    → group < 256
    → device < 256
    → verify (msg_start ∷ n ∷ group ∷ device ∷ payload ++ ck ∷ []) ≡ true
    → build_frame group device payload ≡ ok (msg_start ∷ n ∷ group ∷ device ∷ payload ++ ck ∷ [])
build_frame_complete n group device ck payload e hn hg hd v =
    let buf = frame_head group device payload in
    let shape : msg_start ∷ n ∷ group ∷ device ∷ payload ≡ buf = unfold frame_head in rw e in
    let w : verify (buf ++ ck ∷ []) ≡ true = subst (λ b. verify (b ++ ck ∷ []) ≡ true) shape v in
    let same : ck ≡ frame_checksum buf =
      (==_iff _ _).0 (sym (verify-snoc buf ck (unfold frame_head in omega arith)) ∙ w) in
    build_frame_fits group device payload (omega arith) hg hd
    ∙ unfold framed in ap₂ (λ b c. ok (b ++ c ∷ [])) (sym shape) (sym same)
