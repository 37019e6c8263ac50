-- ===== src/Ab9/Handled.antt =====
-- What a frame does to the shifter, as a relation with a case for each kind of request.
use moza_simulator.Base.{
  Bytes, ◌≡◌, if◌then◌else◌, ◌==◌, Option-cases, ◌∷◌, true, none, false, arith, take, All, inl, ◌+◌,
  get_or, inr, ◌%◌, refl, ℕ-key, ℕ, Bool, [],
}
use moza_simulator.Base.Dict.{lookup, lookup-All}
use moza_simulator.Standalone.{Replies, contains}
use moza_simulator.Ab9.Handlers.{
  h_read, h_write, ffb_single, ffb_pair, h_ffb, ab9_dispatch, handle_addressed, ab9_handle,
  Ab9Handler, h_heartbeat, h_id_02, h_id_04, count_unhandled, h_id_05, h_id_06, h_id_07, h_id_08,
  h_id_09, put_setting, h_id_0f, h_id_10, allocate_effect, h_id_11, writable,
}
use moza_simulator.Ab9.Spec.{
  Request, request_in, other, request_of, read_setting, read_reply, set_setting, allocate,
  read_request, write_request, ffb_request,
}
use moza_simulator.Ab9.{Ab9, Tag, tag_frame, dev_ab9, ok, ab9_reply}

pub data Handled (s : Ab9) (q : Request) (r : Ab9 × Replies) : Type 0 where
  kept : (tag : Tag) (reply : Replies) → q ≡ other → r ≡ (tag_frame tag s, reply) → Handled s q r
  unclaimed :
      (tag : Tag) (group dev : ℕ) (payload : Bytes)
      → q ≡ other
      → r ≡ (count_unhandled group dev payload (tag_frame tag s), ok [])
      → Handled s q r
  answered :
      (tag : Tag) (cmd : ℕ)
      → q ≡ read_setting cmd
      → r ≡ (tag_frame tag s, read_reply cmd (lookup cmd s.settings))
      → Handled s q r
  stored :
      (tag : Tag) (cmd value : ℕ) (reply : Replies)
      → q ≡ set_setting cmd value
      → r ≡ (tag_frame tag (put_setting cmd value s), reply)
      → Handled s q r
  allocated :
      (tag : Tag) (effect_type : ℕ)
      → q ≡ allocate effect_type
      → r ≡ (
        tag_frame tag (allocate_effect effect_type s),
        ab9_reply 0x20 (0x07 ∷ (s.next_effect_index + 1) % 256 ∷ []),
      )
      → Handled s q r

-- A handler does what its group asks for.
abbrev Does : ℕ × Ab9Handler → Type 0
Does (group, h) = (s : Ab9) (payload : Bytes) → Handled s (request_in group payload) (h s payload)

tests_request :
    (c : Bool) (s : Ab9) (q p : Request) (r t : Ab9 × Replies)
    → (c ≡ true → Handled s q r)
    → (c ≡ false → Handled s p t)
    → Handled s (if c then q else p) (if c then r else t)
tests_request true s q p r t h k = h refl
tests_request false s q p r t h k = k refl

Handled-if :
    (c : Bool) (s : Ab9) (q : Request) {r t : Ab9 × Replies}
    → Handled s q r
    → Handled s q t
    → Handled s q (if c then r else t)
Handled-if true s q h k = h
Handled-if false s q h k = k

Does-h_read : Does (0x1E, h_read)
unfolding h_read request_in read_request read_reply
Does-h_read s [] = kept _ _ refl refl
Does-h_read s (cmd ∷ rest) = elim (Option-cases (lookup cmd s.settings)) [
  | inl e ↦ answered ("drop:read_", cmd ∷ []) cmd refl (rw (e, h_read))
  | inr (val, e) ↦ answered ("read_", cmd ∷ []) cmd refl (rw (e, h_read))
]

Does-h_write : Does (0x1F, h_write)
unfolding h_write request_in write_request
Does-h_write s [] = kept _ _ refl refl
Does-h_write s (cmd ∷ []) = kept _ _ refl refl
Does-h_write s (cmd ∷ value ∷ []) = stored _ cmd value _ refl refl
Does-h_write s (cmd ∷ lo ∷ value ∷ rest) =
    tests_request (contains cmd writable) s _ _ _ _ (λ e. stored _ cmd value _ refl refl)
      (λ e. kept _ _ refl refl)

kept_single : (s : Ab9) (sub : ℕ) → Handled s other (ffb_single s sub)
unfolding ffb_single
kept_single s sub =
    Handled-if (sub == 0x0E) s other (kept _ _ refl refl)
      (Handled-if (sub == 0x13) s other (kept _ _ refl refl) (kept _ _ refl refl))

kept_pair : (s : Ab9) (sub lo : ℕ) → Handled s other (ffb_pair s sub lo)
unfolding ffb_pair
kept_pair s sub lo =
    Handled-if (contains sub (0x0A ∷ 0x0B ∷ 0x0D ∷ 0x08 ∷ [])) s other (kept _ _ refl refl)
      (kept_single s sub)

Does-h_ffb : Does (0x20, h_ffb)
unfolding h_ffb request_in ffb_request
Does-h_ffb s [] = kept _ _ refl refl
Does-h_ffb s (sub ∷ []) = kept_single s sub
Does-h_ffb s (sub ∷ effect_type ∷ rest) =
    tests_request (sub == 0x07) s _ _ _ _ (λ e. allocated _ effect_type refl refl)
      (λ e. kept_pair s sub effect_type)

Does-dispatch : All Does ab9_dispatch
unfolding ab9_dispatch h_heartbeat h_id_02 h_id_04 h_id_05 h_id_06 h_id_07 h_id_08 h_id_09 h_id_0f
    h_id_10 h_id_11 request_in
Does-dispatch = (
  λ s payload. kept _ _ refl refl,
  (
    λ s payload. kept _ _ refl refl,
    (
      λ s payload. kept _ _ refl refl,
      (
        λ s payload. kept _ _ refl refl,
        (
          λ s payload. kept _ _ refl refl,
          (
            λ s payload. kept _ _ refl refl,
            (
              λ s payload.
                  Handled-if (get_or payload 0 0x01 == 0x02) s other (kept _ _ refl refl)
                    (kept _ _ refl refl),
              (
                λ s payload. kept _ _ refl refl,
                (
                  λ s payload. kept _ _ refl refl,
                  (
                    λ s payload. kept _ _ refl refl,
                    (
                      λ s payload. kept _ _ refl refl,
                      (Does-h_read, (Does-h_write, (Does-h_ffb, tt))),
                    ),
                  ),
                ),
              ),
            ),
          ),
        ),
      ),
    ),
  ),
)

-- A group without a handler makes no request.
unclaimed_request :
    (group : ℕ) (payload : Bytes)
    → lookup group ab9_dispatch ≡ none
    → request_in group payload ≡ other
unfolding lookup ab9_dispatch request_in
unclaimed_request group payload h = ground arith

Handled-addressed :
    (s : Ab9) (group dev : ℕ) (payload : Bytes)
    → Handled s (request_in group payload) (handle_addressed s group dev payload)
unfolding handle_addressed
Handled-addressed s group dev payload = elim (Option-cases (lookup group ab9_dispatch)) [
  | inl e ↦
      rw (e, handle_addressed)
        (unclaimed _ group dev payload (unclaimed_request group payload e) refl)
  | inr (h, e) ↦
      rw (e, handle_addressed) (lookup-All Does group ab9_dispatch Does-dispatch e s payload)
]

pub ab9_handle-Handled :
    (s : Ab9) (frame : Bytes) → Handled s (request_of frame) (ab9_handle s frame)
unfolding ab9_handle request_of
ab9_handle-Handled s [] = kept _ _ refl refl
ab9_handle-Handled s (start ∷ []) = kept _ _ refl refl
ab9_handle-Handled s (start ∷ n ∷ []) = kept _ _ refl refl
ab9_handle-Handled s (start ∷ n ∷ group ∷ []) = kept _ _ refl refl
ab9_handle-Handled s (start ∷ n ∷ group ∷ dev ∷ body) =
    tests_request (dev == dev_ab9) s _ _ _ _ (λ e. Handled-addressed s group dev (take n body))
      (λ e. kept _ _ refl refl)
