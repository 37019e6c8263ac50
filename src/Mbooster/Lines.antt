-- ===== src/Mbooster/Lines.antt =====
-- The text lines of a unit on the wire: a host that joins the pieces of a line reads the line.
use moza_simulator.Base.{
  ℕ, List, Bytes, map, All, ◌≡◌, length, ◌∷◌, concat, true, ◌≤◌, get_or, ◌++◌, [], drop, refl,
  arith, ◌∙◌, ap,
}
use moza_simulator.Base.Raise.{Result, ok, ◌>>=◌}
use moza_simulator.Session.Chunks.{split_chunks-IsShort, concat-split_chunks}
use moza_simulator.Session.{split_chunks}
use moza_simulator.Wire.Frame.{frame_payload-framed, verify-framed, length-framed}
use moza_simulator.Wire.{framed, verify, swap_nibbles, frame_payload, frame_head, frame_len}
use moza_simulator.Mbooster.{line_frames, latin1, text_chunk}
use moza_simulator.Identity.{Text}

-- `frame_payload(f)[1:]` of each frame, joined.
unfoldable pub join_frames : List Bytes → Result Bytes
join_frames [] = ok []
join_frames (frame ∷ frames) = do
  payload ← frame_payload frame
  rest ← join_frames frames
  ok (drop 1 payload ++ rest)

abbrev pub piece_frame : ℕ → Bytes → Bytes
piece_frame dev piece = framed 0x0E (swap_nibbles dev) (0x05 ∷ piece)

join_frames-pieces :
    (dev : ℕ) (pieces : List Bytes)
    → join_frames (map (piece_frame dev) pieces) ≡ ok (concat pieces)
unfolding join_frames
join_frames-pieces dev [] = refl
join_frames-pieces dev (p ∷ pieces) =
    rw (frame_payload-framed 0x0E (swap_nibbles dev) (0x05 ∷ p), join_frames-pieces dev pieces)

-- A frame of a line: it verifies, comes from the unit, and holds at most 60 bytes of text behind
-- the byte 05.
pub record IsLineFrame (dev : ℕ) (frame : Bytes) : Type 0 where
  pub verified : verify frame ≡ true
  pub group_byte : get_or frame 2 0 ≡ 0x0E
  pub device_byte : get_or frame 3 0 ≡ swap_nibbles dev
  pub size : length frame ≤ 66

pieces-IsLineFrame :
    (dev : ℕ) (pieces : List Bytes)
    → All (λ p. length p ≤ text_chunk) pieces
    → All (IsLineFrame dev) (map (piece_frame dev) pieces)
pieces-IsLineFrame dev [] h = tt
pieces-IsLineFrame dev (p ∷ pieces) h = (
  record {
    verified = verify-framed 0x0E (swap_nibbles dev) (0x05 ∷ p);
    group_byte = unfold framed frame_head in refl;
    device_byte = unfold framed frame_head in refl;
    size = unfold frame_len in omega (arith, length-framed 0x0E (swap_nibbles dev) (0x05 ∷ p), h.0);
  },
  pieces-IsLineFrame dev pieces h.1,
)

-- A line of any length and any code points goes out in frames of the unit that verify and hold at
-- most 60 bytes of it, and whose texts join to the line in Latin-1, with its line end.
pub line_frames-IsLine :
    (dev : ℕ) (ln : Text)
    → All (IsLineFrame dev) (line_frames dev ln)
      × (join_frames (line_frames dev ln) ≡ ok (latin1 (ln ++ 10 ∷ [])))
unfolding line_frames
line_frames-IsLine dev ln =
    let txt = latin1 (ln ++ 10 ∷ []) in
    let pieces = split_chunks (length txt) text_chunk txt in
    (
      pieces-IsLineFrame dev pieces
          (split_chunks-IsShort (length txt) text_chunk text_chunk txt (omega arith)),
      join_frames-pieces dev pieces
          ∙ ap ok (concat-split_chunks (length txt) text_chunk txt (omega arith) (omega arith)),
    )
