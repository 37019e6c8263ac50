-- ===== src/Session/Rewrite.antt =====
-- sim/wheel_sim.py, `rewrite_session_frame_seq`.
use moza_simulator.Base.{
  ℕ, ◌+◌, ◌-◌, ◌*◌, ◌/◌, ◌%◌, ◌≤◌, ◌≡◌, ap, ◌∙◌, [], ◌∷◌, ◌++◌, Bytes, length, take, drop, ◌==◌,
  length-append, take-append, arith,
}
use moza_simulator.Base.Raise.{Result, ok, err, index_error}
use moza_simulator.Wire.{msg_start, count, checksum, verify, framed, frame_head, frame_checksum}
use moza_simulator.Wire.Frame.{verify-snoc}
use moza_simulator.Session.{data_payload, grp_wheel, dev_wheel_rsp}

-- `buf[-1] = checksum(bytes(buf[:-1]))`
unfoldable pub reseal : Bytes → Bytes
reseal buf = let body = take (length buf - 1) buf in body ++ checksum body ∷ []

-- `buf[8]` and `buf[9]` raise `IndexError` on a shorter frame.
unfoldable pub rewrite_session_frame_seq : Bytes → ℕ → Result Bytes
unfolding reseal
rewrite_session_frame_seq (b0 ∷ b1 ∷ b2 ∷ b3 ∷ b4 ∷ b5 ∷ b6 ∷ b7 ∷ b8 ∷ b9 ∷ rest) new_seq =
    ok (reseal (b0 ∷ b1 ∷ b2 ∷ b3 ∷ b4 ∷ b5 ∷ b6 ∷ b7 ∷ new_seq % 256 ∷ new_seq / 256 % 256 ∷ rest))
rewrite_session_frame_seq _ new_seq = err index_error

-- The bytes of a data frame before its checksum.
abbrev pub data_head : ℕ → ℕ → Bytes → Bytes
data_head session seq chunk = frame_head grp_wheel dev_wheel_rsp (data_payload session seq chunk)

abbrev pub data_frame : ℕ → ℕ → Bytes → Bytes
data_frame session seq chunk = framed grp_wheel dev_wheel_rsp (data_payload session seq chunk)

reseal-snoc : (buf : Bytes) (ck : ℕ) → reseal (buf ++ ck ∷ []) ≡ buf ++ checksum buf ∷ []
unfolding reseal
reseal-snoc buf ck =
    ap (λ t. t ++ checksum t ∷ [])
      (take-append _ buf (ck ∷ []) (omega (arith, length-append buf (ck ∷ []))))

rewrite_session_frame_seq-data_frame :
    (session seq new_seq : ℕ) (chunk : Bytes)
    → rewrite_session_frame_seq (data_frame session seq chunk) new_seq
      ≡ ok (data_head session new_seq chunk ++ checksum (data_head session new_seq chunk) ∷ [])
unfolding rewrite_session_frame_seq framed frame_head
rewrite_session_frame_seq-data_frame session seq new_seq chunk =
    ap ok
      (reseal-snoc (data_head session new_seq chunk) (frame_checksum (data_head session seq chunk)))

escaped_checksum : (c e : ℕ) → c ≤ 255 → (c == (c + e) % 256) ≡ (e % 256 == 0)
escaped_checksum c e h = ground arith

-- The start bytes that the wire doubles in a data frame of these contents.
abbrev pub escaped_bytes : ℕ → ℕ → Bytes → ℕ
escaped_bytes session seq chunk = count msg_start (drop 2 (data_head session seq chunk))

-- A data frame whose sequence number was rewritten verifies exactly when the start bytes in its
-- body add up to a multiple of 256: the rewritten checksum leaves them out.
pub verify-rewrite_session_frame_seq :
    (session seq new_seq : ℕ) (chunk : Bytes)
    → (out : Bytes) × (rewrite_session_frame_seq (data_frame session seq chunk) new_seq ≡ ok out)
      × (verify out ≡ (escaped_bytes session new_seq chunk * msg_start % 256 == 0))
verify-rewrite_session_frame_seq session seq new_seq chunk = (
  data_head session new_seq chunk ++ checksum (data_head session new_seq chunk) ∷ [],
  rewrite_session_frame_seq-data_frame session seq new_seq chunk,
  verify-snoc (data_head session new_seq chunk) (checksum (data_head session new_seq chunk))
        (unfold frame_head in omega arith)
      ∙ unfold frame_checksum in
        escaped_checksum (checksum (data_head session new_seq chunk))
          (escaped_bytes session new_seq chunk * msg_start) (unfold checksum in omega arith),
)

checksum_plain :
    (buf : Bytes) → count msg_start (drop 2 buf) ≡ 0 → checksum buf ≡ frame_checksum buf
unfolding checksum frame_checksum
checksum_plain buf h = rw h (omega arith)

-- Where no start byte is in the body of the frame, rewriting its sequence number gives the frame
-- that was built with the new number.
rewrite_session_frame_seq_plain :
    (session seq new_seq : ℕ) (chunk : Bytes)
    → escaped_bytes session new_seq chunk ≡ 0
    → rewrite_session_frame_seq (data_frame session seq chunk) new_seq
      ≡ ok (data_frame session new_seq chunk)
rewrite_session_frame_seq_plain session seq new_seq chunk h =
    rewrite_session_frame_seq-data_frame session seq new_seq chunk
    ∙ unfold framed in
      ap (λ t. ok (data_head session new_seq chunk ++ t ∷ []))
        (checksum_plain (data_head session new_seq chunk) h)
