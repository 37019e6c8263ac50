-- ===== src/Wire/Serial/Laws.antt =====
-- `read_one_frame` returns what `send` wrote, and what it does on a frame that breaks off.
use moza_simulator.Base.{
  ℕ, zero, suc, ◌+◌, ◌<◌, ◌≡◌, ◌≢◌, refl, ap, [], ◌∷◌, ◌++◌, true, false, inl, inr, ◌⊎◌, none, some,
  Bytes, length, ◌==◌, ==_iff, arith, Bool-cases,
}
use moza_simulator.Wire.{msg_start}
use moza_simulator.Wire.Stream.{escape, stuff}
use moza_simulator.Wire.Decode.{IsShaped, IsIdle}
use moza_simulator.Wire.Serial.{Reads, push_read, read_body, read_one_frame}

-- The bytes of a wire, each read without a timeout.
abbrev pub arriving : Bytes → Reads
arriving [] = []
arriving (b ∷ bs) = some b ∷ arriving bs

arriving-append : (xs ys : Bytes) → arriving (xs ++ ys) ≡ arriving xs ++ arriving ys
arriving-append [] ys = refl
arriving-append (x ∷ xs) ys = ap (λ t. some x ∷ t) (arriving-append xs ys)

read_plain :
    (need b : ℕ) (reads : Reads)
    → (b == msg_start) ≡ false
    → read_body (suc need) (some b ∷ reads) ≡ push_read b (read_body need reads)
unfolding read_body
read_plain need b [] h = rw h
read_plain need b (none ∷ reads) h = rw h
read_plain need b (some c ∷ reads) h = rw h

read_body-escape :
    (xs : Bytes) (rest : Reads)
    → read_body (length xs) (arriving (escape xs) ++ rest) ≡ (some xs, rest)
unfolding escape
read_body-escape [] rest = unfold read_body in refl
read_body-escape (b ∷ bs) rest = step (Bool-cases (b == msg_start)) (read_body-escape bs rest)
  where
    step :
        ((b == msg_start) ≡ true) ⊎ ((b == msg_start) ≡ false)
        → read_body (length bs) (arriving (escape bs) ++ rest) ≡ (some bs, rest)
        → read_body (length (b ∷ bs)) (arriving (escape (b ∷ bs)) ++ rest) ≡ (some (b ∷ bs), rest)
    step (inl h) ih = rw ((==_iff b msg_start).0 h) (unfold read_body push_read in rw ih)
    step (inr h) ih =
        rw h (
          rw (read_plain (length bs) b (arriving (escape bs) ++ rest) h)
            (unfold push_read in rw ih))

-- Idle bytes are passed over, and the frame that `send` wrote is returned, whatever it holds; what
-- comes behind it stays unread.
pub read_one_frame-send :
    (idle frame : Bytes) (rest : Reads)
    → IsIdle idle
    → IsShaped frame
    → read_one_frame (arriving idle ++ (arriving (stuff frame) ++ rest)) ≡ (some frame, rest)
unfolding read_one_frame stuff
read_one_frame-send [] [] rest h s = elim s [ ]
read_one_frame-send [] (x ∷ []) rest h s = elim s [ ]
read_one_frame-send [] (x ∷ n ∷ body) rest h (start, len) =
    rw start (rw (← len) (rw (read_body-escape body rest) (unfold push_read in refl)))
read_one_frame-send (b ∷ idle) frame rest h s =
    let later = read_one_frame-send idle frame rest h.1 s in rw h.0 later

read_body_broken :
    (xs : Bytes) (rest : Reads) (need c : ℕ)
    → length xs < need
    → (c == msg_start) ≡ false
    → read_body need (arriving (escape xs) ++ some msg_start ∷ some c ∷ rest) ≡ (none, rest)
read_body_broken xs rest zero c h k = absurd (omega arith)
read_body_broken [] rest (suc need) c h k = unfold escape read_body in rw k
read_body_broken (b ∷ bs) rest (suc need) c h k =
    step (Bool-cases (b == msg_start)) (read_body_broken bs rest need c (omega arith) k)
  where
    step :
        ((b == msg_start) ≡ true) ⊎ ((b == msg_start) ≡ false)
        → read_body need (arriving (escape bs) ++ some msg_start ∷ some c ∷ rest) ≡ (none, rest)
        → read_body (suc need) (arriving (escape (b ∷ bs)) ++ some msg_start ∷ some c ∷ rest)
          ≡ (none, rest)
    step (inl e) ih =
        unfold escape in rw ((==_iff b msg_start).0 e) (unfold read_body push_read in rw ih)
    step (inr e) ih =
        unfold escape in
        rw e (
          rw (read_plain need b (arriving (escape bs) ++ some msg_start ∷ some c ∷ rest) e)
            (unfold push_read in rw ih))

-- Where a frame breaks off and the 7E of the next stands in its place, nothing is returned and the
-- start and the length byte of the next frame are gone: reading goes on behind them.
read_one_frame_broken :
    (n c : ℕ) (xs : Bytes) (rest : Reads)
    → length xs < n + 3
    → c ≢ msg_start
    → read_one_frame
        (some msg_start ∷ some n ∷ (arriving (escape xs) ++ some msg_start ∷ some c ∷ rest))
      ≡ (none, rest)
unfolding read_one_frame
read_one_frame_broken n c xs rest h k =
    rw (read_body_broken xs rest (n + 3) c h (ground arith)) (unfold push_read in refl)
