-- ===== src/Session/Order.antt =====
-- `ChunkBuffer`: the message does not depend on the order in which chunks arrive.
use moza_simulator.Base.{
  ℕ, ◌≡◌, ◌≢◌, refl, sym, ap, ◌∙◌, List, [], ◌∷◌, Bytes, concat, ◌==◌, inl, inr, Bool-cases, ℕ-key,
  ==_iff, arith,
}
use moza_simulator.Base.Dict.{insert}
use moza_simulator.Session.{Chunks, place, sort_chunks, values, message, add, strip_crc}

place-place_same : (k : ℕ) (v w : Bytes) (d : Chunks) → place k v (place k w d) ≡ place k v d
unfolding place
place-place_same k v w [] = ground arith
place-place_same k v w ((j, x) ∷ d) = ground (arith, place-place_same k v w d)

place-place :
    (j k : ℕ) (v w : Bytes) (d : Chunks) → j ≢ k → place j v (place k w d) ≡ place k w (place j v d)
unfolding place
place-place j k v w [] h = ground arith
place-place j k v w ((i, x) ∷ d) h = ground (arith, place-place j k v w d h)

pub sort_chunks-insert :
    (k : ℕ) (v : Bytes) (d : Chunks) → sort_chunks (insert k v d) ≡ place k v (sort_chunks d)
unfolding sort_chunks insert
sort_chunks-insert k v [] = refl
sort_chunks-insert k v ((j, w) ∷ d) = elim (Bool-cases (j == k)) [
  | inl h ↦ rw (h, (==_iff j k).0 h) (sym (place-place_same k v w (sort_chunks d)))
  | inr h ↦ rw h (
      ap (place j w) (sort_chunks-insert k v d)
      ∙ place-place j k w v (sort_chunks d) (λ e. ground (arith, ==_iff j k)))
]

module _ (crc32 : Bytes → ℕ) where
  -- Adding the chunks in the order in which they arrive.
  unfoldable pub add_all : List (ℕ × Bytes) → Chunks → Chunks
  add_all [] d = d
  add_all ((seq, raw) ∷ es) d = add_all es (add crc32 seq raw d)

  abbrev pub place_all : List (ℕ × Bytes) → Chunks → Chunks
  place_all [] d = d
  place_all ((seq, raw) ∷ es) d = place_all es (place seq (strip_crc crc32 raw) d)

  pub sort_chunks-add_all :
      (es : List (ℕ × Bytes)) (d : Chunks)
      → sort_chunks (add_all es d) ≡ place_all es (sort_chunks d)
  unfolding add_all
  sort_chunks-add_all [] d = refl
  sort_chunks-add_all ((seq, raw) ∷ es) d =
      sort_chunks-add_all es (add crc32 seq raw d)
      ∙ ap (place_all es) (unfold add in sort_chunks-insert seq (strip_crc crc32 raw) d)

-- Chunks as they arrive: the sequence number and the chunk with its trailer.
pub data Rearranged : List (ℕ × Bytes) → List (ℕ × Bytes) → Type 0 where
  same : {es : List (ℕ × Bytes)} → Rearranged es es
  keep :
      {e : ℕ × Bytes} {es fs : List (ℕ × Bytes)} → Rearranged es fs → Rearranged (e ∷ es) (e ∷ fs)
  swap :
      {j k : ℕ} {v w : Bytes} {es : List (ℕ × Bytes)}
      → j ≢ k
      → Rearranged ((j, v) ∷ (k, w) ∷ es) ((k, w) ∷ (j, v) ∷ es)
  again : {e : ℕ × Bytes} {es : List (ℕ × Bytes)} → Rearranged (e ∷ es) (e ∷ e ∷ es)
  chain : {es fs gs : List (ℕ × Bytes)} → Rearranged es fs → Rearranged fs gs → Rearranged es gs

module _ (crc32 : Bytes → ℕ) where
  place_all-Rearranged :
      (es fs : List (ℕ × Bytes)) (d : Chunks)
      → Rearranged es fs
      → place_all crc32 es d ≡ place_all crc32 fs d
  place_all-Rearranged es _ d same = refl
  place_all-Rearranged ((k, v) ∷ es) (_ ∷ fs) d (keep r) =
      place_all-Rearranged es fs (place k (strip_crc crc32 v) d) r
  place_all-Rearranged _ _ d (swap {j} {k} {v} {w} {es} h) =
      ap (place_all crc32 es)
        (place-place k j (strip_crc crc32 w) (strip_crc crc32 v) d (λ e. h (sym e)))
  place_all-Rearranged ((k, v) ∷ es) _ d again =
      ap (place_all crc32 es) (sym (place-place_same k (strip_crc crc32 v) (strip_crc crc32 v) d))
  place_all-Rearranged es gs d (chain {fs = fs} r q) =
      place_all-Rearranged es fs d r ∙ place_all-Rearranged fs gs d q

  -- The message is the same whatever the order in which the chunks arrive, and when any of them
  -- arrives several times, as long as a sequence number always carries the same bytes.
  pub message-Rearranged :
      {es fs : List (ℕ × Bytes)} (d : Chunks)
      → Rearranged es fs
      → message (add_all crc32 es d) ≡ message (add_all crc32 fs d)
  unfolding message
  message-Rearranged {es} {fs} d r =
      ap (λ t. concat (values t))
        (sort_chunks-add_all crc32 es d
          ∙ place_all-Rearranged es fs (sort_chunks d) r
          ∙ sym (sort_chunks-add_all crc32 fs d))
