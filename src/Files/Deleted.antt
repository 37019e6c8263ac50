-- ===== src/Files/Deleted.antt =====
-- What `delete` takes away.
use moza_simulator.Base.{
  Bytes-key, Bool, ◌≡◌, length, if◌then◌else◌, ◌≤◌, ◌-◌, none, arith, ◌∷◌, Bool-cases, [], ◌+◌,
  refl, inl, inr, true, ◌⊎◌, false, bytes_eqb, sym, suc, ltb, ◌==◌, ap, bytes_eqb_iff, ◌∙◌, ◌&&◌,
}
use moza_simulator.Base.Dict.{lookup, Dict}
use moza_simulator.Identity.{Text}
use moza_simulator.Files.{
  FileSystem, without, delete_path, delete_matched, FileEntry, save, is_under, rstrip_slash,
}

pub lookup-without :
    (matched : Text → Bool) (p : Text) (files : Dict Text FileEntry)
    → lookup p (without matched files) ≡ (if matched p then none else lookup p files)
unfolding lookup without
lookup-without matched p [] = elim (Bool-cases (matched p)) [
  | inl e ↦ rw e refl
  | inr e ↦ rw e refl
]
lookup-without matched p ((j, entry) ∷ files) =
    pick (Bool-cases (matched j)) (Bool-cases (bytes_eqb j p)) (lookup-without matched p files)
  where
    pick :
        (matched j ≡ true) ⊎ (matched j ≡ false)
        → (bytes_eqb j p ≡ true) ⊎ (bytes_eqb j p ≡ false)
        → lookup p (without matched files) ≡ (if matched p then none else lookup p files)
        → lookup p (without matched ((j, entry) ∷ files))
          ≡ (if matched p then none else lookup p ((j, entry) ∷ files))
    pick (inl m) (inl e) rest =
        let q = sym (ap matched ((bytes_eqb_iff j p).0 e)) ∙ m in rw (m, e, q) (rest ∙ (rw q refl))
    pick (inl m) (inr e) rest = rw (m, e) rest
    pick (inr m) (inl e) rest =
        let q = sym (ap matched ((bytes_eqb_iff j p).0 e)) ∙ m in rw (m, e, q) refl
    pick (inr m) (inr e) rest = rw (m, e) rest

length-without :
    (matched : Text → Bool) (files : Dict Text FileEntry)
    → length (without matched files) ≤ length files
unfolding without
length-without matched [] = omega arith
length-without matched (e ∷ files) = ground (arith, length-without matched files)

-- Nothing was matched where as many files are left.
without_none :
    (matched : Text → Bool) (files : Dict Text FileEntry)
    → length files - length (without matched files) ≡ 0
    → without matched files ≡ files
unfolding without
without_none matched [] h = refl
without_none matched ((j, entry) ∷ files) h = elim (Bool-cases (matched j)) [
  | inl m ↦
      let short = length-without matched files in
      let gone : suc (length files) - length (without matched files) ≡ 0 = rw m at h in
      absurd (omega (arith, short, gone))
  | inr m ↦
      let same : suc (length files) - suc (length (without matched files)) ≡ 0 = rw m at h in
      rw m (ap ((j, entry) ∷◌) (without_none matched files (omega (arith, same))))
]

save_files : (works : Bool) (s : FileSystem) → (save works s).files ≡ s.files
unfolding save
save_files works s = elim (Bool-cases (ltb 0 s.save_deferred)) [
  | inl e ↦ rw e refl
  | inr e ↦ elim (Bool-cases (s.persistent && works)) [
    | inl k ↦ rw (e, k) refl
    | inr k ↦ rw (e, k) refl
  ]
]

delete_matched-left :
    (works : Bool) (matched : Text → Bool) (s : FileSystem)
    → ((delete_matched works matched s).0.files ≡ without matched s.files)
      × ((delete_matched works matched s).1 ≡ length s.files - length (without matched s.files))
unfolding delete_matched
delete_matched-left works matched s =
    elim (Bool-cases (length s.files - length (without matched s.files) == 0)) [
      | inl e ↦
          let none_gone : length s.files - length (without matched s.files) ≡ 0 =
            grind (arith, e) in
          rw e (sym (without_none matched s.files none_gone), sym none_gone)
      | inr e ↦ rw e (save_files works (record s { files = without matched s.files }), refl)
    ]

-- After `delete` of a path, a trailing slash or not, a path reads as nothing if it is the path or
-- lies below it, and as before otherwise; the returned number is that of the files that are gone.
delete_path-lookup :
    (works : Bool) (path p : Text) (s : FileSystem)
    → (lookup p (delete_path works path s).0.files
        ≡ (if is_under (rstrip_slash path) p then none else lookup p s.files))
      × ((delete_path works path s).1 + length (delete_path works path s).0.files ≡ length s.files)
unfolding delete_path
delete_path-lookup works path p s =
    let matched = is_under (rstrip_slash path) in
    let gone = delete_matched-left works matched s in
    let short = length-without matched s.files in
    (
      ap (lookup p) gone.0 ∙ lookup-without matched p s.files,
      rw (gone.0, gone.1) (omega (arith, short)),
    )
