-- ===== src/Files/Reload.antt =====
-- What `_load` makes of the entries that `_save` wrote.
use moza_simulator.Files.Deleted.{lookup-without}
use moza_simulator.Base.{
  Bytes-key, List, Bool, All, ◌≡◌, [], some, Option, none, ◌++◌, ◌∷◌, Bool-cases, true, sym, refl,
  bytes_eqb, ◌⊎◌, append-nil, false, ◌∙◌, inl, ap, inr, append_assoc, bytes_eqb_iff,
}
use moza_simulator.Base.Dict.{Dict, lookup, insert, lookup-insert}
use moza_simulator.Identity.{Text}
use moza_simulator.Files.{FileEntry, load_entries, load_disk, stored, without, Disk}

-- No path is there twice.
abbrev pub IsDistinct : Dict Text FileEntry → Type 0
IsDistinct [] = Unit
IsDistinct ((p, entry) ∷ files) = (lookup p files ≡ none) × IsDistinct files

unequal_swap : (p q : Text) → bytes_eqb p q ≡ false → bytes_eqb q p ≡ false
unequal_swap p q e = elim (Bool-cases (bytes_eqb q p)) [
  | inl f ↦
      let same : bytes_eqb p q ≡ true = (bytes_eqb_iff p q).1 (sym ((bytes_eqb_iff q p).0 f)) in cc
  | inr f ↦ f
]

pub insert-IsDistinct :
    (p : Text) (entry : FileEntry) (files : Dict Text FileEntry)
    → IsDistinct files
    → IsDistinct (insert p entry files)
unfolding insert lookup
insert-IsDistinct p entry [] h = (refl, tt)
insert-IsDistinct p entry ((j, old) ∷ files) h = elim (Bool-cases (bytes_eqb j p)) [
  | inl e ↦ rw e h
  | inr e ↦
      let other : bytes_eqb p j ≡ false = unequal_swap j p e in
      rw e (lookup-insert p j entry files ∙ rw other h.0, insert-IsDistinct p entry files h.1)
]

load_entries-IsDistinct :
    (entries : List (Text × Option FileEntry)) (files : Dict Text FileEntry)
    → IsDistinct files
    → IsDistinct (load_entries entries files)
unfolding load_entries
load_entries-IsDistinct [] files h = h
load_entries-IsDistinct ((p, none) ∷ entries) files h = h
load_entries-IsDistinct ((p, some entry) ∷ entries) files h =
    load_entries-IsDistinct entries (insert p entry files) (insert-IsDistinct p entry files h)

pub load_disk-IsDistinct : (disk : Disk) → IsDistinct (load_disk disk)
unfolding load_disk
load_disk-IsDistinct none = tt
load_disk-IsDistinct (some entries) = load_entries-IsDistinct entries [] tt

pub without-IsDistinct :
    (matched : Text → Bool) (files : Dict Text FileEntry)
    → IsDistinct files
    → IsDistinct (without matched files)
unfolding without
without-IsDistinct matched [] h = tt
without-IsDistinct matched ((p, entry) ∷ files) h = elim (Bool-cases (matched p)) [
  | inl e ↦ rw e (without-IsDistinct matched files h.1)
  | inr e ↦ rw e (gone (Bool-cases (matched p)), without-IsDistinct matched files h.1)
]
  where
    gone : (matched p ≡ true) ⊎ (matched p ≡ false) → lookup p (without matched files) ≡ none
    gone (inl m) = lookup-without matched p files ∙ rw m refl
    gone (inr m) = lookup-without matched p files ∙ rw m h.0

-- None of the paths is there yet.
abbrev Fresh : Dict Text FileEntry → Dict Text FileEntry → Type 0
Fresh files = All (λ (e : Text × FileEntry). lookup e.0 files ≡ none)

insert-fresh :
    (p : Text) (entry : FileEntry) (files : Dict Text FileEntry)
    → lookup p files ≡ none
    → insert p entry files ≡ files ++ (p, entry) ∷ []
unfolding insert lookup
insert-fresh p entry [] h = refl
insert-fresh p entry ((j, old) ∷ files) h = elim (Bool-cases (bytes_eqb j p)) [
  | inl e ↦ let no : some old ≡ none = rw e at h in cc
  | inr e ↦ rw e (ap ((j, old) ∷◌) (insert-fresh p entry files (rw e at h)))
]

Fresh-insert :
    (p : Text) (entry : FileEntry) (files more : Dict Text FileEntry)
    → lookup p more ≡ none
    → Fresh files more
    → Fresh (insert p entry files) more
unfolding lookup
Fresh-insert p entry files [] h f = tt
Fresh-insert p entry files ((j, new) ∷ more) h f = elim (Bool-cases (bytes_eqb j p)) [
  | inl e ↦ let no : some new ≡ none = rw e at h in cc
  | inr e ↦
      let other : bytes_eqb p j ≡ false = unequal_swap j p e in
      (
        lookup-insert p j entry files ∙ rw other f.0,
        Fresh-insert p entry files more (rw e at h) f.1,
      )
]

load_entries-stored :
    (files more : Dict Text FileEntry)
    → IsDistinct more
    → Fresh files more
    → load_entries (stored more) files ≡ files ++ more
unfolding load_entries
load_entries-stored files [] d f = sym (append-nil files)
load_entries-stored files ((p, entry) ∷ more) d f =
    load_entries-stored (insert p entry files) more d.1 (Fresh-insert p entry files more d.0 f.1)
    ∙ ap (◌++ more) (insert-fresh p entry files f.0)
    ∙ append_assoc files ((p, entry) ∷ []) more

none_yet : (files : Dict Text FileEntry) → Fresh [] files
unfolding lookup
none_yet [] = tt
none_yet (e ∷ files) = (refl, none_yet files)

-- Loading what was saved gives the files back.
pub load_disk-stored :
    (files : Dict Text FileEntry) → IsDistinct files → load_disk (some (stored files)) ≡ files
unfolding load_disk
load_disk-stored files d = load_entries-stored [] files d (none_yet files)
