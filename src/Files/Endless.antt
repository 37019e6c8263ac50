-- ===== src/Files/Endless.antt =====
-- `list_children` of a directory in which a path goes on with an empty segment.
use moza_simulator.Mbooster.Texts.{starts_with}
use moza_simulator.Files.Ends.{IsUnslashed, IsUnslashed-after}
use moza_simulator.Standalone.{is_empty, contains}
use moza_simulator.Files.Listing.{
  prefix_of, Children, Found, enter, visit, visit_all, list_children, visit_below, before_slash,
  join_found,
}
use moza_simulator.Base.{
  ℕ, Bytes-key, ◌≡◌, ◌++◌, [], ◌∷◌, ◌⊎◌, refl, ap, append-nil, ◌∙◌, inl, inr, sym, Option,
  Bool-cases, ◌==◌, none, ◌&&◌, arith, some, Option-cases, bytes_eqb, suc, drop, bytes_eqb_iff,
  length, zero, take-append, bytes_eqb_refl, drop-append, subst,
}
use moza_simulator.Base.Dict.{Dict, lookup, lookup-insert}
use moza_simulator.Identity.{Text}
use moza_simulator.Files.{FileSystem, FileEntry, rstrip_slash}

rstrip_slash-cases : (p : Text) → (rstrip_slash p ≡ []) ⊎ IsUnslashed (rstrip_slash p)
unfolding rstrip_slash
rstrip_slash-cases [] = inl refl
rstrip_slash-cases (c ∷ p) = elim (Bool-cases (c == 47 && is_empty (rstrip_slash p))) [
  | inl e ↦ rw e (inl refl)
  | inr e ↦ elim (rstrip_slash-cases p) [
    | inl gone ↦ rw (e, gone) (inr (ground arith, refl))
    | inr plain ↦ rw e (inr (IsUnslashed-after (c ∷ []) (rstrip_slash p) plain))
  ]
]

rstrip_slash-append : (p : Text) → rstrip_slash (p ++ 47 ∷ []) ≡ rstrip_slash p
unfolding rstrip_slash
rstrip_slash-append [] = refl
rstrip_slash-append (c ∷ p) = rw (rstrip_slash-append p) refl

rstrip_slash-again : (p : Text) → rstrip_slash (rstrip_slash p) ≡ rstrip_slash p
rstrip_slash-again p = elim (rstrip_slash-cases p) [
  | inl gone ↦ rw gone (unfold rstrip_slash in refl)
  | inr plain ↦ plain.0
]

prefix_of_stripped : (p : Text) → prefix_of p ≡ rstrip_slash p ++ 47 ∷ []
unfolding prefix_of
prefix_of_stripped p = elim (rstrip_slash-cases p) [
  | inl gone ↦ rw gone (unfold rstrip_slash in refl)
  | inr plain ↦ rw (plain.1, plain.0) refl
]

prefix_of-again : (path : Text) → prefix_of (prefix_of path ++ []) ≡ prefix_of path
prefix_of-again path =
    let once = prefix_of_stripped path in
    let same : rstrip_slash (prefix_of path ++ []) ≡ rstrip_slash path =
      ap rstrip_slash (append-nil (prefix_of path) ∙ once)
      ∙ rstrip_slash-append (rstrip_slash path)
      ∙ rstrip_slash-again path in
    prefix_of_stripped (prefix_of path ++ []) ∙ ap (λ t. t ++ 47 ∷ []) same ∙ sym once

-- Nothing is returned, or no directory of the empty name has been seen.
abbrev Unnamed : Option Found → Type 0
Unnamed o = (o ≡ none) ⊎ ((found : Found) × (o ≡ some found) × (lookup [] found.0 ≡ none))

module _ (list : Text → Option Children) (prefix : Text) (stuck : list (prefix ++ []) ≡ none) where
  enter-Unnamed :
      (name : Text) (entry : FileEntry) (found : Found)
      → lookup [] found.0 ≡ none
      → Unnamed (enter list prefix name entry found)
  unfolding enter
  enter-Unnamed [] entry (dirs, files) new = rw (stuck, enter) (inl refl)
  enter-Unnamed (c ∷ name) entry (dirs, files) new =
      elim (Option-cases (list (prefix ++ c ∷ name))) [
        | inl e ↦ rw (e, enter) (inl refl)
        | inr (below, e) ↦ rw (e, enter) (inr (_, refl, lookup-insert (c ∷ name) [] _ dirs ∙ new))
      ]

  visit-Unnamed :
      (p : Text) (entry : FileEntry) (found : Found)
      → lookup [] found.0 ≡ none
      → Unnamed (visit list prefix (p, entry) found)
  unfolding visit visit_below
  visit-Unnamed p entry (dirs, files) new =
      let rest = drop (length prefix) p in
      elim (Bool-cases (starts_with prefix p)) [
        | inr e ↦ rw e (inr (_, refl, new))
        | inl e ↦ elim (Bool-cases (contains 47 rest)) [
          | inr c ↦ rw (e, c) (inr (_, refl, new))
          | inl c ↦ elim (Option-cases (lookup (before_slash rest) dirs)) [
            | inl first ↦
                rw (e, c, first) (enter-Unnamed (before_slash rest) entry (dirs, files) new)
            | inr (seen, old) ↦ rw (e, c, old) (inr (_, refl, new))
          ]
        ]
      ]

  visit_below_endless :
      (q : Text) (entry : FileEntry) (found : Found)
      → lookup [] found.0 ≡ none
      → visit_below list prefix (47 ∷ q) entry found ≡ none
  unfolding visit_below before_slash contains enter
  visit_below_endless q entry (dirs, files) new = rw (new, stuck, enter) refl

  visit_endless :
      (q : Text) (entry : FileEntry) (found : Found)
      → lookup [] found.0 ≡ none
      → visit list prefix (prefix ++ 47 ∷ q, entry) found ≡ none
  unfolding visit starts_with
  visit_endless q entry found new =
      let below : drop (length prefix) (prefix ++ 47 ∷ q) ≡ 47 ∷ q =
        drop-append (length prefix) prefix (47 ∷ q) refl in
      rw (take-append (length prefix) prefix (47 ∷ q) refl, bytes_eqb_refl prefix)
        (ap (λ r. visit_below list prefix r entry found) below
          ∙ visit_below_endless q entry found new)

  visit_all_endless :
      (q : Text) (entry : FileEntry) (files : Dict Text FileEntry) (found : Found)
      → lookup [] found.0 ≡ none
      → lookup (prefix ++ 47 ∷ q) files ≡ some entry
      → visit_all list prefix files found ≡ none
  unfolding visit_all lookup
  visit_all_endless q entry [] found new there = cc
  visit_all_endless q entry ((p, e) ∷ files) found new there =
      elim (Bool-cases (bytes_eqb p (prefix ++ 47 ∷ q))) [
        | inl same ↦
            let is : p ≡ prefix ++ 47 ∷ q = (bytes_eqb_iff p (prefix ++ 47 ∷ q)).0 same in
            let none_found : visit list prefix (p, e) found ≡ none =
              subst (λ x. visit list prefix (x, e) found ≡ none) (sym is)
                (visit_endless q e found new) in
            rw (none_found, visit_all) refl
        | inr other ↦ elim (visit-Unnamed p e found new) [
          | inl ends ↦ rw (ends, visit_all) refl
          | inr (found', goes, new') ↦
              rw (goes, visit_all) (visit_all_endless q entry files found' new' (rw other at there))
        ]
      ]

-- Where a file's path goes on behind a directory's prefix with one more slash, `list_children` of that
-- directory calls itself on the directory without end: whatever the fuel, it does not return.
pub list_children_endless :
    (s : FileSystem) (path q : Text) (entry : FileEntry) (n : ℕ)
    → lookup (prefix_of path ++ 47 ∷ q) s.files ≡ some entry
    → list_children n path s ≡ none
unfolding list_children
list_children_endless s path q entry zero there = refl
list_children_endless s path q entry (suc n) there =
    let again : list_children n (prefix_of path ++ []) s ≡ none =
      list_children_endless s (prefix_of path ++ []) q entry n (rw (prefix_of-again path) there) in
    ap join_found (
      visit_all_endless (λ below. list_children n below s) (prefix_of path) again q entry s.files
        ([], []) refl there)
