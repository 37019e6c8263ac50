-- ===== src/Files/Ends.antt =====
-- How deep `list_children` goes where no path has an empty segment.
use moza_simulator.Mbooster.Texts.{starts_with}
use moza_simulator.Standalone.{is_empty, contains}
use moza_simulator.Files.Listing.{
  before_slash, Children, enter, visit, visit_all, Found, visit_below, prefix_of, list_children,
  join_found,
}
use Prim.Native.Nat.{max}
use moza_simulator.Base.{
  ℕ, Bytes-key, Bool, Option, ◌≡◌, ◌++◌, false, true, some, ◌∷◌, [], ◌==◌, if◌then◌else◌, ◌≢◌, ◌⊎◌,
  arith, refl, ◌&&◌, Bool-cases, inl, inr, ap, length, drop, All, Option-cases, ◌≤◌, sym,
  take-append-drop, ◌<◌, ◌∙◌, bytes_eqb_iff, take, ◌+◌, suc, append_assoc, zero, length-append,
}
use moza_simulator.Base.Dict.{Dict, lookup}
use moza_simulator.Identity.{Text}
use moza_simulator.Files.{FileSystem, FileEntry, rstrip_slash}

abbrev is_slash : Text → Bool
is_slash [] = false
is_slash (c ∷ rest) = c == 47

-- No two slashes follow each other.
abbrev pub gapless : Text → Bool
gapless [] = true
gapless (c ∷ rest) = let more = gapless rest in if c == 47 && is_slash rest then false else more

-- The length of the longest path.
abbrev pub longest : Dict Text FileEntry → ℕ
longest [] = 0
longest ((p, entry) ∷ files) = max (length p) (longest files)

abbrev Returns {ℓ} : {A : Type ℓ} → Option A → Type ℓ
Returns {A = A} o = (r : A) × (o ≡ some r)

-- A path that ends in no slash.
abbrev pub IsUnslashed : Text → Type 0
IsUnslashed p = (rstrip_slash p ≡ p) × (is_empty p ≡ false)

gap_inside : (p q : Text) → gapless (p ++ 47 ∷ 47 ∷ q) ≢ true
gap_inside [] q h = ground (arith, h)
gap_inside (c ∷ p) q h = elim (Bool-cases (c == 47 && is_slash (p ++ 47 ∷ 47 ∷ q))) [
  | inl e ↦ let no : false ≡ true = rw e at h in ground (arith, no)
  | inr e ↦ gap_inside p q (rw e at h)
]

pub IsUnslashed-after : (p q : Text) → IsUnslashed q → IsUnslashed (p ++ q)
unfolding rstrip_slash
IsUnslashed-after [] q h = h
IsUnslashed-after (c ∷ p) q h =
    let (same, full) = IsUnslashed-after p q h in (rw (same, full) (ground arith), refl)

before_slash-IsUnslashed :
    (rest : Text) → (before_slash rest ≡ []) ⊎ IsUnslashed (before_slash rest)
unfolding before_slash rstrip_slash
before_slash-IsUnslashed [] = inl refl
before_slash-IsUnslashed (c ∷ rest) = elim (Bool-cases (c == 47)) [
  | inl e ↦ rw e (inl refl)
  | inr e ↦ elim (before_slash-IsUnslashed rest) [
    | inl none_before ↦ rw (e, none_before) (inr (ground arith, refl))
    | inr plain ↦ rw e (inr (IsUnslashed-after (c ∷ []) (before_slash rest) plain))
  ]
]

before_slash-split :
    (rest : Text) → contains 47 rest ≡ true → (q : Text) × (rest ≡ before_slash rest ++ 47 ∷ q)
unfolding before_slash contains
before_slash-split [] h = ground (arith, h)
before_slash-split (c ∷ rest) h = elim (Bool-cases (c == 47)) [
  | inl e ↦ let same : c ≡ 47 = ground (arith, e) in rw (e, same) (rest, refl)
  | inr e ↦ let (q, split) = before_slash-split rest (rw e at h) in rw e (q, ap (c ∷◌) split)
]

-- What entering a directory from a path asks of the listing.
CanEnter : (Text → Option Children) → Text → Text → Type 0
CanEnter list prefix p =
    starts_with prefix p ≡ true
    → contains 47 (drop (length prefix) p) ≡ true
    → Returns (list (prefix ++ before_slash (drop (length prefix) p)))

enter-Returns :
    (list : Text → Option Children) (prefix name : Text) (entry : FileEntry) (found : Found)
    → Returns (list (prefix ++ name))
    → Returns (enter list prefix name entry found)
unfolding enter
enter-Returns list prefix name entry (dirs, files) (below, e) = rw (e, enter) (_, refl)

visit-Returns :
    (list : Text → Option Children) (prefix p : Text) (entry : FileEntry) (found : Found)
    → CanEnter list prefix p
    → Returns (visit list prefix (p, entry) found)
unfolding visit visit_below CanEnter
visit-Returns list prefix p entry (dirs, files) can = elim (Bool-cases (starts_with prefix p)) [
  | inr e ↦ rw e (_, refl)
  | inl e ↦
      let rest = drop (length prefix) p in
      elim (Bool-cases (contains 47 rest)) [
        | inr c ↦ rw (e, c) (_, refl)
        | inl c ↦ elim (Option-cases (lookup (before_slash rest) dirs)) [
          | inl new ↦
              rw (e, c, new)
                (enter-Returns list prefix (before_slash rest) entry (dirs, files) (can e c))
          | inr (seen, old) ↦ rw (e, c, old) (_, refl)
        ]
      ]
]

visit_all-Returns :
    (list : Text → Option Children) (prefix : Text) (files : Dict Text FileEntry) (found : Found)
    → All (λ file. CanEnter list prefix file.0) files
    → Returns (visit_all list prefix files found)
unfolding visit_all
visit_all-Returns list prefix [] found can = (found, refl)
visit_all-Returns list prefix ((p, entry) ∷ files) found (can, more) =
    let (found', e) = visit-Returns list prefix p entry found can in
    rw (e, visit_all) (visit_all-Returns list prefix files found' more)

CanEnter-All :
    (list : Text → Option Children) (prefix : Text) (bound : ℕ) (files : Dict Text FileEntry)
    → All (λ file. gapless file.0 ≡ true) files
    → longest files ≤ bound
    → ((p : Text) → gapless p ≡ true → length p ≤ bound → CanEnter list prefix p)
    → All (λ file. CanEnter list prefix file.0) files
CanEnter-All list prefix bound [] g b can = tt
CanEnter-All list prefix bound ((p, entry) ∷ files) (g, gs) b can =
    (can p g (omega (arith, b)), CanEnter-All list prefix bound files gs (omega (arith, b)) can)

pub starts_with-split : (p q : Text) → starts_with p q ≡ true → q ≡ p ++ drop (length p) q
unfolding starts_with
starts_with-split p q h =
    sym (take-append-drop (length p) q)
    ∙ ap (λ t. t ++ drop (length p) q) ((bytes_eqb_iff (take (length p) q) p).0 h)

prefix_of-IsUnslashed : (p : Text) → IsUnslashed p → prefix_of p ≡ p ++ 47 ∷ []
unfolding prefix_of
prefix_of-IsUnslashed p (same, full) = rw (same, full, same) refl

prefix_of_ends : (path : Text) → (r : Text) × (prefix_of path ≡ r ++ 47 ∷ [])
unfolding prefix_of
prefix_of_ends path = (_, refl)

-- A directory's prefix is longer than that of its parent, and no longer than the path of a file in it.
prefix_of-enter :
    (path p : Text)
    → gapless p ≡ true
    → starts_with (prefix_of path) p ≡ true
    → contains 47 (drop (length (prefix_of path)) p) ≡ true
    → let prefix = prefix_of path in
      let below = prefix_of (prefix ++ before_slash (drop (length prefix) p)) in
      (length prefix < length below) × (length below ≤ length p)
prefix_of-enter path p g h c =
    let prefix = prefix_of path in
    let rest = drop (length prefix) p in
    let (q, split) = before_slash-split rest c in
    let whole : p ≡ prefix ++ (before_slash rest ++ 47 ∷ q) =
      starts_with-split prefix p h ∙ ap (prefix ++◌) split in
    elim (before_slash-IsUnslashed rest) [
      | inl gone ↦
          let (r, ending) = prefix_of_ends path in
          let gap : p ≡ r ++ 47 ∷ 47 ∷ q =
            whole ∙ rw (gone, ending) (append_assoc r (47 ∷ []) (47 ∷ q)) in
          absurd (gap_inside r q (sym (ap gapless gap) ∙ g))
      | inr plain ↦
          let name = before_slash rest in
          let flat : prefix_of (prefix ++ name) ≡ (prefix ++ name) ++ 47 ∷ [] =
            prefix_of-IsUnslashed (prefix ++ name) (IsUnslashed-after prefix name plain) in
          let below : length (prefix_of (prefix ++ name)) ≡ length prefix + length name + 1 =
            ap length flat
            ∙ rw (length-append (prefix ++ name) (47 ∷ []), length-append prefix name) refl in
          let all : length p ≡ length prefix + (length name + suc (length q)) =
            ap length whole
            ∙ rw (length-append prefix (name ++ 47 ∷ q), length-append name (47 ∷ q)) refl in
          (omega (arith, below), omega (arith, below, all))
    ]

listed-Returns :
    (s : FileSystem) (list : Text → Option Children) (path : Text)
    → All (λ file. gapless file.0 ≡ true) s.files
    → ((below : Text)
        → length (prefix_of path) < length (prefix_of below)
        → length (prefix_of below) ≤ longest s.files
        → Returns (list below))
    → Returns (join_found (visit_all list (prefix_of path) s.files ([], [])))
unfolding CanEnter join_found
listed-Returns s list path g sub =
    let can : (p : Text)
        → gapless p ≡ true
        → length p ≤ longest s.files
        → CanEnter list (prefix_of path) p =
      λ p gp short starts slash.
        let (longer, inside) = prefix_of-enter path p gp starts slash in
        sub (prefix_of path ++ before_slash (drop (length (prefix_of path)) p)) longer
          (omega (arith, inside, short)) in
    let (found, e) =
      visit_all-Returns list (prefix_of path) s.files ([], [])
        (CanEnter-All list (prefix_of path) (longest s.files) s.files g (omega arith) can) in
    rw (e, join_found) (_, refl)

list_children-Returns :
    (s : FileSystem) (n : ℕ) (path : Text)
    → All (λ file. gapless file.0 ≡ true) s.files
    → longest s.files ≤ n + length (prefix_of path)
    → Returns (list_children (suc n) path s)
unfolding list_children
list_children-Returns s zero path g b =
    listed-Returns s (λ below. list_children zero below s) path g
      (λ below longer inside. absurd (omega (arith, b, longer, inside)))
list_children-Returns s (suc n) path g b =
    listed-Returns s (λ below. list_children (suc n) below s) path g
      (λ below longer inside. list_children-Returns s n below g (omega (arith, b, longer, inside)))

-- Where no path has two slashes in a row, `list_children` of any path returns its entries, entering
-- directories at most as deep as the longest path is long.
pub list_children_ends :
    (s : FileSystem) (path : Text)
    → All (λ file. gapless file.0 ≡ true) s.files
    → (r : Children) × (list_children (suc (longest s.files)) path s ≡ some r)
list_children_ends s path g = list_children-Returns s (longest s.files) path g (omega arith)
