-- ===== src/Files/Listing.antt =====
-- sim/wheel_sim.py, `list_children` of WheelFileSystem. Its recursion runs on fuel, the number of
-- directories that it may still enter; where that is used up, it returns none.
use moza_simulator.Mbooster.Texts.{starts_with}
use moza_simulator.Standalone.{contains, is_empty}
use moza_simulator.Base.{
  ℕ, Bytes-key, if◌then◌else◌, ◌∷◌, List, Option, ◌==◌, ◌++◌, drop, some, none, [], length, map,
  suc, zero,
}
use moza_simulator.Base.Dict.{Dict, lookup, insert}
use moza_simulator.Identity.{Text}
use moza_simulator.Files.{FileSystem, FileEntry, rstrip_slash}

mutual
  pub data Child : Type 0 where
    child : Children → ℕ → ℕ → Text → ℕ → Text → Child

  pub data Children : Type 0 where
    leaf : Children
    node : Child → Children → Children

-- `norm.rstrip('/') + '/'`, where norm is `path.rstrip('/') or '/'`
unfoldable pub prefix_of : Text → Text
unfolding rstrip_slash
prefix_of path =
    let norm = if is_empty (rstrip_slash path) then 47 ∷ [] else rstrip_slash path in
    rstrip_slash norm ++ 47 ∷ []

-- `rest.split('/', 1)[0]`
unfoldable pub before_slash : Text → Text
before_slash [] = []
before_slash (c ∷ rest) = let more = before_slash rest in if c == 47 then [] else c ∷ more

-- The directories seen so far, and the files.
abbrev pub Found : Type 0
Found = Dict Text Child × List Child

-- The entry of the first file that lies in the directory, where that can be listed.
unfoldable pub enter : (Text → Option Children) → Text → Text → FileEntry → Found → Option Found
unfolding insert
enter list prefix name entry (dirs, files) = elim (list (prefix ++ name)) [
  | none ↦ none
  | some below ↦ some (insert name (child below entry.create 0 [] entry.mtime name) dirs, files)
]

-- The loop's body on the path below the prefix.
unfoldable pub visit_below :
    (Text → Option Children) → Text → Text → FileEntry → Found → Option Found
unfolding before_slash lookup contains enter
visit_below list prefix rest entry (dirs, files) =
    if contains 47 rest
    then elim (lookup (before_slash rest) dirs) [
      | none ↦ enter list prefix (before_slash rest) entry (dirs, files)
      | some seen ↦ some (dirs, files)
    ]
    else some (
      dirs,
      files ++ child leaf entry.create (length entry.bytes) entry.md5 entry.mtime rest ∷ [],
    )

unfoldable pub visit : (Text → Option Children) → Text → Text × FileEntry → Found → Option Found
unfolding visit_below starts_with
visit list prefix (p, entry) found =
    if starts_with prefix p
    then visit_below list prefix (drop (length prefix) p) entry found
    else some found

unfoldable pub visit_all :
    (Text → Option Children) → Text → Dict Text FileEntry → Found → Option Found
unfolding visit
visit_all list prefix [] found = some found
visit_all list prefix (file ∷ rest) found = elim (visit list prefix file found) [
  | none ↦ none
  | some found' ↦ visit_all list prefix rest found'
]

unfoldable pub to_children : List Child → Children
to_children [] = leaf
to_children (c ∷ rest) = node c (to_children rest)

-- `list(seen_dirs.values()) + children`
unfoldable pub join_found : Option Found → Option Children
unfolding to_children
join_found none = none
join_found (some (dirs, files)) = some (to_children (map (λ d. d.1) dirs ++ files))

unfoldable pub list_children : ℕ → Text → FileSystem → Option Children
unfolding visit_all prefix_of join_found
list_children zero path s = none
list_children (suc fuel) path s =
    join_found (visit_all (λ below. list_children fuel below s) (prefix_of path) s.files ([], []))
