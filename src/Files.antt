-- ===== src/Files.antt =====
-- sim/wheel_sim.py, `WheelFileSystem`: the files of the wheel, what of them is on the disk, and the
-- batches that put off the writing. A path is the list of its code points. The text of the JSON is
-- not modelled, only the entries that are read from it and written to it. hashlib.md5 is a parameter,
-- and so is, for each call that may save, whether the write of the disk comes through.
pub mod Reload
pub mod Saved
pub mod Deleted
pub mod Listing
pub mod Ends
pub mod Endless
use moza_simulator.Standalone.{is_empty}
use moza_simulator.Mbooster.Texts.{starts_with}
use moza_simulator.Base.{
  none, some, ℕ, Bytes-key, Bytes, Bool, if◌then◌else◌, ◌+◌, ◌-◌, Option, ◌∷◌, [], ltb, ◌==◌,
  bytes_eqb, length, false, true, ◌&&◌, ◌||◌, ◌++◌, List, map,
}
use moza_simulator.Base.Dict.{Dict, lookup, insert}
use moza_simulator.Identity.{Text}
use moza_simulator.Profile.Devices.{text}

pub record FileEntry : Type 0 where
  pub bytes : Bytes
  pub md5 : Text
  pub mtime : ℕ
  pub create : ℕ

-- The file at the path: none where there is no file, else the entries of its JSON object in order,
-- with none for an entry that raises an exception; no entries where it is no JSON object.
abbrev pub Disk : Type 0
Disk = Option (List (Text × Option FileEntry))

pub record FileSystem : Type 0 where
  -- Whether there is a path to keep the files at.
  pub persistent : Bool
  pub files : Dict Text FileEntry
  pub disk : Disk
  pub save_deferred : ℕ
  pub save_pending : Bool

-- The loop of `_load`, which an exception ends; the files read before it stay.
unfoldable pub load_entries :
    List (Text × Option FileEntry) → Dict Text FileEntry → Dict Text FileEntry
unfolding insert
load_entries [] files = files
load_entries ((path, none) ∷ entries) files = files
load_entries ((path, some entry) ∷ entries) files = load_entries entries (insert path entry files)

-- `_load`
unfoldable pub load_disk : Disk → Dict Text FileEntry
unfolding load_entries
load_disk none = []
load_disk (some entries) = load_entries entries []

-- `WheelFileSystem(persist_path)`; the disk is read only where there is a path.
unfoldable pub load_files : Bool → Disk → FileSystem
unfolding load_disk
load_files persistent disk = record {
  persistent = persistent;
  files = if persistent then load_disk disk else [];
  disk = disk;
  save_deferred = 0;
  save_pending = false;
}

-- The object that `_save` writes.
abbrev pub stored : Dict Text FileEntry → List (Text × Option FileEntry)
stored = map (λ (e : Text × FileEntry). (e.0, some e.1))

-- `_save`; an exception of the write is dropped, and the file, which is replaced at the end, stays.
unfoldable pub save : Bool → FileSystem → FileSystem
save works s =
    if ltb 0 s.save_deferred
    then record s { save_pending = true }
    else if s.persistent && works
    then record s { disk = some (stored s.files) }
    else s

-- The start and the end of `with batch_writes()`; a batch ends after it has started.
unfoldable pub open_batch : FileSystem → FileSystem
open_batch s = record s { save_deferred = s.save_deferred + 1 }

unfoldable pub close_batch : Bool → FileSystem → FileSystem
unfolding save
close_batch works s =
    let t = record s { save_deferred = s.save_deferred - 1 } in
    if t.save_deferred == 0 && t.save_pending
    then save works (record t { save_pending = false })
    else t

unfoldable pub read_file : FileSystem → Text → Option Bytes
read_file s path = elim (lookup path s.files) [ none ↦ none | some entry ↦ some entry.bytes ]

pub record Stat : Type 0 where
  pub file_size : ℕ
  pub md5 : Text
  pub mtime : ℕ
  pub create : ℕ

unfoldable pub stat : FileSystem → Text → Option Stat
stat s path = elim (lookup path s.files) [
  | none ↦ none
  | some entry ↦ some (record {
    file_size = length entry.bytes;
    md5 = entry.md5;
    mtime = entry.mtime;
    create = entry.create;
  })
]

-- `path.rstrip('/')`
unfoldable pub rstrip_slash : Text → Text
rstrip_slash [] = []
rstrip_slash (c ∷ path) =
    let rest = rstrip_slash path in if c == 47 && is_empty rest then [] else c ∷ rest

-- The path itself and what lies below it.
unfoldable pub is_under : Text → Text → Bool
unfolding starts_with
is_under norm p = bytes_eqb p norm || starts_with (norm ++ 47 ∷ []) p

-- The files without those of the paths.
unfoldable pub without : (Text → Bool) → Dict Text FileEntry → Dict Text FileEntry
without matched [] = []
without matched ((p, entry) ∷ files) =
    let rest = without matched files in if matched p then rest else (p, entry) ∷ rest

-- The loop that deletes the matched paths, and the saving where there are any; with their number.
unfoldable pub delete_matched : Bool → (Text → Bool) → FileSystem → FileSystem × ℕ
unfolding without save
delete_matched works matched s =
    let left = without matched s.files in
    let removed = length s.files - length left in
    if removed == 0 then (s, 0) else (save works (record s { files = left }), removed)

-- `delete`
unfoldable pub delete_path : Bool → Text → FileSystem → FileSystem × ℕ
unfolding rstrip_slash is_under delete_matched
delete_path works path s = delete_matched works (is_under (rstrip_slash path)) s

unfoldable pub purge_legacy_dash_paths : Bool → FileSystem → FileSystem × ℕ
unfolding starts_with delete_matched
purge_legacy_dash_paths works s =
    delete_matched works (starts_with (text "/home/root/resource/dashes/")) s

-- `sum(len(meta['bytes']) …)` over the files below the root of the dashboards
unfoldable pub bytes_below : Text → Dict Text FileEntry → ℕ
unfolding starts_with
bytes_below root [] = 0
bytes_below root ((p, entry) ∷ files) =
    (if starts_with root p then length entry.bytes else 0) + bytes_below root files

unfoldable pub total_dashboard_bytes : FileSystem → ℕ
unfolding bytes_below
total_dashboard_bytes s = bytes_below (text "/home/moza/resource/dashes/") s.files

module _ (md5 : Bytes → Text) where
  -- The new entry of a path; it keeps the time at which the file was created.
  unfoldable pub new_entry : ℕ → Option FileEntry → Bytes → Option Text → FileEntry
  new_entry now_ms prev body md5_override = record {
    bytes = body;
    md5 = elim md5_override [
      | none ↦ md5 body
      | some hash ↦ if is_empty hash then md5 body else hash
    ];
    mtime = now_ms;
    create = elim prev [ none ↦ now_ms | some entry ↦ entry.create ];
  }

  unfoldable pub write_file : Bool → ℕ → Text → Bytes → Option Text → FileSystem → FileSystem
  unfolding new_entry save
  write_file works now_ms path body md5_override s = save works (record s {
    files = insert path (new_entry now_ms (lookup path s.files) body md5_override) s.files;
  })
