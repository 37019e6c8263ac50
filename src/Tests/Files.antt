-- ===== src/Tests/Files.antt =====
-- The file system with two uploads in one batch, and with the dashboard's directory deleted.
use moza_simulator.Files.Endless.{list_children_endless}
use moza_simulator.Files.Ends.{longest, list_children_ends}
use moza_simulator.Files.Listing.{Children, list_children, node, child, leaf, prefix_of}
use moza_simulator.Base.Dict.{lookup, insert}
use moza_simulator.Files.{
  FileSystem, delete_path, load_files, read_file, rstrip_slash, close_batch, write_file, open_batch,
  FileEntry, Disk, load_disk,
}
use moza_simulator.Files.Saved.{call_all, FileCall, opens, writes, call_all_saved, closes}
use moza_simulator.Profile.Devices.{text}
use moza_simulator.Base.{
  Bytes, List, length, ◌≡◌, ◌∷◌, true, some, [], none, refl, Bytes-key, suc, false,
}
use moza_simulator.Identity.{Text}

abbrev hash : Bytes → Text
hash body = length body ∷ []

abbrev dash : Text
dash = text "/a/b.mzdash"

abbrev tile : Text
tile = text "/ab"

abbrev uploads : List FileCall
uploads =
    opens
    ∷ writes true 5 dash (1 ∷ 2 ∷ []) none
    ∷ writes true 6 tile (3 ∷ []) (some (text "f"))
    ∷ closes true
    ∷ []

-- A file in which the second entry cannot be read.
abbrev old_entry : FileEntry
old_entry = record { bytes = 9 ∷ []; md5 = []; mtime = 0; create = 0 }

abbrev broken : Disk
broken =
    some ((text "/old", some old_entry) ∷ (text "/bad", none) ∷ (text "/lost", some old_entry) ∷ [])

call_all_saved_example :
    load_disk (call_all hash uploads (load_files true broken)).disk
    ≡ (call_all hash uploads (load_files true broken)).files
unfolding call_all close_batch write_file open_batch load_files
call_all_saved_example = call_all_saved hash broken uploads (tt, (refl, (refl, (refl, tt)))) refl

-- What is read before the broken entry stays.
broken_read : (load_files true broken).files ≡ (text "/old", old_entry) ∷ []
unfolding load_files insert
broken_read = refl

-- A write that fails is dropped: the file is there, and the disk has no word of it.
lost_write : (write_file hash false 5 tile [] none (load_files true none)).disk ≡ none
unfolding write_file load_files
lost_write = refl

abbrev uploaded : FileSystem
uploaded = call_all hash uploads (load_files true none)

-- The directory's one file goes; the file whose name starts alike stays.
delete_directory :
    ((delete_path true (text "/a/") uploaded).1 ≡ 1)
    × (read_file (delete_path true (text "/a/") uploaded).0 tile ≡ some (3 ∷ []))
unfolding call_all close_batch write_file open_batch load_files delete_path read_file insert lookup
delete_directory = (refl, refl)

list_children_ends_example :
    (r : Children) × (list_children (suc (longest uploaded.files)) (text "/a") uploaded ≡ some r)
unfolding call_all close_batch write_file open_batch load_files insert
list_children_ends_example = list_children_ends uploaded (text "/a") (refl, (refl, tt))

-- The root's directory and file; the directory's file is entered.
root_listing :
    list_children 2 (text "/") uploaded
    ≡ some (
        node
          (child (node (child leaf 5 2 (2 ∷ []) 5 (text "b.mzdash")) leaf) 5 0 [] 5 (text "a"))
          (node (child leaf 6 1 (text "f") 6 (text "ab")) leaf))
unfolding call_all close_batch write_file open_batch load_files insert list_children
root_listing = refl

-- A file whose path has an empty segment.
abbrev gapped : FileSystem
gapped = record uploaded {
  files = (text "/a//b", record { bytes = []; md5 = []; mtime = 1; create = 1 }) ∷ [];
}

list_children_endless_example : list_children 900 (text "/a") gapped ≡ none
unfolding prefix_of lookup rstrip_slash
list_children_endless_example =
    list_children_endless gapped (text "/a") (text "b")
      (record { bytes = []; md5 = []; mtime = 1; create = 1 }) 900 refl
