-- ===== src/Files/Saved.antt =====
-- What is on the disk after calls of the file system.
use moza_simulator.Files.Reload.{
  IsDistinct, without-IsDistinct, insert-IsDistinct, load_disk-stored, load_disk-IsDistinct,
}
use moza_simulator.Profile.Devices.{text}
use moza_simulator.Mbooster.Texts.{starts_with}
use moza_simulator.Base.Dict.{insert, lookup}
use moza_simulator.Base.{
  ℕ, Bytes-key, Bytes, ◌≡◌, Option, List, true, Bool, ◌-◌, ◌∷◌, false, Bool-cases, ltb, length,
  ◌==◌, [], ◌&&◌, refl, inl, ◌≢◌, inr, arith, All,
}
use moza_simulator.Identity.{Text}
use moza_simulator.Files.{
  FileSystem, save, delete_matched, close_batch, write_file, delete_path, without,
  purge_legacy_dash_paths, new_entry, load_files, open_batch, is_under, rstrip_slash, load_disk,
  Disk,
}

-- The calls that change the file system; with each that may save, whether a write of the disk in it
-- comes through.
pub data FileCall : Type 0 where
  writes : Bool → ℕ → Text → Bytes → Option Text → FileCall
  deletes : Bool → Text → FileCall
  purges : Bool → FileCall
  opens : FileCall
  closes : Bool → FileCall

-- No write of the disk in the call fails.
abbrev pub Works : FileCall → Type 0
Works (writes works now_ms path body md5_override) = works ≡ true
Works (deletes works path) = works ≡ true
Works (purges works) = works ≡ true
Works opens = Unit
Works (closes works) = works ≡ true

unfoldable pub call : (Bytes → Text) → FileCall → FileSystem → FileSystem
call md5 (writes works now_ms path body md5_override) s =
    write_file md5 works now_ms path body md5_override s
call md5 (deletes works path) s = (delete_path works path s).0
call md5 (purges works) s = (purge_legacy_dash_paths works s).0
call md5 opens s = open_batch s
call md5 (closes works) s = close_batch works s

unfoldable pub call_all : (Bytes → Text) → List FileCall → FileSystem → FileSystem
unfolding call
call_all md5 [] s = s
call_all md5 (c ∷ calls) s = call_all md5 calls (call md5 c s)

-- Loading the disk gives the files, except where a batch is open and has something to save.
pub record IsSaved (s : FileSystem) : Type 0 where
  pub kept : s.persistent ≡ true
  pub current : s.save_pending ≡ false → load_disk s.disk ≡ s.files
  pub idle : s.save_deferred ≡ 0 → s.save_pending ≡ false
  pub distinct : IsDistinct s.files

-- Saving does for any files.
save-IsSaved :
    (works : Bool) (s : FileSystem)
    → works ≡ true
    → s.persistent ≡ true
    → (s.save_deferred ≡ 0 → s.save_pending ≡ false)
    → IsDistinct s.files
    → IsSaved (save works s)
unfolding save
save-IsSaved works s w k idle d = elim (Bool-cases (ltb 0 s.save_deferred)) [
  | inl e ↦
      let busy : s.save_deferred ≢ 0 = ground arith in
      rw e (record {
        kept = k;
        current = λ q. absurd (ground (arith, q));
        idle = λ z. absurd (busy z);
        distinct = d;
      })
  | inr e ↦
      rw (e, k, w)
        (record {
          kept = refl;
          current = λ q. load_disk-stored s.files d;
          idle = idle;
          distinct = d;
        })
]

delete_matched-IsSaved :
    (works : Bool) (matched : Text → Bool) (s : FileSystem)
    → works ≡ true
    → IsSaved s
    → IsSaved (delete_matched works matched s).0
unfolding delete_matched
delete_matched-IsSaved works matched s w h =
    let left = without matched s.files in
    elim (Bool-cases (length s.files - length left == 0)) [
      | inl e ↦ rw e h
      | inr e ↦ rw e (
          save-IsSaved works (record s { files = left }) w h.kept h.idle
            (without-IsDistinct matched s.files h.distinct))
    ]

close_batch-IsSaved :
    (works : Bool) (s : FileSystem) → works ≡ true → IsSaved s → IsSaved (close_batch works s)
unfolding close_batch
close_batch-IsSaved works s w h =
    let t = record s { save_deferred = s.save_deferred - 1 } in
    elim (Bool-cases (t.save_deferred == 0 && t.save_pending)) [
      | inl e ↦
          rw e
            (save-IsSaved works (record t { save_pending = false }) w h.kept (λ z. refl) h.distinct)
      | inr e ↦ rw e (record {
        kept = h.kept;
        current = h.current;
        idle = λ z. ground (arith, e, z);
        distinct = h.distinct;
      })
    ]

call-IsSaved :
    (md5 : Bytes → Text) (c : FileCall) (s : FileSystem)
    → Works c
    → IsSaved s
    → IsSaved (call md5 c s)
unfolding call
call-IsSaved md5 (writes works now_ms path body md5_override) s w h =
    let entry = new_entry md5 now_ms (lookup path s.files) body md5_override in
    unfold write_file in
    save-IsSaved works (record s { files = insert path entry s.files }) w h.kept h.idle
      (insert-IsDistinct path entry s.files h.distinct)
call-IsSaved md5 (deletes works path) s w h =
    unfold delete_path in delete_matched-IsSaved works (is_under (rstrip_slash path)) s w h
call-IsSaved md5 (purges works) s w h =
    unfold purge_legacy_dash_paths in
    delete_matched-IsSaved works (starts_with (text "/home/root/resource/dashes/")) s w h
call-IsSaved md5 opens s w h =
    unfold open_batch in
    record {
      kept = h.kept;
      current = h.current;
      idle = λ z. absurd (omega (arith, z));
      distinct = h.distinct;
    }
call-IsSaved md5 (closes works) s w h = close_batch-IsSaved works s w h

call_all-IsSaved :
    (md5 : Bytes → Text) (calls : List FileCall) (s : FileSystem)
    → All Works calls
    → IsSaved s
    → IsSaved (call_all md5 calls s)
unfolding call_all
call_all-IsSaved md5 [] s w h = h
call_all-IsSaved md5 (c ∷ calls) s w h =
    call_all-IsSaved md5 calls (call md5 c s) w.1 (call-IsSaved md5 c s w.0 h)

-- A file system with a path, loaded from whatever is there, a file that cannot be read in part or at
-- all among it, after any writes, deletions, purges and starts and ends of batches in which no write
-- of the disk failed: where no batch is open, loading the disk again gives exactly the files.
pub call_all_saved :
    (md5 : Bytes → Text) (disk : Disk) (calls : List FileCall)
    → All Works calls
    → (call_all md5 calls (load_files true disk)).save_deferred ≡ 0
    → load_disk (call_all md5 calls (load_files true disk)).disk
      ≡ (call_all md5 calls (load_files true disk)).files
call_all_saved md5 disk calls w z =
    let loaded : IsSaved (load_files true disk) =
      unfold load_files in
      record {
        kept = refl;
        current = λ q. refl;
        idle = λ q. refl;
        distinct = load_disk-IsDistinct disk;
      } in
    let h = call_all-IsSaved md5 calls (load_files true disk) w loaded in h.current (h.idle z)
