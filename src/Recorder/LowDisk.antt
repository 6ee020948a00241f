-- ===== src/Recorder/LowDisk.antt =====
-- internal/services/recorder/lowdisk.go, with isInsufficientDiskSpace of start_internal.go. A name, a stamp
-- and a path are numbers in the order of the texts. What a directory holds, which files are being written,
-- which removals succeed, and the free bytes of the disk are arguments; `sort.SliceStable` is one too.
pub mod Oldest
use bilirec.Prelude.{
  ℕ, suc, ◌+◌, ◌-◌, Bool, true, false, ◌&&◌, ◌||◌, not, Option, none, some, List, [], ◌∷◌, ◌++◌,
  if◌then◌else◌, ltb, leb, ◌==◌,
}

pub record RecordingFile : Type 0 where
  pub path : ℕ
  pub stamp : ℕ
  pub segment : ℕ
  pub size : ℕ

unfoldable pub is_insufficient_disk_space : ℕ → ℕ → Bool
is_insufficient_disk_space free minimum = if minimum == 0 then false else ltb free minimum

unfoldable pub recording_filename_older : RecordingFile → RecordingFile → Bool
recording_filename_older a b =
    if not (a.stamp == b.stamp)
    then ltb a.stamp b.stamp
    else if not (a.segment == b.segment)
    then ltb a.segment b.segment
    else ltb a.path b.path

-- A directory entry: `path` is its name behind the directory, `parsed` what `ParseRecordingSegmentFilename`
-- makes of its name, `info` the size if `Info` works.
pub record DirEntry : Type 0 where
  pub is_dir : Bool
  pub name : ℕ
  pub path : ℕ
  pub parsed : Option (ℕ × ℕ)
  pub info : Option ℕ

unfoldable pub file_of_parsed : DirEntry → Option (ℕ × ℕ) → Option ℕ → List RecordingFile
file_of_parsed e none info = []
file_of_parsed e (some (stamp, segment)) none = []
file_of_parsed e (some (stamp, segment)) (some size) =
    record { path = e.path; stamp = stamp; segment = segment; size = size } ∷ []

unfoldable pub file_of_entry : (ℕ → Bool) → DirEntry → List RecordingFile
unfolding file_of_parsed
file_of_entry protected e =
    if e.is_dir || protected e.name then [] else file_of_parsed e e.parsed e.info

unfoldable pub files_of_entries : (ℕ → Bool) → List DirEntry → List RecordingFile
unfolding file_of_entry
files_of_entries protected [] = []
files_of_entries protected (e ∷ es) = file_of_entry protected e ++ files_of_entries protected es

-- `listDeletableRecordings`, with the entries of all directories of the room, and the sort.
unfoldable pub list_deletable_recordings :
    (List RecordingFile → List RecordingFile) → (ℕ → Bool) → List DirEntry → List RecordingFile
unfolding files_of_entries
list_deletable_recordings sort_stable protected es = sort_stable (files_of_entries protected es)

-- The bytes that were freed, and the files that were deleted, whose number is the source's `deleted`.
pub record Freed : Type 0 where
  pub freed : ℕ
  pub deleted : List RecordingFile

-- `writing` and `removes`: is the file written at that time, and does `os.Remove` succeed?
module _ (writing removes : RecordingFile → Bool) where
  unfoldable pub delete_loop : ℕ → List RecordingFile → Freed → Freed
  delete_loop need [] r = r
  delete_loop need (f ∷ files) r =
      let next : Freed =
        if writing f || not (removes f)
        then r
        else (record { freed = r.freed + f.size; deleted = r.deleted ++ (f ∷ []) }) in
      let rest = delete_loop need files next in if leb need r.freed then r else rest

  -- `deleteUntil`
  unfoldable pub delete_until : List RecordingFile → ℕ → Freed
  unfolding delete_loop
  delete_until files need = delete_loop need files (record { freed = 0; deleted = [] })

pub data DiskResult : Type 0 where
  enough_space : DiskResult
  insufficient_disk_space : DiskResult

-- The last test of `ensureDiskSpace`, from the free bytes or an error.
unfoldable pub check_space : ℕ → Option ℕ → DiskResult
unfolding is_insufficient_disk_space
check_space minimum none = enough_space
check_space minimum (some free) =
    if is_insufficient_disk_space free minimum then insufficient_disk_space else enough_space

-- What a pass meets: the free bytes, the files it lists, and how they behave.
pub record Pass : Type 0 where
  pub free : Option ℕ
  pub files : List RecordingFile
  pub writing : RecordingFile → Bool
  pub removes : RecordingFile → Bool

-- The end of a pass: nothing was deleted, enough was, or there is another pass.
unfoldable pub after_delete : DiskResult → ℕ → Option ℕ → ℕ → ℕ → List RecordingFile → DiskResult
unfolding check_space
after_delete more minimum last need freed [] = insufficient_disk_space
after_delete more minimum last need freed (f ∷ deleted) =
    if leb need freed then check_space minimum last else more

unfoldable pub run_pass : DiskResult → ℕ → Bool → Option ℕ → Pass → Option ℕ → DiskResult
unfolding after_delete is_insufficient_disk_space delete_until
run_pass more minimum may_delete last p none = enough_space
run_pass more minimum may_delete last p (some free) =
    let need = minimum - free in
    let r = delete_until p.writing p.removes p.files need in
    if not (is_insufficient_disk_space free minimum)
    then enough_space
    else if not may_delete
    then insufficient_disk_space
    else after_delete more minimum last need r.freed r.deleted

unfoldable pub run_passes : ℕ → Bool → Option ℕ → List Pass → DiskResult
unfolding run_pass check_space
run_passes minimum may_delete last [] = check_space minimum last
run_passes minimum may_delete last (p ∷ passes) =
    run_pass (run_passes minimum may_delete last passes) minimum may_delete last p p.free

-- `ensureDiskSpace`: two passes, and the free bytes behind them.
unfoldable pub ensure_disk_space : ℕ → Bool → Pass → Pass → Option ℕ → DiskResult
unfolding run_passes
ensure_disk_space minimum may_delete first second last =
    if minimum == 0 then enough_space else run_passes minimum may_delete last (first ∷ second ∷ [])
