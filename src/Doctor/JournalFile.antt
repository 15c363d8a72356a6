-- ===== src/Doctor/JournalFile.antt =====
-- internal/doctor/doctor.go: the undo journal's file: `journalFile`, and the end of `Run`, which writes
-- it. The journal's JSON is a parameter, a list of bytes if it can be made.
pub mod Writes
use Prim.Native.String.{String}
use machokeeper.Base.{
  ℕ, suc, Bool, true, false, ◌||◌, Option, none, some, List, [], ◌∷◌, if◌then◌else◌, take, ◌++◌,
}
use machokeeper.Doctor.Disk.{
  Inode, Entry, regular, irregular, Disk, System, set_name, set_inode, exists, create_temp,
  write_inode,
}
use machokeeper.Doctor.Files.{JournalEntry}

-- The calls that fail, how many bytes a failed write has written, and the name that `os.CreateTemp`
-- tries last.
pub record JournalCalls : Type 0 where
  pub mkdir_fails : Bool
  pub probe_fails : Bool
  pub remove_fails : Bool
  pub open_fails : Bool
  pub write_fails : Bool
  pub written : ℕ
  pub probe : String

unfoldable pub join_text : String → String → String
join_text String.[] t = t
join_text (String.◌∷◌ c s) t = String.◌∷◌ c (join_text s t)

-- The name for the time, in seconds.
unfoldable pub journal_name : String → String
journal_name seconds = join_text "machokeeper-undo-" (join_text seconds ".json")

-- One directory of `os.MkdirAll`, with its entry: the disk after, and whether it failed. A name that is
-- taken, and not by a regular file, is taken for a directory.
unfoldable pub make_dir : JournalCalls → String → Disk → Option Entry → Disk × Bool
make_dir calls path d none =
    if calls.mkdir_fails
    then (d, true)
    else (record d { names = set_name path (some irregular) d.names }, false)
make_dir calls path d (some irregular) = (d, false)
make_dir calls path d (some (regular i)) = (d, true)

-- The directories that `os.MkdirAll` makes: a directory's parents and itself.
unfoldable pub make_dirs : JournalCalls → List String → Disk → Disk × Bool
make_dirs calls [] d = (d, false)
make_dirs calls (path ∷ paths) d =
    let (d', failed) = make_dir calls path d (d.names path) in
    let rest = make_dirs calls paths d' in if failed then (d', true) else rest

-- `os.MkdirAll`: nothing is to be made where the directory is there.
unfoldable pub make_path : JournalCalls → List String → String → Disk → Option Entry → Disk × Bool
make_path calls parents dir d (some irregular) = (d, false)
make_path calls parents dir d (some (regular i)) = (d, true)
make_path calls parents dir d none = make_dirs calls (parents ++ (dir ∷ [])) d

-- `os.Remove` of the probe.
unfoldable pub remove_probe : JournalCalls → Disk → Disk
remove_probe calls d =
    if calls.remove_fails then d else record d { names = set_name calls.probe none d.names }

-- The probe of the directory: `os.CreateTemp`, and `os.Remove`, whose failure is dropped.
unfoldable pub probe_dir : JournalCalls → Disk → Disk × Bool
probe_dir calls d =
    if calls.probe_fails || exists d calls.probe
    then (d, true)
    else (remove_probe calls (create_temp calls.probe d), false)

unfoldable pub probed : String → String → Disk × Bool → String × Disk
probed in_dir name (d, failed) = (if failed then name else in_dir, d)

unfoldable pub made : JournalCalls → String → String → Disk × Bool → String × Disk
made calls in_dir name (d, true) = (name, d)
made calls in_dir name (d, false) = probed in_dir name (probe_dir calls d)

-- `journalFile`: the path, and the disk after the probe. `parents` are those of `journalDir`.
unfoldable pub journal_file : JournalCalls → List String → String → String → Disk → String × Disk
journal_file calls parents dir seconds d =
    let name = journal_name seconds in
    made calls (join_text dir (join_text "/" name)) name
      (make_path calls parents dir d (d.names dir))

-- `os.WriteFile` with the mode 0600: a new file, or the one that the name leads to, which is cut to
-- nothing before the write. A link that leads nowhere counts as a failed open.
unfoldable pub fill_file : JournalCalls → List ℕ → ℕ → Disk → Disk
fill_file calls bytes i d =
    write_inode i (if calls.write_fails then take calls.written bytes else bytes) d

unfoldable pub write_opened : JournalCalls → String → List ℕ → Disk → Option Entry → Option ℕ → Disk
write_opened calls path bytes d none to = fill_file calls bytes d.next (create_temp path d)
write_opened calls path bytes d (some entry) none = d
write_opened calls path bytes d (some entry) (some i) = fill_file calls bytes i d

unfoldable pub write_file : System → JournalCalls → String → List ℕ → Disk → Disk
write_file sys calls path bytes d =
    if calls.open_fails
    then d
    else write_opened calls path bytes d (d.names path) (sys.follow d path)

-- The end of `Run`, on the journal and its JSON.
unfoldable pub write_json : System → JournalCalls → String → Option (List ℕ) → Disk → Disk
write_json sys calls path none d = d
write_json sys calls path (some bytes) d = write_file sys calls path bytes d

unfoldable pub write_journal :
    System
    → JournalCalls
    → (List JournalEntry → Option (List ℕ))
    → String
    → List JournalEntry
    → Disk
    → Disk
write_journal sys calls encode path [] d = d
write_journal sys calls encode path (e ∷ journal) d =
    write_json sys calls path (encode (e ∷ journal)) d
