-- ===== src/Doctor/Disk.antt =====
-- internal/doctor/doctor.go: `replaceFile`, on a file system of names and inodes.
pub mod Replace
pub mod Keeps
use machokeeper.Base.{
  take, ℕ, suc, ◌==◌, String, Bool, true, false, Option, none, some, List, [], if◌then◌else◌, ◌||◌,
  eq_string, ◌≡◌,
}

pub record Inode : Type 0 where
  pub bytes : List ℕ
  pub mode : ℕ

-- A directory entry names an inode of a regular file, or is a link, a directory or a device.
pub data Entry : Type 0 where
  regular : ℕ → Entry
  irregular : Entry

-- `next` is the first inode that was never used.
pub record Disk : Type 0 where
  pub names : String → Option Entry
  pub inodes : ℕ → Inode
  pub next : ℕ

-- How the system follows a path: a regular file's name leads to its inode.
pub record System : Type 0 where
  pub follow : Disk → String → Option ℕ
  pub follow-regular :
      (d : Disk) (path : String) (inode : ℕ)
      → d.names path ≡ some (regular inode)
      → follow d path ≡ some inode

-- The calls of a repair or an undo of one file that fail, how many bytes a failed write has
-- written, and the name for a temporary file that `os.CreateTemp` tries last.
pub record Calls : Type 0 where
  pub lstat_fails : Bool
  pub read_fails : Bool
  pub stat_fails : Bool
  pub create_fails : Bool
  pub write_fails : Bool
  pub written : ℕ
  pub close_fails : Bool
  pub chmod_fails : Bool
  pub rename_fails : Bool
  pub remove_fails : Bool
  pub temp : String

pub data Failure : Type 0 where
  stat create write close chmod rename : Failure

abbrev pub set_name : String → Option Entry → (String → Option Entry) → String → Option Entry
set_name path e names q = if eq_string q path then e else names q

abbrev pub set_inode : ℕ → Inode → (ℕ → Inode) → ℕ → Inode
set_inode i node inodes j = if j == i then node else inodes j

-- `os.ReadFile`
unfoldable pub read_file : System → Calls → Disk → String → Option (List ℕ)
read_file sys calls d path =
    if calls.read_fails
    then none
    else elim (sys.follow d path) [ none ↦ none | some i ↦ some (d.inodes i).bytes ]

-- Whether a name is taken.
abbrev pub exists : Disk → String → Bool
exists d path = elim (d.names path) [ none ↦ false | some e ↦ true ]

-- `os.CreateTemp`, which fails where the name exists: a new, empty inode of mode 0600.
unfoldable pub create_temp : String → Disk → Disk
create_temp temp d = record {
  names = set_name temp (some (regular d.next)) d.names;
  inodes = set_inode d.next (record { bytes = []; mode = 384 }) d.inodes;
  next = suc d.next;
}

-- A write to the inode of the temporary file, and a change of its mode.
unfoldable pub write_inode : ℕ → List ℕ → Disk → Disk
write_inode i bytes d = record d {
  inodes = set_inode i (record { bytes = bytes; mode = (d.inodes i).mode }) d.inodes;
}

unfoldable pub chmod_inode : ℕ → ℕ → Disk → Disk
chmod_inode i mode d = record d {
  inodes = set_inode i (record { bytes = (d.inodes i).bytes; mode = mode }) d.inodes;
}

-- `os.Rename`
unfoldable pub rename_file : String → String → Disk → Disk
rename_file from to d = record d { names = set_name from none (set_name to (d.names from) d.names) }

-- `os.Remove` of the temporary file. It fails where there is none.
unfoldable pub remove_temp : Calls → Disk → Disk
remove_temp calls d =
    if calls.remove_fails then d else record d { names = set_name calls.temp none d.names }

-- `replaceFile` from the write on: `i` is the temporary file's inode.
unfoldable pub fill_temp : Calls → String → List ℕ → ℕ → ℕ → Disk → Disk × Option Failure
fill_temp calls path bytes mode i d =
    if calls.write_fails
    then (write_inode i (take calls.written bytes) d, some write)
    else let whole = write_inode i bytes d in
      if calls.close_fails
      then (whole, some close)
      else if calls.chmod_fails
      then (whole, some chmod)
      else let ready = chmod_inode i mode whole in
        if calls.rename_fails
        then (ready, some rename)
        else (rename_file calls.temp path ready, none)

-- `replaceFile`, its deferred `os.Remove` last.
unfoldable pub replace_file : System → Calls → String → List ℕ → Disk → Disk × Option Failure
replace_file sys calls path bytes d =
    if calls.stat_fails then (d, some stat) else elim (sys.follow d path) [
      | none ↦ (d, some stat)
      | some old ↦
          if calls.create_fails || exists d calls.temp
          then (d, some create)
          else let (filled, failed) =
              fill_temp calls path bytes (d.inodes old).mode d.next (create_temp calls.temp d) in
            (remove_temp calls filled, failed)
    ]
