-- ===== src/Doctor/JournalFile/Writes.antt =====
-- internal/doctor/doctor.go: the files on the disk, before and after `journalFile` and the write of the
-- journal.
use machokeeper.Base.{
  ℕ, ◌<◌, ◌≡◌, ◌≢◌, refl, sym, ap, ◌∙◌, String, Bool, true, false, Option, none, some, List, [],
  ◌∷◌, ◌++◌, ◌||◌, arith, inl, inr, length, Option-cases, Bool-cases, eq_string_ne, eq_string_refl,
  ◌^◌,
}
use mathlib.Core.Option.{some-ne-none}
use machokeeper.Doctor.Disk.{
  Inode, Entry, regular, irregular, Disk, System, set_name, exists, create_temp, write_inode,
}
use machokeeper.Doctor.Disk.Keeps.{IsSmall, Keeps}
use machokeeper.Doctor.Files.Repair.{IsFile}
use machokeeper.Doctor.Files.{JournalEntry}
use machokeeper.Doctor.JournalFile.{
  write_json, write_journal, JournalCalls, make_dir, remove_probe, write_opened, make_dirs,
  make_path, probe_dir, probed, made, journal_file, fill_file, write_file,
}

-- Every regular file is as before, and no file is too large.
pub record Preserves (d d' : Disk) : Type 0 where
  pub kept : (path : String) (node : Inode) → IsFile d path node → IsFile d' path node
  pub small : IsSmall d'

Preserves-same : (d : Disk) → IsSmall d → Preserves d d
Preserves-same d small = record { kept = λ path node f. f; small = small }

-- A file's name is not a new name.
pub IsFile-ne :
    (d : Disk) (path q : String) (node : Inode) → IsFile d q node → d.names path ≡ none → q ≢ path
IsFile-ne d path q node f free p = some-ne-none _ (sym f.named ∙ ap d.names p ∙ free)

Preserves-then : (a b c : Disk) → Preserves a b → Preserves b c → Preserves a c
Preserves-then a b c p q = record {
  kept = λ path node f. q.kept path node (p.kept path node f);
  small = q.small;
}

-- A change of a new name.
name-Preserves :
    (path : String) (e : Option Entry) (d : Disk)
    → IsSmall d
    → d.names path ≡ none
    → Preserves d (record d { names = set_name path e d.names })
name-Preserves path e d small free = record {
  kept = λ q node f.
      let n = IsFile-ne d path q node f free in
      record {
        inode = f.inode;
        named = ground (arith, eq_string_ne q path n, f.named);
        used = f.used;
        content = f.content;
      };
  small = small;
}

create-Preserves :
    (path : String) (d : Disk) → IsSmall d → d.names path ≡ none → Preserves d (create_temp path d)
unfolding create_temp
create-Preserves path d small free = record {
  kept = λ q node f.
      let n = IsFile-ne d path q node f free in
      record {
        inode = f.inode;
        named = ground (arith, eq_string_ne q path n, f.named);
        used = omega (arith, f.used);
        content = ground (arith, f.content, f.used);
      };
  small = λ i. ground (arith, small i);
}

module _ (calls : JournalCalls) where
  make_dir-Preserves :
      (path : String) (d : Disk) (e : Option Entry)
      → IsSmall d
      → d.names path ≡ e
      → Preserves d (make_dir calls path d e).0
  unfolding make_dir
  make_dir-Preserves path d none small free = elim (Bool-cases calls.mkdir_fails) [
    | inl fails ↦ rw fails (Preserves-same d small)
    | inr works ↦ rw works (name-Preserves path (some irregular) d small free)
  ]
  make_dir-Preserves path d (some irregular) small taken = Preserves-same d small
  make_dir-Preserves path d (some (regular i)) small taken = Preserves-same d small

  make_dirs-Preserves :
      (paths : List String) (d : Disk) → IsSmall d → Preserves d (make_dirs calls paths d).0
  unfolding make_dirs
  make_dirs-Preserves [] d small = Preserves-same d small
  make_dirs-Preserves (path ∷ paths) d small =
      let entered = make_dir calls path d (d.names path) in
      let first = make_dir-Preserves path d (d.names path) small refl in
      elim (Bool-cases entered.1) [
        | inl fails ↦ rw fails first
        | inr works ↦
            rw works
              (Preserves-then d entered.0 _ first (make_dirs-Preserves paths entered.0 first.small))
      ]

  make_path-Preserves :
      (parents : List String) (dir : String) (d : Disk) (e : Option Entry)
      → IsSmall d
      → Preserves d (make_path calls parents dir d e).0
  unfolding make_path
  make_path-Preserves parents dir d none small = make_dirs-Preserves (parents ++ (dir ∷ [])) d small
  make_path-Preserves parents dir d (some irregular) small = Preserves-same d small
  make_path-Preserves parents dir d (some (regular i)) small = Preserves-same d small

  remove_probe-Preserves :
      (d : Disk)
      → IsSmall d
      → d.names calls.probe ≡ none
      → Preserves d (remove_probe calls (create_temp calls.probe d))
  unfolding remove_probe create_temp
  remove_probe-Preserves d small free = record {
    kept = λ q node f.
        let n = IsFile-ne d calls.probe q node f free in
        record {
          inode = f.inode;
          named = ground (arith, eq_string_ne q calls.probe n, f.named);
          used = ground (arith, f.used);
          content = ground (arith, f.content, f.used);
        };
    small = λ i. ground (arith, small i);
  }

  probe_dir-Preserves : (d : Disk) → IsSmall d → Preserves d (probe_dir calls d).0
  unfolding probe_dir
  probe_dir-Preserves d small = elim (Bool-cases (calls.probe_fails || exists d calls.probe)) [
    | inl fails ↦ rw fails (Preserves-same d small)
    | inr works ↦ rw works (
        remove_probe-Preserves d small (elim (Option-cases (d.names calls.probe)) [
          | inl free ↦ free
          | inr (e, taken) ↦ absurd (ground (arith, taken))
        ]))
  ]

  made-Preserves :
      (in_dir name : String) (d : Disk) (r : Disk × Bool)
      → Preserves d r.0
      → Preserves d (made calls in_dir name r).1
  unfolding made probed
  made-Preserves in_dir name d (d', true) p = p
  made-Preserves in_dir name d (d', false) p =
      Preserves-then d d' _ p (probe_dir-Preserves d' p.small)

  pub journal_file-Preserves :
      (parents : List String) (dir seconds : String) (d : Disk)
      → IsSmall d
      → Preserves d (journal_file calls parents dir seconds d).1
  unfolding journal_file
  journal_file-Preserves parents dir seconds d small =
      made-Preserves _ _ d (make_path calls parents dir d (d.names dir))
        (make_path-Preserves parents dir d (d.names dir) small)

-- A write of the journal that succeeds, at a new name.
pub record IsWritten (path : String) (bytes : List ℕ) (d d' : Disk) : Type 0 where
  pub keeps : Keeps path d d'
  pub content : IsFile d' path (record { bytes = bytes; mode = 384 })
  pub other_names : (q : String) → q ≢ path → d'.names q ≡ d.names q

pub write_file-IsWritten :
    (sys : System) (calls : JournalCalls) (path : String) (bytes : List ℕ) (d : Disk)
    → calls.open_fails ≡ false
    → calls.write_fails ≡ false
    → d.names path ≡ none
    → length bytes < 2 ^ 62
    → IsSmall d
    → IsWritten path bytes d (write_file sys calls path bytes d)
unfolding write_file write_opened fill_file create_temp write_inode
write_file-IsWritten sys calls path bytes d opens writes free short small =
    rw (write_file, opens, free, writes)
      (record {
        keeps = record {
          kept_inodes = λ i h. ground arith;
          kept_entries = λ q e n h. ground (arith, eq_string_ne q path n);
          grows = omega arith;
          small = λ i. ground (arith, small i);
        };
        content = record {
          inode = d.next;
          named = ground (arith, eq_string_refl path);
          used = omega arith;
          content = ground arith;
        };
        other_names = λ q n. ground (arith, eq_string_ne q path n);
      })

-- Whatever becomes of the write, it leaves every regular file, at a new name.
fill_created-kept :
    (path : String) (bytes : List ℕ) (d : Disk) (q : String) (node : Inode)
    → d.names path ≡ none
    → IsFile d q node
    → IsFile (write_inode d.next bytes (create_temp path d)) q node
unfolding create_temp write_inode
fill_created-kept path bytes d q node free f =
    let n = IsFile-ne d path q node f free in
    record {
      inode = f.inode;
      named = ground (arith, eq_string_ne q path n, f.named);
      used = omega (arith, f.used);
      content = ground (arith, f.content, f.used);
    }

module _ (sys : System) (calls : JournalCalls) (path : String) (d : Disk) (q : String)
    (node : Inode) (free : d.names path ≡ none) (f : IsFile d q node) where
  write_file-kept : (bytes : List ℕ) → IsFile (write_file sys calls path bytes d) q node
  unfolding write_file write_opened fill_file
  write_file-kept bytes = elim (Bool-cases calls.open_fails) [
    | inl fails ↦ rw (write_file, fails) f
    | inr opens ↦ rw (write_file, opens, free) (fill_created-kept path _ d q node free f)
  ]

  pub write_journal-kept :
      (encode : List JournalEntry → Option (List ℕ)) (journal : List JournalEntry)
      → IsFile (write_journal sys calls encode path journal d) q node
  unfolding write_journal write_json
  write_journal-kept encode [] = f
  write_journal-kept encode (e ∷ journal) = elim (Option-cases (encode (e ∷ journal))) [
    | inl none_made ↦ rw none_made f
    | inr (bytes, encoded) ↦ rw encoded (write_file-kept bytes)
  ]
