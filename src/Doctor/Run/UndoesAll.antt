-- ===== src/Doctor/Run/UndoesAll.antt =====
-- internal/doctor/doctor.go: `Undo` on the journal of a run, entry by entry.
use machokeeper.Base.{
  ◌≡◌, ◌⊎◌, refl, sym, ap, ◌∙◌, String, Bool, true, false, none, List, [], ◌∷◌, arith, inl, inr,
  Bool-cases, Returns, Returns-bind, Returns-both, eq_string, eq_string_iff,
}
use mathlib.Core.Path.{subst}
use machokeeper.Engine.Defs.{Hashes}
use machokeeper.Doctor.Disk.{Inode, Disk, System, Calls}
use machokeeper.Doctor.Disk.Keeps.{IsSmall, Keeps}
use machokeeper.Doctor.Files.{JournalEntry, UndoResult, undone, undo_file, exit_code, undo_all}
use machokeeper.Doctor.Files.Repair.{IsFile}
use machokeeper.Doctor.Files.Undo.{IsSmooth, undo_file-no_leftover}
use machokeeper.Doctor.Files.Others.{IsFile-Keeps}
use machokeeper.Doctor.Files.Journal.{undo_file-Keeps}
use machokeeper.Doctor.Run.Entries.{named, IsDistinct, IsEntry, AllEntries, AllEntries-Keeps}

-- No call fails, as long as the name for temporary files is new.
pub record IsSteady (temp : String) (calls : String → Disk → Calls) : Type 0 where
  pub smooth : (path : String) (d : Disk) → d.names temp ≡ none → IsSmooth (calls path d) d
  pub removes : (path : String) (d : Disk) → (calls path d).remove_fails ≡ false
  pub temp_is : (path : String) (d : Disk) → (calls path d).temp ≡ temp

IsFile-unique : (d : Disk) (path : String) (n m : Inode) → IsFile d path n → IsFile d path m → n ≡ m
IsFile-unique d path n m f g =
    let same : f.inode ≡ g.inode = ground (arith, f.named, g.named) in
    sym f.content ∙ ap d.inodes same ∙ g.content

module _ (hashes : Hashes) (before : Disk) (sys : System) (temp : String)
    (calls : String → Disk → Calls) (steady : IsSteady temp calls) where
  -- The undo of one entry.
  record IsBack (e : JournalEntry) (h : Inode) (d : Disk) (u : Disk × UndoResult) : Type 0 where
    reported : u.1 ≡ undone false
    there : IsFile u.0 e.file h
    no_temp : (u.0).names temp ≡ none
    kept : Keeps e.file d u.0

  undo_file-IsBack :
      (e : JournalEntry) (d : Disk) (h : IsEntry hashes before d e)
      → IsSmall d
      → d.names temp ≡ none
      → Returns (IsBack e h.node d) (undo_file sys (calls e.file d) e d)
  undo_file-IsBack e d h small free =
      let c = calls e.file d in
      let (u, returns, (((reported, there), same), kept)) =
        Returns-both _ (λ (u : Disk × UndoResult). Keeps e.file d u.0) _
          (undo_file-no_leftover sys c e.file d (record { bytes = h.bytes; mode = h.node.mode })
            e.changes h.node.bytes h.there (steady.smooth e.file d free) h.undoes
            (steady.removes e.file d))
          (undo_file-Keeps sys c e d small) in
      (
        u,
        returns,
        record {
          reported = reported;
          there = there;
          no_temp =
              subst (λ (t : String). (u.0).names t ≡ d.names t) (steady.temp_is e.file d) same
              ∙ free;
          kept = kept;
        },
      )

  -- Where the journal names a file, or the disk has it as before, the undo leaves it as before.
  abbrev pub IsRestored : List JournalEntry → Disk → Disk × Bool → Type 0
  IsRestored es d r =
      (r.1 ≡ false)
      × ((path : String) (node : Inode)
          → IsFile before path node
          → (named es path ≡ true) ⊎ IsFile d path node
          → IsFile r.0 path node)

  restored_by_none :
      (d : Disk) (path : String) (node : Inode)
      → IsFile before path node
      → (named [] path ≡ true) ⊎ IsFile d path node
      → IsFile d path node
  restored_by_none d path node was (inl n) = absurd (ground arith)
  restored_by_none d path node was (inr f) = f

  -- After the undo of the first entry.
  still :
      (e : JournalEntry) (rest : List JournalEntry) (d : Disk) (h : IsEntry hashes before d e)
      (u : Disk × UndoResult)
      → IsBack e h.node d u
      → (path : String) (node : Inode) → IsFile before path node
      → (named (e ∷ rest) path ≡ true) ⊎ IsFile d path node
      → (named rest path ≡ true) ⊎ IsFile u.0 path node
  still e rest d h u b path node was known = elim (Bool-cases (eq_string e.file path)) [
    | inl s ↦
        let same : e.file ≡ path = (eq_string_iff e.file path).0 s in
        inr (
          subst (λ (n : Inode). IsFile u.0 path n)
            (IsFile-unique before path h.node node
              (subst (λ (p : String). IsFile before p h.node) same h.was) was)
            (subst (λ (p : String). IsFile u.0 p h.node) same b.there))
    | inr s ↦ elim known [
      | inl n ↦ inl (ground arith)
      | inr f ↦ inr (
          IsFile-Keeps path e.file d u.0 node
            (λ p. absurd (ground (arith, (eq_string_iff e.file path).1 (sym p)))) b.kept f)
    ]
  ]

  pub undo_all-IsRestored :
      (es : List JournalEntry) (d : Disk)
      → AllEntries hashes before d es
      → IsDistinct es
      → IsSmall d
      → d.names temp ≡ none
      → Returns (IsRestored es d) (undo_all sys calls es false d)
  unfolding undo_all exit_code
  undo_all-IsRestored [] d a x small free = (_, refl, (refl, restored_by_none d))
  undo_all-IsRestored (e ∷ rest) d (h, a) (new, x) small free =
      Returns-bind (IsBack e h.node d) (IsRestored (e ∷ rest) d) _ _
        (undo_file-IsBack e d h small free)
        λ (d', result) b.
          let (r, returns, (ok, back)) =
            undo_all-IsRestored rest d'
              (AllEntries-Keeps hashes before e.file d d' rest new b.kept a) x b.kept.small
              b.no_temp in
          (
            r,
            rw b.reported returns,
            (
              ok,
              λ path node was known.
                  back path node was (still e rest d h (d', result) b path node was known),
            ),
          )
