-- ===== src/Doctor/Run/Entries.antt =====
-- internal/doctor/doctor.go: the entries of a journal, between the disk before a run and a later one.
use machokeeper.Base.{
  ℕ, ◌≡◌, refl, String, Bool, true, false, ◌||◌, some, List, [], ◌∷◌, ◌++◌, arith, inl, inr,
  Bool-cases, eq_string, eq_string_iff,
}
use machokeeper.Engine.Defs.{Hashes}
use machokeeper.Engine.Verify.Check.{IsFileValid}
use machokeeper.Doctor.Undo.{restored, restore}
use machokeeper.Doctor.Disk.{Inode, Disk}
use machokeeper.Doctor.Disk.Keeps.{Keeps}
use machokeeper.Doctor.Files.{JournalEntry}
use machokeeper.Doctor.Files.Repair.{IsFile}
use machokeeper.Doctor.Files.Others.{IsFile-Keeps}

-- Whether an entry of a journal names a file.
abbrev pub named : List JournalEntry → String → Bool
named [] path = false
named (e ∷ es) path = eq_string e.file path || named es path

abbrev pub IsDistinct : List JournalEntry → Type 0
IsDistinct [] = Unit
IsDistinct (e ∷ es) = (named es e.file ≡ false) × IsDistinct es

-- The entry's file was regular on the first disk; on the second it has its mode and bytes that are
-- valid, and the entry undoes them to the bytes of the first.
pub record IsEntry (hashes : Hashes) (before after : Disk) (e : JournalEntry) : Type 0 where
  pub node : Inode
  pub was : IsFile before e.file node
  pub bytes : List ℕ
  pub there : IsFile after e.file (record { bytes = bytes; mode = node.mode })
  pub valid : IsFileValid hashes bytes
  pub undoes : restore e.changes bytes ≡ some (restored node.bytes false)

abbrev pub AllEntries : Hashes → Disk → Disk → List JournalEntry → Type 0
AllEntries hashes before after [] = Unit
AllEntries hashes before after (e ∷ es) =
    IsEntry hashes before after e × AllEntries hashes before after es

pub named-append :
    (es : List JournalEntry) (e : JournalEntry) (path : String)
    → named (es ++ (e ∷ [])) path ≡ (named es path || eq_string e.file path)
named-append [] e path = ground arith
named-append (x ∷ es) e path = ground (arith, named-append es e path)

pub IsDistinct-append :
    (es : List JournalEntry) (e : JournalEntry)
    → named es e.file ≡ false
    → IsDistinct es
    → IsDistinct (es ++ (e ∷ []))
IsDistinct-append [] e n h = (refl, tt)
IsDistinct-append (x ∷ es) e n (first, rest) = (
  ground
      (arith, named-append es e x.file, eq_string_iff e.file x.file, eq_string_iff x.file e.file),
  IsDistinct-append es e (ground arith) rest,
)

module _ (hashes : Hashes) (before : Disk) where
  pub AllEntries-append :
      (d : Disk) (es : List JournalEntry) (e : JournalEntry)
      → AllEntries hashes before d es
      → IsEntry hashes before d e
      → AllEntries hashes before d (es ++ (e ∷ []))
  AllEntries-append d [] e a h = (h, tt)
  AllEntries-append d (x ∷ es) e (b, a) h = (b, AllEntries-append d es e a h)

  -- The entry that names a file.
  pub AllEntries-named :
      (d : Disk) (es : List JournalEntry) (path : String)
      → named es path ≡ true
      → AllEntries hashes before d es
      → (e : JournalEntry) × (e.file ≡ path) × IsEntry hashes before d e
  AllEntries-named d [] path n a = absurd (ground arith)
  AllEntries-named d (x ∷ es) path n (h, a) = elim (Bool-cases (eq_string x.file path)) [
    | inl e ↦ (x, (eq_string_iff x.file path).0 e, h)
    | inr e ↦ AllEntries-named d es path (ground arith) a
  ]

  -- A change of another file.
  pub AllEntries-Keeps :
      (path : String) (d d' : Disk) (es : List JournalEntry)
      → named es path ≡ false
      → Keeps path d d'
      → AllEntries hashes before d es
      → AllEntries hashes before d' es
  AllEntries-Keeps path d d' [] n k a = tt
  AllEntries-Keeps path d d' (e ∷ es) n k (h, a) = (
    record {
      node = h.node;
      was = h.was;
      bytes = h.bytes;
      there =
          IsFile-Keeps e.file path d d' _
            (λ p. absurd (ground (arith, (eq_string_iff e.file path).1 p))) k h.there;
      valid = h.valid;
      undoes = h.undoes;
    },
    AllEntries-Keeps path d d' es (ground arith) k a,
  )
