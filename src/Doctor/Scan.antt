-- ===== src/Doctor/Scan.antt =====
-- internal/doctor/doctor.go: `scanFile` and `readForScan`, on what the system calls return.
pub mod Trial
pub mod Finds
pub mod Named
use machokeeper.Base.{
  ℕ, String, Bool, true, false, not, Option, none, some, List, [], ltb, ◌==◌, if◌then◌else◌, ◌>>=◌,
}
use machokeeper.Engine.Defs.{Kind, unsigned, ad_hoc, cms, kind_string, Hashes}
use machokeeper.Engine.Read.{has_macho_magic}
use machokeeper.Engine.Walk.{detect, check}
use machokeeper.Doctor.Plan.{trial_repair}

-- `Finding`
pub record Finding : Type 0 where
  pub file : String
  pub kind : Kind
  pub class : String
  pub repairable : Bool

-- What the system answers for one path: whether it opens, its first four bytes if it has them, its
-- size, its bytes if it can be mapped, and its bytes if it can be read.
pub record Opened : Type 0 where
  pub opens : Bool
  pub peek : Option (List ℕ)
  pub size : Option ℕ
  pub mapped : Option (List ℕ)
  pub read : Option (List ℕ)

-- The bounds on a file's size, and the text that names a size beyond them.
pub record Bounds : Type 0 where
  pub max_file_size : ℕ
  pub max_in_memory_size : ℕ
  pub oversized_class : ℕ → String

-- What `readForScan` returns: bytes, `errTooLargeToLoad` or another error.
pub data Loaded : Type 0 where
  loaded : List ℕ → Loaded
  too_large unreadable : Loaded

-- A read into the heap.
unfoldable pub heap_read : Option (List ℕ) → Loaded
heap_read none = unreadable
heap_read (some contents) = loaded contents

-- `readForScan`
unfoldable pub read_for_scan : Bounds → Opened → ℕ → Loaded
read_for_scan bounds f size = if size == 0 then loaded [] else elim f.mapped [
  | some contents ↦ loaded contents
  | none ↦ if ltb bounds.max_in_memory_size size then too_large else heap_read f.read
]

-- `oversizedFinding`
unfoldable pub oversized_finding : Bounds → String → ℕ → Finding
oversized_finding bounds path size = record {
  file = path;
  kind = unsigned;
  class = bounds.oversized_class size;
  repairable = false;
}

unfoldable pub is_ad_hoc : Kind → Bool
is_ad_hoc ad_hoc = true
is_ad_hoc _ = false

unfoldable pub class_of : Kind → Bool → String
class_of ad_hoc false = "ad-hoc (unverifiable)"
class_of kind repairable = kind_string kind

module _ (hashes : Hashes) where
  -- The finding for a stale file.
  unfoldable pub report : List ℕ → String → Kind → Option Finding
  report contents path kind = do
    repairable ← if is_ad_hoc kind then trial_repair hashes contents path else some false
    some (record {
      file = path;
      kind = kind;
      class = class_of kind repairable;
      repairable = repairable;
    })

  -- The part of `scanFile` for a signed file.
  unfoldable pub inspect_signed : List ℕ → String → Kind → Option (Option Finding)
  inspect_signed contents path kind = do
    stale ← check hashes contents path
    if not stale then some none else do found ← report contents path kind; some (some found)

  -- `scanFile` behind the load.
  unfoldable pub inspect : List ℕ → String → Option (Option Finding)
  inspect contents path = do
    kind ← detect contents
    elim kind [ unsigned ↦ some none | k ↦ inspect_signed contents path k ]

  unfoldable pub scan_loaded : Bounds → Loaded → String → ℕ → Option (Option Finding)
  scan_loaded bounds (loaded contents) path size = inspect contents path
  scan_loaded bounds too_large path size = some (some (oversized_finding bounds path size))
  scan_loaded bounds unreadable path size = some none

  -- `scanFile` behind the test of the magic.
  unfoldable pub scan_sized : Bounds → Opened → String → Option (Option Finding)
  scan_sized bounds f path = elim f.size [
    | none ↦ some none
    | some size ↦
        if ltb bounds.max_file_size size
        then some (some (oversized_finding bounds path size))
        else scan_loaded bounds (read_for_scan bounds f size) path size
  ]

  -- `scanFile`
  unfoldable pub scan_file : Bounds → Opened → String → Option (Option Finding)
  scan_file bounds f path = if not f.opens then some none else elim f.peek [
    | none ↦ some none
    | some prefix ↦ do
      magic ← has_macho_magic prefix
      if not magic then some none else scan_sized bounds f path
  ]
