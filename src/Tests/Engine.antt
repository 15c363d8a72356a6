-- ===== src/Tests/Engine.antt =====
-- Runs of engine/engine.go at concrete files.
use machokeeper.Base.{
  ℕ, ◌≡◌, refl, Bool, true, false, Option, none, some, List, copy, copy_at, String,
}
use machokeeper.Engine.Defs.{Kind, ad_hoc, cms, Error, cms_repair}
use machokeeper.Engine.Read.{le32, be32, be64, rd_le32, rd_be32, rd_be64, rd_byte, rd_slice}
use machokeeper.Engine.Signature.{
  read_location, find_loop, header_size_of, find_commands, find_signature, entry_is_cms, cms_loop,
  has_non_empty_cms, super_blob_count, detect_slice, slice_carries_cms,
}
use machokeeper.Engine.Container.{
  valid_slice_bounds, format, thin, rd_arch, visit_arch, walk_archs, walk_fat, walk_container,
}
use machokeeper.Engine.Fixup.{
  bytes_equal, page_end, page_start, rewrite_slot, fixup_slot, fixup_slots, rd_code_directory,
  malformed, hash_of, fixup_pages, fixup_directory, fixup_entry, fixup_entries, conclude,
  fixup_signature, fixup_slice,
}
use machokeeper.Engine.Walk.{
  Walked, detect_visit, detect, cms_visit, any_cms, fixup_visit, walk_fixup, walk, check, repair,
}
use machokeeper.Engine.Verify.Check.{IsFileValid, check-IsFileValid}
use mathlib.Core.Option.{some-injective}
use machokeeper.Base.{sym, ◌∙◌, arith}
use machokeeper.Tests.Fixtures.{toy, broken, sound, cms_file, fat_file, overlapping}

-- The engine, opened for evaluation.
unfoldable pub run_detect : List ℕ → Option Kind
unfolding detect detect_visit walk_container format visit_arch walk_archs walk_fat rd_arch
    valid_slice_bounds detect_slice find_signature find_commands find_loop header_size_of
    read_location super_blob_count has_non_empty_cms cms_loop entry_is_cms rd_le32 rd_be32 rd_be64
    le32 be32 be64
run_detect = detect

unfoldable pub run_repair : List ℕ → String → Option (Walked × Option Error)
unfolding run_detect repair check walk walk_fixup fixup_visit any_cms cms_visit slice_carries_cms
    fixup_slice fixup_signature fixup_entries fixup_entry fixup_directory fixup_pages hash_of
    malformed rd_code_directory fixup_slots fixup_slot rewrite_slot page_start page_end bytes_equal
    conclude rd_byte rd_slice copy_at copy
run_repair = repair toy

pub thin_broken : format (le32 broken 0) (be32 broken 0) ≡ thin
unfolding format le32 be32
thin_broken = refl

pub detect-broken : detect broken ≡ some ad_hoc
unfolding run_detect
detect-broken = refl

pub detect_cms : detect cms_file ≡ some cms
unfolding run_detect
detect_cms = refl

detect_fat : detect fat_file ≡ some ad_hoc
unfolding run_detect
detect_fat = refl

check-broken : check toy broken "f" ≡ some true
unfolding run_repair
check-broken = refl

check_sound : check toy sound "f" ≡ some false
unfolding run_repair
check_sound = refl

check_fat : check toy fat_file "f" ≡ some true
unfolding run_repair
check_fat = refl

-- A repair of `broken` rewrites both slots and gives `sound`.
repaired : Option (Walked × Option Error) → Option (List ℕ × Bool)
repaired none = none
repaired (some (w, failed)) = some (w.buffer.bytes, w.modified)

repair-broken : repaired (repair toy broken "f") ≡ some (sound, true)
unfolding run_repair repaired
repair-broken = refl

-- No slice of `overlapping` carries a CMS signature before the repair; the repair of the first slice
-- makes one in the second, and returns the error after it has written.
overlapping_before : detect overlapping ≡ some ad_hoc
unfolding run_detect
overlapping_before = refl

outcome : Option (Walked × Option Error) → Option (Bool × Option Error)
outcome none = none
outcome (some (w, failed)) = some (w.modified, failed)

overlapping-repair : outcome (repair toy overlapping "f") ≡ some (true, some (cms_repair "f"))
unfolding run_repair outcome
overlapping-repair = refl

pub sound-IsFileValid : IsFileValid toy sound
sound-IsFileValid =
    let (stale, e, valid) = check-IsFileValid toy sound (omega arith) "f" in
    valid.0 (some-injective _ _ (sym e ∙ check_sound))
