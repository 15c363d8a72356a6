-- ===== src/Doctor/Run/Consent.antt =====
-- internal/doctor/doctor.go: the tests of `Run` before it repairs a store path.
use machokeeper.Base.{
  ◌≡◌, ◌≢◌, ◌⊎◌, ◌↔◌, refl, String, Bool, true, false, Option, none, some, List, [], ◌∷◌, arith,
  inl, inr,
}
use machokeeper.Engine.Defs.{Hashes}
use machokeeper.Doctor.Disk.{Disk, System, Calls}
use machokeeper.Doctor.Run.{
  Group, Store, Decision, proceed, undetermined, content_addressed, unknown_blockers, in_use,
  blocked, consent, RunState, decide, repair_decided, repair_group,
}

consent_iff :
    (fix_live : Bool) (ca : Option Bool) (found : Option (List String))
    → (consent fix_live ca found ≡ proceed)
      ↔ ((ca ≡ some false) × ((fix_live ≡ true) ⊎ (found ≡ some [])))
unfolding consent blocked
consent_iff fix_live none found = (λ h. absurd (ground arith), λ h. absurd (ground arith))
consent_iff fix_live (some true) found = (λ h. absurd (ground arith), λ h. absurd (ground arith))
consent_iff true (some false) found = (λ h. (refl, inl refl), λ h. refl)
consent_iff false (some false) none = (λ h. absurd (ground arith), λ h. absurd (ground arith))
consent_iff false (some false) (some []) = (λ h. (refl, inr refl), λ h. refl)
consent_iff false (some false) (some (b ∷ bs)) =
    (λ h. absurd (ground arith), λ h. absurd (ground arith))

module _ {S : Type 0} (hashes : Hashes) (sys : System) (store : Store S)
    (calls : String → Disk → Calls) (fix_live : Bool) (g : Group) (path : String)
    (named : g.store_path ≡ some path) (st : RunState S) where
  -- The store says that the path is not content-addressed, and that it is not in use or may be
  -- repaired nevertheless.
  abbrev pub IsConsented : Type 0
  IsConsented =
      (store.is_content_addressed st.db st.disk path ≡ some false)
      × ((fix_live ≡ true) ⊎ (store.blockers st.db st.disk path ≡ some []))

  repair_decided_refused :
      (x : Decision) → x ≢ proceed → repair_decided hashes sys store calls x g st ≡ some st
  unfolding repair_decided
  repair_decided_refused proceed n = absurd (n refl)
  repair_decided_refused undetermined n = refl
  repair_decided_refused content_addressed n = refl
  repair_decided_refused unknown_blockers n = refl
  repair_decided_refused in_use n = refl

  decide_refused : ¬ IsConsented → decide hashes sys store calls fix_live g.store_path st ≢ proceed
  unfolding decide
  decide_refused refusal h = refusal ((consent_iff fix_live _ _).0 (rw named at h))

  -- A round of `runRepairs` on a store path without consent changes nothing: neither the disk, nor
  -- the database, nor the journal, nor the count. Consent is that the store says that the path is not
  -- content-addressed, and that `--fix-live` is given or the store says that nothing uses the path; a
  -- query that fails is no consent.
  pub repair_group-IsConsented :
      ¬ IsConsented → repair_group hashes sys store calls fix_live g st ≡ some st
  unfolding repair_group
  repair_group-IsConsented refusal = repair_decided_refused _ (decide_refused refusal)
