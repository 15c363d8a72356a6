-- ===== src/Doctor/Run/Tracked.antt =====
-- internal/doctor/doctor.go: the database of the store through a run, and the count of repairs.
use machokeeper.Base.{
  ℕ, ◌+◌, ◌≡◌, ◌≢◌, refl, sym, ◌∙◌, String, Bool, true, false, Option, some, List, [], ◌∷◌, arith,
  inl, inr, length, Bool-cases, >>=-eq-some, eq_string_refl,
}
use mathlib.Core.Path.{subst}
use mathlib.Core.Option.{some-injective}
use machokeeper.Engine.Defs.{Hashes}
use machokeeper.Doctor.Scan.{Finding}
use machokeeper.Doctor.Disk.{Disk, System, Calls}
use machokeeper.Doctor.Files.{RepairResult, repaired, not_planned, not_written, repair_file}
use machokeeper.Doctor.Run.{Store, RunState, note_repair, repair_files}
use machokeeper.Doctor.Run.Rule.{AllFiles}
use machokeeper.Doctor.Run.Entries.{named, named-append}

-- What the program relies on: `Matches s d p` says that the database `s` has the hash of the store
-- path `p` as it is on the disk `d`. A path that is registered matches, and neither this nor the
-- repair of another path's file spoils what matches.
pub record IsTracking {S : Type 0} (hashes : Hashes) (sys : System) (store : Store S)
    (calls : String → Disk → Calls) (Matches : S → Disk → String → Type 0) : Type 0 where
  pub own_path :
      (file path : String)
      → store.store_path_of file ≡ some path
      → store.store_path_of path ≡ some path
  pub registers :
      (path : String) (d : Disk) (db : S)
      → (store.reconcile_hash path d db).1 ≡ false
      → Matches (store.reconcile_hash path d db).0 d path
  pub other_rows :
      (path q : String) (d : Disk) (db : S)
      → q ≢ path
      → Matches db d q
      → Matches (store.reconcile_hash path d db).0 d q
  pub other_files :
      (file q : String) (d d' : Disk) (result : RepairResult) (db : S)
      → repair_file hashes sys (calls file d) file d ≡ some (d', result)
      → store.store_path_of file ≢ some q
      → Matches db d q
      → Matches db d' q

module _ {S : Type 0} (hashes : Hashes) (sys : System) (store : Store S)
    (calls : String → Disk → Calls) (Matches : S → Disk → String → Type 0)
    (tracking : IsTracking hashes sys store calls Matches) where
  -- While a group's files are repaired: nothing is registered or counted, no entry is lost, and the
  -- other store paths match as before.
  pub record Went (own : Option String) (st st' : RunState S) : Type 0 where
    pub same_db : st'.db ≡ st.db
    pub same_fixed : st'.fixed ≡ st.fixed
    pub grows : (q : String) → named st.journal q ≡ true → named st'.journal q ≡ true
    pub others : (q : String) → own ≢ some q → Matches st.db st.disk q → Matches st'.db st'.disk q

  pub Went-same : (own : Option String) (st : RunState S) → Went own st st
  Went-same own st = record {
    same_db = refl;
    same_fixed = refl;
    grows = λ q n. n;
    others = λ q n m. m;
  }

  Went-then :
      (own : Option String) (a b c : RunState S) → Went own a b → Went own b c → Went own a c
  Went-then own a b c p q = record {
    same_db = q.same_db ∙ p.same_db;
    same_fixed = q.same_fixed ∙ p.same_fixed;
    grows = λ r n. q.grows r (p.grows r n);
    others = λ r n m. q.others r n (p.others r n m);
  }

  -- A repair without an entry.
  unlisted-Went :
      (own : Option String) (file : String) (st : RunState S) (d : Disk) (result : RepairResult)
      → store.store_path_of file ≡ own
      → repair_file hashes sys (calls file st.disk) file st.disk ≡ some (d, result)
      → Went own st (record st { disk = d })
  unlisted-Went own file st d result p e = record {
    same_db = refl;
    same_fixed = refl;
    grows = λ q n. n;
    others = λ q n. tracking.other_files file q st.disk d result st.db e (λ s. n (sym p ∙ s));
  }

  note_repair-Went :
      (own : Option String) (file : String) (st : RunState S) (d : Disk) (result : RepairResult)
      → store.store_path_of file ≡ own
      → repair_file hashes sys (calls file st.disk) file st.disk ≡ some (d, result)
      → Went own st (note_repair file result d st).0
        × ((note_repair file result d st).1 ≡ true
            → named (note_repair file result d st).0.journal file ≡ true)
  unfolding note_repair
  note_repair-Went own file st d (repaired changes) p e =
      let listed = named-append st.journal (record { file = file; changes = changes }) in
      let w = unlisted-Went own file st d (repaired changes) p e in
      (
        record {
          same_db = refl;
          same_fixed = refl;
          grows = λ q n. ground (arith, listed q);
          others = w.others;
        },
        λ _. ground (arith, listed file, eq_string_refl file),
      )
  note_repair-Went own file st d (not_planned x) p e =
      (unlisted-Went own file st d (not_planned x) p e, λ s. absurd (ground arith))
  note_repair-Went own file st d (not_written x) p e =
      (unlisted-Went own file st d (not_written x) p e, λ s. absurd (ground arith))

  -- After the loop over a group's files.
  abbrev pub FilesDone :
      Option String → List Finding → ℕ → RunState S → RunState S × Bool × ℕ → Type 0
  FilesDone own fs n st (st', ok, k) =
      Went own st st'
      × (ok ≡ true → (k ≡ n + length fs) × AllFiles (λ file. named st'.journal file ≡ true) fs)

  pub repair_files-FilesDone :
      (own : Option String) (fs : List Finding) (n : ℕ) (st : RunState S)
      (r : RunState S × Bool × ℕ)
      → AllFiles (λ file. store.store_path_of file ≡ own) fs
      → repair_files hashes sys store calls fs n st ≡ some r
      → FilesDone own fs n st r
  unfolding repair_files
  repair_files-FilesDone own [] n st r a e =
      subst (FilesDone own [] n st) (some-injective _ _ e)
        (Went-same own st, λ _. (omega arith, tt))
  repair_files-FilesDone own (f ∷ fs) n st r (p, a) e =
      let ((d, result), e1, e2) =
        >>=-eq-some (repair_file hashes sys (calls f.file st.disk) f.file st.disk) _ e in
      let (w, listed) = note_repair-Went own f.file st d result p e1 in
      let st' = (note_repair f.file result d st).0 in
      elim (Bool-cases (note_repair f.file result d st).1) [
        | inl goes_on ↦
            let (w', done) = repair_files-FilesDone own fs (n + 1) st' r a (rw goes_on at e2) in
            (
              Went-then own st st' r.0 w w',
              λ ok.
                  let (k, all) = done ok in
                  (omega (arith, k), (w'.grows f.file (listed goes_on), all)),
            )
        | inr stops ↦
            subst (FilesDone own (f ∷ fs) n st) (some-injective _ _ (rw stops at e2))
              (w, λ ok. absurd (ground arith))
      ]
