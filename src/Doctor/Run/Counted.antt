-- ===== src/Doctor/Run/Counted.antt =====
-- internal/doctor/doctor.go: the count of repairs, and the database of the store, after each group.
use machokeeper.Base.{
  ℕ, ◌+◌, ◌<◌, ◌≡◌, ◌⊎◌, sym, ap, ◌∙◌, String, Bool, true, Option, none, some, List, [], ◌∷◌, arith,
  inl, inr, length, Bool-cases, >>=-eq-some, eq_string, eq_string_iff,
}
use mathlib.Core.Path.{subst}
use mathlib.Core.Option.{some-injective}
use machokeeper.Engine.Defs.{Hashes}
use machokeeper.Doctor.Scan.{Finding}
use machokeeper.Doctor.Disk.{Disk, System, Calls}
use machokeeper.Doctor.Run.{
  Group, Store, Decision, proceed, undetermined, content_addressed, unknown_blockers, in_use,
  RunState, decide, repair_files, register, repair_decided, repair_group, run_repairs,
}
use machokeeper.Doctor.Run.Rule.{AllFiles, AllGroups, AllFiles-map}
use machokeeper.Doctor.Run.Entries.{named}
use machokeeper.Doctor.Run.Groups.{count, AreGroups}
use machokeeper.Doctor.Run.Tracked.{IsTracking, Went, Went-same, repair_files-FilesDone}

module _ {S : Type 0} (hashes : Hashes) (sys : System) (store : Store S)
    (calls : String → Disk → Calls) (Matches : S → Disk → String → Type 0)
    (tracking : IsTracking hashes sys store calls Matches) where
  -- Between two states: no entry is lost, and either fewer repairs are counted than there are files,
  -- or each file has its entry and every store path that matched does so still.
  pub record Counted (size : ℕ) (Listed : RunState S → Type 0) (st st' : RunState S) : Type 0 where
    pub grows : (q : String) → named st.journal q ≡ true → named st'.journal q ≡ true
    pub counted :
        (st'.fixed < st.fixed + size)
        ⊎ ((st'.fixed ≡ st.fixed + size)
            × Listed st'
            × ((q : String) → Matches st.db st.disk q → Matches st'.db st'.disk q))

  abbrev ListedFiles : List Finding → RunState S → Type 0
  ListedFiles fs st = AllFiles (λ file. named st.journal file ≡ true) fs

  module _ (fs : List Finding) (some_file : 0 < length fs) (st st' : RunState S) where
    uncounted :
        (own : Option String)
        → Went hashes sys store calls Matches tracking own st st'
        → Counted (length fs) (ListedFiles fs) st st'
    uncounted own w = record { grows = w.grows; counted = inl (omega (arith, w.same_fixed)) }

    uncounted_db :
        (own : Option String) (db : S)
        → Went hashes sys store calls Matches tracking own st st'
        → Counted (length fs) (ListedFiles fs) st (record st' { db = db })
    uncounted_db own db w = record { grows = w.grows; counted = inl (omega (arith, w.same_fixed)) }

    register-Counted :
        (own : Option String)
        → Went hashes sys store calls Matches tracking own st st'
        → ListedFiles fs st'
        → Counted
            (length fs)
            (ListedFiles fs)
            st
            (register hashes sys store calls own (length fs) st')
    unfolding register
    register-Counted none w all = record {
      grows = w.grows;
      counted =
          inr (omega (arith, w.same_fixed), all, λ q m. w.others q (λ p. absurd (ground arith)) m);
    }
    register-Counted (some path) w all =
        let registers = tracking.registers path st'.disk st'.db in
        elim (Bool-cases (store.reconcile_hash path st'.disk st'.db).1) [
          | inl fails ↦
              rw fails (uncounted_db (some path) (store.reconcile_hash path st'.disk st'.db).0 w)
          | inr works ↦ rw works (record {
            grows = w.grows;
            counted = inr (
              omega (arith, w.same_fixed),
              all,
              λ q m. elim (Bool-cases (eq_string path q)) [
                | inl p ↦
                    subst
                      (λ (r : String).
                        Matches (store.reconcile_hash path st'.disk st'.db).0 st'.disk r)
                      ((eq_string_iff path q).0 p) (registers works)
                | inr p ↦
                    tracking.other_rows path q st'.disk st'.db
                      (λ r. absurd (ground (arith, (eq_string_iff path q).1 (sym r))))
                      (w.others q
                        (λ r.
                          absurd (ground (arith, (eq_string_iff path q).1 (some-injective _ _ r))))
                        m)
              ],
            );
          })
        ]

  refused :
      (g : Group) (st st' : RunState S)
      → 0 < length g.files
      → some st ≡ some st'
      → Counted (length g.files) (ListedFiles g.files) st st'
  refused g st st' some_file e =
      subst (Counted (length g.files) (ListedFiles g.files) st) (some-injective _ _ e) (
        uncounted g.files some_file st st none
          (Went-same hashes sys store calls Matches tracking none st))

  repair_decided-Counted :
      (decision : Decision) (g : Group) (st st' : RunState S)
      → 0 < length g.files
      → AllFiles (λ file. store.store_path_of file ≡ g.store_path) g.files
      → repair_decided hashes sys store calls decision g st ≡ some st'
      → Counted (length g.files) (ListedFiles g.files) st st'
  unfolding repair_decided
  repair_decided-Counted proceed g st st' some_file a e =
      let ((st1, ok, n), e1, e2) =
        >>=-eq-some (repair_files hashes sys store calls g.files 0 st) _ e in
      let (w, done) =
        repair_files-FilesDone hashes sys store calls Matches tracking g.store_path g.files 0 st
          (st1, ok, n) a e1 in
      elim (Bool-cases ok) [
        | inl good ↦
            let (k, all) = done good in
            let same : length g.files ≡ n = omega (arith, k) in
            subst (Counted (length g.files) (ListedFiles g.files) st)
              (ap (λ (m : ℕ). register hashes sys store calls g.store_path m st1) same
                ∙ some-injective _ _ (rw good at e2))
              (register-Counted g.files some_file st st1 g.store_path w all)
        | inr bad ↦
            subst (Counted (length g.files) (ListedFiles g.files) st)
              (some-injective _ _ (rw bad at e2))
              (uncounted g.files some_file st st1 g.store_path w)
      ]
  repair_decided-Counted undetermined g st st' some_file a e = refused g st st' some_file e
  repair_decided-Counted content_addressed g st st' some_file a e = refused g st st' some_file e
  repair_decided-Counted unknown_blockers g st st' some_file a e = refused g st st' some_file e
  repair_decided-Counted in_use g st st' some_file a e = refused g st st' some_file e

  -- After the groups.
  abbrev pub ListedGroups : List (String × Group) → RunState S → Type 0
  ListedGroups groups st = AllGroups (λ file. named st.journal file ≡ true) groups

  both :
      (fs : List Finding) (groups : List (String × Group)) (a b c : RunState S)
      → Counted (length fs) (ListedFiles fs) a b
      → Counted (count groups) (ListedGroups groups) b c
      → (c.fixed < a.fixed + (length fs + count groups))
        ⊎ ((c.fixed ≡ a.fixed + (length fs + count groups))
            × (ListedFiles fs c × ListedGroups groups c)
            × ((q : String) → Matches a.db a.disk q → Matches c.db c.disk q))
  both fs groups a b c p q = elim p.counted [
    | inl less ↦ elim q.counted [
      | inl x ↦ inl (omega (arith, less, x))
      | inr (x, l, m) ↦ inl (omega (arith, less, x))
    ]
    | inr (n, l, m) ↦ elim q.counted [
      | inl x ↦ inl (omega (arith, n, x))
      | inr (x, k, w) ↦ inr (
        omega (arith, n, x),
        (AllFiles-map _ _ fs (λ file. q.grows file) l, k),
        λ r s. w r (m r s),
      )
    ]
  ]

  pub run_repairs-Counted :
      (fix_live : Bool) (groups : List (String × Group)) (st st' : RunState S)
      → AreGroups store.store_path_of groups
      → run_repairs hashes sys store calls fix_live groups st ≡ some st'
      → Counted (count groups) (ListedGroups groups) st st'
  unfolding run_repairs repair_group
  run_repairs-Counted fix_live [] st st' a e =
      subst (Counted 0 (ListedGroups []) st) (some-injective _ _ e)
        (record { grows = λ q n. n; counted = inr (omega arith, tt, λ q m. m) })
  run_repairs-Counted fix_live ((key, g) ∷ groups) st st' ((p, some_file, files), a) e =
      let (st1, e1, e2) =
        >>=-eq-some
          (repair_decided hashes sys store calls
            (decide hashes sys store calls fix_live g.store_path st) g st)
          _ e in
      let c = repair_decided-Counted _ g st st1 some_file files e1 in
      let r = run_repairs-Counted fix_live groups st1 st' a e2 in
      record {
        grows = λ q n. r.grows q (c.grows q n);
        counted = both g.files groups st st1 st' c r;
      }
