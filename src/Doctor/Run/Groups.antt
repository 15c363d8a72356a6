-- ===== src/Doctor/Run/Groups.antt =====
-- internal/doctor/doctor.go: what `Run` has grouped.
use machokeeper.Base.{
  ℕ, ◌+◌, ◌≤◌, ◌<◌, ◌≡◌, refl, sym, ap, ◌∙◌, String, Bool, true, false, Option, none, some, List,
  [], ◌∷◌, ◌++◌, arith, inl, inr, length, length-append, Bool-cases, eq_string, eq_string_iff,
  if◌then◌else◌,
}
use machokeeper.Doctor.Scan.{Finding}
use machokeeper.Doctor.Run.{Group, key_of, add_finding, group_findings}
use machokeeper.Doctor.Run.Rule.{AllFiles, AllGroups, AllFiles-append}

-- How many files the groups have.
abbrev pub count : List (String × Group) → ℕ
count [] = 0
count ((key, g) ∷ groups) = length g.files + count groups

count-add_finding :
    (key : String) (store_path : Option String) (f : Finding) (groups : List (String × Group))
    → count (add_finding key store_path f groups) ≡ count groups + 1
unfolding add_finding
count-add_finding key store_path f [] = omega arith
count-add_finding key store_path f ((k, g) ∷ groups) =
    ground (arith, length-append {0} g.files (f ∷ []), count-add_finding key store_path f groups)

abbrev with_finding :
    (String → Option String) → Finding → List (String × Group) → List (String × Group)
with_finding store_path_of f groups =
    add_finding (key_of f.file (store_path_of f.file)) (store_path_of f.file) f groups

-- One round of the loop that groups.
group_findings-cons :
    (store_path_of : String → Option String) (f : Finding) (fs : List Finding)
    (groups : List (String × Group)) (b : Bool)
    → f.repairable ≡ b
    → group_findings store_path_of (f ∷ fs) groups
      ≡ group_findings store_path_of fs (if b then with_finding store_path_of f groups else groups)
unfolding group_findings
group_findings-cons store_path_of f fs groups b e =
    ap
      (λ (c : Bool).
        group_findings store_path_of fs (if c then with_finding store_path_of f groups else groups))
      e

pub count-group_findings :
    (store_path_of : String → Option String) (fs : List Finding) (groups : List (String × Group))
    → count (group_findings store_path_of fs groups) ≤ count groups + length fs
count-group_findings store_path_of [] groups = unfold group_findings in omega arith
count-group_findings store_path_of (f ∷ fs) groups = elim (Bool-cases f.repairable) [
  | inl e ↦ rw (group_findings-cons store_path_of f fs groups true e) (
      omega (
        arith,
        count-group_findings store_path_of fs (with_finding store_path_of f groups),
        count-add_finding (key_of f.file (store_path_of f.file)) (store_path_of f.file) f groups,
      ))
  | inr e ↦
      rw (group_findings-cons store_path_of f fs groups false e)
        (omega (arith, count-group_findings store_path_of fs groups))
]

module _ (F : String → Type 0) where
  AllFiles-append_back :
      (fs : List Finding) (f : Finding) → AllFiles F (fs ++ (f ∷ [])) → AllFiles F fs × F f.file
  AllFiles-append_back [] f (h, a) = (tt, h)
  AllFiles-append_back (g ∷ fs) f (h, a) = let (b, c) = AllFiles-append_back fs f a in ((h, b), c)

  add_finding_back :
      (key : String) (store_path : Option String) (f : Finding) (groups : List (String × Group))
      → AllGroups F (add_finding key store_path f groups)
      → AllGroups F groups × F f.file
  unfolding add_finding
  add_finding_back key store_path f [] ((h, a), b) = (tt, h)
  add_finding_back key store_path f ((k, g) ∷ groups) all = elim (Bool-cases (eq_string k key)) [
    | inl e ↦
        let (h, rest) = rw e at all in
        let (a, b) = AllFiles-append_back g.files f h in ((a, rest), b)
    | inr e ↦
        let (h, rest) = rw e at all in
        let (a, b) = add_finding_back key store_path f groups rest in ((h, a), b)
  ]

  -- If every finding is in a group, then what holds for the groups holds for the findings.
  pub group_findings_back :
      (store_path_of : String → Option String) (fs : List Finding) (groups : List (String × Group))
      → count (group_findings store_path_of fs groups) ≡ count groups + length fs
      → AllGroups F (group_findings store_path_of fs groups)
      → AllGroups F groups × AllFiles F fs
  group_findings_back store_path_of [] groups n all = (unfold group_findings in all, tt)
  group_findings_back store_path_of (f ∷ fs) groups n all = elim (Bool-cases f.repairable) [
    | inl e ↦
        let step = group_findings-cons store_path_of f fs groups true e in
        let sp = store_path_of f.file in
        let (a, b) =
          group_findings_back store_path_of fs (with_finding store_path_of f groups)
            (omega (arith, rw step at n, count-add_finding (key_of f.file sp) sp f groups))
            (rw step at all) in
        let (c, h) = add_finding_back (key_of f.file sp) sp f groups a in (c, (h, b))
    | inr e ↦
        let step = group_findings-cons store_path_of f fs groups false e in
        absurd (omega (arith, rw step at n, count-group_findings store_path_of fs groups))
  ]

-- A group has a file, and its files are those of its store path, or of none.
abbrev pub IsGroup : (String → Option String) → String × Group → Type 0
IsGroup store_path_of (key, g) =
    (store_path_of key ≡ g.store_path)
    × (0 < length g.files)
    × AllFiles (λ file. store_path_of file ≡ g.store_path) g.files

abbrev pub AreGroups : (String → Option String) → List (String × Group) → Type 0
AreGroups store_path_of [] = Unit
AreGroups store_path_of (g ∷ groups) = IsGroup store_path_of g × AreGroups store_path_of groups

module _ (store_path_of : String → Option String)
    (own_path : (file path : String)
      → store_path_of file ≡ some path
      → store_path_of path ≡ some path) where
  store_path_of-key_of :
      (file : String) (sp : Option String)
      → store_path_of file ≡ sp
      → store_path_of (key_of file sp) ≡ sp
  unfolding key_of
  store_path_of-key_of file none e = e
  store_path_of-key_of file (some path) e = own_path file path e

  AreGroups-add_finding :
      (key : String) (f : Finding) (groups : List (String × Group))
      → store_path_of key ≡ store_path_of f.file
      → AreGroups store_path_of groups
      → AreGroups store_path_of (add_finding key (store_path_of f.file) f groups)
  unfolding add_finding
  AreGroups-add_finding key f [] e a = ((e, omega arith, (refl, tt)), tt)
  AreGroups-add_finding key f ((k, g) ∷ groups) e ((p, n, fs), a) =
      elim (Bool-cases (eq_string k key)) [
        | inl s ↦
            let same : k ≡ key = (eq_string_iff k key).0 s in
            rw s (
              (
                p,
                omega (arith, length-append {0} g.files (f ∷ [])),
                AllFiles-append (λ file. store_path_of file ≡ g.store_path) g.files f fs
                    (sym e ∙ ap store_path_of (sym same) ∙ p),
              ),
              a,
            )
        | inr s ↦ rw s ((p, n, fs), AreGroups-add_finding key f groups e a)
      ]

  pub AreGroups-group_findings :
      (fs : List Finding) (groups : List (String × Group))
      → AreGroups store_path_of groups
      → AreGroups store_path_of (group_findings store_path_of fs groups)
  AreGroups-group_findings [] groups a = unfold group_findings in a
  AreGroups-group_findings (f ∷ fs) groups a = elim (Bool-cases f.repairable) [
    | inl e ↦
        let sp = store_path_of f.file in
        rw (group_findings-cons store_path_of f fs groups true e) (
          AreGroups-group_findings fs (with_finding store_path_of f groups) (
            AreGroups-add_finding (key_of f.file sp) f groups (store_path_of-key_of f.file sp refl)
              a))
    | inr e ↦
        rw (group_findings-cons store_path_of f fs groups false e)
          (AreGroups-group_findings fs groups a)
  ]
