-- ===== src/Wrap/Log/Paths.antt =====
-- internal/wrap/wrap.go: the paths that `parseSubstitutePaths` extracts from one line of the log.
use machokeeper.Base.{
  ℕ, ◌≡◌, ◌⊎◌, refl, true, Option, none, some, Bool-cases, inl, inr, List, [], ◌∷◌, ◌++◌, eq_string,
  eq_string_iff, text_equal, cut_prefix, codes, OnSome, ℤ, pos, negsuc, arith,
}
use machokeeper.Nixstore.Lines.{trim_space}
use machokeeper.Wrap.Log.{
  LogEvent, store_prefix, contains, LogState, add_path, read_listed, read_msg, is_transfer, add_cut,
  read_first, read_start, read_event, trim_byte, read_line,
}
use machokeeper.Wrap.Log.Trims.{cut_prefix-append}

-- The text of an event that may name a path: a message without white space around it, or the first
-- field of an activity of type 100 or 109 that starts.
pub data Carries (ev : LogEvent) : List ℕ → Type 0 where
  listed : ev.action ≡ "msg" → Carries ev (trim_space ev.msg)
  started :
      {path : List ℕ} {fields : List (Option (List ℕ))}
      → ev.action ≡ "start"
      → (ev.kind ≡ pos 100) ⊎ (ev.kind ≡ pos 109)
      → ev.fields ≡ some path ∷ fields
      → Carries ev path

-- A line adds the path that its event carries, or nothing.
pub data Adds (o : Option LogEvent) (st : LogState) : LogState → Type 0 where
  same : {t : LogState} → t.subs ≡ st.subs → Adds o st t
  path :
      {ev : LogEvent} {source : List ℕ} (rest : List ℕ)
      → o ≡ some ev
      → Carries ev source
      → source ≡ store_prefix ++ rest
      → Adds o st (add_path rest st)

is_transfer-kind : (kind : ℤ) → is_transfer kind ≡ true → (kind ≡ pos 100) ⊎ (kind ≡ pos 109)
unfolding is_transfer
is_transfer-kind (pos n) e = ground (arith, e)
is_transfer-kind (negsuc n) e = absurd (ground (arith, e))

module _ (o : Option LogEvent) (ev : LogEvent) (reads : o ≡ some ev) where
  read_listed-Adds :
      (trimmed : List ℕ) (cut : Option (List ℕ)) (st : LogState)
      → Carries ev trimmed
      → OnSome (λ rest. trimmed ≡ store_prefix ++ rest) cut
      → Adds o st (read_listed trimmed cut st)
  unfolding read_listed
  read_listed-Adds trimmed (some rest) st c h = elim (Bool-cases st.in_fetch_list) [
    | inl e ↦ rw e (path rest reads c h)
    | inr e ↦ rw e (same refl)
  ]
  read_listed-Adds trimmed none st c h = elim (Bool-cases (text_equal trimmed [])) [
    | inl e ↦ rw e (same refl)
    | inr e ↦ rw e (same refl)
  ]

  read_msg-Adds : (st : LogState) → ev.action ≡ "msg" → Adds o st (read_msg ev.msg st)
  unfolding read_msg
  read_msg-Adds st is_msg =
      let trimmed = trim_space ev.msg in
      elim (Bool-cases (contains (trim_byte b':' ev.msg) (codes "will be fetched"))) [
        | inl e ↦ rw e (same refl)
        | inr e ↦ rw e (
            read_listed-Adds trimmed (cut_prefix store_prefix trimmed) st (listed is_msg)
              (cut_prefix-append store_prefix trimmed))
      ]

  add_cut-Adds :
      (source : List ℕ) (cut : Option (List ℕ)) (st : LogState)
      → Carries ev source
      → OnSome (λ rest. source ≡ store_prefix ++ rest) cut
      → Adds o st (add_cut cut st)
  unfolding add_cut
  add_cut-Adds source none st c h = same refl
  add_cut-Adds source (some rest) st c h = path rest reads c h

  read_first-Adds :
      (fields : List (Option (List ℕ))) (st : LogState)
      → ev.action ≡ "start"
      → (ev.kind ≡ pos 100) ⊎ (ev.kind ≡ pos 109)
      → ev.fields ≡ fields
      → Adds o st (read_first fields st)
  unfolding read_first
  read_first-Adds [] st s k f = same refl
  read_first-Adds (none ∷ fields) st s k f = same refl
  read_first-Adds (some p ∷ fields) st s k f =
      add_cut-Adds p (cut_prefix store_prefix p) st (started s k f)
        (cut_prefix-append store_prefix p)

  read_start-Adds : (st : LogState) → ev.action ≡ "start" → Adds o st (read_start ev st)
  unfolding read_start
  read_start-Adds st s = elim (Bool-cases (is_transfer ev.kind)) [
    | inl e ↦ rw e (read_first-Adds ev.fields st s (is_transfer-kind ev.kind e) refl)
    | inr e ↦ rw e (same refl)
  ]

  read_event-Adds : (st : LogState) → Adds o st (read_event ev st)
  unfolding read_event
  read_event-Adds st = elim (Bool-cases (eq_string ev.action "msg")) [
    | inl e ↦ rw e (read_msg-Adds st ((eq_string_iff ev.action "msg").0 e))
    | inr e ↦ elim (Bool-cases (eq_string ev.action "start")) [
      | inl k ↦ rw (e, k) (read_start-Adds st ((eq_string_iff ev.action "start").0 k))
      | inr k ↦ rw (e, k) (same refl)
    ]
  ]

pub read_line-Adds :
    (unmarshal : List ℕ → Option LogEvent) (o : Option LogEvent) (st : LogState)
    → Adds o st (read_line unmarshal o st)
unfolding read_line
read_line-Adds unmarshal none st = same refl
read_line-Adds unmarshal (some ev) st = read_event-Adds (some ev) ev refl st
