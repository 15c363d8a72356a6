-- ===== src/Wrap/Log/Extracted.antt =====
-- internal/wrap/wrap.go: what `parseSubstitutePaths` returns for a log.
use machokeeper.Base.{
  ℕ, ◌≡◌, refl, sym, ap, ◌∙◌, String, true, false, Option, some, Bool-cases, inl, inr, List, [],
  ◌∷◌, eq_string, eq_string_iff, text_equal, text_equal_iff, cut_prefix, arith, At, here, there,
  At-append_left, At-append_right, At-append, At-cons, ◌⊎◌, ◌++◌, codes, ℤ, pos, OnSome-elim,
  >>=-eq-some,
}
use mathlib.Core.Path.{subst}
use machokeeper.Nixstore.Lines.{split_at}
use machokeeper.Wrap.Log.{
  LogEvent, store_prefix, clean_rest, LogState, add_path, is_transfer, add_cut, read_first,
  read_start, read_event, known, dedupe_from, dedupe, event_of, read_line, read_lines,
  parse_substitute_paths,
}
use machokeeper.Wrap.Log.Trims.{Trims, clean_rest-Trims, cut_prefix-append, append-cut_prefix}
use machokeeper.Wrap.Log.Paths.{Carries, Adds, same, path, read_line-Adds}

dedupe_from-only : (p : List ℕ) (seen ss : List (List ℕ)) → At p (dedupe_from seen ss) → At p ss
unfolding dedupe_from
dedupe_from-only p seen [] a = a
dedupe_from-only p seen (s ∷ ss) a = elim (Bool-cases (known seen s)) [
  | inl e ↦ there (dedupe_from-only p seen ss (rw e at a))
  | inr e ↦ elim (At-cons p s (dedupe_from (s ∷ seen) ss) (rw e at a)) [
    | inl is_it ↦ here is_it
    | inr later ↦ there (dedupe_from-only p (s ∷ seen) ss later)
  ]
]

dedupe_from-At :
    (p : List ℕ) (seen ss : List (List ℕ))
    → known seen p ≡ false
    → At p ss
    → At p (dedupe_from seen ss)
unfolding dedupe_from known
dedupe_from-At p seen [] h a = a
dedupe_from-At p seen (s ∷ ss) h (here e) = rw (sym e, h) (here refl)
dedupe_from-At p seen (s ∷ ss) h (there a) = elim (Bool-cases (known seen s)) [
  | inl k ↦ rw k (dedupe_from-At p seen ss h a)
  | inr k ↦ elim (Bool-cases (text_equal s p)) [
    | inl q ↦ rw k (here (sym ((text_equal_iff s p).0 q)))
    | inr q ↦ rw k (there (dedupe_from-At p (s ∷ seen) ss (ground (arith, q, h)) a))
  ]
]

Adds-At :
    (p : List ℕ) (o : Option LogEvent) (st t : LogState) → Adds o st t → At p st.subs → At p t.subs
unfolding add_path
Adds-At p o st t (same e) a = subst (At p) (sym e) a
Adds-At p o st _ (path rest reads c s) a = At-append_left p st.subs (clean_rest rest ∷ []) a

start_is_no_msg : eq_string "start" "msg" ≡ false
unfolding eq_string
start_is_no_msg = refl

module _ (unmarshal : List ℕ → Option LogEvent) where
  -- A line of the log is an event that carries a path, and `p` is that path, cleaned.
  pub record IsNamed (lines : List (List ℕ)) (p : List ℕ) : Type 0 where
    pub raw : List ℕ
    pub listed : At (codes "@nix " ++ raw) lines
    pub event : LogEvent
    pub reads : unmarshal raw ≡ some event
    pub source : List ℕ
    pub carries : Carries event source
    pub trims : Trims source p

  event_of-reads :
      (line : List ℕ) (ev : LogEvent)
      → event_of unmarshal line ≡ some ev
      → (raw : List ℕ) × (line ≡ codes "@nix " ++ raw) × (unmarshal raw ≡ some ev)
  unfolding event_of
  event_of-reads line ev e =
      let (raw, cut, reads) = >>=-eq-some (cut_prefix (codes "@nix ") line) unmarshal e in
      (raw, OnSome-elim _ _ raw (cut_prefix-append (codes "@nix ") line) cut, reads)

  module _ (log_lines : List (List ℕ)) where
    abbrev AreNamed : List (List ℕ) → Type 0
    AreNamed ps = (p : List ℕ) → At p ps → IsNamed log_lines p

    Adds-AreNamed :
        (line : List ℕ) (st t : LogState)
        → At line log_lines
        → Adds (event_of unmarshal line) st t
        → AreNamed st.subs
        → AreNamed t.subs
    unfolding add_path
    Adds-AreNamed line st t a (same e) h p b = h p (subst (At p) e b)
    Adds-AreNamed line st _ a (path {ev} {source} rest reads c s) h p b =
        elim ((At-append p st.subs (clean_rest rest ∷ [])).0 b) [
          | inl before ↦ h p before
          | inr added ↦ elim (At-cons p (clean_rest rest) [] added) [
            | inl e ↦
                let (raw, is_line, m) = event_of-reads line ev reads in
                record {
                  raw = raw;
                  listed = subst (λ (l : List ℕ). At l log_lines) is_line a;
                  event = ev;
                  reads = m;
                  source = source;
                  carries = c;
                  trims =
                      subst (λ (q : List ℕ). Trims source q) (sym e)
                        (subst (λ (q : List ℕ). Trims q (clean_rest rest)) (sym s)
                          (clean_rest-Trims rest));
                }
            | inr more ↦ elim more [ ]
          ]
        ]

    read_lines-AreNamed :
        (lines : List (List ℕ)) (st : LogState)
        → ((line : List ℕ) → At line lines → At line log_lines)
        → AreNamed st.subs
        → AreNamed (read_lines unmarshal lines st).subs
    unfolding read_lines
    read_lines-AreNamed [] st among h = h
    read_lines-AreNamed (line ∷ lines) st among h =
        let o = event_of unmarshal line in
        read_lines-AreNamed lines (read_line unmarshal o st) (λ l a. among l (there a))
          (Adds-AreNamed line st (read_line unmarshal o st) (among line (here refl))
            (read_line-Adds unmarshal o st) h)

  -- Each path that is returned is the cleaned path of a line of the log: the line is "@nix " and JSON
  -- of an event that carries it, as a message or as the first field of an activity of type 100 or 109
  -- that starts, and it begins with "/nix/store/". Of what follows that, the first element is kept,
  -- without one suffix ".narinfo". The element may be empty, or "..".
  pub parse_substitute_paths-IsNamed :
      (log p : List ℕ)
      → At p (parse_substitute_paths unmarshal log)
      → IsNamed (split_at b'\n' log) p
  unfolding parse_substitute_paths dedupe
  parse_substitute_paths-IsNamed log p a =
      let st : LogState = record { subs = []; in_fetch_list = false } in
      let lines = split_at b'\n' log in
      read_lines-AreNamed lines lines st (λ line b. b) (λ q b. elim b [ ]) p
        (dedupe_from-only p [] (read_lines unmarshal lines st).subs a)

  read_lines-At :
      (p : List ℕ) (lines : List (List ℕ)) (st : LogState)
      → At p st.subs
      → At p (read_lines unmarshal lines st).subs
  unfolding read_lines
  read_lines-At p [] st a = a
  read_lines-At p (line ∷ lines) st a =
      let ev = event_of unmarshal line in
      read_lines-At p lines (read_line unmarshal ev st)
        (Adds-At p ev st (read_line unmarshal ev st) (read_line-Adds unmarshal ev st) a)

  transfer-kind : (kind : ℤ) → (kind ≡ pos 100) ⊎ (kind ≡ pos 109) → is_transfer kind ≡ true
  unfolding is_transfer
  transfer-kind kind (inl e) = rw e refl
  transfer-kind kind (inr e) = rw e refl

  module _ (raw : List ℕ) (ev : LogEvent) (rest : List ℕ) (fields : List (Option (List ℕ)))
      (reads : unmarshal raw ≡ some ev) (starts : ev.action ≡ "start")
      (transfers : (ev.kind ≡ pos 100) ⊎ (ev.kind ≡ pos 109))
      (first : ev.fields ≡ some (store_prefix ++ rest) ∷ fields) where
    abbrev line : List ℕ
    line = codes "@nix " ++ raw

    line-event_of : event_of unmarshal line ≡ some ev
    unfolding event_of
    line-event_of = rw (append-cut_prefix (codes "@nix ") raw) reads

    read_line-transfer :
        (st : LogState)
        → At (clean_rest rest) (read_line unmarshal (event_of unmarshal line) st).subs
    unfolding read_line read_event read_start read_first add_cut add_path
    read_line-transfer st =
        let no_message = ap (λ (a : String). eq_string a "msg") starts ∙ start_is_no_msg in
        let is_start = (eq_string_iff ev.action "start").1 starts in
        rw
          (
            line-event_of,
            no_message,
            is_start,
            transfer-kind ev.kind transfers,
            first,
            append-cut_prefix store_prefix rest,
          )
          (At-append_right (clean_rest rest) st.subs (clean_rest rest ∷ []) (here refl))

    read_lines-transfer :
        (lines : List (List ℕ)) (st : LogState)
        → At line lines
        → At (clean_rest rest) (read_lines unmarshal lines st).subs
    unfolding read_lines
    read_lines-transfer [] st a = elim a [ ]
    read_lines-transfer (l ∷ lines) st (here e) =
        read_lines-At (clean_rest rest) lines (read_line unmarshal (event_of unmarshal l) st) (
          subst
            (λ (m : List ℕ).
              At (clean_rest rest) (read_line unmarshal (event_of unmarshal m) st).subs)
            e (read_line-transfer st))
    read_lines-transfer (l ∷ lines) st (there a) =
        read_lines-transfer lines (read_line unmarshal (event_of unmarshal l) st) a

    -- A line of the log that is "@nix " and JSON of an activity of type 100 or 109 that starts, whose
    -- first field begins with "/nix/store/", contributes that field, cleaned: cut behind the first
    -- element that follows, and without one suffix ".narinfo".
    pub parse_substitute_paths-transfer :
        (log : List ℕ)
        → At line (split_at b'\n' log)
        → (p : List ℕ) × At p (parse_substitute_paths unmarshal log)
          × Trims (store_prefix ++ rest) p
    unfolding parse_substitute_paths dedupe known
    parse_substitute_paths-transfer log a = (
      clean_rest rest,
      dedupe_from-At (clean_rest rest) [] _ refl (read_lines-transfer (split_at b'\n' log) _ a),
      clean_rest-Trims rest,
    )
