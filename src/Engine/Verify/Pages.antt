-- ===== src/Engine/Verify/Pages.antt =====
-- engine/engine.go: the loop over the code slots in check mode.
use machokeeper.Base.{
  ℕ, zero, suc, ◌+◌, ◌-◌, ◌*◌, ◌^◌, ◌≤◌, ◌<◌, ◌≡◌, ◌↔◌, refl, ap, ◌∙◌, true, false, some, List, [],
  ◌∷◌, arith, length, window, inl, inr, Bool-cases, Option-cases, ltb, ◌||◌, ForRange,
  ForRange-zero, ForRange-suc, if◌then◌else◌,
}
use mathlib.Core.Path.{subst}
use machokeeper.Engine.Read.{rd_slice_within, rd_slice-window}
use machokeeper.Engine.Fixup.{
  Buffer, Progress, suspect, Pages, page_end, page_start, rewrite_slot, fixup_slot, fixup_slots,
  bytes_equal,
}
use machokeeper.Engine.Verify.Spec.{page_lo, page_hi, IsPageValid}

pub bytes_equal_iff : (xs ys : List ℕ) → (bytes_equal xs ys ≡ true) ↔ (xs ≡ ys)
unfolding bytes_equal
bytes_equal_iff [] [] = (λ h. refl, λ h. refl)
bytes_equal_iff [] (y ∷ ys) = (λ h. cc, λ h. cc)
bytes_equal_iff (x ∷ xs) [] = (λ h. cc, λ h. cc)
bytes_equal_iff (x ∷ xs) (y ∷ ys) = ground (arith, bytes_equal_iff xs ys)

-- Neither a stale nor an unverifiable slot has been met.
abbrev pub IsClean : Progress → Type 0
IsClean s = (s.modified ≡ false) × (s.unverifiable ≡ false)

-- A step in check mode: it changes no byte, and leaves the flags clear exactly if they were and `V`.
pub record Checks (s s' : Progress) (V : Type 0) : Type 0 where
  pub same_buffer : s'.buffer ≡ s.buffer
  pub same_directory : s'.any_code_directory ≡ s.any_code_directory
  pub sound : IsClean s' → IsClean s × V
  pub complete : IsClean s → V → IsClean s'

pub passing : (s s' : Progress) (V : Type 0) → s' ≡ s → V → Checks s s' V
passing s s' V e v = record {
  same_buffer = ap (λ (t : Progress). t.buffer) e;
  same_directory = ap (λ (t : Progress). t.any_code_directory) e;
  sound = λ c. (rw e at c, v);
  complete = λ c _. rw e c;
}

pub failing_unverifiable : (s s' : Progress) (V : Type 0) → s' ≡ suspect s → ¬ V → Checks s s' V
failing_unverifiable s s' V e n = record {
  same_buffer = ap (λ (t : Progress). t.buffer) e;
  same_directory = ap (λ (t : Progress). t.any_code_directory) e;
  sound = λ c. cc;
  complete = λ _ v. absurd (n v);
}

failing_modified :
    (s s' : Progress) (V : Type 0) → s' ≡ record s { modified = true } → ¬ V → Checks s s' V
failing_modified s s' V e n = record {
  same_buffer = ap (λ (t : Progress). t.buffer) e;
  same_directory = ap (λ (t : Progress). t.any_code_directory) e;
  sound = λ c. cc;
  complete = λ _ v. absurd (n v);
}

-- Steps one after the other.
pub Checks-then :
    (s t u : Progress) (V W : Type 0) → Checks s t V → Checks t u W → Checks s u (V × W)
Checks-then s t u V W c d = record {
  same_buffer = d.same_buffer ∙ c.same_buffer;
  same_directory = d.same_directory ∙ c.same_directory;
  sound = λ k. let (l, w) = d.sound k in let (m, v) = c.sound l in (m, (v, w));
  complete = λ k (v, w). d.complete (c.complete k v) w;
}

pub Checks-iff : (s t : Progress) (V W : Type 0) → Checks s t V → V ↔ W → Checks s t W
Checks-iff s t V W c i = record {
  same_buffer = c.same_buffer;
  same_directory = c.same_directory;
  sound = λ k. let (l, v) = c.sound k in (l, i.0 v);
  complete = λ k w. c.complete k (i.1 w);
}

-- The pages of a directory that passed the tests: the source's uint64 sums do not wrap.
pub record IsBounded (p : Pages) : Type 0 where
  pub base_bound : p.slice_base < 2 ^ 62
  pub limit_bound : p.code_limit < 2 ^ 32
  pub page_size_bound : p.page_size ≤ 2 ^ 16

product_bound : (i n : ℕ) → i ≤ 2 ^ 32 → n ≤ 2 ^ 16 → i * n ≤ 2 ^ 48
product_bound i n h k = grind arith

module _ (p : Pages) (bounded : IsBounded p) (i : ℕ) (small : i < 2 ^ 32) where
  page_start-page_lo : page_start p i ≡ page_lo p i
  unfolding page_start
  page_start-page_lo =
      omega (arith, product_bound i p.page_size (omega arith) bounded.page_size_bound)

  page_end-page_hi : page_end p i ≡ page_hi p i
  unfolding page_end
  page_end-page_hi =
      ground (arith, product_bound (i + 1) p.page_size (omega arith) bounded.page_size_bound)

  -- What one slot that lies in the file does, by the tests on its page.
  fixup_slot_out :
      (s s' : Progress)
      → (ltb (length s.buffer.bytes) (page_hi p i) || ltb (page_hi p i) (page_lo p i)) ≡ true
      → fixup_slot false p i s ≡ some s'
      → s' ≡ suspect s
  unfolding fixup_slot
  fixup_slot_out s s' out e = ground (arith, page_start-page_lo, page_end-page_hi)

  fixup_slot_in :
      (s s' : Progress)
      → (ltb (length s.buffer.bytes) (page_hi p i) || ltb (page_hi p i) (page_lo p i)) ≡ false
      → p.slots_abs + i * p.hash_size + p.hash_size ≤ length s.buffer.bytes
      → fixup_slot false p i s ≡ some s'
      → s' ≡ (
          if bytes_equal
            (window s.buffer.bytes (p.slots_abs + i * p.hash_size) p.hash_size)
            (p.digest (window s.buffer.bytes (page_lo p i) (page_hi p i - page_lo p i)))
          then s
          else record s { modified = true })
  unfolding fixup_slot rewrite_slot
  fixup_slot_in s s' inside h e =
      let b = s.buffer.bytes in
      let slot = p.slots_abs + i * p.hash_size in
      ground (
        arith,
        page_start-page_lo,
        page_end-page_hi,
        rd_slice_within b (page_lo p i) (page_hi p i) (ground arith) (ground arith),
        rd_slice-window b slot p.hash_size h,
      )

  fixup_slot-Checks :
      (s s' : Progress)
      → p.slots_abs + i * p.hash_size + p.hash_size ≤ length s.buffer.bytes
      → fixup_slot false p i s ≡ some s'
      → Checks s s' (IsPageValid s.buffer.bytes p i)
  fixup_slot-Checks s s' h e =
      let b = s.buffer.bytes in
      let slot = window b (p.slots_abs + i * p.hash_size) p.hash_size in
      let sum = p.digest (window b (page_lo p i) (page_hi p i - page_lo p i)) in
      elim (Bool-cases (ltb (length b) (page_hi p i) || ltb (page_hi p i) (page_lo p i))) [
        | inl out ↦
            failing_unverifiable s s' _ (fixup_slot_out s s' out e)
              λ v. ground (arith, v.ordered, v.in_file)
        | inr inside ↦ elim (Bool-cases (bytes_equal slot sum)) [
          | inl same ↦ passing s s' _ (ground (arith, fixup_slot_in s s' inside h e)) (record {
            ordered = ground arith;
            in_file = ground arith;
            hashed = (bytes_equal_iff slot sum).0 same;
          })
          | inr stale ↦
              failing_modified s s' _ (ground (arith, fixup_slot_in s s' inside h e))
                λ v. ground (arith, (bytes_equal_iff slot sum).1 v.hashed)
        ]
      ]

-- The pages from `i` on, `n` of them.
abbrev pub ArePagesValid : List ℕ → Pages → ℕ → ℕ → Type 0
ArePagesValid b p = ForRange (IsPageValid b p)

-- The loop over the slots.
pub fixup_slots-Checks :
    (b : List ℕ) (p : Pages) (n i : ℕ) (s s' : Progress)
    → IsBounded p
    → i + n ≤ 2 ^ 32
    → s.buffer.bytes ≡ b
    → p.slots_abs + (i + n) * p.hash_size ≤ length b
    → fixup_slots false p n i s ≡ some s'
    → Checks s s' (ArePagesValid b p n i)
unfolding fixup_slots
fixup_slots-Checks b p zero i s s' bounded few eb h e =
    passing s s' _ (ground arith) (ForRange-zero _ i)
fixup_slots-Checks b p (suc n) i s s' bounded few eb h e =
    elim (Option-cases (fixup_slot false p i s)) [
      | inl stuck ↦ absurd (ground arith)
      | inr (t, f) ↦
          let fits : p.slots_abs + i * p.hash_size + p.hash_size ≤ length b = grind arith in
          let first =
            subst (λ x. Checks s t (IsPageValid x p i)) eb
              (fixup_slot-Checks p bounded i (omega arith) s t (rw eb fits) f) in
          let rest =
            fixup_slots-Checks b p n (i + 1) t s' bounded (omega arith)
              (ap (λ (c : Buffer). c.bytes) first.same_buffer ∙ eb) (grind arith) (ground arith) in
          Checks-iff s s' _ _ (Checks-then s t s' _ _ first rest)
            (ForRange-suc (IsPageValid b p) n i)
    ]
