-- ===== src/Hook/Closure.antt =====
-- internal/hook/hook.go: `closureDelta`.
use machokeeper.Base.{
  At, here, there, At-nil, At-cons, ◌≡◌, ◌≢◌, ◌↔◌, sym, ap, String, true, Option, some, List, [],
  ◌∷◌, arith, inl, inr, Bool-cases, eq_string, eq_string_iff, eq_string_ne, ◌&&◌, not,
}
use machokeeper.Hook.{seen, not_seen, without, closure_delta}

pub seen-At : (qs : List String) (p : String) → (seen qs p ≡ true) ↔ At p qs
unfolding seen
seen-At [] p = (λ h. absurd (ground arith), λ a. absurd (At-nil p a))
seen-At (q ∷ qs) p = elim (Bool-cases (eq_string q p)) [
  | inl e ↦ (λ h. here (sym ((eq_string_iff q p).0 e)), λ a. ground arith)
  | inr e ↦ (
    λ h. there ((seen-At qs p).0 (ground arith)),
    λ a. elim (At-cons p q qs a) [
      | inl s ↦ absurd (ground (arith, (eq_string_iff q p).1 (sym s)))
      | inr b ↦ ground (arith, (seen-At qs p).1 b)
    ],
  )
]

seen-not_seen :
    (old new : List String) (p : String)
    → seen (not_seen old new) p ≡ (seen new p && not (seen old p))
unfolding seen not_seen
seen-not_seen old [] p = ground arith
seen-not_seen old (q ∷ qs) p = elim (Bool-cases (eq_string q p)) [
  | inl e ↦ ground (arith, seen-not_seen old qs p, ap (seen old) ((eq_string_iff q p).0 e))
  | inr e ↦ ground (arith, seen-not_seen old qs p)
]

-- If both queries of `closureDelta` succeed and the old path is not empty, then it returns a delta,
-- in which stand exactly the paths of the new closure that are not in the old one.
pub closure_delta-At :
    (requisites : String → Option (List String)) (new_path old_path : String)
    (new old : List String)
    → requisites new_path ≡ some new
    → requisites old_path ≡ some old
    → old_path ≢ ""
    → (delta : List String) × (closure_delta requisites new_path old_path ≡ some delta)
      × ((p : String) → At p delta ↔ (At p new × ¬ At p old))
unfolding closure_delta without
closure_delta-At requisites new_path old_path new old e f n =
    let m = eq_string_ne old_path "" n in
    (
      not_seen old new,
      ground (arith, e, f, m),
      λ p.
          let s = seen-not_seen old new p in
          let d = seen-At (not_seen old new) p in
          let a = seen-At new p in
          let o = seen-At old p in
          (
            λ at. let t = d.1 at in (a.0 (ground arith), λ b. absurd (ground (arith, o.1 b))),
            λ (at, off). elim (Bool-cases (seen old p)) [
              | inl t ↦ absurd (off (o.0 t))
              | inr t ↦ d.0 (ground (arith, a.1 at))
            ],
          ),
    )
