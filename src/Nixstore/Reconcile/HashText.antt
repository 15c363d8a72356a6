-- ===== src/Nixstore/Reconcile/HashText.antt =====
-- internal/nixstore/narhash.go: the text of `NarHash` stands on one line.
use machokeeper.Base.{
  ℕ, zero, suc, ◌+◌, ◌*◌, ◌/◌, ◌%◌, ◌^◌, ◌<◌, ◌≡◌, ap, false, Option, none, some, List, ◌++◌, ◌>>=◌,
  length, get_elem?, codes, Lacks, Lacks-append, get_elem?-Lacks, OnSome, OnSome-bind, OnSome-elim,
  Returns, arith, ◌==◌,
}
use machokeeper.Nixstore.Base32.{
  nix_base32_alphabet, or_next, character, characters, base32_length, nix_base32, nar_hash,
}
use machokeeper.Nixstore.Base32.Digits.{IsBytes}
use machokeeper.Nixstore.Base32.Value.{nix_base32-le_value}

alphabet-Lacks : Lacks b'\n' nix_base32_alphabet
alphabet-Lacks = ground arith

OnSome-Unit : (m : Option ℕ) → OnSome (λ _. Unit {0}) m
OnSome-Unit none = tt
OnSome-Unit (some a) = tt

character-Lacks : (xs : List ℕ) (n : ℕ) → OnSome (λ c. (c == b'\n') ≡ false) (character xs n)
unfolding character
character-Lacks xs n =
    OnSome-bind (λ _. Unit {0}) (λ c. (c == b'\n') ≡ false) (get_elem? xs (n * 5 / 8)) _
      (OnSome-Unit _)
      (λ x _.
        get_elem?-Lacks b'\n' nix_base32_alphabet
          (or_next (n * 5 % 8) (x / 2 ^ (n * 5 % 8)) (get_elem? xs (n * 5 / 8 + 1)) % 2 ^ 5)
          alphabet-Lacks)

characters-Lacks : (xs : List ℕ) (n : ℕ) → OnSome (Lacks b'\n') (characters xs n)
unfolding characters
characters-Lacks xs zero = tt
characters-Lacks xs (suc n) =
    OnSome-bind (λ c. (c == b'\n') ≡ false) (Lacks b'\n') (character xs n) _ (character-Lacks xs n)
      (λ c hc.
        OnSome-bind (Lacks b'\n') (Lacks b'\n') (characters xs n) _ (characters-Lacks xs n)
          (λ cs h. (hc, h)))

-- `NarHash` does not panic, and its text has no line's end in it, if a digest is a list of bytes and
-- not empty.
pub nar_hash-Lacks :
    (sha256 : List ℕ → List ℕ) (nar : List ℕ)
    → IsBytes (sha256 nar)
    → 0 < length (sha256 nar)
    → Returns (Lacks b'\n') (nar_hash sha256 nar)
unfolding nar_hash nix_base32
nar_hash-Lacks sha256 nar all some_bytes =
    let digest = sha256 nar in
    let (s, e, _) = nix_base32-le_value digest all some_bytes in
    let lacks =
      OnSome-elim (Lacks b'\n') (characters digest (base32_length digest)) s
        (characters-Lacks digest (base32_length digest)) e in
    (
      codes "sha256:" ++ s,
      ap (λ (o : Option (List ℕ)). o >>= (λ t. some (codes "sha256:" ++ t))) e,
      Lacks-append b'\n' (codes "sha256:") s (ground arith) lacks,
    )
