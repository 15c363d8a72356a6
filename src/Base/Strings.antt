-- ===== src/Base/Strings.antt =====
-- Go's `==` on strings.
use Prim.Native.String.{String}
use mathlib.Core.Path.{◌≡◌, refl}
use mathlib.Core.Logic.{◌↔◌, ◌≢◌}
use mathlib.Core.Bool.{Bool, true, false}
use native.Mathlib.Omega.{arith}
use text.Mathlib.Text
use text.Mathlib.TextEquality.{eq_iff}

unfoldable pub eq_string : String → String → Bool
eq_string s t = Text.◌==◌ s t

pub eq_string_iff : (s t : String) → (eq_string s t ≡ true) ↔ (s ≡ t)
unfolding eq_string
eq_string_iff s t = eq_iff s t

pub eq_string_refl : (s : String) → eq_string s s ≡ true
eq_string_refl s = (eq_string_iff s s).1 refl

pub eq_string_ne : (s t : String) → s ≢ t → eq_string s t ≡ false
eq_string_ne s t n = ground (arith, eq_string_iff s t)
