-- ===== src/Prelude/Text.antt =====
-- Texts as lists of bytes: literals, comparison, prefixes, and maps with text keys.
use Prim.Native.Nat.{ℕ}
use Prim.Native.Char.{code}
use Prim.Native.String.{String}
use mathlib.Core.Path.{◌≡◌, refl}
use mathlib.Core.Bool.{Bool, true, false, ◌&&◌}
use mathlib.Core.List.{List, [], ◌∷◌, ◌++◌}
use mathlib.Core.Option.{Option, none, some}
use native.Mathlib.Omega.{arith}
use atzc.Prelude.Tests.{◌==◌, if◌then◌else◌}

abbrev pub Text : Type 0
Text = List ℕ

-- The bytes of a literal, which is ASCII wherever it is used.
abbrev pub codes : String → Text
codes String.[] = []
codes (String.◌∷◌ c s) = code c ∷ codes s

unfoldable pub same : Text → Text → Bool
same [] [] = true
same [] (d ∷ t) = false
same (c ∷ s) [] = false
same (c ∷ s) (d ∷ t) = (c == d) && same s t

pub same_refl : (s : Text) → same s s ≡ true
unfolding same
same_refl [] = refl
same_refl (c ∷ s) = ground (arith, same_refl s)

pub same_eq : (s t : Text) → same s t ≡ true → s ≡ t
unfolding same
same_eq [] [] h = refl
same_eq [] (d ∷ t) h = cc
same_eq (c ∷ s) [] h = cc
same_eq (c ∷ s) (d ∷ t) h = ground (arith, same_eq s t)

-- `s.rfind(marker, 0) == 0` with `s.substr(marker.size())`.
unfoldable pub strip_prefix : Text → Text → Option Text
strip_prefix [] s = some s
strip_prefix (c ∷ m) [] = none
strip_prefix (c ∷ m) (d ∷ s) = if c == d then strip_prefix m s else none

pub strip_prefix-append : (m s : Text) → strip_prefix m (m ++ s) ≡ some s
unfolding strip_prefix
strip_prefix-append [] s = refl
strip_prefix-append (c ∷ m) s = ground (arith, strip_prefix-append m s)

unfoldable pub is_empty : {A : Type 0} → List A → Bool
is_empty [] = true
is_empty (c ∷ s) = false
