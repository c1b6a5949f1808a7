-- ===== src/Prelude/Decimal.antt =====
-- Decimal numbers in texts: `std::to_string` of a number that is not negative, and `atoi`.
use Prim.Native.Nat.{ℕ, zero, suc, ◌+◌, ◌-◌, ◌*◌, ◌/◌, ◌%◌, ◌<◌}
use mathlib.Core.Path.{◌≡◌, refl, ap, ◌∙◌}
use mathlib.Core.Logic.{inl, inr}
use mathlib.Core.Bool.{Bool, true, false, ◌&&◌, ◌||◌}
use mathlib.Core.List.{[], ◌∷◌}
use native.Mathlib.Omega.{arith}
use atzc.Prelude.Tests.{leb, ltb, ◌==◌, if◌then◌else◌, Bool-cases}
use atzc.Prelude.Lists.{All}
use atzc.Prelude.Int.{ℤ, pos, negsuc}
use atzc.Prelude.Text.{Text}

abbrev pub is_digit : ℕ → Bool
is_digit c = leb 48 c && leb c 57

-- The digits of a number in front of `acc`; a number has fewer digits than its successor's value.
unfoldable pub digits : ℕ → ℕ → Text → Text
digits zero n acc = acc
digits (suc f) n acc =
    let rest = digits f (n / 10) ((48 + n % 10) ∷ acc) in if ltb n 10 then (48 + n) ∷ acc else rest

unfoldable pub to_string : ℕ → Text
unfolding digits
to_string n = digits (suc n) n []

-- The digits up to the first other byte.
unfoldable pub read_digits : ℕ → Text → ℕ
read_digits v [] = v
read_digits v (c ∷ s) =
    let rest = read_digits (v * 10 + (c - 48)) s in if is_digit c then rest else v

abbrev pub is_space : ℕ → Bool
is_space c = c == 32 || (leb 9 c && leb c 13)

unfoldable pub skip_space : Text → Text
skip_space [] = []
skip_space (c ∷ s) = if is_space c then skip_space s else c ∷ s

-- The number is negative behind a minus sign.
unfoldable pub minus : ℕ → ℤ
minus zero = pos zero
minus (suc n) = negsuc n

-- `atoi` for values that an `int` holds.
unfoldable pub signed : Text → ℤ
unfolding minus
signed [] = pos 0
signed (c ∷ s) =
    if c == 45
    then minus (read_digits 0 s)
    else if c == 43
    then pos (read_digits 0 s)
    else pos (read_digits 0 (c ∷ s))

unfoldable pub atoi : Text → ℤ
unfolding signed skip_space
atoi s = signed (skip_space s)

read_digit :
    (v k : ℕ) (s : Text) → k < 10 → read_digits v ((48 + k) ∷ s) ≡ read_digits (v * 10 + k) s
unfolding read_digits
read_digit v k s h =
    let digit : is_digit (48 + k) ≡ true = ground arith in
    let value : v * 10 + (48 + k - 48) ≡ v * 10 + k = omega arith in
    rw digit (ap (λ x. read_digits x s) value)

read_digits-digits :
    (f n : ℕ) (acc : Text) → n < f → read_digits 0 (digits f n acc) ≡ read_digits n acc
unfolding digits
read_digits-digits zero n acc h = absurd (omega arith)
read_digits-digits (suc f) n acc h = elim (Bool-cases (ltb n 10)) [
  | inl e ↦
      let value : 0 * 10 + n ≡ n = omega arith in
      rw e (read_digit 0 n acc (ground arith) ∙ ap (λ x. read_digits x acc) value)
  | inr e ↦
      let whole : n / 10 * 10 + n % 10 ≡ n = omega arith in
      rw e (
        read_digits-digits f (n / 10) ((48 + n % 10) ∷ acc) (ground arith)
        ∙ read_digit (n / 10) (n % 10) acc (omega arith)
        ∙ ap (λ x. read_digits x acc) whole)
]

abbrev pub AreDigits : Text → Type 0
AreDigits = All (λ c. is_digit c ≡ true)

digits-All : (f n : ℕ) (acc : Text) → AreDigits acc → AreDigits (digits f n acc)
unfolding digits
digits-All zero n acc h = h
digits-All (suc f) n acc h = elim (Bool-cases (ltb n 10)) [
  | inl e ↦ rw e (ground arith, h)
  | inr e ↦ rw e (digits-All f (n / 10) ((48 + n % 10) ∷ acc) (ground arith, h))
]

pub to_string-AreDigits : (n : ℕ) → AreDigits (to_string n)
unfolding to_string
to_string-AreDigits n = digits-All (suc n) n [] tt

atoi_digits : (s : Text) → AreDigits s → atoi s ≡ pos (read_digits 0 s)
unfolding atoi read_digits
atoi_digits [] h = refl
atoi_digits (c ∷ s) h =
    let first : is_space c ≡ false = ground (arith, h.0) in
    let no_minus : (c == 45) ≡ false = ground (arith, h.0) in
    let no_plus : (c == 43) ≡ false = ground (arith, h.0) in rw (first, no_minus, no_plus) refl

-- `atoi` reads back what `to_string` writes.
pub atoi-to_string : (n : ℕ) → atoi (to_string n) ≡ pos n
unfolding to_string read_digits
atoi-to_string n =
    atoi_digits (to_string n) (to_string-AreDigits n)
    ∙ ap pos (read_digits-digits (suc n) n [] (omega arith))
