-- ===== src/Lines/Framing.antt =====
-- The lines that a reader gets do not depend on how the bytes arrive.
use atzc.Prelude.{
  ◌≡◌, refl, ap, sym, ◌∙◌, ◌≢◌, false, List, [], ◌∷◌, ◌++◌, ◌==◌, append-nil, append_assoc, All,
  inl, inr, arith, Option, none, some, Option-cases, length, ◌<◌,
}
use atzc.Prelude.Text.{Text}
use atzc.Lines.{take_line, Read, bytes, interrupted, closed, failed, got, line_or, read_line}

-- A text without an end of line.
abbrev pub OneLine : Text → Type 0
OneLine = All (λ c. (c == 10) ≡ false)

pub take_line-append : (l rest : Text) → OneLine l → take_line (l ++ 10 ∷ rest) ≡ some (l, rest)
unfolding take_line
take_line-append [] rest h = refl
take_line-append (c ∷ l) rest h = rw (h.0, take_line, take_line-append l rest h.1) refl

pub take_line-OneLine : (s : Text) → OneLine s → take_line s ≡ none
unfolding take_line
take_line-OneLine [] h = refl
take_line-OneLine (c ∷ s) h = rw (h.0, take_line, take_line-OneLine s h.1) refl

-- Bytes that arrive later leave the first line as it is.
pub take_line_more :
    (s b l r : Text) → take_line s ≡ some (l, r) → take_line (s ++ b) ≡ some (l, r ++ b)
unfolding take_line
take_line_more [] b l r h = cc
take_line_more (c ∷ s) b l r h = elim (Option-cases (take_line s)) [
  | inl e ↦ ground arith
  | inr (p, e) ↦ ground (arith, take_line_more s b p.0 p.1 e)
]

pub length-take_line : (s l r : Text) → take_line s ≡ some (l, r) → length r < length s
unfolding take_line
length-take_line [] l r h = cc
length-take_line (c ∷ s) l r h = elim (Option-cases (take_line s)) [
  | inl e ↦ ground arith
  | inr (p, e) ↦ ground (arith, length-take_line s p.0 p.1 e)
]

-- The bytes that a list of answers brings.
unfoldable pub arrived : List Read → Text
arrived [] = []
arrived (bytes b ∷ es) = b ++ arrived es
arrived (e ∷ es) = arrived es

-- No answer is the end of the stream or an error.
abbrev pub Alive : Read → Type 0
Alive closed = ⊥
Alive failed = ⊥
Alive _ = Unit

line_here :
    (buf tail l rest : Text) (p : Text × Text)
    → take_line buf ≡ some p
    → OneLine l
    → buf ++ tail ≡ l ++ 10 ∷ rest
    → (p.0 ≡ l) × (p.1 ++ tail ≡ rest)
line_here buf tail l rest p e o h =
    let both : ◌≡◌ {A = Option (Text × Text)} (some (p.0, p.1 ++ tail)) (some (l, rest)) =
      sym (take_line_more buf tail p.0 p.1 e) ∙ ap take_line h ∙ take_line-append l rest o in
    (cc, cc)

read_line_found :
    (es : List Read) (buf : Text) (p : Text × Text)
    → take_line buf ≡ some p
    → read_line es buf ≡ got p.0 p.1 es
unfolding read_line
read_line_found [] buf p h = rw (h, read_line, line_or) refl
read_line_found (bytes b ∷ es) buf p h = rw (h, read_line, line_or) refl
read_line_found (interrupted ∷ es) buf p h = rw (h, read_line, line_or) refl
read_line_found (closed ∷ es) buf p h = rw (h, read_line, line_or) refl
read_line_found (failed ∷ es) buf p h = rw (h, read_line, line_or) refl

line_missing : (buf l rest : Text) → take_line buf ≡ none → OneLine l → buf ++ [] ≢ l ++ 10 ∷ rest
line_missing buf l rest e o = λ h.
    let found : ◌≡◌ {A = Option (Text × Text)} none (some (l, rest)) =
      sym e ∙ ap take_line (sym (append-nil buf) ∙ h) ∙ take_line-append l rest o in
    cc

arrived_here :
    (es : List Read) (buf l rest : Text) (p : Text × Text)
    → take_line buf ≡ some p
    → OneLine l
    → buf ++ arrived es ≡ l ++ 10 ∷ rest
    → (kept : Text) × (left : List Read) × (read_line es buf ≡ got l kept left)
      × (kept ++ arrived left ≡ rest)
arrived_here es buf l rest p e o h =
    let here = line_here buf (arrived es) l rest p e o h in
    (p.1, es, rw (← here.0) (read_line_found es buf p e), here.1)

-- A reader gets the line whose bytes and end of line have arrived, however they were cut into
-- answers and whatever came behind them; the rest of what arrived is kept or still to be read.
pub read_line-arrived :
    (es : List Read) (buf l rest : Text)
    → All Alive es
    → OneLine l
    → buf ++ arrived es ≡ l ++ 10 ∷ rest
    → (kept : Text) × (left : List Read) × (read_line es buf ≡ got l kept left)
      × (kept ++ arrived left ≡ rest)
unfolding read_line arrived
read_line-arrived [] buf l rest a o h = elim (Option-cases (take_line buf)) [
  | inr (p, e) ↦ arrived_here [] buf l rest p e o h
  | inl e ↦ absurd (line_missing buf l rest e o h)
]
read_line-arrived (bytes b ∷ es) buf l rest a o h = elim (Option-cases (take_line buf)) [
  | inr (p, e) ↦ arrived_here (bytes b ∷ es) buf l rest p e o h
  | inl e ↦
      let h' = append_assoc buf b (arrived es) ∙ h in
      let (kept, left, read, end) = read_line-arrived es (buf ++ b) l rest a.1 o h' in
      (kept, left, rw (e, read_line, line_or) read, end)
]
read_line-arrived (interrupted ∷ es) buf l rest a o h = elim (Option-cases (take_line buf)) [
  | inr (p, e) ↦ arrived_here (interrupted ∷ es) buf l rest p e o h
  | inl e ↦
      let (kept, left, read, end) = read_line-arrived es buf l rest a.1 o h in
      (kept, left, rw (e, read_line, line_or) read, end)
]
read_line-arrived (closed ∷ es) buf l rest a o h = absurd a.0
read_line-arrived (failed ∷ es) buf l rest a o h = absurd a.0
