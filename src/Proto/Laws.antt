-- ===== src/Proto/Laws.antt =====
-- Fields without a tab or an end of line survive the way through a line, and lines through fields.
use atzc.Prelude.{
  ℕ, ◌≡◌, refl, ap, sym, ◌∙◌, false, List, [], ◌∷◌, ◌++◌, ◌==◌, append-nil, append_assoc, All,
  Bool-cases, inl, inr, if◌then◌else◌, ==_eq,
}
use atzc.Prelude.Text.{Text}
use atzc.Proto.{is_eol, split_from, split_tabs, join_rest, join_tabs}

-- A byte that stands for itself in a field.
abbrev pub IsPlain : ℕ → Type 0
IsPlain c = ((c == 9) ≡ false) × (is_eol c ≡ false)

pub split_from-append :
    (f rest cur : Text) → All IsPlain f → split_from (f ++ rest) cur ≡ split_from rest (cur ++ f)
unfolding split_from
split_from-append [] rest cur h = ap (split_from rest) (sym (append-nil cur))
split_from-append (c ∷ f) rest cur h =
    rw (h.0.0, h.0.1, split_from)
      (split_from-append f rest (cur ++ c ∷ []) h.1
        ∙ ap (split_from rest) (append_assoc cur (c ∷ []) f))

split_from-join_rest :
    (fs : List Text) (cur : Text) → All (All IsPlain) fs → split_from (join_rest fs) cur ≡ cur ∷ fs
unfolding split_from join_rest
split_from-join_rest [] cur h = refl
split_from-join_rest (f ∷ fs) cur h =
    ap (◌∷◌ cur) (split_from-append f (join_rest fs) [] h.0 ∙ split_from-join_rest fs f h.1)

-- Fields without a tab or an end of line come back from the line that `join_tabs` makes of them.
pub split_tabs-join_tabs :
    (f : Text) (fs : List Text)
    → All (All IsPlain) (f ∷ fs)
    → split_tabs (join_tabs (f ∷ fs)) ≡ f ∷ fs
unfolding split_tabs join_tabs
split_tabs-join_tabs f fs h =
    split_from-append f (join_rest fs) [] h.0 ∙ split_from-join_rest fs f h.1

-- The line without the ends of line in it.
pub drop_eol : Text → Text
drop_eol [] = []
drop_eol (c ∷ s) = if is_eol c then drop_eol s else c ∷ drop_eol s

join_rest-split_from :
    (s cur : Text) → join_rest (split_from s cur) ≡ 9 ∷ (cur ++ (drop_eol s ++ 10 ∷ []))
unfolding split_from join_rest drop_eol
join_rest-split_from [] cur = refl
join_rest-split_from (c ∷ s) cur = elim (Bool-cases (c == 9)) [
  | inl tab ↦
      let e : c ≡ 9 = ==_eq c 9 tab in rw e (ap (λ l. 9 ∷ (cur ++ l)) (join_rest-split_from s []))
  | inr other ↦ elim (Bool-cases (is_eol c)) [
    | inl end ↦ rw (other, end, split_from) (join_rest-split_from s cur)
    | inr plain ↦
        rw (other, plain, split_from)
          (join_rest-split_from s (cur ++ c ∷ [])
            ∙ ap (◌∷◌ 9) (append_assoc cur (c ∷ []) (drop_eol s ++ 10 ∷ [])))
  ]
]

join_tabs-split_from :
    (s cur : Text) → join_tabs (split_from s cur) ≡ cur ++ (drop_eol s ++ 10 ∷ [])
unfolding split_from join_tabs drop_eol
join_tabs-split_from [] cur = refl
join_tabs-split_from (c ∷ s) cur = elim (Bool-cases (c == 9)) [
  | inl tab ↦ let e : c ≡ 9 = ==_eq c 9 tab in rw e (ap (λ l. cur ++ l) (join_rest-split_from s []))
  | inr other ↦ elim (Bool-cases (is_eol c)) [
    | inl end ↦ rw (other, end, split_from) (join_tabs-split_from s cur)
    | inr plain ↦
        rw (other, plain, split_from)
          (join_tabs-split_from s (cur ++ c ∷ [])
            ∙ append_assoc cur (c ∷ []) (drop_eol s ++ 10 ∷ []))
  ]
]

-- The fields of any line make the same line again, without the carriage returns and ends of line
-- that stood in it and with one at its end.
pub join_tabs-split_tabs : (line : Text) → join_tabs (split_tabs line) ≡ drop_eol line ++ 10 ∷ []
unfolding split_tabs
join_tabs-split_tabs line = join_tabs-split_from line []
