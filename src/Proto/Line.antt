-- ===== src/Proto/Line.antt =====
-- The one line that `join_tabs` makes (src/include/atzc/proto.h): it ends at the first end of line.
use atzc.Prelude.{◌≡◌, refl, ap, sym, ◌∙◌, List, [], ◌∷◌, ◌++◌, append_assoc, All, arith, some}
use atzc.Prelude.Text.{Text}
use atzc.Lines.{take_line}
use atzc.Lines.Framing.{OneLine, take_line-append}
use atzc.Proto.{split_from, split_tabs, join_rest, join_tabs}
use atzc.Proto.Laws.{IsPlain, split_from-append}

-- The fields behind the first one, without the end of the line.
body : List Text → Text
body [] = []
body (f ∷ fs) = 9 ∷ (f ++ body fs)

join_rest-body : (fs : List Text) → join_rest fs ≡ body fs ++ 10 ∷ []
unfolding join_rest body
join_rest-body [] = refl
join_rest-body (f ∷ fs) =
    ap (λ l. 9 ∷ (f ++ l)) (join_rest-body fs)
    ∙ ap (◌∷◌ 9) (sym (append_assoc f (body fs) (10 ∷ [])))

OneLine-append : (f l : Text) → All IsPlain f → OneLine l → OneLine (f ++ l)
OneLine-append [] l h o = o
OneLine-append (c ∷ f) l h o = (ground arith, OneLine-append f l h.1 o)

body-OneLine : (fs : List Text) → All (All IsPlain) fs → OneLine (body fs)
unfolding body
body-OneLine [] h = tt
body-OneLine (f ∷ fs) h = (refl, OneLine-append f (body fs) h.0 (body-OneLine fs h.1))

split_from-body :
    (fs : List Text) (cur : Text) → All (All IsPlain) fs → split_from (body fs) cur ≡ cur ∷ fs
unfolding split_from body
split_from-body [] cur h = refl
split_from-body (f ∷ fs) cur h =
    ap (◌∷◌ cur) (split_from-append f (body fs) [] h.0 ∙ split_from-body fs f h.1)

-- Fields without a tab or an end of line make one line, and the line splits into them.
pub take_line-join_tabs :
    (f : Text) (fs : List Text)
    → All (All IsPlain) (f ∷ fs)
    → (l : Text) × (take_line (join_tabs (f ∷ fs)) ≡ some (l, [])) × (split_tabs l ≡ f ∷ fs)
unfolding join_tabs split_tabs
take_line-join_tabs f fs h =
    let l = f ++ body fs in
    let one : f ++ join_rest fs ≡ l ++ 10 ∷ [] =
      ap (λ t. f ++ t) (join_rest-body fs) ∙ sym (append_assoc f (body fs) (10 ∷ [])) in
    (
      l,
      ap take_line one
          ∙ take_line-append l [] (OneLine-append f (body fs) h.0 (body-OneLine fs h.1)),
      split_from-append f (body fs) [] h.0 ∙ split_from-body fs f h.1,
    )
