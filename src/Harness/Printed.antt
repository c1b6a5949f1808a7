-- ===== src/Harness/Printed.antt =====
-- What a harness prints: `daemon_out` and `at_daemon_emit_result` of
-- engine/native/AtTipLoad/AtTipLoad.c.
use atzc.Prelude.{◌≡◌, refl, ap, sym, ◌∙◌, List, [], ◌∷◌, ◌++◌, some, map, append_assoc}
use atzc.Prelude.Text.{Text, codes}
use atzc.Lines.{take_line}
use atzc.Lines.Framing.{OneLine, take_line-append}
use atzc.Harness.{drop_cr}

-- Lines, each with its "\r\n", in front of other output.
unfoldable pub lines : List Text → Text → Text
lines [] rest = rest
lines (l ∷ ls) rest = l ++ 13 ∷ 10 ∷ lines ls rest

abbrev pub commit_line : Text → Text
commit_line t = codes "ATD COMMIT " ++ t

abbrev pub cand_line : Text → Text
cand_line t = codes "ATD CAND " ++ t

-- The line of the top-1, which there is only if a candidate was captured.
unfoldable pub top_line : List Text → List Text
top_line [] = []
top_line (c ∷ cs) = commit_line c ∷ []

-- The block for the captured candidates, in front of other output.
unfoldable pub emit_result : List Text → Text → Text
unfolding lines top_line
emit_result captured rest =
    lines (codes "ATD BEGIN" ∷ top_line captured)
      (lines (map cand_line captured) (lines (codes "ATD END" ∷ []) rest))

pub OneLine-append : (m t : Text) → OneLine m → OneLine t → OneLine (m ++ t)
OneLine-append [] t h k = k
OneLine-append (c ∷ m) t h k = (h.0, OneLine-append m t h.1 k)

-- A reader drops the one carriage return that the harness has added.
pub drop_cr-append : (t : Text) → drop_cr (t ++ 13 ∷ []) ≡ t
unfolding drop_cr
drop_cr-append [] = refl
drop_cr-append (c ∷ []) = refl
drop_cr-append (c ∷ d ∷ t) = ap (◌∷◌ c) (drop_cr-append (d ∷ t))

pub take_line-printed :
    (l rest : Text) → OneLine l → take_line (l ++ 13 ∷ 10 ∷ rest) ≡ some (l ++ 13 ∷ [], rest)
take_line-printed l rest h =
    ap take_line (sym (append_assoc l (13 ∷ []) (10 ∷ rest)))
    ∙ take_line-append (l ++ 13 ∷ []) rest (OneLine-append l (13 ∷ []) h (refl, tt))
