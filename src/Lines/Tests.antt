-- ===== src/Lines/Tests.antt =====
-- Lines that arrive in pieces.
use atzc.Prelude.{◌≡◌, refl, List, [], ◌∷◌, ◌++◌, arith}
use atzc.Prelude.Text.{Text, codes}
use atzc.Lines.{Read, bytes, interrupted, got, read_line}
use atzc.Lines.Framing.{read_line-arrived, arrived}

abbrev answers : List Read
answers = bytes (codes "pi") ∷ interrupted ∷ bytes (codes "ng\nke") ∷ []

answers_arrived : [] ++ arrived answers ≡ codes "ping" ++ 10 ∷ codes "ke"
unfolding arrived
answers_arrived = refl

read_line-arrived_example :
    (kept : Text) × (left : List Read) × (read_line answers [] ≡ got (codes "ping") kept left)
    × (kept ++ arrived left ≡ codes "ke")
unfolding arrived
read_line-arrived_example =
    read_line-arrived answers [] (codes "ping") (codes "ke") (tt, (tt, (tt, tt))) (ground arith)
      answers_arrived
