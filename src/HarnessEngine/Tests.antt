-- ===== src/HarnessEngine/Tests.antt =====
-- The harness engine on a harness for tests.
use atzc.Prelude.{◌≡◌, refl, true, List, [], ◌∷◌, ◌++◌, none, some, map, arith}
use atzc.Prelude.Int.{pos}
use atzc.Prelude.Returns.{Returns}
use atzc.Prelude.Text.{Text, codes, strip_prefix}
use atzc.Proto.{no_result}
use atzc.Session.{Answer}
use atzc.Harness.{Reading, bytes}
use atzc.Harness.Chunks.{concat}
use atzc.Harness.Printed.{lines, top_line, emit_result}
use atzc.Harness.Script.{Echo, stopped, echo, echo_chatter, echo-Settles, echo_bound, scripted}
use atzc.HarnessEngine.{HarnessEngine, read_block, top_one, convert}
use atzc.HarnessEngine.Waits.{conversions_total}
use atzc.HarnessEngine.Blocks.{captured_result, read_block-emit_result}

abbrev captured : List Text
captured = codes "A" ∷ codes "B" ∷ []

abbrev pieces : List Text
pieces =
    codes "log\r\nATD BEGIN\r\nATD COM"
    ∷ codes "MIT A\r\nATD CAND A\r"
    ∷ codes "\nATD CAND B\r\nATD END\r\nrest"
    ∷ []

abbrev engine : HarnessEngine (List Reading)
engine = record { proc = map bytes pieces; rbuf = [] }

pieces_block : [] ++ concat pieces ≡ lines (codes "log" ∷ []) (emit_result captured (codes "rest"))
unfolding concat emit_result top_line lines
pieces_block = refl

log_is_foreign : strip_prefix (codes "ATD ") (codes "log") ≡ none
unfolding strip_prefix
log_is_foreign = refl

read_block-emit_result_example :
    (a : Answer (HarnessEngine (List Reading))) × (read_block scripted 4 no_result [] engine
      ≡ some a)
    × (a.ok ≡ true)
    × (a.out ≡ captured_result captured)
    × (a.err ≡ [])
read_block-emit_result_example =
    read_block-emit_result scripted (codes "log" ∷ []) captured no_result (codes "rest") [] pieces
      engine ((ground arith, log_is_foreign), tt) (ground arith) (refl, (refl, (refl, tt)))
      pieces_block

abbrev stopped_engine : HarnessEngine Echo
stopped_engine = record { proc = stopped; rbuf = [] }

conversions_total_example :
    Returns (top_one echo 70 (codes "ka") no_result [] stopped_engine)
    × Returns (convert echo 70 (codes "ka") (pos 3) no_result [] stopped_engine)
conversions_total_example =
    conversions_total echo echo_chatter 1 echo-Settles echo_bound 70 (omega arith) (codes "ka")
      (pos 3) no_result [] stopped_engine
