-- ===== src/HarnessEngine/Blocks.antt =====
-- The block that a harness prints for the candidates that it captured is read back, however it is cut
-- into reads (src/harness_engine.cpp, engine/native/AtTipLoad/AtTipLoad.c).
use atzc.Prelude.{
  suc, ◌≡◌, refl, ap, sym, ◌∙◌, true, false, Bool, List, [], ◌∷◌, ◌++◌, Option, none, some, arith,
  All, length, append-nil, append_assoc, map, ◌>>=◌,
}
use atzc.Prelude.Text.{Text, codes, same, strip_prefix}
use atzc.Lines.Framing.{OneLine}
use atzc.Proto.{ConvertResult, no_result}
use atzc.Session.{Answer}
use atzc.Harness.{Process, Awaited, drop_cr, answered}
use atzc.Harness.Printed.{
  lines, commit_line, cand_line, top_line, emit_result, OneLine-append, drop_cr-append,
  take_line-printed,
}
use atzc.Harness.Await.{drained, drained_go, drained_stop}
use atzc.Harness.Chunks.{concat, Brings, await-Brings}
use atzc.HarnessEngine.{HarnessEngine, convert_timeout_ms, on_block, blocked, read_block}

-- The result of the captured candidates: the first one is the top-1.
pub captured_result : List Text → ConvertResult
captured_result [] = no_result
captured_result (c ∷ cs) = record { commit = c; candidates = c ∷ cs; candidates_ex = [] }

-- A line of the log, which the protocol has no part in.
abbrev pub IsLog : Text → Type 0
IsLog l = OneLine l × (strip_prefix (codes "ATD ") l ≡ none)

go_line :
    (out : ConvertResult) (l tail : Text) {out' : ConvertResult}
    → OneLine l
    → on_block out l ≡ (out', false)
    → drained on_block out (l ++ 13 ∷ 10 ∷ tail) ≡ drained on_block out' tail
go_line out l tail o h =
    let read : on_block out (drop_cr (l ++ 13 ∷ [])) ≡ (_, false) =
      ap (on_block out) (drop_cr-append l) ∙ h in
    drained_go on_block out (l ++ 13 ∷ 10 ∷ tail) (l ++ 13 ∷ []) tail (take_line-printed l tail o)
      (ap (λ (x : ConvertResult × Bool). x.1) read)
    ∙ ap (λ (x : ConvertResult × Bool). drained on_block x.0 tail) read

on_block-commit :
    (out : ConvertResult) (t : Text)
    → on_block out (commit_line t) ≡ (record out { commit = t }, false)
unfolding on_block strip_prefix same
on_block-commit out t = refl

on_block-cand :
    (out : ConvertResult) (t : Text)
    → on_block out (cand_line t) ≡ (record out { candidates = out.candidates ++ t ∷ [] }, false)
unfolding on_block strip_prefix same
on_block-cand out t = refl

on_block-log :
    (out : ConvertResult) (l : Text)
    → strip_prefix (codes "ATD ") l ≡ none
    → on_block out l ≡ (out, false)
unfolding on_block
on_block-log out l h = rw (h, on_block) refl

drained-logs :
    (noise : List Text) (out : ConvertResult) (tail : Text)
    → All IsLog noise
    → drained on_block out (lines noise tail) ≡ drained on_block out tail
unfolding lines
drained-logs [] out tail h = refl
drained-logs (l ∷ noise) out tail h =
    go_line out l (lines noise tail) h.0.0 (on_block-log out l h.0.1)
    ∙ drained-logs noise out tail h.1

drained-cands :
    (cs : List Text) (out : ConvertResult) (tail : Text)
    → All OneLine cs
    → drained on_block out (lines (map cand_line cs) tail)
      ≡ drained on_block (record out { candidates = out.candidates ++ cs }) tail
unfolding lines
drained-cands [] out tail h =
    ap (λ l. drained on_block (record out { candidates = l }) tail)
      (sym (append-nil out.candidates))
drained-cands (c ∷ cs) out tail h =
    go_line out (cand_line c) (lines (map cand_line cs) tail)
      (OneLine-append (codes "ATD CAND ") c (ground arith) h.0) (on_block-cand out c)
    ∙ drained-cands cs (record out { candidates = out.candidates ++ c ∷ [] }) tail h.1
    ∙ ap (λ l. drained on_block (record out { candidates = l }) tail)
        (append_assoc out.candidates (c ∷ []) cs)

drained-top_line :
    (cs : List Text) (tail : Text)
    → All OneLine cs
    → drained on_block no_result (lines (top_line cs) tail)
      ≡ drained on_block (record (captured_result cs) { candidates = [] }) tail
unfolding lines top_line captured_result
drained-top_line [] tail h = refl
drained-top_line (c ∷ cs) tail h =
    go_line no_result (commit_line c) tail
      (OneLine-append (codes "ATD COMMIT ") c (ground arith) h.0) (on_block-commit no_result c)

drained-end :
    (out : ConvertResult) (rest : Text)
    → drained on_block out (lines (codes "ATD END" ∷ []) rest) ≡ (true, out, rest)
unfolding lines on_block same strip_prefix drop_cr
drained-end out rest =
    drained_stop on_block out (lines (codes "ATD END" ∷ []) rest) (codes "ATD END\r") rest
      (take_line-printed (codes "ATD END") rest (ground arith)) refl

captured-candidates :
    (cs : List Text) → record (captured_result cs) { candidates = cs } ≡ captured_result cs
unfolding captured_result
captured-candidates [] = refl
captured-candidates (c ∷ cs) = refl

-- One pass over a block gives its result and keeps what stands behind it, whatever was there before.
drained-emit_result :
    (cs : List Text) (out : ConvertResult) (rest : Text)
    → All OneLine cs
    → drained on_block out (emit_result cs rest) ≡ (true, captured_result cs, rest)
unfolding emit_result lines on_block same strip_prefix
drained-emit_result cs out rest h =
    let end = lines (codes "ATD END" ∷ []) rest in
    let cands = lines (map cand_line cs) end in
    go_line out (codes "ATD BEGIN") (lines (top_line cs) cands) (ground arith) refl
    ∙ drained-top_line cs cands h
    ∙ drained-cands cs (record (captured_result cs) { candidates = [] }) end h
    ∙ ap (λ r. drained on_block r end) (captured-candidates cs)
    ∙ drained-end (captured_result cs) rest

module _ (P : Process) where
  open P use {State}

  blocked_answered :
      (err : Text) (s : HarnessEngine State) (r : Awaited ConvertResult State)
      → r.end ≡ answered
      → ((blocked P err s r).ok ≡ true)
        × ((blocked P err s r).out ≡ r.acc)
        × ((blocked P err s r).err ≡ err)
  unfolding blocked
  blocked_answered err s r h = (rw (h, blocked) refl, rw (h, blocked) refl, rw (h, blocked) refl)

  -- Where the bytes kept and those of the next reads are lines that do not begin with "ATD ", then the
  -- block that `at_daemon_emit_result` prints for captured candidates without an end of line, and
  -- anything behind it, the block is read back, however the bytes are cut into reads and whatever the
  -- out parameter held: the flat list is that of the candidates, its first one is the commit, the
  -- commit is empty where there is none, and the enriched list is empty.
  pub read_block-emit_result :
      (noise captured : List Text) (out : ConvertResult) (rest err : Text) (bs : List Text)
      (s : HarnessEngine State)
      → All IsLog noise
      → All OneLine captured
      → Brings P s.proc bs
      → s.rbuf ++ concat bs ≡ lines noise (emit_result captured rest)
      → (a : Answer (HarnessEngine State)) × (read_block P (suc (length bs)) out err s ≡ some a)
        × (a.ok ≡ true)
        × (a.out ≡ captured_result captured)
        × (a.err ≡ err)
  unfolding read_block
  read_block-emit_result noise captured out rest err bs s logs plain reads e =
      let whole =
        ap (drained on_block out) e
        ∙ drained-logs noise out (emit_result captured rest) logs
        ∙ drained-emit_result captured out rest plain in
      let (x, q, end, acc) =
        await-Brings on_block P convert_timeout_ms bs 0 out s.rbuf s.proc reads
          (ap (λ (x : Bool × ConvertResult × Text). x.0) whole) in
      let (ok, same_out, same_err) = blocked_answered err s x end in
      (
        blocked P err s x,
        ap (λ (o : Option (Awaited ConvertResult State)). o >>= λ x. some (blocked P err s x)) q,
        ok,
        same_out ∙ acc ∙ ap (λ (x : Bool × ConvertResult × Text). x.1) whole,
        same_err,
      )
