-- ===== src/SessionEngine/Replies.antt =====
-- The reply of a command is read whatever stands before it and however it is cut into reads
-- (src/session_engine.cpp).
use atzc.Prelude.{
  suc, ◌≡◌, refl, ap, ◌∙◌, true, false, Bool, List, [], ◌∷◌, ◌++◌, Option, none, some, arith, All,
  length, ◌>>=◌,
}
use atzc.Prelude.Text.{Text, codes, same, strip_prefix-append}
use atzc.Lines.Framing.{OneLine}
use atzc.Harness.{Process, Awaited, drop_cr, answered}
use atzc.Harness.Printed.{lines, OneLine-append, drop_cr-append, take_line-printed}
use atzc.Harness.Await.{drained, drained_go, drained_stop}
use atzc.Harness.Chunks.{concat, Brings, await-Brings}
use atzc.SessionEngine.{
  SessionEngine, Done, is_reply, marker, reply_timeout_ms, replied, read_reply,
}

marker-OneLine : (want : Bool) (t : Text) → OneLine t → OneLine (marker want ++ t)
unfolding marker
marker-OneLine true t l = OneLine-append (codes "ATD COMMIT ") t (ground arith) l
marker-OneLine false t l = OneLine-append (codes "ATD PRE ") t (ground arith) l

is_reply-marker :
    (want : Bool) (a : Option Text) (t : Text) → is_reply want a (marker want ++ t) ≡ (some t, true)
unfolding is_reply marker same
is_reply-marker true a t = rw (strip_prefix-append (codes "ATD COMMIT ") t) refl
is_reply-marker false a t = rw (strip_prefix-append (codes "ATD PRE ") t) refl

-- A line that is no reply.
abbrev pub IsNoise : Bool → Text → Type 0
IsNoise want l = OneLine l × (is_reply want none l ≡ (none, false))

drained-lines :
    (want : Bool) (noise : List Text) (t rest : Text)
    → All (IsNoise want) noise
    → OneLine t
    → drained (is_reply want) none (lines noise (lines ((marker want ++ t) ∷ []) rest))
      ≡ (true, some t, rest)
unfolding lines
drained-lines want [] t rest h l =
    let line = marker want ++ t in
    let reply : is_reply want none (drop_cr (line ++ 13 ∷ [])) ≡ (some t, true) =
      ap (is_reply want none) (drop_cr-append line) ∙ is_reply-marker want none t in
    drained_stop (is_reply want) none (line ++ 13 ∷ 10 ∷ rest) (line ++ 13 ∷ []) rest
      (take_line-printed line rest (marker-OneLine want t l))
      (ap (λ (x : Option Text × Bool). x.1) reply)
    ∙ ap (λ (x : Option Text × Bool). (true, x.0, rest)) reply
drained-lines want (n ∷ noise) t rest h l =
    let tail = lines noise (lines ((marker want ++ t) ∷ []) rest) in
    let skipped : is_reply want none (drop_cr (n ++ 13 ∷ [])) ≡ (none, false) =
      ap (is_reply want none) (drop_cr-append n) ∙ h.0.1 in
    drained_go (is_reply want) none (n ++ 13 ∷ 10 ∷ tail) (n ++ 13 ∷ []) tail
      (take_line-printed n tail h.0.0) (ap (λ (x : Option Text × Bool). x.1) skipped)
    ∙ ap (λ (x : Option Text × Bool). drained (is_reply want) x.0 tail) skipped
    ∙ drained-lines want noise t rest h.1 l

module _ (P : Process) where
  open P use {State}

  replied_answered :
      (text err t : Text) (s : SessionEngine State) (r : Awaited (Option Text) State)
      → r.end ≡ answered
      → r.acc ≡ some t
      → ((replied P text err s r).ok ≡ true)
        × ((replied P text err s r).text ≡ t)
        × ((replied P text err s r).err ≡ err)
  unfolding replied
  replied_answered text err t s r h k =
      (rw (h, replied) refl, rw (h, k, replied) refl, rw (h, replied) refl)

  -- Where the bytes kept and those of the next reads are lines that are no reply, then the reply of a
  -- command with the text `t`, each line with the "\r\n" that the harness ends it with, and anything
  -- behind it, the command gets `t`, however the bytes are cut into reads: one read for each piece,
  -- and one round more.
  pub read_reply-lines :
      (want : Bool) (noise : List Text) (t rest text err : Text) (bs : List Text)
      (s : SessionEngine State)
      → All (IsNoise want) noise
      → OneLine t
      → Brings P s.proc bs
      → s.rbuf ++ concat bs ≡ lines noise (lines ((marker want ++ t) ∷ []) rest)
      → (d : Done State) × (read_reply P (suc (length bs)) want text err s ≡ some d)
        × (d.ok ≡ true)
        × (d.text ≡ t)
        × (d.err ≡ err)
  unfolding read_reply
  read_reply-lines want noise t rest text err bs s h l reads e =
      let whole = ap (drained (is_reply want) none) e ∙ drained-lines want noise t rest h l in
      let (r, q, end, acc) =
        await-Brings (is_reply want) P reply_timeout_ms bs 0 none s.rbuf s.proc reads
          (ap (λ (x : Bool × Option Text × Text). x.0) whole) in
      let got : r.acc ≡ some t = acc ∙ ap (λ (x : Bool × Option Text × Text). x.1) whole in
      let (ok, same_text, same_err) = replied_answered text err t s r end got in
      (
        replied P text err s r,
        ap (λ (o : Option (Awaited (Option Text) State)). o >>= λ r. some (replied P text err s r))
            q,
        ok,
        same_text,
        same_err,
      )
