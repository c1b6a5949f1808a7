-- ===== src/SessionEngine/Waits.antt =====
-- When the commands of a session engine return (src/session_engine.cpp).
use atzc.Prelude.{
  ℕ, ◌+◌, ◌≤◌, ◌<◌, ◌≡◌, refl, true, false, Bool, not, ◌&&◌, [], ◌∷◌, ◌++◌, none, some, arith, inl,
}
use atzc.Prelude.Text.{Text, codes}
use atzc.Prelude.Returns.{Returns, Returns-bind, Returns-if, Such-if, Such-bind}
use atzc.Lines.Framing.{OneLine}
use atzc.Harness.{Process, bytes, drop_cr}
use atzc.Harness.Await.{Settles, await_total, await_forever}
use atzc.SessionEngine.{
  SessionEngine, Done, is_ready, is_reply, ready_timeout_ms, reply_timeout_ms, ensure_warm,
  write_cmd, read_reply, after_write, run_cmd, begin, type_keys, backspace, convert, get_preedit,
  commit, cancel, Command, begins, key, backspaces, converts, reads, commits, cancels, perform,
}

module _ (P : Process) (chatter : P.State → ℕ) (most : ℕ) (calm : Settles P chatter)
    (bound : (p : P.State) → chatter p ≤ most) (fuel : ℕ) (enough : most + 60 < fuel) where
  open P use {State, spawn, running}

  read_reply_total :
      (want : Bool) (text err : Text) (s : SessionEngine State)
      → Returns (read_reply P fuel want text err s)
  unfolding read_reply
  read_reply_total want text err s =
      let few = bound s.proc in
      Returns-bind _ _
        (await_total (is_reply want) P reply_timeout_ms chatter calm fuel 30 0 none s.rbuf s.proc
          (omega arith) (omega arith))
        (λ r. (_, refl))

  ensure_warm_total :
      (text err : Text) (s : SessionEngine State) → Returns (ensure_warm P fuel text err s)
  unfolding ensure_warm
  ensure_warm_total text err s =
      let c = spawn err s.proc in
      let few = bound c.proc in
      Returns-if c.ok _ _
        (Returns-bind _ _
          (await_total is_ready P ready_timeout_ms chatter calm fuel 60 0 tt [] c.proc (omega arith)
            (omega arith))
          (λ r. (_, refl)))
        (_, refl)

  write_cmd_total :
      (line text err : Text) (s : SessionEngine State) → Returns (write_cmd P fuel line text err s)
  unfolding write_cmd
  write_cmd_total line text err s =
      Returns-if (running s.proc) _ _ (_, refl)
        (Returns-bind _ _ (ensure_warm_total text err s) (λ d. (_, refl)))

  -- A command to a worker that settles returns, with fuel for what the worker prints and for the
  -- seconds of silence up to the longer limit.
  pub run_cmd_total :
      (line : Text) (want : Bool) (text err : Text) (s : SessionEngine State)
      → Returns (run_cmd P fuel line want text err s)
  unfolding run_cmd after_write
  run_cmd_total line want text err s = Returns-bind _ _ (write_cmd_total line text err s) (λ w.
      Returns-if w.ok _ _
        (Returns-bind _ _ (read_reply_total want w.text w.err w.engine) (λ r. (_, refl))) (_, refl))

  begin_total : (text err : Text) (s : SessionEngine State) → Returns (begin P fuel text err s)
  unfolding begin
  begin_total text err s = Returns-bind _ _ (run_cmd_total _ false text err s) (λ d. (_, refl))

  type_keys_total :
      (ascii text err : Text) (s : SessionEngine State)
      → Returns (type_keys P fuel ascii text err s)
  unfolding type_keys
  type_keys_total ascii text err s = Returns-if s.active _ _ (run_cmd_total _ false text err s) (
      Returns-bind _ _ (begin_total [] err s)
        (λ d. Returns-if d.ok _ _ (run_cmd_total _ false text d.err d.engine) (_, refl)))

  -- `commit` returns, and no composition is active behind it, whether it fails or not.
  pub commit_total :
      (text err : Text) (s : SessionEngine State)
      → (d : Done State) × (commit P fuel text err s ≡ some d) × (d.engine.active ≡ false)
  unfolding commit
  commit_total text err s =
      Such-if (λ (d : Done State). d.engine.active ≡ false) s.active _ _
        (λ h.
          Such-bind (λ (d : Done State). d.engine.active ≡ false) _ _
            (run_cmd_total (codes "scommit\n") true text err s) (λ d. (_, refl, refl)))
        (λ h. (_, refl, h))

  pub cancel_total :
      (err : Text) (s : SessionEngine State)
      → (d : Done State) × (cancel P fuel err s ≡ some d) × (d.engine.active ≡ false)
  unfolding cancel
  cancel_total err s =
      Such-if (λ (d : Done State). d.engine.active ≡ false) (not s.active && running s.proc) _ _
        (λ h. (_, refl, ground arith))
        (λ h.
          Such-bind (λ (d : Done State). d.engine.active ≡ false) _ _
            (run_cmd_total (codes "scancel\n") false [] err s) (λ d. (_, refl, refl)))

  backspace_total :
      (text err : Text) (s : SessionEngine State) → Returns (backspace P fuel text err s)
  unfolding backspace
  backspace_total text err s = Returns-if s.active _ _ (run_cmd_total _ false text err s) (_, refl)

  convert_total : (text err : Text) (s : SessionEngine State) → Returns (convert P fuel text err s)
  unfolding convert
  convert_total text err s = Returns-if s.active _ _ (run_cmd_total _ false text err s) (_, refl)

  get_preedit_total :
      (text err : Text) (s : SessionEngine State) → Returns (get_preedit P fuel text err s)
  unfolding get_preedit
  get_preedit_total text err s =
      Returns-if s.active _ _ (run_cmd_total _ false text err s) (_, refl)

  -- Every command of a session, to a worker that settles, returns.
  pub perform_total :
      (c : Command) (text err : Text) (s : SessionEngine State)
      → Returns (perform P fuel c text err s)
  unfolding perform
  perform_total begins text err s = begin_total text err s
  perform_total (key ascii) text err s = type_keys_total ascii text err s
  perform_total backspaces text err s = backspace_total text err s
  perform_total converts text err s = convert_total text err s
  perform_total reads text err s = get_preedit_total text err s
  perform_total commits text err s = let (d, e, ended) = commit_total text err s in (d, e)
  perform_total cancels text err s = let (d, e, ended) = cancel_total err s in (d, e)

module _ (P : Process) where
  open P use {State, read}

  -- A worker that answers every read with a line that is no reply, such as a log line, keeps
  -- `readReply` for ever: the limit counts the seconds of silence only.
  pub read_reply_forever :
      (line : Text)
      → OneLine line
      → is_reply false none (drop_cr line) ≡ (none, false)
      → ((p : State) → (read p).0 ≡ bytes (line ++ 10 ∷ []))
      → (fuel : ℕ) (text err : Text) (s : SessionEngine State) → s.rbuf ≡ []
      → read_reply P fuel false text err s ≡ none
  unfolding read_reply
  read_reply_forever line o f loud fuel text err s h =
      rw
        (await_forever (is_reply false) P reply_timeout_ms line none o f loud fuel 0 s.rbuf s.proc
          (inl h))
        refl
