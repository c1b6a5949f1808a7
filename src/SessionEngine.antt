-- ===== src/SessionEngine.antt =====
-- The composition that lives in one warm harness: src/session_engine.cpp. A function takes the fuel of
-- its loops first, and is `none` while a loop still waits for the harness.
mod Replies
mod Live
pub mod Waits
mod Tests
use atzc.Prelude.{
  ℕ, zero, suc, ◌+◌, ◌≡◌, true, false, Bool, List, [], ◌∷◌, ◌++◌, ◌==◌, not, ◌&&◌, Option, none,
  some, ◌>>=◌, if◌then◌else◌,
}
use atzc.Prelude.Text.{Text, codes, same, strip_prefix, is_empty}
use atzc.Harness.{Called, Process, End, answered, died, silent, Awaited, await, report}

pub record SessionEngine (S : Type 0) : Type 0 where
  pub proc : S
  pub rbuf : Text
  pub active : Bool

-- What a call leaves: its result, the out parameters and the engine. A caller that passes a null
-- pointer ignores the text.
pub record Done (S : Type 0) : Type 0 where
  pub ok : Bool
  pub text : Text
  pub err : Text
  pub engine : SessionEngine S

abbrev pub reply_timeout_ms : ℕ
reply_timeout_ms = 30000

abbrev pub ready_timeout_ms : ℕ
ready_timeout_ms = 60000

-- The lines read until the harness is ready.
unfoldable pub is_ready : Unit {0} → Text → Unit {0} × Bool
is_ready a line = (a, same line (codes "ATD READY"))

unfoldable pub marker : Bool → Text
marker want_commit = if want_commit then codes "ATD COMMIT " else codes "ATD PRE "

-- The lines read until the reply of a command.
unfoldable pub is_reply : Bool → Option Text → Text → Option Text × Bool
unfolding marker
is_reply want_commit a line =
    if not want_commit && same line (codes "ATD PRE")
    then (some [], true)
    else elim (strip_prefix (marker want_commit) line) [
      | some rest ↦ (some rest, true)
      | none ↦ (a, false)
    ]

module _ (P : Process) where
  open P use {State, bring_up, spawn, running, terminate, write}

  -- What follows the loop of `ensureWarm`. The composition that the engine had is gone.
  unfoldable pub warmed : Text → Text → Awaited (Unit {0}) State → Done State
  unfolding report
  warmed text err r = elim (r.end) [
    | answered ↦ record {
      ok = true;
      text = text;
      err = err;
      engine = record { proc = r.proc; rbuf = r.buf; active = false };
    }
    | other ↦ record {
      ok = false;
      text = text;
      err =
          report other (codes "session harness died during bring-up")
            (codes "session harness did not report ready") err;
      engine = record { proc = terminate r.proc; rbuf = r.buf; active = false };
    }
  ]

  unfoldable pub ensure_warm : ℕ → Text → Text → SessionEngine State → Option (Done State)
  unfolding warmed
  ensure_warm fuel text err s =
      let c = spawn err s.proc in
      if c.ok
      then (do
        r ← await is_ready P ready_timeout_ms fuel 0 tt [] c.proc
        some (warmed text c.err r))
      else some
          (record { ok = false; text = text; err = c.err; engine = record s { proc = c.proc } })

  -- The write of a command to the worker that runs.
  unfoldable pub write_line : Text → Text → Text → SessionEngine State → Done State
  write_line line text err s =
      let c = write line err s.proc in
      if c.ok
      then record { ok = true; text = text; err = c.err; engine = record s { proc = c.proc } }
      else record {
        ok = false;
        text = text;
        err = if is_empty c.err then codes "session harness write failed" else c.err;
        engine = record s { proc = terminate c.proc; active = false };
      }

  unfoldable pub write_cmd : ℕ → Text → Text → Text → SessionEngine State → Option (Done State)
  write_cmd fuel line text err s = if running s.proc then some (write_line line text err s) else (do
    d ← ensure_warm fuel text err s
    some (if d.ok then write_line line d.text d.err d.engine else d))

  -- What follows the loop of `readReply`, whose last line gave the text.
  unfoldable pub replied :
      Text → Text → SessionEngine State → Awaited (Option Text) State → Done State
  unfolding report
  replied text err s r =
      let s1 : SessionEngine State = record s { proc = r.proc; rbuf = r.buf } in
      elim (r.end) [
        | answered ↦ record {
          ok = true;
          text = elim (r.acc) [ some t ↦ t | none ↦ text ];
          err = err;
          engine = s1;
        }
        | other ↦ record {
          ok = false;
          text = text;
          err =
              report other (codes "session harness produced no reply")
                (codes "session harness produced no reply") err;
          engine = s1;
        }
      ]

  unfoldable pub read_reply : ℕ → Bool → Text → Text → SessionEngine State → Option (Done State)
  unfolding replied
  read_reply fuel want_commit text err s = do
    r ← await (is_reply want_commit) P reply_timeout_ms fuel 0 none s.rbuf s.proc
    some (replied text err s r)

  -- A dead or garbled worker is dropped, and the next command spawns another.
  unfoldable pub drop_failed : Done State → Done State
  drop_failed d = if d.ok then d else record d {
    engine = record (d.engine) { proc = terminate d.engine.proc; active = false };
  }

  unfoldable pub after_write : ℕ → Bool → Done State → Option (Done State)
  unfolding drop_failed
  after_write fuel want_commit w =
      if w.ok
      then (do r ← read_reply fuel want_commit w.text w.err w.engine; some (drop_failed r))
      else some w

  unfoldable pub run_cmd : ℕ → Text → Bool → Text → Text → SessionEngine State → Option (Done State)
  unfolding after_write
  run_cmd fuel line want_commit text err s = do
    w ← write_cmd fuel line text err s
    after_write fuel want_commit w

  unfoldable pub start : ℕ → Text → SessionEngine State → Option (Done State)
  start fuel err s =
      let c = bring_up err s.proc in
      if c.ok
      then ensure_warm fuel [] c.err (record s { proc = c.proc })
      else some (record { ok = false; text = []; err = c.err; engine = record s { proc = c.proc } })

  unfoldable pub stop : SessionEngine State → SessionEngine State
  stop s = record s { proc = terminate s.proc; active = false }

  -- The assignment to `active_` behind a command.
  unfoldable pub set_active : Bool → Done State → Done State
  set_active b d = record d { engine = record (d.engine) { active = b } }

  unfoldable pub begin : ℕ → Text → Text → SessionEngine State → Option (Done State)
  unfolding set_active
  begin fuel preedit err s = do
    d ← run_cmd fuel (codes "sreset\n") false preedit err s
    some (set_active d.ok d)

  unfoldable pub type_keys : ℕ → Text → Text → Text → SessionEngine State → Option (Done State)
  type_keys fuel ascii preedit err s =
      let line = codes "stype " ++ (ascii ++ codes "\n") in
      if s.active then run_cmd fuel line false preedit err s else (do
        d ← begin fuel [] err s
        (if d.ok
            then run_cmd fuel line false preedit d.err d.engine
            else some (record d { text = preedit })))

  unfoldable pub backspace : ℕ → Text → Text → SessionEngine State → Option (Done State)
  backspace fuel preedit err s =
      if s.active
      then run_cmd fuel (codes "sback\n") false preedit err s
      else some (record { ok = true; text = []; err = err; engine = s })

  unfoldable pub convert : ℕ → Text → Text → SessionEngine State → Option (Done State)
  convert fuel preedit err s =
      if s.active
      then run_cmd fuel (codes "sconv\n") false preedit err s
      else some (record {
        ok = false;
        text = preedit;
        err = codes "convert: no active composition";
        engine = s;
      })

  unfoldable pub get_preedit : ℕ → Text → Text → SessionEngine State → Option (Done State)
  get_preedit fuel out err s =
      if s.active
      then run_cmd fuel (codes "spre\n") false out err s
      else some (record { ok = true; text = []; err = err; engine = s })

  unfoldable pub commit : ℕ → Text → Text → SessionEngine State → Option (Done State)
  unfolding set_active
  commit fuel committed err s =
      if s.active
      then (do d ← run_cmd fuel (codes "scommit\n") true committed err s; some (set_active false d))
      else some (record { ok = true; text = []; err = err; engine = s })

  unfoldable pub cancel : ℕ → Text → SessionEngine State → Option (Done State)
  unfolding set_active
  cancel fuel err s =
      if not s.active && running s.proc
      then some (record { ok = true; text = []; err = err; engine = s })
      else (do
        d ← run_cmd fuel (codes "scancel\n") false [] err s
        some (set_active false (record d { text = [] })))

-- The commands of a session, as the daemon receives them.
pub data Command : Type 0 where
  begins backspaces converts reads commits cancels : Command
  key : Text → Command

-- The dispatch of `serve_conn` over the session commands.
unfoldable pub perform :
    (P : Process) → ℕ → Command → Text → Text → SessionEngine P.State → Option (Done P.State)
perform P fuel begins text err s = begin P fuel text err s
perform P fuel (key ascii) text err s = type_keys P fuel ascii text err s
perform P fuel backspaces text err s = backspace P fuel text err s
perform P fuel converts text err s = convert P fuel text err s
perform P fuel reads text err s = get_preedit P fuel text err s
perform P fuel commits text err s = commit P fuel text err s
perform P fuel cancels text err s = cancel P fuel err s
