-- ===== src/Daemon.antt =====
-- The requests of one connection: `serve_conn` of src/atzcd/main.cpp. The session and the harness are
-- those of the other modules; the engine and the process are parameters.
mod Valid
mod Order
mod Tests
use atzc.Prelude.{
  ℕ, zero, suc, ◌+◌, ◌≡◌, true, false, Bool, not, List, [], ◌∷◌, ◌++◌, Option, none, some, ◌>>=◌,
  if◌then◌else◌,
}
use atzc.Prelude.Int.{ℤ, pos}
use atzc.Prelude.Text.{Text, codes, same, is_empty}
use atzc.Prelude.Decimal.{atoi}
use atzc.Proto.{Candidate, ConvertResult, no_result, split_tabs, join_tabs}
use atzc.Session.{Engine, Session, Reply, top1, candidates}
use atzc.Harness.{Process}
use atzc.SessionEngine.{
  SessionEngine, Done, Command, begins, backspaces, converts, reads, commits, cancels, key, perform,
}
use atzc.Lines.{Read, Outcome, got, lost, waits, read_line}

-- The two objects behind a connection.
pub record Daemon (S H : Type 0) : Type 0 where
  pub session : Session S
  pub sess : SessionEngine H

-- What a request leaves: the line that is written, and whether the connection ends if that fails.
pub record Served (S H : Type 0) : Type 0 where
  pub reply : Text
  pub ends : Bool
  pub daemon : Daemon S H

unfoldable pub err_reply : Text → Text
err_reply message = join_tabs (codes "err" ∷ message ∷ [])

-- `reply_ok1`.
unfoldable pub ok_reply : Text → Text
ok_reply payload = if is_empty payload then codes "ok\n" else join_tabs (codes "ok" ∷ payload ∷ [])

-- The reply to "convert", "candidates" and "session-candidates".
unfoldable pub flat_reply : ConvertResult → Text
flat_reply r = join_tabs (codes "ok" ∷ r.commit ∷ r.candidates)

unfoldable pub triples : List Candidate → List Text
triples [] = []
triples (c ∷ cs) = c.surface ∷ c.reading ∷ c.hinsi ∷ triples cs

-- The surfaces with an empty reading and an empty part of speech.
unfoldable pub flat_triples : List Text → List Text
flat_triples [] = []
flat_triples (c ∷ cs) = c ∷ [] ∷ [] ∷ flat_triples cs

-- The reply to "candidates-ex".
unfoldable pub enriched_reply : ConvertResult → Text
unfolding triples flat_triples
enriched_reply r = join_tabs (
    codes "okx"
    ∷ r.commit
    ∷ (if is_empty r.candidates_ex then flat_triples r.candidates else triples r.candidates_ex))

-- The third field, if there is one.
unfoldable pub max_field : List Text → ℤ
max_field [] = pos 0
max_field (m ∷ fs) = atoi m

-- The session command of a request, `none` for an op that is none.
unfoldable pub command : Text → List Text → Option Command
command op args =
    if same op (codes "session-begin")
    then some begins
    else if same op (codes "key")
    then elim args [ [] ↦ none | c ∷ cs ↦ some (key c) ]
    else if same op (codes "backspace")
    then some backspaces
    else if same op (codes "convert-session")
    then some converts
    else if same op (codes "preedit")
    then some reads
    else if same op (codes "commit")
    then some commits
    else if same op (codes "cancel")
    then some cancels
    else none

abbrev is_commit : Command → Bool
is_commit commits = true
is_commit _ = false

abbrev is_cancel : Command → Bool
is_cancel cancels = true
is_cancel _ = false

module _ (E : Engine) (P : Process) where
  -- The reply to a conversion, and the session behind it.
  unfoldable pub conversion :
      Daemon E.State P.State → (ConvertResult → Text) → Reply E.State → Served E.State P.State
  conversion d print r = record {
    reply = if r.ok then print r.out else err_reply r.err;
    ends = true;
    daemon = record d { session = r.session };
  }

  unfoldable pub missing : Daemon E.State P.State → Text → Bool → Served E.State P.State
  missing d message ends = record { reply = err_reply message; ends = ends; daemon = d }

  -- A list for the reading in the second field, up to the number in the third.
  unfoldable pub list_request :
      Daemon E.State P.State → Text → (ConvertResult → Text) → List Text → Served E.State P.State
  unfolding missing conversion max_field
  list_request d op print [] = missing d (op ++ codes ": missing romaji") false
  list_request d op print (romaji ∷ rest) =
      conversion d print (candidates E d.session romaji (max_field rest) no_result [])

  unfoldable pub convert_request : Daemon E.State P.State → List Text → Served E.State P.State
  unfolding missing conversion
  convert_request d [] = missing d (codes "convert: missing romaji") false
  convert_request d (romaji ∷ rest) = conversion d flat_reply (top1 E d.session romaji no_result [])

  -- What is written behind a session command.
  unfoldable pub answer_command :
      Daemon E.State P.State → Command → Done P.State → Served E.State P.State
  unfolding ok_reply err_reply
  answer_command d c r = record {
    reply =
        if r.ok
        then (if is_commit c
            then join_tabs (codes "commit" ∷ r.text ∷ [])
            else ok_reply (if is_cancel c then [] else r.text))
        else err_reply r.err;
    ends = true;
    daemon = record d { sess = r.engine };
  }

  unfoldable pub session_request :
      ℕ → Daemon E.State P.State → Text → List Text → Option (Served E.State P.State)
  unfolding answer_command missing
  session_request fuel d op args = elim (command op args) [
    | some c ↦ (do r ← perform P fuel c [] [] d.sess; some (answer_command d c r))
    | none ↦ some (
        missing d
          (if same op (codes "key") then codes "key: missing chars" else codes "unknown op: " ++ op)
          true)
  ]

  -- One request by its fields; `none` while a session command still waits. A line without an op gets
  -- no reply.
  unfoldable pub request : ℕ → Daemon E.State P.State → List Text → Option (Served E.State P.State)
  unfolding list_request convert_request session_request
  request fuel d [] = some (record { reply = []; ends = false; daemon = d })
  request fuel d (op ∷ args) =
      if is_empty op
      then some (record { reply = []; ends = false; daemon = d })
      else if same op (codes "ping")
      then some (record { reply = codes "pong\n"; ends = true; daemon = d })
      else if same op (codes "convert")
      then some (convert_request d args)
      else if same op (codes "candidates")
      then some (list_request d op flat_reply args)
      else if same op (codes "candidates-ex")
      then some (list_request d op enriched_reply args)
      else if same op (codes "session-candidates")
      then some (list_request d op flat_reply args)
      else session_request fuel d op args

  -- A connection: the daemon, and what was written, oldest first.
  pub record Connection : Type 0 where
    pub daemon : Daemon E.State P.State
    pub replies : List Text

  -- What follows a request: its reply is written, if it has one, and `next` goes on. `writes` says how
  -- each write of a reply ends, and the daemon waits where it says no more. A write that fails ends
  -- the connection, but for some refusals.
  unfoldable pub respond :
      (List Bool → Connection → Option Connection)
      → List Bool
      → Connection
      → Served E.State P.State
      → Option Connection
  respond next [] k v =
      if is_empty v.reply
      then next [] (record { daemon = v.daemon; replies = k.replies })
      else some (record { daemon = v.daemon; replies = k.replies })
  respond next (w ∷ ws) k v =
      if is_empty v.reply
      then next (w ∷ ws) (record { daemon = v.daemon; replies = k.replies })
      else if w
      then next ws (record { daemon = v.daemon; replies = k.replies ++ v.reply ∷ [] })
      else if v.ends
      then some (record { daemon = v.daemon; replies = k.replies })
      else next ws (record { daemon = v.daemon; replies = k.replies })

  -- The loop of `serve_conn` over the lines of a connection.
  unfoldable pub serve : List Text → ℕ → List Bool → Connection → Option Connection
  unfolding respond
  serve [] fuel writes k = some k
  serve (line ∷ lines) fuel writes k = do
    v ← request fuel k.daemon (split_tabs line)
    respond (serve lines fuel) writes k v
