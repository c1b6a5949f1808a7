-- ===== src/SessionEngine/Tests.antt =====
-- The session engine on harnesses for tests.
use atzc.Prelude.{◌≡◌, refl, true, false, List, [], ◌∷◌, ◌++◌, none, some, arith}
use atzc.Prelude.Text.{Text, codes, same, strip_prefix}
use atzc.Prelude.Returns.{Returns}
use atzc.Harness.{Reading, bytes, drop_cr}
use atzc.Harness.Chunks.{concat}
use atzc.Harness.Printed.{lines}
use atzc.Harness.Script.{
  Echo, stopped, fresh, idle, owing, echo, echo_chatter, echo-Settles, echo_bound, loud, scripted,
}
use atzc.SessionEngine.{SessionEngine, Done, is_reply, marker, read_reply, commit, key, perform}
use atzc.SessionEngine.Waits.{perform_total, commit_total, read_reply_forever}
use atzc.SessionEngine.Live.{Stays, live, perform-live}
use atzc.SessionEngine.Replies.{read_reply-lines}

-- An engine with a composition whose worker has died.
abbrev dead : SessionEngine Echo
dead = record { proc = stopped; rbuf = []; active = true }

abbrev composing : SessionEngine Echo
composing = record { proc = idle; rbuf = []; active = true }

echo_reads : (p : Echo) → echo.running p ≡ true → echo.running (echo.read p).1 ≡ true
echo_reads stopped h = absurd (cc)
echo_reads fresh h = refl
echo_reads idle h = refl
echo_reads owing h = refl

echo-Stays : Stays echo
echo-Stays = record { spawns = λ e p ok. refl; writes = λ t e p h. refl; reads = echo_reads }

perform-live_example :
    (d : Done Echo) × (perform echo 70 (key (codes "k")) [] [] composing ≡ some d)
    × (live echo d.engine ≡ true)
perform-live_example =
    perform-live echo echo-Stays echo_chatter 1 echo-Settles echo_bound 70 (omega arith)
      (key (codes "k")) [] [] composing refl

perform_total_example : Returns (perform echo 70 (key (codes "k")) [] [] dead)
perform_total_example =
    perform_total echo echo_chatter 1 echo-Settles echo_bound 70 (omega arith) (key (codes "k")) []
      [] dead

commit_total_example :
    (d : Done Echo) × (commit echo 70 [] [] dead ≡ some d) × (d.engine.active ≡ false)
commit_total_example =
    commit_total echo echo_chatter 1 echo-Settles echo_bound 70 (omega arith) [] [] dead

log_is_no_reply : is_reply false none (drop_cr (codes "log")) ≡ (none, false)
unfolding is_reply marker same strip_prefix drop_cr
log_is_no_reply = refl

read_reply_forever_example :
    read_reply loud 100 false [] [] (record { proc = tt; rbuf = []; active = true }) ≡ none
read_reply_forever_example =
    read_reply_forever loud (codes "log") (ground arith) log_is_no_reply (λ p. refl) 100 [] []
      (record { proc = tt; rbuf = []; active = true }) refl

abbrev pieces : List Text
pieces = codes "log\r\nATD P" ∷ codes "RE ka\r\nmore" ∷ []

abbrev replying : SessionEngine (List Reading)
replying = record {
  proc = bytes (codes "log\r\nATD P") ∷ bytes (codes "RE ka\r\nmore") ∷ [];
  rbuf = [];
  active = true;
}

pieces_printed :
    [] ++ concat pieces
    ≡ lines (codes "log" ∷ []) (lines ((marker false ++ codes "ka") ∷ []) (codes "more"))
unfolding concat lines marker
pieces_printed = refl

log_is_noise : is_reply false none (codes "log") ≡ (none, false)
unfolding is_reply marker same strip_prefix
log_is_noise = refl

read_reply-lines_example :
    (d : Done (List Reading)) × (read_reply scripted 3 false [] [] replying ≡ some d)
    × (d.ok ≡ true)
    × (d.text ≡ codes "ka")
    × (d.err ≡ [])
read_reply-lines_example =
    read_reply-lines scripted false (codes "log" ∷ []) (codes "ka") (codes "more") [] [] pieces
      replying ((ground arith, log_is_noise), tt) (ground arith) (refl, (refl, tt)) pieces_printed
