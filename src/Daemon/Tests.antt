-- ===== src/Daemon/Tests.antt =====
-- A connection to a daemon over an engine and a harness for tests.
use atzc.Prelude.{ℕ, ◌≡◌, refl, true, false, Bool, List, [], ◌∷◌, ◌++◌, some, arith}
use atzc.Prelude.Text.{Text, codes}
use atzc.Session.Cache.{IsValid}
use atzc.Session.Hints.{start-IsValid}
use atzc.Session.{start}
use atzc.Session.Sample.{counting, fresh}
use atzc.Harness.Script.{stopped, echo, echo_chatter, echo-Settles, echo_bound}
use atzc.Daemon.{Connection, serve}
use atzc.Daemon.Order.{Serves, serve_all}

abbrev opened : Connection counting echo
opened = record {
  daemon = record { session = fresh; sess = record { proc = stopped; rbuf = []; active = false } };
  replies = [];
}

fresh_valid : IsValid fresh
unfolding start
fresh_valid = start-IsValid {S = ℕ} 0

abbrev requests : List Text
requests =
    codes "ping" ∷ codes "candidates\tka\t2" ∷ codes "key\tk" ∷ codes "commit" ∷ codes "what" ∷ []

abbrev all_written : List Bool
all_written = true ∷ true ∷ true ∷ true ∷ true ∷ []

serve_all_example :
    (k : Connection counting echo) × (rs : List Text) × (serve counting echo requests 70 all_written
        opened
      ≡ some k)
    × Serves counting echo 70 requests opened.daemon rs k.daemon
    × (k.replies ≡ [] ++ rs)
    × IsValid k.daemon.session
serve_all_example =
    serve_all counting echo echo_chatter 1 echo-Settles echo_bound 70 (omega arith) requests
      all_written opened fresh_valid (refl, (refl, (refl, (refl, (refl, tt))))) (omega arith)
