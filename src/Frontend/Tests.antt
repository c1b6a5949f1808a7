-- ===== src/Frontend/Tests.antt =====
-- The input method over a daemon for tests, with lists that have a cursor.
use atzc.Prelude.{ℕ, zero, suc, ◌+◌, ◌-◌, ◌≡◌, refl, true, List, [], ◌∷◌, some, length}
use atzc.Prelude.Int.{pos}
use atzc.Prelude.Text.{Text, codes}
use atzc.Session.Sample.{counting, fresh}
use atzc.Harness.Script.{Echo, stopped, echo}
use atzc.Client.Recovery.{Socket, closed, socket, close_socket}
use atzc.Frontend.{Lists, Context, enter}
use atzc.Frontend.Keys.{key_event}
use atzc.Frontend.Live.{kept}
use atzc.Frontend.Kept.{key_event-kept}

nth : ℕ → List Text → Text
nth n [] = []
nth zero (t ∷ ts) = t
nth (suc n) (t ∷ ts) = nth n ts

abbrev lists : Lists
lists = record {
  CandidateList = List Text × ℕ;
  make = λ ts. (ts, 0);
  size = λ l. length l.0;
  candidate = λ l n. nth n l.0;
  cursor_index = λ l. pos l.1;
  next_candidate = λ l. (l.0, l.1 + 1);
  prev_candidate = λ l. (l.0, l.1 - 1);
}

-- A context that offers two candidates, whose connection was closed.
abbrev offering : Context (List Text × ℕ) (Socket ℕ Echo)
offering = record {
  romaji = codes "ka";
  preedit = codes "A";
  composing = true;
  list = some (codes "A" ∷ codes "B" ∷ [], 0);
  shown = codes "A";
  committed = [];
  client =
      closed
        (record { session = fresh; sess = record { proc = stopped; rbuf = []; active = true } });
}

key_event-kept_example :
    kept (key_event lists (socket counting echo 70) close_socket enter offering).1 ≡ true
key_event-kept_example =
    key_event-kept lists (socket counting echo 70) close_socket enter offering refl
