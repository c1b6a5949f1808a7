-- ===== src/Client/Recovery.antt =====
-- The reconnecting client (src/frontend_posix.cpp) over a socket whose connection may be gone.
use atzc.Prelude.{ℕ, ◌≡◌, refl, ap, ◌∙◌, true, false, Bool, List, [], ◌∷◌, All, arith, some}
use atzc.Prelude.Int.{ℤ}
use atzc.Prelude.Text.{Text, codes, same, is_empty}
use atzc.Proto.{ConvertResult, no_result, split_tabs, join_tabs}
use atzc.Proto.Laws.{IsPlain}
use atzc.Session.{Engine, Reply, candidates as session_list}
use atzc.Harness.{Process}
use atzc.Daemon.{
  Daemon, Served, request as daemon_request, conversion, flat_reply, list_request, max_field,
}
use atzc.Client.{
  Got, line, failure, Wire, Result, read_reply, parse_flat, exchange_open, exchange, finish,
  request, candidates as client_candidates,
}
use atzc.Client.Requests.{Link, send, receive, exchange_lem, wanted, list_fields}
use atzc.Client.Reconnect.{
  candidates, ensure_open, try_connect, with_reconnect-first, with_reconnect-second,
}

-- The connection to a daemon that can be reached: closed, one on which a write fails, one which ends
-- in front of the reply, or an open one.
pub data Socket (S H : Type 0) : Type 0 where
  closed : Daemon S H → Socket S H
  broken : Text → Daemon S H → Socket S H
  ended : Daemon S H → Socket S H
  linked : Link S H → Socket S H

abbrev pub daemon_of : {S H : Type 0} → Socket S H → Daemon S H
daemon_of (closed d) = d
daemon_of (broken m d) = d
daemon_of (ended d) = d
daemon_of (linked w) = w.daemon

-- No reply waits to be read on an open connection.
abbrev pub IsClear : {S H : Type 0} → Socket S H → Type 0
IsClear (closed d) = Unit
IsClear (broken m d) = Unit
IsClear (ended d) = Unit
IsClear (linked w) = w.inbox ≡ []

abbrev pub close_socket : {S H : Type 0} → Socket S H → Socket S H
close_socket s = closed (daemon_of s)

module _ (E : Engine) (P : Process) (fuel : ℕ) where
  abbrev pub opened : Socket E.State P.State → Bool
  opened (closed d) = false
  opened (broken m d) = true
  opened (ended d) = true
  opened (linked w) = true

  abbrev pub write_socket : Text → Socket E.State P.State → Got × Socket E.State P.State
  write_socket t (closed d) = (failure (codes "write: Bad file descriptor"), closed d)
  write_socket t (broken m d) = (failure m, broken m d)
  write_socket t (ended d) = (line [], ended d)
  write_socket t (linked w) = (line [], linked (send E P fuel t w))

  abbrev pub read_socket : Socket E.State P.State → Got × Socket E.State P.State
  read_socket (closed d) = (failure (codes "read: Bad file descriptor"), closed d)
  read_socket (broken m d) = (failure m, broken m d)
  read_socket (ended d) = (failure (codes "connection closed by daemon"), ended d)
  read_socket (linked w) = let g = receive E P fuel w in (g.0, linked g.1)

  abbrev pub socket : Wire
  socket = record {
    State = Socket E.State P.State;
    is_open = opened;
    connect = λ s. (line [], linked (record { daemon = daemon_of s; inbox = [] }));
    send_line = write_socket;
    recv_line = read_socket;
  }

  request-flat :
      (d : Daemon E.State P.State) (romaji : Text) (rest : List Text)
      → daemon_request E P fuel d (codes "candidates" ∷ romaji ∷ rest)
        ≡ some (
            conversion E P d flat_reply
              (session_list E d.session romaji (max_field rest) no_result []))
  unfolding daemon_request list_request same is_empty
  request-flat d romaji rest = refl

  -- The exchange over an open connection is that of the daemon.
  exchange-linked :
      (f : Text) (fs : List Text) (g : Text) (gs : List Text) (w : Link E.State P.State)
      (v : Served E.State P.State)
      → All (All IsPlain) (f ∷ fs)
      → All (All IsPlain) (g ∷ gs)
      → w.inbox ≡ []
      → daemon_request E P fuel w.daemon (f ∷ fs) ≡ some v
      → v.reply ≡ join_tabs (g ∷ gs)
      → (l : Text) × (exchange socket (join_tabs (f ∷ fs)) (linked w)
          ≡ (line l, linked (record { daemon = v.daemon; inbox = [] })))
        × (split_tabs l ≡ g ∷ gs)
  unfolding exchange exchange_open
  exchange-linked f fs g gs w v h k e q r =
      let (l, gave, parts) = exchange_lem E P fuel f fs g gs w v h k e q r in
      (l, ap (λ (g : Got × Link E.State P.State). (g.0, linked g.1)) gave, parts)

  -- What the call leaves on an open connection.
  abbrev flat_end :
      Daemon E.State P.State → Reply E.State → Text → Result ConvertResult × Socket E.State P.State
  flat_end d r err = (
    record {
      ok = true;
      out = record { commit = r.out.commit; candidates = r.out.candidates; candidates_ex = [] };
      err = err;
    },
    linked (record { daemon = record d { session = r.session }; inbox = [] }),
  )

  candidates-linked :
      (w : Link E.State P.State) (romaji : Text) (max : ℤ) (out : ConvertResult) (err : Text)
      → w.inbox ≡ []
      → All IsPlain romaji
      → (session_list E w.daemon.session romaji (wanted max) no_result []).ok ≡ true
      → All IsPlain (session_list E w.daemon.session romaji (wanted max) no_result []).out.commit
      → All
          (All IsPlain)
          (session_list E w.daemon.session romaji (wanted max) no_result []).out.candidates
      → client_candidates socket romaji max out err (linked w)
        ≡ flat_end w.daemon (session_list E w.daemon.session romaji (wanted max) no_result []) err
  unfolding client_candidates request finish conversion read_reply same parse_flat flat_reply
  candidates-linked w romaji max out err e plain ok commit list =
      let op = codes "candidates" in
      let (rest, fields, rest_plain, number) = list_fields op romaji max (ground arith) plain in
      let r = session_list E w.daemon.session romaji (wanted max) no_result [] in
      let v = conversion E P w.daemon flat_reply r in
      let served : daemon_request E P fuel w.daemon (op ∷ romaji ∷ rest) ≡ some v =
        request-flat w.daemon romaji rest
        ∙ ap
            (λ m. some (
              conversion E P w.daemon flat_reply
                (session_list E w.daemon.session romaji m no_result [])))
            number in
      let print : v.reply ≡ join_tabs (codes "ok" ∷ r.out.commit ∷ r.out.candidates) = rw ok refl in
      let (l, gave, parts) =
        exchange-linked op (romaji ∷ rest) (codes "ok") (r.out.commit ∷ r.out.candidates) w v
          (ground arith, (plain, rest_plain)) (ground arith, (commit, list)) e served print in
      let parse : List Text → Result ConvertResult =
        λ f. read_reply (codes "ok") f out parse_flat err in
      ap (λ q. finish socket out (exchange socket (join_tabs q) (linked w)) parse) fields
      ∙ ap (λ g. finish socket out g parse) gave
      ∙ ap
          (λ f. (
            parse f,
            linked (record { daemon = record (w.daemon) { session = r.session }; inbox = [] }),
          ))
          parts

  -- A call fails on a connection that is gone, and leaves the result as it was.
  candidates-broken :
      (m : Text) (d : Daemon E.State P.State) (romaji : Text) (max : ℤ) (out : ConvertResult)
      (err : Text)
      → client_candidates socket romaji max out err (broken m d)
        ≡ (record { ok = false; out = out; err = m }, broken m d)
  unfolding client_candidates request finish exchange exchange_open
  candidates-broken m d romaji max out err = refl

  candidates-ended :
      (d : Daemon E.State P.State) (romaji : Text) (max : ℤ) (out : ConvertResult) (err : Text)
      → client_candidates socket romaji max out err (ended d)
        ≡ (record { ok = false; out = out; err = codes "connection closed by daemon" }, ended d)
  unfolding client_candidates request finish exchange exchange_open
  candidates-ended d romaji max out err = refl

  -- `candidates` of the reconnecting client gives the commit and the flat list that the daemon's
  -- session gives for the same reading and number, leaves the session of that call and an open
  -- connection: whether the connection was closed, failed at the write, ended in front of the reply
  -- or was open with nothing to read, where the daemon accepts a new one, the session succeeds, and
  -- neither the reading nor the texts of the list have a tab or an end of line.
  pub candidates_recovered :
      (s : Socket E.State P.State) (romaji : Text) (max : ℤ) (out : ConvertResult) (err : Text)
      → IsClear s
      → All IsPlain romaji
      → (session_list E (daemon_of s).session romaji (wanted max) no_result []).ok ≡ true
      → All IsPlain
          (session_list E (daemon_of s).session romaji (wanted max) no_result []).out.commit
      → All
          (All IsPlain)
          (session_list E (daemon_of s).session romaji (wanted max) no_result []).out.candidates
      → candidates socket close_socket romaji max out err s
        ≡ flat_end
            (daemon_of s)
            (session_list E (daemon_of s).session romaji (wanted max) no_result [])
            err
  unfolding candidates ensure_open try_connect
  candidates_recovered (linked w) romaji max out err clear plain ok commit list =
      with_reconnect-first socket close_socket (client_candidates socket romaji max) out err
        (linked w) refl (candidates-linked w romaji max out [] clear plain ok commit list) refl
  candidates_recovered (closed d) romaji max out err clear plain ok commit list =
      let w : Link E.State P.State = record { daemon = d; inbox = [] } in
      with_reconnect-first socket close_socket (client_candidates socket romaji max) out err
        (closed d) refl (candidates-linked w romaji max out [] refl plain ok commit list) refl
  candidates_recovered (broken m d) romaji max out err clear plain ok commit list =
      let w : Link E.State P.State = record { daemon = d; inbox = [] } in
      with_reconnect-second socket close_socket (client_candidates socket romaji max) out err
        (broken m d) refl (candidates-broken m d romaji max out []) refl refl refl
        (candidates-linked w romaji max out m refl plain ok commit list) refl
  candidates_recovered (ended d) romaji max out err clear plain ok commit list =
      let w : Link E.State P.State = record { daemon = d; inbox = [] } in
      with_reconnect-second socket close_socket (client_candidates socket romaji max) out err
        (ended d) refl (candidates-ended d romaji max out []) refl refl refl
        (candidates-linked w romaji max out (codes "connection closed by daemon") refl plain ok
          commit list)
        refl
