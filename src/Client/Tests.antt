-- ===== src/Client/Tests.antt =====
-- A client of a daemon over an engine and a harness for tests.
use atzc.Prelude.{ℕ, ◌≡◌, refl, sym, subst, true, false, [], ◌∷◌, All, arith}
use atzc.Prelude.Int.{pos}
use atzc.Prelude.Text.{codes, same, is_empty}
use atzc.Prelude.Dict.{find}
use atzc.Proto.{ConvertResult, no_result}
use atzc.Proto.Laws.{IsPlain}
use atzc.Session.{
  candidates, cache_get, put_built, build_candidates, take_top1, cap, merge, others, enriched,
  add_source, seen_in,
}
use atzc.Session.Sample.{counting, fresh, candidate}
use atzc.Harness.Script.{Echo, stopped, echo}
use atzc.Client.{candidates_ex}
use atzc.Client.Replies.{IsCarried, carried}
use atzc.Client.Requests.{Link, loopback, candidates_ex-session}
use atzc.Client.Reconnect.{candidates as reconnecting_candidates}
use atzc.Client.Recovery.{Socket, broken, socket, close_socket, linked, candidates_recovered}

abbrev link : Link ℕ Echo
link = record {
  daemon = record { session = fresh; sess = record { proc = stopped; rbuf = []; active = false } };
  inbox = [];
}

list_ok : (candidates counting fresh (codes "ka") (pos 2) no_result []).ok ≡ true
unfolding candidates cache_get put_built build_candidates take_top1 find
list_ok = refl

abbrev answer : ConvertResult
answer = record {
  commit = codes "A";
  candidates = codes "A" ∷ codes "B" ∷ [];
  candidates_ex = candidate (codes "A") ∷ candidate (codes "B") ∷ [];
}

list_out : (candidates counting fresh (codes "ka") (pos 2) no_result []).out ≡ answer
unfolding candidates cache_get put_built build_candidates take_top1 find is_empty cap merge others
    enriched add_source seen_in same
list_out = refl

abbrev IsPlainCommit : ConvertResult → Type 0
IsPlainCommit r = All IsPlain r.commit

abbrev IsPlainList : ConvertResult → Type 0
IsPlainList r = All (All IsPlain) r.candidates

answer-IsCarried : IsCarried answer
unfolding is_empty
answer-IsCarried = record {
  commit = ground arith;
  candidates = ((ground arith, refl), ((ground arith, refl), tt));
  candidates_ex = (
    record { surface = ground arith; reading = ground arith; hinsi = ground arith; named = refl },
    (
      record { surface = ground arith; reading = ground arith; hinsi = ground arith; named = refl },
      tt,
    ),
  );
}

candidates_ex-session_example :
    candidates_ex (loopback counting echo 70) (codes "ka") (pos 2) no_result [] link ≡ (
      record {
        ok = true;
        out = carried (candidates counting fresh (codes "ka") (pos 2) no_result []).out;
        err = [];
      },
      record {
        daemon = record (link.daemon) {
          session = (candidates counting fresh (codes "ka") (pos 2) no_result []).session;
        };
        inbox = [];
      },
    )
candidates_ex-session_example =
    candidates_ex-session counting echo 70 link (codes "ka") (pos 2) no_result [] refl
      (ground arith) list_ok (subst IsCarried (sym list_out) answer-IsCarried)

abbrev lost : Socket ℕ Echo
lost = broken (codes "write: Broken pipe") (link.daemon)

candidates_recovered_example :
    reconnecting_candidates
      (socket counting echo 70)
      close_socket
      (codes "ka")
      (pos 2)
      no_result
      []
      lost
    ≡ (
      record {
        ok = true;
        out = record {
          commit = (candidates counting fresh (codes "ka") (pos 2) no_result []).out.commit;
          candidates = (candidates counting fresh (codes "ka") (pos 2) no_result []).out.candidates;
          candidates_ex = [];
        };
        err = [];
      },
      linked (record {
        daemon = record (link.daemon) {
          session = (candidates counting fresh (codes "ka") (pos 2) no_result []).session;
        };
        inbox = [];
      }),
    )
candidates_recovered_example =
    candidates_recovered counting echo 70 lost (codes "ka") (pos 2) no_result [] tt (ground arith)
      list_ok (subst IsPlainCommit (sym list_out) (ground arith))
      (subst IsPlainList (sym list_out) (ground arith, (ground arith, tt)))
