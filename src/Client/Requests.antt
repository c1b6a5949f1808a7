-- ===== src/Client/Requests.antt =====
-- A client whose connection ends at the daemon (src/client.cpp, src/atzcd/main.cpp): its calls give
-- what the daemon's session gives.
use atzc.Prelude.{
  ℕ, zero, suc, ◌≡◌, refl, ap, ◌∙◌, true, List, [], ◌∷◌, ◌++◌, All, arith, Option, none, some,
}
use atzc.Prelude.Int.{ℤ, pos, negsuc}
use atzc.Prelude.Text.{Text, codes, same, is_empty}
use atzc.Prelude.Decimal.{to_string, atoi-to_string, AreDigits, to_string-AreDigits}
use atzc.Lines.{take_line}
use atzc.Proto.{ConvertResult, no_result, split_tabs, join_tabs}
use atzc.Proto.Laws.{IsPlain}
use atzc.Proto.Line.{take_line-join_tabs}
use atzc.Session.{Engine, candidates as session_list}
use atzc.Harness.{Process}
use atzc.Daemon.{
  Daemon, Served, request as daemon_request, conversion, enriched_reply, list_request, max_field,
}
use atzc.Client.{
  Got, line, failure, Wire, Result, reading_request, read_reply, parse_enriched, exchange_open,
  exchange, finish, candidates_ex,
}
use atzc.Client.Replies.{
  IsCarried, carried, enriched_fields, parse_enriched_lem, enriched_fields-All,
}

-- A connection to the daemon, which is open, with the bytes that the client has not read yet.
pub record Link (S H : Type 0) : Type 0 where
  pub daemon : Daemon S H
  pub inbox : Text

-- The number of candidates that a request asks for.
abbrev pub wanted : ℤ → ℤ
wanted (negsuc n) = pos 0
wanted (pos n) = pos n

AreDigits-IsPlain : (t : Text) → AreDigits t → All IsPlain t
AreDigits-IsPlain [] h = tt
AreDigits-IsPlain (c ∷ t) h = ((ground (arith, h.0), ground (arith, h.0)), AreDigits-IsPlain t h.1)

-- The fields behind the op, for each number.
pub list_fields :
    (op romaji : Text) (max : ℤ)
    → All IsPlain op
    → All IsPlain romaji
    → (rest : List Text) × (reading_request op romaji max ≡ op ∷ romaji ∷ rest)
      × All (All IsPlain) rest
      × (max_field rest ≡ wanted max)
unfolding reading_request max_field
list_fields op romaji (negsuc n) h k = ([], refl, tt, refl)
list_fields op romaji (pos zero) h k = ([], refl, tt, refl)
list_fields op romaji (pos (suc n)) h k = (
  to_string (suc n) ∷ [],
  refl,
  (AreDigits-IsPlain (to_string (suc n)) (to_string-AreDigits (suc n)), tt),
  atoi-to_string (suc n),
)

module _ (E : Engine) (P : Process) (fuel : ℕ) where
  -- The daemon serves a line at once; where it still waits, nothing arrives.
  unfoldable pub deliver :
      Link E.State P.State → Option (Served E.State P.State) → Link E.State P.State
  deliver w none = w
  deliver w (some v) = record { daemon = v.daemon; inbox = w.inbox ++ v.reply }

  unfoldable pub send : Text → Link E.State P.State → Link E.State P.State
  send t w = elim (take_line t) [
    | none ↦ w
    | some (l, rest) ↦ deliver w (daemon_request E P fuel w.daemon (split_tabs l))
  ]

  unfoldable pub receive : Link E.State P.State → Got × Link E.State P.State
  receive w = elim (take_line w.inbox) [
    | none ↦ (failure (codes "connection closed by daemon"), w)
    | some (l, rest) ↦ (line l, record w { inbox = rest })
  ]

  abbrev pub loopback : Wire
  loopback = record {
    State = Link E.State P.State;
    is_open = λ w. true;
    connect = λ w. (line [], w);
    send_line = λ t w. (line [], send t w);
    recv_line = receive;
  }

  send_lem :
      (t : Text) (w : Link E.State P.State) {l rest : Text}
      → take_line t ≡ some (l, rest)
      → send t w ≡ deliver w (daemon_request E P fuel w.daemon (split_tabs l))
  unfolding send
  send_lem t w h = rw (h, send) refl

  receive_lem :
      (w : Link E.State P.State) {l rest : Text}
      → take_line w.inbox ≡ some (l, rest)
      → receive w ≡ (line l, record w { inbox = rest })
  unfolding receive
  receive_lem w h = rw (h, receive) refl

  -- An exchange in which the daemon answers the fields of the request with those of the reply.
  pub exchange_lem :
      (f : Text) (fs : List Text) (g : Text) (gs : List Text) (w : Link E.State P.State)
      (v : Served E.State P.State)
      → All (All IsPlain) (f ∷ fs)
      → All (All IsPlain) (g ∷ gs)
      → w.inbox ≡ []
      → daemon_request E P fuel w.daemon (f ∷ fs) ≡ some v
      → v.reply ≡ join_tabs (g ∷ gs)
      → (l : Text) × (exchange loopback (join_tabs (f ∷ fs)) w
          ≡ (line l, record { daemon = v.daemon; inbox = [] }))
        × (split_tabs l ≡ g ∷ gs)
  unfolding exchange exchange_open deliver
  exchange_lem f fs g gs w v h k e q r =
      let (l, sent, fields) = take_line-join_tabs f fs h in
      let (m, reply, parts) = take_line-join_tabs g gs k in
      let served : send (join_tabs (f ∷ fs)) w ≡ record { daemon = v.daemon; inbox = v.reply } =
        send_lem (join_tabs (f ∷ fs)) w sent
        ∙ ap (deliver w) (ap (daemon_request E P fuel w.daemon) fields ∙ q)
        ∙ ap (λ b. record { daemon = v.daemon; inbox = b ++ v.reply }) e in
      (
        m,
        ap receive served
            ∙ receive_lem (record { daemon = v.daemon; inbox = v.reply }) (ap take_line r ∙ reply),
        parts,
      )

  request-ex :
      (d : Daemon E.State P.State) (romaji : Text) (rest : List Text)
      → daemon_request E P fuel d (codes "candidates-ex" ∷ romaji ∷ rest)
        ≡ some (
            conversion E P d enriched_reply
              (session_list E d.session romaji (max_field rest) no_result []))
  unfolding daemon_request list_request same is_empty
  request-ex d romaji rest = refl

  -- `candidatesEx` over a connection to the daemon gives the list that the daemon's session gives for
  -- the same reading and number, with the bare flat list where there is no enriched one, and leaves
  -- the session of that call: where the session succeeds, the reading has no tab or end of line, and
  -- the texts of the list have none either and its candidates are not empty.
  pub candidates_ex-session :
      (w : Link E.State P.State) (romaji : Text) (max : ℤ) (out : ConvertResult) (err : Text)
      → w.inbox ≡ []
      → All IsPlain romaji
      → (session_list E w.daemon.session romaji (wanted max) no_result []).ok ≡ true
      → IsCarried (session_list E w.daemon.session romaji (wanted max) no_result []).out
      → candidates_ex loopback romaji max out err w ≡ (
        record {
          ok = true;
          out = carried (session_list E w.daemon.session romaji (wanted max) no_result []).out;
          err = err;
        },
        record {
          daemon = record (w.daemon) {
            session = (session_list E w.daemon.session romaji (wanted max) no_result []).session;
          };
          inbox = [];
        },
      )
  unfolding candidates_ex finish conversion enriched_reply read_reply same
  candidates_ex-session w romaji max out err e plain ok carry =
      let op = codes "candidates-ex" in
      let (rest, fields, rest_plain, number) = list_fields op romaji max (ground arith) plain in
      let r = session_list E w.daemon.session romaji (wanted max) no_result [] in
      let v = conversion E P w.daemon enriched_reply r in
      let served : daemon_request E P fuel w.daemon (op ∷ romaji ∷ rest) ≡ some v =
        request-ex w.daemon romaji rest
        ∙ ap
            (λ m. some (
              conversion E P w.daemon enriched_reply
                (session_list E w.daemon.session romaji m no_result [])))
            number in
      let print : v.reply ≡ join_tabs (codes "okx" ∷ enriched_fields r.out) = rw ok refl in
      let (l, gave, parts) =
        exchange_lem op (romaji ∷ rest) (codes "okx") (enriched_fields r.out) w v
          (ground arith, (plain, rest_plain)) (ground arith, enriched_fields-All r.out carry) e
          served print in
      let w' : Link E.State P.State = record {
        daemon = record (w.daemon) { session = r.session };
        inbox = [];
      } in
      let parse : List Text → Result ConvertResult =
        λ f. read_reply (codes "okx") f out parse_enriched err in
      ap (λ q. finish loopback out (exchange loopback (join_tabs q) w) parse) fields
      ∙ ap (λ g. finish loopback out g parse) gave
      ∙ ap (λ f. (parse f, w')) parts
      ∙ ap (λ (o : ConvertResult). (record { ok = true; out = o; err = err }, w'))
          (parse_enriched_lem r.out carry)
