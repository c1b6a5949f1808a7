-- ===== src/Client.antt =====
-- The client of the socket protocol: src/client.cpp. The connection is a parameter: what `connect`,
-- `send_line` and `recv_line` give.
pub mod Reconnect
pub mod Recovery
mod Replies
mod Requests
mod Tests
use atzc.Prelude.{
  ℕ, zero, suc, ◌+◌, ◌≡◌, true, false, Bool, not, List, [], ◌∷◌, ◌++◌, Option, none, some,
  if◌then◌else◌,
}
use atzc.Prelude.Int.{ℤ, pos, negsuc}
use atzc.Prelude.Text.{Text, codes, same, is_empty, strip_prefix}
use atzc.Prelude.Decimal.{to_string}
use atzc.Proto.{Candidate, ConvertResult, split_tabs, join_tabs}

-- What a step on the connection gives: the text that it reads or the message of its failure.
pub data Got : Type 0 where
  line : Text → Got
  failure : Text → Got

-- A connection, open or not. `send_line` and `connect` give an empty line where they succeed.
pub record Wire : Type 1 where
  pub State : Type 0
  pub is_open : State → Bool
  pub connect : State → Got × State
  pub send_line : Text → State → Got × State
  pub recv_line : State → Got × State

-- The fields of a request that carries a reading.
unfoldable pub reading_request : Text → Text → ℤ → List Text
reading_request op romaji (negsuc n) = op ∷ romaji ∷ []
reading_request op romaji (pos zero) = op ∷ romaji ∷ []
reading_request op romaji (pos (suc n)) = op ∷ romaji ∷ to_string (suc n) ∷ []

-- What a call leaves in its out parameters.
pub record Result (A : Type 0) : Type 0 where
  pub ok : Bool
  pub out : A
  pub err : Text

-- The field behind the verb, or another text if there is none.
unfoldable pub second : List Text → Text → Text
second [] other = other
second (f ∷ fs) other = f

-- What a reply says, behind its verb: an error, the wanted verb, or another one.
unfoldable pub read_reply : {A : Type 0} → Text → List Text → A → (List Text → A) → Text → Result A
unfolding second
read_reply want [] out parse err = record { ok = false; out = out; err = codes "empty reply" }
read_reply want (verb ∷ fs) out parse err =
    if same verb (codes "err")
    then record { ok = false; out = out; err = second fs (codes "engine error") }
    else if same verb want
    then record { ok = true; out = parse fs; err = err }
    else record { ok = false; out = out; err = codes "unexpected reply: " ++ verb }

unfoldable pub parse_flat : List Text → ConvertResult
parse_flat [] = record { commit = []; candidates = []; candidates_ex = [] }
parse_flat (commit ∷ cs) = record { commit = commit; candidates = cs; candidates_ex = [] }

-- The loop over the triples; a short last one is padded, and one without a surface is skipped.
unfoldable pub parse_triples : List Text → List Candidate
parse_triples [] = []
parse_triples (s ∷ []) =
    if is_empty s then [] else record { surface = s; reading = []; hinsi = [] } ∷ []
parse_triples (s ∷ r ∷ []) =
    if is_empty s then [] else record { surface = s; reading = r; hinsi = [] } ∷ []
parse_triples (s ∷ r ∷ h ∷ fs) =
    (if is_empty s then [] else record { surface = s; reading = r; hinsi = h } ∷ [])
    ++ parse_triples fs

unfoldable pub surfaces : List Candidate → List Text
surfaces [] = []
surfaces (c ∷ cs) = c.surface ∷ surfaces cs

unfoldable pub parse_enriched : List Text → ConvertResult
unfolding parse_triples surfaces
parse_enriched [] = record { commit = []; candidates = []; candidates_ex = [] }
parse_enriched (commit ∷ fs) = record {
  commit = commit;
  candidates = surfaces (parse_triples fs);
  candidates_ex = parse_triples fs;
}

module _ (W : Wire) where
  open W use {State, is_open, connect, send_line, recv_line}

  -- The steps of a call in front of its reply: connect if need be, send the line, get one.
  unfoldable pub exchange_open : Text → State → Got × State
  exchange_open request w =
      let s = send_line request w in
      elim (s.0) [ failure e ↦ (failure e, s.1) | line l ↦ recv_line s.1 ]

  unfoldable pub exchange : Text → State → Got × State
  unfolding exchange_open
  exchange request w =
      let c = connect w in
      if is_open w
      then exchange_open request w
      else elim (c.0) [ failure e ↦ (failure e, c.1) | line l ↦ exchange_open request c.1 ]

  -- A reply by its fields, or the failure of the exchange.
  unfoldable pub finish : {A : Type 0} → A → Got × State → (List Text → Result A) → Result A × State
  finish out g parse = elim (g.0) [
    | failure e ↦ (record { ok = false; out = out; err = e }, g.1)
    | line l ↦ (parse (split_tabs l), g.1)
  ]

  unfoldable pub request :
      Text → Text → ℤ → ConvertResult → Text → State → Result ConvertResult × State
  unfolding exchange finish
  request op romaji max out err w =
      finish out (exchange (join_tabs (reading_request op romaji max)) w)
        (λ f. read_reply (codes "ok") f out parse_flat err)

  unfoldable pub candidates_ex :
      Text → ℤ → ConvertResult → Text → State → Result ConvertResult × State
  unfolding exchange finish
  candidates_ex romaji max out err w =
      finish out (exchange (join_tabs (reading_request (codes "candidates-ex") romaji max)) w)
        (λ f. read_reply (codes "okx") f out parse_enriched err)

  unfoldable pub convert : Text → ConvertResult → Text → State → Result ConvertResult × State
  convert romaji = request (codes "convert") romaji (pos 0)

  unfoldable pub candidates : Text → ℤ → ConvertResult → Text → State → Result ConvertResult × State
  candidates = request (codes "candidates")

  unfoldable pub session_candidates :
      Text → ℤ → ConvertResult → Text → State → Result ConvertResult × State
  session_candidates = request (codes "session-candidates")

  -- A bare op with at most one argument, and one field of the reply.
  unfoldable pub simple_req : List Text → Text → Text → Text → State → Result Text × State
  unfolding exchange finish
  simple_req fields want text err w =
      finish text (exchange (join_tabs fields) w)
        (λ f. read_reply want f text (λ fs. second fs []) err)

  unfoldable pub ping : Text → State → Result Text × State
  unfolding exchange
  ping err w =
      let g = exchange (join_tabs (codes "ping" ∷ [])) w in
      elim (g.0) [
        | failure e ↦ (record { ok = false; out = []; err = e }, g.1)
        | line l ↦ elim (strip_prefix (codes "pong") l) [
          | some rest ↦ (record { ok = true; out = []; err = err }, g.1)
          | none ↦ (record { ok = false; out = []; err = codes "no pong: " ++ l }, g.1)
        ]
      ]
