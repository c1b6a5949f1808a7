-- ===== src/Frontend.antt =====
-- The input method for fcitx5: fcitx5/engine.cpp and fcitx5/engine.h. The connection to the daemon and
-- the candidate lists of fcitx5 are parameters.
pub mod Keys
mod Live
mod Steps
mod Kept
mod Tests
use atzc.Prelude.{
  ℕ, zero, suc, ◌≡◌, true, false, Bool, not, List, [], ◌∷◌, ◌++◌, ◌&&◌, ◌||◌, Option, none, some,
  ltb, if◌then◌else◌,
}
use atzc.Prelude.Int.{ℤ, pos, negsuc}
use atzc.Prelude.Text.{Text, codes, is_empty}
use atzc.Proto.{ConvertResult, no_result}
use atzc.Client.{Wire, Result, simple_req, session_candidates}
use atzc.Client.Reconnect.{Tried, try_connect, ensure_open}

-- The candidate lists of fcitx5: one made of texts, with its cursor on the first, the number of
-- candidates on its page, the text of one of them, and the moves of the cursor.
pub record Lists : Type 1 where
  pub CandidateList : Type 0
  pub make : List Text → CandidateList
  pub size : CandidateList → ℕ
  pub candidate : CandidateList → ℕ → Text
  pub cursor_index : CandidateList → ℤ
  pub next_candidate : CandidateList → CandidateList
  pub prev_candidate : CandidateList → CandidateList

-- The keys that the engine tells apart, without modifiers. `digit n` is the key of the number n + 1,
-- and `letter c` one of a to z.
pub data Key : Type 0 where
  letter : ℕ → Key
  digit : ℕ → Key
  space : Key
  down : Key
  tab : Key
  up : Key
  enter : Key
  escape : Key
  backspace : Key
  other : Key

-- The state of an input context: the engine's own, what the panel shows, the texts that the
-- application got, and the connection.
pub record Context (L S : Type 0) : Type 0 where
  pub romaji : Text
  pub preedit : Text
  pub composing : Bool
  pub list : Option L
  pub shown : Text
  pub committed : List Text
  pub client : S

-- What the engine shows while no list is open.
abbrev pub view : {L S : Type 0} → Context L S → Text
view f = if is_empty f.preedit then f.romaji else f.preedit

unfoldable pub pop_back : Text → Text
pop_back [] = []
pop_back (c ∷ []) = []
pop_back (c ∷ d ∷ t) = c ∷ pop_back (d ∷ t)

unfoldable pub first : List Text → Text
first [] = []
first (t ∷ ts) = t

module _ (F : Lists) (W : Wire) (close : W.State → W.State) where
  open F use {CandidateList, make, size, candidate, cursor_index, next_candidate, prev_candidate}

  -- A session request, from a connection that is made if need be.
  unfoldable pub ask : List Text → Text → W.State → Result Text × W.State
  ask fields want w = simple_req W fields want [] [] w

  -- The cancel of a live composition on the daemon.
  unfoldable pub cancel_live : Context CandidateList W.State → W.State
  unfolding ask
  cancel_live f =
      if f.composing
      then (ask (codes "cancel" ∷ []) (codes "ok") (ensure_open W close [] f.client).state).1
      else f.client

  unfoldable pub clear_session : Context CandidateList W.State → Context CandidateList W.State
  unfolding cancel_live
  clear_session f = record {
    romaji = [];
    preedit = [];
    composing = false;
    list = none;
    shown = [];
    committed = f.committed;
    client = cancel_live f;
  }

  unfoldable pub commit : Context CandidateList W.State → Text → Context CandidateList W.State
  unfolding clear_session
  commit f text =
      clear_session (record f {
        composing = false;
        committed = f.committed ++ text ∷ [];
        client = cancel_live f;
      })

  -- The composition that `session-begin` opened.
  unfoldable pub begun :
      Context CandidateList W.State → W.State → Bool × Context CandidateList W.State
  begun f w = (true, record f { preedit = []; composing = true; client = w })

  -- The second attempt of `ensure_composing`.
  unfoldable pub begin_again :
      Context CandidateList W.State → Tried W.State → Bool × Context CandidateList W.State
  unfolding ask begun
  begin_again f d =
      let r = ask (codes "session-begin" ∷ []) (codes "ok") d.state in
      if d.ok
      then (if r.0.ok then begun f r.1 else (false, record f { client = r.1 }))
      else (false, record f { client = d.state })

  unfoldable pub ensure_composing :
      Context CandidateList W.State → Bool × Context CandidateList W.State
  unfolding ask begun begin_again
  ensure_composing f =
      let o = ensure_open W close [] f.client in
      let r = ask (codes "session-begin" ∷ []) (codes "ok") o.state in
      if f.composing
      then (true, f)
      else if o.ok
      then (if r.0.ok then begun f r.1 else begin_again f (try_connect W close [] (close r.1)))
      else (false, record f { client = o.state })

  -- What is made of the candidates.
  unfoldable pub offer :
      Context CandidateList W.State → ConvertResult → Context CandidateList W.State
  unfolding first commit
  offer f r =
      if is_empty r.candidates
      then (if is_empty r.commit then f else commit f r.commit)
      else record f {
        list = some (make r.candidates);
        shown = if is_empty r.commit then first r.candidates else r.commit;
      }

  unfoldable pub offer_again :
      Context CandidateList W.State → ConvertResult → Tried W.State → Context CandidateList W.State
  unfolding offer
  offer_again f out d =
      let r = session_candidates W f.romaji (pos 0) out [] d.state in
      if d.ok
      then (if r.0.ok then offer (record f { client = r.1 }) r.0.out else record f { client = r.1 })
      else record f { client = d.state }

  unfoldable pub start_conversion : Context CandidateList W.State → Context CandidateList W.State
  unfolding offer offer_again
  start_conversion f =
      let o = ensure_open W close [] f.client in
      let r = session_candidates W f.romaji (pos 0) no_result [] o.state in
      if is_empty f.romaji
      then f
      else if r.0.ok
      then offer (record f { client = r.1 }) r.0.out
      else offer_again f r.0.out (try_connect W close [] (close r.1))
