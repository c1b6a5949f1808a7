-- ===== src/Session/Threads.antt =====
-- The two threads of a session (src/session.cpp): the caller in `top1` and `candidates`, and the
-- worker in `prefetchLoop`. A step is what a thread does between two places where the other one can
-- run. `buildCandidates` is one step: it runs with the engine locked, and what the other thread does
-- meanwhile with the hints, the cache and the queue changes none of what it still reads.
use atzc.Prelude.{◌≡◌, List, [], ◌∷◌, none, some, if◌then◌else◌}
use atzc.Prelude.Int.{ℤ}
use atzc.Prelude.Text.{Text, is_empty}
use atzc.Proto.{ConvertResult, no_result}
use atzc.Session.{
  Engine, Session, cache_get, cache_has, cache_put, remember_top1, build_candidates, cap,
}

pub data Request : Type 0 where
  convert_request : Text → Request
  candidates_request : Text → ℤ → Request

-- The places where the caller can be: between two calls, in `top1` behind the engine's answer, behind
-- `rememberTop1`, and in front of the queue; in `candidates` in front of the engine's lock, and
-- behind it with a list that was built.
pub data Caller : Type 0 where
  ready : Caller
  answered remembered : Text → Text → Caller
  queueing : Text → Caller
  locking : Text → ℤ → Caller
  filled : Text → ℤ → ConvertResult → Caller

-- The places of the worker: in front of the queue, with a reading from it, in front of the engine's
-- lock, and behind it with a list that was built.
pub data Worker : Type 0 where
  waiting : Worker
  taken wanting : Text → Worker
  built : Text → ConvertResult → Worker

-- The threads with what they share, and the lists that `candidates` has answered.
pub record System (S : Type 0) : Type 0 where
  pub session : Session S
  pub caller : Caller
  pub worker : Worker
  pub answers : List ConvertResult

module _ (E : Engine) where
  open E use {State, top_one}

  abbrev answer : System State → ConvertResult → System State
  answer y r = record y { caller = ready; answers = r ∷ y.answers }

  -- The first part of a call, up to its first answer.
  unfoldable pub call : Request → System State → System State
  call (convert_request romaji) y =
      let a = top_one romaji no_result [] y.session.engine in
      record y {
        session = record (y.session) { engine = a.state };
        caller = if a.ok then answered romaji a.out.commit else ready;
      }
  call (candidates_request romaji max) y = elim (cache_get y.session romaji) [
    | some r ↦ answer y (cap max r)
    | none ↦ record y { caller = locking romaji max }
  ]

  -- What follows the engine's lock in `candidates`.
  unfoldable pub fill : Text → ℤ → System State → System State
  fill romaji max y = elim (cache_get y.session romaji) [
    | some r ↦ answer y (cap max r)
    | none ↦
        let b = build_candidates E y.session romaji no_result [] in
        record y { session = b.session; caller = if b.ok then filled romaji max b.out else ready }
  ]

  unfoldable pub go_on : Caller → System State → System State
  go_on ready y = y
  go_on (answered romaji t) y = record y {
    session = remember_top1 y.session romaji t;
    caller = remembered romaji t;
  }
  go_on (remembered romaji t) y = record y {
    caller = if cache_has y.session romaji then ready else queueing romaji;
  }
  go_on (queueing romaji) y = record y {
    session = record (y.session) { pending = romaji };
    caller = ready;
  }
  go_on (locking romaji max) y = fill romaji max y
  go_on (filled romaji max r) y =
      answer (record y { session = cache_put y.session romaji r }) (cap max r)

  unfoldable pub caller_step : System State → System State
  caller_step y = go_on y.caller y

  -- What follows the engine's lock in the worker.
  unfoldable pub prefetch : Text → System State → System State
  prefetch romaji y =
      let b = build_candidates E y.session romaji no_result [] in
      if cache_has y.session romaji
      then record y { worker = waiting }
      else record y { session = b.session; worker = if b.ok then built romaji b.out else waiting }

  unfoldable pub work : Worker → System State → System State
  work waiting y = if is_empty y.session.pending then y else record y {
    session = record (y.session) { pending = [] };
    worker = taken y.session.pending;
  }
  work (taken romaji) y = record y {
    worker = if cache_has y.session romaji then waiting else wanting romaji;
  }
  work (wanting romaji) y = prefetch romaji y
  work (built romaji r) y = record y { session = cache_put y.session romaji r; worker = waiting }

  unfoldable pub worker_step : System State → System State
  worker_step y = work y.worker y

  -- The scheduler runs one of the two threads; a new call begins when the last one has ended.
  pub data Step (y : System State) : System State → Type 0 where
    calls : (q : Request) → y.caller ≡ ready → Step y (call q y)
    caller_runs : Step y (caller_step y)
    worker_runs : Step y (worker_step y)

  pub data Reach (y : System State) : System State → Type 0 where
    here : Reach y y
    next : {z u : System State} → Reach y z → Step z u → Reach y u
