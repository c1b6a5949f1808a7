-- ===== src/Session/Prefetch.antt =====
-- What holds at every interleaving of the caller and the worker of a session.
use atzc.Prelude.{◌≡◌, refl, true, false, Bool, [], All, if◌then◌else◌, inl, inr, Option-cases}
use atzc.Prelude.Int.{ℤ}
use atzc.Prelude.Text.{Text, is_empty}
use atzc.Prelude.Dict.{find, AllValues-find}
use atzc.Proto.{no_result}
use atzc.Session.{Engine, cache_get, cache_has, build_candidates, start}
use atzc.Session.Build.{IsList, cap-IsList}
use atzc.Session.Cache.{IsValid, cache_put-IsValid}
use atzc.Session.Hints.{same_store, start-IsValid, remember_top1-IsValid, build_candidates-IsValid}
use atzc.Session.Threads.{
  Request, convert_request, candidates_request, Caller, ready, answered, remembered, queueing,
  locking, filled, Worker, waiting, taken, wanting, built, System, call, fill, go_on, caller_step,
  prefetch, work, worker_step, Step, calls, caller_runs, worker_runs, Reach, here, next,
}

-- A list that a thread holds is well formed.
abbrev pub CallerHolds : Caller → Type 0
CallerHolds (filled romaji max r) = IsList r
CallerHolds _ = Unit

abbrev pub WorkerHolds : Worker → Type 0
WorkerHolds (built romaji r) = IsList r
WorkerHolds _ = Unit

pub record IsSound {S : Type 0} (y : System S) : Type 0 where
  pub session : IsValid y.session
  pub caller : CallerHolds y.caller
  pub worker : WorkerHolds y.worker
  pub answers : All IsList y.answers

-- A test that chooses between a place that holds a list and one that does not.
holds_if :
    {A : Type 0} (P : A → Type 0) (b : Bool) (x z : A)
    → (b ≡ true → P x)
    → P z
    → P (if b then x else z)
holds_if P true x z h k = h refl
holds_if P false x z h k = k

module _ (E : Engine) where
  open E use {State, top_one}

  call-IsSound : (q : Request) (y : System State) → IsSound y → IsSound (call E q y)
  unfolding call cache_get
  call-IsSound (convert_request romaji) y v = record {
    session = same_store y.session _ y.session.pending v.session;
    caller =
        holds_if CallerHolds (top_one romaji no_result [] y.session.engine).ok _ ready (λ h. tt) tt;
    worker = v.worker;
    answers = v.answers;
  }
  call-IsSound (candidates_request romaji max) y v =
      elim (Option-cases (find romaji y.session.cache)) [
        | inl e ↦
            rw (e, call)
              (record { session = v.session; caller = tt; worker = v.worker; answers = v.answers })
        | inr (r, e) ↦
            rw (e, call)
              (record {
                session = v.session;
                caller = tt;
                worker = v.worker;
                answers = (
                  cap-IsList max r (AllValues-find IsList romaji r _ v.session.lists e),
                  v.answers,
                );
              })
      ]

  fill-IsSound :
      (romaji : Text) (max : ℤ) (y : System State) → IsSound y → IsSound (fill E romaji max y)
  unfolding fill cache_get
  fill-IsSound romaji max y v = elim (Option-cases (find romaji y.session.cache)) [
    | inl e ↦
        let (v1, l) = build_candidates-IsValid E y.session romaji no_result [] v.session in
        rw (e, fill)
          (record {
            session = v1;
            caller =
                holds_if CallerHolds (build_candidates E y.session romaji no_result []).ok _ ready l
                  tt;
            worker = v.worker;
            answers = v.answers;
          })
    | inr (r, e) ↦
        rw (e, fill)
          (record {
            session = v.session;
            caller = tt;
            worker = v.worker;
            answers =
                (cap-IsList max r (AllValues-find IsList romaji r _ v.session.lists e), v.answers);
          })
  ]

  -- `c` is where the caller is.
  go_on-IsSound :
      (c : Caller) (y : System State) → CallerHolds c → IsSound y → IsSound (go_on E c y)
  unfolding go_on
  go_on-IsSound ready y h v = v
  go_on-IsSound (answered romaji t) y h v = record {
    session = remember_top1-IsValid y.session romaji t v.session;
    caller = tt;
    worker = v.worker;
    answers = v.answers;
  }
  go_on-IsSound (remembered romaji t) y h v = record {
    session = v.session;
    caller = holds_if CallerHolds (cache_has y.session romaji) ready (queueing romaji) (λ k. tt) tt;
    worker = v.worker;
    answers = v.answers;
  }
  go_on-IsSound (queueing romaji) y h v = record {
    session = same_store y.session y.session.engine romaji v.session;
    caller = tt;
    worker = v.worker;
    answers = v.answers;
  }
  go_on-IsSound (locking romaji max) y h v = fill-IsSound romaji max y v
  go_on-IsSound (filled romaji max r) y h v = record {
    session = cache_put-IsValid y.session romaji r v.session h;
    caller = tt;
    worker = v.worker;
    answers = (cap-IsList max r h, v.answers);
  }

  prefetch-IsSound : (romaji : Text) (y : System State) → IsSound y → IsSound (prefetch E romaji y)
  unfolding prefetch
  prefetch-IsSound romaji y v =
      let (v1, l) = build_candidates-IsValid E y.session romaji no_result [] v.session in
      holds_if IsSound (cache_has y.session romaji) _ _
        (λ h. record { session = v.session; caller = v.caller; worker = tt; answers = v.answers })
        (record {
          session = v1;
          caller = v.caller;
          worker =
              holds_if WorkerHolds (build_candidates E y.session romaji no_result []).ok _ waiting l
                tt;
          answers = v.answers;
        })

  work-IsSound : (w : Worker) (y : System State) → WorkerHolds w → IsSound y → IsSound (work E w y)
  unfolding work
  work-IsSound waiting y h v =
      holds_if IsSound (is_empty y.session.pending) y _ (λ k. v)
        (record {
          session = same_store y.session y.session.engine [] v.session;
          caller = v.caller;
          worker = tt;
          answers = v.answers;
        })
  work-IsSound (taken romaji) y h v = record {
    session = v.session;
    caller = v.caller;
    worker =
        holds_if WorkerHolds (cache_has y.session romaji) waiting (wanting romaji) (λ k. tt) tt;
    answers = v.answers;
  }
  work-IsSound (wanting romaji) y h v = prefetch-IsSound romaji y v
  work-IsSound (built romaji r) y h v = record {
    session = cache_put-IsValid y.session romaji r v.session h;
    caller = v.caller;
    worker = tt;
    answers = v.answers;
  }

  Step-IsSound : {y z : System State} → Step E y z → IsSound y → IsSound z
  unfolding caller_step worker_step
  Step-IsSound (calls q h) v = call-IsSound q _ v
  Step-IsSound {y} caller_runs v = go_on-IsSound y.caller y v.caller v
  Step-IsSound {y} worker_runs v = work-IsSound y.worker y v.worker v

  Reach-IsSound : {y z : System State} → Reach E y z → IsSound y → IsSound z
  Reach-IsSound here v = v
  Reach-IsSound (next r s) v = Step-IsSound s (Reach-IsSound r v)

  -- A session that was just made over an engine, with both threads at rest.
  unfoldable pub at_rest : State → System State
  at_rest e = record { session = start e; caller = ready; worker = waiting; answers = [] }

  -- At every interleaving of the caller and the worker, whatever the engine answers, the map and the
  -- order of the remembered lists hold the same readings, at most 64 and each once, there are at
  -- most 65 hints, and every list that is remembered, that a thread holds or that was answered is
  -- led by its commit, where that is not empty, holds it nowhere else, and has each enriched surface
  -- once.
  pub Reach_at_rest-IsSound : (e : State) {z : System State} → Reach E (at_rest e) z → IsSound z
  unfolding at_rest
  Reach_at_rest-IsSound e r =
      Reach-IsSound r (record { session = start-IsValid e; caller = tt; worker = tt; answers = tt })
