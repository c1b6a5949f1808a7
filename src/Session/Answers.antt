-- ===== src/Session/Answers.antt =====
-- What consecutive calls of a session answer (src/session.cpp).
use atzc.Prelude.{◌≡◌, refl, sym, subst, true, false, [], inl, inr, none, some, Option-cases}
use atzc.Prelude.Int.{ℤ}
use atzc.Prelude.Text.{Text, is_empty}
use atzc.Prelude.Dict.{find}
use atzc.Proto.{ConvertResult, no_result}
use atzc.Session.{
  Engine, Session, Reply, cache_get, cache_has, cache_put, build_candidates, cap, put_built,
  candidates,
}
use atzc.Session.Cache.{cache_get-cache_put}
use atzc.Session.Threads.{System, waiting, taken, wanting, built, prefetch, work, worker_step}

module _ (E : Engine) where
  open E use {State, top_one}

  -- A list that is remembered is answered without the engine, and nothing changes.
  candidates_hit :
      (s : Session State) (romaji : Text) (max : ℤ) (out : ConvertResult) (err : Text)
      {r : ConvertResult}
      → cache_get s romaji ≡ some r
      → candidates E s romaji max out err
        ≡ record { ok = true; out = cap max r; err = err; session = s }
  unfolding candidates
  candidates_hit s romaji max out err h = rw (h, candidates) refl

  put_built-cache_get :
      (romaji : Text) (max : ℤ) (b : Reply State)
      → (put_built E romaji max b).ok ≡ true
      → (full : ConvertResult) × ((put_built E romaji max b).out ≡ cap max full)
        × (cache_get (put_built E romaji max b).session romaji ≡ some full)
  unfolding put_built
  put_built-cache_get romaji max b h =
      (b.out, rw h refl, rw h (cache_get-cache_put b.session romaji b.out))

  -- Any other list is built and stored.
  candidates_miss :
      (s : Session State) (romaji : Text) (max : ℤ) (out : ConvertResult) (err : Text)
      → cache_get s romaji ≡ none
      → candidates E s romaji max out err
        ≡ put_built E romaji max (build_candidates E s romaji out err)
  unfolding candidates
  candidates_miss s romaji max out err h = rw (h, candidates) refl

  -- A call that succeeds has stored a list, and answers a part of it.
  abbrev Stored : Text → ℤ → Reply State → Type 0
  Stored romaji max c =
      (full : ConvertResult) × (c.out ≡ cap max full) × (cache_get c.session romaji ≡ some full)

  candidates_full :
      (s : Session State) (romaji : Text) (max : ℤ) (out : ConvertResult) (err : Text)
      → (candidates E s romaji max out err).ok ≡ true
      → Stored romaji max (candidates E s romaji max out err)
  candidates_full s romaji max out err = elim (Option-cases (cache_get s romaji)) [
    | inl e ↦
        subst (λ (c : Reply State). c.ok ≡ true → Stored romaji max c)
          (sym (candidates_miss s romaji max out err e))
          (put_built-cache_get romaji max (build_candidates E s romaji out err))
    | inr (r, e) ↦
        subst (λ (c : Reply State). c.ok ≡ true → Stored romaji max c)
          (sym (candidates_hit s romaji max out err e)) (λ h. (r, refl, e))
  ]

  -- Where `candidates` succeeds and neither another call nor a step of the prefetching worker comes
  -- in between, the same reading is answered again without the engine: the session does not change,
  -- and each answer, whatever its cap, is a part of one list.
  pub candidates_again :
      (s : Session State) (romaji : Text) (max max' : ℤ) (out out' : ConvertResult)
      (err err' : Text)
      → (candidates E s romaji max out err).ok ≡ true
      → (full : ConvertResult) × ((candidates E s romaji max out err).out ≡ cap max full)
        × (candidates E (candidates E s romaji max out err).session romaji max' out' err' ≡ record {
          ok = true;
          out = cap max' full;
          err = err';
          session = (candidates E s romaji max out err).session;
        })
  candidates_again s romaji max max' out out' err err' h =
      let (full, first, kept) = candidates_full s romaji max out err h in
      (full, first, candidates_hit _ romaji max' out' err' kept)

  step_waiting :
      (y : System State)
      → y.worker ≡ waiting
      → is_empty y.session.pending ≡ false
      → worker_step E y ≡ record y {
        session = record (y.session) { pending = [] };
        worker = taken y.session.pending;
      }
  unfolding worker_step work
  step_waiting y w f = rw w (rw (f, work) refl)

  step_taken :
      (y : System State) (p : Text)
      → y.worker ≡ taken p
      → cache_has y.session p ≡ false
      → worker_step E y ≡ record y { worker = wanting p }
  unfolding worker_step work
  step_taken y p w h = rw w (rw (h, work) refl)

  step_wanting :
      (y : System State) (p : Text)
      → y.worker ≡ wanting p
      → cache_has y.session p ≡ false
      → (build_candidates E y.session p no_result []).ok ≡ true
      → worker_step E y ≡ record y {
        session = (build_candidates E y.session p no_result []).session;
        worker = built p (build_candidates E y.session p no_result []).out;
      }
  unfolding worker_step work prefetch
  step_wanting y p w h k = rw w (rw (h, k, work, prefetch) refl)

  step_built :
      (y : System State) (p : Text) (r : ConvertResult)
      → y.worker ≡ built p r
      → worker_step E y ≡ record y { session = cache_put y.session p r; worker = waiting }
  unfolding worker_step work
  step_built y p r w = rw w refl

  -- With a reading in the queue that has no list, the worker waiting, and an engine that builds the
  -- list, four steps of the worker alone store it: right behind the last one it is found for the reading.
  pub worker_steps_lem :
      (y : System State)
      → y.worker ≡ waiting
      → is_empty y.session.pending ≡ false
      → find y.session.pending y.session.cache ≡ none
      → (build_candidates E (record (y.session) { pending = [] }) y.session.pending no_result []).ok
        ≡ true
      → cache_get
          (worker_step E (worker_step E (worker_step E (worker_step E y)))).session
          y.session.pending
        ≡ some
            (build_candidates E
              (record (y.session) { pending = [] })
              y.session.pending
              no_result
              []).out
  unfolding cache_has
  worker_steps_lem y w f h k =
      let p = y.session.pending in
      let s1 = record (y.session) { pending = [] } in
      let b = build_candidates E s1 p no_result [] in
      let y1 : System State = record y { session = s1; worker = taken p } in
      let y2 : System State = record y { session = s1; worker = wanting p } in
      let y3 : System State = record y { session = b.session; worker = built p b.out } in
      let y4 : System State = record y {
        session = cache_put b.session p b.out;
        worker = waiting;
      } in
      let missing : cache_has s1 p ≡ false = rw (h, cache_has) refl in
      let e1 : worker_step E y ≡ y1 = step_waiting y w f in
      let e2 : worker_step E y1 ≡ y2 = step_taken y1 p refl missing in
      let e3 : worker_step E y2 ≡ y3 = step_wanting y2 p refl missing k in
      let e4 : worker_step E y3 ≡ y4 = step_built y3 p b.out refl in
      rw (e1, e2, e3, e4) (cache_get-cache_put b.session p b.out)
