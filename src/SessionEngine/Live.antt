-- ===== src/SessionEngine/Live.antt =====
-- A composition is active only while its worker runs (src/session_engine.cpp).
use atzc.Prelude.{
  ℕ, zero, suc, ◌+◌, ◌≤◌, ◌<◌, ◌≡◌, refl, sym, subst, true, false, Bool, not, ◌||◌, ◌&&◌, [], ◌++◌,
  leb, Option, none, some, arith, Bool-cases, inl, inr, if◌then◌else◌, ◌>>=◌,
}
use atzc.Prelude.Text.{Text, codes}
use atzc.Harness.{Process, Reading, bytes, timeout, dead, Awaited, await}
use atzc.Harness.Await.{Settles, drained, round, await_done, await-round}
use atzc.SessionEngine.{
  SessionEngine, Done, is_ready, is_reply, ready_timeout_ms, reply_timeout_ms, warmed, ensure_warm,
  write_line, write_cmd, replied, read_reply, drop_failed, after_write, run_cmd, begin, type_keys,
  backspace, convert, get_preedit, commit, cancel, set_active, perform, Command, begins, backspaces,
  converts, reads, commits, cancels, key,
}
use atzc.SessionEngine.Waits.{perform_total}

-- What the process promises: a worker that was spawned runs, and only `terminate` ends that.
pub record Stays (P : Process) : Type 0 where
  pub spawns :
      (e : Text) (p : P.State) → (P.spawn e p).ok ≡ true → P.running (P.spawn e p).proc ≡ true
  pub writes :
      (t e : Text) (p : P.State) → P.running p ≡ true → P.running (P.write t e p).proc ≡ true
  pub reads : (p : P.State) → P.running p ≡ true → P.running (P.read p).1 ≡ true

-- What holds of the result of a call, if it returns.
abbrev pub Ensures : {A : Type 0} → (A → Type 0) → Option A → Type 0
Ensures Q none = Unit
Ensures Q (some a) = Q a

Ensures-bind :
    {A B : Type 0} (R : A → Type 0) (Q : B → Type 0) (o : Option A) (f : A → Option B)
    → Ensures R o
    → ((a : A) → R a → Ensures Q (f a))
    → Ensures Q (o >>= f)
Ensures-bind R Q none f h k = tt
Ensures-bind R Q (some a) f h k = k a h

Ensures-if :
    {A : Type 0} (Q : A → Type 0) (b : Bool) (o u : Option A)
    → (b ≡ true → Ensures Q o)
    → (b ≡ false → Ensures Q u)
    → Ensures Q (if b then o else u)
Ensures-if Q true o u h k = h refl
Ensures-if Q false o u h k = k refl

Ensures-some : {A : Type 0} (Q : A → Type 0) (o : Option A) (a : A) → o ≡ some a → Ensures Q o → Q a
Ensures-some Q o a e h = subst (Ensures Q) e h

module _ (P : Process) where
  -- An active composition has a worker.
  abbrev pub live : SessionEngine P.State → Bool
  live s = not s.active || P.running s.proc

  -- What each command leaves: a worker that runs, or no composition.
  abbrev Settled : Done P.State → Type 0
  Settled d = (if d.ok then P.running d.engine.proc else not d.engine.active) ≡ true

module _ (P : Process) (stays : Stays P) where
  open P use {State, running}

  module _ {A : Type 0} (on_line : A → Text → A × Bool) (limit : ℕ) where
    abbrev Runs : Awaited A State → Type 0
    Runs r = running r.proc ≡ true

    round-running :
        (n waited : ℕ) (q : State) (a : A) (buf : Text) (r : Reading)
        → running q ≡ true
        → ((waited : ℕ) (buf : Text) → Ensures Runs (await on_line P limit n waited a buf q))
        → Ensures Runs (round on_line P limit n waited q a buf r)
    round-running n waited q a buf (dead e) h ih = h
    round-running n waited q a buf (bytes b) h ih = ih waited (buf ++ b)
    round-running n waited q a buf timeout h ih = elim (Bool-cases (leb limit (waited + 1000))) [
      | inl over ↦ rw (over, round) h
      | inr more ↦ rw (more, round) (ih (waited + 1000) buf)
    ]

    await-running :
        (n waited : ℕ) (a : A) (buf : Text) (p : State)
        → running p ≡ true
        → Ensures Runs (await on_line P limit n waited a buf p)
    unfolding await
    await-running zero waited a buf p h = tt
    await-running (suc n) waited a buf p h = elim (Bool-cases (drained on_line a buf).0) [
      | inl stop ↦ subst (Ensures Runs) (sym (await_done on_line P limit n waited a buf p stop)) h
      | inr more ↦
          let d = drained on_line a buf in
          let q = (P.read p).1 in
          subst (Ensures Runs) (sym (await-round on_line P limit n waited a buf p more refl)) (
            round-running n waited q d.1 d.2 (P.read p).0 (stays.reads p h)
              (λ w b. await-running n w d.1 b q (stays.reads p h)))
    ]

  warmed-Settled :
      (text err : Text) (r : Awaited (Unit {0}) State)
      → running r.proc ≡ true
      → Settled P (warmed P text err r) × ((warmed P text err r).engine.active ≡ false)
  unfolding warmed
  warmed-Settled text err r h = (ground arith, ground arith)

  -- A worker that was made ready runs, and has no composition.
  abbrev Fresh : Done State → Type 0
  Fresh d = Settled P d × (d.engine.active ≡ false)

  ensure_warm-Fresh :
      (fuel : ℕ) (text err : Text) (s : SessionEngine State)
      → s.active ≡ false
      → Ensures Fresh (ensure_warm P fuel text err s)
  unfolding ensure_warm
  ensure_warm-Fresh fuel text err s h =
      let c = P.spawn err s.proc in
      Ensures-if Fresh c.ok _ _
        (λ ok.
          Ensures-bind (Runs is_ready ready_timeout_ms) Fresh _ (λ r. some (warmed P text c.err r))
            (await-running is_ready ready_timeout_ms fuel 0 tt [] c.proc
              (stays.spawns err s.proc ok))
            (λ r k. warmed-Settled text c.err r k))
        (λ e. (rw h refl, h))

  write_line-Settled :
      (line text err : Text) (s : SessionEngine State)
      → running s.proc ≡ true
      → Settled P (write_line P line text err s)
  unfolding write_line
  write_line-Settled line text err s h = ground (arith, stays.writes line err s.proc h)

  dead-active :
      (s : SessionEngine State) → live P s ≡ true → running s.proc ≡ false → s.active ≡ false
  dead-active s h k = ground arith

  -- The write behind `ensureWarm`, if that succeeds.
  write_warm :
      (line : Text) (d : Done State)
      → Fresh d
      → Settled P (if d.ok then write_line P line d.text d.err d.engine else d)
  write_warm line d h = elim (Bool-cases d.ok) [
    | inl ok ↦ rw ok (write_line-Settled line d.text d.err d.engine (rw ok at h.0))
    | inr bad ↦ rw bad (rw bad at h.0)
  ]

  write_cmd-Settled :
      (fuel : ℕ) (line text err : Text) (s : SessionEngine State)
      → live P s ≡ true
      → Ensures (Settled P) (write_cmd P fuel line text err s)
  unfolding write_cmd
  write_cmd-Settled fuel line text err s h =
      Ensures-if (Settled P) (running s.proc) _ _ (λ runs. write_line-Settled line text err s runs)
        (λ e.
          Ensures-bind Fresh (Settled P) _
            (λ d. some (if d.ok then write_line P line d.text d.err d.engine else d))
            (ensure_warm-Fresh fuel text err s (dead-active s h e)) (write_warm line))

  replied_runs :
      (text err : Text) (s : SessionEngine State) (r : Awaited (Option Text) State)
      → running r.proc ≡ true
      → running (replied P text err s r).engine.proc ≡ true
  unfolding replied
  replied_runs text err s r h = ground arith

  drop_failed-Settled :
      (d : Done State) → running d.engine.proc ≡ true → Settled P (drop_failed P d)
  unfolding drop_failed
  drop_failed-Settled d h = elim (Bool-cases d.ok) [ inl ok ↦ rw ok h | inr bad ↦ rw bad refl ]

  after_write-Settled :
      (fuel : ℕ) (want : Bool) (w : Done State)
      → Settled P w
      → Ensures (Settled P) (after_write P fuel want w)
  unfolding after_write read_reply
  after_write-Settled fuel want w h =
      Ensures-if (Settled P) w.ok _ _
        (λ ok.
          let runs : running w.engine.proc ≡ true = rw ok at h in
          Ensures-bind (λ (d : Done State). running d.engine.proc ≡ true) (Settled P) _
            (λ d. some (drop_failed P d))
            (Ensures-bind (Runs (is_reply want) reply_timeout_ms)
              (λ (d : Done State). running d.engine.proc ≡ true) _
              (λ r. some (replied P w.text w.err w.engine r))
              (await-running (is_reply want) reply_timeout_ms fuel 0 none w.engine.rbuf
                w.engine.proc runs)
              (replied_runs w.text w.err w.engine))
            drop_failed-Settled)
        (λ bad. h)

  run_cmd-Settled :
      (fuel : ℕ) (line : Text) (want : Bool) (text err : Text) (s : SessionEngine State)
      → live P s ≡ true
      → Ensures (Settled P) (run_cmd P fuel line want text err s)
  unfolding run_cmd
  run_cmd-Settled fuel line want text err s h =
      Ensures-bind (Settled P) (Settled P) _ (after_write P fuel want)
        (write_cmd-Settled fuel line text err s h) (after_write-Settled fuel want)

  abbrev LiveDone : Done State → Type 0
  LiveDone d = live P d.engine ≡ true

  Settled-live : (d : Done State) → Settled P d → LiveDone d
  Settled-live d h = ground arith

  Ensures-live : (o : Option (Done State)) → Ensures (Settled P) o → Ensures LiveDone o
  Ensures-live none h = tt
  Ensures-live (some d) h = Settled-live d h

  begin-live :
      (fuel : ℕ) (text err : Text) (s : SessionEngine State)
      → live P s ≡ true
      → Ensures LiveDone (begin P fuel text err s)
  unfolding begin set_active
  begin-live fuel text err s h =
      Ensures-bind (Settled P) LiveDone _ (λ d. some (set_active P d.ok d))
        (run_cmd-Settled fuel (codes "sreset\n") false text err s h) (λ d k. ground arith)

  -- A command that needs an active composition.
  active-live :
      (fuel : ℕ) (line : Text) (want : Bool) (text err : Text) (s : SessionEngine State)
      (d : Done State)
      → live P s ≡ true
      → d.engine ≡ s
      → Ensures LiveDone (if s.active then run_cmd P fuel line want text err s else some d)
  active-live fuel line want text err s d h k =
      Ensures-if LiveDone s.active _ _
        (λ a. Ensures-live _ (run_cmd-Settled fuel line want text err s h))
        (λ a. subst (λ e. live P e ≡ true) (sym k) h)

  type_keys-live :
      (fuel : ℕ) (ascii text err : Text) (s : SessionEngine State)
      → live P s ≡ true
      → Ensures LiveDone (type_keys P fuel ascii text err s)
  unfolding type_keys
  type_keys-live fuel ascii text err s h =
      let line = codes "stype " ++ (ascii ++ codes "\n") in
      Ensures-if LiveDone s.active _ _
        (λ a. Ensures-live _ (run_cmd-Settled fuel line false text err s h))
        (λ a.
          Ensures-bind LiveDone LiveDone _
            (λ d.
              if d.ok
              then run_cmd P fuel line false text d.err d.engine
              else some (record d { text = text }))
            (begin-live fuel [] err s h)
            (λ d k.
              Ensures-if LiveDone d.ok _ _
                (λ ok. Ensures-live _ (run_cmd-Settled fuel line false text d.err d.engine k))
                (λ bad. k)))

  -- The end of a composition, whatever the command before it left.
  Ensures-set_active :
      (o : Option (Done State)) (f : Done State → Done State)
      → ((d : Done State) → (f d).engine.active ≡ false)
      → Ensures LiveDone (o >>= λ d. some (f d))
  Ensures-set_active none f h = tt
  Ensures-set_active (some d) f h = rw (h d) refl

  Ensures-perform :
      (fuel : ℕ) (c : Command) (text err : Text) (s : SessionEngine State)
      → live P s ≡ true
      → Ensures LiveDone (perform P fuel c text err s)
  unfolding perform backspace convert get_preedit commit cancel set_active
  Ensures-perform fuel begins text err s h = begin-live fuel text err s h
  Ensures-perform fuel (key ascii) text err s h = type_keys-live fuel ascii text err s h
  Ensures-perform fuel backspaces text err s h =
      active-live fuel (codes "sback\n") false text err s _ h refl
  Ensures-perform fuel converts text err s h =
      active-live fuel (codes "sconv\n") false text err s _ h refl
  Ensures-perform fuel reads text err s h =
      active-live fuel (codes "spre\n") false text err s _ h refl
  Ensures-perform fuel commits text err s h =
      Ensures-if LiveDone s.active _ _ (λ a. Ensures-set_active _ (set_active P false) (λ d. refl))
        (λ a. h)
  Ensures-perform fuel cancels text err s h =
      Ensures-if LiveDone (not s.active && running s.proc) _ _ (λ a. h)
        (λ a. Ensures-set_active _ (λ d. set_active P false (record d { text = [] })) (λ d. refl))

  -- After a command of a session a composition is active only while the worker runs, if that was so in
  -- front of it, and the command returns: with a worker that settles and enough fuel, where a `spawn`
  -- that succeeds leaves a worker that runs, and neither `write` nor `read` ends it.
  pub perform-live :
      (chatter : State → ℕ) (most : ℕ)
      → Settles P chatter
      → ((p : State) → chatter p ≤ most)
      → (fuel : ℕ) → most + 60 < fuel
      → (c : Command) (text err : Text) (s : SessionEngine State) → live P s ≡ true
      → (d : Done State) × (perform P fuel c text err s ≡ some d) × (live P d.engine ≡ true)
  perform-live chatter most calm bound fuel enough c text err s h =
      let (d, e) = perform_total P chatter most calm bound fuel enough c text err s in
      (d, e, Ensures-some LiveDone _ d e (Ensures-perform fuel c text err s h))
