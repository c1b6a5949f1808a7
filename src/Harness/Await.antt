-- ===== src/Harness/Await.antt =====
-- The loops that read lines from a harness: the fuel of the inner loop is enough, and when the outer
-- loop ends.
use atzc.Prelude.{
  ℕ, zero, suc, ◌+◌, ◌*◌, ◌≤◌, ◌<◌, ◌≡◌, refl, ap, sym, ◌∙◌, true, false, Bool, [], ◌∷◌, ◌++◌, ◌-◌,
  ◌⊎◌, Option, none, some, leb, length, arith, Option-cases, Bool-cases, inl, inr,
}
use atzc.Prelude.Text.{Text}
use atzc.Lines.{take_line}
use atzc.Lines.Framing.{OneLine, take_line-append, take_line-OneLine, length-take_line}
use atzc.Harness.{
  Process, Reading, bytes, timeout, dead, drop_cr, answered, died, silent, Awaited, drain, await,
}

-- How much a worker still prints before it is silent: each read that brings bytes lowers the measure,
-- and a read in vain does not raise it.
pub record Settles (P : Process) (chatter : P.State → ℕ) : Type 0 where
  pub prints : (p q : P.State) (b : Text) → P.read p ≡ (bytes b, q) → chatter q < chatter p
  pub rests : (p q : P.State) → P.read p ≡ (timeout, q) → chatter q ≤ chatter p

module _ {A : Type 0} (on_line : A → Text → A × Bool) where
  abbrev pub drained : A → Text → Bool × A × Text
  drained a buf = drain on_line (length buf) a buf

  -- The inner loop with one more unit of fuel than it needs, by its first line.
  drain-none :
      (n : ℕ) (a : A) (buf : Text) → take_line buf ≡ none → drain on_line n a buf ≡ (false, a, buf)
  unfolding drain
  drain-none zero a buf h = refl
  drain-none (suc n) a buf h = rw (h, drain) refl

  -- Fuel above the length of the buffer changes nothing.
  pub drain_fuel :
      (n m : ℕ) (a : A) (buf : Text)
      → length buf ≤ n
      → length buf ≤ m
      → drain on_line n a buf ≡ drain on_line m a buf
  unfolding drain
  drain_fuel zero m a [] h k = sym (drain-none m a [] (take_line-OneLine [] tt))
  drain_fuel zero m a (c ∷ s) h k = absurd (omega arith)
  drain_fuel (suc n) zero a [] h k = drain-none (suc n) a [] (take_line-OneLine [] tt)
  drain_fuel (suc n) zero a (c ∷ s) h k = absurd (omega arith)
  drain_fuel (suc n) (suc m) a buf h k = elim (Option-cases (take_line buf)) [
    | inl e ↦ rw (e, drain) refl
    | inr ((line, rest), e) ↦
        let shorter = length-take_line buf line rest e in
        elim (Bool-cases (on_line a (drop_cr line)).1) [
          | inl stop ↦ rw (e, drain, stop) refl
          | inr go ↦
              rw (e, drain, go)
                (drain_fuel n m (on_line a (drop_cr line)).0 rest (omega arith) (omega arith))
        ]
  ]

  -- A buffer without a line is kept.
  pub drained-none : (a : A) (buf : Text) → take_line buf ≡ none → drained a buf ≡ (false, a, buf)
  drained-none a buf = drain-none (length buf) a buf

  -- One line of the buffer that is not the last one wanted.
  pub drained_go :
      (a : A) (buf line rest : Text)
      → take_line buf ≡ some (line, rest)
      → (on_line a (drop_cr line)).1 ≡ false
      → drained a buf ≡ drained (on_line a (drop_cr line)).0 rest
  unfolding drain
  drained_go a [] line rest h k = absurd (omega (arith, length-take_line [] line rest h))
  drained_go a (c ∷ s) line rest h k =
      let shorter = length-take_line (c ∷ s) line rest h in
      rw (h, drain, k)
        (drain_fuel (length s) (length rest) (on_line a (drop_cr line)).0 rest (omega arith)
          (omega arith))

  -- One line of the buffer that is the last one wanted.
  pub drained_stop :
      (a : A) (buf line rest : Text)
      → take_line buf ≡ some (line, rest)
      → (on_line a (drop_cr line)).1 ≡ true
      → drained a buf ≡ (true, (on_line a (drop_cr line)).0, rest)
  unfolding drain
  drained_stop a [] line rest h k = absurd (omega (arith, length-take_line [] line rest h))
  drained_stop a (c ∷ s) line rest h k = rw (h, drain, k) refl

  drained_noise :
      (line : Text) (a : A) (buf : Text)
      → OneLine line
      → on_line a (drop_cr line) ≡ (a, false)
      → (buf ≡ []) ⊎ (buf ≡ line ++ 10 ∷ [])
      → drained a buf ≡ (false, a, [])
  unfolding drain
  drained_noise line a buf o f (inl e) = rw e refl
  drained_noise line a buf o f (inr e) = rw e (
      drained_go a (line ++ 10 ∷ []) line [] (take_line-append line [] o)
        (ap (λ (x : A × Bool). x.1) f)
      ∙ ap (λ (x : A × Bool). drained x.0 []) f)

  module _ (P : Process) (limit : ℕ) where
    open P use {State, read}

    -- What a `read` answers decides how a round of the outer loop goes on.
    abbrev pub round : ℕ → ℕ → State → A → Text → Reading → Option (Awaited A State)
    round n waited q a buf (dead e) = some (record { end = died e; acc = a; buf = buf; proc = q })
    round n waited q a buf timeout = elim (leb limit (waited + 1000)) [
      | true ↦ some (record { end = silent; acc = a; buf = buf; proc = q })
      | false ↦ await on_line P limit n (waited + 1000) a buf q
    ]
    round n waited q a buf (bytes b) = await on_line P limit n waited a (buf ++ b) q

    pub await_done :
        (n waited : ℕ) (a : A) (buf : Text) (p : State)
        → (drained a buf).0 ≡ true
        → await on_line P limit (suc n) waited a buf p
          ≡ some (record {
            end = answered;
            acc = (drained a buf).1;
            buf = (drained a buf).2;
            proc = p;
          })
    unfolding await
    await_done n waited a buf p h = rw (h, await) refl

    pub await-round :
        (n waited : ℕ) (a : A) (buf : Text) (p : State) {r : Reading} {q : State}
        → (drained a buf).0 ≡ false
        → read p ≡ (r, q)
        → await on_line P limit (suc n) waited a buf p
          ≡ round n waited q (drained a buf).1 (drained a buf).2 r
    unfolding await
    await-round n waited a buf p {r} {q} h k =
        rw (h, await)
          (ap (λ (x : Reading × State). round n waited x.1 (drained a buf).1 (drained a buf).2 x.0)
            k)

    -- The loop on fuel `n` ends, where it is enough for what the worker prints and for `left` rounds
    -- of silence, which reach the limit.
    abbrev Ends : (State → ℕ) → ℕ → Type 0
    Ends chatter n =
        (left waited : ℕ) (a : A) (buf : Text) (p : State)
        → chatter p + left < n
        → limit ≤ waited + left * 1000
        → (r : Awaited A State) × (await on_line P limit n waited a buf p ≡ some r)

    round_total :
        (chatter : State → ℕ) (n left waited : ℕ) (a : A) (buf : Text) (p q : State) (r : Reading)
        → Settles P chatter
        → Ends chatter n
        → read p ≡ (r, q)
        → chatter p + left ≤ n
        → limit ≤ waited + left * 1000
        → (x : Awaited A State) × (round n waited q a buf r ≡ some x)
    round_total chatter n left waited a buf p q (dead e) calm ih h k l = (_, refl)
    round_total chatter n left waited a buf p q (bytes b) calm ih h k l =
        let fewer = calm.prints p q b h in ih left waited a (buf ++ b) q (omega arith) l
    round_total chatter n left waited a buf p q timeout calm ih h k l =
        let no_more = calm.rests p q h in
        elim (Bool-cases (leb limit (waited + 1000))) [
          | inl over ↦
              (record { end = silent; acc = a; buf = buf; proc = q }, rw (over, round) refl)
          | inr more ↦
              let (x, e) = ih (left - 1) (waited + 1000) a buf q (ground arith) (ground arith) in
              (x, rw (more, round) e)
        ]

    -- With a worker that settles, the loop ends.
    pub await_total : (chatter : State → ℕ) → Settles P chatter → (n : ℕ) → Ends chatter n
    await_total chatter calm zero left waited a buf p h k = absurd (omega arith)
    await_total chatter calm (suc n) left waited a buf p h k = elim (Bool-cases (drained a buf).0) [
      | inl stop ↦ (_, await_done n waited a buf p stop)
      | inr more ↦
          let (x, e) =
            round_total chatter n left waited (drained a buf).1 (drained a buf).2 p (read p).1
              (read p).0 calm (await_total chatter calm n) refl (omega arith) k in
          (x, await-round n waited a buf p more refl ∙ e)
    ]

    -- A worker that prints a line that is not wanted, at every read, keeps the loop for ever: the time
    -- waited counts silence only.
    pub await_forever :
        (line : Text) (a : A)
        → OneLine line
        → (on_line a (drop_cr line)) ≡ (a, false)
        → ((p : State) → (read p).0 ≡ bytes (line ++ 10 ∷ []))
        → (n waited : ℕ) (buf : Text) (p : State) → (buf ≡ []) ⊎ (buf ≡ line ++ 10 ∷ [])
        → await on_line P limit n waited a buf p ≡ none
    unfolding await
    await_forever line a o f loud zero waited buf p h = refl
    await_forever line a o f loud (suc n) waited buf p h =
        let d = drained_noise line a buf o f h in
        await-round n waited a buf p (ap (λ (x : Bool × A × Text). x.0) d) refl
        ∙ ap (λ (x : Bool × A × Text). round n waited (read p).1 x.1 x.2 (read p).0) d
        ∙ ap (round n waited (read p).1 a []) (loud p)
        ∙ await_forever line a o f loud n waited (line ++ 10 ∷ []) (read p).1 (inr refl)
