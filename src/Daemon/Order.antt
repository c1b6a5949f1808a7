-- ===== src/Daemon/Order.antt =====
-- A connection whose replies are all written: every request is served in its turn
-- (src/atzcd/main.cpp).
use atzc.Prelude.{
  ℕ, ◌+◌, ◌≤◌, ◌<◌, ◌≡◌, refl, sym, ap, ◌∙◌, true, false, Bool, List, [], ◌∷◌, ◌++◌, Option, some,
  All, length, arith, append-nil, append_assoc, Bool-cases, inl, inr, if◌then◌else◌, ◌>>=◌,
}
use atzc.Prelude.Text.{Text, is_empty}
use atzc.Proto.{split_tabs}
use atzc.Session.{Engine}
use atzc.Session.Cache.{IsValid}
use atzc.Harness.{Process}
use atzc.Harness.Await.{Settles}
use atzc.Daemon.{Daemon, Served, Connection, request, respond, serve}
use atzc.Daemon.Valid.{request_served}

module _ (E : Engine) (P : Process) (fuel : ℕ) where
  -- What is written for a request: its reply, if it has one.
  abbrev pub written : Served E.State P.State → List Text
  written v = if is_empty v.reply then [] else v.reply ∷ []

  -- Every line is a request that is served by the daemon that the lines before it left, and the
  -- replies stand in their order.
  pub data Serves
      : List Text → Daemon E.State P.State → List Text → Daemon E.State P.State → Type 0 where
    ends : (d : Daemon E.State P.State) → Serves [] d [] d
    serves :
        (line : Text) (lines rs : List Text) (d d' : Daemon E.State P.State)
        (v : Served E.State P.State)
        → request E P fuel d (split_tabs line) ≡ some v
        → Serves lines v.daemon rs d'
        → Serves (line ∷ lines) d (written v ++ rs) d'

  respond_quiet :
      (next : List Bool → Connection E P → Option (Connection E P)) (writes : List Bool)
      (k : Connection E P) (v : Served E.State P.State)
      → is_empty v.reply ≡ true
      → respond E P next writes k v
        ≡ next writes (record { daemon = v.daemon; replies = k.replies ++ written v })
  unfolding respond
  respond_quiet next [] k v h = rw (h, append-nil) refl
  respond_quiet next (w ∷ ws) k v h = rw (h, append-nil) refl

  respond_loud :
      (next : List Bool → Connection E P → Option (Connection E P)) (w : Bool) (ws : List Bool)
      (k : Connection E P) (v : Served E.State P.State)
      → is_empty v.reply ≡ false
      → w ≡ true
      → respond E P next (w ∷ ws) k v
        ≡ next ws (record { daemon = v.daemon; replies = k.replies ++ written v })
  unfolding respond
  respond_loud next w ws k v h e = rw (h, e) refl

module _ (E : Engine) (P : Process) (chatter : P.State → ℕ) (most : ℕ) (calm : Settles P chatter)
    (bound : (p : P.State) → chatter p ≤ most) (fuel : ℕ) (enough : most + 60 < fuel) where
  abbrev AllServed : List Text → List Bool → Connection E P → Type 0
  AllServed lines writes k =
      (k' : Connection E P) × (rs : List Text) × (serve E P lines fuel writes k ≡ some k')
      × Serves E P fuel lines k.daemon rs k'.daemon
      × (k'.replies ≡ k.replies ++ rs)
      × IsValid k'.daemon.session

  -- One line, whose reply was written if it has one.
  AllServed-line :
      (line : Text) (lines : List Text) (writes ws : List Bool) (k : Connection E P)
      (v : Served E.State P.State)
      → request E P fuel k.daemon (split_tabs line) ≡ some v
      → respond E P (serve E P lines fuel) writes k v
        ≡ serve E P lines fuel ws
            (record { daemon = v.daemon; replies = k.replies ++ written E P fuel v })
      → AllServed lines ws (record { daemon = v.daemon; replies = k.replies ++ written E P fuel v })
      → AllServed (line ∷ lines) writes k
  unfolding serve
  AllServed-line line lines writes ws k v e r (k', rs, q, turns, replies, valid) = (
    k',
    written E P fuel v ++ rs,
    ap (λ (o : Option (Served E.State P.State)). o >>= respond E P (serve E P lines fuel) writes k)
          e
        ∙ r
        ∙ q,
    serves line lines rs k.daemon k'.daemon v e turns,
    replies ∙ append_assoc k.replies (written E P fuel v) rs,
    valid,
  )

  -- Where as many writes succeed as there are lines, every line of a connection is served in its turn,
  -- by the daemon that the lines before it left, up to the last line: what was written is the reply of
  -- each request that has one, in the order of the lines, and the session stays valid. The worker is
  -- one that settles, and the fuel is enough for it.
  pub serve_all :
      (lines : List Text) (writes : List Bool) (k : Connection E P)
      → IsValid k.daemon.session
      → All (λ w. w ≡ true) writes
      → length lines ≤ length writes
      → (k' : Connection E P) × (rs : List Text) × (serve E P lines fuel writes k ≡ some k')
        × Serves E P fuel lines k.daemon rs k'.daemon
        × (k'.replies ≡ k.replies ++ rs)
        × IsValid k'.daemon.session
  unfolding serve
  serve_all [] writes k v h n = (k, [], refl, ends k.daemon, sym (append-nil k.replies), v)
  serve_all (line ∷ lines) [] k v h n = absurd (omega arith)
  serve_all (line ∷ lines) (w ∷ ws) k v h n =
      let (a, e, good) =
        request_served E P chatter most calm bound fuel enough k.daemon (split_tabs line) v in
      let k1 : Connection E P = record {
        daemon = a.daemon;
        replies = k.replies ++ written E P fuel a;
      } in
      elim (Bool-cases (is_empty a.reply)) [
        | inl quiet ↦
            AllServed-line line lines (w ∷ ws) (w ∷ ws) k a e
              (respond_quiet E P fuel (serve E P lines fuel) (w ∷ ws) k a quiet)
              (serve_all lines (w ∷ ws) k1 good h (omega arith))
        | inr loud ↦
            AllServed-line line lines (w ∷ ws) ws k a e
              (respond_loud E P fuel (serve E P lines fuel) w ws k a loud h.0)
              (serve_all lines ws k1 good h.1 (omega arith))
      ]
