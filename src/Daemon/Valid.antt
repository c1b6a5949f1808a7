-- ===== src/Daemon/Valid.antt =====
-- What the requests of a connection keep, and that they are served (src/atzcd/main.cpp).
use atzc.Prelude.{
  ℕ, ◌+◌, ◌≤◌, ◌<◌, ◌≡◌, refl, Bool, List, [], ◌∷◌, Option, some, Option-cases, inl, inr,
}
use atzc.Prelude.Text.{Text, codes, same, is_empty}
use atzc.Prelude.Returns.{ReturnsSuch, Such-if, Such-bind}
use atzc.Proto.{ConvertResult, no_result, split_tabs}
use atzc.Session.{Engine}
use atzc.Session.Cache.{IsValid}
use atzc.Session.Hints.{top1-IsValid, candidates_lists}
use atzc.Harness.{Process}
use atzc.Harness.Await.{Settles}
use atzc.SessionEngine.{perform}
use atzc.SessionEngine.Waits.{perform_total}
use atzc.Daemon.{
  Daemon, Served, Connection, flat_reply, enriched_reply, command, conversion, list_request,
  convert_request, answer_command, session_request, missing, request, respond, serve, max_field,
}

module _ (E : Engine) (P : Process) (chatter : P.State → ℕ) (most : ℕ) (calm : Settles P chatter)
    (bound : (p : P.State) → chatter p ≤ most) (fuel : ℕ) (enough : most + 60 < fuel) where
  -- A request is served, and its session stays valid.
  abbrev Good : Served E.State P.State → Type 0
  Good v = IsValid v.daemon.session

  list_request-IsValid :
      (d : Daemon E.State P.State) (op : Text) (print : ConvertResult → Text) (args : List Text)
      → IsValid d.session
      → IsValid (list_request E P d op print args).daemon.session
  unfolding list_request missing conversion
  list_request-IsValid d op print [] v = v
  list_request-IsValid d op print (romaji ∷ rest) v =
      (candidates_lists E d.session romaji (max_field rest) no_result [] v).0

  convert_request-IsValid :
      (d : Daemon E.State P.State) (args : List Text)
      → IsValid d.session
      → IsValid (convert_request E P d args).daemon.session
  unfolding convert_request missing conversion
  convert_request-IsValid d [] v = v
  convert_request-IsValid d (romaji ∷ rest) v = top1-IsValid E d.session romaji no_result [] v

  session_request_served :
      (d : Daemon E.State P.State) (op : Text) (args : List Text)
      → IsValid d.session
      → ReturnsSuch Good (session_request E P fuel d op args)
  unfolding session_request missing answer_command
  session_request_served d op args v = elim (Option-cases (command op args)) [
    | inl e ↦ rw (e, session_request) (_, refl, v)
    | inr (c, e) ↦
        rw (e, session_request)
          (Such-bind Good (perform P fuel c [] [] d.sess) (λ r. some (answer_command E P d c r))
            (perform_total P chatter most calm bound fuel enough c [] [] d.sess)
            (λ r. (_, refl, v)))
  ]

  -- Every request is served, whatever its fields are, and the session that it leaves is valid.
  pub request_served :
      (d : Daemon E.State P.State) (fields : List Text)
      → IsValid d.session
      → ReturnsSuch Good (request E P fuel d fields)
  unfolding request
  request_served d [] v = (_, refl, v)
  request_served d (op ∷ args) v =
      Such-if Good (is_empty op) _ _ (λ h. (_, refl, v))
        (λ h.
          Such-if Good (same op (codes "ping")) _ _ (λ h. (_, refl, v))
            (λ h.
              Such-if Good (same op (codes "convert")) _ _
                (λ h. (_, refl, convert_request-IsValid d args v))
                (λ h.
                  Such-if Good (same op (codes "candidates")) _ _
                    (λ h. (_, refl, list_request-IsValid d op flat_reply args v))
                    (λ h.
                      Such-if Good (same op (codes "candidates-ex")) _ _
                        (λ h. (_, refl, list_request-IsValid d op enriched_reply args v))
                        (λ h.
                          Such-if Good (same op (codes "session-candidates")) _ _
                            (λ h. (_, refl, list_request-IsValid d op flat_reply args v))
                            (λ h. session_request_served d op args v))))))

  -- A connection that was served, with a session that is valid.
  abbrev Kept : Connection E P → Type 0
  Kept k = IsValid k.daemon.session

  respond_served :
      (next : List Bool → Connection E P → Option (Connection E P))
      → ((writes : List Bool) (k : Connection E P) → Kept k → ReturnsSuch Kept (next writes k))
      → (writes : List Bool) (k : Connection E P) (v : Served E.State P.State) → Good v
      → ReturnsSuch Kept (respond E P next writes k v)
  unfolding respond
  respond_served next good [] k v h =
      Such-if Kept (is_empty v.reply) _ _ (λ e. good [] _ h) (λ e. (_, refl, h))
  respond_served next good (w ∷ ws) k v h =
      Such-if Kept (is_empty v.reply) _ _ (λ e. good (w ∷ ws) _ h)
        (λ e.
          Such-if Kept w _ _ (λ e. good ws _ h)
            (λ e. Such-if Kept v.ends _ _ (λ e. (_, refl, h)) (λ e. good ws _ h)))

  -- With a worker that settles, the serving of a connection returns, whatever its lines hold and
  -- however the writes end, and the session behind it stays valid.
  pub serve_total :
      (lines : List Text) (writes : List Bool) (k : Connection E P)
      → IsValid k.daemon.session
      → (k' : Connection E P) × (serve E P lines fuel writes k ≡ some k')
        × IsValid k'.daemon.session
  unfolding serve
  serve_total [] writes k v = (k, refl, v)
  serve_total (line ∷ lines) writes k v =
      let (served, e, good) = request_served k.daemon (split_tabs line) v in
      let (k', q, w) =
        respond_served (serve E P lines fuel) (serve_total lines) writes k served good in
      (k', rw e q, w)
