-- ===== src/Frontend/Steps.antt =====
-- What the steps of the input method leave of an input context (fcitx5/engine.cpp).
use atzc.Prelude.{◌≡◌, refl, true, false, not, [], ◌∷◌, ◌++◌, ◌&&◌, none, arith}
use atzc.Prelude.Int.{pos}
use atzc.Prelude.Text.{Text, codes, is_empty}
use atzc.Proto.{ConvertResult, no_result}
use atzc.Client.{Wire, session_candidates}
use atzc.Client.Reconnect.{Tried, try_connect, ensure_open}
use atzc.Frontend.{
  Lists, Context, view, ask, pop_back, clear_session, commit, offer, offer_again, start_conversion,
}
use atzc.Frontend.Live.{kept, kept_live, kept_if}
use atzc.Frontend.Keys.{moved, close_list, on_space, erased, on_backspace, on_enter}

module _ (F : Lists) (W : Wire) (close : W.State → W.State) where
  open F use {CandidateList}

  pub commit-kept :
      (f : Context CandidateList W.State) (t : Text) → kept (commit F W close f t) ≡ true
  unfolding commit clear_session is_empty
  commit-kept f t = refl

  pub clear_session-kept :
      (f : Context CandidateList W.State) → kept (clear_session F W close f) ≡ true
  unfolding clear_session is_empty
  clear_session-kept f = refl

  offer-kept :
      (f : Context CandidateList W.State) (r : ConvertResult)
      → f.composing ≡ true
      → kept (offer F W close f r) ≡ true
  unfolding offer
  offer-kept f r h = ground (arith, commit-kept f r.commit)

  offer_again-kept :
      (f : Context CandidateList W.State) (out : ConvertResult) (d : Tried W.State)
      → f.composing ≡ true
      → kept (offer_again F W close f out d) ≡ true
  unfolding offer_again
  offer_again-kept f out d h =
      let r = session_candidates W f.romaji (pos 0) out [] d.state in
      kept_if d.ok _ _
        (kept_if r.0.ok _ _ (offer-kept (record f { client = r.1 }) r.0.out h)
          (kept_live (record f { client = r.1 }) h))
        (kept_live (record f { client = d.state }) h)

  start_conversion-kept :
      (f : Context CandidateList W.State)
      → f.composing ≡ true
      → kept (start_conversion F W close f) ≡ true
  unfolding start_conversion
  start_conversion-kept f h =
      let o = ensure_open W close [] f.client in
      let r = session_candidates W f.romaji (pos 0) no_result [] o.state in
      kept_if (is_empty f.romaji) _ _ (kept_live f h) (
        kept_if r.0.ok _ _ (offer-kept (record f { client = r.1 }) r.0.out h)
          (offer_again-kept f r.0.out (try_connect W close [] (close r.1)) h))

  pub close_list-kept :
      (f : Context CandidateList W.State)
      → f.composing ≡ true
      → kept (close_list F W close f) ≡ true
  unfolding close_list
  close_list-kept f h = ground arith

  pub moved-kept :
      (f : Context CandidateList W.State) (l : CandidateList)
      → f.composing ≡ true
      → kept (moved F W close f l) ≡ true
  unfolding moved
  moved-kept f l h = ground arith

  pub on_space-kept :
      (f : Context CandidateList W.State) → f.composing ≡ true → kept (on_space F W close f) ≡ true
  unfolding on_space
  on_space-kept f h =
      let o = ensure_open W close [] f.client in
      let r = ask F W close (codes "convert-session" ∷ []) (codes "ok") o.state in
      kept_if o.ok _ _
        (kept_if r.0.ok _ _ (rw h refl) (start_conversion-kept (record f { client = r.1 }) h))
        (start_conversion-kept (record f { client = o.state }) h)

  erased-kept :
      (f : Context CandidateList W.State) → f.composing ≡ true → kept (erased F W close f) ≡ true
  unfolding erased
  erased-kept f h =
      kept_if (is_empty f.romaji && is_empty f.preedit) _ _
        (clear_session-kept (record f { list = none })) (close_list-kept f h)

  pub on_backspace-kept :
      (f : Context CandidateList W.State)
      → f.composing ≡ true
      → kept (on_backspace F W close f) ≡ true
  unfolding on_backspace
  on_backspace-kept f h =
      let t = pop_back f.romaji in
      let o = ensure_open W close [] f.client in
      let r = ask F W close (codes "backspace" ∷ []) (codes "ok") o.state in
      kept_if o.ok _ _
        (kept_if r.0.ok _ _
          (erased-kept (record f { romaji = t; preedit = r.0.out; client = r.1 }) h)
          (erased-kept (record f { romaji = t; preedit = t; client = r.1 }) h))
        (erased-kept (record f { romaji = t; preedit = t; client = o.state }) h)

  pub on_enter-kept : (f : Context CandidateList W.State) → kept (on_enter F W close f) ≡ true
  unfolding on_enter
  on_enter-kept f =
      let o = ensure_open W close [] f.client in
      let r = ask F W close (codes "commit" ∷ []) (codes "commit") o.state in
      kept_if o.ok _ _
        (kept_if (r.0.ok && not (is_empty r.0.out)) _ _
          (clear_session-kept
            (record f { composing = false; committed = f.committed ++ r.0.out ∷ []; client = r.1 }))
          (commit-kept (record f { client = r.1 }) (view f)))
        (commit-kept (record f { client = o.state }) (view f))
