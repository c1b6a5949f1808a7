-- ===== src/Frontend/Kept.antt =====
-- The state of an input context between two keys (fcitx5/engine.cpp, fcitx5/engine.h).
use atzc.Prelude.{
  ℕ, ◌≡◌, refl, true, Bool, [], ◌∷◌, ◌++◌, Option, none, some, if◌then◌else◌, Bool-cases, inl, inr,
  ltb,
}
use atzc.Prelude.Int.{ℤ, pos, negsuc}
use atzc.Prelude.Text.{codes}
use atzc.Client.{Wire}
use atzc.Client.Reconnect.{Tried, try_connect, ensure_open}
use atzc.Frontend.{
  Lists, Key, letter, digit, space, down, tab, up, enter, escape, backspace, other, Context, ask,
  commit, begun, begin_again, ensure_composing,
}
use atzc.Frontend.Live.{
  kept, live_list, live_active, sound, sound_if, sound_on, kept_on, sound_failed, sound_live,
  sound-kept, sound-composing, AreKept, AreKept-if, IsLive, IsLive-if,
}
use atzc.Frontend.Keys.{
  on_choosing, is_active, typed, on_letter, on_composing, choice, or_else, key_at, key_event,
}
use atzc.Frontend.Steps.{
  commit-kept, clear_session-kept, close_list-kept, moved-kept, on_space-kept, on_backspace-kept,
  on_enter-kept,
}

module _ (F : Lists) (W : Wire) (close : W.State → W.State) where
  open F use {CandidateList}

  begin_again-sound :
      (f : Context CandidateList W.State) (d : Tried W.State)
      → kept f ≡ true
      → sound (begin_again F W close f d) ≡ true
  unfolding begin_again begun
  begin_again-sound f d h =
      let r = ask F W close (codes "session-begin" ∷ []) (codes "ok") d.state in
      sound_if d.ok _ _
        (sound_if r.0.ok _ _
          (sound_live (record f { preedit = []; composing = true; client = r.1 }) refl)
          (sound_failed (record f { client = r.1 }) h))
        (sound_failed (record f { client = d.state }) h)

  ensure_composing-sound :
      (f : Context CandidateList W.State)
      → kept f ≡ true
      → sound (ensure_composing F W close f) ≡ true
  unfolding ensure_composing begun
  ensure_composing-sound f h =
      let o = ensure_open W close [] f.client in
      let r = ask F W close (codes "session-begin" ∷ []) (codes "ok") o.state in
      sound_on f.composing _ _ (sound_live f) (
        sound_if o.ok _ _
          (sound_if r.0.ok _ _
            (sound_live (record f { preedit = []; composing = true; client = r.1 }) refl)
            (begin_again-sound f (try_connect W close [] (close r.1)) h))
          (sound_failed (record f { client = o.state }) h))

  typed-kept :
      (c : ℕ) (f : Context CandidateList W.State)
      → f.composing ≡ true
      → kept (typed F W close c f) ≡ true
  unfolding typed
  typed-kept c f h =
      let r = ask F W close (codes "key" ∷ (c ∷ []) ∷ []) (codes "ok") f.client in
      let pre = if r.0.ok then r.0.out else f.preedit ++ c ∷ [] in
      close_list-kept F W close
        (record f { romaji = f.romaji ++ c ∷ []; preedit = pre; client = r.1 }) h

  on_letter-kept :
      (c : ℕ) (f : Context CandidateList W.State)
      → kept f ≡ true
      → kept (on_letter F W close c f).1 ≡ true
  unfolding on_letter
  on_letter-kept c f h =
      let e = ensure_composing F W close f in
      let k = ensure_composing-sound f h in
      elim (Bool-cases e.0) [
        | inl t ↦ rw t (typed-kept c e.1 (sound-composing e k t))
        | inr t ↦ rw t (sound-kept e k)
      ]

  on_composing-kept :
      (k : Key) (f : Context CandidateList W.State)
      → kept f ≡ true
      → kept (on_composing F W close k f).1 ≡ true
  unfolding on_composing
  on_composing-kept space f h =
      kept_on (is_active F W close f) _ f (λ e. on_space-kept F W close f (live_active f h e)) h
  on_composing-kept backspace f h =
      kept_on (is_active F W close f) _ f (λ e. on_backspace-kept F W close f (live_active f h e)) h
  on_composing-kept enter f h =
      kept_on (is_active F W close f) _ f (λ e. on_enter-kept F W close f) h
  on_composing-kept escape f h =
      kept_on (is_active F W close f) _ f (λ e. clear_session-kept F W close f) h
  on_composing-kept (letter c) f h = on_letter-kept c f h
  on_composing-kept (digit n) f h = h
  on_composing-kept down f h = h
  on_composing-kept tab f h = h
  on_composing-kept up f h = h
  on_composing-kept other f h = h

  at_cursor :
      (l : CandidateList) (f : Context CandidateList W.State) (o : ℤ)
      → AreKept (elim o [ pos n ↦ some (commit F W close f (F.candidate l n)) | negsuc n ↦ none ])
  at_cursor l f (pos n) = commit-kept F W close f (F.candidate l n)
  at_cursor l f (negsuc n) = tt

  on_choosing-kept :
      (k : Key) (l : CandidateList) (f : Context CandidateList W.State)
      → f.composing ≡ true
      → AreKept (on_choosing F W close k l f)
  unfolding on_choosing
  on_choosing-kept (digit n) l f h =
      AreKept-if (ltb n (F.size l)) _ (commit-kept F W close f (F.candidate l n))
  on_choosing-kept space l f h = moved-kept F W close f (F.next_candidate l) h
  on_choosing-kept down l f h = moved-kept F W close f (F.next_candidate l) h
  on_choosing-kept tab l f h = moved-kept F W close f (F.next_candidate l) h
  on_choosing-kept up l f h = moved-kept F W close f (F.prev_candidate l) h
  on_choosing-kept enter l f h = at_cursor l f (F.cursor_index l)
  on_choosing-kept escape l f h = close_list-kept F W close f h
  on_choosing-kept (letter c) l f h = tt
  on_choosing-kept backspace l f h = tt
  on_choosing-kept other l f h = tt

  choice-IsLive :
      (f : Context CandidateList W.State) (o : Option CandidateList)
      → kept (record f { list = o }) ≡ true
      → IsLive (choice F W close (record f { list = o })) f
  unfolding choice
  choice-IsLive f none h = tt
  choice-IsLive f (some l) h =
      IsLive-if (ltb 0 (F.size l)) l f (live_list (record f { list = some l }) h refl)

  or_else-kept :
      (o : Option (Context CandidateList W.State)) (p : Bool × Context CandidateList W.State)
      → AreKept o
      → kept p.1 ≡ true
      → kept (or_else F W close o p).1 ≡ true
  unfolding or_else
  or_else-kept none p h k = k
  or_else-kept (some g) p h k = h

  key_at-kept :
      (o : Option CandidateList) (k : Key) (f : Context CandidateList W.State)
      → IsLive o f
      → kept f ≡ true
      → kept (key_at F W close o k f).1 ≡ true
  unfolding key_at
  key_at-kept none k f h i = on_composing-kept k f i
  key_at-kept (some l) k f h i =
      or_else-kept (on_choosing F W close k l f) (on_composing F W close k f)
        (on_choosing-kept k l f h) (on_composing-kept k f i)

  -- After a key, nothing is typed, converted or offered unless the engine counts a composition as open
  -- on the daemon, if that was so in front of the key: whatever the daemon answers and whether it can
  -- be reached.
  pub key_event-kept :
      (k : Key) (f : Context CandidateList W.State)
      → kept f ≡ true
      → kept (key_event F W close k f).1 ≡ true
  unfolding key_event
  key_event-kept k f h = key_at-kept (choice F W close f) k f (choice-IsLive f f.list h) h
