-- ===== src/Frontend/Keys.antt =====
-- The keys of the input method for fcitx5: `keyEvent` of fcitx5/engine.cpp.
use atzc.Prelude.{
  ℕ, true, false, Bool, not, [], ◌∷◌, ◌++◌, ◌&&◌, ◌||◌, Option, none, some, ltb, if◌then◌else◌,
}
use atzc.Prelude.Int.{pos, negsuc}
use atzc.Prelude.Text.{codes, is_empty}
use atzc.Client.{Wire}
use atzc.Client.Reconnect.{ensure_open}
use atzc.Frontend.{
  Lists, Key, letter, digit, space, down, tab, up, enter, escape, backspace, other, Context, view,
  pop_back, ask, clear_session, commit, ensure_composing, start_conversion,
}

module _ (F : Lists) (W : Wire) (close : W.State → W.State) where
  open F use {CandidateList, size, candidate, cursor_index, next_candidate, prev_candidate}

  -- The list behind a move of the cursor.
  unfoldable pub moved :
      Context CandidateList W.State → CandidateList → Context CandidateList W.State
  moved f l = elim (cursor_index l) [
    | pos n ↦ record f { list = some l; shown = candidate l n }
    | negsuc n ↦ record f { list = some l }
  ]

  unfoldable pub close_list : Context CandidateList W.State → Context CandidateList W.State
  close_list f = record f { list = none; shown = view f }

  -- A key while a list is open; none where the key goes on to the composition.
  unfoldable pub on_choosing :
      Key → CandidateList → Context CandidateList W.State → Option (Context CandidateList W.State)
  unfolding moved close_list commit
  on_choosing (digit n) l f =
      if ltb n (size l) then some (commit F W close f (candidate l n)) else none
  on_choosing space l f = some (moved f (next_candidate l))
  on_choosing down l f = some (moved f (next_candidate l))
  on_choosing tab l f = some (moved f (next_candidate l))
  on_choosing up l f = some (moved f (prev_candidate l))
  on_choosing enter l f = elim (cursor_index l) [
    | pos n ↦ some (commit F W close f (candidate l n))
    | negsuc n ↦ none
  ]
  on_choosing escape l f = some (close_list f)
  on_choosing (letter c) l f = none
  on_choosing backspace l f = none
  on_choosing other l f = none

  abbrev pub is_active : Context CandidateList W.State → Bool
  is_active f = not (is_empty f.romaji) || f.composing

  unfoldable pub on_space : Context CandidateList W.State → Context CandidateList W.State
  unfolding ask start_conversion
  on_space f =
      let o = ensure_open W close [] f.client in
      let r = ask F W close (codes "convert-session" ∷ []) (codes "ok") o.state in
      if o.ok
      then (if r.0.ok
          then record f {
            preedit = r.0.out;
            shown = if is_empty r.0.out then f.romaji else r.0.out;
            client = r.1;
          }
          else start_conversion F W close (record f { client = r.1 }))
      else start_conversion F W close (record f { client = o.state })

  -- The context once the daemon has answered a backspace, or has not.
  unfoldable pub erased : Context CandidateList W.State → Context CandidateList W.State
  unfolding close_list clear_session
  erased f =
      if is_empty f.romaji && is_empty f.preedit
      then clear_session F W close (record f { list = none })
      else close_list f

  unfoldable pub on_backspace : Context CandidateList W.State → Context CandidateList W.State
  unfolding ask erased pop_back
  on_backspace f =
      let t = pop_back f.romaji in
      let o = ensure_open W close [] f.client in
      let r = ask F W close (codes "backspace" ∷ []) (codes "ok") o.state in
      if o.ok
      then (if r.0.ok
          then erased (record f { romaji = t; preedit = r.0.out; client = r.1 })
          else erased (record f { romaji = t; preedit = t; client = r.1 }))
      else erased (record f { romaji = t; preedit = t; client = o.state })

  unfoldable pub on_enter : Context CandidateList W.State → Context CandidateList W.State
  unfolding ask commit clear_session
  on_enter f =
      let o = ensure_open W close [] f.client in
      let r = ask F W close (codes "commit" ∷ []) (codes "commit") o.state in
      if o.ok
      then (if r.0.ok && not (is_empty r.0.out)
          then clear_session F W close (record f {
            composing = false;
            committed = f.committed ++ r.0.out ∷ [];
            client = r.1;
          })
          else commit F W close (record f { client = r.1 }) (view f))
      else commit F W close (record f { client = o.state }) (view f)

  -- A letter in an open composition.
  unfoldable pub typed : ℕ → Context CandidateList W.State → Context CandidateList W.State
  unfolding ask close_list
  typed c f =
      let r = ask F W close (codes "key" ∷ (c ∷ []) ∷ []) (codes "ok") f.client in
      let pre = if r.0.ok then r.0.out else f.preedit ++ c ∷ [] in
      close_list (record f { romaji = f.romaji ++ c ∷ []; preedit = pre; client = r.1 })

  unfoldable pub on_letter :
      ℕ → Context CandidateList W.State → Bool × Context CandidateList W.State
  unfolding ensure_composing typed
  on_letter c f =
      let e = ensure_composing F W close f in if e.0 then (true, typed c e.1) else (false, e.1)

  unfoldable pub on_composing :
      Key → Context CandidateList W.State → Bool × Context CandidateList W.State
  unfolding on_space on_backspace on_enter on_letter clear_session
  on_composing space f = if is_active f then (true, on_space f) else (false, f)
  on_composing backspace f = if is_active f then (true, on_backspace f) else (false, f)
  on_composing enter f = if is_active f then (true, on_enter f) else (false, f)
  on_composing escape f = if is_active f then (true, clear_session F W close f) else (false, f)
  on_composing (letter c) f = on_letter c f
  on_composing (digit n) f = (false, f)
  on_composing down f = (false, f)
  on_composing tab f = (false, f)
  on_composing up f = (false, f)
  on_composing other f = (false, f)

  -- The list that the keys choose from, if one is open.
  unfoldable pub choice : Context CandidateList W.State → Option CandidateList
  choice f = elim (f.list) [ none ↦ none | some l ↦ if ltb 0 (size l) then some l else none ]

  -- A key that a list has taken, or else what the composition makes of it.
  unfoldable pub or_else :
      Option (Context CandidateList W.State)
      → Bool × Context CandidateList W.State
      → Bool × Context CandidateList W.State
  or_else none p = p
  or_else (some g) p = (true, g)

  unfoldable pub key_at :
      Option CandidateList
      → Key
      → Context CandidateList W.State
      → Bool × Context CandidateList W.State
  unfolding on_choosing on_composing or_else
  key_at none k f = on_composing k f
  key_at (some l) k f = or_else (on_choosing k l f) (on_composing k f)

  -- A key press: whether the engine took it, and the context behind it.
  unfoldable pub key_event :
      Key → Context CandidateList W.State → Bool × Context CandidateList W.State
  unfolding choice key_at
  key_event k f = key_at (choice f) k f
