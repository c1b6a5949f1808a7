-- ===== src/Client/Reconnect.antt =====
-- The client that connects again: src/frontend_posix.cpp. The connection and its closing are
-- parameters.
use atzc.Prelude.{◌≡◌, refl, true, false, Bool, [], if◌then◌else◌}
use atzc.Prelude.Int.{ℤ}
use atzc.Prelude.Text.{Text, codes, is_empty}
use atzc.Proto.{ConvertResult}
use atzc.Client.{
  line, failure, Wire, Result, convert as client_convert, candidates as client_candidates,
}

-- What an attempt to connect leaves; `err` is the text that the calls share.
pub record Tried (S : Type 0) : Type 0 where
  pub ok : Bool
  pub err : Text
  pub state : S

module _ (W : Wire) (close : W.State → W.State) where
  open W use {State, is_open, connect}

  unfoldable pub try_connect : Text → State → Tried State
  try_connect e w =
      let c = connect w in
      elim (c.0) [
        | failure m ↦ record { ok = false; err = m; state = c.1 }
        | line l ↦ record { ok = true; err = e; state = c.1 }
      ]

  unfoldable pub ensure_open : Text → State → Tried State
  unfolding try_connect
  ensure_open e w = if is_open w then record { ok = true; err = e; state = w } else try_connect e w

  -- The end without a result.
  unfoldable pub give_up : {A : Type 0} → A → Text → State → Result A × State
  give_up out e w = (
    record {
      ok = false;
      out = out;
      err = if is_empty e then codes "atzc: conversion failed" else e;
    },
    w,
  )

  -- The second call, and what is made of it.
  unfoldable pub retry :
      {A : Type 0}
      → (A → Text → State → Result A × State)
      → A
      → Text
      → Tried State
      → Result A × State
  unfolding give_up
  retry call out err d =
      let s = call out d.err d.state in
      if d.ok
      then (if s.0.ok
          then (record { ok = true; out = s.0.out; err = err }, s.1)
          else give_up s.0.out s.0.err s.1)
      else give_up out d.err d.state

  unfoldable pub with_reconnect :
      {A : Type 0} → (A → Text → State → Result A × State) → A → Text → State → Result A × State
  unfolding ensure_open retry
  with_reconnect call out err w =
      let o = ensure_open [] w in
      let r = call out o.err o.state in
      if r.0.ok
      then (record { ok = true; out = r.0.out; err = err }, r.1)
      else retry call r.0.out err (try_connect r.0.err (close r.1))

  unfoldable pub convert : Text → ConvertResult → Text → State → Result ConvertResult × State
  unfolding with_reconnect
  convert romaji = with_reconnect (client_convert W romaji)

  unfoldable pub candidates : Text → ℤ → ConvertResult → Text → State → Result ConvertResult × State
  unfolding with_reconnect
  candidates romaji max = with_reconnect (client_candidates W romaji max)

  -- The call succeeds at once.
  pub with_reconnect-first :
      {A : Type 0} (call : A → Text → State → Result A × State) (out : A) (err : Text) (w : State)
      {o : Tried State} {r : Result A} {v : State}
      → ensure_open [] w ≡ o
      → call out o.err o.state ≡ (r, v)
      → r.ok ≡ true
      → with_reconnect call out err w ≡ (record { ok = true; out = r.out; err = err }, v)
  unfolding with_reconnect
  with_reconnect-first call out err w e f h = rw (e, f, h) refl

  -- The call fails and succeeds over a new connection.
  pub with_reconnect-second :
      {A : Type 0} (call : A → Text → State → Result A × State) (out : A) (err : Text) (w : State)
      {o d : Tried State} {r s : Result A} {v u : State}
      → ensure_open [] w ≡ o
      → call out o.err o.state ≡ (r, v)
      → r.ok ≡ false
      → try_connect r.err (close v) ≡ d
      → d.ok ≡ true
      → call r.out d.err d.state ≡ (s, u)
      → s.ok ≡ true
      → with_reconnect call out err w ≡ (record { ok = true; out = s.out; err = err }, u)
  unfolding with_reconnect retry
  with_reconnect-second call out err w e f h k i g j = rw (e, f, h, k, i, g, j) refl
