-- ===== src/Harness.antt =====
-- The line protocol with a harness process: src/include/atzc/harness_process.h and the loops that
-- src/session_engine.cpp and src/harness_engine.cpp share. The process is a parameter. A loop that
-- waits for a line takes fuel, one unit for each round, and is `none` while it still waits.
pub mod Await
pub mod Printed
pub mod Chunks
pub mod Script
use atzc.Prelude.{
  ℕ, zero, suc, ◌+◌, ◌≡◌, true, false, Bool, List, [], ◌∷◌, ◌++◌, ◌==◌, Option, none, some, leb,
  length, if◌then◌else◌,
}
use atzc.Prelude.Text.{Text, is_empty}
use atzc.Lines.{take_line}

-- What a call that can fail leaves: the out parameter `err` and the process.
pub record Called (S : Type 0) : Type 0 where
  pub ok : Bool
  pub err : Text
  pub proc : S

-- What one `read` answers: bytes for the buffer, nothing in time, or the end of the stream with a
-- message, which is empty for a clean end.
pub data Reading : Type 0 where
  bytes : Text → Reading
  timeout : Reading
  dead : Text → Reading

-- The interface `HarnessProcess`. A call that takes `err` gets it as it stands.
pub record Process : Type 1 where
  pub State : Type 0
  pub bring_up : Text → State → Called State
  pub spawn : Text → State → Called State
  pub running : State → Bool
  pub terminate : State → State
  pub write : Text → Text → State → Called State
  pub read : State → Reading × State

unfoldable pub drop_cr : Text → Text
drop_cr [] = []
drop_cr (c ∷ []) = if c == 13 then [] else c ∷ []
drop_cr (c ∷ d ∷ s) = c ∷ drop_cr (d ∷ s)

-- How a loop ends: a line was the last one wanted, the process is dead, or it was silent for too long.
pub data End : Type 0 where
  answered : End
  died : Text → End
  silent : End

pub record Awaited (A S : Type 0) : Type 0 where
  pub end : End
  pub acc : A
  pub buf : Text
  pub proc : S

module _ {A : Type 0} (on_line : A → Text → A × Bool) where
  -- The inner loop: the lines of the buffer, up to the one at which `on_line` says stop. Each line
  -- is at least one byte, so the length of the buffer is enough fuel.
  unfoldable pub drain : ℕ → A → Text → Bool × A × Text
  drain zero a buf = (false, a, buf)
  drain (suc n) a buf = elim (take_line buf) [
    | none ↦ (false, a, buf)
    | some (line, rest) ↦ elim ((on_line a (drop_cr line)).1) [
      | true ↦ (true, (on_line a (drop_cr line)).0, rest)
      | false ↦ drain n (on_line a (drop_cr line)).0 rest
    ]
  ]

  module _ (P : Process) (limit : ℕ) where
    open P use {State, read}

    -- The outer loop. Only a read that brings nothing adds to the time waited.
    unfoldable pub await : ℕ → ℕ → A → Text → State → Option (Awaited A State)
    await zero waited a buf p = none
    await (suc n) waited a buf p =
        let d : Bool × A × Text = drain (length buf) a buf in
        elim d.0 [
          | true ↦ some (record { end = answered; acc = d.1; buf = d.2; proc = p })
          | false ↦ elim (read p).0 [
            | dead e ↦ some (record { end = died e; acc = d.1; buf = d.2; proc = (read p).1 })
            | timeout ↦ elim (leb limit (waited + 1000)) [
              | true ↦ some (record { end = silent; acc = d.1; buf = d.2; proc = (read p).1 })
              | false ↦ await n (waited + 1000) d.1 d.2 (read p).1
            ]
            | bytes b ↦ await n waited d.1 (d.2 ++ b) (read p).1
          ]
        ]

-- The message of a loop that did not get its line.
unfoldable pub report : End → Text → Text → Text → Text
report end at_death fallback err =
    let after : Text = elim end [
      | died e ↦ if is_empty e then at_death else e
      | answered ↦ err
      | silent ↦ err
    ] in
    if is_empty after then fallback else after
