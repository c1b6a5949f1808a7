-- ===== src/Lines.antt =====
-- Lines on a stream socket: `read_line` and `write_all` of src/atzcd/main.cpp, and `send_line` and
-- `recv_line` of src/client.cpp. What the system calls answer is a list of events, one for each call;
-- at its end the caller waits.

pub mod Framing
mod Tests
use atzc.Prelude.{
  ℕ, suc, zero, ◌+◌, ◌≡◌, true, false, Bool, List, [], ◌∷◌, ◌++◌, ◌==◌, Option, none, some, take,
  drop, if◌then◌else◌,
}
use atzc.Prelude.Text.{Text, is_empty}

-- What one `read` answers: bytes, EINTR, the end of the stream, or another error.
pub data Read : Type 0 where
  bytes : Text → Read
  interrupted closed failed : Read

-- The first line of a buffer without its '\n', and what follows it.
unfoldable pub take_line : Text → Option (Text × Text)
take_line [] = none
take_line (c ∷ s) = elim (c == 10) [
  | true ↦ some ([], s)
  | false ↦ elim (take_line s) [ none ↦ none | some (l, r) ↦ some (c ∷ l, r) ]
]

-- How a call that wants a line ends. `got` has the line, the bytes kept for the next call and the
-- answers that are left; `lost` has the event that ended it; `waits` is a call that still blocks.
pub data Outcome : Type 0 where
  got : Text → Text → List Read → Outcome
  lost : Read → Text → List Read → Outcome
  waits : Text → Outcome

abbrev pub line_or : Text → List Read → Outcome → Outcome
line_or buf es other = elim (take_line buf) [ none ↦ other | some (l, r) ↦ got l r es ]

-- `read_line` of the daemon. The client's `recv_line` is the same loop, and tells `closed` from
-- `failed` in its message only.
unfoldable pub read_line : List Read → Text → Outcome
read_line [] buf = line_or buf [] (waits buf)
read_line (bytes b ∷ es) buf = line_or buf (bytes b ∷ es) (read_line es (buf ++ b))
read_line (interrupted ∷ es) buf = line_or buf (interrupted ∷ es) (read_line es buf)
read_line (closed ∷ es) buf = line_or buf (closed ∷ es) (lost closed buf es)
read_line (failed ∷ es) buf = line_or buf (failed ∷ es) (lost failed buf es)

-- What one `write` answers: the number of bytes taken, EINTR, or another error.
pub data Write : Type 0 where
  wrote : ℕ → Write
  again broken : Write

-- `write_all`, which the client's `send_line` repeats but for a write that takes nothing: whether all was written, `none` while it blocks, and the bytes that went out.
unfoldable pub write_all : List Write → Text → Option Bool × Text
write_all ws [] = (some true, [])
write_all [] (c ∷ s) = (none, [])
write_all (again ∷ ws) (c ∷ s) = write_all ws (c ∷ s)
write_all (broken ∷ ws) (c ∷ s) = (some false, [])
write_all (wrote zero ∷ ws) (c ∷ s) = (some false, [])
write_all (wrote (suc n) ∷ ws) (c ∷ s) =
    let rest = write_all ws (drop n s) in (rest.0, c ∷ (take n s ++ rest.1))
