-- ===== src/Harness/Script.antt =====
-- Harnesses for tests: one that answers each command at once, one that prints without end, and one
-- that plays a list of reads.
use atzc.Prelude.{ℕ, ◌≤◌, ◌<◌, ◌≡◌, true, false, Bool, List, [], ◌∷◌, arith}
use atzc.Prelude.Text.{Text, codes}
use atzc.Harness.{Process, Reading, bytes, timeout}
use atzc.Harness.Await.{Settles}

-- No worker, a worker that has not said that it is ready, one that waits for a command, and one that
-- owes a reply.
pub data Echo : Type 0 where
  stopped fresh idle owing : Echo

abbrev pub echo_running : Echo → Bool
echo_running stopped = false
echo_running _ = true

abbrev pub echo_read : Echo → Reading × Echo
echo_read stopped = (timeout, stopped)
echo_read fresh = (bytes (codes "ATD READY\n"), idle)
echo_read idle = (timeout, idle)
echo_read owing = (bytes (codes "ATD PRE ka\n"), idle)

abbrev pub echo : Process
echo = record {
  State = Echo;
  bring_up = λ e s. record { ok = true; err = e; proc = s };
  spawn = λ e s. record { ok = true; err = e; proc = fresh };
  running = echo_running;
  terminate = λ s. stopped;
  write = λ t e s. record { ok = true; err = e; proc = owing };
  read = echo_read;
}

abbrev pub echo_chatter : Echo → ℕ
echo_chatter stopped = 0
echo_chatter fresh = 1
echo_chatter idle = 0
echo_chatter owing = 1

echo_prints : (p q : Echo) (b : Text) → echo_read p ≡ (bytes b, q) → echo_chatter q < echo_chatter p
echo_prints stopped q b h = ground arith
echo_prints fresh q b h = ground arith
echo_prints idle q b h = ground arith
echo_prints owing q b h = ground arith

echo_rests : (p q : Echo) → echo_read p ≡ (timeout, q) → echo_chatter q ≤ echo_chatter p
echo_rests stopped q h = ground arith
echo_rests fresh q h = ground arith
echo_rests idle q h = ground arith
echo_rests owing q h = ground arith

pub echo-Settles : Settles echo echo_chatter
echo-Settles = record { prints = echo_prints; rests = echo_rests }

pub echo_bound : (p : Echo) → echo_chatter p ≤ 1
echo_bound stopped = omega arith
echo_bound fresh = omega arith
echo_bound idle = omega arith
echo_bound owing = omega arith

-- A worker that prints a log line at every read.
abbrev pub loud : Process
loud = record {
  State = Unit {0};
  bring_up = λ e s. record { ok = true; err = e; proc = s };
  spawn = λ e s. record { ok = true; err = e; proc = s };
  running = λ s. true;
  terminate = λ s. s;
  write = λ t e s. record { ok = true; err = e; proc = s };
  read = λ s. (bytes (codes "log\n"), s);
}

abbrev pub next_read : List Reading → Reading × List Reading
next_read [] = (timeout, [])
next_read (r ∷ rs) = (r, rs)

abbrev pub scripted : Process
scripted = record {
  State = List Reading;
  bring_up = λ e s. record { ok = true; err = e; proc = s };
  spawn = λ e s. record { ok = true; err = e; proc = s };
  running = λ s. true;
  terminate = λ s. s;
  write = λ t e s. record { ok = true; err = e; proc = s };
  read = next_read;
}
