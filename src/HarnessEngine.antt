-- ===== src/HarnessEngine.antt =====
-- The engine that drives the warm harness for whole readings: src/harness_engine.cpp. A function takes
-- the fuel of its loops first, and is `none` while a loop still waits for the harness.
mod Blocks
mod Waits
mod Tests
use atzc.Prelude.{
  ℕ, zero, suc, ◌+◌, ◌≡◌, true, false, Bool, not, List, [], ◌∷◌, ◌++◌, Option, none, some, ◌>>=◌,
  if◌then◌else◌,
}
use atzc.Prelude.Int.{ℤ}
use atzc.Prelude.Text.{Text, codes, same, strip_prefix, is_empty}
use atzc.Proto.{Candidate, ConvertResult, no_result, split_tabs}
use atzc.Session.{Answer, cap}
use atzc.Harness.{Called, Process, End, answered, died, silent, Awaited, await, report}

pub record HarnessEngine (S : Type 0) : Type 0 where
  pub proc : S
  pub rbuf : Text

abbrev pub convert_timeout_ms : ℕ
convert_timeout_ms = 30000

abbrev pub ready_timeout_ms : ℕ
ready_timeout_ms = 60000

unfoldable pub is_ready : Unit {0} → Text → Unit {0} × Bool
is_ready a line = (a, same line (codes "ATD READY"))

-- The n-th field of an enriched entry, which is empty where there are fewer.
unfoldable pub field : ℕ → List Text → Text
field n [] = []
field zero (f ∷ fs) = f
field (suc n) (f ∷ fs) = field n fs

unfoldable pub add_candx : ConvertResult → Text → ConvertResult
unfolding field
add_candx out entry =
    let fields = split_tabs entry in
    let c : Candidate = record {
      surface = field 0 fields;
      reading = field 1 fields;
      hinsi = field 2 fields;
    } in
    if is_empty (field 0 fields)
    then out
    else record out { candidates_ex = out.candidates_ex ++ c ∷ [] }

-- A line behind "ATD ": what it makes of the result, and whether the block ends with it.
unfoldable pub on_entry : ConvertResult → Text → ConvertResult × Bool
unfolding add_candx
on_entry out rest =
    if same rest (codes "BEGIN")
    then (no_result, false)
    else if same rest (codes "END")
    then (out, true)
    else elim (strip_prefix (codes "COMMIT ") rest) [
      | some t ↦ (record out { commit = t }, false)
      | none ↦ elim (strip_prefix (codes "CAND ") rest) [
        | some t ↦ (record out { candidates = out.candidates ++ t ∷ [] }, false)
        | none ↦ elim (strip_prefix (codes "CANDX ") rest) [
          | some t ↦ (add_candx out t, false)
          | none ↦ (out, false)
        ]
      ]
    ]

unfoldable pub on_block : ConvertResult → Text → ConvertResult × Bool
unfolding on_entry
on_block out line = elim (strip_prefix (codes "ATD ") line) [
  | some rest ↦ on_entry out rest
  | none ↦ (out, false)
]

module _ (P : Process) where
  open P use {State, bring_up, spawn, running, terminate, write}

  -- What follows the loop of `ensureWarm`.
  unfoldable pub warmed :
      ConvertResult → Text → Awaited (Unit {0}) State → Answer (HarnessEngine State)
  unfolding report
  warmed out err r = elim (r.end) [
    | answered ↦ record {
      ok = true;
      out = out;
      err = err;
      state = record { proc = r.proc; rbuf = r.buf };
    }
    | other ↦ record {
      ok = false;
      out = out;
      err =
          report other (codes "harness died during bring-up")
            (codes "warm harness did not report ready") err;
      state = record { proc = terminate r.proc; rbuf = r.buf };
    }
  ]

  unfoldable pub ensure_warm :
      ℕ → ConvertResult → Text → HarnessEngine State → Option (Answer (HarnessEngine State))
  unfolding warmed
  ensure_warm fuel out err s =
      let c = spawn err s.proc in
      if c.ok
      then (do r ← await is_ready P ready_timeout_ms fuel 0 tt [] c.proc; some (warmed out c.err r))
      else some (record { ok = false; out = out; err = c.err; state = record s { proc = c.proc } })

  -- The attempts of `writeCmd` that are left; a broken pipe respawns the worker in the next one.
  unfoldable pub attempt :
      ℕ
      → ℕ
      → Text
      → ConvertResult
      → Text
      → HarnessEngine State
      → Option (Answer (HarnessEngine State))
  attempt zero fuel line out err s = some (record {
    ok = false;
    out = out;
    err = codes "harness write failed (engine not responding)";
    state = s;
  })
  attempt (suc n) fuel line out err s =
      let send : Answer (HarnessEngine State) → Option (Answer (HarnessEngine State)) = λ w.
        let c = write line w.err w.state.proc in
        let again : Option (Answer (HarnessEngine State)) =
          attempt n fuel line out c.err (record (w.state) { proc = terminate c.proc }) in
        if c.ok
        then some (record w { err = c.err; state = record (w.state) { proc = c.proc } })
        else again in
      if running s.proc
      then send (record { ok = true; out = out; err = err; state = s })
      else (do w ← ensure_warm fuel out err s; (if w.ok then send w else some w))

  unfoldable pub write_cmd :
      ℕ → Text → ConvertResult → Text → HarnessEngine State → Option (Answer (HarnessEngine State))
  unfolding attempt
  write_cmd fuel line out err s = attempt 2 fuel line out err s

  -- What follows the loop of `readBlock`.
  unfoldable pub blocked :
      Text → HarnessEngine State → Awaited ConvertResult State → Answer (HarnessEngine State)
  unfolding report
  blocked err s r =
      let s1 : HarnessEngine State = record s { proc = r.proc; rbuf = r.buf } in
      elim (r.end) [
        | answered ↦ record { ok = true; out = r.acc; err = err; state = s1 }
        | other ↦ record {
          ok = false;
          out = r.acc;
          err =
              report other (codes "engine produced no result") (codes "engine produced no result")
                err;
          state = s1;
        }
      ]

  unfoldable pub read_block :
      ℕ → ConvertResult → Text → HarnessEngine State → Option (Answer (HarnessEngine State))
  unfolding blocked
  read_block fuel out err s = do
    r ← await on_block P convert_timeout_ms fuel 0 out s.rbuf s.proc
    some (blocked err s r)

  -- A dead or garbled worker is dropped, and the next command spawns another.
  unfoldable pub drop_failed : Answer (HarnessEngine State) → Answer (HarnessEngine State)
  drop_failed a =
      if a.ok then a else record a { state = record (a.state) { proc = terminate a.state.proc } }

  unfoldable pub after_write :
      ℕ → Answer (HarnessEngine State) → Option (Answer (HarnessEngine State))
  unfolding drop_failed
  after_write fuel w =
      if w.ok then (do r ← read_block fuel w.out w.err w.state; some (drop_failed r)) else some w

  unfoldable pub run_cmd :
      ℕ → Text → ConvertResult → Text → HarnessEngine State → Option (Answer (HarnessEngine State))
  unfolding after_write
  run_cmd fuel line out err s = do w ← write_cmd fuel line out err s; after_write fuel w

  unfoldable pub start : ℕ → Text → HarnessEngine State → Option (Answer (HarnessEngine State))
  start fuel err s =
      let c = bring_up err s.proc in
      if c.ok
      then ensure_warm fuel no_result c.err (record s { proc = c.proc })
      else some
          (record { ok = false; out = no_result; err = c.err; state = record s { proc = c.proc } })

  unfoldable pub stop : HarnessEngine State → HarnessEngine State
  stop s = record s { proc = terminate s.proc }

  unfoldable pub top_one :
      ℕ → Text → ConvertResult → Text → HarnessEngine State → Option (Answer (HarnessEngine State))
  top_one fuel romaji out err s = run_cmd fuel (codes "henkan " ++ (romaji ++ codes "\n")) out err s

  unfoldable pub convert :
      ℕ
      → Text
      → ℤ
      → ConvertResult
      → Text
      → HarnessEngine State
      → Option (Answer (HarnessEngine State))
  unfolding cap
  convert fuel romaji max out err s = do
    a ← run_cmd fuel (codes "convert " ++ (romaji ++ codes "\n")) out err s
    some (if a.ok then record a { out = cap max a.out } else a)
