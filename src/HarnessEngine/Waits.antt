-- ===== src/HarnessEngine/Waits.antt =====
-- When the calls of the harness engine return (src/harness_engine.cpp).
use atzc.Prelude.{ℕ, zero, suc, ◌+◌, ◌≤◌, ◌<◌, refl, [], arith}
use atzc.Prelude.Int.{ℤ}
use atzc.Prelude.Text.{Text}
use atzc.Prelude.Returns.{Returns, Returns-bind, Returns-if}
use atzc.Proto.{ConvertResult}
use atzc.Harness.{Process}
use atzc.Harness.Await.{Settles, await_total}
use atzc.HarnessEngine.{
  HarnessEngine, convert_timeout_ms, ready_timeout_ms, is_ready, on_block, ensure_warm, attempt,
  write_cmd, read_block, after_write, run_cmd, top_one, convert,
}

module _ (P : Process) (chatter : P.State → ℕ) (most : ℕ) (calm : Settles P chatter)
    (bound : (p : P.State) → chatter p ≤ most) (fuel : ℕ) (enough : most + 60 < fuel) where
  open P use {State, spawn, running, terminate, write}

  ensure_warm_total :
      (out : ConvertResult) (err : Text) (s : HarnessEngine State)
      → Returns (ensure_warm P fuel out err s)
  unfolding ensure_warm
  ensure_warm_total out err s =
      let c = spawn err s.proc in
      let few = bound c.proc in
      Returns-if c.ok _ _
        (Returns-bind _ _
          (await_total is_ready P ready_timeout_ms chatter calm fuel 60 0 tt [] c.proc (omega arith)
            (omega arith))
          (λ r. (_, refl)))
        (_, refl)

  attempt_total :
      (n : ℕ) (line : Text) (out : ConvertResult) (err : Text) (s : HarnessEngine State)
      → Returns (attempt P n fuel line out err s)
  unfolding attempt
  attempt_total zero line out err s = (_, refl)
  attempt_total (suc n) line out err s =
      Returns-if (running s.proc) _ _
        (Returns-if (write line err s.proc).ok _ _ (_, refl) (attempt_total n line out _ _))
        (Returns-bind _ _ (ensure_warm_total out err s) (λ w.
          Returns-if w.ok _ _
            (Returns-if (write line w.err w.state.proc).ok _ _ (_, refl)
              (attempt_total n line out _ _))
            (_, refl)))

  read_block_total :
      (out : ConvertResult) (err : Text) (s : HarnessEngine State)
      → Returns (read_block P fuel out err s)
  unfolding read_block
  read_block_total out err s =
      let few = bound s.proc in
      Returns-bind _ _
        (await_total on_block P convert_timeout_ms chatter calm fuel 30 0 out s.rbuf s.proc
          (omega arith) (omega arith))
        (λ r. (_, refl))

  run_cmd_total :
      (line : Text) (out : ConvertResult) (err : Text) (s : HarnessEngine State)
      → Returns (run_cmd P fuel line out err s)
  unfolding run_cmd after_write write_cmd
  run_cmd_total line out err s = Returns-bind _ _ (attempt_total 2 line out err s) (λ w.
      Returns-if w.ok _ _ (Returns-bind _ _ (read_block_total w.out w.err w.state) (λ r. (_, refl)))
        (_, refl))

  -- With a worker that settles, both calls return, with fuel for what the worker prints and for the
  -- seconds of silence up to the longer limit, although a broken pipe respawns the worker once.
  pub conversions_total :
      (romaji : Text) (max : ℤ) (out : ConvertResult) (err : Text) (s : HarnessEngine State)
      → Returns (top_one P fuel romaji out err s) × Returns (convert P fuel romaji max out err s)
  unfolding top_one convert
  conversions_total romaji max out err s =
      (run_cmd_total _ out err s, Returns-bind _ _ (run_cmd_total _ out err s) (λ a. (_, refl)))
