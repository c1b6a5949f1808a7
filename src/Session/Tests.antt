-- ===== src/Session/Tests.antt =====
-- A session over an engine that counts its calls.
use atzc.Prelude.{ℕ, ◌≡◌, refl, true, false, [], ◌∷◌, ◌||◌}
use atzc.Prelude.Int.{pos}
use atzc.Prelude.Text.{codes, same, is_empty}
use atzc.Prelude.Dict.{find}
use atzc.Proto.{ConvertResult, no_result}
use atzc.Session.{
  candidates, take_top1, build_candidates, put_built, cache_get, cap, merge, enriched, add_source,
  seen_in,
}
use atzc.Session.Sample.{candidate, top, full, counting, fresh}
use atzc.Session.Build.{merge-surfaces, has_surface, DistinctSurfaces}
use atzc.Session.Threads.{
  System, here, next, calls, worker_runs, caller_runs, call, caller_step, worker_step,
  convert_request, ready, waiting,
}
use atzc.Session.Prefetch.{IsSound, at_rest, Reach_at_rest-IsSound}
use atzc.Session.Answers.{candidates_again}

list_ok : (candidates counting fresh (codes "ka") (pos 1) no_result []).ok ≡ true
unfolding candidates cache_get put_built build_candidates take_top1 find
list_ok = refl

candidates_again_example :
    (list : ConvertResult) × ((candidates counting fresh (codes "ka") (pos 1) no_result []).out
      ≡ cap (pos 1) list)
    × (candidates counting
          (candidates counting fresh (codes "ka") (pos 1) no_result []).session
          (codes "ka")
          (pos 2)
          no_result
          []
        ≡ record {
          ok = true;
          out = cap (pos 2) list;
          err = [];
          session = (candidates counting fresh (codes "ka") (pos 1) no_result []).session;
        })
candidates_again_example =
    candidates_again counting fresh (codes "ka") (pos 1) (pos 2) no_result no_result [] [] list_ok

abbrev queued : System ℕ
queued = record {
  session = record fresh { pending = codes "ka" };
  caller = ready;
  worker = waiting;
  answers = [];
}

queue_named : is_empty (codes "ka") ≡ false
unfolding is_empty
queue_named = refl

built_ok :
    (build_candidates counting
      (record (queued.session) { pending = [] })
      (codes "ka")
      no_result
      []).ok
    ≡ true
unfolding build_candidates take_top1 find
built_ok = refl

merge-surfaces_example :
    DistinctSurfaces (merge [] top full).candidates_ex
    × (has_surface (codes "C") (merge [] top full).candidates_ex
        ≡ (has_surface (codes "C") top.candidates_ex || has_surface (codes "C") full.candidates_ex))
merge-surfaces_example = merge-surfaces [] top full (codes "C")

-- The henkan entries come first, and the repetition is left out.
merge_order :
    (merge [] top full).candidates_ex
    ≡ candidate (codes "A") ∷ candidate (codes "B") ∷ candidate (codes "C") ∷ []
unfolding merge enriched add_source seen_in same
merge_order = refl

Reach_at_rest-IsSound_example : IsSound (
    worker_step counting
      (caller_step counting (call counting (convert_request (codes "ka")) (at_rest counting 0))))
unfolding at_rest
Reach_at_rest-IsSound_example =
    Reach_at_rest-IsSound counting 0
      (next (next (next here (calls (convert_request (codes "ka")) refl)) caller_runs) worker_runs)
