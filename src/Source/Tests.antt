-- ===== src/Source/Tests.antt =====
-- The theorems on sources at concrete sources, and a run of the notifications.
use atzc.Prelude.{◌≡◌, refl, true, none, some, List, [], ◌∷◌, ◌++◌, map, arith}
use atzc.Prelude.Table.{find_key}
use atzc.Com.{s_ok}
use atzc.Source.{
  Source, context, thread_mgr, release, on_set_focus, on_init_document_mgr, on_push_context, Call,
  notifications, find_sink, advise_sink, unadvise_sink, tell_focus, fresh_cookie,
}
use atzc.Source.Valid.{IsValid, make_source, Step, here, next, Reach_source-IsValid}
use atzc.Source.Find.{find_sink-advise_sink, unadvise_sink-advise_sink, find_sink_stale}

-- The source of context 30 with sink 8 for interface 2.
abbrev sample : Source
sample = record {
  sinks = record { sink = 8; sink_iid = 2; cookie = 1 } ∷ [];
  sink = some 8;
  sink_iid = 2;
  cookie = 1;
  next_cookie = 2;
  owner = context 30;
}

sample-Step : Step (make_source (context 30)) sample
unfolding advise_sink fresh_cookie
sample-Step = Step.advise 2 (some 8) true (omega arith) refl

Reach_source-IsValid_example : IsValid sample
Reach_source-IsValid_example = Reach_source-IsValid (context 30) sample (next here sample-Step)

sample-IsValid : IsValid sample
sample-IsValid = Reach_source-IsValid (context 30) sample (next here sample-Step)

find_sink_stale_example :
    find_sink
      (some
        (advise_sink
          (unadvise_sink (advise_sink (make_source (context 30)) (some 5) (some 8) true).1 1).1
          none
          (some 9)
          true).1)
      5
    ≡ some 9
find_sink_stale_example = find_sink_stale (context 30) 5 8 9 (omega arith)

-- A thread manager event sink is told of the shim's own document manager where that has the focus.
tell_focus_wrapped :
    tell_focus (thread_mgr (some 40) (some (40, 41)) (some 42)) 8
    ≡ on_set_focus 8 41 ∷ on_init_document_mgr 8 41 ∷ on_push_context 8 42 ∷ release 40 ∷ []
unfolding tell_focus
tell_focus_wrapped = refl

five_is_free : find_sink (some sample) 5 ≡ none
unfolding find_sink find_key
five_is_free = refl

find_sink-advise_sink_example :
    find_sink (some (advise_sink sample (some 5) (some 9) true).1) 5 ≡ some 9
find_sink-advise_sink_example =
    find_sink-advise_sink sample-IsValid 5 9 (omega arith) (omega arith) five_is_free

unadvise_sink-advise_sink_example :
    (t u : Source) × (n : List Call) × (advise_sink sample (some 5) (some 9) true
      ≡ (s_ok, t, n ++ notifications sample.owner (some 5) 9, some 2))
    × (unadvise_sink t 2 ≡ (s_ok, u, map (λ c. release 9) n))
    × (u.sinks ≡ sample.sinks)
    × (u.sink ≡ sample.sink)
unadvise_sink-advise_sink_example =
    unadvise_sink-advise_sink sample-IsValid (some 5) 9 (omega arith) (omega arith)
