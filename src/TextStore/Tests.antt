-- ===== src/TextStore/Tests.antt =====
-- The theorems on the text store at concrete stores, and runs of the handlers.
use atzc.Prelude.{
  ℕ, ◌+◌, ◌-◌, ◌≤◌, ◌<◌, ◌≡◌, ◌⊎◌, refl, true, false, none, some, [], ◌∷◌, arith, take, drop,
  replicate, length-replicate,
}
use atzc.Prelude.Int.{pos, negsuc}
use atzc.Com.{s_ok, ts_e_invalidpos}
use atzc.TextStore.{
  TextStore, Text, ts_buf_chars, text_change, create, set_text, insert_text_at_selection, get_text,
  set_selection, query_insert, log_content, notify_text_change,
}
use atzc.TextStore.Valid.{IsValid, text}
use atzc.TextStore.Edit.{
  Edited, change_of, set_text-splice, set_text_past_end, insert_text_at_selection_lem,
}
use atzc.TextStore.Read.{get_text_lem, query_insert-set_text}
use atzc.TextStore.Append.{log_content_overrun}
use atzc.TextStore.Reach.{here, next, Step, Reach-IsValid}

-- "ABC" with "B" selected, and sink 7 advised.
abbrev sample : TextStore
sample = record {
  refs = 1;
  buf = 65 ∷ 66 ∷ 67 ∷ replicate 4093 0;
  len = 3;
  sel_start = 1;
  sel_end = 2;
  sink = some 7;
  lock_flags = 0;
  comp_count = 0;
  last_comp = [];
}

sample-IsValid : IsValid sample
sample-IsValid = record {
  buf_size = omega (arith, length-replicate {A = ℕ} 4093 0);
  len_fits = omega arith;
  ordered = omega arith;
  sel_in = omega arith;
}

set_text-splice_example :
    (t : TextStore) × (set_text sample (pos 1) (negsuc 0) (88 ∷ [])
      ≡ some
          (s_ok, t, text_change 7 (change_of 1 3 (88 ∷ [])) ∷ [], some (change_of 1 3 (88 ∷ []))))
    × Edited sample t 1 3 (88 ∷ [])
set_text-splice_example =
    set_text-splice sample-IsValid (pos 1) (negsuc 0) (88 ∷ []) (omega arith) (omega arith)

set_text_past_end_example : set_text sample (pos 5) (pos 9) (88 ∷ []) ≡ none
set_text_past_end_example =
    set_text_past_end sample-IsValid 5 (pos 9) (88 ∷ []) (omega arith) (omega arith) (omega arith)

insert_text_at_selection_lem_example :
    (insert_text_at_selection sample true (88 ∷ [])
      ≡ some (s_ok, sample, [], some (change_of 1 2 (88 ∷ []))))
    × ((sample.len + 1 - (sample.sel_end - sample.sel_start) ≤ ts_buf_chars)
          × ((t : TextStore) × (insert_text_at_selection sample false (88 ∷ [])
                ≡ some (
                  s_ok,
                  t,
                  notify_text_change sample (change_of 1 2 (88 ∷ [])),
                  some (change_of 1 2 (88 ∷ [])),
                ))
              × Edited sample t 1 2 (88 ∷ []))
        ⊎ (ts_buf_chars < sample.len + 1 - (sample.sel_end - sample.sel_start))
          × (insert_text_at_selection sample false (88 ∷ [])
              ≡ some (ts_e_invalidpos, sample, [], none)))
insert_text_at_selection_lem_example = insert_text_at_selection_lem sample-IsValid (88 ∷ [])

get_text_lem_example :
    (t : Text) × (get_text sample (pos 1) (negsuc 0) true 10 true 1 ≡ some (s_ok, t))
    × (t.fetched ≡ 2)
    × (t.chars ≡ take t.fetched (drop 1 (text sample)))
    × (t.next_acp ≡ 1 + t.fetched)
get_text_lem_example = get_text_lem sample-IsValid (pos 1) (negsuc 0) 10 1 true

query_insert-set_text_example :
    ((query_insert sample (pos 1) (pos 2) 1).0 ≡ s_ok)
      × ((t : TextStore) × (set_text sample (pos 1) (pos 2) (88 ∷ [])
            ≡ some (
              s_ok,
              t,
              notify_text_change sample (change_of 1 2 (88 ∷ [])),
              some (change_of 1 2 (88 ∷ [])),
            )))
    ⊎ ((query_insert sample (pos 1) (pos 2) 1).0 ≡ ts_e_invalidpos)
      × (set_text sample (pos 1) (pos 2) (88 ∷ []) ≡ some (ts_e_invalidpos, sample, [], none))
query_insert-set_text_example =
    query_insert-set_text sample-IsValid 1 2 (88 ∷ []) (omega arith) (omega arith)

log_content_overrun_example :
    (s : TextStore) × (set_text create (pos 0) (pos 0) (replicate 4096 65)
      ≡ some (s_ok, s, [], some (change_of 0 0 (replicate 4096 65))))
    × (log_content s ≡ none)
log_content_overrun_example = log_content_overrun (replicate 4096 65) (length-replicate 4096 65)

-- the store after "A" has been put into a new one
typed : TextStore
typed = (set_selection create 1 (pos 2) (pos 5)).1

Reach-IsValid_example : IsValid typed
unfolding typed
Reach-IsValid_example = Reach-IsValid (next here (Step.select 1 (pos 2) (pos 5) refl))
