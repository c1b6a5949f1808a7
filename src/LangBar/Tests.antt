-- ===== src/LangBar/Tests.antt =====
-- The theorems on the language bar manager at concrete managers, and runs of the handlers.
use atzc.Prelude.{ℕ, ◌+◌, ◌≡◌, refl, true, none, some, [], ◌∷◌, arith, ◌==◌, if◌then◌else◌}
use atzc.Prelude.Table.{find_key}
use atzc.Com.{HResult, s_ok}
use atzc.LangBar.{
  Manager, add_ref, on_update, make_manager, add_item, get_item, advise_item_sink,
  advise_items_sink, advise_each,
}
use atzc.LangBar.Valid.{IsValid, here, next, Step, Reach_make_manager-IsValid}
use atzc.LangBar.Items.{added, get_item-add_item}
use atzc.LangBar.Balance.{Run, held, count, takes, gives, Run-balance}

-- The GUID of object `p` is `p + 100`.
abbrev get_info : ℕ → HResult × ℕ
get_info p = (s_ok, p + 100)

-- Objects 1 and 2, and sink 9 with cookie 1.
abbrev sample : Manager
sample = record {
  items = record { item = 1; guid = 101 } ∷ record { item = 2; guid = 102 } ∷ [];
  sinks = record { sink = 9; guid = 7; cookie = 1 } ∷ [];
  next_sink_cookie = 2;
}

sample-IsValid : IsValid sample
sample-IsValid = record {
  items_distinct = ((omega arith, tt), (tt, tt));
  items_fit = omega arith;
  sinks_distinct = (tt, tt);
  sinks_fit = omega arith;
  cookies_below = (omega arith, tt);
  next_positive = omega arith;
}

get_item-add_item_example :
    (add_item get_info none sample (some 3)
      ≡ (s_ok, added sample 3 103, add_ref 3 ∷ on_update 9 1 ∷ []))
    × ((k : ℕ)
        → get_item none (added sample 3 103) (some k) true ≡ (
            if 103 == k
            then (s_ok, some 3, add_ref 3 ∷ [])
            else get_item none sample (some k) true))
    × (add_item get_info none (added sample 3 103) (some 3) ≡ (s_ok, added sample 3 103, []))
unfolding find_key
get_item-add_item_example = get_item-add_item sample-IsValid get_info 3 103 (omega arith) refl refl

-- the manager after object 1 has been added to a new one
one_item : Manager
one_item = (add_item get_info none make_manager (some 1)).1

Reach_make_manager-IsValid_example : IsValid one_item
unfolding one_item
Reach_make_manager-IsValid_example =
    Reach_make_manager-IsValid get_info _ (next here (Step.add (some 1) refl))

Run-balance_example :
    held one_item 1 + count (gives 1) (add_item get_info none make_manager (some 1)).2
    ≡ count (takes 1) (add_item get_info none make_manager (some 1)).2
unfolding one_item
Run-balance_example = Run-balance {get_info = get_info} (Run.add (some 1) Run.start) 1

-- The first failure of `AdviseItemsSink` keeps the sinks advised before it.
advise_items_partial :
    (advise_items_sink none make_manager (some ((some 4, 7) ∷ (none, 8) ∷ []))).1.sinks
    ≡ record { sink = 4; guid = 7; cookie = 1 } ∷ []
unfolding advise_items_sink advise_each advise_item_sink make_manager
advise_items_partial = refl
