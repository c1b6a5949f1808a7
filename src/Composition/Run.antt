-- ===== src/Composition/Run.antt =====
-- Sequences of keys, range edits and starts of compositions: none of them leaves the array.
use atzc.Prelude.{
  ℕ, ◌+◌, ◌≡◌, refl, ap, ◌∙◌, inl, inr, Bool, true, false, Option, none, some, List, [], ◌∷◌, arith,
  ◌>>=◌, leb, ◌==◌, ◌||◌, ==_eq, if◌then◌else◌, Bool-cases, Option-cases,
}
use atzc.Prelude.Int.{ℤ}
use atzc.TextStore.{TextStore}
use atzc.Composition.{
  Context, Call, comp_chars, make_context, key_char, vk_back, vk_return, vk_space, vk_convert,
  append_key, composition_sink, on_end_composition, push_char,
}
use atzc.Composition.Valid.{IsValid, make_context-IsValid}
use atzc.Composition.Keys.{told, typed, push_char-typed, typed-IsValid, erase_lem, append_key_char}
use atzc.Composition.Range.{range_set_text, range_shift_start, range_shift_end, range_collapse}
use atzc.Composition.Range.Total.{
  range_set_text_total, range_shift_start-IsValid, range_shift_end-IsValid, range_collapse-IsValid,
}
use atzc.Composition.Commit.{begin_composition}
use atzc.Composition.Commit.Insert.{begin_composition_total}

-- One call of a handler.
pub data Op : Type 0 where
  key : ℕ → Op
  set_text : Option (List ℕ) → Op
  shift_start shift_end : ℤ → Op
  collapse : Bool → Op
  start : Option ℕ → Bool → Op

pub perform : Context → Op → Option Context
perform c (key vk) = do r ← append_key c vk; some r.0
perform c (set_text pch) = do r ← range_set_text c pch; some r.1
perform c (shift_start n) = some (range_shift_start c n).1
perform c (shift_end n) = some (range_shift_end c n).1
perform c (collapse b) = some (range_collapse c b).1
perform c (start psink b) = do r ← begin_composition c psink b; some r.1

pub run : Context → List Op → Option Context
run c [] = some c
run c (op ∷ ops) = do c' ← perform c op; run c' ops

module _ {c : Context} (v : IsValid c) where
  active-IsValid : (b : Bool) → IsValid (record c { comp_active = b })
  active-IsValid b = record { text_size = v.text_size; len_fits = v.len_fits; ordered = v.ordered }

  push_char_full :
      (ch : ℕ)
      → leb comp_chars (c.comp_len + 1) ≡ true
      → push_char (record c { comp_active = true }) ch ≡ some (record c { comp_active = true })
  unfolding push_char
  push_char_full ch full = rw full

  push_char_total :
      (ch : ℕ)
      → (c' : Context) × (push_char (record c { comp_active = true }) ch ≡ some c') × IsValid c'
  push_char_total ch = elim (Bool-cases (leb comp_chars (c.comp_len + 1))) [
    | inl full ↦ (record c { comp_active = true }, push_char_full ch full, active-IsValid true)
    | inr room ↦
        (typed c ch, push_char-typed v ch (ground arith), typed-IsValid v ch (ground arith))
  ]

  append_key_other :
      (vk : ℕ)
      → key_char vk ≡ none
      → (vk == vk_back) ≡ false
      → (c' : Context) × (calls : List Call) × (append_key c vk ≡ some (c', calls)) × IsValid c'
  unfolding append_key
  append_key_other vk other more = elim (Bool-cases (vk == vk_return)) [
    | inl return ↦ (
      record c { comp_active = false },
      if c.comp_active
          then elim (composition_sink c) [ none ↦ [] | some p ↦ on_end_composition p ∷ [] ]
          else [],
      rw (append_key, other, more, return),
      active-IsValid false,
    )
    | inr next ↦ elim (Bool-cases ((vk == vk_space) || (vk == vk_convert))) [
      | inl convert ↦ (
        record c { comp_active = true },
        [],
        rw (append_key, other, more, next, convert),
        active-IsValid true,
      )
      | inr nothing ↦ (c, [], rw (append_key, other, more, next, nothing), v)
    ]
  ]

  -- Every key is taken without leaving the array.
  append_key_total :
      (vk : ℕ)
      → (c' : Context) × (calls : List Call) × (append_key c vk ≡ some (c', calls)) × IsValid c'
  append_key_total vk = elim (Option-cases (key_char vk)) [
    | inr (ch, char) ↦
        let (c', pushed, w) = push_char_total ch in
        (c', told c, append_key_char c vk ch char pushed, w)
    | inl other ↦ elim (Bool-cases (vk == vk_back)) [
      | inl back ↦
          let is_back : vk ≡ vk_back = ==_eq vk vk_back back in
          let (c', erased, _, w) = erase_lem v in (c', [], ap (append_key c) is_back ∙ erased, w)
      | inr more ↦ append_key_other vk other more
    ]
  ]

perform_total :
    {c : Context} → IsValid c → (op : Op) → (c' : Context) × (perform c op ≡ some c') × IsValid c'
unfolding perform
perform_total {c = c} v (key vk) =
    let (c', calls, done, w) = append_key_total v vk in (c', rw done, w)
perform_total {c = c} v (set_text pch) =
    let (hr, c', done, w) = range_set_text_total v pch in (c', rw done, w)
perform_total {c = c} v (shift_start n) =
    ((range_shift_start c n).1, refl, range_shift_start-IsValid v n)
perform_total {c = c} v (shift_end n) = ((range_shift_end c n).1, refl, range_shift_end-IsValid v n)
perform_total {c = c} v (collapse b) = ((range_collapse c b).1, refl, range_collapse-IsValid v b)
perform_total {c = c} v (start psink b) =
    let (hr, c', calls, done, w) = begin_composition_total v psink b in (c', rw done, w)

run_total :
    (ops : List Op) (c : Context) → IsValid c → (c' : Context) × (run c ops ≡ some c') × IsValid c'
unfolding run
run_total [] c v = (c, refl, v)
run_total (op ∷ ops) c v =
    let (c', done, w) = perform_total v op in
    let (c'', rest, x) = run_total ops c' w in (c'', rw done rest, x)

-- Any sequence of keys, writes through the range, shifts and collapses of it and starts of
-- compositions, on a new context, runs to its end without an access outside the array, and leaves
-- at most 255 units composed and a range whose start is not behind its end.
pub run-make_context :
    (textstore : Option TextStore) (ops : List Op)
    → (c : Context) × (run (make_context textstore) ops ≡ some c) × IsValid c
run-make_context textstore ops =
    run_total ops (make_context textstore) (make_context-IsValid textstore)
