-- ===== src/Composition/Commit/Insert.antt =====
-- `insert_InsertTextAtSelection`, and the start of a composition over a range that is left behind.
use atzc.Prelude.{
  ℕ, ◌+◌, ◌-◌, ◌≤◌, ◌<◌, ◌≡◌, refl, sym, ◌∙◌, Bool, true, false, Option, some, List, [], ◌∷◌, ◌++◌,
  arith, length, take, drop, map, length-take, length-drop, length-append, take_all, take-append_eq,
  ltb, inl, inr, Bool-cases,
}
use atzc.Prelude.Memory.{write_chars, write_chars_lem}
use atzc.Com.{HResult, s_ok, e_pointer}
use atzc.TextStore
use atzc.TextStore.{TextStore, ts_buf_chars, at_most, notify_text_change}
use atzc.TextStore.Valid
use atzc.TextStore.Edit.{insert-splice, Edited, change_of}
use atzc.Composition.{Call, Context, from_store, comp_chars, replace_comp_text, terminate}
use atzc.Composition.Range.{range_set_text}
use atzc.Composition.Range.Edit.{range_set_text_past}
use atzc.Composition.Commit.{
  begin_composition, swap_sink, insert_text_at_selection, notify_text_edit,
}
use atzc.Composition.Valid.{IsValid, comp, ended, terminate_lem}

-- How many units are kept.
kept : List ℕ → ℕ
kept text = at_most (comp_chars - 1) (length text)

kept_bounds : (text : List ℕ) → (kept text ≤ 255) × (kept text ≤ length text)
unfolding kept
kept_bounds text = ground arith

take-kept : (text : List ℕ) → take (kept text) text ≡ take (comp_chars - 1) text
unfolding kept
take-kept text = elim (Bool-cases (ltb 255 (length text))) [
  | inl more ↦ rw more
  | inr fits ↦
      rw fits (take_all (length text) text (omega arith) ∙ sym (take_all 255 text (ground arith)))
]

-- The array with the units kept.
filled : Context → List ℕ → List ℕ
filled c text = take (kept text) text ++ drop (kept text) c.comp_text

-- The composed text replaced, and the ranges put around it.
abbrev replaced : Context → List ℕ → Context
replaced c text = record c {
  comp_text = ended (filled c text) (kept text);
  comp_len = kept text;
  range_start = 0;
  range_end = kept text;
}

module _ (c : Context) (text : List ℕ) (h : length c.comp_text ≡ comp_chars) where
  length-taken : length (take (kept text) text) ≡ kept text
  length-taken = let (p, q) = kept_bounds text in omega (arith, length-take (kept text) text, q)

  length-filled : length (filled c text) ≡ comp_chars
  unfolding filled
  length-filled =
      let (p, q) = kept_bounds text in
      omega (
        arith,
        h,
        p,
        length-taken,
        length-append (take (kept text) text) (drop (kept text) c.comp_text),
        length-drop (kept text) c.comp_text,
      )

  fill : write_chars c.comp_text 0 (take (kept text) text) ≡ some (filled c text)
  unfolding filled
  fill =
      let (p, q) = kept_bounds text in
      let from_zero : 0 + kept text ≡ kept text = omega arith in
      write_chars_lem c.comp_text 0 (take (kept text) text) (omega (arith, length-taken, p, h))
      ∙ rw (length-taken, from_zero)

  front_filled : take (kept text) (filled c text) ≡ take (kept text) text
  unfolding filled
  front_filled = take-append_eq (kept text) (take (kept text) text) _ length-taken

  replace_run :
      terminate c (filled c text) (kept text)
        ≡ some (record c { comp_text = ended (filled c text) (kept text); comp_len = kept text })
      → replace_comp_text c text ≡ some (replaced c text)
  unfolding replace_comp_text kept
  replace_run done = rw (fill, done)

  replace_comp_text_lem :
      (replace_comp_text c text ≡ some (replaced c text))
      × (comp (replaced c text) ≡ take (comp_chars - 1) text)
      × IsValid (replaced c text)
  unfolding replace_comp_text
  replace_comp_text_lem =
      let (p, q) = kept_bounds text in
      let (done, size, front) =
        terminate_lem c (filled c text) (kept text) length-filled (omega (arith, p)) in
      (
        replace_run done,
        front ∙ front_filled ∙ take-kept text,
        record { text_size = size; len_fits = omega (arith, p); ordered = omega arith },
      )

-- Text that `InsertTextAtSelection` inserts, where it fits, replaces the selection of the document
-- and, cut to 255 units, the composed text; the composition is then not active, the store tells its
-- sink of the change and the text edit sink is told at the end.
pub insert_text_lem :
    {c : Context}
    → IsValid c
    → {s : TextStore} → TextStore.Valid.IsValid s
    → c.textstore ≡ some s
    → (text : List ℕ) (pp_range : Bool)
    → s.len + length text - (s.sel_end - s.sel_start) ≤ ts_buf_chars
    → (c' : Context) × (s' : TextStore) × (insert_text_at_selection c false text pp_range
        ≡ some (
          s_ok,
          c',
          map from_store (notify_text_change s (change_of s.sel_start s.sel_end text))
              ++ notify_text_edit c,
        ))
      × (c'.textstore ≡ some s')
      × Edited s s' s.sel_start s.sel_end text
      × (comp c' ≡ take (comp_chars - 1) text)
      × (c'.comp_active ≡ false)
      × IsValid c'
unfolding insert_text_at_selection
insert_text_lem {c = c} v {s = s} w has text pp_range room =
    let (_, (s', done, now)) = insert-splice w text room in
    let d : Context = record c { textstore = some s' } in
    let (put, front, still) = replace_comp_text_lem d text v.text_size in
    (
      record (replaced d text) { comp_active = false },
      s',
      rw (has, done, put),
      refl,
      now,
      front,
      refl,
      record { text_size = still.text_size; len_fits = still.len_fits; ordered = still.ordered },
    )

-- A composition that is started over a range whose start has been shifted leaves that range: the
-- first text then written through it stands behind as many units of the old array, although the
-- composition was started empty.
pub begin_composition-range_set_text :
    {c : Context}
    → IsValid c
    → (psink : Option ℕ) (new : List ℕ) → 0 < c.range_start
    → c.range_start + length new < comp_chars
    → (c' c'' : Context) × (begin_composition c psink true
        ≡ some (s_ok, c', swap_sink c.comp_sink psink))
      × (comp c' ≡ [])
      × (range_set_text c' (some new) ≡ some (s_ok, c''))
      × (comp c'' ≡ take c.range_start (0 ∷ drop 1 c.comp_text) ++ new)
unfolding begin_composition
begin_composition-range_set_text {c = c} v psink new h k =
    let (done, size, _) = terminate_lem c c.comp_text 0 v.text_size (omega arith) in
    let c' : Context = record c {
      comp_active = true;
      comp_text = ended c.comp_text 0;
      comp_len = 0;
      comp_sink = psink;
    } in
    let w : IsValid c' = record { text_size = size; len_fits = omega arith; ordered = v.ordered } in
    let (c'', wrote, now, _) = range_set_text_past w new h k in (c', c'', rw done, refl, wrote, now)

-- A start returns whether its out pointer is there or not.
pub begin_composition_total :
    {c : Context}
    → IsValid c
    → (psink : Option ℕ) (pp_composition : Bool)
    → (hr : HResult) × (c' : Context) × (calls : List Call) × (begin_composition c psink
          pp_composition
        ≡ some (hr, c', calls))
      × IsValid c'
unfolding begin_composition
begin_composition_total {c = c} v psink false = (e_pointer, c, [], refl, v)
begin_composition_total {c = c} v psink true =
    let (done, size, _) = terminate_lem c c.comp_text 0 v.text_size (omega arith) in
    (
      s_ok,
      record c {
        comp_active = true;
        comp_text = ended c.comp_text 0;
        comp_len = 0;
        comp_sink = psink;
      },
      swap_sink c.comp_sink psink,
      rw done,
      record { text_size = size; len_fits = omega arith; ordered = v.ordered },
    )
