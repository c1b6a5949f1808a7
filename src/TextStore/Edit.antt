-- ===== src/TextStore/Edit.antt =====
-- `ts_SetText` and `ts_InsertTextAtSelection` as a splice of the document.
use atzc.Prelude.{
  ℕ, ◌+◌, ◌-◌, ◌^◌, ◌≤◌, ◌<◌, ◌≡◌, ◌⊎◌, refl, ◌∙◌, true, false, none, some, List, [], arith, length,
  le→ltb, lt→ltb, ltb→lt, ltb, Bool-cases, inl, inr, >>=-some,
}
use atzc.Prelude.Int.{ℤ, pos}
use atzc.Prelude.Memory.{move_memory, write_chars, move_memory_fault}
use atzc.Com.{s_ok, ts_e_invalidpos}
use atzc.TextStore.{
  TextStore, Change, ts_buf_chars, clamp_low, at_least, at_most, tail_units, range_end,
  replace_range, notify_text_change, set_text, insert_text_at_selection,
}
use atzc.Prelude.Splice.{splice, after, Fits, splice_array, length-after, take-after}
use atzc.TextStore.Valid.{IsValid, text}

-- The store after `new` has replaced the range from `a` to `e`.
abbrev pub edited : TextStore → ℕ → ℕ → List ℕ → TextStore
edited s a e new = record s {
  buf = after s.buf new a e s.len;
  len = s.len + length new - (e - a);
  sel_start = a + length new;
  sel_end = a + length new;
}

abbrev pub change_of : ℕ → ℕ → List ℕ → Change
change_of a e new = record { acp_start = a; acp_old_end = e; acp_new_end = a + length new }

pub not_over : (n : ℕ) → ltb ts_buf_chars n ≡ false → n ≤ ts_buf_chars
not_over n h = ground arith

-- The 32-bit byte count of the move is that of the tail.
tail_units_lem : (len e : ℕ) → e ≤ len → len ≤ ts_buf_chars → tail_units len e ≡ len - e
tail_units_lem len e h k = omega arith

module _ {s : TextStore} (v : IsValid s) (a e : ℕ) (new : List ℕ) where
  fits : a ≤ e → e ≤ s.len → s.len + length new - (e - a) ≤ ts_buf_chars → Fits s.buf new a e s.len
  fits p q k = record {
    start_le_end = p;
    end_le_len = q;
    len_le = omega (arith, v.buf_size, v.len_fits);
    total_le = omega (arith, v.buf_size);
  }

  pub replace_range-edited :
      a ≤ e
      → e ≤ s.len
      → s.len + length new - (e - a) ≤ ts_buf_chars
      → replace_range s a e new
        ≡ some (
          s_ok,
          edited s a e new,
          notify_text_change s (change_of a e new),
          some (change_of a e new),
        )
  unfolding replace_range
  replace_range-edited p q k =
      rw (le→ltb ts_buf_chars _ k, tail_units_lem s.len e q v.len_fits)
        (>>=-some (move_memory s.buf (a + length new) e (s.len - e))
          (λ moved. write_chars moved a new) _ (splice_array (fits p q k)))

  pub edited-IsValid :
      a ≤ e → e ≤ s.len → s.len + length new - (e - a) ≤ ts_buf_chars → IsValid (edited s a e new)
  edited-IsValid p q k = record {
    buf_size = length-after (fits p q k) ∙ v.buf_size;
    len_fits = k;
    ordered = omega arith;
    sel_in = omega arith;
  }

  pub text-edited :
      a ≤ e
      → e ≤ s.len
      → s.len + length new - (e - a) ≤ ts_buf_chars
      → text (edited s a e new) ≡ splice (text s) a e new
  text-edited p q k = take-after (fits p q k)

module _ {s : TextStore} (v : IsValid s) (start end : ℤ) (new : List ℕ) where
  range_bounds :
      clamp_low start ≤ s.len
      → (clamp_low start ≤ range_end s start end) × (range_end s start end ≤ s.len)
  range_bounds h = ground arith

-- The outcome of an edit that replaced the range from `a` to `e` by `new`.
pub record Edited (s s' : TextStore) (a e : ℕ) (new : List ℕ) : Type 0 where
  pub now_text : text s' ≡ splice (text s) a e new
  pub now_len : s'.len ≡ s.len + length new - (e - a)
  pub caret : (s'.sel_start ≡ a + length new) × (s'.sel_end ≡ a + length new)
  pub still_IsValid : IsValid s'
  pub same_sink : s'.sink ≡ s.sink

module _ {s : TextStore} (v : IsValid s) where
  replace_range_lem :
      (a e : ℕ) (new : List ℕ)
      → a ≤ e
      → e ≤ s.len
      → s.len + length new - (e - a) ≤ ts_buf_chars
      → (s' : TextStore) × (replace_range s a e new
          ≡ some (s_ok, s', notify_text_change s (change_of a e new), some (change_of a e new)))
        × Edited s s' a e new
  replace_range_lem a e new p q k = (
    edited s a e new,
    replace_range-edited v a e new p q k,
    record {
      now_text = text-edited v a e new p q k;
      now_len = refl;
      caret = (refl, refl);
      still_IsValid = edited-IsValid v a e new p q k;
      same_sink = refl;
    },
  )

  -- With the start inside the document and room for the result, `ts_SetText` on a valid store
  -- replaces the normalised range by the given units: the document is spliced, the caret stands
  -- behind the new units, the store stays valid, the sink is told the change once, and no access
  -- leaves the array.
  pub set_text-splice :
      (start end : ℤ) (new : List ℕ)
      → clamp_low start ≤ s.len
      → s.len + length new - (range_end s start end - clamp_low start) ≤ ts_buf_chars
      → (s' : TextStore) × (set_text s start end new
          ≡ some (
            s_ok,
            s',
            notify_text_change s (change_of (clamp_low start) (range_end s start end) new),
            some (change_of (clamp_low start) (range_end s start end) new),
          ))
        × Edited s s' (clamp_low start) (range_end s start end) new
  unfolding set_text
  set_text-splice start end new h k =
      let (p, q) = range_bounds v start end new h in
      replace_range_lem (clamp_low start) (range_end s start end) new p q k

  -- Text that does not fit is refused with TS_E_INVALIDPOS: the store is unchanged, the sink is not
  -- called and no change is reported.
  pub set_text_full :
      (start end : ℤ) (new : List ℕ)
      → ts_buf_chars < s.len + length new - (range_end s start end - clamp_low start)
      → set_text s start end new ≡ some (ts_e_invalidpos, s, [], none)
  unfolding set_text replace_range
  set_text_full start end new h = rw (lt→ltb _ _ h)

  replace_range_past :
      (a : ℕ) (new : List ℕ)
      → s.len < a
      → a < 2 ^ 31
      → s.len + length new ≤ ts_buf_chars
      → replace_range s a a new ≡ none
  unfolding replace_range
  replace_range_past a new h b k =
      let room : s.len + length new - (a - a) ≤ ts_buf_chars = omega arith in
      let far : length s.buf < a + tail_units s.len a = omega (arith, v.buf_size, v.len_fits) in
      rw (le→ltb ts_buf_chars _ room, move_memory_fault s.buf (a + length new) a _ far)

  -- A start behind the end of the document, with room for the text, moves a negative number of
  -- units: the byte count wraps and the move leaves the array.
  pub set_text_past_end :
      (start : ℕ) (end : ℤ) (new : List ℕ)
      → s.len < start
      → start < 2 ^ 31
      → s.len + length new ≤ ts_buf_chars
      → set_text s (pos start) end new ≡ none
  unfolding set_text
  set_text_past_end start end new h b k =
      let e : range_end s (pos start) end ≡ start = ground arith in
      rw e (replace_range_past start new h b k)

  -- Where there is room for the text, an insertion at the selection that is no query replaces the
  -- selected text, and one that is a query reports the same change and leaves the store alone.
  pub insert-splice :
      (new : List ℕ)
      → s.len + length new - (s.sel_end - s.sel_start) ≤ ts_buf_chars
      → (insert_text_at_selection s true new
          ≡ some (s_ok, s, [], some (change_of s.sel_start s.sel_end new)))
        × ((s' : TextStore) × (insert_text_at_selection s false new
              ≡ some (
                s_ok,
                s',
                notify_text_change s (change_of s.sel_start s.sel_end new),
                some (change_of s.sel_start s.sel_end new),
              ))
            × Edited s s' s.sel_start s.sel_end new)
  unfolding insert_text_at_selection set_text
  insert-splice new k =
      let lo : at_most s.len s.sel_start ≡ s.sel_start = ground (arith, v.ordered, v.sel_in) in
      let hi : at_most s.len (at_least s.sel_start (pos s.sel_end)) ≡ s.sel_end =
        ground (arith, v.ordered, v.sel_in) in
      let e : range_end s (pos s.sel_start) (pos s.sel_end) ≡ s.sel_end =
        ground (arith, v.ordered, v.sel_in) in
      rw (lo, hi, e) (refl, replace_range_lem s.sel_start s.sel_end new v.ordered v.sel_in k)

  -- On a valid store, a query for an insertion at the selection reports the change of the selected text and S_OK,
  -- whether or not there is room, and leaves the store alone. An insertion that is no query replaces
  -- the selected text and reports the same change where there is room, and is refused with
  -- TS_E_INVALIDPOS, with the store unchanged and no call of the sink, where there is none.
  pub insert_text_at_selection_lem :
      (new : List ℕ)
      → (insert_text_at_selection s true new
          ≡ some (s_ok, s, [], some (change_of s.sel_start s.sel_end new)))
        × ((s.len + length new - (s.sel_end - s.sel_start) ≤ ts_buf_chars)
              × ((s' : TextStore) × (insert_text_at_selection s false new
                    ≡ some (
                      s_ok,
                      s',
                      notify_text_change s (change_of s.sel_start s.sel_end new),
                      some (change_of s.sel_start s.sel_end new),
                    ))
                  × Edited s s' s.sel_start s.sel_end new)
            ⊎ (ts_buf_chars < s.len + length new - (s.sel_end - s.sel_start))
              × (insert_text_at_selection s false new ≡ some (ts_e_invalidpos, s, [], none)))
  unfolding insert_text_at_selection
  insert_text_at_selection_lem new =
      let lo : at_most s.len s.sel_start ≡ s.sel_start = ground (arith, v.ordered, v.sel_in) in
      let hi : at_most s.len (at_least s.sel_start (pos s.sel_end)) ≡ s.sel_end =
        ground (arith, v.ordered, v.sel_in) in
      let e : range_end s (pos s.sel_start) (pos s.sel_end) ≡ s.sel_end =
        ground (arith, v.ordered, v.sel_in) in
      (
        rw (lo, hi) refl,
        elim (Bool-cases (ltb ts_buf_chars (s.len + length new - (s.sel_end - s.sel_start)))) [
          | inl over ↦
              let full = ltb→lt _ _ over in
              inr (
                full,
                rw (lo, hi) (set_text_full (pos s.sel_start) (pos s.sel_end) new (rw e full)),
              )
          | inr fits ↦ let room = not_over _ fits in inl (room, (insert-splice new room).1)
        ],
      )
