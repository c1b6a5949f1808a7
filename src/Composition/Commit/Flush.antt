-- ===== src/Composition/Commit/Flush.antt =====
-- The end of a composition: its text in the document.
use atzc.Prelude.{
  ℕ, ◌+◌, ◌-◌, ◌≤◌, ◌<◌, ◌≡◌, refl, ◌∙◌, true, false, Option, some, List, [], ◌++◌, arith, length,
  map, ◌==◌, take_all, drop_all, append-nil,
}
use atzc.Prelude.Int.{pos}
use atzc.Prelude.Memory.{read_chars, read_chars_lem}
use atzc.Prelude.Splice.{splice}
use atzc.Com.{HResult, s_ok}
use atzc.TextStore
use atzc.TextStore.{TextStore, ts_buf_chars, at_most, range_end, notify_text_change, clamp_low}
use atzc.TextStore.Valid
use atzc.TextStore.Valid.{text, length-text}
use atzc.TextStore.Edit.{set_text-splice, set_text_full, change_of}
use atzc.Composition.{Context, from_store}
use atzc.Composition.Commit.{end_composition, flush_comp_text_to_store}
use atzc.Composition.Valid.{IsValid, comp, length-comp}

-- A splice at the end of a text.
splice_end : (xs new : List ℕ) (n : ℕ) → length xs ≡ n → splice xs n n new ≡ xs ++ new
splice_end xs new n h =
    rw (take_all n xs (omega (arith, h)), drop_all n xs (omega (arith, h)), append-nil new)

end_of : (s : TextStore) → range_end s (pos s.len) (pos s.len) ≡ s.len
end_of s = ground arith

-- `ts_SetText` at the end of the document.
append_text :
    {s : TextStore}
    → TextStore.Valid.IsValid s
    → (new : List ℕ) → s.len + length new ≤ ts_buf_chars
    → (s' : TextStore) × (TextStore.set_text s (pos s.len) (pos s.len) new
        ≡ some (
          s_ok,
          s',
          notify_text_change s (change_of s.len s.len new),
          some (change_of s.len s.len new),
        ))
      × (text s' ≡ text s ++ new)
      × TextStore.Valid.IsValid s'
append_text {s = s} w new h =
    let room : s.len + length new - (range_end s (pos s.len) (pos s.len) - s.len) ≤ ts_buf_chars =
      ground arith in
    let (s', done, now) = set_text-splice w (pos s.len) (pos s.len) new (omega arith) room in
    let end : range_end s (pos s.len) (pos s.len) ≡ s.len = end_of s in
    (
      s',
      done ∙ rw end,
      now.now_text ∙ rw end (splice_end (text s) new s.len (length-text w)),
      now.still_IsValid,
    )

module _ {c : Context} (v : IsValid c) {s : TextStore} (has : c.textstore ≡ some s)
    (active : c.comp_active ≡ true) (some_text : 0 < c.comp_len) where
  chars_read : read_chars c.comp_text 0 c.comp_len ≡ some (comp c)
  chars_read = read_chars_lem c.comp_text 0 c.comp_len (omega (arith, v.text_size, v.len_fits))

  -- Whatever `ts_SetText` answers, the composition ends with S_OK.
  end_with :
      {hr : HResult} {s' : TextStore} {calls : List TextStore.Call}
      {change : Option TextStore.Change}
      → TextStore.set_text s (pos s.len) (pos s.len) (comp c) ≡ some (hr, s', calls, change)
      → end_composition c
        ≡ some (s_ok, record c { comp_active = false; textstore = some s' }, map from_store calls)
  unfolding end_composition flush_comp_text_to_store TextStore.get_end_acp
  end_with done =
      let written : (c.comp_len == 0) ≡ false = ground arith in
      rw (active, has, written, chars_read, done)

  -- Ending an active composition appends its text to the document while it fits: the text store
  -- stays valid and tells its sink of the insertion, and the composition is no longer active, so
  -- ending it again does nothing.
  pub end_composition_lem :
      TextStore.Valid.IsValid s
      → s.len + c.comp_len ≤ ts_buf_chars
      → (c' : Context) × (s' : TextStore) × (end_composition c
          ≡ some (s_ok, c', map from_store (notify_text_change s (change_of s.len s.len (comp c)))))
        × (c'.textstore ≡ some s')
        × (text s' ≡ text s ++ comp c)
        × TextStore.Valid.IsValid s'
        × (end_composition c' ≡ some (s_ok, c', []))
  unfolding end_composition
  end_composition_lem w fits =
      let (s', done, now, still) = append_text w (comp c) (rw (length-comp v) fits) in
      (
        record c { comp_active = false; textstore = some s' },
        s',
        end_with done,
        refl,
        now,
        still,
        refl,
      )

  -- Where the composed text does not fit the document, it is lost: the document stays as it was, and
  -- the end of the composition answers S_OK all the same and is final.
  pub end_composition_full :
      TextStore.Valid.IsValid s
      → ts_buf_chars < s.len + c.comp_len
      → (end_composition c ≡ some (s_ok, record c { comp_active = false; textstore = some s }, []))
        × (end_composition (record c { comp_active = false; textstore = some s })
            ≡ some (s_ok, record c { comp_active = false; textstore = some s }, []))
  unfolding end_composition
  end_composition_full w over =
      let much : ts_buf_chars
          < s.len + length (comp c) - (range_end s (pos s.len) (pos s.len) - s.len) =
        rw (end_of s, length-comp v) (omega arith) in
      (end_with (set_text_full w (pos s.len) (pos s.len) (comp c) much), refl)
