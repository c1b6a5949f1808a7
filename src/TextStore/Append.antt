-- ===== src/TextStore/Append.antt =====
-- `TextStore_AppendChar`, which types one unit, and the final NUL of `TextStore_LogContent`.
use atzc.Prelude.{
  ℕ, ◌+◌, ◌-◌, ◌≤◌, ◌<◌, ◌≡◌, ◌≢◌, refl, ◌↔◌, ◌⊎◌, inl, inr, Bool-cases, ltb, leb, ltb→lt, ◌||◌,
  Bool, false, none, some, List, [], ◌∷◌, ◌++◌, arith, ◌==◌, if◌then◌else◌, length, take, drop,
  take-append_ge, length-take, length-drop, length-append, length-replicate,
}
use atzc.Prelude.Int.{pos}
use atzc.Prelude.Memory.{write_chars, write_chars_lem, write_chars_fault}
use atzc.Com.{s_ok}
use atzc.TextStore.{
  TextStore, ts_buf_chars, create, append_char, log_content, set_text, on_sink, selection_change,
  notify_text_change,
}
use atzc.TextStore.Valid.{IsValid, text}
use atzc.TextStore.Edit.{change_of, set_text-splice}

pub create-IsValid : IsValid create
unfolding create
create-IsValid = record {
  buf_size = length-replicate ts_buf_chars 0;
  len_fits = omega arith;
  ordered = omega arith;
  sel_in = omega arith;
}

module _ {s : TextStore} (v : IsValid s) where
  -- the array after `cs` is written behind the document
  tail_written : List ℕ → List ℕ
  tail_written cs = take s.len s.buf ++ (cs ++ drop (s.len + length cs) s.buf)

  write_tail :
      (cs : List ℕ)
      → s.len + length cs ≤ ts_buf_chars
      → write_chars s.buf s.len cs ≡ some (tail_written cs)
  unfolding tail_written
  write_tail cs h = write_chars_lem s.buf s.len cs (omega (arith, v.buf_size))

  length-tail_written :
      (cs : List ℕ) → s.len + length cs ≤ ts_buf_chars → length (tail_written cs) ≡ ts_buf_chars
  unfolding tail_written
  length-tail_written cs h = omega (
    arith,
    v.buf_size,
    length-append (take s.len s.buf) (cs ++ drop (s.len + length cs) s.buf),
    length-append cs (drop (s.len + length cs) s.buf),
    length-take s.len s.buf,
    length-drop (s.len + length cs) s.buf,
  )

  take-tail_written :
      (n : ℕ) (cs : List ℕ)
      → take (s.len + n) (tail_written cs) ≡ text s ++ take n (cs ++ drop (s.len + length cs) s.buf)
  unfolding tail_written
  take-tail_written n cs =
      take-append_ge (s.len + n) n (take s.len s.buf) _
        (omega (arith, length-take s.len s.buf, v.buf_size, v.len_fits))

  -- A unit other than NUL typed into a document with room for it and a NUL is appended, the caret
  -- (or, for interim input, the whole document) is selected, the store stays valid, and the sink is
  -- told of the insertion and of the selection.
  pub append_char_lem :
      (interim : Bool) (ch : ℕ)
      → ch ≢ 0
      → s.len + 1 < ts_buf_chars
      → (t : TextStore) × (append_char s interim ch
          ≡ some (
            t,
            notify_text_change s (change_of s.len s.len (ch ∷ [])) ++ on_sink s selection_change,
          ))
        × (text t ≡ text s ++ ch ∷ [])
        × (t.sel_start ≡ (if interim then 0 else s.len + 1))
        × (t.sel_end ≡ s.len + 1)
        × IsValid t
  unfolding append_char
  append_char_lem interim ch h k =
      let cs : List ℕ = ch ∷ 0 ∷ [] in
      let go : (ch == 0 || leb (ts_buf_chars - 1) s.len) ≡ false = ground arith in
      let wrote : write_chars s.buf s.len cs ≡ some (tail_written cs) =
        write_tail cs (omega arith) in
      (
        record s {
          buf = tail_written cs;
          len = s.len + 1;
          sel_start = if interim then 0 else s.len + 1;
          sel_end = s.len + 1;
        },
        rw (go, wrote),
        take-tail_written 1 cs,
        refl,
        refl,
        record {
          buf_size = length-tail_written cs (omega arith);
          len_fits = omega arith;
          ordered = ground arith;
          sel_in = omega arith;
        },
      )

  -- NUL, and a full document, change nothing.
  pub append_char_full :
      (interim : Bool) (ch : ℕ)
      → (ch ≡ 0) ⊎ (ts_buf_chars ≤ s.len + 1)
      → append_char s interim ch ≡ some (s, [])
  unfolding append_char
  append_char_full interim ch h = ground arith

  pub log_content_lem :
      s.len < ts_buf_chars → (t : TextStore) × (log_content s ≡ some t) × IsValid t
  unfolding log_content
  log_content_lem h = (
    record s { buf = tail_written (0 ∷ []) },
    rw (write_tail (0 ∷ []) (omega arith)),
    record {
      buf_size = length-tail_written (0 ∷ []) (omega arith);
      len_fits = v.len_fits;
      ordered = v.ordered;
      sel_in = v.sel_in;
    },
  )

  -- The NUL of `TextStore_LogContent` is outside the array exactly when the document fills it.
  pub log_content_fault : (log_content s ≡ none) ↔ (s.len ≡ ts_buf_chars)
  unfolding log_content
  log_content_fault = (only_full, full)
    where
      only_full : log_content s ≡ none → s.len ≡ ts_buf_chars
      only_full e = elim (Bool-cases (ltb s.len ts_buf_chars)) [
        | inl room ↦ let (t, r, _) = log_content_lem (ltb→lt s.len ts_buf_chars room) in cc
        | inr at_end ↦ ground (arith, v.len_fits)
      ]

      full : s.len ≡ ts_buf_chars → log_content s ≡ none
      full e = rw (
          write_chars_fault s.buf s.len (0 ∷ []) (omega (arith, v.buf_size, v.len_fits))
            (omega (arith, v.buf_size)))

-- `ts_SetText` fills the array to its last unit, and `TextStore_LogContent` then writes behind it:
-- so for every text of exactly 4096 units put into a new store.
pub log_content_overrun :
    (new : List ℕ)
    → length new ≡ ts_buf_chars
    → (s : TextStore) × (set_text create (pos 0) (pos 0) new
        ≡ some (s_ok, s, [], some (change_of 0 0 new)))
      × (log_content s ≡ none)
unfolding create
log_content_overrun new h =
    let (s, e, now) =
      set_text-splice create-IsValid (pos 0) (pos 0) new (omega arith) (omega arith) in
    (s, e, (log_content_fault now.still_IsValid).1 (omega (arith, now.now_len)))
