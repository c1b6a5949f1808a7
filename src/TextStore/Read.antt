-- ===== src/TextStore/Read.antt =====
-- What the readers of the text store return: `ts_GetText`, `TextStore_GetText`, the selection and
-- `ts_QueryInsert`.
use atzc.Prelude.{
  ℕ, zero, suc, ◌+◌, ◌-◌, ◌%◌, ◌^◌, ◌≤◌, ◌<◌, ◌≡◌, refl, ◌∙◌, ◌⊎◌, inl, inr, Bool, true, false,
  ◌&&◌, none, some, List, [], ◌∷◌, ◌++◌, arith, ltb, if◌then◌else◌, length, take, drop, lt→ltb,
  Bool-cases, take-take, drop-take, ltb→lt,
}
use atzc.Prelude.Int.{ℤ, pos, ltb_ℤ, to_long}
use atzc.Prelude.Memory.{read_chars, read_chars_lem}
use atzc.Com.{s_ok, ts_e_invalidpos}
use atzc.TextStore.{
  TextStore, ActiveEnd, Text, ts_buf_chars, clamp_low, at_least, at_most, or_end, range_end,
  notify_text_change, get_text, copy_text, set_selection, get_selection, query_insert, set_text,
  on_sink, selection_change,
}
use atzc.TextStore.Valid.{IsValid, text}
use atzc.TextStore.Edit.{not_over, set_text-splice, set_text_full, change_of}

-- Reading `n` units at `a` of a range inside the document.
read_text :
    {s : TextStore}
    → IsValid s
    → (a b n : ℕ) → n ≤ b - a
    → b ≤ s.len
    → read_chars s.buf a n ≡ some (take n (drop a (text s)))
read_text v a b zero h k = unfold read_chars in refl
read_text {s} v a b (suc n) h k =
    read_chars_lem s.buf a (suc n) (omega (arith, v.buf_size, v.len_fits))
    ∙ rw (
      drop-take a s.len (s.len - a) s.buf (omega arith),
      take-take (suc n) (s.len - a) (drop a s.buf) (omega arith),
    )

module _ (s : TextStore) (a b cch : ℕ) (h : a ≤ s.len) (k : s.len + cch < 2 ^ 31) where
  query_insert_refuses :
      ts_buf_chars < s.len + cch - (range_end s (pos a) (pos b) - a)
      → (query_insert s (pos a) (pos b) cch).0 ≡ ts_e_invalidpos
  unfolding query_insert
  query_insert_refuses over = ground arith

  query_insert_allows :
      s.len + cch - (range_end s (pos a) (pos b) - a) ≤ ts_buf_chars
      → (query_insert s (pos a) (pos b) cch).0 ≡ s_ok
  unfolding query_insert
  query_insert_allows room = ground arith

module _ {s : TextStore} (v : IsValid s) where
  -- `ts_GetText` never leaves the array, whatever range it is asked for: it returns the units of the
  -- document from the clamped start, as many as the range and the request allow, with their count and
  -- the position behind them.
  pub get_text_lem :
      (acp_start acp_end : ℤ) (cch_req cri : ℕ) (ri : Bool)
      → (t : Text) × (get_text s acp_start acp_end true cch_req ri cri ≡ some (s_ok, t))
        × (t.fetched ≡ at_most cch_req (at_most s.len (or_end s.len acp_end) - clamp_low acp_start))
        × (t.chars ≡ take t.fetched (drop (clamp_low acp_start) (text s)))
        × (t.next_acp ≡ clamp_low acp_start + t.fetched)
  unfolding get_text
  get_text_lem acp_start acp_end cch_req cri ri =
      let a = clamp_low acp_start in
      let b : ℕ = at_most s.len (or_end s.len acp_end) in
      let n : ℕ = at_most cch_req (b - a) in
      let inside : b ≤ s.len = ground arith in
      let few : n ≤ b - a = ground arith in
      (
        record {
          chars = take n (drop a (text s));
          fetched = n;
          runs = if ri && ltb 0 cri then n ∷ [] else [];
          next_acp = a + n;
        },
        rw (read_text v a b n few inside),
        refl,
        refl,
        refl,
      )

  -- `TextStore_GetText` writes the document, cut to the room, and a final NUL, and returns the length.
  pub copy_text_lem :
      (max : ℕ)
      → 0 < max
      → copy_text (some s) true max
        ≡ some (take (at_most (max - 1) s.len) (text s) ++ 0 ∷ [], at_most (max - 1) s.len)
  unfolding copy_text
  copy_text_lem max h =
      let n : ℕ = at_most (max - 1) s.len in
      let inside : n ≤ s.len = ground arith in
      rw (lt→ltb 0 max h, read_text v 0 s.len n (omega (arith, inside)) (omega arith))

  -- Whatever range is set, the selection stays ordered and inside the document.
  pub set_selection-IsValid :
      (count : ℕ) (start end : ℤ) → IsValid (set_selection s count start end).1
  unfolding set_selection
  set_selection-IsValid count start end = ground arith

  -- A selection inside the document is read back as it was set, and the sink is told once.
  pub get_selection-set_selection :
      (count a b : ℕ) (interim : Bool)
      → 0 < count
      → a ≤ b
      → b ≤ s.len
      → (t : TextStore) × (set_selection s count (pos a) (pos b)
          ≡ (s_ok, t, on_sink s selection_change))
        × (text t ≡ text s)
        × (get_selection t interim 0 1 ≡ (
          s_ok,
          some (record {
            acp_start = a;
            acp_end = b;
            ase = if interim then ActiveEnd.at_start else ActiveEnd.at_end;
            interim_char = interim;
          }),
        ))
  unfolding set_selection get_selection
  get_selection-set_selection count a b interim h p q =
      (record s { sel_start = a; sel_end = b }, ground arith, refl, refl)

  -- On a valid store, for a range whose ends are not negative and whose start is inside the document, and text that a LONG can count, `ts_QueryInsert`
  -- foretells `ts_SetText`: it says S_OK where the edit succeeds, and TS_E_INVALIDPOS where the edit
  -- is refused and changes nothing.
  pub query_insert-set_text :
      (a b : ℕ) (new : List ℕ)
      → a ≤ s.len
      → s.len + length new < 2 ^ 31
      → ((query_insert s (pos a) (pos b) (length new)).0 ≡ s_ok)
          × ((t : TextStore) × (set_text s (pos a) (pos b) new
                ≡ some (
                  s_ok,
                  t,
                  notify_text_change s (change_of a (range_end s (pos a) (pos b)) new),
                  some (change_of a (range_end s (pos a) (pos b)) new),
                )))
        ⊎ ((query_insert s (pos a) (pos b) (length new)).0 ≡ ts_e_invalidpos)
          × (set_text s (pos a) (pos b) new ≡ some (ts_e_invalidpos, s, [], none))
  query_insert-set_text a b new h k =
      elim (Bool-cases
        (ltb ts_buf_chars (s.len + length new - (range_end s (pos a) (pos b) - a)))) [
          | inl over ↦ inr (
            query_insert_refuses s a b (length new) h k (ltb→lt _ _ over),
            set_text_full v (pos a) (pos b) new (ltb→lt _ _ over),
          )
          | inr room ↦
              let (t, e, _) = set_text-splice v (pos a) (pos b) new h (not_over _ room) in
              inl (query_insert_allows s a b (length new) h k (not_over _ room), (t, e))
        ]

reads_negative :
    (x cch : ℕ)
    → x ≤ ts_buf_chars
    → 2 ^ 31 ≤ cch
    → cch < 2 ^ 32
    → ltb_ℤ (pos ts_buf_chars) (to_long ((x + cch) % 2 ^ 32)) ≡ false
reads_negative x cch h k l = ground arith

-- A count that does not fit a LONG is read as a negative number, and `ts_QueryInsert` then answers
-- S_OK in every document and for every range.
pub query_insert_wrap :
    (s : TextStore) (s0 s1 : ℤ) (cch : ℕ)
    → IsValid s
    → 2 ^ 31 ≤ cch
    → cch < 2 ^ 32
    → (query_insert s s0 s1 cch).0 ≡ s_ok
unfolding query_insert
query_insert_wrap s s0 s1 cch v h k =
    let span = at_most s.len (at_least (clamp_low s0) s1) - at_most s.len (clamp_low s0) in
    rw (reads_negative (s.len - span) cch (omega (arith, v.len_fits)) h k)
