-- ===== src/TextStore/Reach.antt =====
-- The states that a sequence of handler calls can bring the text store to.
use atzc.Prelude.{
  ℕ, ◌+◌, ◌-◌, ◌^◌, ◌≤◌, ◌<◌, ◌≡◌, sym, inl, inr, Bool, true, false, Option, none, some, List,
  arith, ltb, leb, ltb→lt, ◌==◌, ◌||◌, length, Bool-cases,
}
use mathlib.Core.Path.{subst}
use atzc.Prelude.Int.{ℤ, pos, negsuc}
use atzc.Com.{HResult}
use atzc.TextStore.{
  TextStore, Change, Call, ts_buf_chars, create, clamp_low, at_most, range_end, set_text,
  set_selection, insert_text_at_selection, append_char, log_content, advise_sink, unadvise_sink,
  request_lock,
}
use atzc.TextStore.Valid.{IsValid}
use atzc.TextStore.Edit.{set_text-splice, set_text_full, set_text_past_end}
use atzc.TextStore.Read.{set_selection-IsValid}
use atzc.TextStore.Append.{
  append_char_lem, append_char_full, create-IsValid, log_content_lem, log_content_fault,
}

-- What `ts_SetText` and `ts_InsertTextAtSelection` return.
abbrev pub EditResult : Type 0
EditResult = HResult × TextStore × List Call × Option Change

-- A call that returns, and the store behind it. A start is a LONG, so it is below 2^31.
pub data Step (s t : TextStore) : Type 0 where
  edit :
      (start end : ℤ) (new : List ℕ) {hr : HResult} {calls : List Call} {c : Option Change}
      → clamp_low start < 2 ^ 31
      → set_text s start end new ≡ some (hr, t, calls, c)
      → Step s t
  insert :
      (query_only : Bool) (new : List ℕ) {hr : HResult} {calls : List Call} {c : Option Change}
      → insert_text_at_selection s query_only new ≡ some (hr, t, calls, c)
      → Step s t
  select : (count : ℕ) (a b : ℤ) → t ≡ (set_selection s count a b).1 → Step s t
  type_char :
      (interim : Bool) (ch : ℕ) {calls : List Call}
      → append_char s interim ch ≡ some (t, calls)
      → Step s t
  log : log_content s ≡ some t → Step s t
  advise :
      (is_sink_iid : Bool) (punk : Option (Option ℕ))
      → t ≡ (advise_sink s is_sink_iid punk).1
      → Step s t
  unadvise : t ≡ (unadvise_sink s).1 → Step s t
  lock : (flags : ℕ) → t ≡ (request_lock s flags).1 → Step s t

pub data Reach (s : TextStore) : TextStore → Type 0 where
  here : Reach s s
  next : {t u : TextStore} → Reach s t → Step t u → Reach s u

-- The store of two equal results is the same.
same_store :
    {s t : TextStore} {hr hr' : HResult} {calls calls' : List Call} {c c' : Option Change}
    {o : Option EditResult}
    → o ≡ some (hr', s, calls', c')
    → o ≡ some (hr, t, calls, c)
    → s ≡ t
same_store p q = cc

module _ {s : TextStore} (v : IsValid s) {t : TextStore} {hr : HResult} {calls : List Call}
    {c : Option Change} where
  edit_inside :
      (start end : ℤ) (new : List ℕ)
      → clamp_low start ≤ s.len
      → set_text s start end new ≡ some (hr, t, calls, c)
      → IsValid t
  edit_inside start end new h e =
      elim (Bool-cases
        (ltb ts_buf_chars (s.len + length new - (range_end s start end - clamp_low start)))) [
          | inl over ↦
              subst IsValid (same_store (set_text_full v start end new (ltb→lt _ _ over)) e) v
          | inr room ↦
              let (s', r, now) = set_text-splice v start end new h (ground arith) in
              subst IsValid (same_store r e) now.still_IsValid
        ]

  edit_past :
      (start : ℕ) (end : ℤ) (new : List ℕ)
      → s.len < start
      → start < 2 ^ 31
      → set_text s (pos start) end new ≡ some (hr, t, calls, c)
      → IsValid t
  edit_past start end new h b e = elim (Bool-cases (ltb ts_buf_chars (s.len + length new))) [
    | inl over ↦
        let far : range_end s (pos start) end ≡ start = ground arith in
        subst IsValid (same_store (set_text_full v (pos start) end new (ground arith)) e) v
    | inr room ↦ let gone = set_text_past_end v start end new h b (ground arith) in cc
  ]

  edit-IsValid :
      (start end : ℤ) (new : List ℕ)
      → clamp_low start < 2 ^ 31
      → set_text s start end new ≡ some (hr, t, calls, c)
      → IsValid t
  edit-IsValid (negsuc n) end new b e = edit_inside (negsuc n) end new (omega arith) e
  edit-IsValid (pos n) end new b e = elim (Bool-cases (ltb s.len n)) [
    | inl past ↦ edit_past n end new (ltb→lt _ _ past) b e
    | inr within ↦ edit_inside (pos n) end new (ground arith) e
  ]

  insert-IsValid :
      (query_only : Bool) (new : List ℕ)
      → insert_text_at_selection s query_only new ≡ some (hr, t, calls, c)
      → IsValid t
  unfolding insert_text_at_selection
  insert-IsValid true new e = subst IsValid (cc) v
  insert-IsValid false new e =
      edit-IsValid (pos (at_most s.len s.sel_start)) _ new (ground (arith, v.len_fits)) e

module _ {s : TextStore} (v : IsValid s) {t : TextStore} where
  type_char-IsValid :
      (interim : Bool) (ch : ℕ) {calls : List Call}
      → append_char s interim ch ≡ some (t, calls)
      → IsValid t
  type_char-IsValid interim ch e = elim (Bool-cases (ch == 0 || leb (ts_buf_chars - 1) s.len)) [
    | inl stop ↦
        let same : s ≡ t = cc (append_char_full v interim ch (ground arith)) in subst IsValid same v
    | inr go ↦
        let (t', r, _, _, _, v') = append_char_lem v interim ch (ground arith) (ground arith) in
        let same : t' ≡ t = cc in subst IsValid same v'
  ]

  log-IsValid : log_content s ≡ some t → IsValid t
  log-IsValid e = elim (Bool-cases (ltb s.len ts_buf_chars)) [
    | inl room ↦
        let (t', r, v') = log_content_lem v (ltb→lt _ _ room) in
        let same : t' ≡ t = cc in subst IsValid same v'
    | inr at_end ↦ let gone = (log_content_fault v).1 (ground (arith, v.len_fits)) in cc
  ]

sink-IsValid :
    {s : TextStore}
    → IsValid s
    → (is_sink_iid : Bool) (punk : Option (Option ℕ)) (flags : ℕ)
    → IsValid (advise_sink s is_sink_iid punk).1
      × IsValid (unadvise_sink s).1
      × IsValid (request_lock s flags).1
unfolding advise_sink unadvise_sink request_lock
sink-IsValid v is_sink_iid punk flags = (ground arith, ground arith, ground arith)

-- Every call that returns keeps the invariant.
Step-IsValid : {s t : TextStore} → IsValid s → Step s t → IsValid t
Step-IsValid v (edit start end new b e) = edit-IsValid v start end new b e
Step-IsValid v (insert q new e) = insert-IsValid v q new e
Step-IsValid v (select count a b e) = subst IsValid (sym e) (set_selection-IsValid v count a b)
Step-IsValid v (type_char interim ch e) = type_char-IsValid v interim ch e
Step-IsValid v (log e) = log-IsValid v e
Step-IsValid v (advise b p e) = subst IsValid (sym e) (sink-IsValid v b p 0).0
Step-IsValid v (unadvise e) = subst IsValid (sym e) (sink-IsValid v true none 0).1
Step-IsValid v (lock flags e) = subst IsValid (sym e) (sink-IsValid v true none flags).2

-- From a new store, any sequence of handler calls that return leaves the array at its size, the
-- document inside it, and the selection ordered and inside the document.
pub Reach-IsValid : {t : TextStore} → Reach create t → IsValid t
Reach-IsValid here = create-IsValid
Reach-IsValid (next r st) = Step-IsValid (Reach-IsValid r) st
