-- ===== src/TextStore.antt =====
-- engine/native/AtTipLoad/textstore.c: the document that the input processor edits, an
-- ITextStoreACP over an array of 4096 UTF-16 units. A handler returns its HRESULT, the new store
-- and the calls it makes on the advised sink. An out parameter is a part of the result, and `none`
-- means that the code leaves the array.
pub mod Valid
pub mod Edit
pub mod Read
pub mod Append
pub mod Reach
mod Tests
use atzc.Prelude.{
  ℕ, ◌+◌, ◌-◌, ◌*◌, ◌/◌, ◌%◌, ◌^◌, Bool, ◌&&◌, ◌||◌, not, Option, none, some, List, [], ◌∷◌, ◌++◌,
  ltb, leb, ◌==◌, if◌then◌else◌, ◌>>=◌, length, replicate,
}
use atzc.Prelude.Int.{ℤ, pos, negsuc, ltb_ℤ, to_long}
use atzc.Prelude.Memory.{read_chars, write_chars, move_memory}
use atzc.Com.{HResult, s_ok, e_invalidarg, ts_e_invalidpos}

abbrev pub ts_buf_chars : ℕ
ts_buf_chars = 4096

-- TS_TEXTCHANGE: the old range and the new end.
pub record Change : Type 0 where
  pub acp_start : ℕ
  pub acp_old_end : ℕ
  pub acp_new_end : ℕ

-- A call on the sink object that the number names.
pub data Call : Type 0 where
  release : ℕ → Call
  lock_granted : ℕ → ℕ → Call
  selection_change : ℕ → Call
  text_change : ℕ → Change → Call

pub record TextStore : Type 0 where
  pub refs : ℕ
  pub buf : List ℕ
  pub len : ℕ
  pub sel_start : ℕ
  pub sel_end : ℕ
  pub sink : Option ℕ
  pub lock_flags : ℕ
  pub comp_count : ℕ
  pub last_comp : List ℕ

-- `HeapAlloc` zeroes the memory.
unfoldable pub create : TextStore
create = record {
  refs = 1;
  buf = replicate ts_buf_chars 0;
  len = 0;
  sel_start = 0;
  sel_end = 0;
  sink = none;
  lock_flags = 0;
  comp_count = 0;
  last_comp = [];
}

-- `if (x < 0) x = 0`
abbrev pub clamp_low : ℤ → ℕ
clamp_low (pos n) = n
clamp_low (negsuc n) = 0

-- `if (x < lo) x = lo`, where `lo` is not negative
abbrev pub at_least : ℕ → ℤ → ℕ
at_least lo (pos n) = if ltb n lo then lo else n
at_least lo (negsuc n) = lo

-- `if (x > hi) x = hi`
abbrev pub at_most : ℕ → ℕ → ℕ
at_most hi x = if ltb hi x then hi else x

-- `if (end < 0) end = s->len`
abbrev pub or_end : ℕ → ℤ → ℕ
or_end len (pos n) = n
or_end len (negsuc n) = len

abbrev pub on_sink : TextStore → (ℕ → Call) → List Call
on_sink s call = elim s.sink [ none ↦ [] | some k ↦ call k ∷ [] ]

-- `punk` is NULL, or the outcome of its QueryInterface for the sink interface.
pub advise_sink : TextStore → Bool → Option (Option ℕ) → HResult × TextStore × List Call
advise_sink s is_sink_iid punk =
    if not is_sink_iid
    then (e_invalidarg, s, [])
    else (s_ok, record s { sink = elim punk [ none ↦ none | some q ↦ q ] }, on_sink s release)

pub unadvise_sink : TextStore → HResult × TextStore × List Call
unadvise_sink s = (s_ok, record s { sink = none }, on_sink s release)

pub request_lock : TextStore → ℕ → HResult × TextStore × List Call
request_lock s flags =
    (s_ok, record s { lock_flags = flags }, on_sink s (λ k. lock_granted k flags))

-- The status, the result range, whose end is a LONG sum that wraps. `cch` is a ULONG.
pub query_insert : TextStore → ℤ → ℤ → ℕ → HResult × ℕ × ℤ
query_insert s s0 s1 cch =
    let a = at_most s.len (clamp_low s0) in
    let b = at_most s.len (at_least (clamp_low s0) s1) in
    let result_end = to_long ((a + cch) % 2 ^ 32) in
    let total = to_long ((s.len - (b - a) + cch) % 2 ^ 32) in
    if ltb_ℤ (pos ts_buf_chars) total
    then (ts_e_invalidpos, a, result_end)
    else (s_ok, a, result_end)

-- Which end of the selection is active.
pub data ActiveEnd : Type 0 where
  at_start at_end : ActiveEnd

pub record Selection : Type 0 where
  pub acp_start : ℕ
  pub acp_end : ℕ
  pub ase : ActiveEnd
  pub interim_char : Bool

-- `none` when no selection is fetched; the status is S_OK either way.
pub get_selection : TextStore → Bool → ℕ → ℕ → HResult × Option Selection
get_selection s interim idx count =
    if (not (idx == 0) && not (idx == 2 ^ 32 - 1)) || ltb count 1 then (s_ok, none) else (
      s_ok,
      some (record {
        acp_start = s.sel_start;
        acp_end = s.sel_end;
        ase = if interim then at_start else at_end;
        interim_char = interim;
      }),
    )

pub set_selection : TextStore → ℕ → ℤ → ℤ → HResult × TextStore × List Call
set_selection s count sel_start sel_end = if ltb count 1 then (e_invalidarg, s, []) else (
  s_ok,
  record s {
    sel_start = at_most s.len (clamp_low sel_start);
    sel_end = at_most s.len (at_least (clamp_low sel_start) sel_end);
  },
  on_sink s selection_change,
)

pub record Text : Type 0 where
  pub chars : List ℕ
  pub fetched : ℕ
  pub runs : List ℕ
  pub next_acp : ℕ

-- `pch` and `ri` say whether the pointer is there. A run is its `uCount`; all runs are plain.
pub get_text : TextStore → ℤ → ℤ → Bool → ℕ → Bool → ℕ → Option (HResult × Text)
get_text s acp_start acp_end pch cch_req ri cri =
    let a = clamp_low acp_start in
    let n = at_most cch_req (at_most s.len (or_end s.len acp_end) - a) in
    do
      chars ← if pch then read_chars s.buf a n else some []
      some (
        s_ok,
        record {
          chars = chars;
          fetched = n;
          runs = if ri && ltb 0 cri then n ∷ [] else [];
          next_acp = a + n;
        },
      )

abbrev pub notify_text_change : TextStore → Change → List Call
notify_text_change s c = on_sink s (λ k. text_change k c)

-- `(s->len - end) * sizeof(WCHAR)` is a 32-bit size: the number of units in that many bytes.
abbrev pub tail_units : ℕ → ℕ → ℕ
tail_units len end = (len + 2 ^ 32 - end) % 2 ^ 32 * 2 % 2 ^ 32 / 2

-- `ts_SetText` behind the normalisation of the range: the test for room, the move of the tail, the
-- writes and the notification. `pch` is the list of the `cch` units.
pub replace_range :
    TextStore → ℕ → ℕ → List ℕ → Option (HResult × TextStore × List Call × Option Change)
replace_range s a e pch =
    let total = s.len + length pch - (e - a) in
    let change : Change = record { acp_start = a; acp_old_end = e; acp_new_end = a + length pch } in
    if ltb ts_buf_chars total then some (ts_e_invalidpos, s, [], none) else do
      moved ← move_memory s.buf (a + length pch) e (tail_units s.len e)
      written ← write_chars moved a pch
      some (
        s_ok,
        record s {
          buf = written;
          len = total;
          sel_start = a + length pch;
          sel_end = a + length pch;
        },
        notify_text_change s change,
        some change,
      )

-- The end of the range that `ts_SetText` replaces.
abbrev pub range_end : TextStore → ℤ → ℤ → ℕ
range_end s start end = at_least (clamp_low start) (pos (at_most s.len (or_end s.len end)))

pub set_text : TextStore → ℤ → ℤ → List ℕ → Option (HResult × TextStore × List Call × Option Change)
set_text s start end pch = replace_range s (clamp_low start) (range_end s start end) pch

-- `query_only` is the test `flags & TS_IAS_QUERYONLY`. The start and the new end, which it also writes
-- to `ps` and `pe`, are left out.
pub insert_text_at_selection :
    TextStore → Bool → List ℕ → Option (HResult × TextStore × List Call × Option Change)
insert_text_at_selection s query_only pch =
    let start = at_most s.len s.sel_start in
    let end = at_most s.len (at_least s.sel_start (pos s.sel_end)) in
    let change : Change = record {
      acp_start = start;
      acp_old_end = end;
      acp_new_end = start + length pch;
    } in
    if query_only then some (s_ok, s, [], some change) else set_text s (pos start) (pos end) pch

unfoldable pub get_end_acp : TextStore → HResult × ℕ
get_end_acp s = (s_ok, s.len)

-- The final NUL that `TextStore_LogContent` writes before it prints the text.
pub log_content : TextStore → Option TextStore
log_content s = do buf ← write_chars s.buf s.len (0 ∷ []); some (record s { buf = buf })

-- `TextStore_GetText`: what is written to `out`, and the length returned. `max` is not negative.
pub copy_text : Option TextStore → Bool → ℕ → Option (List ℕ × ℕ)
copy_text none out max = some (if out && ltb 0 max then 0 ∷ [] else [], 0)
copy_text (some s) out max =
    let n = at_most (max - 1) s.len in
    if not out || not (ltb 0 max)
    then some ([], 0)
    else do chars ← read_chars s.buf 0 n; some (chars ++ 0 ∷ [], n)

-- The test on `g_store` is the caller's.
pub append_char : TextStore → Bool → ℕ → Option (TextStore × List Call)
append_char s interim ch =
    let change : Change = record {
      acp_start = s.len;
      acp_old_end = s.len;
      acp_new_end = s.len + 1;
    } in
    if ch == 0 || leb (ts_buf_chars - 1) s.len then some (s, []) else do
      buf ← write_chars s.buf s.len (ch ∷ 0 ∷ [])
      some (
        record s {
          buf = buf;
          len = s.len + 1;
          sel_start = if interim then 0 else s.len + 1;
          sel_end = s.len + 1;
        },
        notify_text_change s change ++ on_sink s selection_change,
      )
