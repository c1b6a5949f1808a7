-- ===== src/Composition/Range.antt =====
-- engine/native/MsctfShim/MsctfShim.c, `range_*`: the range over the composed text.
pub mod Edit
pub mod Total
use atzc.Prelude.{
  ℕ, ◌+◌, ◌-◌, ◌%◌, ◌^◌, Bool, true, false, not, ◌&&◌, ◌||◌, Option, none, some, List, [], ◌∷◌,
  ◌++◌, ltb, leb, ◌==◌, if◌then◌else◌, ◌>>=◌, length, take, map,
}
use atzc.Prelude.Int.{ℤ, pos, negsuc, to_long, sub_ℕ}
use atzc.Prelude.Memory.{read_chars, write_chars, move_memory}
use atzc.Com.{HResult, s_ok, s_false, e_invalidarg, e_pointer, ts_e_invalidpos, is_ok}
use atzc.TextStore
use atzc.TextStore.{TextStore, clamp_low, at_least, at_most}
use atzc.Source.{Source, find_sink, iid_text_edit_sink, iid_context_owner_composition_sink}
use atzc.Composition.{
  Context, Call, add_ref, release, on_end_edit, from_store, comp_chars, sync_context_ranges,
  terminate, replace_comp_text,
}

-- The part of the composed text that the range covers, for `range_GetText`.
pub covered_end : Context → ℕ
covered_end c = at_most c.comp_len c.range_end

pub covered_start : Context → ℕ
covered_start c = at_most (covered_end c) c.range_start

-- What is written to the buffer, and the length that is reported. `cch_max` is the room.
pub range_get_text : Context → Bool → ℕ → Option (HResult × List ℕ × ℕ)
range_get_text c pch_text cch_max =
    let span = covered_end c - covered_start c in
    let n = if leb cch_max span then cch_max - 1 else span in
    if not pch_text || (cch_max == 0)
    then some (e_invalidarg, [], 0)
    else do chars ← read_chars c.comp_text (covered_start c) n; some (s_ok, chars ++ 0 ∷ [], n)

-- The end of the range that `range_SetText` replaces: it is clamped to the text after it has been
-- raised to the start, so a start behind the text stands behind it.
unfoldable pub set_text_end : Context → ℕ
set_text_end c = at_most c.comp_len (at_least c.range_start (pos c.range_end))

-- The move, where the length changes and text follows the range.
pub move_tail : Context → ℕ → ℕ → Option (List ℕ)
move_tail c e n =
    if not (c.range_start + n == e) && ltb e c.comp_len
    then move_memory c.comp_text (c.range_start + n) e (c.comp_len - e)
    else some c.comp_text

-- A NULL text, and a negative count, are `none`. The new length is `comp_len + delta`, a ULONG.
pub range_set_text : Context → Option (List ℕ) → Option (HResult × Context)
range_set_text c none = some (e_invalidarg, c)
range_set_text c (some pch_text) =
    let total = c.comp_len + length pch_text + c.range_start - set_text_end c in
    if leb comp_chars total then some (ts_e_invalidpos, c) else do
      moved ← move_tail c (set_text_end c) (length pch_text)
      written ← write_chars moved c.range_start pch_text
      c' ← terminate c written total
      some (s_ok, sync_context_ranges c')

-- A LONG sum, of which the first part is not negative.
abbrev pub add_long : ℕ → ℤ → ℤ
add_long a (pos n) = to_long ((a + n) % 2 ^ 32)
add_long a (negsuc n) = sub_ℕ a (n + 1)

-- The last component is what is reported as shifted.
pub range_shift_start : Context → ℤ → HResult × Context × ℤ
range_shift_start c cch_req = (
  s_ok,
  record c { range_start = at_most c.range_end (clamp_low (add_long c.range_start cch_req)) },
  cch_req,
)

pub range_shift_end : Context → ℤ → HResult × Context × ℤ
range_shift_end c cch_req =
    (s_ok, record c { range_end = at_least c.range_start (add_long c.range_end cch_req) }, cch_req)

pub range_collapse : Context → Bool → HResult × Context
range_collapse c to_start = (s_ok, if to_start then record c { range_end = c.range_start } else c)

pub range_is_empty : Context → HResult × Bool
range_is_empty c = (s_ok, leb c.range_end c.range_start)
