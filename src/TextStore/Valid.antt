-- ===== src/TextStore/Valid.antt =====
-- The invariant of the text store, and its text.
use atzc.Prelude.{ℕ, ◌≤◌, ◌≡◌, List, arith, length, take, length-take}
use atzc.TextStore.{TextStore, ts_buf_chars}

pub record IsValid (s : TextStore) : Type 0 where
  pub buf_size : length s.buf ≡ ts_buf_chars
  pub len_fits : s.len ≤ ts_buf_chars
  pub ordered : s.sel_start ≤ s.sel_end
  pub sel_in : s.sel_end ≤ s.len

-- The document: the units in front of `len`.
abbrev pub text : TextStore → List ℕ
text s = take s.len s.buf

pub length-text : {s : TextStore} → IsValid s → length (text s) ≡ s.len
length-text {s} v = omega (arith, length-take s.len s.buf, v.buf_size, v.len_fits)
