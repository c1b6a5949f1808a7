-- ===== src/Prelude/Splice.antt =====
-- A range of the text in an array replaced: the move of the tail and the writes that do it.
use atzc.Prelude.{
  ℕ, ◌+◌, ◌-◌, ◌≤◌, ◌≡◌, refl, sym, ap, ◌∙◌, List, ◌++◌, some, arith, ◌>>=◌, length, take, drop,
  length-take, length-drop, length-append, take-append_eq, take-append_le, take-append_ge,
  drop-append_eq, take-take, drop-take, take-append-drop, drop-drop,
}
use atzc.Prelude.Memory.{
  write_chars, move_memory, move_memory_lem, write_chars_lem, read_chars, read_chars_lem,
}

-- The range from `a` to `e` of a text replaced.
abbrev pub splice : List ℕ → ℕ → ℕ → List ℕ → List ℕ
splice xs a e new = take a xs ++ (new ++ drop e xs)

-- The array after the move of the tail and the writes of the new units.
abbrev pub after : List ℕ → List ℕ → ℕ → ℕ → ℕ → List ℕ
after buf new a e len =
    take a buf ++ (new ++ (take (len - e) (drop e buf) ++ drop (a + length new + (len - e)) buf))

-- What the new text needs of the old one.
pub record Fits (buf new : List ℕ) (a e len : ℕ) : Type 0 where
  pub start_le_end : a ≤ e
  pub end_le_len : e ≤ len
  pub len_le : len ≤ length buf
  pub total_le : len + length new - (e - a) ≤ length buf

module _ {buf new : List ℕ} {a e len : ℕ} (fits : Fits buf new a e len) where
  length-take_front : length (take (a + length new) buf) ≡ a + length new
  length-take_front = omega (arith, length-take (a + length new) buf)

  length-moved :
      length (
        take (a + length new) buf
        ++ (take (len - e) (drop e buf) ++ drop (a + length new + (len - e)) buf))
      ≡ length buf
  length-moved = omega (
    arith,
    length-append (take (a + length new) buf)
        (take (len - e) (drop e buf) ++ drop (a + length new + (len - e)) buf),
    length-append (take (len - e) (drop e buf)) (drop (a + length new + (len - e)) buf),
    length-take_front,
    length-take (len - e) (drop e buf),
    length-drop e buf,
    length-drop (a + length new + (len - e)) buf,
  )

  pub splice_array :
      (do moved ← move_memory buf (a + length new) e (len - e); write_chars moved a new)
      ≡ some (after buf new a e len)
  splice_array = rw (move_memory_lem buf (a + length new) e (len - e) (omega arith) (omega arith)) (
      write_chars_lem _ a new (omega (arith, length-moved))
      ∙ rw (
        take-append_le a (take (a + length new) buf) _ (omega (arith, length-take_front)),
        take-take a (a + length new) buf (omega arith),
        drop-append_eq (a + length new) (take (a + length new) buf) _ length-take_front,
      ))

  pub length-after : length (after buf new a e len) ≡ length buf
  length-after = omega (
    arith,
    length-append (take a buf)
        (new ++ (take (len - e) (drop e buf) ++ drop (a + length new + (len - e)) buf)),
    length-append new (take (len - e) (drop e buf) ++ drop (a + length new + (len - e)) buf),
    length-append (take (len - e) (drop e buf)) (drop (a + length new + (len - e)) buf),
    length-take a buf,
    length-take (len - e) (drop e buf),
    length-drop e buf,
    length-drop (a + length new + (len - e)) buf,
  )

  pub take-after :
      take (len + length new - (e - a)) (after buf new a e len) ≡ splice (take len buf) a e new
  take-after = rw (
    take-append_ge (len + length new - (e - a)) (length new + (len - e)) (take a buf) _
        (omega (arith, length-take a buf)),
    take-append_ge (length new + (len - e)) (len - e) new _ refl,
    take-append_eq (len - e) (take (len - e) (drop e buf)) _
        (omega (arith, length-take (len - e) (drop e buf), length-drop e buf)),
    take-take a len buf (omega arith),
    drop-take e len (len - e) buf (omega arith),
  )

-- Where the tail stays in place, the writes alone do it.
pub splice_in_place :
    {buf new : List ℕ} {a e len : ℕ}
    → Fits buf new a e len
    → a + length new ≡ e
    → write_chars buf a new ≡ some (after buf new a e len)
splice_in_place {buf = buf} {new = new} {a = a} {e = e} {len = len} fits h =
    let n = a + length new in
    let tail : take (len - e) (drop e buf) ++ drop (n + (len - e)) buf ≡ drop n buf =
      rw (← drop-drop n (len - e) (n + (len - e)) buf refl, h)
        (take-append-drop (len - e) (drop e buf)) in
    write_chars_lem buf a new (omega arith) ∙ ap (λ t. some (take a buf ++ (new ++ t))) (sym tail)

-- Where there is no tail, the writes alone do it.
pub splice_at_end :
    {buf new : List ℕ} {a e len : ℕ}
    → Fits buf new a e len
    → e ≡ len
    → write_chars buf a new ≡ some (after buf new a e len)
splice_at_end {buf = buf} {new = new} {a = a} {e = e} {len = len} fits h =
    let none_left : len - e ≡ 0 = omega arith in
    let same : a + length new + 0 ≡ a + length new = omega arith in
    rw (none_left, same) (write_chars_lem buf a new (omega arith))

-- A read inside the text that the front of an array holds.
pub read_front :
    (buf : List ℕ) (len at n : ℕ)
    → at + n ≤ len
    → len ≤ length buf
    → read_chars buf at n ≡ some (take n (drop at (take len buf)))
read_front buf len at n h k =
    read_chars_lem buf at n (omega arith)
    ∙ rw (
      drop-take at len (len - at) buf (omega arith),
      take-take n (len - at) (drop at buf) (omega arith),
    )
