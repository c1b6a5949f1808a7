-- ===== src/Composition/Range/Edit.antt =====
-- `range_GetText` and `range_SetText` as a read and a splice of the composed text.
use atzc.Prelude.{
  ℕ, ◌+◌, ◌-◌, ◌≤◌, ◌<◌, ◌≡◌, refl, ap, ◌∙◌, true, false, not, ◌&&◌, some, List, [], ◌∷◌, ◌++◌,
  arith, ◌>>=◌, length, take, drop, ◌==◌, ltb, leb, if◌then◌else◌, inl, inr, Bool-cases, lt→leb,
  le→leb, >>=-some, length-take, length-drop, length-append, take-append_ge, take-append_eq,
}
use atzc.Prelude.Memory.{write_chars, write_chars_lem}
use atzc.TextStore.{at_most}
use atzc.Prelude.Splice.{
  splice, after, Fits, splice_array, splice_in_place, splice_at_end, length-after, take-after,
  read_front,
}
use atzc.Com.{s_ok, ts_e_invalidpos}
use atzc.Composition.{Context, comp_chars}
use atzc.Composition.Range.{
  range_set_text, range_get_text, set_text_end, move_tail, covered_start, covered_end,
}
use atzc.Composition.Valid.{IsValid, comp, ended, terminate_lem}

module _ {c : Context} (v : IsValid c) (new : List ℕ) where
  end_bounds :
      c.range_start ≤ c.comp_len → (c.range_start ≤ set_text_end c) × (set_text_end c ≤ c.comp_len)
  unfolding set_text_end
  end_bounds h = ground (arith, v.ordered)

  -- The move, where there is one, and the writes.
  moved :
      (e : ℕ)
      → Fits c.comp_text new c.range_start e c.comp_len
      → (move_tail c e (length new) >>= λ m. write_chars m c.range_start new)
        ≡ some (after c.comp_text new c.range_start e c.comp_len)
  unfolding move_tail
  moved e fits = elim (Bool-cases (not (c.range_start + length new == e) && ltb e c.comp_len)) [
    | inl move ↦ rw move (splice_array fits)
    | inr stay ↦ rw stay (elim (Bool-cases (c.range_start + length new == e)) [
      | inl same ↦ splice_in_place fits (ground arith)
      | inr other ↦ splice_at_end fits (ground (arith, fits.end_le_len))
    ])
  ]

  Fits-comp :
      c.range_start ≤ c.comp_len
      → c.comp_len + length new - (set_text_end c - c.range_start) < comp_chars
      → Fits c.comp_text new c.range_start (set_text_end c) c.comp_len
  Fits-comp h k =
      let (p, q) = end_bounds h in
      record {
        start_le_end = p;
        end_le_len = q;
        len_le = omega (arith, v.text_size, v.len_fits);
        total_le = omega (arith, v.text_size);
      }

  -- `range_SetText` on a range that starts inside the composed text replaces what the range covers
  -- of it, while the new text fits. The range then covers the whole text, and the context stays
  -- valid.
  pub range_set_text-splice :
      c.range_start ≤ c.comp_len
      → c.comp_len + length new - (set_text_end c - c.range_start) < comp_chars
      → (c' : Context) × (range_set_text c (some new) ≡ some (s_ok, c'))
        × (comp c' ≡ splice (comp c) c.range_start (set_text_end c) new)
        × (c'.comp_len ≡ c.comp_len + length new - (set_text_end c - c.range_start))
        × (c'.range_start ≡ 0)
        × (c'.range_end ≡ c'.comp_len)
        × IsValid c'
  unfolding range_set_text
  range_set_text-splice h k =
      let e : ℕ = set_text_end c in
      let (p, q) = end_bounds h in
      let fits = Fits-comp h k in
      let total : ℕ = c.comp_len + length new - (e - c.range_start) in
      let total_is : c.comp_len + length new + c.range_start - e ≡ total = omega (arith, p, q) in
      let buf : List ℕ = after c.comp_text new c.range_start e c.comp_len in
      let (done, size, front) = terminate_lem c buf total (length-after fits ∙ v.text_size) k in
      (
        record c {
          comp_text = ended buf total;
          comp_len = total;
          range_start = 0;
          range_end = total;
        },
        rw (total_is, lt→leb comp_chars total k)
            (>>=-some (move_tail c e (length new)) (λ m. write_chars m c.range_start new) _
                (moved e fits)
              ∙ rw done),
        front ∙ take-after fits,
        refl,
        refl,
        refl,
        record { text_size = size; len_fits = k; ordered = omega arith },
      )

  -- Text that does not fit beside the final NUL is refused with TS_E_INVALIDPOS and changes nothing.
  pub range_set_text_full :
      c.range_start ≤ c.comp_len
      → comp_chars ≤ c.comp_len + length new - (set_text_end c - c.range_start)
      → range_set_text c (some new) ≡ some (ts_e_invalidpos, c)
  unfolding range_set_text
  range_set_text_full h k =
      let (p, q) = end_bounds h in
      rw (
        le→leb comp_chars (c.comp_len + length new + c.range_start - set_text_end c)
          (omega (arith, p, q)))

  end_past : c.comp_len < c.range_start → set_text_end c ≡ c.comp_len
  unfolding set_text_end
  end_past h = ground (arith, v.ordered)

  tail_stays : c.comp_len < c.range_start → move_tail c c.comp_len (length new) ≡ some c.comp_text
  unfolding move_tail
  tail_stays h = ground arith

  -- A range that starts behind the composed text keeps what the array has in between: the new text
  -- stands behind that many old units.
  pub range_set_text_past :
      c.comp_len < c.range_start
      → c.range_start + length new < comp_chars
      → (c' : Context) × (range_set_text c (some new) ≡ some (s_ok, c'))
        × (comp c' ≡ take c.range_start c.comp_text ++ new)
        × IsValid c'
  unfolding range_set_text
  range_set_text_past h k =
      let a : ℕ = c.range_start in
      let at_end : set_text_end c ≡ c.comp_len = end_past h in
      let total_is : c.comp_len + length new + a - c.comp_len ≡ a + length new = omega arith in
      let buf : List ℕ = take a c.comp_text ++ (new ++ drop (a + length new) c.comp_text) in
      let stays : move_tail c c.comp_len (length new) ≡ some c.comp_text = tail_stays h in
      let written : write_chars c.comp_text a new ≡ some buf =
        write_chars_lem c.comp_text a new (omega (arith, v.text_size)) in
      let (done, size, front) =
        terminate_lem c buf (a + length new)
          (omega (
            arith,
            v.text_size,
            length-take a c.comp_text,
            length-drop (a + length new) c.comp_text,
            length-append (take a c.comp_text) (new ++ drop (a + length new) c.comp_text),
            length-append new (drop (a + length new) c.comp_text),
          ))
          k in
      (
        record c {
          comp_text = ended buf (a + length new);
          comp_len = a + length new;
          range_start = 0;
          range_end = a + length new;
        },
        rw (at_end, total_is, lt→leb comp_chars (a + length new) k, stays, written, done),
        front
            ∙ take-append_ge (a + length new) (length new) (take a c.comp_text) _
                (omega (arith, length-take a c.comp_text, v.text_size))
            ∙ ap (λ t. take a c.comp_text ++ t) (take-append_eq (length new) new _ refl),
        record { text_size = size; len_fits = k; ordered = omega arith },
      )

covered_bounds : (c : Context) → (covered_start c ≤ covered_end c) × (covered_end c ≤ c.comp_len)
unfolding covered_start covered_end
covered_bounds c = ground arith

module _ {c : Context} (v : IsValid c) where
  -- `range_GetText` gives the part of the range that lies in the composed text, cut to the room
  -- beside a NUL, and its length.
  pub range_get_text_lem :
      (cch_max : ℕ)
      → 0 < cch_max
      → let n = at_most (cch_max - 1) (covered_end c - covered_start c) in
        range_get_text c true cch_max
        ≡ some (s_ok, take n (drop (covered_start c) (comp c)) ++ 0 ∷ [], n)
  unfolding range_get_text
  range_get_text_lem cch_max h =
      let span : ℕ = covered_end c - covered_start c in
      let n : ℕ = at_most (cch_max - 1) span in
      let count : (if leb cch_max span then cch_max - 1 else span) ≡ n = ground arith in
      let wanted : (cch_max == 0) ≡ false = ground arith in
      let (p, q) = covered_bounds c in
      let few : n ≤ span = ground arith in
      rw (
        wanted,
        count,
        read_front c.comp_text c.comp_len (covered_start c) n (omega (arith, p, q, few))
            (omega (arith, v.text_size, v.len_fits)),
      )
