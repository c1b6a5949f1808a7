-- ===== src/Composition/Range/Total.antt =====
-- Every operation of a range returns and keeps the context valid.
use atzc.Prelude.{
  ℕ, ◌+◌, ◌-◌, ◌≤◌, ◌<◌, ◌≡◌, refl, inl, inr, Bool, true, false, Option, none, some, List, arith,
  length, ltb, leb, Bool-cases, le→leb,
}
use atzc.Prelude.Int.{ℤ, pos, negsuc}
use atzc.TextStore.{at_least}
use atzc.Com.{HResult, s_ok, e_invalidarg, ts_e_invalidpos}
use atzc.Composition.{Context, comp_chars}
use atzc.Composition.Valid.{IsValid}
use atzc.Composition.Range.{
  range_set_text, range_shift_start, range_shift_end, range_collapse, set_text_end, add_long,
}
use atzc.Composition.Range.Edit.{range_set_text-splice, range_set_text_full, range_set_text_past}

at_least_ge : (lo : ℕ) (x : ℤ) → lo ≤ at_least lo x
at_least_ge lo (pos n) = ground arith
at_least_ge lo (negsuc n) = omega arith

module _ {c : Context} (v : IsValid c) where
  -- Behind the composed text, the writes are refused where they do not fit.
  range_set_text_far :
      (new : List ℕ)
      → c.comp_len < c.range_start
      → comp_chars ≤ c.range_start + length new
      → range_set_text c (some new) ≡ some (ts_e_invalidpos, c)
  unfolding range_set_text set_text_end
  range_set_text_far new h k =
      let at_end : set_text_end c ≡ c.comp_len = ground arith in
      rw (
        at_end,
        le→leb comp_chars (c.comp_len + length new + c.range_start - c.comp_len) (omega arith),
      )

  pub range_shift_start-IsValid : (n : ℤ) → IsValid (range_shift_start c n).1
  unfolding range_shift_start
  range_shift_start-IsValid n = record {
    text_size = v.text_size;
    len_fits = v.len_fits;
    ordered = ground arith;
  }

  pub range_shift_end-IsValid : (n : ℤ) → IsValid (range_shift_end c n).1
  unfolding range_shift_end
  range_shift_end-IsValid n = record {
    text_size = v.text_size;
    len_fits = v.len_fits;
    ordered = at_least_ge c.range_start (add_long c.range_end n);
  }

  pub range_collapse-IsValid : (b : Bool) → IsValid (range_collapse c b).1
  unfolding range_collapse
  range_collapse-IsValid true = record {
    text_size = v.text_size;
    len_fits = v.len_fits;
    ordered = omega arith;
  }
  range_collapse-IsValid false = v

  pub range_set_text_total :
      (pch : Option (List ℕ))
      → (hr : HResult) × (c' : Context) × (range_set_text c pch ≡ some (hr, c')) × IsValid c'
  unfolding range_set_text
  range_set_text_total none = (e_invalidarg, c, refl, v)
  range_set_text_total (some new) = elim (Bool-cases (ltb c.comp_len c.range_start)) [
    | inl past ↦ elim (Bool-cases (leb comp_chars (c.range_start + length new))) [
      | inl full ↦ (ts_e_invalidpos, c, range_set_text_far new (ground arith) (ground arith), v)
      | inr room ↦
          let (c', done, _, w) = range_set_text_past v new (ground arith) (ground arith) in
          (s_ok, c', done, w)
    ]
    | inr inside ↦
        elim (Bool-cases
          (leb comp_chars (c.comp_len + length new - (set_text_end c - c.range_start)))) [
            | inl full ↦
                (ts_e_invalidpos, c, range_set_text_full v new (ground arith) (ground arith), v)
            | inr room ↦
                let (c', done, _, _, _, _, w) =
                  range_set_text-splice v new (ground arith) (ground arith) in
                (s_ok, c', done, w)
          ]
  ]
