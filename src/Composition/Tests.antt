-- ===== src/Composition/Tests.antt =====
-- The theorems on the composing context at concrete contexts.
use atzc.Prelude.{
  List, ℕ, ◌≡◌, refl, true, false, none, some, [], ◌∷◌, ◌++◌, arith, length-replicate, replicate,
  take,
}
use atzc.Prelude.Splice.{splice}
use atzc.Prelude.Int.{pos}
use atzc.Com.{s_ok}
use atzc.TextStore
use atzc.TextStore.{TextStore}
use atzc.TextStore.Valid
use atzc.TextStore.Valid.{text}
use atzc.TextStore.Append.{create-IsValid}
use atzc.TextStore.Edit.{Edited}
use atzc.Composition.{make_context, Context, append_key, vk_back}
use atzc.Composition.Valid.{IsValid, comp}
use atzc.Composition.Keys.{told, append_key-append_key}
use atzc.Composition.Range.{range_set_text, set_text_end}
use atzc.Composition.Range.Edit.{range_set_text-splice}
use atzc.Composition.Commit.{
  end_composition, begin_composition, swap_sink, insert_text_at_selection, notify_text_edit,
}
use atzc.Composition.Run.{Op, run, run-make_context}
use atzc.Composition.Commit.Flush.{end_composition_lem, end_composition_full}
use atzc.Composition.Commit.Insert.{insert_text_lem, begin_composition-range_set_text}
use atzc.TextStore.{TextStore, at_most}

-- "nih" is composed over a new text store, and the range covers "h".
abbrev sample : Context
sample = record {
  comp_active = true;
  comp_text = 110 ∷ 105 ∷ 104 ∷ replicate 253 0;
  comp_len = 3;
  range_start = 2;
  range_end = 3;
  comp_sink = none;
  textstore = some TextStore.create;
  source = none;
}

sample-IsValid : IsValid sample
sample-IsValid = record {
  text_size = omega (arith, length-replicate {A = ℕ} 253 0);
  len_fits = omega arith;
  ordered = omega arith;
}

range_set_text-splice_example :
    (c' : Context) × (range_set_text sample (some (12395 ∷ [])) ≡ some (s_ok, c'))
    × (comp c' ≡ splice (comp sample) 2 3 (12395 ∷ []))
    × (c'.comp_len ≡ 3)
    × (c'.range_start ≡ 0)
    × (c'.range_end ≡ c'.comp_len)
    × IsValid c'
unfolding set_text_end
range_set_text-splice_example =
    range_set_text-splice sample-IsValid (12395 ∷ []) (omega arith) (omega arith)

append_key-append_key_example :
    (c' c'' : Context) × (append_key sample 65 ≡ some (c', told sample))
    × (comp c' ≡ comp sample ++ 97 ∷ [])
    × (c'.comp_active ≡ true)
    × (append_key c' vk_back ≡ some (c'', []))
    × (comp c'' ≡ comp sample)
    × IsValid c'
    × IsValid c''
append_key-append_key_example = append_key-append_key sample-IsValid 65 97 refl (omega arith)

end_composition_lem_example :
    (c' : Context) × (s' : TextStore) × (end_composition sample ≡ some (s_ok, c', []))
    × (c'.textstore ≡ some s')
    × (text s' ≡ text TextStore.create ++ comp sample)
    × TextStore.Valid.IsValid s'
    × (end_composition c' ≡ some (s_ok, c', []))
unfolding TextStore.create
end_composition_lem_example =
    end_composition_lem sample-IsValid refl refl (omega arith) create-IsValid (omega arith)

-- A document with room for one unit only.
abbrev full : TextStore
full = record TextStore.create { len = 4095 }

full-IsValid : TextStore.Valid.IsValid full
unfolding TextStore.create
full-IsValid = record {
  buf_size = create-IsValid.buf_size;
  len_fits = omega arith;
  ordered = omega arith;
  sel_in = omega arith;
}

abbrev over_full : Context
over_full = record sample { textstore = some full }

over_full-IsValid : IsValid over_full
over_full-IsValid = record {
  text_size = sample-IsValid.text_size;
  len_fits = omega arith;
  ordered = omega arith;
}

end_composition_full_example :
    (end_composition over_full
      ≡ some (s_ok, record over_full { comp_active = false; textstore = some full }, []))
    × (end_composition (record over_full { comp_active = false; textstore = some full })
        ≡ some (s_ok, record over_full { comp_active = false; textstore = some full }, []))
end_composition_full_example =
    end_composition_full over_full-IsValid refl refl (omega arith) full-IsValid (omega arith)

insert_text_lem_example :
    (c' : Context) × (s' : TextStore) × (insert_text_at_selection sample false (65 ∷ []) true
      ≡ some (s_ok, c', notify_text_edit sample))
    × (c'.textstore ≡ some s')
    × Edited TextStore.create s' 0 0 (65 ∷ [])
    × (comp c' ≡ take 255 (65 ∷ []))
    × (c'.comp_active ≡ false)
    × IsValid c'
unfolding TextStore.create
insert_text_lem_example =
    insert_text_lem sample-IsValid create-IsValid refl (65 ∷ []) true (omega arith)

begin_composition-range_set_text_example :
    (c' c'' : Context) × (begin_composition sample (some 6) true
      ≡ some (s_ok, c', swap_sink none (some 6)))
    × (comp c' ≡ [])
    × (range_set_text c' (some (97 ∷ [])) ≡ some (s_ok, c''))
    × (comp c'' ≡ take 2 (0 ∷ 105 ∷ 104 ∷ replicate 253 0) ++ 97 ∷ [])
begin_composition-range_set_text_example =
    begin_composition-range_set_text sample-IsValid (some 6) (97 ∷ []) (omega arith) (omega arith)

-- Type "a", shift the start of the range behind it, start again and write.
abbrev session : List Op
session =
    Op.key 65 ∷ Op.shift_start (pos 1) ∷ Op.start (some 6) true ∷ Op.set_text (some (98 ∷ [])) ∷ []

run-make_context_example : (c : Context) × (run (make_context none) session ≡ some c) × IsValid c
run-make_context_example = run-make_context none session
