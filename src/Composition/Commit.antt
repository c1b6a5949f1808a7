-- ===== src/Composition/Commit.antt =====
-- engine/native/MsctfShim/MsctfShim.c: the start and the end of a composition, the commit of its
-- text to the document (`flush_comp_text_to_store`) and `insert_InsertTextAtSelection`.
pub mod Flush
pub mod Insert
use atzc.Prelude.{
  ℕ, ◌+◌, ◌-◌, ◌%◌, ◌^◌, Bool, true, false, not, ◌&&◌, ◌||◌, Option, none, some, List, [], ◌∷◌,
  ◌++◌, ltb, leb, ◌==◌, if◌then◌else◌, ◌>>=◌, length, take, map,
}
use atzc.Prelude.Int.{ℤ, pos, negsuc, to_long, sub_ℕ}
use atzc.Prelude.Memory.{read_chars, write_chars, move_memory}
use atzc.Com.{HResult, s_ok, s_false, e_invalidarg, e_pointer, ts_e_invalidpos, is_ok}
use atzc.TextStore
use atzc.TextStore.{TextStore, clamp_low, at_least, at_most}
use atzc.Source.{Source, find_sink, iid_text_edit_sink, iid_context_owner_composition_sink}
use atzc.Composition.{
  Context, Call, add_ref, release, on_end_edit, from_store, comp_chars, sync_context_ranges,
  terminate, replace_comp_text,
}

-- The old sink is released, the new one is kept.
abbrev pub swap_sink : Option ℕ → Option ℕ → List Call
swap_sink old new =
    (elim old [ none ↦ [] | some p ↦ release p ∷ [] ])
    ++ (elim new [ none ↦ [] | some p ↦ add_ref p ∷ [] ])

-- What `ctxcomp_StartComposition` and `ctxcomp_TakeOwnership` both do: the ranges stay.
pub begin_composition : Context → Option ℕ → Bool → Option (HResult × Context × List Call)
begin_composition c psink false = some (e_pointer, c, [])
begin_composition c psink true = do
  c' ← terminate c c.comp_text 0
  some (s_ok, record c' { comp_active = true; comp_sink = psink }, swap_sink c.comp_sink psink)

-- `ctxcomp_TakeOwnership`, in the same words.
pub take_ownership : Context → Option ℕ → Bool → Option (HResult × Context × List Call)
take_ownership c psink pp_composition = begin_composition c psink pp_composition

-- The text store is the one of AtTipLoad.
pub flush_comp_text_to_store : Context → Option (Context × List Call)
flush_comp_text_to_store c = elim c.textstore [
  | none ↦ some (c, [])
  | some s ↦ if c.comp_len == 0 then some (c, []) else do
    chars ← read_chars c.comp_text 0 c.comp_len
    r ←
        TextStore.set_text s (pos (TextStore.get_end_acp s).1) (pos (TextStore.get_end_acp s).1)
          chars
    some (record c { textstore = some r.1 }, map from_store r.2)
]

pub end_composition : Context → Option (HResult × Context × List Call)
end_composition c =
    if not c.comp_active
    then some (s_ok, c, [])
    else do r ← flush_comp_text_to_store (record c { comp_active = false }); some (s_ok, r.0, r.1)

abbrev pub notify_text_edit : Context → List Call
notify_text_edit c = elim (find_sink c.source iid_text_edit_sink) [
  | none ↦ []
  | some p ↦ on_end_edit p ∷ []
]

-- What `insert_InsertTextAtSelection` forwards to the text store: the status, the store, its calls.
abbrev pub forward_insert :
    Context → Bool → List ℕ → Option (HResult × Option TextStore × List Call)
forward_insert c query_only text = elim c.textstore [
  | none ↦ some (s_ok, none, [])
  | some s ↦ do
    r ← TextStore.insert_text_at_selection s query_only text
    some (r.0, some r.1, map from_store r.2)
]

-- What follows a forwarded insertion that succeeded.
abbrev pub take_insert : Context → Bool → List ℕ → Bool → Option (Context × List Call)
take_insert c true text pp_range =
    some (if pp_range then record c { range_start = 0; range_end = length text } else c, [])
take_insert c false text pp_range = do
  c' ← replace_comp_text c text
  some (record c' { comp_active = false }, notify_text_edit c)

-- `query_only` is the test of the flags, and `text` the counted units.
pub insert_text_at_selection :
    Context → Bool → List ℕ → Bool → Option (HResult × Context × List Call)
insert_text_at_selection c query_only text pp_range = do
  r ← forward_insert c query_only text
  t ←
      if is_ok r.0
      then take_insert (record c { textstore = r.1 }) query_only text pp_range
      else some (record c { textstore = r.1 }, [])
  some (r.0, t.0, r.2 ++ t.1)
