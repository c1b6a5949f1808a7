-- ===== src/Composition.antt =====
-- engine/native/MsctfShim/MsctfShim.c: the context that the shim gives to the input processor, with
-- the text that is being composed (`comp_text`), its range, its composition and the commit to the
-- document. `make_context` makes one range, which the context, its view and its composition share.
-- `none` as a whole result means that the code leaves the array of 256 units.
pub mod Valid
pub mod Keys
pub mod Range
pub mod Commit
pub mod Run
mod Tests
use atzc.Prelude.{
  ℕ, ◌+◌, ◌-◌, ◌%◌, ◌^◌, Bool, true, false, not, ◌&&◌, ◌||◌, Option, none, some, List, [], ◌∷◌,
  ◌++◌, ltb, leb, ◌==◌, if◌then◌else◌, ◌>>=◌, length, take, replicate, map,
}
use atzc.Prelude.Int.{ℤ, pos, negsuc, to_long, sub_ℕ}
use atzc.Prelude.Memory.{read_chars, write_chars, move_memory}
use atzc.Com.{HResult, s_ok, s_false, e_invalidarg, e_pointer, ts_e_invalidpos, is_ok}
use atzc.TextStore
use atzc.TextStore.{TextStore, clamp_low, at_least, at_most}
use atzc.Source.{Source, find_sink, iid_text_edit_sink, iid_context_owner_composition_sink}

abbrev pub comp_chars : ℕ
comp_chars = 256

pub record Context : Type 0 where
  pub comp_active : Bool
  pub comp_text : List ℕ
  pub comp_len : ℕ
  pub range_start : ℕ
  pub range_end : ℕ
  pub comp_sink : Option ℕ
  pub textstore : Option TextStore
  pub source : Option Source

-- The calls that a handler makes on sinks, and those that the text store makes on its own.
pub data Call : Type 0 where
  add_ref release : ℕ → Call
  on_start_composition on_update_composition on_end_composition on_end_edit : ℕ → Call
  from_store : TextStore.Call → Call

pub make_context : Option TextStore → Context
make_context textstore = record {
  comp_active = false;
  comp_text = replicate comp_chars 0;
  comp_len = 0;
  range_start = 0;
  range_end = 0;
  comp_sink = none;
  textstore = textstore;
  source = none;
}

abbrev pub sync_context_ranges : Context → Context
sync_context_ranges c = record c { range_start = 0; range_end = c.comp_len }

-- `c->comp_text[n] = 0` behind a new length `n`.
abbrev pub terminate : Context → List ℕ → ℕ → Option Context
terminate c buf n = do
  buf' ← write_chars buf n (0 ∷ [])
  some (record c { comp_text = buf'; comp_len = n })

-- A NULL text, and a count of 0 or less, are the empty list.
pub replace_comp_text : Context → List ℕ → Option Context
replace_comp_text c text =
    let n = at_most (comp_chars - 1) (length text) in
    do
      buf ← write_chars c.comp_text 0 (take n text)
      c' ← terminate c buf n
      some (sync_context_ranges c')

-- The unit that a key adds to the text, if it is a letter or a digit: A to Z give a to z.
abbrev pub key_char : ℕ → Option ℕ
key_char vk =
    if leb 65 vk && leb vk 90
    then some (vk - 65 + 97)
    else if leb 48 vk && leb vk 57
    then some vk
    else none

abbrev pub vk_back : ℕ
vk_back = 8

abbrev pub vk_return : ℕ
vk_return = 13

abbrev pub vk_convert : ℕ
vk_convert = 28

abbrev pub vk_space : ℕ
vk_space = 32

abbrev pub composition_sink : Context → Option ℕ
composition_sink c = find_sink c.source iid_context_owner_composition_sink

-- `ch` behind the text, while there is room for it and the final NUL.
pub push_char : Context → ℕ → Option Context
push_char c ch = if leb comp_chars (c.comp_len + 1) then some c else do
  buf ← write_chars c.comp_text c.comp_len (ch ∷ [])
  c' ← terminate c buf (c.comp_len + 1)
  some (sync_context_ranges c')

-- A unit that a key event brings to the active context.
pub sync_active_text : Context → ℕ → Option Context
sync_active_text c ch = if ch == 0 then some c else push_char c ch

-- The last unit away, and the final NUL.
pub erase_char : Context → Option (Context × List Call)
erase_char c = do
  c' ← terminate c c.comp_text (c.comp_len - 1)
  some (record (sync_context_ranges c') { comp_active = true }, [])

-- `msctf_append_key` for the active context.
pub append_key : Context → ℕ → Option (Context × List Call)
append_key c vk = elim (key_char vk) [
  | some ch ↦
      let told : List Call = elim (composition_sink c) [
        | none ↦ []
        | some p ↦
            (if c.comp_active then [] else on_start_composition p ∷ [])
            ++ on_update_composition p ∷ []
      ] in
      do c' ← push_char (record c { comp_active = true }) ch; some (c', told)
  | none ↦
      if vk == vk_back
      then erase_char c
      else if vk == vk_return
      then some (
        record c { comp_active = false },
        if c.comp_active
            then elim (composition_sink c) [ none ↦ [] | some p ↦ on_end_composition p ∷ [] ]
            else [],
      )
      else if (vk == vk_space) || (vk == vk_convert)
      then some (record c { comp_active = true }, [])
      else some (c, [])
]
