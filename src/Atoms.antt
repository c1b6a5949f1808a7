-- ===== src/Atoms.antt =====
-- engine/native/MsctfShim/MsctfShim.c, `categorymgr_RegisterGUID`, `categorymgr_GetGUID` and
-- `categorymgr_IsEqualTfGuidAtom` with the table `g_guid_atoms`, and `compartment_shadow_set` and
-- `compartment_shadow_get` with the table `g_compartment_values` and the handlers that use them.
-- GUIDs, atoms and cookies are numbers, a NULL pointer is `none`.
pub mod Register
pub mod Shadow
mod Tests
use atzc.Prelude.{
  ℕ, ◌+◌, ◌%◌, ◌^◌, Bool, true, false, not, ◌&&◌, ◌||◌, Option, none, some, List, [], ◌∷◌, ◌++◌,
  leb, ◌==◌, if◌then◌else◌, length,
}
use atzc.Prelude.Table.{find_key}
use atzc.Com.{HResult, s_ok, e_pointer, e_outofmemory, e_invalidarg, e_nointerface, is_ok}

abbrev pub guid_atom_max : ℕ
guid_atom_max = 256

pub record AtomEntry : Type 0 where
  pub guid : ℕ
  pub atom : ℕ

-- `g_guid_atoms` and `g_next_guid_atom`
pub record Atoms : Type 0 where
  pub entries : List AtomEntry
  pub next_atom : ℕ

abbrev pub no_atoms : Atoms
no_atoms = record { entries = []; next_atom = 1 }

abbrev pub guid_of : AtomEntry → ℕ
guid_of e = e.guid

abbrev pub atom_of : AtomEntry → ℕ
atom_of e = e.atom

-- The last component is the atom that is written.
pub register_guid : Atoms → Option ℕ → Bool → HResult × Atoms × Option ℕ
register_guid t none pguidatom = (e_pointer, t, none)
register_guid t (some guid) pguidatom =
    let entry : AtomEntry = record { guid = guid; atom = t.next_atom } in
    if not pguidatom then (e_pointer, t, none) else elim (find_key guid_of t.entries guid) [
      | some e ↦ (s_ok, t, some e.atom)
      | none ↦ if leb guid_atom_max (length t.entries) then (e_outofmemory, t, none) else (
        s_ok,
        record { entries = t.entries ++ entry ∷ []; next_atom = (t.next_atom + 1) % 2 ^ 32 },
        some t.next_atom,
      )
    ]

-- The GUID that is written; GUID 0 is the zero GUID.
pub get_guid : Atoms → ℕ → Bool → HResult × Option ℕ
get_guid t atom pguid =
    if not pguid then (e_pointer, none) else elim (find_key atom_of t.entries atom) [
      | some e ↦ (s_ok, some e.guid)
      | none ↦ (e_invalidarg, some 0)
    ]

-- What is written to `pfEqual`.
pub is_equal_guid_atom : Atoms → ℕ → Option ℕ → Bool → HResult × Option Bool
is_equal_guid_atom t atom rguid false = (e_pointer, none)
is_equal_guid_atom t atom none true = (e_pointer, some false)
is_equal_guid_atom t atom (some guid) true = elim (find_key atom_of t.entries atom) [
  | some e ↦ (s_ok, some (e.guid == guid))
  | none ↦ (s_ok, some false)
]

-- A VARIANT: its type, as far as `variant_is_shadowable` tells them apart, and its value.
pub data Variant : Type 0 where
  vt_empty vt_null : Variant
  vt_i4 vt_ui4 vt_i2 vt_ui2 vt_bool : ℕ → Variant
  vt_other : ℕ → ℕ → Variant

abbrev pub variant_is_shadowable : Option Variant → Bool
variant_is_shadowable none = false
variant_is_shadowable (some (vt_other vt x)) = false
variant_is_shadowable (some _) = true

abbrev pub compartment_value_max : ℕ
compartment_value_max = 64

-- An entry that is used is always valid.
pub record ShadowEntry : Type 0 where
  pub guid : ℕ
  pub value : Variant

abbrev pub shadow_guid : ShadowEntry → ℕ
shadow_guid e = e.guid

-- The loop that replaces the value of the first entry with the GUID.
pub replace_value : List ShadowEntry → ℕ → Variant → List ShadowEntry
replace_value [] guid value = []
replace_value (e ∷ es) guid value =
    if e.guid == guid
    then record { guid = e.guid; value = value } ∷ es
    else e ∷ replace_value es guid value

pub shadow_set : List ShadowEntry → Option ℕ → Option Variant → List ShadowEntry
shadow_set t none value = t
shadow_set t (some guid) none = t
shadow_set t (some guid) (some value) =
    if not (variant_is_shadowable (some value)) then t else elim (find_key shadow_guid t guid) [
      | some e ↦ replace_value t guid value
      | none ↦
          if leb compartment_value_max (length t)
          then t
          else t ++ record { guid = guid; value = value } ∷ []
    ]

-- The three compartments that have a value from the start: the keyboard is open, and neither
-- disabled nor without a context.
module _ (openclose disabled empty_context : ℕ) where
  abbrev pub default_value : ℕ → Option Variant
  default_value guid =
      if guid == openclose
      then some (vt_i4 1)
      else if (guid == disabled) || (guid == empty_context)
      then some (vt_i4 0)
      else none

  pub shadow_get : List ShadowEntry → Option ℕ → Bool → Option Variant
  shadow_get t none value = none
  shadow_get t (some guid) false = none
  shadow_get t (some guid) true = elim (find_key shadow_guid t guid) [
    | some e ↦ some e.value
    | none ↦ default_value guid
  ]

  -- `orig` is what the wrapped compartment answers: a status, and a value where it writes one.
  pub get_value :
      Option (HResult × Option Variant) → List ShadowEntry → ℕ → Bool → HResult × Option Variant
  get_value orig t guid false = (e_pointer, none)
  get_value none t guid true = (e_nointerface, none)
  get_value (some (hr, value)) t guid true =
      if is_ok hr
      then (hr, value)
      else elim (shadow_get t (some guid) true) [ some v ↦ (s_ok, some v) | none ↦ (hr, value) ]

pub set_value : Option HResult → List ShadowEntry → ℕ → Option Variant → HResult × List ShadowEntry
set_value none t guid value = (e_nointerface, t)
set_value (some hr) t guid value = (hr, if is_ok hr then shadow_set t (some guid) value else t)
