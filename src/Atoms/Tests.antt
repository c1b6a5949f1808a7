-- ===== src/Atoms/Tests.antt =====
-- The theorems on GUID atoms and remembered compartment values at concrete tables.
use atzc.Prelude.{
  ℕ, ◌≡◌, refl, inr, true, false, Option, none, some, List, [], arith, ◌==◌, if◌then◌else◌,
}
use atzc.Prelude.Table.{find_key}
use atzc.Com.{HResult, s_ok, e_fail, is_ok}
use atzc.Atoms.{
  Atoms, Variant, ShadowEntry, no_atoms, register_guid, get_guid, get_value, set_value, shadow_get,
  is_equal_guid_atom,
}
use atzc.Atoms.Register.{IsValid, no_atoms-IsValid, get_guid-register_guid}
use atzc.Atoms.Shadow.{get_value-set_value}

get_guid-register_guid_example :
    (t : Atoms) × (a : ℕ) × (register_guid no_atoms (some 77) true ≡ (s_ok, t, some a))
    × ((b : ℕ) → get_guid t b true ≡ (if a == b then (s_ok, some 77) else get_guid no_atoms b true))
    × (register_guid t (some 77) true ≡ (s_ok, t, some a))
    × IsValid t
get_guid-register_guid_example = get_guid-register_guid no_atoms-IsValid 77 (omega arith)

get_value-set_value_example :
    (t : List ShadowEntry) × (set_value (some s_ok) [] 5 (some (Variant.vt_i4 1)) ≡ (s_ok, t))
    × ((k : ℕ) (hr : HResult) (old : Option Variant)
        → get_value 1 2 3 (some (hr, old)) t k true ≡ (
            if is_ok hr
            then (hr, old)
            else if 5 == k
            then (s_ok, some (Variant.vt_i4 1))
            else get_value 1 2 3 (some (hr, old)) [] k true))
get_value-set_value_example =
    get_value-set_value 1 2 3 [] 5 (Variant.vt_i4 1) refl (inr (omega arith))

is_equal_guid_atom_missing : is_equal_guid_atom no_atoms 1 (some 7) true ≡ (s_ok, some false)
unfolding is_equal_guid_atom find_key
is_equal_guid_atom_missing = refl

-- A compartment that was never set has its default.
get_value_default : get_value 1 2 3 (some (e_fail, none)) [] 1 true ≡ (s_ok, some (Variant.vt_i4 1))
unfolding get_value shadow_get find_key
get_value_default = refl
