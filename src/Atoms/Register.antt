-- ===== src/Atoms/Register.antt =====
-- The table of GUID atoms.
use atzc.Prelude.{
  ℕ, ◌+◌, ◌%◌, ◌^◌, ◌≤◌, ◌<◌, ◌≡◌, inl, inr, true, none, some, [], ◌∷◌, ◌++◌, arith, ◌==◌,
  if◌then◌else◌, length, Bool-cases, Option-cases, length-append, ==_refl, lt→leb,
}
use atzc.Prelude.Table.{
  find_key, Distinct, Below, Below-weaken, Below-Absent, All-append, find_key-Absent,
  find_key-append, find_key-Distinct, find_key-get_elem?, Distinct-append,
}
use atzc.Com.{s_ok}
use atzc.Atoms.{
  Atoms, AtomEntry, guid_atom_max, no_atoms, guid_of, atom_of, register_guid, get_guid,
}

pub record IsValid (t : Atoms) : Type 0 where
  pub guids_distinct : Distinct guid_of t.entries
  pub atoms_distinct : Distinct atom_of t.entries
  pub atoms_below : Below atom_of t.next_atom t.entries
  pub fits : length t.entries ≤ guid_atom_max
  pub counted : t.next_atom ≡ length t.entries + 1

pub no_atoms-IsValid : IsValid no_atoms
no_atoms-IsValid = record {
  guids_distinct = tt;
  atoms_distinct = tt;
  atoms_below = tt;
  fits = omega arith;
  counted = omega arith;
}

-- The table with one more GUID.
abbrev pub with_guid : Atoms → ℕ → Atoms
with_guid t g = record {
  entries = t.entries ++ record { guid = g; atom = t.next_atom } ∷ [];
  next_atom = t.next_atom + 1;
}

register_known :
    (t : Atoms) (g : ℕ) (e : AtomEntry)
    → find_key guid_of t.entries g ≡ some e
    → register_guid t (some g) true ≡ (s_ok, t, some e.atom)
unfolding register_guid
register_known t g e known = rw known

module _ {t : Atoms} (v : IsValid t) where
  with_guid-IsValid :
      (g : ℕ)
      → find_key guid_of t.entries g ≡ none
      → length t.entries < guid_atom_max
      → IsValid (with_guid t g)
  with_guid-IsValid g new room =
      let entry : AtomEntry = record { guid = g; atom = t.next_atom } in
      let longer = length-append t.entries (entry ∷ []) in
      record {
        guids_distinct =
            Distinct-append guid_of t.entries entry v.guids_distinct
              (find_key-Absent guid_of t.entries g new);
        atoms_distinct =
            Distinct-append atom_of t.entries entry v.atoms_distinct
              (Below-Absent atom_of t.entries t.next_atom v.atoms_below);
        atoms_below =
            All-append atom_of (λ e. atom_of e < t.next_atom + 1) t.entries entry
              (Below-weaken atom_of t.entries t.next_atom (t.next_atom + 1) (omega arith)
                v.atoms_below)
              (omega arith);
        fits = omega (arith, longer);
        counted = omega (arith, longer, v.counted);
      }

  register_new :
      (g : ℕ)
      → find_key guid_of t.entries g ≡ none
      → length t.entries < guid_atom_max
      → register_guid t (some g) true ≡ (s_ok, with_guid t g, some t.next_atom)
  unfolding register_guid
  register_new g new room =
      let step : (t.next_atom + 1) % 2 ^ 32 ≡ t.next_atom + 1 = omega (arith, v.counted) in
      rw (new, lt→leb guid_atom_max (length t.entries) room, step)

  -- What `GetGUID` finds in the longer table.
  get_guid-with_guid :
      (g b : ℕ)
      → get_guid (with_guid t g) b true
        ≡ (if t.next_atom == b then (s_ok, some g) else get_guid t b true)
  unfolding get_guid
  get_guid-with_guid g b =
      let entry : AtomEntry = record { guid = g; atom = t.next_atom } in
      let found =
        find_key-append atom_of t.entries entry b
          (Below-Absent atom_of t.entries t.next_atom v.atoms_below) in
      elim (Bool-cases (t.next_atom == b)) [
        | inl same ↦ rw (found, same)
        | inr differ ↦ rw (found, differ)
      ]

  -- A known GUID is what `GetGUID` finds for its atom.
  get_guid_known :
      (g b : ℕ) (e : AtomEntry)
      → find_key guid_of t.entries g ≡ some e
      → get_guid t b true ≡ (if e.atom == b then (s_ok, some g) else get_guid t b true)
  unfolding get_guid
  get_guid_known g b e known =
      let (i, at, same_guid) = find_key-get_elem? guid_of t.entries g e known in
      let found = find_key-Distinct atom_of t.entries i e v.atoms_distinct at in
      elim (Bool-cases (e.atom == b)) [
        | inl same ↦
            let b_is : b ≡ e.atom = ground arith in rw (b_is, found, same_guid, ==_refl e.atom)
        | inr differ ↦ rw differ
      ]

  -- While the table has room, `RegisterGUID` gives it an atom by which `GetGUID`
  -- finds it, every other atom keeps its meaning, the table stays valid, and registering the GUID
  -- again gives the same atom and changes nothing.
  pub get_guid-register_guid :
      (g : ℕ)
      → length t.entries < guid_atom_max
      → (t' : Atoms) × (a : ℕ) × (register_guid t (some g) true ≡ (s_ok, t', some a))
        × ((b : ℕ) → get_guid t' b true ≡ (if a == b then (s_ok, some g) else get_guid t b true))
        × (register_guid t' (some g) true ≡ (s_ok, t', some a))
        × IsValid t'
  get_guid-register_guid g room = elim (Option-cases (find_key guid_of t.entries g)) [
    | inr (e, known) ↦ (
      t,
      e.atom,
      register_known t g e known,
      λ b. get_guid_known g b e known,
      register_known t g e known,
      v,
    )
    | inl new ↦
        let w = with_guid-IsValid g new room in
        let entry : AtomEntry = record { guid = g; atom = t.next_atom } in
        (
          with_guid t g,
          t.next_atom,
          register_new g new room,
          λ b. get_guid-with_guid g b,
          register_known (with_guid t g) g entry (
              rw (
                find_key-append guid_of t.entries entry g (find_key-Absent guid_of t.entries g new),
                ==_refl g,
              )),
          w,
        )
  ]
