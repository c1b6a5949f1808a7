-- ===== src/LangBar/Items.antt =====
-- What `langbaritemmgr_GetItem` finds after items are added and removed.
use atzc.Prelude.{
  ℕ, ◌+◌, ◌<◌, ◌≡◌, refl, ap, inl, inr, true, none, some, [], ◌∷◌, ◌++◌, arith, leb, ◌==◌,
  if◌then◌else◌, length, Bool-cases, length-append, get_elem?, lt→leb, ==_refl,
}
use atzc.Prelude.Table.{
  find_key, remove_key, index_key, Absent, find_key-Absent, find_key-append, remove_key-append,
  find_key-remove_key, remove_at-Distinct, remove_at-index_key, get_elem?-index_key,
  index_key-append,
}
use atzc.Com.{HResult, s_ok, s_false, e_outofmemory}
use atzc.LangBar.{
  Manager, StoredItem, add_ref, release, item_max, item_of, guid_of, add_item, remove_item,
  remove_item_at, removed_index, get_item, notify_sinks,
}
use atzc.LangBar.Valid.{IsValid}

-- The manager with one more item.
abbrev pub added : Manager → ℕ → ℕ → Manager
added m p g = record m { items = m.items ++ record { item = p; guid = g } ∷ [] }

module _ {m : Manager} (v : IsValid m) (get_info : ℕ → HResult × ℕ) (p g : ℕ) where
  -- An item with a GUID of its own is stored while there is room, one reference to it is taken and
  -- each sink is told once. `langbaritemmgr_GetItem` then returns that item for its GUID and answers
  -- as before for every other GUID. Adding it a second time changes nothing: it answers
  -- S_OK, or E_OUTOFMEMORY where the array is full.
  pub get_item-add_item :
      length m.items < item_max
      → get_info p ≡ (s_ok, g)
      → find_key guid_of m.items g ≡ none
      → (add_item get_info none m (some p) ≡ (s_ok, added m p g, add_ref p ∷ notify_sinks m 1))
        × ((k : ℕ)
            → get_item none (added m p g) (some k) true
              ≡ (if g == k then (s_ok, some p, add_ref p ∷ []) else get_item none m (some k) true))
        × (add_item get_info none (added m p g) (some p)
            ≡ (if leb item_max (length m.items + 1) then e_outofmemory else s_ok, added m p g, []))
  unfolding add_item get_item
  get_item-add_item room info new = (
    rw (ok, guid, lt→leb item_max (length m.items) room, new, guid),
    found,
    elim (Bool-cases (leb item_max (length m.items + 1))) [
      | inl full ↦ rw (longer, full)
      | inr more ↦ rw (
        longer,
        more,
        ok,
        guid,
        find_key-append guid_of m.items (record { item = p; guid = g }) g
            (find_key-Absent guid_of m.items g new),
        ==_refl g,
      )
    ],
  )
    where
      ok : (get_info p).0 ≡ s_ok
      ok = ap (λ r. r.0) info

      guid : (get_info p).1 ≡ g
      guid = ap (λ r. r.1) info

      longer : length (m.items ++ record { item = p; guid = g } ∷ []) ≡ length m.items + 1
      longer = omega (arith, length-append m.items (record { item = p; guid = g } ∷ []))

      found :
          (k : ℕ)
          → get_item none (added m p g) (some k) true
            ≡ (if g == k then (s_ok, some p, add_ref p ∷ []) else get_item none m (some k) true)
      found k = elim (Bool-cases (g == k)) [
        | inl same ↦ rw (
          find_key-append guid_of m.items (record { item = p; guid = g }) k
              (find_key-Absent guid_of m.items g new),
          same,
        )
        | inr differ ↦ rw (
          find_key-append guid_of m.items (record { item = p; guid = g }) k
              (find_key-Absent guid_of m.items g new),
          differ,
        )
      ]

  -- Removing an item that was just added, where the object was not stored before, gives back the
  -- manager and the reference, and tells each sink again.
  pub remove_item-add_item :
      Absent item_of p m.items
      → find_key guid_of m.items g ≡ none
      → remove_item get_info none (added m p g) (some p) ≡ (s_ok, m, release p ∷ notify_sinks m 1)
  unfolding remove_item removed_index remove_item_at
  remove_item-add_item absent new =
      let entry : StoredItem = record { item = p; guid = g } in
      let (i, at) = index_key-append item_of m.items entry p refl absent in
      rw (
        remove_item,
        removed_index,
        at,
        remove_item_at,
        get_elem?-index_key item_of _ p i at,
        find_key-append item_of m.items entry p absent,
        ==_refl p,
        remove_at-index_key item_of _ p i at,
        remove_key-append item_of m.items entry p refl absent,
      )

module _ {m : Manager} (v : IsValid m) (get_info : ℕ → HResult × ℕ) where
  -- A removal that finds the object takes its entry away and releases it once. `GetItem` then has no
  -- item for the GUID of that entry, and answers as before for every other GUID.
  pub get_item-remove_item :
      (p i : ℕ) (e : StoredItem)
      → index_key item_of m.items p ≡ some i
      → get_elem? m.items i ≡ some e
      → (m' : Manager) × (remove_item get_info none m (some p)
          ≡ (s_ok, m', release e.item ∷ notify_sinks m 1))
        × ((k : ℕ)
            → get_item none m' (some k) true
              ≡ (if e.guid == k then (s_false, none, []) else get_item none m (some k) true))
  unfolding remove_item removed_index remove_item_at get_item
  get_item-remove_item p i e at there = (
    record m { items = remove_key guid_of m.items e.guid },
    rw (
      remove_item,
      removed_index,
      at,
      remove_item_at,
      there,
      remove_at-Distinct guid_of m.items i e v.items_distinct there,
    ),
    found,
  )
    where
      found :
          (k : ℕ)
          → get_item none (record m { items = remove_key guid_of m.items e.guid }) (some k) true
            ≡ (if e.guid == k then (s_false, none, []) else get_item none m (some k) true)
      found k = elim (Bool-cases (e.guid == k)) [
        | inl same ↦ rw (find_key-remove_key guid_of m.items e.guid k v.items_distinct, same)
        | inr differ ↦ rw (find_key-remove_key guid_of m.items e.guid k v.items_distinct, differ)
      ]
