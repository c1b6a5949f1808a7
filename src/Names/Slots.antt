-- ===== src/Names/Slots.antt =====
-- The names remembered for handles.
use atzc.Prelude.{
  ℕ, zero, suc, ◌<◌, ◌≡◌, ◌≢◌, inl, inr, false, none, some, List, [], ◌∷◌, arith, ◌==◌, length,
  take, set, Bool-cases, Option-cases, ==_refl, get_elem?,
}
use atzc.Prelude.Table.{index_key, Absent}
use atzc.Names.{Slot, handle_of, chosen_slot, remember_map_name, lookup_map_name}

-- In front of the index that is found, no slot has the handle.
before_index :
    (slots : List Slot) (h i : ℕ)
    → index_key handle_of slots h ≡ some i
    → Absent handle_of h (take i slots) × (i < length slots)
unfolding index_key
before_index [] h i e = absurd (cc)
before_index (s ∷ ss) h zero e = (tt, omega arith)
before_index (s ∷ ss) h (suc i) e = elim (Bool-cases (s.handle == h)) [
  | inl hit ↦ absurd (ground arith)
  | inr miss ↦ elim (Option-cases (index_key handle_of ss h)) [
    | inl gone ↦ absurd (ground arith)
    | inr (j, found) ↦
        let (p, q) = before_index ss h i (ground arith) in ((ground arith, p), omega (arith, q))
  ]
]

-- Where no index is found, no slot has the handle.
nowhere :
    (slots : List Slot) (h i : ℕ)
    → index_key handle_of slots h ≡ none
    → Absent handle_of h (take i slots)
unfolding index_key
nowhere slots h zero e = tt
nowhere [] h (suc i) e = tt
nowhere (s ∷ ss) h (suc i) e = elim (Bool-cases (s.handle == h)) [
  | inl hit ↦ absurd (ground arith)
  | inr miss ↦ elim (Option-cases (index_key handle_of ss h)) [
    | inl gone ↦ (ground arith, nowhere ss h i gone)
    | inr (j, found) ↦ absurd (ground arith)
  ]
]

-- What is found after a slot has been written that no slot of the handle precedes.
lookup-set :
    (slots : List Slot) (i h : ℕ) (name : List ℕ)
    → i < length slots
    → Absent handle_of h (take i slots)
    → lookup_map_name (set slots i (record { handle = h; name = name })) h ≡ some name
unfolding lookup_map_name
lookup-set [] i h name k e = absurd (omega arith)
lookup-set (s ∷ ss) zero h name k e = rw (==_refl h)
lookup-set (s ∷ ss) (suc i) h name k e =
    let miss : (s.handle == h) ≡ false = ground (arith, e.0) in
    rw (miss, lookup-set ss i h name (omega arith) e.1)

-- The slot that is taken is there, and no slot of the handle precedes it.
chosen_slot_lem :
    (slots : List Slot) (h : ℕ)
    → 0 < length slots
    → (chosen_slot slots h < length slots) × Absent handle_of h (take (chosen_slot slots h) slots)
unfolding chosen_slot
chosen_slot_lem slots h k = elim (Option-cases (index_key handle_of slots h)) [
  | inr (i, known) ↦ let (p, q) = before_index slots h i known in rw (chosen_slot, known) (q, p)
  | inl new ↦ elim (Option-cases (index_key handle_of slots 0)) [
    | inr (i, free) ↦
        let (p, q) = before_index slots 0 i free in
        rw (chosen_slot, new, free) (q, nowhere slots h i new)
    | inl full ↦ rw (chosen_slot, new, full) (k, tt)
  ]
]

-- A name that is remembered for a handle is the one that is looked up for it, cut to 127 units,
-- whether the handle had a slot, took a free one, or pushed out the first.
pub lookup_map_name-remember_map_name :
    (slots : List Slot) (h : ℕ) (name : List ℕ)
    → 0 < length slots
    → h ≢ 0
    → lookup_map_name (remember_map_name slots h (some name)) h ≡ some (take 127 name)
unfolding remember_map_name
lookup_map_name-remember_map_name slots h name k e =
    let real : (h == 0) ≡ false = ground arith in
    let (p, q) = chosen_slot_lem slots h k in
    rw real (lookup-set slots (chosen_slot slots h) h (take 127 name) p q)

keep :
    (slots : List Slot) (i h k : ℕ) (name : List ℕ) (s : Slot)
    → get_elem? slots i ≡ some s
    → s.handle ≢ k
    → h ≢ k
    → lookup_map_name (set slots i (record { handle = h; name = name })) k ≡ lookup_map_name slots k
unfolding lookup_map_name
keep [] i h k name s at apart differ = absurd (cc)
keep (x ∷ xs) zero h k name s at apart differ =
    let same : x ≡ s = cc in
    let old : (x.handle == k) ≡ false = rw same (ground (arith, apart)) in
    let new : (h == k) ≡ false = ground arith in rw (old, new)
keep (x ∷ xs) (suc i) h k name s at apart differ = rw (keep xs i h k name s at apart differ)

-- Another handle keeps its name, unless it held the slot that is taken.
pub lookup_map_name_other :
    (slots : List Slot) (h k : ℕ) (name : List ℕ) (s : Slot)
    → get_elem? slots (chosen_slot slots h) ≡ some s
    → s.handle ≢ k
    → h ≢ k
    → lookup_map_name (remember_map_name slots h (some name)) k ≡ lookup_map_name slots k
unfolding remember_map_name
lookup_map_name_other slots h k name s at apart differ = elim (Bool-cases (h == 0)) [
  | inl nothing ↦ rw nothing
  | inr real ↦ rw real (keep slots (chosen_slot slots h) h k (take 127 name) s at apart differ)
]
