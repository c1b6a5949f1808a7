-- ===== src/LangBar/Enum.antt =====
-- The enumerator of language bar items, `langbaritemenum_*`: an index into the manager's items.
use atzc.Prelude.{
  ℕ, zero, suc, ◌+◌, ◌-◌, ◌%◌, ◌^◌, ◌≤◌, ◌<◌, ◌≡◌, refl, ap, inl, inr, Bool, true, false, Option,
  none, some, List, [], ◌∷◌, ◌++◌, arith, leb, ltb, ◌==◌, ◌||◌, not, if◌then◌else◌, length,
  Bool-cases, Option-cases, map, get_elem?, take, drop, drop_all, drop-cons, length-take,
  length-drop, length-map, get_elem?-none, ltb→lt, le→ltb,
}
use atzc.Com.{HResult, s_ok, s_false, e_invalidarg, e_pointer}
use atzc.LangBar.{Manager, StoredItem, Call, add_ref, item_of}

-- The enumerator of `langbar_make_item_enum` starts at 0.
pub record ItemEnum : Type 0 where
  pub index : ℕ

abbrev pub make_item_enum : ItemEnum
make_item_enum = record { index = 0 }

-- The loop of `langbaritemenum_Next` with room for `n` more items: the new index, and the items.
pub fetch : List StoredItem → ℕ → ℕ → ℕ × List ℕ
fetch items index zero = (index, [])
fetch items index (suc n) = elim (get_elem? items index) [
  | none ↦ (index, [])
  | some e ↦ let (j, rest) = fetch items (index + 1) n in (j, e.item ∷ rest)
]

pub next : Manager → ItemEnum → ℕ → Bool → HResult × ItemEnum × List ℕ × List Call
next m e count pp_item =
    let (j, fetched) = fetch m.items e.index count in
    if not pp_item || count == 0 then (e_invalidarg, e, [], []) else (
      if length fetched == 0 then s_false else s_ok,
      record { index = j },
      fetched,
      map add_ref fetched,
    )

pub reset : ItemEnum → HResult × ItemEnum
reset e = (s_ok, record { index = 0 })

-- The index and the count are ULONGs, and so is their sum.
pub skip : Manager → ItemEnum → ℕ → HResult × ItemEnum
skip m e count =
    let target = (e.index + count) % 2 ^ 32 in
    if ltb (length m.items) target then (s_false, e) else (s_ok, record { index = target })

pub clone_enum : ItemEnum → Bool → HResult × Option ItemEnum
clone_enum e pp_enum = if pp_enum then (s_ok, some e) else (e_pointer, none)

-- At the end of the items the loop stops.
fetch-none :
    (items : List StoredItem) (index n : ℕ)
    → get_elem? items index ≡ none
    → fetch items index n ≡ (index, [])
unfolding fetch
fetch-none items index zero h = refl
fetch-none items index (suc n) h = rw (fetch, h)

-- Inside, it takes one item and goes on.
fetch-some :
    (items : List StoredItem) (index n : ℕ) {e : StoredItem}
    → get_elem? items index ≡ some e
    → fetch items index (suc n)
      ≡ ((fetch items (index + 1) n).0, e.item ∷ (fetch items (index + 1) n).1)
unfolding fetch
fetch-some items index n h = rw (fetch, h)

-- The loop returns `n` items from an index on, or those that are there.
fetch_lem :
    (items : List StoredItem) (index n : ℕ)
    → fetch items index n
      ≡ (index + length (take n (drop index items)), map item_of (take n (drop index items)))
unfolding fetch
fetch_lem items index zero = ap (λ i. (i, [])) (omega arith)
fetch_lem items index (suc n) = elim (Bool-cases (ltb index (length items))) [
  | inl inside ↦
      let (x, e, d) = drop-cons index items (ltb→lt _ _ inside) in
      let step : index + 1 + length (take n (drop (index + 1) items))
          ≡ index + suc (length (take n (drop (index + 1) items))) =
        omega arith in
      let same : suc index ≡ index + 1 = omega arith in
      rw (fetch-some items index n e, fetch_lem items (index + 1) n, d, same, step)
  | inr past ↦
      let gone : get_elem? items index ≡ none = get_elem?-none items index (ground arith) in
      rw (fetch-none items index (suc n) gone, drop_all index items (ground arith)) (ground arith)
]

fetch-fetch :
    (items : List StoredItem) (index n k j : ℕ)
    → n + k ≡ j
    → fetch items index j ≡ (
      (fetch items (fetch items index n).0 k).0,
      (fetch items index n).1 ++ (fetch items (fetch items index n).0 k).1,
    )
unfolding fetch
fetch-fetch items index zero k j h = ap (fetch items index) (omega arith)
fetch-fetch items index (suc n) k zero h = absurd (omega arith)
fetch-fetch items index (suc n) k (suc j) h = elim (Option-cases (get_elem? items index)) [
  | inl out ↦ rw (
    fetch-none items index (suc n) out,
    fetch-none items index (suc j) out,
    fetch-none items index k out,
  )
  | inr (e, there) ↦ rw (
    fetch-some items index n there,
    fetch-some items index j there,
    fetch-fetch items (index + 1) n k j (omega arith),
  )
]

-- `Next` with an array and a count other than 0.
next-fetch :
    (m : Manager) (e : ItemEnum) (count : ℕ)
    → 0 < count
    → next m e count true ≡ (
      if length (fetch m.items e.index count).1 == 0 then s_false else s_ok,
      record { index = (fetch m.items e.index count).0 },
      (fetch m.items e.index count).1,
      map add_ref (fetch m.items e.index count).1,
    )
unfolding next
next-fetch m e count h =
    let some_wanted : (count == 0) ≡ false = ground arith in rw (next, some_wanted)

-- `Next` returns the items from the enumerator's place on, as many as are asked for or are left, in
-- their order, with a reference to each. It answers S_FALSE where none is left.
pub next_lem :
    (m : Manager) (e : ItemEnum) (count : ℕ)
    → 0 < count
    → let items = map item_of (take count (drop e.index m.items)) in
      next m e count true ≡ (
        if leb (length m.items) e.index then s_false else s_ok,
        record { index = e.index + length items },
        items,
        map add_ref items,
      )
next_lem m e count h =
    let items : List StoredItem = take count (drop e.index m.items) in
    let measure : length (map item_of items) ≡ length items = length-map item_of items in
    let how_many = length-take count (drop e.index m.items) in
    let left = length-drop e.index m.items in
    let status : (length items == 0) ≡ leb (length m.items) e.index = ground arith in
    rw (next-fetch m e count h, fetch_lem m.items e.index count, measure, status)

-- Two calls of `Next` return together what one call for as many items returns, and leave the
-- enumerator at the same place.
pub next-next :
    (m : Manager) (e : ItemEnum) (n k : ℕ)
    → 0 < n
    → 0 < k
    → ((next m e (n + k) true).1 ≡ (next m (next m e n true).1 k true).1)
      × ((next m e (n + k) true).2 ≡ (next m e n true).2 ++ (next m (next m e n true).1 k true).2)
next-next m e n k h l =
    rw
      (
        next-fetch m e (n + k) (omega arith),
        next-fetch m e n h,
        next-fetch m (record { index = (fetch m.items e.index n).0 }) k l,
        fetch-fetch m.items e.index n k (n + k) refl,
      )
      (refl, refl)

-- A skip that stays among the items, by a count that the sum of ULONGs can hold, is a `Next` whose
-- items are not looked at.
pub skip-next :
    (m : Manager) (e : ItemEnum) (count : ℕ)
    → 0 < count
    → e.index + count ≤ length m.items
    → length m.items < 2 ^ 32
    → skip m e count ≡ ((next m e count true).0, (next m e count true).1)
unfolding skip
skip-next m e count h k b =
    let items : List StoredItem = take count (drop e.index m.items) in
    let measure : length (map item_of items) ≡ length items = length-map item_of items in
    let how_many : length items ≡ count =
      omega (arith, length-take count (drop e.index m.items), length-drop e.index m.items) in
    let some_left : leb (length m.items) e.index ≡ false = ground arith in
    let target : (e.index + count) % 2 ^ 32 ≡ e.index + count = omega arith in
    rw (next_lem m e count h, measure, how_many, some_left, target, le→ltb _ _ k)

-- The sum of index and count wraps: a skip by a count near 2^32 answers S_OK and moves the
-- enumerator back.
pub skip_wrap :
    (m : Manager) (e : ItemEnum) (back : ℕ)
    → 0 < back
    → back ≤ e.index
    → e.index ≤ length m.items
    → length m.items < 2 ^ 32
    → skip m e (2 ^ 32 - back) ≡ (s_ok, record { index = e.index - back })
unfolding skip
skip_wrap m e back h k l b =
    let target : (e.index + (2 ^ 32 - back)) % 2 ^ 32 ≡ e.index - back = omega arith in
    rw (target, le→ltb (length m.items) (e.index - back) (omega arith))
