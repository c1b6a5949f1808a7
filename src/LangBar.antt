-- ===== src/LangBar.antt =====
-- engine/native/MsctfShim/MsctfShim.c, `langbar_*`, `langbaritemmgr_*` and `langbaritemenum_*`: the
-- manager of language bar items that the shim answers with when the system has none, and its
-- enumerator. Objects are numbers, and so are GUIDs. A NULL pointer is `none`, and an out pointer
-- is a Boolean that says whether it is there.
pub mod Valid
pub mod Items
pub mod Sinks
pub mod Balance
pub mod Enum
mod Tests
use atzc.Prelude.{
  ℕ, ◌+◌, ◌%◌, ◌^◌, Bool, true, false, not, ◌&&◌, ◌||◌, Option, none, some, List, [], ◌∷◌, ◌++◌,
  ltb, leb, ◌==◌, if◌then◌else◌, ◌>>=◌, length, get_elem?, map, take,
}
use atzc.Prelude.Table.{find_key, remove_key, index_key, remove_at}
use atzc.Com.{HResult, s_ok, s_false, e_invalidarg, e_pointer, e_outofmemory, is_ok}

abbrev pub item_max : ℕ
item_max = 64

abbrev pub sink_max : ℕ
sink_max = 16

pub record StoredItem : Type 0 where
  pub item : ℕ
  pub guid : ℕ

pub record SinkEntry : Type 0 where
  pub sink : ℕ
  pub guid : ℕ
  pub cookie : ℕ

-- The lists hold the used entries of the arrays.
pub record Manager : Type 0 where
  pub items : List StoredItem
  pub sinks : List SinkEntry
  pub next_sink_cookie : ℕ

-- The calls that a handler makes on items and sinks.
pub data Call : Type 0 where
  add_ref release : ℕ → Call
  on_update : ℕ → ℕ → Call

-- The manager of `make_langbaritemmgr`.
pub make_manager : Manager
make_manager = record { items = []; sinks = []; next_sink_cookie = 1 }

abbrev pub item_of : StoredItem → ℕ
item_of e = e.item

abbrev pub guid_of : StoredItem → ℕ
guid_of e = e.guid

abbrev pub cookie_of : SinkEntry → ℕ
cookie_of e = e.cookie

abbrev pub notify_sinks : Manager → ℕ → List Call
notify_sinks m flags = map (λ e. on_update e.sink flags) m.sinks

abbrev pub find_item_by_guid : Manager → Option ℕ → Option ℕ
find_item_by_guid m none = none
find_item_by_guid m (some k) = do e ← find_key guid_of m.items k; some e.item

abbrev pub find_item_index_by_ptr : Manager → Option ℕ → Option ℕ
find_item_index_by_ptr m none = none
find_item_index_by_ptr m (some p) = index_key item_of m.items p

abbrev pub find_item_index_by_guid : Manager → ℕ → Option ℕ
find_item_index_by_guid m k = index_key guid_of m.items k

pub remove_item_at : Manager → ℕ → Manager × List Call
remove_item_at m index = elim (get_elem? m.items index) [
  | none ↦ (m, [])
  | some e ↦ (record m { items = remove_at m.items index }, release e.item ∷ [])
]

-- `orig` is what the wrapped manager answers, if there is one: then the call is only passed on.
pub get_item :
    Option (HResult × Option ℕ) → Manager → Option ℕ → Bool → HResult × Option ℕ × List Call
get_item orig m rguid pp_item = if not pp_item then (e_pointer, none, []) else elim orig [
  | some (hr, found) ↦ (hr, found, [])
  | none ↦ elim (find_item_by_guid m rguid) [
    | none ↦ (s_false, none, [])
    | some p ↦ (s_ok, some p, add_ref p ∷ [])
  ]
]

-- The status and the GUID that an item gives in `GetInfo`.
module _ (get_info : ℕ → HResult × ℕ) where
  pub add_item : Option HResult → Manager → Option ℕ → HResult × Manager × List Call
  add_item (some hr) m punk = (hr, m, [])
  add_item none m none = (e_invalidarg, m, [])
  add_item none m (some p) =
      let (hr, guid) = get_info p in
      let m' : Manager = record m { items = m.items ++ record { item = p; guid = guid } ∷ [] } in
      if leb item_max (length m.items)
      then (e_outofmemory, m, [])
      else if not (is_ok hr)
      then (hr, m, [])
      else elim (find_key guid_of m.items guid) [
        | some e ↦ (s_ok, m, [])
        | none ↦ (s_ok, m', add_ref p ∷ notify_sinks m' 1)
      ]

  -- The index that `langbaritemmgr_RemoveItem` finds: by the object, or else by its GUID.
  pub removed_index : Manager → Option ℕ → Option ℕ
  removed_index m none = none
  removed_index m (some p) = elim (find_item_index_by_ptr m (some p)) [
    | some i ↦ some i
    | none ↦
        let (hr, guid) = get_info p in if is_ok hr then find_item_index_by_guid m guid else none
  ]

  pub remove_item : Option HResult → Manager → Option ℕ → HResult × Manager × List Call
  remove_item (some hr) m punk = (hr, m, [])
  remove_item none m punk = elim (removed_index m punk) [
    | none ↦ (e_invalidarg, m, [])
    | some i ↦ let (m', calls) = remove_item_at m i in (s_ok, m', calls ++ notify_sinks m' 1)
  ]

-- What an item leaves as its status in `GetStatus`.
module _ (get_status : ℕ → ℕ) where
  abbrev status_of : Manager → ℕ → ℕ
  status_of m g = elim (find_item_by_guid m (some g)) [ none ↦ 0 | some p ↦ get_status p ]

  -- `prgguid` is the array of `ulCount` GUIDs.
  pub get_items_status :
      Option (HResult × List ℕ) → Manager → ℕ → Option (List ℕ) → Bool → HResult × List ℕ
  get_items_status (some r) m count prgguid pdw_status = r
  get_items_status none m count prgguid pdw_status =
      if not pdw_status then (e_pointer, []) else elim prgguid [
        | none ↦ (if count == 0 then s_ok else e_pointer, [])
        | some guids ↦ (s_ok, map (status_of m) guids)
      ]

module _ (get_info : ℕ → HResult × ℕ) (get_status : ℕ → ℕ) where
  -- The items fetched, with their `GetInfo` and their status where the caller asks for them.
  pub get_items :
      Option (HResult × List ℕ × List (HResult × ℕ) × List ℕ)
      → Manager
      → ℕ
      → Bool
      → Bool
      → Bool
      → HResult × List ℕ × List (HResult × ℕ) × List ℕ × List Call
  get_items (some (hr, items, infos, status)) m count pp_item p_info pdw_status =
      (hr, items, infos, status, [])
  get_items none m count pp_item p_info pdw_status =
      let fetched = map item_of (take count m.items) in
      if count == 0
      then (s_ok, [], [], [], [])
      else if not pp_item
      then (e_pointer, [], [], [], [])
      else (
        if length fetched == 0 then s_false else s_ok,
        fetched,
        if p_info then map get_info fetched else [],
        if pdw_status then map get_status fetched else [],
        map add_ref fetched,
      )

pub get_item_num : Option (HResult × ℕ) → Manager → HResult × ℕ
get_item_num (some r) m = r
get_item_num none m = (s_ok, length m.items)

-- The last component is the cookie that is written.
pub advise_item_sink :
    Option (HResult × Option ℕ)
    → Manager
    → Option ℕ
    → Bool
    → Option ℕ
    → HResult × Manager × List Call × Option ℕ
advise_item_sink (some (hr, cookie)) m punk pdw_cookie rguid = (hr, m, [], cookie)
advise_item_sink none m (some p) true (some guid) =
    let cookie = if m.next_sink_cookie == 0 then 1 else m.next_sink_cookie in
    let entry : SinkEntry = record { sink = p; guid = guid; cookie = cookie } in
    if leb sink_max (length m.sinks) then (e_outofmemory, m, [], none) else (
      s_ok,
      record m { sinks = m.sinks ++ entry ∷ []; next_sink_cookie = (cookie + 1) % 2 ^ 32 },
      add_ref p ∷ [],
      some cookie,
    )
advise_item_sink none m punk pdw_cookie rguid = (e_invalidarg, m, [], none)

pub unadvise_item_sink : Option HResult → Manager → ℕ → HResult × Manager × List Call
unadvise_item_sink (some hr) m cookie = (hr, m, [])
unadvise_item_sink none m cookie = elim (find_key cookie_of m.sinks cookie) [
  | none ↦ (e_invalidarg, m, [])
  | some e ↦ (s_ok, record m { sinks = remove_key cookie_of m.sinks cookie }, release e.sink ∷ [])
]

-- The loop of `langbaritemmgr_AdviseItemsSink`: the first failure ends it, and what was advised
-- before stays. The last component is the cookies that are written.
pub advise_each : Manager → List (Option ℕ × ℕ) → HResult × Manager × List Call × List ℕ
advise_each m [] = (s_ok, m, [], [])
advise_each m ((punk, guid) ∷ rest) =
    let (hr, m', calls, cookie) = advise_item_sink none m punk true (some guid) in
    let written : List ℕ = elim cookie [ none ↦ [] | some c ↦ c ∷ [] ] in
    let (hr', m'', calls', cookies) = advise_each m' rest in
    if is_ok hr then (hr', m'', calls ++ calls', written ++ cookies) else (hr, m', calls, written)

pub advise_items_sink :
    Option (HResult × List ℕ)
    → Manager
    → Option (List (Option ℕ × ℕ))
    → HResult × Manager × List Call × List ℕ
advise_items_sink (some (hr, cookies)) m sinks = (hr, m, [], cookies)
advise_items_sink none m none = (e_invalidarg, m, [], [])
advise_items_sink none m (some []) = (e_invalidarg, m, [], [])
advise_items_sink none m (some (s ∷ rest)) = advise_each m (s ∷ rest)

pub unadvise_each : Manager → List ℕ → HResult × Manager × List Call
unadvise_each m [] = (s_ok, m, [])
unadvise_each m (cookie ∷ rest) =
    let (hr, m', calls) = unadvise_item_sink none m cookie in
    let (hr', m'', calls') = unadvise_each m' rest in
    if is_ok hr then (hr', m'', calls ++ calls') else (hr, m', calls)

pub unadvise_items_sink : Option HResult → Manager → Option (List ℕ) → HResult × Manager × List Call
unadvise_items_sink (some hr) m cookies = (hr, m, [])
unadvise_items_sink none m none = (e_invalidarg, m, [])
unadvise_items_sink none m (some []) = (e_invalidarg, m, [])
unadvise_items_sink none m (some (c ∷ rest)) = unadvise_each m (c ∷ rest)
