-- ===== src/LangBar/Valid.antt =====
-- The invariant of the language bar manager, and the states that its operations reach.
use atzc.Prelude.{
  ℕ, ◌+◌, ◌%◌, ◌^◌, ◌≤◌, ◌<◌, ◌≡◌, sym, inl, inr, Bool, true, false, Option, none, some, List, [],
  ◌∷◌, ◌++◌, arith, leb, ◌==◌, if◌then◌else◌, length, All, Bool-cases, Option-cases, length-append,
  get_elem?,
}
use mathlib.Core.Path.{subst}
use atzc.Prelude.Table.{
  find_key, remove_key, Distinct, Absent, find_key-Absent, Distinct-append, Distinct-remove_key,
  length-remove_key, remove_at-Distinct, find_key-Distinct,
}
use atzc.Com.{HResult, is_ok}
use atzc.LangBar.{
  Manager, StoredItem, SinkEntry, item_max, sink_max, guid_of, cookie_of, make_manager, add_item,
  remove_item, remove_item_at, removed_index, advise_item_sink, unadvise_item_sink,
}

pub record IsValid (m : Manager) : Type 0 where
  pub items_distinct : Distinct guid_of m.items
  pub items_fit : length m.items ≤ item_max
  pub sinks_distinct : Distinct cookie_of m.sinks
  pub sinks_fit : length m.sinks ≤ sink_max
  pub cookies_below : All (λ e. cookie_of e < m.next_sink_cookie) m.sinks
  pub next_positive : 0 < m.next_sink_cookie

-- One call of a handler that changes the manager.
pub data Step (get_info : ℕ → HResult × ℕ) (m m' : Manager) : Type 0 where
  add : (punk : Option ℕ) → m' ≡ (add_item get_info none m punk).1 → Step get_info m m'
  remove : (punk : Option ℕ) → m' ≡ (remove_item get_info none m punk).1 → Step get_info m m'
  advise :
      (punk : Option ℕ) (pdw_cookie : Bool) (rguid : Option ℕ)
      → m.next_sink_cookie + 1 < 2 ^ 32
      → m' ≡ (advise_item_sink none m punk pdw_cookie rguid).1
      → Step get_info m m'
  unadvise : (cookie : ℕ) → m' ≡ (unadvise_item_sink none m cookie).1 → Step get_info m m'

pub data Reach (get_info : ℕ → HResult × ℕ) (m : Manager) : Manager → Type 0 where
  here : Reach get_info m m
  next : {n o : Manager} → Reach get_info m n → Step get_info n o → Reach get_info m o

pub make_manager-IsValid : IsValid make_manager
unfolding make_manager
make_manager-IsValid = record {
  items_distinct = tt;
  items_fit = omega arith;
  sinks_distinct = tt;
  sinks_fit = omega arith;
  cookies_below = tt;
  next_positive = omega arith;
}

-- A bound on every cookie, under a larger bound and with one entry more or less.
All-weaken :
    (es : List SinkEntry) (a b : ℕ)
    → a ≤ b
    → All (λ e. cookie_of e < a) es
    → All (λ e. cookie_of e < b) es
All-weaken [] a b h p = tt
All-weaken (e ∷ es) a b h p = (omega (arith, p.0), All-weaken es a b h p.1)

All-snoc :
    (es : List SinkEntry) (e : SinkEntry) (a : ℕ)
    → All (λ e. cookie_of e < a) es
    → cookie_of e < a
    → All (λ e. cookie_of e < a) (es ++ e ∷ [])
All-snoc [] e a p h = (h, tt)
All-snoc (x ∷ es) e a p h = (p.0, All-snoc es e a p.1 h)

All-remove_key :
    (es : List SinkEntry) (k a : ℕ)
    → All (λ e. cookie_of e < a) es
    → All (λ e. cookie_of e < a) (remove_key cookie_of es k)
unfolding remove_key
All-remove_key [] k a p = tt
All-remove_key (e ∷ es) k a p = elim (Bool-cases (cookie_of e == k)) [
  | inl hit ↦ rw hit p.1
  | inr miss ↦ rw miss (p.0, All-remove_key es k a p.1)
]

-- No cookie below the counter is the counter.
pub below-Absent :
    (es : List SinkEntry) (k : ℕ) → All (λ e. cookie_of e < k) es → Absent cookie_of k es
below-Absent [] k p = tt
below-Absent (e ∷ es) k p = (omega (arith, p.0), below-Absent es k p.1)

module _ {m : Manager} (v : IsValid m) where
  pub added-IsValid :
      (p g : ℕ)
      → length m.items < item_max
      → find_key guid_of m.items g ≡ none
      → IsValid (record m { items = m.items ++ record { item = p; guid = g } ∷ [] })
  added-IsValid p g h e = record {
    items_distinct =
        Distinct-append guid_of m.items (record { item = p; guid = g }) v.items_distinct
          (find_key-Absent guid_of m.items g e);
    items_fit = omega (arith, length-append m.items (record { item = p; guid = g } ∷ []));
    sinks_distinct = v.sinks_distinct;
    sinks_fit = v.sinks_fit;
    cookies_below = v.cookies_below;
    next_positive = v.next_positive;
  }

  pub removed-IsValid :
      (g : ℕ) {e : StoredItem}
      → find_key guid_of m.items g ≡ some e
      → IsValid (record m { items = remove_key guid_of m.items g })
  removed-IsValid g {e} h = record {
    items_distinct = Distinct-remove_key guid_of m.items g v.items_distinct;
    items_fit = omega (arith, v.items_fit, length-remove_key guid_of m.items g {x = e} h);
    sinks_distinct = v.sinks_distinct;
    sinks_fit = v.sinks_fit;
    cookies_below = v.cookies_below;
    next_positive = v.next_positive;
  }

  pub advised-IsValid :
      (p g : ℕ)
      → length m.sinks < sink_max
      → m.next_sink_cookie + 1 < 2 ^ 32
      → IsValid (record m {
        sinks = m.sinks ++ record { sink = p; guid = g; cookie = m.next_sink_cookie } ∷ [];
        next_sink_cookie = m.next_sink_cookie + 1;
      })
  advised-IsValid p g h b =
      let entry : SinkEntry = record { sink = p; guid = g; cookie = m.next_sink_cookie } in
      record {
        items_distinct = v.items_distinct;
        items_fit = v.items_fit;
        sinks_distinct =
            Distinct-append cookie_of m.sinks entry v.sinks_distinct
              (below-Absent m.sinks m.next_sink_cookie v.cookies_below);
        sinks_fit = omega (arith, length-append m.sinks (entry ∷ []));
        cookies_below =
            All-snoc m.sinks entry (m.next_sink_cookie + 1)
              (All-weaken m.sinks m.next_sink_cookie (m.next_sink_cookie + 1) (omega arith)
                v.cookies_below)
              (omega arith);
        next_positive = omega arith;
      }

  pub unadvised-IsValid :
      (cookie : ℕ) {e : SinkEntry}
      → find_key cookie_of m.sinks cookie ≡ some e
      → IsValid (record m { sinks = remove_key cookie_of m.sinks cookie })
  unadvised-IsValid cookie {e} h = record {
    items_distinct = v.items_distinct;
    items_fit = v.items_fit;
    sinks_distinct = Distinct-remove_key cookie_of m.sinks cookie v.sinks_distinct;
    sinks_fit = omega (arith, v.sinks_fit, length-remove_key cookie_of m.sinks cookie {x = e} h);
    cookies_below = All-remove_key m.sinks cookie m.next_sink_cookie v.cookies_below;
    next_positive = v.next_positive;
  }

  add_item-IsValid :
      (get_info : ℕ → HResult × ℕ) (punk : Option ℕ) → IsValid (add_item get_info none m punk).1
  unfolding add_item
  add_item-IsValid get_info none = v
  add_item-IsValid get_info (some p) = elim (Bool-cases (leb item_max (length m.items))) [
    | inl full ↦ rw full v
    | inr room ↦ elim (Bool-cases (is_ok (get_info p).0)) [
      | inr bad ↦ rw (room, bad) v
      | inl ok ↦ elim (Option-cases (find_key guid_of m.items (get_info p).1)) [
        | inr (e, known) ↦ rw (room, ok, known) v
        | inl new ↦ rw (room, ok, new) (added-IsValid p (get_info p).1 (ground arith) new)
      ]
    ]
  ]

  remove_item_at-IsValid : (i : ℕ) → IsValid (remove_item_at m i).0
  unfolding remove_item_at
  remove_item_at-IsValid i = elim (Option-cases (get_elem? m.items i)) [
    | inl out ↦ rw (remove_item_at, out) v
    | inr (e, there) ↦
        rw (remove_item_at, there, remove_at-Distinct guid_of m.items i e v.items_distinct there)
          (removed-IsValid (guid_of e) {e = e}
            (find_key-Distinct guid_of m.items i e v.items_distinct there))
  ]

  remove_item-IsValid :
      (get_info : ℕ → HResult × ℕ) (punk : Option ℕ) → IsValid (remove_item get_info none m punk).1
  unfolding remove_item
  remove_item-IsValid get_info punk = elim (Option-cases (removed_index get_info m punk)) [
    | inl out ↦ rw (remove_item, out) v
    | inr (i, there) ↦ rw (remove_item, there) (remove_item_at-IsValid i)
  ]

  advise_item_sink-IsValid :
      (punk : Option ℕ) (pdw_cookie : Bool) (rguid : Option ℕ)
      → m.next_sink_cookie + 1 < 2 ^ 32
      → IsValid (advise_item_sink none m punk pdw_cookie rguid).1
  unfolding advise_item_sink
  advise_item_sink-IsValid none b rguid h = v
  advise_item_sink-IsValid (some p) false rguid h = v
  advise_item_sink-IsValid (some p) true none h = v
  advise_item_sink-IsValid (some p) true (some g) h =
      elim (Bool-cases (leb sink_max (length m.sinks))) [
        | inl full ↦ rw full v
        | inr room ↦
            let counter : (if m.next_sink_cookie == 0 then 1 else m.next_sink_cookie)
                ≡ m.next_sink_cookie =
              ground (arith, v.next_positive) in
            let step : (m.next_sink_cookie + 1) % 2 ^ 32 ≡ m.next_sink_cookie + 1 = omega arith in
            rw (room, counter, step) (advised-IsValid p g (ground arith) h)
      ]

  unadvise_item_sink-IsValid : (cookie : ℕ) → IsValid (unadvise_item_sink none m cookie).1
  unfolding unadvise_item_sink
  unadvise_item_sink-IsValid cookie = elim (Option-cases (find_key cookie_of m.sinks cookie)) [
    | inl out ↦ rw (unadvise_item_sink, out) v
    | inr (e, there) ↦ rw (unadvise_item_sink, there) (unadvised-IsValid cookie {e = e} there)
  ]

  Step-IsValid : (get_info : ℕ → HResult × ℕ) {m' : Manager} → Step get_info m m' → IsValid m'
  Step-IsValid get_info (Step.add punk e) = subst IsValid (sym e) (add_item-IsValid get_info punk)
  Step-IsValid get_info (Step.remove punk e) =
      subst IsValid (sym e) (remove_item-IsValid get_info punk)
  Step-IsValid get_info (Step.advise punk b rguid h e) =
      subst IsValid (sym e) (advise_item_sink-IsValid punk b rguid h)
  Step-IsValid get_info (Step.unadvise cookie e) =
      subst IsValid (sym e) (unadvise_item_sink-IsValid cookie)

-- In every state that a new manager reaches, the items have different GUIDs and the sinks different
-- cookies, neither array overflows and every cookie is below the counter, as long as no sink is
-- advised once the counter has reached 2^32 - 1.
pub Reach_make_manager-IsValid :
    (get_info : ℕ → HResult × ℕ) (m : Manager) → Reach get_info make_manager m → IsValid m
Reach_make_manager-IsValid get_info m here = make_manager-IsValid
Reach_make_manager-IsValid get_info m (next {n = n} r s) =
    Step-IsValid (Reach_make_manager-IsValid get_info n r) get_info s
