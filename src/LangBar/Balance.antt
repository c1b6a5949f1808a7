-- ===== src/LangBar/Balance.antt =====
-- The references that the language bar manager takes and gives back.
use atzc.Prelude.{
  ℕ, zero, suc, ◌+◌, ◌≡◌, refl, inl, inr, Bool, true, false, Option, none, some, List, [], ◌∷◌,
  ◌++◌, arith, leb, ◌==◌, if◌then◌else◌, length, Bool-cases, Option-cases, get_elem?, map,
}
use atzc.Prelude.Table.{find_key, remove_key, remove_at}
use atzc.Com.{HResult, is_ok}
use atzc.LangBar.{
  Manager, SinkEntry, Call, add_ref, release, on_update, item_max, sink_max, guid_of, cookie_of,
  make_manager, add_item, remove_item, remove_item_at, removed_index, advise_item_sink,
  unadvise_item_sink, notify_sinks,
}

-- How many entries satisfy a test.
abbrev pub count : {A : Type 0} → (A → Bool) → List A → ℕ
count p [] = 0
count p (x ∷ xs) = (if p x then 1 else 0) + count p xs

abbrev pub takes : ℕ → Call → Bool
takes x (add_ref y) = y == x
takes x _ = false

abbrev pub gives : ℕ → Call → Bool
gives x (release y) = y == x
gives x _ = false

-- The entries of the manager that hold a reference to the object `x`.
abbrev pub held : Manager → ℕ → ℕ
held m x = count (λ e. e.item == x) m.items + count (λ e. e.sink == x) m.sinks

-- The managers that a new one becomes, with the calls made on the way.
pub data Run (get_info : ℕ → HResult × ℕ) : Manager → List Call → Type 0 where
  start : Run get_info make_manager []
  add :
      {m : Manager} {calls : List Call} (punk : Option ℕ)
      → Run get_info m calls
      → Run get_info (add_item get_info none m punk).1 (calls ++ (add_item get_info none m punk).2)
  remove :
      {m : Manager} {calls : List Call} (punk : Option ℕ)
      → Run get_info m calls
      → Run get_info
          (remove_item get_info none m punk).1
          (calls ++ (remove_item get_info none m punk).2)
  advise :
      {m : Manager} {calls : List Call} (punk : Option ℕ) (pdw_cookie : Bool) (rguid : Option ℕ)
      → Run get_info m calls
      → Run get_info
          (advise_item_sink none m punk pdw_cookie rguid).1
          (calls ++ (advise_item_sink none m punk pdw_cookie rguid).2)
  unadvise :
      {m : Manager} {calls : List Call} (cookie : ℕ)
      → Run get_info m calls
      → Run get_info
          (unadvise_item_sink none m cookie).1
          (calls ++ (unadvise_item_sink none m cookie).2)

module _ {A : Type 0} (p : A → Bool) where
  count-append : (xs ys : List A) → count p (xs ++ ys) ≡ count p xs + count p ys
  count-append [] ys = omega arith
  count-append (x ∷ xs) ys = omega (arith, count-append xs ys)

  count-remove_at :
      (xs : List A) (i : ℕ) (x : A)
      → get_elem? xs i ≡ some x
      → count p (remove_at xs i) + (if p x then 1 else 0) ≡ count p xs
  count-remove_at [] i x h = absurd (cc)
  count-remove_at (y ∷ xs) zero x h = let e : y ≡ x = cc in rw e (omega arith)
  count-remove_at (y ∷ xs) (suc i) x h = omega (arith, count-remove_at xs i x h)

  count-remove_key :
      (key : A → ℕ) (xs : List A) (k : ℕ) (x : A)
      → find_key key xs k ≡ some x
      → count p (remove_key key xs k) + (if p x then 1 else 0) ≡ count p xs
  unfolding find_key remove_key
  count-remove_key key [] k x h = absurd (cc)
  count-remove_key key (y ∷ xs) k x h = elim (Bool-cases (key y == k)) [
    | inl hit ↦ let e : y ≡ x = ground arith in rw (hit, e) (omega arith)
    | inr miss ↦ rw miss (omega (arith, count-remove_key key xs k x (ground arith)))
  ]

-- Updates take and give no reference.
updates_take : (m : Manager) (x : ℕ) → count (takes x) (notify_sinks m 1) ≡ 0
updates_take m x = go m.sinks
  where
    go : (es : List SinkEntry) → count (takes x) (map (λ e. on_update e.sink 1) es) ≡ 0
    go [] = refl
    go (e ∷ es) = omega (arith, go es)

updates_give : (m : Manager) (x : ℕ) → count (gives x) (notify_sinks m 1) ≡ 0
updates_give m x = go m.sinks
  where
    go : (es : List SinkEntry) → count (gives x) (map (λ e. on_update e.sink 1) es) ≡ 0
    go [] = refl
    go (e ∷ es) = omega (arith, go es)

-- One operation: what it gives back and still holds is what it held and takes.
abbrev Balanced : Manager → Manager → List Call → ℕ → Type 0
Balanced m m' calls x = held m' x + count (gives x) calls ≡ held m x + count (takes x) calls

module _ (get_info : ℕ → HResult × ℕ) (m : Manager) (x : ℕ) where
  add_item-Balanced :
      (punk : Option ℕ)
      → Balanced m (add_item get_info none m punk).1 (add_item get_info none m punk).2 x
  unfolding add_item
  add_item-Balanced none = refl
  add_item-Balanced (some p) = elim (Bool-cases (leb item_max (length m.items))) [
    | inl full ↦ rw full
    | inr room ↦ elim (Bool-cases (is_ok (get_info p).0)) [
      | inr bad ↦ rw (room, bad)
      | inl ok ↦ elim (Option-cases (find_key guid_of m.items (get_info p).1)) [
        | inr (e, known) ↦ rw (room, ok, known)
        | inl fresh ↦
            rw (room, ok, fresh)
              (omega (
                arith,
                updates_take m x,
                updates_give m x,
                count-append (λ e. e.item == x) m.items
                    (record { item = p; guid = (get_info p).1 } ∷ []),
              ))
      ]
    ]
  ]

  remove_item-Balanced :
      (punk : Option ℕ)
      → Balanced m (remove_item get_info none m punk).1 (remove_item get_info none m punk).2 x
  unfolding remove_item remove_item_at
  remove_item-Balanced punk = elim (Option-cases (removed_index get_info m punk)) [
    | inl out ↦ rw (remove_item, out)
    | inr (i, there) ↦ elim (Option-cases (get_elem? m.items i)) [
      | inl nothing ↦
          rw (remove_item, there, remove_item_at, nothing)
            (omega (arith, updates_take m x, updates_give m x))
      | inr (e, found) ↦
          rw (remove_item, there, remove_item_at, found)
            (omega (
              arith,
              updates_take m x,
              updates_give m x,
              count-remove_at (λ e. e.item == x) m.items i e found,
            ))
    ]
  ]

module _ (m : Manager) (x : ℕ) where
  advise_item_sink-Balanced :
      (punk : Option ℕ) (b : Bool) (rguid : Option ℕ)
      → Balanced m
          (advise_item_sink none m punk b rguid).1
          (advise_item_sink none m punk b rguid).2
          x
  unfolding advise_item_sink
  advise_item_sink-Balanced none b rguid = refl
  advise_item_sink-Balanced (some p) false rguid = refl
  advise_item_sink-Balanced (some p) true none = refl
  advise_item_sink-Balanced (some p) true (some g) =
      elim (Bool-cases (leb sink_max (length m.sinks))) [
        | inl full ↦ rw full
        | inr room ↦ rw room (
            omega (
              arith,
              count-append (λ e. e.sink == x) m.sinks
                  (record {
                    sink = p;
                    guid = g;
                    cookie = if m.next_sink_cookie == 0 then 1 else m.next_sink_cookie;
                  }
                    ∷ []),
            ))
      ]

  unadvise_item_sink-Balanced :
      (cookie : ℕ)
      → Balanced m (unadvise_item_sink none m cookie).1 (unadvise_item_sink none m cookie).2 x
  unfolding unadvise_item_sink
  unadvise_item_sink-Balanced cookie = elim (Option-cases (find_key cookie_of m.sinks cookie)) [
    | inl out ↦ rw (unadvise_item_sink, out)
    | inr (e, there) ↦
        rw (unadvise_item_sink, there)
          (omega (arith, count-remove_key (λ e. e.sink == x) cookie_of m.sinks cookie e there))
  ]

-- A balanced operation keeps the balance of the calls so far.
keep_balance :
    (m m' : Manager) (calls more : List Call) (x : ℕ)
    → held m x + count (gives x) calls ≡ count (takes x) calls
    → Balanced m m' more x
    → held m' x + count (gives x) (calls ++ more) ≡ count (takes x) (calls ++ more)
keep_balance m m' calls more x h b =
    omega (arith, h, b, count-append (gives x) calls more, count-append (takes x) calls more)

-- Whatever is added, removed, advised and unadvised: the references that the manager has taken of an
-- object are those that it has given back and those of the entries that still hold the object.
pub Run-balance :
    {get_info : ℕ → HResult × ℕ} {m : Manager} {calls : List Call}
    → Run get_info m calls
    → (x : ℕ) → held m x + count (gives x) calls ≡ count (takes x) calls
unfolding make_manager
Run-balance start x = refl
Run-balance {get_info = get_info} (Run.add {m = m} {calls = calls} punk r) x =
    keep_balance m ((add_item get_info none m punk).1) calls _ x (Run-balance r x)
      (add_item-Balanced get_info m x punk)
Run-balance {get_info = get_info} (Run.remove {m = m} {calls = calls} punk r) x =
    keep_balance m ((remove_item get_info none m punk).1) calls _ x (Run-balance r x)
      (remove_item-Balanced get_info m x punk)
Run-balance (Run.advise {m = m} {calls = calls} punk b rguid r) x =
    keep_balance m ((advise_item_sink none m punk b rguid).1) calls _ x (Run-balance r x)
      (advise_item_sink-Balanced m x punk b rguid)
Run-balance (Run.unadvise {m = m} {calls = calls} cookie r) x =
    keep_balance m ((unadvise_item_sink none m cookie).1) calls _ x (Run-balance r x)
      (unadvise_item_sink-Balanced m x cookie)
