-- ===== src/Source/Valid.antt =====
-- The invariant of a source, and the states that its operations reach.
use atzc.Prelude.{
  ℕ, ◌+◌, ◌%◌, ◌^◌, ◌≤◌, ◌<◌, ◌≡◌, sym, ap, inl, inr, Bool, true, false, Option, none, some, [],
  ◌∷◌, ◌++◌, arith, leb, ◌==◌, length, Bool-cases, Option-cases, length-append, ==_refl,
}
use mathlib.Core.Path.{subst}
use atzc.Prelude.Table.{
  find_key, remove_key, Distinct, Absent, Below, Below-weaken, Below-Absent, All-append,
  All-remove_key, Distinct-append, Distinct-remove_key, length-remove_key_le, remove_key-none,
  find_key-append, find_key-remove_key,
}
use atzc.Source.{
  iid_null, Source, SinkEntry, Owner, release, source_sink_max, cookie_of, fresh_cookie,
  advise_sink, unadvise_sink, drop_entry, drop_first,
}

-- The source of a context, as `ctx_QueryInterface` makes it, or of a thread manager.
abbrev pub make_source : Owner → Source
make_source owner = record {
  sinks = [];
  sink = none;
  sink_iid = iid_null;
  cookie = 0;
  next_cookie = 1;
  owner = owner;
}

pub record IsValid (s : Source) : Type 0 where
  pub sinks_distinct : Distinct cookie_of s.sinks
  pub sinks_fit : length s.sinks ≤ source_sink_max
  pub cookies_below : Below cookie_of s.next_cookie s.sinks
  pub cookie_below : s.cookie < s.next_cookie
  pub first_listed :
      (p : ℕ)
      → s.sink ≡ some p
      → find_key cookie_of s.sinks s.cookie
        ≡ some (record { sink = p; sink_iid = s.sink_iid; cookie = s.cookie })

-- A call with an interface identifier, and the source behind it.
pub data Step (s t : Source) : Type 0 where
  advise :
      (riid : ℕ) (punk : Option ℕ) (pdw_cookie : Bool)
      → s.next_cookie + 1 < 2 ^ 32
      → t ≡ (advise_sink s (some riid) punk pdw_cookie).1
      → Step s t
  unadvise : (cookie : ℕ) → t ≡ (unadvise_sink s cookie).1 → Step s t

pub data Reach (s : Source) : Source → Type 0 where
  here : Reach s s
  next : {t u : Source} → Reach s t → Step t u → Reach s u

pub fresh_cookie_lem : (n : ℕ) → 0 < n → fresh_cookie n ≡ n
unfolding fresh_cookie
fresh_cookie_lem n h = ground arith

module _ (s : Source) (cookie : ℕ) where
  pub drop_first_free : s.sink ≡ none → drop_first s cookie ≡ (s, [])
  unfolding drop_first
  drop_first_free h = ground arith

  pub drop_first_other :
      {p : ℕ} → s.sink ≡ some p → (s.cookie == cookie) ≡ false → drop_first s cookie ≡ (s, [])
  unfolding drop_first
  drop_first_other h miss = ground arith

  pub drop_first_hit :
      {p : ℕ}
      → s.sink ≡ some p
      → (s.cookie == cookie) ≡ true
      → drop_first s cookie ≡ (record s { sink = none; cookie = 0 }, release p ∷ [])
  unfolding drop_first
  drop_first_hit h hit = rw (drop_first, h, hit)

make_source-IsValid : (owner : Owner) → IsValid (make_source owner)
make_source-IsValid owner = record {
  sinks_distinct = tt;
  sinks_fit = omega arith;
  cookies_below = tt;
  cookie_below = omega arith;
  first_listed = λ p h. absurd (cc);
}

module _ {s : Source} (v : IsValid s) where
  -- the entry that is advised next
  abbrev pub entry : ℕ → ℕ → SinkEntry
  entry riid p = record { sink = p; sink_iid = riid; cookie = s.next_cookie }

  pub fresh_Absent : Absent cookie_of s.next_cookie s.sinks
  fresh_Absent = Below-Absent cookie_of s.sinks s.next_cookie v.cookies_below

  -- The source with one more entry, where a first sink is there.
  more-IsValid :
      (riid p : ℕ)
      → length s.sinks < source_sink_max
      → IsValid (record s { sinks = s.sinks ++ entry riid p ∷ []; next_cookie = s.next_cookie + 1 })
  more-IsValid riid p room = record {
    sinks_distinct = Distinct-append cookie_of s.sinks (entry riid p) v.sinks_distinct fresh_Absent;
    sinks_fit = omega (arith, length-append s.sinks (entry riid p ∷ []));
    cookies_below =
        All-append cookie_of (λ e. cookie_of e < s.next_cookie + 1) s.sinks (entry riid p)
          (Below-weaken cookie_of s.sinks s.next_cookie (s.next_cookie + 1) (omega arith)
            v.cookies_below)
          (omega arith);
    cookie_below = omega (arith, v.cookie_below);
    first_listed = λ q h.
        let other : (s.next_cookie == s.cookie) ≡ false = ground (arith, v.cookie_below) in
        rw (find_key-append cookie_of s.sinks (entry riid p) s.cookie fresh_Absent, other)
          (v.first_listed q h);
  }

  -- The source whose first sink is the new one.
  first-IsValid :
      (riid p : ℕ)
      → length s.sinks < source_sink_max
      → IsValid (record s {
        sinks = s.sinks ++ entry riid p ∷ [];
        next_cookie = s.next_cookie + 1;
        sink = some p;
        sink_iid = riid;
        cookie = s.next_cookie;
      })
  first-IsValid riid p room =
      let w = more-IsValid riid p room in
      record {
        sinks_distinct = w.sinks_distinct;
        sinks_fit = w.sinks_fit;
        cookies_below = w.cookies_below;
        cookie_below = omega arith;
        first_listed = λ q h.
            let same : p ≡ q = cc in
            rw (
              find_key-append cookie_of s.sinks (entry riid p) s.next_cookie fresh_Absent,
              ==_refl s.next_cookie,
              same,
            );
      }

  advise_sink-IsValid :
      (riid : ℕ) (punk : Option ℕ) (pdw_cookie : Bool)
      → s.next_cookie + 1 < 2 ^ 32
      → IsValid (advise_sink s (some riid) punk pdw_cookie).1
  unfolding advise_sink
  advise_sink-IsValid riid none b h = v
  advise_sink-IsValid riid (some p) false h = v
  advise_sink-IsValid riid (some p) true h =
      elim (Bool-cases (leb source_sink_max (length s.sinks))) [
        | inl full ↦ rw full v
        | inr room ↦
            let counter = fresh_cookie_lem s.next_cookie (omega (arith, v.cookie_below)) in
            let step : (s.next_cookie + 1) % 2 ^ 32 ≡ s.next_cookie + 1 = omega arith in
            elim (Option-cases s.sink) [
              | inl free ↦ rw (room, free, counter, step) (first-IsValid riid p (ground arith))
              | inr (q, taken) ↦
                  rw (room, taken, counter, step) (more-IsValid riid p (ground arith))
            ]
      ]

  fewer : (cookie : ℕ) → length (remove_key cookie_of s.sinks cookie) ≤ source_sink_max
  fewer cookie = omega (arith, v.sinks_fit, length-remove_key_le cookie_of s.sinks cookie)

  -- The source without the entry of a cookie that is not the first one's.
  other_dropped-IsValid :
      (cookie : ℕ)
      → ((q : ℕ) → s.sink ≡ some q → (s.cookie == cookie) ≡ false)
      → IsValid (record s { sinks = remove_key cookie_of s.sinks cookie })
  other_dropped-IsValid cookie h = record {
    sinks_distinct = Distinct-remove_key cookie_of s.sinks cookie v.sinks_distinct;
    sinks_fit = fewer cookie;
    cookies_below =
        All-remove_key cookie_of (λ e. cookie_of e < s.next_cookie) s.sinks cookie v.cookies_below;
    cookie_below = v.cookie_below;
    first_listed = λ q e.
        let apart : (cookie == s.cookie) ≡ false = ground (arith, h q e) in
        rw (find_key-remove_key cookie_of s.sinks cookie s.cookie v.sinks_distinct, apart)
          (v.first_listed q e);
  }

  -- The source without the first sink.
  first_dropped-IsValid :
      (cookie : ℕ)
      → IsValid (record s { sinks = remove_key cookie_of s.sinks cookie; sink = none; cookie = 0 })
  first_dropped-IsValid cookie = record {
    sinks_distinct = Distinct-remove_key cookie_of s.sinks cookie v.sinks_distinct;
    sinks_fit = fewer cookie;
    cookies_below =
        All-remove_key cookie_of (λ e. cookie_of e < s.next_cookie) s.sinks cookie v.cookies_below;
    cookie_below = omega (arith, v.cookie_below);
    first_listed = λ q e. absurd (cc);
  }

  -- The entry of the cookie goes, if there is one.
  drop_entry_lem :
      (cookie : ℕ)
      → (drop_entry s cookie).0 ≡ record s { sinks = remove_key cookie_of s.sinks cookie }
  unfolding drop_entry
  drop_entry_lem cookie = elim (Option-cases (find_key cookie_of s.sinks cookie)) [
    | inl gone ↦ rw (drop_entry, gone, remove_key-none cookie_of s.sinks cookie gone)
    | inr (e, found) ↦ rw (drop_entry, found)
  ]

  pub unadvise_sink_lem :
      (cookie : ℕ)
      → (unadvise_sink s cookie).1
        ≡ (drop_first (record s { sinks = remove_key cookie_of s.sinks cookie }) cookie).0
  unfolding unadvise_sink
  unadvise_sink_lem cookie = ap (λ t. (drop_first t cookie).0) (drop_entry_lem cookie)

  unadvise_sink-IsValid : (cookie : ℕ) → IsValid (unadvise_sink s cookie).1
  unadvise_sink-IsValid cookie =
      let t : Source = record s { sinks = remove_key cookie_of s.sinks cookie } in
      rw (unadvise_sink_lem cookie) (elim (Option-cases s.sink) [
        | inl free ↦
            rw (drop_first_free t cookie free) (other_dropped-IsValid cookie (λ q e. absurd (cc)))
        | inr (p, taken) ↦ elim (Bool-cases (s.cookie == cookie)) [
          | inl first ↦ rw (drop_first_hit t cookie taken first) (first_dropped-IsValid cookie)
          | inr other ↦
              rw (drop_first_other t cookie taken other)
                (other_dropped-IsValid cookie (λ q e. other))
        ]
      ])

  Step-IsValid : {t : Source} → Step s t → IsValid t
  Step-IsValid (Step.advise riid punk b h e) =
      subst IsValid (sym e) (advise_sink-IsValid riid punk b h)
  Step-IsValid (Step.unadvise cookie e) = subst IsValid (sym e) (unadvise_sink-IsValid cookie)

-- Every source that a new one reaches by sinks advised with an interface identifier and unadvised,
-- while the counter is below 2^32 - 1: the cookies differ, the array does not overflow, and the
-- first sink is one of the array, with its interface identifier and cookie.
pub Reach_source-IsValid : (owner : Owner) (s : Source) → Reach (make_source owner) s → IsValid s
Reach_source-IsValid owner s here = make_source-IsValid owner
Reach_source-IsValid owner s (next {t = t} r step) =
    Step-IsValid (Reach_source-IsValid owner t r) step
