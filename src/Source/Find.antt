-- ===== src/Source/Find.antt =====
-- Which sink `source_find_sink` finds.
use atzc.Prelude.{
  ℕ, ◌+◌, ◌%◌, ◌^◌, ◌<◌, ◌≡◌, ◌≢◌, refl, sym, ap, ◌∙◌, inl, inr, true, false, Option, none, some,
  List, [], ◌∷◌, ◌++◌, arith, ◌==◌, ◌>>=◌, length, Option-cases, map, ==_refl, lt→leb,
}
use atzc.Prelude.Table.{
  find_key, remove_key, find_key-Absent, All-find_key, find_key-append, remove_key-append,
}
use atzc.Com.{s_ok}
use atzc.Source.{
  Source, Owner, Call, add_ref, release, source_sink_max, iid_of, cookie_of, find_sink,
  fresh_cookie, advise_sink, unadvise_sink, drop_entry, drop_first, notifications, iid_or_unknown,
}
use atzc.Source.Valid.{
  IsValid, make_source, entry, fresh_Absent, fresh_cookie_lem, drop_first_other, drop_first_hit,
}

module _ {s : Source} (v : IsValid s) where
  first_listed_iid :
      (riid p : ℕ) → find_key iid_of s.sinks riid ≡ none → s.sink ≡ some p → s.sink_iid ≢ riid
  first_listed_iid riid p h e =
      All-find_key cookie_of (λ x. iid_of x ≢ riid) s.sinks s.cookie _
        (find_key-Absent iid_of s.sinks riid h) (v.first_listed p e)

  -- In a valid source the field of the first sink finds nothing that the array does not: the answer
  -- is the earliest sink of the array with the interface identifier.
  pub find_sink_lem :
      (riid : ℕ) → find_sink (some s) riid ≡ (find_key iid_of s.sinks riid >>= λ e. some e.sink)
  unfolding find_sink
  find_sink_lem riid = elim (Option-cases (find_key iid_of s.sinks riid)) [
    | inr (e, found) ↦ rw (find_sink, found)
    | inl missing ↦ elim (Option-cases s.sink) [
      | inl free ↦ rw (find_sink, missing) (ground arith)
      | inr (p, taken) ↦
          let differ = first_listed_iid riid p missing taken in
          rw (find_sink, missing) (ground arith)
    ]
  ]

  -- The outcome of `AdviseSink` while there is room.
  more : Option ℕ → ℕ → Source
  more riid p = record s {
    sinks = s.sinks ++ entry v (iid_or_unknown riid) p ∷ [];
    next_cookie = s.next_cookie + 1;
  }

  first : Option ℕ → ℕ → Source
  first riid p = record s {
    sinks = s.sinks ++ entry v (iid_or_unknown riid) p ∷ [];
    next_cookie = s.next_cookie + 1;
    sink = some p;
    sink_iid = elim riid [ none ↦ s.sink_iid | some i ↦ i ];
    cookie = s.next_cookie;
  }

  module _ (riid : Option ℕ) (p : ℕ) (room : length s.sinks < source_sink_max)
      (b : s.next_cookie + 1 < 2 ^ 32) where
    advise_taken :
        {q : ℕ}
        → s.sink ≡ some q
        → advise_sink s riid (some p) true
          ≡ (s_ok, more riid p, add_ref p ∷ notifications s.owner riid p, some s.next_cookie)
    unfolding advise_sink more
    advise_taken taken =
        let counter = fresh_cookie_lem s.next_cookie (omega (arith, v.cookie_below)) in
        let step : (s.next_cookie + 1) % 2 ^ 32 ≡ s.next_cookie + 1 = omega arith in
        ground (arith, counter, step)

    advise_free :
        s.sink ≡ none
        → advise_sink s riid (some p) true ≡ (
          s_ok,
          first riid p,
          add_ref p ∷ add_ref p ∷ notifications s.owner riid p,
          some s.next_cookie,
        )
    unfolding advise_sink first
    advise_free free =
        let counter = fresh_cookie_lem s.next_cookie (omega (arith, v.cookie_below)) in
        let step : (s.next_cookie + 1) % 2 ^ 32 ≡ s.next_cookie + 1 = omega arith in
        rw (lt→leb source_sink_max (length s.sinks) room, free, counter, step)

    -- The new entry is found by its cookie, and its removal gives the array back.
    entry_found :
        find_key cookie_of (s.sinks ++ entry v (iid_or_unknown riid) p ∷ []) s.next_cookie
        ≡ some (entry v (iid_or_unknown riid) p)
    entry_found = rw (
      find_key-append cookie_of s.sinks (entry v (iid_or_unknown riid) p) s.next_cookie
          (fresh_Absent v),
      ==_refl s.next_cookie,
    )

    entry_removed :
        remove_key cookie_of (s.sinks ++ entry v (iid_or_unknown riid) p ∷ []) s.next_cookie
        ≡ s.sinks
    entry_removed =
        remove_key-append cookie_of s.sinks (entry v (iid_or_unknown riid) p) s.next_cookie refl
          (fresh_Absent v)

    -- Unadvising it again.
    unadvise_more :
        {q : ℕ}
        → s.sink ≡ some q
        → unadvise_sink (more riid p) s.next_cookie
          ≡ (s_ok, record s { next_cookie = s.next_cookie + 1 }, release p ∷ [])
    unfolding unadvise_sink more drop_entry
    unadvise_more taken =
        let other : (s.cookie == s.next_cookie) ≡ false = ground (arith, v.cookie_below) in
        rw (
          unadvise_sink,
          drop_entry,
          entry_found,
          entry_removed,
          drop_first_other (record s { next_cookie = s.next_cookie + 1 }) s.next_cookie taken other,
        )

    drop_entry-first :
        drop_entry (first riid p) s.next_cookie
        ≡ (record (first riid p) { sinks = s.sinks }, release p ∷ [])
    unfolding first drop_entry
    drop_entry-first = rw (drop_entry, entry_found, entry_removed)

    unadvise_first : unadvise_sink (first riid p) s.next_cookie ≡ (
      s_ok,
      record s {
        next_cookie = s.next_cookie + 1;
        sink = none;
        sink_iid = elim riid [ none ↦ s.sink_iid | some i ↦ i ];
        cookie = 0;
      },
      release p ∷ release p ∷ [],
    )
    unfolding unadvise_sink first
    unadvise_first =
        ap (λ r. (s_ok, (drop_first r.0 s.next_cookie).0, r.1 ++ (drop_first r.0 s.next_cookie).1))
          drop_entry-first
        ∙ ap (λ d. (s_ok, d.0, release p ∷ d.1))
            (drop_first_hit (record (first riid p) { sinks = s.sinks }) s.next_cookie {p = p} refl
              (==_refl s.next_cookie))

  -- A sink that is advised with an interface identifier for which the source finds no sink is the one
  -- that is found for it behind the call: in a valid source with room, and a counter of cookies that
  -- does not wrap.
  pub find_sink-advise_sink :
      (riid p : ℕ)
      → length s.sinks < source_sink_max
      → s.next_cookie + 1 < 2 ^ 32
      → find_sink (some s) riid ≡ none
      → find_sink (some (advise_sink s (some riid) (some p) true).1) riid ≡ some p
  unfolding find_sink more first
  find_sink-advise_sink riid p room b h = elim (Option-cases s.sink) [
    | inl free ↦ rw (advise_free (some riid) p room b free, find_sink, found)
    | inr (q, taken) ↦ rw (advise_taken (some riid) p room b taken, find_sink, found)
  ]
    where
      absent : find_key iid_of s.sinks riid ≡ none
      absent = ground (arith, h)

      found : find_key iid_of (s.sinks ++ entry v riid p ∷ []) riid ≡ some (entry v riid p)
      found = rw (
        find_key-append iid_of s.sinks (entry v riid p) riid
            (find_key-Absent iid_of s.sinks riid absent),
        ==_refl riid,
      )

  -- Unadvising the cookie that `AdviseSink` has just given brings back the array and the first sink,
  -- and calls `Release` once for each call that `AdviseSink` made in front of its notifications: in a
  -- valid source with room, and a counter of cookies that does not wrap.
  pub unadvise_sink-advise_sink :
      (riid : Option ℕ) (p : ℕ)
      → length s.sinks < source_sink_max
      → s.next_cookie + 1 < 2 ^ 32
      → (t u : Source) × (n : List Call) × (advise_sink s riid (some p) true
          ≡ (s_ok, t, n ++ notifications s.owner riid p, some s.next_cookie))
        × (unadvise_sink t s.next_cookie ≡ (s_ok, u, map (λ c. release p) n))
        × (u.sinks ≡ s.sinks)
        × (u.sink ≡ s.sink)
  unadvise_sink-advise_sink riid p room b = elim (Option-cases s.sink) [
    | inl free ↦ (
      _,
      _,
      add_ref p ∷ add_ref p ∷ [],
      advise_free riid p room b free,
      unadvise_first riid p room b,
      refl,
      sym free,
    )
    | inr (q, taken) ↦ (
      _,
      _,
      add_ref p ∷ [],
      advise_taken riid p room b taken,
      unadvise_more riid p room b taken,
      refl,
      refl,
    )
  ]

-- A sink advised without an interface identifier takes over that of an earlier first sink, which has
-- been unadvised: it is then found for an interface that it was not advised for.
pub find_sink_stale :
    (owner : Owner) (riid p q : ℕ)
    → riid ≢ 0
    → let s = (advise_sink (make_source owner) (some riid) (some p) true).1 in
      let t = (unadvise_sink s 1).1 in
      find_sink (some (advise_sink t none (some q) true).1) riid ≡ some q
unfolding find_sink advise_sink unadvise_sink drop_entry drop_first find_key remove_key fresh_cookie
find_sink_stale owner riid p q h = ground arith
