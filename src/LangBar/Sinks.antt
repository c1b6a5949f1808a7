-- ===== src/LangBar/Sinks.antt =====
-- Sinks advised and unadvised on the language bar manager.
use atzc.Prelude.{
  ℕ, ◌+◌, ◌%◌, ◌^◌, ◌<◌, ◌≡◌, refl, true, none, some, [], ◌∷◌, ◌++◌, arith, ◌==◌, if◌then◌else◌,
  length, lt→leb, ==_refl,
}
use atzc.Prelude.Table.{find_key, find_key-append, remove_key-append, Absent-find_key}
use atzc.Com.{s_ok, e_invalidarg}
use atzc.LangBar.{
  Manager, SinkEntry, add_ref, release, sink_max, cookie_of, advise_item_sink, unadvise_item_sink,
}
use atzc.LangBar.Valid.{IsValid, below-Absent}

-- A sink is advised while there is room: it gets a cookie that no other sink has and one reference
-- is taken. Unadvising that cookie gives back the sinks as they were and the reference, and a second
-- time fails with E_INVALIDARG.
pub unadvise_item_sink-advise_item_sink :
    {m : Manager}
    → IsValid m
    → (p g : ℕ) → length m.sinks < sink_max
    → m.next_sink_cookie + 1 < 2 ^ 32
    → (m' : Manager) × (advise_item_sink none m (some p) true (some g)
        ≡ (s_ok, m', add_ref p ∷ [], some m.next_sink_cookie))
      × (find_key cookie_of m.sinks m.next_sink_cookie ≡ none)
      × (unadvise_item_sink none m' m.next_sink_cookie
          ≡ (s_ok, record m { next_sink_cookie = m.next_sink_cookie + 1 }, release p ∷ []))
      × (unadvise_item_sink none
            (record m { next_sink_cookie = m.next_sink_cookie + 1 })
            m.next_sink_cookie
          ≡ (e_invalidarg, record m { next_sink_cookie = m.next_sink_cookie + 1 }, []))
unfolding advise_item_sink unadvise_item_sink
unadvise_item_sink-advise_item_sink {m} v p g room b =
    let c = m.next_sink_cookie in
    let entry : SinkEntry = record { sink = p; guid = g; cookie = c } in
    let absent = below-Absent m.sinks c v.cookies_below in
    let fresh = Absent-find_key cookie_of m.sinks c absent in
    let counter : (if c == 0 then 1 else c) ≡ c = ground (arith, v.next_positive) in
    let step : (c + 1) % 2 ^ 32 ≡ c + 1 = omega arith in
    (
      record m { sinks = m.sinks ++ entry ∷ []; next_sink_cookie = c + 1 },
      rw (lt→leb sink_max (length m.sinks) room, counter, step),
      fresh,
      rw (
        unadvise_item_sink,
        find_key-append cookie_of m.sinks entry c absent,
        ==_refl c,
        remove_key-append cookie_of m.sinks entry c refl absent,
      ),
      rw (unadvise_item_sink, fresh),
    )
