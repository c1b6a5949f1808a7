-- ===== src/Source.antt =====
-- engine/native/MsctfShim/MsctfShim.c, `source_*`: the ITfSource that the shim puts on thread
-- managers and contexts, which keeps the sinks of the input processor. Objects, interface
-- identifiers and cookies are numbers, a NULL pointer is `none`.
pub mod Valid
pub mod Find
mod Tests
use atzc.Prelude.{
  ℕ, ◌+◌, ◌%◌, ◌^◌, Bool, true, false, not, ◌&&◌, Option, none, some, List, [], ◌∷◌, ◌++◌, leb,
  ◌==◌, if◌then◌else◌, ◌>>=◌, length,
}
use atzc.Prelude.Table.{find_key, remove_key}
use atzc.Com.{HResult, s_ok, e_pointer, e_outofmemory}

abbrev pub source_sink_max : ℕ
source_sink_max = 16

-- The interface identifiers that the code compares with.
abbrev pub iid_unknown : ℕ
iid_unknown = 0

-- The zeroes of a source that was just allocated.
abbrev pub iid_null : ℕ
iid_null = 6

abbrev pub iid_thread_mgr_event_sink : ℕ
iid_thread_mgr_event_sink = 1

abbrev pub iid_text_edit_sink : ℕ
iid_text_edit_sink = 2

abbrev pub iid_thread_focus_sink : ℕ
iid_thread_focus_sink = 3

abbrev pub iid_active_lang_profile_notify_sink : ℕ
iid_active_lang_profile_notify_sink = 4

abbrev pub iid_context_owner_composition_sink : ℕ
iid_context_owner_composition_sink = 5

pub record SinkEntry : Type 0 where
  pub sink : ℕ
  pub sink_iid : ℕ
  pub cookie : ℕ

-- The owner. Of a thread manager: what GetFocus of the wrapped manager returns, the document
-- manager that the shim has wrapped with its wrapper, and the top context of that.
pub data Owner : Type 0 where
  thread_mgr : Option ℕ → Option (ℕ × ℕ) → Option ℕ → Owner
  context : ℕ → Owner

pub record Source : Type 0 where
  pub sinks : List SinkEntry
  pub sink : Option ℕ
  pub sink_iid : ℕ
  pub cookie : ℕ
  pub next_cookie : ℕ
  pub owner : Owner

-- The calls that a handler makes on a sink and on other objects.
pub data Call : Type 0 where
  add_ref release : ℕ → Call
  on_set_focus on_init_document_mgr on_push_context : ℕ → ℕ → Call
  on_end_edit : ℕ → ℕ → Call
  on_set_thread_focus on_activated : ℕ → Call

abbrev pub iid_of : SinkEntry → ℕ
iid_of e = e.sink_iid

abbrev pub cookie_of : SinkEntry → ℕ
cookie_of e = e.cookie

-- The field of the first sink, which `source_find_sink` looks at last.
abbrev pub first_sink : Source → ℕ → Option ℕ
first_sink s riid = if s.sink_iid == riid then s.sink else none

pub find_sink : Option Source → ℕ → Option ℕ
find_sink none riid = none
find_sink (some s) riid = elim (find_key iid_of s.sinks riid) [
  | some e ↦ some e.sink
  | none ↦ first_sink s riid
]

-- `fresh_cookie` skips 0 when the counter wraps.
pub fresh_cookie : ℕ → ℕ
fresh_cookie next = if next == 0 then 1 else next

-- The document manager that is told: the shim's own wrapper, or the one that has the focus.
abbrev pub wrapped_focus : ℕ → Option (ℕ × ℕ) → ℕ
wrapped_focus focus none = focus
wrapped_focus focus (some (orig, wrapper)) = if orig == focus then wrapper else focus

-- What a new thread manager event sink is told.
pub tell_focus : Owner → ℕ → List Call
tell_focus (context c) p = []
tell_focus (thread_mgr focus own top) p =
    (elim focus [
      | none ↦ []
      | some f ↦
          on_set_focus p (wrapped_focus f own) ∷ on_init_document_mgr p (wrapped_focus f own) ∷ []
    ])
    ++ (elim top [ none ↦ [] | some c ↦ on_push_context p c ∷ [] ])
    ++ (elim focus [ none ↦ [] | some f ↦ release f ∷ [] ])

-- `notify_text_edit_sink_initial`
pub tell_text : Owner → ℕ → List Call
tell_text (thread_mgr focus own top) p = []
tell_text (context c) p = on_end_edit p c ∷ []

abbrev pub notifications : Owner → Option ℕ → ℕ → List Call
notifications owner none p = []
notifications owner (some riid) p =
    if riid == iid_thread_mgr_event_sink
    then tell_focus owner p
    else if riid == iid_text_edit_sink
    then tell_text owner p
    else if riid == iid_thread_focus_sink
    then on_set_thread_focus p ∷ []
    else if riid == iid_active_lang_profile_notify_sink
    then on_activated p ∷ []
    else []

abbrev pub iid_or_unknown : Option ℕ → ℕ
iid_or_unknown none = iid_unknown
iid_or_unknown (some riid) = riid

-- The last component is the cookie that is written.
pub advise_sink : Source → Option ℕ → Option ℕ → Bool → HResult × Source × List Call × Option ℕ
advise_sink s riid (some p) true =
    let cookie = fresh_cookie s.next_cookie in
    let entry : SinkEntry = record { sink = p; sink_iid = iid_or_unknown riid; cookie = cookie } in
    let s' : Source = record s {
      sinks = s.sinks ++ entry ∷ [];
      next_cookie = (cookie + 1) % 2 ^ 32;
    } in
    if leb source_sink_max (length s.sinks) then (e_outofmemory, s, [], none) else elim s.sink [
      | some q ↦ (s_ok, s', add_ref p ∷ notifications s.owner riid p, some cookie)
      | none ↦ (
        s_ok,
        record s' {
          sink = some p;
          sink_iid = elim riid [ none ↦ s.sink_iid | some i ↦ i ];
          cookie = cookie;
        },
        add_ref p ∷ add_ref p ∷ notifications s.owner riid p,
        some cookie,
      )
    ]
advise_sink s riid punk pdw_cookie = (e_pointer, s, [], none)

-- The loop of `source_UnadviseSink`.
pub drop_entry : Source → ℕ → Source × List Call
drop_entry s cookie = elim (find_key cookie_of s.sinks cookie) [
  | none ↦ (s, [])
  | some e ↦ (record s { sinks = remove_key cookie_of s.sinks cookie }, release e.sink ∷ [])
]

-- What follows it: the field of the first sink.
pub drop_first : Source → ℕ → Source × List Call
drop_first s cookie = elim s.sink [
  | none ↦ (s, [])
  | some p ↦
      if s.cookie == cookie then (record s { sink = none; cookie = 0 }, release p ∷ []) else (s, [])
]

pub unadvise_sink : Source → ℕ → HResult × Source × List Call
unadvise_sink s cookie =
    let (s', calls) = drop_entry s cookie in
    let (s'', more) = drop_first s' cookie in (s_ok, s'', calls ++ more)
