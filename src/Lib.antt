-- ===== src/Lib.antt =====
-- atzc: a conversion daemon over the ATOK input processor, and the native part that drives it under Wine.
--
-- The daemon answers requests for conversions on a socket. It keeps warm harness processes, in which a
-- native part drives the input processor, and speaks to them in lines. Its parts, and the modules that
-- model them:
--
--   Proto, Proto.*  include/atzc/proto.h: `split_tabs`, `join_tabs` and the results of a conversion.
--   Lines, Lines.*  src/atzcd/main.cpp and src/client.cpp, `read_line`, `recv_line`, `write_all`: lines on
--     a stream, with the answers of `read` and `write` as a list.
--   Session, Session.*  src/session.cpp: the remembered lists and hints (`cachePut`, `takeTop1`, ...), the
--     lists that `buildCandidates` makes, `top1` and `candidates`. `Session.Threads` has the caller and
--     the worker of `prefetchLoop` as steps that interleave. The engine is a parameter (`Engine`).
--   Harness, Harness.*  the loops that read lines from a harness, which src/harness_engine.cpp and
--     src/session_engine.cpp share: `drain` is the inner loop over the buffer, `await` the outer one over
--     the reads. The process is a parameter (`Process`, include/atzc/harness_process.h).
--     `Harness.Printed` is what engine/native/AtTipLoad/AtTipLoad.c prints for a result.
--   SessionEngine, SessionEngine.*  src/session_engine.cpp: a composition on one warm harness, with
--     `type_keys` for `type` and `get_preedit` for `preedit`.
--   HarnessEngine, HarnessEngine.*  src/harness_engine.cpp: conversions of whole readings (`top_one`,
--     `convert`), and the result block. It has the shape of `Engine`, but for the fuel.
--   Daemon, Daemon.*  src/atzcd/main.cpp, `serve_conn`: the requests of a connection, over a session and a
--     session engine.
--   Client, Client.*  src/client.cpp: the requests and what is made of the replies. The connection is a
--     parameter (`Wire`); `Client.Requests` takes the daemon's model for it.
--     `Client.Reconnect` is src/frontend_posix.cpp, the client that connects again after a failure, and
--     `Client.Recovery` a socket that may be gone.
--   Frontend, Frontend.*  fcitx5/engine.cpp: the keys of the input method, over a `Wire` and the candidate
--     lists of fcitx5 (`Lists`), which are parameters. `reset` is `clear_session`.
--
-- The native part loads a Windows input processor (a COM server) into a small harness and takes the place
-- of the system services that Wine does not give it:
--
--   Composition, Composition.*  engine/native/MsctfShim/MsctfShim.c: the context that the shim gives to
--     the input processor. `Context` is `MsctfContextWrap`: the composed text of at most 255 units,
--     its range, the sink of the composition, the text store and the source of sinks. `append_key` is
--     `msctf_append_key`; `Composition.Range` has `range_GetText`, `range_SetText` and the shifts;
--     `Composition.Commit` has `ctxcomp_StartComposition`, `comp_EndComposition`,
--     `flush_comp_text_to_store` and `insert_InsertTextAtSelection`. `Composition.Run` puts calls one
--     after the other.
--   TextStore, TextStore.*  engine/native/AtTipLoad/textstore.c: the document, an ITextStoreACP over an
--     array of 4096 units. `set_text` is `ts_SetText`, `get_text` is `ts_GetText`, and so on for each
--     handler; `append_char`, `log_content` and `copy_text` are the `TextStore_*` helpers. The context
--     commits into this store: the two models are composed in `Composition.Commit`.
--   Source, Source.*  MsctfShim.c, `source_AdviseSink`, `source_UnadviseSink`, `source_find_sink`: the
--     sinks on thread managers and contexts, and what a new sink is told. The context looks its sinks
--     up here.
--   LangBar, LangBar.*  MsctfShim.c, `langbar_*`, `langbaritemmgr_*`, `langbaritemenum_*`: the manager of
--     language bar items, its sinks and its enumerator. `orig` is what a wrapped manager answers.
--   Atoms, Atoms.*  MsctfShim.c, `categorymgr_RegisterGUID` with its two lookups, and the remembered
--     values of compartments (`compartment_shadow_set`, `compartment_SetValue`, ...).
--   Names, Names.*  engine/native/AtNsShim/AtNsShim.c, AtCtl.c and AtLaunch.c: names without case, the
--     flattening of private namespace names, the slots for handle names, and command lines.
--   Com  the status codes.
--   Prelude, Prelude.*  lists over the native numbers, C arrays (Memory), the replacement of a range in
--     an array (Splice), arrays searched by a key (Table), signed integers (Int), texts (Text), maps with
--     text keys (Dict), decimal numbers (Decimal), and calls that return (Returns).
--
-- How the code is written down:
--
--   A handler is a function from the state and the arguments to the status, the new state and the calls
--   that it makes on other objects, in their order; an out parameter is a part of the result. Objects,
--   GUIDs and cookies are numbers, and a NULL pointer is `none`. A call on a sink is an entry of the
--   trace: what a sink does when it is called, such as calling back, is not modelled.
--   Where code reads or writes an array, the whole result is an Option, and `none` is an access outside
--   the array; where a table has a fixed size, the list holds the used entries.
--   A text that comes with a count is the list of the counted units. In a 32-bit process such a list is
--   shorter than 2^31 - 2^15, so a LONG sum with its length does not wrap; a count without a text, as
--   in `ts_QueryInsert` and `langbaritemenum_Skip`, and a counter keep their wrap-around.
--   A range of a context is never negative, since every function that sets it clamps it.
--   An allocation succeeds. Logging is left out. QueryInterface, and the reference counts of the
--   program's own objects, are left out; the references that are taken of and given back to foreign
--   objects are calls of the trace. What foreign objects answer (`get_info`, `get_status`, `orig`, the
--   focus of a thread manager) is an argument.
--
--   A text of the daemon is the list of its bytes. A map is an association list in the order of insertion.
--   A function over a harness takes the fuel of its loops, one unit for each read, and is `none` while it
--   still waits. With a worker that settles, which prints at most a given number of pieces before it is
--   silent, that number and 61 are enough: 60 reads in vain of a second each reach the longer limit. The
--   inner loop takes the length of its buffer, since a line has at least its end. `atoi` is modelled for
--   values that an int holds.
--   In `Session.Threads` a step ends where a lock is given back. `build_candidates` is one step, with the
--   engine's lock held; the back-off of the worker is left out, since it only waits.
--   A null `err` or preedit is left out: every call of the daemon passes both, and what `begin` and
--   `cancel` pass as null they ignore.
--
-- Not modelled: the launch of the harness process (posix_harness_process.cpp), the command line tool,
-- the sockets, options and signals of the daemon and the client; the wrappers of MsctfShim that only
-- forward, the patching of import tables and the hooks of AtNsShim, the driver program of AtTipLoad but
-- for the result that it prints, its candidate lists, the diagnostic
-- programs, and the scripts: they call the system or foreign objects and keep little state.
pub mod Prelude
pub mod Com
pub mod TextStore
pub mod LangBar
pub mod Source
pub mod Atoms
pub mod Composition
pub mod Names
pub mod Proto
pub mod Lines
pub mod Session
pub mod Harness
pub mod SessionEngine
pub mod HarnessEngine
pub mod Daemon
pub mod Client
pub mod Frontend
