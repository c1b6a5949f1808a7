-- ===== src/Session.antt =====
-- The session in front of an engine: src/session.cpp. It remembers candidate lists, remembers the
-- top-1 of a reading until its list is built, and prefetches lists in a worker thread.
pub mod Build
pub mod Cache
pub mod Hints
pub mod Threads
mod Prefetch
mod Answers
mod Tests
pub mod Sample
use atzc.Prelude.{
  ℕ, zero, suc, ◌<◌, ◌≡◌, true, false, Bool, not, List, [], ◌∷◌, ◌++◌, Option, none, some, arith,
  ltb, if◌then◌else◌, length, take,
}
use atzc.Prelude.Int.{ℤ, pos, negsuc}
use atzc.Prelude.Text.{Text, same, is_empty}
use atzc.Prelude.Dict.{find, assign, erase}
use atzc.Proto.{Candidate, ConvertResult, no_result}

-- What an engine call leaves: its result, the two out parameters and the engine.
pub record Answer (S : Type 0) : Type 0 where
  pub ok : Bool
  pub out : ConvertResult
  pub err : Text
  pub state : S

-- The interface `Engine`: its calls take the out parameters as they stand.
pub record Engine : Type 1 where
  pub State : Type 0
  pub top_one : Text → ConvertResult → Text → State → Answer State
  pub convert : Text → ℤ → ConvertResult → Text → State → Answer State

-- `resize`, where the size is above `max`.
abbrev pub shrink : {A : Type 0} → ℕ → List A → List A
shrink max xs = if ltb max (length xs) then take max xs else xs

unfoldable pub cap : ℤ → ConvertResult → ConvertResult
cap (negsuc n) r = r
cap (pos zero) r = r
cap (pos (suc n)) r = record r {
  candidates = shrink (suc n) r.candidates;
  candidates_ex = shrink (suc n) r.candidates_ex;
}

-- The loop that fills the flat list behind the top-1.
unfoldable pub others : Text → List Text → List Text
others commit [] = []
others commit (c ∷ cs) = if same c commit then others commit cs else c ∷ others commit cs

unfoldable pub seen_in : Text → List Text → Bool
seen_in t [] = false
seen_in t (s ∷ seen) = if same s t then true else seen_in t seen

-- The inner loop over one enriched list: the surfaces seen and the list that is built.
unfoldable pub add_source : List Candidate → List Text → List Candidate → List Text × List Candidate
add_source [] seen ex = (seen, ex)
add_source (c ∷ cs) seen ex = elim (seen_in c.surface seen) [
  | true ↦ add_source cs seen ex
  | false ↦ add_source cs (c.surface ∷ seen) (ex ++ c ∷ [])
]

unfoldable pub enriched : List Candidate → List Candidate → List Candidate
unfolding add_source
enriched henkan reconversion =
    let first = add_source henkan [] [] in (add_source reconversion first.0 first.1).1

unfoldable pub merge : Text → ConvertResult → ConvertResult → ConvertResult
unfolding enriched others
merge t1 hres rlist =
    let commit = if is_empty t1 then rlist.commit else t1 in
    record {
      commit = commit;
      candidates = (if is_empty commit then [] else commit ∷ []) ++ others commit rlist.candidates;
      candidates_ex = enriched hres.candidates_ex rlist.candidates_ex;
    }

abbrev pub cache_max : ℕ
cache_max = 64

-- The fields of `Session`, with the engine behind it. `pending` is empty for "none".
pub record Session (S : Type 0) : Type 0 where
  pub engine : S
  pub cache : List (Text × ConvertResult)
  pub lru : List Text
  pub top1_hints : List (Text × Text)
  pub pending : Text

unfoldable pub start : {S : Type 0} → S → Session S
start e = record { engine = e; cache = []; lru = []; top1_hints = []; pending = [] }

-- The loop that drops the oldest entries.
unfoldable pub evict :
    List Text → List (Text × ConvertResult) → List Text × List (Text × ConvertResult)
evict [] cache = ([], cache)
evict (k ∷ ks) cache = elim (ltb cache_max (length (k ∷ ks))) [
  | true ↦ evict ks (erase k cache)
  | false ↦ (k ∷ ks, cache)
]

module _ {S : Type 0} where
  unfoldable pub cache_get : Session S → Text → Option ConvertResult
  cache_get s romaji = find romaji s.cache

  unfoldable pub cache_has : Session S → Text → Bool
  cache_has s romaji = elim (find romaji s.cache) [ none ↦ false | some r ↦ true ]

  unfoldable pub cache_put : Session S → Text → ConvertResult → Session S
  unfolding cache_has
  cache_put s romaji r =
      let room : List Text × List (Text × ConvertResult) =
        if cache_has s romaji then (s.lru, s.cache) else evict (s.lru ++ romaji ∷ []) s.cache in
      record s { lru = room.0; cache = assign romaji r room.1 }

  unfoldable pub remember_top1 : Session S → Text → Text → Session S
  remember_top1 s romaji t =
      let hints : List (Text × Text) =
        if ltb cache_max (length s.top1_hints) then [] else s.top1_hints in
      record s { top1_hints = assign romaji t hints }

  -- The text is empty where there is no hint.
  unfoldable pub take_top1 : Session S → Text → Text × Session S
  take_top1 s romaji = elim (find romaji s.top1_hints) [
    | none ↦ ([], s)
    | some v ↦ (v, record s { top1_hints = erase romaji s.top1_hints })
  ]

-- What a call of the session leaves.
pub record Reply (S : Type 0) : Type 0 where
  pub ok : Bool
  pub out : ConvertResult
  pub err : Text
  pub session : Session S

module _ (E : Engine) where
  open E use {State, top_one, convert}

  -- `buildCandidates`, which runs with the engine locked.
  unfoldable pub build_candidates : Session State → Text → ConvertResult → Text → Reply State
  unfolding take_top1 merge
  build_candidates s romaji out err =
      let (hint, s1) = take_top1 s romaji in
      let h = top_one romaji no_result [] s1.engine in
      let t1 = if is_empty hint then (if h.ok then h.out.commit else hint) else hint in
      let r = convert romaji (pos 0) no_result err h.state in
      record {
        ok = r.ok;
        out = if r.ok then merge t1 h.out r.out else out;
        err = r.err;
        session = record s1 { engine = r.state };
      }

  -- What `top1` does behind the engine's answer: it remembers the top-1 and asks for the list.
  unfoldable pub note_top1 : Session State → Text → Text → Session State
  unfolding remember_top1 cache_has
  note_top1 s romaji commit =
      let s1 = remember_top1 s romaji commit in
      if cache_has s1 romaji then s1 else record s1 { pending = romaji }

  unfoldable pub top1 : Session State → Text → ConvertResult → Text → Reply State
  unfolding note_top1
  top1 s romaji out err =
      let a = top_one romaji out err s.engine in
      let s1 = record s { engine = a.state } in
      record {
        ok = a.ok;
        out = a.out;
        err = a.err;
        session = if a.ok then note_top1 s1 romaji a.out.commit else s1;
      }

  -- What `candidates` does with a list that was built: it stores the whole list, and answers as many
  -- entries as are wanted.
  unfoldable pub put_built : Text → ℤ → Reply State → Reply State
  put_built romaji max b = record b {
    out = if b.ok then cap max b.out else b.out;
    session = if b.ok then cache_put b.session romaji b.out else b.session;
  }

  unfoldable pub candidates : Session State → Text → ℤ → ConvertResult → Text → Reply State
  unfolding cache_get
  candidates s romaji max out err = elim (cache_get s romaji) [
    | some r ↦ record { ok = true; out = cap max r; err = err; session = s }
    | none ↦ put_built romaji max (build_candidates s romaji out err)
  ]
