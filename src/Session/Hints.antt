-- ===== src/Session/Hints.antt =====
-- The remembered top-1 of a reading, and the calls that build lists: each keeps a session valid.
use atzc.Prelude.{
  suc, ◌≡◌, refl, true, List, [], ◌∷◌, arith, if◌then◌else◌, Bool-cases, inl, inr, ltb, length, ◌≤◌,
  Option-cases,
}
use atzc.Prelude.Int.{ℤ, pos}
use atzc.Prelude.Text.{Text, is_empty}
use atzc.Prelude.Dict.{find, assign, erase, AllValues-find}
use atzc.Proto.{ConvertResult, no_result}
use atzc.Session.{
  Engine, Session, Reply, cache_max, cache_get, cache_has, take_top1, remember_top1,
  build_candidates, note_top1, top1, put_built, candidates, start,
}
use atzc.Session.Build.{IsList, merge-IsList, cap-IsList}
use atzc.Session.Cache.{IsValid, cache_put-IsValid}

length-assign :
    {V : Type 0} (k : Text) (v : V) (m : List (Text × V)) → length (assign k v m) ≤ suc (length m)
unfolding assign
length-assign k v [] = omega arith
length-assign k v ((j, w) ∷ m) = ground (arith, length-assign k v m)

length-erase : {V : Type 0} (k : Text) (m : List (Text × V)) → length (erase k m) ≤ length m
unfolding erase
length-erase k [] = omega arith
length-erase k ((j, w) ∷ m) = ground (arith, length-erase k m)

-- Validity reads neither the engine nor the pending reading.
pub same_store :
    {S : Type 0} (s : Session S) (e : S) (p : Text)
    → IsValid s
    → IsValid (record s { engine = e; pending = p })
same_store s e p v = record {
  order = v.order;
  room = v.room;
  distinct = v.distinct;
  lists = v.lists;
  hints = v.hints;
}

pub start-IsValid : {S : Type 0} (e : S) → IsValid (start e)
unfolding start
start-IsValid e = record {
  order = refl;
  room = omega arith;
  distinct = tt;
  lists = tt;
  hints = omega arith;
}

pub remember_top1-IsValid :
    {S : Type 0} (s : Session S) (romaji t : Text) → IsValid s → IsValid (remember_top1 s romaji t)
unfolding remember_top1
remember_top1-IsValid s romaji t v = record {
  order = v.order;
  room = v.room;
  distinct = v.distinct;
  lists = v.lists;
  hints = elim (Bool-cases (ltb cache_max (length s.top1_hints))) [
    | inl e ↦ rw e (omega (arith, length-assign romaji t []))
    | inr e ↦ rw e (ground (arith, length-assign romaji t s.top1_hints))
  ];
}

pub take_top1-IsValid :
    {S : Type 0} (s : Session S) (romaji : Text) → IsValid s → IsValid (take_top1 s romaji).1
unfolding take_top1
take_top1-IsValid s romaji v = elim (Option-cases (find romaji s.top1_hints)) [
  | inl e ↦ rw (e, take_top1) v
  | inr (t, e) ↦
      rw (e, take_top1)
        (record {
          order = v.order;
          room = v.room;
          distinct = v.distinct;
          lists = v.lists;
          hints = omega (arith, length-erase romaji s.top1_hints, v.hints);
        })
]

module _ (E : Engine) where
  open E use {State, top_one, convert}

  -- Building a list keeps the session valid, whatever the engine answers, and a list that is built
  -- is led by its top-1.
  pub build_candidates-IsValid :
      (s : Session State) (romaji : Text) (out : ConvertResult) (err : Text)
      → IsValid s
      → IsValid (build_candidates E s romaji out err).session
        × ((build_candidates E s romaji out err).ok ≡ true
            → IsList (build_candidates E s romaji out err).out)
  unfolding build_candidates
  build_candidates-IsValid s romaji out err v =
      let (hint, s1) = take_top1 s romaji in
      let h = top_one romaji no_result [] s1.engine in
      let t1 = if is_empty hint then (if h.ok then h.out.commit else hint) else hint in
      let r = convert romaji (pos 0) no_result err h.state in
      (
        same_store s1 r.state s1.pending (take_top1-IsValid s romaji v),
        λ done. rw done (merge-IsList t1 h.out r.out),
      )

  note_top1-IsValid :
      (s : Session State) (romaji t : Text) → IsValid s → IsValid (note_top1 E s romaji t)
  unfolding note_top1
  note_top1-IsValid s romaji t v =
      let s1 = remember_top1 s romaji t in
      let v1 = remember_top1-IsValid s romaji t v in
      elim (Bool-cases (cache_has s1 romaji)) [
        | inl e ↦ rw e v1
        | inr e ↦ rw e (same_store s1 s1.engine romaji v1)
      ]

  pub top1-IsValid :
      (s : Session State) (romaji : Text) (out : ConvertResult) (err : Text)
      → IsValid s
      → IsValid (top1 E s romaji out err).session
  unfolding top1
  top1-IsValid s romaji out err v =
      let a = top_one romaji out err s.engine in
      let s1 = record s { engine = a.state } in
      elim (Bool-cases a.ok) [
        | inl e ↦ rw e (note_top1-IsValid s1 romaji a.out.commit (same_store s a.state s.pending v))
        | inr e ↦ rw e (same_store s a.state s.pending v)
      ]

  put_built-lists :
      (romaji : Text) (max : ℤ) (b : Reply State)
      → IsValid b.session
      → (b.ok ≡ true → IsList b.out)
      → IsValid (put_built E romaji max b).session
        × ((put_built E romaji max b).ok ≡ true → IsList (put_built E romaji max b).out)
  unfolding put_built
  put_built-lists romaji max b v l = elim (Bool-cases b.ok) [
    | inl e ↦ (
      rw e (cache_put-IsValid b.session romaji b.out v (l e)),
      λ h. rw e (cap-IsList max b.out (l e)),
    )
    | inr e ↦ (rw e v, λ h. absurd (ground (arith, h, e)))
  ]

  -- `candidates` keeps the session valid, and every list that it answers is led by its commit, where
  -- that is not empty, holds it nowhere else, and has each enriched surface once, whatever the engine
  -- answers.
  pub candidates_lists :
      (s : Session State) (romaji : Text) (max : ℤ) (out : ConvertResult) (err : Text)
      → IsValid s
      → IsValid (candidates E s romaji max out err).session
        × ((candidates E s romaji max out err).ok ≡ true
            → IsList (candidates E s romaji max out err).out)
  unfolding candidates cache_get
  candidates_lists s romaji max out err v = elim (Option-cases (find romaji s.cache)) [
    | inl e ↦
        let (v1, l) = build_candidates-IsValid s romaji out err v in
        rw (e, candidates) (put_built-lists romaji max (build_candidates E s romaji out err) v1 l)
    | inr (r, e) ↦
        rw (e, candidates)
          ((v, λ h. cap-IsList max r (AllValues-find IsList romaji r s.cache v.lists e)))
  ]
