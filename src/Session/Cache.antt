-- ===== src/Session/Cache.antt =====
-- The remembered lists (src/session.cpp): the order of insertion and the map hold the same readings,
-- at most 64, and every list is well formed.
use atzc.Prelude.{
  suc, ◌≡◌, refl, ap, sym, subst, ◌∙◌, true, false, List, [], ◌∷◌, ◌++◌, All, arith, if◌then◌else◌,
  Bool-cases, inl, inr, ltb, length, ◌≤◌, none, some, Option-cases, length-append, length-map,
}
use atzc.Prelude.Text.{Text, same_refl}
use atzc.Prelude.Dict.{
  keys, find, assign, erase, keys-assign-none, keys-assign-some, AllValues, AllValues-assign,
  find-assign_self,
}
use atzc.Proto.{ConvertResult}
use atzc.Session.{Session, cache_max, evict, cache_has, cache_put, cache_get}
use atzc.Session.Build.{IsList, Differs}

-- No text stands twice in a list.
abbrev pub DistinctTexts : List Text → Type 0
DistinctTexts [] = Unit
DistinctTexts (t ∷ ts) = All (Differs t) ts × DistinctTexts ts

pub record IsValid {S : Type 0} (s : Session S) : Type 0 where
  pub order : keys s.cache ≡ s.lru
  pub room : length s.cache ≤ cache_max
  pub distinct : DistinctTexts (keys s.cache)
  pub lists : AllValues IsList s.cache
  pub hints : length s.top1_hints ≤ suc cache_max

evict_stop :
    (lru : List Text) (cache : List (Text × ConvertResult))
    → length lru ≤ cache_max
    → evict lru cache ≡ (lru, cache)
unfolding evict
evict_stop [] cache h = refl
evict_stop (k ∷ ks) cache h = ground arith

abbrev tail : {A : Type 0} → List A → List A
tail [] = []
tail (x ∷ xs) = xs

-- The cache without its oldest entry, where it is full.
trim : List (Text × ConvertResult) → List (Text × ConvertResult)
trim cache = if ltb 63 (length cache) then tail cache else cache

evict_lem :
    (cache : List (Text × ConvertResult)) (romaji : Text)
    → length cache ≤ cache_max
    → evict (keys cache ++ romaji ∷ []) cache ≡ (keys (trim cache) ++ romaji ∷ [], trim cache)
unfolding evict trim erase
evict_lem [] romaji h = refl
evict_lem ((k, v) ∷ m) romaji h =
    let size : length (keys m ++ romaji ∷ []) ≡ suc (length m) = omega (
      arith,
      length-append (keys m) (romaji ∷ []),
      length-map (λ (e : Text × ConvertResult). e.0) m,
    ) in
    elim (Bool-cases (ltb 63 (suc (length m)))) [
      | inl full ↦
          let over : ltb 64 (suc (length (keys m ++ romaji ∷ []))) ≡ true = ground arith in
          let rest : evict (keys m ++ romaji ∷ []) m ≡ (keys m ++ romaji ∷ [], m) =
            evict_stop (keys m ++ romaji ∷ []) m (omega arith) in
          rw (full, over, evict, same_refl k) rest
      | inr free ↦
          let over : ltb 64 (suc (length (keys m ++ romaji ∷ []))) ≡ false = ground arith in
          rw (free, over, evict) refl
    ]

trim_room :
    (cache : List (Text × ConvertResult))
    → length cache ≤ cache_max
    → suc (length (trim cache)) ≤ cache_max
unfolding trim
trim_room [] h = omega arith
trim_room (e ∷ m) h = ground arith

trim_by :
    (P : List (Text × ConvertResult) → Type 0) (cache : List (Text × ConvertResult))
    → P cache
    → P (tail cache)
    → P (trim cache)
unfolding trim
trim_by P cache h k = elim (Bool-cases (ltb 63 (length cache))) [ inl e ↦ rw e k | inr e ↦ rw e h ]

find-tail :
    (k : Text) (cache : List (Text × ConvertResult))
    → find k cache ≡ none
    → find k (tail cache) ≡ none
unfolding find
find-tail k [] h = h
find-tail k ((j, v) ∷ m) h = ground arith

-- What `cachePut` leaves of the cache for a reading that is not there: the oldest entry goes if the
-- cache is full, and the new one is the youngest.
cache_put_new :
    {S : Type 0} (s : Session S) (romaji : Text) (r : ConvertResult)
    → IsValid s
    → find romaji s.cache ≡ none
    → cache_put s romaji r ≡ record s {
      cache = assign romaji r (trim s.cache);
      lru = keys (trim s.cache) ++ romaji ∷ [];
    }
unfolding cache_put cache_has
cache_put_new s romaji r v h =
    let room : evict (s.lru ++ romaji ∷ []) s.cache
        ≡ (keys (trim s.cache) ++ romaji ∷ [], trim s.cache) =
      subst
        (λ l. evict (l ++ romaji ∷ []) s.cache ≡ (keys (trim s.cache) ++ romaji ∷ [], trim s.cache))
        v.order (evict_lem s.cache romaji v.room) in
    ground arith

cache_put_old :
    {S : Type 0} (s : Session S) (romaji : Text) (r w : ConvertResult)
    → find romaji s.cache ≡ some w
    → cache_put s romaji r ≡ record s { cache = assign romaji r s.cache }
unfolding cache_put cache_has
cache_put_old s romaji r w h = ground arith

All-append_one :
    (s : Text) (ts : List Text) (t : Text)
    → Differs s t
    → All (Differs s) ts
    → All (Differs s) (ts ++ t ∷ [])
All-append_one s [] t h a = (h, tt)
All-append_one s (u ∷ ts) t h a = (a.0, All-append_one s ts t h a.1)

Distinct-append :
    (ts : List Text) (t : Text)
    → All (λ s. Differs s t) ts
    → DistinctTexts ts
    → DistinctTexts (ts ++ t ∷ [])
Distinct-append [] t h d = (tt, tt)
Distinct-append (s ∷ ts) t h d = (All-append_one s ts t h.0 d.0, Distinct-append ts t h.1 d.1)

keys-Differs :
    (k : Text) (cache : List (Text × ConvertResult))
    → find k cache ≡ none
    → All (λ s. Differs s k) (keys cache)
unfolding find
keys-Differs k [] h = tt
keys-Differs k ((j, v) ∷ m) h = (ground arith, keys-Differs k m (ground arith))

size : (cache : List (Text × ConvertResult)) → length (keys cache) ≡ length cache
size = length-map (λ (e : Text × ConvertResult). e.0)

Distinct-tail :
    (cache : List (Text × ConvertResult))
    → DistinctTexts (keys cache)
    → DistinctTexts (keys (tail cache))
Distinct-tail [] d = d
Distinct-tail (e ∷ m) d = d.1

AllValues-tail :
    (cache : List (Text × ConvertResult)) → AllValues IsList cache → AllValues IsList (tail cache)
AllValues-tail [] h = h
AllValues-tail (e ∷ m) h = h.1

-- Storing a list keeps the session valid.
pub cache_put-IsValid :
    {S : Type 0} (s : Session S) (romaji : Text) (r : ConvertResult)
    → IsValid s
    → IsList r
    → IsValid (cache_put s romaji r)
cache_put-IsValid s romaji r v l = elim (Option-cases (find romaji s.cache)) [
  | inr (w, old) ↦
      let same_keys = keys-assign-some romaji r w s.cache old in
      subst IsValid (sym (cache_put_old s romaji r w old)) (record {
        order = same_keys ∙ v.order;
        room =
            omega
              (arith, size s.cache, size (assign romaji r s.cache), ap length same_keys, v.room);
        distinct = subst DistinctTexts (sym same_keys) v.distinct;
        lists = AllValues-assign IsList romaji r s.cache l v.lists;
        hints = v.hints;
      })
  | inl new ↦
      let free : find romaji (trim s.cache) ≡ none =
        trim_by (λ c. find romaji c ≡ none) s.cache new (find-tail romaji s.cache new) in
      let grown = keys-assign-none romaji r (trim s.cache) free in
      subst IsValid (sym (cache_put_new s romaji r v new)) (record {
        order = grown;
        room = omega (
          arith,
          size (trim s.cache),
          size (assign romaji r (trim s.cache)),
          ap length grown,
          trim_room s.cache v.room,
          length-append (keys (trim s.cache)) (romaji ∷ []),
        );
        distinct = subst DistinctTexts (sym grown) (
            Distinct-append (keys (trim s.cache)) romaji (keys-Differs romaji (trim s.cache) free) (
              trim_by (λ c. DistinctTexts (keys c)) s.cache v.distinct
                (Distinct-tail s.cache v.distinct)));
        lists =
            AllValues-assign IsList romaji r (trim s.cache) l
              (trim_by (AllValues IsList) s.cache v.lists (AllValues-tail s.cache v.lists));
        hints = v.hints;
      })
]

-- What was stored is found.
pub cache_get-cache_put :
    {S : Type 0} (s : Session S) (romaji : Text) (r : ConvertResult)
    → cache_get (cache_put s romaji r) romaji ≡ some r
unfolding cache_get cache_put
cache_get-cache_put s romaji r = find-assign_self romaji r _
