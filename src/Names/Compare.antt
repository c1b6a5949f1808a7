-- ===== src/Names/Compare.antt =====
-- Comparisons without case as comparisons of folded texts.
use atzc.Prelude.{
  ℕ, ◌+◌, ◌-◌, ◌≤◌, ◌≡◌, ◌↔◌, ◌⊎◌, refl, ap, ◌∙◌, drop, inl, inr, true, none, some, List, [], ◌∷◌,
  ◌++◌, arith, ◌==◌, length, take, map, Bool-cases, ==_eq, ==_refl,
}
use atzc.Names.{lower, eqi, starts_with_i, contains_from, contains_i, ns_prefix, rewrite_ns_name}

cons_head : {x y : ℕ} {xs ys : List ℕ} → x ∷ xs ≡ y ∷ ys → (x ≡ y) × (xs ≡ ys)
cons_head e = (cc, cc)

eqi-folded : (a b : List ℕ) → eqi a b ≡ true → map lower a ≡ map lower b
unfolding eqi
eqi-folded [] [] h = refl
eqi-folded [] (b ∷ bs) h = absurd (cc)
eqi-folded (a ∷ as') [] h = absurd (cc)
eqi-folded (a ∷ as') (b ∷ bs) h = elim (Bool-cases (lower a == lower b)) [
  | inl same ↦
      let head : lower a ≡ lower b = ==_eq (lower a) (lower b) same in
      let tail : map lower as' ≡ map lower bs = eqi-folded as' bs (ground arith) in rw (head, tail)
  | inr differ ↦ absurd (ground arith)
]

folded-eqi : (a b : List ℕ) → map lower a ≡ map lower b → eqi a b ≡ true
unfolding eqi
folded-eqi [] [] h = refl
folded-eqi [] (b ∷ bs) h = absurd (cc)
folded-eqi (a ∷ as') [] h = absurd (cc)
folded-eqi (a ∷ as') (b ∷ bs) h =
    let (head, tail) = cons_head h in rw (head, ==_refl (lower b)) (folded-eqi as' bs tail)

-- `wcs_eqi` holds exactly of texts that are the same once A to Z are folded to a to z.
pub eqi_lem : (a b : List ℕ) → (eqi a b ≡ true) ↔ (map lower a ≡ map lower b)
eqi_lem a b = (eqi-folded a b, folded-eqi a b)

-- `wcs_starts_with_i` compares the prefix with as much of the text by `wcs_eqi`.
pub starts_with_i-eqi :
    (s prefix : List ℕ) → starts_with_i s prefix ≡ eqi (take (length prefix) s) prefix
unfolding starts_with_i eqi
starts_with_i-eqi s [] = refl
starts_with_i-eqi [] (p ∷ ps) = refl
starts_with_i-eqi (c ∷ cs) (p ∷ ps) = rw (starts_with_i-eqi cs ps)

-- Two units that are the same letter: equal, or A to Z against a to z.
abbrev pub SameLetter : ℕ → ℕ → Type 0
SameLetter a b =
    (a ≡ b) ⊎ ((65 ≤ a) × (a ≤ 90) × (b ≡ a + 32)) ⊎ ((65 ≤ b) × (b ≤ 90) × (a ≡ b + 32))

-- Two texts of one length whose units are the same letters.
abbrev pub SameText : List ℕ → List ℕ → Type 0
SameText [] [] = Unit
SameText [] (b ∷ bs) = ⊥
SameText (a ∷ as') [] = ⊥
SameText (a ∷ as') (b ∷ bs) = SameLetter a b × SameText as' bs

lower-SameLetter : (a b : ℕ) → (lower a == lower b) ≡ true → SameLetter a b
unfolding lower
lower-SameLetter a b h = ground arith

SameLetter-lower : (a b : ℕ) → SameLetter a b → (lower a == lower b) ≡ true
unfolding lower
SameLetter-lower a b h = ground arith

starts_with_i-split :
    (s prefix : List ℕ)
    → starts_with_i s prefix ≡ true
    → (front bare : List ℕ) × (s ≡ front ++ bare)
      × SameText front prefix
      × (drop (length prefix) s ≡ bare)
unfolding starts_with_i
starts_with_i-split s [] h = ([], s, refl, tt, refl)
starts_with_i-split [] (p ∷ ps) h = absurd (cc)
starts_with_i-split (c ∷ cs) (p ∷ ps) h = elim (Bool-cases (lower c == lower p)) [
  | inl same ↦
      let (front, bare, e, t, d) = starts_with_i-split cs ps (rw same at h) in
      (c ∷ front, bare, ap (◌∷◌ c) e, (lower-SameLetter c p same, t), d)
  | inr differ ↦ absurd (ground arith)
]

starts_with_i-SameText :
    (front bare prefix : List ℕ)
    → SameText front prefix
    → starts_with_i (front ++ bare) prefix ≡ true
unfolding starts_with_i
starts_with_i-SameText [] bare [] h = refl
starts_with_i-SameText [] bare (p ∷ ps) h = absurd h
starts_with_i-SameText (c ∷ cs) bare [] h = absurd h
starts_with_i-SameText (c ∷ cs) bare (p ∷ ps) h =
    rw (SameLetter-lower c p h.0) (starts_with_i-SameText cs bare ps h.1)

-- A name whose front is the prefix of the private namespace, letter by letter with A to Z against a to
-- z, is rewritten to what follows, cut to the buffer without its NUL; a name that has no such front,
-- such as a shorter one, is not rewritten.
pub rewrite_ns_name_lem :
    (name : List ℕ) (cch : ℕ)
    → ((front bare : List ℕ) × (name ≡ front ++ bare)
        × SameText front ns_prefix
        × (rewrite_ns_name (some name) cch ≡ some (take (cch - 1) bare)))
      ⊎ ((rewrite_ns_name (some name) cch ≡ none)
          × ¬ ((front bare : List ℕ) × (name ≡ front ++ bare) × SameText front ns_prefix))
unfolding rewrite_ns_name
rewrite_ns_name_lem name cch = elim (Bool-cases (starts_with_i name ns_prefix)) [
  | inl found ↦
      let (front, bare, e, t, d) = starts_with_i-split name ns_prefix found in
      inl (front, bare, e, t, rw found (ap (λ l. some (take (cch - 1) l)) d))
  | inr missing ↦ inr (
    rw missing refl,
    λ (front, bare, e, t).
        let found : starts_with_i name ns_prefix ≡ true =
          ap (λ l. starts_with_i l ns_prefix) e ∙ starts_with_i-SameText front bare ns_prefix t in
        absurd (cc),
  )
]

contains-split :
    (s needle : List ℕ)
    → contains_from s needle ≡ true
    → (before rest : List ℕ) × (s ≡ before ++ rest) × (starts_with_i rest needle ≡ true)
unfolding contains_from
contains-split [] needle h = absurd (cc)
contains-split (c ∷ cs) needle h = elim (Bool-cases (starts_with_i (c ∷ cs) needle)) [
  | inl here ↦ ([], c ∷ cs, refl, here)
  | inr later ↦
      let (before, rest, e, found) = contains-split cs needle (ground arith) in
      (c ∷ before, rest, ap (λ l. c ∷ l) e, found)
]

-- A needle that is not empty is found by `wcs_contains_i` wherever the text goes on with it, in any
-- case.
pub contains_i_found :
    (before rest ns : List ℕ) (n : ℕ)
    → starts_with_i rest (n ∷ ns) ≡ true
    → contains_i (some (before ++ rest)) (some (n ∷ ns)) ≡ true
unfolding contains_i contains_from starts_with_i
contains_i_found [] [] ns n h = absurd (cc)
contains_i_found [] (c ∷ cs) ns n h = rw h
contains_i_found (b ∷ bs) rest ns n h =
    let found = contains_i_found bs rest ns n h in ground (arith, found)
