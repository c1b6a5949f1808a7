-- ===== src/Session/Build.antt =====
-- The lists that `buildCandidates` makes (src/session.cpp): led by the top-1, without repetitions.
use atzc.Prelude.{
  ℕ, suc, zero, ◌≡◌, refl, ap, sym, ◌∙◌, false, Bool, List, [], ◌∷◌, ◌++◌, ◌||◌, All, arith,
  if◌then◌else◌, Bool-cases, inl, inr, take, ltb, length, ◌≤◌, length-take,
}
use atzc.Prelude.Int.{ℤ, pos, negsuc}
use atzc.Prelude.Text.{Text, same, same_eq, is_empty}
use atzc.Proto.{Candidate, ConvertResult}
use atzc.Session.{shrink, cap, others, seen_in, add_source, enriched, merge}

-- Whether a list has a candidate with a surface.
unfoldable pub has_surface : Text → List Candidate → Bool
has_surface t [] = false
has_surface t (c ∷ cs) = same c.surface t || has_surface t cs

abbrev pub Differs : Text → Text → Type 0
Differs s t = same s t ≡ false

-- No two candidates have one surface.
abbrev pub DistinctSurfaces : List Candidate → Type 0
DistinctSurfaces [] = Unit
DistinctSurfaces (c ∷ cs) = All (λ d. Differs c.surface d.surface) cs × DistinctSurfaces cs

has_surface-append :
    (t : Text) (xs ys : List Candidate)
    → has_surface t (xs ++ ys) ≡ (has_surface t xs || has_surface t ys)
unfolding has_surface
has_surface-append t [] ys = refl
has_surface-append t (c ∷ xs) ys = ground (arith, has_surface-append t xs ys)

All-append_one :
    (ex : List Candidate) (c e : Candidate)
    → Differs e.surface c.surface
    → All (λ d. Differs e.surface d.surface) ex
    → All (λ d. Differs e.surface d.surface) (ex ++ c ∷ [])
All-append_one [] c e h a = (h, tt)
All-append_one (d ∷ ex) c e h a = (a.0, All-append_one ex c e h a.1)

Distinct-append :
    (ex : List Candidate) (c : Candidate)
    → has_surface c.surface ex ≡ false
    → DistinctSurfaces ex
    → DistinctSurfaces (ex ++ c ∷ [])
unfolding has_surface
Distinct-append [] c h d = (tt, tt)
Distinct-append (e ∷ ex) c h d =
    (All-append_one ex c e (ground arith) d.0, Distinct-append ex c (ground arith) d.1)

-- What `add_source` keeps of the surfaces seen, for every surface.
abbrev Agree : List Text → List Candidate → Type 0
Agree seen ex = (t : Text) → seen_in t seen ≡ has_surface t ex

record Added (cs ex : List Candidate) (r : List Text × List Candidate) : Type 0 where
  agree : Agree r.0 r.1
  distinct : DistinctSurfaces r.1
  complete : (t : Text) → has_surface t r.1 ≡ (has_surface t ex || has_surface t cs)

add_source_lem :
    (cs : List Candidate) (seen : List Text) (ex : List Candidate)
    → Agree seen ex
    → DistinctSurfaces ex
    → Added cs ex (add_source cs seen ex)
unfolding add_source has_surface seen_in
add_source_lem [] seen ex a d = record { agree = a; distinct = d; complete = λ t. ground arith }
add_source_lem (c ∷ cs) seen ex a d = elim (Bool-cases (seen_in c.surface seen)) [
  | inl old ↦
      let r = add_source_lem cs seen ex a d in
      rw (old, add_source)
        (record {
          agree = r.agree;
          distinct = r.distinct;
          complete = λ t. ground (arith, r.complete t, a c.surface, same_eq c.surface t, old);
        })
  | inr new ↦
      let r =
        add_source_lem cs (c.surface ∷ seen) (ex ++ c ∷ [])
          (λ t. ground (arith, a t, has_surface-append t ex (c ∷ [])))
          (Distinct-append ex c (sym (a c.surface) ∙ new) d) in
      rw (new, add_source)
        (record {
          agree = r.agree;
          distinct = r.distinct;
          complete = λ t. ground (arith, r.complete t, has_surface-append t ex (c ∷ []));
        })
]

enriched_lem :
    (henkan reconversion : List Candidate)
    → DistinctSurfaces (enriched henkan reconversion)
      × ((t : Text)
          → has_surface t (enriched henkan reconversion)
            ≡ (has_surface t henkan || has_surface t reconversion))
unfolding enriched has_surface seen_in
enriched_lem h r =
    let first = add_source_lem h [] [] (λ t. refl) tt in
    let (seen, ex) = add_source h [] [] in
    let both =
      add_source_lem r (add_source h [] []).0 (add_source h [] []).1 first.agree first.distinct in
    (both.distinct, λ t. ground (arith, both.complete t, first.complete t))

-- The flat list is the commit, where it is not empty, and texts that differ from it.
abbrev pub Led : Text → List Text → Type 0
Led commit candidates =
    (rest : List Text) × (candidates ≡ (if is_empty commit then [] else commit ∷ []) ++ rest)
    × All (λ c. Differs c commit) rest

-- What holds of a list that the session hands out.
pub record IsList (r : ConvertResult) : Type 0 where
  pub led : Led r.commit r.candidates
  pub distinct : DistinctSurfaces r.candidates_ex

others-All : (commit : Text) (cs : List Text) → All (λ c. Differs c commit) (others commit cs)
unfolding others
others-All commit [] = tt
others-All commit (c ∷ cs) = elim (Bool-cases (same c commit)) [
  | inl e ↦ rw (e, others) (others-All commit cs)
  | inr e ↦ rw (e, others) (e, others-All commit cs)
]

pub merge-IsList : (t1 : Text) (hres rlist : ConvertResult) → IsList (merge t1 hres rlist)
unfolding merge
merge-IsList t1 hres rlist =
    let commit = if is_empty t1 then rlist.commit else t1 in
    record {
      led = (others commit rlist.candidates, refl, others-All commit rlist.candidates);
      distinct = (enriched_lem hres.candidates_ex rlist.candidates_ex).0;
    }

All-take {ℓ κ} : {A : Type ℓ} (P : A → Type κ) (n : ℕ) (xs : List A) → All P xs → All P (take n xs)
All-take P zero xs h = tt
All-take P (suc n) [] h = tt
All-take P (suc n) (x ∷ xs) h = (h.0, All-take P n xs h.1)

Distinct-take : (n : ℕ) (cs : List Candidate) → DistinctSurfaces cs → DistinctSurfaces (take n cs)
Distinct-take zero cs h = tt
Distinct-take (suc n) [] h = tt
Distinct-take (suc n) (c ∷ cs) h = (All-take _ n cs h.0, Distinct-take n cs h.1)

Led-take :
    (n : ℕ) (commit : Text) (cands : List Text) → Led commit cands → Led commit (take (suc n) cands)
unfolding is_empty
Led-take n [] cands (rest, e, d) =
    (take (suc n) rest, ap (take (suc n)) e, All-take _ (suc n) rest d)
Led-take n (c ∷ cs) cands (rest, e, d) = (take n rest, ap (take (suc n)) e, All-take _ n rest d)

shrink_by :
    {A : Type 0} (P : List A → Type 0) (n : ℕ) (xs : List A)
    → P xs
    → P (take n xs)
    → P (shrink n xs)
shrink_by P n xs h k = elim (Bool-cases (ltb n (length xs))) [ inl e ↦ rw e k | inr e ↦ rw e h ]

pub cap-IsList : (max : ℤ) (r : ConvertResult) → IsList r → IsList (cap max r)
unfolding cap
cap-IsList (negsuc n) r v = v
cap-IsList (pos zero) r v = v
cap-IsList (pos (suc n)) r v = record {
  led =
      shrink_by (Led r.commit) (suc n) r.candidates v.led (Led-take n r.commit r.candidates v.led);
  distinct =
      shrink_by DistinctSurfaces (suc n) r.candidates_ex v.distinct
        (Distinct-take (suc n) r.candidates_ex v.distinct);
}

length-shrink : {A : Type 0} (n : ℕ) (xs : List A) → length (shrink n xs) ≤ n
length-shrink n xs = elim (Bool-cases (ltb n (length xs))) [
  | inl e ↦ rw e (omega (arith, length-take n xs))
  | inr e ↦ rw e (ground arith)
]

-- A cap above 0 bounds both lists.
pub length-cap :
    (n : ℕ) (r : ConvertResult)
    → (length (cap (pos (suc n)) r).candidates ≤ suc n)
      × (length (cap (pos (suc n)) r).candidates_ex ≤ suc n)
unfolding cap
length-cap n r = (length-shrink (suc n) r.candidates, length-shrink (suc n) r.candidates_ex)

-- The enriched list that `buildCandidates` makes has each surface of the two lists, no other, and
-- each once.
pub merge-surfaces :
    (t1 : Text) (hres rlist : ConvertResult) (t : Text)
    → DistinctSurfaces (merge t1 hres rlist).candidates_ex
      × (has_surface t (merge t1 hres rlist).candidates_ex
          ≡ (has_surface t hres.candidates_ex || has_surface t rlist.candidates_ex))
unfolding merge
merge-surfaces t1 hres rlist t =
    let both = enriched_lem hres.candidates_ex rlist.candidates_ex in (both.0, both.1 t)
