-- ===== src/Client/Replies.antt =====
-- What the client makes of the replies that the daemon prints (src/client.cpp, src/atzcd/main.cpp).
use atzc.Prelude.{
  ◌≡◌, refl, ap, false, List, [], ◌∷◌, All, map, if◌then◌else◌, Bool-cases, inl, inr,
}
use atzc.Prelude.Text.{Text, is_empty}
use atzc.Proto.{Candidate, ConvertResult}
use atzc.Proto.Laws.{IsPlain}
use atzc.Daemon.{triples, flat_triples}
use atzc.Client.{parse_triples, surfaces, parse_enriched}

pub record IsNamed (c : Candidate) : Type 0 where
  pub surface : All IsPlain c.surface
  pub reading : All IsPlain c.reading
  pub hinsi : All IsPlain c.hinsi
  pub named : is_empty c.surface ≡ false

abbrev pub IsNamedText : Text → Type 0
IsNamedText t = All IsPlain t × (is_empty t ≡ false)

-- A result whose texts fit the fields of a line, and whose candidates have a surface.
pub record IsCarried (r : ConvertResult) : Type 0 where
  pub commit : All IsPlain r.commit
  pub candidates : All IsNamedText r.candidates
  pub candidates_ex : All IsNamed r.candidates_ex

abbrev pub bare : Text → Candidate
bare t = record { surface = t; reading = []; hinsi = [] }

-- What "candidates-ex" gives for a result: its enriched list, or its flat one where that is empty.
pub carried : ConvertResult → ConvertResult
carried r =
    let ex = if is_empty r.candidates_ex then map bare r.candidates else r.candidates_ex in
    record { commit = r.commit; candidates = surfaces ex; candidates_ex = ex }

parse_triples-triples : (cs : List Candidate) → All IsNamed cs → parse_triples (triples cs) ≡ cs
unfolding parse_triples triples
parse_triples-triples [] h = refl
parse_triples-triples (c ∷ cs) h = rw (h.0.named) (ap (◌∷◌ c) (parse_triples-triples cs h.1))

parse_triples-flat_triples :
    (cs : List Text) → All IsNamedText cs → parse_triples (flat_triples cs) ≡ map bare cs
unfolding parse_triples flat_triples
parse_triples-flat_triples [] h = refl
parse_triples-flat_triples (c ∷ cs) h =
    rw (h.0.1) (ap (◌∷◌ (bare c)) (parse_triples-flat_triples cs h.1))

-- The fields behind the verb of the reply to "candidates-ex".
abbrev pub enriched_fields : ConvertResult → List Text
enriched_fields r =
    r.commit
    ∷ (if is_empty r.candidates_ex then flat_triples r.candidates else triples r.candidates_ex)

pub parse_enriched_lem :
    (r : ConvertResult) → IsCarried r → parse_enriched (enriched_fields r) ≡ carried r
unfolding parse_enriched carried
parse_enriched_lem r h =
    let same_list : parse_triples
          (if is_empty r.candidates_ex then flat_triples r.candidates else triples r.candidates_ex)
        ≡ (if is_empty r.candidates_ex then map bare r.candidates else r.candidates_ex) =
      elim (Bool-cases (is_empty r.candidates_ex)) [
        | inl e ↦ rw e (parse_triples-flat_triples r.candidates h.candidates)
        | inr e ↦ rw e (parse_triples-triples r.candidates_ex h.candidates_ex)
      ] in
    ap (λ cs. record { commit = r.commit; candidates = surfaces cs; candidates_ex = cs }) same_list

triples-All : (cs : List Candidate) → All IsNamed cs → All (All IsPlain) (triples cs)
unfolding triples
triples-All [] h = tt
triples-All (c ∷ cs) h = (h.0.surface, (h.0.reading, (h.0.hinsi, triples-All cs h.1)))

flat_triples-All : (cs : List Text) → All IsNamedText cs → All (All IsPlain) (flat_triples cs)
unfolding flat_triples
flat_triples-All [] h = tt
flat_triples-All (c ∷ cs) h = (h.0.0, (tt, (tt, flat_triples-All cs h.1)))

pub enriched_fields-All : (r : ConvertResult) → IsCarried r → All (All IsPlain) (enriched_fields r)
enriched_fields-All r h = (
  h.commit,
  elim (Bool-cases (is_empty r.candidates_ex)) [
    | inl e ↦ rw e (flat_triples-All r.candidates h.candidates)
    | inr e ↦ rw e (triples-All r.candidates_ex h.candidates_ex)
  ],
)

pub flat_fields-All : (cs : List Text) → All IsNamedText cs → All (All IsPlain) cs
flat_fields-All [] h = tt
flat_fields-All (c ∷ cs) h = (h.0.0, flat_fields-All cs h.1)
