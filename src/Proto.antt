-- ===== src/Proto.antt =====
-- The lines of the socket protocol and the results that they carry: src/include/atzc/proto.h.
pub mod Laws
pub mod Line
use atzc.Prelude.{
  ℕ, ◌+◌, ◌-◌, ◌<◌, ◌≡◌, true, false, Bool, List, [], ◌∷◌, ◌++◌, ◌||◌, ◌&&◌, ◌==◌, if◌then◌else◌,
  length, arith,
}
use atzc.Prelude.Text.{Text, same}

-- One enriched candidate.
pub record Candidate : Type 0 where
  pub surface : Text
  pub reading : Text
  pub hinsi : Text

pub record ConvertResult : Type 0 where
  pub commit : Text
  pub candidates : List Text
  pub candidates_ex : List Candidate

abbrev pub no_result : ConvertResult
no_result = record { commit = []; candidates = []; candidates_ex = [] }

abbrev pub is_eol : ℕ → Bool
is_eol c = c == 13 || c == 10

-- The loop over the line, with the field that it collects in `cur`.
unfoldable pub split_from : Text → Text → List Text
split_from [] cur = cur ∷ []
split_from (c ∷ s) cur = elim (c == 9) [
  | true ↦ cur ∷ split_from s []
  | false ↦ split_from s (if is_eol c then cur else cur ++ c ∷ [])
]

unfoldable pub split_tabs : Text → List Text
unfolding split_from
split_tabs line = split_from line []

-- The loop over the fields behind the first one, and the end of the line.
unfoldable pub join_rest : List Text → Text
join_rest [] = 10 ∷ []
join_rest (f ∷ fs) = 9 ∷ (f ++ join_rest fs)

unfoldable pub join_tabs : List Text → Text
unfolding join_rest
join_tabs [] = 10 ∷ []
join_tabs (f ∷ fs) = f ++ join_rest fs
