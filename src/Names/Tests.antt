-- ===== src/Names/Tests.antt =====
-- The theorems on names at concrete texts.
use atzc.Prelude.{
  ℕ, ◌-◌, ◌≡◌, ◌⊎◌, ◌&&◌, refl, true, none, some, List, [], ◌∷◌, ◌++◌, leb, map, take,
  if◌then◌else◌,
}
use atzc.Names.{lower, starts_with_i, contains_from, contains_i, ns_prefix, rewrite_ns_name}
use atzc.Names.Compare.{SameText, rewrite_ns_name_lem}

-- "xAByz" contains "ab".
contains_i_middle : contains_i (some (120 ∷ 65 ∷ 66 ∷ 121 ∷ [])) (some (97 ∷ 98 ∷ [])) ≡ true
unfolding contains_i contains_from starts_with_i lower
contains_i_middle = refl

abbrev upper : ℕ → ℕ
upper c = if leb 97 c && leb c 122 then c - 32 else c

-- The prefix in capitals, in front of "Jx".
abbrev capitals : List ℕ
capitals = map upper ns_prefix ++ 74 ∷ 120 ∷ []

rewrite_ns_name_lem_example :
    ((front bare : List ℕ) × (capitals ≡ front ++ bare)
      × SameText front ns_prefix
      × (rewrite_ns_name (some capitals) 10 ≡ some (take 9 bare)))
    ⊎ ((rewrite_ns_name (some capitals) 10 ≡ none)
        × ¬ ((front bare : List ℕ) × (capitals ≡ front ++ bare) × SameText front ns_prefix))
rewrite_ns_name_lem_example = rewrite_ns_name_lem capitals 10
