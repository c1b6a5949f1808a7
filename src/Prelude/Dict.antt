-- ===== src/Prelude/Dict.antt =====
-- Maps with text keys, as association lists in the order of insertion.
use mathlib.Core.Path.{◌≡◌, refl, subst, ◌∙◌}
use mathlib.Core.Logic.{inl, inr}
use mathlib.Core.List.{List, [], ◌∷◌, ◌++◌, map}
use mathlib.Core.Option.{Option, none, some}
use native.Mathlib.Omega.{arith}
use atzc.Prelude.Tests.{if◌then◌else◌, Bool-cases}
use atzc.Prelude.Lists.{All}
use atzc.Prelude.Text.{Text, same, same_eq, same_refl}

module _ {V : Type 0} where
  abbrev pub keys : List (Text × V) → List Text
  keys = map (λ e. e.0)

  unfoldable pub find : Text → List (Text × V) → Option V
  find k [] = none
  find k ((j, v) ∷ m) = if same j k then some v else find k m

  unfoldable pub assign : Text → V → List (Text × V) → List (Text × V)
  assign k v [] = (k, v) ∷ []
  assign k v ((j, w) ∷ m) = if same j k then (j, v) ∷ m else (j, w) ∷ assign k v m

  unfoldable pub erase : Text → List (Text × V) → List (Text × V)
  erase k [] = []
  erase k ((j, w) ∷ m) = if same j k then m else (j, w) ∷ erase k m

  pub find-assign :
      (k j : Text) (v : V) (m : List (Text × V))
      → find j (assign k v m) ≡ (if same k j then some v else find j m)
  unfolding find assign
  find-assign k j v [] = refl
  find-assign k j v ((i, w) ∷ m) =
      ground (
        arith,
        same_eq i k,
        same_eq i j,
        same_eq k j,
        same_refl i,
        same_refl k,
        find-assign k j v m,
      )

  pub find-assign_self : (k : Text) (v : V) (m : List (Text × V)) → find k (assign k v m) ≡ some v
  find-assign_self k v m = find-assign k k v m ∙ rw (same_refl k) refl

  pub keys-assign-none :
      (k : Text) (v : V) (m : List (Text × V))
      → find k m ≡ none
      → keys (assign k v m) ≡ keys m ++ k ∷ []
  unfolding find assign
  keys-assign-none k v [] h = refl
  keys-assign-none k v ((j, w) ∷ m) h = ground (arith, keys-assign-none k v m)

  pub keys-assign-some :
      (k : Text) (v w : V) (m : List (Text × V)) → find k m ≡ some w → keys (assign k v m) ≡ keys m
  unfolding find assign
  keys-assign-some k v w [] h = cc
  keys-assign-some k v w ((j, u) ∷ m) h = ground (arith, keys-assign-some k v w m)

  -- A property of every value.
  abbrev pub AllValues {κ} : (V → Type κ) → List (Text × V) → Type κ
  AllValues P = All (λ e. P e.1)

  pub AllValues-assign {κ} :
      (P : V → Type κ) (k : Text) (v : V) (m : List (Text × V))
      → P v
      → AllValues P m
      → AllValues P (assign k v m)
  unfolding assign
  AllValues-assign P k v [] p h = (p, tt)
  AllValues-assign P k v ((j, w) ∷ m) p h = elim (Bool-cases (same j k)) [
    | inl e ↦ rw (e, assign) (p, h.1)
    | inr e ↦ rw (e, assign) (h.0, AllValues-assign P k v m p h.1)
  ]

  pub AllValues-find {κ} :
      (P : V → Type κ) (k : Text) (v : V) (m : List (Text × V))
      → AllValues P m
      → find k m ≡ some v
      → P v
  unfolding find
  AllValues-find P k v [] h e = cc
  AllValues-find P k v ((j, w) ∷ m) h e = elim (Bool-cases (same j k)) [
    | inl q ↦ let here : w ≡ v = ground arith in subst P here h.0
    | inr q ↦ AllValues-find P k v m h.1 (ground arith)
  ]
