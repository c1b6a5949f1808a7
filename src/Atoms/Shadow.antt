-- ===== src/Atoms/Shadow.antt =====
-- The values of compartments that the shim remembers.
use atzc.Prelude.{
  ℕ, ◌<◌, ◌≡◌, ◌≢◌, ◌⊎◌, refl, inl, inr, true, Option, none, some, List, [], ◌∷◌, ◌++◌, arith, ◌==◌,
  if◌then◌else◌, length, Bool-cases, Option-cases, lt→leb,
}
use atzc.Prelude.Table.{find_key, find_key-Absent, find_key-append}
use atzc.Com.{HResult, s_ok, is_ok}
use atzc.Atoms.{
  Variant, ShadowEntry, shadow_guid, variant_is_shadowable, compartment_value_max, replace_value,
  shadow_set, shadow_get, default_value, get_value, set_value,
}

-- The value that is found after the replacement.
value_at : List ShadowEntry → ℕ → Option Variant
value_at t k = elim (find_key shadow_guid t k) [ none ↦ none | some e ↦ some e.value ]

find_key-replace_value :
    (t : List ShadowEntry) (g k : ℕ) (v : Variant) (e : ShadowEntry)
    → find_key shadow_guid t g ≡ some e
    → value_at (replace_value t g v) k ≡ (if g == k then some v else value_at t k)
unfolding replace_value find_key value_at
find_key-replace_value [] g k v e h = absurd (cc)
find_key-replace_value (x ∷ t) g k v e h = ground (arith, find_key-replace_value t g k v e)

module _ (openclose disabled empty_context : ℕ) (t : List ShadowEntry) where
  shadow_get-value_at :
      (k : ℕ)
      → shadow_get openclose disabled empty_context t (some k) true ≡ (elim (value_at t k) [
        | none ↦ default_value openclose disabled empty_context k
        | some v ↦ some v
      ])
  unfolding shadow_get value_at
  shadow_get-value_at k = elim (Option-cases (find_key shadow_guid t k)) [
    | inl gone ↦ rw (shadow_get, value_at, gone)
    | inr (e, found) ↦ rw (shadow_get, value_at, found)
  ]

value_at-append :
    (t : List ShadowEntry) (g k : ℕ) (v : Variant)
    → find_key shadow_guid t g ≡ none
    → value_at (t ++ record { guid = g; value = v } ∷ []) k
      ≡ (if g == k then some v else value_at t k)
unfolding value_at
value_at-append t g k v new =
    let found =
      find_key-append shadow_guid t (record { guid = g; value = v }) k
        (find_key-Absent shadow_guid t g new) in
    elim (Bool-cases (g == k)) [
      | inl same ↦ rw (value_at, found, same)
      | inr differ ↦ rw (value_at, found, differ)
    ]

-- The table after a value that can be remembered is set: the value, and every other one as before.
value_at-shadow_set :
    (t : List ShadowEntry) (g k : ℕ) (v : Variant)
    → variant_is_shadowable (some v) ≡ true
    → (find_key shadow_guid t g ≢ none) ⊎ (length t < compartment_value_max)
    → value_at (shadow_set t (some g) (some v)) k ≡ (if g == k then some v else value_at t k)
unfolding shadow_set
value_at-shadow_set t g k v ok room = elim (Option-cases (find_key shadow_guid t g)) [
  | inr (e, known) ↦ rw (ok, shadow_set, known) (find_key-replace_value t g k v e known)
  | inl new ↦
      let fits : length t < compartment_value_max = elim room [
        | inl h ↦ absurd (h new)
        | inr l ↦ l
      ] in
      rw (ok, shadow_set, new, lt→leb compartment_value_max (length t) fits)
        (value_at-append t g k v new)
]

-- A compartment whose system counterpart accepts a value that can be remembered, and later fails to
-- give one, answers S_OK with the value that was set last, while the table has room or has the
-- GUID. Every other compartment answers as before.
pub get_value-set_value :
    (openclose disabled empty_context : ℕ) (t : List ShadowEntry) (g : ℕ) (v : Variant)
    → variant_is_shadowable (some v) ≡ true
    → (find_key shadow_guid t g ≢ none) ⊎ (length t < compartment_value_max)
    → (t' : List ShadowEntry) × (set_value (some s_ok) t g (some v) ≡ (s_ok, t'))
      × ((k : ℕ) (hr : HResult) (old : Option Variant)
          → get_value openclose disabled empty_context (some (hr, old)) t' k true ≡ (
              if is_ok hr
              then (hr, old)
              else if g == k
              then (s_ok, some v)
              else get_value openclose disabled empty_context (some (hr, old)) t k true))
unfolding set_value get_value
get_value-set_value openclose disabled empty_context t g v ok room = (
  shadow_set t (some g) (some v),
  refl,
  λ k hr old.
      let set = value_at-shadow_set t g k v ok room in
      let now =
        shadow_get-value_at openclose disabled empty_context (shadow_set t (some g) (some v)) k in
      let before = shadow_get-value_at openclose disabled empty_context t k in
      elim (Bool-cases (is_ok hr)) [
        | inl fine ↦ rw fine
        | inr failed ↦ elim (Bool-cases (g == k)) [
          | inl same ↦ rw (failed, now, set, same)
          | inr differ ↦ rw (failed, now, before, set, differ)
        ]
      ],
)
