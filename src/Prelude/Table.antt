-- ===== src/Prelude/Table.antt =====
-- Arrays searched from the front by a number: the loops that look an entry up, and that remove the
-- first entry found by shifting those behind it down.
use mathlib.Core.Path.{subst}
use atzc.Prelude.{
  zero, suc, ◌<◌, ◌≤◌, false, false, get_elem?, ℕ, ◌≡◌, ◌≢◌, refl, ◌∙◌, ==_eq, ==_refl, sym, ap,
  Option, none, some, List, [], ◌∷◌, ◌++◌, arith, ◌==◌, if◌then◌else◌, ◌>>=◌, Option-cases, length,
  All, inl, inr, Bool-cases,
}

-- `for (; i + 1 < count; i++) items[i] = items[i + 1]; count--`
abbrev pub remove_at : {A : Type 0} → List A → ℕ → List A
remove_at [] i = []
remove_at (x ∷ xs) zero = xs
remove_at (x ∷ xs) (suc i) = x ∷ remove_at xs i

module _ {A : Type 0} (key : A → ℕ) where
  unfoldable pub find_key : List A → ℕ → Option A
  find_key [] k = none
  find_key (x ∷ xs) k = if key x == k then some x else find_key xs k

  unfoldable pub remove_key : List A → ℕ → List A
  remove_key [] k = []
  remove_key (x ∷ xs) k = if key x == k then xs else x ∷ remove_key xs k

  -- The index of the first entry found.
  unfoldable pub index_key : List A → ℕ → Option ℕ
  index_key [] k = none
  index_key (x ∷ xs) k = if key x == k then some 0 else (index_key xs k >>= λ i. some (suc i))

  abbrev pub Absent : ℕ → List A → Type 0
  Absent k = All (λ x. key x ≢ k)

  -- No two entries have the same key.
  abbrev pub Distinct : List A → Type 0
  Distinct [] = Unit
  Distinct (x ∷ xs) = Absent (key x) xs × Distinct xs

  pub find_key-Absent : (xs : List A) (k : ℕ) → find_key xs k ≡ none → Absent k xs
  unfolding find_key
  find_key-Absent [] k h = tt
  find_key-Absent (x ∷ xs) k h = elim (Bool-cases (key x == k)) [
    | inl found ↦ ground arith
    | inr other ↦ (ground arith, find_key-Absent xs k (ground arith))
  ]

  pub Absent-find_key : (xs : List A) (k : ℕ) → Absent k xs → find_key xs k ≡ none
  unfolding find_key
  Absent-find_key [] k h = refl
  Absent-find_key (x ∷ xs) k h = ground (arith, Absent-find_key xs k h.1)

  pub find_key-append :
      (xs : List A) (x : A) (k : ℕ)
      → Absent (key x) xs
      → find_key (xs ++ x ∷ []) k ≡ (if key x == k then some x else find_key xs k)
  unfolding find_key
  find_key-append [] x k h = refl
  find_key-append (y ∷ xs) x k h = ground (arith, find_key-append xs x k h.1)

  pub remove_key-append :
      (xs : List A) (x : A) (k : ℕ) → key x ≡ k → Absent k xs → remove_key (xs ++ x ∷ []) k ≡ xs
  unfolding remove_key
  remove_key-append [] x k e h = ground arith
  remove_key-append (y ∷ xs) x k e h = ground (arith, remove_key-append xs x k e h.1)

  Absent-get_elem? :
      (xs : List A) (k i : ℕ) (x : A) → Absent k xs → get_elem? xs i ≡ some x → key x ≢ k
  Absent-get_elem? [] k i x h e = absurd (cc)
  Absent-get_elem? (y ∷ xs) k zero x h e = let same : y ≡ x = cc in λ f. h.0 (ap key same ∙ f)
  Absent-get_elem? (y ∷ xs) k (suc i) x h e = Absent-get_elem? xs k i x h.1 e

  pub Absent-append :
      (xs : List A) (x : A) (k : ℕ) → Absent k xs → key x ≢ k → Absent k (xs ++ x ∷ [])
  Absent-append [] x k h e = (e, tt)
  Absent-append (y ∷ xs) x k h e = (h.0, Absent-append xs x k h.1 e)

  pub Distinct-append :
      (xs : List A) (x : A) → Distinct xs → Absent (key x) xs → Distinct (xs ++ x ∷ [])
  Distinct-append [] x d h = (tt, tt)
  Distinct-append (y ∷ xs) x d h =
      (Absent-append xs x (key y) d.0 (λ e. h.0 (sym e)), Distinct-append xs x d.1 h.1)

  pub Absent-remove_key : (xs : List A) (k j : ℕ) → Absent k xs → Absent k (remove_key xs j)
  unfolding remove_key
  Absent-remove_key [] k j h = tt
  Absent-remove_key (x ∷ xs) k j h = elim (Bool-cases (key x == j)) [
    | inl hit ↦ rw hit h.1
    | inr miss ↦ rw miss (h.0, Absent-remove_key xs k j h.1)
  ]

  pub Distinct-remove_key : (xs : List A) (k : ℕ) → Distinct xs → Distinct (remove_key xs k)
  unfolding remove_key
  Distinct-remove_key [] k d = tt
  Distinct-remove_key (x ∷ xs) k d = elim (Bool-cases (key x == k)) [
    | inl hit ↦ rw hit d.1
    | inr miss ↦ rw miss (Absent-remove_key xs (key x) k d.0, Distinct-remove_key xs k d.1)
  ]

  -- With distinct keys, removal takes one key away and leaves the others.
  pub find_key-remove_key :
      (xs : List A) (j k : ℕ)
      → Distinct xs
      → find_key (remove_key xs j) k ≡ (if j == k then none else find_key xs k)
  unfolding find_key remove_key
  find_key-remove_key [] j k d = ground arith
  find_key-remove_key (x ∷ xs) j k d =
      ground (arith, find_key-remove_key xs j k d.1, Absent-find_key xs (key x) d.0)

  pub length-remove_key :
      (xs : List A) (k : ℕ) {x : A}
      → find_key xs k ≡ some x
      → suc (length (remove_key xs k)) ≡ length xs
  unfolding find_key remove_key
  length-remove_key [] k h = cc
  length-remove_key (y ∷ xs) k {x} h = elim (Bool-cases (key y == k)) [
    | inl hit ↦ rw hit
    | inr miss ↦ rw miss (ap suc (length-remove_key xs k {x = x} (ground arith)))
  ]

  -- The entry at the index found is the entry found.
  pub get_elem?-index_key :
      (xs : List A) (k i : ℕ) → index_key xs k ≡ some i → get_elem? xs i ≡ find_key xs k
  unfolding index_key find_key
  get_elem?-index_key [] k i h = absurd (cc)
  get_elem?-index_key (y ∷ xs) k zero h = elim (Bool-cases (key y == k)) [
    | inl hit ↦ rw hit
    | inr miss ↦ elim (Option-cases (index_key xs k)) [
      | inl gone ↦ absurd (ground arith)
      | inr (j, e) ↦ absurd (ground arith)
    ]
  ]
  get_elem?-index_key (y ∷ xs) k (suc i) h = elim (Bool-cases (key y == k)) [
    | inl hit ↦ absurd (ground arith)
    | inr miss ↦ elim (Option-cases (index_key xs k)) [
      | inl gone ↦ absurd (ground arith)
      | inr (j, e) ↦ rw miss (get_elem?-index_key xs k i (ground arith))
    ]
  ]

  -- Removal at the index found is removal of the key.
  pub remove_at-index_key :
      (xs : List A) (k i : ℕ) → index_key xs k ≡ some i → remove_at xs i ≡ remove_key xs k
  unfolding index_key remove_key
  remove_at-index_key [] k i h = absurd (cc)
  remove_at-index_key (y ∷ xs) k zero h = elim (Bool-cases (key y == k)) [
    | inl hit ↦ rw hit
    | inr miss ↦ elim (Option-cases (index_key xs k)) [
      | inl gone ↦ absurd (ground arith)
      | inr (j, e) ↦ absurd (ground arith)
    ]
  ]
  remove_at-index_key (y ∷ xs) k (suc i) h = elim (Bool-cases (key y == k)) [
    | inl hit ↦ absurd (ground arith)
    | inr miss ↦ elim (Option-cases (index_key xs k)) [
      | inl gone ↦ absurd (ground arith)
      | inr (j, e) ↦ rw miss (ap (λ l. y ∷ l) (remove_at-index_key xs k i (ground arith)))
    ]
  ]

  -- With distinct keys, the entry at an index is removed by its key.
  pub remove_at-Distinct :
      (xs : List A) (i : ℕ) (x : A)
      → Distinct xs
      → get_elem? xs i ≡ some x
      → remove_at xs i ≡ remove_key xs (key x)
  unfolding remove_key
  remove_at-Distinct [] i x d h = absurd (cc)
  remove_at-Distinct (y ∷ xs) zero x d h = let e : y ≡ x = cc in rw (e, ==_refl (key x))
  remove_at-Distinct (y ∷ xs) (suc i) x d h = elim (Bool-cases (key y == key x)) [
    | inl hit ↦ absurd (Absent-get_elem? xs (key y) i x d.0 h (sym (==_eq _ _ hit)))
    | inr miss ↦ rw miss (ap (λ l. y ∷ l) (remove_at-Distinct xs i x d.1 h))
  ]

  -- With distinct keys, the entry at an index is the one found by its key.
  pub find_key-Distinct :
      (xs : List A) (i : ℕ) (x : A)
      → Distinct xs
      → get_elem? xs i ≡ some x
      → find_key xs (key x) ≡ some x
  unfolding find_key
  find_key-Distinct [] i x d h = absurd (cc)
  find_key-Distinct (y ∷ xs) zero x d h = let e : y ≡ x = cc in rw (e, ==_refl (key x))
  find_key-Distinct (y ∷ xs) (suc i) x d h = elim (Bool-cases (key y == key x)) [
    | inl hit ↦ absurd (Absent-get_elem? xs (key y) i x d.0 h (sym (==_eq _ _ hit)))
    | inr miss ↦ rw miss (find_key-Distinct xs i x d.1 h)
  ]

  -- An appended entry is found behind the others.
  pub index_key-append :
      (xs : List A) (x : A) (k : ℕ)
      → key x ≡ k
      → Absent k xs
      → (i : ℕ) × (index_key (xs ++ x ∷ []) k ≡ some i)
  unfolding index_key
  index_key-append [] x k e h = (0, ground arith)
  index_key-append (y ∷ xs) x k e h =
      let (i, found) = index_key-append xs x k e h.1 in
      let miss : (key y == k) ≡ false = ground (arith, h.0) in (suc i, rw (miss, found))

  -- What holds of every entry holds of the one found.
  pub All-find_key :
      (P : A → Type 0) (xs : List A) (k : ℕ) (x : A) → All P xs → find_key xs k ≡ some x → P x
  unfolding find_key
  All-find_key P [] k x h e = absurd (cc)
  All-find_key P (y ∷ xs) k x h e = elim (Bool-cases (key y == k)) [
    | inl hit ↦ let same : y ≡ x = ground arith in subst P same h.0
    | inr miss ↦ All-find_key P xs k x h.1 (ground arith)
  ]

  pub All-append : (P : A → Type 0) (xs : List A) (x : A) → All P xs → P x → All P (xs ++ x ∷ [])
  All-append P [] x h p = (p, tt)
  All-append P (y ∷ xs) x h p = (h.0, All-append P xs x h.1 p)

  pub All-remove_key : (P : A → Type 0) (xs : List A) (k : ℕ) → All P xs → All P (remove_key xs k)
  unfolding remove_key
  All-remove_key P [] k h = tt
  All-remove_key P (x ∷ xs) k h = elim (Bool-cases (key x == k)) [
    | inl hit ↦ rw hit h.1
    | inr miss ↦ rw miss (h.0, All-remove_key P xs k h.1)
  ]

  -- Keys under a bound stay under a larger one, and are not the bound.
  abbrev pub Below : ℕ → List A → Type 0
  Below n = All (λ x. key x < n)

  pub Below-weaken : (xs : List A) (a b : ℕ) → a ≤ b → Below a xs → Below b xs
  Below-weaken [] a b h p = tt
  Below-weaken (x ∷ xs) a b h p = (omega (arith, p.0), Below-weaken xs a b h p.1)

  pub Below-Absent : (xs : List A) (k : ℕ) → Below k xs → Absent k xs
  Below-Absent [] k p = tt
  Below-Absent (x ∷ xs) k p = (omega (arith, p.0), Below-Absent xs k p.1)

  pub length-remove_key_le : (xs : List A) (k : ℕ) → length (remove_key xs k) ≤ length xs
  unfolding remove_key
  length-remove_key_le [] k = omega arith
  length-remove_key_le (x ∷ xs) k = ground (arith, length-remove_key_le xs k)

  -- Where the key is not found, removal changes nothing.
  pub remove_key-none : (xs : List A) (k : ℕ) → find_key xs k ≡ none → remove_key xs k ≡ xs
  unfolding find_key remove_key
  remove_key-none [] k h = refl
  remove_key-none (x ∷ xs) k h = elim (Bool-cases (key x == k)) [
    | inl hit ↦ absurd (ground arith)
    | inr miss ↦ rw miss (ap (λ l. x ∷ l) (remove_key-none xs k (ground arith)))
  ]

  -- What is found stands somewhere.
  pub find_key-get_elem? :
      (xs : List A) (k : ℕ) (x : A)
      → find_key xs k ≡ some x
      → (i : ℕ) × (get_elem? xs i ≡ some x) × (key x ≡ k)
  unfolding find_key
  find_key-get_elem? [] k x h = absurd (cc)
  find_key-get_elem? (y ∷ xs) k x h = elim (Bool-cases (key y == k)) [
    | inl hit ↦ let same : y ≡ x = ground arith in (0, ap some same, rw (sym same) (==_eq _ _ hit))
    | inr miss ↦ let (i, at, e) = find_key-get_elem? xs k x (ground arith) in (suc i, at, e)
  ]
