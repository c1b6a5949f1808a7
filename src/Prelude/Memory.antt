-- ===== src/Prelude/Memory.antt =====
-- C arrays as lists: reads, writes and moves that stop at an access outside the array.
use atzc.Prelude.{
  ℕ, zero, suc, ◌+◌, ◌≤◌, ◌<◌, ◌≡◌, refl, sym, ap, ◌∙◌, inl, inr, ◌&&◌, List, [], ◌∷◌, ◌++◌,
  append_assoc, Option, none, some, arith, ltb, leb, if◌then◌else◌, ◌>>=◌, length, get_elem?, set,
  take, drop, length-set, length-take, length-append, drop-cons, drop-drop, set-take-drop,
  take-append_ge, take-append-drop, drop-append_eq, le→leb, lt→leb, lt→ltb, ltb→lt, Bool-cases,
}

module _ {ℓ} {A : Type ℓ} where
  -- `for (i = 0; i < n; i++) out[i] = buf[at + i]`
  unfoldable pub read_chars : List A → ℕ → ℕ → Option (List A)
  read_chars buf at zero = some []
  read_chars buf at (suc n) = do c ← get_elem? buf at; cs ← read_chars buf (at + 1) n; some (c ∷ cs)

  -- `for (i = 0; i < length cs; i++) buf[at + i] = cs[i]`
  unfoldable pub write_chars : List A → ℕ → List A → Option (List A)
  write_chars buf at [] = some buf
  write_chars buf at (c ∷ cs) =
      if ltb at (length buf) then write_chars (set buf at c) (at + 1) cs else none

  -- `MoveMemory(buf + to, buf + from, n * sizeof *buf)`
  unfoldable pub move_memory : List A → ℕ → ℕ → ℕ → Option (List A)
  move_memory buf to from n =
      if leb (from + n) (length buf) && leb (to + n) (length buf)
      then some (take to buf ++ (take n (drop from buf) ++ drop (to + n) buf))
      else none

module _ {ℓ} {A : Type ℓ} where
  -- A read inside the array returns its elements.
  pub read_chars_lem :
      (buf : List A) (at n : ℕ)
      → at + n ≤ length buf
      → read_chars buf at n ≡ some (take n (drop at buf))
  unfolding read_chars
  read_chars_lem buf at zero h = refl
  read_chars_lem buf at (suc n) h =
      let (x, e, d) = drop-cons at buf (omega arith) in
      let next : at + 1 ≡ suc at = omega arith in
      rw (e, read_chars_lem buf (at + 1) n (omega arith), next, d)

  -- After one write the array is its front, the element and its tail.
  take-set :
      (buf : List A) (at : ℕ) (c : A)
      → at < length buf
      → take (at + 1) (set buf at c) ≡ take at buf ++ c ∷ []
  take-set buf at c h = rw (set-take-drop at buf c h) (
      take-append_ge (at + 1) 1 (take at buf) (c ∷ drop (suc at) buf)
        (omega (arith, length-take at buf)))

  drop-set :
      (buf : List A) (at k j : ℕ) (c : A)
      → at < length buf
      → at + 1 + k ≡ j
      → drop j (set buf at c) ≡ drop j buf
  drop-set buf at k j c h e =
      sym (drop-drop (at + 1) k j (set buf at c) e)
      ∙ ap (drop k) step
      ∙ drop-drop (suc at) k j buf (omega arith)
    where
      step : drop (at + 1) (set buf at c) ≡ drop (suc at) buf
      step =
          rw (set-take-drop at buf c h, ← append_assoc (take at buf) (c ∷ []) (drop (suc at) buf))
            (drop-append_eq (at + 1) (take at buf ++ c ∷ []) (drop (suc at) buf)
              (omega (arith, length-take at buf, length-append (take at buf) (c ∷ []))))

  -- Writes inside the array put the text between the front and the tail.
  pub write_chars_lem :
      (buf : List A) (at : ℕ) (cs : List A)
      → at + length cs ≤ length buf
      → write_chars buf at cs ≡ some (take at buf ++ (cs ++ drop (at + length cs) buf))
  unfolding write_chars
  write_chars_lem buf at [] h = let e : at + 0 ≡ at = omega arith in rw (e, take-append-drop at buf)
  write_chars_lem buf at (c ∷ cs) h =
      let e : at + 1 + length cs ≡ at + suc (length cs) = omega arith in
      let inside : at < length buf = omega arith in
      rw (lt→ltb at (length buf) inside) (
        write_chars_lem (set buf at c) (at + 1) cs (omega (arith, length-set buf at c))
        ∙ rw (
          take-set buf at c inside,
          e,
          drop-set buf at (length cs) _ c inside e,
          append_assoc (take at buf) (c ∷ []),
        ))

  -- A write that runs past the end of the array stops the program.
  pub write_chars_fault :
      (buf : List A) (at : ℕ) (cs : List A)
      → at ≤ length buf
      → length buf < at + length cs
      → write_chars buf at cs ≡ none
  unfolding write_chars
  write_chars_fault buf at [] h k = absurd (omega arith)
  write_chars_fault buf at (c ∷ cs) h k = elim (Bool-cases (ltb at (length buf))) [
    | inl inside ↦ rw inside (
        write_chars_fault (set buf at c) (at + 1) cs
          (omega (arith, length-set buf at c, ltb→lt at (length buf) inside))
          (omega (arith, length-set buf at c)))
    | inr past ↦ rw past
  ]

  -- A move inside the array.
  pub move_memory_lem :
      (buf : List A) (to from n : ℕ)
      → from + n ≤ length buf
      → to + n ≤ length buf
      → move_memory buf to from n
        ≡ some (take to buf ++ (take n (drop from buf) ++ drop (to + n) buf))
  unfolding move_memory
  move_memory_lem buf to from n h k = rw (le→leb _ _ h, le→leb _ _ k)

  -- A move that reads past the end of the array stops the program.
  pub move_memory_fault :
      (buf : List A) (to from n : ℕ) → length buf < from + n → move_memory buf to from n ≡ none
  unfolding move_memory
  move_memory_fault buf to from n h = rw (lt→leb _ _ h)
