-- ===== src/Composition/Valid.antt =====
-- The invariant of the composing context, and its text.
use atzc.Prelude.{
  ℕ, ◌+◌, ◌≤◌, ◌<◌, ◌≡◌, refl, Option, some, List, [], ◌∷◌, ◌++◌, arith, ◌>>=◌, length, take, drop,
  length-take, length-drop, length-append, take-append_eq, length-replicate,
}
use atzc.Prelude.Memory.{write_chars_lem}
use atzc.TextStore.{TextStore}
use atzc.Composition.{Context, comp_chars, make_context, sync_context_ranges, terminate}

pub record IsValid (c : Context) : Type 0 where
  pub text_size : length c.comp_text ≡ comp_chars
  pub len_fits : c.comp_len < comp_chars
  pub ordered : c.range_start ≤ c.range_end

-- The composed text.
abbrev pub comp : Context → List ℕ
comp c = take c.comp_len c.comp_text

pub make_context-IsValid : (textstore : Option TextStore) → IsValid (make_context textstore)
unfolding make_context
make_context-IsValid textstore = record {
  text_size = length-replicate comp_chars 0;
  len_fits = omega arith;
  ordered = omega arith;
}

pub length-comp : {c : Context} → IsValid c → length (comp c) ≡ c.comp_len
length-comp {c} v = omega (arith, length-take c.comp_len c.comp_text, v.text_size, v.len_fits)

-- The array with a NUL at `n`.
abbrev pub ended : List ℕ → ℕ → List ℕ
ended buf n = take n buf ++ (0 ∷ [] ++ drop (n + 1) buf)

-- A final NUL inside the array keeps the text in front of it.
pub terminate_lem :
    (c : Context) (buf : List ℕ) (n : ℕ)
    → length buf ≡ comp_chars
    → n < comp_chars
    → (terminate c buf n ≡ some (record c { comp_text = ended buf n; comp_len = n }))
      × (length (ended buf n) ≡ comp_chars)
      × (take n (ended buf n) ≡ take n buf)
terminate_lem c buf n h k = (
  rw (write_chars_lem buf n (0 ∷ []) (omega (arith, h))),
  omega (
    arith,
    length-append (take n buf) (0 ∷ drop (n + 1) buf),
    length-take n buf,
    length-drop (n + 1) buf,
  ),
  take-append_eq n (take n buf) (0 ∷ drop (n + 1) buf) (omega (arith, length-take n buf, h)),
)

-- A context whose text has been written, ended and its ranges put around it.
pub finish :
    (c : Context) (buf : List ℕ) (n : ℕ)
    → length buf ≡ comp_chars
    → n < comp_chars
    → (c' : Context) × ((terminate c buf n >>= λ t. some (sync_context_ranges t)) ≡ some c')
      × (c' ≡ record c { comp_text = ended buf n; comp_len = n; range_start = 0; range_end = n })
      × (comp c' ≡ take n buf)
      × IsValid c'
finish c buf n h k =
    let (e, size, front) = terminate_lem c buf n h k in
    (
      record c { comp_text = ended buf n; comp_len = n; range_start = 0; range_end = n },
      rw e,
      refl,
      front,
      record { text_size = size; len_fits = k; ordered = omega arith },
    )
