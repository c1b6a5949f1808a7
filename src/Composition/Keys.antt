-- ===== src/Composition/Keys.antt =====
-- `msctf_append_key`: what the keys do to the composed text.
use atzc.Prelude.{
  ℕ, ◌+◌, ◌-◌, ◌<◌, ◌≡◌, refl, sym, ◌∙◌, true, none, some, List, [], ◌∷◌, ◌++◌, arith, length, take,
  drop, if◌then◌else◌, lt→leb, length-take, length-drop, length-append, take-append_ge,
  take-append_le, take-take, take_all,
}
use atzc.Prelude.Memory.{write_chars_lem}
use atzc.Composition.{
  Context, Call, on_start_composition, on_update_composition, comp_chars, key_char, vk_back,
  push_char, erase_char, append_key, composition_sink,
}
use atzc.Composition.Valid.{IsValid, comp, ended, terminate_lem, length-comp}

-- What the sink is told of a typed unit.
abbrev pub told : Context → List Call
told c = elim (composition_sink c) [
  | none ↦ []
  | some p ↦
      (if c.comp_active then [] else on_start_composition p ∷ []) ++ on_update_composition p ∷ []
]

-- The array with `ch` behind the text.
abbrev typed_buf : Context → ℕ → List ℕ
typed_buf c ch = take c.comp_len c.comp_text ++ (ch ∷ [] ++ drop (c.comp_len + 1) c.comp_text)

-- The context after `ch` has been typed.
abbrev pub typed : Context → ℕ → Context
typed c ch = record c {
  comp_active = true;
  comp_text = ended (typed_buf c ch) (c.comp_len + 1);
  comp_len = c.comp_len + 1;
  range_start = 0;
  range_end = c.comp_len + 1;
}

module _ {c : Context} (v : IsValid c) (ch : ℕ) (room : c.comp_len + 1 < comp_chars) where
  typed_size : length (typed_buf c ch) ≡ comp_chars
  typed_size = omega (
    arith,
    v.text_size,
    length-take c.comp_len c.comp_text,
    length-drop (c.comp_len + 1) c.comp_text,
    length-append (take c.comp_len c.comp_text) (ch ∷ drop (c.comp_len + 1) c.comp_text),
  )

  typed_front : take (c.comp_len + 1) (typed_buf c ch) ≡ comp c ++ ch ∷ []
  typed_front =
      take-append_ge (c.comp_len + 1) 1 (take c.comp_len c.comp_text) _
        (omega (arith, length-take c.comp_len c.comp_text, v.text_size))

  pub push_char-typed : push_char (record c { comp_active = true }) ch ≡ some (typed c ch)
  unfolding push_char
  push_char-typed =
      let (done, _, _) =
        terminate_lem (record c { comp_active = true }) (typed_buf c ch) (c.comp_len + 1) typed_size
          room in
      rw (
        lt→leb comp_chars (c.comp_len + 1) room,
        write_chars_lem c.comp_text c.comp_len (ch ∷ []) (omega (arith, v.text_size)),
        done,
      )

  pub typed-IsValid : IsValid (typed c ch)
  typed-IsValid =
      let (_, size, _) = terminate_lem c (typed_buf c ch) (c.comp_len + 1) typed_size room in
      record { text_size = size; len_fits = room; ordered = omega arith }

  comp-typed : comp (typed c ch) ≡ comp c ++ ch ∷ []
  comp-typed =
      let (_, _, front) = terminate_lem c (typed_buf c ch) (c.comp_len + 1) typed_size room in
      front ∙ typed_front

  typed_back : take (c.comp_len + 1 - 1) (comp (typed c ch)) ≡ comp c
  typed_back =
      let less : c.comp_len + 1 - 1 ≡ c.comp_len = omega arith in
      rw (less, comp-typed)
        (take-append_le c.comp_len (comp c) (ch ∷ []) (omega (arith, length-comp v))
          ∙ take_all c.comp_len (comp c) (omega (arith, length-comp v)))

-- Backspace takes the last unit away.
pub erase_lem :
    {c : Context}
    → IsValid c
    → (c' : Context) × (append_key c vk_back ≡ some (c', []))
      × (comp c' ≡ take (c.comp_len - 1) (comp c))
      × IsValid c'
unfolding append_key erase_char
erase_lem {c = c} v =
    let n : ℕ = c.comp_len - 1 in
    let (done, size, front) =
      terminate_lem c c.comp_text n v.text_size (omega (arith, v.len_fits)) in
    (
      record c {
        comp_active = true;
        comp_text = ended c.comp_text n;
        comp_len = n;
        range_start = 0;
        range_end = n;
      },
      rw done,
      front ∙ sym (take-take n c.comp_len c.comp_text (omega arith)),
      record { text_size = size; len_fits = omega (arith, v.len_fits); ordered = omega arith },
    )

pub append_key_char :
    (c : Context) (vk ch : ℕ) {c' : Context}
    → key_char vk ≡ some ch
    → push_char (record c { comp_active = true }) ch ≡ some c'
    → append_key c vk ≡ some (c', told c)
unfolding append_key
append_key_char c vk ch key pushed = rw (append_key, key, pushed)

-- A letter or digit key, while there is room for its unit and the final NUL, puts that unit behind
-- the composed text and makes the composition active, and the sink is told of a start where it was
-- not active, and of the update. Backspace then gives the text back as it was and tells nothing.
pub append_key-append_key :
    {c : Context}
    → IsValid c
    → (vk ch : ℕ) → key_char vk ≡ some ch
    → c.comp_len + 1 < comp_chars
    → (c' c'' : Context) × (append_key c vk ≡ some (c', told c))
      × (comp c' ≡ comp c ++ ch ∷ [])
      × (c'.comp_active ≡ true)
      × (append_key c' vk_back ≡ some (c'', []))
      × (comp c'' ≡ comp c)
      × IsValid c'
      × IsValid c''
append_key-append_key {c = c} v vk ch key room =
    let (c'', erased, back, still) = erase_lem (typed-IsValid v ch room) in
    (
      typed c ch,
      c'',
      append_key_char c vk ch key (push_char-typed v ch room),
      comp-typed v ch room,
      refl,
      erased,
      back ∙ typed_back v ch room,
      typed-IsValid v ch room,
      still,
    )
