-- ===== src/Names/Args.antt =====
-- The arguments of a command line.
use atzc.Prelude.{
  ℕ, ◌+◌, ◌*◌, ◌-◌, ◌%◌, ◌^◌, ◌<◌, ◌≡◌, ◌≢◌, refl, ap, ◌∙◌, true, false, List, [], ◌∷◌, ◌++◌, arith,
  leb, ◌==◌, length, All, map, ◌&&◌,
}
use atzc.Names.{
  is_ws, skip_ws, skip_quoted, skip_word, skip_token, first_arg, eqi, token_equals, parse_digits,
  parse_pid_token,
}

skip_ws-All :
    (blanks rest : List ℕ)
    → All (λ c. is_ws c ≡ true) blanks
    → skip_ws (blanks ++ rest) ≡ skip_ws rest
unfolding skip_ws
skip_ws-All [] rest h = refl
skip_ws-All (c ∷ cs) rest h = rw (h.0, skip_ws-All cs rest h.1)

skip_quoted-All :
    (name rest : List ℕ) → All (λ c. c ≢ 34) name → skip_quoted (name ++ 34 ∷ rest) ≡ rest
unfolding skip_quoted
skip_quoted-All [] rest h = refl
skip_quoted-All (c ∷ cs) rest h =
    let open_still : (c == 34) ≡ false = ground (arith, h.0) in
    rw (open_still, skip_quoted-All cs rest h.1)

skip_word-All :
    (word rest : List ℕ) (b : ℕ)
    → All (λ c. is_ws c ≡ false) word
    → is_ws b ≡ true
    → skip_word (word ++ b ∷ rest) ≡ b ∷ rest
unfolding skip_word
skip_word-All [] rest b h k = rw k
skip_word-All (c ∷ cs) rest b h k = rw (h.0, skip_word-All cs rest b h.1 k)

-- Behind leading blanks and a program name in quotes, which may hold blanks but no quote, `first_arg`
-- is the rest of the line without its leading blanks.
pub first_arg_quoted :
    (blanks name rest : List ℕ)
    → All (λ c. is_ws c ≡ true) blanks
    → All (λ c. c ≢ 34) name
    → first_arg (blanks ++ (34 ∷ (name ++ (34 ∷ rest)))) ≡ skip_ws rest
unfolding first_arg skip_ws
first_arg_quoted blanks name rest h k =
    ap (λ l. skip_ws (skip_token l)) (skip_ws-All blanks (34 ∷ (name ++ (34 ∷ rest))) h)
    ∙ ap skip_ws (skip_quoted-All name rest k)

-- Behind leading blanks and a program name without blanks or a leading quote, it is the same.
pub first_arg_word :
    (blanks word rest : List ℕ) (c b : ℕ)
    → All (λ c. is_ws c ≡ true) blanks
    → c ≢ 34
    → All (λ c. is_ws c ≡ false) (c ∷ word)
    → is_ws b ≡ true
    → first_arg (blanks ++ (c ∷ (word ++ (b ∷ rest)))) ≡ skip_ws rest
unfolding first_arg skip_ws
first_arg_word blanks word rest c b h e k w =
    let bare : (c == 34) ≡ false = ground (arith, e) in
    let stop : skip_ws (c ∷ (word ++ (b ∷ rest))) ≡ c ∷ (word ++ (b ∷ rest)) = rw (k.0) in
    let word_end : skip_token (c ∷ (word ++ (b ∷ rest))) ≡ b ∷ rest =
      rw bare (skip_word-All (c ∷ word) rest b k w) in
    ap (λ l. skip_ws (skip_token l)) (skip_ws-All blanks (c ∷ (word ++ (b ∷ rest))) h ∙ stop)
    ∙ ap skip_ws word_end
    ∙ rw w

-- `token_equals` holds of a token without blanks and the text that is it, without case, up to the end
-- or a blank.
pub token_equals_lem :
    (word token rest : List ℕ)
    → All (λ c. is_ws c ≡ false) word
    → length word ≡ length token
    → (token_equals word token ≡ eqi word token)
      × (token_equals (word ++ (32 ∷ rest)) token ≡ eqi word token)
unfolding token_equals eqi
token_equals_lem [] [] rest k e = (refl, refl)
token_equals_lem [] (t ∷ ts) rest k e = absurd (omega arith)
token_equals_lem (c ∷ cs) [] rest k e = absurd (omega arith)
token_equals_lem (c ∷ cs) (t ∷ ts) rest k e =
    let (p, q) = token_equals_lem cs ts rest k.1 (omega arith) in rw (k.0, p, q) (refl, refl)

-- The value of a list of digits, the first one the highest.
abbrev pub value : List ℕ → ℕ → ℕ
value [] acc = acc
value (d ∷ ds) acc = value ds (acc * 10 + d)

digits_value :
    (ds : List ℕ) (stop : ℕ) (rest : List ℕ) (acc exact : ℕ)
    → All (λ d. d < 10) ds
    → (leb 48 stop && leb stop 57) ≡ false
    → acc ≡ exact % 2 ^ 32
    → parse_digits (map (λ d. 48 + d) ds ++ (stop ∷ rest)) acc ≡ value ds exact % 2 ^ 32
unfolding parse_digits
digits_value [] stop rest acc exact h k e = rw k e
digits_value (d ∷ ds) stop rest acc exact h k e =
    let digit : (leb 48 (48 + d) && leb (48 + d) 57) ≡ true = ground (arith, h.0) in
    rw digit (
      digits_value ds stop rest ((acc * 10 + (48 + d - 48)) % 2 ^ 32) (exact * 10 + d) h.1 k
        (omega arith))

-- `parse_pid_token` reads the decimal number that stands behind leading blanks, up to the first unit
-- that is no digit: the value of its digits, modulo 2^32.
pub parse_pid_token_lem :
    (blanks ds rest : List ℕ) (d stop : ℕ)
    → All (λ c. is_ws c ≡ true) blanks
    → All (λ d. d < 10) (d ∷ ds)
    → (leb 48 stop && leb stop 57) ≡ false
    → parse_pid_token (blanks ++ (map (λ d. 48 + d) (d ∷ ds) ++ (stop ∷ rest)))
      ≡ value (d ∷ ds) 0 % 2 ^ 32
unfolding parse_pid_token skip_ws
parse_pid_token_lem blanks ds rest d stop h k e =
    let digit : is_ws (48 + d) ≡ false = ground arith in
    let line : List ℕ = map (λ d. 48 + d) (d ∷ ds) ++ (stop ∷ rest) in
    let start : skip_ws line ≡ line = rw digit in
    ap (λ l. parse_digits l 0) (skip_ws-All blanks line h ∙ start)
    ∙ digits_value (d ∷ ds) stop rest 0 0 k e (omega arith)
