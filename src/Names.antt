-- ===== src/Names.antt =====
-- engine/native/AtNsShim/AtNsShim.c, engine/native/AtCtl/AtCtl.c and engine/native/AtLaunch/AtLaunch.c:
-- names compared without case, private namespace names flattened, the slots that remember the
-- names of handles, and the arguments of a command line. A NUL-terminated text is the list of the
-- units in front of the NUL.
pub mod Compare
pub mod Slots
pub mod Args
mod Tests
use atzc.Prelude.{
  ℕ, zero, suc, ◌+◌, ◌-◌, ◌*◌, ◌%◌, ◌^◌, Bool, true, false, not, ◌&&◌, ◌||◌, Option, none, some,
  List, [], ◌∷◌, ◌++◌, leb, ◌==◌, if◌then◌else◌, length, take, drop, map, set,
}
use atzc.Prelude.Table.{index_key}

-- A to Z give a to z.
pub lower : ℕ → ℕ
lower c = if leb 65 c && leb c 90 then c - 65 + 97 else c

-- `wcs_eqi`
pub eqi : List ℕ → List ℕ → Bool
eqi [] [] = true
eqi [] (b ∷ bs) = false
eqi (a ∷ as') [] = false
eqi (a ∷ as') (b ∷ bs) = let rest = eqi as' bs in if lower a == lower b then rest else false

-- `wcs_starts_with_i`
pub starts_with_i : List ℕ → List ℕ → Bool
starts_with_i s [] = true
starts_with_i [] (p ∷ ps) = false
starts_with_i (c ∷ cs) (p ∷ ps) =
    let rest = starts_with_i cs ps in if lower c == lower p then rest else false

-- The loop of `wcs_contains_i` over the positions of the text.
pub contains_from : List ℕ → List ℕ → Bool
contains_from [] needle = false
contains_from (c ∷ cs) needle =
    let rest = contains_from cs needle in if starts_with_i (c ∷ cs) needle then true else rest

-- `wcs_contains_i`: NULL, and an empty needle, are contained in nothing.
pub contains_i : Option (List ℕ) → Option (List ℕ) → Bool
contains_i none needle = false
contains_i (some s) none = false
contains_i (some s) (some []) = false
contains_i (some s) (some (n ∷ ns)) = contains_from s (n ∷ ns)

-- "AtokPrivateNamespace\"
abbrev pub ns_prefix : List ℕ
ns_prefix =
    65 ∷ 116 ∷ 111 ∷ 107 ∷ 80 ∷ 114 ∷ 105 ∷ 118 ∷ 97 ∷ 116 ∷ 101 ∷ 78 ∷ 97 ∷ 109 ∷ 101 ∷ 115 ∷ 112
    ∷ 97 ∷ 99 ∷ 101 ∷ 92 ∷ []

-- The name without its private namespace, in a buffer of `cch` units.
pub rewrite_ns_name : Option (List ℕ) → ℕ → Option (List ℕ)
rewrite_ns_name none cch = none
rewrite_ns_name (some name) cch =
    if starts_with_i name ns_prefix
    then some (take (cch - 1) (drop (length ns_prefix) name))
    else none

-- A slot of `g_map_handles` and `g_map_names`; handle 0 marks a free one.
pub record Slot : Type 0 where
  pub handle : ℕ
  pub name : List ℕ

abbrev pub handle_of : Slot → ℕ
handle_of s = s.handle

-- The slot that `remember_map_name` takes: that of the handle, or else the first free one, or else
-- the first.
pub chosen_slot : List Slot → ℕ → ℕ
chosen_slot slots h = elim (index_key handle_of slots h) [
  | some i ↦ i
  | none ↦ elim (index_key handle_of slots 0) [ some i ↦ i | none ↦ 0 ]
]

pub remember_map_name : List Slot → ℕ → Option (List ℕ) → List Slot
remember_map_name slots h none = slots
remember_map_name slots h (some name) =
    if h == 0
    then slots
    else set slots (chosen_slot slots h) (record { handle = h; name = take 127 name })

-- "(unknown)" is `none`.
pub lookup_map_name : List Slot → ℕ → Option (List ℕ)
lookup_map_name [] h = none
lookup_map_name (s ∷ ss) h =
    let rest = lookup_map_name ss h in if s.handle == h then some s.name else rest

abbrev pub is_ws : ℕ → Bool
is_ws c = (c == 32) || (c == 9)

pub skip_ws : List ℕ → List ℕ
skip_ws [] = []
skip_ws (c ∷ cs) = let rest = skip_ws cs in if is_ws c then rest else c ∷ cs

-- Up to the closing quote, and over it.
pub skip_quoted : List ℕ → List ℕ
skip_quoted [] = []
skip_quoted (c ∷ cs) = let rest = skip_quoted cs in if c == 34 then cs else rest

-- Up to a blank.
pub skip_word : List ℕ → List ℕ
skip_word [] = []
skip_word (c ∷ cs) = let rest = skip_word cs in if is_ws c then c ∷ cs else rest

abbrev pub skip_token : List ℕ → List ℕ
skip_token [] = []
skip_token (c ∷ cs) = if c == 34 then skip_quoted cs else skip_word (c ∷ cs)

-- `first_arg` of AtLaunch and `skip_one_arg` of AtCtl: what follows the first argument.
pub first_arg : List ℕ → List ℕ
first_arg cmdline = skip_ws (skip_token (skip_ws cmdline))

-- `token_equals`: the text up to a blank is the token, without case.
pub token_equals : List ℕ → List ℕ → Bool
token_equals [] [] = true
token_equals (c ∷ cs) [] = is_ws c
token_equals [] (t ∷ ts) = false
token_equals (c ∷ cs) (t ∷ ts) =
    let rest = token_equals cs ts in
    if is_ws c then false else if lower c == lower t then rest else false

-- The loop over the digits, with the value so far as a DWORD.
pub parse_digits : List ℕ → ℕ → ℕ
parse_digits [] pid = pid
parse_digits (c ∷ cs) pid =
    let next = parse_digits cs ((pid * 10 + (c - 48)) % 2 ^ 32) in
    if leb 48 c && leb c 57 then next else pid

-- `parse_pid_token`: 0 where no digit is seen.
pub parse_pid_token : List ℕ → ℕ
parse_pid_token s = parse_digits (skip_ws s) 0
