-- ===== src/Frontend/Live.antt =====
-- What holds of an input context between two keys (fcitx5/engine.h, `AtzcState`).
use atzc.Prelude.{
  ◌≡◌, refl, true, false, Bool, not, ◌&&◌, ◌||◌, Option, none, some, if◌then◌else◌, arith,
}
use atzc.Prelude.Text.{is_empty}
use atzc.Frontend.{Context}

-- No list is open.
abbrev pub no_list : {L : Type 0} → Option L → Bool
no_list none = true
no_list (some l) = false

-- Nothing is typed, shown or offered where no composition is open on the daemon.
abbrev pub kept : {L S : Type 0} → Context L S → Bool
kept f = f.composing || (is_empty f.romaji && (is_empty f.preedit && no_list f.list))

pub kept_live : {L S : Type 0} (f : Context L S) → f.composing ≡ true → kept f ≡ true
kept_live f h = rw h refl

pub kept_if :
    {L S : Type 0} (b : Bool) (f g : Context L S)
    → kept f ≡ true
    → kept g ≡ true
    → kept (if b then f else g) ≡ true
kept_if true f g h k = h
kept_if false f g h k = k

-- An open list or a reading stands in a live composition.
pub live_list :
    {L S : Type 0} (f : Context L S) → kept f ≡ true → no_list f.list ≡ false → f.composing ≡ true
live_list f h k = ground arith

pub live_active :
    {L S : Type 0} (f : Context L S)
    → kept f ≡ true
    → (not (is_empty f.romaji) || f.composing) ≡ true
    → f.composing ≡ true
live_active f h k = ground arith

-- A step that took the key leaves a live composition.
abbrev pub sound : {L S : Type 0} → Bool × Context L S → Bool
sound p = kept p.1 && (not p.0 || p.1.composing)

pub sound_if :
    {L S : Type 0} (b : Bool) (p q : Bool × Context L S)
    → sound p ≡ true
    → sound q ≡ true
    → sound (if b then p else q) ≡ true
sound_if true p q h k = h
sound_if false p q h k = k

pub sound_on :
    {L S : Type 0} (b : Bool) (p q : Bool × Context L S)
    → (b ≡ true → sound p ≡ true)
    → sound q ≡ true
    → sound (if b then p else q) ≡ true
sound_on true p q h k = h refl
sound_on false p q h k = k

-- A step that takes the key only under a condition.
pub kept_on :
    {L S : Type 0} (b : Bool) (g f : Context L S)
    → (b ≡ true → kept g ≡ true)
    → kept f ≡ true
    → kept (if◌then◌else◌ {A = Bool × Context L S} b (true, g) (false, f)).1 ≡ true
kept_on true g f h k = h refl
kept_on false g f h k = k

pub sound_failed : {L S : Type 0} (f : Context L S) → kept f ≡ true → sound (false, f) ≡ true
sound_failed f h = rw h refl

pub sound_live : {L S : Type 0} (f : Context L S) → f.composing ≡ true → sound (true, f) ≡ true
sound_live f h = rw h refl

pub sound-kept : {L S : Type 0} (p : Bool × Context L S) → sound p ≡ true → kept p.1 ≡ true
sound-kept p h = ground arith

pub sound-composing :
    {L S : Type 0} (p : Bool × Context L S) → sound p ≡ true → p.0 ≡ true → p.1.composing ≡ true
sound-composing p h k = ground arith

abbrev pub AreKept : {L S : Type 0} → Option (Context L S) → Type 0
AreKept none = Unit
AreKept (some g) = kept g ≡ true

pub AreKept-if :
    {L S : Type 0} (b : Bool) (g : Context L S)
    → kept g ≡ true
    → AreKept (if b then some g else none)
AreKept-if true g h = h
AreKept-if false g h = tt

abbrev pub IsLive : {L S : Type 0} → Option L → Context L S → Type 0
IsLive none f = Unit
IsLive (some l) f = f.composing ≡ true

pub IsLive-if :
    {L S : Type 0} (b : Bool) (l : L) (f : Context L S)
    → f.composing ≡ true
    → IsLive (if b then some l else none) f
IsLive-if true l f h = h
IsLive-if false l f h = tt
