-- ===== src/Prelude/Returns.antt =====
-- Calls that return: fallible steps that do not fail, and the two sides of a test.

use mathlib.Core.Path.{◌≡◌, refl}
use mathlib.Core.Bool.{Bool, true, false}
use mathlib.Core.Option.{Option, some}
use atzc.Prelude.Tests.{if◌then◌else◌, ◌>>=◌}

pub if_true : {A : Type 0} (b : Bool) (x z : A) → b ≡ true → (if b then x else z) ≡ x
if_true b x z h = rw h refl

pub if_false : {A : Type 0} (b : Bool) (x z : A) → b ≡ false → (if b then x else z) ≡ z
if_false b x z h = rw h refl

-- A call returns.
abbrev pub Returns : {A : Type 0} → Option A → Type 0
Returns {A} o = (d : A) × (o ≡ some d)

pub Returns-bind :
    {A B : Type 0} (o : Option A) (f : A → Option B)
    → Returns o
    → ((a : A) → Returns (f a))
    → Returns (o >>= f)
Returns-bind o f (d, e) h = let (b, k) = h d in (b, rw e k)

pub Returns-if :
    {A : Type 0} (b : Bool) (o u : Option A) → Returns o → Returns u → Returns (if b then o else u)
Returns-if true o u h k = h
Returns-if false o u h k = k

-- A call returns, with a result that has a property.
abbrev pub ReturnsSuch : {A : Type 0} → (A → Type 0) → Option A → Type 0
ReturnsSuch {A} Q o = (d : A) × (o ≡ some d) × Q d

pub Such-if :
    {A : Type 0} (Q : A → Type 0) (b : Bool) (o u : Option A)
    → (b ≡ true → ReturnsSuch Q o)
    → (b ≡ false → ReturnsSuch Q u)
    → ReturnsSuch Q (if b then o else u)
Such-if Q true o u h k = h refl
Such-if Q false o u h k = k refl

pub Such-bind :
    {A B : Type 0} (Q : B → Type 0) (o : Option A) (f : A → Option B)
    → Returns o
    → ((a : A) → ReturnsSuch Q (f a))
    → ReturnsSuch Q (o >>= f)
Such-bind Q o f (d, e) h = let (b, k, q) = h d in (b, rw e k, q)
