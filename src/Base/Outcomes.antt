-- ===== src/Base/Outcomes.antt =====
-- Fallible code: a value, an error, or a panic with its message. A message is a list of pieces,
-- so that a formatted text keeps the values that it shows.
use Prim.Native.Nat.{ℕ}
use Prim.Native.String.{String}
use mathlib.Core.List.{List, [], ◌∷◌}
use mathlib.Core.Logic.{◌⊎◌, inl, inr}
use mathlib.Core.Bool.{Bool, true, false}
use mathlib.Core.Option.{Option, none, some}
use mathlib.Core.Path.{◌≡◌, refl, ap}

-- A piece of a formatted text: literal text, a number in decimal or in hexadecimal, or quoted bytes.
pub data Piece : Type 0 where
  text : String → Piece
  number : ℕ → Piece
  hex_number : ℕ → Piece
  quoted : List ℕ → Piece

abbrev pub Message : Type 0
Message = List Piece

abbrev pub plain : String → Message
plain s = text s ∷ []

pub data Result {ℓ κ} (E : Type ℓ) (A : Type κ) : Type (ℓ ⊔ κ) where
  ok : A → Result E A
  err : E → Result E A
  panic : Message → Result E A

infixl 5 ◌>>=◌ ◌>>◌
abbrev pub ◌>>=◌ {ℓ κ μ} :
    {E : Type ℓ} {A : Type κ} {B : Type μ} → Result E A → (A → Result E B) → Result E B
ok a >>= f = f a
err e >>= f = err e
panic m >>= f = panic m

abbrev pub ◌>>◌ {ℓ κ μ} :
    {E : Type ℓ} {A : Type κ} {B : Type μ} → Result E A → Result E B → Result E B
m >> k = m >>= λ _. k

-- `if bad { return Err(e) }`
abbrev pub refuse_if {ℓ} : {E : Type ℓ} → Bool → E → Result E (Unit {0})
refuse_if true e = err e
refuse_if false e = ok tt

-- `assert!`
abbrev pub assert_that {ℓ} : {E : Type ℓ} → Bool → Message → Result E (Unit {0})
assert_that true m = ok tt
assert_that false m = panic m

-- `Result::map_err`
abbrev pub map_err {ℓ κ μ} :
    {E : Type ℓ} {F : Type κ} {A : Type μ} → (E → F) → Result E A → Result F A
map_err f (ok a) = ok a
map_err f (err e) = err (f e)
map_err f (panic m) = panic m

-- `Result::map`
abbrev pub map_ok {ℓ κ μ} :
    {E : Type ℓ} {A : Type κ} {B : Type μ} → (A → B) → Result E A → Result E B
map_ok f (ok a) = ok (f a)
map_ok f (err e) = err e
map_ok f (panic m) = panic m

-- The answer of a crate, `inl` on error, with `map_err(f)`.
abbrev pub from_crate {ℓ κ μ} :
    {X : Type ℓ} {E : Type κ} {A : Type μ} → (X → E) → X ⊎ A → Result E A
from_crate f (inl x) = err (f x)
from_crate f (inr a) = ok a

-- `Option::ok_or`
abbrev pub ok_or {ℓ κ} : {E : Type ℓ} {A : Type κ} → E → Option A → Result E A
ok_or e none = err e
ok_or e (some a) = ok a

-- `Result::expect`, which turns an error into a panic.
abbrev pub or_panic {ℓ κ μ} :
    {E : Type ℓ} {F : Type κ} {A : Type μ} → (E → Message) → Result E A → Result F A
or_panic f (ok a) = ok a
or_panic f (err e) = panic (f e)
or_panic f (panic m) = panic m

-- `Option::expect`
abbrev pub some_or_panic {ℓ κ} : {E : Type ℓ} {A : Type κ} → Message → Option A → Result E A
some_or_panic m none = panic m
some_or_panic m (some a) = ok a

-- `match` on a result: the error as a value, where a panic still ends the run.
abbrev pub attempt {ℓ κ μ} : {E : Type ℓ} {F : Type κ} {A : Type μ} → Result E A → Result F (E ⊎ A)
attempt (ok a) = ok (inr a)
attempt (err e) = ok (inl e)
attempt (panic m) = panic m

-- `let _ = ...`
abbrev pub ignored {ℓ κ μ} :
    {E : Type ℓ} {F : Type κ} {A : Type μ} → Result E A → Result F (Unit {0})
ignored (ok a) = ok tt
ignored (err e) = ok tt
ignored (panic m) = panic m

-- `unwrap`
abbrev pub unwrapped {ℓ κ μ} : {E : Type ℓ} {F : Type κ} {A : Type μ} → Result E A → Result F A
unwrapped m = or_panic (λ e. plain "called `Result::unwrap()` on an `Err` value") m

-- `is_err` on a call, whose panic ends the run.
abbrev pub fails {ℓ κ μ} : {E : Type ℓ} {F : Type κ} {A : Type μ} → Result E A → Result F Bool
fails (ok a) = ok false
fails (err e) = ok true
fails (panic m) = panic m

-- `is_ok` on a call, whose panic ends the run.
abbrev pub succeeds {ℓ κ μ} : {E : Type ℓ} {F : Type κ} {A : Type μ} → Result E A → Result F Bool
succeeds (ok a) = ok true
succeeds (err e) = ok false
succeeds (panic m) = panic m

abbrev pub is_ok {ℓ κ} : {E : Type ℓ} {A : Type κ} → Result E A → Bool
is_ok (ok a) = true
is_ok (err e) = false
is_ok (panic m) = false

abbrev pub Panics {ℓ κ} : {E : Type ℓ} {A : Type κ} → Result E A → Type 0
Panics (ok a) = ⊥
Panics (err e) = ⊥
Panics (panic m) = Unit

-- Inversion of a successful bind.
pub >>=-eq-ok {ℓ κ μ} :
    {E : Type ℓ} {A : Type κ} {B : Type μ} (first : Result E A) (next : A → Result E B) {out : B}
    → (first >>= next) ≡ ok out
    → (middle : A) × (first ≡ ok middle) × (next middle ≡ ok out)
>>=-eq-ok (panic message) next made = cc
>>=-eq-ok (err failure) next made = cc
>>=-eq-ok (ok middle) next made = (middle, refl, made)

pub from_crate-eq-ok {ℓ κ μ} :
    {X : Type ℓ} {E : Type κ} {A : Type μ} (f : X → E) (answer : X ⊎ A) {a : A}
    → from_crate f answer ≡ ok a
    → answer ≡ inr a
from_crate-eq-ok f (inl x) h = cc
from_crate-eq-ok f (inr a) h = cc

pub ok-injective {ℓ κ} :
    {E : Type ℓ} {A : Type κ} {a b : A} → ◌≡◌ {A = Result E A} (ok a) (ok b) → a ≡ b
ok-injective h = cc

pub ok_or-eq-ok {ℓ κ} :
    {E : Type ℓ} {A : Type κ} (e : E) (o : Option A) {a : A} → ok_or e o ≡ ok a → o ≡ some a
ok_or-eq-ok e none h = cc
ok_or-eq-ok e (some b) h = ap some (ok-injective h)

-- To split on the answer of a crate and keep the equation.
pub answer_cases {ℓ κ} :
    {X : Type ℓ} {A : Type κ} (answer : X ⊎ A)
    → ((x : X) × (answer ≡ inl x)) ⊎ ((a : A) × (answer ≡ inr a))
answer_cases (inl x) = inl (x, refl)
answer_cases (inr a) = inr (a, refl)

pub option_cases {ℓ} : {A : Type ℓ} (o : Option A) → (o ≡ none) ⊎ ((a : A) × (o ≡ some a))
option_cases none = inl refl
option_cases (some a) = inr (a, refl)

pub map_err-eq-ok {ℓ κ μ} :
    {E : Type ℓ} {F : Type κ} {A : Type μ} (f : E → F) (m : Result E A) {a : A}
    → map_err f m ≡ ok a
    → m ≡ ok a
map_err-eq-ok f (ok a) h = cc
map_err-eq-ok f (err e) h = cc
map_err-eq-ok f (panic m) h = cc

pub refuse_if-eq-ok {ℓ} : {E : Type ℓ} (bad : Bool) (e : E) → refuse_if bad e ≡ ok tt → bad ≡ false
refuse_if-eq-ok true e h = cc
refuse_if-eq-ok false e h = refl

-- A chain panics only where a step does.
pub >>=-Panics {ℓ κ μ} :
    {E : Type ℓ} {A : Type κ} {B : Type μ} (m : Result E A) (f : A → Result E B)
    → ¬ Panics m
    → ((a : A) → m ≡ ok a → ¬ Panics (f a))
    → ¬ Panics (m >>= f)
>>=-Panics (ok a) f h k = k a refl
>>=-Panics (err e) f h k = h
>>=-Panics (panic m) f h k = h

-- Inversion of a successful `map`.
pub map_ok-eq-ok {ℓ κ μ} :
    {E : Type ℓ} {A : Type κ} {B : Type μ} (f : A → B) (m : Result E A) {b : B}
    → map_ok f m ≡ ok b
    → (a : A) × (m ≡ ok a) × (f a ≡ b)
map_ok-eq-ok f (ok a) h = (a, refl, ok-injective h)
map_ok-eq-ok f (err e) h = cc
map_ok-eq-ok f (panic m) h = cc

pub map_ok-eq-err {ℓ κ μ} :
    {E : Type ℓ} {A : Type κ} {B : Type μ} (f : A → B) (m : Result E A) {e : E}
    → map_ok f m ≡ err e
    → m ≡ err e
map_ok-eq-err f (ok a) h = cc
map_ok-eq-err f (err x) h = cc
map_ok-eq-err f (panic m) h = cc

pub map_err-eq-err {ℓ κ μ} :
    {E : Type ℓ} {F : Type κ} {A : Type μ} (f : E → F) (m : Result E A) {e : F}
    → map_err f m ≡ err e
    → (x : E) × (m ≡ err x)
map_err-eq-err f (ok a) h = cc
map_err-eq-err f (err x) h = (x, refl)
map_err-eq-err f (panic m) h = cc

-- `expect` gives no error, so what comes behind it decides.
pub or_panic-Panics {ℓ κ μ ν} :
    {E : Type ℓ} {F : Type κ} {A : Type μ} {B : Type ν} (f : E → Message) (m : Result E A)
    (rest : A → Result F B)
    → ((a : A) → Panics (rest a))
    → Panics (or_panic {F = F} f m >>= rest)
or_panic-Panics f (ok a) rest h = h a
or_panic-Panics f (err e) rest h = tt
or_panic-Panics f (panic m) rest h = tt
