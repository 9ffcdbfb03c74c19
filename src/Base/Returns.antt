-- ===== src/Base/Returns.antt =====
-- Code that gives a value or an error and does not panic: a rule for each way to build it.
use Prim.Native.Nat.{ℕ, ◌≤◌}
use mathlib.Core.Logic.{◌⊎◌, inl, inr}
use mathlib.Core.Bool.{Bool, true, false}
use mathlib.Core.Option.{Option, none, some}
use mathlib.Core.List.{List}
use mathlib.Core.Path.{◌≡◌, refl}
use blackchain_crypto_lib_ru.Base.Outcomes.{
  Result, ok, err, panic, ◌>>=◌, refuse_if, map_err, map_ok, from_crate, ok_or, ignored, Panics,
}
use blackchain_crypto_lib_ru.Base.Slices.{
  length, slice, slice_inside, copy_from_slice, copy_from_slice_exact,
}
use blackchain_crypto_lib_ru.Base.Tests.{if◌then◌else◌}

pub record Returns {ℓ κ} {E : Type ℓ} {A : Type κ} (m : Result E A) : Type 0 where
  pub no_panic : ¬ Panics m

module _ {ℓ κ} {E : Type ℓ} {A : Type κ} where
  pub Returns-ok : (a : A) → Returns {E = E} (ok a)
  Returns-ok a = record { no_panic = λ p. p }

  pub Returns-err : (e : E) → Returns {A = A} (err e)
  Returns-err e = record { no_panic = λ p. p }

  pub Returns-ok_or : (e : E) (o : Option A) → Returns (ok_or e o)
  Returns-ok_or e none = Returns-err e
  Returns-ok_or e (some a) = Returns-ok a

  pub Returns-if :
      (b : Bool) (m n : Result E A) → Returns m → Returns n → Returns (if b then m else n)
  Returns-if true m n h k = h
  Returns-if false m n h k = k

  pub Returns-eq : {m : Result E A} {a : A} → m ≡ ok a → Returns m
  Returns-eq {a = a} e = rw e (Returns-ok a)

pub Returns-refuse_if {ℓ} : {E : Type ℓ} (b : Bool) (e : E) → Returns (refuse_if b e)
Returns-refuse_if true e = Returns-err e
Returns-refuse_if false e = Returns-ok tt

module _ {ℓ κ μ} {X : Type ℓ} {E : Type κ} {A : Type μ} where
  pub Returns-from_crate : (f : X → E) (answer : X ⊎ A) → Returns (from_crate f answer)
  Returns-from_crate f (inl x) = Returns-err (f x)
  Returns-from_crate f (inr a) = Returns-ok a

  pub Returns-map_err : (f : X → E) (m : Result X A) → Returns m → Returns (map_err f m)
  Returns-map_err f (ok a) h = Returns-ok a
  Returns-map_err f (err x) h = Returns-err (f x)
  Returns-map_err f (panic t) h = absurd (h.no_panic tt)

module _ {ℓ κ μ} {E : Type ℓ} {A : Type κ} {B : Type μ} where
  -- The rest of the code may use what it was given.
  pub Returns-bind :
      (m : Result E A) (f : A → Result E B)
      → Returns m
      → ((a : A) → m ≡ ok a → Returns (f a))
      → Returns (m >>= f)
  Returns-bind (ok a) f h k = k a refl
  Returns-bind (err e) f h k = Returns-err e
  Returns-bind (panic t) f h k = absurd (h.no_panic tt)

  pub Returns-then :
      (m : Result E A) (n : Result E B) → Returns m → (Returns n) → Returns (m >>= λ a. n)
  Returns-then m n h k = Returns-bind m (λ a. n) h (λ a e. k)

  pub Returns-map_ok : (f : A → B) (m : Result E A) → Returns m → Returns (map_ok f m)
  Returns-map_ok f (ok a) h = Returns-ok (f a)
  Returns-map_ok f (err e) h = Returns-err e
  Returns-map_ok f (panic t) h = absurd (h.no_panic tt)

module _ {ℓ κ} {E : Type ℓ} {A : Type κ} where
  pub Returns-slice :
      (from to : ℕ) (bytes : List A)
      → from ≤ to
      → to ≤ length bytes
      → Returns (slice {E = E} from to bytes)
  Returns-slice from to bytes h k = Returns-eq (slice_inside from to bytes h k)

  pub Returns-copy_from_slice :
      (n : ℕ) (bytes : List A) → length bytes ≡ n → Returns (copy_from_slice {E = E} n bytes)
  Returns-copy_from_slice n bytes h = Returns-eq (copy_from_slice_exact n bytes h)

-- What does not panic is a value or an error.
pub outcome_cases {ℓ κ} :
    {E : Type ℓ} {A : Type κ} (m : Result E A)
    → Returns m
    → ((e : E) × (m ≡ err e)) ⊎ ((a : A) × (m ≡ ok a))
outcome_cases (ok a) h = inr (a, refl)
outcome_cases (err e) h = inl (e, refl)
outcome_cases (panic t) h = absurd (h.no_panic tt)

pub ignored-Returns {ℓ κ μ} :
    {E : Type ℓ} {F : Type κ} {A : Type μ} (m : Result E A) → Returns m → ignored {F = F} m ≡ ok tt
ignored-Returns (ok a) h = refl
ignored-Returns (err e) h = refl
ignored-Returns (panic t) h = absurd (h.no_panic tt)

pub ruleset returns_rules = (
  Returns-ok, Returns-err, Returns-ok_or, Returns-if, Returns-refuse_if, Returns-from_crate,
  Returns-map_err, Returns-map_ok, Returns-bind,
)
