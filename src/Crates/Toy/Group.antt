-- ===== src/Crates/Toy/Group.antt =====
-- The cyclic group of three elements, the curve and its scalars in the examples.
use blackchain_crypto_lib_ru.Base.{
  ℕ, zero, suc, ◌+◌, ◌*◌, Bool, true, false, ◌≡◌, refl, ap, sym, ◌∙◌, Option, none, some, arith,
  ◌∷◌, Bytes, replicate, if◌then◌else◌, leb, le_number,
}
use blackchain_crypto_lib_ru.Crates.{Goldilocks}
use blackchain_crypto_lib_ru.Crates.Laws.{GoldilocksLaws}

pub data Three : Type 0 where
  none_of one_of two_of : Three

abbrev pub succ : Three → Three
succ none_of = one_of
succ one_of = two_of
succ two_of = none_of

abbrev pub plus : Three → Three → Three
plus none_of q = q
plus one_of q = succ q
plus two_of q = succ (succ q)

abbrev pub times : Three → Three → Three
times none_of q = none_of
times one_of q = q
times two_of q = plus q q

abbrev pub negate : Three → Three
negate none_of = none_of
negate one_of = two_of
negate two_of = one_of

abbrev pub same : Three → Three → Bool
same none_of none_of = true
same one_of one_of = true
same two_of two_of = true
same _ _ = false

abbrev pub class : ℕ → Three
class zero = none_of
class (suc n) = succ (class n)

abbrev pub code_of : Three → ℕ
code_of none_of = 0
code_of one_of = 1
code_of two_of = 2

-- An element is the first of 57 bytes.
abbrev pub bytes_of : Three → Bytes
bytes_of p = code_of p ∷ replicate 56 0

abbrev pub element : Bytes → Option Three
element (zero ∷ bytes) = some none_of
element (suc zero ∷ bytes) = some one_of
element (suc (suc zero) ∷ bytes) = some two_of
element _ = none

succ_cycle : (q : Three) → succ (succ (succ q)) ≡ q
succ_cycle none_of = refl
succ_cycle one_of = refl
succ_cycle two_of = refl

plus-succ : (a b : Three) → plus (succ a) b ≡ succ (plus a b)
plus-succ none_of b = refl
plus-succ one_of b = refl
plus-succ two_of b = sym (succ_cycle b)

pub add_assoc : (p q t : Three) → plus (plus p q) t ≡ plus p (plus q t)
add_assoc none_of q t = refl
add_assoc one_of q t = plus-succ q t
add_assoc two_of q t = plus-succ (succ q) t ∙ ap succ (plus-succ q t)

pub add_identity : (p : Three) → plus p none_of ≡ p
add_identity none_of = refl
add_identity one_of = refl
add_identity two_of = refl

pub add_negate : (p : Three) → plus p (negate p) ≡ none_of
add_negate none_of = refl
add_negate one_of = refl
add_negate two_of = refl

pub same_refl : (p : Three) → same p p ≡ true
same_refl none_of = refl
same_refl one_of = refl
same_refl two_of = refl

triple : (b : Three) → plus b (plus b b) ≡ none_of
triple none_of = refl
triple one_of = refl
triple two_of = refl

times-succ : (a b : Three) → times (succ a) b ≡ plus b (times a b)
times-succ none_of b = sym (add_identity b)
times-succ one_of b = refl
times-succ two_of b = sym (triple b)

class_eq : (m n : ℕ) → m ≡ n → class m ≡ class n
class_eq m n e = ap class e

pub class-plus : (a b : ℕ) → plus (class a) (class b) ≡ class (a + b)
class-plus zero b = class_eq (b) (0 + b) (omega arith)
class-plus (suc a) b =
    plus-succ (class a) (class b)
    ∙ ap succ (class-plus a b)
    ∙ class_eq (suc (a + b)) (suc a + b) (omega arith)

pub class-times : (a b : ℕ) → times (class a) (class b) ≡ class (a * b)
class-times zero b = class_eq (0) (0 * b) (omega arith)
class-times (suc a) b =
    times-succ (class a) (class b)
    ∙ ap (plus (class b)) (class-times a b)
    ∙ class-plus b (a * b)
    ∙ class_eq (b + a * b) (suc a * b) (omega arith)

pub times-plus : (a b p : Three) → times (plus a b) p ≡ plus (times a p) (times b p)
times-plus none_of b p = refl
times-plus one_of b p = times-succ b p
times-plus two_of b p =
    times-succ (succ b) p ∙ ap (plus p) (times-succ b p) ∙ sym (add_assoc p p (times b p))

pub times_assoc : (a b p : Three) → times (times a b) p ≡ times a (times b p)
times_assoc none_of b p = refl
times_assoc one_of b p = refl
times_assoc two_of b p = times-plus b b p

-- A scalar is encoded by the number below the order.
abbrev pub scalar : Bytes → Option Three
scalar bytes = if leb (le_number bytes) 2 then element bytes else none

-- Points take the scalar behind them.
abbrev pub toy_goldilocks : Goldilocks
toy_goldilocks = record {
  Point = Three;
  Scalar = Three;
  decompress = element;
  identity = none_of;
  generator = one_of;
  double = λ p. plus p p;
  add = plus;
  negate = negate;
  scalar_mul = λ p a. times a p;
  point_eq = same;
  from_canonical_bytes = scalar;
  zero_scalar = none_of;
  from_u32 = class;
  plus = plus;
  times = times;
}

abbrev pub toy_curve_laws : GoldilocksLaws toy_goldilocks
toy_curve_laws = record {
  of_nat = class;
  zero_scalar_lem = refl;
  from_u32_lem = λ n _. refl;
  plus-of_nat = class-plus;
  times-of_nat = class-times;
  add_assoc = add_assoc;
  add_identity = add_identity;
  add_negate = add_negate;
  double_lem = λ p. refl;
  point_eq_refl = same_refl;
  scalar_mul-plus = λ p a b. times-plus a b p;
  scalar_mul-times = λ p a b. times_assoc a b p;
}
