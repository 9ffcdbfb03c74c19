-- ===== src/Base/Slices.antt =====
-- Byte strings as lists of numbers, and the slices of the source with their panics.
use Prim.Native.Nat.{ℕ, zero, suc, ◌+◌, ◌-◌, ◌*◌, ◌≤◌, ◌<◌}
use Prim.Native.Char.{code}
use Prim.Native.String.{String}
use mathlib.Core.Bool.{Bool, true, false, ◌&&◌}
use mathlib.Core.List.{List, [], ◌∷◌, ◌++◌}
use mathlib.Core.Logic.{◌↔◌, ◌≢◌, inl, inr}
use mathlib.Core.Path.{◌≡◌, refl, sym, ap, ◌∙◌}
use native.Mathlib.Omega.{arith}
use native.Mathlib.Nat.{zero-add}
use blackchain_crypto_lib_ru.Base.Outcomes.{Result, ok, panic, plain}
use blackchain_crypto_lib_ru.Base.Tests.{leb, ◌==◌, if◌then◌else◌, le→leb, ==_iff, Bool-cases}

abbrev pub Bytes : Type 0
Bytes = List ℕ

abbrev pub IsByte : ℕ → Type 0
IsByte b = b < 256

abbrev pub All {ℓ κ} : {A : Type ℓ} → (A → Type κ) → List A → Type κ
All P [] = Unit
All P (x ∷ xs) = P x × All P xs

-- The number that a byte string stands for, least significant byte first.
abbrev pub le_number : Bytes → ℕ
le_number [] = 0
le_number (b ∷ bs) = le_number bs * 256 + b

-- The code points of a text, its bytes where it is ASCII.
abbrev pub codes : String → Bytes
codes String.[] = []
codes (String.◌∷◌ c s) = code c ∷ codes s

module _ {ℓ} {A : Type ℓ} where
  abbrev pub length : List A → ℕ
  length [] = 0
  length (x ∷ xs) = suc (length xs)

  abbrev pub take : ℕ → List A → List A
  take zero xs = []
  take (suc n) [] = []
  take (suc n) (x ∷ xs) = x ∷ take n xs

  abbrev pub drop : ℕ → List A → List A
  drop zero xs = xs
  drop (suc n) [] = []
  drop (suc n) (x ∷ xs) = drop n xs

  unfoldable pub replicate : ℕ → A → List A
  replicate zero x = []
  replicate (suc n) x = x ∷ replicate n x

  pub length-replicate : (n : ℕ) (x : A) → length (replicate n x) ≡ n
  unfolding replicate
  length-replicate zero x = refl
  length-replicate (suc n) x = omega (arith, length-replicate n x)

  pub replicate-add : (n m : ℕ) (x : A) → replicate (n + m) x ≡ replicate n x ++ replicate m x
  unfolding replicate
  replicate-add zero m x = let e : 0 + m ≡ m = omega arith in rw e refl
  replicate-add (suc n) m x =
      let e : suc n + m ≡ suc (n + m) = omega arith in rw e (ap (◌∷◌ x) (replicate-add n m x))

  pub length-append : (xs ys : List A) → length (xs ++ ys) ≡ length xs + length ys
  length-append [] ys = omega arith
  length-append (x ∷ xs) ys = omega (arith, length-append xs ys)

  pub length-take : (n : ℕ) (xs : List A) → n ≤ length xs → length (take n xs) ≡ n
  length-take zero xs h = refl
  length-take (suc n) [] h = absurd (omega arith)
  length-take (suc n) (x ∷ xs) h = omega (arith, length-take n xs (omega arith))

  pub length-drop : (n : ℕ) (xs : List A) → length (drop n xs) ≡ length xs - n
  length-drop zero xs = omega arith
  length-drop (suc n) [] = omega arith
  length-drop (suc n) (x ∷ xs) = omega (arith, length-drop n xs)

  pub take-append : (n : ℕ) (xs ys : List A) → length xs ≡ n → take n (xs ++ ys) ≡ xs
  take-append zero [] ys h = refl
  take-append zero (x ∷ xs) ys h = absurd (omega arith)
  take-append (suc n) [] ys h = absurd (omega arith)
  take-append (suc n) (x ∷ xs) ys h = ap (◌∷◌ x) (take-append n xs ys (omega arith))

  pub drop-append : (n : ℕ) (xs ys : List A) → length xs ≡ n → drop n (xs ++ ys) ≡ ys
  drop-append zero [] ys h = refl
  drop-append zero (x ∷ xs) ys h = absurd (omega arith)
  drop-append (suc n) [] ys h = absurd (omega arith)
  drop-append (suc n) (x ∷ xs) ys h = drop-append n xs ys (omega arith)

  pub take-all : (n : ℕ) (xs : List A) → length xs ≡ n → take n xs ≡ xs
  take-all zero [] h = refl
  take-all zero (x ∷ xs) h = absurd (omega arith)
  take-all (suc n) [] h = absurd (omega arith)
  take-all (suc n) (x ∷ xs) h = ap (◌∷◌ x) (take-all n xs (omega arith))

  pub take-append-drop : (n : ℕ) (xs : List A) → take n xs ++ drop n xs ≡ xs
  take-append-drop zero xs = refl
  take-append-drop (suc n) [] = refl
  take-append-drop (suc n) (x ∷ xs) = ap (◌∷◌ x) (take-append-drop n xs)

  drop_nil : (n : ℕ) → drop n [] ≡ []
  drop_nil zero = refl
  drop_nil (suc n) = refl

  pub drop-drop : (n m : ℕ) (xs : List A) → drop n (drop m xs) ≡ drop (m + n) xs
  drop-drop n zero xs = rw zero-add
  drop-drop n (suc m) [] = drop_nil n ∙ sym (drop_nil (suc m + n))
  drop-drop n (suc m) (x ∷ xs) =
      let e : suc m + n ≡ suc (m + n) = omega arith in rw e (drop-drop n m xs)

-- A list of n + m + k entries is its three parts.
pub three_parts {ℓ} :
    {A : Type ℓ} (n m k : ℕ) (xs : List A)
    → length xs ≡ n + m + k
    → xs ≡ take n xs ++ (take m (drop n xs) ++ take k (drop (n + m) xs))
three_parts n m k xs e =
    let last : take k (drop (n + m) xs) ≡ drop (n + m) xs =
      take-all k (drop (n + m) xs) (omega (arith, length-drop (n + m) xs)) in
    rw (last, ← drop-drop m n xs, take-append-drop m (drop n xs), take-append-drop n xs)

-- `&bytes[from..to]`
unfoldable pub slice {ℓ κ} : {E : Type ℓ} {A : Type κ} → ℕ → ℕ → List A → Result E (List A)
slice from to bytes =
    if leb from to && leb to (length bytes)
    then ok (take (to - from) (drop from bytes))
    else panic (plain "slice index out of range")

-- `array.copy_from_slice(bytes)` for an array of `n` bytes.
unfoldable pub copy_from_slice {ℓ κ} : {E : Type ℓ} {A : Type κ} → ℕ → List A → Result E (List A)
copy_from_slice n bytes =
    if length bytes == n then ok bytes else panic (plain "copy_from_slice: length mismatch")

pub slice_inside {ℓ κ} :
    {E : Type ℓ} {A : Type κ} (from to : ℕ) (bytes : List A)
    → from ≤ to
    → to ≤ length bytes
    → slice {E = E} from to bytes ≡ ok (take (to - from) (drop from bytes))
unfolding slice
slice_inside from to bytes h k = rw (le→leb from to h, le→leb to (length bytes) k)

pub copy_from_slice_exact {ℓ κ} :
    {E : Type ℓ} {A : Type κ} (n : ℕ) (bytes : List A)
    → length bytes ≡ n
    → copy_from_slice {E = E} n bytes ≡ ok bytes
unfolding copy_from_slice
copy_from_slice_exact n bytes h = rw ((==_iff (length bytes) n).1 h)

module _ {ℓ κ} {E : Type ℓ} {A : Type κ} where
  pub slice_front : (n : ℕ) (xs ys : List A) → length xs ≡ n → slice {E = E} 0 n (xs ++ ys) ≡ ok xs
  slice_front n xs ys h =
      slice_inside 0 n (xs ++ ys) (omega arith) (omega (arith, length-append xs ys))
      ∙ ap ok (rw (let e : n - 0 ≡ n = omega arith in e) (take-append n xs ys h))

  pub slice_middle :
      (n m : ℕ) (xs ys zs : List A)
      → length xs ≡ n
      → n + length ys ≡ m
      → slice {E = E} n m (xs ++ (ys ++ zs)) ≡ ok ys
  slice_middle n m xs ys zs h k =
      slice_inside n m (xs ++ (ys ++ zs)) (omega arith)
        (omega (arith, length-append xs (ys ++ zs), length-append ys zs))
      ∙ ap ok (rw (drop-append n xs (ys ++ zs) h) (take-append (m - n) ys zs (omega arith)))

  pub slice_back :
      (n : ℕ) (xs ys : List A)
      → length xs ≡ n
      → slice {E = E} n (length (xs ++ ys)) (xs ++ ys) ≡ ok ys
  slice_back n xs ys h =
      slice_inside n (length (xs ++ ys)) (xs ++ ys) (omega (arith, length-append xs ys))
        (omega arith)
      ∙ ap ok (rw (drop-append n xs ys h) (take-all _ ys (omega (arith, length-append xs ys))))

-- Equality of byte strings, `==` on slices and `ct_eq`.
pub bytes_eq : Bytes → Bytes → Bool
bytes_eq [] [] = true
bytes_eq (x ∷ xs) (y ∷ ys) = x == y && bytes_eq xs ys
bytes_eq _ _ = false

pub bytes_eq_iff : (a b : Bytes) → (bytes_eq a b ≡ true) ↔ (a ≡ b)
unfolding bytes_eq
bytes_eq_iff (x ∷ a) (y ∷ b) = ground (arith, bytes_eq_iff a b)
bytes_eq_iff _ _ = ground arith

pub bytes_ne : (a b : Bytes) → a ≢ b → bytes_eq a b ≡ false
bytes_ne a b differ = elim (Bool-cases (bytes_eq a b)) [
  | inl same ↦ absurd (differ ((bytes_eq_iff a b).0 same))
  | inr other ↦ other
]
