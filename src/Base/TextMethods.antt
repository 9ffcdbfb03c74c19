-- ===== src/Base/TextMethods.antt =====
-- The methods of `str` that the source calls, on the list of a text's code points.
use Prim.Native.Nat.{ℕ, zero, suc, ◌+◌, ◌-◌, ◌*◌, ◌/◌, ◌%◌, ◌^◌}
use mathlib.Core.Bool.{Bool, true, false, ◌&&◌, ◌||◌}
use mathlib.Core.List.{List, [], ◌∷◌, ◌++◌, reverse}
use mathlib.Core.Option.{Option, none, some}
use blackchain_crypto_lib_ru.Base.Tests.{leb, ltb, ◌==◌, if◌then◌else◌}

abbrev pub Chars : Type 0
Chars = List ℕ

-- Unicode White_Space, `char::is_whitespace`.
unfoldable pub is_whitespace : ℕ → Bool
is_whitespace c =
    (leb 9 c && leb c 13)
    || c == 0x20
    || c == 0x85
    || c == 0xa0
    || c == 0x1680
    || (leb 0x2000 c && leb c 0x200a)
    || c == 0x2028
    || c == 0x2029
    || c == 0x202f
    || c == 0x205f
    || c == 0x3000

unfoldable pub drop_while : (ℕ → Bool) → Chars → Chars
drop_while p [] = []
drop_while p (c ∷ cs) = let rest = drop_while p cs in if p c then rest else c ∷ cs

-- `trim_end_matches`
unfoldable pub trim_end_matches : (ℕ → Bool) → Chars → Chars
unfolding drop_while
trim_end_matches p s = reverse (drop_while p (reverse s))

unfoldable pub trim : Chars → Chars
unfolding is_whitespace drop_while trim_end_matches
trim s = trim_end_matches is_whitespace (drop_while is_whitespace s)

-- `trim_start_matches` with a pattern of two characters, which is removed as often as it stands there.
unfoldable pub trim_start_pair : ℕ → ℕ → Chars → Chars
trim_start_pair x y (a ∷ b ∷ cs) =
    let rest = trim_start_pair x y cs in if a == x && b == y then rest else a ∷ b ∷ cs
trim_start_pair x y s = s

-- A character joins the first part.
abbrev pub onto_first : ℕ → List Chars → List Chars
onto_first c [] = (c ∷ []) ∷ []
onto_first c (part ∷ parts) = (c ∷ part) ∷ parts

unfoldable pub split : ℕ → Chars → List Chars
split sep [] = [] ∷ []
split sep (c ∷ cs) = if c == sep then [] ∷ split sep cs else onto_first c (split sep cs)

-- `split_whitespace().count()`; the flag says that a word is being read.
unfoldable pub count_words : Bool → Chars → ℕ
count_words inside [] = if inside then 1 else 0
count_words inside (c ∷ cs) =
    (if is_whitespace c && inside then 1 else 0)
    + count_words (if is_whitespace c then false else true) cs

-- The digits of `u32::from_str`, with its overflow check.
unfoldable pub parse_digits : ℕ → Chars → Option ℕ
parse_digits acc [] = some acc
parse_digits acc (c ∷ cs) =
    let rest = parse_digits (acc * 10 + (c - b'0')) cs in
    if leb b'0' c && leb c b'9' && ltb (acc * 10 + (c - b'0')) (2 ^ 32) then rest else none

-- `u32::from_str`: no empty text, and a sign `+` before at least one digit.
unfoldable pub parse_u32 : Chars → Option ℕ
parse_u32 [] = none
parse_u32 (c ∷ []) = if c == b'+' then none else parse_digits 0 (c ∷ [])
parse_u32 (c ∷ d ∷ cs) = if c == b'+' then parse_digits 0 (d ∷ cs) else parse_digits 0 (c ∷ d ∷ cs)

-- `to_string` of a number below 10 ^ n.
unfoldable pub decimal : ℕ → ℕ → Chars
decimal zero n = []
decimal (suc k) n =
    let rest = decimal k (n / 10) in
    if ltb n 10 then (b'0' + n) ∷ [] else rest ++ ((b'0' + n % 10) ∷ [])
