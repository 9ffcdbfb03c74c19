-- ===== src/Wasm/Accounts.antt =====
-- The derivation path of an account (src/wasm.rs, `from_mnemonic_at`).
use mathlib.Core.List.{reverse, reverse-append, reverse-reverse}
use blackchain_crypto_lib_ru.Base.{
  ℕ, ◌+◌, ◌^◌, ◌≤◌, ◌<◌, ◌≡◌, refl, ap, sym, ◌∙◌, false, Bool, [], ◌∷◌, ◌++◌, All, Chars, codes, ok,
  err, plain, List, text, number, arith, ltb, decimal, drop_while, trim_end_matches, trim,
  trim_start_pair, split, is_whitespace, parse_u32, parse_digits, panic, bit_or, refuse_if, ◌>>◌,
  ◌>>=◌, le→not_ltb, lt→ltb,
}
use blackchain_crypto_lib_ru.Base.Bits.{bit_or_hardened}
use blackchain_crypto_lib_ru.Error.{Fallible, custom}
use blackchain_crypto_lib_ru.HdWallet.Decimal.{IsDigit, All-snoc, decimal-All, parse_u32-decimal}
use blackchain_crypto_lib_ru.HdWallet.Path.{
  is_marker, is_empty, parse_part, parse_parts, parse_hardened_path,
}
use blackchain_crypto_lib_ru.Wasm.{account_path}

-- Trimming stops at the last character that the pattern does not match.
drop_while_head : (p : ℕ → Bool) (c : ℕ) (cs : Chars) → p c ≡ false → drop_while p (c ∷ cs) ≡ c ∷ cs
unfolding drop_while
drop_while_head p c cs h = rw h refl

trim_end_kept :
    (p : ℕ → Bool) (cs : Chars) (c : ℕ)
    → p c ≡ false
    → trim_end_matches p (cs ++ c ∷ []) ≡ cs ++ c ∷ []
unfolding trim_end_matches
trim_end_kept p cs c h =
    rw (reverse-append cs (c ∷ []), drop_while_head p c (reverse cs) h)
      (sym (ap reverse (reverse-append cs (c ∷ []))) ∙ reverse-reverse (cs ++ c ∷ []))

-- Digits are not markers, so that of `i'` the marker alone is stripped.
digits_kept : (cs : Chars) → All IsDigit cs → drop_while is_marker cs ≡ cs
unfolding drop_while
digits_kept [] all = refl
digits_kept (c ∷ cs) all = drop_while_head is_marker c cs (ground (arith, all.0.0, all.0.1))

All-reverse : (cs : Chars) → All IsDigit cs → All IsDigit (reverse cs)
All-reverse [] all = tt
All-reverse (c ∷ cs) all =
    rw (reverse-append (c ∷ []) cs) (All-snoc (reverse cs) c (All-reverse cs all.1) all.0)

marker_stripped : (cs : Chars) → All IsDigit cs → trim_end_matches is_marker (cs ++ 39 ∷ []) ≡ cs
unfolding trim_end_matches drop_while
marker_stripped cs all =
    rw (reverse-append cs (39 ∷ []), digits_kept (reverse cs) (All-reverse cs all))
      (reverse-reverse cs)

-- Digits and a marker are one part of a path.
split_part : (cs : Chars) → All IsDigit cs → split b'/' (cs ++ 39 ∷ []) ≡ (cs ++ 39 ∷ []) ∷ []
unfolding split
split_part [] all = refl
split_part (c ∷ cs) all = ground (arith, split_part cs all.1, all.0.0)

parse_number :
    (pos index : ℕ)
    → index < 2 ^ 32
    → parse_part pos (decimal 10 index ++ 39 ∷ []) ≡ (do
      refuse_if
          (ltb 0x7fff_ffff index)
          (custom (text "BIP32: index too large before hardening at position " ∷ number pos ∷ []))
      ok (bit_or index 0x8000_0000))
unfolding parse_part
parse_number pos index small =
    rw (marker_stripped (decimal 10 index) (decimal-All 10 index), parse_u32-decimal index small)
      refl

path_parts :
    (cs : Chars)
    → All IsDigit cs
    → split b'/' (codes "44'/60'/0'/0'/" ++ (cs ++ 39 ∷ []))
      ≡ codes "44'" ∷ codes "60'" ∷ codes "0'" ∷ codes "0'" ∷ (cs ++ 39 ∷ []) ∷ []
unfolding split
path_parts cs all = rw (split_part cs all) refl

trimmed :
    (cs : Chars)
    → trim (codes "m/44'/60'/0'/0'/" ++ (cs ++ 39 ∷ []))
      ≡ codes "m/44'/60'/0'/0'/" ++ (cs ++ 39 ∷ [])
unfolding trim drop_while is_whitespace
trimmed cs = trim_end_kept is_whitespace (codes "m/44'/60'/0'/0'/" ++ cs) 39 refl

prefix_stripped :
    (cs : Chars)
    → trim_start_pair b'm' b'/' (codes "m/44'/60'/0'/0'/" ++ cs) ≡ codes "44'/60'/0'/0'/" ++ cs
unfolding trim_start_pair
prefix_stripped cs = refl

abbrev parse_trimmed : Chars → Fallible (List ℕ)
parse_trimmed s = do
  refuse_if (is_empty s) (custom (plain "derivation path is empty"))
  parse_parts 0 (split b'/' s)

path_parsed :
    (index : ℕ)
    → parse_hardened_path (account_path index)
      ≡ parse_parts 0
          (codes "44'" ∷ codes "60'" ∷ codes "0'" ∷ codes "0'" ∷ (decimal 10 index ++ 39 ∷ []) ∷ [])
unfolding parse_hardened_path account_path
path_parsed index =
    let digits = decimal 10 index in
    ap (λ t. parse_trimmed (trim_start_pair b'm' b'/' t)) (trimmed digits)
    ∙ ap parse_trimmed (prefix_stripped (digits ++ 39 ∷ []))
    ∙ ap (parse_parts 0) (path_parts digits (decimal-All 10 index))

part_44 : parse_part 0 (codes "44'") ≡ ok 0x8000_002c
unfolding parse_part trim_end_matches drop_while parse_u32 parse_digits
part_44 = refl

part_60 : parse_part 1 (codes "60'") ≡ ok 0x8000_003c
unfolding parse_part trim_end_matches drop_while parse_u32 parse_digits
part_60 = refl

part_0 : (pos : ℕ) → parse_part pos (codes "0'") ≡ ok 0x8000_0000
unfolding parse_part trim_end_matches drop_while parse_u32 parse_digits
part_0 pos = refl

-- The last index joins the four in front of it.
collected :
    (last : Fallible ℕ) (a b d e : ℕ)
    → ((((((last >>= λ i. (ok [] >>= λ r. ok (i ∷ r))) >>= λ r. ok (e ∷ r)) >>= λ r. ok (d ∷ r))
          >>= λ r. ok (b ∷ r))
        >>= λ r. ok (a ∷ r)))
      ≡ (last >>= λ i. ok (a ∷ b ∷ d ∷ e ∷ i ∷ []))
collected (ok i) a b d e = refl
collected (err f) a b d e = refl
collected (panic m) a b d e = refl

-- The four parts in front of the index parse.
last_part :
    (part : Chars)
    → parse_parts 0 (codes "44'" ∷ codes "60'" ∷ codes "0'" ∷ codes "0'" ∷ part ∷ []) ≡ (
        parse_part 4 part >>= λ i.
        ok (0x8000_002c ∷ 0x8000_003c ∷ 0x8000_0000 ∷ 0x8000_0000 ∷ i ∷ []))
unfolding parse_parts
last_part part =
    rw (part_44, part_60, part_0 2, part_0 3)
      (collected (parse_part 4 part) 0x8000_002c 0x8000_003c 0x8000_0000 0x8000_0000)

-- The path of account `index`, a 32-bit number, parses to the five hardened indices 44, 60, 0, 0 and
-- `index` if that is below 2 ^ 31, and is refused otherwise.
pub parse_hardened_path-account_path :
    (index : ℕ)
    → (index < 2 ^ 31
        → parse_hardened_path (account_path index)
          ≡ ok (0x8000_002c ∷ 0x8000_003c ∷ 0x8000_0000 ∷ 0x8000_0000 ∷ (index + 0x8000_0000) ∷ []))
      × (2 ^ 31 ≤ index
          → index < 2 ^ 32
          → parse_hardened_path (account_path index)
            ≡ err (
                custom
                  (text "BIP32: index too large before hardening at position " ∷ number 4 ∷ [])))
parse_hardened_path-account_path index = (
  λ small.
      path_parsed index
      ∙ last_part (decimal 10 index ++ 39 ∷ [])
      ∙ rw
          (
            parse_number 4 index (omega arith),
            le→not_ltb 0x7fff_ffff index (omega arith),
            bit_or_hardened index small,
          )
          refl,
  λ large fits.
      path_parsed index
      ∙ last_part (decimal 10 index ++ 39 ∷ [])
      ∙ rw (parse_number 4 index fits, lt→ltb 0x7fff_ffff index (omega arith)) refl,
)
