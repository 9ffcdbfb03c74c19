-- ===== src/HdWallet/Path.antt =====
-- src/hdwallet/derivation.rs, `parse_hardened_path`, on the path's characters.
use blackchain_crypto_lib_ru.Base.{
  ℕ, ◌+◌, Bool, true, false, ◌||◌, List, [], ◌∷◌, ltb, ◌==◌, plain, text, number, quoted, ok, ◌>>=◌,
  ◌>>◌, refuse_if, ok_or, bit_or, Chars, trim, trim_end_matches, trim_start_pair, split,
  parse_digits, parse_u32,
}
use blackchain_crypto_lib_ru.Error.{custom, Fallible}

abbrev pub is_empty : Chars → Bool
is_empty [] = true
is_empty (x ∷ xs) = false

-- The suffixes that mark a hardened index.
abbrev pub is_marker : ℕ → Bool
is_marker c = c == 39 || (c == b'h' || c == b'H')

unfoldable pub parse_part : ℕ → Chars → Fallible ℕ
parse_part pos part = do
  let stripped = trim_end_matches is_marker part
  n ←
      ok_or
        (custom
          (text "BIP32: invalid index " ∷ quoted part ∷ text " at position " ∷ number pos ∷ []))
        (parse_u32 stripped)
  refuse_if (ltb 0x7fff_ffff n)
      (custom (text "BIP32: index too large before hardening at position " ∷ number pos ∷ []))
  ok (bit_or n 0x8000_0000)

unfoldable pub parse_parts : ℕ → List Chars → Fallible (List ℕ)
parse_parts pos [] = ok []
parse_parts pos (part ∷ parts) = do
  index ← parse_part pos part
  rest ← parse_parts (pos + 1) parts
  ok (index ∷ rest)

unfoldable pub parse_hardened_path : Chars → Fallible (List ℕ)
unfolding trim trim_start_pair split parse_parts parse_part trim_end_matches parse_u32 parse_digits
parse_hardened_path input = do
  let s = trim_start_pair b'm' b'/' (trim input)
  refuse_if (is_empty s) (custom (plain "derivation path is empty"))
  parse_parts 0 (split b'/' s)
