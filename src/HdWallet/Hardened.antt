-- ===== src/HdWallet/Hardened.antt =====
-- Every path that is parsed or derived along is hardened (src/hdwallet/derivation.rs).
use blackchain_crypto_lib_ru.Base.{
  ℕ, suc, ◌+◌, ◌≤◌, ◌<◌, ◌≡◌, refl, List, [], ◌∷◌, All, Bytes, Chars, ok, ltb, arith, length,
  refuse_if, ok_or, >>=-eq-ok, ok-injective, parse_u32, trim_end_matches, trim_start_pair, trim,
  split,
}
use blackchain_crypto_lib_ru.Base.Bits.{bit_or_hardened}
use blackchain_crypto_lib_ru.Crates.{Bip32}
use blackchain_crypto_lib_ru.HdWallet.Derivation.{check_hardened, derive_child_seed}
use blackchain_crypto_lib_ru.HdWallet.Path.{
  is_marker, is_empty, parse_part, parse_parts, parse_hardened_path,
}
use mathlib.Core.Path.{subst}

-- A 32-bit index with the hardening bit.
abbrev pub IsHardened : ℕ → Type 0
IsHardened index = (0x8000_0000 ≤ index) × (index < 0x1_0000_0000)

hardened :
    (i : ℕ) (path : List ℕ)
    → All (λ index. 0x8000_0000 ≤ index) path
    → check_hardened i path ≡ ok tt
unfolding check_hardened
hardened i [] all = refl
hardened i (index ∷ path) (here, later) = ground (arith, hardened (i + 1) path later)

checked :
    (i : ℕ) (path : List ℕ)
    → check_hardened i path ≡ ok tt
    → All (λ index. 0x8000_0000 ≤ index) path
unfolding check_hardened
checked i [] h = tt
checked i (index ∷ path) h =
    let (u, here, later) = >>=-eq-ok (refuse_if (ltb index 0x8000_0000) _) _ h in
    (ground arith, checked (i + 1) path later)

parse_part-IsHardened :
    (pos : ℕ) (part : Chars) (index : ℕ) → parse_part pos part ≡ ok index → IsHardened index
unfolding parse_part
parse_part-IsHardened pos part index h =
    let (n, parsed, later) =
      >>=-eq-ok (ok_or _ (parse_u32 (trim_end_matches is_marker part))) _ h in
    let (u, small, end) = >>=-eq-ok (refuse_if (ltb 0x7fff_ffff n) _) _ later in
    let bound : n < 0x8000_0000 = ground arith in
    omega (arith, bit_or_hardened n bound, ok-injective end)

parse_parts-IsHardened :
    (pos : ℕ) (parts : List Chars) (path : List ℕ)
    → parse_parts pos parts ≡ ok path
    → All IsHardened path × (length path ≡ length parts)
unfolding parse_parts
parse_parts-IsHardened pos [] path h =
    subst (λ p. All IsHardened p × (length p ≡ 0)) (ok-injective h) (tt, refl)
parse_parts-IsHardened pos (part ∷ parts) path h =
    let (index, part_ok, later) = >>=-eq-ok (parse_part pos part) _ h in
    let (rest, rest_ok, end) = >>=-eq-ok (parse_parts (pos + 1) parts) _ later in
    let (all, same) = parse_parts-IsHardened (pos + 1) parts rest rest_ok in
    subst (λ p. All IsHardened p × (length p ≡ suc (length parts))) (ok-injective end)
      ((parse_part-IsHardened pos part index part_ok, all), omega arith)

weaker : (path : List ℕ) → All IsHardened path → All (λ index. 0x8000_0000 ≤ index) path
weaker [] all = tt
weaker (index ∷ path) (here, later) = (here.0, weaker path later)

-- A text that parses gives 32-bit indices that all have the hardening bit, so the check at the start
-- of a derivation along them passes.
pub parse_hardened_path-IsHardened :
    (input : Chars) (path : List ℕ)
    → parse_hardened_path input ≡ ok path
    → All IsHardened path × (check_hardened 0 path ≡ ok tt)
unfolding parse_hardened_path
parse_hardened_path-IsHardened input path h =
    let s = trim_start_pair b'm' b'/' (trim input) in
    let (u, present, parsed) = >>=-eq-ok (refuse_if (is_empty s) _) _ h in
    let (all, same) = parse_parts-IsHardened 0 (split b'/' s) path parsed in
    (all, hardened 0 path (weaker path all))

-- A child seed is derived only along a path whose indices all have the hardening bit.
pub derive_child_seed_hardened :
    (b : Bip32) (master_seed : Bytes) (path : List ℕ) (seed : Bytes)
    → derive_child_seed b master_seed path ≡ ok seed
    → All (λ index. 0x8000_0000 ≤ index) path
unfolding derive_child_seed
derive_child_seed_hardened b master_seed path seed h =
    let (u, here, later) = >>=-eq-ok (check_hardened 0 path) _ h in checked 0 path here
