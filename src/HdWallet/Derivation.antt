-- ===== src/HdWallet/Derivation.antt =====
-- src/hdwallet/derivation.rs, less the path parser: the seed of each curve, and BIP-32 children.
use blackchain_crypto_lib_ru.Base.{
  ℕ, ◌+◌, true, List, [], ◌∷◌, ◌++◌, ltb, Bytes, plain, text, number, hex_number, ok, ◌>>=◌, ◌>>◌,
  refuse_if, from_crate, ok_or, bit_and,
}
use blackchain_crypto_lib_ru.Error.{custom, Fallible}
use blackchain_crypto_lib_ru.Crates.{Hashes, Bip32}

abbrev pub curve_id_p521 : ℕ
curve_id_p521 = 1

abbrev pub curve_id_ed448 : ℕ
curve_id_ed448 = 2

unfoldable pub derive_mdecc_curve_seed : Hashes → Bytes → ℕ → ℕ → Fallible Bytes
derive_mdecc_curve_seed h mdecc_seed curve_id seed_size =
    let shaken = h.shake256 (mdecc_seed ++ curve_id ∷ []) 32 in
    ok_or (custom (plain "HKDF-SHA3-512 expand failed")) (h.hkdf_expand shaken seed_size)

-- The loop that refuses an index below 0x80000000, from position `i` on.
unfoldable pub check_hardened : ℕ → List ℕ → Fallible (Unit {0})
check_hardened i [] = ok tt
check_hardened i (idx ∷ path) = do
  refuse_if (ltb idx 0x8000_0000) (
      custom (
        text "BIP32: index at position "
        ∷ number i
        ∷ text " must be hardened (≥ 0x80000000), got 0x"
        ∷ hex_number idx
        ∷ []))
  check_hardened (i + 1) path

module _ (b : Bip32) where
  unfoldable pub derive_step : b.XPrv → ℕ → Fallible b.XPrv
  derive_step key child_index = do
    let raw_index = bit_and child_index 0x7fff_ffff
    child_num ←
        from_crate (λ e. custom (text "BIP32 child number error: " ∷ e))
          (b.new_child_number raw_index true)
    from_crate (λ e. custom (text "BIP32 child derivation failed: " ∷ e))
        (b.derive_child key child_num)

  unfoldable pub derive_children : b.XPrv → List ℕ → Fallible b.XPrv
  derive_children key [] = ok key
  derive_children key (child_index ∷ path) = do
    next ← derive_step key child_index
    derive_children next path

  unfoldable pub derive_child_seed : Bytes → List ℕ → Fallible Bytes
  derive_child_seed master_seed path = do
    check_hardened 0 path
    master ←
        from_crate (λ e. custom (text "BIP32 master key creation failed: " ∷ e))
          (b.new_key master_seed)
    key ← derive_children master path
    ok (b.private_key_bytes key ++ b.chain_code key)
