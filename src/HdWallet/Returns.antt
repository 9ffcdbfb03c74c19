-- ===== src/HdWallet/Returns.antt =====
-- The wallet functions give a value or an error on every input (src/hdwallet).
use blackchain_crypto_lib_ru.Base.{ltb, refuse_if, ℕ, ◌+◌, List, [], ◌∷◌, Bytes, Chars}
use blackchain_crypto_lib_ru.Base.Returns.{Returns, Returns-ok, Returns-bind, returns_rules}
use blackchain_crypto_lib_ru.Crates.{Hashes, Bip32, Bip39}
use blackchain_crypto_lib_ru.HdWallet.Derivation.{
  derive_mdecc_curve_seed, check_hardened, derive_step, derive_children, derive_child_seed,
}
use blackchain_crypto_lib_ru.HdWallet.Mnemonic.{seed_from_mnemonic}
use blackchain_crypto_lib_ru.HdWallet.Path.{parse_part, parse_parts, parse_hardened_path}

part-Returns : (pos : ℕ) (part : Chars) → Returns (parse_part pos part)
unfolding parse_part
part-Returns pos part = search returns_rules

parts-Returns : (pos : ℕ) (parts : List Chars) → Returns (parse_parts pos parts)
unfolding parse_parts
parts-Returns pos [] = search returns_rules
parts-Returns pos (part ∷ parts) =
    Returns-bind (parse_part pos part) _ (part-Returns pos part) (λ index read.
      Returns-bind (parse_parts (pos + 1) parts) _ (parts-Returns (pos + 1) parts)
        (λ rest more. Returns-ok (index ∷ rest)))

pub parse_hardened_path-Returns : (input : Chars) → Returns (parse_hardened_path input)
unfolding parse_hardened_path
parse_hardened_path-Returns input = search (returns_rules, parts-Returns)

hardened-Returns : (i : ℕ) (path : List ℕ) → Returns (check_hardened i path)
unfolding check_hardened
hardened-Returns i [] = search returns_rules
hardened-Returns i (index ∷ path) =
    Returns-bind (refuse_if (ltb index 0x8000_0000) _) _ (search returns_rules)
      (λ u checked. hardened-Returns (i + 1) path)

module _ (b : Bip32) where
  step-Returns : (key : b.XPrv) (index : ℕ) → Returns (derive_step b key index)
  unfolding derive_step
  step-Returns key index = search returns_rules

  children-Returns : (key : b.XPrv) (path : List ℕ) → Returns (derive_children b key path)
  unfolding derive_children
  children-Returns key [] = search returns_rules
  children-Returns key (index ∷ path) =
      Returns-bind (derive_step b key index) _ (step-Returns key index)
        (λ next derived. children-Returns next path)

  pub derive_child_seed-Returns :
      (seed : Bytes) (path : List ℕ) → Returns (derive_child_seed b seed path)
  unfolding derive_child_seed
  derive_child_seed-Returns seed path =
      search (returns_rules, hardened-Returns, children-Returns) depth 9

pub derive_mdecc_curve_seed-Returns :
    (h : Hashes) (seed : Bytes) (curve_id size : ℕ)
    → Returns (derive_mdecc_curve_seed h seed curve_id size)
unfolding derive_mdecc_curve_seed
derive_mdecc_curve_seed-Returns h seed curve_id size = search returns_rules

pub seed_from_mnemonic-Returns :
    (b : Bip39) (phrase password : Chars) → Returns (seed_from_mnemonic b phrase password)
unfolding seed_from_mnemonic
seed_from_mnemonic-Returns b phrase password = search returns_rules
