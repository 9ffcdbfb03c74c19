-- ===== src/HdWallet/Tests.antt =====
-- Runs of the path parser.
use blackchain_crypto_lib_ru.Base.{◌≡◌, refl, ok, [], ◌∷◌, codes}
use blackchain_crypto_lib_ru.HdWallet.Path.{parse_hardened_path}

default_path :
    parse_hardened_path (codes " m/44'/60h/7 ") ≡ ok (0x8000_002c ∷ 0x8000_003c ∷ 0x8000_0007 ∷ [])
unfolding parse_hardened_path
default_path = refl
