-- ===== src/Error.antt =====
-- src/error.rs: the errors of the library, and the text that `Display` gives for each.
use blackchain_crypto_lib_ru.Base.{ℕ, String, ◌∷◌, [], Message, text, number, Result}

-- `alloy_rlp::Error`: the four variants that the library builds itself, and any other by its text.
pub data RlpFailure : Type 0 where
  unexpected_string input_too_short unexpected_length : RlpFailure
  custom_failure : String → RlpFailure
  other_failure : Message → RlpFailure

pub data CryptoError : Type 0 where
  invalid_key_size : ℕ → ℕ → CryptoError
  signature_error : Message → CryptoError
  rlp_error : RlpFailure → CryptoError
  bip39_error : Message → CryptoError
  curve_error : Message → CryptoError
  hex_error : Message → CryptoError
  seed_error : Message → CryptoError
  custom : Message → CryptoError

abbrev pub Fallible : Type 0 → Type 0
Fallible A = Result CryptoError A

-- `Display`; the text of a crate's own RLP error is a parameter.
unfoldable pub display : (RlpFailure → Message) → CryptoError → Message
display rlp_text (invalid_key_size expected actual) =
    text "Invalid key size: expected " ∷ number expected ∷ text ", got " ∷ number actual ∷ []
display rlp_text (signature_error m) = text "Signature error: " ∷ m
display rlp_text (rlp_error e) = text "RLP error: " ∷ rlp_text e
display rlp_text (bip39_error m) = text "BIP39 error: " ∷ m
display rlp_text (curve_error m) = text "Elliptic Curve error: " ∷ m
display rlp_text (hex_error m) = text "Hex decoding error: " ∷ m
display rlp_text (seed_error m) = text "Seed error: " ∷ m
display rlp_text (custom m) = text "Custom error: " ∷ m
