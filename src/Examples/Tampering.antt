-- ===== src/Examples/Tampering.antt =====
-- Changed transactions on small inputs.
use mathlib.Core.Path.{subst}
use blackchain_crypto_lib_ru.Base.{
  drop, ==_iff, true, length-replicate, ◌≡◌, ◌≢◌, refl, ap, sym, [], ◌∷◌, ◌++◌, Bytes, ok, err,
  replicate, arith, le_number, ℕ, length, ◌+◌,
}
use blackchain_crypto_lib_ru.Crates.Toy.{toy, toy-CrateLaws}
use blackchain_crypto_lib_ru.Crates.Toy.Signatures.{toy_hashes}
use blackchain_crypto_lib_ru.Crates.Toy.Wire.{toy_rlp, toy_rlp-RlpLaws}
use blackchain_crypto_lib_ru.Crypto.Encoding.{
  IsComposite, IsKeyPair-IsComposite, from_bytes-to_bytes,
}
use blackchain_crypto_lib_ru.Crypto.Keys.{generate-IsKeyPair}
use blackchain_crypto_lib_ru.Crypto.PublicKey.{BlackChainPublicKey, to_bytes}
use blackchain_crypto_lib_ru.Dilithium
use blackchain_crypto_lib_ru.Dilithium.Keys.{public_from_bytes-encode}
use blackchain_crypto_lib_ru.Transaction.Codec.Recipients.{fields_to, decode_bad_recipient}
use blackchain_crypto_lib_ru.Transaction.Signing.RoundTrip.{pub_key-sign_transaction}
use blackchain_crypto_lib_ru.Examples.Composite.{
  signed_transaction, sender, signed-IsU64, signed_run,
}
use blackchain_crypto_lib_ru.Ed448.Point.{byte_at}
use blackchain_crypto_lib_ru.Error.{CryptoError, unexpected_length}
use blackchain_crypto_lib_ru.Examples.Shared.{
  transaction, transaction-IsValid, seed, private_key, public_key, made,
}
use blackchain_crypto_lib_ru.Transaction.Codec
use blackchain_crypto_lib_ru.Transaction.Signing.{recover_sender, signature_hash, unsigned}
use blackchain_crypto_lib_ru.Transaction.Signing.Binding.{BindsMessage, BindsKey}
use blackchain_crypto_lib_ru.Transaction.Signing.Commitment.{NoCollision}
use blackchain_crypto_lib_ru.Transaction.Signing.Tampering.{
  recover_sender_tampered, recovered-IsValid, signature_hash_same, recover_sender-swapped, swapped,
}
use blackchain_crypto_lib_ru.Transaction.Types.{BlackChainTxType, IsValid}

-- The signed transaction with another nonce.
abbrev replayed : BlackChainTxType
replayed = record signed_transaction { nonce = 2 }

signed-IsValid : IsValid signed_transaction
signed-IsValid =
    recovered-IsValid toy transaction signed_transaction sender transaction-IsValid signed_run.3
      signed_run.5

replayed-IsValid : IsValid replayed
replayed-IsValid = record {
  chain_id_u64 = signed-IsValid.chain_id_u64;
  nonce_u64 = omega arith;
  priority_u256 = signed-IsValid.priority_u256;
  max_fee_u256 = signed-IsValid.max_fee_u256;
  gas_limit_u64 = signed-IsValid.gas_limit_u64;
  to_address = signed-IsValid.to_address;
  value_u256 = signed-IsValid.value_u256;
  v_u256 = signed-IsValid.v_u256;
  r_u256 = signed-IsValid.r_u256;
  s_u256 = signed-IsValid.s_u256;
}

nonce_differs : signed_transaction.nonce ≢ 2
unfolding unsigned
nonce_differs h =
    let same : signed_transaction.nonce ≡ 1 = ap (λ t. t.nonce) signed_run.3 in omega arith

unsigned_differs : unsigned signed_transaction ≢ unsigned replayed
unfolding unsigned
unsigned_differs h = nonce_differs (ap (λ t. t.nonce) h)

-- The toy hash keeps the first 32 bytes, among them the nonce.
hashes_differ : NoCollision toy signed_transaction replayed
unfolding unsigned Codec.encode toy_hashes
hashes_differ h =
    let nonces : signed_transaction.nonce ≡ 2 = ap (λ l. byte_at l 4) h in
    absurd (nonce_differs nonces)

fifth :
    (a b d e x y : ℕ) (rest : Bytes)
    → le_number (a ∷ b ∷ d ∷ e ∷ x ∷ rest) ≡ le_number (a ∷ b ∷ d ∷ e ∷ y ∷ rest)
    → x ≡ y
fifth a b d e x y rest h = omega arith

abbrev renumbered : BlackChainTxType → BlackChainTxType
renumbered tx = record tx { nonce = 2 }

-- The transaction before it is signed, with that other nonce.
abbrev replay : BlackChainTxType
replay = record transaction { nonce = 2 }

same_replay : unsigned replayed ≡ unsigned replay
unfolding unsigned
same_replay = ap renumbered signed_run.3

-- A toy signature is the key plus the number of the hash.
numbers_differ :
    BindsMessage toy.ml_dsa (signature_hash toy transaction) (signature_hash toy replay)
unfolding signature_hash unsigned Codec.encode toy_hashes replicate Codec.rlp_payload_length
    Codec.has_signature
numbers_differ pk sig h h' =
    let left : sig ≡ pk + le_number (signature_hash toy transaction) = (==_iff _ _).0 h in
    let right : sig ≡ pk + le_number (signature_hash toy replay) = (==_iff _ _).0 h' in
    let same : le_number (signature_hash toy transaction) ≡ le_number (signature_hash toy replay) =
      omega arith in
    let hash = signature_hash toy transaction in
    let nonces : ◌≡◌ {A = ℕ} 1 2 =
      fifth (byte_at hash 0) (byte_at hash 1) (byte_at hash 2) (byte_at hash 3) 1 2 (drop 5 hash)
        same in
    absurd (omega arith)

signed_numbers_differ :
    BindsMessage toy.ml_dsa (signature_hash toy signed_transaction) (signature_hash toy replayed)
signed_numbers_differ =
    subst (λ h. BindsMessage toy.ml_dsa h (signature_hash toy replayed))
      (sym (signature_hash_same toy signed_transaction transaction signed_run.3))
      (subst (λ h. BindsMessage toy.ml_dsa (signature_hash toy transaction) h)
        (sym (signature_hash_same toy replayed replay same_replay)) numbers_differ)

recover_sender_tampered_example : (e : CryptoError) × (recover_sender toy replayed ≡ err e)
recover_sender_tampered_example =
    recover_sender_tampered toy toy-CrateLaws signed_transaction replayed sender signed-IsValid
      replayed-IsValid signed_run.5 refl refl unsigned_differs hashes_differ signed_numbers_differ

-- The key of the examples with another ML-DSA part.
abbrev composite : IsComposite toy public_key
composite =
    IsKeyPair-IsComposite toy toy-CrateLaws private_key public_key
      (generate-IsKeyPair toy toy-CrateLaws seed private_key public_key made).1

abbrev other_dil : ℕ
other_dil = composite.dil_key + 1

abbrev other_key : BlackChainPublicKey
other_key = record public_key { dilithium = toy.ml_dsa.encode other_dil }

other_parses : Dilithium.public_from_bytes toy.ml_dsa other_key.dilithium ≡ ok other_dil
other_parses = public_from_bytes-encode toy.ml_dsa toy-CrateLaws.ml_dsa_laws other_dil

other-IsComposite : IsComposite toy other_key
other-IsComposite = record {
  dil_key = other_dil;
  p521_key = composite.p521_key;
  ed448_key = composite.ed448_key;
  length_dil = toy-CrateLaws.ml_dsa_laws.length-encode other_dil;
  length_p521 = composite.length_p521;
  length_ed448 = composite.length_ed448;
  dil_parses = other_parses;
  p521_parses = composite.p521_parses;
  ed448_parses = composite.ed448_parses;
}

-- No sum is that of two keys.
keys_differ : BindsKey toy.ml_dsa composite.dil_key other_dil
keys_differ msg sig h h' =
    let left : sig ≡ composite.dil_key + le_number msg = (==_iff _ _).0 h in
    let right : sig ≡ other_dil + le_number msg = (==_iff _ _).0 h' in absurd (omega arith)

recover_sender-swapped_example :
    (e : CryptoError) × (recover_sender toy
        (swapped toy toy-CrateLaws signed_transaction (to_bytes other_key))
      ≡ err e)
recover_sender-swapped_example =
    let (has_key, read) =
      pub_key-sign_transaction toy toy-CrateLaws seed [] private_key public_key transaction
        signed_transaction made signed_run.2 in
    recover_sender-swapped toy toy-CrateLaws signed_transaction sender (to_bytes public_key)
      (to_bytes other_key) public_key other_key composite.dil_key other_dil signed-IsU64
      signed_run.5 has_key read (from_bytes-to_bytes toy other_key other-IsComposite)
      composite.dil_parses other_parses (λ h. omega arith) keys_differ

decode_bad_recipient_example :
    Codec.decode toy_rlp (
      toy_rlp.encode_header true (length (fields_to toy_rlp 1 2 3 4 5 (replicate 21 0x11) (7 ∷ [])))
      ++ (fields_to toy_rlp 1 2 3 4 5 (replicate 21 0x11) (7 ∷ []) ++ 9 ∷ []))
    ≡ err unexpected_length
decode_bad_recipient_example =
    decode_bad_recipient toy_rlp toy_rlp-RlpLaws 1 2 3 4 5 (replicate 21 0x11) (7 ∷ []) (9 ∷ [])
      (omega arith) (omega arith) (omega arith) (omega arith) (omega arith)
      (omega (arith, length-replicate {A = ℕ} 21 0x11))
      (omega (arith, length-replicate {A = ℕ} 21 0x11))
