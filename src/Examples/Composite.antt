-- ===== src/Examples/Composite.antt =====
-- Composite keys and transactions on small inputs.
use mathlib.Core.Path.{subst}
use blackchain_crypto_lib_ru.Base.{
  ◌+◌, ◌*◌, ap, sym, some, ◌<◌, ◌≤◌, true, [], ◌∷◌, ◌++◌, Bytes, ok, err, ◌≡◌, ◌↔◌, replicate,
  length, arith, plain,
}
use blackchain_crypto_lib_ru.Crates.Toy.{toy, toy-CrateLaws}
use blackchain_crypto_lib_ru.Crates.Toy.Wire.{toy_rlp, toy_rlp-RlpLaws}
use blackchain_crypto_lib_ru.Crypto.Checks.{Authentic, verify_message_iff}
use blackchain_crypto_lib_ru.Crypto.Encoding.{IsComposite, from_bytes_iff}
use blackchain_crypto_lib_ru.Crypto.Keys.{IsKeyPair, generate-IsKeyPair, generate_total}
use blackchain_crypto_lib_ru.Crypto.PrivateKey.{
  BlackChainPrivateKey, generate, derive_public_key, sign_message,
}
use blackchain_crypto_lib_ru.Crypto.PublicKey.{
  BlackChainPublicKey, to_bytes, from_bytes, derive_address, verify_message,
}
use blackchain_crypto_lib_ru.Crypto.RoundTrip.{verify_message-sign_message}
use blackchain_crypto_lib_ru.Error.{seed_error}
use blackchain_crypto_lib_ru.Examples.Shared.{
  seed, derived, taken, private_key, public_key, made, message, transaction, transaction-IsValid,
}
use blackchain_crypto_lib_ru.Transaction.Codec
use blackchain_crypto_lib_ru.Transaction.Codec.RoundTrip.{decode-encode, with_fields, kept_fields}
use blackchain_crypto_lib_ru.Transaction.Signing.{
  signature_hash, sign_transaction, recover_sender, verify_signature, unsigned,
}
use blackchain_crypto_lib_ru.Transaction.Signing.Recovery.{
  recover_sender_iff, VerifiesAs, verify_signature_iff,
}
use blackchain_crypto_lib_ru.Transaction.Signing.RoundTrip.{recover_sender-sign_transaction}
use blackchain_crypto_lib_ru.Transaction.Types.{BlackChainTxType, IsU64}

generate-IsKeyPair_example :
    (64 ≤ length seed)
    × IsKeyPair toy toy-CrateLaws private_key public_key
    × (private_key.seed ≡ seed)
    × (derive_public_key toy private_key ≡ ok public_key)
generate-IsKeyPair_example = generate-IsKeyPair toy toy-CrateLaws seed private_key public_key made

generate_total_example :
    (length seed < 64
      → generate toy seed
        ≡ err (seed_error (plain "seed must be at least 64 bytes for BlackChain key derivation")))
    × (64 ≤ length seed
        → (sk : BlackChainPrivateKey) × (pk : BlackChainPublicKey) × (generate toy seed
            ≡ ok (sk, pk)))
generate_total_example =
    generate_total toy toy-CrateLaws seed (λ long. (replicate 66 7, derived, 1, omega arith, taken))

from_bytes_iff_example :
    (from_bytes toy (to_bytes public_key) ≡ ok public_key)
    ↔ ((to_bytes public_key ≡ to_bytes public_key) × IsComposite toy public_key)
from_bytes_iff_example = from_bytes_iff toy (to_bytes public_key) public_key

verify_message-sign_message_example :
    (sig : Bytes) × (sign_message toy private_key message (1 ∷ []) ≡ ok sig)
    × (length sig ≡ 4873)
    × (verify_message toy public_key message sig ≡ ok true)
verify_message-sign_message_example =
    verify_message-sign_message toy toy-CrateLaws seed message (1 ∷ []) private_key public_key made

abbrev message_signature : Bytes
message_signature =
    (verify_message-sign_message toy toy-CrateLaws seed message (1 ∷ []) private_key public_key
      made).0

verify_message_iff_example :
    (verify_message toy public_key message message_signature ≡ ok true)
    ↔ Authentic toy public_key
        (toy.hashes.keccak256 message)
        (toy.hashes.shake256
          (public_key.dilithium ++ (public_key.p521 ++ (public_key.ed448 ++ replicate 16 0)))
          32)
        message_signature
verify_message_iff_example = verify_message_iff toy public_key message message_signature

recover_sender-sign_transaction_example :
    (signed : BlackChainTxType) × (address : Bytes) × (sign_transaction toy transaction private_key
        []
      ≡ ok signed)
    × (unsigned signed ≡ unsigned transaction)
    × (derive_address toy public_key ≡ ok address)
    × (recover_sender toy signed ≡ ok address)
recover_sender-sign_transaction_example =
    recover_sender-sign_transaction toy toy-CrateLaws seed [] private_key public_key transaction
      made (omega arith)

abbrev pub signed_run :
    (signed : BlackChainTxType) × (address : Bytes) × (sign_transaction toy transaction private_key
        []
      ≡ ok signed)
    × (unsigned signed ≡ unsigned transaction)
    × (derive_address toy public_key ≡ ok address)
    × (recover_sender toy signed ≡ ok address)
signed_run =
    recover_sender-sign_transaction toy toy-CrateLaws seed [] private_key public_key transaction
      made (omega arith)

abbrev pub signed_transaction : BlackChainTxType
signed_transaction = signed_run.0

abbrev pub sender : Bytes
sender = signed_run.1

pub signed-IsU64 : IsU64 signed_transaction.chain_id
unfolding unsigned
signed-IsU64 = subst IsU64 (ap (λ tx. tx.chain_id) (sym signed_run.3)) (omega arith)

recover_sender_iff_example : (recover_sender toy signed_transaction ≡ ok sender) ↔ (
    (sig : Bytes) × (key : Bytes) × (signed_transaction.pqc_signature ≡ some sig)
    × (signed_transaction.pub_key ≡ some key)
    × (signed_transaction.v ≡ some (signed_transaction.chain_id * 2 + 35))
    × (signed_transaction.r ≡ some 0)
    × (signed_transaction.s ≡ some 0)
    × VerifiesAs toy
        (signature_hash toy signed_transaction)
        signed_transaction.chain_id
        key
        sig
        sender)
recover_sender_iff_example = recover_sender_iff toy signed_transaction sender signed-IsU64

abbrev envelope :
    (sig : Bytes) × (key : Bytes) × (signed_transaction.pqc_signature ≡ some sig)
    × (signed_transaction.pub_key ≡ some key)
    × (signed_transaction.v ≡ some (signed_transaction.chain_id * 2 + 35))
    × (signed_transaction.r ≡ some 0)
    × (signed_transaction.s ≡ some 0)
    × VerifiesAs toy
        (signature_hash toy signed_transaction)
        signed_transaction.chain_id
        key
        sig
        sender
envelope = (recover_sender_iff toy signed_transaction sender signed-IsU64).0 signed_run.5

decode-encode_example :
    (Codec.decode toy_rlp (Codec.encode toy_rlp transaction ++ 5 ∷ [])
      ≡ ok (with_fields transaction (kept_fields transaction), 5 ∷ []))
    × (length (Codec.encode toy_rlp transaction) ≡ Codec.encoded_length toy_rlp transaction)
decode-encode_example =
    decode-encode toy_rlp toy_rlp-RlpLaws transaction (5 ∷ []) transaction-IsValid

verify_signature_iff_example :
    (verify_signature toy
        (signature_hash toy signed_transaction)
        signed_transaction.chain_id
        envelope.1
        envelope.0
      ≡ ok sender)
    ↔ VerifiesAs toy
        (signature_hash toy signed_transaction)
        signed_transaction.chain_id
        envelope.1
        envelope.0
        sender
verify_signature_iff_example =
    verify_signature_iff toy (signature_hash toy signed_transaction) signed_transaction.chain_id
      envelope.1 envelope.0 sender
