-- ===== src/Sign/Contract.antt =====
-- What the traits in src/sign.rs promise of a scheme and of its keys, as far as the three schemes keep it.
use blackchain_crypto_lib_ru.Base.{
  ◌≤◌, ◌≡◌, ◌≢◌, true, false, Option, none, some, Bytes, ok, err, length, Panics,
}
use blackchain_crypto_lib_ru.Crates.{Entropy}
use blackchain_crypto_lib_ru.Error.{CryptoError}
use blackchain_crypto_lib_ru.Sign.{SignatureOpts, DynPublicKey, DynPrivateKey, Scheme}

-- Options that a scheme takes: no context, or one of at most 255 bytes where contexts are supported.
abbrev pub Admits : Scheme → Option SignatureOpts → Type 0
Admits s none = Unit {0}
Admits s (some o) = (s.supports_context ≡ false → length o.context ≡ 0) × (length o.context ≤ 255)

-- A key pair: its sizes are the declared ones, its signatures verify, and its public key is read
-- back from its bytes as a key under which they verify too.
pub record IsPair (s : Scheme) (pk : DynPublicKey) (sk : DynPrivateKey) : Type 0 where
  pub public_bytes : Bytes
  pub private_bytes : Bytes
  pub marshals_public : pk.marshal_binary ≡ ok public_bytes
  pub marshals_private : sk.marshal_binary ≡ ok private_bytes
  pub length_public : length public_bytes ≡ s.public_key_size
  pub length_private : length private_bytes ≡ s.private_key_size
  pub names_public : sk.public_key_bytes ≡ public_bytes
  pub equals_itself : pk.equal pk.marshal_binary ≡ ok true
  pub signs :
      (message : Bytes) (opts : Option SignatureOpts) (nonce : Bytes)
      → Admits s opts
      → (sig : Bytes) × (s.sign sk message opts nonce ≡ ok sig)
        × (length sig ≡ s.signature_size)
        × (s.verify pk message sig opts ≡ ok true)
  pub reads_public :
      (read : DynPublicKey) × (s.unmarshal_binary_public_key public_bytes ≡ ok read)
      × (read.marshal_binary ≡ ok public_bytes)
  pub reads_private :
      (read : DynPrivateKey) × (s.unmarshal_binary_private_key private_bytes ≡ ok read)
      × (read.marshal_binary ≡ ok private_bytes)

-- What a scheme does behind the interface. Keys come in pairs; a seed of the wrong length panics. Signing
-- panics, as it is documented, with options that the scheme does not take and with a key that is none of
-- its own. Verification of the same is false, where the documentation of the trait lists a panic: that it
-- is false is what is stated here. Of a public key verification reads the bytes alone.
pub record Honours (s : Scheme) : Type 0 where
  pub derives :
      (seed : Bytes) (pk : DynPublicKey) (sk : DynPrivateKey)
      → s.derive_key seed ≡ ok (pk, sk)
      → IsPair s pk sk
  pub generates :
      (entropy : Entropy) (pk : DynPublicKey) (sk : DynPrivateKey)
      → s.generate_key entropy ≡ ok (pk, sk)
      → IsPair s pk sk
  pub wrong_seed : (seed : Bytes) → length seed ≢ s.seed_size → Panics (s.derive_key seed)
  pub sign_refuses :
      (o : SignatureOpts)
      → ¬ Admits s (some o)
      → (sk : DynPrivateKey) (message nonce : Bytes) → Panics (s.sign sk message (some o) nonce)
  pub verify_refuses :
      (o : SignatureOpts)
      → ¬ Admits s (some o)
      → (pk : DynPublicKey) (bytes message sig : Bytes) → pk.marshal_binary ≡ ok bytes
      → s.verify pk message sig (some o) ≡ ok false
  pub sign_mismatch :
      (sk : DynPrivateKey) (bytes message nonce : Bytes) (opts : Option SignatureOpts)
      (e : CryptoError)
      → sk.marshal_binary ≡ ok bytes
      → s.unmarshal_binary_private_key bytes ≡ err e
      → Panics (s.sign sk message opts nonce)
  pub verify_mismatch :
      (pk : DynPublicKey) (bytes message sig : Bytes) (opts : Option SignatureOpts)
      (e : CryptoError)
      → pk.marshal_binary ≡ ok bytes
      → s.unmarshal_binary_public_key bytes ≡ err e
      → s.verify pk message sig opts ≡ ok false
  pub verifies_by_bytes :
      (pk pk' : DynPublicKey) (message sig : Bytes) (opts : Option SignatureOpts)
      → pk.marshal_binary ≡ pk'.marshal_binary
      → s.verify pk message sig opts ≡ s.verify pk' message sig opts
