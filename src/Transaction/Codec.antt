-- ===== src/Transaction/Codec.antt =====
-- src/transaction/rlp.rs: the RLP form of a transaction over `alloy_rlp`. The decoder returns the
-- bytes behind the list; what a failed call leaves of its buffer is not modelled.
pub mod Recipients
pub mod Lengths
pub mod RoundTrip
pub mod Fields
pub mod Canonical
pub mod Ranges
pub mod Returns
use mathlib.Core.Option.{get_or}
use blackchain_crypto_lib_ru.Base.{
  ℕ, ◌+◌, Bool, true, false, not, ◌||◌, Option, none, some, [], ◌∷◌, ◌++◌, if◌then◌else◌, ◌==◌, ltb,
  Bytes, Result, ◌⊎◌, ok, err, ◌>>=◌, ◌>>◌, refuse_if, from_crate, length, take, drop,
}
use blackchain_crypto_lib_ru.Crates.{Rlp}
use blackchain_crypto_lib_ru.Error.{
  RlpFailure, unexpected_string, input_too_short, unexpected_length, custom_failure,
}
use blackchain_crypto_lib_ru.Transaction.Types.{BlackChainTxType}

abbrev pub is_some {ℓ} : {A : Type ℓ} → Option A → Bool
is_some none = false
is_some (some a) = true

abbrev pub is_empty : Bytes → Bool
is_empty [] = true
is_empty (x ∷ xs) = false

unfoldable pub has_signature : BlackChainTxType → Bool
has_signature tx = is_some tx.v || is_some tx.pqc_signature

-- The five signature fields, as the decoder collects them.
pub record SignatureFields : Type 0 where
  pub v : Option ℕ
  pub r : Option ℕ
  pub s : Option ℕ
  pub pqc_signature : Option Bytes
  pub pub_key : Option Bytes

abbrev pub no_signature : SignatureFields
no_signature = record { v = none; r = none; s = none; pqc_signature = none; pub_key = none }

module _ (rlp : Rlp) where
  -- The lengths and the encodings of the two optional parts.
  abbrev pub length_to : Option Bytes → ℕ
  length_to none = rlp.length_bytes []
  length_to (some addr) = rlp.length_address addr

  abbrev pub encode_to : Option Bytes → Bytes
  encode_to none = rlp.encode_bytes []
  encode_to (some addr) = rlp.encode_address addr

  pub signature_length : BlackChainTxType → ℕ
  signature_length tx =
      if has_signature tx
      then rlp.length_u256 (get_or tx.v 0)
        + rlp.length_u256 (get_or tx.r 0)
        + rlp.length_u256 (get_or tx.s 0)
        + rlp.length_bytes (get_or tx.pqc_signature [])
        + rlp.length_bytes (get_or tx.pub_key [])
      else 0

  unfoldable pub rlp_payload_length : BlackChainTxType → ℕ
  unfolding signature_length
  rlp_payload_length tx =
      rlp.length_u64 tx.chain_id
      + rlp.length_u64 tx.nonce
      + rlp.length_u256 tx.max_priority_fee_per_gas
      + rlp.length_u256 tx.max_fee_per_gas
      + rlp.length_u64 tx.gas_limit
      + length_to tx.to
      + rlp.length_u256 tx.value
      + rlp.length_bytes tx.input
      + signature_length tx

  pub encode_signature : BlackChainTxType → Bytes
  encode_signature tx =
      if has_signature tx
      then rlp.encode_u256 (get_or tx.v 0)
        ++ (rlp.encode_u256 (get_or tx.r 0)
            ++ (rlp.encode_u256 (get_or tx.s 0)
                ++ (rlp.encode_bytes (get_or tx.pqc_signature [])
                    ++ rlp.encode_bytes (get_or tx.pub_key []))))
      else []

  -- What follows the list header.
  pub encode_payload : BlackChainTxType → Bytes
  encode_payload tx =
      rlp.encode_u64 tx.chain_id
      ++ (rlp.encode_u64 tx.nonce
          ++ (rlp.encode_u256 tx.max_priority_fee_per_gas
              ++ (rlp.encode_u256 tx.max_fee_per_gas
                  ++ (rlp.encode_u64 tx.gas_limit
                      ++ (encode_to tx.to
                          ++ (rlp.encode_u256 tx.value
                              ++ (rlp.encode_bytes tx.input ++ encode_signature tx)))))))

  unfoldable pub encode : BlackChainTxType → Bytes
  unfolding encode_payload encode_signature
  encode tx = rlp.encode_header true (rlp_payload_length tx) ++ encode_payload tx

  -- `Encodable::length`
  unfoldable pub encoded_length : BlackChainTxType → ℕ
  encoded_length tx = rlp.length_of_length (rlp_payload_length tx) + rlp_payload_length tx

  abbrev pub lift {ℓ} : {A : Type ℓ} → RlpFailure ⊎ A → Result RlpFailure A
  lift = from_crate (λ e. e)

  -- Empty bytes are no recipient, 20 bytes an address.
  pub decode_to : Bytes → Result RlpFailure (Option Bytes)
  decode_to to_bytes =
      if is_empty to_bytes
      then ok none
      else if length to_bytes == 20
      then ok (some to_bytes)
      else err unexpected_length

  -- `pub_key`, which an older sender leaves out.
  pub decode_pub_key : Bytes → Result RlpFailure (Option Bytes × Bytes)
  decode_pub_key [] = ok (none, [])
  decode_pub_key (b ∷ body) = do
    (pk_bytes, rest) ← lift (rlp.decode_bytes (b ∷ body))
    ok (if is_empty pk_bytes then none else some pk_bytes, rest)

  pub decode_signature : Bytes → Result RlpFailure (SignatureFields × Bytes)
  decode_signature [] = ok (no_signature, [])
  decode_signature (b ∷ body) = do
    (v, after_v) ← lift (rlp.decode_u256 (b ∷ body))
    (r, after_r) ← lift (rlp.decode_u256 after_v)
    (s, after_s) ← lift (rlp.decode_u256 after_r)
    (sig, after_sig) ← lift (rlp.decode_bytes after_s)
    (pk, rest) ← decode_pub_key after_sig
    let fields : SignatureFields = record {
      v = some v;
      r = some r;
      s = some s;
      pqc_signature = some sig;
      pub_key = pk;
    }
    ok (fields, rest)

  -- The fields inside the declared payload, all of which must be used up.
  unfoldable pub decode_payload : Bytes → Result RlpFailure BlackChainTxType
  unfolding decode_to decode_pub_key decode_signature
  decode_payload payload = do
    (chain_id, after_chain_id) ← lift (rlp.decode_u64 payload)
    (nonce, after_nonce) ← lift (rlp.decode_u64 after_chain_id)
    (priority, after_priority) ← lift (rlp.decode_u256 after_nonce)
    (max_fee, after_max_fee) ← lift (rlp.decode_u256 after_priority)
    (gas_limit, after_gas_limit) ← lift (rlp.decode_u64 after_max_fee)
    (to_bytes, after_to) ← lift (rlp.decode_bytes after_gas_limit)
    to ← decode_to to_bytes
    (value, after_value) ← lift (rlp.decode_u256 after_to)
    (input, after_input) ← lift (rlp.decode_bytes after_value)
    (fields, left) ← decode_signature after_input
    refuse_if (not (is_empty left)) (custom_failure "trailing bytes in transaction payload")
    let tx : BlackChainTxType = record {
      chain_id = chain_id;
      nonce = nonce;
      max_priority_fee_per_gas = priority;
      max_fee_per_gas = max_fee;
      gas_limit = gas_limit;
      to = to;
      value = value;
      input = input;
      v = fields.v;
      r = fields.r;
      s = fields.s;
      pqc_signature = fields.pqc_signature;
      pub_key = fields.pub_key;
    }
    ok tx

  unfoldable pub decode : Bytes → Result RlpFailure (BlackChainTxType × Bytes)
  decode buf = do
    (list, payload_length, full) ← lift (rlp.decode_header buf)
    refuse_if (not list) unexpected_string
    refuse_if (ltb (length full) payload_length) input_too_short
    tx ← decode_payload (take payload_length full)
    ok (tx, drop payload_length full)
