-- ===== src/Transaction/Codec/RoundTrip.antt =====
-- Encoding followed by decoding (src/transaction/rlp.rs).
use mathlib.Core.Option.{get_or}
use mathlib.Core.Path.{subst}
use blackchain_crypto_lib_ru.Base.{
  ℕ, ◌<◌, ◌≤◌, ◌≡◌, refl, ap, true, Option, none, some, inl, inr, [], ◌∷◌, ◌++◌, append-nil,
  Bool-cases, if◌then◌else◌, Bytes, length, ok, arith, length-append, take-append, drop-append,
  append_assoc, le→not_ltb,
}
use blackchain_crypto_lib_ru.Crates.{Rlp}
use blackchain_crypto_lib_ru.Crates.Laws.{RlpLaws}
use blackchain_crypto_lib_ru.Transaction.Codec.{
  has_signature, SignatureFields, no_signature, encode, encode_to, encode_payload, encode_signature,
  rlp_payload_length, encoded_length, decode, decode_payload, decode_to, decode_pub_key,
  decode_signature, is_empty,
}
use blackchain_crypto_lib_ru.Transaction.Codec.Lengths.{length-encode_payload}
use blackchain_crypto_lib_ru.Transaction.Types.{
  BlackChainTxType, IsValid, IsU256, IsOptionalU256, IsOptionalAddress,
}

abbrev nonempty : Bytes → Option Bytes
nonempty bytes = if is_empty bytes then none else some bytes

-- The signature fields that come back: all of them, zero and empty where absent, or none.
abbrev pub kept_fields : BlackChainTxType → SignatureFields
kept_fields tx =
    if has_signature tx
    then record {
      v = some (get_or tx.v 0);
      r = some (get_or tx.r 0);
      s = some (get_or tx.s 0);
      pqc_signature = some (get_or tx.pqc_signature []);
      pub_key = nonempty (get_or tx.pub_key []);
    }
    else no_signature

abbrev pub with_fields : BlackChainTxType → SignatureFields → BlackChainTxType
with_fields tx f = record tx {
  v = f.v;
  r = f.r;
  s = f.s;
  pqc_signature = f.pqc_signature;
  pub_key = f.pub_key;
}

get_or-IsU256 : (o : Option ℕ) → IsOptionalU256 o → IsU256 (get_or o 0)
get_or-IsU256 none h = omega arith
get_or-IsU256 (some x) h = h

module _ (rlp : Rlp) (laws : RlpLaws rlp) where
  decode_to_address : (a : Bytes) → length a ≡ 20 → decode_to rlp a ≡ ok (some a)
  unfolding decode_to
  decode_to_address [] h = absurd (omega arith)
  decode_to_address (x ∷ xs) h = rw h refl

  decode_to-encode_to :
      (to : Option Bytes) (rest : Bytes)
      → IsOptionalAddress to
      → (bytes : Bytes) × (rlp.decode_bytes (encode_to rlp to ++ rest) ≡ inr (bytes, rest))
        × (decode_to rlp bytes ≡ ok to)
  unfolding decode_to
  decode_to-encode_to none rest h = ([], laws.decode_bytes-encode_bytes [] rest, refl)
  decode_to-encode_to (some a) rest h = (
    a,
    rw (laws.encode_address_lem a h) (laws.decode_bytes-encode_bytes a rest),
    decode_to_address a h,
  )

  decode_pub_key-some :
      (body pk rest : Bytes)
      → 0 < length body
      → rlp.decode_bytes body ≡ inr (pk, rest)
      → decode_pub_key rlp body ≡ ok (nonempty pk, rest)
  unfolding decode_pub_key
  decode_pub_key-some [] pk rest h e = absurd (omega arith)
  decode_pub_key-some (b ∷ body) pk rest h e = rw e refl

  decode_pub_key-encode :
      (key : Bytes) → decode_pub_key rlp (rlp.encode_bytes key) ≡ ok (nonempty key, [])
  decode_pub_key-encode key =
      decode_pub_key-some (rlp.encode_bytes key) key []
        (omega (arith, laws.length-encode_bytes key, laws.encode_bytes_pos key))
        (subst (λ b. rlp.decode_bytes b ≡ inr (key, [])) (append-nil (rlp.encode_bytes key))
          (laws.decode_bytes-encode_bytes key []))

  decode_signature-some :
      (v r s : ℕ) (sig key : Bytes)
      → IsU256 v
      → IsU256 r
      → IsU256 s
      → (body : Bytes)
      → body
        ≡ rlp.encode_u256 v
          ++ (rlp.encode_u256 r
              ++ (rlp.encode_u256 s ++ (rlp.encode_bytes sig ++ rlp.encode_bytes key)))
      → decode_signature rlp body
        ≡ ok (
          record {
            v = some v;
            r = some r;
            s = some s;
            pqc_signature = some sig;
            pub_key = nonempty key;
          },
          [],
        )
  unfolding decode_signature
  decode_signature-some v r s sig key hv hr hs [] e = absurd (
      omega (
        arith,
        ap length e,
        length-append (rlp.encode_u256 v) (
            rlp.encode_u256 r
            ++ (rlp.encode_u256 s ++ (rlp.encode_bytes sig ++ rlp.encode_bytes key))),
        laws.length-encode_u256 v,
        laws.encode_u256_pos v,
      ))
  decode_signature-some v r s sig key hv hr hs (b ∷ body) e =
      rw
        (
          e,
          laws.decode_u256-encode_u256 v
              (rlp.encode_u256 r
                ++ (rlp.encode_u256 s ++ (rlp.encode_bytes sig ++ rlp.encode_bytes key)))
              hv,
          laws.decode_u256-encode_u256 r
              (rlp.encode_u256 s ++ (rlp.encode_bytes sig ++ rlp.encode_bytes key)) hr,
          laws.decode_u256-encode_u256 s (rlp.encode_bytes sig ++ rlp.encode_bytes key) hs,
          laws.decode_bytes-encode_bytes sig (rlp.encode_bytes key),
          decode_pub_key-encode key,
        )
        refl

  decode_signature-encode :
      (tx : BlackChainTxType)
      → IsValid tx
      → decode_signature rlp (encode_signature rlp tx) ≡ ok (kept_fields tx, [])
  unfolding encode_signature
  decode_signature-encode tx valid = elim (Bool-cases (has_signature tx)) [
    | inl present ↦ rw present (
        decode_signature-some (get_or tx.v 0) (get_or tx.r 0) (get_or tx.s 0)
          (get_or tx.pqc_signature []) (get_or tx.pub_key []) (get_or-IsU256 tx.v valid.v_u256)
          (get_or-IsU256 tx.r valid.r_u256) (get_or-IsU256 tx.s valid.s_u256) _ refl)
    | inr absent ↦ unfold decode_signature in rw absent refl
  ]

  decode_payload-encode_payload :
      (tx : BlackChainTxType)
      → IsValid tx
      → decode_payload rlp (encode_payload rlp tx) ≡ ok (with_fields tx (kept_fields tx))
  unfolding decode_payload encode_payload
  decode_payload-encode_payload tx valid =
      let e_signature = encode_signature rlp tx in
      let e_input = rlp.encode_bytes tx.input ++ e_signature in
      let e_value = rlp.encode_u256 tx.value ++ e_input in
      let e_to = encode_to rlp tx.to ++ e_value in
      let e_gas = rlp.encode_u64 tx.gas_limit ++ e_to in
      let e_fee = rlp.encode_u256 tx.max_fee_per_gas ++ e_gas in
      let e_priority = rlp.encode_u256 tx.max_priority_fee_per_gas ++ e_fee in
      let (to_bytes, to_read, to_ok) = decode_to-encode_to tx.to e_value valid.to_address in
      rw
        (
          laws.decode_u64-encode_u64 tx.chain_id (rlp.encode_u64 tx.nonce ++ e_priority)
              valid.chain_id_u64,
          laws.decode_u64-encode_u64 tx.nonce e_priority valid.nonce_u64,
          laws.decode_u256-encode_u256 tx.max_priority_fee_per_gas e_fee valid.priority_u256,
          laws.decode_u256-encode_u256 tx.max_fee_per_gas e_gas valid.max_fee_u256,
          laws.decode_u64-encode_u64 tx.gas_limit e_to valid.gas_limit_u64,
          to_read,
          to_ok,
          laws.decode_u256-encode_u256 tx.value e_input valid.value_u256,
          laws.decode_bytes-encode_bytes tx.input e_signature,
          decode_signature-encode tx valid,
        )
        refl

  -- Decoding the encoding of a transaction whose fields are in the ranges of their types, with any
  -- bytes behind it, gives the transaction and those bytes. Its signature fields come back with zero
  -- and empty bytes for the absent ones and no public key for an empty one, or are all absent where
  -- there is no v and no signature. The encoding has the length that is announced for it.
  pub decode-encode :
      (tx : BlackChainTxType) (rest : Bytes)
      → IsValid tx
      → (decode rlp (encode rlp tx ++ rest) ≡ ok (with_fields tx (kept_fields tx), rest))
        × (length (encode rlp tx) ≡ encoded_length rlp tx)
  unfolding decode encode encoded_length
  decode-encode tx rest valid =
      let n = rlp_payload_length rlp tx in
      let payload = encode_payload rlp tx in
      let whole = length-encode_payload rlp laws tx in
      let fits : n ≤ length (payload ++ rest) = omega (arith, length-append payload rest) in
      (
        rw (
          append_assoc,
          laws.decode_header-encode_header n (payload ++ rest) fits,
          le→not_ltb (length (payload ++ rest)) n fits,
          take-append n payload rest whole,
          drop-append n payload rest whole,
          decode_payload-encode_payload tx valid,
        ),
        omega
            (arith, length-append (rlp.encode_header true n) payload, laws.length-encode_header n),
      )
