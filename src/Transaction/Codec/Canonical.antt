-- ===== src/Transaction/Codec/Canonical.antt =====
-- Decoding takes canonical bytes alone (src/transaction/rlp.rs).
use mathlib.Core.Path.{subst}
use blackchain_crypto_lib_ru.Base.{
  refuse_if, ltb, Bool, take, drop, length, length-take, take-append-drop, append_assoc,
  refuse_if-eq-ok, arith, ℕ, ◌≡◌, refl, ap, sym, ◌∙◌, true, false, not, Option, inr, [], ◌++◌,
  Bytes, ok, >>=-eq-ok, from_crate-eq-ok, ok-injective,
}
use blackchain_crypto_lib_ru.Crates.{Rlp}
use blackchain_crypto_lib_ru.Crates.Laws.{RlpLaws}
use blackchain_crypto_lib_ru.Transaction.Codec.{
  encode_payload, decode_payload, decode, encode, rlp_payload_length, is_empty, lift,
  SignatureFields, decode_to, decode_signature,
}
use blackchain_crypto_lib_ru.Transaction.Codec.Lengths.{length-encode_payload}
use blackchain_crypto_lib_ru.Transaction.Types.{BlackChainTxType}
use blackchain_crypto_lib_ru.Transaction.Codec.Fields.{
  IsComplete, signature_of, empty-eq-nil, taken_u64, taken_u256, taken_bytes, to_canonical,
  signature_canonical,
}

module _ (rlp : Rlp) (laws : RlpLaws rlp) where
  -- The fields as the decoder has collected them.
  abbrev collected :
      ℕ → ℕ → ℕ → ℕ → ℕ → Option Bytes → ℕ → Bytes → SignatureFields → BlackChainTxType
  collected chain_id nonce priority max_fee gas_limit to value input fields = record {
    chain_id = chain_id;
    nonce = nonce;
    max_priority_fee_per_gas = priority;
    max_fee_per_gas = max_fee;
    gas_limit = gas_limit;
    to = to;
    value = value;
    input = input;
    v = fields.v;
    r = fields.r;
    s = fields.s;
    pqc_signature = fields.pqc_signature;
    pub_key = fields.pub_key;
  }

  tail_canonical :
      (tx : BlackChainTxType) (to_bytes after_input : Bytes)
      → decode_to rlp to_bytes ≡ ok tx.to
      → IsComplete tx
      → decode_signature rlp after_input ≡ ok (signature_of tx, [])
      → rlp.encode_u64 tx.chain_id
          ++ (rlp.encode_u64 tx.nonce
              ++ (rlp.encode_u256 tx.max_priority_fee_per_gas
                  ++ (rlp.encode_u256 tx.max_fee_per_gas
                      ++ (rlp.encode_u64 tx.gas_limit
                          ++ (rlp.encode_bytes to_bytes
                              ++ (rlp.encode_u256 tx.value
                                  ++ (rlp.encode_bytes tx.input ++ after_input)))))))
        ≡ encode_payload rlp tx
  unfolding encode_payload
  tail_canonical tx to_bytes after_input to_ok complete sig_ok =
      rw
        (
          to_canonical rlp laws to_bytes tx.to to_ok,
          signature_canonical rlp laws tx after_input complete sig_ok,
        )
        refl

  collected_canonical :
      (chain_id nonce priority max_fee gas_limit : ℕ) (to_bytes : Bytes) (to : Option Bytes)
      (value : ℕ) (input after_input : Bytes) (last : SignatureFields × Bytes)
      (tx : BlackChainTxType)
      → decode_to rlp to_bytes ≡ ok to
      → decode_signature rlp after_input ≡ ok last
      → not (is_empty last.1) ≡ false
      → collected chain_id nonce priority max_fee gas_limit to value input last.0 ≡ tx
      → IsComplete tx
      → rlp.encode_u64 chain_id
          ++ (rlp.encode_u64 nonce
              ++ (rlp.encode_u256 priority
                  ++ (rlp.encode_u256 max_fee
                      ++ (rlp.encode_u64 gas_limit
                          ++ (rlp.encode_bytes to_bytes
                              ++ (rlp.encode_u256 value
                                  ++ (rlp.encode_bytes input ++ after_input)))))))
        ≡ encode_payload rlp tx
  collected_canonical chain_id nonce priority max_fee gas_limit to_bytes to value input after_input
        last tx to_ok sig_ok used same complete =
      let built = collected chain_id nonce priority max_fee gas_limit to value input last.0 in
      let whole : decode_signature rlp after_input ≡ ok (last.0, []) =
        subst (λ q. decode_signature rlp after_input ≡ ok (last.0, q)) (empty-eq-nil last.1 used)
          sig_ok in
      subst
        (λ t.
          IsComplete t
          → rlp.encode_u64 chain_id
              ++ (rlp.encode_u64 nonce
                  ++ (rlp.encode_u256 priority
                      ++ (rlp.encode_u256 max_fee
                          ++ (rlp.encode_u64 gas_limit
                              ++ (rlp.encode_bytes to_bytes
                                  ++ (rlp.encode_u256 value
                                      ++ (rlp.encode_bytes input ++ after_input)))))))
            ≡ encode_payload rlp t)
        same (λ k. tail_canonical built to_bytes after_input to_ok k whole) complete

  payload_canonical :
      (tx : BlackChainTxType) (payload : Bytes)
      → IsComplete tx
      → decode_payload rlp payload ≡ ok tx
      → payload ≡ encode_payload rlp tx
  unfolding decode_payload
  payload_canonical tx payload complete h =
      let p0 : Bytes → Type 0 = λ t. t ≡ encode_payload rlp tx in
      taken_u64 rlp laws payload _ p0 h (λ chain_id b1 h1.
        let p1 : Bytes → Type 0 = λ t. p0 (rlp.encode_u64 chain_id ++ t) in
        taken_u64 rlp laws b1 _ p1 h1 (λ nonce b2 h2.
          let p2 : Bytes → Type 0 = λ t. p1 (rlp.encode_u64 nonce ++ t) in
          taken_u256 rlp laws b2 _ p2 h2 (λ priority b3 h3.
            let p3 : Bytes → Type 0 = λ t. p2 (rlp.encode_u256 priority ++ t) in
            taken_u256 rlp laws b3 _ p3 h3 (λ max_fee b4 h4.
              let p4 : Bytes → Type 0 = λ t. p3 (rlp.encode_u256 max_fee ++ t) in
              taken_u64 rlp laws b4 _ p4 h4 (λ gas_limit b5 h5.
                let p5 : Bytes → Type 0 = λ t. p4 (rlp.encode_u64 gas_limit ++ t) in
                taken_bytes rlp laws b5 _ p5 h5 (λ to_bytes b6 h6.
                  let p6 : Bytes → Type 0 = λ t. p5 (rlp.encode_bytes to_bytes ++ t) in
                  let (to, to_ok, h7) = >>=-eq-ok (decode_to rlp to_bytes) _ h6 in
                  taken_u256 rlp laws b6 _ p6 h7 (λ value b7 h8.
                    let p7 : Bytes → Type 0 = λ t. p6 (rlp.encode_u256 value ++ t) in
                    taken_bytes rlp laws b7 _ p7 h8 (λ input b8 h9.
                      let (last, last_ok, h10) = >>=-eq-ok (decode_signature rlp b8) _ h9 in
                      let (u, used, end) = >>=-eq-ok (refuse_if (not (is_empty last.1)) _) _ h10 in
                      collected_canonical chain_id nonce priority max_fee gas_limit to_bytes to
                        value input b8 last tx to_ok last_ok (refuse_if-eq-ok _ _ used)
                        (ok-injective end) complete))))))))

  buffer_canonical :
      (n : ℕ) (full : Bytes) (tx : BlackChainTxType)
      → IsComplete tx
      → ltb (length full) n ≡ false
      → decode_payload rlp (take n full) ≡ ok tx
      → rlp.encode_header true n ++ full ≡ encode rlp tx ++ drop n full
  unfolding encode
  buffer_canonical n full tx complete fits payload_ok =
      let read = payload_canonical tx (take n full) complete payload_ok in
      let size : n ≡ rlp_payload_length rlp tx =
        sym (length-take n full (ground arith))
        ∙ ap length read
        ∙ length-encode_payload rlp laws tx in
      ap (λ t. rlp.encode_header true n ++ t)
        (sym (take-append-drop n full) ∙ ap (λ t. t ++ drop n full) read)
      ∙ ap (λ k. rlp.encode_header true k ++ (encode_payload rlp tx ++ drop n full)) size
      ∙ sym (
          append_assoc (rlp.encode_header true (rlp_payload_length rlp tx)) (encode_payload rlp tx)
            (drop n full))

  header_canonical :
      (buf : Bytes) (head : Bool × ℕ × Bytes) (tx : BlackChainTxType) (rest : Bytes)
      → IsComplete tx
      → rlp.decode_header buf ≡ inr head
      → not head.0 ≡ false
      → ltb (length head.2) head.1 ≡ false
      → decode_payload rlp (take head.1 head.2) ≡ ok tx
      → drop head.1 head.2 ≡ rest
      → buf ≡ encode rlp tx ++ rest
  header_canonical buf (false, n, full) tx rest complete read list fits payload_ok left = cc list
  header_canonical buf (true, n, full) tx rest complete read list fits payload_ok left =
      laws.decode_header_canonical buf n full read
      ∙ buffer_canonical n full tx complete fits payload_ok
      ∙ ap (λ t. encode rlp tx ++ t) left

  -- A buffer that decodes to a transaction, which has its public key if it is signed, is the encoding
  -- of that transaction followed by the bytes that are returned: no other bytes decode to it.
  pub decode_canonical :
      (buf : Bytes) (tx : BlackChainTxType) (rest : Bytes)
      → IsComplete tx
      → decode rlp buf ≡ ok (tx, rest)
      → buf ≡ encode rlp tx ++ rest
  unfolding decode
  decode_canonical buf tx rest complete h =
      let (head, read, h1) = >>=-eq-ok (lift rlp (rlp.decode_header buf)) _ h in
      let (u, list, h2) = >>=-eq-ok (refuse_if (not head.0) _) _ h1 in
      let (w, fits, h3) = >>=-eq-ok (refuse_if (ltb (length head.2) head.1) _) _ h2 in
      let (tx', payload_ok, end) = >>=-eq-ok (decode_payload rlp (take head.1 head.2)) _ h3 in
      let same = ok-injective end in
      header_canonical buf head tx rest complete (from_crate-eq-ok (λ e. e) _ read)
        (refuse_if-eq-ok _ _ list) (refuse_if-eq-ok _ _ fits) (payload_ok ∙ ap (λ p. ok p.0) same)
        (ap (λ p. p.1) same)
