-- ===== src/Transaction/Codec/Ranges.antt =====
-- What the decoder returns is in the ranges of the Rust types (src/transaction/rlp.rs).
use mathlib.Core.Path.{subst}
use blackchain_crypto_lib_ru.Base.{
  ◌≡◌, Bool-cases, not, Option, inl, inr, [], ◌∷◌, ◌==◌, ==_iff, Bytes, length, ok, take, ltb,
  refuse_if, >>=-eq-ok, from_crate-eq-ok, ok-injective,
}
use blackchain_crypto_lib_ru.Crates.{Rlp}
use blackchain_crypto_lib_ru.Crates.Laws.{RlpLaws}
use blackchain_crypto_lib_ru.Transaction.Codec.{
  decode, decode_payload, decode_to, decode_signature, decode_pub_key, lift, is_empty,
  SignatureFields,
}
use blackchain_crypto_lib_ru.Transaction.Types.{
  BlackChainTxType, IsValid, IsOptionalU256, IsOptionalAddress,
}

abbrev InRange : SignatureFields → Type 0
InRange f = IsOptionalU256 f.v × (IsOptionalU256 f.r × IsOptionalU256 f.s)

module _ (rlp : Rlp) (laws : RlpLaws rlp) where
  to_ranges :
      (bytes : Bytes) (to : Option Bytes) → decode_to rlp bytes ≡ ok to → IsOptionalAddress to
  unfolding decode_to
  to_ranges [] to h = subst IsOptionalAddress (ok-injective h) tt
  to_ranges (x ∷ xs) to h = elim (Bool-cases (length (x ∷ xs) == 20)) [
    | inl sized ↦
        subst IsOptionalAddress (ok-injective (rw sized at h))
          ((==_iff (length (x ∷ xs)) 20).0 sized)
    | inr other ↦ cc (rw other at h)
  ]

  signature_ranges :
      (bytes : Bytes) (last : SignatureFields × Bytes)
      → decode_signature rlp bytes ≡ ok last
      → InRange last.0
  unfolding decode_signature
  signature_ranges [] last h = subst (λ l. InRange l.0) (ok-injective h) (tt, (tt, tt))
  signature_ranges (x ∷ xs) last h =
      let (v, read_v, h1) = >>=-eq-ok (lift rlp (rlp.decode_u256 (x ∷ xs))) _ h in
      let (r, read_r, h2) = >>=-eq-ok (lift rlp (rlp.decode_u256 v.1)) _ h1 in
      let (s, read_s, h3) = >>=-eq-ok (lift rlp (rlp.decode_u256 r.1)) _ h2 in
      let (sig, read_sig, h4) = >>=-eq-ok (lift rlp (rlp.decode_bytes s.1)) _ h3 in
      let (pk, read_pk, end) = >>=-eq-ok (decode_pub_key rlp sig.1) _ h4 in
      subst (λ l. InRange l.0) (ok-injective end)
        (
          laws.decode_u256_range _ v.0 v.1 (from_crate-eq-ok (λ e. e) _ read_v),
          (
            laws.decode_u256_range _ r.0 r.1 (from_crate-eq-ok (λ e. e) _ read_r),
            laws.decode_u256_range _ s.0 s.1 (from_crate-eq-ok (λ e. e) _ read_s),
          ),
        )

  payload_ranges :
      (payload : Bytes) (tx : BlackChainTxType) → decode_payload rlp payload ≡ ok tx → IsValid tx
  unfolding decode_payload
  payload_ranges payload tx h =
      let (c, read_c, h1) = >>=-eq-ok (lift rlp (rlp.decode_u64 payload)) _ h in
      let (n, read_n, h2) = >>=-eq-ok (lift rlp (rlp.decode_u64 c.1)) _ h1 in
      let (p, read_p, h3) = >>=-eq-ok (lift rlp (rlp.decode_u256 n.1)) _ h2 in
      let (m, read_m, h4) = >>=-eq-ok (lift rlp (rlp.decode_u256 p.1)) _ h3 in
      let (g, read_g, h5) = >>=-eq-ok (lift rlp (rlp.decode_u64 m.1)) _ h4 in
      let (t, read_t, h6) = >>=-eq-ok (lift rlp (rlp.decode_bytes g.1)) _ h5 in
      let (to, to_ok, h7) = >>=-eq-ok (decode_to rlp t.0) _ h6 in
      let (v, read_v, h8) = >>=-eq-ok (lift rlp (rlp.decode_u256 t.1)) _ h7 in
      let (i, read_i, h9) = >>=-eq-ok (lift rlp (rlp.decode_bytes v.1)) _ h8 in
      let (last, last_ok, h10) = >>=-eq-ok (decode_signature rlp i.1) _ h9 in
      let (u, used, end) = >>=-eq-ok (refuse_if (not (is_empty last.1)) _) _ h10 in
      let (in_v, (in_r, in_s)) = signature_ranges i.1 last last_ok in
      subst IsValid (ok-injective end) (record {
        chain_id_u64 = laws.decode_u64_range _ c.0 c.1 (from_crate-eq-ok (λ e. e) _ read_c);
        nonce_u64 = laws.decode_u64_range _ n.0 n.1 (from_crate-eq-ok (λ e. e) _ read_n);
        priority_u256 = laws.decode_u256_range _ p.0 p.1 (from_crate-eq-ok (λ e. e) _ read_p);
        max_fee_u256 = laws.decode_u256_range _ m.0 m.1 (from_crate-eq-ok (λ e. e) _ read_m);
        gas_limit_u64 = laws.decode_u64_range _ g.0 g.1 (from_crate-eq-ok (λ e. e) _ read_g);
        to_address = to_ranges t.0 to to_ok;
        value_u256 = laws.decode_u256_range _ v.0 v.1 (from_crate-eq-ok (λ e. e) _ read_v);
        v_u256 = in_v;
        r_u256 = in_r;
        s_u256 = in_s;
      })

  -- A transaction that the decoder returns has every field in the range of its Rust type: integers of
  -- 64 and 256 bits, and a recipient of 20 bytes if there is one.
  pub decode-IsValid :
      (buf : Bytes) (tx : BlackChainTxType) (rest : Bytes)
      → decode rlp buf ≡ ok (tx, rest)
      → IsValid tx
  unfolding decode
  decode-IsValid buf tx rest h =
      let (head, read, h1) = >>=-eq-ok (lift rlp (rlp.decode_header buf)) _ h in
      let (u, list, h2) = >>=-eq-ok (refuse_if (not head.0) _) _ h1 in
      let (w, fits, h3) = >>=-eq-ok (refuse_if (ltb (length head.2) head.1) _) _ h2 in
      let (tx', payload_ok, end) = >>=-eq-ok (decode_payload rlp (take head.1 head.2)) _ h3 in
      subst (λ p. IsValid p.0) (ok-injective end)
        (payload_ranges (take head.1 head.2) tx' payload_ok)
