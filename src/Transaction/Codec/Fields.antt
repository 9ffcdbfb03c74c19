-- ===== src/Transaction/Codec/Fields.antt =====
-- The parts of a decoded transaction are canonical encodings (src/transaction/rlp.rs): one step of the
-- decoder, the recipient, the public key and the signature fields.
use mathlib.Core.Path.{subst}
use blackchain_crypto_lib_ru.Base.{
  length, ℕ, ◌≡◌, refl, ap, sym, ◌∙◌, Bool-cases, true, false, not, Option, none, some, inl, inr,
  [], ◌∷◌, ◌++◌, append-nil, if◌then◌else◌, ◌==◌, Bytes, Result, ok, ◌>>=◌, >>=-eq-ok,
  from_crate-eq-ok, ok-injective, ==_iff,
}
use blackchain_crypto_lib_ru.Crates.{Rlp}
use blackchain_crypto_lib_ru.Crates.Laws.{RlpLaws}
use blackchain_crypto_lib_ru.Error.{RlpFailure}
use blackchain_crypto_lib_ru.Transaction.Codec.{
  has_signature, is_empty, lift, SignatureFields, encode_to, encode_signature, decode_to,
  decode_pub_key, decode_signature,
}
use blackchain_crypto_lib_ru.Transaction.Types.{BlackChainTxType}

-- A signed transaction names its public key; an unsigned one need not.
abbrev pub IsComplete : BlackChainTxType → Type 0
IsComplete tx = has_signature tx ≡ true → (key : Bytes) × (tx.pub_key ≡ some key)

abbrev pub signature_of : BlackChainTxType → SignatureFields
signature_of tx = record {
  v = tx.v;
  r = tx.r;
  s = tx.s;
  pqc_signature = tx.pqc_signature;
  pub_key = tx.pub_key;
}

pub empty-eq-nil : (bytes : Bytes) → not (is_empty bytes) ≡ false → bytes ≡ []
empty-eq-nil [] h = refl
empty-eq-nil (x ∷ xs) h = cc

module _ (rlp : Rlp) (laws : RlpLaws rlp) where
  -- A decoding step that succeeds has read the encoding of its value: what holds of every such
  -- encoding and rest holds of the buffer.
  module _ {A : Type 0} (buf : Bytes) where
    pub taken_u64 :
        (f : ℕ × Bytes → Result RlpFailure A) {out : A} (P : Bytes → Type 0)
        → (lift rlp (rlp.decode_u64 buf) >>= f) ≡ ok out
        → ((x : ℕ) (rest : Bytes) → f (x, rest) ≡ ok out → P (rlp.encode_u64 x ++ rest))
        → P buf
    taken_u64 f P h next =
        let (p, read, later) = >>=-eq-ok (lift rlp (rlp.decode_u64 buf)) f h in
        subst P (sym (laws.decode_u64_canonical buf p.0 p.1 (from_crate-eq-ok (λ e. e) _ read)))
          (next p.0 p.1 later)

    pub taken_u256 :
        (f : ℕ × Bytes → Result RlpFailure A) {out : A} (P : Bytes → Type 0)
        → (lift rlp (rlp.decode_u256 buf) >>= f) ≡ ok out
        → ((x : ℕ) (rest : Bytes) → f (x, rest) ≡ ok out → P (rlp.encode_u256 x ++ rest))
        → P buf
    taken_u256 f P h next =
        let (p, read, later) = >>=-eq-ok (lift rlp (rlp.decode_u256 buf)) f h in
        subst P (sym (laws.decode_u256_canonical buf p.0 p.1 (from_crate-eq-ok (λ e. e) _ read)))
          (next p.0 p.1 later)

    pub taken_bytes :
        (f : Bytes × Bytes → Result RlpFailure A) {out : A} (P : Bytes → Type 0)
        → (lift rlp (rlp.decode_bytes buf) >>= f) ≡ ok out
        → ((x : Bytes) (rest : Bytes) → f (x, rest) ≡ ok out → P (rlp.encode_bytes x ++ rest))
        → P buf
    taken_bytes f P h next =
        let (p, read, later) = >>=-eq-ok (lift rlp (rlp.decode_bytes buf)) f h in
        subst P (sym (laws.decode_bytes_canonical buf p.0 p.1 (from_crate-eq-ok (λ e. e) _ read)))
          (next p.0 p.1 later)

  pub to_canonical :
      (bytes : Bytes) (to : Option Bytes)
      → decode_to rlp bytes ≡ ok to
      → rlp.encode_bytes bytes ≡ encode_to rlp to
  unfolding decode_to
  to_canonical [] to h = ap (encode_to rlp) (ok-injective h)
  to_canonical (x ∷ xs) to h = elim (Bool-cases (length (x ∷ xs) == 20)) [
    | inl sized ↦
        sym (laws.encode_address_lem (x ∷ xs) ((==_iff (length (x ∷ xs)) 20).0 sized))
        ∙ ap (encode_to rlp) (ok-injective (rw sized at h))
    | inr other ↦ cc (rw other at h)
  ]

  kept_key :
      (bytes key : Bytes) → (if is_empty bytes then none else some bytes) ≡ some key → bytes ≡ key
  kept_key [] key h = cc
  kept_key (x ∷ xs) key h = cc

  pub_key_canonical :
      (body key : Bytes) → decode_pub_key rlp body ≡ ok (some key, []) → body ≡ rlp.encode_bytes key
  unfolding decode_pub_key
  pub_key_canonical [] key h = cc (ap (λ p. p.0) (ok-injective h))
  pub_key_canonical (b ∷ body) key h =
      taken_bytes (b ∷ body) _ (λ t. t ≡ rlp.encode_bytes key) h
        (λ bytes rest end.
          let same = ok-injective end in
          let key_same = kept_key bytes key (ap (λ p. p.0) same) in
          let rest_nil : rest ≡ [] = ap (λ p. p.1) same in
          ap (λ t. rlp.encode_bytes bytes ++ t) rest_nil
          ∙ append-nil (rlp.encode_bytes bytes)
          ∙ ap rlp.encode_bytes key_same)

  unsigned_encoding :
      (tx : BlackChainTxType) → tx.v ≡ none → tx.pqc_signature ≡ none → encode_signature rlp tx ≡ []
  unfolding encode_signature has_signature
  unsigned_encoding tx no_v no_sig = simp (no_v, no_sig) refl

  signed_encoding :
      (tx : BlackChainTxType) (v r s : ℕ) (sig key : Bytes)
      → some v ≡ tx.v
      → some r ≡ tx.r
      → some s ≡ tx.s
      → some sig ≡ tx.pqc_signature
      → tx.pub_key ≡ some key
      → rlp.encode_u256 v
          ++ (rlp.encode_u256 r
              ++ (rlp.encode_u256 s ++ (rlp.encode_bytes sig ++ rlp.encode_bytes key)))
        ≡ encode_signature rlp tx
  unfolding encode_signature has_signature
  signed_encoding tx v r s sig key v_ok r_ok s_ok sig_ok key_ok =
      simp (← v_ok, ← r_ok, ← s_ok, ← sig_ok, key_ok) refl

  last_canonical :
      (tx : BlackChainTxType) (v r s : ℕ) (sig body : Bytes)
      → IsComplete tx
      → (last : Option Bytes × Bytes) → decode_pub_key rlp body ≡ ok last
      → ◌≡◌ {A = SignatureFields × Bytes}
          (
            record {
              v = some v;
              r = some r;
              s = some s;
              pqc_signature = some sig;
              pub_key = last.0;
            },
            last.1,
          )
          (signature_of tx, [])
      → rlp.encode_u256 v
          ++ (rlp.encode_u256 r ++ (rlp.encode_u256 s ++ (rlp.encode_bytes sig ++ body)))
        ≡ encode_signature rlp tx
  last_canonical tx v r s sig body complete (pk, left) read same =
      let v_ok : some v ≡ tx.v = ap (λ p. p.0.v) same in
      let present : has_signature tx ≡ true = unfold has_signature in rw (← v_ok) refl in
      let (key, has_key) = complete present in
      let pk_ok : pk ≡ some key = ap (λ p. p.0.pub_key) same ∙ has_key in
      let left_nil : left ≡ [] = ap (λ p. p.1) same in
      let read' : decode_pub_key rlp body ≡ ok (some key, []) = read ∙ rw (pk_ok, left_nil) refl in
      ap
        (λ t.
          rlp.encode_u256 v
          ++ (rlp.encode_u256 r ++ (rlp.encode_u256 s ++ (rlp.encode_bytes sig ++ t))))
        (pub_key_canonical body key read')
      ∙ signed_encoding tx v r s sig key v_ok (ap (λ p. p.0.r) same) (ap (λ p. p.0.s) same)
          (ap (λ p. p.0.pqc_signature) same) has_key

  pub signature_canonical :
      (tx : BlackChainTxType) (body : Bytes)
      → IsComplete tx
      → decode_signature rlp body ≡ ok (signature_of tx, [])
      → body ≡ encode_signature rlp tx
  unfolding decode_signature
  signature_canonical tx [] complete h =
      let same = ap (λ p. p.0) (ok-injective h) in
      sym (unsigned_encoding tx (sym (ap (λ f. f.v) same)) (sym (ap (λ f. f.pqc_signature) same)))
  signature_canonical tx (b ∷ body) complete h =
      taken_u256 (b ∷ body) _ (λ t. t ≡ encode_signature rlp tx) h
        (λ v after_v from_v.
          taken_u256 after_v _ (λ t. rlp.encode_u256 v ++ t ≡ encode_signature rlp tx) from_v
            (λ r after_r from_r.
              taken_u256 after_r _
                (λ t. rlp.encode_u256 v ++ (rlp.encode_u256 r ++ t) ≡ encode_signature rlp tx)
                from_r
                (λ s after_s from_s.
                  taken_bytes after_s _
                    (λ t.
                      rlp.encode_u256 v ++ (rlp.encode_u256 r ++ (rlp.encode_u256 s ++ t))
                      ≡ encode_signature rlp tx)
                    from_s
                    (λ sig after_sig from_sig.
                      let (last, key_ok, end) =
                        >>=-eq-ok (decode_pub_key rlp after_sig) _ from_sig in
                      last_canonical tx v r s sig after_sig complete last key_ok
                        (ok-injective end)))))
