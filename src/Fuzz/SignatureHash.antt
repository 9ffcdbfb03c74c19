-- ===== src/Fuzz/SignatureHash.antt =====
-- fuzz/fuzz_targets/fuzz_signature_hash.rs. The limit on the length of `data` is left out.
use native.Mathlib.Nat.{mod-lt}
use blackchain_crypto_lib_ru.Base.{
  ℕ, ◌+◌, ◌*◌, ◌^◌, ◌%◌, ◌<◌, ◌≡◌, ◌≢◌, refl, ap, inl, inr, Bool, Bool-cases, true, false, not,
  ◌&&◌, Option, none, some, ◌∷◌, ◌==◌, Bytes, length, plain, ok, ◌>>◌, assert_that, ignored,
  bytes_eq, bytes_eq_iff, bit_or, replicate, if◌then◌else◌, arith,
}
use blackchain_crypto_lib_ru.Base.Bits.{bit_or_u256}
use blackchain_crypto_lib_ru.Base.Returns.{ignored-Returns}
use blackchain_crypto_lib_ru.Crates.{Crates}
use blackchain_crypto_lib_ru.Crates.Laws.{CrateLaws}
use blackchain_crypto_lib_ru.Error.{CryptoError, Fallible}
use blackchain_crypto_lib_ru.Transaction.Codec.{encode}
use blackchain_crypto_lib_ru.Transaction.Returns.{recover_sender-Returns}
use blackchain_crypto_lib_ru.Transaction.Signing.{signature_hash, unsigned, recover_sender}
use blackchain_crypto_lib_ru.Transaction.Signing.Commitment.{NoCollision, signature_hash_iff}
use blackchain_crypto_lib_ru.Transaction.Types.{
  BlackChainTxType, IsValid, IsOptionalAddress, tx_type,
}

pub record FuzzInput : Type 0 where
  pub chain_id : ℕ
  pub nonce : ℕ
  pub gas_limit : ℕ
  pub max_priority_fee_lo : ℕ
  pub max_priority_fee_hi : ℕ
  pub max_fee_lo : ℕ
  pub max_fee_hi : ℕ
  pub value_lo : ℕ
  pub value_hi : ℕ
  pub has_to : Bool
  pub to_bytes : Bytes
  pub call_data : Bytes
  pub has_sig : Bool
  pub v_val : ℕ
  pub pqc_sig_len : ℕ
  pub pub_key_len : ℕ

-- What the Rust types of the fields say, as far as it is used.
pub record IsInput (input : FuzzInput) : Type 0 where
  pub chain_id_u64 : input.chain_id < 2 ^ 64
  pub nonce_u64 : input.nonce < 2 ^ 64
  pub gas_limit_u64 : input.gas_limit < 2 ^ 64
  pub max_priority_fee_lo_u64 : input.max_priority_fee_lo < 2 ^ 64
  pub max_fee_lo_u64 : input.max_fee_lo < 2 ^ 64
  pub value_lo_u128 : input.value_lo < 2 ^ 128
  pub to_array : length input.to_bytes ≡ 20

-- `U256::from(hi) << bits | U256::from(lo)`
abbrev join : ℕ → ℕ → ℕ → ℕ
join bits hi lo = bit_or (hi * 2 ^ bits % 2 ^ 256) lo

-- `if signed { Some(..) } else { None }`
abbrev when {ℓ} : {A : Type ℓ} → Bool → A → Option A
when b a = if b then some a else none

unfoldable pub build_tx : FuzzInput → Bool → BlackChainTxType
build_tx input include_sig =
    let signed = include_sig && input.has_sig in
    record {
      chain_id = input.chain_id;
      nonce = input.nonce;
      gas_limit = input.gas_limit;
      max_priority_fee_per_gas = join 64 input.max_priority_fee_hi input.max_priority_fee_lo;
      max_fee_per_gas = join 64 input.max_fee_hi input.max_fee_lo;
      to = when input.has_to input.to_bytes;
      value = join 128 input.value_hi input.value_lo;
      input = input.call_data;
      v = when signed input.v_val;
      r = when signed 0;
      s = when signed 0;
      pqc_signature = when signed (replicate input.pqc_sig_len 0xab);
      pub_key = when signed (replicate input.pub_key_len 0xcd);
    }

-- The transaction on the next chain, with the wrap-around of 64 bits.
unfoldable pub next_chain : BlackChainTxType → BlackChainTxType
next_chain tx = record tx { chain_id = (tx.chain_id + 1) % 2 ^ 64 }

module _ (c : Crates) where
  unfoldable pub fuzz_signature_hash : FuzzInput → Fallible (Unit {0})
  fuzz_signature_hash input = do
    let tx = build_tx input false
    let h1 = signature_hash c tx
    assert_that (length h1 == 32) (plain "signature_hash must return exactly 32 bytes")
    let h2 = signature_hash c tx
    assert_that (bytes_eq h1 h2) (plain "signature_hash must be deterministic")
    let h_with_sig = signature_hash c (build_tx input true)
    assert_that (bytes_eq h1 h_with_sig)
        (plain "v/r/s/pqc_signature/pub_key must not affect signature_hash")
    let h_diff = signature_hash c (next_chain tx)
    assert_that (not (bytes_eq h1 h_diff))
        (plain "different chain_id must produce different signature_hash")
    ignored (recover_sender c tx)

join_below : (bits hi lo : ℕ) → lo < 2 ^ 256 → join bits hi lo < 2 ^ 256
join_below bits hi lo h = bit_or_u256 _ lo (mod-lt (hi * 2 ^ bits) (omega arith)) h

to_address : (b : Bool) (bytes : Bytes) → length bytes ≡ 20 → IsOptionalAddress (when b bytes)
to_address true bytes h = h
to_address false bytes h = tt

build_tx-IsValid : (input : FuzzInput) → IsInput input → IsValid (build_tx input false)
unfolding build_tx
build_tx-IsValid input h = record {
  chain_id_u64 = h.chain_id_u64;
  nonce_u64 = h.nonce_u64;
  priority_u256 =
      join_below 64 input.max_priority_fee_hi _ (omega (arith, h.max_priority_fee_lo_u64));
  max_fee_u256 = join_below 64 input.max_fee_hi _ (omega (arith, h.max_fee_lo_u64));
  gas_limit_u64 = h.gas_limit_u64;
  to_address = to_address input.has_to input.to_bytes h.to_array;
  value_u256 = join_below 128 input.value_hi _ (omega (arith, h.value_lo_u128));
  v_u256 = tt;
  r_u256 = tt;
  s_u256 = tt;
}

pub next_chain-IsValid : (tx : BlackChainTxType) → IsValid tx → IsValid (next_chain tx)
unfolding next_chain
next_chain-IsValid tx h = record {
  chain_id_u64 = mod-lt (tx.chain_id + 1) (omega arith);
  nonce_u64 = h.nonce_u64;
  priority_u256 = h.priority_u256;
  max_fee_u256 = h.max_fee_u256;
  gas_limit_u64 = h.gas_limit_u64;
  to_address = h.to_address;
  value_u256 = h.value_u256;
  v_u256 = h.v_u256;
  r_u256 = h.r_u256;
  s_u256 = h.s_u256;
}

next_chain-differs :
    (tx : BlackChainTxType) → tx.chain_id < 2 ^ 64 → unsigned tx ≢ unsigned (next_chain tx)
unfolding unsigned next_chain
next_chain-differs tx small same = absurd (omega (arith, ap (λ t. t.chain_id) same))

bytes_eq-distinct : (a b : Bytes) → a ≢ b → bytes_eq a b ≡ false
bytes_eq-distinct a b ne = elim (Bool-cases (bytes_eq a b)) [
  | inl same ↦ absurd (ne ((bytes_eq_iff a b).0 same))
  | inr other ↦ other
]

module _ (c : Crates) (laws : CrateLaws c) where
  with_signature :
      (input : FuzzInput)
      → signature_hash c (build_tx input true) ≡ signature_hash c (build_tx input false)
  unfolding signature_hash unsigned build_tx
  with_signature input = refl

  hash_sized : (tx : BlackChainTxType) → length (signature_hash c tx) ≡ 32
  unfolding signature_hash
  hash_sized tx = laws.hash_laws.length-keccak256 (tx_type ∷ encode c.rlp (unsigned tx))

  -- The hash target succeeds on every input with fields in the ranges of their Rust types on which
  -- Keccak-256 does not collide for the two chain ids:
  -- the hash has 32 bytes, the signature fields do not change it, and another chain id does.
  pub fuzz_signature_hash_total :
      (input : FuzzInput)
      → IsInput input
      → NoCollision c (build_tx input false) (next_chain (build_tx input false))
      → fuzz_signature_hash c input ≡ ok tt
  unfolding fuzz_signature_hash
  fuzz_signature_hash_total input h differ =
      let tx = build_tx input false in
      let valid = build_tx-IsValid input h in
      let hash = signature_hash c tx in
      let differs : hash ≢ signature_hash c (next_chain tx) = λ same.
        next_chain-differs tx valid.chain_id_u64 (
          (signature_hash_iff c laws tx (next_chain tx) valid (next_chain-IsValid tx valid)
              differ).0
            same) in
      rw
        (
          hash_sized tx,
          with_signature input,
          (bytes_eq_iff hash hash).1 refl,
          bytes_eq-distinct hash (signature_hash c (next_chain tx)) differs,
          ignored-Returns {F = CryptoError} (recover_sender c tx)
              (recover_sender-Returns c laws tx),
        )
        refl
