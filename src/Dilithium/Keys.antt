-- ===== src/Dilithium/Keys.antt =====
-- Keys from seeds, their byte forms, and signing followed by verification (src/dilithium/mod.rs).
use blackchain_crypto_lib_ru.Base.{◌≢◌, ◌≡◌, Bytes, ok, err, arith, length, copy_from_slice_exact}
use blackchain_crypto_lib_ru.Crates.Laws.{MlDsaLaws}
use blackchain_crypto_lib_ru.Crates.{MlDsa}
use blackchain_crypto_lib_ru.Dilithium.{
  invalid_size, seed_size, public_key_size, signature_size, PublicKey, PrivateKey, seed_from_slice,
  pack, pack_private, public_from_bytes, private_from_bytes, verify_internal, sign_internal,
  from_seed, new_key_from_seed, derive_key_with_seed, seed_bytes,
}

module _ (m : MlDsa) (laws : MlDsaLaws m) where
  -- The private key that a seed expands to.
  abbrev pub expanded : Bytes → PrivateKey m
  expanded seed = record { inner = m.from_seed seed; public = m.verifying_key (m.from_seed seed) }

  pub private_from_bytes_lem :
      (seed : Bytes) → length seed ≡ 32 → private_from_bytes m seed ≡ ok (expanded seed)
  unfolding private_from_bytes seed_from_slice
  private_from_bytes_lem seed e = rw (laws.seed_array_exact seed e)

  pub new_key_from_seed_lem :
      (seed : Bytes)
      → length seed ≡ 32
      → new_key_from_seed m seed ≡ ok ((expanded seed).public, expanded seed)
  unfolding new_key_from_seed from_seed
  new_key_from_seed_lem seed e = rw (private_from_bytes_lem seed e)

  pub pack_lem : (pk : PublicKey m) → pack m pk ≡ ok (m.encode pk)
  unfolding pack
  pack_lem pk = copy_from_slice_exact public_key_size (m.encode pk) (laws.length-encode pk)

  pub pack_private_lem :
      (seed : Bytes) → length seed ≡ 32 → pack_private m (expanded seed) ≡ ok seed
  unfolding pack_private
  pack_private_lem seed e = rw (laws.to_seed-from_seed seed e) (copy_from_slice_exact 32 seed e)

  pub public_from_bytes-encode : (pk : PublicKey m) → public_from_bytes m (m.encode pk) ≡ ok pk
  unfolding public_from_bytes
  public_from_bytes-encode pk = rw (
    laws.length-encode pk,
    laws.key_array_exact (m.encode pk) (laws.length-encode pk),
    laws.decode-encode pk,
  )

  -- A key of the wrong size is refused, and any other is taken.
  pub public_from_bytes_total :
      (input : Bytes) → length input ≡ 2592 → public_from_bytes m input ≡ ok (m.decode input)
  unfolding public_from_bytes
  public_from_bytes_total input e = rw (e, laws.key_array_exact input e)

  pub signed_verifies :
      (seed msg : Bytes)
      → (sig : Bytes) × (sign_internal m (expanded seed) msg ≡ ok sig)
        × (length sig ≡ 4627)
        × (verify_internal m (expanded seed).public msg sig ≡ ok tt)
  unfolding sign_internal verify_internal
  signed_verifies seed msg =
      let (s, signed, verified) = laws.signs (m.from_seed seed) msg in
      (
        m.encode_signature s,
        rw signed,
        laws.length-encode_signature s,
        rw (laws.length-encode_signature s, laws.signature_try_from-encode_signature s, verified),
      )

  -- From a seed of 32 bytes: a key pair, the seed back from the private key, the public key back from
  -- its packed bytes, and a signature of 4627 bytes that verifies.
  pub verify_internal-sign_internal :
      (seed msg : Bytes)
      → length seed ≡ 32
      → (pk : PublicKey m) × (sk : PrivateKey m) × (packed sig : Bytes) × (derive_key_with_seed m
            seed
          ≡ ok (pk, sk))
        × (seed_bytes m sk ≡ ok seed)
        × (pack m pk ≡ ok packed)
        × (public_from_bytes m packed ≡ ok pk)
        × (sign_internal m sk msg ≡ ok sig)
        × (length sig ≡ signature_size)
        × (verify_internal m pk msg sig ≡ ok tt)
  unfolding derive_key_with_seed seed_bytes
  verify_internal-sign_internal seed msg e =
      let (sig, signed, whole, verified) = signed_verifies seed msg in
      (
        (expanded seed).public,
        expanded seed,
        m.encode (expanded seed).public,
        sig,
        rw (e, copy_from_slice_exact 32 seed e, new_key_from_seed_lem seed e),
        rw (laws.to_seed-from_seed seed e) (copy_from_slice_exact 32 seed e),
        pack_lem (expanded seed).public,
        public_from_bytes-encode (expanded seed).public,
        signed,
        whole,
        verified,
      )

  -- A seed of any other length is refused with both lengths, and nothing panics.
  pub derive_key_with_seed_wrong :
      (seed : Bytes)
      → length seed ≢ 32
      → (derive_key_with_seed m seed ≡ err (invalid_size seed_size (length seed) "seed"))
        × (private_from_bytes m seed ≡ err (invalid_size seed_size (length seed) "seed"))
  unfolding derive_key_with_seed private_from_bytes seed_from_slice
  derive_key_with_seed_wrong seed ne = (ground arith, rw (laws.seed_array_other seed ne))
