-- ===== src/Ed448/Keys.antt =====
-- Keys from seeds, their byte forms, and signing followed by verification (src/mdecc/ed448.rs).
use mathlib.Core.Option.{get_or}
use blackchain_crypto_lib_ru.Base.{
  ◌≤◌, none, some, [], ◌≡◌, ap, Bytes, ok, arith, length, length-append, copy_from_slice_exact,
  copy_from_slice, Option,
}
use blackchain_crypto_lib_ru.Crates.Laws.{HashLaws, GoldilocksLaws, Ed448RustLaws, IsSignature}
use blackchain_crypto_lib_ru.Crates.{Hashes, Ed448Rust, Goldilocks}
use blackchain_crypto_lib_ru.Ed448.Point.Canonical.{decode_canonical_point_iff}
use blackchain_crypto_lib_ru.Ed448.Verify.{IsSignature-verifies}
use blackchain_crypto_lib_ru.Ed448.{
  SigningMode, ed448, ed448_ph, from_opts, context_opt, PublicKey, PrivateKey, from_trusted_inner,
  from_seed, public_from_bytes, private_from_bytes, as_bytes, sign_with, sign_msg, verify_trusted,
  verify_sig,
}
use blackchain_crypto_lib_ru.Error.{CryptoError}
use blackchain_crypto_lib_ru.Sign.{SignatureOpts}

-- RFC 8032 allows contexts of 255 bytes.
abbrev pub ContextFits : Option SignatureOpts → Type 0
ContextFits none = Unit
ContextFits (some o) = length o.context ≤ 255

context_opt_fits :
    (mode : SigningMode) (opts : Option SignatureOpts)
    → ContextFits opts
    → length (get_or (context_opt mode opts) []) ≤ 255
unfolding context_opt
context_opt_fits ed448_ph opts h = omega arith
context_opt_fits ed448 none h = omega arith
context_opt_fits ed448 (some o) h = ground arith

module _ (h : Hashes) (r : Ed448Rust) (g : Goldilocks) where
  -- The pair of keys that one private key of the crate gives.
  abbrev pub derived_public : r.PrivateKey → PublicKey h r g
  derived_public inner = record {
    raw = r.public_bytes (r.public_from inner);
    trusted_inner = some (r.public_from inner);
  }

  abbrev pub derived : r.PrivateKey → PrivateKey h r g
  derived inner = record { inner = inner; public = derived_public inner }

  pub from_seed_lem :
      (seed : Bytes)
      → length seed ≡ 57
      → from_seed h r g seed
        ≡ ok (derived_public (r.private_from seed), derived (r.private_from seed))
  unfolding from_seed from_trusted_inner
  from_seed_lem seed e = rw (e, copy_from_slice_exact 57 seed e)

  pub private_from_bytes_lem :
      (seed : Bytes)
      → length seed ≡ 57
      → private_from_bytes h r g seed
        ≡ ok (derived_public (r.private_from seed), derived (r.private_from seed))
  unfolding private_from_bytes
  private_from_bytes_lem seed e = rw (e, from_seed_lem seed e)

  module _ (laws : GoldilocksLaws g) (hash_laws : HashLaws h)
      (rust : Ed448RustLaws h r g laws) where
    pub as_bytes_lem :
        (seed : Bytes) → length seed ≡ 57 → as_bytes h r g (derived (r.private_from seed)) ≡ ok seed
    unfolding as_bytes
    as_bytes_lem seed e =
        rw (rust.private_bytes-private_from seed e, copy_from_slice_exact 57 seed e)

    -- The bytes of a derived key parse, as a key with no trusted part.
    pub public_from_bytes_derived :
        (inner : r.PrivateKey)
        → public_from_bytes h r g (derived_public inner).raw
          ≡ ok (record { raw = (derived_public inner).raw; trusted_inner = none })
    unfolding public_from_bytes
    public_from_bytes_derived inner =
        let pk = r.public_from inner in
        rw (
          rust.length-public_bytes pk,
          copy_from_slice_exact 57 _ (rust.length-public_bytes pk),
          (decode_canonical_point_iff g _ (rust.bytes-public_bytes pk) _).1
              (rust.public_encodes inner),
        )

    signs_with :
        (mode : SigningMode) (inner : r.PrivateKey) (msg : Bytes) (ctx : Option Bytes)
        → length (get_or ctx []) ≤ 255
        → (sig : Bytes) × (sign_with h r g mode inner msg ctx ≡ ok sig)
          × (verify_trusted h r g (r.public_from inner) msg sig ctx mode ≡ ok tt)
          × IsSignature h r g laws
              (rust.secret inner)
              (r.public_bytes (r.public_from inner))
              mode
              (get_or ctx [])
              msg
              sig
    unfolding sign_with verify_trusted
    signs_with ed448 inner msg ctx short =
        let (sig, signed, verified, s) = rust.signs inner msg ctx short in
        (sig, rw signed, rw verified, s)
    signs_with ed448_ph inner msg ctx short =
        let (sig, signed, verified, s) = rust.signs_ph inner msg ctx short in
        (sig, rw signed, rw verified, s)

    -- What a derived key signs verifies, by itself and by the key that its bytes parse to.
    pub signed_verifies :
        (inner : r.PrivateKey) (msg : Bytes) (opts : Option SignatureOpts)
        → ContextFits opts
        → (sig : Bytes) × (sign_msg h r g (derived inner) msg opts ≡ ok sig)
          × (length sig ≡ 114)
          × (verify_sig h r g (derived_public inner) msg sig opts ≡ ok tt)
          × (verify_sig h r g
                (record { raw = (derived_public inner).raw; trusted_inner = none })
                msg
                sig
                opts
              ≡ ok tt)
    unfolding sign_msg verify_sig
    signed_verifies inner msg opts fits =
        let mode = from_opts opts in
        let ctx = context_opt mode opts in
        let short = context_opt_fits mode opts fits in
        let (sig, signed, trusted, s) = signs_with mode inner msg ctx short in
        let whole : length sig ≡ 114 =
          omega (
            arith,
            ap length s.splits,
            length-append s.r_bytes s.s_bytes,
            s.length_r,
            s.length_s,
          ) in
        let copied : copy_from_slice {E = CryptoError} 114 sig ≡ ok sig =
          copy_from_slice_exact 114 sig whole in
        (
          sig,
          signed,
          whole,
          rw (whole, copied, trusted),
          rw (whole, copied)
              (IsSignature-verifies h r g laws hash_laws (rust.secret inner) _ msg sig ctx mode
                (rust.bytes-public_bytes (r.public_from inner)) (rust.public_encodes inner) short
                s),
        )

    -- For a seed of 57 bytes and a context of at most 255, the four calls succeed in turn: a key pair
    -- from the seed, the public key read back from its bytes, a signature of 114 bytes, and its
    -- verification, both under the key from the seed and under the one read back.
    pub verify_sig-sign_msg :
        (seed msg : Bytes) (opts : Option SignatureOpts)
        → length seed ≡ 57
        → ContextFits opts
        → (pk parsed : PublicKey h r g) × (sk : PrivateKey h r g) × (sig : Bytes) × (from_seed h r g
              seed
            ≡ ok (pk, sk))
          × (public_from_bytes h r g pk.raw ≡ ok parsed)
          × (sign_msg h r g sk msg opts ≡ ok sig)
          × (length sig ≡ 114)
          × (verify_sig h r g pk msg sig opts ≡ ok tt)
          × (verify_sig h r g parsed msg sig opts ≡ ok tt)
    verify_sig-sign_msg seed msg opts e fits =
        let inner = r.private_from seed in
        let (sig, signed, whole, trusted, read) = signed_verifies inner msg opts fits in
        (
          derived_public inner,
          record { raw = (derived_public inner).raw; trusted_inner = none },
          derived inner,
          sig,
          from_seed_lem seed e,
          public_from_bytes_derived inner,
          signed,
          whole,
          trusted,
          read,
        )
