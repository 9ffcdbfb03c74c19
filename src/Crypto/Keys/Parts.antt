-- ===== src/Crypto/Keys/Parts.antt =====
-- The parts of a composite key pair, and what `generate` makes of a seed that is long enough
-- (src/crypto.rs).
use blackchain_crypto_lib_ru.Base.{
  ap, sym, ◌∙◌, refl, ok-injective, ◌<◌, ℕ, ◌≤◌, ◌≡◌, le→not_ltb, [], ◌∷◌, ◌++◌, Bytes, ok, err,
  panic, ◌>>=◌, arith, length, take, drop, length-take, slice, slice_inside, copy_from_slice_exact,
}
use blackchain_crypto_lib_ru.Crates.Laws.{CrateLaws, HashLaws}
use blackchain_crypto_lib_ru.Crates.{Crates, Hashes}
use blackchain_crypto_lib_ru.Crypto.PrivateKey.{BlackChainPrivateKey, generate, derive_public_key}
use blackchain_crypto_lib_ru.Crypto.PublicKey.{BlackChainPublicKey}
use blackchain_crypto_lib_ru.Dilithium.Keys.{
  expanded, new_key_from_seed_lem, pack_lem, pack_private_lem,
}
use blackchain_crypto_lib_ru.Ed448.Keys.{derived_public, from_seed_lem, as_bytes_lem}
use blackchain_crypto_lib_ru.Error.{CryptoError, Fallible}
use blackchain_crypto_lib_ru.HdWallet.Derivation.{derive_mdecc_curve_seed}
use blackchain_crypto_lib_ru.P521
use blackchain_crypto_lib_ru.P521.Derive
use mathlib.Core.Path.{subst}

curve_seed :
    (h : Hashes)
    → HashLaws h
    → (master : Bytes) (curve_id n : ℕ) → n ≤ 16320
    → (out : Bytes) × (derive_mdecc_curve_seed h master curve_id n ≡ ok out) × (length out ≡ n)
unfolding derive_mdecc_curve_seed
curve_seed h laws master curve_id n small =
    let (out, expands, whole) =
      laws.hkdf_expands (h.shake256 (master ++ curve_id ∷ []) 32) n small in
    (out, rw expands, whole)

-- The three secrets behind a key pair, and the bytes that hold them.
pub record IsKeyPair (c : Crates) (laws : CrateLaws c) (sk : BlackChainPrivateKey)
    (pk : BlackChainPublicKey) : Type 0 where
  pub dil_seed : Bytes
  pub p521_key : P521.PrivateKey c.ecdsa
  pub ed448_seed : Bytes
  pub length_dil : length dil_seed ≡ 32
  pub length_ed448 : length ed448_seed ≡ 57
  pub sk_dilithium : sk.dilithium ≡ dil_seed
  pub sk_p521 : sk.p521 ≡ P521.private_as_bytes c.ecdsa p521_key
  pub sk_ed448 : sk.ed448 ≡ ed448_seed
  pub pk_dilithium :
      pk.dilithium ≡ c.ml_dsa.encode (expanded c.ml_dsa laws.ml_dsa_laws dil_seed).public
  pub pk_p521 : pk.p521 ≡ P521.public_as_bytes c.ecdsa (P521.public_key_typed c.ecdsa p521_key)
  pub pk_ed448 :
      pk.ed448
      ≡ (derived_public c.hashes c.ed448_rust c.goldilocks
          (c.ed448_rust.private_from ed448_seed)).raw
  pub sk_public : sk.public ≡ pk

module _ (c : Crates) (laws : CrateLaws c) (seed : Bytes) (long : 64 ≤ length seed) where
  abbrev pub dil_part : Bytes
  dil_part = take 32 seed

  abbrev pub master : Bytes
  master = take 32 (drop 32 seed)

  pub p521_part :
      (out : Bytes) × (derive_mdecc_curve_seed c.hashes master 1 66 ≡ ok out) × (length out ≡ 66)
  p521_part = curve_seed c.hashes laws.hash_laws master 1 66 (omega arith)

  ed448_part :
      (out : Bytes) × (derive_mdecc_curve_seed c.hashes master 2 57 ≡ ok out) × (length out ≡ 57)
  ed448_part = curve_seed c.hashes laws.hash_laws master 2 57 (omega arith)

  -- The public key for the P-521 pair that the search returned.
  abbrev public_for : P521.PublicKey c.ecdsa → BlackChainPublicKey
  public_for p521_pk = record {
    dilithium = c.ml_dsa.encode (c.ml_dsa.verifying_key (c.ml_dsa.from_seed dil_part));
    p521 = P521.public_as_bytes c.ecdsa p521_pk;
    ed448 =
        c.ed448_rust.public_bytes
          (c.ed448_rust.public_from (c.ed448_rust.private_from ed448_part.0));
  }

  abbrev private_for : P521.PublicKey c.ecdsa × P521.PrivateKey c.ecdsa → BlackChainPrivateKey
  private_for (p521_pk, p521_sk) = record {
    dilithium = dil_part;
    p521 = P521.private_as_bytes c.ecdsa p521_sk;
    ed448 = ed448_part.0;
    seed = seed;
    public = public_for p521_pk;
  }

  dil_sliced : slice {E = CryptoError} 0 32 seed ≡ ok dil_part
  dil_sliced = slice_inside 0 32 seed (omega arith) (omega arith)

  length-dil_part : length dil_part ≡ 32
  length-dil_part = length-take 32 seed (omega arith)

  master_sliced : slice {E = CryptoError} 32 64 seed ≡ ok master
  master_sliced = slice_inside 32 64 seed (omega arith) long

  -- With the P-521 search done, the rest of `generate` cannot fail.
  generate_with :
      (found : Fallible (P521.PublicKey c.ecdsa × P521.PrivateKey c.ecdsa))
      → P521.derive_keypair_from_seed c.ecdsa c.hashes p521_part.0 ≡ found
      → generate c seed ≡ (found >>= λ pair. ok (private_for pair, public_for pair.0))
  unfolding generate
  generate_with (ok (p521_pk, p521_sk)) e = rw (
    le→not_ltb (length seed) 64 long,
    dil_sliced,
    copy_from_slice_exact {E = CryptoError} 32 dil_part length-dil_part,
    new_key_from_seed_lem c.ml_dsa laws.ml_dsa_laws dil_part length-dil_part,
    master_sliced,
    p521_part.1,
    e,
    ed448_part.1,
    from_seed_lem c.hashes c.ed448_rust c.goldilocks ed448_part.0 ed448_part.2,
    pack_private_lem c.ml_dsa laws.ml_dsa_laws dil_part length-dil_part,
    pack_lem c.ml_dsa laws.ml_dsa_laws (c.ml_dsa.verifying_key (c.ml_dsa.from_seed dil_part)),
    as_bytes_lem c.hashes c.ed448_rust c.goldilocks laws.curve_laws laws.hash_laws laws.rust_laws
        ed448_part.0 ed448_part.2,
  )
  generate_with (err x) e = rw (
    le→not_ltb (length seed) 64 long,
    dil_sliced,
    copy_from_slice_exact {E = CryptoError} 32 dil_part length-dil_part,
    new_key_from_seed_lem c.ml_dsa laws.ml_dsa_laws dil_part length-dil_part,
    master_sliced,
    p521_part.1,
    e,
  )
  generate_with (panic m) e = rw (
    le→not_ltb (length seed) 64 long,
    dil_sliced,
    copy_from_slice_exact {E = CryptoError} 32 dil_part length-dil_part,
    new_key_from_seed_lem c.ml_dsa laws.ml_dsa_laws dil_part length-dil_part,
    master_sliced,
    p521_part.1,
    e,
  )

  pair_for :
      (p521_pk : P521.PublicKey c.ecdsa) (p521_sk : P521.PrivateKey c.ecdsa)
      → p521_pk ≡ P521.public_key_typed c.ecdsa p521_sk
      → IsKeyPair c laws (private_for (p521_pk, p521_sk)) (public_for p521_pk)
  pair_for p521_pk p521_sk e = record {
    dil_seed = dil_part;
    p521_key = p521_sk;
    ed448_seed = ed448_part.0;
    length_dil = length-dil_part;
    length_ed448 = ed448_part.2;
    sk_dilithium = refl;
    sk_p521 = refl;
    sk_ed448 = refl;
    pk_dilithium = refl;
    pk_p521 = ap (P521.public_as_bytes c.ecdsa) e;
    pk_ed448 = refl;
    sk_public = refl;
  }

  rederived :
      (p521_pk : P521.PublicKey c.ecdsa) (p521_sk : P521.PrivateKey c.ecdsa)
      → P521.derive_keypair_from_seed c.ecdsa c.hashes p521_part.0 ≡ ok (p521_pk, p521_sk)
      → derive_public_key c (private_for (p521_pk, p521_sk)) ≡ ok (public_for p521_pk)
  unfolding derive_public_key
  rederived p521_pk p521_sk e = rw (
    dil_sliced,
    copy_from_slice_exact {E = CryptoError} 32 dil_part length-dil_part,
    new_key_from_seed_lem c.ml_dsa laws.ml_dsa_laws dil_part length-dil_part,
    master_sliced,
    p521_part.1,
    e,
    ed448_part.1,
    from_seed_lem c.hashes c.ed448_rust c.goldilocks ed448_part.0 ed448_part.2,
    pack_lem c.ml_dsa laws.ml_dsa_laws (c.ml_dsa.verifying_key (c.ml_dsa.from_seed dil_part)),
  )

  -- What a successful search of the P-521 scalar gives is a key pair.
  pub searched :
      (found : Fallible (P521.PublicKey c.ecdsa × P521.PrivateKey c.ecdsa))
      → P521.derive_keypair_from_seed c.ecdsa c.hashes p521_part.0 ≡ found
      → (sk : BlackChainPrivateKey) (pk : BlackChainPublicKey) → generate c seed ≡ ok (sk, pk)
      → IsKeyPair c laws sk pk × (sk.seed ≡ seed) × (derive_public_key c sk ≡ ok pk)
  searched (err x) e sk pk made = cc (generate_with (err x) e)
  searched (panic m) e sk pk made = cc (generate_with (panic m) e)
  searched (ok (p521_pk, p521_sk)) e sk pk made =
      let first =
        (Derive.derive_keypair_from_seed_iff c.ecdsa c.hashes laws.hash_laws p521_part.0 p521_pk
            p521_sk).0
          p521_part.2 in
      let same = ok-injective (sym (generate_with (ok (p521_pk, p521_sk)) e) ∙ made) in
      subst (λ q. IsKeyPair c laws q.0 q.1 × (q.0.seed ≡ seed) × (derive_public_key c q.0 ≡ ok q.1))
        same (pair_for p521_pk p521_sk (first.0 e).1, refl, rederived p521_pk p521_sk e)

  -- From one accepted counter on, a long enough seed gives a key pair.
  pub total :
      (j : ℕ)
      → j < 256
      → ¬ Derive.Rejected c.ecdsa c.hashes p521_part.0 j
      → (sk : BlackChainPrivateKey) × (pk : BlackChainPublicKey) × (generate c seed ≡ ok (sk, pk))
  total j lt taken =
      let (p521_sk, made) =
        Derive.derive_keypair_from_seed_total c.ecdsa c.hashes laws.hash_laws p521_part.0 j
          p521_part.2 lt taken in
      let p521_pk = P521.public_key_typed c.ecdsa p521_sk in
      (
        private_for (p521_pk, p521_sk),
        public_for p521_pk,
        generate_with (ok (p521_pk, p521_sk)) made,
      )
