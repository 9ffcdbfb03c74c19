-- ===== src/Ed448.antt =====
-- src/mdecc/ed448.rs: Ed448 keys and signatures. Keys derived here are verified by `ed448_rust`,
-- keys read from bytes by the equation of RFC 8032 over `ed448_goldilocks`.
pub mod Point
pub mod Equation
pub mod Malleation
pub mod Verify
pub mod Returns
pub mod Keys
pub mod Scheme
pub use Point.*
use mathlib.Core.List.{reverse}
use mathlib.Core.Option.{get_or}
use blackchain_crypto_lib_ru.Base.{
  ℕ, ◌+◌, ◌%◌, Bool, true, false, not, Option, none, some, [], ◌∷◌, ◌++◌, if◌then◌else◌, ◌==◌, ltb,
  Bytes, plain, text, number, Result, ok, err, ◌>>=◌, ◌>>◌, refuse_if, assert_that, map_err,
  from_crate, ok_or, or_panic, codes, bytes_eq, copy_from_slice, slice, length, ◌≡◌, refl,
}
use blackchain_crypto_lib_ru.Error.{
  CryptoError, signature_error, curve_error, invalid_key_size, Fallible,
}
use blackchain_crypto_lib_ru.Crates.{Hashes, Ed448Rust, Goldilocks, Entropy}
use blackchain_crypto_lib_ru.Sign.{SignatureOpts}

pub data SigningMode : Type 0 where
  ed448 ed448_ph : SigningMode

-- `PREHASH_CONTEXT`
abbrev pub prehash_context : Bytes
prehash_context = codes "PREHASHED"

unfoldable pub from_opts : Option SignatureOpts → SigningMode
from_opts none = ed448
from_opts (some o) = if bytes_eq o.context prehash_context then ed448_ph else ed448

unfoldable pub context_opt : SigningMode → Option SignatureOpts → Option Bytes
context_opt ed448_ph opts = none
context_opt ed448 none = none
context_opt ed448 (some o) = if length o.context == 0 then none else some o.context

abbrev pub phflag : SigningMode → ℕ
phflag ed448_ph = 1
phflag ed448 = 0

module _ (h : Hashes) where
  -- What the challenge hash absorbs for the message: itself, or its 64-byte prehash.
  pub message_part : SigningMode → Bytes → Bytes
  message_part ed448 msg = msg
  message_part ed448_ph msg = h.shake256 msg 64

  -- `dom4(phflag, ctx) ‖ R ‖ A ‖ message`
  unfoldable pub challenge_input : SigningMode → Bytes → Bytes → Bytes → Bytes → Bytes
  unfolding message_part
  challenge_input mode ctx r_bytes raw msg =
      codes "SigEd448"
      ++ (phflag mode ∷ (length ctx % 256) ∷ (ctx ++ (r_bytes ++ (raw ++ message_part mode msg))))

module _ (h : Hashes) (r : Ed448Rust) (g : Goldilocks) where
  pub record PublicKey : Type 0 where
    pub raw : Bytes
    pub trusted_inner : Option r.PublicKey

  unfoldable pub from_trusted_inner : r.PublicKey → PublicKey
  from_trusted_inner inner = record { raw = r.public_bytes inner; trusted_inner = some inner }

  unfoldable pub public_from_bytes : Bytes → Fallible PublicKey
  public_from_bytes input = do
    refuse_if (not (length input == public_key_size))
        (invalid_key_size public_key_size (length input))
    raw ← copy_from_slice public_key_size input
    decode_canonical_point g raw
    ok (record { raw = raw; trusted_inner = none })

  -- One round of the reduction of the challenge modulo the group order, and the loop.
  pub reduce_from : g.Scalar → Bytes → g.Scalar
  reduce_from k [] = k
  reduce_from k (byte ∷ bytes) =
      reduce_from (g.plus (g.times k (g.from_u32 256)) (g.from_u32 byte)) bytes

  unfoldable pub reduce : Bytes → g.Scalar
  reduce k_bytes = reduce_from g.zero_scalar (reverse k_bytes)

  -- `[S]B - [k]A - R`
  unfoldable pub equation_lhs : g.Scalar → g.Scalar → g.Point → g.Point → g.Point
  equation_lhs s k a_point r_point =
      g.add (g.add (g.scalar_mul g.generator s) (g.negate (g.scalar_mul a_point k)))
        (g.negate r_point)

  unfoldable pub verify_via_goldilocks :
      Bytes → Bytes → Bytes → Option Bytes → SigningMode → Fallible (Unit {0})
  verify_via_goldilocks raw msg sig ctx mode = do
    a_point ←
        map_err (λ _. curve_error (plain "public key decompression failed"))
          (decode_canonical_point g raw)
    r_slice ← slice 0 57 sig
    r_bytes ← copy_from_slice 57 r_slice
    s_slice ← slice 57 (length sig) sig
    s_bytes ← copy_from_slice 57 s_slice
    r_point ←
        map_err (λ _. signature_error (plain "signature R decompression failed"))
          (decode_canonical_point g r_bytes)
    s_scalar ←
        ok_or (signature_error (plain "non-canonical Ed448 S scalar (S >= L)"))
          (g.from_canonical_bytes s_bytes)
    let ctx_bytes = get_or ctx []
    refuse_if (ltb 255 (length ctx_bytes))
        (signature_error (plain "Ed448 context string exceeds 255 bytes"))
    let k_bytes = h.shake256 (challenge_input h mode ctx_bytes r_bytes raw msg) 114
    let lhs = equation_lhs s_scalar (reduce k_bytes) a_point r_point
    if g.point_eq (g.double (g.double lhs)) g.identity
        then ok tt
        else err (signature_error (plain "ed448 verification equation failed"))

  -- The fast path, on a key that `ed448_rust` derived.
  unfoldable pub verify_trusted :
      r.PublicKey → Bytes → Bytes → Option Bytes → SigningMode → Fallible (Unit {0})
  verify_trusted inner msg sig ctx ed448 =
      from_crate (λ e. signature_error (text "ed448 verify: " ∷ e)) (r.verify inner msg sig ctx)
  verify_trusted inner msg sig ctx ed448_ph =
      from_crate (λ e. signature_error (text "ed448 verify: " ∷ e)) (r.verify_ph inner msg sig ctx)

  unfoldable pub verify_sig : PublicKey → Bytes → Bytes → Option SignatureOpts → Fallible (Unit {0})
  verify_sig pk msg signature opts = do
    refuse_if (not (length signature == signature_size))
        (invalid_key_size signature_size (length signature))
    sig ← copy_from_slice signature_size signature
    let mode = from_opts opts
    let ctx = context_opt mode opts
    elim pk.trusted_inner [
      | some inner ↦ verify_trusted inner msg sig ctx mode
      | none ↦ verify_via_goldilocks pk.raw msg sig ctx mode
    ]

  pub record PrivateKey : Type 0 where
    pub inner : r.PrivateKey
    pub public : PublicKey

  unfoldable pub as_bytes : PrivateKey → Fallible Bytes
  as_bytes sk = copy_from_slice private_key_size (r.private_bytes sk.inner)

  unfoldable pub sign_with : SigningMode → r.PrivateKey → Bytes → Option Bytes → Fallible Bytes
  sign_with ed448 inner msg ctx =
      from_crate (λ e. signature_error (text "ed448 sign: " ∷ e)) (r.sign inner msg ctx)
  sign_with ed448_ph inner msg ctx =
      from_crate (λ e. signature_error (text "ed448 sign: " ∷ e)) (r.sign_ph inner msg ctx)

  unfoldable pub sign_msg : PrivateKey → Bytes → Option SignatureOpts → Fallible Bytes
  sign_msg sk msg opts =
      let mode = from_opts opts in sign_with mode sk.inner msg (context_opt mode opts)

  unfoldable pub from_seed : Bytes → Fallible (PublicKey × PrivateKey)
  from_seed seed = do
    assert_that (length seed == seed_size)
        (text "ed448: seed must be 57 bytes, got " ∷ number (length seed) ∷ [])
    arr ← copy_from_slice seed_size seed
    let inner = r.private_from arr
    let public = from_trusted_inner (r.public_from inner)
    ok (public, record { inner = inner; public = public })

  unfoldable pub private_from_bytes : Bytes → Fallible (PublicKey × PrivateKey)
  private_from_bytes input = do
    refuse_if (not (length input == private_key_size))
        (invalid_key_size private_key_size (length input))
    from_seed input

  -- `OsRng` panics where the system has no randomness.
  unfoldable pub generate_key : Entropy → Fallible (PublicKey × PrivateKey)
  generate_key entropy = do
    seed ← or_panic (λ e. e) (from_crate (λ e. e) (entropy seed_size))
    from_seed seed
