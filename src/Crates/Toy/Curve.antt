-- ===== src/Crates/Toy/Curve.antt =====
-- Ed448 of the examples: every secret is 1, so a signature is R = [1]B and S = 1 + k.
use mathlib.Core.Option.{get_or}
use blackchain_crypto_lib_ru.Base.{
  ◌≡◌, refl, ltb, lt→ltb, le→not_ltb, Option, some, inl, inr, [], ◌++◌, Bytes, All, IsByte, length,
  le_number, replicate, plain, if◌then◌else◌, arith, bytes_eq, bytes_eq_iff, ◌⊎◌, Message,
}
use blackchain_crypto_lib_ru.Crates.{Ed448Rust}
use blackchain_crypto_lib_ru.Crates.Laws.{Ed448RustLaws, IsSignature}
use blackchain_crypto_lib_ru.Crates.Toy.Group.{
  Three, one_of, two_of, none_of, class, plus, times, bytes_of, scalar, toy_goldilocks,
  toy_curve_laws,
}
use blackchain_crypto_lib_ru.Crates.Toy.Signatures.{toy_hashes, All-replicate}
use blackchain_crypto_lib_ru.Ed448.{SigningMode, ed448, ed448_ph, challenge_input}
use blackchain_crypto_lib_ru.Ed448.Point.Canonical.{IsCanonical}

abbrev pub toy_public : Bytes
toy_public = bytes_of one_of

abbrev pub challenge : SigningMode → Bytes → Option Bytes → Three
challenge mode msg ctx = class (
    le_number (
      toy_hashes.shake256
        (challenge_input toy_hashes mode (get_or ctx []) toy_public toy_public msg) 114))

abbrev pub toy_signature : SigningMode → Bytes → Option Bytes → Bytes
toy_signature mode msg ctx =
    toy_public ++ bytes_of (plus one_of (times (challenge mode msg ctx) one_of))

abbrev pub compared : Bytes → Bytes → Message ⊎ Unit {0}
compared expected signature = if bytes_eq expected signature then inr tt else inl (plain "mismatch")

abbrev pub toy_ed448_rust : Ed448Rust
toy_ed448_rust = record {
  PrivateKey = Bytes;
  PublicKey = Unit {0};
  private_from = λ seed. seed;
  private_bytes = λ sk. sk;
  public_from = λ sk. tt;
  public_bytes = λ pk. toy_public;
  sign = λ sk msg ctx.
      if ltb 255 (length (get_or ctx []))
      then inl (plain "context too long")
      else inr (toy_signature ed448 msg ctx);
  sign_ph = λ sk msg ctx. inr (toy_signature ed448_ph msg ctx);
  verify = λ pk msg signature ctx. compared (toy_signature ed448 msg ctx) signature;
  verify_ph = λ pk msg signature ctx. compared (toy_signature ed448_ph msg ctx) signature;
}

compared_same : (bytes : Bytes) → compared bytes bytes ≡ inr tt
compared_same bytes = rw ((bytes_eq_iff bytes bytes).1 refl) refl

scalar-bytes_of : (p : Three) → scalar (bytes_of p) ≡ some p
unfolding replicate
scalar-bytes_of none_of = refl
scalar-bytes_of one_of = refl
scalar-bytes_of two_of = refl

length-bytes_of : (p : Three) → length (bytes_of p) ≡ 57
unfolding replicate
length-bytes_of p = refl

pub toy_public-All : All IsByte toy_public
unfolding replicate
toy_public-All = (omega arith, All-replicate 56 0 (omega arith))

toy_public-IsCanonical : IsCanonical toy_goldilocks toy_public one_of
unfolding replicate
toy_public-IsCanonical = record {
  padding_clear = refl;
  y_below_prime = omega arith;
  on_curve = refl;
  not_small_order = refl;
}

toy_signature-IsSignature :
    (mode : SigningMode) (msg : Bytes) (ctx : Option Bytes)
    → IsSignature toy_hashes toy_ed448_rust toy_goldilocks toy_curve_laws one_of toy_public mode
        (get_or ctx [])
        msg
        (toy_signature mode msg ctx)
toy_signature-IsSignature mode msg ctx = record {
  nonce = one_of;
  r_bytes = toy_public;
  s_bytes = bytes_of (plus one_of (times (challenge mode msg ctx) one_of));
  splits = refl;
  length_r = length-bytes_of one_of;
  length_s = length-bytes_of (plus one_of (times (challenge mode msg ctx) one_of));
  bytes_r = toy_public-All;
  r_encodes = toy_public-IsCanonical;
  s_encodes = scalar-bytes_of (plus one_of (times (challenge mode msg ctx) one_of));
}

pub toy_ed448_rust-Ed448RustLaws :
    Ed448RustLaws toy_hashes toy_ed448_rust toy_goldilocks toy_curve_laws
toy_ed448_rust-Ed448RustLaws = record {
  secret = λ sk. one_of;
  private_bytes-private_from = λ seed _. refl;
  length-public_bytes = λ pk. length-bytes_of one_of;
  bytes-public_bytes = λ pk. toy_public-All;
  public_encodes = λ sk. toy_public-IsCanonical;
  signs = λ sk msg ctx short. (
    toy_signature ed448 msg ctx,
    rw (le→not_ltb 255 (length (get_or ctx [])) short) refl,
    compared_same (toy_signature ed448 msg ctx),
    toy_signature-IsSignature ed448 msg ctx,
  );
  signs_ph = λ sk msg ctx _. (
    toy_signature ed448_ph msg ctx,
    refl,
    compared_same (toy_signature ed448_ph msg ctx),
    toy_signature-IsSignature ed448_ph msg ctx,
  );
  sign_too_long = λ sk msg ctx long.
      (plain "context too long", rw (lt→ltb 255 (length (get_or ctx [])) long) refl);
}
