-- ===== src/Crates/Laws/Wire.antt =====
-- Laws of `alloy_rlp`: each decoder undoes its encoder and stays in the range of its type, lengths are those of the encodings, and
-- decoders accept canonical encodings alone.
use blackchain_crypto_lib_ru.Base.{ℕ, ◌^◌, ◌<◌, ◌≤◌, ◌≡◌, inr, true, ◌++◌, Bytes, length}
use blackchain_crypto_lib_ru.Crates.{Rlp}

pub record RlpLaws (c : Rlp) : Type 0 where
  pub length-encode_u64 : (x : ℕ) → length (c.encode_u64 x) ≡ c.length_u64 x
  pub length-encode_u256 : (x : ℕ) → length (c.encode_u256 x) ≡ c.length_u256 x
  pub length-encode_bytes : (x : Bytes) → length (c.encode_bytes x) ≡ c.length_bytes x
  pub length-encode_address : (x : Bytes) → length (c.encode_address x) ≡ c.length_address x
  pub length-encode_header : (n : ℕ) → length (c.encode_header true n) ≡ c.length_of_length n
  -- An address is encoded as its 20 bytes.
  pub encode_address_lem : (x : Bytes) → length x ≡ 20 → c.encode_address x ≡ c.encode_bytes x
  -- No encoding is empty.
  pub encode_u256_pos : (x : ℕ) → 0 < c.length_u256 x
  pub encode_bytes_pos : (x : Bytes) → 0 < c.length_bytes x
  pub decode_u64-encode_u64 :
      (x : ℕ) (rest : Bytes) → x < 2 ^ 64 → c.decode_u64 (c.encode_u64 x ++ rest) ≡ inr (x, rest)
  pub decode_u256-encode_u256 :
      (x : ℕ) (rest : Bytes) → x < 2 ^ 256 → c.decode_u256 (c.encode_u256 x ++ rest) ≡ inr (x, rest)
  pub decode_bytes-encode_bytes :
      (x rest : Bytes) → c.decode_bytes (c.encode_bytes x ++ rest) ≡ inr (x, rest)
  -- The header is refused where fewer bytes follow than it declares.
  pub decode_header-encode_header :
      (n : ℕ) (rest : Bytes)
      → n ≤ length rest
      → c.decode_header (c.encode_header true n ++ rest) ≡ inr (true, n, rest)
  pub decode_u64_range :
      (buf : Bytes) (x : ℕ) (rest : Bytes) → c.decode_u64 buf ≡ inr (x, rest) → x < 2 ^ 64
  pub decode_u256_range :
      (buf : Bytes) (x : ℕ) (rest : Bytes) → c.decode_u256 buf ≡ inr (x, rest) → x < 2 ^ 256
  pub decode_u64_canonical :
      (buf : Bytes) (x : ℕ) (rest : Bytes)
      → c.decode_u64 buf ≡ inr (x, rest)
      → buf ≡ c.encode_u64 x ++ rest
  pub decode_u256_canonical :
      (buf : Bytes) (x : ℕ) (rest : Bytes)
      → c.decode_u256 buf ≡ inr (x, rest)
      → buf ≡ c.encode_u256 x ++ rest
  pub decode_bytes_canonical :
      (buf x rest : Bytes) → c.decode_bytes buf ≡ inr (x, rest) → buf ≡ c.encode_bytes x ++ rest
  pub decode_header_canonical :
      (buf : Bytes) (n : ℕ) (rest : Bytes)
      → c.decode_header buf ≡ inr (true, n, rest)
      → buf ≡ c.encode_header true n ++ rest
