-- ===== src/Crates/Toy/Text.antt =====
-- A text form of transactions for the examples: the numbers, a mark and a value for each optional
-- field, the lengths of the byte strings, and the byte strings.
use blackchain_crypto_lib_ru.Base.{
  ℕ, zero, suc, ◌≡◌, refl, Option, none, some, inl, inr, ◌⊎◌, [], ◌∷◌, ◌++◌, Bytes, Chars, Message,
  plain, length, take, drop, take-append, drop-append,
}
use blackchain_crypto_lib_ru.Transaction.Types.{BlackChainTxType}
use blackchain_crypto_lib_ru.Wasm.{TextFormats}

abbrev mark {ℓ} : {A : Type ℓ} → Option A → ℕ
mark none = 0
mark (some a) = 1

abbrev marked {ℓ} : {A : Type ℓ} → ℕ → A → Option A
marked zero a = none
marked (suc n) a = some a

abbrev number_of : Option ℕ → ℕ
number_of none = 0
number_of (some x) = x

abbrev bytes_of : Option Bytes → Bytes
bytes_of none = []
bytes_of (some x) = x

marked-number : (o : Option ℕ) → marked (mark o) (number_of o) ≡ o
marked-number none = refl
marked-number (some x) = refl

marked-bytes : (o : Option Bytes) → marked (mark o) (bytes_of o) ≡ o
marked-bytes none = refl
marked-bytes (some x) = refl

abbrev write : BlackChainTxType → Chars
write tx =
    tx.chain_id
    ∷ tx.nonce
    ∷ tx.max_priority_fee_per_gas
    ∷ tx.max_fee_per_gas
    ∷ tx.gas_limit
    ∷ tx.value
    ∷ mark tx.v
    ∷ number_of tx.v
    ∷ mark tx.r
    ∷ number_of tx.r
    ∷ mark tx.s
    ∷ number_of tx.s
    ∷ mark tx.to
    ∷ length (bytes_of tx.to)
    ∷ length tx.input
    ∷ mark tx.pqc_signature
    ∷ length (bytes_of tx.pqc_signature)
    ∷ mark tx.pub_key
    ∷ (bytes_of tx.to ++ (tx.input ++ (bytes_of tx.pqc_signature ++ bytes_of tx.pub_key)))

abbrev read : Chars → Message ⊎ BlackChainTxType
read
      (chain_id ∷ nonce ∷ priority ∷ max_fee ∷ gas_limit ∷ value ∷ mv ∷ v ∷ mr ∷ r ∷ ms ∷ s ∷ mt
        ∷ nt ∷ ni ∷ mp ∷ np ∷ mk ∷ body) =
    inr (record {
      chain_id = chain_id;
      nonce = nonce;
      max_priority_fee_per_gas = priority;
      max_fee_per_gas = max_fee;
      gas_limit = gas_limit;
      to = marked mt (take nt body);
      value = value;
      input = take ni (drop nt body);
      v = marked mv v;
      r = marked mr r;
      s = marked ms s;
      pqc_signature = marked mp (take np (drop ni (drop nt body)));
      pub_key = marked mk (drop np (drop ni (drop nt body)));
    })
read _ = inl (plain "not a transaction")

pub read-write : (tx : BlackChainTxType) → read (write tx) ≡ inr tx
read-write tx =
    let to = bytes_of tx.to in
    let sig = bytes_of tx.pqc_signature in
    let key = bytes_of tx.pub_key in
    rw
      (
        take-append (length to) to (tx.input ++ (sig ++ key)) refl,
        drop-append (length to) to (tx.input ++ (sig ++ key)) refl,
        take-append (length tx.input) tx.input (sig ++ key) refl,
        drop-append (length tx.input) tx.input (sig ++ key) refl,
        take-append (length sig) sig key refl,
        drop-append (length sig) sig key refl,
        marked-bytes tx.to,
        marked-bytes tx.pqc_signature,
        marked-bytes tx.pub_key,
        marked-number tx.v,
        marked-number tx.r,
        marked-number tx.s,
      )
      refl

-- Hexadecimal digits are left as the bytes.
abbrev pub toy_formats : TextFormats
toy_formats = record {
  from_str = read;
  to_string = λ tx. inr (write tx);
  hex_encode = λ bytes. bytes;
}

pub toy_formats_printed :
    (tx : BlackChainTxType)
    → (text : Chars) × (toy_formats.to_string tx ≡ inr text) × (toy_formats.from_str text ≡ inr tx)
toy_formats_printed tx = (write tx, refl, read-write tx)
