-- ===== src/Transaction/Types.antt =====
-- src/transaction/types.rs: the transaction. Integers are numbers with their ranges in `IsValid`,
-- and an address is its bytes.
use blackchain_crypto_lib_ru.Base.{ℕ, ◌^◌, ◌<◌, Option, none, some, ◌≡◌, Bytes, length}

pub record BlackChainTxType : Type 0 where
  pub chain_id : ℕ
  pub nonce : ℕ
  pub max_priority_fee_per_gas : ℕ
  pub max_fee_per_gas : ℕ
  pub gas_limit : ℕ
  pub to : Option Bytes
  pub value : ℕ
  pub input : Bytes
  pub v : Option ℕ
  pub r : Option ℕ
  pub s : Option ℕ
  pub pqc_signature : Option Bytes
  pub pub_key : Option Bytes

abbrev pub tx_type : ℕ
tx_type = 0x80

abbrev pub IsU64 : ℕ → Type 0
IsU64 x = x < 2 ^ 64

abbrev pub IsU256 : ℕ → Type 0
IsU256 x = x < 2 ^ 256

abbrev pub IsOptionalU256 : Option ℕ → Type 0
IsOptionalU256 none = Unit
IsOptionalU256 (some x) = IsU256 x

abbrev pub IsOptionalAddress : Option Bytes → Type 0
IsOptionalAddress none = Unit
IsOptionalAddress (some a) = length a ≡ 20

-- What the Rust types of the fields say.
pub record IsValid (tx : BlackChainTxType) : Type 0 where
  pub chain_id_u64 : IsU64 tx.chain_id
  pub nonce_u64 : IsU64 tx.nonce
  pub priority_u256 : IsU256 tx.max_priority_fee_per_gas
  pub max_fee_u256 : IsU256 tx.max_fee_per_gas
  pub gas_limit_u64 : IsU64 tx.gas_limit
  pub to_address : IsOptionalAddress tx.to
  pub value_u256 : IsU256 tx.value
  pub v_u256 : IsOptionalU256 tx.v
  pub r_u256 : IsOptionalU256 tx.r
  pub s_u256 : IsOptionalU256 tx.s
