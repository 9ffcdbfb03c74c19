-- ===== src/Transaction/Signing/Envelope.antt =====
-- A signed transaction has one envelope: recovery fixes v, r and s (src/transaction/signing.rs).
use mathlib.Core.Path.{subst}
use blackchain_crypto_lib_ru.Base.{ℕ, ◌≡◌, refl, ap, sym, ◌∙◌, Option, some, Bytes, ok, ◌+◌, ◌*◌}
use blackchain_crypto_lib_ru.Crates.{Crates}
use blackchain_crypto_lib_ru.Transaction.Signing.{recover_sender, unsigned}
use blackchain_crypto_lib_ru.Transaction.Signing.Recovery.{recover_sender_iff}
use blackchain_crypto_lib_ru.Transaction.Types.{BlackChainTxType, IsU64}

abbrev filled :
    BlackChainTxType
    → Option ℕ
    → Option ℕ
    → Option ℕ
    → Option Bytes
    → Option Bytes
    → BlackChainTxType
filled tx v r s sig key = record tx { v = v; r = r; s = s; pqc_signature = sig; pub_key = key }

filled-unsigned :
    (tx : BlackChainTxType) → filled (unsigned tx) tx.v tx.r tx.s tx.pqc_signature tx.pub_key ≡ tx
unfolding unsigned
filled-unsigned tx = refl

chain_id-unsigned : (tx : BlackChainTxType) → (unsigned tx).chain_id ≡ tx.chain_id
unfolding unsigned
chain_id-unsigned tx = refl

-- A signed transaction has the chain id of the unsigned one.
pub signed-IsU64 :
    (tx signed : BlackChainTxType)
    → unsigned signed ≡ unsigned tx
    → IsU64 tx.chain_id
    → IsU64 signed.chain_id
signed-IsU64 tx signed same small =
    let chain =
      sym (chain_id-unsigned tx) ∙ sym (ap (λ t. t.chain_id) same) ∙ chain_id-unsigned signed in
    subst IsU64 chain small

-- Two transactions with 64-bit chain ids that agree in the unsigned fields, the signature and the
-- public key, and from each of which some sender is recovered, are equal in every field.
pub recover_sender_unique :
    (c : Crates) (tx tx' : BlackChainTxType) (address address' : Bytes)
    → IsU64 tx.chain_id
    → IsU64 tx'.chain_id
    → recover_sender c tx ≡ ok address
    → recover_sender c tx' ≡ ok address'
    → unsigned tx ≡ unsigned tx'
    → tx.pqc_signature ≡ tx'.pqc_signature
    → tx.pub_key ≡ tx'.pub_key
    → tx ≡ tx'
recover_sender_unique c tx tx' address address' small small' h h' fields sig key =
    let (_, _, _, _, v, r, s, _) = (recover_sender_iff c tx address small).0 h in
    let (_, _, _, _, v', r', s', _) = (recover_sender_iff c tx' address' small').0 h' in
    let chain : tx.chain_id ≡ tx'.chain_id =
      sym (chain_id-unsigned tx) ∙ ap (λ t. t.chain_id) fields ∙ chain_id-unsigned tx' in
    let same_v : tx.v ≡ tx'.v = v ∙ ap (λ n. some (n * 2 + 35)) chain ∙ sym v' in
    let same_r : tx.r ≡ tx'.r = r ∙ sym r' in
    let same_s : tx.s ≡ tx'.s = s ∙ sym s' in
    sym (filled-unsigned tx) ∙ cc (fields, same_v, same_r, same_s, sig, key) ∙ filled-unsigned tx'
