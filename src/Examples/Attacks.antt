-- ===== src/Examples/Attacks.antt =====
-- Attacks on small inputs. The toy twin of a signature is its other form.
use blackchain_crypto_lib_ru.Attacks.{Scalars, p521_high_s_twin}
use blackchain_crypto_lib_ru.Attacks.Malleation.{malleated_tx}
use blackchain_crypto_lib_ru.Attacks.Malleation.Parts.{
  ScalarLaws, high_s_refused, malleated_refused, verify_sig-p521_high_s_twin,
  recover_sender-malleated_tx,
}
use blackchain_crypto_lib_ru.Base.{
  arith, le_number, true, ◌≡◌, refl, none, some, inr, [], ◌∷◌, ◌++◌, Bytes, ok, err, replicate,
  length,
}
use blackchain_crypto_lib_ru.Crates.Toy.{toy, toy-CrateLaws}
use blackchain_crypto_lib_ru.Crates.Toy.Signatures.{
  Form, form_bytes, form_of, toy_p521, toy_p521-P521Laws,
}
use blackchain_crypto_lib_ru.Examples.Composite.{
  signed_transaction, sender, signed-IsU64, signed_run,
}
use blackchain_crypto_lib_ru.Attacks.Malleation.{spoiled}
use blackchain_crypto_lib_ru.Attacks.Malleation.Noncanonical.{
  ScalarsBelow, spoiled_refused, verify_message-spoiled,
}
use blackchain_crypto_lib_ru.Crates.Toy.Group.{toy_goldilocks, scalar}
use blackchain_crypto_lib_ru.Crypto.PrivateKey.{sign_message}
use blackchain_crypto_lib_ru.Crypto.PublicKey.{verify_message}
use blackchain_crypto_lib_ru.Crypto.RoundTrip.{verify_message-sign_message}
use blackchain_crypto_lib_ru.Examples.Shared.{seed, private_key, public_key, made, message}
use native.Mathlib.Decide.{dec_lt}
use blackchain_crypto_lib_ru.P521
use blackchain_crypto_lib_ru.Transaction.Signing.{recover_sender}
use blackchain_crypto_lib_ru.Transaction.Types.{BlackChainTxType}

abbrev r_part : Form → Bytes
r_part (Form.low x) = x ∷ replicate 65 0
r_part (Form.high x) = x ∷ replicate 65 0

abbrev s_part : Form → Bytes
s_part (Form.low x) = 0 ∷ replicate 65 0
s_part (Form.high x) = 1 ∷ replicate 65 0

abbrev other_s_part : Form → Bytes
other_s_part (Form.low x) = 1 ∷ replicate 65 0
other_s_part (Form.high x) = 0 ∷ replicate 65 0

abbrev other : Form → Form
other (Form.low x) = Form.high x
other (Form.high x) = Form.low x

abbrev toy_scalars : Scalars toy_p521
toy_scalars = record {
  r_bytes = r_part;
  s_bytes = s_part;
  neg_s_bytes = other_s_part;
  from_scalars = λ r s. form_of (r ++ s);
}

splits : (s : Form) → form_bytes s ≡ r_part s ++ s_part s
unfolding replicate
splits (Form.low x) = refl
splits (Form.high x) = refl

r_sized : (s : Form) → length (r_part s) ≡ 66
unfolding replicate
r_sized (Form.low x) = refl
r_sized (Form.high x) = refl

negated :
    (s : Form)
    → (t : Form) × (form_of (r_part s ++ other_s_part s) ≡ inr t)
      × (r_part t ≡ r_part s)
      × (toy_p521.normalize_s s ≡ none → toy_p521.normalize_s t ≡ some s)
unfolding replicate
negated (Form.low x) = (Form.high x, refl, refl, λ h. refl)
negated (Form.high x) = (Form.low x, refl, refl, λ h. cc)

toy_scalars-ScalarLaws : ScalarLaws toy_p521 toy_scalars
toy_scalars-ScalarLaws = record {
  signature_to_bytes_lem = splits;
  length-r_bytes = r_sized;
  from_scalars_neg = negated;
}

-- Key 4 on the message 2, 1.
low_signature : P521.verify_sig toy_p521 4 (2 ∷ 1 ∷ []) (form_bytes (Form.low 262)) ≡ ok tt
unfolding P521.verify_sig replicate
low_signature = refl

verify_sig-p521_high_s_twin_example :
    (twin : Form) × (p521_high_s_twin toy_p521 toy_scalars (form_bytes (Form.low 262))
      ≡ ok (form_bytes twin))
    × (toy_p521.verify 4 (2 ∷ 1 ∷ []) twin ≡ inr tt)
    × (P521.verify_sig toy_p521 4 (2 ∷ 1 ∷ []) (form_bytes twin) ≡ err high_s_refused)
verify_sig-p521_high_s_twin_example =
    verify_sig-p521_high_s_twin toy_p521 toy_p521-P521Laws toy_scalars toy_scalars-ScalarLaws 4
      (2 ∷ 1 ∷ []) (form_bytes (Form.low 262)) low_signature

recover_sender-malleated_tx_example :
    (forged : BlackChainTxType) × (malleated_tx toy toy_scalars signed_transaction ≡ ok forged)
    × (recover_sender toy forged ≡ err (malleated_refused toy))
recover_sender-malleated_tx_example =
    recover_sender-malleated_tx toy toy-CrateLaws toy_scalars toy_scalars-ScalarLaws
      signed_transaction sender signed-IsU64 signed_run.5

-- A toy scalar is a number below 3.
toy_below : ScalarsBelow toy_goldilocks
toy_below bytes s taken = elim (dec_lt (le_number bytes) 3) [
  | yes small ↦ omega arith
  | no large ↦ let refused : scalar bytes ≡ none = ground arith in cc
]

message_run :
    (sig : Bytes) × (sign_message toy private_key message [] ≡ ok sig)
    × (length sig ≡ 4873)
    × (verify_message toy public_key message sig ≡ ok true)
message_run =
    verify_message-sign_message toy toy-CrateLaws seed message [] private_key public_key made

verify_message-spoiled_example :
    (forged : Bytes) × (spoiled 56 message_run.0 ≡ ok forged)
    × (verify_message toy public_key message forged ≡ err (spoiled_refused toy))
verify_message-spoiled_example =
    verify_message-spoiled toy toy_below public_key message message_run.0 56 (omega arith)
      (omega arith) message_run.3
