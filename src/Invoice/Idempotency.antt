-- ===== src/Invoice/Idempotency.antt =====
-- Idempotency keys and the fingerprint of a payment request (payment_idempotency.go). SHA-256 of
-- the canonical JSON is an argument.
use go_invoicing.Base.{
  not, ℕ, Bool, ◌&&◌, ◌||◌, none, some, List, ltb, leb, length, ◌==◌, if◌then◌else◌,
}
use go_invoicing.Base.Text.{all_codes, trim_space}
use go_invoicing.Base.Time.{zero_time, midnight}
use go_invoicing.Errors.{Result, ◌>>◌, fail_if, payment_idempotency_key_invalid}
use go_invoicing.Invoice.{CreatePaymentRequest, PaymentFingerprintV1}

abbrev pub idempotency_key_min_length : ℕ
idempotency_key_min_length = 16

abbrev pub idempotency_key_max_length : ℕ
idempotency_key_max_length = 128

unfoldable pub is_idempotency_key_byte : ℕ → Bool
is_idempotency_key_byte c =
    (leb b'A' c && leb c b'Z')
    || (leb b'a' c && leb c b'z')
    || (leb b'0' c && leb c b'9')
    || c == b'.'
    || c == b'_'
    || c == b'~'
    || c == b':'
    || c == b'-'

-- The loop stops at the first byte that is refused, whichever it is.
unfoldable pub validate_idempotency_key : List ℕ → Result (Unit {0})
validate_idempotency_key key = do
  fail_if
      (ltb (length key) idempotency_key_min_length || ltb idempotency_key_max_length (length key))
      payment_idempotency_key_invalid
  fail_if (not (all_codes is_idempotency_key_byte key)) payment_idempotency_key_invalid

unfoldable pub payment_fingerprint : CreatePaymentRequest → PaymentFingerprintV1
payment_fingerprint r = record {
  amount = r.amount;
  payment_method = r.payment_method;
  payment_date = if r.payment_date == zero_time then none else some (midnight r.payment_date);
  reference = trim_space r.reference;
  notes = trim_space r.notes;
}

unfoldable pub fingerprint_payment_request :
    (PaymentFingerprintV1 → List ℕ) → CreatePaymentRequest → List ℕ
unfolding payment_fingerprint
fingerprint_payment_request digest r = digest (payment_fingerprint r)
