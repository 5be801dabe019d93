-- ===== src/Workspace/Receipt/Signed.antt =====
-- A receipt that was signed is accepted under the same key.
use jacu_harness.Base.{
  ℕ, ◌<◌, ◌≡◌, inl, inr, refl, sym, String, true, false, List, [], ◌∷◌, Option, none, some, ok,
  arith, eq_refl, Option-cases, String-comparable, subst, All,
}
use jacu_harness.Base.Hex.{decode_hex, encode_hex, decode-encode_hex}
use jacu_harness.Base.Strings.{is_empty}
use jacu_harness.Base.Int.{ℤ, ◌≤ℤ◌, ◌+ℤ◌, ◌-ℤ◌}
use jacu_harness.Workspace.Receipt.{
  ReviewReceipt, ReceiptPayload, payload_from, sign_review_receipt, validate_receipt_fields,
  validate_review_receipt, compare_sums, bytes_equal, review_receipt_max_age, five_minutes,
}
use jacu_harness.Workspace.Receipt.Sound.{the_time}

bytes_equal_refl : (b : List ℕ) → bytes_equal b b ≡ true
bytes_equal_refl [] = refl
bytes_equal_refl (x ∷ b) = ground (arith, bytes_equal_refl b)

module _ (mac : String → ReceiptPayload → Option (List ℕ))
    (mac_bytes : (key : String) (p : ReceiptPayload) (sum : List ℕ)
      → mac key p ≡ some sum
      → All (λ b. b < 256) sum) where
  abbrev with_sum : ReviewReceipt → List ℕ → ReviewReceipt
  with_sum r sum = record r { signature = encode_hex sum }

  sign_ok :
      (r s : ReviewReceipt) (key : String)
      → sign_review_receipt mac r key ≡ ok s
      → (is_empty key ≡ false)
        × (validate_receipt_fields r ≡ none)
        × ((sum : List ℕ) × (mac key (payload_from r) ≡ some sum) × (s ≡ with_sum r sum))
  unfolding sign_review_receipt
  sign_ok r s key h =
      let fields : validate_receipt_fields r ≡ none = ground arith in
      elim (Option-cases (mac key (payload_from r))) [
        | inl q ↦ absurd (ground arith)
        | inr (sum, q) ↦ (ground arith, fields, (sum, q, ground arith))
      ]

  sums_equal :
      (key : String) (p : ReceiptPayload) (sum : List ℕ)
      → mac key p ≡ some sum
      → compare_sums mac (decode_hex (encode_hex sum)) (mac key p) ≡ none
  unfolding compare_sums
  sums_equal key p sum q =
      rw (q, decode-encode_hex sum (mac_bytes key p sum q), bytes_equal_refl sum) refl

  fields_unsigned :
      (r : ReviewReceipt) (sum : List ℕ)
      → validate_receipt_fields (with_sum r sum) ≡ validate_receipt_fields r
  unfolding validate_receipt_fields
  fields_unsigned r sum = refl

  with_sum_valid :
      (r : ReviewReceipt) (key : String) (sum : List ℕ) (given clock : ℤ)
      → is_empty key ≡ false
      → validate_receipt_fields r ≡ none
      → mac key (payload_from r) ≡ some sum
      → r.created_at ≤ℤ the_time given clock +ℤ five_minutes
      → the_time given clock -ℤ r.created_at ≤ℤ review_receipt_max_age
      → validate_review_receipt mac (with_sum r sum) key r.run_id r.diff_digest given clock ≡ none
  unfolding validate_review_receipt
  with_sum_valid r key sum given clock k v q soon fresh =
      let fields = fields_unsigned r sum in
      let equal = sums_equal key (payload_from r) sum q in
      ground (arith, eq_refl r.run_id, eq_refl r.diff_digest)

  -- What signing accepts, validation accepts under the same key, for the receipt's own run and
  -- digest, at any time from five minutes before its creation to a day after.
  pub sign-validate :
      (r s : ReviewReceipt) (key : String) (given clock : ℤ)
      → sign_review_receipt mac r key ≡ ok s
      → r.created_at ≤ℤ the_time given clock +ℤ five_minutes
      → the_time given clock -ℤ r.created_at ≤ℤ review_receipt_max_age
      → validate_review_receipt mac s key r.run_id r.diff_digest given clock ≡ none
  sign-validate r s key given clock h soon fresh =
      let (k, v, (sum, q, e)) = sign_ok r s key h in
      subst (λ x. validate_review_receipt mac x key r.run_id r.diff_digest given clock ≡ none)
        (sym e) (with_sum_valid r key sum given clock k v q soon fresh)
