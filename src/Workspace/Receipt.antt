-- ===== src/Workspace/Receipt.antt =====
-- receipt.go: review receipts, signed, written once and consumed once. A receipt file holds what
-- decoding its text yields. The HMAC-SHA256 of a payload's JSON is a parameter, `none` where the
-- payload has no JSON. Times are nanoseconds; Go's saturated `Sub` cannot tell here.
pub mod Once
pub mod Sound
pub mod Signed
use jacu_harness.Base.{
  ℕ, String, Bool, true, false, not, ◌&&◌, ◌||◌, List, [], ◌∷◌, Option, none, some, Result, ok, err,
  if◌then◌else◌, ◌==◌, ℕ-comparable, String-comparable, contains, ◌>>=◌, ◌>>◌, refuse,
}
use jacu_harness.Base.Assoc.{find, put}
use jacu_harness.Base.Hex.{decode_hex, encode_hex}
use jacu_harness.Base.Int.{ℤ, pos, ltb_ℤ, ◌+ℤ◌, ◌-ℤ◌}
use jacu_harness.Base.Strings.{is_empty}
use jacu_harness.RunState.{time_equal}
use jacu_harness.RunState.Ids.{valid_run_id}

-- `reviewReceiptMaxAge`
abbrev pub review_receipt_max_age : ℤ
review_receipt_max_age = pos 86400000000000

abbrev pub five_minutes : ℤ
five_minutes = pos 300000000000

pub record ReviewReceipt : Type 0 where
  pub run_id : String
  pub diff_digest : String
  pub verdict : String
  pub reasons : List String
  pub created_at : ℤ
  pub signature : String

pub record ReceiptPayload : Type 0 where
  pub run_id : String
  pub diff_digest : String
  pub verdict : String
  pub reasons : List String
  pub created_at : ℤ

pub data ReceiptError : Type 0 where
  key_empty invalid_run_id digest_empty invalid_verdict created_at_missing unmarshalable :
      ReceiptError
  run_id_differs digest_differs in_future stale signature_not_hex signature_invalid : ReceiptError
  signature_empty not_exist unreadable undecodable already_exists already_consumed disk :
      ReceiptError

-- `reviewReceiptPayloadFrom`
abbrev pub payload_from : ReviewReceipt → ReceiptPayload
payload_from receipt = record {
  run_id = receipt.run_id;
  diff_digest = receipt.diff_digest;
  verdict = receipt.verdict;
  reasons = receipt.reasons;
  created_at = receipt.created_at;
}

unfoldable pub validate_receipt_fields : ReviewReceipt → Option ReceiptError
validate_receipt_fields receipt =
    if not (valid_run_id receipt.run_id)
    then some invalid_run_id
    else if is_empty receipt.diff_digest
    then some digest_empty
    else if not (
        receipt.verdict == "approve"
        || (receipt.verdict == "reject" || receipt.verdict == "escalate"))
    then some invalid_verdict
    else if time_equal receipt.created_at (pos 0)
    then some created_at_missing
    else none

-- `hmac.Equal`
abbrev pub bytes_equal : List ℕ → List ℕ → Bool
bytes_equal [] [] = true
bytes_equal [] (b ∷ bs) = false
bytes_equal (a ∷ xs) [] = false
bytes_equal (a ∷ xs) (b ∷ bs) = a == b && bytes_equal xs bs

pub data ReceiptFile : Type 0 where
  holds : ReviewReceipt → ReceiptFile
  garbled unread : ReceiptFile

-- The receipt files by run id, and the ids that have a mark of use.
pub record ReceiptStore : Type 0 where
  pub receipts : List (String × ReceiptFile)
  pub used : List String

-- Which steps fail when a receipt is consumed.
pub record ConsumeFaults : Type 0 where
  pub create : Bool
  pub write : Bool
  pub close : Bool
  pub remove : Bool

-- Which steps fail when a receipt is written.
pub record WriteFaults : Type 0 where
  pub mkdir : Bool
  pub encode : Bool
  pub create : Bool
  pub write : Bool
  pub sync : Bool
  pub close : Bool
  pub remove : Bool

module _ (mac : String → ReceiptPayload → Option (List ℕ)) where
  -- what `SignReviewReceipt` does once the fields are checked
  pub signed_with : Option (List ℕ) → ReviewReceipt → Result ReceiptError ReviewReceipt
  signed_with none receipt = err unmarshalable
  signed_with (some sum) receipt = ok (record receipt { signature = encode_hex sum })

  unfoldable pub sign_review_receipt : ReviewReceipt → String → Result ReceiptError ReviewReceipt
  unfolding signed_with
  sign_review_receipt receipt key =
      if is_empty key then err key_empty else elim (validate_receipt_fields receipt) [
        | some e ↦ err e
        | none ↦ signed_with (mac key (payload_from receipt)) receipt
      ]

  -- the last checks of `ValidateReviewReceipt`, on the decoded signature and the sum
  pub compare_sums : Option (List ℕ) → Option (List ℕ) → Option ReceiptError
  compare_sums none sum = some signature_not_hex
  compare_sums (some provided) none = some unmarshalable
  compare_sums (some provided) (some sum) =
      if bytes_equal provided sum then none else some signature_invalid

  -- `clock` is what `time.Now` gives.
  unfoldable pub validate_review_receipt :
      ReviewReceipt → String → String → String → ℤ → ℤ → Option ReceiptError
  unfolding compare_sums
  validate_review_receipt receipt key run_id diff_digest given clock =
      let now = if time_equal given (pos 0) then clock else given in
      if is_empty key then some key_empty else elim (validate_receipt_fields receipt) [
        | some e ↦ some e
        | none ↦
            if not (receipt.run_id == run_id)
            then some run_id_differs
            else if not (receipt.diff_digest == diff_digest)
            then some digest_differs
            else if ltb_ℤ (now +ℤ five_minutes) receipt.created_at
            then some in_future
            else if ltb_ℤ review_receipt_max_age (now -ℤ receipt.created_at)
            then some stale
            else compare_sums (decode_hex receipt.signature) (mac key (payload_from receipt))
      ]

  -- the removal of the mark after a step has failed
  pub unmark : ReceiptStore → String → Bool → ReceiptStore
  unmark d run_id fails = if fails then record d { used = run_id ∷ d.used } else d

  -- The creation of the mark of use: `O_EXCL` refuses one that is there.
  pub mark_used :
      ReceiptStore
      → String
      → ReviewReceipt
      → ConsumeFaults
      → ReceiptStore × Result ReceiptError ReviewReceipt
  unfolding unmark
  mark_used d run_id receipt faults =
      if contains d.used run_id
      then (d, err already_consumed)
      else if faults.create
      then (d, err disk)
      else if faults.write || faults.close
      then (unmark d run_id faults.remove, err disk)
      else (record d { used = run_id ∷ d.used }, ok receipt)

  pub consume_file :
      ReceiptStore
      → String
      → String
      → String
      → ℤ
      → ℤ
      → ConsumeFaults
      → Option ReceiptFile
      → ReceiptStore × Result ReceiptError ReviewReceipt
  unfolding mark_used
  consume_file d run_id diff_digest key now clock faults none = (d, err not_exist)
  consume_file d run_id diff_digest key now clock faults (some garbled) = (d, err undecodable)
  consume_file d run_id diff_digest key now clock faults (some unread) = (d, err unreadable)
  consume_file d run_id diff_digest key now clock faults (some (holds receipt)) =
      elim (validate_review_receipt receipt key run_id diff_digest now clock) [
        | some e ↦ (d, err e)
        | none ↦ mark_used d run_id receipt faults
      ]

  unfoldable pub consume_review_receipt :
      ReceiptStore
      → String
      → String
      → String
      → ℤ
      → ℤ
      → ConsumeFaults
      → ReceiptStore × Result ReceiptError ReviewReceipt
  unfolding consume_file
  consume_review_receipt d run_id diff_digest key now clock faults =
      if not (valid_run_id run_id)
      then (d, err invalid_run_id)
      else consume_file d run_id diff_digest key now clock faults (find d.receipts run_id)

-- The removal of a file that was not written through: where it fails, what was
-- written stays.
pub unwrite : ReceiptStore → String → ReceiptFile → Bool → ReceiptStore
unwrite d run_id left fails =
    if fails then record d { receipts = put d.receipts run_id left } else d

is_there : Option ReceiptFile → Bool
is_there none = false
is_there (some file) = true

unfoldable pub write_review_receipt :
    ReceiptStore → ReviewReceipt → WriteFaults → ReceiptStore × Option ReceiptError
unfolding unwrite is_there
write_review_receipt d receipt faults =
    if not (valid_run_id receipt.run_id)
    then (d, some invalid_run_id)
    else if is_empty receipt.signature
    then (d, some signature_empty)
    else if faults.mkdir
    then (d, some disk)
    else if faults.encode
    then (d, some unmarshalable)
    else if is_there (find d.receipts receipt.run_id)
    then (d, some already_exists)
    else if faults.create
    then (d, some disk)
    else if faults.write
    then (unwrite d receipt.run_id garbled faults.remove, some disk)
    else if faults.sync || faults.close
    then (unwrite d receipt.run_id (holds receipt) faults.remove, some disk)
    else (record d { receipts = put d.receipts receipt.run_id (holds receipt) }, none)
