-- ===== src/Workspace/Tests.antt =====
-- A policy, a signed receipt and a store, and the theorems applied there.
use Prim.Native.String.{len}
use jacu_harness.Base.{
  ℕ, ◌%◌, ◌<◌, ◌≡◌, ◌⊎◌, ◌↔◌, refl, sym, subst, String, true, false, List, [], ◌∷◌, Option, none,
  some, ok, err, arith, All, contains, ◌==◌, String-comparable,
}
use jacu_harness.Base.Assoc.{find}
use jacu_harness.Base.Hex.{encode_hex, decode_hex}
use jacu_harness.Base.Int.{pos, ◌≤ℤ◌, ◌+ℤ◌, ◌-ℤ◌}
use jacu_harness.Base.Strings.{has_prefix, trim_prefix}
use jacu_harness.RunState.Ids.{valid_run_id}
use jacu_harness.Workspace.Policy.{
  AutonomyPolicy, validate_autonomy_policy, evaluate_auto_apply_policy,
}
use jacu_harness.Workspace.Policy.Verdict.{MayApply, allow, auto_apply_decides}
use jacu_harness.Workspace.Policy.Valid.{IsValid, validate_autonomy_policy_iff}
use jacu_harness.Workspace.Receipt.{
  ReviewReceipt, ReceiptPayload, ReceiptError, ReceiptStore, holds, ConsumeFaults,
  sign_review_receipt, validate_receipt_fields, validate_review_receipt, consume_review_receipt,
}
use jacu_harness.Workspace.Receipt.Once.{at_once, then_replaced, consumed_once}
use jacu_harness.Workspace.Receipt.Sound.{Attests, consume_review_receipt-Attests}
use jacu_harness.Workspace.Receipt.Signed.{sign-validate}

abbrev policy : AutonomyPolicy
policy = record {
  require = "verify_pass" ∷ "cross_review" ∷ [];
  risk_max = "write";
  max_iterations = pos 3;
  on_violation = "escalate";
}

validate_autonomy_policy_iff_example :
    (validate_autonomy_policy policy ≡ ok policy) ↔ IsValid policy
validate_autonomy_policy_iff_example = validate_autonomy_policy_iff policy

auto_apply_decides_example :
    (MayApply policy "pass" "safe" true (pos 3)
      × (evaluate_auto_apply_policy policy "pass" "safe" true (pos 3) ≡ allow))
    ⊎ ((¬ MayApply policy "pass" "safe" true (pos 3))
        × ((evaluate_auto_apply_policy policy "pass" "safe" true (pos 3)).allowed ≡ false)
        × ((evaluate_auto_apply_policy policy "pass" "safe" true (pos 3)).escalate
            ≡ (policy.on_violation == "escalate")))
auto_apply_decides_example = auto_apply_decides policy "pass" "safe" true (pos 3)

auto_apply_allows : evaluate_auto_apply_policy policy "pass" "safe" true (pos 3) ≡ allow
unfolding evaluate_auto_apply_policy
auto_apply_allows = refl

-- A sum of two bytes stands in for the HMAC.
abbrev small_mac : String → ReceiptPayload → Option (List ℕ)
small_mac key p = some (len key % 256 ∷ len p.diff_digest % 256 ∷ [])

small_mac_bytes :
    (key : String) (p : ReceiptPayload) (sum : List ℕ)
    → small_mac key p ≡ some sum
    → All (λ b. b < 256) sum
small_mac_bytes key p sum h =
    let e : sum ≡ len key % 256 ∷ len p.diff_digest % 256 ∷ [] = ground arith in
    subst (All (λ b. b < 256)) (sym e) (omega arith, (omega arith, tt))

abbrev run_id : String
run_id = "run_0123456789abcdef"

abbrev unsigned : ReviewReceipt
unsigned = record {
  run_id = run_id;
  diff_digest = "sha256:00";
  verdict = "approve";
  reasons = [];
  created_at = pos 1000;
  signature = "";
}

abbrev receipt : ReviewReceipt
receipt = record unsigned { signature = "0309" }

receipt_signed : sign_review_receipt small_mac unsigned "key" ≡ ok receipt
unfolding sign_review_receipt validate_receipt_fields valid_run_id has_prefix trim_prefix encode_hex
receipt_signed = refl

receipt_soon : pos 1000 ≤ℤ pos 2000 +ℤ pos 300000000000
unfolding ◌+ℤ◌
receipt_soon = omega arith

receipt_fresh : pos 2000 -ℤ pos 1000 ≤ℤ pos 86400000000000
unfolding ◌-ℤ◌
receipt_fresh = omega arith

sign-validate_example :
    validate_review_receipt small_mac receipt "key" run_id "sha256:00" (pos 2000) (pos 0) ≡ none
sign-validate_example =
    sign-validate small_mac small_mac_bytes unsigned receipt "key" (pos 2000) (pos 0) receipt_signed
      receipt_soon receipt_fresh

abbrev store : ReceiptStore
store = record { receipts = (run_id, holds receipt) ∷ []; used = [] }

abbrev no_faults : ConsumeFaults
no_faults = record { create = false; write = false; close = false; remove = false }

consumed :
    (consume_review_receipt small_mac store run_id "sha256:00" "key" (pos 2000) (pos 0) no_faults).1
    ≡ ok receipt
unfolding consume_review_receipt validate_review_receipt validate_receipt_fields valid_run_id
    has_prefix trim_prefix find decode_hex ◌+ℤ◌ ◌-ℤ◌
consumed = refl

consume_review_receipt-Attests_example :
    (find store.receipts run_id ≡ some (holds receipt))
    × Attests small_mac receipt "key" run_id "sha256:00" (pos 2000)
    × (contains store.used run_id ≡ false)
    × ((consume_review_receipt small_mac store run_id "sha256:00" "key"
          (pos 2000)
          (pos 0)
          no_faults).0
        ≡ record store { used = run_id ∷ [] })
consume_review_receipt-Attests_example =
    consume_review_receipt-Attests small_mac store run_id "sha256:00" "key" (pos 2000) (pos 0)
      no_faults receipt consumed

abbrev after_replacement : ReceiptStore
after_replacement =
    record (consume_review_receipt small_mac store run_id "sha256:00" "key" (pos 2000) (pos 0)
      no_faults).0 { receipts = (run_id, holds receipt) ∷ [] }

consumed_once_example :
    (x : ReceiptError) × ((consume_review_receipt small_mac after_replacement run_id "sha256:00"
        "key"
        (pos 3000)
        (pos 0)
        no_faults).1
      ≡ err x)
consumed_once_example =
    consumed_once small_mac store after_replacement run_id "sha256:00" "key" (pos 2000) (pos 0)
      no_faults receipt "sha256:00" "key" (pos 3000) (pos 0) no_faults consumed
      (then_replaced ((run_id, holds receipt) ∷ []) at_once)
