-- ===== src/Workspace/Receipt/Sound.antt =====
-- What a consumed receipt attests.
use jacu_harness.RunState.Ids.{valid_run_id}
use jacu_harness.Base.{
  if◌then◌else◌, ℕ, ◌≡◌, ◌⊎◌, inl, inr, refl, sym, String, true, false, List, [], ◌∷◌, Option, none,
  some, ok, arith, eq_iff, Option-cases, String-comparable, ap, subst, contains,
}
use jacu_harness.Base.Assoc.{find}
use jacu_harness.Base.Hex.{decode_hex}
use jacu_harness.Base.Int.{ℤ, pos, ◌≤ℤ◌, ◌+ℤ◌, ◌-ℤ◌}
use jacu_harness.RunState.{time_equal}
use jacu_harness.Workspace.Receipt.{
  ReviewReceipt, ReceiptPayload, ReceiptFile, holds, garbled, unread, ReceiptStore, ConsumeFaults,
  payload_from, validate_receipt_fields, validate_review_receipt, compare_sums, bytes_equal,
  mark_used, consume_file, consume_review_receipt, review_receipt_max_age, five_minutes,
}

pub bytes_equal-eq : (a b : List ℕ) → bytes_equal a b ≡ true → a ≡ b
bytes_equal-eq [] [] h = refl
bytes_equal-eq [] (y ∷ b) h = absurd (ground arith)
bytes_equal-eq (x ∷ a) [] h = absurd (ground arith)
bytes_equal-eq (x ∷ a) (y ∷ b) h =
    let rest = bytes_equal-eq a b (ground arith) in let first : x ≡ y = ground arith in cc

-- What validation takes the time to be.
abbrev pub the_time : ℤ → ℤ → ℤ
the_time given clock = if time_equal given (pos 0) then clock else given

module _ (mac : String → ReceiptPayload → Option (List ℕ)) where
  pub record Attests (receipt : ReviewReceipt) (key run_id digest : String) (now : ℤ) : Type 0 where
    pub own_id : receipt.run_id ≡ run_id
    pub own_digest : receipt.diff_digest ≡ digest
    pub verdict :
        (receipt.verdict ≡ "approve")
        ⊎ (receipt.verdict ≡ "reject")
        ⊎ (receipt.verdict ≡ "escalate")
    pub not_future : receipt.created_at ≤ℤ now +ℤ five_minutes
    pub fresh : now -ℤ receipt.created_at ≤ℤ review_receipt_max_age
    pub signed :
        (sum : List ℕ) × (mac key (payload_from receipt) ≡ some sum)
        × (decode_hex receipt.signature ≡ some sum)

  sums_agree :
      (provided sum : Option (List ℕ))
      → compare_sums mac provided sum ≡ none
      → (bs : List ℕ) × (sum ≡ some bs) × (provided ≡ some bs)
  unfolding compare_sums
  sums_agree none sum h = absurd (ground arith)
  sums_agree (some p) none h = absurd (ground arith)
  sums_agree (some p) (some s) h = (s, refl, ap some (bytes_equal-eq p s (ground arith)))

  verdict_known :
      (r : ReviewReceipt)
      → validate_receipt_fields r ≡ none
      → (r.verdict ≡ "approve") ⊎ (r.verdict ≡ "reject") ⊎ (r.verdict ≡ "escalate")
  unfolding validate_receipt_fields
  verdict_known r h =
      ground
        (arith, eq_iff r.verdict "approve", eq_iff r.verdict "reject", eq_iff r.verdict "escalate")

  validate-Attests :
      (r : ReviewReceipt) (key run_id digest : String) (given clock : ℤ)
      → validate_review_receipt mac r key run_id digest given clock ≡ none
      → Attests r key run_id digest (the_time given clock)
  unfolding validate_review_receipt
  validate-Attests r key run_id digest given clock h =
      let fields : validate_receipt_fields r ≡ none = ground arith in
      record {
        own_id = ground (arith, eq_iff r.run_id run_id);
        own_digest = ground (arith, eq_iff r.diff_digest digest);
        verdict = verdict_known r fields;
        not_future = ground arith;
        fresh = ground arith;
        signed = sums_agree (decode_hex r.signature) (mac key (payload_from r)) (ground arith);
      }

  mark_used_ok :
      (d : ReceiptStore) (id : String) (r out : ReviewReceipt) (f : ConsumeFaults)
      → (mark_used mac d id r f).1 ≡ ok out
      → (out ≡ r)
        × (contains d.used id ≡ false)
        × ((mark_used mac d id r f).0 ≡ record d { used = id ∷ d.used })
  unfolding mark_used
  mark_used_ok d id r out f h = ground arith

  consume_file_ok :
      (d : ReceiptStore) (id digest key : String) (now clock : ℤ) (f : ConsumeFaults)
      (file : Option ReceiptFile) (out : ReviewReceipt)
      → (consume_file mac d id digest key now clock f file).1 ≡ ok out
      → (file ≡ some (holds out))
        × Attests out key id digest (the_time now clock)
        × (contains d.used id ≡ false)
        × ((consume_file mac d id digest key now clock f file).0 ≡ record d { used = id ∷ d.used })
  unfolding consume_file
  consume_file_ok d id digest key now clock f none out h = absurd (ground arith)
  consume_file_ok d id digest key now clock f (some garbled) out h = absurd (ground arith)
  consume_file_ok d id digest key now clock f (some unread) out h = absurd (ground arith)
  consume_file_ok d id digest key now clock f (some (holds r)) out h =
      elim (Option-cases (validate_review_receipt mac r key id digest now clock)) [
        | inr (e, q) ↦ absurd (ground arith)
        | inl q ↦
            let marked : (mark_used mac d id r f).1 ≡ ok out = ground arith in
            let (same, unused, after) = mark_used_ok d id r out f marked in
            (
              ap (λ x. some (holds x)) (sym same),
              subst (λ x. Attests x key id digest (the_time now clock)) (sym same)
                  (validate-Attests r key id digest now clock q),
              unused,
              ground arith,
            )
      ]

  -- A receipt is consumed only from the file of its run, whose id and digest are the expected ones,
  -- with a known verdict, neither stale nor from the future, under a signature that is the sum of its
  -- payload, and if the run had no mark of use; then it has one, and nothing else has changed.
  pub consume_review_receipt-Attests :
      (d : ReceiptStore) (id digest key : String) (now clock : ℤ) (f : ConsumeFaults)
      (out : ReviewReceipt)
      → (consume_review_receipt mac d id digest key now clock f).1 ≡ ok out
      → (find d.receipts id ≡ some (holds out))
        × Attests out key id digest (the_time now clock)
        × (contains d.used id ≡ false)
        × ((consume_review_receipt mac d id digest key now clock f).0
            ≡ record d { used = id ∷ d.used })
  unfolding consume_review_receipt
  consume_review_receipt-Attests d id digest key now clock f out h =
      let valid : valid_run_id id ≡ true = ground arith in
      rw valid
        (consume_file_ok d id digest key now clock f (find d.receipts id) out (rw valid at h))
