-- ===== src/Workspace/Receipt/Once.antt =====
-- A review receipt is consumed at most once.
use mathlib.Core.Bool.{false≢true}
use jacu_harness.Base.{
  ◌∙◌, ℕ, ◌≡◌, inl, inr, refl, sym, String, List, Option, none, some, ok, err, arith, Option-cases,
  String-comparable, subst, In, In-contains, Result-cases, Bool-cases,
}
use jacu_harness.Base.Int.{ℤ}
use jacu_harness.RunState.Ids.{valid_run_id}
use jacu_harness.Base.Assoc.{find}
use jacu_harness.Workspace.Receipt.{
  ReviewReceipt, ReceiptPayload, ReceiptError, ReceiptFile, holds, garbled, unread, ReceiptStore,
  ConsumeFaults, WriteFaults, validate_review_receipt, mark_used, consume_file,
  consume_review_receipt, write_review_receipt, unmark, unwrite,
}
use jacu_harness.Workspace.Receipt.Sound.{consume_review_receipt-Attests}

module _ (mac : String → ReceiptPayload → Option (List ℕ)) where
  -- What may happen to the store: receipts are written and consumed, under any faults, and the
  -- receipt files are replaced by any others. The marks of use are written by no one else.
  pub data Later (d : ReceiptStore) : ReceiptStore → Type 0 where
    at_once : Later d d
    then_written :
        {e : ReceiptStore} (r : ReviewReceipt) (f : WriteFaults)
        → Later d e
        → Later d (write_review_receipt e r f).0
    then_consumed :
        {e : ReceiptStore} (id digest key : String) (now clock : ℤ) (f : ConsumeFaults)
        → Later d e
        → Later d (consume_review_receipt mac e id digest key now clock f).0
    then_replaced :
        {e : ReceiptStore} (files : List (String × ReceiptFile))
        → Later d e
        → Later d (record e { receipts = files })

  mark_used-In :
      (d : ReceiptStore) (id other : String) (r : ReviewReceipt) (f : ConsumeFaults)
      → In other d.used
      → In other (mark_used mac d id r f).0.used
  unfolding mark_used unmark
  mark_used-In d id other r f i = ground arith

  consume_file-In :
      (d : ReceiptStore) (id digest key other : String) (now clock : ℤ) (f : ConsumeFaults)
      (file : Option ReceiptFile)
      → In other d.used
      → In other (consume_file mac d id digest key now clock f file).0.used
  unfolding consume_file
  consume_file-In d id digest key other now clock f none i = i
  consume_file-In d id digest key other now clock f (some garbled) i = i
  consume_file-In d id digest key other now clock f (some unread) i = i
  consume_file-In d id digest key other now clock f (some (holds r)) i =
      let marked = mark_used-In d id other r f i in
      elim (Option-cases (validate_review_receipt mac r key id digest now clock)) [
        | inl q ↦
            let same : (consume_file mac d id digest key now clock f (some (holds r))).0
                ≡ (mark_used mac d id r f).0 =
              ground arith in
            subst (λ x. In other x.used) (sym same) marked
        | inr (e, q) ↦
            let same : (consume_file mac d id digest key now clock f (some (holds r))).0 ≡ d =
              ground arith in
            subst (λ x. In other x.used) (sym same) i
      ]

  consume-In :
      (d : ReceiptStore) (id digest key other : String) (now clock : ℤ) (f : ConsumeFaults)
      → In other d.used
      → In other (consume_review_receipt mac d id digest key now clock f).0.used
  unfolding consume_review_receipt
  consume-In d id digest key other now clock f i =
      let there = consume_file-In d id digest key other now clock f (find d.receipts id) i in
      elim (Bool-cases (valid_run_id id)) [ inl v ↦ rw v there | inr v ↦ rw v i ]

  write_used :
      (d : ReceiptStore) (r : ReviewReceipt) (f : WriteFaults)
      → (write_review_receipt d r f).0.used ≡ d.used
  unfolding write_review_receipt unwrite
  write_used d r f = ground arith

  Later-In : (d e : ReceiptStore) (id : String) → Later d e → In id d.used → In id e.used
  Later-In d e id at_once i = i
  Later-In d e id (then_written {e = m} r f l) i = rw (write_used m r f) (Later-In d m id l i)
  Later-In d e id (then_consumed {e = m} other digest key now clock f l) i =
      consume-In m other digest key id now clock f (Later-In d m id l i)
  Later-In d e id (then_replaced {e = m} files l) i = Later-In d m id l i

  used_refused :
      (d : ReceiptStore) (id digest key : String) (now clock : ℤ) (f : ConsumeFaults)
      (out : ReviewReceipt)
      → In id d.used
      → ¬ ((consume_review_receipt mac d id digest key now clock f).1 ≡ ok out)
  used_refused d id digest key now clock f out i h =
      let (_, _, unused, _) =
        consume_review_receipt-Attests mac d id digest key now clock f out h in
      false≢true (sym unused ∙ In-contains d.used id i)

  -- Once a receipt of a run has been consumed, no later consumption for that run succeeds, with
  -- whatever digest, key and time, after any writes and consumptions, failed steps included, and
  -- whatever has become of the receipt files.
  pub consumed_once :
      (d e : ReceiptStore) (id digest key : String) (now clock : ℤ) (f : ConsumeFaults)
      (out : ReviewReceipt) (digest' key' : String) (now' clock' : ℤ) (f' : ConsumeFaults)
      → (consume_review_receipt mac d id digest key now clock f).1 ≡ ok out
      → Later (consume_review_receipt mac d id digest key now clock f).0 e
      → (x : ReceiptError) × ((consume_review_receipt mac e id digest' key' now' clock' f').1
          ≡ err x)
  consumed_once d e id digest key now clock f out digest' key' now' clock' f' h l =
      let (_, _, _, after) = consume_review_receipt-Attests mac d id digest key now clock f out h in
      let marked : In id (consume_review_receipt mac d id digest key now clock f).0.used =
        rw after (inl refl) in
      let still =
        Later-In (consume_review_receipt mac d id digest key now clock f).0 e id l marked in
      elim (Result-cases (consume_review_receipt mac e id digest' key' now' clock' f').1) [
        | inl (r, q) ↦ absurd (used_refused e id digest' key' now' clock' f' r still q)
        | inr (x, q) ↦ (x, q)
      ]
