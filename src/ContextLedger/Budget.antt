-- ===== src/ContextLedger/Budget.antt =====
-- What the ledger lets out: never more than the budget, and every required item or nothing.
use jacu_harness.Base.{
  ◌+◌, ◌≤◌, ◌≡◌, ◌≢◌, ◌↔◌, sym, ap, ◌∙◌, Bool, true, false, List, ltb, arith, In,
}
use jacu_harness.Base.Int.{ℤ}
use jacu_harness.Base.Sort.{sort, sort-Sorted, In-sort}
use jacu_harness.ContextLedger.{
  Item, Pack, LedgerDecision, refuse, item_before, Admission, admit_items, effective, decide,
  check_anchors, names_of, refused, decided, finish,
}
use jacu_harness.ContextLedger.Loop.{
  total, total_required, item_before-IsLess, total_required-sort, total-admit_items, stops_iff,
  required_taken,
}

module _ (budget : ℤ) (pack : Pack) (dispatch : Bool) where
  abbrev items : List Item
  items = sort item_before pack.items

  abbrev admission : Admission
  admission = admit_items (effective budget) items

  abbrev outcome : LedgerDecision
  outcome = decide budget pack dispatch

  decide_reads :
      (outcome.included ≡ admission.taken)
      × (outcome.remaining_bytes ≡ admission.left)
      × (outcome.overflow ≡ admission.stopped)
  unfolding decide refused decided finish
  decide_reads = ground arith

  -- The items that go out and what remains make up the budget that applies, and the decision is an
  -- overflow exactly if the required items of the pack together exceed that budget.
  pub decide_in_budget :
      (total outcome.included + outcome.remaining_bytes ≡ effective budget)
      × (outcome.overflow ≡ ltb (effective budget) (total_required pack.items))
  decide_in_budget =
      let (taken, left, stopped) = decide_reads in
      (
        rw (taken, left) (total-admit_items (effective budget) items),
        stopped
            ∙ stops_iff (effective budget) items
                (sort-Sorted item_before item_before-IsLess pack.items)
            ∙ ap (ltb (effective budget)) (total_required-sort pack.items),
      )

  -- If the required items fit the budget, each of them goes out, however large the optional ones are.
  pub required_included :
      (i : Item)
      → total_required pack.items ≤ effective budget
      → In i pack.items
      → i.required ≡ true
      → In i outcome.included
  required_included i fits m r =
      let (taken, _, stopped) = decide_reads in
      let goes_through : admission.stopped ≡ false =
        sym stopped ∙ decide_in_budget.1 ∙ ground arith in
      rw taken (
        required_taken (effective budget) items i goes_through (In-sort item_before i pack.items m)
          r)

  -- The dispatcher is called exactly if there is one, the required items fit the budget and no
  -- anchor of the pack is lost; that is, if there is one and the verdict is not a refusal.
  pub dispatched_iff :
      ((outcome.tool_calls ≡ 1) ↔ (
        (dispatch ≡ true)
        × (total_required pack.items ≤ effective budget)
        × (check_anchors (names_of pack.items) pack.anchors ≡ 0)))
      × ((outcome.tool_calls ≡ 1) ↔ ((dispatch ≡ true) × (outcome.verdict ≢ refuse)))
  unfolding decide refused decided finish
  dispatched_iff =
      let stops =
        stops_iff (effective budget) items (sort-Sorted item_before item_before-IsLess pack.items)
        ∙ ap (ltb (effective budget)) (total_required-sort pack.items) in
      ground arith
