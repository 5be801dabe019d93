-- ===== src/ContextLedger/Tests.antt =====
-- A pack of three files, and the theorems applied there.
use jacu_harness.Base.{
  ℕ, ◌+◌, ◌≤◌, ◌≡◌, ◌≢◌, ◌↔◌, inl, inr, refl, String, Bool, true, false, [], ◌∷◌, ltb, arith, In,
}
use jacu_harness.Base.Int.{pos}
use jacu_harness.Base.Sort.{sort, insert}
use jacu_harness.Base.Strings.{str_lt}
use jacu_harness.ContextLedger.{
  Item, Pack, refuse, decide, effective, admit_items, item_before, count_required, check_anchors,
  names_of,
}
use jacu_harness.ContextLedger.Loop.{total, total_required}
use jacu_harness.ContextLedger.Budget.{decide_in_budget, required_included, dispatched_iff}

abbrev item_of : String → ℕ → Bool → Item
item_of name bytes required = record {
  id = name;
  path = name;
  bytes = bytes;
  required = required;
  sha256 = "";
}

abbrev pack : Pack
pack = record {
  items = item_of "a.go" 90 false ∷ item_of "z.go" 60 true ∷ item_of "b.go" 30 false ∷ [];
  digest = "";
  bytes = 180;
  anchors = "z.go" ∷ [];
}

decide_in_budget_example :
    (total (decide (pos 100) pack true).included + (decide (pos 100) pack true).remaining_bytes
      ≡ effective (pos 100))
    × ((decide (pos 100) pack true).overflow
        ≡ ltb (effective (pos 100)) (total_required pack.items))
decide_in_budget_example = decide_in_budget (pos 100) pack true

required_included_example : In (item_of "z.go" 60 true) (decide (pos 100) pack true).included
required_included_example =
    required_included (pos 100) pack true (item_of "z.go" 60 true) (omega arith) (inr (inl refl))
      refl

dispatched_iff_example :
    (((decide (pos 100) pack true).tool_calls ≡ 1) ↔ (
      (true ≡ true)
      × (total_required pack.items ≤ effective (pos 100))
      × (check_anchors (names_of pack.items) pack.anchors ≡ 0)))
    × (((decide (pos 100) pack true).tool_calls ≡ 1)
        ↔ ((true ≡ true) × ((decide (pos 100) pack true).verdict ≢ refuse)))
dispatched_iff_example = dispatched_iff (pos 100) pack true

small_before_large :
    (decide (pos 100) pack true).included ≡ item_of "z.go" 60 true ∷ item_of "b.go" 30 false ∷ []
unfolding decide sort insert item_before str_lt admit_items count_required check_anchors names_of
small_before_large = refl
