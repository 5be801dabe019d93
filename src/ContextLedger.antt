-- ===== src/ContextLedger.antt =====
-- internal/capability/ledger/decide.go: which items of a context pack go out under a byte budget,
-- with the pack of internal/capability/context. Sizes are lengths of files and so not negative; what
-- remains of the budget is then never negative either, and nothing wraps around.
pub mod Loop
pub mod Budget
mod Tests
use jacu_harness.Base.{
  ℕ, zero, suc, ◌+◌, ◌-◌, ◌*◌, ◌/◌, String, Bool, true, false, not, ◌&&◌, ◌||◌, List, [], ◌∷◌,
  if◌then◌else◌, ◌==◌, ℕ-comparable, String-comparable, ltb, contains,
}
use jacu_harness.Base.Int.{ℤ, pos, ltb_ℤ, pos_part}
use jacu_harness.Base.Sort.{sort}
use jacu_harness.Base.Strings.{str_lt}

pub record Item : Type 0 where
  pub id : String
  pub path : String
  pub bytes : ℕ
  pub required : Bool
  pub sha256 : String

pub record Pack : Type 0 where
  pub items : List Item
  pub digest : String
  pub bytes : ℕ
  pub anchors : List String

-- `DefaultBudget`
abbrev pub default_budget : ℕ
default_budget = 256 * 1024

pub data LedgerVerdict : Type 0 where
  admit refuse degrade : LedgerVerdict

pub data LedgerReason : Type 0 where
  budget_fit required_overflow optional_dropped anchors_lost : LedgerReason

pub record LedgerDecision : Type 0 where
  pub verdict : LedgerVerdict
  pub reason : LedgerReason
  pub budget_bytes : ℕ
  pub requested_bytes : ℕ
  pub remaining_bytes : ℕ
  pub overflow : Bool
  pub dropped_optional : ℕ
  pub items_required : ℕ
  pub items_included : ℕ
  pub coverage_bps : ℕ
  pub tool_calls : ℕ
  pub included : List Item

-- the order of the items: required ones first, then by path
unfoldable pub item_before : Item → Item → Bool
item_before a b =
    if (a.required && not b.required) || (not a.required && b.required)
    then a.required
    else str_lt a.path b.path

-- `includedRequired`, and the count in front of the loop
unfoldable pub count_required : List Item → ℕ
count_required [] = 0
count_required (i ∷ is) = let rest = count_required is in if i.required then suc rest else rest

unfoldable pub coverage_bps : ℕ → ℕ → ℕ
coverage_bps included required = if required == 0 then 10000 else included * 10000 / required

-- Where the loop over the items ends.
pub record Admission : Type 0 where
  pub stopped : Bool
  pub left : ℕ
  pub taken : List Item
  pub dropped : ℕ

unfoldable pub admit_items : ℕ → List Item → Admission
admit_items remaining [] = record { stopped = false; left = remaining; taken = []; dropped = 0 }
admit_items remaining (i ∷ is) = elim (ltb remaining i.bytes) [
  | true ↦ elim i.required [
    | true ↦ record { stopped = true; left = remaining; taken = []; dropped = 0 }
    | false ↦ let rest = admit_items remaining is in record rest { dropped = suc rest.dropped }
  ]
  | false ↦
      let rest = admit_items (remaining - i.bytes) is in record rest { taken = i ∷ rest.taken }
]

-- `CheckAnchors`: how many anchors no item of the pack has as its id or path.
unfoldable pub check_anchors : List String → List String → ℕ
check_anchors present [] = 0
check_anchors present (a ∷ rest_anchors) =
    let rest = check_anchors present rest_anchors in if contains present a then rest else suc rest

pub names_of : List Item → List String
names_of [] = []
names_of (i ∷ is) = i.id ∷ i.path ∷ names_of is

-- the decision behind a loop that stopped at a required item, or went through
pub refused : ℕ → Pack → ℕ → Admission → LedgerDecision
refused budget pack required a = record {
  verdict = refuse;
  reason = required_overflow;
  budget_bytes = budget;
  requested_bytes = pack.bytes;
  remaining_bytes = a.left;
  overflow = true;
  dropped_optional = 0;
  items_required = required;
  items_included = count_required a.taken;
  coverage_bps = coverage_bps (count_required a.taken) required;
  tool_calls = 0;
  included = a.taken;
}

pub decided : ℕ → Pack → ℕ → Admission → LedgerDecision
decided budget pack required a = record {
  verdict = if ltb 0 a.dropped then degrade else admit;
  reason = if ltb 0 a.dropped then optional_dropped else budget_fit;
  budget_bytes = budget;
  requested_bytes = pack.bytes;
  remaining_bytes = a.left;
  overflow = false;
  dropped_optional = a.dropped;
  items_required = required;
  items_included = count_required a.taken;
  coverage_bps = coverage_bps (count_required a.taken) required;
  tool_calls = 0;
  included = a.taken;
}

-- the check of the anchors and the dispatch; the flag says whether there is a dispatcher.
pub finish : ℕ → Bool → LedgerDecision → LedgerDecision
finish lost dispatch d =
    if ltb 0 lost
    then record d { verdict = refuse; reason = anchors_lost; overflow = false }
    else if dispatch
    then record d { tool_calls = 1 }
    else d

-- the budget that applies
abbrev pub effective : ℤ → ℕ
effective budget = if ltb_ℤ (pos 0) budget then pos_part budget else default_budget

unfoldable pub decide : ℤ → Pack → Bool → LedgerDecision
unfolding refused decided finish
decide budget pack dispatch =
    let items = sort item_before pack.items in
    let required = count_required items in
    let a = admit_items (effective budget) items in
    if a.stopped
    then refused (effective budget) pack required a
    else finish (check_anchors (names_of pack.items) pack.anchors) dispatch
        (decided (effective budget) pack required a)
