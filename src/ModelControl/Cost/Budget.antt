-- ===== src/ModelControl/Cost/Budget.antt =====
-- The budget is never passed by costs that were admitted.
use jacu_harness.Base.{ℕ, ◌+◌, ◌*◌, ◌≤◌, ◌≡◌, refl, ◌∙◌, subst, some, true, min, arith}
use jacu_harness.ModelControl.Cost.{
  MissionLedger, max_u64, units_per_cent, new_mission_ledger, saturating_add, remaining, can_admit,
  absorb,
}

-- All three counters are `uint64` values, and no more is spent than the ceiling.
pub record IsWithin (l : MissionLedger) : Type 0 where
  pub ceiling_fits : l.ceiling ≤ max_u64
  pub saved_fits : l.saved ≤ max_u64
  pub within : l.spent ≤ l.ceiling

pub saturating_add-eq-min : (a b : ℕ) → a ≤ max_u64 → saturating_add a b ≡ min (a + b) max_u64
unfolding saturating_add
saturating_add-eq-min a b h = ground arith

ceiling_exact :
    (cents : ℕ) → (new_mission_ledger cents).ceiling ≡ min (cents * units_per_cent) max_u64
unfolding new_mission_ledger
ceiling_exact cents = ground arith

-- An admitted cost that is then absorbed is subtracted from what remains, with no saturation.
pub absorb_admitted :
    (l : MissionLedger) (cost saved : ℕ)
    → IsWithin l
    → can_admit (some l) cost ≡ true
    → (m : MissionLedger) × (absorb (some l) cost saved ≡ some m)
      × IsWithin m
      × (m.spent ≡ l.spent + cost)
      × (remaining m + cost ≡ remaining l)
      × (m.saved ≡ min (l.saved + saved) max_u64)
      × (m.ceiling ≡ l.ceiling)
unfolding can_admit absorb
absorb_admitted l cost saved v h = (
  record l { spent = saturating_add l.spent cost; saved = saturating_add l.saved saved },
  refl,
  ground arith,
  ground arith,
  ground arith,
  ground arith,
  refl,
)

-- The life of a ledger: costs that were admitted are absorbed, in any number and order.
pub data Spends (start : MissionLedger) : MissionLedger → Type 0 where
  fresh : Spends start start
  spend :
      {l m : MissionLedger} (cost saved : ℕ)
      → Spends start l
      → can_admit (some l) cost ≡ true
      → absorb (some l) cost saved ≡ some m
      → Spends start m

new_mission_ledger-IsWithin : (cents : ℕ) → IsWithin (new_mission_ledger cents)
unfolding new_mission_ledger
new_mission_ledger-IsWithin cents = ground arith

Spends-IsWithin :
    {start l : MissionLedger}
    → IsWithin start
    → Spends start l
    → IsWithin l × (l.ceiling ≡ start.ceiling)
Spends-IsWithin v fresh = (v, refl)
Spends-IsWithin {start} {l} v (spend {l = k} cost saved r admitted absorbed) =
    let (w, same) = Spends-IsWithin v r in
    let (m, e, u, _, _, _, c) = absorb_admitted k cost saved w admitted in
    let p : m ≡ l = ground arith in
    subst (λ x. IsWithin x × (x.ceiling ≡ start.ceiling)) p (u, c ∙ same)

-- A mission that absorbs only what `CanAdmit` admitted never spends more than its budget, whatever
-- the costs and their order: the ceiling is the budget in units, cut off at the largest `uint64`.
pub budget_never_passed :
    (cents : ℕ) (l : MissionLedger)
    → Spends (new_mission_ledger cents) l
    → (l.spent ≤ l.ceiling) × (l.ceiling ≡ min (cents * units_per_cent) max_u64)
budget_never_passed cents l r =
    let (w, c) = Spends-IsWithin (new_mission_ledger-IsWithin cents) r in
    (w.within, c ∙ ceiling_exact cents)

-- Whatever is absorbed, admitted or not, the counters stay `uint64` values and never fall, and
-- sums past the largest `uint64` stop there.
absorb_saturates :
    (l : MissionLedger) (cost saved : ℕ)
    → l.spent ≤ max_u64
    → l.saved ≤ max_u64
    → (m : MissionLedger) × (absorb (some l) cost saved ≡ some m)
      × (m.spent ≡ min (l.spent + cost) max_u64)
      × (m.saved ≡ min (l.saved + saved) max_u64)
      × (remaining m ≤ remaining l)
unfolding absorb remaining
absorb_saturates l cost saved h k = (
  record l { spent = saturating_add l.spent cost; saved = saturating_add l.saved saved },
  refl,
  ground arith,
  ground arith,
  ground arith,
)
