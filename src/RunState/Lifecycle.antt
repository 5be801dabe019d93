-- ===== src/RunState/Lifecycle.antt =====
-- The moves that a status may make, and that `Transition` allows exactly these.
use jacu_harness.Base.{◌≡◌, ◌⊎◌, inl, inr, String, ok, err, arith, eq_iff}
use jacu_harness.RunState.{
  status_open, status_reviewed, status_applied, status_discarded, status_corrupted,
  invalid_transition, transition,
}

-- One move of a status.
pub data Moves (from to : String) : Type 0 where
  stays : to ≡ from → Moves from to
  reviews : from ≡ status_open → to ≡ status_reviewed → Moves from to
  applies : from ≡ status_reviewed → to ≡ status_applied → Moves from to
  discards :
      (from ≡ status_open) ⊎ (from ≡ status_reviewed) ⊎ (from ≡ status_corrupted)
      → to ≡ status_discarded
      → Moves from to
  corrupts : to ≡ status_corrupted → Moves from to

abbrev Allowed : String → String → Type 0
Allowed s n =
    (n ≡ s)
    ⊎ ((s ≡ status_open) × (n ≡ status_reviewed))
    ⊎ ((s ≡ status_reviewed) × (n ≡ status_applied))
    ⊎ (((s ≡ status_open) ⊎ (s ≡ status_reviewed) ⊎ (s ≡ status_corrupted))
        × (n ≡ status_discarded))
    ⊎ (n ≡ status_corrupted)

Allowed-Moves : {s n : String} → Allowed s n → Moves s n
Allowed-Moves (inl e) = stays e
Allowed-Moves (inr (inl (e, f))) = reviews e f
Allowed-Moves (inr (inr (inl (e, f)))) = applies e f
Allowed-Moves (inr (inr (inr (inl (e, f))))) = discards e f
Allowed-Moves (inr (inr (inr (inr e)))) = corrupts e

Moves-Allowed : {s n : String} → Moves s n → Allowed s n
Moves-Allowed (stays e) = inl e
Moves-Allowed (reviews e f) = inr (inl (e, f))
Moves-Allowed (applies e f) = inr (inr (inl (e, f)))
Moves-Allowed (discards e f) = inr (inr (inr (inl (e, f))))
Moves-Allowed (corrupts e) = inr (inr (inr (inr e)))

transition-Allowed :
    (s n : String)
    → (Allowed s n × (transition s n ≡ ok n))
      ⊎ ((¬ Allowed s n) × (transition s n ≡ err (invalid_transition s n)))
unfolding transition
transition-Allowed s n = ground (
  arith,
  eq_iff s n,
  eq_iff n status_corrupted,
  eq_iff s status_open,
  eq_iff s status_reviewed,
  eq_iff s status_corrupted,
  eq_iff n status_reviewed,
  eq_iff n status_applied,
  eq_iff n status_discarded,
)

-- `Transition` gives the new status exactly for the moves of the lifecycle: to the same status, to
-- corrupted from any, open to reviewed, reviewed to applied, and open, reviewed or corrupted to
-- discarded. For any other pair of texts it gives the error that names the two.
pub transition_decides :
    (s n : String)
    → (Moves s n × (transition s n ≡ ok n))
      ⊎ ((¬ Moves s n) × (transition s n ≡ err (invalid_transition s n)))
transition_decides s n = elim (transition-Allowed s n) [
  | inl (a, e) ↦ inl (Allowed-Moves a, e)
  | inr (a, e) ↦ inr (λ m. a (Moves-Allowed m), e)
]

pub transition-Moves : (s n t : String) → transition s n ≡ ok t → Moves s n
transition-Moves s n t h = elim (transition_decides s n) [ inl (m, e) ↦ m | inr (m, e) ↦ cc ]

pub Moves-transition : (s n : String) → Moves s n → transition s n ≡ ok n
Moves-transition s n m = elim (transition_decides s n) [
  | inl (k, e) ↦ e
  | inr (k, e) ↦ absurd (k m)
]
