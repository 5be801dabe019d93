-- ===== src/Orchestration/Schedule/Waves.antt =====
-- Putting the nodes of an order into waves.
pub mod Put
pub mod Sound
use jacu_harness.Base.{
  ℕ, zero, suc, ◌<◌, ◌≡◌, ◌≢◌, String, Bool, true, false, ◌||◌, List, [], ◌∷◌, contains,
  String-comparable, All,
}
use jacu_harness.Base.Distinct.{Distinct}
use jacu_harness.Scope.{lists_conflict}

abbrev pub in_waves : List (List String) → String → Bool
in_waves [] x = false
in_waves (w ∷ ws) x = contains w x || in_waves ws x

-- No node twice, in one wave or in two.
abbrev pub DistinctWaves : List (List String) → Type 0
DistinctWaves [] = Unit
DistinctWaves (w ∷ ws) =
    Distinct w × ((x : String) → contains w x ≡ true → in_waves ws x ≡ false) × DistinctWaves ws

-- The node stands in the wave of the index.
abbrev pub AtWave : List (List String) → ℕ → String → Type 0
AtWave [] i x = ⊥
AtWave (w ∷ ws) zero x = contains w x ≡ true
AtWave (w ∷ ws) (suc i) x = AtWave ws i x

-- No two nodes of a wave may write to the same paths.
abbrev pub FreeWave : (String → List String) → List String → Type 0
FreeWave paths w =
    (a b : String)
    → contains w a ≡ true
    → contains w b ≡ true
    → a ≢ b
    → lists_conflict (paths a) (paths b) ≡ false
