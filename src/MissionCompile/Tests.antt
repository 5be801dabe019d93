-- ===== src/MissionCompile/Tests.antt =====
-- Missions, their risk and ceremony, and the theorems about hints applied there.
use jacu_harness.Base.{false, ◌≡◌, ◌≤◌, refl, max, ◌&&◌, leb, [], arith}
use jacu_harness.MissionCompile.{
  Unicode, MissionInput, risk_tier, derived_risk, effective_risk, classify_ceremony, words_of,
  objective_words, has_mutation_verb, has_broad_allowed_paths, distinct_of,
}
use jacu_harness.MissionCompile.Hints.{ceremony_rank, effective_risk_tier, classify_ceremony_mono}

-- Texts of small letters.
abbrev small_letters : Unicode
small_letters = record { to_lower = λ s. s; is_word_char = λ c. leb b'a' c && leb c b'z' }

abbrev small_fix : MissionInput
small_fix = record {
  objective = "explain, then fix it";
  acceptance_criteria = [];
  verification_commands = [];
  allowed_paths = [];
  risk_hint = "";
  has_program = false;
}

fix_writes : derived_risk small_letters small_fix ≡ "write"
unfolding derived_risk objective_words words_of
fix_writes = refl

fix_is_light : classify_ceremony small_letters small_fix ≡ "light"
unfolding classify_ceremony derived_risk effective_risk risk_tier objective_words words_of
    has_mutation_verb has_broad_allowed_paths distinct_of
fix_is_light = refl

-- A purge counts as destructive whatever the hint says.
purge_is_full :
    classify_ceremony small_letters
      (record small_fix { objective = "purge logs"; risk_hint = "safe" })
    ≡ "full"
unfolding classify_ceremony derived_risk effective_risk risk_tier objective_words words_of
    has_mutation_verb has_broad_allowed_paths distinct_of
purge_is_full = refl

-- An unknown hint changes nothing: a read-only mission stays direct.
banana_is_direct :
    classify_ceremony small_letters
      (record small_fix { objective = "explain it"; risk_hint = "banana" })
    ≡ "direct"
unfolding classify_ceremony derived_risk effective_risk risk_tier objective_words words_of
    has_mutation_verb has_broad_allowed_paths distinct_of
banana_is_direct = refl

hints_ordered : risk_tier "nonsense" ≤ risk_tier "destructive"
unfolding risk_tier
hints_ordered = omega arith

classify_ceremony_mono_example :
    ceremony_rank (classify_ceremony small_letters (record small_fix { risk_hint = "nonsense" }))
    ≤ ceremony_rank
        (classify_ceremony small_letters (record small_fix { risk_hint = "destructive" }))
classify_ceremony_mono_example =
    classify_ceremony_mono small_letters small_fix "nonsense" "destructive" hints_ordered

effective_risk_tier_example :
    (1 ≤ risk_tier (effective_risk (derived_risk small_letters small_fix) "safe"))
    × (risk_tier (effective_risk (derived_risk small_letters small_fix) "safe")
        ≡ max (risk_tier (derived_risk small_letters small_fix)) (risk_tier "safe"))
    × (risk_tier "safe" ≡ 0
        → effective_risk (derived_risk small_letters small_fix) "safe"
          ≡ derived_risk small_letters small_fix)
effective_risk_tier_example = effective_risk_tier small_letters small_fix "safe"
