-- ===== src/MissionCompile.antt =====
-- internal/capability/missioncompile: the risk and the ceremony of a mission (risk.go, ceremony.go).
-- The tables of Unicode behind `strings.ToLower`, `unicode.IsLetter` and `unicode.IsNumber` are an
-- argument.
pub mod Hints
mod Tests
use Prim.Native.Char.{code}
use jacu_harness.Base.{
  ℕ, String, Bool, true, false, not, ◌&&◌, ◌||◌, List, [], ◌∷◌, if◌then◌else◌, ◌==◌, ℕ-comparable,
  String-comparable, ltb, leb, contains, any, length,
}
use jacu_harness.Base.Paths.{onto_head}

pub record Unicode : Type 0 where
  pub to_lower : String → String
  pub is_word_char : ℕ → Bool

-- `MissionInput`, the fields that are read here; `has_program` says that `Program` is not nil.
pub record MissionInput : Type 0 where
  pub objective : String
  pub acceptance_criteria : List String
  pub verification_commands : List (List String)
  pub allowed_paths : List String
  pub risk_hint : String
  pub has_program : Bool

unfoldable pub risk_tier : String → ℕ
risk_tier risk =
    if risk == "safe"
    then 1
    else if risk == "write"
    then 2
    else if risk == "destructive"
    then 3
    else 0

abbrev pub destructive_verbs : List String
destructive_verbs =
    "remove" ∷ "delete" ∷ "drop" ∷ "truncate" ∷ "purge" ∷ "wipe" ∷ "clean" ∷ "cleanup" ∷ "clear"
    ∷ "prune" ∷ "reset" ∷ "remover" ∷ "apagar" ∷ "excluir" ∷ "deletar" ∷ "limpar" ∷ "zerar"
    ∷ "resetar" ∷ "podar" ∷ []

abbrev pub mutation_verbs : List String
mutation_verbs =
    "add" ∷ "create" ∷ "fix" ∷ "refactor" ∷ "rename" ∷ "update" ∷ "change" ∷ "implement" ∷ "migrate"
    ∷ "adicionar" ∷ "corrigir" ∷ "criar" ∷ "refatorar" ∷ "renomear" ∷ "atualizar" ∷ "alterar"
    ∷ "implementar" ∷ []

starts_word : (ℕ → Bool) → String → Bool
starts_word keep String.[] = false
starts_word keep (String.◌∷◌ c s) = keep (code c)

-- `strings.FieldsFunc`, with the characters of words
unfoldable pub words_of : (ℕ → Bool) → String → List String
unfolding starts_word
words_of keep String.[] = []
words_of keep (String.◌∷◌ c s) =
    let rest = words_of keep s in
    if not (keep (code c))
    then rest
    else if starts_word keep s
    then onto_head (String.◌∷◌ c "") rest
    else String.◌∷◌ c "" ∷ rest

unfoldable pub objective_words : Unicode → String → List String
unfolding words_of
objective_words unicode objective = words_of unicode.is_word_char (unicode.to_lower objective)

abbrev pub contains_any : List String → List String → Bool
contains_any words verbs = any (contains verbs) words

abbrev pub is_none : {A : Type 0} → List A → Bool
is_none [] = true
is_none (x ∷ xs) = false

unfoldable pub derived_risk : Unicode → MissionInput → String
derived_risk unicode input =
    let words = objective_words unicode input.objective in
    if contains_any words destructive_verbs
    then "destructive"
    else if contains_any words mutation_verbs || not (is_none input.allowed_paths)
    then "write"
    else if not (is_none input.verification_commands)
    then "write"
    else "safe"

unfoldable pub effective_risk : String → String → String
effective_risk derived hint = if ltb (risk_tier derived) (risk_tier hint) then hint else derived

abbrev pub ceremony_verbs : List String
ceremony_verbs =
    "add" ∷ "create" ∷ "fix" ∷ "refactor" ∷ "remove" ∷ "rename" ∷ "adicionar" ∷ "corrigir" ∷ "criar"
    ∷ "refatorar" ∷ "remover" ∷ "renomear" ∷ []

unfoldable pub has_mutation_verb : Unicode → String → Bool
has_mutation_verb unicode objective =
    contains_any (objective_words unicode objective) ceremony_verbs

-- each text once
unfoldable pub distinct_of : List String → List String
distinct_of [] = []
distinct_of (x ∷ xs) = let rest = distinct_of xs in if contains rest x then rest else x ∷ rest

-- A path that is everything ends the loop before the paths are counted.
unfoldable pub has_broad_allowed_paths : List String → Bool
unfolding distinct_of
has_broad_allowed_paths paths =
    any (λ p. p == "." || p == "**") paths || leb 3 (length (distinct_of paths))

unfoldable pub classify_ceremony : Unicode → MissionInput → String
classify_ceremony unicode input =
    let risk = effective_risk (derived_risk unicode input) input.risk_hint in
    if input.has_program
    then "full"
    else if is_none input.allowed_paths
        && (is_none input.verification_commands
            && (risk == "safe" && not (has_mutation_verb unicode input.objective)))
    then "direct"
    else if risk == "destructive"
        || (leb 3 (length input.acceptance_criteria) || has_broad_allowed_paths input.allowed_paths)
    then "full"
    else "light"
