-- ===== src/Orchestration/Condition/Closed.antt =====
-- The conditions that the language has, and how each is written.
use Prim.Native.String.{◌++◌ as str_append}
use jacu_harness.Base.{
  ◌≡◌, inl, inr, refl, String, true, false, List, [], ◌∷◌, ok, arith, eq_iff, In, contains-In, ◌==◌,
  String-comparable, Bool-cases, subst, sym, ap, ◌∙◌, if◌then◌else◌,
}
use jacu_harness.Base.Strings.{is_space, trim_space}
use jacu_harness.Orchestration.Condition.{
  ParsedCondition, verify_verdicts, policy_values, fields, parse_parts, parse_condition,
}

pub data IsCondition : ParsedCondition → Type 0 where
  by_default : IsCondition (record { field = ""; value = ""; is_default = true })
  on_verdict :
      (v : String)
      → In v verify_verdicts
      → IsCondition (record { field = "verdict"; value = v; is_default = false })
  on_policy :
      (v : String)
      → In v policy_values
      → IsCondition (record { field = "policy"; value = v; is_default = false })

-- A condition as a flow writes it.
pub spelled : ParsedCondition → String
spelled c = if c.is_default then "default" else str_append c.field (str_append " == " c.value)

carried : (c d : ParsedCondition) → c ≡ d → IsCondition d → IsCondition c
carried c d e i = subst IsCondition (sym e) i

parse_parts-IsCondition :
    (parts : List String) (c : ParsedCondition) → parse_parts parts ≡ ok c → IsCondition c
unfolding parse_parts
parse_parts-IsCondition [] c h = absurd (ground arith)
parse_parts-IsCondition (f ∷ []) c h = absurd (ground arith)
parse_parts-IsCondition (f ∷ o ∷ []) c h = absurd (ground arith)
parse_parts-IsCondition (f ∷ o ∷ v ∷ x ∷ l) c h = absurd (ground arith)
parse_parts-IsCondition (f ∷ o ∷ v ∷ []) c h =
    let same : c ≡ record { field = f; value = v; is_default = false } = ground arith in
    elim (Bool-cases (f == "verdict")) [
      | inl t ↦
          let e : f ≡ "verdict" = (eq_iff f "verdict").0 t in
          let i = contains-In verify_verdicts v (ground arith) in
          carried c (record { field = "verdict"; value = v; is_default = false })
            (same ∙ ap (λ x. record { field = x; value = v; is_default = false }) e)
            (on_verdict v i)
      | inr t ↦
          let e : f ≡ "policy" = (eq_iff f "policy").0 (ground arith) in
          let p : (f == "policy") ≡ true = (eq_iff f "policy").1 e in
          let i = contains-In policy_values v (ground arith) in
          carried c (record { field = "policy"; value = v; is_default = false })
            (same ∙ ap (λ x. record { field = x; value = v; is_default = false }) e) (on_policy v i)
    ]

-- The words in which a condition is written.
abbrev pub words_in : ParsedCondition → List String
words_in c = if c.is_default then "default" ∷ [] else c.field ∷ "==" ∷ c.value ∷ []

parse_parts-words :
    (parts : List String) (c : ParsedCondition) → parse_parts parts ≡ ok c → parts ≡ words_in c
unfolding parse_parts
parse_parts-words [] c h = absurd (ground arith)
parse_parts-words (f ∷ []) c h = absurd (ground arith)
parse_parts-words (f ∷ o ∷ []) c h = absurd (ground arith)
parse_parts-words (f ∷ o ∷ v ∷ x ∷ l) c h = absurd (ground arith)
parse_parts-words (f ∷ o ∷ v ∷ []) c h =
    let same : c ≡ record { field = f; value = v; is_default = false } = ground arith in
    let equals : (o == "==") ≡ true = ground arith in
    subst (λ (d : ParsedCondition). (f ∷ o ∷ v ∷ []) ≡ words_in d) (sym same)
      (ap (λ x. f ∷ x ∷ v ∷ []) ((eq_iff o "==").0 equals))

default_word : fields "default" ≡ "default" ∷ []
unfolding fields is_space
default_word = refl

-- A text that is accepted is read as one of the conditions of the closed language: default, a verdict
-- of the verify contract, or a policy of the policy contract; and, its white space apart, it is
-- written as that condition is: the word default, or the field, `==` and the value.
pub parse_condition-IsCondition :
    (raw : String) (c : ParsedCondition)
    → parse_condition raw ≡ ok c
    → IsCondition c × (fields (trim_space raw) ≡ words_in c)
unfolding parse_condition
parse_condition-IsCondition raw c h = elim (Bool-cases (trim_space raw == "default")) [
  | inl t ↦
      let same : c ≡ record { field = ""; value = ""; is_default = true } = ground arith in
      (
        subst IsCondition (sym same) by_default,
        ap fields ((eq_iff (trim_space raw) "default").0 t) ∙ default_word ∙ sym (ap words_in same),
      )
  | inr t ↦
      let read : parse_parts (fields (trim_space raw)) ≡ ok c = ground arith in
      (
        parse_parts-IsCondition (fields (trim_space raw)) c read,
        parse_parts-words (fields (trim_space raw)) c read,
      )
]

-- Every condition of the closed language is read back from its spelling.
pub parse_condition-spelled :
    (c : ParsedCondition) → IsCondition c → parse_condition (spelled c) ≡ ok c
unfolding parse_condition spelled parse_parts fields trim_space
parse_condition-spelled c by_default = refl
parse_condition-spelled c (on_verdict v (inl e)) = rw e refl
parse_condition-spelled c (on_verdict v (inr (inl e))) = rw e refl
parse_condition-spelled c (on_verdict v (inr (inr (inl e)))) = rw e refl
parse_condition-spelled c (on_verdict v (inr (inr (inr (inl e))))) = rw e refl
parse_condition-spelled c (on_verdict v (inr (inr (inr (inr (inl e)))))) = rw e refl
parse_condition-spelled c (on_policy v (inl e)) = rw e refl
parse_condition-spelled c (on_policy v (inr (inl e))) = rw e refl
parse_condition-spelled c (on_policy v (inr (inr (inl e)))) = rw e refl
parse_condition-spelled c (on_policy v (inr (inr (inr (inl e))))) = rw e refl
parse_condition-spelled c (on_verdict v (inr (inr (inr (inr (inr i)))))) = elim i [ ]
parse_condition-spelled c (on_policy v (inr (inr (inr (inr i))))) = elim i [ ]
