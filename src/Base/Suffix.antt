-- ===== src/Base/Suffix.antt =====
-- What `before_suffix` finds: the text in front of a suffix, exactly where there is one.
use Prim.Native.String.{◌++◌ as str_append}
use text.Mathlib.TextLemmas.{nil-append, cons-append}
use jacu_harness.Base.{
  ◌≡◌, ◌≢◌, sym, ap, ◌∙◌, String, true, false, none, some, arith, eq_iff, Bool-cases, Option-cases,
  inl, inr, ◌==◌, String-comparable,
}
use jacu_harness.Base.Strings.{before_suffix, has_suffix, trim_suffix}

before_suffix-eq-some : (p s r : String) → before_suffix p s ≡ some r → s ≡ str_append r p
unfolding before_suffix
before_suffix-eq-some p String.[] r h = elim (Bool-cases (p == "")) [
  | inl t ↦
      let e : r ≡ "" = ground arith in
      sym ((eq_iff p "").0 t) ∙ sym (nil-append p) ∙ ap (λ x. str_append x p) (sym e)
  | inr t ↦ absurd (ground arith)
]
before_suffix-eq-some p (String.◌∷◌ c s) r h = elim (Bool-cases (p == String.◌∷◌ c s)) [
  | inl t ↦
      let e : r ≡ "" = ground arith in
      sym ((eq_iff p (String.◌∷◌ c s)).0 t) ∙ sym (nil-append p) ∙ ap (λ x. str_append x p) (sym e)
  | inr t ↦ elim (Option-cases (before_suffix p s)) [
    | inl n ↦ absurd (ground arith)
    | inr (q, f) ↦
        let e : r ≡ String.◌∷◌ c q = ground arith in
        ap (λ x. String.◌∷◌ c x) (before_suffix-eq-some p s q f)
        ∙ sym (cons-append c q p)
        ∙ ap (λ x. str_append x p) (sym e)
  ]
]

before_suffix-eq-none : (p s r : String) → before_suffix p s ≡ none → s ≢ str_append r p
unfolding before_suffix
before_suffix-eq-none p String.[] String.[] h e =
    let same : "" ≡ p = e ∙ nil-append p in ground (arith, eq_iff p "")
before_suffix-eq-none p String.[] (String.◌∷◌ d r) h e =
    let same : "" ≡ String.◌∷◌ d (str_append r p) = e ∙ cons-append d r p in cc
before_suffix-eq-none p (String.◌∷◌ c s) String.[] h e =
    let same : String.◌∷◌ c s ≡ p = e ∙ nil-append p in ground (arith, eq_iff p (String.◌∷◌ c s))
before_suffix-eq-none p (String.◌∷◌ c s) (String.◌∷◌ d r) h e =
    let same : String.◌∷◌ c s ≡ String.◌∷◌ d (str_append r p) = e ∙ cons-append d r p in
    let tail : s ≡ str_append r p = cc in
    let here : before_suffix p s ≡ none = ground arith in before_suffix-eq-none p s r here tail

pub has_suffix-split : (s p : String) → has_suffix s p ≡ true → s ≡ str_append (trim_suffix s p) p
unfolding has_suffix trim_suffix
has_suffix-split s p h = elim (Option-cases (before_suffix p s)) [
  | inl e ↦ absurd (ground arith)
  | inr (r, e) ↦ rw (e, trim_suffix) (before_suffix-eq-some p s r e)
]

pub has_suffix-none :
    (s p : String) → has_suffix s p ≡ false → ¬ ((r : String) × (s ≡ str_append r p))
unfolding has_suffix
has_suffix-none s p h (r, e) = elim (Option-cases (before_suffix p s)) [
  | inl n ↦ before_suffix-eq-none p s r n e
  | inr (q, f) ↦ ground arith
]
