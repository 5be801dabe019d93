-- ===== src/Base/Strings.antt =====
-- Go's package `strings` and the order of texts. Go compares bytes; UTF-8 keeps the order of code
-- points, so the comparison here is by code points.
use Prim.Native.Char.{code}
use text.Mathlib.TextEquality.{Char-path}
use text.Mathlib.TextLemmas.{nil-append, cons-append}
use Prim.Native.String.{◌++◌ as str_append}
use jacu_harness.Base.{
  ℕ, ◌≡◌, refl, Bool, true, false, ◌&&◌, ◌||◌, String, arith, ltb, leb, nat_beq, if◌then◌else◌,
  Option, none, some, Option-cases, inl, inr, ◌↔◌, ◌==◌, ℕ-comparable, String-comparable,
}
use jacu_harness.Base.Sort.{IsLess}

-- `s < t`
unfoldable pub str_lt : String → String → Bool
str_lt String.[] String.[] = false
str_lt String.[] (String.◌∷◌ d t) = true
str_lt (String.◌∷◌ c s) String.[] = false
str_lt (String.◌∷◌ c s) (String.◌∷◌ d t) =
    ltb (code c) (code d) || (nat_beq (code c) (code d) && str_lt s t)

pub str_lt-asym : (s t : String) → str_lt s t ≡ true → str_lt t s ≡ false
unfolding str_lt
str_lt-asym String.[] String.[] h = refl
str_lt-asym String.[] (String.◌∷◌ d t) h = refl
str_lt-asym (String.◌∷◌ c s) String.[] h = cc
str_lt-asym (String.◌∷◌ c s) (String.◌∷◌ d t) h = ground (arith, str_lt-asym s t)

pub str_lt-trans_not :
    (s t u : String) → str_lt t s ≡ false → str_lt u t ≡ false → str_lt u s ≡ false
unfolding str_lt
str_lt-trans_not String.[] String.[] u h k = k
str_lt-trans_not String.[] (String.◌∷◌ d t) String.[] h k = refl
str_lt-trans_not String.[] (String.◌∷◌ d t) (String.◌∷◌ e u) h k = refl
str_lt-trans_not (String.◌∷◌ c s) String.[] u h k = cc
str_lt-trans_not (String.◌∷◌ c s) (String.◌∷◌ d t) String.[] h k = cc
str_lt-trans_not (String.◌∷◌ c s) (String.◌∷◌ d t) (String.◌∷◌ e u) h k =
    ground (arith, str_lt-trans_not s t u)

pub str_lt_total : (s t : String) → str_lt s t ≡ false → str_lt t s ≡ false → s ≡ t
unfolding str_lt
str_lt_total String.[] String.[] h k = refl
str_lt_total String.[] (String.◌∷◌ d t) h k = cc
str_lt_total (String.◌∷◌ c s) String.[] h k = cc
str_lt_total (String.◌∷◌ c s) (String.◌∷◌ d t) h k =
    let p : code c ≡ code d = ground arith in
    let q : s ≡ t = str_lt_total s t (ground arith) (ground arith) in cc (Char-path c d p)

pub str_lt-IsLess : IsLess str_lt
str_lt-IsLess = record { asym = str_lt-asym; trans_not = str_lt-trans_not }

-- `unicode.IsSpace`
unfoldable pub is_space : ℕ → Bool
is_space c =
    c == 9
    || (c == 10
        || (c == 11
            || (c == 12
                || (c == 13
                    || (c == 32
                        || (c == 0x85
                            || (c == 0xa0
                                || (c == 0x1680
                                    || ((leb 0x2000 c && leb c 0x200a)
                                        || (c == 0x2028
                                            || (c == 0x2029
                                                || (c == 0x202f
                                                    || (c == 0x205f || c == 0x3000)))))))))))))

abbrev pub is_empty : String → Bool
is_empty String.[] = true
is_empty (String.◌∷◌ c s) = false

unfoldable pub trim_left : String → String
unfolding is_space
trim_left String.[] = ""
trim_left (String.◌∷◌ c s) =
    let rest = trim_left s in if is_space (code c) then rest else String.◌∷◌ c s

unfoldable pub trim_right : String → String
unfolding is_space
trim_right String.[] = ""
trim_right (String.◌∷◌ c s) =
    let rest = trim_right s in if is_space (code c) && is_empty rest then "" else String.◌∷◌ c rest

-- `strings.TrimSpace`
unfoldable pub trim_space : String → String
unfolding trim_left trim_right
trim_space s = trim_right (trim_left s)

-- What stands behind a prefix: `strings.CutPrefix`.
unfoldable pub after_prefix : String → String → Option String
after_prefix String.[] s = some s
after_prefix (String.◌∷◌ c p) String.[] = none
after_prefix (String.◌∷◌ c p) (String.◌∷◌ d s) =
    let rest = after_prefix p s in if code c == code d then rest else none

abbrev pub is_some {ℓ} : {A : Type ℓ} → Option A → Bool
is_some none = false
is_some (some a) = true

-- `strings.HasPrefix(s, p)`
unfoldable pub has_prefix : String → String → Bool
unfolding after_prefix
has_prefix s p = is_some (after_prefix p s)

-- `strings.TrimPrefix(s, p)`
unfoldable pub trim_prefix : String → String → String
unfolding after_prefix
trim_prefix s p = elim (after_prefix p s) [ none ↦ s | some rest ↦ rest ]

-- The text before a suffix: `strings.CutSuffix`.
unfoldable pub before_suffix : String → String → Option String
before_suffix p String.[] = if p == "" then some "" else none
before_suffix p (String.◌∷◌ c s) =
    let rest = before_suffix p s in
    if p == String.◌∷◌ c s
    then some ""
    else elim rest [ none ↦ none | some r ↦ some (String.◌∷◌ c r) ]

-- `strings.HasSuffix(s, p)`
unfoldable pub has_suffix : String → String → Bool
unfolding before_suffix
has_suffix s p = is_some (before_suffix p s)

-- `strings.TrimSuffix(s, p)`
unfoldable pub trim_suffix : String → String → String
unfolding before_suffix
trim_suffix s p = elim (before_suffix p s) [ none ↦ s | some rest ↦ rest ]

-- A prefix is found exactly in front of what follows it.
pub after_prefix-append : (p r : String) → after_prefix p (str_append p r) ≡ some r
unfolding after_prefix
after_prefix-append String.[] r = rw nil-append
after_prefix-append (String.◌∷◌ c p) r =
    rw (cons-append c p r) (ground (arith, after_prefix-append p r))

pub after_prefix-eq-some : (p s r : String) → after_prefix p s ≡ some r → s ≡ str_append p r
unfolding after_prefix
after_prefix-eq-some String.[] s r h = rw nil-append (ground arith)
after_prefix-eq-some (String.◌∷◌ c p) String.[] r h = cc
after_prefix-eq-some (String.◌∷◌ c p) (String.◌∷◌ d s) r h =
    let same : code c ≡ code d = ground arith in
    let rest : s ≡ str_append p r = after_prefix-eq-some p s r (ground arith) in
    rw (cons-append c p r) (cc (Char-path c d same))

pub has_prefix_iff :
    (s p : String) → (has_prefix s p ≡ true) ↔ ((r : String) × (s ≡ str_append p r))
unfolding has_prefix
has_prefix_iff s p = (
  λ h. elim (Option-cases (after_prefix p s)) [
    | inl e ↦ absurd (ground arith)
    | inr (r, e) ↦ (r, after_prefix-eq-some p s r e)
  ],
  λ (r, e). rw (e, after_prefix-append p r) refl,
)

trim_space_test : trim_space "  a b\t\n" ≡ "a b"
unfolding trim_space
trim_space_test = refl

trim_suffix_test : trim_suffix "docs//" "/" ≡ "docs/"
unfolding trim_suffix
trim_suffix_test = refl

has_prefix_test : has_prefix "run_ab" "run_" ≡ true
unfolding has_prefix
has_prefix_test = refl
