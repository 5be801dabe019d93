-- ===== src/Scope/Disjoint.antt =====
-- Scope lists that do not conflict cover no path in common.
use Prim.Native.Char.{Char}
use Prim.Native.String.{◌++◌ as str_append}
use text.Mathlib.TextLemmas.{nil-append, cons-append, head-eq_of_cons-eq, tail-eq_of_cons-eq}
use jacu_harness.Base.{
  ◌≡◌, refl, sym, subst, ap, ◌∙◌, inl, inr, String, Bool, true, false, ◌||◌, List, arith, eq_iff,
  Bool-cases, any, In,
}
use mathlib.Core.Bool.{false≢true}
use jacu_harness.Base.Strings.{is_empty, after_prefix-append}
use jacu_harness.Scope.{is_nil, normalize_scope, dir_prefix, pair_conflicts, lists_conflict}
use jacu_harness.Scope.Lists.{In-any}

-- The directory `d` is the path, or the path lies below it.
pub data Covers (d path : String) : Type 0 where
  itself : path ≡ d → Covers d path
  below : (rest : String) → path ≡ str_append d (str_append "/" rest) → Covers d path

abbrev under : String → String → String
under d rest = str_append d (str_append "/" rest)

dir_prefix-under : (d rest : String) → is_empty d ≡ false → dir_prefix d (under d rest) ≡ true
unfolding dir_prefix
dir_prefix-under d rest h = rw (h, after_prefix-append d (str_append "/" rest), cons-append) refl

data Related (d e : String) : Type 0 where
  same : d ≡ e → Related d e
  right_below : (z : String) → e ≡ under d z → Related d e
  left_below : (z : String) → d ≡ under e z → Related d e

Related-cons : (c : Char) {d e : String} → Related d e → Related (String.◌∷◌ c d) (String.◌∷◌ c e)
Related-cons c (same p) = same (ap (String.◌∷◌ c) p)
Related-cons c {d} {e} (right_below z p) =
    right_below z (rw (cons-append c d) (ap (String.◌∷◌ c) p))
Related-cons c {d} {e} (left_below z p) = left_below z (rw (cons-append c e) (ap (String.◌∷◌ c) p))

abbrev slash : Char
slash = "/"

slash-append : (z : String) → str_append "/" z ≡ String.◌∷◌ slash z
slash-append z = cons-append slash "" z ∙ ap (String.◌∷◌ slash) (nil-append z)

under-nil : (x : String) → under "" x ≡ String.◌∷◌ slash x
under-nil x = nil-append (str_append "/" x) ∙ slash-append x

under-cons : (c : Char) (d x : String) → under (String.◌∷◌ c d) x ≡ String.◌∷◌ c (under d x)
under-cons c d x = cons-append c d (str_append "/" x)

-- The one directory that a text with a slash first lies below is the empty one.
cons_under_nil :
    (c : Char) (e x y : String)
    → under "" x ≡ under (String.◌∷◌ c e) y
    → String.◌∷◌ c e ≡ under "" e
cons_under_nil c e x y h =
    let heads : slash ≡ c = head-eq_of_cons-eq (sym (under-nil x) ∙ h ∙ under-cons c e y) in
    ap (λ k. String.◌∷◌ k e) (sym heads) ∙ sym (under-nil e)

Related-of_common : (d e x y : String) → under d x ≡ under e y → Related d e
Related-of_common String.[] String.[] x y h = same refl
Related-of_common String.[] (String.◌∷◌ c e) x y h = right_below e (cons_under_nil c e x y h)
Related-of_common (String.◌∷◌ c d) String.[] x y h = left_below d (cons_under_nil c d y x (sym h))
Related-of_common (String.◌∷◌ c d) (String.◌∷◌ b e) x y h =
    let equal = sym (under-cons c d x) ∙ h ∙ under-cons b e y in
    let heads : c ≡ b = head-eq_of_cons-eq equal in
    subst (λ k. Related (String.◌∷◌ c d) (String.◌∷◌ k e)) heads
      (Related-cons c (Related-of_common d e x y (tail-eq_of_cons-eq equal)))

Covers-Related : (d e path : String) → Covers d path → Covers e path → Related d e
Covers-Related d e path (itself p) (itself q) = same (sym p ∙ q)
Covers-Related d e path (itself p) (below y q) = left_below y (sym p ∙ q)
Covers-Related d e path (below x p) (itself q) = right_below x (sym q ∙ p)
Covers-Related d e path (below x p) (below y q) = Related-of_common d e x y (sym p ∙ q)

Related-conflicts :
    (l r : String)
    → is_empty (normalize_scope l) ≡ false
    → is_empty (normalize_scope r) ≡ false
    → Related (normalize_scope l) (normalize_scope r)
    → pair_conflicts l r ≡ true
unfolding pair_conflicts
Related-conflicts l r hl hr (same p) =
    ground (arith, eq_iff (normalize_scope l) (normalize_scope r))
Related-conflicts l r hl hr (right_below z p) =
    ground (arith, p, dir_prefix-under (normalize_scope l) z hl)
Related-conflicts l r hl hr (left_below z p) =
    ground (arith, p, dir_prefix-under (normalize_scope r) z hr)

tests_false :
    (a b c d : Bool) → (a || (b || (c || d))) ≡ false → (b ≡ false) × (c ≡ false) × (d ≡ false)
tests_false a b c d h = ground arith

any-false :
    (f : String → Bool) (xs : List String) (a : String) → any f xs ≡ false → In a xs → f a ≡ false
any-false f xs a h i = elim (Bool-cases (f a)) [
  | inl t ↦ absurd (false≢true (sym h ∙ In-any f xs a i t))
  | inr t ↦ t
]

-- Two scope lists that do not conflict name disjoint directory trees: no path is the normalized
-- scope of an entry on each side, or lies below both.
pub lists_conflict-disjoint :
    (left right : List String) (l r path : String)
    → lists_conflict left right ≡ false
    → In l left
    → In r right
    → Covers (normalize_scope l) path
    → ¬ Covers (normalize_scope r) path
unfolding lists_conflict
lists_conflict-disjoint left right l r path h i j p q =
    let (ls, rs, pairs) = tests_false (is_nil left || is_nil right) _ _ _ h in
    let free =
      any-false (pair_conflicts l) right r
        (any-false (λ x. any (pair_conflicts x) right) left l pairs i) j in
    false≢true (
      sym free
      ∙ Related-conflicts l r (any-false (λ raw. is_empty (normalize_scope raw)) left l ls i)
          (any-false (λ raw. is_empty (normalize_scope raw)) right r rs j)
          (Covers-Related (normalize_scope l) (normalize_scope r) path p q))
