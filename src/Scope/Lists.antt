-- ===== src/Scope/Lists.antt =====
-- Which scope lists may share a wave.
use jacu_harness.Base.{
  ◌≡◌, refl, sym, subst, ◌∙◌, inl, inr, String, Bool, true, List, [], ◌∷◌, arith, eq_iff,
  Bool-cases, any, In, String-comparable,
}
use mathlib.Core.Bool.{false≢true}
use jacu_harness.Scope.{normalize_scope, pair_conflicts, lists_conflict}

pair_conflicts_comm : (l r : String) → pair_conflicts l r ≡ pair_conflicts r l
unfolding pair_conflicts
pair_conflicts_comm l r = ground (
  arith,
  eq_iff (normalize_scope l) (normalize_scope r),
  eq_iff (normalize_scope r) (normalize_scope l),
)

module _ {A : Type 0} (f : A → Bool) where
  pub any-In : (xs : List A) → any f xs ≡ true → (a : A) × In a xs × (f a ≡ true)
  any-In [] h = cc
  any-In (x ∷ xs) h = elim (Bool-cases (f x)) [
    | inl t ↦ (x, inl refl, t)
    | inr t ↦ let (a, i, e) = any-In xs (rw t at h) in (a, inr i, e)
  ]

  pub In-any : (xs : List A) (a : A) → In a xs → f a ≡ true → any f xs ≡ true
  In-any [] a i e = elim i [ ]
  In-any (x ∷ xs) a (inl s) e = rw (subst (λ y. f y ≡ true) s e) refl
  In-any (x ∷ xs) a (inr i) e = elim (Bool-cases (f x)) [
    | inl t ↦ rw t refl
    | inr t ↦ rw t (In-any xs a i e)
  ]

any_pairs_comm :
    (left right : List String)
    → any (λ l. any (pair_conflicts l) right) left ≡ any (λ l. any (pair_conflicts l) left) right
any_pairs_comm left right = elim (Bool-cases (any (λ l. any (pair_conflicts l) right) left)) [
  | inl t ↦ t ∙ sym (turned left right t)
  | inr t ↦ elim (Bool-cases (any (λ l. any (pair_conflicts l) left) right)) [
    | inl u ↦ absurd (false≢true (sym t ∙ turned right left u))
    | inr u ↦ t ∙ sym u
  ]
]
  where
    turned :
        (xs ys : List String)
        → any (λ l. any (pair_conflicts l) ys) xs ≡ true
        → any (λ l. any (pair_conflicts l) xs) ys ≡ true
    turned xs ys h =
        let (x, i, e) = any-In (λ l. any (pair_conflicts l) ys) xs h in
        let (y, j, d) = any-In (pair_conflicts x) ys e in
        In-any (λ l. any (pair_conflicts l) xs) ys y j
          (In-any (pair_conflicts y) xs x i (pair_conflicts_comm y x ∙ d))

-- Whether two scope lists conflict does not depend on which is named first.
pub lists_conflict_comm :
    (left right : List String) → lists_conflict left right ≡ lists_conflict right left
unfolding lists_conflict
lists_conflict_comm left right = ground (arith, any_pairs_comm left right)
