-- ===== src/Base/Sort.antt =====
-- Stable insertion sort: what Go's `sort.SliceStable` computes, and what `sort.Slice` and
-- `sort.Strings` compute where the order tells distinct elements apart.
use mathlib.Core.List.{Perm}
use mathlib.Core.List.Perm
use jacu_harness.Base.{
  ◌≡◌, sym, subst, ◌⊎◌, inl, inr, Bool, true, false, List, [], ◌∷◌, if◌then◌else◌, Bool-cases, In,
  All, All-In, All-of_In, arith,
}

-- What `sort` wants of `less`: a strict order in which "not less" is transitive.
pub record IsLess {A : Type 0} (lt : A → A → Bool) : Type 0 where
  pub asym : (a b : A) → lt a b ≡ true → lt b a ≡ false
  pub trans_not : (a b c : A) → lt b a ≡ false → lt c b ≡ false → lt c a ≡ false

module _ {A : Type 0} (lt : A → A → Bool) where
  -- `x` stood before all of the list, so it is put before its equals.
  unfoldable pub insert : A → List A → List A
  insert x [] = x ∷ []
  insert x (y ∷ ys) = let rest = insert x ys in if lt y x then y ∷ rest else x ∷ y ∷ ys

  unfoldable pub sort : List A → List A
  unfolding insert
  sort [] = []
  sort (x ∷ xs) = insert x (sort xs)

  -- No element is less than one that stands before it.
  abbrev pub Sorted : List A → Type 0
  Sorted [] = Unit
  Sorted (x ∷ xs) = All (λ y. lt y x ≡ false) xs × Sorted xs

  pub insert-perm : (x : A) (ys : List A) → Perm (insert x ys) (x ∷ ys)
  unfolding insert
  insert-perm x [] = Perm.refl (x ∷ [])
  insert-perm x (y ∷ ys) = elim (Bool-cases (lt y x)) [
    | inl t ↦ rw t (Perm.trans (Perm.cons y (insert-perm x ys)) (Perm.swap x y ys))
    | inr t ↦ rw t (Perm.refl (x ∷ y ∷ ys))
  ]

  -- Sorting permutes.
  pub sort-perm : (xs : List A) → Perm (sort xs) xs
  unfolding sort
  sort-perm [] = Perm.refl []
  sort-perm (x ∷ xs) = Perm.trans (insert-perm x (sort xs)) (Perm.cons x (sort-perm xs))

  insert-In : (a x : A) (ys : List A) → In a (insert x ys) → (a ≡ x) ⊎ In a ys
  unfolding insert
  insert-In a x [] m = m
  insert-In a x (y ∷ ys) m = ground (arith, insert-In a x ys)

  In-insert : (a x : A) (ys : List A) → (a ≡ x) ⊎ In a ys → In a (insert x ys)
  unfolding insert
  In-insert a x [] m = m
  In-insert a x (y ∷ ys) m = ground (arith, In-insert a x ys)

  pub sort-In : (a : A) (xs : List A) → In a (sort xs) → In a xs
  unfolding sort
  sort-In a [] m = m
  sort-In a (x ∷ xs) m = elim (insert-In a x (sort xs) m) [
    | inl e ↦ inl e
    | inr n ↦ inr (sort-In a xs n)
  ]

  pub In-sort : (a : A) (xs : List A) → In a xs → In a (sort xs)
  unfolding sort
  In-sort a [] m = m
  In-sort a (x ∷ xs) (inl e) = In-insert a x (sort xs) (inl e)
  In-sort a (x ∷ xs) (inr m) = In-insert a x (sort xs) (inr (In-sort a xs m))

module _ {A : Type 0} (lt : A → A → Bool) (o : IsLess lt) where
  insert-All : (P : A → Type 0) (x : A) (ys : List A) → P x → All P ys → All P (insert lt x ys)
  insert-All P x ys h hs = All-of_In P (insert lt x ys) λ a m. from_cases a (insert-In lt a x ys m)
    where
      from_cases : (a : A) → (a ≡ x) ⊎ In a ys → P a
      from_cases a (inl e) = subst P (sym e) h
      from_cases a (inr n) = All-In P ys hs n

  insert-Sorted : (x : A) (ys : List A) → Sorted lt ys → Sorted lt (insert lt x ys)
  unfolding insert
  insert-Sorted x [] s = (tt, tt)
  insert-Sorted x (y ∷ ys) s = elim (Bool-cases (lt y x)) [
    | inl t ↦
        rw t (insert-All (λ z. lt z y ≡ false) x ys (o.asym y x t) s.0, insert-Sorted x ys s.1)
    | inr t ↦ rw t (
      (
        t,
        All-of_In (λ z. lt z x ≡ false) ys
            λ a m. o.trans_not x y a t (All-In (λ z. lt z y ≡ false) ys s.0 m),
      ),
      s,
    )
  ]

  -- The result is sorted.
  pub sort-Sorted : (xs : List A) → Sorted lt (sort lt xs)
  unfolding sort
  sort-Sorted [] = tt
  sort-Sorted (x ∷ xs) = insert-Sorted x (sort lt xs) (sort-Sorted xs)
