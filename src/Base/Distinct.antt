-- ===== src/Base/Distinct.antt =====
-- Lists without repetition, and `contains` through the operations on lists.
use jacu_harness.Base.{
  ℕ, suc, ◌≤◌, ◌≡◌, refl, ap, ◌∙◌, String, Bool, true, false, ◌||◌, List, [], ◌∷◌, ◌++◌, arith,
  eq_iff, if◌then◌else◌, ◌==◌, String-comparable, Bool-cases, inl, inr, contains, length,
}
use jacu_harness.Base.Sort.{sort, insert}

abbrev pub Distinct : List String → Type 0
Distinct [] = Unit
Distinct (x ∷ xs) = (contains xs x ≡ false) × Distinct xs

pub contains-append :
    (xs ys : List String) (a : String) → contains (xs ++ ys) a ≡ contains xs a || contains ys a
contains-append [] ys a = refl
contains-append (x ∷ xs) ys a = ground (arith, contains-append xs ys a)

pub Distinct-append_one :
    (xs : List String) (a : String) → Distinct xs → contains xs a ≡ false → Distinct (xs ++ a ∷ [])
Distinct-append_one [] a d h = (refl, tt)
Distinct-append_one (x ∷ xs) a d h = (
  ground (arith, contains-append xs (a ∷ []) x, eq_iff a x, eq_iff x a),
  Distinct-append_one xs a d.1 (ground arith),
)

module _ (lt : String → String → Bool) where
  contains-insert :
      (x : String) (l : List String) (a : String)
      → contains (insert lt x l) a ≡ x == a || contains l a
  unfolding insert
  contains-insert x [] a = refl
  contains-insert x (y ∷ l) a = ground (arith, contains-insert x l a)

  pub contains-sort : (l : List String) (a : String) → contains (sort lt l) a ≡ contains l a
  unfolding sort
  contains-sort [] a = refl
  contains-sort (x ∷ l) a = ground (arith, contains-insert x (sort lt l) a, contains-sort l a)

  insert-Distinct :
      (x : String) (l : List String) → Distinct l → contains l x ≡ false → Distinct (insert lt x l)
  unfolding insert
  insert-Distinct x [] d h = (refl, tt)
  insert-Distinct x (y ∷ l) d h = elim (Bool-cases (lt y x)) [
    | inl t ↦ rw t (
      ground (arith, contains-insert x l y, eq_iff x y, eq_iff y x),
      insert-Distinct x l d.1 (ground arith),
    )
    | inr t ↦ rw t (h, d)
  ]

  pub sort-Distinct : (l : List String) → Distinct l → Distinct (sort lt l)
  unfolding sort
  sort-Distinct [] d = tt
  sort-Distinct (x ∷ l) d =
      insert-Distinct x (sort lt l) (sort-Distinct l d.1) (contains-sort l x ∙ d.0)

-- How many of the ids are not in the list.
abbrev pub missing : List String → List String → ℕ
missing l [] = 0
missing l (i ∷ ids) = let rest = missing l ids in if contains l i then rest else suc rest

pub missing-absent :
    (l ids : List String) (a : String)
    → contains ids a ≡ false
    → missing (l ++ a ∷ []) ids ≡ missing l ids
missing-absent l [] a h = refl
missing-absent l (i ∷ ids) a h =
    ground (arith, contains-append l (a ∷ []) i, eq_iff a i, eq_iff i a, missing-absent l ids a)

-- One more element of the ids.
pub missing-step :
    (l ids : List String) (a : String)
    → Distinct ids
    → contains ids a ≡ true
    → contains l a ≡ false
    → suc (missing (l ++ a ∷ []) ids) ≡ missing l ids
missing-step l [] a d h k = absurd (ground arith)
missing-step l (i ∷ ids) a d h k = ground (
  arith,
  contains-append l (a ∷ []) i,
  eq_iff a i,
  eq_iff i a,
  missing-absent l ids a,
  missing-step l ids a d.1,
)

pub missing_none : (ids : List String) → missing [] ids ≡ length ids
missing_none [] = refl
missing_none (i ∷ ids) = ap suc (missing_none ids)

pub missing_zero :
    (l ids : List String) (a : String)
    → missing l ids ≡ 0
    → contains ids a ≡ true
    → contains l a ≡ true
missing_zero l [] a h k = absurd (ground arith)
missing_zero l (i ∷ ids) a h k = ground (arith, eq_iff i a, missing_zero l ids a)

pub missing_some :
    (l ids : List String)
    → 1 ≤ missing l ids
    → (a : String) × (contains ids a ≡ true) × (contains l a ≡ false)
missing_some l [] h = absurd (omega arith)
missing_some l (i ∷ ids) h = elim (Bool-cases (contains l i)) [
  | inr t ↦ (i, ground (arith, eq_iff i i), t)
  | inl t ↦ let (a, p, q) = missing_some l ids (ground arith) in (a, ground arith, q)
]
