-- ===== src/ContextLedger/Loop.antt =====
-- The loop over the items, with the required ones first.
use mathlib.Core.Bool.{false≢true}
use jacu_harness.Base.{
  ℕ, suc, ◌+◌, ◌-◌, ◌≤◌, ◌≡◌, ◌⊎◌, inl, inr, refl, sym, ap, ◌∙◌, true, false, List, [], ◌∷◌, ltb,
  arith, Bool-cases, In, All, if◌then◌else◌,
}
use jacu_harness.Base.Sort.{sort, insert, Sorted, IsLess}
use jacu_harness.Base.Strings.{str_lt-asym, str_lt-trans_not}
use jacu_harness.ContextLedger.{Item, item_before, admit_items}

-- The size of the items, and of the required ones.
abbrev pub total : List Item → ℕ
total [] = 0
total (i ∷ is) = i.bytes + total is

abbrev need : Item → ℕ
need i = if i.required then i.bytes else 0

abbrev pub total_required : List Item → ℕ
total_required [] = 0
total_required (i ∷ is) = need i + total_required is

pub item_before-IsLess : IsLess item_before
unfolding item_before
item_before-IsLess = record {
  asym = λ a b h. ground (arith, str_lt-asym a.path b.path);
  trans_not = λ a b c h k. ground (arith, str_lt-trans_not a.path b.path c.path);
}

total_required-insert :
    (x : Item) (l : List Item) → total_required (insert item_before x l) ≡ need x + total_required l
unfolding insert
total_required-insert x [] = refl
total_required-insert x (y ∷ l) = elim (Bool-cases (item_before y x)) [
  | inl t ↦ rw t (omega (arith, total_required-insert x l))
  | inr t ↦ rw t refl
]

pub total_required-sort : (l : List Item) → total_required (sort item_before l) ≡ total_required l
unfolding sort
total_required-sort [] = refl
total_required-sort (x ∷ l) =
    total_required-insert x (sort item_before l) ∙ ap (λ n. need x + n) (total_required-sort l)

-- The three ways of one round.
admit-stops :
    (n : ℕ) (i : Item) (l : List Item)
    → ltb n i.bytes ≡ true
    → i.required ≡ true
    → admit_items n (i ∷ l) ≡ record { stopped = true; left = n; taken = []; dropped = 0 }
unfolding admit_items
admit-stops n i l t r = ground arith

admit-drops :
    (n : ℕ) (i : Item) (l : List Item)
    → ltb n i.bytes ≡ true
    → i.required ≡ false
    → admit_items n (i ∷ l) ≡ record (admit_items n l) { dropped = suc (admit_items n l).dropped }
unfolding admit_items
admit-drops n i l t r = ground arith

admit-takes :
    (n : ℕ) (i : Item) (l : List Item)
    → ltb n i.bytes ≡ false
    → admit_items n (i ∷ l)
      ≡ record (admit_items (n - i.bytes) l) { taken = i ∷ (admit_items (n - i.bytes) l).taken }
unfolding admit_items
admit-takes n i l t = ground arith

-- What goes out and what is left make up the budget.
pub total-admit_items :
    (n : ℕ) (l : List Item) → total (admit_items n l).taken + (admit_items n l).left ≡ n
unfolding admit_items
total-admit_items n [] = omega arith
total-admit_items n (i ∷ l) = elim (Bool-cases (ltb n i.bytes)) [
  | inl t ↦ elim (Bool-cases i.required) [
    | inl r ↦ rw (admit-stops n i l t r) (omega arith)
    | inr r ↦ rw (admit-drops n i l t r) (total-admit_items n l)
  ]
  | inr t ↦
      let rest = total-admit_items (n - i.bytes) l in
      let fits : i.bytes ≤ n = ground arith in rw (admit-takes n i l t) (omega arith)
]

abbrev IsOptional : Item → Type 0
IsOptional i = i.required ≡ false

optional_behind : (i j : Item) → i.required ≡ false → item_before j i ≡ false → j.required ≡ false
unfolding item_before
optional_behind i j o h = ground arith

optional_never_stops :
    (n : ℕ) (l : List Item) → All IsOptional l → (admit_items n l).stopped ≡ false
unfolding admit_items
optional_never_stops n [] o = refl
optional_never_stops n (i ∷ l) o = elim (Bool-cases (ltb n i.bytes)) [
  | inl t ↦ rw (admit-drops n i l t o.0) (optional_never_stops n l o.1)
  | inr t ↦ rw (admit-takes n i l t) (optional_never_stops (n - i.bytes) l o.1)
]

optional_total : (l : List Item) → All IsOptional l → total_required l ≡ 0
optional_total [] o = refl
optional_total (i ∷ l) o = let rest = optional_total l o.1 in rw (o.0, rest) refl

All-behind :
    (i : Item) (l : List Item)
    → i.required ≡ false
    → All (λ j. item_before j i ≡ false) l
    → All IsOptional l
All-behind i [] o a = tt
All-behind i (j ∷ l) o a = (optional_behind i j o a.0, All-behind i l o a.1)

-- With the required items first, the loop stops exactly if they do not fit.
pub stops_iff :
    (n : ℕ) (l : List Item)
    → Sorted item_before l
    → (admit_items n l).stopped ≡ ltb n (total_required l)
unfolding admit_items
stops_iff n [] s = ground arith
stops_iff n (i ∷ l) s = elim (Bool-cases i.required) [
  | inl r ↦ elim (Bool-cases (ltb n i.bytes)) [
    | inl t ↦ rw (admit-stops n i l t r) (ground arith)
    | inr t ↦ rw (admit-takes n i l t) (stops_iff (n - i.bytes) l s.1 ∙ ground arith)
  ]
  | inr r ↦
      let o = All-behind i l r s.0 in
      optional_never_stops n (i ∷ l) (r, o) ∙ sym (rw (r, optional_total l o) (ground arith))
]

-- If the loop goes through, every required item goes out.
pub required_taken :
    (n : ℕ) (l : List Item) (i : Item)
    → (admit_items n l).stopped ≡ false
    → In i l
    → i.required ≡ true
    → In i (admit_items n l).taken
unfolding admit_items
required_taken n [] i h m r = m
required_taken n (x ∷ l) i h m r = elim (Bool-cases (ltb n x.bytes)) [
  | inl t ↦ elim (Bool-cases x.required) [
    | inl q ↦ absurd (false≢true (sym h ∙ ap (λ a. a.stopped) (admit-stops n x l t q)))
    | inr q ↦
        let rest = required_taken n l i (rw (admit-drops n x l t q) at h) in
        rw (admit-drops n x l t q) (rest (behind m q) r)
  ]
  | inr t ↦
      let rest = required_taken (n - x.bytes) l i (rw (admit-takes n x l t) at h) in
      rw (admit-takes n x l t) (here_or m rest)
]
  where
    behind : (i ≡ x) ⊎ In i l → x.required ≡ false → In i l
    behind (inl e) q = absurd (false≢true (sym q ∙ ap (λ a. a.required) (sym e) ∙ r))
    behind (inr j) q = j

    here_or :
        (i ≡ x) ⊎ In i l
        → (In i l → i.required ≡ true → In i (admit_items (n - x.bytes) l).taken)
        → (i ≡ x) ⊎ In i (admit_items (n - x.bytes) l).taken
    here_or (inl e) rest = inl e
    here_or (inr j) rest = inr (rest j r)
