-- ===== src/Orchestration/Schedule/Order/Rounds.antt =====
-- Where the rounds end: with every node in the order, or with nodes that wait for one another.
use mathlib.Core.Bool.{false≢true}
use jacu_harness.Base.{
  ℕ, zero, suc, ◌≤◌, ◌≡◌, ◌≢◌, refl, sym, ap, ◌∙◌, subst, String, Bool, true, false, not, ◌&&◌,
  List, [], ◌∷◌, ◌++◌, arith, eq_iff, eq_refl, ◌==◌, String-comparable, ℕ-comparable, Bool-cases,
  ◌⊎◌, inl, inr, contains, length, length-append, select, ltb,
}
use jacu_harness.Base.Distinct.{
  Distinct, contains-sort, missing, missing_none, missing_zero, missing_some,
}
use jacu_harness.Base.Sort.{sort}
use jacu_harness.Base.Strings.{str_lt}
use jacu_harness.Orchestration.Schedule.{
  Link, has_link, Linked, Sorting, successors_of, take_ready, rounds, starting,
}
use jacu_harness.Orchestration.Schedule.Links.{open_in, IsCounted}
use jacu_harness.Orchestration.Schedule.Release.{release_order}
use jacu_harness.Orchestration.Schedule.Order.{IsSorting, Topological, round-IsSorting}

contains-select :
    (p : String → Bool) (l : List String) (x : String)
    → contains (select p l) x ≡ contains l x && p x
contains-select p [] x = refl
contains-select p (y ∷ l) x = elim (Bool-cases (y == x)) [
  | inl t ↦
      let e : y ≡ x = (eq_iff y x).0 t in
      let same : p y ≡ p x = ap p e in ground (arith, contains-select p l x)
  | inr t ↦ ground (arith, contains-select p l x)
]

select-Distinct : (p : String → Bool) (l : List String) → Distinct l → Distinct (select p l)
select-Distinct p [] d = tt
select-Distinct p (y ∷ l) d = elim (Bool-cases (p y)) [
  | inl t ↦ rw t (ground (arith, contains-select p l y), select-Distinct p l d.1)
  | inr t ↦ rw t (select-Distinct p l d.1)
]

List-cases : (l : List String) → (l ≡ []) ⊎ ((x : String) × (xs : List String) × (l ≡ x ∷ xs))
List-cases [] = inl refl
List-cases (x ∷ xs) = inr (x, xs, refl)

sort_nil : (l : List String) → sort str_lt l ≡ [] → l ≡ []
sort_nil [] h = refl
sort_nil (x ∷ l) h =
    let in_sorted = contains-sort str_lt (x ∷ l) x in
    absurd (false≢true (ap (λ k. contains k x) (sym h) ∙ in_sorted ∙ ground (arith, eq_refl x)))

rounds_done :
    (fuel : ℕ) (links : List Link) (s : Sorting)
    → sort str_lt s.ready ≡ []
    → rounds fuel links s ≡ s
unfolding rounds take_ready
rounds_done zero links s h = refl
rounds_done (suc fuel) links s h =
    let idle : take_ready links s (sort str_lt s.ready) ≡ s = ap (take_ready links s) h in
    ap (rounds fuel links) idle ∙ rounds_done fuel links s h

module _ (ids : List String) (g : Linked) (c : IsCounted ids g) (d : Distinct ids) where
  starting-IsSorting : IsSorting ids g.links (starting ids g)
  starting-IsSorting = record {
    order_distinct = tt;
    ready_distinct = select-Distinct (λ id. g.indegree id == 0) ids d;
    apart = λ x h. absurd (false≢true h);
    known = λ x h. absurd (false≢true h);
    ready_known = λ x h. ground (arith, contains-select (λ id. g.indegree id == 0) ids x);
    counts = c.counts;
    zero_iff = λ x k. ground (arith, contains-select (λ id. g.indegree id == 0) ids x);
    topological = tt;
    size = omega (arith, missing_none ids);
  }

  abbrev Ended : Sorting → Type 0
  Ended k = IsSorting ids g.links k × (k.ready ≡ [])

  -- No more rounds are needed than there are nodes outside the order.
  rounds-IsSorting :
      (fuel : ℕ) (s : Sorting)
      → IsSorting ids g.links s
      → missing s.order ids ≤ fuel
      → Ended (rounds fuel g.links s)
  unfolding rounds take_ready
  rounds-IsSorting zero s i m = elim (List-cases s.ready) [
    | inl e ↦ (i, e)
    | inr (x, xs, e) ↦
        let there : contains s.ready x ≡ true = rw e (ground (arith, eq_refl x)) in
        let placed = missing_zero s.order ids x (omega arith) (i.ready_known x there) in
        absurd (false≢true (sym (i.apart x placed) ∙ there))
  ]
  rounds-IsSorting (suc fuel) s i m = elim (List-cases (sort str_lt s.ready)) [
    | inl e ↦ subst Ended (sym (rounds_done (suc fuel) g.links s e)) (i, sort_nil s.ready e)
    | inr (x, xs, e) ↦
        let j = round-IsSorting ids g c d s i x xs e in
        let taken : (take_ready g.links s (x ∷ xs)).order ≡ s.order ++ x ∷ [] =
          release_order (sort str_lt (successors_of g.links x)) _ in
        let longer = length-append s.order (x ∷ []) in
        let same = ap length taken in
        subst (λ l. Ended (rounds fuel g.links (take_ready g.links s l))) (sym e)
          (rounds-IsSorting fuel (take_ready g.links s (x ∷ xs)) j (omega (arith, i.size, j.size)))
  ]

  abbrev pub sorted_out : Sorting
  sorted_out = rounds (length ids) g.links (starting ids g)

  ends : Ended sorted_out
  ends =
      rounds-IsSorting (length ids) (starting ids g) starting-IsSorting
        (omega (arith, missing_none ids))

  -- With as many in the order as there are nodes, every node is there, behind its predecessors.
  pub order_complete :
      length sorted_out.order ≡ length ids
      → ((x : String) → contains sorted_out.order x ≡ contains ids x)
        × Distinct sorted_out.order
        × Topological g.links [] sorted_out.order
  order_complete h =
      let i = ends.0 in
      (λ x. same i x (Bool-cases (contains ids x)), i.order_distinct, i.topological)
    where
      same :
          IsSorting ids g.links sorted_out
          → (x : String) → (contains ids x ≡ true) ⊎ (contains ids x ≡ false)
          → contains sorted_out.order x ≡ contains ids x
      same i x (inl t) = missing_zero sorted_out.order ids x (omega (arith, i.size)) t ∙ sym t
      same i x (inr t) = ground (arith, i.known x)

  -- The nodes that are left: each has a predecessor among them.
  abbrev pub residual : List String
  residual = select (λ id. ltb 0 (sorted_out.degree id)) ids

  residual_is : (x : String) → contains residual x ≡ contains ids x && ltb 0 (sorted_out.degree x)
  residual_is x = contains-select (λ id. ltb 0 (sorted_out.degree id)) ids x

  pub residual_known : (x : String) → contains residual x ≡ true → contains ids x ≡ true
  residual_known x h = ground (arith, residual_is x)

  pub residual_some :
      length sorted_out.order ≢ length ids → (x : String) × (contains residual x ≡ true)
  residual_some h =
      let i = ends.0 in
      let fits : missing sorted_out.order ids ≢ 0 = λ e. h (omega (arith, i.size)) in
      let (x, known, waits) = missing_some sorted_out.order ids (omega arith) in
      let idle : contains sorted_out.ready x ≡ false = rw ends.1 refl in
      (x, ground (arith, residual_is x, i.zero_iff x known))

  open_some :
      (order : List String) (ls : List Link) (x : String)
      → 1 ≤ open_in order ls x
      → (u : String) × (has_link ls u x ≡ true) × (contains order u ≡ false)
  unfolding has_link
  open_some order [] x h = absurd (omega arith)
  open_some order (l ∷ ls) x h =
      elim (Bool-cases (l.target == x && not (contains order l.source))) [
        | inl t ↦ (l.source, ground (arith, eq_refl l.source), ground arith)
        | inr t ↦ let (u, p, q) = open_some order ls x (ground arith) in (u, ground arith, q)
      ]

  pub residual_waits :
      (x : String)
      → contains residual x ≡ true
      → (u : String) × (has_link g.links u x ≡ true) × (contains residual u ≡ true)
  residual_waits x h =
      let i = ends.0 in
      let (u, link, out) =
        open_some sorted_out.order g.links x (ground (arith, residual_is x, i.counts x)) in
      let idle : contains sorted_out.ready u ≡ false = rw ends.1 refl in
      let known = c.source_known u x link in
      (u, link, ground (arith, residual_is u, i.zero_iff u known))
