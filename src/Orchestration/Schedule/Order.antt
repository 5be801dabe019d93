-- ===== src/Orchestration/Schedule/Order.antt =====
-- The order of the nodes: what every round keeps, and where the rounds end.
pub mod Rounds
use mathlib.Core.Bool.{false≢true}
use jacu_harness.Base.{
  ℕ, suc, ◌+◌, ◌-◌, ◌≤◌, ◌≡◌, refl, sym, ap, ◌∙◌, subst, String, Bool, true, false, not, ◌&&◌, ◌||◌,
  List, [], ◌∷◌, ◌++◌, arith, eq_iff, eq_refl, if◌then◌else◌, ◌==◌, String-comparable, ℕ-comparable,
  Bool-cases, inl, inr, contains, length, length-append,
}
use jacu_harness.Base.Distinct.{
  Distinct, contains-append, Distinct-append_one, contains-sort, sort-Distinct, missing,
  missing-step,
}
use jacu_harness.Base.Sort.{sort}
use jacu_harness.Base.Strings.{str_lt}
use jacu_harness.Orchestration.Schedule.{
  Link, has_link, successors_of, Linked, Sorting, release, take_ready,
}
use jacu_harness.Orchestration.Schedule.Links.{
  DistinctLinks, open_in, IsCounted, open_in-step, contains-successors, successors-Distinct,
}
use jacu_harness.Orchestration.Schedule.Release.{Released, release-Released}

-- Each node behind all of its predecessors.
abbrev pub Topological : List Link → List String → List String → Type 0
Topological links seen [] = Unit
Topological links seen (x ∷ xs) =
    ((u : String) → has_link links u x ≡ true → contains seen u ≡ true)
    × Topological links (x ∷ seen) xs

Topological-append_one :
    (links : List Link) (seen xs : List String) (y : String)
    → Topological links seen xs
    → ((u : String) → has_link links u y ≡ true → contains seen u || contains xs u ≡ true)
    → Topological links seen (xs ++ y ∷ [])
Topological-append_one links seen [] y t h = (λ u k. ground (arith, h u), tt)
Topological-append_one links seen (x ∷ xs) y t h =
    (t.0, Topological-append_one links (x ∷ seen) xs y t.1 (λ u k. ground (arith, h u)))

pub record IsSorting (ids : List String) (links : List Link) (s : Sorting) : Type 0 where
  pub order_distinct : Distinct s.order
  pub ready_distinct : Distinct s.ready
  pub apart : (x : String) → contains s.order x ≡ true → contains s.ready x ≡ false
  pub known : (x : String) → contains s.order x ≡ true → contains ids x ≡ true
  pub ready_known : (x : String) → contains s.ready x ≡ true → contains ids x ≡ true
  pub counts : (x : String) → s.degree x ≡ open_in s.order links x
  pub zero_iff :
      (x : String)
      → contains ids x ≡ true
      → (s.degree x == 0) ≡ contains s.order x || contains s.ready x
  pub topological : Topological links [] s.order
  pub size : length s.order + missing s.order ids ≡ length ids

open_in_zero :
    (order : List String) (ls : List Link) (u x : String)
    → open_in order ls x ≡ 0
    → has_link ls u x ≡ true
    → contains order u ≡ true
unfolding has_link
open_in_zero order [] u x h k = absurd (ground arith)
open_in_zero order (l ∷ ls) u x h k =
    ground (arith, open_in_zero order ls u x, eq_iff l.source u, eq_iff l.target x)

module _ (ids : List String) (g : Linked) (c : IsCounted ids g) (d : Distinct ids) where
  -- The facts of one round: `id` is the first of the ready nodes, `rest` the others.
  module _ (s : Sorting) (i : IsSorting ids g.links s) (id : String) (rest : List String)
      (first : sort str_lt s.ready ≡ id ∷ rest) where
    abbrev before : Sorting
    before = record { degree = s.degree; ready = rest; order = s.order ++ id ∷ [] }

    abbrev nexts : List String
    nexts = sort str_lt (successors_of g.links id)

    abbrev after : Sorting
    after = release nexts before

    ready_is : (x : String) → contains s.ready x ≡ id == x || contains rest x
    ready_is x = sym (contains-sort str_lt s.ready x) ∙ ap (λ l. contains l x) first

    nexts_is : (x : String) → contains nexts x ≡ has_link g.links id x
    nexts_is x =
        contains-sort str_lt (successors_of g.links id) x ∙ contains-successors g.links id x

    split_ready : Distinct (id ∷ rest)
    split_ready = subst Distinct first (sort-Distinct str_lt s.ready i.ready_distinct)

    id_ready : contains s.ready id ≡ true
    id_ready = ground (arith, ready_is id, eq_refl id)

    id_new : contains s.order id ≡ false
    id_new = ground (arith, i.apart id, id_ready)

    id_zero : s.degree id ≡ 0
    id_zero = ground (arith, i.zero_iff id (i.ready_known id id_ready), id_ready)

    degree_splits :
        (x : String)
        → s.degree x
          ≡ (if has_link g.links id x then 1 else 0) + open_in (s.order ++ id ∷ []) g.links x
    degree_splits x = i.counts x ∙ open_in-step s.order g.links id x c.distinct id_new

    linked_positive : (x : String) → has_link g.links id x ≡ true → 1 ≤ s.degree x
    linked_positive x h = ground (arith, degree_splits x)

    linked_waits :
        (x : String)
        → has_link g.links id x ≡ true
        → contains s.order x || contains s.ready x ≡ false
    linked_waits x h = ground (arith, linked_positive x h, i.zero_iff x (c.target_known id x h))

    released : Released nexts before after
    released =
        release-Released nexts before
          (sort-Distinct str_lt (successors_of g.links id)
            (successors-Distinct g.links id c.distinct))
          split_ready.1 (λ x h. ground (arith, nexts_is x, linked_waits x, ready_is x))

    counted : (x : String) → after.degree x ≡ open_in (s.order ++ id ∷ []) g.links x
    counted x = ground (arith, released.degree x, nexts_is x, degree_splits x)

    ready_after :
        (x : String)
        → contains after.ready x ≡ contains rest x || (has_link g.links id x && after.degree x == 0)
    ready_after x =
        released.ready x ∙ ap (λ b. contains rest x || (b && after.degree x == 0)) (nexts_is x)

    in_order : (x : String) → contains (s.order ++ id ∷ []) x ≡ contains s.order x || id == x
    in_order x = ground (arith, contains-append s.order (id ∷ []) x)

    apart_after :
        (x : String) → contains (s.order ++ id ∷ []) x ≡ true → contains after.ready x ≡ false
    apart_after x h = elim (Bool-cases (id == x)) [
      | inl t ↦
          let e : id ≡ x = (eq_iff id x).0 t in
          subst (λ k. contains after.ready k ≡ false) e
            (ground (arith, ready_after id, split_ready.0, linked_positive id, id_zero))
      | inr t ↦ ground (arith, in_order x, ready_after x, ready_is x, i.apart x, linked_waits x)
    ]

    known_after : (x : String) → contains (s.order ++ id ∷ []) x ≡ true → contains ids x ≡ true
    known_after x h = ground (arith, in_order x, i.known x, ready_is x, i.ready_known x)

    ready_known_after : (x : String) → contains after.ready x ≡ true → contains ids x ≡ true
    ready_known_after x h =
        ground (arith, ready_after x, ready_is x, i.ready_known x, c.target_known id x)

    zero_after :
        (x : String)
        → contains ids x ≡ true
        → (after.degree x == 0) ≡ contains (s.order ++ id ∷ []) x || contains after.ready x
    zero_after x k = ground (
      arith,
      in_order x,
      ready_after x,
      ready_is x,
      i.zero_iff x k,
      linked_waits x,
      counted x,
      degree_splits x,
    )

    round-IsSorting : IsSorting ids g.links after
    round-IsSorting = record {
      order_distinct = rw released.order (Distinct-append_one s.order id i.order_distinct id_new);
      ready_distinct = released.distinct;
      apart = λ x h. apart_after x (rw released.order at h);
      known = λ x h. known_after x (rw released.order at h);
      ready_known = ready_known_after;
      counts = λ x. rw released.order (counted x);
      zero_iff = λ x k. rw released.order (zero_after x k);
      topological = rw released.order (
          Topological-append_one g.links [] s.order id i.topological (λ u h.
            ground (arith, open_in_zero s.order g.links u id (sym (i.counts id) ∙ id_zero) h)));
      size = rw released.order sized;
    }
      where
        sized : length (s.order ++ id ∷ []) + missing (s.order ++ id ∷ []) ids ≡ length ids
        sized = ground (
          arith,
          length-append s.order (id ∷ []),
          missing-step s.order ids id d (i.ready_known id id_ready) id_new,
          i.size,
        )
