-- ===== src/Orchestration/Schedule/Links.antt =====
-- The links of a flow, and the degrees that count them.
use jacu_harness.Base.{
  ℕ, suc, ◌+◌, ◌≡◌, refl, sym, ◌∙◌, subst, String, true, false, not, ◌&&◌, List, [], ◌∷◌, ◌++◌, ok,
  err, arith, eq_iff, eq_refl, if◌then◌else◌, ◌==◌, String-comparable, ℕ-comparable, Bool-cases,
  ◌⊎◌, inl, inr, contains, In,
}
use jacu_harness.Base.Distinct.{Distinct, contains-append}
use jacu_harness.Orchestration.Flow.{Node, Edge}
use jacu_harness.Orchestration.Schedule.{
  ScheduleError, dangling, first_ids, Link, has_link, successors_of, predecessors_of, Linked,
  link_edge, link_edges,
}

abbrev pub DistinctLinks : List Link → Type 0
DistinctLinks [] = Unit
DistinctLinks (l ∷ ls) = (has_link ls l.source l.target ≡ false) × DistinctLinks ls

-- How many links lead to a node from nodes that are not in the list.
abbrev pub open_in : List String → List Link → String → ℕ
open_in order [] x = 0
open_in order (l ∷ ls) x =
    let rest = open_in order ls x in
    if l.target == x && not (contains order l.source) then suc rest else rest

-- What the loop over the edges keeps.
pub record IsCounted (ids : List String) (g : Linked) : Type 0 where
  pub distinct : DistinctLinks g.links
  pub counts : (x : String) → g.indegree x ≡ open_in [] g.links x
  pub source_known : (u v : String) → has_link g.links u v ≡ true → contains ids u ≡ true
  pub target_known : (u v : String) → has_link g.links u v ≡ true → contains ids v ≡ true

link_edge-IsCounted :
    (ids : List String) (g : Linked) (e : Edge)
    → contains ids e.from ≡ true
    → contains ids e.to ≡ true
    → IsCounted ids g
    → IsCounted ids (link_edge g e)
unfolding link_edge has_link
link_edge-IsCounted ids g e f t c = elim (Bool-cases (has_link g.links e.from e.to)) [
  | inl h ↦ rw h c
  | inr h ↦ rw h (record {
    distinct = (h, c.distinct);
    counts = λ x. ground (arith, eq_iff x e.to, eq_iff e.to x, c.counts x);
    source_known = λ u v k. ground (arith, eq_iff e.from u, c.source_known u v);
    target_known = λ u v k. ground (arith, eq_iff e.to v, c.target_known u v);
  })
]

link_edge_keeps :
    (g : Linked) (e : Edge) (u v : String)
    → has_link g.links u v ≡ true
    → has_link (link_edge g e).links u v ≡ true
unfolding link_edge has_link
link_edge_keeps g e u v h = ground arith

link_edge_adds : (g : Linked) (e : Edge) → has_link (link_edge g e).links e.from e.to ≡ true
unfolding link_edge has_link
link_edge_adds g e = ground (arith, eq_refl e.from, eq_refl e.to)

link_edge_only :
    (g : Linked) (e : Edge) (u v : String)
    → has_link (link_edge g e).links u v ≡ true
    → (has_link g.links u v ≡ true) ⊎ ((e.from ≡ u) × (e.to ≡ v))
unfolding link_edge has_link
link_edge_only g e u v h = ground (arith, eq_iff e.from u, eq_iff e.to v)

-- The edge between two nodes.
pub record Joins (es : List Edge) (u v : String) : Type 0 where
  pub edge : Edge
  pub listed : In edge es
  pub from_u : edge.from ≡ u
  pub to_v : edge.to ≡ v

Joins-tail : {e : Edge} {es : List Edge} {u v : String} → Joins es u v → Joins (e ∷ es) u v
Joins-tail j = record { edge = j.edge; listed = inr j.listed; from_u = j.from_u; to_v = j.to_v }

pub record Reaches (ids : List String) (g : Linked) (es : List Edge) (out : Linked) : Type 0 where
  pub counted : IsCounted ids out
  pub keeps : (u v : String) → has_link g.links u v ≡ true → has_link out.links u v ≡ true
  pub adds : (e : Edge) → In e es → has_link out.links e.from e.to ≡ true
  pub only :
      (u v : String) → has_link out.links u v ≡ true → (has_link g.links u v ≡ true) ⊎ Joins es u v

first_step :
    (ids : List String) (g out : Linked) (e : Edge) (es : List Edge)
    → Reaches ids (link_edge g e) es out
    → Reaches ids g (e ∷ es) out
first_step ids g out e es r = record {
  counted = r.counted;
  keeps = λ u v h. r.keeps u v (link_edge_keeps g e u v h);
  adds = λ d m. added d m;
  only = λ u v h. onward u v (r.only u v h);
}
  where
    added : (d : Edge) → In d (e ∷ es) → has_link out.links d.from d.to ≡ true
    added d (inl q) =
        subst (λ k. has_link out.links k.from k.to ≡ true) (sym q)
          (r.keeps e.from e.to (link_edge_adds g e))
    added d (inr m) = r.adds d m

    onward :
        (u v : String)
        → (has_link (link_edge g e).links u v ≡ true) ⊎ Joins es u v
        → (has_link g.links u v ≡ true) ⊎ Joins (e ∷ es) u v
    onward u v (inr j) = inr (Joins-tail j)
    onward u v (inl h) = elim (link_edge_only g e u v h) [
      | inl k ↦ inl k
      | inr (p, q) ↦ inr (record { edge = e; listed = inl refl; from_u = p; to_v = q })
    ]

pub link_edges-Reaches :
    (ids : List String) (g out : Linked) (es : List Edge)
    → IsCounted ids g
    → link_edges ids g es ≡ ok out
    → Reaches ids g es out
unfolding link_edges
link_edges-Reaches ids g out [] c h =
    subst (Reaches ids g []) (ground arith)
      (record { counted = c; keeps = λ u v k. k; adds = λ e m. elim m [ ]; only = λ u v k. inl k })
link_edges-Reaches ids g out (e ∷ es) c h =
    let from_known : contains ids e.from ≡ true = ground arith in
    let to_known : contains ids e.to ≡ true = ground arith in
    first_step ids g out e es (
      link_edges-Reaches ids (link_edge g e) out es
        (link_edge-IsCounted ids g e from_known to_known c) (ground arith))

pub no_links-IsCounted :
    (ids : List String) → IsCounted ids (record { links = []; indegree = λ x. 0 })
unfolding has_link
no_links-IsCounted ids = record {
  distinct = tt;
  counts = λ x. refl;
  source_known = λ u v h. absurd (ground arith);
  target_known = λ u v h. absurd (ground arith);
}

-- A dangling edge is reported only if there is one.
pub link_edges_error :
    (ids : List String) (g : Linked) (es : List Edge) (x : ScheduleError)
    → link_edges ids g es ≡ err x
    → (e : Edge) × In e es
      × (x ≡ dangling e.from e.to)
      × ((contains ids e.from ≡ false) ⊎ (contains ids e.to ≡ false))
unfolding link_edges
link_edges_error ids g [] x h = absurd (ground arith)
link_edges_error ids g (e ∷ es) x h = elim (Bool-cases (contains ids e.from)) [
  | inr f ↦ (e, inl refl, ground arith, inl f)
  | inl f ↦ elim (Bool-cases (contains ids e.to)) [
    | inr t ↦ (e, inl refl, ground arith, inr t)
    | inl t ↦
        let (d, m, q, b) = link_edges_error ids (link_edge g e) es x (ground arith) in
        (d, inr m, q, b)
  ]
]

pub first_ids-Distinct : (seen : List String) (ns : List Node) → Distinct (first_ids seen ns)
unfolding first_ids
first_ids-Distinct seen [] = tt
first_ids-Distinct seen (n ∷ ns) = elim (Bool-cases (contains seen n.id)) [
  | inl t ↦ rw t (first_ids-Distinct (n.id ∷ seen) ns)
  | inr t ↦ rw t (
    unseen (n.id ∷ seen) ns n.id (ground (arith, eq_refl n.id)),
    first_ids-Distinct (n.id ∷ seen) ns,
  )
]
  where
    unseen :
        (s : List String) (ms : List Node) (a : String)
        → contains s a ≡ true
        → contains (first_ids s ms) a ≡ false
    unseen s [] a h = refl
    unseen s (m ∷ ms) a h = ground (arith, eq_iff m.id a, unseen (m.id ∷ s) ms a)

-- One more node in the order closes its link.
pub open_in-step :
    (order : List String) (ls : List Link) (id x : String)
    → DistinctLinks ls
    → contains order id ≡ false
    → open_in order ls x ≡ (if has_link ls id x then 1 else 0) + open_in (order ++ id ∷ []) ls x
unfolding has_link
open_in-step order [] id x d h = refl
open_in-step order (l ∷ ls) id x d h = ground (
  arith,
  contains-append order (id ∷ []) l.source,
  eq_iff id l.source,
  eq_iff l.source id,
  eq_iff l.target x,
  open_in-step order ls id x d.1,
)

pub contains-successors :
    (ls : List Link) (id x : String) → contains (successors_of ls id) x ≡ has_link ls id x
unfolding successors_of has_link
contains-successors [] id x = refl
contains-successors (l ∷ ls) id x = ground (arith, contains-successors ls id x)

pub contains-predecessors :
    (ls : List Link) (id x : String) → contains (predecessors_of ls id) x ≡ has_link ls x id
unfolding predecessors_of has_link
contains-predecessors [] id x = refl
contains-predecessors (l ∷ ls) id x = ground (arith, contains-predecessors ls id x)

pub successors-Distinct :
    (ls : List Link) (id : String) → DistinctLinks ls → Distinct (successors_of ls id)
unfolding successors_of
successors-Distinct [] id d = tt
successors-Distinct (l ∷ ls) id d = elim (Bool-cases (l.source == id)) [
  | inl t ↦
      let e : l.source ≡ id = (eq_iff l.source id).0 t in
      rw t (
        contains-successors ls id l.target ∙ subst (λ k. has_link ls k l.target ≡ false) e d.0,
        successors-Distinct ls id d.1,
      )
  | inr t ↦ rw t (successors-Distinct ls id d.1)
]
