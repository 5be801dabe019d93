-- ===== src/Orchestration/Validation/Edging.antt =====
-- What the loop over the edges leaves when it found nothing.
use jacu_harness.Base.{
  ◌≡◌, ◌≢◌, refl, sym, ap, ◌∙◌, subst, String, true, List, [], ◌∷◌, ◌++◌, Option, none, some,
  Result, ok, err, arith, eq_iff, String-comparable, inl, inr, ◌⊎◌, In, append-In, In-append_left,
  In-append_right,
}
use jacu_harness.Base.Assoc.{find}
use jacu_harness.Base.Strings.{trim_space}
use jacu_harness.Orchestration.Flow.{Node, Edge}
use jacu_harness.Orchestration.Condition.{ParsedCondition, ConditionError, parse_condition}
use jacu_harness.Orchestration.Validation.{
  Finding, NodeMap, Edged, condition_findings, read_condition, join_ends, check_ends, check_edges,
  trimmed,
}
use jacu_harness.Orchestration.Validation.Nodes.{append_nil, only_if_nil}

-- An edge between two nodes, with a condition that is read, that asks a verdict only of a verify node
-- and lets an apply node run neither on `not_run` nor by default behind a verify node.
pub record IsSafeEdge (nodes : NodeMap) (e : Edge) : Type 0 where
  pub from_node : Node
  pub to_node : Node
  pub condition : ParsedCondition
  pub from_found : find nodes (trim_space e.from) ≡ some from_node
  pub to_found : find nodes (trim_space e.to) ≡ some to_node
  pub parsed : parse_condition e.condition ≡ ok condition
  pub verdict_of_verify : ¬ ((condition.field ≡ "verdict") × (from_node.uses ≢ "verify"))
  pub no_apply_unrun :
      ¬ ((condition.field ≡ "verdict") × (condition.value ≡ "not_run") × (to_node.uses ≡ "apply"))
  pub no_apply_by_default :
      ¬ ((condition.is_default ≡ true) × (from_node.uses ≡ "verify") × (to_node.uses ≡ "apply"))

-- One edge, when it adds no finding: it is safe, and its condition is noted under its source.
pub record Passes (m : NodeMap) (s : Edged) (e : Edge) (out : Edged) : Type 0 where
  pub before : s.findings ≡ []
  pub safe : IsSafeEdge m e
  pub noted : out.outgoing ≡ s.outgoing ++ (trim_space e.from, safe.condition) ∷ []

join_ends_outgoing : (s : Edged) (e : Edge) → (join_ends s e).outgoing ≡ s.outgoing
unfolding join_ends
join_ends_outgoing s e = ground arith

join_ends_findings : (s : Edged) (e : Edge) → (join_ends s e).findings ≡ s.findings
unfolding join_ends
join_ends_findings s e = ground arith

nil_last : (fs : List Finding) (f : Finding) → ¬ (fs ++ f ∷ [] ≡ [])
nil_last [] f h = ground arith
nil_last (g ∷ fs) f h = ground arith

module _ (m : NodeMap) (s : Edged) (e : Edge) where
  Passes-condition :
      (a b : Node) (c : ParsedCondition)
      → find m (trim_space e.from) ≡ some a
      → find m (trim_space e.to) ≡ some b
      → parse_condition e.condition ≡ ok c
      → s.findings ≡ []
      → condition_findings (trim_space e.from) (trim_space e.to) a b c ≡ []
      → (out : Edged) → out.outgoing ≡ s.outgoing ++ (trim_space e.from, c) ∷ []
      → Passes m s e out
  unfolding condition_findings
  Passes-condition a b c fa fb p none_before h out noted =
      let (first, third) = append_nil _ _ h in
      let (one, two) = append_nil _ _ first in
      let no_verdict = only_if_nil _ _ one in
      let no_unrun = only_if_nil _ _ two in
      let no_default = only_if_nil _ _ third in
      record {
        before = none_before;
        safe = record {
          from_node = a;
          to_node = b;
          condition = c;
          from_found = fa;
          to_found = fb;
          parsed = p;
          verdict_of_verify =
              λ (f, u). ground (arith, eq_iff c.field "verdict", eq_iff a.uses "verify");
          no_apply_unrun = λ (f, v, u).
              ground
                (arith, eq_iff c.field "verdict", eq_iff c.value "not_run", eq_iff b.uses "apply");
          no_apply_by_default =
              λ (d, u, v). ground (arith, eq_iff a.uses "verify", eq_iff b.uses "apply");
        };
        noted = noted;
      }

  Passes-read :
      (a b : Node) (r : Result ConditionError ParsedCondition)
      → find m (trim_space e.from) ≡ some a
      → find m (trim_space e.to) ≡ some b
      → parse_condition e.condition ≡ r
      → (read_condition
          (join_ends s (trimmed e))
          (trim_space e.from)
          (trim_space e.to)
          a
          b
          r).findings
        ≡ []
      → Passes m s e
          (read_condition (join_ends s (trimmed e)) (trim_space e.from) (trim_space e.to) a b r)
  unfolding read_condition
  Passes-read a b (err x) fa fb p h = absurd (nil_last _ _ h)
  Passes-read a b (ok c) fa fb p h =
      let (none_before, none_here) = append_nil _ _ h in
      Passes-condition a b c fa fb p (sym (join_ends_findings s (trimmed e)) ∙ none_before)
        none_here _ (ap (λ l. l ++ (trim_space e.from, c) ∷ []) (join_ends_outgoing s (trimmed e)))

  abbrev step : Edged
  step = check_ends s (trimmed e) (find m (trim_space e.from)) (find m (trim_space e.to))

  ends-Passes :
      (a b : Option Node)
      → find m (trim_space e.from) ≡ a
      → find m (trim_space e.to) ≡ b
      → (check_ends s (trimmed e) a b).findings ≡ []
      → Passes m s e (check_ends s (trimmed e) a b)
  unfolding check_ends
  ends-Passes none b fa fb h = absurd (nil_last _ _ h)
  ends-Passes (some a) none fa fb h = absurd (nil_last _ _ h)
  ends-Passes (some a) (some b) fa fb h = Passes-read a b (parse_condition e.condition) fa fb refl h

  step-Passes : step.findings ≡ [] → Passes m s e step
  step-Passes h = ends-Passes (find m (trim_space e.from)) (find m (trim_space e.to)) refl refl h

-- An edge of the list has the source and the condition.
pub record Leaves (es : List Edge) (id : String) (c : ParsedCondition) : Type 0 where
  pub edge : Edge
  pub listed : In edge es
  pub source : trim_space edge.from ≡ id
  pub parsed : parse_condition edge.condition ≡ ok c

pub record AllSafe (m : NodeMap) (s : Edged) (es : List Edge) (out : Edged) : Type 0 where
  pub before : s.findings ≡ []
  pub safe : (e : Edge) → In e es → IsSafeEdge m e
  pub keeps : (p : String × ParsedCondition) → In p s.outgoing → In p out.outgoing
  pub notes : (e : Edge) → In e es → (c : ParsedCondition) × In (trim_space e.from, c) out.outgoing
  pub only :
      (id : String) (c : ParsedCondition)
      → In (id, c) out.outgoing
      → In (id, c) s.outgoing ⊎ Leaves es id c

Leaves-tail :
    {e : Edge} {es : List Edge} {id : String} {c : ParsedCondition}
    → Leaves es id c
    → Leaves (e ∷ es) id c
Leaves-tail l = record {
  edge = l.edge;
  listed = inr l.listed;
  source = l.source;
  parsed = l.parsed;
}

module _ (m : NodeMap) (s : Edged) (e : Edge) (es : List Edge) (out : Edged)
    (p : Passes m s e (step m s e)) (rest : AllSafe m (step m s e) es out) where
  after : (q : String × ParsedCondition) → In q s.outgoing → In q (step m s e).outgoing
  after q i =
      rw p.noted (In-append_left q s.outgoing ((trim_space e.from, p.safe.condition) ∷ []) i)

  here : In (trim_space e.from, p.safe.condition) (step m s e).outgoing
  here = rw p.noted (
      In-append_right (trim_space e.from, p.safe.condition) s.outgoing
        ((trim_space e.from, p.safe.condition) ∷ []) (inl refl))

  safe_all : (d : Edge) → In d (e ∷ es) → IsSafeEdge m d
  safe_all d (inl q) = subst (IsSafeEdge m) (sym q) p.safe
  safe_all d (inr i) = rest.safe d i

  notes_all :
      (d : Edge) → In d (e ∷ es) → (c : ParsedCondition) × In (trim_space d.from, c) out.outgoing
  notes_all d (inl q) =
      (p.safe.condition, rw q (rest.keeps (trim_space e.from, p.safe.condition) here))
  notes_all d (inr i) = rest.notes d i

  abbrev own : String × ParsedCondition
  own = (trim_space e.from, p.safe.condition)

  mine :
      (id : String) (c : ParsedCondition) (q : String × ParsedCondition)
      → q ≡ own
      → q.0 ≡ id
      → q.1 ≡ c
      → Leaves (e ∷ es) id c
  mine id c q same i j = record {
    edge = e;
    listed = inl refl;
    source = ap (λ x. x.0) (sym same) ∙ i;
    parsed = p.safe.parsed ∙ ap ok (ap (λ x. x.1) (sym same) ∙ j);
  }

  only_all :
      (id : String) (c : ParsedCondition)
      → In (id, c) out.outgoing
      → In (id, c) s.outgoing ⊎ Leaves (e ∷ es) id c
  only_all id c i = elim (rest.only id c i) [
    | inr l ↦ inr (Leaves-tail l)
    | inl j ↦
        elim (append-In (id, c) s.outgoing ((trim_space e.from, p.safe.condition) ∷ [])
          (rw p.noted at j)) [
            | inl k ↦ inl k
            | inr (inl q) ↦ inr (mine id c (id, c) q refl refl)
            | inr (inr z) ↦ absurd z
          ]
  ]

  cons-AllSafe : AllSafe m s (e ∷ es) out
  cons-AllSafe = record {
    before = p.before;
    safe = safe_all;
    keeps = λ q i. rest.keeps q (after q i);
    notes = notes_all;
    only = only_all;
  }

pub check_edges-AllSafe :
    (m : NodeMap) (s : Edged) (es : List Edge)
    → (check_edges m s es).findings ≡ []
    → AllSafe m s es (check_edges m s es)
unfolding check_edges
check_edges-AllSafe m s [] h = record {
  before = h;
  safe = λ e i. elim i [ ];
  keeps = λ q i. i;
  notes = λ e i. elim i [ ];
  only = λ id c i. inl i;
}
check_edges-AllSafe m s (e ∷ es) h =
    let rest =
      check_edges-AllSafe m
        (check_ends s (trimmed e) (find m (trim_space e.from)) (find m (trim_space e.to))) es h in
    cons-AllSafe m s e es (check_edges m (step m s e) es) (step-Passes m s e rest.before) rest
