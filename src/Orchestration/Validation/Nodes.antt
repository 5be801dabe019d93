-- ===== src/Orchestration/Validation/Nodes.antt =====
-- What the loop over the nodes leaves when it found nothing.
use jacu_harness.Base.{
  ◌≡◌, refl, sym, subst, String, Bool, true, false, ◌||◌, List, [], ◌∷◌, ◌++◌, Option, none, some,
  arith, eq_refl, String-comparable, Bool-cases, inl, inr, contains, In,
}
use jacu_harness.Base.Assoc.{find}
use jacu_harness.Base.Int.{pos, ◌≤ℤ◌}
use jacu_harness.Base.Strings.{is_empty, trim_space}
use jacu_harness.Orchestration.Flow.{Node}
use jacu_harness.Orchestration.Validation.{
  Finding, only_if, NodeMap, known_uses, named_cli, valid_lane, found, node_findings, check_node,
  check_nodes,
}

pub append_nil : (xs ys : List Finding) → xs ++ ys ≡ [] → (xs ≡ []) × (ys ≡ [])
append_nil [] ys h = (refl, h)
append_nil (x ∷ xs) ys h = absurd (ground arith)

pub only_if_nil : (b : Bool) (f : Finding) → only_if b f ≡ [] → b ≡ false
unfolding only_if
only_if_nil b f h = ground arith

pub find-append :
    {V : Type 0} (m : List (String × V)) (id key : String) (v w : V)
    → find m key ≡ some w
    → find (m ++ (id, v) ∷ []) key ≡ some w
unfolding find
find-append [] id key v w h = absurd (ground arith)
find-append ((k, u) ∷ m) id key v w h = ground (arith, find-append m id key v w)

pub find-append_new :
    {V : Type 0} (m : List (String × V)) (id : String) (v : V)
    → find m id ≡ none
    → find (m ++ (id, v) ∷ []) id ≡ some v
unfolding find
find-append_new [] id v h = ground (arith, eq_refl id)
find-append_new ((k, u) ∷ m) id v h = ground (arith, find-append_new m id v)

-- A node of a use and a lane that are known, without the name of a program, whose visits are not
-- negative.
pub record IsKnown (n : Node) : Type 0 where
  pub use_known : contains known_uses n.uses ≡ true
  pub no_cli : named_cli n ≡ false
  pub lane_known : is_empty n.lane || valid_lane n.lane ≡ true
  pub visits : pos 0 ≤ℤ n.max_visits

node_findings-IsKnown : (id : String) (n : Node) → node_findings id n ≡ [] → IsKnown n
unfolding node_findings
node_findings-IsKnown id n h =
    let (abc, d) = append_nil _ _ h in
    let (ab, c) = append_nil _ _ abc in
    let (a, b) = append_nil _ _ ab in
    let lane = only_if_nil _ _ c in
    let visits = only_if_nil _ _ d in
    let used = only_if_nil _ _ a in
    record {
      use_known = ground arith;
      no_cli = only_if_nil _ _ b;
      lane_known = ground arith;
      visits = ground arith;
    }

abbrev pub under_id : Node → Node
under_id n = record n { id = trim_space n.id }

pub record IsEntered (nodes : NodeMap) (n : Node) : Type 0 where
  pub named : is_empty (trim_space n.id) ≡ false
  pub known : IsKnown n
  pub entered : find nodes (trim_space n.id) ≡ some (under_id n)

record Steps (m : NodeMap) (n : Node) : Type 0 where
  pub named : is_empty (trim_space n.id) ≡ false
  pub known : IsKnown n
  pub fresh : find m (trim_space n.id) ≡ none
  pub nodes : (check_node m n).nodes ≡ m ++ (trim_space n.id, under_id n) ∷ []

found-none : (o : Option Node) → found o ≡ false → o ≡ none
found-none none h = refl
found-none (some n) h = absurd (ground arith)

check_node-Steps : (m : NodeMap) (n : Node) → (check_node m n).findings ≡ [] → Steps m n
unfolding check_node
check_node-Steps m n h = elim (Bool-cases (is_empty (trim_space n.id))) [
  | inl e ↦ absurd (ground arith)
  | inr e ↦ elim (Bool-cases (found (find m (trim_space n.id)))) [
    | inl k ↦ absurd (ground arith)
    | inr k ↦
        let none_found : node_findings (trim_space n.id) n ≡ [] = ground arith in
        record {
          named = e;
          known = node_findings-IsKnown (trim_space n.id) n none_found;
          fresh = found-none (find m (trim_space n.id)) k;
          nodes = rw (e, k) refl;
        }
  ]
]

module _ (m : NodeMap) (n : Node) (ns : List Node)
    (h : (check_nodes m (n ∷ ns)).findings ≡ []) where
  split_findings :
      ((check_node m n).findings ≡ []) × ((check_nodes (check_node m n).nodes ns).findings ≡ [])
  unfolding check_nodes
  split_findings = append_nil (check_node m n).findings _ h

pub check_nodes_keeps :
    (m : NodeMap) (ns : List Node) (key : String) (w : Node)
    → (check_nodes m ns).findings ≡ []
    → find m key ≡ some w
    → find (check_nodes m ns).nodes key ≡ some w
unfolding check_nodes
check_nodes_keeps m [] key w h k = k
check_nodes_keeps m (n ∷ ns) key w h k =
    let (here, rest) = split_findings m n ns h in
    let s = check_node-Steps m n here in
    check_nodes_keeps (check_node m n).nodes ns key w rest
      (rw s.nodes (find-append m (trim_space n.id) key (under_id n) w k))

pub check_nodes-IsEntered :
    (m : NodeMap) (ns : List Node) (n : Node)
    → (check_nodes m ns).findings ≡ []
    → In n ns
    → IsEntered (check_nodes m ns).nodes n
unfolding check_nodes
check_nodes-IsEntered m [] n h i = elim i [ ]
check_nodes-IsEntered m (x ∷ ns) n h (inr i) =
    let (here, rest) = split_findings m x ns h in
    check_nodes-IsEntered (check_node m x).nodes ns n rest i
check_nodes-IsEntered m (x ∷ ns) n h (inl e) =
    let (here, rest) = split_findings m x ns h in
    let s = check_node-Steps m x here in
    let put_in : find (check_node m x).nodes (trim_space x.id) ≡ some (under_id x) =
      rw s.nodes (find-append_new m (trim_space x.id) (under_id x) s.fresh) in
    subst (IsEntered (check_nodes (check_node m x).nodes ns).nodes) (sym e) (record {
      named = s.named;
      known = s.known;
      entered =
          check_nodes_keeps (check_node m x).nodes ns (trim_space x.id) (under_id x) rest put_in;
    })
