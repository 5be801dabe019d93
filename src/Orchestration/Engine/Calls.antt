-- ===== src/Orchestration/Engine/Calls.antt =====
-- Every call of the executor that `Execute` makes is one that the flow allows.
use jacu_harness.Base.{
  ℕ, suc, ◌≡◌, refl, sym, ◌∙◌, subst, String, true, false, not, ◌&&◌, List, [], ◌∷◌, ◌++◌, Option,
  Result, ok, err, arith, Bool-cases, Result-cases, inl, inr, ◌⊎◌, In,
}
use jacu_harness.Base.Sort.{sort}
use jacu_harness.Base.Strings.{is_empty}
use jacu_harness.Orchestration.Schedule.Outcome.{node_ids}
use jacu_harness.ModelControl.Profile.{HostProfile, SignatureVerifier}
use jacu_harness.Orchestration.Flow.{Node, Edge, Flow, Fields}
use jacu_harness.Orchestration.Validation.{is_nil}
use jacu_harness.Orchestration.Edges.{NodeResult, edge_decision}
use jacu_harness.Orchestration.Resolve.{Output, Results, resolve_node}
use jacu_harness.Orchestration.Routing.{Panel, RoutingError, route_node}
use jacu_harness.Orchestration.Routing.Sound.{IsRouted, route_node-IsRouted, route_node_keeps}
use jacu_harness.Orchestration.Engine.{Host, Executor, Reply, node_at, edges_to, event_before}
use jacu_harness.Orchestration.Engine.Waves.{
  Site, answered, Recorded, failed_node, stopped, recorded, Loop, split_wave, run_routed,
  run_resolved, run_node, run_all, finish_wave, run_waves, record_outcomes, outcome_before,
}

-- A node of the flow that the decision on its edges lets run.
pub record IsActive (flow : Flow) (results : Results) (node : Node) : Type 0 where
  pub id : String
  pub known : In id (node_ids flow)
  pub same : node ≡ node_at flow.nodes id
  pub decided : (edge_decision results (edges_to flow.edges id)).1 ≡ true

split_wave-IsActive :
    (flow : Flow) (results : Results) (wave : ℕ) (ids : List String) (n : Node)
    → ((x : String) → In x ids → In x (node_ids flow))
    → In n (split_wave flow results wave ids).active
    → IsActive flow results n
unfolding split_wave edge_decision
split_wave-IsActive flow results wave [] n known i = elim i [ ]
split_wave-IsActive flow results wave (id ∷ ids) n known i =
    let es = edges_to flow.edges id in
    elim (Bool-cases (not (is_nil es) && not (edge_decision results es).1)) [
      | inl t ↦ split_wave-IsActive flow results wave ids n (λ x m. known x (inr m)) (rw t at i)
      | inr t ↦
          let j : (n ≡ node_at flow.nodes id) ⊎ In n (split_wave flow results wave ids).active =
            rw t at i in
          elim j [
            | inl e ↦ record { id = id; known = known id (inl refl); same = e; decided = runs es t }
            | inr k ↦ split_wave-IsActive flow results wave ids n (λ x m. known x (inr m)) k
          ]
    ]
  where
    runs :
        (es : List Edge)
        → not (is_nil es) && not (edge_decision results es).1 ≡ false
        → (edge_decision results es).1 ≡ true
    runs [] h = refl
    runs (e ∷ es) h = ground arith

-- The call of a node in a wave: the node is resolved, and where it has a lane, routed.
pub record IsWaveCall (flow : Flow) (initial : Fields) (digest : String → Option String)
    (profiles : List HostProfile) (verifier : Option SignatureVerifier) (node : Node)
    (results : Results) : Type 0 where
  pub source : Node
  pub active : IsActive flow results source
  pub resolved : resolve_node results initial source ≡ ok node
  pub routed :
      (is_empty node.lane ≡ true) ⊎ ((p : HostProfile) × IsRouted digest profiles verifier node p)

module _ {E W : Type 0} (host : Host E W) (executor : Executor E W) (flow : Flow) (initial : Fields)
    (profiles : List HostProfile) (verifier : Option SignatureVerifier) (Holds : W → Type 0)
    (keeps : (node : Node) (results : Results) (w : W)
      → IsWaveCall flow initial (host.digest w) profiles verifier node results
      → Holds w
      → Holds (executor node results w).1)
    (arranges : (w : W) (ns : List Node) (n : Node) → In n (host.arrange w ns) → In n ns) where
  pub record IsGood (s : Site W) : Type 0 where
    pub holds : Holds s.world
    pub same_profiles : s.panel.profiles ≡ profiles
    pub same_verifier : s.panel.verifier ≡ verifier

  answered_site :
      (node : Node) (panel : Panel) (x : Result E (NodeResult Output) × W)
      → (answered node panel x).1 ≡ record { panel = panel; world = x.1 }
  answered_site node panel (ok r, w) = refl
  answered_site node panel (err e, w) = refl

  answered-IsGood :
      (node : Node) (results : Results) (s : Site W) (panel : Panel)
      → panel.profiles ≡ profiles
      → panel.verifier ≡ verifier
      → IsWaveCall flow initial (host.digest s.world) profiles verifier node results
      → Holds s.world
      → IsGood (answered node panel (executor node results s.world)).1
  answered-IsGood node results s panel p v c h =
      subst IsGood (sym (answered_site node panel (executor node results s.world)))
        (record { holds = keeps node results s.world c h; same_profiles = p; same_verifier = v })

  module _ (results : Results) (s : Site W) (g : IsGood s) (n node : Node)
      (a : IsActive flow results n) (q : resolve_node results initial n ≡ ok node) where
    run_routed-IsGood :
        (r : Result RoutingError HostProfile) (panel : Panel)
        → (route_node (host.clock s.world) (host.digest s.world) s.panel node).0 ≡ r
        → panel.profiles ≡ s.panel.profiles
        → panel.verifier ≡ s.panel.verifier
        → IsGood (run_routed host executor flow initial results node s.world (r, panel)).1
    unfolding run_routed
    run_routed-IsGood (err e) panel t p v = record {
      holds = g.holds;
      same_profiles = p ∙ g.same_profiles;
      same_verifier = v ∙ g.same_verifier;
    }
    run_routed-IsGood (ok profile) panel t p v =
        let routed =
          route_node-IsRouted (host.clock s.world) (host.digest s.world) s.panel node profile t in
        answered-IsGood node results s panel (p ∙ g.same_profiles) (v ∙ g.same_verifier)
          (record {
            source = n;
            active = a;
            resolved = q;
            routed = inr (
              profile,
              subst (λ ps. IsRouted (host.digest s.world) ps verifier node profile) g.same_profiles
                  (subst (λ v. IsRouted (host.digest s.world) s.panel.profiles v node profile)
                    g.same_verifier routed),
            );
          })
          g.holds

    run_resolved-IsGood : IsGood (run_resolved host executor flow initial results s n (ok node)).1
    unfolding run_resolved
    run_resolved-IsGood = elim (Bool-cases (is_empty node.lane)) [
      | inl t ↦ rw t (
          answered-IsGood node results s s.panel g.same_profiles g.same_verifier
            (record { source = n; active = a; resolved = q; routed = inl t }) g.holds)
      | inr t ↦
          let r = route_node (host.clock s.world) (host.digest s.world) s.panel node in
          let (p, v) = route_node_keeps (host.clock s.world) (host.digest s.world) s.panel node in
          rw t (run_routed-IsGood r.0 r.1 refl p v)
    ]

  run_node-IsGood :
      (results : Results) (s : Site W) (n : Node)
      → IsActive flow results n
      → IsGood s
      → IsGood (run_node host executor flow initial results s n).1
  unfolding run_node run_resolved
  run_node-IsGood results s n a g = elim (Result-cases (resolve_node results initial n)) [
    | inr (e, q) ↦ rw q g
    | inl (node, q) ↦
        subst (λ r. IsGood (run_resolved host executor flow initial results s n r).1) (sym q)
          (run_resolved-IsGood results s g n node a q)
  ]

  run_all-IsGood :
      (results : Results) (s : Site W) (ns : List Node)
      → ((n : Node) → In n ns → IsActive flow results n)
      → IsGood s
      → IsGood (run_all host executor flow initial results s ns).1
  unfolding run_all
  run_all-IsGood results s [] a g = g
  run_all-IsGood results s (n ∷ ns) a g =
      run_all-IsGood results (run_node host executor flow initial results s n).1 ns
        (λ m i. a m (inr i)) (run_node-IsGood results s n (a n (inl refl)) g)

  finish_wave-IsGood :
      (all_waves : List (List String)) (l : Loop host executor flow initial) (r : Recorded E)
      (next : Loop host executor flow initial → Reply E × Site W)
      → IsGood l.site
      → ((l' : Loop host executor flow initial) → IsGood l'.site → IsGood (next l').1)
      → IsGood (finish_wave host executor flow initial all_waves l r next).1
  unfolding finish_wave
  finish_wave-IsGood all_waves l (failed_node e) next g more = g
  finish_wave-IsGood all_waves l (stopped events) next g more = g
  finish_wave-IsGood all_waves l (recorded results events) next g more =
      more (record l { results = results; trace = l.trace ++ sort event_before events }) g

  -- A predicate of the world holds when the waves have run, if it did before and every call of the
  -- executor on an active node that is resolved, and routed where it has a lane, keeps it.
  pub run_waves-IsGood :
      (all_waves : List (List String)) (index : ℕ) (waves : List (List String))
      (l : Loop host executor flow initial)
      → ((wave : List String) → In wave waves → (x : String) → In x wave → In x (node_ids flow))
      → IsGood l.site
      → IsGood (run_waves host executor flow initial all_waves index waves l).1
  unfolding run_waves
  run_waves-IsGood all_waves index [] l known g = g
  run_waves-IsGood all_waves index (wave ∷ waves) l known g =
      elim (Bool-cases (host.cancelled l.site.world)) [
        | inl t ↦ rw t g
        | inr t ↦
            let split = split_wave flow l.results index wave in
            let ns = host.arrange l.site.world split.active in
            let ran = run_all host executor flow initial l.results l.site ns in
            let good =
              run_all-IsGood l.results l.site ns
                (λ n i.
                  split_wave-IsActive flow l.results index wave n (known wave (inl refl))
                    (arranges l.site.world split.active n i))
                g in
            rw t (
              finish_wave-IsGood all_waves (record l { site = ran.1 })
                (record_outcomes index (sort outcome_before ran.0) l.results split.skipped)
                (run_waves host executor flow initial all_waves (suc index) waves) good
                (λ l' g'.
                  run_waves-IsGood all_waves (suc index) waves l' (λ v i. known v (inr i)) g'))
      ]
