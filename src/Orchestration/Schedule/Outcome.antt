-- ===== src/Orchestration/Schedule/Outcome.antt =====
-- What `ScheduleWaves` gives, for any flow.
use jacu_harness.Base.{
  ℕ, zero, suc, ◌<◌, ◌≡◌, refl, sym, ◌∙◌, String, true, false, not, ◌&&◌, List, [], ◌∷◌, Result, ok,
  err, arith, eq_iff, ◌==◌, String-comparable, ℕ-comparable, Bool-cases, Result-cases, ◌⊎◌, inl,
  inr, contains, In, All, length, map,
}
use jacu_harness.Base.Distinct.{Distinct, contains-sort, sort-Distinct}
use jacu_harness.Base.Sort.{sort}
use jacu_harness.Base.Strings.{str_lt}
use jacu_harness.Orchestration.Flow.{Node, Edge, Flow}
use jacu_harness.Orchestration.Schedule.{
  ScheduleError, dangling, cycle, first_ids, paths_of, has_link, Linked, link_edges, Placed,
  placed_waves, cycle_of, schedule_linked, schedule_waves,
}
use jacu_harness.Orchestration.Schedule.Links.{
  Joins, Reaches, link_edges-Reaches, link_edges_error, no_links-IsCounted, first_ids-Distinct,
}
use jacu_harness.Orchestration.Schedule.Order.Rounds.{
  sorted_out, order_complete, residual, residual_some, residual_waits, residual_known,
}
use jacu_harness.Orchestration.Schedule.Waves.{in_waves, DistinctWaves, AtWave, FreeWave}
use jacu_harness.Orchestration.Schedule.Waves.Sound.{
  IsPlaced, onto, contains-onto, place_all-IsPlaced, Distinct-FreshFrom,
}

abbrev pub node_ids : Flow → List String
node_ids flow = map (λ n. n.id) flow.nodes

pub record IsSchedule (flow : Flow) (waves : List (List String)) : Type 0 where
  pub once : DistinctWaves waves
  pub all_nodes : (x : String) → in_waves waves x ≡ contains (node_ids flow) x
  pub ordered :
      (e : Edge)
      → In e flow.edges
      → (i : ℕ) × (j : ℕ) × (i < j) × AtWave waves i e.from × AtWave waves j e.to
  pub free : All (FreeWave (paths_of flow.nodes)) waves

-- A walk of so many edges leads to the node.
abbrev pub Walk : List Edge → ℕ → String → Type 0
Walk es zero x = Unit
Walk es (suc k) x = (u : String) × Joins es u x × Walk es k u

pub data Outcome (flow : Flow) : Result ScheduleError (List (List String)) → Type 0 where
  scheduled : (waves : List (List String)) → IsSchedule flow waves → Outcome flow (ok waves)
  dangles :
      (e : Edge)
      → In e flow.edges
      → (contains (node_ids flow) e.from ≡ false) ⊎ (contains (node_ids flow) e.to ≡ false)
      → Outcome flow (err (dangling e.from e.to))
  cyclic :
      (x : String)
      → contains (node_ids flow) x ≡ true
      → ((k : ℕ) → Walk flow.edges k x)
      → Outcome flow (err (cycle x))

contains-first_ids :
    (seen : List String) (ns : List Node) (x : String)
    → contains (first_ids seen ns) x ≡ contains (map (λ n. n.id) ns) x && not (contains seen x)
unfolding first_ids
contains-first_ids seen [] x = refl
contains-first_ids seen (n ∷ ns) x =
    ground (arith, eq_iff n.id x, contains-first_ids (n.id ∷ seen) ns x)

pub first_ids_same :
    (flow : Flow) (x : String) → contains (first_ids [] flow.nodes) x ≡ contains (node_ids flow) x
first_ids_same flow x = ground (arith, contains-first_ids [] flow.nodes x)

in_waves-sorted :
    (ws : List (List String)) (x : String) → in_waves (map (sort str_lt) ws) x ≡ in_waves ws x
in_waves-sorted [] x = refl
in_waves-sorted (w ∷ ws) x = ground (arith, contains-sort str_lt w x, in_waves-sorted ws x)

sorted-DistinctWaves :
    (ws : List (List String)) → DistinctWaves ws → DistinctWaves (map (sort str_lt) ws)
sorted-DistinctWaves [] d = tt
sorted-DistinctWaves (w ∷ ws) d = (
  sort-Distinct str_lt w d.0,
  λ x h. in_waves-sorted ws x ∙ d.1 x (sym (contains-sort str_lt w x) ∙ h),
  sorted-DistinctWaves ws d.2,
)

sorted-AtWave :
    (ws : List (List String)) (i : ℕ) (x : String)
    → AtWave ws i x
    → AtWave (map (sort str_lt) ws) i x
sorted-AtWave [] i x h = h
sorted-AtWave (w ∷ ws) zero x h = contains-sort str_lt w x ∙ h
sorted-AtWave (w ∷ ws) (suc i) x h = sorted-AtWave ws i x h

sorted-FreeWave :
    (paths : String → List String) (ws : List (List String))
    → All (FreeWave paths) ws
    → All (FreeWave paths) (map (sort str_lt) ws)
sorted-FreeWave paths [] f = tt
sorted-FreeWave paths (w ∷ ws) f = (
  λ a b ha hb n.
      f.0 a b (sym (contains-sort str_lt w a) ∙ ha) (sym (contains-sort str_lt w b) ∙ hb) n,
  sorted-FreeWave paths ws f.1,
)

module _ (flow : Flow) (g : Linked)
    (r : Reaches
      (first_ids [] flow.nodes)
      (record { links = []; indegree = λ x. 0 })
      flow.edges
      g) where
  abbrev ids : List String
  ids = first_ids [] flow.nodes

  abbrev paths : String → List String
  paths = paths_of flow.nodes

  abbrev unique : Distinct ids
  unique = first_ids-Distinct [] flow.nodes

  abbrev order : List String
  order = (sorted_out ids g r.counted unique).order

  linked-Joins : (u v : String) → has_link g.links u v ≡ true → Joins flow.edges u v
  unfolding has_link
  linked-Joins u v h = elim (r.only u v h) [ inl k ↦ absurd (ground arith) | inr j ↦ j ]

  walks :
      (k : ℕ) (x : String)
      → contains (residual ids g r.counted unique) x ≡ true
      → Walk flow.edges k x
  walks zero x h = tt
  walks (suc k) x h =
      let (u, link, waits) = residual_waits ids g r.counted unique x h in
      (u, linked-Joins u x link, walks k u waits)

  none_seen : Placed
  none_seen = record { waves = []; wave_of = λ x. 0 }

  none_seen-IsPlaced : IsPlaced paths g.links [] none_seen
  unfolding none_seen
  none_seen-IsPlaced = record {
    once = tt;
    same = λ x. refl;
    at = λ x h. absurd (ground arith);
    free = tt;
    ordered = λ u v h link. absurd (ground arith);
  }

  placed-IsSchedule :
      (out : Placed)
      → ((x : String) → contains order x ≡ contains ids x)
      → IsPlaced paths g.links (onto paths g.links [] order) out
      → IsSchedule flow (map (sort str_lt) out.waves)
  placed-IsSchedule out all p =
      let seen : (x : String)
          → contains (onto paths g.links [] order) x ≡ contains (node_ids flow) x =
        λ x. contains-onto paths g.links [] order x ∙ all x ∙ first_ids_same flow x in
      record {
        once = sorted-DistinctWaves out.waves p.once;
        all_nodes = λ x. in_waves-sorted out.waves x ∙ p.same x ∙ seen x;
        ordered = λ e m.
            let link = r.adds e m in
            let known_to =
              seen e.to
              ∙ sym (first_ids_same flow e.to)
              ∙ r.counted.target_known e.from e.to link in
            let (known_from, less) = p.ordered e.from e.to known_to link in
            (
              out.wave_of e.from,
              out.wave_of e.to,
              less,
              sorted-AtWave out.waves (out.wave_of e.from) e.from (p.at e.from known_from),
              sorted-AtWave out.waves (out.wave_of e.to) e.to (p.at e.to known_to),
            );
        free = sorted-FreeWave paths out.waves p.free;
      }

  cyclic-Outcome :
      (l : List String) (y : String)
      → contains l y ≡ true
      → ((x : String) → contains l x ≡ true → contains (residual ids g r.counted unique) x ≡ true)
      → Outcome flow (err (cycle_of l))
  unfolding cycle_of
  cyclic-Outcome [] y h f = absurd (ground arith)
  cyclic-Outcome (x ∷ l) y h f =
      let waits = f x (ground (arith, eq_iff x x)) in
      cyclic x (sym (first_ids_same flow x) ∙ residual_known ids g r.counted unique x waits)
        (λ k. walks k x waits)

  linked-Outcome : Outcome flow (schedule_linked ids paths g)
  unfolding schedule_linked placed_waves none_seen cycle_of
  linked-Outcome = elim (Bool-cases (length order == length ids)) [
    | inl t ↦
        let full : length order ≡ length ids = ground arith in
        let (all, distinct, topological) = order_complete ids g r.counted unique full in
        let (out, runs, placed) =
          place_all-IsPlaced paths g.links [] order none_seen none_seen-IsPlaced topological
            (Distinct-FreshFrom [] order distinct (λ x h. refl)) in
        rw (t, runs) (scheduled (map (sort str_lt) out.waves) (placed-IsSchedule out all placed))
    | inr t ↦
        let stuck = residual ids g r.counted unique in
        let (y, waits) = residual_some ids g r.counted unique (λ e. ground (arith, e)) in
        rw t (
          cyclic-Outcome (sort str_lt stuck) y (contains-sort str_lt stuck y ∙ waits)
            (λ x h. sym (contains-sort str_lt stuck x) ∙ h))
  ]

module _ (flow : Flow) where
  abbrev no_links : Linked
  no_links = record { links = []; indegree = λ x. 0 }

  -- A flow is scheduled, or an edge of it dangles, or to some node of it there are walks of every
  -- length; there is no other outcome. In a schedule every node stands once, the ends of an edge stand
  -- in an earlier and a later wave, and no two nodes of a wave have conflicting scopes.
  pub schedule_waves-Outcome : Outcome flow (schedule_waves flow)
  unfolding schedule_waves
  schedule_waves-Outcome =
      elim (Result-cases (link_edges (first_ids [] flow.nodes) no_links flow.edges)) [
        | inl (g, e) ↦ rw e (
            linked-Outcome flow g (
              link_edges-Reaches (first_ids [] flow.nodes) no_links g flow.edges
                (no_links-IsCounted (first_ids [] flow.nodes)) e))
        | inr (x, e) ↦
            let (d, m, same, unknown) =
              link_edges_error (first_ids [] flow.nodes) no_links flow.edges x e in
            rw (e, same)
              (dangles d m (ground (arith, first_ids_same flow d.from, first_ids_same flow d.to)))
      ]
