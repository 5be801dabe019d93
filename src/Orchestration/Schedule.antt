-- ===== src/Orchestration/Schedule.antt =====
-- `ScheduleWaves` of graph.go: a topological order of the nodes, put into waves whose nodes may write
-- at the same time. A Go map from ids to numbers is a function, zero where nothing was stored.
pub mod Links
pub mod Release
pub mod Order
pub mod Waves
pub mod Outcome
use jacu_harness.Base.{
  ℕ, zero, suc, ◌+◌, ◌-◌, String, Bool, true, false, not, ◌&&◌, ◌||◌, List, [], ◌∷◌, ◌++◌, map,
  Option, none, some, Result, ok, err, if◌then◌else◌, ◌==◌, ℕ-comparable, String-comparable, ltb,
  max, contains, select, any, length, ◌>>=◌,
}
use jacu_harness.Base.Sort.{sort}
use jacu_harness.Base.Strings.{str_lt}
use jacu_harness.Scope.{lists_conflict}
use jacu_harness.Orchestration.Flow.{Node, Edge, Flow}

-- `ScheduleError`; `broken` stands for an index out of range, which never happens.
pub data ScheduleError : Type 0 where
  dangling : String → String → ScheduleError
  cycle : String → ScheduleError
  broken : ScheduleError

-- The keys of the map `nodes`: each id once.
unfoldable pub first_ids : List String → List Node → List String
first_ids seen [] = []
first_ids seen (n ∷ ns) =
    let rest = first_ids (n.id ∷ seen) ns in if contains seen n.id then rest else n.id ∷ rest

-- `nodes[id].AllowedPaths`: the map holds the first node of an id.
unfoldable pub paths_of : List Node → String → List String
paths_of [] id = []
paths_of (n ∷ ns) id = let rest = paths_of ns id in if n.id == id then n.allowed_paths else rest

pub record Link : Type 0 where
  pub source : String
  pub target : String

-- `successors` and `predecessors` are the two views of one set of links.
unfoldable pub has_link : List Link → String → String → Bool
has_link [] from to = false
has_link (l ∷ ls) from to = (l.source == from && l.target == to) || has_link ls from to

unfoldable pub successors_of : List Link → String → List String
successors_of [] id = []
successors_of (l ∷ ls) id =
    let rest = successors_of ls id in if l.source == id then l.target ∷ rest else rest

unfoldable pub predecessors_of : List Link → String → List String
predecessors_of [] id = []
predecessors_of (l ∷ ls) id =
    let rest = predecessors_of ls id in if l.target == id then l.source ∷ rest else rest

pub record Linked : Type 0 where
  pub links : List Link
  pub indegree : String → ℕ

-- `indegree[id]++`
abbrev pub raised : (String → ℕ) → String → String → ℕ
raised degree id x = if x == id then suc (degree x) else degree x

-- the body of the loop over the edges, for one whose ends are nodes
unfoldable pub link_edge : Linked → Edge → Linked
link_edge g e = if has_link g.links e.from e.to then g else record {
  links = (record { source = e.from; target = e.to }) ∷ g.links;
  indegree = raised g.indegree e.to;
}

unfoldable pub link_edges : List String → Linked → List Edge → Result ScheduleError Linked
unfolding link_edge
link_edges ids g [] = ok g
link_edges ids g (e ∷ es) =
    let rest = link_edges ids (link_edge g e) es in
    if not (contains ids e.from)
    then err (dangling e.from e.to)
    else if not (contains ids e.to)
    then err (dangling e.from e.to)
    else rest

pub record Sorting : Type 0 where
  pub degree : String → ℕ
  pub ready : List String
  pub order : List String

-- `indegree[id]--`. The degree is positive here, since it counts the links from nodes that are not in
-- the order yet.
abbrev pub lowered : (String → ℕ) → String → String → ℕ
lowered degree id x = if x == id then degree x - 1 else degree x

-- the loop over the successors of a node
unfoldable pub release : List String → Sorting → Sorting
release [] s = s
release (id ∷ ids) s =
    let degree = lowered s.degree id in
    release ids (record {
      degree = degree;
      ready = if degree id == 0 then s.ready ++ id ∷ [] else s.ready;
      order = s.order;
    })

-- one round of `for len(ready) > 0`, on the sorted list
unfoldable pub take_ready : List Link → Sorting → List String → Sorting
unfolding release
take_ready links s [] = s
take_ready links s (id ∷ rest) =
    release (sort str_lt (successors_of links id))
      (record { degree = s.degree; ready = rest; order = s.order ++ id ∷ [] })

-- The rounds. A round without a ready node leaves the state as it is, so that fuel beyond the last
-- round changes nothing; as much fuel as there are nodes is enough.
unfoldable pub rounds : ℕ → List Link → Sorting → Sorting
rounds zero links s = s
rounds (suc fuel) links s = rounds fuel links (take_ready links s (sort str_lt s.ready))

-- the least wave behind those of the predecessors
unfoldable pub min_wave : (String → ℕ) → List String → ℕ
min_wave wave_of [] = 0
min_wave wave_of (p ∷ ps) = max (wave_of p + 1) (min_wave wave_of ps)

-- The loop that looks for a wave from `least` on: the waves, and where the node was put. `none` is an
-- index beyond the waves.
unfoldable pub put_in_wave :
    (String → List String) → String → ℕ → List (List String) → Option (List (List String) × ℕ)
put_in_wave paths id zero [] = some ((id ∷ []) ∷ [], 0)
put_in_wave paths id (suc least) [] = none
put_in_wave paths id (suc least) (w ∷ ws) = elim (put_in_wave paths id least ws) [
  | none ↦ none
  | some (ws', at) ↦ some (w ∷ ws', suc at)
]
put_in_wave paths id zero (w ∷ ws) =
    if any (λ o. lists_conflict (paths id) (paths o)) w
    then elim (put_in_wave paths id zero ws) [
      | none ↦ none
      | some (ws', at) ↦ some (w ∷ ws', suc at)
    ]
    else some ((w ++ id ∷ []) ∷ ws, 0)

pub record Placed : Type 0 where
  pub waves : List (List String)
  pub wave_of : String → ℕ

-- `waveOf[id] = wave`
abbrev pub noted : (String → ℕ) → String → ℕ → String → ℕ
noted wave_of id wave x = if x == id then wave else wave_of x

-- the loop over the order
unfoldable pub place_all : (String → List String) → List Link → List String → Placed → Option Placed
place_all paths links [] p = some p
place_all paths links (id ∷ ids) p =
    elim (put_in_wave paths id (min_wave p.wave_of (predecessors_of links id)) p.waves) [
      | none ↦ none
      | some (ws, at) ↦
          place_all paths links ids (record { waves = ws; wave_of = noted p.wave_of id at })
    ]

-- the first of the sorted residual nodes
unfoldable pub cycle_of : List String → ScheduleError
cycle_of [] = broken
cycle_of (id ∷ ids) = cycle id

pub placed_waves : Option Placed → Result ScheduleError (List (List String))
placed_waves none = err broken
placed_waves (some p) = ok (map (sort str_lt) p.waves)

abbrev pub starting : List String → Linked → Sorting
starting ids g = record {
  degree = g.indegree;
  ready = select (λ id. g.indegree id == 0) ids;
  order = [];
}

-- what follows the links: the order, and the waves
unfoldable pub schedule_linked :
    List String → (String → List String) → Linked → Result ScheduleError (List (List String))
unfolding placed_waves
schedule_linked ids paths g =
    let s = rounds (length ids) g.links (starting ids g) in
    if not (length s.order == length ids)
    then err (cycle_of (sort str_lt (select (λ id. ltb 0 (s.degree id)) ids)))
    else placed_waves (place_all paths g.links s.order (record { waves = []; wave_of = λ x. 0 }))

unfoldable pub schedule_waves : Flow → Result ScheduleError (List (List String))
schedule_waves flow = do
  let ids = first_ids [] flow.nodes
  g ← link_edges ids (record { links = []; indegree = λ x. 0 }) flow.edges
  schedule_linked ids (paths_of flow.nodes) g
