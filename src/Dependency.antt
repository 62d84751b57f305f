-- ===== src/Dependency.antt =====
-- The graph of dependencies between operations (pkg/controller/dependency_manager.go). The mutexes
-- make each method one step. A `range` over a map visits its entries in an order that Go chooses: the
-- keys in that order are an argument.
pub mod Reaches
pub mod Cycles
pub mod Acyclic
pub mod Ordered
pub mod Order
pub mod Ready
pub mod Manager
mod Tests
use aws_multi_eni_controller.Prelude.{
  ℕ, zero, suc, ◌+◌, String, ◌<>◌, Bool, true, false, ◌&&◌, ◌||◌, not, List, [], ◌∷◌, ◌++◌, Option,
  none, some, if◌then◌else◌, str_eq, is_some, contains_string, ◌==◌, ltb, length,
}
use aws_multi_eni_controller.Prelude.Int.{ℤ, pos, ltb_ℤ}
use aws_multi_eni_controller.Prelude.Maps.{Dict, lookup, insert, delete, has_key}
use aws_multi_eni_controller.Prelude.State.{Result, ok, err}
use aws_multi_eni_controller.Types.{NodeEni, EniAttachment}
use aws_multi_eni_controller.Controller.Creation.{Ended, value, error, panics}

pub data DependencyType : Type 0 where
  on_instance on_subnet on_eni on_node on_security_group : DependencyType

pub data ResourceState : Type 0 where
  unknown available in_use unavailable deleting : ResourceState

-- The constants are numbered by `iota`.
abbrev pub state_code : ResourceState → ℕ
state_code unknown = 0
state_code available = 1
state_code in_use = 2
state_code unavailable = 3
state_code deleting = 4

abbrev pub eq_state : ResourceState → ResourceState → Bool
eq_state s t = state_code s == state_code t

pub record Dependency : Type 0 where
  pub id : String
  pub dependency_type : DependencyType
  pub resource_id : String
  pub depends_on : List String
  pub required_state : ResourceState
  pub priority : ℤ
  pub created_at : ℕ
  pub metadata : Dict String

pub record DependencyGraph : Type 0 where
  pub dependencies : Dict Dependency
  pub resource_states : Dict ResourceState

abbrev pub new_dependency_graph : DependencyGraph
new_dependency_graph = record { dependencies = []; resource_states = [] }

-- What the dependency of that ID depends on; nothing, if there is none.
abbrev pub depends_of : Option Dependency → List String
depends_of none = []
depends_of (some d) = d.depends_on

-- Whether a cycle was found, and the IDs visited; `none` if the fuel ran out.
abbrev pub Searched : Type 0
Searched = Option (Bool × List String)

module _ (g : DependencyGraph) (target : String) where
  pub after_search : (List String → Searched) → Searched → Searched
  after_search rest none = none
  after_search rest (some (true, visited)) = some (true, visited)
  after_search rest (some (false, visited)) = rest visited

  -- The loops over `DependsOn`: the first cycle ends them.
  pub explore : (String → List String → Searched) → List String → List String → Searched
  unfolding after_search
  explore search [] visited = some (false, visited)
  explore search (id ∷ ids) visited = after_search (explore search ids) (search id visited)

  -- `hasCycle`, with fuel for the depth of the recursion.
  pub has_cycle : ℕ → String → List String → Searched
  unfolding explore
  has_cycle zero id visited = none
  has_cycle (suc fuel) id visited =
      let below = explore (has_cycle fuel) (depends_of (lookup id g.dependencies)) (id ∷ visited) in
      if str_eq id target
      then some (true, visited)
      else if contains_string visited id
      then some (false, visited)
      else below

abbrev pub found : Searched → Bool
found none = true
found (some (cycle, visited)) = cycle

-- The depth is at most the number of dependencies, and one more for an ID that is none.
unfoldable pub would_create_cycle : DependencyGraph → Dependency → Bool
unfolding has_cycle
would_create_cycle g dep =
    found
      (explore g dep.id (has_cycle g dep.id (suc (suc (length g.dependencies)))) dep.depends_on [])

unfoldable pub add_dependency : Dependency → DependencyGraph → Option String × DependencyGraph
add_dependency dep g =
    if would_create_cycle g dep
    then (some ("adding dependency " <> (dep.id <> " would create a circular dependency")), g)
    else (none, record g { dependencies = insert dep.id dep g.dependencies })

unfoldable pub remove_dependency : String → DependencyGraph → DependencyGraph
remove_dependency id g = record g { dependencies = delete id g.dependencies }

unfoldable pub update_resource_state : String → ResourceState → DependencyGraph → DependencyGraph
update_resource_state resource_id state g = record g {
  resource_states = insert resource_id state g.resource_states;
}

abbrev pub state_or_unknown : Option ResourceState → ResourceState
state_or_unknown none = unknown
state_or_unknown (some s) = s

unfoldable pub get_resource_state : DependencyGraph → String → ResourceState
get_resource_state g resource_id = state_or_unknown (lookup resource_id g.resource_states)

-- None of these is in the graph.
unfoldable pub none_exists : DependencyGraph → List String → Bool
none_exists g [] = true
none_exists g (id ∷ ids) = not (has_key id g.dependencies) && none_exists g ids

unfoldable pub is_dependency_ready : DependencyGraph → Dependency → Bool
is_dependency_ready g dep =
    none_exists g dep.depends_on
    && (eq_state dep.required_state unknown
        || eq_state (get_resource_state g dep.resource_id) dep.required_state)

-- The dependencies in the order in which `range` gives their keys.
abbrev pub consed : Option Dependency → List Dependency → List Dependency
consed none rest = rest
consed (some d) rest = d ∷ rest

unfoldable pub values_in : DependencyGraph → List String → List Dependency
values_in g [] = []
values_in g (id ∷ ids) = consed (lookup id g.dependencies) (values_in g ids)

-- The loops of `GetReadyDependencies` and `GetBlockedDependencies`.
unfoldable pub keep_ready : DependencyGraph → List Dependency → List Dependency
keep_ready g [] = []
keep_ready g (d ∷ ds) =
    let rest = keep_ready g ds in if is_dependency_ready g d then d ∷ rest else rest

unfoldable pub keep_blocked : DependencyGraph → List Dependency → List Dependency
keep_blocked g [] = []
keep_blocked g (d ∷ ds) =
    let rest = keep_blocked g ds in if is_dependency_ready g d then rest else d ∷ rest

-- `sort.Slice` by priority, the highest first.
unfoldable pub insert_by_priority : Dependency → List Dependency → List Dependency
insert_by_priority d [] = d ∷ []
insert_by_priority d (e ∷ es) =
    if ltb_ℤ d.priority e.priority then e ∷ insert_by_priority d es else d ∷ e ∷ es

unfoldable pub sort_by_priority : List Dependency → List Dependency
sort_by_priority [] = []
sort_by_priority (d ∷ ds) = insert_by_priority d (sort_by_priority ds)

unfoldable pub get_ready_dependencies : DependencyGraph → List String → List Dependency
get_ready_dependencies g order = sort_by_priority (keep_ready g (values_in g order))

unfoldable pub get_blocked_dependencies : DependencyGraph → List String → List Dependency
get_blocked_dependencies g order = keep_blocked g (values_in g order)

-- The IDs visited and the dependencies so far, or the error; `none` if the fuel ran out.
abbrev pub Visits : Type 0
Visits = Option (Result (List String × List Dependency))

module _ (g : DependencyGraph) where
  pub after_visit : (List String × List Dependency → Visits) → Visits → Visits
  after_visit rest none = none
  after_visit rest (some (err e)) = some (err e)
  after_visit rest (some (ok s)) = rest s

  pub visit_all :
      (String → List String × List Dependency → Visits)
      → List String
      → List String × List Dependency
      → Visits
  unfolding after_visit
  visit_all visit [] s = some (ok s)
  visit_all visit (id ∷ ids) s = after_visit (visit_all visit ids) (visit id s)

  -- The end of a visit: the dependency, if there is one, goes behind those that it depends on.
  pub finish_visit : String → Option Dependency → List String × List Dependency → Visits
  finish_visit id none s = some (ok (id ∷ s.0, s.1))
  finish_visit id (some d) s = some (ok (id ∷ s.0, s.1 ++ d ∷ []))

  -- `visit`: the IDs that are being visited are passed down, since each is taken out again at the end.
  pub visit : ℕ → List String → String → List String × List Dependency → Visits
  unfolding visit_all finish_visit
  visit zero visiting id s = none
  visit (suc fuel) visiting id s =
      let dep = lookup id g.dependencies in
      let below =
        after_visit (finish_visit id dep)
          (visit_all (visit fuel (id ∷ visiting)) (depends_of dep) s) in
      if contains_string visiting id
      then some (err ("circular dependency detected involving " <> id))
      else if contains_string s.0 id
      then some (ok s)
      else below

  abbrev pub ordered_of : Visits → Option (Result (List Dependency))
  ordered_of none = none
  ordered_of (some (err e)) = some (err e)
  ordered_of (some (ok s)) = some (ok s.1)

  unfoldable pub resolve_dependency_order : List String → Option (Result (List Dependency))
  unfolding visit
  resolve_dependency_order order =
      ordered_of (visit_all (visit (suc (suc (length g.dependencies))) []) order ([], []))
