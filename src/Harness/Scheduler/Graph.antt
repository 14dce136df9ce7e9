-- ===== src/Harness/Scheduler/Graph.antt =====
-- packages/harness/scheduler.py: `TaskNode`, and the checks of `TaskDAG`.
pub mod Acyclic
pub mod Cycle
pub mod Accepted
use multi_agent_based_intell.Prelude.{
  ℕ, zero, suc, String, Bool, not, ◌||◌, List, [], ◌∷◌, map, Result, ok, err, ltb, string_eq,
  contains, is_unique, is_empty, all_of, select, length, if◌then◌else◌, ◌>>◌,
}
use multi_agent_based_intell.Prelude.Dict.{Dict}

-- A timeout is in microseconds. The operation stands in the arguments of `Nodes`.
pub record TaskNode : Type 0 where
  pub task_id : String
  pub dependency_ids : List String
  pub timeout : ℕ
  pub max_attempts : ℕ

-- One constructor for each `raise`.
pub data GraphError : Type 0 where
  timeout_out_of_range attempts_out_of_range dependencies_not_unique : GraphError
  no_nodes too_many_nodes ids_not_unique missing_dependencies self_dependency cycle : GraphError
  out_of_fuel : GraphError

-- `TaskNode.__post_init__`
unfoldable pub check_node : TaskNode → Result GraphError (Unit {0})
check_node node =
    if ltb node.timeout 1 || ltb 1800000000 node.timeout
    then err timeout_out_of_range
    else if ltb node.max_attempts 1 || ltb 10 node.max_attempts
    then err attempts_out_of_range
    else if not (is_unique node.dependency_ids)
    then err dependencies_not_unique
    else ok tt

abbrev pub node_ids : List TaskNode → List String
node_ids nodes = map (λ node. node.task_id) nodes

-- `_validate_dependencies`, over the rest of the nodes.
unfoldable pub validate_dependencies : List String → List TaskNode → Result GraphError (Unit {0})
validate_dependencies ids [] = ok tt
validate_dependencies ids (node ∷ nodes) =
    let rest = validate_dependencies ids nodes in
    if not (all_of (contains ids) node.dependency_ids)
    then err missing_dependencies
    else if contains node.dependency_ids node.task_id
    then err self_dependency
    else rest

-- The dict `remaining`, and the set `ready` of its ids without dependencies.
abbrev pub Remaining : Type 0
Remaining = Dict String (List String)

abbrev pub remaining_of : List TaskNode → Remaining
remaining_of nodes = map (λ node. (node.task_id, node.dependency_ids)) nodes

abbrev pub without_dependencies : String × List String → Bool
without_dependencies p = is_empty p.1

abbrev pub ready_ids : Remaining → List String
ready_ids remaining = map (λ p. p.0) (select without_dependencies remaining)

abbrev pub left_over : List String → String × List String → Bool
left_over ready p = not (contains ready p.0)

abbrev pub difference : List String → String × List String → String × List String
difference ready p = (p.0, select (λ d. not (contains ready d)) p.1)

-- The two loops over `remaining`: pop what is ready, and drop it from what is left.
abbrev pub peel : Remaining → Remaining
peel remaining =
    map (difference (ready_ids remaining)) (select (left_over (ready_ids remaining)) remaining)

-- `_validate_acyclic`. A round pops an id at least, so the number of ids is fuel enough.
unfoldable pub validate_acyclic : ℕ → Remaining → Result GraphError (Unit {0})
validate_acyclic fuel [] = ok tt
validate_acyclic zero (p ∷ remaining) = err out_of_fuel
validate_acyclic (suc fuel) (p ∷ remaining) =
    let rest = validate_acyclic fuel (peel (p ∷ remaining)) in
    if is_empty (ready_ids (p ∷ remaining)) then err cycle else rest

-- `TaskDAG.__init__`. Its dict holds the nodes in their order, since their ids are unique.
unfoldable pub build_dag : ℕ → List TaskNode → Result GraphError (List TaskNode)
unfolding validate_dependencies validate_acyclic
build_dag max_nodes nodes =
    if is_empty nodes
    then err no_nodes
    else if ltb max_nodes (length nodes)
    then err too_many_nodes
    else if not (is_unique (node_ids nodes))
    then err ids_not_unique
    else validate_dependencies (node_ids nodes) nodes
      >> validate_acyclic (length nodes) (remaining_of nodes)
      >> ok nodes
