-- ===== src/Epp/Assign/View.antt =====
-- The view of the assignments (`buildAssignmentsView` of model/epp_pool/assignment.go).
pub mod Partition
use ai_gateway_api.Prelude.{
  String, Bool, List, [], ◌∷◌, Option, none, some, ◌==◌, elem, map, if◌then◌else◌,
}
use ai_gateway_api.Epp.Names.{sort_by}
use ai_gateway_api.Epp.Pool.{Group, Pool, is_served, find_group, instance_address}
use ai_gateway_api.Epp.Assign.{
  Assignment, Assignments, EppError, empty_cluster, storage_failed, Tables, EppManager,
  find_valid_assignment, pool_of,
}

-- `AssignmentsView`; a cluster comes with its group.
pub record AssignmentsView : Type 0 where
  pub clusters : List (String × String)
  pub unassigned_clusters : List String
  pub idle_groups : List String

-- The entry of a cluster in the map: the last one.
pub last_group : String → Assignments → Option String
last_group cluster [] = none
last_group cluster (a ∷ rest) = elim (last_group cluster rest) [
  | some name ↦ some name
  | none ↦ if a.cluster == cluster then some a.group_name else none
]

served_group : List Group → Option String → Option String
served_group groups none = none
served_group groups (some name) = if is_served groups name then some name else none

split_clusters : List Group → Assignments → List String → List (String × String) × List String
unfolding last_group served_group is_served
split_clusters groups assigned [] = ([], [])
split_clusters groups assigned (c ∷ cs) =
    let (placed, unplaced) = split_clusters groups assigned cs in
    elim (served_group groups (last_group c assigned)) [
      | some name ↦ ((c, name) ∷ placed, unplaced)
      | none ↦ (placed, c ∷ unplaced)
    ]

idle : List String → List Group → List String
idle occupied [] = []
idle occupied (g ∷ gs) =
    let rest = idle occupied gs in if elem g.name occupied then rest else g.name ∷ rest

-- `buildAssignmentsView`.
unfoldable pub build_assignments_view : Pool → List String → Assignments → AssignmentsView
unfolding split_clusters idle sort_by
build_assignments_view pool epp_clusters assigned =
    let (placed, unplaced) = split_clusters pool.groups assigned (sort_by (λ c. c) epp_clusters) in
    record {
      clusters = placed;
      unassigned_clusters = unplaced;
      idle_groups = sort_by (λ n. n) (idle (map (λ e. e.1) placed) pool.groups);
    }
