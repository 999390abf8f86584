-- ===== src/Epp/Assign/Rounds.antt =====
-- The reconciler's round and the manual override (`Reconcile` and `OverrideAssignment` of
-- model/epp_pool/assignment.go).
pub mod Converge
use ai_gateway_api.Prelude.{
  String, Bool, ◌||◌, ◌+◌, List, [], ◌∷◌, Option, none, some, ◌==◌, elem, if◌then◌else◌,
}
use ai_gateway_api.Epp.Names.{sort_by}
use ai_gateway_api.Epp.Pool.{Pool, Instance, of_group}
use ai_gateway_api.Epp.Assign.{
  EppError, empty_cluster, empty_group, storage_failed, no_cluster_source, unknown_cluster,
  unknown_group, Tables, EppManager, find_valid_assignment, allocate_and_upsert, pool_of,
  repair_dangling, write_upsert, upsert_assignment,
}

-- One cluster after the other; one that has a valid assignment is left, and the assignments are
-- read again after each write.
unfoldable pub ensure_each : EppManager → Pool → List String → Tables → Tables × Option EppError
unfolding find_valid_assignment allocate_and_upsert
ensure_each m pool [] t = (t, none)
ensure_each m pool (c ∷ cs) t = elim (find_valid_assignment pool t.assignments c) [
  | some a ↦ ensure_each m pool cs t
  | none ↦
      let (t', e) = allocate_and_upsert m pool t.assignments c t in
      elim e [ some failure ↦ (t', some failure) | none ↦ ensure_each m pool cs t' ]
]

after_repair : EppManager → List String → Tables × Option EppError → Tables × Option EppError
unfolding ensure_each pool_of sort_by
after_repair m clusters (t, some e) = (t, some e)
after_repair m clusters (t, none) =
    if m.clusters_fail
    then (t, some storage_failed)
    else ensure_each m (pool_of m t) (sort_by (λ c. c) clusters) t

reconcile_clusters : EppManager → Tables → Option (List String) → Tables × Option EppError
unfolding after_repair repair_dangling
reconcile_clusters m t none = (t, none)
reconcile_clusters m t (some clusters) = after_repair m clusters (repair_dangling m t)

-- `Reconcile`.
unfoldable pub reconcile : EppManager → Tables → Tables × Option EppError
unfolding reconcile_clusters
reconcile m t = reconcile_clusters m t m.epp_clusters

override_group : EppManager → String → String → Tables → List Instance → Tables × Option EppError
unfolding upsert_assignment
override_group m cluster group t [] = (t, some (unknown_group group))
override_group m cluster group t (inst ∷ insts) =
    let (t', e) = write_upsert m cluster (record { cluster = cluster; group_name = group }) t in
    elim e [
      | some failure ↦ (t', some failure)
      | none ↦ (record t' { exports = t'.exports + 1 }, none)
    ]

override_in : EppManager → String → String → Tables → List String → Tables × Option EppError
unfolding override_group of_group
override_in m cluster group t clusters =
    if m.clusters_fail || m.reads_fail
    then (t, some storage_failed)
    else if elem cluster clusters
    then override_group m cluster group t (of_group group t.instances)
    else (t, some (unknown_cluster cluster))

-- `OverrideAssignment` up to the view that it returns.
unfoldable pub override_assignment :
    EppManager → String → String → Tables → Tables × Option EppError
unfolding override_in
override_assignment m cluster group t =
    if cluster == ""
    then (t, some empty_cluster)
    else if group == ""
    then (t, some empty_group)
    else elim m.epp_clusters [
      | none ↦ (t, some no_cluster_source)
      | some clusters ↦ override_in m cluster group t clusters
    ]
