-- ===== src/Tests/Epp.antt =====
-- Examples of the pool and of the assignment.
use ai_gateway_api.Prelude.{
  map, elem, ◌+◌, ◌≡◌, ◌≢◌, ◌⊎◌, refl, String, false, List, [], ◌∷◌, Option, none, some, length,
  All,
}
use ai_gateway_api.Epp.Pool.{
  Instance, Pool, GroupRequest, validate_groups, build_pool, instance_address,
}
use ai_gateway_api.Epp.Pool.Sound.{Distinct, Sound, validate_groups-Sound}
use ai_gateway_api.Epp.Assign.{
  Assignment, EppManager, Tables, find_valid_assignment, repair_dangling, upsert_assignment,
  assign_cluster, pool_of,
}
use ai_gateway_api.Epp.Assign.Repair.{Stored, repair_dangling-same_group}
use ai_gateway_api.Epp.Assign.Served.{assign_cluster-Served}
use ai_gateway_api.Epp.Assign.Rounds.{reconcile}
use ai_gateway_api.Epp.Assign.View.{build_assignments_view}
use ai_gateway_api.Epp.Assign.View.Partition.{
  count, Placed, Unplaced, build_assignments_view-partition,
}
use ai_gateway_api.Epp.Assign.Rounds.Converge.{AllAssigned, reconcile-converges}

abbrev inst : String → String → String → Instance
inst id host group = record { id = id; host = host; port = 9002; group_name = group }

abbrev requests : List (Option GroupRequest)
requests =
    some (record { name = "g1"; instances = some (inst "i1" "epp-1.local" "") ∷ [] })
    ∷ some (record { name = "g2"; instances = some (inst "i2" "epp-2.local" "") ∷ [] })
    ∷ []

abbrev instances : List Instance
instances = inst "i1" "epp-1.local" "g1" ∷ inst "i2" "epp-2.local" "g2" ∷ []

validate_groups-Sound_example :
    (length instances ≡ length requests)
    × Distinct (λ i. i.group_name) instances
    × Distinct (λ i. i.id) instances
    × Distinct instance_address instances
    × All (Sound (λ host. false)) instances
unfolding validate_groups
validate_groups-Sound_example = validate_groups-Sound (λ host. false) requests instances refl

abbrev pool : Pool
pool = build_pool "EPP.pool" instances

-- The group of two clusters has left the pool.
abbrev assigned : List Assignment
assigned =
    (record { cluster = "a"; group_name = "g1" })
    ∷ (record { cluster = "b"; group_name = "gone" })
    ∷ (record { cluster = "c"; group_name = "gone" })
    ∷ []

abbrev to_g2 : String → Assignment
to_g2 cluster = record { cluster = cluster; group_name = "g2" }

abbrev epp_manager : EppManager
epp_manager = record {
  pool_name = "EPP.pool";
  epp_clusters = some ("a" ∷ "b" ∷ []);
  reads_fail = false;
  clusters_fail = false;
  write_fails = λ cluster. false;
  conflict = λ cluster. none;
}

abbrev tables : Tables
tables = record { instances = instances; assignments = assigned; exports = 0 }

repair_dangling-same_group_example :
    (group : String) × All
      (λ a. Stored assigned a ⊎ (a.group_name ≡ group))
      (repair_dangling epp_manager tables).0.assignments
repair_dangling-same_group_example = repair_dangling-same_group epp_manager tables

-- Both clusters of the group that has gone go to the same one.
repaired_to_g2 :
    (repair_dangling epp_manager tables).0.assignments
    ≡ (record { cluster = "a"; group_name = "g1" }) ∷ to_g2 "b" ∷ to_g2 "c" ∷ []
unfolding repair_dangling pool_of upsert_assignment
repaired_to_g2 = refl

assign_cluster-Served_example :
    find_valid_assignment
      (pool_of epp_manager tables)
      (assign_cluster epp_manager "b" tables).0.assignments
      "b"
    ≢ none
unfolding assign_cluster pool_of
assign_cluster-Served_example = assign_cluster-Served epp_manager "b" tables (λ e. cc e) refl

reconcile-converges_example :
    AllAssigned epp_manager ("a" ∷ "b" ∷ []) (reconcile epp_manager tables).0
unfolding reconcile repair_dangling pool_of
reconcile-converges_example =
    reconcile-converges epp_manager ("a" ∷ "b" ∷ []) tables refl (λ c. refl) (λ e. cc e) refl

build_assignments_view-partition_example :
    let view = build_assignments_view pool ("b" ∷ "a" ∷ []) assigned in
    (count "a" (map (λ e. e.0) view.clusters) + count "a" view.unassigned_clusters ≡ 1)
    × All (Placed pool.groups assigned) view.clusters
    × All (Unplaced pool.groups assigned) view.unassigned_clusters
    × All (λ n. elem n (map (λ e. e.1) view.clusters) ≡ false) view.idle_groups
build_assignments_view-partition_example =
    build_assignments_view-partition pool ("b" ∷ "a" ∷ []) assigned "a"
