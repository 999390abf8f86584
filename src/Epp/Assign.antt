-- ===== src/Epp/Assign.antt =====
-- The assignment of clusters to instance groups (model/epp_pool/assignment.go) over the tables of
-- storage/rdb/epp_pool/epp_pool.go.
pub mod Least
pub mod Repair
pub mod Served
pub mod Rounds
pub mod View
use ai_gateway_api.Prelude.{
  ℕ, suc, ◌+◌, String, Bool, true, false, not, ◌&&◌, ◌||◌, List, [], ◌∷◌, ◌++◌, Option, none, some,
  ◌==◌, ltb, nat_eq, elem, map, lookup, if◌then◌else◌,
}
use ai_gateway_api.Epp.Names.{name_lt, sort_by}
use ai_gateway_api.Epp.Pool.{Instance, Group, Pool, build_pool, is_served}

-- `AssignmentParam`.
pub record Assignment : Type 0 where
  pub cluster : String
  pub group_name : String

abbrev pub Assignments : Type 0
Assignments = List Assignment

pub data EppError : Type 0 where
  empty_cluster empty_group storage_failed no_cluster_source : EppError
  unknown_cluster unknown_group : String → EppError

-- The two tables, and how often the export of epp_data was triggered.
pub record Tables : Type 0 where
  pub instances : List Instance
  pub assignments : Assignments
  pub exports : ℕ

-- The manager's pool name and EPP clusters, and what of the storage fails. The first write of an
-- allocation may meet a conflict, and what the table then holds is given.
pub record EppManager : Type 0 where
  pub pool_name : String
  pub epp_clusters : Option (List String)
  pub reads_fail : Bool
  pub clusters_fail : Bool
  pub write_fails : String → Bool
  pub conflict : String → Option Assignments

-- `findValidAssignment`: the cluster's first assignment, if its group is served.
unfoldable pub find_valid_assignment : Pool → Assignments → String → Option Assignment
unfolding is_served
find_valid_assignment pool [] cluster = none
find_valid_assignment pool (a ∷ rest) cluster =
    let later = find_valid_assignment pool rest cluster in
    if a.cluster == cluster
    then (if is_served pool.groups a.group_name then some a else none)
    else later

-- `countGroupAssignments` at a group.
unfoldable pub load : Assignments → String → ℕ
load [] name = 0
load (a ∷ rest) name = let n = load rest name in if a.group_name == name then suc n else n

-- `candidateGroups`.
unfoldable pub candidate_groups : Pool → List Group
unfolding sort_by
candidate_groups pool = sort_by (λ g. g.name) pool.groups

-- Whether a group is taken in place of the selected one.
unfoldable pub is_better : Assignments → Group → Group → Bool
unfolding load name_lt
is_better assignments g selected =
    ltb (load assignments g.name) (load assignments selected.name)
    || (nat_eq (load assignments g.name) (load assignments selected.name)
        && name_lt g.name selected.name)

select : Assignments → Group → List Group → Group
unfolding is_better
select assignments selected [] = selected
select assignments selected (g ∷ gs) =
    select assignments (if is_better assignments g selected then g else selected) gs

allocate_from : Assignments → String → List Group → Option Assignment
unfolding select
allocate_from assignments cluster [] = none
allocate_from assignments cluster (g ∷ gs) =
    some (record { cluster = cluster; group_name = (select assignments g gs).name })

-- `allocateCluster`: `none` where the pool has no group.
unfoldable pub allocate_cluster : Pool → Assignments → String → Option Assignment
unfolding allocate_from candidate_groups
allocate_cluster pool assignments cluster =
    allocate_from assignments cluster (candidate_groups pool)

-- `UpsertAssignment` and `DeleteAssignment`; the table has one row for a cluster.
unfoldable pub upsert_assignment : Assignment → Assignments → Assignments
upsert_assignment a [] = a ∷ []
upsert_assignment a (b ∷ bs) =
    let rest = upsert_assignment a bs in if b.cluster == a.cluster then a ∷ bs else b ∷ rest

unfoldable pub delete_assignment : String → Assignments → Assignments
delete_assignment cluster [] = []
delete_assignment cluster (b ∷ bs) =
    let rest = delete_assignment cluster bs in if b.cluster == cluster then rest else b ∷ rest

abbrev pub write :
    EppManager → String → (Assignments → Assignments) → Tables → Tables × Option EppError
write m cluster f t =
    if m.write_fails cluster
    then (t, some storage_failed)
    else (record t { assignments = f t.assignments }, none)

-- An upsert of an assignment without a cluster is refused.
abbrev pub write_upsert : EppManager → String → Assignment → Tables → Tables × Option EppError
write_upsert m cluster a t =
    if a.cluster == "" || m.write_fails cluster
    then (t, some (if a.cluster == "" then empty_cluster else storage_failed))
    else (record t { assignments = upsert_assignment a t.assignments }, none)

-- An allocation that finds no group clears the cluster's assignment.
write_allocated : EppManager → String → Tables → Option Assignment → Tables × Option EppError
unfolding upsert_assignment delete_assignment
write_allocated m cluster t none = write m cluster (delete_assignment cluster) t
write_allocated m cluster t (some a) = write_upsert m cluster a t

-- After a conflict the table is read again, and the allocation tried once more.
reallocate : EppManager → Pool → String → Tables → Assignments → Tables × Option EppError
unfolding write_allocated allocate_cluster
reallocate m pool cluster t others =
    let t' : Tables = record t { assignments = others } in
    if m.reads_fail
    then (t', some storage_failed)
    else write_allocated m cluster t' (allocate_cluster pool others cluster)

allocated : EppManager → Pool → String → Tables → Option Assignment → Tables × Option EppError
unfolding write_allocated reallocate
allocated m pool cluster t none = write_allocated m cluster t none
allocated m pool cluster t (some a) = elim (m.conflict cluster) [
  | none ↦ write_allocated m cluster t (some a)
  | some others ↦ reallocate m pool cluster t others
]

-- `allocateAndUpsert`.
unfoldable pub allocate_and_upsert :
    EppManager → Pool → Assignments → String → Tables → Tables × Option EppError
unfolding allocated allocate_cluster
allocate_and_upsert m pool assignments cluster t =
    allocated m pool cluster t (allocate_cluster pool assignments cluster)

unfoldable pub pool_of : EppManager → Tables → Pool
unfolding build_pool
pool_of m t = build_pool m.pool_name t.instances

-- A cluster with a valid assignment is left.
assign_unless : EppManager → Pool → String → Tables → Option Assignment → Tables × Option EppError
unfolding allocate_and_upsert
assign_unless m pool cluster t (some a) = (t, none)
assign_unless m pool cluster t none = allocate_and_upsert m pool t.assignments cluster t

-- `AssignCluster`.
unfoldable pub assign_cluster : EppManager → String → Tables → Tables × Option EppError
unfolding assign_unless find_valid_assignment pool_of
assign_cluster m cluster t =
    if cluster == ""
    then (t, some empty_cluster)
    else if m.reads_fail
    then (t, some storage_failed)
    else assign_unless m (pool_of m t) cluster t
        (find_valid_assignment (pool_of m t) t.assignments cluster)

-- `repairOne`.
pub data RepairAction : Type 0 where
  keep clear : RepairAction
  reassign : Assignment → RepairAction

abbrev reassigned : Option Assignment → RepairAction
reassigned none = clear
reassigned (some a) = reassign a

unfoldable pub repair_one : Pool → Assignments → String → RepairAction
unfolding find_valid_assignment allocate_cluster
repair_one pool assignments cluster = elim (find_valid_assignment pool assignments cluster) [
  | some a ↦ keep
  | none ↦ reassigned (allocate_cluster pool assignments cluster)
]

abbrev apply_repair : EppManager → String → RepairAction → Tables → Tables × Option EppError
apply_repair m cluster keep t = (t, none)
apply_repair m cluster clear t = write m cluster (delete_assignment cluster) t
apply_repair m cluster (reassign a) t = write_upsert m cluster a t

abbrev changes : RepairAction → Bool
changes keep = false
changes _ = true

-- The loop of a repair: each row is decided on the list that was read at its start. The flag says
-- whether anything was written.
unfoldable pub repair_each :
    EppManager → Pool → Assignments → Assignments → Bool → Tables → Tables × Option EppError × Bool
unfolding repair_one
repair_each m pool read [] changed t = (t, none, changed)
repair_each m pool read (a ∷ rest) changed t =
    let action = repair_one pool read a.cluster in
    let (t', e) = apply_repair m a.cluster action t in
    let later = repair_each m pool read rest (changed || changes action) t' in
    elim e [ some failure ↦ (t', some failure, changed) | none ↦ later ]

export_changed : Tables × Option EppError × Bool → Tables × Option EppError
export_changed (t, some e, changed) = (t, some e)
export_changed (t, none, changed) =
    if changed then (record t { exports = t.exports + 1 }, none) else (t, none)

-- `RepairDangling`.
unfoldable pub repair_dangling : EppManager → Tables → Tables × Option EppError
unfolding repair_each export_changed pool_of sort_by
repair_dangling m t =
    if m.reads_fail
    then (t, some storage_failed)
    else let sorted = sort_by (λ a. a.cluster) t.assignments in
      export_changed (repair_each m (pool_of m t) sorted sorted false t)
