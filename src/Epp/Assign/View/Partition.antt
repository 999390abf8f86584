-- ===== src/Epp/Assign/View/Partition.antt =====
-- The view accounts for every EPP cluster once, and for the groups that serve none.
use ai_gateway_api.Prelude.{
  ℕ, ◌+◌, ◌≡◌, refl, ◌∙◌, sym, subst, inl, inr, String, true, false, List, [], ◌∷◌, Option, none,
  some, elem, map, All, arith, ◌==◌, if◌then◌else◌, Bool-cases, Option-cases,
}
use ai_gateway_api.Epp.Names.{name_lt, insert_by, sort_by, sort_by-All}
use ai_gateway_api.Epp.Pool.{Group, Pool, is_served}
use ai_gateway_api.Epp.Assign.{Assignments}
use ai_gateway_api.Epp.Assign.View.{
  last_group, served_group, split_clusters, idle, build_assignments_view,
}

-- How often a name is in a list.
abbrev pub count : String → List String → ℕ
count n [] = 0
count n (c ∷ cs) = (if c == n then 1 else 0) + count n cs

count-insert_by :
    (n c : String) (cs : List String)
    → count n (insert_by (λ x. x) c cs) ≡ (if c == n then 1 else 0) + count n cs
unfolding insert_by
count-insert_by n c [] = refl
count-insert_by n c (d ∷ ds) = elim (Bool-cases (name_lt d c)) [
  | inl h ↦ rw h (omega (arith, count-insert_by n c ds))
  | inr h ↦ rw h refl
]

count-sort_by : (n : String) (cs : List String) → count n (sort_by (λ x. x) cs) ≡ count n cs
unfolding sort_by
count-sort_by n [] = refl
count-sort_by n (c ∷ cs) =
    omega (arith, count-insert_by n c (sort_by (λ x. x) cs), count-sort_by n cs)

-- The group that a cluster is placed in is that of its assignment, and serves.
abbrev pub Placed : List Group → Assignments → String × String → Type 0
Placed groups assigned (cluster, name) =
    (last_group cluster assigned ≡ some name) × (is_served groups name ≡ true)

-- The cluster has no assignment to a group that serves.
abbrev pub Unplaced : List Group → Assignments → String → Type 0
Unplaced groups assigned cluster =
    (name : String) → last_group cluster assigned ≡ some name → is_served groups name ≡ false

-- Every cluster is on one side, as often as it is given, and where it belongs.
abbrev Split : List Group → Assignments → String → ℕ → List (String × String) × List String → Type 0
Split groups assigned n k (placed, unplaced) =
    (count n (map (λ e. e.0) placed) + count n unplaced ≡ k)
    × All (Placed groups assigned) placed
    × All (Unplaced groups assigned) unplaced

served_group-some :
    (groups : List Group) (o : Option String) (name : String)
    → served_group groups o ≡ some name
    → (o ≡ some name) × (is_served groups name ≡ true)
unfolding served_group
served_group-some groups none name e = cc e
served_group-some groups (some n) name e = elim (Bool-cases (is_served groups n)) [
  | inl h ↦
      let picked : some n ≡ some name = rw (served_group, h) at e in
      let same : n ≡ name = cc picked in (picked, rw same at h)
  | inr h ↦ cc (rw (served_group, h) at e)
]

served_group-none :
    (groups : List Group) (o : Option String) (name : String)
    → served_group groups o ≡ none
    → o ≡ some name
    → is_served groups name ≡ false
unfolding served_group
served_group-none groups none name e at = cc at
served_group-none groups (some n) name e at = elim (Bool-cases (is_served groups n)) [
  | inl h ↦ cc (rw (served_group, h) at e)
  | inr h ↦ let same : n ≡ name = cc at in rw same at h
]

split_clusters-Split :
    (groups : List Group) (assigned : Assignments) (n : String) (cs : List String)
    → Split groups assigned n (count n cs) (split_clusters groups assigned cs)
unfolding split_clusters
split_clusters-Split groups assigned n [] = (refl, tt, tt)
split_clusters-Split groups assigned n (c ∷ cs) =
    let (total, served, idle) = split_clusters-Split groups assigned n cs in
    let rest = split_clusters groups assigned cs in
    let whole = split_clusters groups assigned (c ∷ cs) in
    let one : ℕ = if c == n then 1 else 0 in
    elim (Option-cases (served_group groups (last_group c assigned))) [
      | inl without ↦
          let same : whole ≡ (rest.0, c ∷ rest.1) = rw (split_clusters, without) refl in
          let more : count n (map (λ e. e.0) rest.0) + (one + count n rest.1) ≡ one + count n cs =
            omega (arith, total) in
          let alone : Unplaced groups assigned c =
            λ name at. served_group-none groups (last_group c assigned) name without at in
          subst (Split groups assigned n (one + count n cs)) (sym same)
            (more, served, (alone, idle))
      | inr (name, found) ↦
          let same : whole ≡ ((c, name) ∷ rest.0, rest.1) = rw (split_clusters, found) refl in
          let more : one + count n (map (λ e. e.0) rest.0) + count n rest.1 ≡ one + count n cs =
            omega (arith, total) in
          let here = served_group-some groups (last_group c assigned) name found in
          subst (Split groups assigned n (one + count n cs)) (sym same) (more, (here, served), idle)
    ]

idle-unoccupied :
    (occupied : List String) (groups : List Group)
    → All (λ n. elem n occupied ≡ false) (idle occupied groups)
unfolding idle
idle-unoccupied occupied [] = tt
idle-unoccupied occupied (g ∷ gs) = elim (Bool-cases (elem g.name occupied)) [
  | inl h ↦ rw h (idle-unoccupied occupied gs)
  | inr h ↦ rw h (h, idle-unoccupied occupied gs)
]

-- The view lists every name as often as the EPP clusters have it, among the assigned clusters and
-- the unassigned ones together. An assigned cluster comes with the group of its last assignment,
-- which serves; an unassigned one has no assignment to a group that serves; and no group that is
-- listed as idle is that of an assigned cluster.
pub build_assignments_view-partition :
    (pool : Pool) (epp_clusters : List String) (assigned : Assignments) (name : String)
    → let view = build_assignments_view pool epp_clusters assigned in
      (count name (map (λ e. e.0) view.clusters) + count name view.unassigned_clusters
        ≡ count name epp_clusters)
      × All (Placed pool.groups assigned) view.clusters
      × All (Unplaced pool.groups assigned) view.unassigned_clusters
      × All (λ n. elem n (map (λ e. e.1) view.clusters) ≡ false) view.idle_groups
unfolding build_assignments_view
build_assignments_view-partition pool epp_clusters assigned name =
    let sorted = sort_by (λ c. c) epp_clusters in
    let placed = (split_clusters pool.groups assigned sorted).0 in
    let (total, served, without) = split_clusters-Split pool.groups assigned name sorted in
    let occupied = map (λ e. e.1) placed in
    (
      total ∙ count-sort_by name epp_clusters,
      served,
      without,
      sort_by-All (λ n. n) (λ n. elem n occupied ≡ false) (idle occupied pool.groups)
          (idle-unoccupied occupied pool.groups),
    )
