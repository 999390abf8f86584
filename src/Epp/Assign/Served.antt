-- ===== src/Epp/Assign/Served.antt =====
-- An assignment ends with the cluster on a group of the pool.
use ai_gateway_api.Prelude.{
  ◌||◌, ◌≡◌, ◌≢◌, refl, sym, subst, inl, inr, String, Bool, true, List, [], ◌∷◌, Option, none, some,
  ◌==◌, eq_refl, All, All-map, Bool-cases, Option-cases,
}
use ai_gateway_api.Epp.Names.{sort_by-All, sort_by-present}
use ai_gateway_api.Epp.Pool.{Group, Pool, find_group, is_served}
use ai_gateway_api.Epp.Pool.Full.{Full, build_pool-Full}
use ai_gateway_api.Epp.Assign.{
  Assignment, Assignments, Tables, EppManager, EppError, find_valid_assignment, candidate_groups,
  select, is_better, allocate_from, allocate_cluster, upsert_assignment, write_allocated,
  reallocate, allocated, allocate_and_upsert, pool_of, assign_unless, assign_cluster,
}

All-served :
    (groups : List Group) → All Full groups → All (λ g. is_served groups g.name ≡ true) groups
unfolding is_served find_group
All-served [] ps = tt
All-served (g ∷ gs) (p, ps) = (
  rw (eq_refl g.name) p,
  All-map (λ h. is_served gs h.name ≡ true) (λ h. is_served (g ∷ gs) h.name ≡ true)
      (λ h served. elim (Bool-cases (g.name == h.name)) [
        | inl same ↦ rw (is_served, same) p
        | inr other ↦ rw (is_served, other) served
      ])
      gs (All-served gs ps),
)

select-All :
    (P : Group → Type 0) (assigned : Assignments) (s : Group) (gs : List Group)
    → P s
    → All P gs
    → P (select assigned s gs)
unfolding select
select-All P assigned s [] p ps = p
select-All P assigned s (g ∷ gs) p (q, qs) = elim (Bool-cases (is_better assigned g s)) [
  | inl h ↦ rw h (select-All P assigned g gs q qs)
  | inr h ↦ rw h (select-All P assigned s gs p qs)
]

from-served :
    (served : String → Bool) (assigned : Assignments) (cluster : String) (groups : List Group)
    (a : Assignment)
    → All (λ g. served g.name ≡ true) groups
    → allocate_from assigned cluster groups ≡ some a
    → (a.cluster ≡ cluster) × (served a.group_name ≡ true)
unfolding allocate_from
from-served served assigned cluster [] a ps e = cc e
from-served served assigned cluster (g ∷ gs) a (p, ps) e =
    let made : record { cluster = cluster; group_name = (select assigned g gs).name } ≡ a = cc e in
    subst (λ r. (r.cluster ≡ cluster) × (served r.group_name ≡ true)) made
      (refl, select-All (λ r. served r.name ≡ true) assigned g gs p ps)

pub find-upsert :
    (pool : Pool) (a : Assignment) (assigned : Assignments)
    → is_served pool.groups a.group_name ≡ true
    → find_valid_assignment pool (upsert_assignment a assigned) a.cluster ≡ some a
unfolding find_valid_assignment upsert_assignment
find-upsert pool a [] served = rw (eq_refl a.cluster, served) refl
find-upsert pool a (b ∷ bs) served = elim (Bool-cases (b.cluster == a.cluster)) [
  | inl same ↦ rw (same, eq_refl a.cluster, served) refl
  | inr other ↦ rw (other, find-upsert pool a bs served) (rw other refl)
]

abbrev Served : Pool → String → Tables → Type 0
Served pool cluster t = find_valid_assignment pool t.assignments cluster ≢ none

pub some-present : (o : Option Assignment) (a : Assignment) → o ≡ some a → o ≢ none
some-present o a e h = cc (e, h)

write-Served :
    (m : EppManager) (pool : Pool) (cluster : String) (t : Tables) (a : Assignment)
    → a.cluster ≡ cluster
    → is_served pool.groups a.group_name ≡ true
    → (write_allocated m cluster t (some a)).1 ≡ none
    → Served pool cluster (write_allocated m cluster t (some a)).0
unfolding write_allocated
write-Served m pool cluster t a named served done =
    elim (Bool-cases (a.cluster == "" || m.write_fails cluster)) [
      | inl h ↦ cc (rw (write_allocated, h) at done)
      | inr h ↦ rw h (some-present _ a (rw⁻¹ named (find-upsert pool a t.assignments served)))
    ]

from-some :
    (assigned : Assignments) (cluster : String) (groups : List Group)
    → groups ≢ []
    → (a : Assignment) × (allocate_from assigned cluster groups ≡ some a)
unfolding allocate_from
from-some assigned cluster [] present = elim (present refl) [ ]
from-some assigned cluster (g ∷ gs) present = (_, refl)

-- What an allocation from a pool of full groups is.
abbrev pub Allocation : Pool → Assignments → String → Type 0
Allocation pool assigned cluster =
    (a : Assignment) × (allocate_cluster pool assigned cluster ≡ some a)
    × (a.cluster ≡ cluster)
    × (is_served pool.groups a.group_name ≡ true)

pub allocation :
    (pool : Pool) (assigned : Assignments) (cluster : String)
    → All Full pool.groups
    → pool.groups ≢ []
    → Allocation pool assigned cluster
unfolding allocate_cluster candidate_groups
allocation pool assigned cluster full present =
    let (a, found) =
      from-some assigned cluster (candidate_groups pool)
        (sort_by-present (λ g. g.name) pool.groups present) in
    let (named, served) =
      from-served (is_served pool.groups) assigned cluster (candidate_groups pool) a
        (sort_by-All (λ g. g.name) (λ g. is_served pool.groups g.name ≡ true) pool.groups
          (All-served pool.groups full))
        found in
    (a, found, named, served)

module _ (m : EppManager) (pool : Pool) (cluster : String) (full : All Full pool.groups)
    (present : pool.groups ≢ []) where
  again-Served :
      (t : Tables) (others : Assignments)
      → (reallocate m pool cluster t others).1 ≡ none
      → Served pool cluster (reallocate m pool cluster t others).0
  unfolding reallocate
  again-Served t others done = elim (Bool-cases m.reads_fail) [
    | inl h ↦ cc (rw (reallocate, h) at done)
    | inr h ↦
        let (a, found, named, served) = allocation pool others cluster full present in
        rw (h, found)
          (write-Served m pool cluster (record t { assignments = others }) a named served
            (rw (reallocate, h, found) at done))
  ]

  moved :
      {run out : Tables × Option EppError}
      → out ≡ run
      → (run.1 ≡ none → Served pool cluster run.0)
      → out.1 ≡ none
      → Served pool cluster out.0
  moved same serve done =
      subst (λ r. Served pool cluster r.0) (sym same) (serve (subst (λ r. r.1 ≡ none) same done))

  upsert-Served :
      (t : Tables)
      → (allocate_and_upsert m pool t.assignments cluster t).1 ≡ none
      → Served pool cluster (allocate_and_upsert m pool t.assignments cluster t).0
  unfolding allocate_and_upsert allocated
  upsert-Served t done =
      let (a, found, named, served) = allocation pool t.assignments cluster full present in
      elim (Option-cases (m.conflict cluster)) [
        | inl free ↦
            let run = write_allocated m cluster t (some a) in
            let same : allocate_and_upsert m pool t.assignments cluster t ≡ run =
              rw (found, allocated, free) refl in
            moved same (λ ok. write-Served m pool cluster t a named served ok) done
        | inr (others, met) ↦
            let run = reallocate m pool cluster t others in
            let same : allocate_and_upsert m pool t.assignments cluster t ≡ run =
              rw (found, allocated, met) refl in
            moved same (again-Served t others) done
      ]

-- An assignment that reports no error leaves the cluster on a group of the pool that has an
-- instance, where the pool has a group; also where another writer came first and the allocation
-- was tried again.
pub assign_cluster-Served :
    (m : EppManager) (cluster : String) (t : Tables)
    → (pool_of m t).groups ≢ []
    → (assign_cluster m cluster t).1 ≡ none
    → find_valid_assignment (pool_of m t) (assign_cluster m cluster t).0.assignments cluster ≢ none
unfolding assign_cluster assign_unless pool_of
assign_cluster-Served m cluster t present done =
    let pool = pool_of m t in
    elim (Bool-cases (cluster == "")) [
      | inl h ↦ cc (rw (assign_cluster, h) at done)
      | inr named ↦ elim (Bool-cases m.reads_fail) [
        | inl h ↦ cc (rw (assign_cluster, named, h) at done)
        | inr read ↦ elim (Option-cases (find_valid_assignment pool t.assignments cluster)) [
          | inr (a, found) ↦
              let kept : assign_cluster m cluster t ≡ (t, none) = simp (named, read, found) refl in
              subst (λ r. find_valid_assignment pool r.0.assignments cluster ≢ none) (sym kept)
                (some-present (find_valid_assignment pool t.assignments cluster) a found)
          | inl missing ↦
              let run = allocate_and_upsert m pool t.assignments cluster t in
              let same : assign_cluster m cluster t ≡ run = simp (named, read, missing) refl in
              let full = build_pool-Full m.pool_name t.instances in
              subst (λ r. find_valid_assignment pool r.0.assignments cluster ≢ none) (sym same)
                (upsert-Served m pool cluster full present t (subst (λ r. r.1 ≡ none) same done))
        ]
      ]
    ]
