-- ===== src/Epp/Assign/Rounds/Converge.antt =====
-- A round of the reconciler leaves every EPP cluster assigned.
use ai_gateway_api.Prelude.{
  ◌||◌, ◌≡◌, ◌≢◌, refl, ap, sym, subst, ◌∙◌, inl, inr, String, true, false, List, [], ◌∷◌, Option,
  none, some, ◌==◌, eq_iff, All, Bool-cases, Option-cases,
}
use ai_gateway_api.Epp.Names.{sort_by, All-sort_by}
use ai_gateway_api.Epp.Pool.{Pool, is_served, build_pool}
use ai_gateway_api.Epp.Pool.Full.{Full, build_pool-Full}
use ai_gateway_api.Epp.Assign.{
  Assignment, Assignments, EppError, Tables, EppManager, find_valid_assignment, upsert_assignment,
  allocated, write_allocated, allocate_and_upsert, pool_of, repair_dangling,
}
use ai_gateway_api.Epp.Assign.Served.{find-upsert, allocation, some-present}
use ai_gateway_api.Epp.Assign.Rounds.{ensure_each, after_repair, reconcile, reconcile_clusters}

-- Every cluster has a valid assignment in the pool of the tables.
abbrev pub AllAssigned : EppManager → List String → Tables → Type 0
AllAssigned m clusters t =
    All (λ c. find_valid_assignment (pool_of m t) t.assignments c ≢ none) clusters

abbrev Has : Pool → Tables → String → Type 0
Has pool t cluster = find_valid_assignment pool t.assignments cluster ≢ none

find-upsert_other :
    (pool : Pool) (a : Assignment) (cluster : String) (assigned : Assignments)
    → (a.cluster == cluster) ≡ false
    → find_valid_assignment pool (upsert_assignment a assigned) cluster
      ≡ find_valid_assignment pool assigned cluster
unfolding find_valid_assignment upsert_assignment
find-upsert_other pool a cluster [] other = rw other refl
find-upsert_other pool a cluster (b ∷ bs) other = elim (Bool-cases (b.cluster == a.cluster)) [
  | inl same ↦
      let skipped : (b.cluster == cluster) ≡ false =
        subst (λ n. (n == cluster) ≡ false) (sym ((eq_iff b.cluster a.cluster).0 same)) other in
      rw (same, other, skipped) refl
  | inr differs ↦ rw (differs, find-upsert_other pool a cluster bs other) refl
]

-- What an allocation without a conflict and without an error has written.
abbrev Made : Pool → String → Tables → Tables → Type 0
Made pool cluster t t' =
    (a : Assignment) × (a.cluster ≡ cluster)
    × (is_served pool.groups a.group_name ≡ true)
    × (t'.assignments ≡ upsert_assignment a t.assignments)
    × (t'.instances ≡ t.instances)

module _ (m : EppManager) (pool : Pool) (full : All Full pool.groups) (present : pool.groups ≢ [])
    (alone : (c : String) → m.conflict c ≡ none) where
  upsert-Made :
      (cluster : String) (t : Tables)
      → (allocate_and_upsert m pool t.assignments cluster t).1 ≡ none
      → Made pool cluster t (allocate_and_upsert m pool t.assignments cluster t).0
  unfolding allocate_and_upsert allocated write_allocated
  upsert-Made cluster t done =
      let (a, found, named, served) = allocation pool t.assignments cluster full present in
      let run = write_allocated m cluster t (some a) in
      let same : allocate_and_upsert m pool t.assignments cluster t ≡ run =
        rw (found, allocated, alone cluster) refl in
      elim (Bool-cases (a.cluster == "" || m.write_fails cluster)) [
        | inl h ↦
            let failed : run.1 ≡ none = subst (λ r. r.1 ≡ none) same done in
            cc (rw (write_allocated, h) at failed)
        | inr h ↦
            subst (λ r. Made pool cluster t r.0) (sym same) (rw h (a, named, served, refl, refl))
      ]

  Made-Has : (cluster : String) (t t' : Tables) → Made pool cluster t t' → Has pool t' cluster
  Made-Has cluster t t' (a, named, served, wrote, insts) =
      let there : find_valid_assignment pool (upsert_assignment a t.assignments) a.cluster
          ≡ some a =
        find-upsert pool a t.assignments served in
      some-present (find_valid_assignment pool t'.assignments cluster) a
        (rw (wrote, sym named) there)

  Made-keeps :
      (cluster other : String) (t t' : Tables)
      → find_valid_assignment pool t.assignments cluster ≡ none
      → Made pool cluster t t'
      → Has pool t other
      → Has pool t' other
  Made-keeps cluster other t t' missing (a, named, served, wrote, insts) has =
      elim (Bool-cases (a.cluster == other)) [
        | inl same ↦
            let here : cluster ≡ other = sym named ∙ (eq_iff a.cluster other).0 same in
            elim (has
              (subst (λ c. find_valid_assignment pool t.assignments c ≡ none) here missing)) [ ]
        | inr differs ↦ rw (wrote, find-upsert_other pool a other t.assignments differs) has
      ]

  -- What a pass over some clusters has reached.
  abbrev Reached : List String → Tables → Tables → Type 0
  Reached clusters t t' =
      ((other : String) → Has pool t other → Has pool t' other)
      × All (Has pool t') clusters
      × (t'.instances ≡ t.instances)

  ensure_each-Reached :
      (clusters : List String) (t : Tables)
      → (ensure_each m pool clusters t).1 ≡ none
      → Reached clusters t (ensure_each m pool clusters t).0
  unfolding ensure_each
  ensure_each-Reached [] t done = ((λ other has. has), tt, refl)
  ensure_each-Reached (c ∷ cs) t done =
      elim (Option-cases (find_valid_assignment pool t.assignments c)) [
        | inr (a, found) ↦
            let rest = ensure_each m pool cs t in
            let same : ensure_each m pool (c ∷ cs) t ≡ rest = rw (ensure_each, found) refl in
            let (keeps, all, insts) =
              ensure_each-Reached cs t (subst (λ r. r.1 ≡ none) same done) in
            subst (λ r. Reached (c ∷ cs) t r.0) (sym same)
              (
                keeps,
                (keeps c (some-present (find_valid_assignment pool t.assignments c) a found), all),
                insts,
              )
        | inl missing ↦
            let run = allocate_and_upsert m pool t.assignments c t in
            elim (Option-cases run.1) [
              | inr (failure, failed) ↦
                  let same : ensure_each m pool (c ∷ cs) t ≡ (run.0, some failure) =
                    rw (ensure_each, missing, failed) refl in
                  cc (subst (λ r. r.1 ≡ none) same done)
              | inl worked ↦
                  let rest = ensure_each m pool cs run.0 in
                  let same : ensure_each m pool (c ∷ cs) t ≡ rest =
                    rw (ensure_each, missing, worked) refl in
                  let made = upsert-Made c t worked in
                  let (keeps, all, insts) =
                    ensure_each-Reached cs run.0 (subst (λ r. r.1 ≡ none) same done) in
                  let (a, named, served, wrote, stays) = made in
                  subst (λ r. Reached (c ∷ cs) t r.0) (sym same)
                    (
                      (λ other has. keeps other (Made-keeps c other t run.0 missing made has)),
                      (keeps c (Made-Has c t run.0 made), all),
                      insts ∙ stays,
                    )
            ]
      ]

ensured-converges :
    (m : EppManager) (clusters : List String) (t : Tables)
    → ((c : String) → m.conflict c ≡ none)
    → (pool_of m t).groups ≢ []
    → (ensure_each m (pool_of m t) (sort_by (λ c. c) clusters) t).1 ≡ none
    → AllAssigned m clusters (ensure_each m (pool_of m t) (sort_by (λ c. c) clusters) t).0
unfolding pool_of
ensured-converges m clusters t alone present done =
    let pool = pool_of m t in
    let sorted = sort_by (λ c. c) clusters in
    let final = (ensure_each m pool sorted t).0 in
    let (keeps, all, insts) =
      ensure_each-Reached m pool (build_pool-Full m.pool_name t.instances) present alone sorted t
        done in
    subst
      (λ is.
        All (λ c. find_valid_assignment (build_pool m.pool_name is) final.assignments c ≢ none)
          clusters)
      (sym insts) (All-sort_by (λ c. c) (Has pool final) clusters all)

repaired-converges :
    (m : EppManager) (clusters : List String) (out : Tables × Option EppError)
    → ((c : String) → m.conflict c ≡ none)
    → (pool_of m out.0).groups ≢ []
    → (after_repair m clusters out).1 ≡ none
    → AllAssigned m clusters (after_repair m clusters out).0
unfolding after_repair pool_of
repaired-converges m clusters (t, some e) alone present done = cc done
repaired-converges m clusters (t, none) alone present done = elim (Bool-cases m.clusters_fail) [
  | inl failed ↦ cc (rw failed at done)
  | inr listed ↦ rw listed (ensured-converges m clusters t alone present (rw listed at done))
]

-- A round of the reconciler that reports no error, in which no other writer comes first, leaves
-- every EPP cluster with a valid assignment in the pool, where the pool has a group.
pub reconcile-converges :
    (m : EppManager) (clusters : List String) (t : Tables)
    → m.epp_clusters ≡ some clusters
    → ((c : String) → m.conflict c ≡ none)
    → (pool_of m (repair_dangling m t).0).groups ≢ []
    → (reconcile m t).1 ≡ none
    → AllAssigned m clusters (reconcile m t).0
unfolding reconcile reconcile_clusters
reconcile-converges m clusters t known alone present done =
    let same : reconcile m t ≡ reconcile_clusters m t (some clusters) =
      ap (reconcile_clusters m t) known in
    subst (λ r. AllAssigned m clusters r.0) (sym same)
      (repaired-converges m clusters (repair_dangling m t) alone present
        (subst (λ r. r.1 ≡ none) same done))
