-- ===== src/Epp/Assign/Repair.antt =====
-- The group that a repair moves clusters to (model/epp_pool/assignment.go, RepairDangling).
use ai_gateway_api.Prelude.{
  ap, ◌≡◌, refl, sym, subst, ◌⊎◌, inl, inr, String, Bool, true, false, ◌||◌, List, [], ◌∷◌, Option,
  none, some, All, All-map, ◌==◌, Bool-cases, Option-cases,
}
use ai_gateway_api.Epp.Names.{sort_by}
use ai_gateway_api.Epp.Pool.{Group, Pool}
use ai_gateway_api.Epp.Assign.{
  Assignment, Assignments, EppManager, EppError, Tables, candidate_groups, select, allocate_from,
  allocate_cluster, RepairAction, keep, clear, repair_one, reassign, reassigned,
  find_valid_assignment, upsert_assignment, delete_assignment, apply_repair, changes, repair_each,
  export_changed, pool_of, repair_dangling,
}

-- The group that the allocation on a list takes, whichever cluster it is for.
abbrev group_of : Option Assignment → String
group_of none = ""
group_of (some a) = a.group_name

from-group_of :
    (assigned : Assignments) (cluster : String) (groups : List Group) (a : Assignment)
    → allocate_from assigned cluster groups ≡ some a
    → a.group_name ≡ group_of (allocate_from assigned "" groups)
unfolding allocate_from
from-group_of assigned cluster [] a e = cc e
from-group_of assigned cluster (g ∷ gs) a e =
    let made : record { cluster = cluster; group_name = (select assigned g gs).name } ≡ a = cc e in
    sym (ap (λ r. r.group_name) made)

allocate_cluster-group_of :
    (pool : Pool) (assigned : Assignments) (cluster : String) (a : Assignment)
    → allocate_cluster pool assigned cluster ≡ some a
    → a.group_name ≡ group_of (allocate_cluster pool assigned "")
unfolding allocate_cluster
allocate_cluster-group_of pool assigned cluster a e =
    from-group_of assigned cluster (candidate_groups pool) a e

module _ (P : Assignment → Type 0) where
  upsert_assignment-All :
      (a : Assignment) (rows : Assignments) → P a → All P rows → All P (upsert_assignment a rows)
  unfolding upsert_assignment
  upsert_assignment-All a [] p ps = (p, tt)
  upsert_assignment-All a (b ∷ bs) p (q, qs) = elim (Bool-cases (b.cluster == a.cluster)) [
    | inl same ↦ rw same (p, qs)
    | inr other ↦ rw other (q, upsert_assignment-All a bs p qs)
  ]

  delete_assignment-All :
      (cluster : String) (rows : Assignments) → All P rows → All P (delete_assignment cluster rows)
  unfolding delete_assignment
  delete_assignment-All cluster [] ps = tt
  delete_assignment-All cluster (b ∷ bs) (q, qs) = elim (Bool-cases (b.cluster == cluster)) [
    | inl same ↦ rw same (delete_assignment-All cluster bs qs)
    | inr other ↦ rw other (q, delete_assignment-All cluster bs qs)
  ]

  -- What a repair may write.
  abbrev Writes : RepairAction → Type 0
  Writes keep = Unit
  Writes clear = Unit
  Writes (reassign a) = P a

  apply_repair-All :
      (m : EppManager) (cluster : String) (action : RepairAction) (t : Tables)
      → Writes action
      → All P t.assignments
      → All P (apply_repair m cluster action t).0.assignments
  apply_repair-All m cluster keep t w ps = ps
  apply_repair-All m cluster clear t w ps = elim (Bool-cases (m.write_fails cluster)) [
    | inl failed ↦ rw failed ps
    | inr written ↦ rw written (delete_assignment-All cluster t.assignments ps)
  ]
  apply_repair-All m cluster (reassign a) t w ps =
      elim (Bool-cases (a.cluster == "" || m.write_fails cluster)) [
        | inl failed ↦ rw failed ps
        | inr written ↦ rw written (upsert_assignment-All a t.assignments w ps)
      ]

  module _ (pool : Pool) (read : Assignments)
      (fits : (cluster : String) (a : Assignment)
        → allocate_cluster pool read cluster ≡ some a
        → P a) where
    reassigned-Writes :
        (cluster : String) (o : Option Assignment)
        → allocate_cluster pool read cluster ≡ o
        → Writes (reassigned o)
    reassigned-Writes cluster none e = tt
    reassigned-Writes cluster (some a) e = fits cluster a e

    repair_one-Writes : (cluster : String) → Writes (repair_one pool read cluster)
    unfolding repair_one
    repair_one-Writes cluster = elim (Option-cases (find_valid_assignment pool read cluster)) [
      | inr (b, valid) ↦
          let same : repair_one pool read cluster ≡ keep = rw (repair_one, valid) refl in
          subst Writes (sym same) tt
      | inl dangling ↦
          let same : repair_one pool read cluster
              ≡ reassigned (allocate_cluster pool read cluster) =
            rw (repair_one, dangling) refl in
          subst Writes (sym same)
            (reassigned-Writes cluster (allocate_cluster pool read cluster) refl)
    ]

    repair_each-All :
        (m : EppManager) (rows : Assignments) (changed : Bool) (t : Tables)
        → All P t.assignments
        → All P (repair_each m pool read rows changed t).0.assignments
    unfolding repair_each
    repair_each-All m [] changed t ps = ps
    repair_each-All m (a ∷ rest) changed t ps =
        let action = repair_one pool read a.cluster in
        let out = apply_repair m a.cluster action t in
        let kept = apply_repair-All m a.cluster action t (repair_one-Writes a.cluster) ps in
        elim (Option-cases out.1) [
          | inr (failure, failed) ↦
              let same : repair_each m pool read (a ∷ rest) changed t
                  ≡ (out.0, some failure, changed) =
                rw (repair_each, failed) refl in
              subst (λ r. All P r.0.assignments) (sym same) kept
          | inl written ↦
              let later = repair_each m pool read rest (changed || changes action) out.0 in
              let same : repair_each m pool read (a ∷ rest) changed t ≡ later =
                rw (repair_each, written) refl in
              subst (λ r. All P r.0.assignments) (sym same)
                (repair_each-All m rest (changed || changes action) out.0 kept)
        ]

export_changed-assignments :
    (t : Tables) (e : Option EppError) (changed : Bool)
    → (export_changed (t, e, changed)).0.assignments ≡ t.assignments
unfolding export_changed
export_changed-assignments t (some e) changed = refl
export_changed-assignments t none true = refl
export_changed-assignments t none false = refl

abbrev pub Stored : Assignments → Assignment → Type 0
Stored [] a = ⊥
Stored (b ∷ bs) a = (b ≡ a) ⊎ Stored bs a

All-Stored : (rows : Assignments) → All (Stored rows) rows
All-Stored [] = tt
All-Stored (a ∷ rows) = (inl refl, All-map _ _ (λ b h. inr h) rows (All-Stored rows))

-- One run of the repair, also one that stops at an error, moves clusters to one group alone: there
-- is a group such that each row that it leaves was there before or is in that group, however many
-- rows dangled.
pub repair_dangling-same_group :
    (m : EppManager) (t : Tables)
    → (group : String) × All
        (λ a. Stored t.assignments a ⊎ (a.group_name ≡ group))
        (repair_dangling m t).0.assignments
unfolding repair_dangling
repair_dangling-same_group m t =
    let pool = pool_of m t in
    let sorted = sort_by (λ a. a.cluster) t.assignments in
    let group = group_of (allocate_cluster pool sorted "") in
    let before =
      All-map _ (λ a. Stored t.assignments a ⊎ (a.group_name ≡ group)) (λ a h. inl h) t.assignments
        (All-Stored t.assignments) in
    let out = repair_each m pool sorted sorted false t in
    let loop =
      repair_each-All (λ a. Stored t.assignments a ⊎ (a.group_name ≡ group)) pool sorted
        (λ cluster a e. inr (allocate_cluster-group_of pool sorted cluster a e)) m sorted false t
        before in
    (
      group,
      elim (Bool-cases m.reads_fail) [
        | inl failed ↦ rw failed before
        | inr read ↦ rw read (
            subst (All (λ a. Stored t.assignments a ⊎ (a.group_name ≡ group)))
              (sym (export_changed-assignments out.0 out.1 out.2)) loop)
      ],
    )
