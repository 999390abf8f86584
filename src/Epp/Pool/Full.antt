-- ===== src/Epp/Pool/Full.antt =====
-- The groups that are built from a table have instances.
use ai_gateway_api.Prelude.{
  ◌≡◌, ◌≢◌, refl, inl, inr, String, true, false, List, [], ◌∷◌, some, All-map, ◌==◌, eq_refl, elem,
  map, All, arith, Bool-cases,
}
use ai_gateway_api.Epp.Names.{name_lt, insert_by, sort_by, sort_by-All}
use ai_gateway_api.Epp.Pool.{
  Instance, Group, build_pool, group_names, of_group, build_group, is_served_group,
}

abbrev IsFull : List Instance → Type 0
IsFull insts = insts ≢ []

insert_by-IsFull :
    (key : Instance → String) (i : Instance) (is : List Instance) → IsFull (insert_by key i is)
unfolding insert_by
insert_by-IsFull key i [] e = cc e
insert_by-IsFull key i (j ∷ is) e = elim (Bool-cases (name_lt (key j) (key i))) [
  | inl h ↦ cc (rw (insert_by, h) at e)
  | inr h ↦ cc (rw (insert_by, h) at e)
]

sort_by-IsFull :
    (key : Instance → String) (is : List Instance) → IsFull is → IsFull (sort_by key is)
unfolding sort_by
sort_by-IsFull key [] full = full
sort_by-IsFull key (i ∷ is) full = insert_by-IsFull key i (sort_by key is)

of_group-IsFull :
    (name : String) (insts : List Instance)
    → elem name (map (λ i. i.group_name) insts) ≡ true
    → IsFull (of_group name insts)
unfolding of_group
of_group-IsFull name [] h e = cc h
of_group-IsFull name (i ∷ is) h e = elim (Bool-cases (i.group_name == name)) [
  | inl same ↦ cc (rw (of_group, same) at e)
  | inr other ↦ of_group-IsFull name is (rw other at h) (rw (of_group, other) at e)
]

group_names-present :
    (insts : List Instance)
    → All (λ n. elem n (map (λ i. i.group_name) insts) ≡ true) (group_names insts)
unfolding group_names
group_names-present [] = tt
group_names-present (i ∷ is) =
    let here = map (λ j. j.group_name) (i ∷ is) in
    let rest : All (λ n. elem n here ≡ true) (group_names is) =
      All-map (λ n. elem n (map (λ j. j.group_name) is) ≡ true) (λ n. elem n here ≡ true)
        (λ n h. ground (arith, h)) (group_names is) (group_names-present is) in
    elim (Bool-cases (elem i.group_name (group_names is))) [
      | inl h ↦ rw h rest
      | inr h ↦ rw h (ground (arith, eq_refl i.group_name), rest)
    ]

Full-served : (g : Group) → IsFull g.instances → is_served_group (some g) ≡ true
unfolding is_served_group
Full-served g full = by_cases g.instances full
  where
    by_cases : (is : List Instance) → IsFull is → (elim is [ [] ↦ false | _ ↦ true ]) ≡ true
    by_cases [] h = elim (h refl) [ ]
    by_cases (i ∷ is) h = refl

abbrev pub Full : Group → Type 0
Full g = is_served_group (some g) ≡ true

map-Full :
    (insts : List Instance) (names : List String)
    → All (λ n. IsFull (of_group n insts)) names
    → All Full (map (build_group insts) names)
unfolding build_group
map-Full insts [] ps = tt
map-Full insts (n ∷ ns) (p, ps) = (
  Full-served (build_group insts n) (sort_by-IsFull (λ i. i.id) (of_group n insts) p),
  map-Full insts ns ps,
)

-- Every group of a pool that is built from a table has an instance.
pub build_pool-Full :
    (name : String) (insts : List Instance) → All Full (build_pool name insts).groups
unfolding build_pool
build_pool-Full name insts =
    let present =
      All-map (λ n. elem n (map (λ i. i.group_name) insts) ≡ true) (λ n. IsFull (of_group n insts))
        (λ n h. of_group-IsFull n insts h) (group_names insts) (group_names-present insts) in
    map-Full insts (sort_by (λ n. n) (group_names insts))
      (sort_by-All (λ n. n) (λ n. IsFull (of_group n insts)) (group_names insts) present)
