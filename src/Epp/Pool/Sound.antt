-- ===== src/Epp/Pool/Sound.antt =====
-- What a validated pool promises, and the groups that are built from it.
use ai_gateway_api.Prelude.{
  ◌≡◌, refl, subst, ◌≢◌, ◌⊎◌, inl, inr, String, Bool, true, false, List, [], ◌∷◌, Option, none,
  some, ◌==◌, eq_iff, eq_refl, elem, All, map, Bool-cases, arith, length, suc, ap,
}
use ai_gateway_api.Epp.Pool.{
  Instance, GroupRequest, Checked, valid, invalid, PoolError, validate_host, validate_port,
  instance_address, check_instance, check_sized, check_group, followed_by, check_groups,
  validate_groups,
}

-- No two entries have one key.
abbrev pub Distinct {ℓ} : {A : Type ℓ} → (A → String) → List A → Type 0
Distinct key [] = Unit
Distinct key (x ∷ xs) = (elem (key x) (map key xs) ≡ false) × Distinct key xs

abbrev pub Sound : (String → Bool) → Instance → Type 0
Sound parses_ip inst =
    (inst.id ≢ "")
    × (inst.group_name ≢ "")
    × (validate_host parses_ip inst.host ≡ true)
    × (validate_port inst.port ≡ true)

-- The keys are new to what was seen, and to each other.
abbrev Fresh : (Instance → String) → List String → List Instance → Type 0
Fresh key seen [] = Unit
Fresh key seen (x ∷ xs) = (elem (key x) seen ≡ false) × Fresh key (key x ∷ seen) xs

unseen :
    (key : Instance → String) (k : String) (seen : List String) (xs : List Instance)
    → elem k seen ≡ true
    → Fresh key seen xs
    → elem k (map key xs) ≡ false
unseen key k seen [] h fresh = refl
unseen key k seen (x ∷ xs) h (new, fresh) =
    let rest : elem k (map key xs) ≡ false =
      unseen key k (key x ∷ seen) xs (ground (arith, h)) fresh in
    elim (Bool-cases (key x == k)) [
      | inl same ↦
          let again : elem k seen ≡ false = rw ((eq_iff (key x) k).0 same) at new in cc (h, again)
      | inr other ↦ rw (other, rest) refl
    ]

Fresh-Distinct :
    (key : Instance → String) (seen : List String) (xs : List Instance)
    → Fresh key seen xs
    → Distinct key xs
Fresh-Distinct key seen [] fresh = tt
Fresh-Distinct key seen (x ∷ xs) (new, fresh) = (
  unseen key (key x) (key x ∷ seen) xs (ground (arith, eq_refl (key x))) fresh,
  Fresh-Distinct key (key x ∷ seen) xs fresh,
)

not_empty : (s : String) → (s == "") ≡ false → s ≢ ""
not_empty s h e = let same : (s == "") ≡ true = (eq_iff s "").1 e in cc (h, same)

-- What one check accepts.
abbrev Accepted : (String → Bool) → List String → List String → List String → Instance → Type 0
Accepted parses_ip names ids addresses inst =
    Sound parses_ip inst
    × (elem inst.group_name names ≡ false)
    × (elem inst.id ids ≡ false)
    × (elem (instance_address inst) addresses ≡ false)

instance-Accepted :
    (parses_ip : String → Bool) (names ids addresses : List String) (name : String)
    (inst out : Instance)
    → name ≢ ""
    → elem name names ≡ false
    → check_instance parses_ip ids addresses name inst ≡ valid out
    → Accepted parses_ip names ids addresses out
unfolding check_instance instance_address
instance-Accepted parses_ip names ids addresses name inst out named new e =
    elim (Bool-cases (inst.id == "")) [
      | inl h ↦ cc (rw h at e)
      | inr has_id ↦ elim (Bool-cases (elem inst.id ids)) [
        | inl h ↦ cc (rw (has_id, h) at e)
        | inr new_id ↦ elim (Bool-cases (validate_host parses_ip inst.host)) [
          | inr h ↦ cc (rw (has_id, new_id, h) at e)
          | inl host ↦ elim (Bool-cases (validate_port inst.port)) [
            | inr h ↦ cc (rw (has_id, new_id, host, h) at e)
            | inl port ↦ elim (Bool-cases (elem (instance_address inst) addresses)) [
              | inl h ↦ cc (rw (has_id, new_id, host, port, h) at e)
              | inr new_address ↦
                  let picked : valid (record inst { group_name = name }) ≡ valid out =
                    rw (has_id, new_id, host, port, new_address) at e in
                  let made : record inst { group_name = name } ≡ out = cc picked in
                  subst (Accepted parses_ip names ids addresses) made (
                    ((λ h. not_empty inst.id has_id h), named, host, port),
                    new,
                    new_id,
                    new_address,
                  )
            ]
          ]
        ]
      ]
    ]

sized-Accepted :
    (parses_ip : String → Bool) (names ids addresses : List String) (name : String)
    (insts : List (Option Instance)) (out : Instance)
    → name ≢ ""
    → elem name names ≡ false
    → check_sized parses_ip ids addresses name insts ≡ valid out
    → Accepted parses_ip names ids addresses out
unfolding check_sized
sized-Accepted parses_ip names ids addresses name [] out named new e = cc e
sized-Accepted parses_ip names ids addresses name (none ∷ []) out named new e = cc e
sized-Accepted parses_ip names ids addresses name (some inst ∷ []) out named new e =
    instance-Accepted parses_ip names ids addresses name inst out named new e
sized-Accepted parses_ip names ids addresses name (none ∷ i ∷ is) out named new e = cc e
sized-Accepted parses_ip names ids addresses name (some inst ∷ i ∷ is) out named new e = cc e

group-Accepted :
    (parses_ip : String → Bool) (names ids addresses : List String) (g : Option GroupRequest)
    (out : Instance)
    → check_group parses_ip names ids addresses g ≡ valid out
    → Accepted parses_ip names ids addresses out
unfolding check_group
group-Accepted parses_ip names ids addresses none out e = cc e
group-Accepted parses_ip names ids addresses (some g) out e = elim (Bool-cases (g.name == "")) [
  | inl h ↦ cc (rw h at e)
  | inr named ↦ elim (Bool-cases (elem g.name names)) [
    | inl h ↦ cc (rw (named, h) at e)
    | inr new ↦
        sized-Accepted parses_ip names ids addresses g.name g.instances out
          (λ h. not_empty g.name named h) new (rw (named, new) at e)
  ]
]

-- The three keys are fresh at once, and every instance is sound.
abbrev AllFresh : (String → Bool) → List String → List String → List String → List Instance → Type 0
AllFresh parses_ip names ids addresses flat =
    Fresh (λ i. i.group_name) names flat
    × Fresh (λ i. i.id) ids flat
    × Fresh instance_address addresses flat
    × All (Sound parses_ip) flat

Checked-cases {ℓ} :
    {A : Type ℓ} (c : Checked A) → ((e : PoolError) × (c ≡ invalid e)) ⊎ ((a : A) × (c ≡ valid a))
Checked-cases (invalid e) = inl (e, refl)
Checked-cases (valid a) = inr (a, refl)

extend :
    (parses_ip : String → Bool) (names ids addresses : List String) (inst : Instance)
    (rest : List Instance)
    → Accepted parses_ip names ids addresses inst
    → AllFresh parses_ip
        (inst.group_name ∷ names)
        (inst.id ∷ ids)
        (instance_address inst ∷ addresses)
        rest
    → AllFresh parses_ip names ids addresses (inst ∷ rest)
extend parses_ip names ids addresses inst rest (sound, name, id, address) (ns, is, places, sounds) =
    ((name, ns), (id, is), (address, places), (sound, sounds))

groups-AllFresh :
    (parses_ip : String → Bool) (names ids addresses : List String)
    (groups : List (Option GroupRequest)) (flat : List Instance)
    → check_groups parses_ip names ids addresses groups ≡ valid flat
    → AllFresh parses_ip names ids addresses flat × (length flat ≡ length groups)
unfolding check_groups followed_by
groups-AllFresh parses_ip names ids addresses [] flat e =
    let made : [] ≡ flat = cc e in
    subst (λ f. AllFresh parses_ip names ids addresses f × (length f ≡ 0)) made
      ((tt, tt, tt, tt), refl)
groups-AllFresh parses_ip names ids addresses (g ∷ gs) flat e =
    elim (Checked-cases (check_group parses_ip names ids addresses g)) [
      | inl (x, run) ↦ cc (rw (check_groups, run) at e)
      | inr (inst, run) ↦
          let names' = inst.group_name ∷ names in
          let ids' = inst.id ∷ ids in
          let addresses' = instance_address inst ∷ addresses in
          let more = check_groups parses_ip names' ids' addresses' gs in
          elim (Checked-cases more) [
            | inl (x, after) ↦ cc (rw (check_groups, run, after) at e)
            | inr (rest, after) ↦
                let picked : valid (inst ∷ rest) ≡ valid flat =
                  rw (check_groups, run, after) at e in
                let made : inst ∷ rest ≡ flat = cc picked in
                let accepted = group-Accepted parses_ip names ids addresses g inst run in
                let tail = groups-AllFresh parses_ip names' ids' addresses' gs rest after in
                subst (λ f. AllFresh parses_ip names ids addresses f × (length f ≡ suc (length gs)))
                  made
                  (extend parses_ip names ids addresses inst rest accepted tail.0, ap suc tail.1)
          ]
    ]

-- A pool that the checks accept has one instance for each group of the request, no two of them with
-- one group name, one id or one address, and each with an id, a group name, a host that is an
-- address or a host name, and a port from 1 to 65535.
pub validate_groups-Sound :
    (parses_ip : String → Bool) (groups : List (Option GroupRequest)) (flat : List Instance)
    → validate_groups parses_ip groups ≡ valid flat
    → (length flat ≡ length groups)
      × Distinct (λ i. i.group_name) flat
      × Distinct (λ i. i.id) flat
      × Distinct instance_address flat
      × All (Sound parses_ip) flat
unfolding validate_groups
validate_groups-Sound parses_ip [] flat e = cc e
validate_groups-Sound parses_ip (g ∷ gs) flat e =
    let ((names, ids, addresses, sounds), size) =
      groups-AllFresh parses_ip [] [] [] (g ∷ gs) flat e in
    (
      size,
      Fresh-Distinct (λ i. i.group_name) [] flat names,
      Fresh-Distinct (λ i. i.id) [] flat ids,
      Fresh-Distinct instance_address [] flat addresses,
      sounds,
    )
