-- ===== src/Epp/Pool.antt =====
-- The instance pool (model/epp_pool/epp_pool.go, and the host and port rules of
-- model/epp_pool/epp_config.go).
pub mod Sound
pub mod Full
use ai_gateway_api.Prelude.{
  ℕ, suc, ◌+◌, String, Bool, true, false, not, ◌&&◌, ◌||◌, List, [], ◌∷◌, Option, none, some, ◌==◌,
  ltb, leb, nat_eq, length, all, any, elem, map, if◌then◌else◌, codes, Int64, lt_int64, format_int,
  join_host_port,
}
use ai_gateway_api.Epp.Names.{sort_by}

-- `InstanceParam`.
pub record Instance : Type 0 where
  pub id : String
  pub host : String
  pub port : Int64
  pub group_name : String

-- `InstanceGroup` and `EppPool`.
pub record Group : Type 0 where
  pub name : String
  pub instances : List Instance

pub record Pool : Type 0 where
  pub name : String
  pub groups : List Group

-- A group as a request has it, where an entry may be null.
pub record GroupRequest : Type 0 where
  pub name : String
  pub instances : List (Option Instance)

pub data PoolError : Type 0 where
  no_group null_group empty_group_name : PoolError
  duplicate_group group_size : String → PoolError
  null_instance empty_id : String → PoolError
  duplicate_id bad_host bad_port duplicate_address : String → PoolError

pub data Checked {ℓ} (A : Type ℓ) : Type ℓ where
  valid : A → Checked A
  invalid : PoolError → Checked A

abbrev is_alnum : ℕ → Bool
is_alnum c =
    (leb b'a' c && leb c b'z') || ((leb b'A' c && leb c b'Z') || (leb b'0' c && leb c b'9'))

last_is_alnum : List ℕ → Bool
last_is_alnum [] = false
last_is_alnum (c ∷ []) = is_alnum c
last_is_alnum (c ∷ d ∷ cs) = last_is_alnum (d ∷ cs)

-- `hostnameLabel`: letters, digits and hyphens, at most 63, with no hyphen at either end.
is_label : List ℕ → Bool
unfolding last_is_alnum
is_label [] = false
is_label (c ∷ cs) =
    is_alnum c
    && (last_is_alnum (c ∷ cs)
        && (all (λ d. is_alnum d || nat_eq d b'-') cs && leb (length (c ∷ cs)) 63))

abbrev push : ℕ → List (List ℕ) → List (List ℕ)
push c [] = (c ∷ []) ∷ []
push c (label ∷ labels) = (c ∷ label) ∷ labels

-- `strings.Split(host, ".")`.
labels : List ℕ → List (List ℕ)
labels [] = [] ∷ []
labels (c ∷ cs) = let rest = labels cs in if nat_eq c b'.' then [] ∷ rest else push c rest

-- `validateHost`. Go counts bytes, and a host with a wider character has a bad label in any case;
-- `parses_ip` is `net.ParseIP` having an answer.
unfoldable pub validate_host : (String → Bool) → String → Bool
unfolding is_label labels
validate_host parses_ip host =
    not (host == "")
    && (leb (length (codes host)) 255 && (parses_ip host || all is_label (labels (codes host))))

-- `validatePort`.
unfoldable pub validate_port : Int64 → Bool
validate_port port = not (lt_int64 port 1 || lt_int64 65535 port)

-- `instanceAddress`.
unfoldable pub instance_address : Instance → String
unfolding join_host_port format_int
instance_address inst = join_host_port inst.host (format_int inst.port)

-- The checks on an instance, after those on its group.
unfoldable pub check_instance :
    (String → Bool) → List String → List String → String → Instance → Checked Instance
unfolding validate_host validate_port instance_address
check_instance parses_ip ids addresses group_name inst =
    if inst.id == ""
    then invalid (empty_id group_name)
    else if elem inst.id ids
    then invalid (duplicate_id inst.id)
    else if not (validate_host parses_ip inst.host)
    then invalid (bad_host inst.id)
    else if not (validate_port inst.port)
    then invalid (bad_port inst.id)
    else if elem (instance_address inst) addresses
    then invalid (duplicate_address (instance_address inst))
    else valid (record inst { group_name = group_name })

-- `validateGroupSize`: the loop over the instances runs once.
check_sized :
    (String → Bool) → List String → List String → String → List (Option Instance) → Checked Instance
unfolding check_instance
check_sized parses_ip ids addresses name (none ∷ []) = invalid (null_instance name)
check_sized parses_ip ids addresses name (some inst ∷ []) =
    check_instance parses_ip ids addresses name inst
check_sized parses_ip ids addresses name _ = invalid (group_size name)

check_group :
    (String → Bool)
    → List String
    → List String
    → List String
    → Option GroupRequest
    → Checked Instance
unfolding check_sized
check_group parses_ip names ids addresses none = invalid null_group
check_group parses_ip names ids addresses (some g) =
    if g.name == ""
    then invalid empty_group_name
    else if elem g.name names
    then invalid (duplicate_group g.name)
    else check_sized parses_ip ids addresses g.name g.instances

followed_by : Instance → Checked (List Instance) → Checked (List Instance)
followed_by inst (valid flat) = valid (inst ∷ flat)
followed_by inst (invalid e) = invalid e

-- The loop over the groups, with the names, ids and addresses that it has seen.
check_groups :
    (String → Bool)
    → List String
    → List String
    → List String
    → List (Option GroupRequest)
    → Checked (List Instance)
unfolding check_group followed_by instance_address
check_groups parses_ip names ids addresses [] = valid []
check_groups parses_ip names ids addresses (g ∷ gs) =
    elim (check_group parses_ip names ids addresses g) [
      | invalid e ↦ invalid e
      | valid inst ↦ followed_by inst (
          check_groups parses_ip (inst.group_name ∷ names) (inst.id ∷ ids)
            (instance_address inst ∷ addresses) gs)
    ]

-- `validateGroups`.
unfoldable pub validate_groups :
    (String → Bool) → List (Option GroupRequest) → Checked (List Instance)
unfolding check_groups
validate_groups parses_ip [] = invalid no_group
validate_groups parses_ip (g ∷ gs) = check_groups parses_ip [] [] [] (g ∷ gs)

-- The names of the groups, each once.
group_names : List Instance → List String
group_names [] = []
group_names (inst ∷ insts) =
    let rest = group_names insts in
    if elem inst.group_name rest then rest else inst.group_name ∷ rest

unfoldable pub of_group : String → List Instance → List Instance
of_group name [] = []
of_group name (inst ∷ insts) =
    let rest = of_group name insts in if inst.group_name == name then inst ∷ rest else rest

build_group : List Instance → String → Group
unfolding of_group sort_by
build_group insts name = record {
  name = name;
  instances = sort_by (λ i. i.id) (of_group name insts);
}

-- `buildPool`.
unfoldable pub build_pool : String → List Instance → Pool
unfolding build_group group_names sort_by
build_pool name insts = record {
  name = name;
  groups = map (build_group insts) (sort_by (λ n. n) (group_names insts));
}

-- `findGroup`.
unfoldable pub find_group : List Group → String → Option Group
find_group [] name = none
find_group (g ∷ gs) name = if g.name == name then some g else find_group gs name

unfoldable pub is_served_group : Option Group → Bool
is_served_group none = false
is_served_group (some g) = elim g.instances [ [] ↦ false | _ ↦ true ]

-- The group is in the pool and not empty.
unfoldable pub is_served : List Group → String → Bool
unfolding is_served_group find_group
is_served groups name = is_served_group (find_group groups name)
