-- ===== src/Provider/Text.antt =====
-- The texts that a provider's fields may hold (model/iprovider/provider.go: ProviderName,
-- K8sPoolName, validateProviderDescription, validateUpstreamBasePath, validateTimeZone).
use ai_gateway_api.Prelude.{
  ℕ, String, Bool, not, ◌&&◌, ◌||◌, Option, none, some, List, [], ◌∷◌, ◌==◌, nat_eq, ltb, leb,
  length, any, all, if◌then◌else◌, utf8, codes, contains, trim_space,
}

pub data TextError : Type 0 where
  bad_length : TextError
  has_whitespace : TextError
  invalid_characters : TextError
  bad_edge : TextError
  control_characters : TextError
  base_path_empty : TextError
  base_path_too_long : TextError
  base_path_not_absolute : TextError
  base_path_trailing_slash : TextError
  base_path_query : TextError
  base_path_dots : TextError
  invalid_time_zone : TextError

-- `[a-zA-Z0-9_.-]`.
unfoldable pub is_name_byte : ℕ → Bool
is_name_byte c =
    (leb b'a' c && leb c b'z')
    || (leb b'A' c && leb c b'Z')
    || (leb b'0' c && leb c b'9')
    || nat_eq c b'_'
    || nat_eq c b'.'
    || nat_eq c b'-'

unfoldable pub is_edge_byte : ℕ → Bool
is_edge_byte c = nat_eq c b'.' || nat_eq c b'-' || nat_eq c b'_'

abbrev pub last_byte : ℕ → List ℕ → ℕ
last_byte c [] = c
last_byte c (d ∷ ds) = last_byte d ds

unfoldable pub edge_error : List ℕ → Option TextError
unfolding is_edge_byte
edge_error [] = none
edge_error (c ∷ cs) =
    if is_edge_byte c || is_edge_byte (last_byte c cs) then some bad_edge else none

unfoldable pub name_error : ℕ → List ℕ → Option TextError
unfolding is_name_byte edge_error
name_error most bytes =
    if ltb (length bytes) 1 || ltb most (length bytes)
    then some bad_length
    else if not (all is_name_byte bytes)
    then some invalid_characters
    else edge_error bytes

unfoldable pub provider_name : String → Option TextError
unfolding name_error
provider_name s = name_error 64 (utf8 s)

unfoldable pub k8s_pool_name : String → Option TextError
unfolding is_name_byte edge_error trim_space
k8s_pool_name s =
    if ltb (length (utf8 s)) 1 || ltb 64 (length (utf8 s))
    then some bad_length
    else if not (trim_space s == s)
    then some has_whitespace
    else if not (all is_name_byte (utf8 s))
    then some invalid_characters
    else edge_error (utf8 s)

unfoldable pub validate_provider_description : String → Option TextError
validate_provider_description s =
    if ltb 256 (length (utf8 s))
    then some bad_length
    else if any (λ r. ltb r 32 || nat_eq r 127) (codes s)
    then some control_characters
    else none

unfoldable pub path_error : List ℕ → Option TextError
path_error [] = some base_path_empty
path_error (c ∷ cs) =
    if ltb 128 (length (c ∷ cs))
    then some base_path_too_long
    else if not (nat_eq c b'/')
    then some base_path_not_absolute
    else if nat_eq (last_byte c cs) b'/'
    then some base_path_trailing_slash
    else if any (λ b. nat_eq b b'?' || nat_eq b b'#') (c ∷ cs)
    then some base_path_query
    else if contains (b'.' ∷ b'.' ∷ []) (c ∷ cs)
    then some base_path_dots
    else none

unfoldable pub validate_upstream_base_path : String → Option TextError
unfolding path_error
validate_upstream_base_path base = path_error (utf8 base)

-- `known_zone` is whether `time.LoadLocation` finds the name.
unfoldable pub validate_time_zone : (String → Bool) → String → Option TextError
unfolding trim_space
validate_time_zone known_zone tz =
    if trim_space tz == "" then none else if known_zone tz then none else some invalid_time_zone
