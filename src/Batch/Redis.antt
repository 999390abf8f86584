-- ===== src/Batch/Redis.antt =====
-- The Redis keys of the batch tasks and the operations on them (model/ibatch/redis_keys.go,
-- redis_adapter.go). The four key families have prefixes of which none is a prefix of another,
-- so that a family is a map of its own, indexed by what follows the prefix.
use ai_gateway_api.Prelude.{
  ℕ, ◌-◌, min, String, Bool, true, false, List, [], ◌∷◌, none, some, ltb, lookup, insert, remove,
  if◌then◌else◌,
}

abbrev pub Fields : Type 0
Fields = List (String × String)

pub record Redis : Type 0 where
  -- BATCH_TASK:<batch_id>
  pub tasks : List (String × Fields)
  -- BATCH_SETTLED:<batch_id>, present or not
  pub settled : List (String × Bool)
  -- BATCH_RESERVE_BATCH:<batch_id>, planRedisKey -> units
  pub books : List (String × Fields)
  -- BATCH_RESERVE:<planRedisKey>
  pub mirrors : List (String × ℕ)

-- `vals[field]` of a Go map: the empty text where the field is missing.
unfoldable pub field : String → Fields → String
unfolding lookup
field k vals = elim (lookup k vals) [ none ↦ "" | some v ↦ v ]

-- `HGetAll`: a missing key has no fields.
unfoldable pub h_get_all : String → List (String × Fields) → Fields
unfolding lookup
h_get_all k m = elim (lookup k m) [ none ↦ [] | some vals ↦ vals ]

abbrev pub set_fields : Fields → Fields → Fields
set_fields [] vals = vals
set_fields ((k, v) ∷ new) vals = set_fields new (insert k v vals)

-- `HSetWithTTL` on BATCH_TASK:<batch_id>.
unfoldable pub h_set_task : String → Fields → Redis → Redis
h_set_task id new r = record r { tasks = insert id (set_fields new (h_get_all id r.tasks)) r.tasks }

-- `SET NX` on BATCH_SETTLED:<batch_id>: whether the key was free.
unfoldable pub set_nx_settled : String → Redis → Redis × Bool
set_nx_settled id r = elim (lookup id r.settled) [
  | none ↦ (record r { settled = insert id true r.settled }, true)
  | some _ ↦ (r, false)
]

-- `Delete` of BATCH_SETTLED:<batch_id>.
unfoldable pub delete_settled : String → Redis → Redis
delete_settled id r = record r { settled = remove id r.settled }

-- `Delete` of BATCH_RESERVE_BATCH:<batch_id>.
unfoldable pub delete_book : String → Redis → Redis
delete_book id r = record r { books = remove id r.books }

unfoldable pub mirror : String → List (String × ℕ) → ℕ
unfolding lookup
mirror plan m = elim (lookup plan m) [ none ↦ 0 | some n ↦ n ]

-- The script of `ReserveDecr`: the count falls by what was asked for, at most to zero.
unfoldable pub reserve_decr : String → ℕ → List (String × ℕ) → List (String × ℕ)
reserve_decr plan delta m = elim (lookup plan m) [
  | none ↦ m
  | some cur ↦ if ltb 0 (min cur delta) then insert plan (cur - min cur delta) m else m
]
