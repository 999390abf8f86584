-- ===== src/Batch/World.antt =====
-- What the batch manager works on: the table, Redis and the calls that it sends out, and what
-- it is given from outside (the fields of `Manager` in model/ibatch/manager.go and the answers
-- of the services behind them).
use ai_gateway_api.Prelude.{ℕ, String, Bool, List, Option, Int64}
use ai_gateway_api.Batch.Task.{Time, Counts, BatchFile}
use ai_gateway_api.Batch.Store.{Rows}
use ai_gateway_api.Batch.Redis.{Redis}
use ai_gateway_api.Batch.Usage.{Bytes, Codec}

-- The errors of model/ibatch/errors.go, and the failures that are passed on.
pub data Error : Type 0 where
  redis_failed store_failed lookup_failed : Error
  provider_unavailable : String → Error
  batch_not_found : Error
  batch_conflict : String → Error
  upstream_unreachable upstream_batch_not_found : Error
  invalid_response mismatched_batch_id missing_status : Error
  download_failed : Error
  missing_task_status empty_batch_id : Error

pub data Result {ℓ} (A : Type ℓ) : Type ℓ where
  ok : A → Result A
  err : Error → Result A

pub record ProviderInstance : Type 0 where
  pub addr : String
  pub port : ℕ
  pub disable : Bool

pub record ProviderKey : Type 0 where
  pub name : String
  pub key : String

pub record Provider : Type 0 where
  pub name : String
  pub instance_source : String
  pub instance_pool : List ProviderInstance
  pub k8s_instance_pool : List ProviderInstance
  pub protocol_paths : List (String × String)
  pub keys : List ProviderKey

-- What a request to a provider needs; an empty header name is a provider without keys.
pub record ProviderAccess : Type 0 where
  pub base_url : String
  pub path : String
  pub auth_header : String
  pub auth_value : String

-- The two prices of a batch model in units of 1e-8 RMB, 0 where the key is missing. The table
-- accepts no negative price and none that this unit does not hold.
pub record BatchPrices : Type 0 where
  pub input_cost_per_token : ℕ
  pub output_cost_per_token : ℕ

-- The read view of a provider's batch.
pub record ProviderBatchResponse : Type 0 where
  pub id : String
  pub status : String
  pub output_file_id : String
  pub endpoint : String
  pub request_counts : Option Counts

-- The answer to a request: a transport error, or a status code with the body.
pub data Reply {ℓ} (A : Type ℓ) : Type ℓ where
  unreachable : Reply A
  replied : ℕ → A → Reply A

pub record ApiKey : Type 0 where
  pub product_name : Option String
  pub entity_id : Option String

-- The manager's settings and what stands behind its interfaces. A call that fails changes
-- nothing; a field that ends in `_fails` says for which key the call fails.
pub record Manager : Type 0 where
  pub now : Time
  pub settle_grace : Time
  pub max_output_line_bytes : ℕ
  pub has_redis : Bool
  pub codec : Codec
  pub provider_querier : Option (String → Result (Option Provider))
  pub price_querier : Option (String → String → Result (Option BatchPrices))
  pub cost_units : Int64 → ℕ → Int64
  pub api_keys : String → Result (Option ApiKey)
  pub download : ProviderAccess → String → Reply (Bytes × Bool)
  pub get_batch : ProviderAccess → String → Reply (Option ProviderBatchResponse)
  pub post_cancel : ProviderAccess → String → Reply (Unit {0})
  pub set_nx_fails : String → Bool
  pub delete_settled_fails : String → Bool
  pub h_set_fails : String → Bool
  pub h_get_fails : String → Bool
  pub book_get_fails : String → Bool
  pub book_delete_fails : String → Bool
  pub decr_fails : String → Bool
  pub store_read_fails : String → Bool
  pub store_write_fails : String → Bool
  -- listing the candidates of a duty
  pub list_fails : Bool
  pub advance_limit : ℕ
  pub reconcile_limit : ℕ

-- An entry of the operation log: the batch, its status before, and the error if any.
pub record CancelRecord : Type 0 where
  pub batch_id : String
  pub prev_status : String
  pub failure : Option Error

pub record World : Type 0 where
  pub rows : Rows
  -- the number that the table gives to the next inserted row
  pub next_id : ℕ
  pub files : List BatchFile
  -- the same for the table of files
  pub next_file_id : ℕ
  pub redis : Redis
  -- the URLs that a cancel was posted to
  pub posts : List String
  pub operations : List CancelRecord
