-- ===== src/Tests.antt =====
-- Concrete managers, rows and pools, for the examples of the modules below.
mod Batch
mod Duties
mod Epp
mod Config
mod Providers
mod ProviderRows
mod Quota
mod Keys
mod KeyRotate
use ai_gateway_api.Prelude.{String, Bool, true, false, [], ◌∷◌, none, some}
use ai_gateway_api.Batch.Task.{
  BatchTask, task_status_in_progress, settle_status_reserved, sync_source_redis,
}
use ai_gateway_api.Batch.Redis.{Redis}
use ai_gateway_api.Batch.Usage.{Codec}
use ai_gateway_api.Batch.World.{
  Provider, ProviderBatchResponse, ok, Reply, unreachable, replied, ApiKey, Manager, World,
}

abbrev pub codec : Codec
codec = record {
  decode_counts = λ raw. none;
  parse_rfc3339 = λ raw. none;
  trim_space = λ line. line;
  decode_row = λ line. none;
}

abbrev pub provider : Provider
provider = record {
  name = "p";
  instance_source = "pool";
  instance_pool = (record { addr = "10.0.0.1"; port = 8000; disable = false }) ∷ [];
  k8s_instance_pool = [];
  protocol_paths = [];
  keys = [];
}

abbrev pub answer : ProviderBatchResponse
answer = record {
  id = "b1";
  status = "completed";
  output_file_id = "f1";
  endpoint = "";
  request_counts = some (("total", 2) ∷ []);
}

-- A manager whose calls all succeed, and whose provider reports a completed batch.
abbrev pub manager : Manager
manager = record {
  now = 1000;
  settle_grace = 10;
  max_output_line_bytes = 100;
  has_redis = true;
  codec = codec;
  provider_querier = some (λ name. ok (some provider));
  price_querier = none;
  cost_units = λ tokens price. 0;
  api_keys = λ id. ok (some (record { product_name = some "product"; entity_id = none }));
  download = λ access url. unreachable;
  get_batch = λ access url. replied 200 (some answer);
  post_cancel = λ access url. replied 200 tt;
  set_nx_fails = λ id. false;
  delete_settled_fails = λ id. false;
  h_set_fails = λ id. false;
  h_get_fails = λ id. false;
  book_get_fails = λ id. false;
  book_delete_fails = λ id. false;
  decr_fails = λ id. false;
  store_read_fails = λ id. false;
  store_write_fails = λ id. false;
  list_fails = false;
  advance_limit = 50;
  reconcile_limit = 50;
}

abbrev pub task : BatchTask
task = record {
  id = 1;
  batch_id = "b1";
  api_key_id = "k1";
  product_name = "product";
  entity_id = "";
  provider = "p";
  key_name = "";
  endpoint = "";
  input_file_id = "f0";
  output_file_id = "";
  status = task_status_in_progress;
  request_counts = none;
  est_lines = 2;
  usage_input_tokens = 0;
  usage_output_tokens = 0;
  usage_source = "";
  reserve_units = 5;
  settle_units = 0;
  settle_status = settle_status_reserved;
  over_reserved = false;
  sync_source = sync_source_redis;
  idem_key = "b1";
  created_at = 1;
  updated_at = 1;
  terminal_at = none;
}

-- The batch has a book that holds five units against one plan.
abbrev pub redis : Redis
redis = record {
  tasks = ("b1", ("status", "in_progress") ∷ ("api_key_id", "k1") ∷ []) ∷ [];
  settled = [];
  books = ("b1", ("plan", "5") ∷ []) ∷ [];
  mirrors = ("plan", 12) ∷ [];
}

abbrev pub world_of : BatchTask → World
world_of t = record {
  rows = t ∷ [];
  next_id = 2;
  files = [];
  next_file_id = 1;
  redis = redis;
  posts = [];
  operations = [];
}
