-- ===== src/Batch/Backfill.antt =====
-- The job that fills in what completed tasks miss (`backfillOneTask` in
-- model/ibatch/advance.go).
pub mod Filled
use ai_gateway_api.Prelude.{
  String, Bool, true, false, not, ◌&&◌, ◌||◌, List, [], ◌∷◌, Option, none, some, ◌==◌, nat_eq,
  if◌then◌else◌,
}
use ai_gateway_api.Batch.Task.{Counts, BatchTask, BatchTaskProgressPatch}
use ai_gateway_api.Batch.File.{register_output_file}
use ai_gateway_api.Batch.Provider.{resolve_provider_access}
use ai_gateway_api.Batch.Advance.{not_success, batch_url, update_progress, updated, parsed_response}
use ai_gateway_api.Batch.World.{
  upstream_unreachable, Result, ok, err, Reply, unreachable, replied, ProviderAccess,
  ProviderBatchResponse, Manager, World,
}

abbrev missing_text : String → String → Option String
missing_text old new = if old == "" && not (new == "") then some new else none

abbrev missing_counts : Option Counts → Option Counts → Option Counts
missing_counts none new = new
missing_counts (some m) new = none

unfoldable pub backfill_patch : BatchTask → ProviderBatchResponse → BatchTaskProgressPatch
backfill_patch task resp = record {
  status = none;
  output_file_id = missing_text task.output_file_id resp.output_file_id;
  endpoint = missing_text task.endpoint resp.endpoint;
  request_counts = missing_counts task.request_counts resp.request_counts;
  terminal_at = none;
}

abbrev is_some {ℓ} : {A : Type ℓ} → Option A → Bool
is_some none = false
is_some (some a) = true

-- Whether a patch has something to write.
is_missing : BatchTaskProgressPatch → Bool
is_missing patch =
    is_some patch.output_file_id || (is_some patch.request_counts || is_some patch.endpoint)

register_missing : Manager → BatchTask → Option String → World → World
unfolding register_output_file
register_missing m task none w = w
register_missing m task (some file_id) w = register_output_file m task file_id w

backfill_response : Manager → BatchTask → World → Result ProviderBatchResponse → World × Result Bool
unfolding backfill_patch register_missing is_missing update_progress
backfill_response m task w (err e) = (w, err e)
backfill_response m task w (ok resp) =
    let patch = backfill_patch task resp in
    let registered = register_missing m task patch.output_file_id w in
    if is_missing patch
    then updated (update_progress m task patch registered)
    else (registered, ok false)

backfill_reply :
    Manager → BatchTask → World → Reply (Option ProviderBatchResponse) → World × Result Bool
unfolding backfill_response parsed_response
backfill_reply m task w unreachable = (w, err upstream_unreachable)
backfill_reply m task w (replied status body) =
    if nat_eq status 404
    then (w, ok false)
    else if not_success status
    then (w, err upstream_unreachable)
    else backfill_response m task w (parsed_response task body)

backfill_access : Manager → BatchTask → World → Result ProviderAccess → World × Result Bool
unfolding backfill_reply batch_url
backfill_access m task w (err e) = (w, err e)
backfill_access m task w (ok access) =
    backfill_reply m task w (m.get_batch access (batch_url access task.batch_id))

-- `backfillOneTask`.
unfoldable pub backfill_one_task : Manager → BatchTask → World → World × Result Bool
unfolding backfill_access
backfill_one_task m task w =
    backfill_access m task w (resolve_provider_access m task.provider task.key_name)
