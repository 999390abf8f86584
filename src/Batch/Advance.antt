-- ===== src/Batch/Advance.antt =====
-- The status job (model/ibatch/advance.go), with `postProviderCancel` of model/ibatch/cancel.go.
pub mod Transitions
use Prim.Native.String
use ai_gateway_api.Prelude.{
  ℕ, ◌+◌, String, Bool, true, false, not, ◌&&◌, ◌||◌, List, [], ◌∷◌, ◌++◌, Option, none, some, ◌==◌,
  nat_eq, ltb, leb, if◌then◌else◌,
}
use ai_gateway_api.Batch.Task.{
  Time, Counts, BatchTask, BatchTaskProgressPatch, is_terminal_status, task_status_cancelling,
  task_status_expired, task_status_completed, equal_counts,
}
use ai_gateway_api.Batch.Store.{Rows, update_batch_task_progress}
use ai_gateway_api.Batch.File.{register_output_file}
use ai_gateway_api.Batch.Provider.{resolve_provider_access}
use ai_gateway_api.Batch.World.{
  Error, store_failed, upstream_unreachable, upstream_batch_not_found, invalid_response,
  mismatched_batch_id, missing_status, Result, ok, err, Reply, unreachable, replied, ProviderAccess,
  ProviderBatchResponse, Manager, World,
}

-- 24 hours in nanoseconds.
abbrev pub provider_absent_grace : ℕ
provider_absent_grace = 86400000000000

abbrev pub terminal_artifact_window : ℕ
terminal_artifact_window = 86400000000000

abbrev pub not_success : ℕ → Bool
not_success status = ltb status 200 || leb 300 status

unfoldable pub batch_url : ProviderAccess → String → String
batch_url access batch_id =
    String.◌++◌ access.base_url (String.◌++◌ access.path (String.◌++◌ "/batches/" batch_id))

unfoldable pub cancel_url : ProviderAccess → String → String
unfolding batch_url
cancel_url access batch_id = String.◌++◌ (batch_url access batch_id) "/cancel"

unfoldable pub cancel_reply : Reply (Unit {0}) → Option Error
cancel_reply unreachable = some upstream_unreachable
cancel_reply (replied status body) =
    if nat_eq status 404
    then some upstream_batch_not_found
    else if not_success status
    then some upstream_unreachable
    else none

-- `postProviderCancel`: the request is sent, and its answer classified.
unfoldable pub post_provider_cancel :
    Manager → ProviderAccess → String → World → World × Option Error
unfolding cancel_reply
post_provider_cancel m access url w =
    (record w { posts = w.posts ++ url ∷ [] }, cancel_reply (m.post_cancel access url))

unfoldable pub update_progress :
    Manager → BatchTask → BatchTaskProgressPatch → World → World × Result ℕ
update_progress m task patch w =
    if m.store_write_fails task.batch_id
    then (w, err store_failed)
    else let (rows, affected) = update_batch_task_progress task.id patch m.now w.rows in
      (record w { rows = rows }, ok affected)

abbrev expired_patch : Time → BatchTaskProgressPatch
expired_patch now = record {
  status = some task_status_expired;
  output_file_id = none;
  endpoint = none;
  request_counts = none;
  terminal_at = some now;
}

-- Whether a conditional update matched a row.
abbrev matched : World × Result ℕ → World × Result Bool
matched (w, err e) = (w, err e)
matched (w, ok affected) = (w, ok (ltb 0 affected))

-- Whatever an update matched.
abbrev pub updated : World × Result ℕ → World × Result Bool
updated (w, err e) = (w, err e)
updated (w, ok affected) = (w, ok true)

-- `handleProviderAbsent`.
unfoldable pub handle_provider_absent : Manager → BatchTask → World → World × Result Bool
unfolding update_progress
handle_provider_absent m task w =
    if leb m.now (task.created_at + provider_absent_grace)
    then (w, ok false)
    else matched (update_progress m task (expired_patch m.now) w)

-- The cancellation is not taken back while the provider lags behind.
unfoldable pub is_status_held : BatchTask → ProviderBatchResponse → Bool
is_status_held task resp =
    task.status == task_status_cancelling
    && (not (is_terminal_status resp.status) && not (resp.status == task_status_cancelling))

abbrev differs : String → String → Bool
differs new old = not (new == "") && not (new == old)

abbrev changed_text : String → String → Option String
changed_text new old = if differs new old then some new else none

unfoldable pub advance_status_patch : BatchTask → ProviderBatchResponse → Option String
advance_status_patch task resp =
    if is_status_held task resp || is_terminal_status task.status then none else some resp.status

abbrev terminal_patch : Option String → Time → Option Time
terminal_patch none now = none
terminal_patch (some status) now = if is_terminal_status status then some now else none

unfoldable pub advance_patch : BatchTask → ProviderBatchResponse → Time → BatchTaskProgressPatch
unfolding advance_status_patch
advance_patch task resp now = record {
  status = advance_status_patch task resp;
  output_file_id = changed_text resp.output_file_id task.output_file_id;
  endpoint = changed_text resp.endpoint task.endpoint;
  request_counts = resp.request_counts;
  terminal_at = terminal_patch (advance_status_patch task resp) now;
}

unfoldable pub is_changed : BatchTask → ProviderBatchResponse → Bool
unfolding is_status_held equal_counts
is_changed task resp =
    not (is_status_held task resp) && not (resp.status == task.status)
    || (not (equal_counts resp.request_counts task.request_counts)
        || (differs resp.output_file_id task.output_file_id || differs resp.endpoint task.endpoint))

-- The reissued cancel, whose failure is only logged.
unfoldable pub reissue_cancel :
    Manager → ProviderAccess → BatchTask → ProviderBatchResponse → World → World
unfolding is_status_held post_provider_cancel cancel_url
reissue_cancel m access task resp w =
    if is_status_held task resp
    then (post_provider_cancel m access (cancel_url access task.batch_id) w).0
    else w

register_changed : Manager → BatchTask → String → World → World
unfolding register_output_file
register_changed m task file_id w =
    if differs file_id task.output_file_id then register_output_file m task file_id w else w

advance_response :
    Manager → ProviderAccess → BatchTask → ProviderBatchResponse → World → World × Result Bool
unfolding reissue_cancel register_changed is_changed update_progress advance_patch
advance_response m access task resp w =
    let sent = reissue_cancel m access task resp w in
    let registered = register_changed m task resp.output_file_id sent in
    if is_changed task resp
    then updated (update_progress m task (advance_patch task resp m.now) registered)
    else (registered, ok false)

-- The checks that both jobs make on a parsed answer.
unfoldable pub parsed_response :
    BatchTask → Option ProviderBatchResponse → Result ProviderBatchResponse
parsed_response task none = err invalid_response
parsed_response task (some resp) =
    if not (resp.id == "") && not (resp.id == task.batch_id)
    then err mismatched_batch_id
    else ok resp

advance_parsed :
    Manager
    → ProviderAccess
    → BatchTask
    → World
    → Result ProviderBatchResponse
    → World × Result Bool
unfolding advance_response
advance_parsed m access task w (err e) = (w, err e)
advance_parsed m access task w (ok resp) =
    if resp.status == "" then (w, err missing_status) else advance_response m access task resp w

advance_reply :
    Manager
    → ProviderAccess
    → BatchTask
    → World
    → Reply (Option ProviderBatchResponse)
    → World × Result Bool
unfolding handle_provider_absent advance_parsed parsed_response
advance_reply m access task w unreachable = (w, err upstream_unreachable)
advance_reply m access task w (replied status body) =
    if nat_eq status 404
    then handle_provider_absent m task w
    else if not_success status
    then (w, err upstream_unreachable)
    else advance_parsed m access task w (parsed_response task body)

advance_access : Manager → BatchTask → World → Result ProviderAccess → World × Result Bool
unfolding advance_reply batch_url
advance_access m task w (err e) = (w, err e)
advance_access m task w (ok access) =
    advance_reply m access task w (m.get_batch access (batch_url access task.batch_id))

-- `advanceOneTask`.
unfoldable pub advance_one_task : Manager → BatchTask → World → World × Result Bool
unfolding advance_access
advance_one_task m task w =
    advance_access m task w (resolve_provider_access m task.provider task.key_name)
