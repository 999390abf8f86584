-- ===== src/Batch/File.antt =====
-- The rows of output files (`mergeFileForSync` of model/ibatch/redis_view.go,
-- `registerOutputFile` of model/ibatch/advance.go, `UpsertBatchFile` of
-- storage/rdb/batch/batch_file.go and storage/rdb/internal/dao/table_batch_files.go).
use ai_gateway_api.Prelude.{
  ◌≡◌, refl, inl, inr, Bool-cases, Option-cases, ◌&&◌, ◌||◌, ◌+◌, String, Bool, List, [], ◌∷◌, ◌++◌,
  Option, none, some, ◌==◌, if◌then◌else◌, Int64,
}
use ai_gateway_api.Batch.Task.{Time, BatchTask, BatchFile, file_direction_output}
use ai_gateway_api.Batch.Store.{assign, stamped}
use ai_gateway_api.Batch.World.{Manager, World}

abbrev Files : Type 0
Files = List BatchFile

is_file : String → String → BatchFile → Bool
is_file file_id provider f = f.file_id == file_id && f.provider == provider

-- `FetchBatchFile` by the unique pair.
unfoldable pub find_file : String → String → Files → Option BatchFile
unfolding is_file
find_file file_id provider [] = none
find_file file_id provider (f ∷ fs) =
    if is_file file_id provider f then some f else find_file file_id provider fs

refresh_file : BatchFile → Time → BatchFile → BatchFile
refresh_file new now old = record old {
  key_name = new.key_name;
  api_key_id = new.api_key_id;
  product_name = new.product_name;
  direction = new.direction;
  purpose = new.purpose;
  filename = if new.filename == "" then old.filename else new.filename;
  lines = new.lines;
  bytes = new.bytes;
  last_seen_at = new.last_seen_at;
  updated_at = stamped new.updated_at now;
}

refresh_files : BatchFile → Time → Files → Files
unfolding is_file refresh_file
refresh_files new now [] = []
refresh_files new now (f ∷ fs) =
    let rest = refresh_files new now fs in
    if is_file new.file_id new.provider f then refresh_file new now f ∷ rest else f ∷ rest

-- `UpsertBatchFile`, the row written and the number of the next; `none` is the refusal of an
-- empty file_id or provider.
unfoldable pub upsert_batch_file : BatchFile → Manager → World → Option World
unfolding find_file refresh_files
upsert_batch_file new m w =
    if new.file_id == "" || new.provider == ""
    then none
    else elim (find_file new.file_id new.provider w.files) [
      | none ↦ some (record w {
        files =
            w.files
            ++ (record new {
              id = w.next_file_id;
              created_at = stamped new.created_at m.now;
              updated_at = stamped new.updated_at m.now;
            })
              ∷ [];
        next_file_id = w.next_file_id + 1;
      })
      | some f ↦
          some (record w {
            files = refresh_files new m.now w.files;
            next_file_id = w.next_file_id + 1;
          })
    ]

abbrev or_kept : String → String → String
or_kept new old = if new == "" then old else new

-- `mergeFileForSync`; `lines` and `bytes` are those of the view.
unfoldable pub merge_file_for_sync :
    Option BatchFile → BatchFile → Option Int64 → Option Int64 → Time → BatchFile
merge_file_for_sync none incoming lines bytes now = record incoming {
  last_seen_at = some (assign incoming.last_seen_at now);
  first_seen_at = some (assign incoming.first_seen_at now);
}
merge_file_for_sync (some existing) incoming lines bytes now = record incoming {
  id = existing.id;
  api_key_id = or_kept incoming.api_key_id existing.api_key_id;
  product_name = or_kept incoming.product_name existing.product_name;
  key_name = or_kept incoming.key_name existing.key_name;
  direction = or_kept incoming.direction existing.direction;
  purpose = or_kept incoming.purpose existing.purpose;
  filename = or_kept incoming.filename existing.filename;
  lines = assign lines existing.lines;
  bytes = assign bytes existing.bytes;
  first_seen_at = existing.first_seen_at;
  last_seen_at = some now;
}

output_file : BatchTask → String → BatchFile
output_file task file_id = record {
  id = 0;
  file_id = file_id;
  provider = task.provider;
  key_name = task.key_name;
  api_key_id = task.api_key_id;
  product_name = task.product_name;
  direction = file_direction_output;
  purpose = "";
  filename = "";
  lines = 0;
  bytes = 0;
  first_seen_at = none;
  last_seen_at = none;
  created_at = 0;
  updated_at = 0;
}

-- `registerOutputFile`, whose error is only logged by its callers.
unfoldable pub register_output_file : Manager → BatchTask → String → World → World
unfolding merge_file_for_sync output_file find_file upsert_batch_file
register_output_file m task file_id w =
    if m.store_read_fails file_id || m.store_write_fails file_id
    then w
    else let existing = find_file file_id task.provider w.files in
      let file = merge_file_for_sync existing (output_file task file_id) none none m.now in
      assign (upsert_batch_file file m w) w

upsert-rows :
    (file : BatchFile) (m : Manager) (w : World)
    → (assign (upsert_batch_file file m w) w).rows ≡ w.rows
unfolding upsert_batch_file
upsert-rows file m w = elim (Bool-cases (file.file_id == "" || file.provider == "")) [
  | inl h ↦ rw h refl
  | inr h ↦ elim (Option-cases (find_file file.file_id file.provider w.files)) [
    | inl e ↦ rw (h, e) refl
    | inr (f, e) ↦ rw (h, e) refl
  ]
]

pub register_output_file-rows :
    (m : Manager) (task : BatchTask) (file_id : String) (w : World)
    → (register_output_file m task file_id w).rows ≡ w.rows
unfolding register_output_file
register_output_file-rows m task file_id w =
    let existing = find_file file_id task.provider w.files in
    let file = merge_file_for_sync existing (output_file task file_id) none none m.now in
    elim (Bool-cases (m.store_read_fails file_id || m.store_write_fails file_id)) [
      | inl h ↦ rw h refl
      | inr h ↦ rw h (upsert-rows file m w)
    ]
