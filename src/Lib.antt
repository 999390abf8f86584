-- ===== src/Lib.antt =====
-- The control plane's batch tasks, EPP assignments, providers, quotas and key rotation
-- (model/ibatch, model/epp_pool, model/iprovider, model/quota, model/keyrotate, and their tables in
-- storage/rdb).
--
-- The parts and how they interact. The data plane writes the state of a batch into Redis; the
-- batch manager copies it into the table batch_tasks, asks the provider for its progress, settles
-- what a finished batch cost or releases what was reserved for it, and cancels batches on request.
-- The EPP pool holds groups of endpoint pickers, each cluster in EPP mode is assigned to one
-- group, again after each change of the pool, and its scheduling configuration is compiled.
-- Providers hold the upstreams that batches and clusters use, with pricing tiers by the time of day
-- and a mirror of a K8s pool. Quota plans reset the balances in Redis at each period, which the
-- batches debit. The sweep of the key rotation rewrites the keys of providers and of API keys under
-- the active key, under a lock that one task holds.
--
-- The files.
--   Prelude          names, tests and lists that the other modules share, 64-bit integers as bit
--                    patterns, and what the program uses of strconv, strings and net
--   Batch/Task       the rows, statuses and patches of model/ibatch/types.go
--   Batch/Store      the updates of batch_tasks (storage/rdb/batch/batch_task.go and
--                    storage/rdb/internal/dao/table_batch_tasks.go); Moves and Claimed
--                    are on sequences of updates
--   Batch/Redis      the keys and the adapter (model/ibatch/redis_keys.go, redis_adapter.go)
--   Batch/World      what the manager works on and what it is given from outside
--   Batch/Provider   resolveProviderAccess (model/ibatch/cancel.go)
--   Batch/Usage      the usage lines of a result file (model/ibatch/settle.go); Lines compares them
--                    with a plain reading
--   Batch/Reserve    releaseReserve (model/ibatch/cancel.go); Mirror counts the units
--   Batch/Settle     settleOneTask and releaseOneTask (model/ibatch/settle.go); Claim and Frozen
--   Batch/View       the hash of a task and its merge (model/ibatch/redis_view.go, sync.go)
--   Batch/File       the rows of output files
--   Batch/Advance    advanceOneTask (model/ibatch/advance.go); Transitions
--   Batch/Backfill   backfillOneTask (model/ibatch/advance.go); Filled
--   Batch/Cancel     Cancel and FetchTask (model/ibatch/cancel.go, manager.go); Accept and Outcome
--   Batch/Reconcile  the rounds AdvanceStatus, BackfillTerminalArtifacts and ReconcileSettle; Once
--   Epp/Names        the order of names and sorted lists
--   Epp/Pool         the pool and its checks (model/epp_pool/epp_pool.go, epp_config.go); Sound
--   Epp/Assign       the assignments (model/epp_pool/assignment.go); Least, Repair and
--                    Served, and the rounds
--                    of the reconciler in Rounds and the view in View
--   Epp/Config       the simplified configuration and its rules (model/epp_pool/epp_config.go)
--   Epp/Compile      the compiler (model/epp_pool/compiler.go); Resolved
--   Provider/Hhmm    times of day (model/iprovider/provider.go, parseHHMM); RoundTrip
--   Provider/Tiers   pricing tiers and their validation (the same file); Overlap, Disjoint
--   Provider/Types   the records; Text: the texts that a field may hold
--   Provider/Param   ValidateProviderParam; Accepted
--   Provider/Rows    the rows and their updates (storage/rdb/provider/provider.go) and the refresh
--                    of the mirrors (model/ik8s_pool/k8s_pool.go)
--   Provider/Snapshot  the comparison of providers and applyProviderUpdate
--   Provider/Manager   ProviderManager and UpdateAction (endpoints/openapi_v1/provider/update.go);
--                    Rules, Stored, Reach, Merged
--   Provider/Listing the list of the providers of one protocol, by pages; Pages
--   Batch/Keys       the texts of the Redis keys (model/ibatch/redis_keys.go); RoundTrip
--   Quota/Cache      the balances in Redis (model/quotacache/redis.go)
--   Quota/Plan       the rows of the plans, their claim and the calendar (model/quota/balance_sync.go,
--                    storage/rdb/quota/quota_plan.go, storage/rdb/internal/dao)
--   Quota/Sync       the periodic reset (model/quota/balance_sync.go); Fresh, Pending, Once
--   Quota/Manager    the manual reset (model/quota/quota_plan_manager.go); Written, Reset
--   KeyRotate/Envelope  the envelopes and the keyring (lib/xcrypto), and the value that a sweep wants
--                    (model/keyrotate/manager.go, transform); RoundTrip
--   KeyRotate/Sweep  the sweep of one table (model/keyrotate/manager.go, storage/rdb/keyrotate); fuel
--                    for one page for each row; Remaining, Kept, Ends, Atomic
--   KeyRotate/Task   the tasks and the lock (model/keyrotate/manager.go, Trigger;
--                    storage/rdb/keyrotate); Idle, Single
--   Tests            examples
--
-- How state and operations correspond. A table is a list of rows in the order of their numbers (the
-- table of the sweeps a map from its unique identifier), and an update returns the rows and how
-- many it matched. Each operation takes the world and returns the world it leaves with its result; an error of Go is a value. A handler is split into one
-- function for each point where the code looks at a result. A field whose name ends in `_fails`
-- says for which key a call to the table or to Redis fails; such a call changes nothing, and a flag is one
-- for the whole operation, so that a call that fails after the same call was answered is left out.
-- A call to
-- a provider is a function of what is sent, and a request that cannot be built counts as one that
-- is not answered. The operation log is always present. Numbers of 64 bits are bit patterns, times
-- are nanoseconds since Go's zero time, and a duration of the code is compared by moving it to the
-- other side. Go sorts with an unspecified order of equal keys; the keys are unique here, and an
-- insertion sort stands for it.
--
-- Bounds and fuel. Every loop is a structural recursion but two. The fuel of format_int is 20: a
-- number below 2 ^ 64 has no more digits. The fuel of sweep_table is one page for each row and an
-- empty page at the end, since a page that has a row moves the cursor beyond a row. The sweep's
-- pages have 100 rows and its batches three attempts, as in the code.
--
-- Not modelled: the SQL text and row scanning, the expiry of Redis keys, timeouts, the ticker and
-- the named lock of the jobs, logging, the copying of files from Redis, the export of the compiled
-- configuration, the creation and change of quota plans, and the other domains of the control
-- plane (API keys, entities, clusters, routes, reports, authentication). AES-GCM, its nonces, base64,
-- prices and the fixed-point cost, the decoding of JSON and of RFC 3339 times,
-- net.ParseIP, the floats and the text of a duration are parameters.
pub mod Prelude
pub mod Batch
pub mod Epp
pub mod Provider
pub mod Quota
pub mod KeyRotate
pub mod Tests
