-- ===== src/Lib.antt =====
-- Verification of Syte's event streaming, rate limiting, platform store and release gate.
--
-- Syte (package syte) is a self-hosted deployment service. Eight of its parts are modelled here, each
-- translated from its Python source into functions on explicit state.
--
-- 1. Event streaming, syte/sse_core.py, in Sse: a client is a `Session` with a bounded queue; a
-- `Channel` numbers events, keeps the last ones for replay and puts each into the queue of every
-- session registered with it; the `ChannelHub` finds channels by name and mirrors the events of a
-- project's subtabs to the project's aggregate channel. Frequent deltas go through a `DeltaBatcher`
-- first, which merges them.
--   Sse/Frame: encode_sse_frame, stream_gap_frame and the completion of a payload.
--   Sse/Batcher: DeltaBatcher (push, _on_timer, flush, flush_all, clear); what it emits is returned.
--   Sse/Session: Session (push, ping, _enqueue, the rounds of iterate).
--   Sse/Channel: Channel (register, deregister, broadcast, _broadcast_event, replay_for, get_history).
--   Sse/Hub: ChannelHub (get_channel, broadcast_to_subtab, broadcast_to_project) and Session.close.
-- Sessions are shared between channels, so they live in a store that operations take and return.
--
-- 2. Rate limiting, syte/rate_limit.py, in RateLimit: RateLimitMiddleware.__call__ is `call`, _allow is
-- `allow` with `expire` for its loop, _client_key is `client_key`. Time is counted in milliseconds and
-- SHA-256 is a parameter. The lock makes the handling of a request one step, so a run is a list of them.
--
-- 3. The platform store, syte/platform/store.py, in Platform: rows in SQLite tables.
--   Platform/Schema: SCHEMA (one definition for each table), MIGRATIONS, _UUID_TABLES and _migrate.
--   Platform/Codec: JSON_COLUMNS, BOOL_COLUMNS, SECRET_COLUMNS, _encode, decode_row.
--   Platform/Table: insert, get, find, update, delete, delete_where, count.
--   Platform/Cascade: delete_resource_cascade, delete_environment_cascade, delete_project_cascade.
--   Platform/Deployments: the deployment accessors, append_deployment_logs, rollback_candidates.
--   Platform/EnvVars: upsert_env_var, bulk_upsert_env_vars.
-- All the tables are a function from names to lists of rows. What the operations need of the schema is
-- the record `Catalog`, which Platform/Schema fills. SQLite is modelled by what the statements used
-- here do; a constraint of a table is a parameter, and so are ORDER BY, the JSON library, the clock and
-- fresh uuids. An action of a cascade keeps what its earlier statements have done when it raises.
--
-- 4. Releases, syte/release_operations.py with its handlers in syte/main.py, in Release: a deployment of
-- a protected environment needs an approval, which it consumes.
--   Release/Environments: ensure_release_project, get_environment, update_environment.
--   Release/Approvals: request_approval, decide_approval, has_approved_release, consume_approved_release.
--   Release/Policies: get_policy, update_policy. Release/Team: members, _release_can_manage,
--   _require_release_approver. Release/Restore: recovery points.
--   Release/Handlers: the api_..._release_... handlers; Release/Deploy: api_release_deploy;
--   Release/Requests: the handlers as requests that are served one at a time.
-- The tables are lists of records in one `Store`; uuids are drawn from a sequence, the clock is an
-- argument, and so is what issue_deploy answered. A handler returns the store also when it fails, for
-- what it stored before stays.
--
-- 5. Caps on the output of processes, syte/output_limits.py, in OutputLimits: truncate_output and the three
-- readers of streams. Common/Utf8 models the encoding with its replacement of broken sequences.
--
-- 6. Git sources, syte/platform/git_sources.py, in GitSources: normalize_repo, repo_matches,
-- branch_matches, watch_paths_match; GitSources/Webhooks: verify_webhook and the verifiers it calls.
-- urlsplit, fnmatch and HMAC are parameters.
--
-- 7. The backup scheduler, syte/platform/backup_scheduler.py, in BackupScheduler: cron_matches and
-- run_due_backups. BackupScheduler/Passes runs it with the executions of part 8.
--
-- 8. The execution of backups, syte/platform/backup_manager.py, in BackupManager: execute_backup on the
-- tables of schedules and executions. The answers of docker, of _upload_s3 and of the file system are
-- arguments, a raised exception among them.
--
-- Python's dictionaries are association lists in insertion order (Common/Dict) of values (Value):
-- None, booleans, natural numbers, strings, and JSON texts for what the program only carries. Text that
-- is taken apart is a list of character codes (Common/Text).
-- Where the model is narrower than Python or SQLite: lower() and strip() know the ASCII letters and
-- white space only (Release, OutputLimits, GitSources use them); urlsplit always answers, where it
-- raises ValueError on some malformed URLs; SQLite stores a value as it is bound, so the conversions
-- of type affinity, as of a number in a TEXT column, are left out, and so is its refusal to bind a list
-- or a dictionary in a condition, which here matches nothing; a run of events in Sse is stamped with
-- one time where each event reads the clock.
--
-- Every function is structurally recursive; there is no fuel but in the printing of a number in
-- decimal (Value), which is given one more than the number and needs its count of digits.
--
-- Not modelled: _safe_order, OFFSET and indexes of the store; session ids, disconnect callbacks and the
-- asyncio scheduling of the event stream, whose awaits are arguments of a round;
-- listings, archives and event payloads of releases, and calls of its handlers that overlap; metrics, HTTP routes,
-- deployment itself and the other modules of the package, which run processes or serve pages.
pub mod BackupManager
pub mod BackupScheduler
pub mod Common
pub mod GitSources
pub mod OutputLimits
pub mod Platform
pub mod RateLimit
pub mod Release
pub mod Sse
pub mod Value
