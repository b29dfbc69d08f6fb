-- ===== src/Lib.antt =====
-- Runner requests, runner admission, deployments and their scheduler in runnerd (`internal/state`,
-- `internal/server`, `internal/deployment/worker`).
--
-- runnerd keeps one row for each requested runner. A webhook creates the row; workers claim queued
-- rows under a lease, admit them within the configured capacities, write each change of state under
-- the row's version, and requeue a failed row on demand.
--
-- `Prelude` holds library names, Boolean tests, results, texts as lists of characters, and tables
-- with a key (`Prelude/Table`, `Prelude/Rows`), unions of bounded queries (`Prelude/Branches`),
-- sorted lists (`Prelude/Sort`) and orders of texts (`Prelude/Order`).
--
-- `Request` is `internal/state/runner_requests.go` with `conversions.go`, `records.go` and `store.go`:
--   * `Request/Types`, `Request/Record`: `RunnerRequest`, `RunnerState` and `runnerRequestRecord`,
--     with every field, and the fields that a webhook payload is read for;
--   * `Request/Convert`, `Request/Links`, `Request/Reading`: `sanitizeID`, the context that
--     `githubLinksFromPayloadBytes` and `githubLinksFromRecord` find, `recordToRequest`,
--     `recordToState`;
--   * `Request/Store`, `Request/Writing`, `Request/Queue`, `Request/Retry`: `createRequest`,
--     `WriteState`, `ClaimNextRunnable`, `ReleaseLease`, `RetryRequest`;
--   * `Request/Names`: what `sanitizeID` keeps out of an id;
--   * `Request/Counts`, `Request/Listing`: `ActiveCount` and the other counts, `ListStates`,
--     `ListStatesPage`, `ListStatesCursor`;
--   * `Request/Display`, `Request/Pages`, `Request/Paging`: the filter of those lists and the pages of
--     `ListStatesCursor`, with what is proved of them;
--   * `Request/Keys`, `Request/Frames`, `Request/History`, `Request/Lease`, `Request/Exclusion`,
--     `Request/Versions`, `Request/Requeue`: what is proved of them.
--
-- `Capacity` is `internal/server/server_runner_capacity.go`: `Capacity/Board` has the counters, which
-- live at addresses since observations share them, `Capacity/Admission` has `observe`, `reserve` and
-- `finish`, `Capacity/Reserve` has `reserveRunnerCapacity`, `Capacity/Protocol` runs any number of
-- admissions at once as `server_runner_lifecycle.go` does, and `Capacity/Safety`, `Capacity/Bound`
-- and `Capacity/Refusal` have what is proved.
--
-- `Events` is the part of `internal/state/runner_requests.go` on events: `Events/Log` has
-- `AppendStagedLog`, `ReadLog`, `ListRunnerEvents` and `ListRunnerEventsAfter`, with messages as lists
-- of bytes, and `Events/Contents`, `Events/Replay` and `Events/Latest` what is proved.
--
-- `Deployment` is `internal/state/deployments.go` with `deployment_revisions.go`, `records.go` and
-- `store.go`: deployments, each with one revision for each time it was queued, and their events.
--   * `Deployment/Types`, `Deployment/Convert`: `Deployment`, `deploymentRecord`,
--     `deploymentRevisionRecord`, `deploymentEventRecord`, with every column, and the conversions;
--   * `Deployment/Paths`, `Deployment/Normalize`: `path.Clean` and `normalizeDeployment`;
--   * `Deployment/Store`, `Deployment/Writing`, `Deployment/Retry`, `Deployment/Pruning`:
--     `CreateDeployment`, `CreateDeploymentWithScopeLimit`, `GetDeployment`, `UpdateDeployment`,
--     `RetryDeployment`, `RetryDeploymentWithScopeLimit`, `PruneDeployments`;
--   * `Deployment/Titles`, `Deployment/Revisions`: `FillDeploymentPullRequestTitle`, and the reading of
--     revisions and events;
--   * `Deployment/Budget`: `AppendDeploymentEvent`, with the loop that drops the oldest events;
--   * `Deployment/Work`, `Deployment/WorkPages`, `Deployment/WorkLanes`: `ListDeploymentWork` and
--     `ListActiveDeployments`, the pages that the scheduler's lanes read;
--   * `Deployment/Filter`, `Deployment/Access`, `Deployment/Listing`: `DeploymentListStatusValues`,
--     `CountAuthorizedDeploymentsByStatus`, `authorizedDeploymentRepositories`,
--     `ListDeploymentsForAccount`, `ListAuthorizedDeployments`, `ListAuthorizedDeploymentsWithCounts`;
--   * `Deployment/Groups`, `Deployment/Totals`, `Deployment/Polling`, `Deployment/Authorized`: what is
--     proved of them;
--   * `Deployment/Frames`, `Deployment/Changes`: what each transaction leaves when it succeeds;
--   * `Deployment/Eviction`, `Deployment/Room`, `Deployment/Appending`, `Deployment/Timeline`: that
--     loop against a reference that drops one event at a time;
--   * `Deployment/Sound`, `Deployment/Kept`, `Deployment/SoundRetry`, `Deployment/SoundPruning`,
--     `Deployment/SoundAppending`, `Deployment/SoundTitles`, `Deployment/Counting`,
--     `Deployment/History`, `Deployment/Consistency`, `Deployment/Reading`: invariants of the tables
--     and what follows from them;
--   * `Deployment/Places`, `Deployment/Limits`: the quota of a scope.
-- Unique keys are checked on insertion, and an error of a transaction leaves the tables as they
-- were. A transaction is one step: an append and the check of the quota lock what they decide by,
-- and an update or a retry writes under a condition on the version. `PruneDeployments` reads its
-- candidates before its transaction, so that the model has them from any earlier table. The loop on
-- events has fuel for one round more than the revision has events, and each round but the last
-- deletes at least one. The field `ContextRevision`, which only listings fill, is left out, as are
-- the list of repositories and the backfill of revisions, which runs when the tables are migrated.
-- A deployment's version, and the counters of events, are natural numbers: the branch for a version
-- below 0 is empty, and the counters do not fall below 0 where they are exact.
--
-- `Profile` is `internal/state/profile_policy.go`: `Profile/Policy` has `NormalizeProfilePolicy`,
-- `ValidateProfilePolicy` and `migrateRunnerProfilePolicies`, `Profile/Migration` what is proved.
--
-- `Labels` is `internal/labelutil/labels.go`. `Examples` applies the results to small tables.
--
-- `Scheduler` is `internal/deployment/worker/scheduler.go`: `Scheduler/Lanes` has the lanes and the
-- events of `Run`, `Scheduler/Flight` the list of operations in flight, `Scheduler/Bounds` and
-- `Scheduler/Filling` what is proved. The answers of the store are arguments, a list for each loop,
-- so that the loop ends when the context does.
--
-- A statement of the database is a function on the list of rows; a transaction is one such
-- function. `ClaimNextRunnable` reads its candidate without a lock and then updates it under the
-- conditions on its id, status and lease; the model takes the two as one step, with nothing in
-- between. A database that opened (`available`) answers every statement. The JSON codec (`Json`),
-- the order of texts in the database (`by_id`) and `strings.ToLower` (`lower`) are parameters. A
-- time is a natural number of nanoseconds with 0 for the zero time, an id of GitHub is a natural
-- number, and the capacity counters wrap at 2 ^ 64 as the source's `uint64` does; the sums that are
-- compared with a limit are those of `int`, negative from 2 ^ 63 on. Logs, timings, HTTP and calls
-- of GitHub and of Sandbox providers are not modelled.
--
-- A text is a list of characters, which for `sanitizeID` and the other uses of `strings` is as good as
-- its bytes. A text column holds a text, never NULL. `LIKE` is matched exactly, on texts that both
-- sides have in lower case. Printing a number takes one round for each digit out of `n + 1`, and the
-- search of a query string one round for each field out of the length of the text, so that neither
-- runs out.
pub mod Prelude
pub mod Request
pub mod Capacity
pub mod Labels
pub mod Events
pub mod Deployment
pub mod Profile
pub mod Scheduler
pub mod Examples
