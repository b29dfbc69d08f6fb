-- ===== src/Examples/Deployments.antt =====
-- Deployments: a scope with room for one, an update of the stored version, a timeline of events.
use qiniu_ci_runner.Prelude.{
  true, List, [], ◌∷◌, ◌≡◌, ◌≤◌, ◌+◌, ◌⊎◌, refl, inl, arith, In, ok, err, conflict, count,
  trim_space, str_eq,
}
use qiniu_ci_runner.Prelude.Order.{text_before, text_before-IsOrder}
use qiniu_ci_runner.Deployment.Work.{work_rows}
use qiniu_ci_runner.Deployment.WorkPages.{work_rows-has_work}
use qiniu_ci_runner.Deployment.WorkLanes.{lanes_partition}
use qiniu_ci_runner.Deployment.Types.{
  Deployment, DeploymentRecord, DeploymentRevisionRecord, DeploymentEventRecord, queued, running,
  failed, other,
}
use qiniu_ci_runner.Deployment.Convert.{record_of, revision_record_from_deployment}
use qiniu_ci_runner.Deployment.Paths.{clean}
use qiniu_ci_runner.Deployment.Normalize.{normalize_deployment}
use qiniu_ci_runner.Deployment.Store.{
  at_number, has_id, DeploymentDb, occupies, lock_deployment_scope, create_row, create_deployment,
  create_deployment_with_scope_limit,
}
use qiniu_ci_runner.Deployment.Writing.{at_version, set_columns, update_deployment}
use qiniu_ci_runner.Deployment.Retry.{retry_deployment_with_scope_limit}
use qiniu_ci_runner.Deployment.Budget.{
  append_deployment_event, trimmed_event, budget_of, check_event,
}
use qiniu_ci_runner.Deployment.Sound.{IsSound}
use qiniu_ci_runner.Deployment.Appending.{IsCounted, Appended, timeline}
use qiniu_ci_runner.Deployment.Timeline.{
  IsAccepted, kept_event, append_deployment_event-Appended, append_deployment_event_bounded,
}
use qiniu_ci_runner.Deployment.History.{Call, run_calls}
use qiniu_ci_runner.Deployment.Consistency.{
  run_calls-IsSound, run_calls-IsCounted, update_deployment_outcome,
}
use qiniu_ci_runner.Deployment.Reading.{get_deployment_revision-current}
use qiniu_ci_runner.Deployment.Revisions.{get_deployment_revision, revision_from_record}
use qiniu_ci_runner.Deployment.Limits.{
  create_deployment_with_scope_limit_bounded, create_deployment_with_scope_limit_outcome,
  retry_deployment_with_scope_limit_bounded,
}

abbrev asked : Deployment
asked = record {
  create_request_hash = "";
  execution_account_id = 1;
  revision_number = 0;
  id = "d1";
  account_id = 1;
  scope_type = "account";
  scope_id = 1;
  github_installation_id = 2;
  repository_id = 3;
  repository_full_name = "o/r";
  ref = "main";
  commit_sha = "0123456789abcdef0123456789abcdef01234567";
  config_path = "deploy.yml";
  snapshot_version = 1;
  spec_hash = "h";
  spec_json_encrypted = "e";
  status = other "";
  sandbox_id = "";
  attempt = 0;
  runtime_id = "";
  process_id = "";
  process_tag = "";
  sandbox_api_url = "";
  sandbox_api_key_encrypted = "";
  sandbox_config_source = "";
  sandbox_region = "";
  deployment_template_id = "";
  deployment_template_name = "";
  deployment_template_cpu = 1;
  deployment_template_memory_mb = 512;
  deployment_template_disk_mb = 1024;
  endpoint = "";
  failure_stage = "";
  failure_reason = "";
  error = "";
  expires_at = 90;
  created_at = 0;
  planning_at = 0;
  creating_at = 0;
  running_at = 0;
  stopping_at = 0;
  completed_at = 0;
  failed_at = 0;
  updated_at = 0;
  version = 0;
  source_repository_id = 3;
  source_repository_full_name = "o/r";
  source_ref = "main";
  pull_request_title = "";
}

abbrev empty_db : DeploymentDb
empty_db = record {
  available = true;
  deployments = [];
  revisions = [];
  events = [];
  next_event = 1;
  accounts = 1 ∷ [];
  installations = [];
}

empty-IsSound : IsSound empty_db
empty-IsSound = record { ids = tt; slots = tt; current = tt; owned = tt }

empty-IsCounted : IsCounted empty_db
empty-IsCounted = record { rising = tt; below = tt; exact = tt }

abbrev line : DeploymentEventRecord
line = record {
  revision_number = 0;
  id = 0;
  deployment_id = " d1";
  attempt = 1;
  event_type = "log";
  stage = "creating";
  stream = "stdout";
  message = 104 ∷ 105 ∷ [];
  created_at = 0;
}

abbrev calls : List Call
calls =
    Call.create_limited 5 asked 1
    ∷ Call.append 6 line
    ∷ Call.update 7 (record asked { status = failed })
    ∷ Call.retry_limited 8 asked 80 1
    ∷ Call.fill "d1" "refs/pull/7/head" "title"
    ∷ Call.prune str_eq 9 0 []
    ∷ []

run_calls-IsSound_example : IsSound (run_calls calls empty_db)
run_calls-IsSound_example = run_calls-IsSound calls empty_db empty-IsSound

run_calls-IsCounted_example : IsCounted (run_calls calls empty_db)
run_calls-IsCounted_example = run_calls-IsCounted calls empty_db empty-IsCounted

create_deployment_with_scope_limit_bounded_example :
    (count
        (occupies "account" 1)
        (create_deployment_with_scope_limit 5 asked 1 empty_db).0.deployments
      ≡ 0)
    ⊎ (count
          (occupies "account" 1)
          (create_deployment_with_scope_limit 5 asked 1 empty_db).0.deployments
        ≤ 1)
create_deployment_with_scope_limit_bounded_example =
    create_deployment_with_scope_limit_bounded 5 asked 1 empty_db "account" 1

account-known : lock_deployment_scope asked empty_db ≡ ok tt
unfolding lock_deployment_scope
account-known = refl

create_deployment_with_scope_limit_outcome_example :
    create_deployment_with_scope_limit 5 asked 1 empty_db ≡ create_deployment 5 asked empty_db
create_deployment_with_scope_limit_outcome_example =
    create_deployment_with_scope_limit_outcome 5 asked 1 empty_db refl account-known

-- The tables with that deployment and its revision.
abbrev pub row : DeploymentRecord
row = record (record_of asked) {
  status = queued;
  revision_number = 1;
  created_at = 5;
  updated_at = 5;
}

abbrev pub one_db : DeploymentDb
one_db = record empty_db {
  deployments = row ∷ [];
  revisions = revision_record_from_deployment row 5 ∷ [];
}

created_one : (create_deployment 5 asked empty_db).0 ≡ one_db
unfolding create_deployment create_row trim_space clean
created_one = refl

abbrev first_revision : DeploymentRevisionRecord
first_revision = revision_record_from_deployment row 5

one-IsSound : IsSound one_db
unfolding record_of revision_record_from_deployment
one-IsSound = record {
  ids = (tt, tt);
  slots = (tt, tt);
  current = ((first_revision, inl refl, refl), tt);
  owned = ((row, inl refl, refl, omega arith), tt);
}

one-IsCounted : IsCounted one_db
unfolding revision_record_from_deployment
one-IsCounted = record { rising = tt; below = tt; exact = (inl refl, tt) }

line-IsAccepted : IsAccepted 6 line row first_revision one_db
unfolding record_of revision_record_from_deployment trim_space check_event
line-IsAccepted = record {
  available = refl;
  checked = refl;
  found = refl;
  current = refl;
  revised = refl;
}

append_deployment_event-Appended_example :
    (db' : DeploymentDb) × (append_deployment_event 6 line one_db ≡ (db', ok tt))
    × Appended (kept_event 6 line row) one_db db'
    × IsCounted db'
append_deployment_event-Appended_example =
    append_deployment_event-Appended 6 line row first_revision one_db one-IsCounted line-IsAccepted

append_deployment_event_bounded_example :
    let b = budget_of (
      timeline
        (trimmed_event 6 line).deployment_id
        row.revision_number
        (append_deployment_event 6 line one_db).0) in
    (b.events ≤ 2000) × (b.bytes ≤ 8388608)
append_deployment_event_bounded_example =
    append_deployment_event_bounded 6 line row first_revision one_db one-IsCounted line-IsAccepted

abbrev starting : Deployment
starting = record asked { status = running; sandbox_id = "s1" }

starting-normal : normalize_deployment starting ≡ ok starting
unfolding normalize_deployment trim_space clean
starting-normal = refl

update_deployment_outcome_example :
    ((r : DeploymentRecord) × (db' : DeploymentDb) × In r one_db.deployments
      × (at_version "d1" 0 r ≡ true)
      × (update_deployment 7 starting one_db ≡ (db', ok tt))
      × In (set_columns 7 starting r) db'.deployments)
    ⊎ ((count (at_version "d1" 0) one_db.deployments ≡ 0)
        × (update_deployment 7 starting one_db ≡ (one_db, err conflict)))
update_deployment_outcome_example =
    update_deployment_outcome 7 starting starting one_db one-IsSound refl starting-normal refl

-- The deployment has failed, and its Sandbox is gone.
abbrev failed_db : DeploymentDb
failed_db = record one_db { deployments = record row { status = failed } ∷ [] }

failed-IsSound : IsSound failed_db
unfolding record_of revision_record_from_deployment
failed-IsSound = record {
  ids = (tt, tt);
  slots = (tt, tt);
  current = ((first_revision, inl refl, refl), tt);
  owned = ((record row { status = failed }, inl refl, refl, omega arith), tt);
}

retry_deployment_with_scope_limit_bounded_example :
    let db' =
      (retry_deployment_with_scope_limit 8 (record asked { status = failed }) 80 1 failed_db).0 in
    (db' ≡ failed_db) ⊎ (count (occupies "account" 1) db'.deployments ≤ 1)
retry_deployment_with_scope_limit_bounded_example =
    retry_deployment_with_scope_limit_bounded 8 (record asked { status = failed }) 80 1 failed_db
      failed-IsSound

-- A running deployment, whose time is up at 90.
abbrev running_row : DeploymentRecord
running_row = record row { status = running; sandbox_id = "s1" }

direct_page : work_rows text_before "cleanup" "" 10 99 (running_row ∷ []) ≡ running_row ∷ []
unfolding work_rows record_of
direct_page = refl

work_rows-has_work_example :
    work_rows text_before "cleanup" "" 10 99 (running_row ∷ []) ≡ running_row ∷ []
unfolding record_of
work_rows-has_work_example =
    work_rows-has_work text_before "cleanup" "" 10 99 (running_row ∷ []) text_before-IsOrder
      (tt, tt) (refl, tt)

no_start : work_rows text_before "provision" "" 10 99 (running_row ∷ []) ≡ []
unfolding work_rows record_of
no_start = refl

no_watch : work_rows text_before "monitor" "" 10 99 (running_row ∷ []) ≡ []
unfolding work_rows record_of
no_watch = refl

lanes_partition_example :
    count (has_id "d1") (work_rows text_before "provision" "" 10 99 (running_row ∷ []))
      + (count (has_id "d1") (work_rows text_before "monitor" "" 10 99 (running_row ∷ []))
          + count (has_id "d1") (work_rows text_before "cleanup" "" 10 99 (running_row ∷ [])))
    ≡ 1
unfolding record_of
lanes_partition_example =
    lanes_partition text_before 10 99 (running_row ∷ []) running_row text_before-IsOrder (tt, tt)
      (refl, tt) (inl refl) (rw no_start (omega arith)) (rw no_watch (omega arith))
      (rw direct_page (omega arith))

get_deployment_revision-current_example :
    (r : DeploymentRevisionRecord) × In r one_db.revisions
    × (at_number "d1" 1 r ≡ true)
    × (get_deployment_revision "d1" 1 one_db ≡ ok (revision_from_record r row))
unfolding record_of trim_space
get_deployment_revision-current_example =
    get_deployment_revision-current one_db row one-IsSound refl (inl refl) refl
