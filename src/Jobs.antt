-- ===== src/Jobs.antt =====
-- Durable job runs (app/services/job_service.py, app/models/job.py).
--
-- A result is its JSON text. An alert is the fields of its payload; sending it is outside. Times
-- are one clock's readings, and a request reads its clock once. Running attempts are in Execution,
-- interruptions in Interruption, and enqueueing with the reconciliation in Enqueue.
pub mod Execution
pub mod Interruption
pub mod Enqueue
pub mod Status
pub mod Coherence
pub mod Attempts
pub mod Retries
pub mod Steps
mod Tests
use linking_engine_backend.Prelude.{
  ℕ, ◌+◌, ◌==◌, Bool, true, false, ◌||◌, String, Option, none, some, List, [], ◌∷◌, if◌then◌else◌,
  update_where, find, map,
}
use linking_engine_backend.Publication.Progress.{Progress, mark_publication_failure}

pub data JobKind : Type 0 where
  ingestion analysis publication_preparation publication : JobKind

pub data JobStatus : Type 0 where
  queued running succeeded failed : JobStatus

abbrev pub kind_code : JobKind → ℕ
kind_code JobKind.ingestion = 0
kind_code JobKind.analysis = 1
kind_code JobKind.publication_preparation = 2
kind_code JobKind.publication = 3

pub record JobRun : Type 0 where
  pub id : ℕ
  pub site_id : ℕ
  pub kind : JobKind
  pub status : JobStatus
  pub queue_job_id : Option String
  pub requested_by : Option String
  pub attempts : ℕ
  pub result : Option String
  pub progress : Option Progress
  pub progress_at : Option ℕ
  pub error : Option String
  pub enqueued_at : ℕ
  pub started_at : Option ℕ
  pub finished_at : Option ℕ

pub data AlertKind : Type 0 where
  job_lost job_failed job_stopped : AlertKind

pub record Alert : Type 0 where
  pub kind : AlertKind
  pub site_id : ℕ
  pub job_run_id : Option ℕ
  pub attempts : ℕ
  pub error : String

-- "queued" or "running"
abbrev pub is_active_status : JobStatus → Bool
is_active_status JobStatus.queued = true
is_active_status JobStatus.running = true
is_active_status JobStatus.succeeded = false
is_active_status JobStatus.failed = false

abbrev pub is_active_run : JobRun → Bool
is_active_run r = is_active_status r.status

abbrev pub has_id : ℕ → JobRun → Bool
has_id n r = r.id == n

abbrev pub run_ids : List JobRun → List ℕ
run_ids rs = map (λ (r : JobRun). r.id) rs

-- A row as its insertion makes it.
abbrev pub new_run : ℕ → ℕ → ℕ → JobKind → Option String → JobRun
new_run now id site_id kind requested_by = record {
  id = id;
  site_id = site_id;
  kind = kind;
  status = JobStatus.queued;
  queue_job_id = none;
  requested_by = requested_by;
  attempts = 0;
  result = none;
  progress = none;
  progress_at = none;
  error = none;
  enqueued_at = now;
  started_at = none;
  finished_at = none;
}

-- What `_mark_run_lost` writes
unfoldable pub lost_row : ℕ → JobRun → JobRun
lost_row now r = record r {
  status = JobStatus.failed;
  error = some "lost from queue before completion";
  finished_at = some now;
}

abbrev pub lost_alert : JobRun → Alert
lost_alert r = record {
  kind = AlertKind.job_lost;
  site_id = r.site_id;
  job_run_id = some r.id;
  attempts = r.attempts;
  error = "lost from queue before completion";
}

-- `_mark_job_failure_progress`
abbrev pub with_progress : ℕ → Option Progress → JobRun → JobRun
with_progress now none r = r
with_progress now (some p) r = record r { progress = some p; progress_at = some now }

abbrev pub mark_job_failure_progress : Bool → ℕ → JobRun → JobRun
mark_job_failure_progress is_terminal now r =
    if kind_code r.kind == 3
    then with_progress now (mark_publication_failure r.progress is_terminal) r
    else r

abbrev pub is_some_id : Option ℕ → JobRun → Bool
is_some_id none r = false
is_some_id (some n) r = has_id n r

-- `record_progress`: `fields` merges its fields into the progress; a write that fails is rolled
-- back.
unfoldable pub record_progress :
    Bool → ℕ → (Option Progress → Progress) → Option ℕ → List JobRun → List JobRun
record_progress flushes now fields job_run_id runs =
    if flushes
    then update_where (is_some_id job_run_id)
        (λ (r : JobRun). record r { progress = some (fields r.progress); progress_at = some now })
        runs
    else runs
