-- ===== src/Jobs/Interruption.antt =====
-- A job that RQ stops, kills or abandons (`_reconcile_interrupted_job` and the three callbacks of
-- app/services/job_service.py).
--
-- Parameters: RQ's job, and whether the commit succeeds; a commit that fails leaves the tables as
-- they are and sends nothing. An error's text is not cut at 2000 characters.
pub mod Once
use linking_engine_backend.Prelude.{
  ℕ, ◌==◌, Bool, true, false, not, ◌&&◌, ◌||◌, String, str_eq, Option, none, some, List, [], ◌∷◌,
  ◌++◌, if◌then◌else◌, is_none, is_some_of, ltb, update_where, find,
}
use linking_engine_backend.Jobs.{
  JobRun, JobStatus, kind_code, Alert, AlertKind, has_id, mark_job_failure_progress,
}

pub data RunStatus : Type 0 where
  running succeeded failed : RunStatus

abbrev pub is_running : RunStatus → Bool
is_running RunStatus.running = true
is_running RunStatus.succeeded = false
is_running RunStatus.failed = false

pub record IngestionRun : Type 0 where
  pub id : ℕ
  pub site_id : ℕ
  pub job_run_id : Option ℕ
  pub status : RunStatus
  pub error : Option String
  pub finished_at : Option ℕ

-- RQ's job: its id, `kwargs["job_run_id"]`, and its retries.
pub record QueueJob : Type 0 where
  pub id : String
  pub job_run_id : Option ℕ
  pub retries_left : Option ℕ

pub record Tables : Type 0 where
  pub runs : List JobRun
  pub ingestion_runs : List IngestionRun
  pub alerts : List Alert

abbrev pub is_id_of : String → Option String → Bool
is_id_of id none = false
is_id_of id (some other) = str_eq other id

abbrev pub is_free_or : String → Option String → Bool
is_free_or id none = true
is_free_or id (some other) = str_eq other id

abbrev pub claimed : QueueJob → Option JobRun → Option JobRun
claimed job none = none
claimed job (some r) =
    if is_free_or job.id r.queue_job_id
    then some (record r { queue_job_id = some job.id })
    else none

abbrev pub run_of_kwargs : Option ℕ → List JobRun → Option JobRun
run_of_kwargs none runs = none
run_of_kwargs (some n) runs = find (has_id n) runs

-- The run whose row holds the id of the job, or else the one that the job names.
abbrev pub run_of_job : QueueJob → List JobRun → Option JobRun → Option JobRun
run_of_job job runs (some r) = some r
run_of_job job runs none = claimed job (run_of_kwargs job.job_run_id runs)

abbrev pub has_retries : Option ℕ → Bool
has_retries none = false
has_retries (some n) = ltb 0 n

abbrev pub decides : Option Bool → QueueJob → Bool
decides none job = has_retries job.retries_left
decides (some b) job = b

abbrev pub is_failed : JobStatus → Bool
is_failed JobStatus.failed = true
is_failed JobStatus.queued = false
is_failed JobStatus.running = false
is_failed JobStatus.succeeded = false

abbrev pub is_succeeded : JobStatus → Bool
is_succeeded JobStatus.succeeded = true
is_succeeded JobStatus.queued = false
is_succeeded JobStatus.running = false
is_succeeded JobStatus.failed = false

module _ (now : ℕ) (error : String) (will_retry : Bool) where
  abbrev pub is_attempt_of : JobRun → IngestionRun → Bool
  is_attempt_of r i =
      is_some_of i.job_run_id r.id && (i.site_id == r.site_id && is_running i.status)

  abbrev pub closed_ingestion_run : IngestionRun → IngestionRun
  closed_ingestion_run i = record i {
    status = RunStatus.failed;
    error = some error;
    finished_at = some now;
  }

  abbrev pub closed_ingestion_runs : JobRun → List IngestionRun → List IngestionRun
  closed_ingestion_runs r runs =
      if kind_code r.kind == 0 && not (is_none r.started_at)
      then update_where (is_attempt_of r) closed_ingestion_run runs
      else runs

  unfoldable pub interrupted_row : JobRun → JobRun
  interrupted_row r = record (mark_job_failure_progress (not will_retry) now r) {
    status = if will_retry then JobStatus.queued else JobStatus.failed;
    error = some error;
    finished_at = if will_retry then none else some now;
    result = none;
  }

  abbrev pub interrupted_alert : AlertKind → JobRun → Alert
  interrupted_alert alert_kind r = record {
    kind = alert_kind;
    site_id = r.site_id;
    job_run_id = some r.id;
    attempts = r.attempts;
    error = error;
  }

  abbrev pub interrupt_run : AlertKind → Bool → Option JobRun → Tables → Tables
  interrupt_run alert_kind commits none t = t
  interrupt_run alert_kind commits (some r) t =
      if is_failed r.status || (is_succeeded r.status && not will_retry || not commits)
      then t
      else record {
        runs = update_where (has_id r.id) (λ _. interrupted_row r) t.runs;
        ingestion_runs = closed_ingestion_runs r t.ingestion_runs;
        alerts = if will_retry then t.alerts else t.alerts ++ interrupted_alert alert_kind r ∷ [];
      }

unfoldable pub reconcile_interrupted_job :
    ℕ → String → Option Bool → AlertKind → Bool → QueueJob → Tables → Tables
unfolding interrupted_row
reconcile_interrupted_job now error will_retry alert_kind commits job t =
    interrupt_run now error (decides will_retry job) alert_kind commits
      (run_of_job job t.runs (find (λ (r : JobRun). is_id_of job.id r.queue_job_id) t.runs)) t

-- `wait_status` is the text of the callback's error.
abbrev pub handle_work_horse_killed : ℕ → String → Bool → QueueJob → Tables → Tables
handle_work_horse_killed now wait_status commits job t =
    reconcile_interrupted_job now wait_status none AlertKind.job_failed commits job t

-- `is_abandoned` tells whether the exception is an AbandonedJobError.
abbrev pub handle_abandoned_job : ℕ → Bool → Bool → QueueJob → Tables → Tables
handle_abandoned_job now is_abandoned commits job t =
    if is_abandoned
    then reconcile_interrupted_job now "job abandoned after worker termination" none
        AlertKind.job_failed commits job t
    else t

abbrev pub handle_job_stopped : ℕ → Bool → QueueJob → Tables → Tables
handle_job_stopped now commits job t =
    reconcile_interrupted_job now "job stopped intentionally" (some false) AlertKind.job_stopped
      commits job t
