-- ===== src/Jobs/Execution.antt =====
-- One attempt of a job in a worker (`run_durably` of app/services/job_service.py).
--
-- Parameters: the task's body, with all that is committed while it runs, and RQ's job with its
-- retries. The row of a run is not deleted while its task runs, and an error's text is not cut at
-- 2000 characters. The session keeps the row's object as the start of the attempt left it, and a
-- later commit writes a column only if its new value differs from that object's.
use linking_engine_backend.Prelude.{
  false, str_eq, ℕ, ◌+◌, ◌==◌, Bool, true, ◌||◌, String, Option, none, some, List, [], ◌∷◌,
  if◌then◌else◌, update_where, find, Result, ok, err,
}
use linking_engine_backend.Jobs.{
  JobRun, JobStatus, Alert, AlertKind, has_id, mark_job_failure_progress,
}

pub record TaskError : Type 0 where
  pub message : String
  -- the error is a NonRetryableTaskError
  pub non_retryable : Bool

-- `get_current_job()`, with its `retries_left`
pub data CurrentJob : Type 0 where
  no_job : CurrentJob
  job : Option ℕ → CurrentJob

abbrev pub started_row : ℕ → JobRun → JobRun
started_row now r = record r {
  status = JobStatus.running;
  attempts = r.attempts + 1;
  started_at = some now;
  finished_at = none;
  result = none;
}

abbrev pub has_no_retries : CurrentJob → Bool
has_no_retries no_job = true
has_no_retries (job none) = true
has_no_retries (job (some n)) = n == 0

abbrev pub is_final : TaskError → CurrentJob → Bool
is_final e current = e.non_retryable || has_no_retries current

-- An error that is not to be retried takes the retries from RQ's job.
abbrev pub without_retries : TaskError → CurrentJob → CurrentJob
without_retries e no_job = no_job
without_retries e (job n) = if e.non_retryable then job (some 0) else job n

abbrev pub same_text : Option String → Option String → Bool
same_text none none = true
same_text none (some t) = false
same_text (some s) none = false
same_text (some s) (some t) = str_eq s t

-- The column after a write of `value` to an object that held `held`.
abbrev pub written : Option String → Option String → Option String → Option String
written held value stored = if same_text held value then stored else value

-- The status differs from the object's "running", and the object has no end and no result.
abbrev pub failed_row : ℕ → Bool → String → JobRun → JobRun → JobRun
failed_row now final message object r = record (mark_job_failure_progress final now r) {
  status = if final then JobStatus.failed else JobStatus.queued;
  error = written object.error (some message) r.error;
  finished_at = if final then some now else r.finished_at;
}

abbrev pub succeeded_row : ℕ → String → JobRun → JobRun → JobRun
succeeded_row now result object r = record r {
  status = JobStatus.succeeded;
  result = some result;
  error = written object.error none r.error;
  finished_at = some now;
}

-- What an attempt leaves: the rows, the alerts it sent, RQ's job, and what the task returned.
pub record Attempt : Type 0 where
  pub runs : List JobRun
  pub alerts : List Alert
  pub current : CurrentJob
  pub answer : Result TaskError String

-- The task's body: the rows it finds when it starts, to those committed when it ends.
abbrev pub Body : Type 0
Body = List JobRun → Result TaskError String × List JobRun

abbrev pub failed_alert : ℕ → Option ℕ → Option JobRun → TaskError → Alert
failed_alert site_id job_run_id run e = record {
  kind = AlertKind.job_failed;
  site_id = site_id;
  job_run_id = job_run_id;
  attempts = elim run [ none ↦ 1 | some r ↦ r.attempts + 1 ];
  error = e.message;
}

module _ (now : ℕ) (site_id : ℕ) (current : CurrentJob) where
  abbrev pub update_run : Option JobRun → (JobRun → JobRun → JobRun) → List JobRun → List JobRun
  update_run none f runs = runs
  update_run (some r) f runs = update_where (has_id r.id) (f (started_row now r)) runs

  abbrev pub start_run : Option JobRun → List JobRun → List JobRun
  start_run run runs = update_run run (λ object r. started_row now r) runs

  abbrev pub finish_attempt :
      Option ℕ → Option JobRun → Result TaskError String × List JobRun → Attempt
  finish_attempt job_run_id run (ok result, runs) = record {
    runs = update_run run (succeeded_row now result) runs;
    alerts = [];
    current = current;
    answer = ok result;
  }
  finish_attempt job_run_id run (err e, runs) = record {
    runs = update_run run (failed_row now (is_final e current) e.message) runs;
    alerts = if is_final e current then failed_alert site_id job_run_id run e ∷ [] else [];
    current = without_retries e current;
    answer = err e;
  }

  abbrev pub run_of : Option ℕ → List JobRun → Option JobRun
  run_of none runs = none
  run_of (some n) runs = find (has_id n) runs

  unfoldable pub run_durably : Option ℕ → Body → List JobRun → Attempt
  run_durably job_run_id body runs =
      let run = run_of job_run_id runs in finish_attempt job_run_id run (body (start_run run runs))
