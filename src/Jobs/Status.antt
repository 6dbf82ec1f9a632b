-- ===== src/Jobs/Status.antt =====
-- The status of a job as the API shows it (`get_job_status` of app/services/job_service.py).
--
-- Parameters: RQ's job, with its return value and the last line of its last error. RQ's statuses
-- are those of its documentation; any other would read as failed.
use linking_engine_backend.Prelude.{
  ℕ, Bool, true, false, ◌&&◌, String, Option, none, some, List, if◌then◌else◌, find,
}
use linking_engine_backend.Publication.Progress.{Progress}
use linking_engine_backend.Jobs.{JobRun, JobStatus}
use linking_engine_backend.Jobs.Interruption.{is_id_of, is_succeeded}
use linking_engine_backend.Jobs.Enqueue.{RqStatus}

pub record JobView : Type 0 where
  pub job_id : String
  pub status : JobStatus
  pub result : Option String
  pub progress : Option Progress
  pub progress_at : Option ℕ
  pub error : Option String

-- RQ's job: its status, the last line of its last error, its return value.
pub record LiveJob : Type 0 where
  pub status : RqStatus
  pub last_error : Option String
  pub return_value : Option String

-- _PUBLIC_JOB_STATUSES
abbrev pub public_status : RqStatus → JobStatus
public_status RqStatus.queued = JobStatus.queued
public_status RqStatus.deferred = JobStatus.queued
public_status RqStatus.scheduled = JobStatus.queued
public_status RqStatus.started = JobStatus.running
public_status RqStatus.finished = JobStatus.succeeded
public_status RqStatus.failed = JobStatus.failed
public_status RqStatus.stopped = JobStatus.failed
public_status RqStatus.canceled = JobStatus.failed

-- _RQ_TERMINAL_FAILURE_STATUSES
abbrev pub is_terminal_failure : RqStatus → Bool
is_terminal_failure RqStatus.failed = true
is_terminal_failure RqStatus.stopped = true
is_terminal_failure RqStatus.canceled = true
is_terminal_failure RqStatus.queued = false
is_terminal_failure RqStatus.started = false
is_terminal_failure RqStatus.deferred = false
is_terminal_failure RqStatus.scheduled = false
is_terminal_failure RqStatus.finished = false

abbrev pub first_of : Option String → Option String → Option String
first_of none other = other
first_of (some s) other = some s

abbrev pub durable_view : String → JobStatus → JobRun → JobView
durable_view job_id status r = record {
  job_id = job_id;
  status = status;
  result = r.result;
  progress = r.progress;
  progress_at = r.progress_at;
  error = r.error;
}

abbrev pub live_result : JobStatus → LiveJob → Option String → Option String
live_result status live durable_result =
    if is_succeeded status then first_of live.return_value durable_result else none

abbrev pub live_view : String → LiveJob → Option JobRun → JobView
live_view job_id live none = record {
  job_id = job_id;
  status = public_status live.status;
  result = live_result (public_status live.status) live none;
  progress = none;
  progress_at = none;
  error = live.last_error;
}
live_view job_id live (some r) =
    if is_succeeded r.status && is_terminal_failure live.status
    then durable_view job_id JobStatus.succeeded r
    else record {
      job_id = job_id;
      status = public_status live.status;
      result =
          live_result (public_status live.status) live
            (if is_succeeded r.status then r.result else none);
      progress = r.progress;
      progress_at = r.progress_at;
      error = first_of live.last_error r.error;
    }

abbrev pub stored_view : String → Option JobRun → Option JobView
stored_view job_id none = none
stored_view job_id (some r) = some (durable_view job_id r.status r)

abbrev pub view_of : String → Option LiveJob → Option JobRun → Option JobView
view_of job_id none run = stored_view job_id run
view_of job_id (some live) run = some (live_view job_id live run)

-- `none` for a job that neither RQ nor the table knows
unfoldable pub get_job_status : String → Option LiveJob → List JobRun → Option JobView
get_job_status job_id live runs =
    view_of job_id live (find (λ (r : JobRun). is_id_of job_id r.queue_job_id) runs)
