-- ===== src/Jobs/Tests.antt =====
-- A small job table: an enqueue over a lost run, a retried task, a callback that comes twice.
use linking_engine_backend.Prelude.{
  ℕ, ◌≡◌, refl, suc, zero, true, false, String, none, some, List, [], ◌∷◌, map, find, ok, err, All,
  In,
}
use linking_engine_backend.Policy.Pool.{Site, Platform}
use linking_engine_backend.Jobs.{
  JobRun, JobStatus, JobKind, AlertKind, Alert, new_run, lost_row, has_id,
}
use linking_engine_backend.Jobs.Execution.{Body, job, run_durably, TaskError}
use linking_engine_backend.Jobs.Interruption.{
  Tables, QueueJob, IngestionRun, RunStatus, reconcile_interrupted_job,
}
use linking_engine_backend.Jobs.Interruption.Once.{reconcile_interrupted_job_again}
use linking_engine_backend.Jobs.Enqueue.{
  Fetched, Session, is_active_for, enqueue_job_locked, RqStatus, no_such_job, found, duplicate_job,
}
use linking_engine_backend.Jobs.Enqueue.Single.{enqueue_job_locked-OnlyActive}
use linking_engine_backend.Jobs.Coherence.{IsCoherent}
use linking_engine_backend.Jobs.Steps.{none_yet, attempt, opened, JobSteps-IsCoherent}
use linking_engine_backend.Jobs.Retries.{perform, IsEnded, perform-IsEnded}
use linking_engine_backend.Jobs.Status.{JobView, get_job_status}

abbrev site : Site
site = record {
  id = 1;
  tenant_id = 1;
  base_url = [];
  platform = Platform.wordpress;
  pool_source_approved = false;
}

-- A run that is waiting under the id of a job that Redis has lost.
abbrev waiting : JobRun
waiting = record (new_run 10 3 1 JobKind.ingestion none) { queue_job_id = some "gone" }

abbrev fresh : JobRun
fresh = new_run 100 4 1 JobKind.ingestion (some "alice")

abbrev lost : JobRun
lost = record waiting {
  status = JobStatus.failed;
  error = some "lost from queue before completion";
  finished_at = some 100;
}

abbrev lost_notice : Alert
lost_notice = record {
  kind = AlertKind.job_lost;
  site_id = 1;
  job_run_id = some 3;
  attempts = 0;
  error = "lost from queue before completion";
}

abbrev after : Session
after = record {
  runs = lost ∷ record fresh { queue_job_id = some "new" } ∷ [];
  pending = [];
  alerts = lost_notice ∷ lost_notice ∷ [];
}

abbrev forgotten : String → Fetched
forgotten id = no_such_job

abbrev alone : List JobRun → List JobRun
alone rs = rs

-- The lost run is reported twice: the second loop reads it again before the first mark is written.
lost_run_is_reported_twice :
    enqueue_job_locked 100 forgotten
      (λ n. alone)
      (site ∷ [])
      1
      5
      alone
      (some "new")
      fresh
      (opened (waiting ∷ []))
    ≡ (ok 4, after)
unfolding enqueue_job_locked lost_row
lost_run_is_reported_twice = refl

enqueue_job_locked-OnlyActive_example :
    (4 ≡ fresh.id)
    × ((x : JobRun)
        → In x after.runs
        → is_active_for 100 forgotten (λ n. alone) 1 JobKind.ingestion x ≡ true
        → x.id ≡ fresh.id)
enqueue_job_locked-OnlyActive_example =
    enqueue_job_locked-OnlyActive 100 forgotten (λ n. alone) alone (site ∷ []) 1 5 4 (some "new")
      fresh (waiting ∷ []) after (λ k. (λ rs e. e, λ rs x i a. (x, i, a, refl, refl, refl)))
      (λ rs e. e, λ rs x i a. (x, i, a, refl, refl, refl)) refl lost_run_is_reported_twice

-- A job that is still in the queue refuses another.
second_is_refused :
    (enqueue_job_locked 100
      (λ id. found RqStatus.started)
      (λ n. alone)
      (site ∷ [])
      1
      5
      alone
      (some "new")
      fresh
      (opened (waiting ∷ []))).0
    ≡ err (duplicate_job waiting)
unfolding enqueue_job_locked
second_is_refused = refl

abbrev timeout : TaskError
timeout = record { message = "timeout"; non_retryable = false }

-- A task that fails while two retries are left, and then succeeds.
abbrev flaky : ℕ → Body
flaky zero rows = (ok "done", rows)
flaky (suc zero) rows = (ok "done", rows)
flaky (suc (suc n)) rows = (err timeout, rows)

abbrev finished : JobRun
finished = record waiting {
  status = JobStatus.succeeded;
  attempts = 2;
  result = some "done";
  started_at = some 20;
  finished_at = some 20;
}

retried_task_succeeds : find (has_id 3) (perform 20 1 3 flaky 2 (waiting ∷ [])).runs ≡ some finished
unfolding run_durably
retried_task_succeeds = refl

flaky_keeps :
    (n : ℕ) (rows : List JobRun) (r : JobRun)
    → find (has_id 3) rows ≡ some r
    → (r' : JobRun) × (find (has_id 3) (flaky n rows).1 ≡ some r')
      × (r'.attempts ≡ r.attempts)
      × (r'.error ≡ r.error)
flaky_keeps zero rows r e = (r, e, refl, refl)
flaky_keeps (suc zero) rows r e = (r, e, refl, refl)
flaky_keeps (suc (suc n)) rows r e = (r, e, refl, refl)

perform-IsEnded_example : IsEnded 3 0 2 (perform 20 1 3 flaky 2 (waiting ∷ []))
perform-IsEnded_example = perform-IsEnded 20 1 3 flaky 2 (waiting ∷ []) waiting flaky_keeps refl

JobSteps-IsCoherent_example :
    All IsCoherent (run_durably 20 1 (job (some 2)) (some 3) (flaky 2) (waiting ∷ [])).runs
JobSteps-IsCoherent_example =
    JobSteps-IsCoherent (waiting ∷ []) _ (tt, tt)
      (attempt 20 1 (job (some 2)) (some 3) (flaky 2) none_yet none_yet)

abbrev running_attempt : IngestionRun
running_attempt = record {
  id = 8;
  site_id = 1;
  job_run_id = some 3;
  status = RunStatus.running;
  error = none;
  finished_at = none;
}

abbrev busy : JobRun
busy = record waiting { status = JobStatus.running; started_at = some 20; attempts = 1 }

abbrev tables : Tables
tables = record { runs = busy ∷ []; ingestion_runs = running_attempt ∷ []; alerts = [] }

abbrev queue_job : QueueJob
queue_job = record { id = "gone"; job_run_id = some 3; retries_left = some 0 }

stop_closes_ingestion :
    map
      (λ (i : IngestionRun). i.status)
      (reconcile_interrupted_job 30 "stopped"
        (some false)
        AlertKind.job_stopped
        true
        queue_job
        tables).ingestion_runs
    ≡ RunStatus.failed ∷ []
unfolding reconcile_interrupted_job
stop_closes_ingestion = refl

reconcile_interrupted_job_again_example :
    reconcile_interrupted_job 31 "killed" none AlertKind.job_failed true queue_job (
      reconcile_interrupted_job 30 "stopped"
        (some false)
        AlertKind.job_stopped
        true
        queue_job
        tables)
    ≡ reconcile_interrupted_job 30 "stopped"
        (some false)
        AlertKind.job_stopped
        true
        queue_job
        tables
reconcile_interrupted_job_again_example =
    reconcile_interrupted_job_again 30 31 "stopped" "killed" (some false) none AlertKind.job_stopped
      AlertKind.job_failed true queue_job tables refl refl

abbrev view : JobView
view = record {
  job_id = "gone";
  status = JobStatus.succeeded;
  result = some "done";
  progress = none;
  progress_at = none;
  error = none;
}

-- RQ's failed entry does not hide a success that the table holds.
durable_success_is_shown :
    get_job_status "gone"
      (some (record { status = RqStatus.failed; last_error = some "killed"; return_value = none }))
      (finished ∷ [])
    ≡ some view
unfolding get_job_status
durable_success_is_shown = refl

-- While the task runs, an enqueue finds that Redis has lost its job.
abbrev meanwhile : Body
meanwhile rows = (ok "done", map (lost_row 15) rows)

abbrev mislabeled : JobRun
mislabeled = record finished { attempts = 1; error = some "lost from queue before completion" }

-- The success does not clear the error, which its session never saw.
success_keeps_lost_error :
    (run_durably 20 1 (job (some 2)) (some 3) meanwhile (waiting ∷ [])).runs ≡ mislabeled ∷ []
unfolding run_durably lost_row
success_keeps_lost_error = refl
