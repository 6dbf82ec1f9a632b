-- ===== src/Jobs/Steps.antt =====
-- The histories of the job table (app/services/job_service.py).
use linking_engine_backend.Prelude.{
  ℕ, refl, Bool, String, Option, none, some, List, [], ◌∷◌, find, leb, length, elem, select, Result,
  ok, err, All, All-append, Bool-cases, inl, inr,
}
use linking_engine_backend.Publication.Progress.{Progress}
use linking_engine_backend.Policy.Pool.{Site}
use linking_engine_backend.Access.{site_by_id}
use linking_engine_backend.Jobs.{
  JobRun, JobKind, AlertKind, has_id, is_active_run, new_run, lost_row, record_progress,
}
use linking_engine_backend.Jobs.Execution.{
  Body, CurrentJob, started_row, start_run, run_of, run_durably,
}
use linking_engine_backend.Jobs.Interruption.{
  Tables, QueueJob, run_of_job, reconcile_interrupted_job, is_id_of, decides,
}
use linking_engine_backend.Jobs.Enqueue.{
  Fetched, Session, JobError, commit, refreshed, mark_if_active, refresh_and_mark,
  reconcile_active_job_runs, is_active_for, is_active_of_tenant, enqueued, add_run,
  enqueue_reconciled, enqueue_checked, enqueue_job_locked, enqueue_found, enqueue_job,
}
use linking_engine_backend.Jobs.Enqueue.Loops.{check_active-keeps, reconcile_active_job_runs-keeps}
use linking_engine_backend.Jobs.Coherence.{
  IsCoherent, All-update_where, record_progress-IsCoherent, update_run-IsCoherent,
  finish_attempt-IsCoherent, interrupt_run-IsCoherent, queue_id-IsCoherent,
}

-- A session at the start of a request
abbrev pub opened : List JobRun → Session
opened rows = record { runs = rows; pending = []; alerts = [] }

-- Each operation may let others commit in its midst: while a task runs, before a refresh, and
-- before the id of a new job is written.
pub data JobSteps : List JobRun → List JobRun → Type 0 where
  none_yet : {rows : List JobRun} → JobSteps rows rows
  attempt :
      {rows d : List JobRun} (now site_id : ℕ) (current : CurrentJob) (id : Option ℕ) (body : Body)
      → JobSteps rows d
      → JobSteps
          (start_run now site_id current (run_of now site_id current id d) d)
          (body (start_run now site_id current (run_of now site_id current id d) d)).1
      → JobSteps rows (run_durably now site_id current id body d).runs
  interrupt :
      {rows : List JobRun} (t : Tables) (now : ℕ) (error : String) (will_retry : Option Bool)
      (alert_kind : AlertKind) (commits : Bool) (job : QueueJob)
      → JobSteps rows t.runs
      → JobSteps rows (reconcile_interrupted_job now error will_retry alert_kind commits job t).runs
  progress :
      {rows d : List JobRun} (flushes : Bool) (now : ℕ) (fields : Option Progress → Progress)
      (id : Option ℕ)
      → JobSteps rows d
      → JobSteps rows (record_progress flushes now fields id d)
  reconcile :
      {rows d : List JobRun} (now : ℕ) (fetch : String → Fetched)
      (others : ℕ → List JobRun → List JobRun) (runs : List JobRun)
      → JobSteps rows d
      → ((n : ℕ) (rs : List JobRun) → JobSteps rs (others n rs))
      → JobSteps rows (reconcile_active_job_runs now fetch others runs (opened d)).1.runs
  enqueue :
      {rows d : List JobRun} (now : ℕ) (fetch : String → Fetched)
      (others : ℕ → List JobRun → List JobRun) (sites : List Site) (limit : ℕ)
      (before_id : List JobRun → List JobRun) (job_id : Option String) (id site_id : ℕ)
      (kind : JobKind) (requested_by : Option String)
      → JobSteps rows d
      → ((n : ℕ) (rs : List JobRun) → JobSteps rs (others n rs))
      → ((rs : List JobRun) → JobSteps rs (before_id rs))
      → JobSteps rows
          (enqueue_job now fetch others sites limit before_id job_id id site_id kind requested_by
            (opened d)).1.runs

abbrev pub AllCoherent : Session → Type 0
AllCoherent s = All IsCoherent s.runs

commit-AllCoherent :
    (now : ℕ) (fetch : String → Fetched) (others : ℕ → List JobRun → List JobRun) (s : Session)
    → AllCoherent s
    → AllCoherent (commit now fetch others s)
unfolding lost_row
commit-AllCoherent now fetch others s all =
    All-update_where (λ (r : JobRun). elem r.id s.pending) (lost_row now) s.runs (λ r c. refl) all

module _ (now : ℕ) (fetch : String → Fetched) (others : ℕ → List JobRun → List JobRun)
    (h : (n : ℕ) (rs : List JobRun) → All IsCoherent rs → All IsCoherent (others n rs)) where
  mark_if_active-AllCoherent :
      (found : Option JobRun) (s : Session)
      → AllCoherent s
      → AllCoherent (mark_if_active now fetch others found s).1
  mark_if_active-AllCoherent none s all = all
  mark_if_active-AllCoherent (some r) s all = elim (Bool-cases (is_active_run r)) [
    | inl e ↦ rw e all
    | inr e ↦ rw e all
  ]

  refresh-AllCoherent :
      (n : ℕ) (s : Session) → AllCoherent s → AllCoherent (refresh_and_mark now fetch others n s).1
  refresh-AllCoherent n s all =
      mark_if_active-AllCoherent (find (has_id n) (others n s.runs))
        (refreshed now fetch others n s) (h n s.runs all)

  module _ (before_id : List JobRun → List JobRun)
      (b : (rs : List JobRun) → All IsCoherent rs → All IsCoherent (before_id rs)) where
    enqueued-AllCoherent :
        (id : ℕ) (job_id : Option String) (s : Session)
        → AllCoherent s
        → AllCoherent (enqueued now fetch others before_id id job_id s).1
    enqueued-AllCoherent id none s all = all
    enqueued-AllCoherent id (some job_id) s all =
        All-update_where (has_id id) (λ (r : JobRun). record r { queue_job_id = some job_id })
          (before_id s.runs) (λ r c. queue_id-IsCoherent r.status r (some job_id) c) (b s.runs all)

    enqueue_reconciled-AllCoherent :
        (tenant_id limit : ℕ) (job_id : Option String) (r : JobRun)
        (m : Result JobError (List JobRun) × Session)
        → IsCoherent r
        → AllCoherent m.1
        → AllCoherent (enqueue_reconciled now fetch others tenant_id limit before_id job_id r m).1
    enqueue_reconciled-AllCoherent tenant_id limit job_id r (err e, s) c all = all
    enqueue_reconciled-AllCoherent tenant_id limit job_id r (ok active, s) c all =
        elim (Bool-cases (leb limit (length active))) [
          | inl e ↦ rw e all
          | inr e ↦ rw e (
              enqueued-AllCoherent r.id job_id (add_run now fetch others r s) (
                All-append IsCoherent (commit now fetch others s).runs (r ∷ [])
                  (commit-AllCoherent now fetch others s all) (c, tt)))
        ]

    enqueue_checked-AllCoherent :
        (sites : List Site) (tenant_id limit : ℕ) (job_id : Option String) (r : JobRun)
        (m : Result JobError (List JobRun) × Session)
        → IsCoherent r
        → AllCoherent m.1
        → AllCoherent
            (enqueue_checked now fetch others sites tenant_id limit before_id job_id r m).1
    enqueue_checked-AllCoherent sites tenant_id limit job_id r (err e, s) c all = all
    enqueue_checked-AllCoherent sites tenant_id limit job_id r (ok (a ∷ active), s) c all =
        commit-AllCoherent now fetch others s all
    enqueue_checked-AllCoherent sites tenant_id limit job_id r (ok [], s) c all =
        enqueue_reconciled-AllCoherent tenant_id limit job_id r _ c (
          reconcile_active_job_runs-keeps now fetch others AllCoherent refresh-AllCoherent
            (commit-AllCoherent now fetch others)
            (select (is_active_of_tenant now fetch others sites tenant_id) s.runs) s all)

    enqueue_found-AllCoherent :
        (sites : List Site) (limit : ℕ) (job_id : Option String) (r : JobRun) (site : Option Site)
        (s : Session)
        → IsCoherent r
        → AllCoherent s
        → AllCoherent (enqueue_found now fetch others sites limit before_id job_id r site s).1
    unfolding enqueue_job_locked
    enqueue_found-AllCoherent sites limit job_id r none s c all = all
    enqueue_found-AllCoherent sites limit job_id r (some site) s c all =
        enqueue_checked-AllCoherent sites site.tenant_id limit job_id r _ c (
          check_active-keeps now fetch others AllCoherent refresh-AllCoherent
            (select (is_active_for now fetch others r.site_id r.kind) s.runs) s all)

-- Whatever the operations and their interleaving, if the table's runs are coherent they stay so: a
-- running run has no end, a run that succeeded has an end and a result, and a run that failed has
-- an end.
pub JobSteps-IsCoherent :
    (rows rows' : List JobRun) → All IsCoherent rows → JobSteps rows rows' → All IsCoherent rows'
unfolding run_durably reconcile_interrupted_job
JobSteps-IsCoherent rows rows' all none_yet = all
JobSteps-IsCoherent rows rows' all (attempt {d = d} now site_id current id body before within) =
    let run = run_of now site_id current id d in
    let started = start_run now site_id current run d in
    finish_attempt-IsCoherent now site_id current id run (body started) (
      JobSteps-IsCoherent started (body started).1
        (update_run-IsCoherent now site_id current run (λ object r. started_row now r) d
          (λ object r. refl) (JobSteps-IsCoherent rows d all before))
        within)
JobSteps-IsCoherent rows rows' all
      (interrupt t now error will_retry alert_kind commits job before) =
    interrupt_run-IsCoherent now error (decides will_retry job) alert_kind commits
      (run_of_job job t.runs (find (λ (r : JobRun). is_id_of job.id r.queue_job_id) t.runs)) t
      (JobSteps-IsCoherent rows t.runs all before)
JobSteps-IsCoherent rows rows' all (progress {d = d} flushes now fields id before) =
    record_progress-IsCoherent flushes now fields id d (JobSteps-IsCoherent rows d all before)
JobSteps-IsCoherent rows rows' all (reconcile {d = d} now fetch others runs before within) =
    reconcile_active_job_runs-keeps now fetch others AllCoherent
      (refresh-AllCoherent now fetch others
        (λ n rs c. JobSteps-IsCoherent rs (others n rs) c (within n rs)))
      (commit-AllCoherent now fetch others) runs (opened d) (JobSteps-IsCoherent rows d all before)
JobSteps-IsCoherent rows rows' all
      (enqueue {d = d} now fetch others sites limit before_id job_id id site_id kind requested_by
        before within later) =
    enqueue_found-AllCoherent now fetch others
      (λ n rs c. JobSteps-IsCoherent rs (others n rs) c (within n rs)) before_id
      (λ rs c. JobSteps-IsCoherent rs (before_id rs) c (later rs)) sites limit job_id
      (new_run now id site_id kind requested_by) (site_by_id site_id sites) (opened d) tt
      (JobSteps-IsCoherent rows d all before)
