-- ===== src/Jobs/Enqueue.antt =====
-- Enqueueing a job, and the reconciliation of active runs (app/services/job_service.py).
--
-- A session does not flush before a query, so a run marked as lost is only changed in memory until
-- the next commit (`pending`), a refresh drops the mark, and an error drops all marks. `others n`
-- gives the transactions that are committed just before the row `n` is refreshed. Parameters: the
-- answers of Redis, the id that RQ gives a job, and `before_id`, what is committed between the
-- insertion of a row and the write of that id.
pub mod Loops
pub mod Covered
pub mod Single
use linking_engine_backend.Prelude.{
  ℕ, ◌+◌, ◌==◌, Bool, true, false, not, ◌&&◌, ◌||◌, String, Option, none, some, List, [], ◌∷◌, ◌++◌,
  if◌then◌else◌, ltb, leb, length, elem, is_none, is_some_of, select, update_where, find, Result,
  ok, err,
}
use linking_engine_backend.Policy.Pool.{Site}
use linking_engine_backend.Access.{site_by_id}
use linking_engine_backend.Jobs.{
  JobRun, JobKind, kind_code, Alert, is_active_run, has_id, new_run, lost_row, lost_alert,
}

pub data RqStatus : Type 0 where
  queued started deferred scheduled finished failed stopped canceled : RqStatus

-- `Job.fetch`: NoSuchJobError, a job, or another error
pub data Fetched : Type 0 where
  no_such_job unavailable : Fetched
  found : RqStatus → Fetched

-- _RQ_ACTIVE_STATUSES
abbrev pub is_active_rq : RqStatus → Bool
is_active_rq RqStatus.queued = true
is_active_rq RqStatus.started = true
is_active_rq RqStatus.deferred = true
is_active_rq RqStatus.scheduled = true
is_active_rq RqStatus.finished = false
is_active_rq RqStatus.failed = false
is_active_rq RqStatus.stopped = false
is_active_rq RqStatus.canceled = false

pub data JobError : Type 0 where
  queue_unavailable row_gone site_not_found : JobError
  duplicate_job : JobRun → JobError
  job_capacity : ℕ → JobError

abbrev pub fetched_active : Fetched → Result JobError Bool
fetched_active no_such_job = ok false
fetched_active unavailable = err queue_unavailable
fetched_active (found s) = ok (is_active_rq s)

-- The committed rows, the runs marked as lost, and the alerts.
pub record Session : Type 0 where
  pub runs : List JobRun
  pub pending : List ℕ
  pub alerts : List Alert

abbrev pub drop_id : ℕ → List ℕ → List ℕ
drop_id n [] = []
drop_id n (m ∷ ms) = let rest = drop_id n ms in if m == n then rest else m ∷ rest

-- _UNASSIGNED_QUEUE_ID_GRACE_SECONDS
abbrev pub grace : ℕ
grace = 30

module _ (now : ℕ) (fetch : String → Fetched) (others : ℕ → List JobRun → List JobRun) where
  abbrev pub still_in_queue : JobRun → Result JobError Bool
  still_in_queue r = elim r.queue_job_id [ none ↦ ok false | some id ↦ fetched_active (fetch id) ]

  abbrev pub commit : Session → Session
  commit s = record s {
    runs = update_where (λ (r : JobRun). elem r.id s.pending) (lost_row now) s.runs;
    pending = [];
  }

  -- The state in which a refresh of the row `n` reads it.
  abbrev pub refreshed : ℕ → Session → Session
  refreshed n s = record s { runs = others n s.runs; pending = drop_id n s.pending }

  abbrev pub mark_run_lost : JobRun → Session → Session
  mark_run_lost r s = record s {
    pending = r.id ∷ s.pending;
    alerts = s.alerts ++ lost_alert r ∷ [];
  }

  abbrev pub mark_if_active : Option JobRun → Session → Result JobError Bool × Session
  mark_if_active none s = (err row_gone, s)
  mark_if_active (some r) s =
      if is_active_run r then (ok true, mark_run_lost r s) else (ok false, s)

  -- `db.refresh(run)`, and the mark if the row is still active
  abbrev pub refresh_and_mark : ℕ → Session → Result JobError Bool × Session
  refresh_and_mark n s = mark_if_active (find (has_id n) (refreshed n s).runs) (refreshed n s)

  -- Whether a run of the first query is still active after its turn.
  abbrev pub after_refresh : Result JobError Bool × Session → Result JobError Bool × Session
  after_refresh (err e, s) = (err e, s)
  after_refresh (ok marked, s) = (ok false, s)

  abbrev pub check_fetched :
      JobRun → Result JobError Bool → Session → Result JobError Bool × Session
  check_fetched r (err e) s = (err e, s)
  check_fetched r (ok true) s = (ok true, s)
  check_fetched r (ok false) s = after_refresh (refresh_and_mark r.id s)

  abbrev pub add_if : JobRun → Bool → Result JobError (List JobRun) → Result JobError (List JobRun)
  add_if r b (err e) = err e
  add_if r false (ok rs) = ok rs
  add_if r true (ok rs) = ok (r ∷ rs)

  abbrev pub check_rest :
      JobRun
      → Result JobError Bool
      → Session
      → Result JobError (List JobRun) × Session
      → Result JobError (List JobRun) × Session
  check_rest r (err e) s rest = (err e, s)
  check_rest r (ok b) s rest = (add_if r b rest.0, rest.1)

  -- The first loop of `_enqueue_job_locked`: the runs that are still active, in order.
  abbrev pub check_active : List JobRun → Session → Result JobError (List JobRun) × Session
  check_active [] s = (ok [], s)
  check_active (r ∷ rs) s =
      let turn = check_fetched r (still_in_queue r) s in
      let rest = check_active rs turn.1 in check_rest r turn.0 turn.1 rest

  abbrev pub is_in_grace : JobRun → Bool
  is_in_grace r = is_none r.queue_job_id && ltb now (r.enqueued_at + grace)

  -- Whether a run is kept as active.
  abbrev pub reconcile_marked :
      Result JobError Bool × Session → Result JobError (Bool × Bool) × Session
  reconcile_marked (err e, s) = (err e, s)
  reconcile_marked (ok marked, s) = (ok (false, marked), s)

  abbrev pub reconcile_fetched :
      JobRun → Result JobError Bool → Session → Result JobError (Bool × Bool) × Session
  reconcile_fetched r (err e) s = (ok (true, false), s)
  reconcile_fetched r (ok true) s = (ok (true, false), s)
  reconcile_fetched r (ok false) s = reconcile_marked (refresh_and_mark r.id s)

  -- Whether the run is kept, and whether it was marked as lost.
  abbrev pub reconcile_run : JobRun → Session → Result JobError (Bool × Bool) × Session
  reconcile_run r s =
      if is_in_grace r then (ok (true, false), s) else reconcile_fetched r (still_in_queue r) s

  abbrev pub add_kept :
      JobRun
      → Bool × Bool
      → Result JobError (List JobRun × Bool)
      → Result JobError (List JobRun × Bool)
  add_kept r b (err e) = err e
  add_kept r (kept, marked) (ok (rs, changed)) = ok (if kept then r ∷ rs else rs, marked || changed)

  abbrev pub reconcile_rest :
      JobRun
      → Result JobError (Bool × Bool)
      → Session
      → Result JobError (List JobRun × Bool) × Session
      → Result JobError (List JobRun × Bool) × Session
  reconcile_rest r (err e) s rest = (err e, s)
  reconcile_rest r (ok b) s rest = (add_kept r b rest.0, rest.1)

  abbrev pub reconcile_runs : List JobRun → Session → Result JobError (List JobRun × Bool) × Session
  reconcile_runs [] s = (ok ([], false), s)
  reconcile_runs (r ∷ rs) s =
      let turn = reconcile_run r s in
      let rest = reconcile_runs rs turn.1 in reconcile_rest r turn.0 turn.1 rest

  abbrev pub commit_changed :
      Result JobError (List JobRun × Bool) × Session → Result JobError (List JobRun) × Session
  commit_changed (err e, s) = (err e, s)
  commit_changed (ok (rs, changed), s) = (ok rs, if changed then commit s else s)

  unfoldable pub reconcile_active_job_runs :
      List JobRun → Session → Result JobError (List JobRun) × Session
  unfolding lost_row
  reconcile_active_job_runs runs s = commit_changed (reconcile_runs runs s)

  abbrev pub is_active_for : ℕ → JobKind → JobRun → Bool
  is_active_for site_id kind r =
      r.site_id == site_id && (kind_code r.kind == kind_code kind && is_active_run r)

  abbrev pub is_active_of_tenant : List Site → ℕ → JobRun → Bool
  is_active_of_tenant sites tenant_id r =
      elim (site_by_id r.site_id sites) [ none ↦ false | some site ↦ site.tenant_id == tenant_id ]
      && is_active_run r

  abbrev pub rolled_back : Session → Session
  rolled_back s = record s { pending = [] }

  abbrev pub assign_id : ℕ → String → List JobRun → List JobRun
  assign_id id job_id runs =
      update_where (has_id id) (λ (r : JobRun). record r { queue_job_id = some job_id }) runs

  -- RQ's answer: the id of the job, or an error, after which the row stands without one.
  abbrev pub enqueued :
      (List JobRun → List JobRun) → ℕ → Option String → Session → Result JobError ℕ × Session
  enqueued before_id id none s = (err queue_unavailable, s)
  enqueued before_id id (some job_id) s =
      (ok id, record s { runs = assign_id id job_id (before_id s.runs) })

  abbrev pub add_run : JobRun → Session → Session
  add_run r s = let s' = commit s in record s' { runs = s'.runs ++ r ∷ [] }

  abbrev pub enqueue_reconciled :
      ℕ
      → ℕ
      → (List JobRun → List JobRun)
      → Option String
      → JobRun
      → Result JobError (List JobRun) × Session
      → Result JobError ℕ × Session
  enqueue_reconciled tenant_id limit before_id job_id r (err e, s) = (err e, rolled_back s)
  enqueue_reconciled tenant_id limit before_id job_id r (ok active, s) =
      if leb limit (length active)
      then (err (job_capacity tenant_id), rolled_back s)
      else enqueued before_id r.id job_id (add_run r s)

  abbrev pub enqueue_checked :
      List Site
      → ℕ
      → ℕ
      → (List JobRun → List JobRun)
      → Option String
      → JobRun
      → Result JobError (List JobRun) × Session
      → Result JobError ℕ × Session
  enqueue_checked sites tenant_id limit before_id job_id r (err e, s) = (err e, rolled_back s)
  enqueue_checked sites tenant_id limit before_id job_id r (ok (a ∷ active), s) =
      (err (duplicate_job a), commit s)
  enqueue_checked sites tenant_id limit before_id job_id r (ok [], s) =
      enqueue_reconciled tenant_id limit before_id job_id r
        (reconcile_active_job_runs (select (is_active_of_tenant sites tenant_id) s.runs) s)

  -- `r` is the new row; the result is its id.
  unfoldable pub enqueue_job_locked :
      List Site
      → ℕ
      → ℕ
      → (List JobRun → List JobRun)
      → Option String
      → JobRun
      → Session
      → Result JobError ℕ × Session
  unfolding reconcile_active_job_runs
  enqueue_job_locked sites tenant_id limit before_id job_id r s =
      enqueue_checked sites tenant_id limit before_id job_id r
        (check_active (select (is_active_for r.site_id r.kind) s.runs) s)

  abbrev pub enqueue_found :
      List Site
      → ℕ
      → (List JobRun → List JobRun)
      → Option String
      → JobRun
      → Option Site
      → Session
      → Result JobError ℕ × Session
  enqueue_found sites limit before_id job_id r none s = (err site_not_found, s)
  enqueue_found sites limit before_id job_id r (some site) s =
      enqueue_job_locked sites site.tenant_id limit before_id job_id r s

  -- The locks of the tenant and the site are held; `id` is the next id of the table.
  abbrev pub enqueue_job :
      List Site
      → ℕ
      → (List JobRun → List JobRun)
      → Option String
      → ℕ
      → ℕ
      → JobKind
      → Option String
      → Session
      → Result JobError ℕ × Session
  enqueue_job sites limit before_id job_id id site_id kind requested_by s =
      enqueue_found sites limit before_id job_id (new_run now id site_id kind requested_by)
        (site_by_id site_id sites) s
