-- ===== src/Jobs/Coherence.antt =====
-- What the columns of a job run say together (app/services/job_service.py).
use linking_engine_backend.Prelude.{
  ℕ, ◌≡◌, refl, Bool, true, false, not, ◌||◌, ◌&&◌, String, Option, none, some, List, [], ◌∷◌,
  is_none, update_where, Result, ok, err, All, Bool-cases, inl, inr,
}
use linking_engine_backend.Publication.Progress.{Progress}
use linking_engine_backend.Jobs.{JobRun, JobStatus, AlertKind, has_id, record_progress, is_some_id}
use linking_engine_backend.Jobs.Execution.{
  started_row, CurrentJob, TaskError, failed_row, succeeded_row, update_run, finish_attempt,
  is_final,
}
use linking_engine_backend.Jobs.Interruption.{
  Tables, interrupted_row, interrupt_run, is_failed, is_succeeded,
}

-- A run that is running has no end, one that succeeded has an end and a result, and one that failed
-- has an end.
abbrev pub IsCoherentAs : JobStatus → JobRun → Type 0
IsCoherentAs JobStatus.queued r = Unit {0}
IsCoherentAs JobStatus.running r = r.finished_at ≡ none
IsCoherentAs JobStatus.succeeded r = (is_none r.finished_at ≡ false) × (is_none r.result ≡ false)
IsCoherentAs JobStatus.failed r = is_none r.finished_at ≡ false

abbrev pub IsCoherent : JobRun → Type 0
IsCoherent r = IsCoherentAs r.status r

pub All-update_where :
    (p : JobRun → Bool) (f : JobRun → JobRun) (rows : List JobRun)
    → ((r : JobRun) → IsCoherent r → IsCoherent (f r))
    → All IsCoherent rows
    → All IsCoherent (update_where p f rows)
All-update_where p f [] h all = all
All-update_where p f (r ∷ rows) h (here, rest) = elim (Bool-cases (p r)) [
  | inl e ↦ rw e (h r here, All-update_where p f rows h rest)
  | inr e ↦ rw e (here, All-update_where p f rows h rest)
]

failed_row-IsCoherent :
    (now : ℕ) (final : Bool) (message : String) (object r : JobRun)
    → IsCoherent (failed_row now final message object r)
failed_row-IsCoherent now true message object r = refl
failed_row-IsCoherent now false message object r = tt

interrupted_row-IsCoherent :
    (now : ℕ) (error : String) (will_retry : Bool) (r : JobRun)
    → IsCoherent (interrupted_row now error will_retry r)
unfolding interrupted_row
interrupted_row-IsCoherent now error true r = tt
interrupted_row-IsCoherent now error false r = refl

-- A change of columns that the status says nothing about.
progress-IsCoherent :
    (status : JobStatus) (r : JobRun) (p : Option Progress) (at : Option ℕ)
    → IsCoherentAs status r
    → IsCoherentAs status (record r { progress = p; progress_at = at })
progress-IsCoherent JobStatus.queued r p at c = c
progress-IsCoherent JobStatus.running r p at c = c
progress-IsCoherent JobStatus.succeeded r p at c = c
progress-IsCoherent JobStatus.failed r p at c = c

pub queue_id-IsCoherent :
    (status : JobStatus) (r : JobRun) (id : Option String)
    → IsCoherentAs status r
    → IsCoherentAs status (record r { queue_job_id = id })
queue_id-IsCoherent JobStatus.queued r id c = c
queue_id-IsCoherent JobStatus.running r id c = c
queue_id-IsCoherent JobStatus.succeeded r id c = c
queue_id-IsCoherent JobStatus.failed r id c = c

pub record_progress-IsCoherent :
    (flushes : Bool) (now : ℕ) (fields : Option Progress → Progress) (id : Option ℕ)
    (rows : List JobRun)
    → All IsCoherent rows
    → All IsCoherent (record_progress flushes now fields id rows)
unfolding record_progress
record_progress-IsCoherent false now fields id rows all = all
record_progress-IsCoherent true now fields id rows all =
    All-update_where (is_some_id id)
      (λ (r : JobRun). record r { progress = some (fields r.progress); progress_at = some now })
      rows (λ r c. progress-IsCoherent r.status r (some (fields r.progress)) (some now) c) all

pub update_run-IsCoherent :
    (now : ℕ) (site_id : ℕ) (current : CurrentJob) (run : Option JobRun)
    (f : JobRun → JobRun → JobRun) (rows : List JobRun)
    → ((object r : JobRun) → IsCoherent (f object r))
    → All IsCoherent rows
    → All IsCoherent (update_run now site_id current run f rows)
update_run-IsCoherent now site_id current none f rows h all = all
update_run-IsCoherent now site_id current (some r) f rows h all =
    All-update_where (has_id r.id) (f (started_row now r)) rows (λ x c. h (started_row now r) x) all

pub finish_attempt-IsCoherent :
    (now : ℕ) (site_id : ℕ) (current : CurrentJob) (id : Option ℕ) (run : Option JobRun)
    (ended : Result TaskError String × List JobRun)
    → All IsCoherent ended.1
    → All IsCoherent (finish_attempt now site_id current id run ended).runs
finish_attempt-IsCoherent now site_id current id run (ok result, rows) all =
    update_run-IsCoherent now site_id current run (succeeded_row now result) rows
      (λ object r. (refl, refl)) all
finish_attempt-IsCoherent now site_id current id run (err e, rows) all =
    update_run-IsCoherent now site_id current run (failed_row now (is_final e current) e.message)
      rows (λ object r. failed_row-IsCoherent now (is_final e current) e.message object r) all

pub interrupt_run-IsCoherent :
    (now : ℕ) (error : String) (will_retry : Bool) (alert_kind : AlertKind) (commits : Bool)
    (run : Option JobRun) (t : Tables)
    → All IsCoherent t.runs
    → All IsCoherent (interrupt_run now error will_retry alert_kind commits run t).runs
interrupt_run-IsCoherent now error will_retry alert_kind commits none t all = all
interrupt_run-IsCoherent now error will_retry alert_kind commits (some r) t all =
    elim (Bool-cases
      (is_failed r.status || (is_succeeded r.status && not will_retry || not commits))) [
        | inl e ↦ rw e all
        | inr e ↦ rw e (
            All-update_where (has_id r.id) (λ _. interrupted_row now error will_retry r) t.runs
              (λ x c. interrupted_row-IsCoherent now error will_retry r) all)
      ]
