-- ===== src/Jobs/Interruption/Once.antt =====
-- Callbacks that arrive twice (`_reconcile_interrupted_job` of app/services/job_service.py).
use linking_engine_backend.Prelude.{
  ℕ, ◌≡◌, refl, ◌∙◌, sym, ap, ◌==◌, subst, Bool, true, false, not, ◌||◌, ◌&&◌, String, str_eq_iff,
  Option, none, some, List, [], ◌∷◌, update_where, find, In-find, Bool-cases, inl, inr, arith,
  ==_iff,
}
use linking_engine_backend.Publication.Progress.{Progress, mark_publication_failure}
use linking_engine_backend.Jobs.{
  JobRun, AlertKind, has_id, kind_code, with_progress, mark_job_failure_progress,
}
use linking_engine_backend.Jobs.Interruption.{
  Tables, QueueJob, interrupted_row, interrupt_run, run_of_job, run_of_kwargs, claimed,
  reconcile_interrupted_job, is_id_of, is_free_or, is_failed, is_succeeded, decides,
}

-- An update of one row to `c` makes `c` the row that a query finds, if the query holds for `c` and
-- the row that it found before is updated.
find_updated :
    (p q : JobRun → Bool) (c r : JobRun) (rows : List JobRun)
    → p c ≡ true
    → find p rows ≡ some r
    → q r ≡ true
    → find p (update_where q (λ _. c) rows) ≡ some c
find_updated p q c r [] pc e qr = absurd (ground arith)
find_updated p q c r (x ∷ rows) pc e qr = elim (Bool-cases (q x)) [
  | inl u ↦ rw (u, pc) refl
  | inr u ↦ elim (Bool-cases (p x)) [
    | inl t ↦ let same : some x ≡ some r = rw t at e in absurd (ground (arith, same, u, qr))
    | inr t ↦ rw (u, t) (find_updated p q c r rows pc (rw t at e) qr)
  ]
]

find_claimed :
    (p q : JobRun → Bool) (c r : JobRun) (rows : List JobRun)
    → p c ≡ true
    → find p rows ≡ none
    → find q rows ≡ some r
    → find p (update_where q (λ _. c) rows) ≡ some c
find_claimed p q c r [] pc e f = absurd (ground arith)
find_claimed p q c r (x ∷ rows) pc e f = elim (Bool-cases (p x)) [
  | inl t ↦ absurd (ground (arith, rw t at e))
  | inr t ↦ elim (Bool-cases (q x)) [
    | inl u ↦ rw (u, pc) refl
    | inr u ↦ rw (u, t) (find_claimed p q c r rows pc (rw t at e) (rw u at f))
  ]
]

abbrev job_test : QueueJob → JobRun → Bool
job_test job r = is_id_of job.id r.queue_job_id

-- The row that a callback works on carries the id of the job, and once it is replaced by a row that
-- does, the job's next callback finds that row.
abbrev Replaces : QueueJob → List JobRun → JobRun → Type 0
Replaces job runs r =
    (c : JobRun)
    → job_test job c ≡ true
    → find (job_test job) (update_where (has_id r.id) (λ _. c) runs) ≡ some c

claimed-Replaces :
    (job : QueueJob) (runs : List JobRun) (x r : JobRun)
    → find (job_test job) runs ≡ none
    → find (has_id x.id) runs ≡ some x
    → claimed job (some x) ≡ some r
    → (job_test job r ≡ true) × Replaces job runs r
claimed-Replaces job runs x r none_yet f e = elim (Bool-cases (is_free_or job.id x.queue_job_id)) [
  | inl t ↦
      let same : some (record x { queue_job_id = some job.id }) ≡ some r = rw t at e in
      let is_r : record x { queue_job_id = some job.id } ≡ r = ground (arith, same) in
      subst (λ (y : JobRun). (job_test job y ≡ true) × Replaces job runs y) is_r
        (
          (str_eq_iff job.id job.id).1 refl,
          λ c pc. find_claimed (job_test job) (has_id x.id) c x runs pc none_yet f,
        )
  | inr t ↦ absurd (ground (arith, rw t at e))
]

run_of_kwargs-Replaces :
    (job : QueueJob) (runs : List JobRun) (found : Option JobRun) (r : JobRun)
    → find (job_test job) runs ≡ none
    → ((x : JobRun) → found ≡ some x → find (has_id x.id) runs ≡ some x)
    → claimed job found ≡ some r
    → (job_test job r ≡ true) × Replaces job runs r
run_of_kwargs-Replaces job runs none r none_yet f e = absurd (ground arith)
run_of_kwargs-Replaces job runs (some x) r none_yet f e =
    claimed-Replaces job runs x r none_yet (f x refl) e

found_by_own_id :
    (id : Option ℕ) (runs : List JobRun) (x : JobRun)
    → run_of_kwargs id runs ≡ some x
    → find (has_id x.id) runs ≡ some x
found_by_own_id none runs x e = absurd (ground arith)
found_by_own_id (some n) runs x e =
    let same : x.id ≡ n = (==_iff x.id n).0 (In-find (has_id n) x runs e).1 in
    subst (λ m. find (has_id m) runs ≡ some x) (sym same) e

run_of_job-Replaces :
    (job : QueueJob) (runs : List JobRun) (found : Option JobRun) (r : JobRun)
    → find (job_test job) runs ≡ found
    → run_of_job job runs found ≡ some r
    → (job_test job r ≡ true) × Replaces job runs r
run_of_job-Replaces job runs none r f e =
    run_of_kwargs-Replaces job runs (run_of_kwargs job.job_run_id runs) r f
      (found_by_own_id job.job_run_id runs) e
run_of_job-Replaces job runs (some s) r f e =
    let same : s ≡ r = ground (arith, e) in
    let has = (In-find (job_test job) s runs f).1 in
    subst (λ (y : JobRun). (job_test job y ≡ true) × Replaces job runs y) same
      (
        has,
        λ c pc. find_updated (job_test job) (has_id s.id) c s runs pc f ((==_iff s.id s.id).1 refl),
      )

-- A terminal callback leaves its run failed, or finds nothing to do.
interrupted-is_failed :
    (now : ℕ) (error : String) (r : JobRun)
    → is_failed (interrupted_row now error false r).status ≡ true
unfolding interrupted_row
interrupted-is_failed now error r = refl

progress_keeps_id :
    (now : ℕ) (p : Option Progress) (r : JobRun)
    → (with_progress now p r).queue_job_id ≡ r.queue_job_id
progress_keeps_id now none r = refl
progress_keeps_id now (some p) r = refl

mark_keeps_id :
    (now : ℕ) (final : Bool) (r : JobRun)
    → (mark_job_failure_progress final now r).queue_job_id ≡ r.queue_job_id
mark_keeps_id now final r = elim (Bool-cases (kind_code r.kind == 3)) [
  | inl e ↦ rw e (progress_keeps_id now (mark_publication_failure r.progress final) r)
  | inr e ↦ rw e refl
]

interrupted-job_test :
    (now : ℕ) (error : String) (job : QueueJob) (r : JobRun)
    → job_test job (interrupted_row now error false r) ≡ job_test job r
unfolding interrupted_row
interrupted-job_test now error job r = ap (is_id_of job.id) (mark_keeps_id now true r)

module _ (now now' : ℕ) (error error' : String) (alert_kind alert_kind' : AlertKind)
    (commits' : Bool) (job : QueueJob) (t : Tables) where
  -- The tables after the callback's second arrival, when the first has found `found`.
  again :
      (found : Option JobRun)
      → run_of_job job t.runs (find (job_test job) t.runs) ≡ found
      → (let t' = interrupt_run now error false alert_kind true found t in
          interrupt_run now' error' false alert_kind' commits'
            (run_of_job job t'.runs (find (job_test job) t'.runs))
            t'
          ≡ t')
  again none e = rw e refl
  again (some r) e =
      elim (Bool-cases (is_failed r.status || (is_succeeded r.status && true || false))) [
        | inl u ↦
            let stays : is_failed r.status || (is_succeeded r.status && true || not commits')
                ≡ true =
              ground (arith, u) in
            rw (u, e, stays) refl
        | inr u ↦
            let (has, replaces) =
              run_of_job-Replaces job t.runs (find (job_test job) t.runs) r refl e in
            let finds =
              replaces (interrupted_row now error false r)
                (interrupted-job_test now error job r ∙ has) in
            rw (u, finds, interrupted-is_failed now error r) refl
      ]

-- A callback that ends a job for good is idempotent: whatever the tables, a later callback for the
-- job that would also end it, of the same kind or another and with another text, finds the run
-- ended (or finds none) and changes nothing, so the first one's alert is the only one.
pub reconcile_interrupted_job_again :
    (now now' : ℕ) (error error' : String) (will_retry will_retry' : Option Bool)
    (alert_kind alert_kind' : AlertKind) (commits' : Bool) (job : QueueJob) (t : Tables)
    → decides will_retry job ≡ false
    → decides will_retry' job ≡ false
    → reconcile_interrupted_job now' error' will_retry' alert_kind' commits' job
        (reconcile_interrupted_job now error will_retry alert_kind true job t)
      ≡ reconcile_interrupted_job now error will_retry alert_kind true job t
unfolding reconcile_interrupted_job
reconcile_interrupted_job_again now now' error error' w w' k k' commits' job t ends ends' =
    rw (ends, ends')
      (again now now' error error' k k' commits' job t
        (run_of_job job t.runs (find (job_test job) t.runs)) refl)
