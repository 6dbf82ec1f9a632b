-- ===== src/Jobs/Attempts.antt =====
-- The row that one attempt leaves (`run_durably` of app/services/job_service.py).
use linking_engine_backend.Prelude.{
  ◌∙◌, str_eq_iff, ℕ, ◌≡◌, refl, sym, subst, ap, ◌+◌, ◌==◌, ==_iff, Bool, true, String, Option,
  none, some, List, if◌then◌else◌, length, update_where, find, find-update_where, In-find, Result,
  ok, err, Bool-cases, inl, inr, arith,
}
use linking_engine_backend.Publication.Progress.{Progress, mark_publication_failure}
use linking_engine_backend.Jobs.{
  JobRun, has_id, kind_code, with_progress, mark_job_failure_progress,
}
use linking_engine_backend.Jobs.Execution.{
  same_text, written, start_run, Body, CurrentJob, TaskError, is_final, without_retries,
  started_row, failed_row, succeeded_row, run_of, finish_attempt, run_durably,
}

-- A task, and what runs beside it, leaves the row of its run in the table with its attempts and error.
abbrev pub KeepsRow : ℕ → Body → Type 0
KeepsRow id body =
    (rows : List JobRun) (r : JobRun)
    → find (has_id id) rows ≡ some r
    → (r' : JobRun) × (find (has_id id) (body rows).1 ≡ some r')
      × (r'.attempts ≡ r.attempts)
      × (r'.error ≡ r.error)

same_text-true : (s t : Option String) → same_text s t ≡ true → s ≡ t
same_text-true none none e = refl
same_text-true none (some t) e = absurd (ground arith)
same_text-true (some s) none e = absurd (ground arith)
same_text-true (some s) (some t) e = ap some ((str_eq_iff s t).0 e)

-- A column that still holds what the object held takes the value.
pub written_lem :
    (held value stored : Option String) → stored ≡ held → written held value stored ≡ value
written_lem held value stored kept = elim (Bool-cases (same_text held value)) [
  | inl e ↦ rw e (kept ∙ same_text-true held value e)
  | inr e ↦ rw e refl
]

abbrev pub row_after : ℕ → CurrentJob → Result TaskError String → JobRun → JobRun → JobRun
row_after now current (ok result) object r = succeeded_row now result object r
row_after now current (err e) object r = failed_row now (is_final e current) e.message object r

progress_keeps_row :
    (now : ℕ) (p : Option Progress) (r : JobRun)
    → ((with_progress now p r).attempts ≡ r.attempts) × ((with_progress now p r).id ≡ r.id)
progress_keeps_row now none r = (refl, refl)
progress_keeps_row now (some p) r = (refl, refl)

mark_keeps_row :
    (now : ℕ) (final : Bool) (r : JobRun)
    → ((mark_job_failure_progress final now r).attempts ≡ r.attempts)
      × ((mark_job_failure_progress final now r).id ≡ r.id)
mark_keeps_row now final r = elim (Bool-cases (kind_code r.kind == 3)) [
  | inl e ↦ rw e (progress_keeps_row now (mark_publication_failure r.progress final) r)
  | inr e ↦ rw e (refl, refl)
]

pub row_after_keeps :
    (now : ℕ) (current : CurrentJob) (answer : Result TaskError String) (object r : JobRun)
    → ((row_after now current answer object r).attempts ≡ r.attempts)
      × ((row_after now current answer object r).id ≡ r.id)
row_after_keeps now current (ok result) object r = (refl, refl)
row_after_keeps now current (err e) object r = mark_keeps_row now (is_final e current) r

update_found :
    (id : ℕ) (f : JobRun → JobRun) (r : JobRun) (rows : List JobRun)
    → ((x : JobRun) → (f x).id ≡ x.id)
    → find (has_id id) rows ≡ some r
    → find (has_id id) (update_where (has_id id) f rows) ≡ some (f r)
update_found id f r rows keeps e =
    let found =
      find-update_where (has_id id) (has_id id) f (λ x. ap (λ n. n == id) (keeps x)) r rows e in
    rw (In-find (has_id id) r rows e).1 at found

module _ (now site_id id : ℕ) (current : CurrentJob) where
  finish_found :
      (run r : JobRun) (ended : Result TaskError String × List JobRun)
      → run.id ≡ id
      → find (has_id id) ended.1 ≡ some r
      → find (has_id id) (finish_attempt now site_id current (some id) (some run) ended).runs
        ≡ some (
            row_after now current
              (finish_attempt now site_id current (some id) (some run) ended).answer
              (started_row now run)
              r)
  finish_found run r (ok result, rows) same e =
      rw same
        (update_found id (succeeded_row now result (started_row now run)) r rows (λ x. refl) e)
  finish_found run r (err x, rows) same e = rw same (
      update_found id (failed_row now (is_final x current) x.message (started_row now run)) r rows
        (λ y. (mark_keeps_row now (is_final x current) y).1) e)

  -- One attempt: the row that it leaves.
  pub attempt_row :
      (body : Body) (rows : List JobRun) (r : JobRun)
      → KeepsRow id body
      → find (has_id id) rows ≡ some r
      → (r' : JobRun) × (find (has_id id) (run_durably now site_id current (some id) body rows).runs
          ≡ some (
              row_after now current
                (run_durably now site_id current (some id) body rows).answer
                (started_row now r)
                r'))
        × (r'.attempts ≡ r.attempts + 1)
        × (r'.error ≡ r.error)
  unfolding run_durably
  attempt_row body rows r keeps e =
      let same : r.id ≡ id = (==_iff r.id id).0 (In-find (has_id id) r rows e).1 in
      let start = update_where (has_id r.id) (started_row now) rows in
      let started : find (has_id id) start ≡ some (started_row now r) =
        subst
          (λ n.
            find (has_id id) (update_where (has_id n) (started_row now) rows)
            ≡ some (started_row now r))
          (sym same) (update_found id (started_row now) r rows (λ x. refl) e) in
      let (r', found, attempts, kept) = keeps start (started_row now r) started in
      rw e (r', finish_found r r' (body start) same found, attempts, kept)

abbrev pub alerts_for : CurrentJob → Result TaskError String → ℕ
alerts_for current (ok result) = 0
alerts_for current (err e) = if is_final e current then 1 else 0

abbrev queue_after : CurrentJob → Result TaskError String → CurrentJob
queue_after current (ok result) = current
queue_after current (err e) = without_retries e current

module _ (now site_id : ℕ) (current : CurrentJob) where
  finish_sends :
      (id : Option ℕ) (run : Option JobRun) (ended : Result TaskError String × List JobRun)
      → (let a = finish_attempt now site_id current id run ended in
          (length a.alerts ≡ alerts_for current a.answer)
          × (a.current ≡ queue_after current a.answer))
  finish_sends id run (ok result, rows) = (refl, refl)
  finish_sends id run (err e, rows) = elim (Bool-cases (is_final e current)) [
    | inl u ↦ (rw u refl, refl)
    | inr u ↦ (rw u refl, refl)
  ]

  pub run_durably_sends :
      (id : Option ℕ) (body : Body) (rows : List JobRun)
      → (let a = run_durably now site_id current id body rows in
          (length a.alerts ≡ alerts_for current a.answer)
          × (a.current ≡ queue_after current a.answer))
  unfolding run_durably
  run_durably_sends id body rows =
      let run = run_of now site_id current id rows in
      finish_sends id run (body (start_run now site_id current run rows))

-- An attempt that RQ does not repeat.
