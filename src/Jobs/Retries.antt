-- ===== src/Jobs/Retries.antt =====
-- A job over all its attempts (`run_durably` of app/services/job_service.py, under the retries that
-- an enqueued job is given).
--
-- RQ runs a job again exactly when its attempt raised and it has retries left, with one less.
use linking_engine_backend.Prelude.{
  ℕ, suc, zero, ◌≡◌, refl, sym, subst, ap, ◌+◌, ◌<◌, ◌≤◌, Bool, true, false, String, none, some,
  List, [], ◌∷◌, ◌++◌, if◌then◌else◌, length, find, Result, ok, err, Bool-cases, inl, inr, arith,
}
use linking_engine_backend.Jobs.{JobRun, JobStatus, Alert, has_id}
use linking_engine_backend.Jobs.Execution.{
  Attempt, Body, CurrentJob, no_job, job, TaskError, is_final, started_row, run_durably,
}
use linking_engine_backend.Jobs.Attempts.{
  KeepsRow, written_lem, row_after, row_after_keeps, attempt_row, alerts_for, run_durably_sends,
}

-- The tries of one job: the attempt with `n` retries left runs `body n`.
abbrev has_more : CurrentJob → Bool
has_more no_job = false
has_more (job none) = false
has_more (job (some zero)) = false
has_more (job (some (suc n))) = true

abbrev pub tried : Attempt → Result TaskError String → Attempt → Attempt
tried a (ok result) rest = a
tried a (err e) rest =
    if has_more a.current then record rest { alerts = a.alerts ++ rest.alerts } else a

abbrev pub perform : ℕ → ℕ → ℕ → (ℕ → Body) → ℕ → List JobRun → Attempt
perform now site_id id body zero rows =
    run_durably now site_id (job (some zero)) (some id) (body zero) rows
perform now site_id id body (suc n) rows =
    let a = run_durably now site_id (job (some (suc n))) (some id) (body (suc n)) rows in
    let rest = perform now site_id id body n a.runs in tried a a.answer rest

-- The row says what the task returned, and a failure has sent one alert.
abbrev pub Reports : JobRun → List Alert → Result TaskError String → Type 0
Reports r alerts (ok result) =
    (r.status ≡ JobStatus.succeeded)
    × (r.result ≡ some result)
    × (r.error ≡ none)
    × (length alerts ≡ 0)
Reports r alerts (err e) =
    (r.status ≡ JobStatus.failed) × (r.error ≡ some e.message) × (length alerts ≡ 1)

abbrev pub IsEnded : ℕ → ℕ → ℕ → Attempt → Type 0
IsEnded id attempts retries a =
    (r : JobRun) × (find (has_id id) a.runs ≡ some r)
    × Reports r a.alerts a.answer
    × (attempts < r.attempts)
    × (r.attempts ≤ attempts + 1 + retries)

abbrev IsLast : CurrentJob → Result TaskError String → Type 0
IsLast current (ok result) = Unit {0}
IsLast current (err e) = is_final e current ≡ true

row_after-Reports :
    (now : ℕ) (current : CurrentJob) (answer : Result TaskError String) (object r : JobRun)
    (alerts : List Alert)
    → IsLast current answer
    → length alerts ≡ alerts_for current answer
    → r.error ≡ object.error
    → Reports (row_after now current answer object r) alerts answer
row_after-Reports now current (ok result) object r alerts final e kept =
    (refl, refl, written_lem object.error none r.error kept, e)
row_after-Reports now current (err x) object r alerts final e kept =
    let sent : length alerts ≡ 1 = rw final at e in
    (rw final refl, written_lem object.error (some x.message) r.error kept, sent)

last-IsEnded :
    (now site_id id n retries : ℕ) (body : Body) (rows : List JobRun) (r : JobRun)
    → KeepsRow id body
    → find (has_id id) rows ≡ some r
    → IsLast (job (some n)) (run_durably now site_id (job (some n)) (some id) body rows).answer
    → IsEnded id r.attempts retries (run_durably now site_id (job (some n)) (some id) body rows)
last-IsEnded now site_id id n retries body rows r keeps e final =
    let current = job (some n) in
    let a = run_durably now site_id current (some id) body rows in
    let (r', found, tries, same) = attempt_row now site_id id current body rows r keeps e in
    let kept = (row_after_keeps now current a.answer (started_row now r) r').0 in
    (
      row_after now current a.answer (started_row now r) r',
      found,
      row_after-Reports now current a.answer (started_row now r) r' a.alerts final
          (run_durably_sends now site_id current (some id) body rows).0 same,
      omega (arith, kept, tries),
      omega (arith, kept, tries),
    )

zero-IsLast : (answer : Result TaskError String) → IsLast (job (some 0)) answer
zero-IsLast (ok result) = tt
zero-IsLast (err e) = ground arith

none_of_length : (xs : List Alert) → length xs ≡ 0 → xs ≡ []
none_of_length [] e = refl
none_of_length (x ∷ xs) e = absurd (omega (arith, e))

-- What the first attempt and the others that may follow it leave.
tried-IsEnded :
    (now site_id id n : ℕ) (body : Body) (rows : List JobRun) (r : JobRun) (rest : Attempt)
    (answer : Result TaskError String)
    → KeepsRow id body
    → find (has_id id) rows ≡ some r
    → (run_durably now site_id (job (some (suc n))) (some id) body rows).answer ≡ answer
    → ((r' : JobRun)
        → find (has_id id) (run_durably now site_id (job (some (suc n))) (some id) body rows).runs
          ≡ some r'
        → IsEnded id r'.attempts n rest)
    → IsEnded id r.attempts
        (suc n)
        (tried (run_durably now site_id (job (some (suc n))) (some id) body rows) answer rest)
tried-IsEnded now site_id id n body rows r rest (ok result) keeps e f rec =
    last-IsEnded now site_id id (suc n) (suc n) body rows r keeps e (rw f tt)
tried-IsEnded now site_id id n body rows r rest (err x) keeps e f rec =
    let current = job (some (suc n)) in
    let a = run_durably now site_id current (some id) body rows in
    let (sent, after) = run_durably_sends now site_id current (some id) body rows in
    elim (Bool-cases x.non_retryable) [
      | inl u ↦
          let current_is : a.current ≡ job (some 0) = rw u at (rw f at after) in
          let stops : has_more a.current ≡ false = ap has_more current_is in
          let final : IsLast current (err x) = ground (arith, u) in
          rw stops (
            last-IsEnded now site_id id (suc n) (suc n) body rows r keeps e
              (subst (IsLast current) (sym f) final))
      | inr u ↦
          let current_is : a.current ≡ job (some (suc n)) = rw u at (rw f at after) in
          let goes_on : has_more a.current ≡ true = ap has_more current_is in
          let open_still : is_final x current ≡ false = ground (arith, u) in
          let silent : length a.alerts ≡ 0 = rw open_still at (rw f at sent) in
          let (r', found, tries, same) = attempt_row now site_id id current body rows r keeps e in
          let kept = (row_after_keeps now current a.answer (started_row now r) r').0 in
          let (last, there, reports, more, few) =
            rec (row_after now current a.answer (started_row now r) r') found in
          rw (goes_on, none_of_length a.alerts silent)
            (
              last,
              there,
              reports,
              omega (arith, kept, tries, more),
              omega (arith, kept, tries, few),
            )
    ]

-- A job that RQ repeats as often as it may ends for good: whatever its tasks return, after at least
-- one and at most `1 + retries` attempts its row is found, as succeeded with the last attempt's
-- result and no error, and nothing was sent, or as failed with the last attempt's error, and one
-- alert was sent. The row is in the table at first, and a task, and what runs beside it, keeps it
-- there with its attempts and error.
pub perform-IsEnded :
    (now site_id id : ℕ) (body : ℕ → Body) (retries : ℕ) (rows : List JobRun) (r : JobRun)
    → ((n : ℕ) → KeepsRow id (body n))
    → find (has_id id) rows ≡ some r
    → IsEnded id r.attempts retries (perform now site_id id body retries rows)
perform-IsEnded now site_id id body zero rows r keeps e =
    last-IsEnded now site_id id 0 0 (body 0) rows r (keeps 0) e (zero-IsLast _)
perform-IsEnded now site_id id body (suc n) rows r keeps e =
    let a = run_durably now site_id (job (some (suc n))) (some id) (body (suc n)) rows in
    tried-IsEnded now site_id id n (body (suc n)) rows r (perform now site_id id body n a.runs)
      a.answer (keeps (suc n)) e refl
      (λ r' found. perform-IsEnded now site_id id body n a.runs r' keeps found)
