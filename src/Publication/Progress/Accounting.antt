-- ===== src/Publication/Progress/Accounting.antt =====
-- The counters over a whole attempt: what a success and a terminal failure report.
use linking_engine_backend.Prelude.{
  ℕ, ◌+◌, ◌≤◌, ◌≡◌, Option, some, true, false, List, [], ◌∷◌, arith,
}
use linking_engine_backend.Publication.Progress.{
  Progress, count, resumed, begin_publication_attempt, record_publication_applied,
  record_publication_skip, record_publication_failure, complete_publication_success,
  mark_publication_failure,
}

-- What happens to one link during an attempt.
pub data Event : Type 0 where
  applied skipped failed : Event

abbrev pub record_event : Progress → Event → Progress
record_event p applied = record_publication_applied p
record_event p skipped = record_publication_skip p
record_event p failed = record_publication_failure p

unfoldable pub run_attempt : Progress → List Event → Progress
run_attempt p [] = p
run_attempt p (e ∷ es) = run_attempt (record_event p e) es

abbrev pub applied_events : List Event → ℕ
applied_events [] = 0
applied_events (applied ∷ es) = applied_events es + 1
applied_events (skipped ∷ es) = applied_events es
applied_events (failed ∷ es) = applied_events es

abbrev pub failed_events : List Event → ℕ
failed_events [] = 0
failed_events (failed ∷ es) = failed_events es + 1
failed_events (skipped ∷ es) = failed_events es
failed_events (applied ∷ es) = failed_events es

-- Every counter that the events move, and those that they leave alone.
pub record Tallied (p : Progress) (es : List Event) (q : Progress) : Type 0 where
  pub applied : count q.applied ≡ count p.applied + applied_events es
  pub total : q.total ≡ p.total
  pub attempt_failed : count q.attempt_failed ≡ count p.attempt_failed + failed_events es
  pub attempt_failures : count q.attempt_failures ≡ count p.attempt_failures + failed_events es
  pub publishing : q.publishing ≡ p.publishing

pub run_attempt-Tallied : (p : Progress) (es : List Event) → Tallied p es (run_attempt p es)
unfolding run_attempt record_publication_applied record_publication_skip record_publication_failure
run_attempt-Tallied p [] = ground arith
run_attempt-Tallied p (applied ∷ es) =
    let t = run_attempt-Tallied (record_publication_applied p) es in ground arith
run_attempt-Tallied p (skipped ∷ es) =
    let t = run_attempt-Tallied (record_publication_skip p) es in ground arith
run_attempt-Tallied p (failed ∷ es) =
    let t = run_attempt-Tallied (record_publication_failure p) es in ground arith

-- A completed attempt reports every link:
-- what was applied by any attempt and what was not add up to the total, nothing is reported as
-- failed, and the applied count is the earlier one plus this attempt's.
pub success_accounts :
    (prior : Option Progress) (batch_size : ℕ) (es : List Event)
    → let end =
        complete_publication_success
          (run_attempt (begin_publication_attempt prior batch_size) es) in
      (count end.applied + count end.skipped ≡ count end.total)
      × (count end.failed ≡ 0)
      × (count end.applied ≡ count (resumed prior).applied + applied_events es)
      × (count (resumed prior).total ≤ count end.total)
unfolding complete_publication_success begin_publication_attempt
success_accounts prior n es =
    let t = run_attempt-Tallied (begin_publication_attempt prior n) es in ground arith

-- A terminal failure after an attempt accounts for every link of the batch: applied, failed and
-- skipped add up to the total, and no failure of the attempt is left out.
pub terminal_accounts :
    (prior : Option Progress) (batch_size : ℕ) (es : List Event) (q : Progress)
    → applied_events es + failed_events es ≤ batch_size
    → mark_publication_failure
        (some (run_attempt (begin_publication_attempt prior batch_size) es))
        true
      ≡ some q
    → (count q.applied + count q.failed + count q.skipped ≡ count q.total)
      × (failed_events es ≤ count q.failed)
      × (count q.applied ≡ count (resumed prior).applied + applied_events es)
unfolding mark_publication_failure begin_publication_attempt
terminal_accounts prior n es q h e =
    let t = run_attempt-Tallied (begin_publication_attempt prior n) es in ground arith

-- The start of the next attempt keeps the applied count, the history of failures and the
-- denominator of the attempt before, whichever way that one was left for a retry.
pub retry_resumes :
    (p q : Progress) (batch_size : ℕ)
    → p.publishing ≡ true
    → mark_publication_failure (some p) false ≡ some q
    → let again = begin_publication_attempt (some q) batch_size in
      (count again.applied ≡ count p.applied)
      × (count p.total ≤ count again.total)
      × (count again.applied + batch_size ≤ count again.total)
      × (count p.attempt_failures ≤ count again.attempt_failures)
unfolding mark_publication_failure begin_publication_attempt
retry_resumes p q n h e = ground arith
