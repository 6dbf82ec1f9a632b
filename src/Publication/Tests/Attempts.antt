-- ===== src/Publication/Tests/Attempts.antt =====
-- Two attempts of a publication job: the first is interrupted, the second completes.
use linking_engine_backend.Prelude.{
  arith, false, ◌≡◌, ◌≤◌, ◌+◌, refl, true, none, some, List, [], ◌∷◌,
}
use linking_engine_backend.Publication.Progress.{
  Progress, int, absent, terminal, retrying, record_publication_applied, record_publication_skip,
  record_publication_failure, count, resumed, begin_publication_attempt,
  complete_publication_success, mark_publication_failure,
}
use linking_engine_backend.Publication.Progress.Accounting.{
  Event, applied, skipped, failed, run_attempt, applied_events, failed_events, success_accounts,
  terminal_accounts,
}

abbrev events : List Event
events = applied ∷ failed ∷ skipped ∷ []

success_accounts_example :
    let end =
      complete_publication_success (run_attempt (begin_publication_attempt none 3) events) in
    (count end.applied + count end.skipped ≡ count end.total)
    × (count end.failed ≡ 0)
    × (count end.applied ≡ count (resumed none).applied + applied_events events)
    × (count (resumed none).total ≤ count end.total)
success_accounts_example = success_accounts none 3 events

abbrev interrupted : Progress
interrupted = run_attempt (begin_publication_attempt none 3) events

abbrev ended : Progress
ended = record {
  publishing = true;
  applied = int 1;
  failed = int 1;
  skipped = int 1;
  total = int 3;
  attempt_skipped = int 1;
  attempt_failed = int 1;
  attempt_failures = int 1;
  failure_state = terminal;
  inserted = absent;
  block = absent;
  already_present = absent;
}

terminal_run : mark_publication_failure (some interrupted) true ≡ some ended
unfolding mark_publication_failure run_attempt begin_publication_attempt record_publication_applied
    record_publication_skip record_publication_failure
terminal_run = refl

terminal_accounts_example :
    (count ended.applied + count ended.failed + count ended.skipped ≡ count ended.total)
    × (failed_events events ≤ count ended.failed)
    × (count ended.applied ≡ count (resumed none).applied + applied_events events)
terminal_accounts_example = terminal_accounts none 3 events ended (omega arith) terminal_run

abbrev waiting : Progress
waiting = record ended { failure_state = retrying }

retry_run : mark_publication_failure (some ended) false ≡ some waiting
unfolding mark_publication_failure
retry_run = refl
