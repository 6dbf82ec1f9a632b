-- ===== src/Publication/Progress.antt =====
-- app/services/publication_progress.py: the counters of a publication job over its attempts.
--
-- A progress dictionary is JSON that may come from an older release, so each counter is a
-- `Value`: absent, a count, or anything else (a negative number, a bool, a text, ...).
pub mod Accounting
use linking_engine_backend.Prelude.{
  ℕ, ◌+◌, ◌-◌, max, Bool, true, false, Option, none, some, if◌then◌else◌, not,
}

pub data Value : Type 0 where
  absent : Value
  int : ℕ → Value
  other : Value

pub data FailureState : Type 0 where
  no_failure retrying terminal : FailureState

pub record Progress : Type 0 where
  -- `progress.get("stage") == "publishing"`
  pub publishing : Bool
  pub applied : Value
  pub failed : Value
  pub skipped : Value
  pub total : Value
  pub attempt_skipped : Value
  pub attempt_failed : Value
  pub attempt_failures : Value
  pub failure_state : FailureState
  -- the connector's outcomes, `PUBLICATION_OUTCOMES`
  pub inserted : Value
  pub block : Value
  pub already_present : Value

-- `{}`
abbrev pub empty : Progress
empty = record {
  publishing = false;
  applied = absent;
  failed = absent;
  skipped = absent;
  total = absent;
  attempt_skipped = absent;
  attempt_failed = absent;
  attempt_failures = absent;
  failure_state = no_failure;
  inserted = absent;
  block = absent;
  already_present = absent;
}

-- `_count`, with the default written out
abbrev pub count_or : Value → ℕ → ℕ
count_or (int n) d = n
count_or absent d = d
count_or other d = d

abbrev pub count : Value → ℕ
count v = count_or v 0

-- The previous progress, if it is one of this stage, and an empty dictionary if not.
abbrev pub resumed : Option Progress → Progress
resumed none = empty
resumed (some p) = if p.publishing then p else empty

unfoldable pub begin_publication_attempt : Option Progress → ℕ → Progress
begin_publication_attempt prior batch_size =
    let previous = resumed prior in
    let applied = count previous.applied in
    record {
      publishing = true;
      applied = int applied;
      failed = int 0;
      skipped = int (count previous.skipped);
      total = int (max (count previous.total) (applied + batch_size));
      attempt_skipped = int 0;
      attempt_failed = int 0;
      attempt_failures = int (count_or previous.attempt_failures (count previous.failed));
      failure_state = no_failure;
      inserted = absent;
      block = absent;
      already_present = absent;
    }

-- The three tallies that an earlier attempt has committed.
pub record Outcomes : Type 0 where
  pub inserted : ℕ
  pub block : ℕ
  pub already_present : ℕ

unfoldable pub resume_outcome_counts : Option Progress → Outcomes
resume_outcome_counts prior =
    let previous = resumed prior in
    record {
      inserted = count previous.inserted;
      block = count previous.block;
      already_present = count previous.already_present;
    }

unfoldable pub record_publication_applied : Progress → Progress
record_publication_applied p = record p { applied = int (count p.applied + 1) }

unfoldable pub record_publication_skip : Progress → Progress
record_publication_skip p =
    let attempt_skipped = count p.attempt_skipped + 1 in
    record p {
      skipped = int (max (count p.skipped) attempt_skipped);
      attempt_skipped = int attempt_skipped;
    }

unfoldable pub record_publication_failure : Progress → Progress
record_publication_failure p =
    let attempt_failed = count p.attempt_failed + 1 in
    record p {
      failed = int attempt_failed;
      attempt_failed = int attempt_failed;
      attempt_failures = int (count p.attempt_failures + 1);
    }

-- `total` is at least `applied`, so the difference is that of the integers.
unfoldable pub complete_publication_success : Progress → Progress
complete_publication_success p =
    let applied = count p.applied in
    let total = max (count p.total) applied in
    record p {
      failed = int 0;
      skipped = int (total - applied);
      total = int total;
      attempt_failed = int 0;
      failure_state = no_failure;
    }

-- The terminal branch. A difference below zero is 0 under the source's `max(..., 0)` too.
abbrev terminal_counts : Progress → Progress
terminal_counts p =
    let total = count p.total in
    let applied = count p.applied in
    let failed = max (total - applied - count p.skipped) (count p.attempt_failed) in
    record p { failed = int failed; skipped = int (total - applied - failed) }

unfoldable pub mark_publication_failure : Option Progress → Bool → Option Progress
mark_publication_failure none is_terminal = none
mark_publication_failure (some p) is_terminal =
    let updated : Progress = record p {
      failed = int (count_or p.attempt_failed (count p.failed));
      failure_state = if is_terminal then terminal else retrying;
    } in
    if not p.publishing
    then none
    else some (if is_terminal then terminal_counts updated else updated)
