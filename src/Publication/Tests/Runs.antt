-- ===== src/Publication/Tests/Runs.antt =====
-- A run of the worker on the approved plan: a write, a crash after the write, and its retry.
use linking_engine_backend.Prelude.{
  ℕ, ◌≡◌, refl, true, false, none, some, [], ◌⊎◌, ok, String, Option, arith,
}
use linking_engine_backend.Publication.Artifact.{canonical_artifact}
use linking_engine_backend.Publication.Connector.{
  apply_planned_edit, already_applied, apply_planned_edit_again,
}
use linking_engine_backend.Publication.Progress
use linking_engine_backend.Publication.Progress.{
  resumed, int, absent, no_failure, begin_publication_attempt, record_publication_applied,
  complete_publication_success,
}
use linking_engine_backend.Publication.Worker.{
  Turn, Run, process_plan, publish_approved_plans, succeeded, failed,
}
use linking_engine_backend.Publication.Worker.Sending.{
  Sent, process_plan_sends_approved, process_plan_sends_shown,
}
use linking_engine_backend.Publication.Worker.States.{Steps, process_plan-Steps}
use linking_engine_backend.Publication.Tests.Data.{digest, approved_plan, approved_db, one_post}

abbrev article : ℕ → Option (Option ℕ)
article n = some (some 70)

abbrev quiet : Turn
quiet = record { before_lock = λ db. db; after_rollback = λ db. db; commits = true }

abbrev start : Run String
start = record {
  db = approved_db;
  remote = "old";
  progress = Progress.begin_publication_attempt none 1;
  totals = record { inserted = 0; block = 0; already_present = 0 };
  retryable = false;
  alerts = [];
}

-- The write reaches the site.
process_plan_writes :
    (process_plan one_post digest article 3 6 quiet approved_plan start).remote ≡ "new"
unfolding process_plan
process_plan_writes = refl

process_plan_sends_approved_example :
    ((process_plan one_post digest article 3 6 quiet approved_plan start).remote ≡ "old")
    ⊎ Sent one_post digest article 3 6 approved_plan approved_db "old"
        (process_plan one_post digest article 3 6 quiet approved_plan start).remote
process_plan_sends_approved_example =
    process_plan_sends_approved one_post digest article 3 6 quiet approved_plan start

process_plan_sends_shown_example :
    ((process_plan one_post digest article 3 6 quiet approved_plan start).remote ≡ "old")
    ⊎ ((post_id : ℕ) × (one_post.read post_id "old" ≡ ok "old")
        × ((process_plan one_post digest article 3 6 quiet approved_plan start).remote ≡ "new"))
process_plan_sends_shown_example =
    process_plan_sends_shown one_post digest article 3 6 quiet approved_plan start
      (canonical_artifact approved_plan) ((λ e. (refl, λ f. refl)), tt)

process_plan-Steps_example :
    Steps one_post digest article 3 6 quiet 1 approved_db
      (process_plan one_post digest article 3 6 quiet approved_plan start).db
process_plan-Steps_example =
    process_plan-Steps one_post digest article 3 6 quiet approved_plan start

apply_planned_edit_again_example :
    apply_planned_edit one_post (some 70) "old" "new" "new" ≡ (already_applied, "new")
unfolding apply_planned_edit
apply_planned_edit_again_example =
    apply_planned_edit_again one_post (some 70) "old" "new" "old" "new" saved refl
  where
    saved :
        (post_id : ℕ) (html : String) (t t' : String)
        → one_post.post post_id html t ≡ (ok tt, t')
        → one_post.read post_id t' ≡ ok html
    saved post_id html t t' e = ground arith

abbrev finished : Progress.Progress
finished = record {
  publishing = true;
  applied = int 1;
  failed = int 0;
  skipped = int 0;
  total = int 1;
  attempt_skipped = int 0;
  attempt_failed = int 0;
  attempt_failures = int 0;
  failure_state = no_failure;
  inserted = absent;
  block = absent;
  already_present = absent;
}

publish_run :
    (publish_approved_plans one_post digest article 3 6 1 none
      (λ n. quiet)
      none
      approved_db
      "old").0
    ≡ succeeded finished
unfolding publish_approved_plans process_plan begin_publication_attempt record_publication_applied
    complete_publication_success
publish_run = refl
