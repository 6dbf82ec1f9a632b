-- ===== src/Jobs/Enqueue/Loops.antt =====
-- What the two loops over active runs keep (app/services/job_service.py).
use linking_engine_backend.Prelude.{
  ℕ, Bool, true, false, String, List, [], ◌∷◌, Result, ok, err, Bool-cases, inl, inr,
}
use linking_engine_backend.Jobs.{JobRun}
use linking_engine_backend.Jobs.Enqueue.{
  Fetched, Session, JobError, still_in_queue, commit, refresh_and_mark, after_refresh,
  check_fetched, check_rest, check_active, is_in_grace, reconcile_marked, reconcile_fetched,
  reconcile_run, reconcile_rest, reconcile_runs, commit_changed, reconcile_active_job_runs,
}

module _ (now : ℕ) (fetch : String → Fetched) (others : ℕ → List JobRun → List JobRun)
    (Q : Session → Type 0)
    (h : (n : ℕ) (s : Session) → Q s → Q (refresh_and_mark now fetch others n s).1) where
  pub after_refresh-keeps :
      (m : Result JobError Bool × Session) → Q m.1 → Q (after_refresh now fetch others m).1
  after_refresh-keeps (err e, s) q = q
  after_refresh-keeps (ok b, s) q = q

  check_fetched-keeps :
      (r : JobRun) (f : Result JobError Bool) (s : Session)
      → Q s
      → Q (check_fetched now fetch others r f s).1
  check_fetched-keeps r (err e) s q = q
  check_fetched-keeps r (ok true) s q = q
  check_fetched-keeps r (ok false) s q =
      after_refresh-keeps (refresh_and_mark now fetch others r.id s) (h r.id s q)

  check_rest-keeps :
      (r : JobRun) (turn : Result JobError Bool) (s : Session)
      (rest : Result JobError (List JobRun) × Session)
      → Q s
      → Q rest.1
      → Q (check_rest now fetch others r turn s rest).1
  check_rest-keeps r (err e) s rest q q' = q
  check_rest-keeps r (ok b) s rest q q' = q'

  pub check_active-keeps :
      (rs : List JobRun) (s : Session) → Q s → Q (check_active now fetch others rs s).1
  check_active-keeps [] s q = q
  check_active-keeps (r ∷ rs) s q =
      let turn = check_fetched now fetch others r (still_in_queue now fetch others r) s in
      let q' = check_fetched-keeps r (still_in_queue now fetch others r) s q in
      check_rest-keeps r turn.0 turn.1 (check_active now fetch others rs turn.1) q'
        (check_active-keeps rs turn.1 q')

  reconcile_marked-keeps :
      (m : Result JobError Bool × Session) → Q m.1 → Q (reconcile_marked now fetch others m).1
  reconcile_marked-keeps (err e, s) q = q
  reconcile_marked-keeps (ok b, s) q = q

  reconcile_fetched-keeps :
      (r : JobRun) (f : Result JobError Bool) (s : Session)
      → Q s
      → Q (reconcile_fetched now fetch others r f s).1
  reconcile_fetched-keeps r (err e) s q = q
  reconcile_fetched-keeps r (ok true) s q = q
  reconcile_fetched-keeps r (ok false) s q =
      reconcile_marked-keeps (refresh_and_mark now fetch others r.id s) (h r.id s q)

  reconcile_run-keeps : (r : JobRun) (s : Session) → Q s → Q (reconcile_run now fetch others r s).1
  reconcile_run-keeps r s q = elim (Bool-cases (is_in_grace now fetch others r)) [
    | inl e ↦ rw e q
    | inr e ↦ rw e (reconcile_fetched-keeps r (still_in_queue now fetch others r) s q)
  ]

  reconcile_rest-keeps :
      (r : JobRun) (turn : Result JobError (Bool × Bool)) (s : Session)
      (rest : Result JobError (List JobRun × Bool) × Session)
      → Q s
      → Q rest.1
      → Q (reconcile_rest now fetch others r turn s rest).1
  reconcile_rest-keeps r (err e) s rest q q' = q
  reconcile_rest-keeps r (ok b) s rest q q' = q'

  pub reconcile_runs-keeps :
      (rs : List JobRun) (s : Session) → Q s → Q (reconcile_runs now fetch others rs s).1
  reconcile_runs-keeps [] s q = q
  reconcile_runs-keeps (r ∷ rs) s q =
      let turn = reconcile_run now fetch others r s in
      let q' = reconcile_run-keeps r s q in
      reconcile_rest-keeps r turn.0 turn.1 (reconcile_runs now fetch others rs turn.1) q'
        (reconcile_runs-keeps rs turn.1 q')

  module _ (c : (s : Session) → Q s → Q (commit now fetch others s)) where
    commit_changed-keeps :
        (m : Result JobError (List JobRun × Bool) × Session)
        → Q m.1
        → Q (commit_changed now fetch others m).1
    commit_changed-keeps (err e, s) q = q
    commit_changed-keeps (ok (rs, true), s) q = c s q
    commit_changed-keeps (ok (rs, false), s) q = q

    pub reconcile_active_job_runs-keeps :
        (rs : List JobRun) (s : Session)
        → Q s
        → Q (reconcile_active_job_runs now fetch others rs s).1
    unfolding reconcile_active_job_runs
    reconcile_active_job_runs-keeps rs s q =
        commit_changed-keeps (reconcile_runs now fetch others rs s) (reconcile_runs-keeps rs s q)
