-- ===== src/Jobs/Enqueue/Single.antt =====
-- At most one active run for a site and a kind (`_enqueue_job_locked` of
-- app/services/job_service.py).
use linking_engine_backend.Prelude.{
  ℕ, ◌≡◌, refl, sym, subst, ap, ◌∙◌, true, String, Option, none, some, List, [], ◌∷◌, select, leb,
  length, distinct, Result, ok, err, Bool-cases, inl, inr, In, In-append, In-update_where, arith,
}
use linking_engine_backend.Policy.Pool.{Site}
use linking_engine_backend.Jobs.{JobRun, JobKind, has_id, run_ids}
use linking_engine_backend.Jobs.Enqueue.{
  Fetched, Session, JobError, commit, check_active, is_active_for, is_active_of_tenant, assign_id,
  enqueued, add_run, enqueue_reconciled, enqueue_checked, enqueue_job_locked,
}
use linking_engine_backend.Jobs.Steps.{opened}
use linking_engine_backend.Jobs.Enqueue.Covered.{
  IsCalm, matches, Covered, matches_before, check-Covered, opened-Covered, commit-AllEnded,
  reconciled-Covered,
}

module _ (now : ℕ) (fetch : String → Fetched) (others : ℕ → List JobRun → List JobRun)
    (calm : (n : ℕ) → IsCalm (others n)) (site_id : ℕ) (kind : JobKind) where
  -- Only the run with this id is active.
  abbrev OnlyActive : ℕ → List JobRun → Type 0
  OnlyActive id rows =
      (x : JobRun) → In x rows → (matches now fetch others calm site_id kind) x ≡ true → x.id ≡ id

  added-OnlyActive :
      (r : JobRun) (s : Session)
      → (Covered now fetch others calm site_id kind) [] s
      → OnlyActive r.id (add_run now fetch others r s).runs
  added-OnlyActive r s c x i m = elim (In-append x (commit now fetch others s).runs (r ∷ []) i) [
    | inl j ↦
        absurd (ground (arith, (commit-AllEnded now fetch others calm site_id kind) s c x j, m))
    | inr j ↦ elim j [ inl e ↦ ap (λ (z : JobRun). z.id) e | inr f ↦ absurd f ]
  ]

  assigned-OnlyActive :
      (id n : ℕ) (job_id : String) (rows : List JobRun)
      → OnlyActive id rows
      → OnlyActive id (assign_id now fetch others n job_id rows)
  assigned-OnlyActive id n job_id rows only x i m =
      let (y, j, e) =
        In-update_where (has_id n) (λ (r : JobRun). record r { queue_job_id = some job_id }) x rows
          i in
      elim (Bool-cases (has_id n y)) [
        | inl u ↦
            let same : x ≡ record y { queue_job_id = some job_id } = rw u at e in
            let my : (matches now fetch others calm site_id kind) y ≡ true =
              ground (arith, ap (matches now fetch others calm site_id kind) same, m) in
            ap (λ (z : JobRun). z.id) same ∙ only y j my
        | inr u ↦
            let same : x ≡ y = rw u at e in
            ap (λ (z : JobRun). z.id) same
            ∙ only y j (ground (arith, ap (matches now fetch others calm site_id kind) same, m))
      ]

  module _ (before_id : List JobRun → List JobRun) (quiet : IsCalm before_id) where
    before-OnlyActive :
        (id : ℕ) (rows : List JobRun) → OnlyActive id rows → OnlyActive id (before_id rows)
    before-OnlyActive id rows only x i m =
        let (y, j, my, same) =
          (matches_before now fetch others calm site_id kind) before_id rows x quiet i m in
        sym same ∙ only y j my

    enqueued-OnlyActive :
        (id n : ℕ) (job_id : Option String) (s s' : Session)
        → OnlyActive id s.runs
        → enqueued now fetch others before_id id job_id s ≡ (ok n, s')
        → (n ≡ id) × OnlyActive id s'.runs
    enqueued-OnlyActive id n none s s' only e = absurd (ground (arith, e))
    enqueued-OnlyActive id n (some job_id) s s' only e =
        let same : record s { runs = assign_id now fetch others id job_id (before_id s.runs) }
            ≡ s' =
          ground (arith, e) in
        let is_id : n ≡ id = ground (arith, e) in
        (
          is_id,
          subst (λ (d : Session). OnlyActive id d.runs) same
              (assigned-OnlyActive id id job_id (before_id s.runs)
                (before-OnlyActive id s.runs only)),
        )

    reconciled-OnlyActive :
        (tenant_id limit n : ℕ) (job_id : Option String) (r : JobRun)
        (m : Result JobError (List JobRun) × Session) (s' : Session)
        → (Covered now fetch others calm site_id kind) [] m.1
        → enqueue_reconciled now fetch others tenant_id limit before_id job_id r m ≡ (ok n, s')
        → (n ≡ r.id) × OnlyActive r.id s'.runs
    reconciled-OnlyActive tenant_id limit n job_id r (err x, s) s' c e = absurd (ground (arith, e))
    reconciled-OnlyActive tenant_id limit n job_id r (ok active, s) s' c e =
        elim (Bool-cases (leb limit (length active))) [
          | inl u ↦ absurd (ground (arith, rw u at e))
          | inr u ↦
              enqueued-OnlyActive r.id n job_id (add_run now fetch others r s) s'
                (added-OnlyActive r s c) (rw u at e)
        ]

    checked-OnlyActive :
        (sites : List Site) (tenant_id limit n : ℕ) (job_id : Option String) (r : JobRun)
        (m : Result JobError (List JobRun) × Session) (s' : Session)
        → ((d : Session) → m ≡ (ok [], d) → (Covered now fetch others calm site_id kind) [] d)
        → enqueue_checked now fetch others sites tenant_id limit before_id job_id r m ≡ (ok n, s')
        → (n ≡ r.id) × OnlyActive r.id s'.runs
    checked-OnlyActive sites tenant_id limit n job_id r (err x, s) s' c e =
        absurd (ground (arith, e))
    checked-OnlyActive sites tenant_id limit n job_id r (ok (a ∷ active), s) s' c e =
        absurd (ground (arith, e))
    checked-OnlyActive sites tenant_id limit n job_id r (ok [], s) s' c e =
        reconciled-OnlyActive tenant_id limit n job_id r _ s'
          ((reconciled-Covered now fetch others calm site_id kind)
            (select (is_active_of_tenant now fetch others sites tenant_id) s.runs) s (c s refl))
          e

-- After an enqueue that succeeds, the new run is the only one of its site and kind that may be
-- active, if the ids are a key and the transactions that workers commit in its midst make no ended
-- run active.
pub enqueue_job_locked-OnlyActive :
    (now : ℕ) (fetch : String → Fetched) (others : ℕ → List JobRun → List JobRun)
    (before_id : List JobRun → List JobRun) (sites : List Site) (tenant_id limit n : ℕ)
    (job_id : Option String) (r : JobRun) (rows : List JobRun) (s' : Session)
    → ((k : ℕ) → IsCalm (others k))
    → IsCalm before_id
    → distinct (run_ids rows) ≡ true
    → enqueue_job_locked now fetch others sites tenant_id limit before_id job_id r (opened rows)
      ≡ (ok n, s')
    → (n ≡ r.id)
      × ((x : JobRun)
          → In x s'.runs
          → is_active_for now fetch others r.site_id r.kind x ≡ true
          → x.id ≡ r.id)
unfolding enqueue_job_locked
enqueue_job_locked-OnlyActive now fetch others before_id sites tenant_id limit n job_id r rows s'
      calm quiet keys e =
    let matching = select (is_active_for now fetch others r.site_id r.kind) rows in
    checked-OnlyActive now fetch others calm r.site_id r.kind before_id quiet sites tenant_id limit
      n job_id r (check_active now fetch others matching (opened rows)) s'
      (λ d f.
        check-Covered now fetch others calm r.site_id r.kind matching (opened rows) d
          (opened-Covered now fetch others calm r.site_id r.kind rows keys) f)
      e
