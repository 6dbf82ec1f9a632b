-- ===== src/Jobs/Enqueue/Covered.antt =====
-- The active runs that an enqueue has not looked at yet (app/services/job_service.py).
use linking_engine_backend.Prelude.{
  ℕ, ◌≡◌, refl, sym, subst, ap, ◌∙◌, ◌==◌, ==_iff, Bool, true, false, ◌||◌, String, Option, none,
  some, List, [], ◌∷◌, find, select, elem, distinct, distinct-injective, Result, ok, err,
  Bool-cases, inl, inr, In, In-find, In-elem, In-map_intro, map-update_where, In-update_where,
  In-select_intro, arith,
}
use linking_engine_backend.Jobs.{
  JobRun, JobKind, kind_code, has_id, run_ids, is_active_run, lost_row,
}
use linking_engine_backend.Jobs.Enqueue.{
  Fetched, Session, JobError, drop_id, still_in_queue, commit, refreshed, mark_if_active,
  refresh_and_mark, check_fetched, check_rest, check_active, reconcile_active_job_runs,
  is_active_for,
}
use linking_engine_backend.Jobs.Enqueue.Loops.{after_refresh-keeps, reconcile_active_job_runs-keeps}
use linking_engine_backend.Jobs.Steps.{opened}

-- Transactions of workers: they keep the ids a key, and a run that is active after them was active
-- before, for the same site and kind.
abbrev pub IsCalm : (List JobRun → List JobRun) → Type 0
IsCalm f =
    ((rs : List JobRun) → distinct (run_ids rs) ≡ true → distinct (run_ids (f rs)) ≡ true)
    × ((rs : List JobRun) (x : JobRun)
        → In x (f rs)
        → is_active_run x ≡ true
        → (y : JobRun) × In y rs
          × (is_active_run y ≡ true)
          × (y.id ≡ x.id)
          × (y.site_id ≡ x.site_id)
          × (kind_code y.kind ≡ kind_code x.kind))

elem-drop_id : (m n : ℕ) (ns : List ℕ) → (m == n) ≡ false → elem m (drop_id n ns) ≡ elem m ns
elem-drop_id m n [] e = refl
elem-drop_id m n (k ∷ ns) e = ground (arith, elem-drop_id m n ns e)

-- The rows with an id that a query does not find.
absent_id :
    (n : ℕ) (rs : List JobRun) (x : JobRun)
    → find (has_id n) rs ≡ none
    → In x rs
    → has_id n x ≡ false
absent_id n [] x e i = absurd i
absent_id n (r ∷ rs) x e (inl same) = elim (Bool-cases (has_id n r)) [
  | inl u ↦ absurd (ground (arith, rw u at e))
  | inr u ↦ rw same u
]
absent_id n (r ∷ rs) x e (inr i) = elim (Bool-cases (has_id n r)) [
  | inl u ↦ absurd (ground (arith, rw u at e))
  | inr u ↦ absent_id n rs x (rw u at e) i
]

-- The one row with an id.
same_row :
    (n : ℕ) (rs : List JobRun) (x r : JobRun)
    → distinct (run_ids rs) ≡ true
    → find (has_id n) rs ≡ some r
    → In x rs
    → x.id ≡ n
    → x ≡ r
same_row n rs x r keys e i same =
    let (j, found) = In-find (has_id n) r rs e in
    distinct-injective (λ (y : JobRun). y.id) x r rs keys i j (same ∙ sym ((==_iff r.id n).0 found))

module _ (now : ℕ) (fetch : String → Fetched) (others : ℕ → List JobRun → List JobRun)
    (calm : (n : ℕ) → IsCalm (others n)) (site_id : ℕ) (kind : JobKind) where
  abbrev pub matches : JobRun → Bool
  matches = is_active_for now fetch others site_id kind

  -- Each active run of the site and kind is among the ids or marked as lost.
  abbrev pub Covered : List ℕ → Session → Type 0
  Covered ids s =
      (distinct (run_ids s.runs) ≡ true)
      × ((x : JobRun)
          → In x s.runs
          → matches x ≡ true
          → (elem x.id ids || elem x.id s.pending) ≡ true)

  pub matches_before :
      (f : List JobRun → List JobRun) (rs : List JobRun) (x : JobRun)
      → IsCalm f
      → In x (f rs)
      → matches x ≡ true
      → (y : JobRun) × In y rs × (matches y ≡ true) × (y.id ≡ x.id)
  matches_before f rs x c i m =
      let (y, j, active, same, site, kinds) = c.1 rs x i (ground (arith, m)) in
      (y, j, ground (arith, m, active, site, kinds), same)

  still-Covered :
      (n : ℕ) (ids : List ℕ) (s : Session) (x : JobRun)
      → Covered (n ∷ ids) s
      → In x (others n s.runs)
      → matches x ≡ true
      → has_id n x ≡ false
      → (elem x.id ids || elem x.id (drop_id n s.pending)) ≡ true
  still-Covered n ids s x (keys, covers) i m other =
      let (y, j, my, same) = matches_before (others n) s.runs x (calm n) i m in
      let before =
        subst (λ k. ((k == n) || elem k ids) || elem k s.pending ≡ true) same (covers y j my) in
      rw (elem-drop_id x.id n s.pending other) (rw other at before)

  mark-Covered :
      (n : ℕ) (ids : List ℕ) (s : Session) (found : Option JobRun)
      → Covered (n ∷ ids) s
      → find (has_id n) (refreshed now fetch others n s).runs ≡ found
      → Covered ids (mark_if_active now fetch others found (refreshed now fetch others n s)).1
  mark-Covered n ids s none (keys, covers) e = (
    (calm n).0 s.runs keys,
    λ x i m. still-Covered n ids s x (keys, covers) i m (absent_id n (others n s.runs) x e i),
  )
  mark-Covered n ids s (some r) (keys, covers) e = elim (Bool-cases (is_active_run r)) [
    | inl a ↦ rw a (
      (calm n).0 s.runs keys,
      λ x i m. elim (Bool-cases (has_id n x)) [
        | inl u ↦
            let found = (In-find (has_id n) r (others n s.runs) e).1 in ground (arith, u, found)
        | inr u ↦ ground (arith, still-Covered n ids s x (keys, covers) i m u)
      ],
    )
    | inr a ↦ rw a (
      (calm n).0 s.runs keys,
      λ x i m. elim (Bool-cases (has_id n x)) [
        | inl u ↦
            let is_r =
              same_row n (others n s.runs) x r ((calm n).0 s.runs keys) e i ((==_iff x.id n).0 u) in
            absurd (ground (arith, m, a, ap is_active_run is_r))
        | inr u ↦ still-Covered n ids s x (keys, covers) i m u
      ],
    )
  ]

  refresh-Covered :
      (n : ℕ) (ids : List ℕ) (s : Session)
      → Covered (n ∷ ids) s
      → Covered ids (refresh_and_mark now fetch others n s).1
  refresh-Covered n ids s c =
      mark-Covered n ids s (find (has_id n) (refreshed now fetch others n s).runs) c refl

  weakened : (n : ℕ) (ids : List ℕ) (s : Session) → Covered ids s → Covered (n ∷ ids) s
  weakened n ids s (keys, covers) = (keys, λ x i m. ground (arith, covers x i m))

  -- A turn that leaves its run out of the active ones.
  turn-Covered :
      (r : JobRun) (ids : List ℕ) (s : Session) (f : Result JobError Bool)
      → Covered (r.id ∷ ids) s
      → (check_fetched now fetch others r f s).0 ≡ ok false
      → Covered ids (check_fetched now fetch others r f s).1
  turn-Covered r ids s (err e') c e = absurd (ground (arith, e))
  turn-Covered r ids s (ok true) c e = absurd (ground (arith, e))
  turn-Covered r ids s (ok false) c e =
      after_refresh-keeps now fetch others (Covered ids)
        (λ n d k. refresh-Covered n ids d (weakened n ids d k))
        (refresh_and_mark now fetch others r.id s) (refresh-Covered r.id ids s c)

  rest-Covered :
      (r : JobRun) (ids : List ℕ) (turn : Result JobError Bool) (s s' : Session)
      (rest : Result JobError (List JobRun) × Session)
      → (turn ≡ ok false → Covered ids s)
      → (Covered ids s → rest ≡ (ok [], s') → Covered [] s')
      → check_rest now fetch others r turn s rest ≡ (ok [], s')
      → Covered [] s'
  rest-Covered r ids (err x) s s' rest c rec e = absurd (ground (arith, e))
  rest-Covered r ids (ok true) s s' (err x, d) c rec e = absurd (ground (arith, e))
  rest-Covered r ids (ok true) s s' (ok rs, d) c rec e = absurd (ground (arith, e))
  rest-Covered r ids (ok false) s s' (err x, d) c rec e = absurd (ground (arith, e))
  rest-Covered r ids (ok false) s s' (ok rs, d) c rec e = rec (c refl) e

  -- The first loop ends with no active run only if each is gone or marked.
  pub check-Covered :
      (rs : List JobRun) (s s' : Session)
      → Covered (run_ids rs) s
      → check_active now fetch others rs s ≡ (ok [], s')
      → Covered [] s'
  check-Covered [] s s' c e = let same : s ≡ s' = ground (arith, e) in subst (Covered []) same c
  check-Covered (r ∷ rs) s s' c e =
      let f = still_in_queue now fetch others r in
      let turn = check_fetched now fetch others r f s in
      rest-Covered r (run_ids rs) turn.0 turn.1 s' (check_active now fetch others rs turn.1)
        (turn-Covered r (run_ids rs) s f c) (check-Covered rs turn.1 s') e

  pub opened-Covered :
      (rows : List JobRun)
      → distinct (run_ids rows) ≡ true
      → Covered (run_ids (select matches rows)) (opened rows)
  opened-Covered rows keys = (
    keys,
    λ x i m. ground (
      arith,
      In-elem x.id (run_ids (select matches rows)) (
          In-map_intro (λ (r : JobRun). r.id) x (select matches rows)
            (In-select_intro matches x rows i m)),
    ),
  )

  -- No active run of the site and kind is left.
  abbrev AllEnded : List JobRun → Type 0
  AllEnded rows = (x : JobRun) → In x rows → matches x ≡ false

  pub commit-AllEnded : (s : Session) → Covered [] s → AllEnded (commit now fetch others s).runs
  unfolding lost_row
  commit-AllEnded s (keys, covers) x i =
      let (y, j, e) =
        In-update_where (λ (r : JobRun). elem r.id s.pending) (lost_row now) x s.runs i in
      elim (Bool-cases (elem y.id s.pending)) [
        | inl u ↦
            let is_lost : x ≡ lost_row now y = rw u at e in
            ground (arith, ap (λ (z : JobRun). is_active_run z) is_lost)
        | inr u ↦
            let same : x ≡ y = rw u at e in
            elim (Bool-cases (matches y)) [
              | inl m ↦ absurd (ground (arith, covers y j m, u))
              | inr m ↦ rw same m
            ]
      ]

  commit-Covered : (s : Session) → Covered [] s → Covered [] (commit now fetch others s)
  unfolding lost_row
  commit-Covered s c = (
    rw
        (map-update_where (λ (r : JobRun). r.id) (λ (r : JobRun). elem r.id s.pending)
          (lost_row now) (λ x. refl) s.runs)
        c.0,
    λ x i m. absurd (ground (arith, commit-AllEnded s c x i, m)),
  )

  pub reconciled-Covered :
      (rs : List JobRun) (s : Session)
      → Covered [] s
      → Covered [] (reconcile_active_job_runs now fetch others rs s).1
  reconciled-Covered =
      reconcile_active_job_runs-keeps now fetch others (Covered [])
        (λ n s c. refresh-Covered n [] s (weakened n [] s c)) commit-Covered
