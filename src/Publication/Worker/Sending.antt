-- ===== src/Publication/Worker/Sending.antt =====
-- What the worker may send to the site.
use linking_engine_backend.Prelude.{
  ℕ, ◌≡◌, refl, sym, ap, ◌∙◌, Bool, true, not, String, Option, none, some, List, [], ◌∷◌, length,
  select, In, inl, inr, ◌⊎◌, arith, Bool-cases, In-find, ok, ◌==◌, ==_iff, All, All-In,
}
use linking_engine_backend.Publication.Rows.{
  PublicationPlan, Suggestion, Reason, connector_failed, Db, is_approved_plan, is_selected,
  plan_by_id,
}
use linking_engine_backend.Publication.Artifact.{
  Artifact, canonical_artifact, compute_plan_hash, verify_integrity, verify_integrity_passes,
}
use linking_engine_backend.Publication.Cohort.{ids_of}
use linking_engine_backend.Publication.Connector.{
  Site, EditOutcome, written, already_applied, stale, raised, apply_planned_edit,
  apply_planned_edit-Sends,
}
use linking_engine_backend.Publication.Worker.{
  Turn, Run, bound_rows, retired_ids, is_empty, failure_exit, stale_exit, commit_exit, skip_exit,
  integrity_exit, edit_exit, with_article, with_integrity, with_locked, process_plan,
}

none_retired :
    (rows : List Suggestion)
    → is_empty (ids_of (select (λ r. not (is_selected r.status)) rows)) ≡ true
    → All (λ (r : Suggestion). is_selected r.status ≡ true) rows
none_retired [] e = tt
none_retired (r ∷ rows) e = elim (Bool-cases (is_selected r.status)) [
  | inl s ↦ (s, none_retired rows (rw s at e))
  | inr s ↦ absurd (cc (rw s at e))
]

module _ {S : Type 0} (site : Site S) (digest : Artifact → String) (article : ℕ → Option (Option ℕ))
    (limit now : ℕ) where
  -- The plan as the lock shows it, when its content went to the site: approved, hashing to the
  -- stored hash and to the approved one if it has one, with every bound suggestion still selected,
  -- onto the post of the plan's article, which was read as the plan's original and got the plan's
  -- updated content by one POST.
  pub record Sent (loaded : PublicationPlan) (db : Db) (before after : S) : Type 0 where
    pub locked : PublicationPlan
    pub is_locked : In locked db.plans
    pub id : locked.id ≡ loaded.id
    pub status : is_approved_plan locked.status ≡ true
    pub stored : compute_plan_hash digest locked ≡ locked.plan_hash
    pub approved :
        (locked.approved_hash ≡ none)
        ⊎ (locked.approved_hash ≡ some (compute_plan_hash digest locked))
    pub selected : All (λ (r : Suggestion). is_selected r.status ≡ true) (bound_rows loaded.id db)
    pub post_id : ℕ
    pub post_of_article : article loaded.source_article_id ≡ some (some post_id)
    pub live : site.read post_id before ≡ ok locked.original_html
    pub posted : after ≡ (site.post post_id locked.updated_html before).1

  failure_exit_remote :
      (turn : Turn) (plan_id : ℕ) (c : Bool) (attempted : List ℕ) (reason : Reason) (n : ℕ)
      (db : Db) (run : Run S)
      → (failure_exit site digest article limit now turn plan_id c attempted reason n db run).remote
        ≡ run.remote
  unfolding failure_exit
  failure_exit_remote turn plan_id c attempted reason n db run = refl

  commit_exit_remote :
      (turn : Turn) (locked : PublicationPlan) (n : ℕ) (db : Db) (run : Run S)
      → (commit_exit site digest article limit now turn locked n db run).remote ≡ run.remote
  unfolding commit_exit
  commit_exit_remote turn locked n db run = elim (Bool-cases turn.commits) [
    | inl e ↦ rw e
    | inr e ↦ rw e
  ]

  edit_exit_remote :
      (turn : Turn) (locked : PublicationPlan) (n : ℕ) (db : Db) (run : Run S) (r : EditOutcome × S)
      → (edit_exit site digest article limit now turn locked n db run r).remote ≡ r.1
  unfolding stale_exit
  edit_exit_remote turn locked n db run (stale, s) = refl
  edit_exit_remote turn locked n db run (raised text, s) =
      failure_exit_remote turn locked.id true (ids_of (bound_rows locked.id db))
        (connector_failed text) n db (record run { remote = s })
  edit_exit_remote turn locked n db run (written, s) =
      commit_exit_remote turn locked n db (record run { remote = s })
  edit_exit_remote turn locked n db run (already_applied, s) =
      commit_exit_remote turn locked n db (record run { remote = s })

  -- The plan that the lock shows and the rows that it needs.
  module _ (turn : Turn) (loaded locked : PublicationPlan) (n : ℕ) (db : Db) (run : Run S) where
    article_remote :
        (found : Option (Option ℕ))
        → article loaded.source_article_id ≡ found
        → In locked db.plans
        → locked.id ≡ loaded.id
        → is_approved_plan locked.status ≡ true
        → verify_integrity digest locked ≡ none
        → All (λ (r : Suggestion). is_selected r.status ≡ true) (bound_rows loaded.id db)
        → ((with_article site digest article limit now turn locked n db run found).remote
            ≡ run.remote)
          ⊎ Sent loaded db run.remote
              (with_article site digest article limit now turn locked n db run found).remote
    unfolding integrity_exit
    article_remote none a i e s v sel = inl refl
    article_remote (some external_id) a i e s v sel =
        let r =
          apply_planned_edit site external_id locked.original_html locked.updated_html run.remote in
        let same = edit_exit_remote turn locked n db run r in
        elim (apply_planned_edit-Sends site external_id locked.original_html locked.updated_html
          run.remote) [
            | inl kept ↦ inl (same ∙ kept)
            | inr (post_id, f, live, posted) ↦ inr (record {
              locked = locked;
              is_locked = i;
              id = e;
              status = s;
              stored = (verify_integrity_passes digest locked v).0;
              approved = (verify_integrity_passes digest locked v).1;
              selected = sel;
              post_id = post_id;
              post_of_article = a ∙ ap some f;
              live = live;
              posted = same ∙ posted;
            })
          ]

    integrity_remote :
        (o : Option Reason)
        → verify_integrity digest locked ≡ o
        → In locked db.plans
        → locked.id ≡ loaded.id
        → is_approved_plan locked.status ≡ true
        → All (λ (r : Suggestion). is_selected r.status ≡ true) (bound_rows loaded.id db)
        → ((with_integrity site digest article limit now turn locked loaded.source_article_id n db
              run o).remote
            ≡ run.remote)
          ⊎ Sent loaded db run.remote
              (with_integrity site digest article limit now turn locked loaded.source_article_id n
                db run o).remote
    unfolding integrity_exit
    integrity_remote (some reason) v i e s sel = inl refl
    integrity_remote none v i e s sel =
        article_remote (article loaded.source_article_id) refl i e s v sel

  locked_remote :
      (turn : Turn) (loaded : PublicationPlan) (db : Db) (run : Run S) (o : Option PublicationPlan)
      → plan_by_id loaded.id db.plans ≡ o
      → ((with_locked site digest article limit now turn loaded db run o).remote ≡ run.remote)
        ⊎ Sent loaded db run.remote
            (with_locked site digest article limit now turn loaded db run o).remote
  unfolding skip_exit stale_exit
  locked_remote turn loaded db run none e = inl refl
  locked_remote turn loaded db run (some locked) e =
      elim (Bool-cases (is_approved_plan locked.status)) [
        | inr other ↦ rw other (inl refl)
        | inl status ↦ elim (Bool-cases (is_empty (retired_ids loaded.id db))) [
          | inr some_retired ↦ rw (status, some_retired) (inl refl)
          | inl all_selected ↦
              let (i, f) = In-find (λ (p : PublicationPlan). p.id == loaded.id) locked db.plans e in
              rw (status, all_selected)
                (integrity_remote turn loaded locked (length loaded.items) db run
                  (verify_integrity digest locked) refl i ((==_iff locked.id loaded.id).0 f) status
                  (none_retired (bound_rows loaded.id db) all_selected))
        ]
      ]

  -- Processing a plan either leaves the site as it was, or sends the updated content of the plan
  -- that the lock shows to the post of the plan's article, under all of these: the plan has the
  -- status approved, its artifact hashes to the stored hash, and also to the approved hash if the
  -- row has one (a row without one is not refused for it), every bound suggestion is still
  -- selected, and the live post is the plan's original. It is sent by one POST and nothing else is
  -- sent.
  pub process_plan_sends_approved :
      (turn : Turn) (loaded : PublicationPlan) (run : Run S)
      → ((process_plan site digest article limit now turn loaded run).remote ≡ run.remote)
        ⊎ Sent loaded
            (turn.before_lock run.db)
            run.remote
            (process_plan site digest article limit now turn loaded run).remote
  unfolding process_plan
  process_plan_sends_approved turn loaded run =
      let db = turn.before_lock run.db in
      locked_remote turn loaded db run (plan_by_id loaded.id db.plans) refl

  -- What is sent is what the operator was shown: if the plan carries the hash of the shown
  -- artifact as its approved hash, and the digest does not take the shown artifact and the stored
  -- one to one value unless they are the same, then a change of the site is one POST of the shown
  -- content onto a post that holds the shown original.
  pub process_plan_sends_shown :
      (turn : Turn) (loaded : PublicationPlan) (run : Run S) (shown : Artifact)
      → All
          (λ (p : PublicationPlan).
            (p.id ≡ loaded.id)
            → (p.approved_hash ≡ some (digest shown))
              × (digest shown ≡ compute_plan_hash digest p → shown ≡ canonical_artifact p))
          (turn.before_lock run.db).plans
      → ((process_plan site digest article limit now turn loaded run).remote ≡ run.remote)
        ⊎ ((post_id : ℕ) × (site.read post_id run.remote ≡ ok shown.original_html)
            × ((process_plan site digest article limit now turn loaded run).remote
                ≡ (site.post post_id shown.updated_html run.remote).1))
  process_plan_sends_shown turn loaded run shown h =
      elim (process_plan_sends_approved turn loaded run) [
        | inl kept ↦ inl kept
        | inr sent ↦
            let (approved, no_collision) =
              All-In
                (λ (p : PublicationPlan).
                  (p.id ≡ loaded.id)
                  → (p.approved_hash ≡ some (digest shown))
                    × (digest shown ≡ compute_plan_hash digest p → shown ≡ canonical_artifact p))
                sent.locked (turn.before_lock run.db).plans sent.is_locked h sent.id in
            let same = no_collision (
              agreed (digest shown) (compute_plan_hash digest sent.locked) sent.locked.approved_hash
                approved sent.approved) in
            inr (
              sent.post_id,
              sent.live ∙ ap (λ (x : Artifact). ok x.original_html) (sym same),
              sent.posted
                  ∙ ap (λ (x : Artifact). (site.post sent.post_id x.updated_html run.remote).1)
                      (sym same),
            )
      ]
    where
      agreed : (a b : String) (o : Option String) → o ≡ some a → (o ≡ none) ⊎ (o ≡ some b) → a ≡ b
      agreed a b o e f = ground arith
