-- ===== src/Publication/Preparation/Outcome.antt =====
-- The preparation of one article from its first read to its commit.
use linking_engine_backend.Prelude.{
  ℕ, ◌≡◌, refl, true, String, Option, none, some, List, [], ◌∷◌, ◌++◌, count-append, In, inl, inr,
  ◌⊎◌, arith, Bool-cases, distinct, Result, ok, err,
}
use linking_engine_backend.Publication.Rows.{
  PublicationPlan, Suggestion, Item, Db, is_approved_plan, is_prepared,
}
use linking_engine_backend.Publication.Artifact.{Artifact, compute_plan_hash, snapshot_items}
use linking_engine_backend.Publication.Preparation.{
  Turn, LinkPreview, Prepared, plan, error, raised, active_plan, is_active_for, is_approved_one,
  same_set, still_selected, draft, hashed, finish_article, with_items, with_preview, with_rows,
  prepare_one, ordered_rows,
}
use linking_engine_backend.Publication.Preparation.Plans.{IsSingle, plan_ids}
use linking_engine_backend.Publication.Preparation.Article.{
  Keeps, Keeps-refl, AllSelected, reuse-IsSingle, reuse-Keeps,
}

module _ (digest : Artifact → String) (site_id : ℕ) (now : ℕ) (turn : Turn) (a : ℕ)
    (ids : List ℕ) where
  -- What the caller may rely on when it gets a plan.
  abbrev pub IsSound : List Suggestion → Db → Prepared × Db → Type 0
  IsSound ordered db (plan q, db') =
      (preview : LinkPreview) × (items : List Item) × (turn.preview_links ordered ≡ ok preview)
      × (snapshot_items ordered preview.outcomes ≡ some items)
      × (q.plan_hash
          ≡ compute_plan_hash digest (draft site_id a turn preview items db.next_plan_id))
      × (is_prepared q.status ≡ true)
      × (q.source_article_id ≡ a)
      × In q db'.plans
      × AllSelected db ids
  IsSound ordered db (error e, db') = Unit
  IsSound ordered db (raised, db') = Unit

  module _ (ordered : List Suggestion) (preview : LinkPreview) (items : List Item) (db : Db) where
    abbrev p : PublicationPlan
    p = hashed digest site_id now (draft site_id a turn preview items db.next_plan_id)

  finish_article-Keeps :
      (p : PublicationPlan) (db : Db)
      → distinct (plan_ids db.plans) ≡ true
      → Keeps db (finish_article digest site_id now turn a ids p db).1
  unfolding finish_article
  finish_article-Keeps p db d = elim (Bool-cases (is_approved_one (active_plan a db))) [
    | inl covered ↦ rw covered (Keeps-refl db)
    | inr free ↦ elim (Bool-cases (same_set (still_selected db ids) ids)) [
      | inr changed ↦ rw (free, changed) (Keeps-refl db)
      | inl same ↦
          rw (free, same)
            (reuse-Keeps digest site_id now turn a p db (active_plan a db) refl free d)
    ]
  ]

  finish_article-IsSingle :
      (p : PublicationPlan) (db : Db)
      → IsSingle db.plans
      → IsSingle (db.plans ++ turn.rivals)
      → IsSingle (finish_article digest site_id now turn a ids p db).1.plans
  unfolding finish_article
  finish_article-IsSingle p db h k = elim (Bool-cases (is_approved_one (active_plan a db))) [
    | inl covered ↦ rw covered h
    | inr free ↦ elim (Bool-cases (same_set (still_selected db ids) ids)) [
      | inr changed ↦ rw (free, changed) h
      | inl same ↦
          rw (free, same) (reuse-IsSingle digest site_id now turn a p db (active_plan a db) h k)
    ]
  ]

  -- The three facts from the rows that the first query returned.
  module _ (db : Db) where
    abbrev later : Db
    later = turn.during_preview db

    items-after :
        (P : Db → Type 0) (preview : LinkPreview) (o : Option (List Item))
        → P later
        → ((p : PublicationPlan) → P (finish_article digest site_id now turn a ids p later).1)
        → P (with_items digest site_id now turn a ids preview o later).1
    items-after P preview none h f = h
    items-after P preview (some items) h f =
        f (hashed digest site_id now (draft site_id a turn preview items later.next_plan_id))

    preview-after :
        (P : Db → Type 0) (ordered : List Suggestion) (o : Result String LinkPreview)
        → P later
        → ((p : PublicationPlan) → P (finish_article digest site_id now turn a ids p later).1)
        → P (with_preview digest site_id now turn a ids ordered o later).1
    preview-after P ordered (err text) h f = h
    preview-after P ordered (ok preview) h f =
        items-after P preview (snapshot_items ordered preview.outcomes) h f

    -- What holds of the state before the request, after it, and after the last part, holds of
    -- the state that the preparation leaves.
    rows-after :
        (P : Db → Type 0) (ordered : List Suggestion)
        → P db
        → P later
        → ((p : PublicationPlan) → P (finish_article digest site_id now turn a ids p later).1)
        → P (with_rows digest site_id now turn a ids ordered db).1
    rows-after P [] h k f = h
    rows-after P (r ∷ rs) h k f = elim (Bool-cases (is_approved_one (active_plan a db))) [
      | inl covered ↦ rw covered h
      | inr free ↦ rw free (preview-after P (r ∷ rs) (turn.preview_links (r ∷ rs)) k f)
    ]

    -- Where no article has two active plans, before the preparation and with the plans that
    -- others insert while it runs, none has two after it.
    pub prepare_one-IsSingle :
        IsSingle db.plans
        → IsSingle (later.plans ++ turn.rivals)
        → IsSingle (prepare_one digest site_id now turn a ids db).1.plans
    unfolding prepare_one
    prepare_one-IsSingle h k =
        let k' : IsSingle later.plans =
          λ b. omega (arith, count-append (is_active_for b) later.plans turn.rivals, k b) in
        rows-after (λ x. IsSingle x.plans) (ordered_rows db.suggestions ids) h k'
          (λ p. finish_article-IsSingle p later k' k)

    prepare_one-Keeps :
        distinct (plan_ids later.plans) ≡ true
        → Keeps later (prepare_one digest site_id now turn a ids db).1
          ⊎ ((prepare_one digest site_id now turn a ids db).1 ≡ db)
    unfolding prepare_one
    prepare_one-Keeps d =
        rows-after (λ x. Keeps later x ⊎ (x ≡ db)) (ordered_rows db.suggestions ids) (inr refl)
          (inl (Keeps-refl later)) (λ p. inl (finish_article-Keeps p later d))

    -- With the ids of the plans as a primary key, a preparation changes no suggestion, and an
    -- approved plan, one that was approved during the network request included, is in the table
    -- afterwards as it was; unless the preparation ended before the request and changed nothing.
    pub prepare_one_keeps_approved :
        (q : PublicationPlan)
        → distinct (plan_ids later.plans) ≡ true
        → In q later.plans
        → is_approved_plan q.status ≡ true
        → (In q (prepare_one digest site_id now turn a ids db).1.plans
            × ((prepare_one digest site_id now turn a ids db).1.suggestions ≡ later.suggestions))
          ⊎ ((prepare_one digest site_id now turn a ids db).1 ≡ db)
    prepare_one_keeps_approved q d i e = elim (prepare_one-Keeps d) [
      | inl k ↦ inl (k.approved q i e, k.suggestions)
      | inr same ↦ inr same
    ]
