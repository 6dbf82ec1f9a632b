-- ===== src/Publication/Preparation/Article.antt =====
-- The preparation of one article: what it may change, and what a returned plan is.
use linking_engine_backend.Prelude.{
  ℕ, ◌≡◌, refl, sym, true, false, ◌&&◌, String, str_eq, str_eq_iff, Option, none, some, List, [],
  ◌∷◌, ◌++◌, In, inl, inr, ◌⊎◌, arith, Bool-cases, In-find, In-append_left, In-append_right,
  distinct, subst, &&-true, elem, elem-In, In-map, In-select, All, In-All,
}
use linking_engine_backend.Publication.Rows.{
  PublicationPlan, Suggestion, Db, is_approved_plan, is_prepared, is_unbound_selection,
}
use linking_engine_backend.Publication.Artifact.{Artifact}
use linking_engine_backend.Publication.Preparation.{
  Turn, Prepared, plan, error, raised, is_active_for, active_plan, is_approved_one, same_set,
  still_selected, every, commit_plan, supersede, commit_outcome, replace_or_reuse, replace_plan,
}
use linking_engine_backend.Publication.Preparation.Plans.{
  IsSingle, plan_ids, supersede-IsSingle, insert-IsSingle, supersede_keeps, commit_plan_lem,
}

-- A state that differs from another in its plans only, and still has every approved plan.
pub record Keeps (before after : Db) : Type 0 where
  pub suggestions : after.suggestions ≡ before.suggestions
  pub approved :
      (q : PublicationPlan)
      → In q before.plans
      → is_approved_plan q.status ≡ true
      → In q after.plans

pub Keeps-refl : (db : Db) → Keeps db db
Keeps-refl db = record { suggestions = refl; approved = λ q i e. i }

every-elem : (n : ℕ) (ms ns : List ℕ) → every ms ns ≡ true → In n ms → elem n ns ≡ true
every-elem n [] ns h i = absurd i
every-elem n (m ∷ ms) ns h (inl e) = ground (arith)
every-elem n (m ∷ ms) ns h (inr i) = every-elem n ms ns (&&-true (elem m ns) (every ms ns) h).1 i

-- Every id of the request has a row that is selected and unbound.
abbrev pub AllSelected : Db → List ℕ → Type 0
AllSelected db ids =
    All (λ n. (r : Suggestion) × In r db.suggestions × (n ≡ r.id) × (is_unbound_selection r ≡ true))
      ids

pub same_set_selected :
    (db : Db) (ids : List ℕ) → same_set (still_selected db ids) ids ≡ true → AllSelected db ids
same_set_selected db ids h =
    In-All
      (λ n. (r : Suggestion) × In r db.suggestions × (n ≡ r.id) × (is_unbound_selection r ≡ true))
      ids
      λ n i.
        let back =
          (&&-true (every (still_selected db ids) ids) (every ids (still_selected db ids)) h).1 in
        let (r, j, e) =
          In-map (λ (x : Suggestion). x.id) n _
            (elem-In n (still_selected db ids) (every-elem n ids (still_selected db ids) back i)) in
        let (k, f) = In-select (λ r. elem r.id ids && is_unbound_selection r) r db.suggestions j in
        (r, k, e, (&&-true (elem r.id ids) (is_unbound_selection r) f).1)

module _ (digest : Artifact → String) (site_id : ℕ) (now : ℕ) (turn : Turn) (a : ℕ) where
  -- The plan that comes back is the new one, now in the table, or an older prepared one with the
  -- same hash.
  abbrev pub Yields : PublicationPlan → Db → Prepared × Db → Type 0
  Yields p db (plan q, db') =
      In q db'.plans
      × (is_prepared q.status ≡ true)
      × (q.plan_hash ≡ p.plan_hash)
      × (q.source_article_id ≡ a)
      × ((q ≡ p) ⊎ In q db.plans)
  Yields p db (error e, db') = Unit
  Yields p db (raised, db') = Unit

  module _ (p : PublicationPlan) (existing : Option PublicationPlan) (db : Db) where
    abbrev with_rivals : Db
    with_rivals = record db { plans = db.plans ++ turn.rivals }

    outcome-Yields :
        (o : Option Db)
        → commit_plan now existing p with_rivals ≡ o
        → is_prepared p.status ≡ true
        → p.source_article_id ≡ a
        → Yields p db (commit_outcome digest site_id now turn a p with_rivals o)
    outcome-Yields none f s e = tt
    outcome-Yields (some db') f s e =
        let (_, g, _) = commit_plan_lem now existing p with_rivals db' f in
        (
          subst (λ ps. In p ps) (sym g)
              (In-append_right p (supersede now existing with_rivals.plans) (p ∷ []) (inl refl)),
          s,
          refl,
          e,
          inl refl,
        )

    outcome-IsSingle :
        (o : Option Db)
        → commit_plan now existing p with_rivals ≡ o
        → IsSingle with_rivals.plans
        → IsSingle (commit_outcome digest site_id now turn a p with_rivals o).1.plans
    outcome-IsSingle none f h = h
    outcome-IsSingle (some db') f h =
        let (free, g, _) = commit_plan_lem now existing p with_rivals db' f in
        subst IsSingle (sym g) (
          insert-IsSingle p (supersede now existing with_rivals.plans) free
            (supersede-IsSingle now existing with_rivals.plans h))

    outcome-Keeps :
        (o : Option Db)
        → commit_plan now existing p with_rivals ≡ o
        → ((q : PublicationPlan)
            → In q db.plans
            → is_approved_plan q.status ≡ true
            → In q (supersede now existing with_rivals.plans))
        → Keeps db (commit_outcome digest site_id now turn a p with_rivals o).1
    outcome-Keeps none f h = record {
      suggestions = refl;
      approved = λ q i e. In-append_left q db.plans turn.rivals i;
    }
    outcome-Keeps (some db') f h =
        let (_, g, s) = commit_plan_lem now existing p with_rivals db' f in
        record {
          suggestions = s;
          approved = λ q i e.
              subst (λ ps. In q ps) (sym g)
                (In-append_left q (supersede now existing with_rivals.plans) (p ∷ []) (h q i e));
        }

  -- The three facts of `replace_or_reuse`, where the active plan is not an approved one.
  module _ (p : PublicationPlan) (db : Db) where
    pub reuse-Yields :
        (existing : Option PublicationPlan)
        → active_plan a db ≡ existing
        → is_approved_one existing ≡ false
        → is_prepared p.status ≡ true
        → p.source_article_id ≡ a
        → Yields p db (replace_or_reuse digest site_id now turn a p existing db)
    unfolding replace_plan
    reuse-Yields none f u s e =
        outcome-Yields p none db (commit_plan now none p (with_rivals p none db)) refl s e
    reuse-Yields (some old) f u s e = elim (Bool-cases (str_eq old.plan_hash p.plan_hash)) [
      | inl same ↦
          let (i, active) = In-find (is_active_for a) old db.plans f in
          let eq = (str_eq_iff old.plan_hash p.plan_hash).0 same in
          rw same (i, ground arith, eq, ground arith, inr i)
      | inr other ↦ rw other (
          outcome-Yields p (some old) db
            (commit_plan now (some old) p (with_rivals p (some old) db)) refl s e)
    ]

    pub reuse-IsSingle :
        (existing : Option PublicationPlan)
        → IsSingle db.plans
        → IsSingle (db.plans ++ turn.rivals)
        → IsSingle (replace_or_reuse digest site_id now turn a p existing db).1.plans
    unfolding replace_plan
    reuse-IsSingle none h k =
        outcome-IsSingle p none db (commit_plan now none p (with_rivals p none db)) refl k
    reuse-IsSingle (some old) h k = elim (Bool-cases (str_eq old.plan_hash p.plan_hash)) [
      | inl same ↦ rw same h
      | inr other ↦ rw other (
          outcome-IsSingle p (some old) db
            (commit_plan now (some old) p (with_rivals p (some old) db)) refl k)
    ]

    pub reuse-Keeps :
        (existing : Option PublicationPlan)
        → active_plan a db ≡ existing
        → is_approved_one existing ≡ false
        → distinct (plan_ids db.plans) ≡ true
        → Keeps db (replace_or_reuse digest site_id now turn a p existing db).1
    unfolding replace_plan
    reuse-Keeps none f u d =
        outcome-Keeps p none db (commit_plan now none p (with_rivals p none db)) refl
          (λ q i e. In-append_left q db.plans turn.rivals i)
    reuse-Keeps (some old) f u d = elim (Bool-cases (str_eq old.plan_hash p.plan_hash)) [
      | inl same ↦ rw same (Keeps-refl db)
      | inr other ↦
          let (i, active) = In-find (is_active_for a) old db.plans f in
          rw other (
            outcome-Keeps p (some old) db
              (commit_plan now (some old) p (with_rivals p (some old) db)) refl
              (λ q j e. supersede_keeps now old q db.plans turn.rivals d i u j e))
    ]
