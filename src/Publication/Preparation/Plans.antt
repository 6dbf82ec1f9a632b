-- ===== src/Publication/Preparation/Plans.antt =====
-- How superseding and inserting act on the table of plans.
use linking_engine_backend.Prelude.{
  ℕ, ◌≤◌, ◌≡◌, refl, ap, Bool, true, false, Option, none, some, List, [], ◌∷◌, ◌++◌, map, ◌==◌,
  ==_iff, find, count, count-append, count-update_where, In, inl, inr, arith, Bool-cases,
  Option-cases, In-update_where_intro, In-append_left, distinct, distinct-injective, subst,
}
use linking_engine_backend.Publication.Rows.{PublicationPlan, Db, is_approved_plan}
use linking_engine_backend.Publication.Preparation.{
  is_active_for, supersede, superseded_row, commit_plan,
}

-- At most one plan of an article may still reach the site.
abbrev pub IsSingle : List PublicationPlan → Type 0
IsSingle plans = (a : ℕ) → count (is_active_for a) plans ≤ 1

abbrev pub plan_ids : List PublicationPlan → List ℕ
plan_ids plans = map (λ (p : PublicationPlan). p.id) plans

count_zero :
    (p : PublicationPlan → Bool) (xs : List PublicationPlan) → find p xs ≡ none → count p xs ≡ 0
count_zero p [] e = refl
count_zero p (x ∷ xs) e = ground (arith, count_zero p xs)

count-supersede :
    (now a : ℕ) (existing : Option PublicationPlan) (plans : List PublicationPlan)
    → count (is_active_for a) (supersede now existing plans) ≤ count (is_active_for a) plans
count-supersede now a none plans = omega arith
count-supersede now a (some old) plans =
    count-update_where (is_active_for a) (λ p. p.id == old.id) (superseded_row now)
      (λ x e f. ground arith) plans

pub supersede-IsSingle :
    (now : ℕ) (existing : Option PublicationPlan) (plans : List PublicationPlan)
    → IsSingle plans
    → IsSingle (supersede now existing plans)
supersede-IsSingle now existing plans h a = omega (arith, count-supersede now a existing plans, h a)

pub insert-IsSingle :
    (p : PublicationPlan) (plans : List PublicationPlan)
    → find (is_active_for p.source_article_id) plans ≡ none
    → IsSingle plans
    → IsSingle (plans ++ p ∷ [])
insert-IsSingle p plans free h a = rw (count-append (is_active_for a) plans (p ∷ [])) (
    ground (
      arith,
      h a,
      count_zero (is_active_for p.source_article_id) plans free,
      ap (λ n. count (is_active_for n) plans) {x = a} {y = p.source_article_id},
    ))

-- An approved plan survives the superseding of a plan that is not approved.
pub supersede_keeps :
    (now : ℕ) (old q : PublicationPlan) (plans rivals : List PublicationPlan)
    → distinct (plan_ids plans) ≡ true
    → In old plans
    → is_approved_plan old.status ≡ false
    → In q plans
    → is_approved_plan q.status ≡ true
    → In q (supersede now (some old) (plans ++ rivals))
supersede_keeps now old q plans rivals unique i e j f = elim (Bool-cases (q.id == old.id)) [
  | inl same ↦
      let eq =
        distinct-injective (λ (p : PublicationPlan). p.id) q old plans unique j i
          ((==_iff q.id old.id).0 same) in
      absurd (cc (ap (λ (p : PublicationPlan). is_approved_plan p.status) eq))
  | inr other ↦
      subst (λ x. In x (supersede now (some old) (plans ++ rivals))) (rw other)
        (In-update_where_intro (λ p. p.id == old.id) (superseded_row now) q (plans ++ rivals)
          (In-append_left q plans rivals j))
]

pub commit_plan_lem :
    (now : ℕ) (existing : Option PublicationPlan) (p : PublicationPlan) (db db' : Db)
    → commit_plan now existing p db ≡ some db'
    → (find (is_active_for p.source_article_id) (supersede now existing db.plans) ≡ none)
      × (db'.plans ≡ supersede now existing db.plans ++ p ∷ [])
      × (db'.suggestions ≡ db.suggestions)
commit_plan_lem now existing p db db' e =
    elim (Option-cases
      (find (is_active_for p.source_article_id) (supersede now existing db.plans))) [
        | inl f ↦ let e' = rw f at e in (f, ground arith, ground arith)
        | inr (q, f) ↦ absurd (cc (rw f at e))
      ]
