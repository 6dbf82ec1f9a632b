-- ===== src/Publication/Approval/Binding.antt =====
-- What an approval does to the suggestions.
use linking_engine_backend.Prelude.{
  ℕ, ◌≡◌, ◌≢◌, refl, sym, ap, subst, ◌∙◌, true, String, none, some, List, [], ◌∷◌, map,
  if◌then◌else◌, select, ok, In, All-In, inl, inr, ◌⊎◌, arith, Bool-cases, Option-cases, In-find,
  In-select_intro, In-map_intro, ◌==◌, ==_iff, distinct, distinct-injective,
}
use linking_engine_backend.Publication.Rows.{PublicationPlan, Item, Suggestion, Db, is_selected}
use linking_engine_backend.Publication.Cohort.{ids_of}
use linking_engine_backend.Publication.Artifact.{Artifact}
use linking_engine_backend.Publication.Approval.{
  is_named, snapshotted, snapshotted_from, snapshot_plan, bind_row, dict_get, dict_set,
  approve_plans,
}
use linking_engine_backend.Publication.Approval.Checks.{IsClaimable}
use linking_engine_backend.Publication.Approval.Effects.{approve_plans_exact}

dict_get-set :
    (k v j : ℕ) (d : List (ℕ × ℕ))
    → dict_get j (dict_set k v d) ≡ (if k == j then some v else dict_get j d)
dict_get-set k v j [] = refl
dict_get-set k v j ((i, w) ∷ d) = ground (arith, dict_get-set k v j d)

pub In-dict_get :
    (n plan_id : ℕ) (d : List (ℕ × ℕ)) → dict_get n d ≡ some plan_id → In (n, plan_id) d
In-dict_get n plan_id [] e = cc
In-dict_get n plan_id ((j, w) ∷ d) e = elim (Bool-cases (j == n)) [
  | inl f ↦ inl (pair_eq ((==_iff j n).0 f) (rw f at e))
  | inr f ↦ inr (In-dict_get n plan_id d (rw f at e))
]
  where
    pair_eq : j ≡ n → some w ≡ some plan_id → ◌≡◌ {A = ℕ × ℕ} (n, plan_id) (j, w)
    pair_eq f g = ground arith

-- A plan of the list holds an item for the suggestion.
abbrev pub Snapshots : List PublicationPlan → ℕ → ℕ → Type 0
Snapshots plans n plan_id =
    (p : PublicationPlan) × In p plans
    × (p.id ≡ plan_id)
    × (item : Item) × In item p.items
    × (item.suggestion_id ≡ n)

module _ (all : List PublicationPlan) where
  abbrev pub AllSnapshots : List (ℕ × ℕ) → Type 0
  AllSnapshots d = (n plan_id : ℕ) → dict_get n d ≡ some plan_id → Snapshots all n plan_id

  -- Every entry of the dictionary comes from an item of one of the plans.
  snapshot_plan_sound :
      (p : PublicationPlan) (items : List Item) (d : List (ℕ × ℕ))
      → In p all
      → ((item : Item) → In item items → In item p.items)
      → AllSnapshots d
      → AllSnapshots (snapshot_plan d p.id items)
  snapshot_plan_sound p [] d i sub h = h
  snapshot_plan_sound p (item ∷ items) d i sub h =
      snapshot_plan_sound p items (dict_set item.suggestion_id p.id d) i (λ x j. sub x (inr j))
        λ n plan_id e.
          let e' = rw (dict_get-set item.suggestion_id p.id n d) at e in
          elim (Bool-cases (item.suggestion_id == n)) [
            | inl f ↦
                (p, i, ground arith, item, sub item (inl refl), (==_iff item.suggestion_id n).0 f)
            | inr f ↦ h n plan_id (ground arith)
          ]

  snapshotted_from_sound :
      (ps : List PublicationPlan) (d : List (ℕ × ℕ))
      → ((p : PublicationPlan) → In p ps → In p all)
      → AllSnapshots d
      → AllSnapshots (snapshotted_from d ps)
  snapshotted_from_sound [] d sub h = h
  snapshotted_from_sound (p ∷ ps) d sub h =
      snapshotted_from_sound ps (snapshot_plan d p.id p.items) (λ q j. sub q (inr j))
        (snapshot_plan_sound p p.items d (sub p (inl refl)) (λ x j. j) h)

pub snapshotted_sound : (ps : List PublicationPlan) → AllSnapshots ps (snapshotted ps)
snapshotted_sound ps = snapshotted_from_sound ps ps [] (λ p i. i) (λ n plan_id e. cc)

abbrev pub IsKey : ℕ → List (ℕ × ℕ) → Type 0
IsKey n d = dict_get n d ≢ none

dict_set-IsKey : (n k v : ℕ) (d : List (ℕ × ℕ)) → IsKey n d ⊎ (k ≡ n) → IsKey n (dict_set k v d)
dict_set-IsKey n k v d (inl h) = λ e. ground (arith, dict_get-set k v n d, h)
dict_set-IsKey n k v d (inr h) = λ e. ground (arith, dict_get-set k v n d)

snapshot_plan-IsKey :
    (n plan_id : ℕ) (items : List Item) (d : List (ℕ × ℕ))
    → IsKey n d ⊎ ((item : Item) × In item items × (item.suggestion_id ≡ n))
    → IsKey n (snapshot_plan d plan_id items)
snapshot_plan-IsKey n plan_id [] d (inl h) = h
snapshot_plan-IsKey n plan_id [] d (inr (item, i, e)) = absurd i
snapshot_plan-IsKey n plan_id (x ∷ items) d (inl h) =
    snapshot_plan-IsKey n plan_id items (dict_set x.suggestion_id plan_id d)
      (inl (dict_set-IsKey n x.suggestion_id plan_id d (inl h)))
snapshot_plan-IsKey n plan_id (x ∷ items) d (inr (item, inl f, e)) =
    snapshot_plan-IsKey n plan_id items (dict_set x.suggestion_id plan_id d) (
      inl (
        dict_set-IsKey n x.suggestion_id plan_id d
          (inr (ap (λ (y : Item). y.suggestion_id) (sym f) ∙ e))))
snapshot_plan-IsKey n plan_id (x ∷ items) d (inr (item, inr i, e)) =
    snapshot_plan-IsKey n plan_id items (dict_set x.suggestion_id plan_id d) (inr (item, i, e))

-- Every item of the plans has an entry.
pub snapshotted_complete :
    (n : ℕ) (ps : List PublicationPlan) (d : List (ℕ × ℕ))
    → IsKey n d
      ⊎ ((p : PublicationPlan) × (item : Item) × In p ps
          × In item p.items
          × (item.suggestion_id ≡ n))
    → IsKey n (snapshotted_from d ps)
snapshotted_complete n [] d (inl h) = h
snapshotted_complete n [] d (inr (p, item, i, j, e)) = absurd i
snapshotted_complete n (q ∷ ps) d (inl h) =
    snapshotted_complete n ps (snapshot_plan d q.id q.items)
      (inl (snapshot_plan-IsKey n q.id q.items d (inl h)))
snapshotted_complete n (q ∷ ps) d (inr (p, item, inl f, j, e)) =
    snapshotted_complete n ps (snapshot_plan d q.id q.items) (
      inl (
        snapshot_plan-IsKey n q.id q.items d
          (inr (item, subst (λ (x : PublicationPlan). In item x.items) f j, e))))
snapshotted_complete n (q ∷ ps) d (inr (p, item, inr i, j, e)) =
    snapshotted_complete n ps (snapshot_plan d q.id q.items) (inr (p, item, i, j, e))

bind_row-some :
    (d : List (ℕ × ℕ)) (s : Suggestion) (plan_id : ℕ)
    → dict_get s.id d ≡ some plan_id
    → bind_row d s ≡ record s { publication_plan_id = some plan_id }
bind_row-some d s plan_id e = rw (e, bind_row)

bind_row-none : (d : List (ℕ × ℕ)) (s : Suggestion) → dict_get s.id d ≡ none → bind_row d s ≡ s
bind_row-none d s e = rw (e, bind_row)

module _ (digest : Artifact → String) (site_id : ℕ) (approvals : List (ℕ × String))
    (approved_by : String) (now : ℕ) (db : Db) (r : List PublicationPlan × Db)
    (approved : approve_plans digest site_id approvals approved_by now db ≡ ok r) where
  abbrev named : List PublicationPlan
  named = select (is_named approvals) db.plans

  -- With the ids as a primary key: every suggestion in an item of a named plan was selected and
  -- part of no plan, and is now bound to a named plan that has an item for it.
  pub approve_plans_binds_suggestions :
      (s : Suggestion) (p : PublicationPlan) (item : Item)
      → distinct (ids_of db.suggestions) ≡ true
      → In s db.suggestions
      → In p db.plans
      → is_named approvals p ≡ true
      → In item p.items
      → item.suggestion_id ≡ s.id
      → (is_selected s.status ≡ true)
        × (s.publication_plan_id ≡ none)
        × (plan_id : ℕ) × Snapshots named s.id plan_id
        × In (record s { publication_plan_id = some plan_id }) r.1.suggestions
  approve_plans_binds_suggestions s p item unique i j n k e =
      let (h, f) = approve_plans_exact digest site_id approved_by now db approvals r approved in
      let key =
        snapshotted_complete s.id named []
          (inr (p, item, In-select_intro (is_named approvals) p db.plans j n, k, e)) in
      elim (Option-cases (dict_get s.id (snapshotted named))) [
        | inl missing ↦ absurd (key missing)
        | inr (plan_id, g) ↦
            let (row, found, selected, unbound) =
              All-In (IsClaimable db.suggestions) (s.id, plan_id) (snapshotted named)
                (In-dict_get s.id plan_id (snapshotted named) g) h.suggestions in
            let (l, m) = In-find (λ (x : Suggestion). x.id == s.id) row db.suggestions found in
            let same : row ≡ s =
              distinct-injective (λ (x : Suggestion). x.id) row s db.suggestions unique l i
                ((==_iff row.id s.id).0 m) in
            (
              subst (λ (x : Suggestion). is_selected x.status ≡ true) same selected,
              subst (λ (x : Suggestion). x.publication_plan_id ≡ none) same unbound,
              plan_id,
              snapshotted_sound named s.id plan_id g,
              rw f (
                  subst
                    (λ (x : Suggestion). In x (map (bind_row (snapshotted named)) db.suggestions))
                    (bind_row-some (snapshotted named) s plan_id g)
                    (In-map_intro (bind_row (snapshotted named)) s db.suggestions i)),
            )
      ]

  -- A suggestion in no item of a named plan is left as it was.
  pub approve_plans_frame :
      (s : Suggestion)
      → In s db.suggestions
      → ((plan_id : ℕ) → ¬ (Snapshots named s.id plan_id))
      → In s r.1.suggestions
  approve_plans_frame s i other =
      let (h, f) = approve_plans_exact digest site_id approved_by now db approvals r approved in
      elim (Option-cases (dict_get s.id (snapshotted named))) [
        | inl g ↦ rw f (
            subst (λ (x : Suggestion). In x (map (bind_row (snapshotted named)) db.suggestions))
              (bind_row-none (snapshotted named) s g)
              (In-map_intro (bind_row (snapshotted named)) s db.suggestions i))
        | inr (plan_id, g) ↦ absurd (other plan_id (snapshotted_sound named s.id plan_id g))
      ]
