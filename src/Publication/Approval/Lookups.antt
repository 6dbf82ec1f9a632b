-- ===== src/Publication/Approval/Lookups.antt =====
-- The dictionaries and checks of an approval (`approve_plans` of
-- app/services/publication_plan_service.py): what a key of theirs stands for.
use linking_engine_backend.Prelude.{
  ℕ, ◌≡◌, refl, sym, ap, true, String, str_eq_iff, none, some, List, [], ◌∷◌, ◌==◌, ==_iff, In, inl,
  inr, ◌⊎◌, arith, Bool-cases, Option-cases,
}
use linking_engine_backend.Publication.Rows.{PublicationPlan}
use linking_engine_backend.Publication.Artifact.{Artifact, compute_plan_hash, verify_integrity}
use linking_engine_backend.Publication.Approval.{wanted_hash, is_named, named_ids, dict_get}

pub no_elements : (ns : List ℕ) → ((n : ℕ) → ¬ (In n ns)) → ns ≡ []
no_elements [] h = refl
no_elements (n ∷ ns) h = absurd (h n (inl refl))

pub In-named_ids :
    (n : ℕ) (approvals : List (ℕ × String))
    → In n (named_ids approvals)
    → (h : String) × In (n, h) approvals
In-named_ids n [] i = absurd i
In-named_ids n ((m, h) ∷ rest) (inl e) = (h, inl (ap (λ (k : ℕ). (k, h)) e))
In-named_ids n ((m, h) ∷ rest) (inr i) = let (g, j) = In-named_ids n rest i in (g, inr j)

pub In-named_ids_intro :
    (n : ℕ) (h : String) (approvals : List (ℕ × String))
    → In (n, h) approvals
    → In n (named_ids approvals)
In-named_ids_intro n h [] i = absurd i
In-named_ids_intro n h ((m, g) ∷ rest) (inl e) = inl (ap (λ (x : ℕ × String). x.0) e)
In-named_ids_intro n h ((m, g) ∷ rest) (inr i) = inr (In-named_ids_intro n h rest i)

pub wanted_of_named :
    (n : ℕ) (h : String) (approvals : List (ℕ × String))
    → In (n, h) approvals
    → (g : String) × (wanted_hash approvals n ≡ some g)
wanted_of_named n h [] i = absurd i
wanted_of_named n h ((m, g) ∷ rest) (inl e) = elim (Option-cases (wanted_hash rest n)) [
  | inr (v, f) ↦ (v, rw f refl)
  | inl f ↦
      let same = (==_iff m n).1 (sym (ap (λ (x : ℕ × String). x.0) e)) in (g, rw (f, same) refl)
]
wanted_of_named n h ((m, g) ∷ rest) (inr i) =
    let (v, f) = wanted_of_named n h rest i in (v, rw f refl)

pub is_named_of :
    (approvals : List (ℕ × String)) (p : PublicationPlan) (h : String)
    → wanted_hash approvals p.id ≡ some h
    → is_named approvals p ≡ true
is_named_of approvals p h e = rw e refl

pub named_hash :
    (approvals : List (ℕ × String)) (p : PublicationPlan)
    → is_named approvals p ≡ true
    → (h : String) × (wanted_hash approvals p.id ≡ some h)
named_hash approvals p e = elim (Option-cases (wanted_hash approvals p.id)) [
  | inl f ↦ absurd (ground (arith, rw f at e))
  | inr found ↦ found
]

pub dict_get_In :
    (n plan_id : ℕ) (d : List (ℕ × ℕ))
    → In (n, plan_id) d
    → (other : ℕ) × (dict_get n d ≡ some other)
dict_get_In n plan_id [] i = absurd i
dict_get_In n plan_id ((j, w) ∷ d) (inl e) =
    let same = (==_iff j n).1 (sym (ap (λ (x : ℕ × ℕ). x.0) e)) in (w, rw same refl)
dict_get_In n plan_id ((j, w) ∷ d) (inr i) =
    let (v, f) = dict_get_In n plan_id d i in
    elim (Bool-cases (j == n)) [ inl e ↦ (w, rw e refl) | inr e ↦ (v, rw e f) ]

pub verify_integrity_intro :
    (digest : Artifact → String) (p : PublicationPlan)
    → compute_plan_hash digest p ≡ p.plan_hash
    → (p.approved_hash ≡ none) ⊎ (p.approved_hash ≡ some (compute_plan_hash digest p))
    → verify_integrity digest p ≡ none
unfolding verify_integrity
verify_integrity_intro digest p e (inl f) =
    rw (e, f, (str_eq_iff p.plan_hash p.plan_hash).1 refl) refl
verify_integrity_intro digest p e (inr f) =
    rw (f, e, (str_eq_iff p.plan_hash p.plan_hash).1 refl) refl
