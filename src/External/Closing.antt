-- ===== src/External/Closing.antt =====
-- What the expiry leaves open (`expire_ineligible_external_suggestions` of
-- app/services/external_link_policy.py).
use linking_engine_backend.Prelude.{
  ℕ, ◌≡◌, refl, sym, subst, ◌∙◌, ◌==◌, Bool, true, false, String, Option, none, some, List, [], ◌∷◌,
  find, Result, ok, err, >>=-returns, All, Bool-cases, inl, inr, ◌⊎◌, arith, In-find, ==_iff,
}
use linking_engine_backend.Publication.Rows.{SuggestionStatus}
use linking_engine_backend.External.{Web, InvalidDomain}
use linking_engine_backend.External.Policy.{
  PolicyState, TargetSite, Evaluation, WebEvaluation, policy_state, managed_domains,
  evaluate_external_url, evaluate_web_search_url,
}
use linking_engine_backend.External.Safety.{
  IsSafe, evaluate_web_search_url-IsSafe, evaluate_external_url-IsSafe,
}
use linking_engine_backend.External.Expiry.{
  Candidate, Target, PolicyExpired, Verdict, passed_over, judged, web_verdict, pool_verdict,
  owned_or_error, expired_row, site_verdict, verdict_of, is_checked, applied, checked_verdict,
  expire_rows, expire_ineligible_external_suggestions,
}

-- A link out of the site is safe; a link within it is not judged.
abbrev pub TargetIsSafe : Web → ℕ → ℕ → PolicyState → List (List ℕ) → Option Target → Type 0
TargetIsSafe web today site_id policy owned none = Unit {0}
TargetIsSafe web today site_id policy owned (some t) =
    (t.site_id ≡ site_id) ⊎ IsSafe web today policy owned t.url

abbrev pub LinkIsSafe :
    Web → ℕ → ℕ → PolicyState → List (List ℕ) → Option (List ℕ) → Option Target → Type 0
LinkIsSafe web today site_id policy owned (some url) t = IsSafe web today policy owned url
LinkIsSafe web today site_id policy owned none t = TargetIsSafe web today site_id policy owned t

-- A row that stays open after the verdict has the property.
abbrev Stays : Type 0 → Verdict → Type 0
Stays P passed_over = P
Stays P (judged true) = P
Stays P (judged false) = Unit {0}

judged-Stays : (P : Type 0) (b : Bool) (v : Verdict) → judged b ≡ v → (b ≡ true → P) → Stays P v
judged-Stays P true v e h = subst (Stays P) e (h refl)
judged-Stays P false v e h = subst (Stays P) e tt

module _ (web : Web) (today now : ℕ) (actor : String) (statuses : SuggestionStatus → Bool)
    (site_id : ℕ) (sites : List TargetSite) (policy : PolicyState) (owned : List (List ℕ)) where
  web_verdict-Stays :
      (url : List ℕ) (r : Result InvalidDomain WebEvaluation) (v : Verdict)
      → evaluate_web_search_url web today url policy owned ≡ r
      → web_verdict r ≡ ok v
      → Stays (IsSafe web today policy owned url) v
  web_verdict-Stays url (err x) v f e = absurd (ground (arith, e))
  web_verdict-Stays url (ok w) v f e =
      judged-Stays (IsSafe web today policy owned url) w.eligible v (ground (arith, e))
        (evaluate_web_search_url-IsSafe web today policy owned url w f)

  pool_verdict-Stays :
      (P : Type 0) (s : TargetSite) (url : List ℕ) (r : Result InvalidDomain Evaluation)
      (v : Verdict)
      → (IsSafe web today policy owned url → P)
      → evaluate_external_url web today s url policy owned ≡ r
      → pool_verdict r ≡ ok v
      → Stays P v
  pool_verdict-Stays P s url (err x) v h f e = absurd (ground (arith, e))
  pool_verdict-Stays P s url (ok w) v h f e =
      judged-Stays P w.eligible v (ground (arith, e))
        (λ y. h (evaluate_external_url-IsSafe web today policy owned s url w f y))

  site_verdict-Stays :
      (t : Target) (found : Option TargetSite) (v : Verdict)
      → find (λ (s : TargetSite). s.site.id == t.site_id) sites ≡ found
      → site_verdict web today now actor statuses site_id sites policy owned t found ≡ ok v
      → Stays (TargetIsSafe web today site_id policy owned (some t)) v
  site_verdict-Stays t none v f e = absurd (ground (arith, e))
  site_verdict-Stays t (some s) v f e =
      let own : s.site.id ≡ t.site_id =
        (==_iff s.site.id t.site_id).0
          (In-find (λ (x : TargetSite). x.site.id == t.site_id) s sites f).1 in
      elim (Bool-cases (s.site.id == site_id)) [
        | inl y ↦
            let passed : passed_over ≡ v = ground (arith, rw y at e) in
            subst (Stays (TargetIsSafe web today site_id policy owned (some t))) passed
              (inl (sym own ∙ (==_iff s.site.id site_id).0 y))
        | inr n ↦
            pool_verdict-Stays (TargetIsSafe web today site_id policy owned (some t)) s t.url _ v
              inr refl (rw n at e)
      ]

  verdict-Stays :
      (url : Option (List ℕ)) (target : Option Target) (v : Verdict)
      → verdict_of web today now actor statuses site_id sites policy owned url target ≡ ok v
      → Stays (LinkIsSafe web today site_id policy owned url target) v
  verdict-Stays (some url) target v e = web_verdict-Stays url _ v refl e
  verdict-Stays none none v e =
      let passed : passed_over ≡ v = ground (arith, e) in subst (Stays (Unit {0})) passed tt
  verdict-Stays none (some t) v e = site_verdict-Stays t _ v refl e

  abbrev checks : Candidate → Bool
  checks = is_checked web today now actor statuses site_id sites

  -- What holds of each row that the policy leaves in one of the statuses.
  abbrev pub IsKept : Candidate → Type 0
  IsKept c = checks c ≡ true → LinkIsSafe web today site_id policy owned c.external_url c.target

  module _ (closed : statuses SuggestionStatus.expired ≡ false) where
    expired-IsKept : (c : Candidate) → IsKept (expired_row c)
    expired-IsKept c e = absurd (ground (arith, e, closed))

    applied-IsKept :
        (c : Candidate) (v : Verdict) (r : List Candidate × List PolicyExpired)
        → (checks c ≡ true
            → Stays (LinkIsSafe web today site_id policy owned c.external_url c.target) v)
        → All IsKept r.0
        → All IsKept (applied web today now actor statuses site_id sites c v r).0
    applied-IsKept c passed_over (rows, events) h all = (h, all)
    applied-IsKept c (judged true) (rows, events) h all = (h, all)
    applied-IsKept c (judged false) (rows, events) h all = (expired-IsKept c, all)

    expire_rows-IsKept :
        (rows : List Candidate) (r : List Candidate × List PolicyExpired)
        → expire_rows web today now actor statuses site_id sites policy owned rows ≡ ok r
        → All IsKept r.0
    expire_rows-IsKept [] r e =
        let same : ([], []) ≡ r = ground (arith, e) in
        subst (λ (p : List Candidate × List PolicyExpired). All IsKept p.0) same tt
    expire_rows-IsKept (c ∷ rows) r e =
        let (v, decided, e₁) =
          >>=-returns (checked_verdict web today now actor statuses site_id sites policy owned c) _
            e in
        let (r', rest, e₂) =
          >>=-returns (expire_rows web today now actor statuses site_id sites policy owned rows) _
            e₁ in
        let same : applied web today now actor statuses site_id sites c v r' ≡ r =
          ground (arith, e₂) in
        subst (λ (p : List Candidate × List PolicyExpired). All IsKept p.0) same
          (applied-IsKept c v r' (λ y. verdict-Stays c.external_url c.target v (rw y at decided))
            (expire_rows-IsKept rows r' rest))

    -- A row that has been applied its verdict is left alone by the next run.
    applied_again :
        (c : Candidate) (v : Verdict) (r : List Candidate × List PolicyExpired)
        → checked_verdict web today now actor statuses site_id sites policy owned c ≡ ok v
        → expire_rows web today now actor statuses site_id sites policy owned r.0 ≡ ok (r.0, [])
        → (let r' = applied web today now actor statuses site_id sites c v r in
            expire_rows web today now actor statuses site_id sites policy owned r'.0
            ≡ ok (r'.0, []))
    applied_again c passed_over (rows, events) e rec = rw (e, rec) refl
    applied_again c (judged true) (rows, events) e rec = rw (e, rec) refl
    applied_again c (judged false) (rows, events) e rec =
        let unchecked : checks (expired_row c) ≡ false = ground (arith, closed) in
        rw (unchecked, rec) refl

    expire_rows_again :
        (rows : List Candidate) (r : List Candidate × List PolicyExpired)
        → expire_rows web today now actor statuses site_id sites policy owned rows ≡ ok r
        → expire_rows web today now actor statuses site_id sites policy owned r.0 ≡ ok (r.0, [])
    expire_rows_again [] r e =
        let same : ([], []) ≡ r = ground (arith, e) in
        subst
          (λ (p : List Candidate × List PolicyExpired).
            expire_rows web today now actor statuses site_id sites policy owned p.0 ≡ ok (p.0, []))
          same refl
    expire_rows_again (c ∷ rows) r e =
        let (v, decided, e₁) =
          >>=-returns (checked_verdict web today now actor statuses site_id sites policy owned c) _
            e in
        let (r', rest, e₂) =
          >>=-returns (expire_rows web today now actor statuses site_id sites policy owned rows) _
            e₁ in
        let same : applied web today now actor statuses site_id sites c v r' ≡ r =
          ground (arith, e₂) in
        subst
          (λ (p : List Candidate × List PolicyExpired).
            expire_rows web today now actor statuses site_id sites policy owned p.0 ≡ ok (p.0, []))
          same (applied_again c v r' decided (expire_rows_again rows r' rest))

owned_or_error-ok :
    (m : Result InvalidDomain (List (List ℕ))) (owned : List (List ℕ))
    → owned_or_error m ≡ ok owned
    → m ≡ ok owned
owned_or_error-ok (err e) owned f = absurd (ground (arith, f))
owned_or_error-ok (ok ds) owned f = ground (arith, f)

module _ (web : Web) (today now : ℕ) (actor : String) (statuses : SuggestionStatus → Bool)
    (site_id : ℕ) (sites : List TargetSite) (policy : Option PolicyState) (rows : List Candidate)
    (r : List Candidate × List PolicyExpired) (closed : statuses SuggestionStatus.expired ≡ false)
    (e : expire_ineligible_external_suggestions web today now actor statuses site_id sites policy
        rows
      ≡ ok r) where
  -- After an expiry that returns, each suggestion of the site that is still in one of the statuses
  -- and leads out of the site is safe: the policy lets links out, and the target has a domain
  -- outside the blocklist, the competitors and the managed sites, and HTTPS where the policy asks
  -- for it. The statuses do not contain the expired one.
  pub expire_ineligible_external_suggestions-IsKept :
      (owned : List (List ℕ)) × (managed_domains web today sites ≡ ok owned)
      × All (IsKept web today now actor statuses site_id sites (policy_state policy) owned) r.0
  unfolding expire_ineligible_external_suggestions
  expire_ineligible_external_suggestions-IsKept =
      let (owned, found, e₁) = >>=-returns (owned_or_error (managed_domains web today sites)) _ e in
      (
        owned,
        owned_or_error-ok (managed_domains web today sites) owned found,
        expire_rows-IsKept web today now actor statuses site_id sites (policy_state policy) owned
            closed rows r e₁,
      )

  -- A second expiry right after one that returned changes no row and writes no
  -- event. The statuses do not contain the expired one.
  pub expire_ineligible_external_suggestions_again :
      expire_ineligible_external_suggestions web today now actor statuses site_id sites policy r.0
      ≡ ok (r.0, [])
  unfolding expire_ineligible_external_suggestions
  expire_ineligible_external_suggestions_again =
      let (owned, found, e₁) = >>=-returns (owned_or_error (managed_domains web today sites)) _ e in
      rw found (
        expire_rows_again web today now actor statuses site_id sites (policy_state policy) owned
          closed rows r e₁)
