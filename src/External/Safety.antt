-- ===== src/External/Safety.antt =====
-- What an eligible target satisfies (app/services/external_link_policy.py).
use linking_engine_backend.Prelude.{
  ℕ, ◌≡◌, refl, ap, ◌∙◌, Bool, true, false, not, ◌&&◌, ◌||◌, not-false, Option, List, [], ◌∷◌, ◌++◌,
  ltb, Result, ok, err, >>=-returns, All, Bool-cases, inl, inr, arith,
}
use linking_engine_backend.External.{Web, InvalidDomain, domain_from_url, domain_matches}
use linking_engine_backend.External.Policy.{
  links_disabled, https_required, source_not_approved, blocklisted, competitor, owned_domain,
  score_below, trust_score, is_approved_source, has_no_rules, elem_text, last_label, PolicyState,
  TargetSite, Evaluation, WebEvaluation, Checks, Reason, reason_if, has_none, reasons_of,
  web_reasons, age_reason, matches_any, is_https, scheme_of, domain_age_days, evaluate_domain,
  evaluation_of, evaluate_web_domain, evaluate_external_url, evaluate_web_search_url,
}

-- No reason is left only if each part of the list is empty.
has_none-append :
    (rs ss : List Reason) → has_none (rs ++ ss) ≡ true → (has_none rs ≡ true) × (has_none ss ≡ true)
has_none-append [] ss e = (refl, e)
has_none-append (r ∷ rs) ss e = absurd (ground arith)

has_none-reason_if : (b : Bool) (r : Reason) → has_none (reason_if b r) ≡ true → b ≡ false
has_none-reason_if true r e = absurd (ground arith)
has_none-reason_if false r e = refl

abbrev pub AllOutside : Web → List ℕ → List (List ℕ) → Type 0
AllOutside web domain rules =
    All (λ (rule : List ℕ). domain_matches web domain rule ≡ ok false) rules

matches_any-AllOutside :
    (web : Web) (today : ℕ) (domain : List ℕ) (rules : List (List ℕ))
    → matches_any web today domain rules ≡ ok false
    → AllOutside web domain rules
matches_any-AllOutside web today domain [] e = tt
matches_any-AllOutside web today domain (rule ∷ rules) e =
    let (m, here, rest) = >>=-returns (domain_matches web domain rule) _ e in
    elim (Bool-cases m) [
      | inl y ↦ absurd (ground (arith, rw y at rest))
      | inr n ↦ (here ∙ ap ok n, matches_any-AllOutside web today domain rules (rw n at rest))
    ]

-- The site lets links out, and the target's domain exists and is outside the blocklist, the
-- competitors and the managed sites; if the policy asks for HTTPS, the target has it.
abbrev pub IsSafe : Web → ℕ → PolicyState → List (List ℕ) → List ℕ → Type 0
IsSafe web today policy owned url =
    (domain : List ℕ) × (domain_from_url web url ≡ ok domain)
    × (policy.external_links_enabled ≡ true)
    × AllOutside web domain policy.blocklist_domains
    × AllOutside web domain policy.competitor_domains
    × AllOutside web domain owned
    × ((policy.require_https && not (is_https (scheme_of web today url))) ≡ false)

web_reasons_none :
    (policy : PolicyState) (https listed rival owned : Bool)
    → has_none (web_reasons policy https listed rival owned) ≡ true
    → (policy.external_links_enabled ≡ true)
      × (https ≡ true)
      × (listed ≡ false)
      × (rival ≡ false)
      × (owned ≡ false)
web_reasons_none policy https listed rival owned e =
    let (a, e₁) =
      has_none-append (reason_if (not policy.external_links_enabled) links_disabled) _ e in
    let (b, e₂) = has_none-append (reason_if (not https) https_required) _ e₁ in
    let (c, e₃) = has_none-append (reason_if listed blocklisted) _ e₂ in
    let (d, f) = has_none-append (reason_if rival competitor) _ e₃ in
    (
      not-false _ (has_none-reason_if _ links_disabled a),
      not-false _ (has_none-reason_if _ https_required b),
      has_none-reason_if listed blocklisted c,
      has_none-reason_if rival competitor d,
      has_none-reason_if owned owned_domain f,
    )

reasons_none :
    (policy : PolicyState) (checks : Checks) (score : ℕ)
    → has_none (reasons_of policy checks score) ≡ true
    → (policy.external_links_enabled ≡ true)
      × ((policy.require_https && not checks.https) ≡ false)
      × (checks.approved_source ≡ true)
      × (checks.blocklisted ≡ false)
      × (checks.competitor ≡ false)
      × (checks.owned_domain ≡ false)
      × (ltb score policy.min_trust_score ≡ false)
reasons_none policy checks score e =
    let (a, e₁) =
      has_none-append (reason_if (not policy.external_links_enabled) links_disabled) _ e in
    let (b, e₂) =
      has_none-append (reason_if (policy.require_https && not checks.https) https_required) _ e₁ in
    let (s, e₃) =
      has_none-append (reason_if (not checks.approved_source) source_not_approved) _ e₂ in
    let (c, e₄) = has_none-append (reason_if checks.blocklisted blocklisted) _ e₃ in
    let (d, e₅) = has_none-append (reason_if checks.competitor competitor) _ e₄ in
    let (f, e₆) = has_none-append (reason_if checks.owned_domain owned_domain) _ e₅ in
    let (g, h) = has_none-append (age_reason policy checks.domain_age_days) _ e₆ in
    (
      not-false _ (has_none-reason_if _ links_disabled a),
      has_none-reason_if _ https_required b,
      not-false _ (has_none-reason_if _ source_not_approved s),
      has_none-reason_if _ blocklisted c,
      has_none-reason_if _ competitor d,
      has_none-reason_if _ owned_domain f,
      has_none-reason_if _ score_below h,
    )

module _ (web : Web) (today : ℕ) (policy : PolicyState) (owned : List (List ℕ))
    (url domain : List ℕ) (found : domain_from_url web url ≡ ok domain) where
  -- The guards that the two evaluations share.
  guards-IsSafe :
      (listed rival ours : Bool)
      → matches_any web today domain policy.blocklist_domains ≡ ok listed
      → matches_any web today domain policy.competitor_domains ≡ ok rival
      → matches_any web today domain owned ≡ ok ours
      → policy.external_links_enabled ≡ true
      → (policy.require_https && not (is_https (scheme_of web today url))) ≡ false
      → listed ≡ false
      → rival ≡ false
      → ours ≡ false
      → IsSafe web today policy owned url
  guards-IsSafe listed rival ours b c o enabled https l r w = (
    domain,
    found,
    enabled,
    matches_any-AllOutside web today domain policy.blocklist_domains (b ∙ ap ok l),
    matches_any-AllOutside web today domain policy.competitor_domains (c ∙ ap ok r),
    matches_any-AllOutside web today domain owned (o ∙ ap ok w),
    https,
  )

  web_checked-IsSafe :
      (listed rival ours : Result InvalidDomain Bool) (e : WebEvaluation)
      → matches_any web today domain policy.blocklist_domains ≡ listed
      → matches_any web today domain policy.competitor_domains ≡ rival
      → matches_any web today domain owned ≡ ours
      → evaluate_web_domain web today url policy owned (ok domain) ≡ ok e
      → e.eligible ≡ true
      → IsSafe web today policy owned url
  web_checked-IsSafe (err x) rival ours e b c o r eligible = absurd (ground (arith, rw b at r))
  web_checked-IsSafe (ok l) (err x) ours e b c o r eligible =
      absurd (ground (arith, rw (b, c) at r))
  web_checked-IsSafe (ok l) (ok v) (err x) e b c o r eligible =
      absurd (ground (arith, rw (b, c, o) at r))
  web_checked-IsSafe (ok l) (ok v) (ok w) e b c o r eligible =
      let returned = rw (b, c, o) at r in
      let none_left : has_none (web_reasons policy (is_https (scheme_of web today url)) l v w)
          ≡ true =
        ground (arith, returned, eligible) in
      let (enabled, https, lf, vf, wf) =
        web_reasons_none policy (is_https (scheme_of web today url)) l v w none_left in
      guards-IsSafe l v w b c o enabled (ground (arith, https)) lf vf wf

  pool_checked-IsSafe :
      (s : TargetSite) (age : Result InvalidDomain (Option ℕ))
      (allowed listed rival ours : Result InvalidDomain Bool) (e : Evaluation)
      → domain_age_days web today url s ≡ age
      → matches_any web today domain policy.allowlist_domains ≡ allowed
      → matches_any web today domain policy.blocklist_domains ≡ listed
      → matches_any web today domain policy.competitor_domains ≡ rival
      → matches_any web today domain owned ≡ ours
      → evaluate_domain web today s url policy owned (ok domain) ≡ ok e
      → e.eligible ≡ true
      → IsSafe web today policy owned url
  pool_checked-IsSafe s (err x) allowed listed rival ours e a w b c o r eligible =
      absurd (ground (arith, rw a at r))
  pool_checked-IsSafe s (ok d) (err x) listed rival ours e a w b c o r eligible =
      absurd (ground (arith, rw (a, w) at r))
  pool_checked-IsSafe s (ok d) (ok h) (err x) rival ours e a w b c o r eligible =
      absurd (ground (arith, rw (a, w, b) at r))
  pool_checked-IsSafe s (ok d) (ok h) (ok l) (err x) ours e a w b c o r eligible =
      absurd (ground (arith, rw (a, w, b, c) at r))
  pool_checked-IsSafe s (ok d) (ok h) (ok l) (ok v) (err x) e a w b c o r eligible =
      absurd (ground (arith, rw (a, w, b, c, o) at r))
  pool_checked-IsSafe s (ok d) (ok h) (ok l) (ok v) (ok u) e a w b c o r eligible =
      let checks : Checks = record {
        https = is_https (scheme_of web today url);
        trusted_tld =
            has_no_rules policy.trusted_tlds || elem_text (last_label domain) policy.trusted_tlds;
        domain_age_days = d;
        allowlisted = h;
        blocklisted = l;
        competitor = v;
        owned_domain = u;
        approved_source = is_approved_source web today s;
      } in
      let returned : ok (evaluation_of web today policy domain checks) ≡ ok e =
        rw (a, w, b, c, o) at r in
      let same : evaluation_of web today policy domain checks ≡ e = ground (arith, returned) in
      let none_left : has_none (reasons_of policy checks (trust_score policy checks)) ≡ true =
        ap (λ (x : Evaluation). x.eligible) same ∙ eligible in
      let (enabled, https, approved, lf, vf, uf, enough) =
        reasons_none policy checks (trust_score policy checks) none_left in
      guards-IsSafe l v u b c o enabled https lf vf uf

pub evaluate_web_search_url-IsSafe :
    (web : Web) (today : ℕ) (policy : PolicyState) (owned : List (List ℕ)) (url : List ℕ)
    (e : WebEvaluation)
    → evaluate_web_search_url web today url policy owned ≡ ok e
    → e.eligible ≡ true
    → IsSafe web today policy owned url
unfolding evaluate_web_search_url
evaluate_web_search_url-IsSafe web today policy owned url e r eligible =
    found (domain_from_url web url) refl r
  where
    found :
        (d : Result InvalidDomain (List ℕ))
        → domain_from_url web url ≡ d
        → evaluate_web_domain web today url policy owned d ≡ ok e
        → IsSafe web today policy owned url
    found (err x) f r' = absurd (ground (arith, r', eligible))
    found (ok domain) f r' =
        web_checked-IsSafe web today policy owned url domain f _ _ _ e refl refl refl r' eligible

pub evaluate_external_url-IsSafe :
    (web : Web) (today : ℕ) (policy : PolicyState) (owned : List (List ℕ)) (s : TargetSite)
    (url : List ℕ) (e : Evaluation)
    → evaluate_external_url web today s url policy owned ≡ ok e
    → e.eligible ≡ true
    → IsSafe web today policy owned url
unfolding evaluate_external_url
evaluate_external_url-IsSafe web today policy owned s url e r eligible =
    found (domain_from_url web url) refl r
  where
    found :
        (d : Result InvalidDomain (List ℕ))
        → domain_from_url web url ≡ d
        → evaluate_domain web today s url policy owned d ≡ ok e
        → IsSafe web today policy owned url
    found (err x) f r' = absurd (ground (arith, r', eligible))
    found (ok domain) f r' =
        pool_checked-IsSafe web today policy owned url domain f s _ _ _ _ _ e refl refl refl refl
          refl r' eligible
