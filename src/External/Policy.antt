-- ===== src/External/Policy.antt =====
-- The policy on outgoing external links (app/services/external_link_policy.py).
--
-- Outside, and parameters: `urlsplit` and the domain codecs (Web), and the date of today. A date is
-- the number of its day. The wording of reasons is left out.
use linking_engine_backend.Prelude.{
  ℕ, ◌+◌, ◌-◌, ◌==◌, min, Bool, true, false, not, ◌&&◌, ◌||◌, Option, none, some, List, [], ◌∷◌,
  ◌++◌, if◌then◌else◌, ltb, leb, elem, Result, ok, err, ◌>>=◌,
}
use linking_engine_backend.Policy.Pool.{Site, text_eq, dot, is_pool}
use linking_engine_backend.External.{Web, InvalidDomain, domain_from_url, domain_matches}

-- The columns of an `external_link_policies` row, with the defaults of a site that has none.
pub record PolicyState : Type 0 where
  pub external_links_enabled : Bool
  pub require_https : Bool
  pub min_trust_score : ℕ
  pub min_domain_age_days : ℕ
  pub trusted_tlds : List (List ℕ)
  pub allowlist_domains : List (List ℕ)
  pub blocklist_domains : List (List ℕ)
  pub competitor_domains : List (List ℕ)

abbrev pub default_policy : PolicyState
default_policy = record {
  external_links_enabled = false;
  require_https = true;
  min_trust_score = 60;
  min_domain_age_days = 0;
  trusted_tlds = [];
  allowlist_domains = [];
  blocklist_domains = [];
  competitor_domains = [];
}

abbrev pub policy_state : Option PolicyState → PolicyState
policy_state none = default_policy
policy_state (some p) = p

-- A site row with the columns that only this policy reads
pub record TargetSite : Type 0 where
  pub site : Site
  pub pool_source_quarantined : Bool
  pub domain_registered_at : Option ℕ

pub data Reason : Type 0 where
  invalid_target links_disabled https_required source_not_approved blocklisted competitor : Reason
  owned_domain age_unknown age_below score_below : Reason

pub record Checks : Type 0 where
  pub https : Bool
  pub trusted_tld : Bool
  pub domain_age_days : Option ℕ
  pub allowlisted : Bool
  pub blocklisted : Bool
  pub competitor : Bool
  pub owned_domain : Bool
  pub approved_source : Bool

-- TrustEvaluation; a URL without a domain has none
pub record Evaluation : Type 0 where
  pub domain : Option (List ℕ)
  pub trust_score : ℕ
  pub eligible : Bool
  pub reasons : List Reason
  pub checks : Checks

-- The part that the search for a target on the web checks; WebSearchSafetyEvaluation
pub record WebEvaluation : Type 0 where
  pub domain : Option (List ℕ)
  pub eligible : Bool
  pub reasons : List Reason
  pub https : Bool
  pub blocklisted : Bool
  pub competitor : Bool
  pub owned_domain : Bool

abbrev pub reason_if : Bool → Reason → List Reason
reason_if true r = r ∷ []
reason_if false r = []

abbrev pub has_none : List Reason → Bool
has_none [] = true
has_none (r ∷ rs) = false

-- `text.rsplit(".", 1)[-1]`
abbrev pub last_label : List ℕ → List ℕ
last_label [] = []
last_label (c ∷ cs) =
    let rest = last_label cs in if elem dot cs then rest else if c == dot then cs else c ∷ cs

abbrev pub elem_text : List ℕ → List (List ℕ) → Bool
elem_text t [] = false
elem_text t (u ∷ us) = text_eq t u || elem_text t us

abbrev pub is_https : List ℕ → Bool
is_https scheme = text_eq scheme (104 ∷ 116 ∷ 116 ∷ 112 ∷ 115 ∷ [])

abbrev pub age_score : Option ℕ → ℕ
age_score none = 0
age_score (some days) =
    if leb 365 days then 20 else if leb 180 days then 15 else if leb 30 days then 10 else 5

abbrev pub has_no_rules : List (List ℕ) → Bool
has_no_rules [] = true
has_no_rules (r ∷ rs) = false

abbrev pub trust_score : PolicyState → Checks → ℕ
trust_score policy checks = min 100 (
    (if checks.https then 30 else 0)
    + (if checks.trusted_tld then 15 else 0)
    + (if checks.approved_source then 15 else 0)
    + (if checks.allowlisted then 20 else if has_no_rules policy.allowlist_domains then 10 else 0)
    + age_score checks.domain_age_days)

abbrev pub age_reason : PolicyState → Option ℕ → List Reason
age_reason policy none = reason_if (not (policy.min_domain_age_days == 0)) age_unknown
age_reason policy (some days) =
    reason_if (not (policy.min_domain_age_days == 0) && ltb days policy.min_domain_age_days)
      age_below

abbrev pub reasons_of : PolicyState → Checks → ℕ → List Reason
reasons_of policy checks score =
    reason_if (not policy.external_links_enabled) links_disabled
    ++ (reason_if (policy.require_https && not checks.https) https_required
        ++ (reason_if (not checks.approved_source) source_not_approved
            ++ (reason_if checks.blocklisted blocklisted
                ++ (reason_if checks.competitor competitor
                    ++ (reason_if checks.owned_domain owned_domain
                        ++ (age_reason policy checks.domain_age_days
                            ++ reason_if (ltb score policy.min_trust_score) score_below))))))

abbrev pub web_reasons : PolicyState → Bool → Bool → Bool → Bool → List Reason
web_reasons policy https listed rival owned =
    reason_if (not policy.external_links_enabled) links_disabled
    ++ (reason_if (not https) https_required
        ++ (reason_if listed blocklisted
            ++ (reason_if rival competitor ++ reason_if owned owned_domain)))

module _ (web : Web) (today : ℕ) where
  abbrev pub scheme_of : List ℕ → List ℕ
  scheme_of url = web.names.lower (web.scheme url)

  abbrev pub matches_any : List ℕ → List (List ℕ) → Result InvalidDomain Bool
  matches_any domain [] = ok false
  matches_any domain (rule ∷ rules) =
      let rest = matches_any domain rules in
      domain_matches web domain rule >>= λ m. if m then ok true else rest

  -- The domains of the sites that are not pool sources.
  abbrev pub managed_domains : List TargetSite → Result InvalidDomain (List (List ℕ))
  managed_domains [] = ok []
  managed_domains (s ∷ sites) =
      let rest = managed_domains sites in
      if is_pool s.site.platform
      then rest
      else do d ← domain_from_url web s.site.base_url; ds ← rest; ok (d ∷ ds)

  abbrev pub age_if_related : ℕ → Bool → Option ℕ
  age_if_related registered true = some (today - registered)
  age_if_related registered false = none

  abbrev pub age_of : Option ℕ → List ℕ → TargetSite → Result InvalidDomain (Option ℕ)
  age_of none url s = ok none
  age_of (some registered) url s = do
    target ← domain_from_url web url
    source ← domain_from_url web s.site.base_url
    below ← domain_matches web target source
    above ← (if below then ok true else domain_matches web source target)
    ok (age_if_related registered above)

  abbrev pub domain_age_days : List ℕ → TargetSite → Result InvalidDomain (Option ℕ)
  domain_age_days url s = age_of s.domain_registered_at url s

  abbrev pub is_approved_source : TargetSite → Bool
  is_approved_source s =
      is_pool s.site.platform && (s.site.pool_source_approved && not s.pool_source_quarantined)

  abbrev pub no_checks : Checks
  no_checks = record {
    https = false;
    trusted_tld = false;
    domain_age_days = none;
    allowlisted = false;
    blocklisted = false;
    competitor = false;
    owned_domain = false;
    approved_source = false;
  }

  abbrev pub invalid_evaluation : Evaluation
  invalid_evaluation = record {
    domain = none;
    trust_score = 0;
    eligible = false;
    reasons = invalid_target ∷ [];
    checks = no_checks;
  }

  abbrev pub evaluation_of : PolicyState → List ℕ → Checks → Evaluation
  evaluation_of policy domain checks =
      let score = trust_score policy checks in
      let reasons = reasons_of policy checks score in
      record {
        domain = some domain;
        trust_score = score;
        eligible = has_none reasons;
        reasons = reasons;
        checks = checks;
      }

  abbrev pub evaluate_domain :
      TargetSite
      → List ℕ
      → PolicyState
      → List (List ℕ)
      → Result InvalidDomain (List ℕ)
      → Result InvalidDomain Evaluation
  evaluate_domain s url policy owned (err e) = ok invalid_evaluation
  evaluate_domain s url policy owned (ok domain) = do
    age ← domain_age_days url s
    allowed ← matches_any domain policy.allowlist_domains
    listed ← matches_any domain policy.blocklist_domains
    rival ← matches_any domain policy.competitor_domains
    ours ← matches_any domain owned
    ok (
        evaluation_of policy domain (record {
          https = is_https (scheme_of url);
          trusted_tld =
              has_no_rules policy.trusted_tlds || elem_text (last_label domain) policy.trusted_tlds;
          domain_age_days = age;
          allowlisted = allowed;
          blocklisted = listed;
          competitor = rival;
          owned_domain = ours;
          approved_source = is_approved_source s;
        }))

  unfoldable pub evaluate_external_url :
      TargetSite → List ℕ → PolicyState → List (List ℕ) → Result InvalidDomain Evaluation
  unfolding domain_from_url domain_matches
  evaluate_external_url s url policy owned =
      evaluate_domain s url policy owned (domain_from_url web url)

  abbrev pub invalid_web_evaluation : WebEvaluation
  invalid_web_evaluation = record {
    domain = none;
    eligible = false;
    reasons = invalid_target ∷ [];
    https = false;
    blocklisted = false;
    competitor = false;
    owned_domain = false;
  }

  abbrev pub evaluate_web_domain :
      List ℕ
      → PolicyState
      → List (List ℕ)
      → Result InvalidDomain (List ℕ)
      → Result InvalidDomain WebEvaluation
  evaluate_web_domain url policy owned (err e) = ok invalid_web_evaluation
  evaluate_web_domain url policy owned (ok domain) = do
    listed ← matches_any domain policy.blocklist_domains
    rival ← matches_any domain policy.competitor_domains
    ours ← matches_any domain owned
    let reasons = web_reasons policy (is_https (scheme_of url)) listed rival ours
    ok (record {
      domain = some domain;
      eligible = has_none reasons;
      reasons = reasons;
      https = is_https (scheme_of url);
      blocklisted = listed;
      competitor = rival;
      owned_domain = ours;
    })

  unfoldable pub evaluate_web_search_url :
      List ℕ → PolicyState → List (List ℕ) → Result InvalidDomain WebEvaluation
  unfolding domain_from_url domain_matches
  evaluate_web_search_url url policy owned =
      evaluate_web_domain url policy owned (domain_from_url web url)
