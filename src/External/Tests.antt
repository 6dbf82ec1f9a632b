-- ===== src/External/Tests.antt =====
-- The expiry over two suggestions, one of them to a blocked domain.
use linking_engine_backend.Prelude.{
  In, inl, inr, ◌⊎◌, subst, sym, ℕ, ◌≡◌, refl, ◌==◌, Bool, true, false, Option, none, some, List,
  [], ◌∷◌, if◌then◌else◌, ok, All,
}
use linking_engine_backend.Publication.Rows.{Suggestion, SuggestionStatus}
use linking_engine_backend.Policy.Pool.{Platform}
use linking_engine_backend.External.{Web, domain_matches}
use linking_engine_backend.External.Policy.{
  PolicyState, TargetSite, Evaluation, evaluate_external_url, managed_domains,
}
use linking_engine_backend.External.Expiry.{
  Candidate, PolicyExpired, expired_row, expire_ineligible_external_suggestions,
}
use linking_engine_backend.External.Context.{
  Article, SourceEntry, external_target_context, source_evaluations,
}
use linking_engine_backend.External.Inspection.{
  IsSafeArticle, IsOwnArticle, external_target_context-IsSafeArticle,
}
use linking_engine_backend.External.Closing.{IsKept, expire_ineligible_external_suggestions-IsKept}

-- A URL is a mark of its scheme ("s" for https) and the host.
abbrev host_of : List ℕ → Option (List ℕ)
host_of [] = none
host_of (c ∷ cs) = some cs

abbrev scheme_of_mark : List ℕ → List ℕ
scheme_of_mark [] = []
scheme_of_mark (c ∷ cs) = if c == 115 then 104 ∷ 116 ∷ 116 ∷ 112 ∷ 115 ∷ [] else []

abbrev web : Web
web = record {
  names = record { strip = λ t. t; lower = λ t. t; idna = λ t. some t; hostname = host_of };
  is_space = λ c. c == 32;
  scheme = scheme_of_mark;
}

abbrev policy : PolicyState
policy = record {
  external_links_enabled = true;
  require_https = true;
  min_trust_score = 60;
  min_domain_age_days = 0;
  trusted_tlds = [];
  allowlist_domains = [];
  blocklist_domains = (98 ∷ []) ∷ [];
  competitor_domains = [];
}

abbrev client : TargetSite
client = record {
  site = record {
    id = 1;
    tenant_id = 1;
    base_url = 115 ∷ 109 ∷ [];
    platform = Platform.wordpress;
    pool_source_approved = false;
  };
  pool_source_quarantined = false;
  domain_registered_at = none;
}

abbrev source : TargetSite
source = record {
  site = record {
    id = 2;
    tenant_id = 1;
    base_url = 115 ∷ 112 ∷ [];
    platform = Platform.pool;
    pool_source_approved = true;
  };
  pool_source_quarantined = false;
  domain_registered_at = some 0;
}

-- "a.b" is below the rule "b", and "ab" is not.
subdomain_matches : domain_matches web (97 ∷ 46 ∷ 98 ∷ []) (98 ∷ []) ≡ ok true
unfolding domain_matches
subdomain_matches = refl

suffix_does_not_match : domain_matches web (97 ∷ 98 ∷ []) (98 ∷ []) ≡ ok false
unfolding domain_matches
suffix_does_not_match = refl

abbrev link : ℕ → Suggestion
link id = record {
  id = id;
  site_id = 1;
  source_article_id = 7;
  target_article_id = none;
  resolved_target_url = "";
  score = 10;
  bm25_score = none;
  status = SuggestionStatus.approved;
  anchor_text = none;
  publication_plan_id = none;
  publish_outcome = none;
  publish_attempts = 0;
  publish_error = none;
  reviewer_id = none;
  rejection_reason = none;
  reviewed_at = none;
  applied_at = none;
}

abbrev blocked_link : Candidate
blocked_link = record {
  suggestion = link 1;
  external_url = some (115 ∷ 97 ∷ 46 ∷ 98 ∷ []);
  target = none;
}

abbrev pool_link : Candidate
pool_link = record {
  suggestion = link 2;
  external_url = none;
  target = some (record { site_id = 2; url = 115 ∷ 112 ∷ [] });
}

abbrev open_statuses : SuggestionStatus → Bool
open_statuses s = elim s [
  | SuggestionStatus.pending ↦ true
  | SuggestionStatus.approved ↦ true
  | SuggestionStatus.rejected ↦ false
  | SuggestionStatus.expired ↦ false
  | SuggestionStatus.applying ↦ false
  | SuggestionStatus.applied ↦ false
  | SuggestionStatus.failed ↦ false
]

abbrev event : PolicyExpired
event = record {
  suggestion_id = 1;
  actor = "policy";
  from_status = SuggestionStatus.approved;
  created_at = 9;
}

abbrev left : List Candidate
left = expired_row blocked_link ∷ pool_link ∷ []

abbrev sites : List TargetSite
sites = client ∷ source ∷ []

blocked_link_expires :
    expire_ineligible_external_suggestions web 400 9 "policy" open_statuses 1 sites
      (some policy)
      (blocked_link ∷ pool_link ∷ [])
    ≡ ok (left, event ∷ [])
unfolding expire_ineligible_external_suggestions
blocked_link_expires = refl

expire_ineligible_external_suggestions-IsKept_example :
    (owned : List (List ℕ)) × (managed_domains web 400 sites ≡ ok owned)
    × All (IsKept web 400 9 "policy" open_statuses 1 sites policy owned) left
expire_ineligible_external_suggestions-IsKept_example =
    expire_ineligible_external_suggestions-IsKept web 400 9 "policy" open_statuses 1 sites
      (some policy) (blocked_link ∷ pool_link ∷ []) (left, event ∷ []) refl blocked_link_expires

-- 30 for HTTPS, 15 for the top-level domain, 15 for the source, 10 without an allowlist, 20 for the age
source_score :
    (e : Evaluation) × (evaluate_external_url web 400 source (115 ∷ 112 ∷ []) policy [] ≡ ok e)
    × (◌≡◌ {A = ℕ} e.trust_score 90)
unfolding evaluate_external_url
source_score = (_, refl, refl)

abbrev own_article : Article
own_article = record { id = 11; site_id = 1; url = 115 ∷ 109 ∷ []; is_active = true }

abbrev pool_article : Article
pool_article = record { id = 12; site_id = 2; url = 115 ∷ 112 ∷ []; is_active = true }

abbrev blocked_article : Article
blocked_article = record pool_article { id = 13; url = 115 ∷ 97 ∷ 46 ∷ 98 ∷ [] }

abbrev articles : List Article
articles = own_article ∷ pool_article ∷ blocked_article ∷ []

context :
    (r : List ℕ × List (ℕ × Evaluation)) × (external_target_context web 400 sites
        (some policy)
        1
        articles
      ≡ ok r)
    × (r.0 ≡ 11 ∷ 12 ∷ [])
unfolding external_target_context
context = (_, refl, refl)

external_target_context-IsSafeArticle_example :
    IsOwnArticle web 400 sites 1 articles 12
    ⊎ ((owned : List (List ℕ)) × (managed_domains web 400 sites ≡ ok owned)
        × IsSafeArticle web 400 sites policy owned articles 12)
external_target_context-IsSafeArticle_example =
    external_target_context-IsSafeArticle web 400 sites (some policy) 1 articles context.0 12
      context.1 (subst (In 12) (sym context.2) (inr (inl refl)))

-- The source's own page is eligible, one of its two articles is, and the other is blocked.
source_page :
    (e : SourceEntry) × (source_evaluations web 400 sites (some policy) articles ≡ ok (e ∷ []))
    × (e.eligible ≡ true)
    × (◌≡◌ {A = ℕ} e.eligible_articles 1)
    × (◌≡◌ {A = ℕ} e.blocked_articles 1)
unfolding source_evaluations
source_page = (_, refl, refl, refl, refl)
