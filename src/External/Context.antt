-- ===== src/External/Context.antt =====
-- The evaluations that the ranker and the policy's page read (`external_target_context` and
-- `source_evaluations` of app/services/external_link_policy.py).
--
-- An article row refers to its site. The pool sites of a page come in the order of the query; the
-- names of sites are left out.
use linking_engine_backend.Prelude.{
  ℕ, ◌==◌, Bool, not, ◌&&◌, Option, none, some, List, [], ◌∷◌, ◌++◌, if◌then◌else◌, select, find,
  count, map, Result, ok, ◌>>=◌,
}
use linking_engine_backend.Policy.Pool.{is_pool}
use linking_engine_backend.External.{Web, InvalidDomain}
use linking_engine_backend.External.Policy.{
  PolicyState, TargetSite, Evaluation, Reason, Checks, policy_state, managed_domains,
  evaluate_external_url,
}

pub record Article : Type 0 where
  pub id : ℕ
  pub site_id : ℕ
  pub url : List ℕ
  pub is_active : Bool

-- An entry of the policy's page
pub record SourceEntry : Type 0 where
  pub site_id : ℕ
  pub domain : Option (List ℕ)
  pub trust_score : ℕ
  pub eligible : Bool
  pub eligible_articles : ℕ
  pub blocked_articles : ℕ
  pub reasons : List Reason
  pub checks : Checks

abbrev pub is_pool_site : TargetSite → Bool
is_pool_site s = is_pool s.site.platform

abbrev pub article_ids : List Article → List ℕ
article_ids articles = map (λ (a : Article). a.id) articles

module _ (web : Web) (today : ℕ) (sites : List TargetSite) where
  abbrev pub site_of : ℕ → Option TargetSite
  site_of n = find (λ (s : TargetSite). s.site.id == n) sites

  abbrev pub is_own : ℕ → Article → Bool
  is_own source a = a.site_id == source && a.is_active

  -- The site of an active article of a pool source.
  abbrev pub pool_site_of : Article → Option TargetSite → Option TargetSite
  pool_site_of a none = none
  pool_site_of a (some s) = if a.is_active && is_pool_site s then some s else none

  abbrev pub with_evaluation :
      Article → Evaluation → List ℕ × List (ℕ × Evaluation) → List ℕ × List (ℕ × Evaluation)
  with_evaluation a e rest = (if e.eligible then a.id ∷ rest.0 else rest.0, (a.id, e) ∷ rest.1)

  abbrev pub evaluate_article :
      PolicyState
      → List (List ℕ)
      → Article
      → Option TargetSite
      → Result InvalidDomain (List ℕ × List (ℕ × Evaluation))
      → Result InvalidDomain (List ℕ × List (ℕ × Evaluation))
  evaluate_article policy owned a none rest = rest
  evaluate_article policy owned a (some s) rest =
      evaluate_external_url web today s a.url policy owned >>= λ e.
      rest >>= λ r. ok (with_evaluation a e r)

  abbrev pub evaluate_articles :
      PolicyState
      → List (List ℕ)
      → List Article
      → Result InvalidDomain (List ℕ × List (ℕ × Evaluation))
  evaluate_articles policy owned [] = ok ([], [])
  evaluate_articles policy owned (a ∷ articles) =
      let rest = evaluate_articles policy owned articles in
      evaluate_article policy owned a (pool_site_of a (site_of a.site_id)) rest

  -- The ids that the ranker may inspect, and the evaluations by id.
  unfoldable pub external_target_context :
      Option PolicyState → ℕ → List Article → Result InvalidDomain (List ℕ × List (ℕ × Evaluation))
  unfolding evaluate_external_url
  external_target_context policy source articles = do
    owned ← managed_domains web today sites
    r ← evaluate_articles (policy_state policy) owned articles
    ok (article_ids (select (is_own source) articles) ++ r.0, r.1)

  abbrev pub evaluate_urls :
      PolicyState
      → List (List ℕ)
      → TargetSite
      → List Article
      → Result InvalidDomain (List Evaluation)
  evaluate_urls policy owned s [] = ok []
  evaluate_urls policy owned s (a ∷ articles) =
      let rest = evaluate_urls policy owned s articles in
      evaluate_external_url web today s a.url policy owned >>= λ e. rest >>= λ es. ok (e ∷ es)

  abbrev pub entry_of : TargetSite → Evaluation → List Evaluation → SourceEntry
  entry_of s base es = record {
    site_id = s.site.id;
    domain = base.domain;
    trust_score = base.trust_score;
    eligible = base.eligible;
    eligible_articles = count (λ (e : Evaluation). e.eligible) es;
    blocked_articles = count (λ (e : Evaluation). not e.eligible) es;
    reasons = base.reasons;
    checks = base.checks;
  }

  abbrev pub source_entries :
      PolicyState
      → List (List ℕ)
      → List Article
      → List TargetSite
      → Result InvalidDomain (List SourceEntry)
  source_entries policy owned articles [] = ok []
  source_entries policy owned articles (s ∷ pool_sites) =
      let rest = source_entries policy owned articles pool_sites in
      evaluate_external_url web today s s.site.base_url policy owned >>= λ base.
      evaluate_urls policy owned s (select (is_own s.site.id) articles) >>= λ es.
      rest >>= λ entries. ok (entry_of s base es ∷ entries)

  unfoldable pub source_evaluations :
      Option PolicyState → List Article → Result InvalidDomain (List SourceEntry)
  unfolding evaluate_external_url
  source_evaluations policy articles = do
    owned ← managed_domains web today sites
    source_entries (policy_state policy) owned articles (select is_pool_site sites)
