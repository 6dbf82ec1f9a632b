-- ===== src/External/Expiry.antt =====
-- The expiry of suggestions that the policy no longer allows
-- (`expire_ineligible_external_suggestions` of app/services/external_link_policy.py).
--
-- A suggestion comes with its target article, as the query loads it. `statuses` is the set that the
-- caller gives ("pending" and "approved" by default). An actor's name is not cut, and the details of
-- an event that repeat the evaluation are left out.
use linking_engine_backend.Prelude.{
  ℕ, ◌==◌, Bool, true, false, ◌&&◌, String, Option, none, some, List, [], ◌∷◌, if◌then◌else◌, find,
  Result, ok, err, ◌>>=◌,
}
use linking_engine_backend.Publication.Rows.{Suggestion, SuggestionStatus}
use linking_engine_backend.External.{Web, InvalidDomain}
use linking_engine_backend.External.Policy.{
  PolicyState, TargetSite, Evaluation, WebEvaluation, policy_state, managed_domains,
  evaluate_external_url, evaluate_web_search_url,
}

-- The columns of the target article
pub record Target : Type 0 where
  pub site_id : ℕ
  pub url : List ℕ

pub record Candidate : Type 0 where
  pub suggestion : Suggestion
  pub external_url : Option (List ℕ)
  pub target : Option Target

-- SuggestionEvent "policy_expired"
pub record PolicyExpired : Type 0 where
  pub suggestion_id : ℕ
  pub actor : String
  pub from_status : SuggestionStatus
  pub created_at : ℕ

pub data ExpiryError : Type 0 where
  bad_domain : InvalidDomain → ExpiryError
  missing_site : ℕ → ExpiryError

abbrev pub expired_row : Candidate → Candidate
expired_row c = record c {
  suggestion = record (c.suggestion) { status = SuggestionStatus.expired };
}

-- Nothing to judge, or whether the target is still eligible.
pub data Verdict : Type 0 where
  passed_over : Verdict
  judged : Bool → Verdict

abbrev pub web_verdict : Result InvalidDomain WebEvaluation → Result ExpiryError Verdict
web_verdict (err e) = err (bad_domain e)
web_verdict (ok e) = ok (judged e.eligible)

abbrev pub pool_verdict : Result InvalidDomain Evaluation → Result ExpiryError Verdict
pool_verdict (err e) = err (bad_domain e)
pool_verdict (ok e) = ok (judged e.eligible)

abbrev pub owned_or_error :
    Result InvalidDomain (List (List ℕ)) → Result ExpiryError (List (List ℕ))
owned_or_error (err e) = err (bad_domain e)
owned_or_error (ok ds) = ok ds

module _ (web : Web) (today now : ℕ) (actor : String) (statuses : SuggestionStatus → Bool)
    (site_id : ℕ) (sites : List TargetSite) where
  abbrev pub site_verdict :
      PolicyState → List (List ℕ) → Target → Option TargetSite → Result ExpiryError Verdict
  site_verdict policy owned t none = err (missing_site t.site_id)
  site_verdict policy owned t (some s) =
      if s.site.id == site_id
      then ok passed_over
      else pool_verdict (evaluate_external_url web today s t.url policy owned)

  abbrev pub target_verdict :
      PolicyState → List (List ℕ) → Option Target → Result ExpiryError Verdict
  target_verdict policy owned none = ok passed_over
  target_verdict policy owned (some t) =
      site_verdict policy owned t (find (λ (s : TargetSite). s.site.id == t.site_id) sites)

  abbrev pub verdict_of :
      PolicyState → List (List ℕ) → Option (List ℕ) → Option Target → Result ExpiryError Verdict
  verdict_of policy owned (some url) t =
      web_verdict (evaluate_web_search_url web today url policy owned)
  verdict_of policy owned none t = target_verdict policy owned t

  abbrev pub is_checked : Candidate → Bool
  is_checked c = c.suggestion.site_id == site_id && statuses c.suggestion.status

  abbrev pub event_of : Candidate → PolicyExpired
  event_of c = record {
    suggestion_id = c.suggestion.id;
    actor = actor;
    from_status = c.suggestion.status;
    created_at = now;
  }

  abbrev pub applied :
      Candidate
      → Verdict
      → List Candidate × List PolicyExpired
      → List Candidate × List PolicyExpired
  applied c passed_over (rows, events) = (c ∷ rows, events)
  applied c (judged true) (rows, events) = (c ∷ rows, events)
  applied c (judged false) (rows, events) = (expired_row c ∷ rows, event_of c ∷ events)

  abbrev pub checked_verdict : PolicyState → List (List ℕ) → Candidate → Result ExpiryError Verdict
  checked_verdict policy owned c =
      if is_checked c then verdict_of policy owned c.external_url c.target else ok passed_over

  abbrev pub expire_rows :
      PolicyState
      → List (List ℕ)
      → List Candidate
      → Result ExpiryError (List Candidate × List PolicyExpired)
  expire_rows policy owned [] = ok ([], [])
  expire_rows policy owned (c ∷ rows) =
      let rest = expire_rows policy owned rows in
      checked_verdict policy owned c >>= λ v. rest >>= λ r. ok (applied c v r)

  -- The rows, and the events, whose number is the result of the function.
  unfoldable pub expire_ineligible_external_suggestions :
      Option PolicyState → List Candidate → Result ExpiryError (List Candidate × List PolicyExpired)
  unfolding evaluate_external_url evaluate_web_search_url
  expire_ineligible_external_suggestions policy rows = do
    owned ← owned_or_error (managed_domains web today sites)
    expire_rows (policy_state policy) owned rows
