-- ===== src/External/Inspection.antt =====
-- What the ranker may inspect (`external_target_context` of app/services/external_link_policy.py).
use linking_engine_backend.Prelude.{
  ℕ, ◌≡◌, refl, sym, subst, true, ◌&&◌, Option, none, some, List, [], ◌∷◌, ◌++◌, if◌then◌else◌,
  select, ok, >>=-returns, In, In-append, In-map, In-select, Bool-cases, inl, inr, ◌⊎◌, arith,
}
use linking_engine_backend.External.{Web}
use linking_engine_backend.External.Policy.{
  PolicyState, TargetSite, Evaluation, policy_state, managed_domains, evaluate_external_url,
}
use linking_engine_backend.External.Safety.{IsSafe, evaluate_external_url-IsSafe}
use linking_engine_backend.External.Context.{
  Article, is_pool_site, article_ids, site_of, is_own, pool_site_of, evaluate_article,
  evaluate_articles, external_target_context,
}

module _ (web : Web) (today : ℕ) (sites : List TargetSite) where
  -- An active article of a pool source that the policy finds safe.
  abbrev pub IsSafeArticle : PolicyState → List (List ℕ) → List Article → ℕ → Type 0
  IsSafeArticle policy owned articles n =
      (a : Article) × In a articles
      × (a.id ≡ n)
      × (a.is_active ≡ true)
      × IsSafe web today policy owned a.url

  abbrev pub IsOwnArticle : ℕ → List Article → ℕ → Type 0
  IsOwnArticle source articles n =
      (a : Article) × In a articles × (a.id ≡ n) × (is_own web today sites source a ≡ true)

  pool_site_of-is_active :
      (a : Article) (o : Option TargetSite) (s : TargetSite)
      → pool_site_of web today sites a o ≡ some s
      → a.is_active ≡ true
  pool_site_of-is_active a none s e = absurd (ground arith)
  pool_site_of-is_active a (some t) s e = elim (Bool-cases (a.is_active && is_pool_site t)) [
    | inl y ↦ ground (arith, y)
    | inr n ↦ absurd (ground (arith, rw n at e))
  ]

  later :
      (policy : PolicyState) (owned : List (List ℕ)) (a : Article) (articles : List Article) (n : ℕ)
      → IsSafeArticle policy owned articles n
      → IsSafeArticle policy owned (a ∷ articles) n
  later policy owned a articles n (b, i, same, active, safe) = (b, inr i, same, active, safe)

  evaluate_articles-IsSafeArticle :
      (policy : PolicyState) (owned : List (List ℕ)) (articles : List Article)
      (r : List ℕ × List (ℕ × Evaluation)) (n : ℕ)
      → evaluate_articles web today sites policy owned articles ≡ ok r
      → In n r.0
      → IsSafeArticle policy owned articles n
  evaluate_articles-IsSafeArticle policy owned [] r n e i =
      let same : r.0 ≡ [] = ground (arith, e) in absurd (rw same at i)
  evaluate_articles-IsSafeArticle policy owned (a ∷ articles) r n e i =
      found (pool_site_of web today sites a (site_of web today sites a.site_id)) refl e (λ r' f j.
        later policy owned a articles n
          (evaluate_articles-IsSafeArticle policy owned articles r' n f j))
    where
      found :
          (o : Option TargetSite)
          → pool_site_of web today sites a (site_of web today sites a.site_id) ≡ o
          → evaluate_article web today sites policy owned a o
              (evaluate_articles web today sites policy owned articles)
            ≡ ok r
          → ((r' : List ℕ × List (ℕ × Evaluation))
              → evaluate_articles web today sites policy owned articles ≡ ok r'
              → In n r'.0
              → IsSafeArticle policy owned (a ∷ articles) n)
          → IsSafeArticle policy owned (a ∷ articles) n
      found none f g rec = rec r g i
      found (some s) f g rec =
          let (x, evaluated, g₁) =
            >>=-returns (evaluate_external_url web today s a.url policy owned) _ g in
          let (r', rest, g₂) =
            >>=-returns (evaluate_articles web today sites policy owned articles) _ g₁ in
          let ids : (if x.eligible then a.id ∷ r'.0 else r'.0) ≡ r.0 = ground (arith, g₂) in
          elim (Bool-cases x.eligible) [
            | inl y ↦ elim (subst (In n) (sym (rw y at ids)) i) [
              | inl same ↦ (
                a,
                inl refl,
                sym same,
                pool_site_of-is_active a (site_of web today sites a.site_id) s f,
                evaluate_external_url-IsSafe web today policy owned s a.url x evaluated y,
              )
              | inr j ↦ rec r' rest j
            ]
            | inr m ↦ rec r' rest (subst (In n) (sym (rw m at ids)) i)
          ]

  -- Each target that the ranker may inspect for a site is one of the site's own active articles, or
  -- an active article that passes the site's policy: the policy lets links out, and its URL has a
  -- domain outside the blocklist, the competitors and the managed sites, and HTTPS where the policy
  -- asks for it.
  pub external_target_context-IsSafeArticle :
      (policy : Option PolicyState) (source : ℕ) (articles : List Article)
      (r : List ℕ × List (ℕ × Evaluation)) (n : ℕ)
      → external_target_context web today sites policy source articles ≡ ok r
      → In n r.0
      → IsOwnArticle source articles n
        ⊎ ((owned : List (List ℕ)) × (managed_domains web today sites ≡ ok owned)
            × IsSafeArticle (policy_state policy) owned articles n)
  unfolding external_target_context
  external_target_context-IsSafeArticle policy source articles r n e i =
      let (owned, managed, e₁) = >>=-returns (managed_domains web today sites) _ e in
      let (r', evaluated, e₂) =
        >>=-returns (evaluate_articles web today sites (policy_state policy) owned articles) _ e₁ in
      let own = article_ids (select (is_own web today sites source) articles) in
      let ids : own ++ r'.0 ≡ r.0 = ground (arith, e₂) in
      elim (In-append n own r'.0 (subst (In n) (sym ids) i)) [
        | inl j ↦
            let (a, k, same) =
              In-map (λ (x : Article). x.id) n (select (is_own web today sites source) articles)
                j in
            let (there, own_active) = In-select (is_own web today sites source) a articles k in
            inl (a, there, sym same, own_active)
        | inr j ↦ inr (
          owned,
          managed,
          evaluate_articles-IsSafeArticle (policy_state policy) owned articles r' n evaluated j,
        )
      ]
