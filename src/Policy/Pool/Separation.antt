-- ===== src/Policy/Pool/Separation.antt =====
-- Client sites and approved sources of one property, under the two writes that could bring them
-- together (app/services/pool_source_policy.py, app/api/routes/sites.py).
use linking_engine_backend.Prelude.{
  ℕ, ◌==◌, ==_iff, ◌≡◌, refl, subst, ap, ◌∙◌, ◌⊎◌, inl, inr, Bool, true, false, not, ◌&&◌, List, [],
  ◌∷◌, ◌++◌, map, if◌then◌else◌, update_where, Result, ok, err, raise_if, >>=-returns, All, In,
  All-In, In-All, In-append, In-update_where, distinct, distinct-injective, Bool-cases, arith,
}
use linking_engine_backend.Policy.Pool.{
  text_eq, Names, Platform, Site, Refusal, is_pool, is_client, is_approved_pool, is_rival,
  same_property, pool_source_domain, shares_property, check_rivals, require_no_pbn_conflict,
  require_allowed_pool_domain, same_base, exists_site, duplicate_site, not_a_pool, create_site,
  approve_pool_source, approve_row,
}

text_eq_sym : (a b : List ℕ) → text_eq a b ≡ text_eq b a
text_eq_sym [] [] = refl
text_eq_sym [] (d ∷ ds) = refl
text_eq_sym (c ∷ cs) [] = refl
text_eq_sym (c ∷ cs) (d ∷ ds) = ground (arith, text_eq_sym cs ds)

-- The rule is the same from either side.
same_property_sym : (a b : List ℕ) → same_property a b ≡ same_property b a
same_property_sym a b = ground (arith, text_eq_sym a b)

module _ (names : Names) where
  abbrev shared : Result Refusal (List ℕ) → Result Refusal (List ℕ) → Bool
  shared (err e) other = false
  shared (ok domain) other = shares_property domain other

  -- `a` is a client's site and `b` an approved source of one property.
  abbrev conflicts : Site → Site → Bool
  conflicts a b =
      is_client a
      && (is_approved_pool b
          && shared (pool_source_domain names a.base_url) (pool_source_domain names b.base_url))

  abbrev pub IsSeparate : List Site → Type 0
  IsSeparate sites = All (λ (a : Site). All (λ (b : Site). conflicts a b ≡ false) sites) sites

  separate :
      (sites : List Site) (a b : Site)
      → IsSeparate sites
      → In a sites
      → In b sites
      → conflicts a b ≡ false
  separate sites a b h i j =
      All-In (λ (y : Site). conflicts a y ≡ false) b sites j
        (All-In (λ (x : Site). All (λ (y : Site). conflicts x y ≡ false) sites) a sites i h)

  IsSeparate-intro :
      (sites : List Site)
      → ((a b : Site) → In a sites → In b sites → conflicts a b ≡ false)
      → IsSeparate sites
  IsSeparate-intro sites f =
      In-All (λ (x : Site). All (λ (y : Site). conflicts x y ≡ false) sites) sites
        (λ a i. In-All (λ (y : Site). conflicts a y ≡ false) sites (λ b j. f a b i j))

  abbrev AllApart : Bool → List ℕ → List Site → Type 0
  AllApart as_pool domain sites =
      All
        (λ (s : Site).
          is_rival as_pool s && shares_property domain (pool_source_domain names s.base_url)
          ≡ false)
        sites

  check_rivals-AllApart :
      (as_pool : Bool) (domain : List ℕ) (sites : List Site)
      → check_rivals names as_pool domain sites ≡ ok tt
      → AllApart as_pool domain sites
  check_rivals-AllApart as_pool domain [] e = tt
  check_rivals-AllApart as_pool domain (s ∷ sites) e =
      elim (Bool-cases
        (is_rival as_pool s && shares_property domain (pool_source_domain names s.base_url))) [
          | inl f ↦ let e' = rw f at e in absurd (ground (arith, e'))
          | inr f ↦ (f, check_rivals-AllApart as_pool domain sites (rw f at e))
        ]

  passed_check :
      (sites : List Site) (base_url : List ℕ) (as_pool : Bool)
      → require_no_pbn_conflict names sites base_url as_pool ≡ ok tt
      → (domain : List ℕ) × (pool_source_domain names base_url ≡ ok domain)
        × AllApart as_pool domain sites
  unfolding require_no_pbn_conflict
  passed_check sites base_url as_pool e =
      let (domain, found, rest) =
        >>=-returns (pool_source_domain names base_url) (λ d. check_rivals names as_pool d sites)
          e in
      (domain, found, check_rivals-AllApart as_pool domain sites rest)

  -- A new site beside separate ones.
  IsSeparate-with :
      (sites : List Site) (new : Site)
      → IsSeparate sites
      → is_approved_pool new ≡ false
      → ((b : Site) → In b sites → conflicts new b ≡ false)
      → IsSeparate (sites ++ new ∷ [])
  IsSeparate-with sites new h plain apart =
      IsSeparate-intro (sites ++ new ∷ [])
        (λ a b i j. pair a b (In-append a sites (new ∷ []) i) (In-append b sites (new ∷ []) j))
    where
      pair :
          (a b : Site)
          → In a sites ⊎ In a (new ∷ [])
          → In b sites ⊎ In b (new ∷ [])
          → conflicts a b ≡ false
      pair a b (inl i) (inl j) = separate sites a b h i j
      pair a b i (inr (inl j)) = rw (j, plain) (ground arith)
      pair a b (inr (inl i)) (inl j) = rw i (apart b j)
      pair a b (inr (inr i)) (inl j) = absurd i
      pair a b i (inr (inr j)) = absurd j

  IsSeparate-client :
      (id tenant_id : ℕ) (base_url : List ℕ) (platform : Platform) (sites : List Site)
      → IsSeparate sites
      → (is_pool platform ≡ true) ⊎ (require_no_pbn_conflict names sites base_url false ≡ ok tt)
      → IsSeparate (
          sites
          ++ record {
            id = id;
            tenant_id = tenant_id;
            base_url = base_url;
            platform = platform;
            pool_source_approved = false;
          }
            ∷ [])
  IsSeparate-client id tenant_id base_url platform sites h (inl e) =
      IsSeparate-with sites _ h (rw e refl) (λ b j. rw e refl)
  IsSeparate-client id tenant_id base_url platform sites h (inr e) =
      let (domain, found, apart) = passed_check sites base_url false e in
      IsSeparate-with sites _ h (ground arith) (λ b j.
        let clear =
          All-In
            (λ (s : Site).
              is_rival false s && shares_property domain (pool_source_domain names s.base_url)
              ≡ false)
            b sites j apart in
        rw found (ground (arith, clear)))

  -- Creating a site, client or source, keeps the client sites and the approved sources on
  -- different properties.
  pub create_site-IsSeparate :
      (id tenant_id : ℕ) (base_url : List ℕ) (platform : Platform) (sites r : List Site)
      → IsSeparate sites
      → create_site names id tenant_id base_url platform sites ≡ ok r
      → IsSeparate r
  unfolding create_site
  create_site-IsSeparate id tenant_id base_url platform sites r h e =
      let (u, unique, e₁) =
        >>=-returns (raise_if (exists_site (same_base tenant_id base_url) sites) duplicate_site) _
          e in
      let (v, checked, e₂) =
        >>=-returns
          (if is_pool platform then ok tt else require_no_pbn_conflict names sites base_url false) _
          e₁ in
      subst IsSeparate (ground (arith, e₂)) (
        IsSeparate-client id tenant_id base_url platform sites h
          (elim (Bool-cases (is_pool platform)) [ inl f ↦ inl f | inr f ↦ inr (rw f at checked) ]))

  shared_sym :
      (other : Result Refusal (List ℕ)) (domain : List ℕ)
      → shared other (ok domain) ≡ shares_property domain other
  shared_sym (err e) domain = refl
  shared_sym (ok d) domain = same_property_sym d domain

  -- A source of the approved one's property beside any site of the table.
  approved_apart :
      (site : Site) (sites : List Site) (domain : List ℕ) (x b : Site)
      → pool_source_domain names site.base_url ≡ ok domain
      → AllApart true domain sites
      → In x sites
      → b.base_url ≡ site.base_url
      → conflicts x b ≡ false
  approved_apart site sites domain x b found apart i base =
      let clear =
        All-In
          (λ (s : Site).
            is_rival true s && shares_property domain (pool_source_domain names s.base_url) ≡ false)
          x sites i apart in
      rw (base, found, shared_sym (pool_source_domain names x.base_url) domain)
        (ground (arith, clear))

  -- Approval leaves what makes a site a client's.
  client_after_approval :
      (t : Bool) (x b : Site) → conflicts (if t then approve_row x else x) b ≡ conflicts x b
  client_after_approval true x b = refl
  client_after_approval false x b = refl

  IsSeparate-approved :
      (site : Site) (sites : List Site) (domain : List ℕ)
      → distinct (map (λ (s : Site). s.id) sites) ≡ true
      → In site sites
      → IsSeparate sites
      → pool_source_domain names site.base_url ≡ ok domain
      → AllApart true domain sites
      → IsSeparate (update_where (λ s. s.id == site.id) approve_row sites)
  IsSeparate-approved site sites domain keys there h found apart =
      IsSeparate-intro (update_where (λ s. s.id == site.id) approve_row sites) (λ a b i j.
        let (x, i', a_is) = In-update_where (λ s. s.id == site.id) approve_row a sites i in
        let (y, j', b_is) = In-update_where (λ s. s.id == site.id) approve_row b sites j in
        rw (a_is, b_is)
          (client_after_approval (x.id == site.id) x (if y.id == site.id then approve_row y else y)
            ∙ rows x y i' j'))
    where
      rows :
          (x y : Site)
          → In x sites
          → In y sites
          → conflicts x (if y.id == site.id then approve_row y else y) ≡ false
      rows x y i j = elim (Bool-cases (y.id == site.id)) [
        | inr f ↦ rw f (separate sites x y h i j)
        | inl f ↦
            let same =
              distinct-injective (λ (s : Site). s.id) y site sites keys j there
                ((==_iff y.id site.id).0 f) in
            rw f (
              approved_apart site sites domain x (approve_row y) found apart i
                (ap (λ (s : Site). s.base_url) same))
      ]

  -- Approving a source that is in the table keeps them on different properties, where the ids are
  -- a primary key.
  pub approve_pool_source-IsSeparate :
      (allowed : List (List ℕ)) (site : Site) (sites r : List Site)
      → distinct (map (λ (s : Site). s.id) sites) ≡ true
      → In site sites
      → IsSeparate sites
      → approve_pool_source names allowed site sites ≡ ok r
      → IsSeparate r
  unfolding approve_pool_source
  approve_pool_source-IsSeparate allowed site sites r keys there h e =
      let (u, is_source, e₁) =
        >>=-returns (raise_if (not (is_pool site.platform)) (not_a_pool site.id)) _ e in
      let (v, ok_domain, e₂) =
        >>=-returns (require_allowed_pool_domain names allowed site.base_url) _ e₁ in
      let (w, checked, e₃) =
        >>=-returns (require_no_pbn_conflict names sites site.base_url true) _ e₂ in
      let (domain, found, apart) = passed_check sites site.base_url true checked in
      subst IsSeparate (ground (arith, e₃))
        (IsSeparate-approved site sites domain keys there h found apart)
