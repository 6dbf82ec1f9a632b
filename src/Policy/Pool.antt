-- ===== src/Policy/Pool.antt =====
-- The approval of content-pool sources and the creation of sites
-- (app/services/pool_source_policy.py, and the two handlers of app/api/routes/sites.py that call
-- its check).
--
-- A text is the list of its code points. Outside, and parameters: the `str` methods `strip` and
-- `lower`, the `idna` codec, and the host that `urlsplit` finds. The advisory lock makes a check
-- and the write that it protects one step. Authorization, the audit event and the columns that
-- the check does not read are left out.
pub mod Separation
use linking_engine_backend.Prelude.{
  ℕ, suc, ◌==◌, Bool, true, false, not, ◌&&◌, ◌||◌, Option, none, some, List, [], ◌∷◌, ◌++◌,
  if◌then◌else◌, select, update_where, find, Result, ok, err, raise_if, ◌>>◌, ◌>>=◌,
}

abbrev pub text_eq : List ℕ → List ℕ → Bool
text_eq [] [] = true
text_eq [] (d ∷ ds) = false
text_eq (c ∷ cs) [] = false
text_eq (c ∷ cs) (d ∷ ds) = c == d && text_eq cs ds

abbrev pub starts_with : List ℕ → List ℕ → Bool
starts_with cs [] = true
starts_with [] (p ∷ ps) = false
starts_with (c ∷ cs) (p ∷ ps) = c == p && starts_with cs ps

abbrev pub ends_with : List ℕ → List ℕ → Bool
ends_with [] s = text_eq [] s
ends_with (c ∷ cs) s = text_eq (c ∷ cs) s || ends_with cs s

abbrev pub contains : List ℕ → List ℕ → Bool
contains [] s = starts_with [] s
contains (c ∷ cs) s = starts_with (c ∷ cs) s || contains cs s

-- "."
abbrev pub dot : ℕ
dot = 46

abbrev pub all_dots : List ℕ → Bool
all_dots [] = true
all_dots (c ∷ cs) = c == dot && all_dots cs

-- `text.rstrip(".")`
abbrev pub rstrip_dots : List ℕ → List ℕ
rstrip_dots [] = []
rstrip_dots (c ∷ cs) = let rest = rstrip_dots cs in if all_dots (c ∷ cs) then [] else c ∷ rest

-- `text.removeprefix("*.")`
abbrev pub without_wildcard : List ℕ → List ℕ
without_wildcard [] = []
without_wildcard (c ∷ []) = c ∷ []
without_wildcard (c ∷ d ∷ cs) = if c == 42 && d == dot then cs else c ∷ d ∷ cs

pub record Names : Type 0 where
  pub strip : List ℕ → List ℕ
  pub lower : List ℕ → List ℕ
  pub idna : List ℕ → Option (List ℕ)
  -- `urlsplit(url).hostname`, for a URL that `urlsplit` accepts
  pub hostname : List ℕ → Option (List ℕ)

pub data Platform : Type 0 where
  wordpress html pool : Platform

abbrev pub is_pool : Platform → Bool
is_pool p = elim p [ Platform.pool ↦ true | _ ↦ false ]

pub record Site : Type 0 where
  pub id : ℕ
  pub tenant_id : ℕ
  pub base_url : List ℕ
  pub platform : Platform
  pub pool_source_approved : Bool

-- PoolSourcePolicyError, and the other conflicts of the two handlers
pub data Refusal : Type 0 where
  invalid_domain : List ℕ → Refusal
  no_domain : List ℕ → Refusal
  domain_not_allowed : List ℕ → Refusal
  held_by_client : List ℕ → Refusal
  held_by_pool : List ℕ → Refusal
  duplicate_site : Refusal
  not_a_pool : ℕ → Refusal

abbrev pub is_empty_text : List ℕ → Bool
is_empty_text [] = true
is_empty_text (c ∷ cs) = false

-- `_same_property`
abbrev pub same_property : List ℕ → List ℕ → Bool
same_property left right =
    text_eq left right || (ends_with left (dot ∷ right) || ends_with right (dot ∷ left))

-- The rows that a site of the one kind must not share a property with.
abbrev pub is_client : Site → Bool
is_client s = not (is_pool s.platform)

abbrev pub is_approved_pool : Site → Bool
is_approved_pool s = is_pool s.platform && s.pool_source_approved

abbrev pub is_rival : Bool → Site → Bool
is_rival true s = is_client s
is_rival false s = is_approved_pool s

-- `any` over the configured domains, which are normalized when they are read
abbrev pub is_under : List ℕ → List (List ℕ) → Bool
is_under host [] = false
is_under host (domain ∷ domains) =
    text_eq host domain || (ends_with host (dot ∷ domain) || is_under host domains)

-- A stored URL without a domain is passed over.
abbrev pub shares_property : List ℕ → Result Refusal (List ℕ) → Bool
shares_property domain (err e) = false
shares_property domain (ok other) = same_property domain other

abbrev pub held : Bool → List ℕ → Refusal
held true domain = held_by_client domain
held false domain = held_by_pool domain

abbrev pub same_base : ℕ → List ℕ → Site → Bool
same_base tenant_id base_url s = text_eq s.base_url base_url && s.tenant_id == tenant_id

abbrev pub exists_site : (Site → Bool) → List Site → Bool
exists_site p [] = false
exists_site p (s ∷ sites) = p s || exists_site p sites

abbrev pub approve_row : Site → Site
approve_row s = record s { pool_source_approved = true }

module _ (names : Names) where
  abbrev pub encoded : List ℕ → Option (List ℕ) → Result Refusal (List ℕ)
  encoded value none = err (invalid_domain value)
  encoded value (some domain) = ok domain

  -- `_normalize_domain`
  abbrev pub normalize_domain : List ℕ → Result Refusal (List ℕ)
  normalize_domain value =
      let domain = without_wildcard (rstrip_dots (names.lower (names.strip value))) in
      if is_empty_text domain || (contains domain (47 ∷ []) || contains domain (58 ∷ 47 ∷ 47 ∷ []))
      then err (invalid_domain value)
      else encoded value (names.idna domain)

  abbrev pub domain_of_host : List ℕ → Option (List ℕ) → Result Refusal (List ℕ)
  domain_of_host url none = err (no_domain url)
  domain_of_host url (some host) =
      if is_empty_text host then err (no_domain url) else normalize_domain host

  unfoldable pub pool_source_domain : List ℕ → Result Refusal (List ℕ)
  pool_source_domain url = domain_of_host url (names.hostname url)

  abbrev pub require_allowed_pool_domain : List (List ℕ) → List ℕ → Result Refusal (Unit {0})
  require_allowed_pool_domain allowed url = do
    host ← pool_source_domain url
    raise_if (not (is_under host allowed)) (domain_not_allowed host)

  abbrev pub check_rivals : Bool → List ℕ → List Site → Result Refusal (Unit {0})
  check_rivals as_pool domain [] = ok tt
  check_rivals as_pool domain (s ∷ sites) =
      let rest = check_rivals as_pool domain sites in
      if is_rival as_pool s && shares_property domain (pool_source_domain s.base_url)
      then err (held as_pool domain)
      else rest

  unfoldable pub require_no_pbn_conflict : List Site → List ℕ → Bool → Result Refusal (Unit {0})
  require_no_pbn_conflict sites base_url as_pool = do
    domain ← pool_source_domain base_url
    check_rivals as_pool domain sites

  -- `create_site`; a new source is not approved
  unfoldable pub create_site : ℕ → ℕ → List ℕ → Platform → List Site → Result Refusal (List Site)
  create_site id tenant_id base_url platform sites = do
    raise_if (exists_site (same_base tenant_id base_url) sites) duplicate_site
    if is_pool platform then ok tt else require_no_pbn_conflict sites base_url false
    ok (
        sites
        ++ record {
          id = id;
          tenant_id = tenant_id;
          base_url = base_url;
          platform = platform;
          pool_source_approved = false;
        }
          ∷ [])

  -- `approve_pool_source` on the row that the route has loaded
  unfoldable pub approve_pool_source : List (List ℕ) → Site → List Site → Result Refusal (List Site)
  approve_pool_source allowed site sites = do
    raise_if (not (is_pool site.platform)) (not_a_pool site.id)
    require_allowed_pool_domain allowed site.base_url
    require_no_pbn_conflict sites site.base_url true
    ok (update_where (λ s. s.id == site.id) approve_row sites)
