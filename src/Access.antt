-- ===== src/Access.antt =====
-- API keys and the scope of a caller (app/services/authorization.py).
--
-- A key is an ASCII text, as the list of its codes; outside, and parameters: the keyed digest (HMAC-SHA-256
-- with the pepper), the random parts of a key, the clock. An exception is its HTTP status. The
-- refusal to mint a key without a pepper, the query filters and the log lines are left out.
pub mod Keys
mod Tests
use linking_engine_backend.Prelude.{
  ℕ, ◌+◌, ◌==◌, Bool, true, false, not, ◌&&◌, ◌||◌, String, str_eq, Option, none, some, List, [],
  ◌∷◌, ◌++◌, ltb, leb, if◌then◌else◌, is_none, is_some_of, update_where, find, map, Result, ok, err,
  raise_if, ◌>>=◌, ◌>>◌, take,
}
use linking_engine_backend.Policy.Pool.{Site, Platform, is_pool, text_eq, is_empty_text}

-- HTTPException, by its status code
pub data HttpException : Type 0 where
  http : ℕ → HttpException

pub data Source : Type 0 where
  legacy_env operator db : Source

pub record Principal : Type 0 where
  pub is_admin : Bool
  pub source : Source
  pub tenant_id : Option ℕ
  pub key_id : Option ℕ
  pub operator_id : Option String

-- A row of `api_keys`
pub record ApiKey : Type 0 where
  pub id : ℕ
  pub tenant_id : Option ℕ
  pub prefix : List ℕ
  pub secret_hash : String
  pub is_admin : Bool
  pub expires_at : Option ℕ
  pub revoked_at : Option ℕ
  pub last_used_at : Option ℕ

-- The keys of the environment; an empty `api_key` is not configured.
pub record AuthSettings : Type 0 where
  pub api_key : List ℕ
  pub operator_api_keys : List (String × List ℕ)

-- "_"
abbrev pub underscore : ℕ
underscore = 95

-- The text before the first separator, and the text after it if there is one.
abbrev pub cut : ℕ → List ℕ → List ℕ × Option (List ℕ)
cut sep [] = ([], none)
cut sep (c ∷ cs) = let rest = cut sep cs in if c == sep then ([], some cs) else (c ∷ rest.0, rest.1)

-- `len(parts) != 4 or parts[0] != "lm" or not parts[2]`, where three cuts give four parts
abbrev pub prefix_of_parts : List ℕ → List ℕ → Option (List ℕ) → Option (List ℕ)
prefix_of_parts product prefix none = none
prefix_of_parts product prefix (some secret) =
    if not (text_eq product (108 ∷ 109 ∷ [])) || is_empty_text prefix then none else some prefix

abbrev pub cut_prefix : List ℕ → Option (List ℕ) → Option (List ℕ)
cut_prefix product none = none
cut_prefix product (some rest) =
    let parts = cut underscore rest in prefix_of_parts product parts.0 parts.1

abbrev pub cut_environment : List ℕ → Option (List ℕ) → Option (List ℕ)
cut_environment product none = none
cut_environment product (some rest) = cut_prefix product (cut underscore rest).1

unfoldable pub parse_key_prefix : List ℕ → Option (List ℕ)
parse_key_prefix raw_key = let parts = cut underscore raw_key in cut_environment parts.0 parts.1

-- `text.replace("_", "-")`
abbrev pub dashes : List ℕ → List ℕ
dashes cs = map (λ c. if c == underscore then 45 else c) cs

-- The text of a new key, from its environment, the random prefix and the random secret.
unfoldable pub key_text : List ℕ → List ℕ → List ℕ → List ℕ
key_text environment prefix secret =
    (108 ∷ 109 ∷ underscore ∷ [])
    ++ (dashes (take 12 environment) ++ underscore ∷ (prefix ++ underscore ∷ secret))

-- `last_used_at` is written at most once a minute.
abbrev pub last_used_refresh : ℕ
last_used_refresh = 60

abbrev pub is_recent : ℕ → Option ℕ → Bool
is_recent now none = false
is_recent now (some previous) = ltb now (previous + last_used_refresh)

abbrev pub unauthorized : HttpException
unauthorized = http 401

module _ (hash_api_key : List ℕ → String) (settings : AuthSettings) (now : ℕ) where
  -- A failing commit leaves the rows as they are.
  abbrev pub touch_last_used : Bool → ApiKey → List ApiKey → List ApiKey
  touch_last_used commits key keys =
      if is_recent now key.last_used_at || not commits
      then keys
      else update_where (λ k. k.id == key.id) (λ k. record k { last_used_at = some now }) keys

  abbrev pub has_expired : Option ℕ → Bool
  has_expired none = false
  has_expired (some t) = leb t now

  -- An administrator's key has no scope, and any other has one.
  abbrev pub is_misscoped : ApiKey → Bool
  is_misscoped key = if key.is_admin then not (is_none key.tenant_id) else is_none key.tenant_id

  abbrev pub principal_of : ApiKey → Principal
  principal_of key = record {
    is_admin = key.is_admin;
    source = Source.db;
    tenant_id = key.tenant_id;
    key_id = some key.id;
    operator_id = none;
  }

  abbrev pub with_key :
      Bool → List ℕ → Option ApiKey → List ApiKey → Result HttpException (Principal × List ApiKey)
  with_key commits raw_key none keys = err unauthorized
  with_key commits raw_key (some key) keys = do
    raise_if (not (is_none key.revoked_at)) unauthorized
    raise_if (has_expired key.expires_at) unauthorized
    raise_if (not (str_eq key.secret_hash (hash_api_key raw_key))) unauthorized
    raise_if (is_misscoped key) unauthorized
    ok (principal_of key, touch_last_used commits key keys)

  abbrev pub with_prefix :
      Bool → List ℕ → Option (List ℕ) → List ApiKey → Result HttpException (Principal × List ApiKey)
  with_prefix commits raw_key none keys = err unauthorized
  with_prefix commits raw_key (some prefix) keys =
      with_key commits raw_key (find (λ (k : ApiKey). text_eq k.prefix prefix) keys) keys

  abbrev pub operator_of : List ℕ → List (String × List ℕ) → Option String
  operator_of raw_key [] = none
  operator_of raw_key ((name, key) ∷ rest) =
      let other = operator_of raw_key rest in if text_eq raw_key key then some name else other

  abbrev pub env_principal : Option String → Principal
  env_principal operator_id = record {
    is_admin = true;
    source = elim operator_id [ none ↦ Source.legacy_env | some name ↦ Source.operator ];
    tenant_id = none;
    key_id = none;
    operator_id = operator_id;
  }

  abbrev pub with_operator :
      Bool → List ℕ → Option String → List ApiKey → Result HttpException (Principal × List ApiKey)
  with_operator commits raw_key (some name) keys = ok (env_principal (some name), keys)
  with_operator commits raw_key none keys =
      with_prefix commits raw_key (parse_key_prefix raw_key) keys

  abbrev pub has_no_rows : List ApiKey → Bool
  has_no_rows [] = true
  has_no_rows (k ∷ keys) = false

  abbrev pub has_no_operators : List (String × List ℕ) → Bool
  has_no_operators [] = true
  has_no_operators (k ∷ keys) = false

  abbrev pub with_header :
      Bool → Option (List ℕ) → List ApiKey → Result HttpException (Principal × List ApiKey)
  with_header commits none keys = err unauthorized
  with_header commits (some raw_key) keys =
      if not (is_empty_text settings.api_key) && text_eq raw_key settings.api_key
      then ok (env_principal none, keys)
      else with_operator commits raw_key (operator_of raw_key settings.operator_api_keys) keys

  -- The caller, and the keys with the use recorded; `commits` tells whether that commit succeeds.
  unfoldable pub authenticate_api_key :
      Bool → Option (List ℕ) → List ApiKey → Result HttpException (Principal × List ApiKey)
  unfolding parse_key_prefix
  authenticate_api_key commits raw_key keys = do
    raise_if
        (is_empty_text settings.api_key
          && (has_no_operators settings.operator_api_keys && has_no_rows keys))
        (http 503)
    with_header commits raw_key keys

abbrev pub require_admin_principal : Principal → Result HttpException (Unit {0})
require_admin_principal principal = raise_if (not principal.is_admin) (http 403)

-- `check_site_access`, and the test on the scope that the other checks share
abbrev pub check_site_access : Principal → ℕ → Result HttpException (Unit {0})
check_site_access principal tenant_id =
    raise_if (not (principal.is_admin || is_some_of principal.tenant_id tenant_id)) (http 403)

abbrev pub authorize_found : Principal → Option Site → Result HttpException Site
authorize_found principal none = err (http 404)
authorize_found principal (some site) = do
  raise_if (not principal.is_admin && is_pool site.platform) (http 403)
  check_site_access principal site.tenant_id
  ok site

-- `db.get(Site, site_id)`
abbrev pub site_by_id : ℕ → List Site → Option Site
site_by_id n sites = find (λ (s : Site). s.id == n) sites

unfoldable pub authorize_site : List Site → Principal → ℕ → Result HttpException Site
authorize_site sites principal site_id = authorize_found principal (site_by_id site_id sites)

abbrev pub authorize_read_found : Principal → Option Site → Result HttpException Site
authorize_read_found principal none = err (http 404)
authorize_read_found principal (some site) =
    if principal.is_admin || is_pool site.platform
    then ok site
    else do check_site_access principal site.tenant_id; ok site

unfoldable pub authorize_site_read : List Site → Principal → ℕ → Result HttpException Site
authorize_site_read sites principal site_id =
    authorize_read_found principal (site_by_id site_id sites)

abbrev pub require_creatable_platform : Principal → Platform → Result HttpException (Unit {0})
require_creatable_platform principal platform =
    raise_if (not (not (is_pool platform) || principal.is_admin)) (http 403)

-- `_tenant_scope` of app/api/routes/suggestions.py: no scope for an administrator
abbrev pub tenant_scope : Principal → Result HttpException (Option ℕ)
tenant_scope principal =
    if principal.is_admin
    then ok none
    else elim principal.tenant_id [ none ↦ err (http 403) | some t ↦ ok (some t) ]
