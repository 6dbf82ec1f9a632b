-- ===== src/Access/Tests.antt =====
-- A minted key, and the callers it admits.
use linking_engine_backend.Prelude.{
  take, if◌then◌else◌, ℕ, ◌≡◌, refl, true, false, String, none, some, List, [], ◌∷◌, ok, err,
}
use linking_engine_backend.Policy.Pool.{text_eq}
use linking_engine_backend.Access.{
  ApiKey, AuthSettings, Principal, Source, http, key_text, authenticate_api_key,
}
use linking_engine_backend.Access.Keys.{
  StandsFor, authenticate_api_key-key_text, authenticate_api_key-StandsFor,
}

-- A digest that only sees the product of a key.
abbrev digest : List ℕ → String
digest cs = if text_eq (take 2 cs) (108 ∷ 109 ∷ []) then "minted" else "other"

abbrev settings : AuthSettings
settings = record { api_key = 120 ∷ []; operator_api_keys = ("alice", 121 ∷ []) ∷ [] }

abbrev row : ApiKey
row = record {
  id = 3;
  tenant_id = some 1;
  prefix = 97 ∷ 98 ∷ [];
  secret_hash = "minted";
  is_admin = false;
  expires_at = some 100;
  revoked_at = none;
  last_used_at = none;
}

-- lm_l-e_ab_z_y
abbrev raw_key : List ℕ
raw_key = 108 ∷ 109 ∷ 95 ∷ 108 ∷ 45 ∷ 101 ∷ 95 ∷ 97 ∷ 98 ∷ 95 ∷ 122 ∷ 95 ∷ 121 ∷ []

abbrev caller : Principal
caller = record {
  is_admin = false;
  source = Source.db;
  tenant_id = some 1;
  key_id = some 3;
  operator_id = none;
}

abbrev touched : ApiKey
touched = record row { last_used_at = some 50 }

minted_text : key_text (108 ∷ 95 ∷ 101 ∷ []) (97 ∷ 98 ∷ []) (122 ∷ 95 ∷ 121 ∷ []) ≡ raw_key
unfolding key_text
minted_text = refl

minted_is_admitted :
    authenticate_api_key digest settings 50 true (some raw_key) (row ∷ [])
    ≡ ok (caller, touched ∷ [])
unfolding authenticate_api_key
minted_is_admitted = refl

expired_is_refused :
    authenticate_api_key digest settings 100 true (some raw_key) (row ∷ []) ≡ err (http 401)
unfolding authenticate_api_key
expired_is_refused = refl

authenticate_api_key-key_text_example :
    authenticate_api_key digest settings 50 true
      (some (key_text (108 ∷ 95 ∷ 101 ∷ []) (97 ∷ 98 ∷ []) (122 ∷ 95 ∷ 121 ∷ [])))
      (row ∷ [])
    ≡ ok (caller, touched ∷ [])
unfolding key_text
authenticate_api_key-key_text_example =
    authenticate_api_key-key_text digest settings 50 true (108 ∷ 95 ∷ 101 ∷ []) (97 ∷ 98 ∷ [])
      (122 ∷ 95 ∷ 121 ∷ []) row (row ∷ []) refl refl refl refl refl refl refl refl refl

authenticate_api_key-StandsFor_example :
    (raw : List ℕ) × (some raw_key ≡ some raw) × StandsFor digest settings 50 raw (row ∷ []) caller
authenticate_api_key-StandsFor_example =
    authenticate_api_key-StandsFor digest settings 50 true (some raw_key) (row ∷ []) (touched ∷ [])
      caller minted_is_admitted
