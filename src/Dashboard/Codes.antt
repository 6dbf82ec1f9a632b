-- ===== src/Dashboard/Codes.antt =====
-- One-time login codes and sessions (app/services/dashboard_auth.py).
--
-- A text that the code takes apart is the list of its code points. Outside, and parameters: the
-- case mapping and the alphanumeric test of Python's `str`, the keyed digests of codes and
-- tokens (HMAC-SHA-256 with the pepper), the random characters of a code and the random token.
pub mod Spending
pub mod Trading
pub mod Issuing
use linking_engine_backend.Prelude.{
  ℕ, zero, suc, ◌+◌, ◌*◌, ◌==◌, Bool, true, false, not, ◌&&◌, ◌||◌, String, str_eq, Option, none,
  some, List, [], ◌∷◌, ◌++◌, ltb, leb, if◌then◌else◌, is_none, is_some_of, select, update_where,
  find, count, length,
}
use linking_engine_backend.Dashboard.Rows.{
  DashboardUser, UserStatus, LoginNonce, DashboardSession, Desk, is_admitted, user_by_telegram,
  user_by_id,
}

-- What the module takes from outside, and its settings (in seconds).
pub record Outside : Type 0 where
  pub upper : List ℕ → List ℕ
  pub is_alnum : ℕ → Bool
  pub code_digest : List ℕ → String
  pub token_digest : String → String
  pub nonce_ttl : ℕ
  pub session_ttl : ℕ

-- _LOGIN_CODE_GROUPS * _LOGIN_CODE_GROUP_SIZE
abbrev pub code_length : ℕ
code_length = 3 * 4

-- "-"
abbrev pub dash : ℕ
dash = 45

-- `"-".join` of the groups of four, with `n` characters to go in the first group
abbrev pub dashed_from : ℕ → List ℕ → List ℕ
dashed_from n [] = []
dashed_from zero (c ∷ cs) = dash ∷ c ∷ dashed_from 3 cs
dashed_from (suc n) (c ∷ cs) = c ∷ dashed_from n cs

abbrev pub dashed : List ℕ → List ℕ
dashed compact = dashed_from 4 compact

-- `upsert_user_request`
abbrev pub refreshed_user : Option String → Option String → DashboardUser → DashboardUser
refreshed_user username display_name u = record u {
  username = elim username [ none ↦ u.username | some name ↦ some name ];
  display_name = elim display_name [ none ↦ u.display_name | some name ↦ some name ];
}

abbrev pub new_user : ℕ → ℕ → Option String → Option String → DashboardUser
new_user id telegram_id username display_name = record {
  id = id;
  telegram_id = telegram_id;
  username = username;
  display_name = display_name;
  status = UserStatus.pending;
  is_admin = false;
  approved_at = none;
  approved_by = none;
  revoked_at = none;
  last_seen_at = none;
}

abbrev pub add_user : DashboardUser → Desk → Desk
add_user u db = record db { users = db.users ++ u ∷ []; next_user = suc db.next_user }

abbrev pub upsert_found :
    ℕ → Option String → Option String → Option DashboardUser → Desk → DashboardUser × Desk
upsert_found telegram_id username display_name none db =
    let u = new_user db.next_user telegram_id username display_name in (u, add_user u db)
upsert_found telegram_id username display_name (some u) db = (
  refreshed_user username display_name u,
  record db {
    users = update_where (λ x. x.id == u.id) (refreshed_user username display_name) db.users;
  },
)

abbrev pub upsert_user_request : ℕ → Option String → Option String → Desk → DashboardUser × Desk
upsert_user_request telegram_id username display_name db =
    upsert_found telegram_id username display_name (user_by_telegram telegram_id db.users) db

abbrev pub is_unspent_of : ℕ → LoginNonce → Bool
is_unspent_of telegram_id n = is_some_of n.telegram_id telegram_id && is_none n.consumed_at

abbrev pub is_unspent : ℕ → LoginNonce → Bool
is_unspent id n = n.id == id && is_none n.consumed_at

abbrev pub seen_user : ℕ → DashboardUser → DashboardUser
seen_user now u = record u { last_seen_at = some now }

abbrev pub spent_row : ℕ → LoginNonce → LoginNonce
spent_row now n = record n { consumed_at = some now }

-- LoginOutcome
pub data LoginOutcome : Type 0 where
  approved : String → DashboardUser → LoginOutcome
  revoked : DashboardUser → LoginOutcome
  invalid : LoginOutcome

module _ (o : Outside) where
  abbrev pub normalize_login_code : List ℕ → List ℕ
  normalize_login_code code = select o.is_alnum (o.upper code)

  abbrev pub hash_login_code : List ℕ → String
  hash_login_code code = o.code_digest (normalize_login_code code)

  -- `compact` holds the random characters.
  abbrev pub issue_code :
      ℕ → ℕ → List ℕ → DashboardUser × Desk → (DashboardUser × Option (List ℕ)) × Desk
  issue_code now telegram_id compact (u, db) =
      if not (is_admitted u.status) then ((u, none), db) else (
        (u, some (dashed compact)),
        record db {
          nonces =
              update_where (is_unspent_of telegram_id) (spent_row now) db.nonces
              ++ record {
                id = db.next_nonce;
                nonce = hash_login_code (dashed compact);
                telegram_id = some telegram_id;
                bound_at = some now;
                expires_at = now + o.nonce_ttl;
                consumed_at = none;
              }
                ∷ [];
          next_nonce = suc db.next_nonce;
        },
      )

  unfoldable pub create_login_code :
      ℕ
      → ℕ
      → Option String
      → Option String
      → List ℕ
      → Desk
      → (DashboardUser × Option (List ℕ)) × Desk
  create_login_code now telegram_id username display_name compact db =
      issue_code now telegram_id compact (upsert_user_request telegram_id username display_name db)

  -- `raw_token` is the random token; only its digest is stored.
  abbrev pub issue_session : ℕ → String → DashboardUser → Desk → Desk
  issue_session now raw_token u db = record db {
    sessions =
        db.sessions
        ++ record {
          id = db.next_session;
          user_id = u.id;
          token_hash = o.token_digest raw_token;
          expires_at = now + o.session_ttl;
          last_seen_at = some now;
          revoked_at = none;
        }
          ∷ [];
    users = update_where (λ x. x.id == u.id) (seen_user now) db.users;
    next_session = suc db.next_session;
  }

  -- The code is spent only if no other transaction has spent it since it was read.
  abbrev pub spend : ℕ → String → LoginNonce → DashboardUser → Desk → LoginOutcome × Desk
  spend now raw_token n u db =
      if count (is_unspent n.id) db.nonces == 0
      then (invalid, db)
      else let spent = record db {
        nonces = update_where (is_unspent n.id) (spent_row now) db.nonces;
      } in
        if not (is_admitted u.status)
        then (revoked u, spent)
        else (approved raw_token (seen_user now u), issue_session now raw_token u spent)

  abbrev pub redeem_user :
      ℕ → String → (Desk → Desk) → LoginNonce → Option DashboardUser → Desk → LoginOutcome × Desk
  redeem_user now raw_token between n none db = (invalid, db)
  redeem_user now raw_token between n (some u) db = spend now raw_token n u (between db)

  abbrev pub user_of_nonce : LoginNonce → Desk → Option DashboardUser
  user_of_nonce n db = elim n.telegram_id [ none ↦ none | some t ↦ user_by_telegram t db.users ]

  abbrev pub redeem_nonce :
      ℕ → String → (Desk → Desk) → Option LoginNonce → Desk → LoginOutcome × Desk
  redeem_nonce now raw_token between none db = (invalid, db)
  redeem_nonce now raw_token between (some n) db =
      if not (is_none n.consumed_at) || leb n.expires_at now
      then (invalid, db)
      else redeem_user now raw_token between n (user_of_nonce n db) db

  abbrev pub nonce_of_code : List ℕ → Desk → Option LoginNonce
  nonce_of_code normalized db =
      find (λ (n : LoginNonce). str_eq n.nonce (hash_login_code normalized)) db.nonces

  -- `between` is what other transactions commit after the reads and before the code is spent.
  unfoldable pub redeem_login_code :
      ℕ → String → (Desk → Desk) → List ℕ → Desk → LoginOutcome × Desk
  redeem_login_code now raw_token between raw_code db =
      let normalized = normalize_login_code raw_code in
      if not (length normalized == code_length)
      then (invalid, db)
      else redeem_nonce now raw_token between (nonce_of_code normalized db) db

-- The number of rows that were removed, and the new state.
unfoldable pub purge_expired_login_codes : ℕ → Desk → ℕ × Desk
purge_expired_login_codes now db =
    let is_past : LoginNonce → Bool = λ n. leb n.expires_at now || not (is_none n.consumed_at) in
    (count is_past db.nonces, record db { nonces = select (λ n. not (is_past n)) db.nonces })
