-- ===== src/Dashboard/Rows.antt =====
-- The rows of app/models/dashboard.py, and the tables that the login reads and writes.
--
-- A table is the list of its rows in the order of their ids; a time is a number of seconds. The
-- columns `created_at` and `requested_at`, which nothing reads, are left out.
use linking_engine_backend.Prelude.{ℕ, ◌==◌, Bool, true, false, String, Option, List, find}

pub data UserStatus : Type 0 where
  pending approved revoked : UserStatus

abbrev pub is_pending : UserStatus → Bool
is_pending s = elim s [ UserStatus.pending ↦ true | _ ↦ false ]

abbrev pub is_admitted : UserStatus → Bool
is_admitted s = elim s [ UserStatus.approved ↦ true | _ ↦ false ]

pub record DashboardUser : Type 0 where
  pub id : ℕ
  pub telegram_id : ℕ
  pub username : Option String
  pub display_name : Option String
  pub status : UserStatus
  pub is_admin : Bool
  pub approved_at : Option ℕ
  pub approved_by : Option String
  pub revoked_at : Option ℕ
  pub last_seen_at : Option ℕ

pub record LoginNonce : Type 0 where
  pub id : ℕ
  pub nonce : String
  pub telegram_id : Option ℕ
  pub bound_at : Option ℕ
  pub expires_at : ℕ
  pub consumed_at : Option ℕ

pub record DashboardSession : Type 0 where
  pub id : ℕ
  pub user_id : ℕ
  pub token_hash : String
  pub expires_at : ℕ
  pub last_seen_at : Option ℕ
  pub revoked_at : Option ℕ

-- The three tables, with the next id of each.
pub record Desk : Type 0 where
  pub users : List DashboardUser
  pub nonces : List LoginNonce
  pub sessions : List DashboardSession
  pub next_user : ℕ
  pub next_nonce : ℕ
  pub next_session : ℕ

-- `select(DashboardUser).where(DashboardUser.telegram_id == telegram_id)`
abbrev pub user_by_telegram : ℕ → List DashboardUser → Option DashboardUser
user_by_telegram n users = find (λ u. u.telegram_id == n) users

-- `db.get(DashboardUser, id)`
abbrev pub user_by_id : ℕ → List DashboardUser → Option DashboardUser
user_by_id n users = find (λ u. u.id == n) users
