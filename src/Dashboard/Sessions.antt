-- ===== src/Dashboard/Sessions.antt =====
-- Sessions and admission (app/services/dashboard_auth.py).
pub mod Ending
use linking_engine_backend.Prelude.{
  ℕ, ◌+◌, ◌==◌, Bool, true, false, not, ◌&&◌, ◌||◌, String, str_eq, Option, none, some, List, ltb,
  leb, if◌then◌else◌, is_none, select, update_where, find, map,
}
use linking_engine_backend.Dashboard.Rows.{
  DashboardUser, UserStatus, DashboardSession, Desk, is_admitted, is_pending, user_by_telegram,
  user_by_id,
}
use linking_engine_backend.Dashboard.Codes.{Outside, new_user, add_user}

-- SESSION_SLIDE_INTERVAL
abbrev pub slide_interval : ℕ
slide_interval = 60

-- `last_seen is not None and now - last_seen < SESSION_SLIDE_INTERVAL`
abbrev pub is_fresh : ℕ → Option ℕ → Bool
is_fresh now none = false
is_fresh now (some seen) = ltb now (seen + slide_interval)

abbrev pub revoked_session : ℕ → DashboardSession → DashboardSession
revoked_session now s = record s { revoked_at = some now }

abbrev pub approve_row : ℕ → String → DashboardUser → DashboardUser
approve_row now approved_by u = record u {
  status = UserStatus.approved;
  approved_at = some now;
  approved_by = some approved_by;
  revoked_at = none;
}

abbrev pub admin_row : Bool → DashboardUser → DashboardUser
admin_row is_admin u = record u { is_admin = is_admin }

abbrev pub update_user : ℕ → (DashboardUser → DashboardUser) → Desk → Desk
update_user id f db = record db { users = update_where (λ x. x.id == id) f db.users }

abbrev pub approve_user : ℕ → ℕ → String → Desk → Desk
approve_user now id approved_by db = update_user id (approve_row now approved_by) db

abbrev pub set_admin : ℕ → Bool → Desk → Desk
set_admin id is_admin db = update_user id (admin_row is_admin) db

abbrev pub is_open_of : ℕ → DashboardSession → Bool
is_open_of user_id s = s.user_id == user_id && is_none s.revoked_at

abbrev pub revoke_sessions_for_user : ℕ → ℕ → Desk → Desk
revoke_sessions_for_user now user_id db = record db {
  sessions = update_where (is_open_of user_id) (revoked_session now) db.sessions;
}

unfoldable pub revoke_user : ℕ → ℕ → Desk → Desk
revoke_user now id db =
    revoke_sessions_for_user now id
      (update_user id (λ u. record u { status = UserStatus.revoked; revoked_at = some now }) db)

unfoldable pub admin_telegram_ids : Desk → List ℕ
admin_telegram_ids db =
    map (λ (u : DashboardUser). u.telegram_id)
      (select (λ (u : DashboardUser). is_admitted u.status && u.is_admin) db.users)

-- What `ensure_bootstrap_admin` makes of the configured account.
abbrev pub bootstrap_row : ℕ → DashboardUser → DashboardUser
bootstrap_row now u =
    let admitted = if is_pending u.status then approve_row now "bootstrap" u else u in
    if is_admitted admitted.status && not admitted.is_admin
    then admin_row true admitted
    else admitted

abbrev pub bootstrap_found : ℕ → ℕ → Option DashboardUser → Desk → Option DashboardUser × Desk
bootstrap_found now telegram_id none db =
    let u = new_user db.next_user telegram_id none none in
    (some (bootstrap_row now u), update_user u.id (bootstrap_row now) (add_user u db))
bootstrap_found now telegram_id (some u) db =
    (some (bootstrap_row now u), update_user u.id (bootstrap_row now) db)

-- `none` for the id where none is configured
unfoldable pub ensure_bootstrap_admin : ℕ → Option ℕ → Desk → Option DashboardUser × Desk
ensure_bootstrap_admin now none db = (none, db)
ensure_bootstrap_admin now (some telegram_id) db =
    bootstrap_found now telegram_id (user_by_telegram telegram_id db.users) db

module _ (o : Outside) where
  -- `commits` tells whether the update goes through; a failed one is rolled back and forgotten.
  abbrev pub slide : ℕ → Bool → DashboardSession → DashboardUser → Desk → Desk
  slide now commits s u db = if is_fresh now s.last_seen_at || not commits then db else record db {
    sessions =
        update_where (λ x. x.id == s.id)
          (λ x. record x { last_seen_at = some now; expires_at = now + o.session_ttl }) db.sessions;
    users = update_where (λ x. x.id == u.id) (λ x. record x { last_seen_at = some now }) db.users;
  }

  abbrev pub has_token : String → DashboardSession → Bool
  has_token raw_token s = str_eq s.token_hash (o.token_digest raw_token)

  abbrev pub verify_user :
      ℕ → Bool → DashboardSession → Option DashboardUser → Desk → Option DashboardUser × Desk
  verify_user now commits s none db = (none, db)
  verify_user now commits s (some u) db =
      if not (is_admitted u.status) then (none, db) else (some u, slide now commits s u db)

  abbrev pub verify_found : ℕ → Bool → Option DashboardSession → Desk → Option DashboardUser × Desk
  verify_found now commits none db = (none, db)
  verify_found now commits (some s) db =
      if not (is_none s.revoked_at) || leb s.expires_at now
      then (none, db)
      else verify_user now commits s (user_by_id s.user_id db.users) db

  unfoldable pub verify_session : ℕ → Bool → Option String → Desk → Option DashboardUser × Desk
  verify_session now commits none db = (none, db)
  verify_session now commits (some raw_token) db =
      if str_eq raw_token ""
      then (none, db)
      else verify_found now commits (find (has_token raw_token) db.sessions) db

  unfoldable pub revoke_session : ℕ → Option String → Desk → Desk
  revoke_session now none db = db
  revoke_session now (some raw_token) db = if str_eq raw_token "" then db else record db {
    sessions =
        update_where (λ s. has_token raw_token s && is_none s.revoked_at) (revoked_session now)
          db.sessions;
  }
