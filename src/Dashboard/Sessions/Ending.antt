-- ===== src/Dashboard/Sessions/Ending.antt =====
-- How a session begins and ends, and the bootstrap account
-- (app/services/dashboard_auth.py).
use linking_engine_backend.Prelude.{
  ℕ, ◌+◌, ◌==◌, ==_iff, ◌<◌, ◌≡◌, refl, ap, ◌∙◌, inl, inr, Bool, true, false, ◌&&◌, String, str_eq,
  str_eq_iff, Option, none, some, List, leb, if◌then◌else◌, is_none, update_where, find, Bool-cases,
  find-update_where, find-append, In, In-find, In-update_where, In-update_where_intro,
  In-append_left, subst, arith,
}
use linking_engine_backend.Dashboard.Rows.{
  DashboardUser, UserStatus, DashboardSession, Desk, is_admitted, user_by_telegram, user_by_id,
}
use linking_engine_backend.Dashboard.Codes.{Outside, issue_session}
use linking_engine_backend.Dashboard.Sessions.{
  revoke_user, revoke_session, revoked_session, verify_session, verify_found, verify_user,
  has_token, is_open_of, bootstrap_row, bootstrap_found, ensure_bootstrap_admin,
}

module _ (o : Outside) (now : ℕ) (commits : Bool) where
  -- What a session cookie must be for a request to pass.
  abbrev Passes : String → Desk → DashboardUser → Type 0
  Passes token db u =
      (str_eq token "" ≡ false)
      × (s : DashboardSession) × (find (has_token o token) db.sessions ≡ some s)
      × (is_none s.revoked_at ≡ true)
      × (now < s.expires_at)
      × (user_by_id s.user_id db.users ≡ some u)
      × (is_admitted u.status ≡ true)

  verify_user-Passes :
      (s : DashboardSession) (found : Option DashboardUser) (db : Desk) (u : DashboardUser)
      → (verify_user o now commits s found db).0 ≡ some u
      → (found ≡ some u) × (is_admitted u.status ≡ true)
  verify_user-Passes s none db u e = absurd (ground arith)
  verify_user-Passes s (some v) db u e = elim (Bool-cases (is_admitted v.status)) [
    | inr f ↦ let e' = rw f at e in absurd (ground (arith, e'))
    | inl f ↦
        let e' : some v ≡ some u = rw f at e in
        (e', let same : v ≡ u = ground (arith, e') in rw (← same) f)
  ]

  verify_found-Passes :
      (token : String) (found : Option DashboardSession) (db : Desk) (u : DashboardUser)
      → str_eq token "" ≡ false
      → find (has_token o token) db.sessions ≡ found
      → (verify_found o now commits found db).0 ≡ some u
      → Passes token db u
  verify_found-Passes token none db u typed lookup e = absurd (ground arith)
  verify_found-Passes token (some s) db u typed lookup e =
      elim (Bool-cases (is_none s.revoked_at)) [
        | inr f ↦ let e' = rw f at e in absurd (ground (arith, e'))
        | inl f ↦ elim (Bool-cases (leb s.expires_at now)) [
          | inl g ↦ let e' = rw (f, g) at e in absurd (ground (arith, e'))
          | inr g ↦
              let r = verify_user-Passes s (user_by_id s.user_id db.users) db u (rw (f, g) at e) in
              (typed, s, lookup, f, ground arith, r.0, r.1)
        ]
      ]

  verify_session-Passes :
      (token : String) (db : Desk) (u : DashboardUser)
      → (verify_session o now commits (some token) db).0 ≡ some u
      → Passes token db u
  unfolding verify_session
  verify_session-Passes token db u e = elim (Bool-cases (str_eq token "")) [
    | inl f ↦ let e' = rw f at e in absurd (ground (arith, e'))
    | inr f ↦
        verify_found-Passes token (find (has_token o token) db.sessions) db u f refl (rw f at e)
  ]

  -- The removal of an account ends its open sessions for good: whatever is done to the accounts
  -- afterwards, a new admission included, no cookie of an earlier session resolves to it.
  pub revoke_user_ends_sessions :
      (before id : ℕ) (token : String) (db : Desk) (users : List DashboardUser) (u : DashboardUser)
      → (verify_session o now commits
          (some token)
          (record (revoke_user before id db) { users = users })).0
        ≡ some u
      → ¬ (u.id ≡ id)
  unfolding revoke_user
  revoke_user_ends_sessions before id token db users u e same =
      let (typed, s, lookup, live, due, known, admitted) =
        verify_session-Passes token (record (revoke_user before id db) { users = users }) u e in
      let (x, i, is) =
        In-update_where (is_open_of id) (revoked_session before) s db.sessions
          (In-find (has_token o token) s _ lookup).0 in
      let owner = (In-find (λ (v : DashboardUser). v.id == s.user_id) u users known).1 in
      ground (arith, is, live, owner, same)

  -- After a logout the cookie resolves to nobody.
  pub revoke_session_ends :
      (before : ℕ) (token : String) (db : Desk) (u : DashboardUser)
      → ¬ (
          (verify_session o now commits (some token) (revoke_session o before (some token) db)).0
          ≡ some u)
  unfolding revoke_session
  revoke_session_ends before token db u e =
      let (typed, s, lookup, live, due, known, admitted) = verify_session-Passes token _ u e in
      let found = In-find (has_token o token) s _ (rw typed at lookup) in
      let (x, i, is) =
        In-update_where (λ y. has_token o token y && is_none y.revoked_at) (revoked_session before)
          s db.sessions found.0 in
      ground (arith, is, live, found.1)

  -- A session that was just opened for an approved account of the table, under a token that is not
  -- empty and that no stored session has, lets its holder in until it expires.
  pub issue_session_admits :
      (opened : ℕ) (token : String) (u : DashboardUser) (db : Desk)
      → user_by_id u.id db.users ≡ some u
      → is_admitted u.status ≡ true
      → str_eq token "" ≡ false
      → find (has_token o token) db.sessions ≡ none
      → now < opened + o.session_ttl
      → (verify_session o now commits (some token) (issue_session o opened token u db)).0
        ≡ some (record u { last_seen_at = some opened })
  unfolding verify_session
  issue_session_admits opened token u db known admitted typed unused due =
      let due' : leb (opened + o.session_ttl) now ≡ false = ground (arith, due) in
      let seen : DashboardUser → DashboardUser = λ x. record x { last_seen_at = some opened } in
      let lookup =
        find-append (has_token o token)
          (record {
            id = db.next_session;
            user_id = u.id;
            token_hash = o.token_digest token;
            expires_at = opened + o.session_ttl;
            last_seen_at = some opened;
            revoked_at = none;
          })
          db.sessions unused ((str_eq_iff _ _).1 refl) in
      let owner =
        find-update_where (λ (x : DashboardUser). x.id == u.id) (λ x. x.id == u.id) seen (λ x. refl)
          u db.users known
        ∙ ap (λ b. some (if b then seen u else u)) ((==_iff u.id u.id).1 refl) in
      rw (typed, lookup, due', owner, admitted) refl

revoked_stays :
    (now : ℕ) (u : DashboardUser) → u.status ≡ UserStatus.revoked → bootstrap_row now u ≡ u
revoked_stays now u e = rw e refl

bootstrap_row_stays :
    (now n : ℕ) (u : DashboardUser) (users : List DashboardUser)
    → In u users
    → u.status ≡ UserStatus.revoked
    → In u (update_where (λ x. x.id == n) (bootstrap_row now) users)
bootstrap_row_stays now n u users i e =
    let j = In-update_where_intro (λ x. x.id == n) (bootstrap_row now) u users i in
    elim (Bool-cases (u.id == n)) [
      | inl f ↦
          subst (λ x. In x (update_where (λ x. x.id == n) (bootstrap_row now) users))
            (revoked_stays now u e) (rw f at j)
      | inr f ↦ rw f at j
    ]

bootstrap_found_stays :
    (now t : ℕ) (found : Option DashboardUser) (db : Desk) (u : DashboardUser)
    → In u db.users
    → u.status ≡ UserStatus.revoked
    → In u (bootstrap_found now t found db).1.users
bootstrap_found_stays now t none db u i e =
    bootstrap_row_stays now db.next_user u _ (In-append_left u db.users _ i) e
bootstrap_found_stays now t (some v) db u i e = bootstrap_row_stays now v.id u db.users i e

-- A start of the bot never undoes a ban: a revoked account, the configured one included, stays as
-- it is.
pub ensure_bootstrap_admin_keeps_revoked :
    (now : ℕ) (id : Option ℕ) (db : Desk) (u : DashboardUser)
    → In u db.users
    → u.status ≡ UserStatus.revoked
    → In u (ensure_bootstrap_admin now id db).1.users
unfolding ensure_bootstrap_admin
ensure_bootstrap_admin_keeps_revoked now none db u i e = i
ensure_bootstrap_admin_keeps_revoked now (some t) db u i e =
    bootstrap_found_stays now t (user_by_telegram t db.users) db u i e
