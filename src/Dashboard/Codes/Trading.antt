-- ===== src/Dashboard/Codes/Trading.antt =====
-- What a login code is traded for, and who gets one (`redeem_login_code` and `create_login_code`
-- of app/services/dashboard_auth.py).
use linking_engine_backend.Prelude.{
  ℕ, ◌+◌, ◌==◌, ◌<◌, ◌≡◌, refl, ◌∙◌, ◌⊎◌, inl, inr, true, false, not, String, Option, none, some,
  List, [], ◌∷◌, ◌++◌, leb, is_none, update_where, count, length, Bool-cases, count_of_updated,
  count-append, In, In-append_right, arith,
}
use linking_engine_backend.Dashboard.Rows.{
  DashboardUser, LoginNonce, DashboardSession, Desk, is_admitted,
}
use linking_engine_backend.Dashboard.Codes.{
  Outside, dashed, code_length, create_login_code, upsert_user_request, is_unspent_of, is_unspent,
  spent_row, seen_user, approved, normalize_login_code, spend, redeem_user, user_of_nonce,
  redeem_nonce, nonce_of_code, redeem_login_code,
}

module _ (o : Outside) (now : ℕ) where
  -- The account behind an approved outcome, and the session that it opened.
  abbrev pub Opens : String → Desk → LoginNonce → DashboardUser → Desk → Type 0
  Opens token before n u after =
      (is_none n.consumed_at ≡ true)
      × (now < n.expires_at)
      × (user_of_nonce o n before ≡ some u)
      × (is_admitted u.status ≡ true)
      × (s : DashboardSession) × In s after.sessions
      × (s.user_id ≡ u.id)
      × (s.token_hash ≡ o.token_digest token)
      × (s.expires_at ≡ now + o.session_ttl)

  spend-Opens :
      (token : String) (before db : Desk) (n : LoginNonce) (u v : DashboardUser) (t : String)
      → is_none n.consumed_at ≡ true
      → now < n.expires_at
      → user_of_nonce o n before ≡ some u
      → (spend o now token n u db).0 ≡ approved t v
      → (v ≡ seen_user now u) × (t ≡ token) × Opens token before n u (spend o now token n u db).1
  spend-Opens token before db n u v t live due known e =
      elim (Bool-cases (count (is_unspent n.id) db.nonces == 0)) [
        | inl f ↦ let e' = rw f at e in absurd (ground (arith, e'))
        | inr f ↦ elim (Bool-cases (is_admitted u.status)) [
          | inr g ↦ let e' = rw (f, g) at e in absurd (ground (arith, e'))
          | inl g ↦
              let e' : approved token (seen_user now u) ≡ approved t v = rw (f, g) at e in
              rw (f, g)
                (
                  ground (arith, e'),
                  ground (arith, e'),
                  (
                    live,
                    due,
                    known,
                    refl,
                    record {
                      id = db.next_session;
                      user_id = u.id;
                      token_hash = o.token_digest token;
                      expires_at = now + o.session_ttl;
                      last_seen_at = some now;
                      revoked_at = none;
                    },
                    In-append_right _ db.sessions _ (inl refl),
                    refl,
                    refl,
                    refl,
                  ),
                )
        ]
      ]

  redeem_user-Opens :
      (token : String) (between : Desk → Desk) (before : Desk) (n : LoginNonce)
      (found : Option DashboardUser) (v : DashboardUser) (t : String)
      → is_none n.consumed_at ≡ true
      → now < n.expires_at
      → user_of_nonce o n before ≡ found
      → (redeem_user o now token between n found before).0 ≡ approved t v
      → (u : DashboardUser) × (v ≡ seen_user now u)
        × (t ≡ token)
        × Opens token before n u (redeem_user o now token between n found before).1
  redeem_user-Opens token between before n none v t live due known e = absurd (ground arith)
  redeem_user-Opens token between before n (some u) v t live due known e =
      let (same, token_is, opens) =
        spend-Opens token before (between before) n u v t live due known e in
      (u, same, token_is, opens)

  redeem_nonce-Opens :
      (token : String) (between : Desk → Desk) (before : Desk) (found : Option LoginNonce)
      (v : DashboardUser) (t : String)
      → (redeem_nonce o now token between found before).0 ≡ approved t v
      → (n : LoginNonce) × (found ≡ some n)
        × (u : DashboardUser) × (v ≡ seen_user now u)
        × (t ≡ token)
        × Opens token before n u (redeem_nonce o now token between found before).1
  redeem_nonce-Opens token between before none v t e = absurd (ground arith)
  redeem_nonce-Opens token between before (some n) v t e =
      elim (Bool-cases (is_none n.consumed_at)) [
        | inr f ↦ let e' = rw f at e in absurd (ground (arith, e'))
        | inl f ↦ elim (Bool-cases (leb n.expires_at now)) [
          | inl g ↦ let e' = rw (f, g) at e in absurd (ground (arith, e'))
          | inr g ↦
              let (u, same, token_is, opens) =
                redeem_user-Opens token between before n (user_of_nonce o n before) v t f
                  (ground arith) refl (rw (f, g) at e) in
              rw (f, g) (n, refl, u, same, token_is, opens)
        ]
      ]

  -- A code opens a session only if it was issued for the account, is unspent and has not
  -- expired, and the account is approved: the session is that account's, it is found by the
  -- digest of the returned token, and it ends after the session time. The account is returned as
  -- seen now.
  pub redeem_login_code-Opens :
      (token : String) (between : Desk → Desk) (code : List ℕ) (db : Desk) (v : DashboardUser)
      (t : String)
      → (redeem_login_code o now token between code db).0 ≡ approved t v
      → (n : LoginNonce) × (nonce_of_code o (normalize_login_code o code) db ≡ some n)
        × (u : DashboardUser) × (v ≡ seen_user now u)
        × (t ≡ token)
        × Opens token db n u (redeem_login_code o now token between code db).1
  unfolding redeem_login_code
  redeem_login_code-Opens token between code db v t e =
      let normalized = normalize_login_code o code in
      elim (Bool-cases (not (length normalized == code_length))) [
        | inl f ↦ let e' = rw f at e in absurd (ground (arith, e'))
        | inr f ↦
            rw f
              (redeem_nonce-Opens token between db (nonce_of_code o normalized db) v t (rw f at e))
      ]

  fresh_count :
      (telegram_id : ℕ) (n : LoginNonce) (rows : List LoginNonce)
      → is_unspent_of telegram_id n ≡ true
      → count
          (is_unspent_of telegram_id)
          (update_where (is_unspent_of telegram_id) (spent_row now) rows ++ n ∷ [])
        ≡ 1
  fresh_count telegram_id n rows e =
      let none_left =
        count_of_updated (is_unspent_of telegram_id) (spent_row now) (λ x. ground arith) rows in
      count-append (is_unspent_of telegram_id)
        (update_where (is_unspent_of telegram_id) (spent_row now) rows) (n ∷ [])
      ∙ rw (none_left, e) refl

  -- A code is issued to approved accounts only, and then it is the only one of the account that
  -- is not spent; for any other account no code is issued and the codes are left as they are.
  pub create_login_code_single :
      (telegram_id : ℕ) (username display_name : Option String) (compact : List ℕ) (db : Desk)
      → let r = create_login_code o now telegram_id username display_name compact db in
        ((is_admitted r.0.0.status ≡ true)
          × (r.0.1 ≡ some (dashed compact))
          × (count (is_unspent_of telegram_id) r.1.nonces ≡ 1))
        ⊎ ((is_admitted r.0.0.status ≡ false)
            × (r.0.1 ≡ none)
            × (r.1.nonces ≡ (upsert_user_request telegram_id username display_name db).1.nonces))
  unfolding create_login_code
  create_login_code_single telegram_id username display_name compact db =
      let u = upsert_user_request telegram_id username display_name db in
      elim (Bool-cases (is_admitted u.0.status)) [
        | inr e ↦ rw e (inr (e, refl, refl))
        | inl e ↦ rw e (inl (e, refl, fresh_count telegram_id _ u.1.nonces (ground arith)))
      ]
