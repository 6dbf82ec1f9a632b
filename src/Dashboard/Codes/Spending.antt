-- ===== src/Dashboard/Codes/Spending.antt =====
-- How a login code is spent (`redeem_login_code` of app/services/dashboard_auth.py).
use linking_engine_backend.Prelude.{
  ℕ, ◌==◌, ◌≡◌, refl, ap, ◌∙◌, ◌⊎◌, inl, inr, true, false, not, ◌||◌, String, str_eq, Option, none,
  some, List, leb, if◌then◌else◌, is_none, update_where, count, length, Bool-cases,
  count_of_updated, find-update_where, arith,
}
use linking_engine_backend.Dashboard.Rows.{DashboardUser, LoginNonce, Desk, is_admitted}
use linking_engine_backend.Dashboard.Codes.{
  Outside, code_length, is_unspent, spent_row, LoginOutcome, invalid, normalize_login_code,
  hash_login_code, spend, redeem_user, user_of_nonce, redeem_nonce, nonce_of_code,
  redeem_login_code,
}

module _ (o : Outside) where
  -- The outcome is `invalid`, or the code's row has been spent in the table `rows`.
  abbrev Spends : ℕ → LoginNonce → List LoginNonce → LoginOutcome × Desk → Type 0
  Spends now n rows r =
      (r.0 ≡ invalid) ⊎ (r.1.nonces ≡ update_where (is_unspent n.id) (spent_row now) rows)

  spend-Spends :
      (now : ℕ) (token : String) (n : LoginNonce) (u : DashboardUser) (db : Desk)
      → Spends now n db.nonces (spend o now token n u db)
  spend-Spends now token n u db = elim (Bool-cases (count (is_unspent n.id) db.nonces == 0)) [
    | inl e ↦ rw e (inl refl)
    | inr e ↦ elim (Bool-cases (not (is_admitted u.status))) [
      | inl f ↦ rw (e, f) (inr refl)
      | inr f ↦ rw (e, f) (inr refl)
    ]
  ]

  redeem_user-Spends :
      (now : ℕ) (token : String) (between : Desk → Desk) (n : LoginNonce) (u : Option DashboardUser)
      (db : Desk)
      → Spends now n (between db).nonces (redeem_user o now token between n u db)
  redeem_user-Spends now token between n none db = inl refl
  redeem_user-Spends now token between n (some u) db = spend-Spends now token n u (between db)

  -- What a redemption that reads the row `n` has done.
  abbrev SpendsLive : ℕ → Option LoginNonce → List LoginNonce → LoginOutcome × Desk → Type 0
  SpendsLive now found rows r =
      (r.0 ≡ invalid)
      ⊎ ((n : LoginNonce) × (found ≡ some n)
          × (is_none n.consumed_at ≡ true)
          × (r.1.nonces ≡ update_where (is_unspent n.id) (spent_row now) rows))

  live_of :
      (now : ℕ) (n : LoginNonce) (rows : List LoginNonce) (r : LoginOutcome × Desk)
      → is_none n.consumed_at ≡ true
      → Spends now n rows r
      → SpendsLive now (some n) rows r
  live_of now n rows r e (inl i) = inl i
  live_of now n rows r e (inr s) = inr (n, refl, e, s)

  redeem_nonce-SpendsLive :
      (now : ℕ) (token : String) (between : Desk → Desk) (found : Option LoginNonce) (db : Desk)
      → SpendsLive now found (between db).nonces (redeem_nonce o now token between found db)
  redeem_nonce-SpendsLive now token between none db = inl refl
  redeem_nonce-SpendsLive now token between (some n) db =
      elim (Bool-cases (is_none n.consumed_at)) [
        | inr e ↦ rw e (inl refl)
        | inl e ↦ elim (Bool-cases (leb n.expires_at now)) [
          | inl f ↦ rw (e, f) (inl refl)
          | inr f ↦
              let s = redeem_user-Spends now token between n (user_of_nonce o n db) db in
              rw (e, f)
                (live_of now n (between db).nonces
                  (redeem_user o now token between n (user_of_nonce o n db) db) e s)
        ]
      ]

  redeem_login_code-SpendsLive :
      (now : ℕ) (token : String) (between : Desk → Desk) (code : List ℕ) (db : Desk)
      → SpendsLive now
          (nonce_of_code o (normalize_login_code o code) db)
          (between db).nonces
          (redeem_login_code o now token between code db)
  unfolding redeem_login_code
  redeem_login_code-SpendsLive now token between code db =
      let normalized = normalize_login_code o code in
      elim (Bool-cases (not (length normalized == code_length))) [
        | inl e ↦ rw e (inl refl)
        | inr e ↦
            rw e (redeem_nonce-SpendsLive now token between (nonce_of_code o normalized db) db)
      ]

  -- A redemption that reads a spent row, or finds at the update that the row is spent, is invalid.
  refused_row :
      (now : ℕ) (token : String) (between : Desk → Desk) (n : LoginNonce) (db : Desk)
      → (is_none n.consumed_at ≡ false) ⊎ (count (is_unspent n.id) (between db).nonces ≡ 0)
      → (redeem_nonce o now token between (some n) db).0 ≡ invalid
  refused_row now token between n db (inl e) = rw e refl
  refused_row now token between n db (inr e) =
      elim (Bool-cases (not (is_none n.consumed_at) || leb n.expires_at now)) [
        | inl f ↦ rw f refl
        | inr f ↦ rw f (refused_user (user_of_nonce o n db))
      ]
    where
      refused_user :
          (u : Option DashboardUser) → (redeem_user o now token between n u db).0 ≡ invalid
      refused_user none = refl
      refused_user (some u) = rw e refl

  refused_code :
      (now : ℕ) (token : String) (between : Desk → Desk) (code : List ℕ) (n : LoginNonce)
      (db : Desk)
      → nonce_of_code o (normalize_login_code o code) db ≡ some n
      → (is_none n.consumed_at ≡ false) ⊎ (count (is_unspent n.id) (between db).nonces ≡ 0)
      → (redeem_login_code o now token between code db).0 ≡ invalid
  unfolding redeem_login_code
  refused_code now token between code n db found h =
      let normalized = normalize_login_code o code in
      elim (Bool-cases (not (length normalized == code_length))) [
        | inl e ↦ rw e refl
        | inr e ↦ rw (e, found) (refused_row now token between n db h)
      ]

  module _ (now later : ℕ) (token token' : String) (code : List ℕ) (db : Desk) where
    abbrev first : LoginOutcome × Desk
    first = redeem_login_code o now token (λ d. d) code db

    refused_after :
        (between : Desk → Desk)
        → SpendsLive now (nonce_of_code o (normalize_login_code o code) db) db.nonces first
        → (first.0 ≡ invalid)
          ⊎ ((redeem_login_code o later token' between code first.1).0 ≡ invalid)
    refused_after between (inl i) = inl i
    refused_after between (inr (n, found, live, spent)) =
        inr (refused_code later token' between code (spent_row now n) first.1 again (inl refl))
      where
        live_row : is_unspent n.id n ≡ true
        live_row = rw live (ground arith)

        again : nonce_of_code o (normalize_login_code o code) first.1 ≡ some (spent_row now n)
        again = rw spent (
            find-update_where
              (λ (x : LoginNonce). str_eq x.nonce (hash_login_code o (normalize_login_code o code)))
              (is_unspent n.id) (spent_row now) (λ x. refl) n db.nonces found
            ∙ ap (λ b. some (if b then spent_row now n else n)) live_row)

    -- A code is good for one redemption: after one that was not refused, any later one of the
    -- same code is refused, whatever other transactions commit while it runs.
    pub redeem_login_code_once :
        (between : Desk → Desk)
        → (first.0 ≡ invalid)
          ⊎ ((redeem_login_code o later token' between code first.1).0 ≡ invalid)
    redeem_login_code_once between =
        refused_after between (redeem_login_code-SpendsLive now token (λ d. d) code db)

    refused_race :
        SpendsLive now (nonce_of_code o (normalize_login_code o code) db) db.nonces first
        → (first.0 ≡ invalid)
          ⊎ ((redeem_login_code o later token'
                (λ d. (redeem_login_code o now token (λ e. e) code d).1)
                code
                db).0
              ≡ invalid)
    refused_race (inl i) = inl i
    refused_race (inr (n, found, live, spent)) = inr (
        refused_code later token' (λ d. (redeem_login_code o now token (λ e. e) code d).1) code n db
          found
          (inr (
            rw spent
              (count_of_updated (is_unspent n.id) (spent_row now) (λ x. ground arith) db.nonces))))

    -- Of two browsers that submit one code at a time, where one has read the code's row before
    -- the other spends it, at most one gets past the code.
    pub redeem_login_code_race :
        (first.0 ≡ invalid)
        ⊎ ((redeem_login_code o later token'
              (λ d. (redeem_login_code o now token (λ e. e) code d).1)
              code
              db).0
            ≡ invalid)
    redeem_login_code_race = refused_race (redeem_login_code-SpendsLive now token (λ d. d) code db)
