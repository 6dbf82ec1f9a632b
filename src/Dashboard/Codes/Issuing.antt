-- ===== src/Dashboard/Codes/Issuing.antt =====
-- From the issue of a code to its redemption (`create_login_code` and `redeem_login_code` of
-- app/services/dashboard_auth.py).
use linking_engine_backend.Prelude.{
  ℕ, zero, suc, ◌+◌, ◌==◌, ==_iff, ◌<◌, ◌≡◌, refl, ap, sym, ◌∙◌, Bool, true, false, String, str_eq,
  str_eq_iff, Option, none, some, List, [], ◌∷◌, ◌++◌, leb, if◌then◌else◌, select, update_where,
  find, count, length, find-update_where, find-append, find-update_where-none, count-append, All,
  arith, subst, In,
}
use linking_engine_backend.Dashboard.Rows.{
  DashboardUser, LoginNonce, DashboardSession, Desk, is_admitted, user_by_telegram,
}
use linking_engine_backend.Dashboard.Codes.{
  Outside, dash, dashed, dashed_from, code_length, create_login_code, issue_code, upsert_found,
  refreshed_user, is_unspent_of, is_unspent, spent_row, seen_user, approved, normalize_login_code,
  hash_login_code, user_of_nonce, nonce_of_code, redeem_login_code,
}
use linking_engine_backend.Dashboard.Codes.Trading.{redeem_login_code-Opens}

module _ (o : Outside) (now : ℕ) where
  select_dashed :
      (n : ℕ) (cs : List ℕ)
      → o.is_alnum dash ≡ false
      → All (λ (c : ℕ). o.is_alnum c ≡ true) cs
      → select o.is_alnum (dashed_from n cs) ≡ cs
  select_dashed n [] d h = refl
  select_dashed zero (c ∷ cs) d h = rw (d, h.0) (ap (c ∷◌) (select_dashed 3 cs d h.1))
  select_dashed (suc n) (c ∷ cs) d h = rw h.0 (ap (c ∷◌) (select_dashed n cs d h.1))

  -- The characters are upper-case letters and digits, as Python reads them.
  abbrev pub IsCodeText : List ℕ → Type 0
  IsCodeText compact =
      (length compact ≡ code_length)
      × (o.upper (dashed compact) ≡ dashed compact)
      × (o.upper compact ≡ compact)
      × (o.is_alnum dash ≡ false)
      × All (λ (c : ℕ). o.is_alnum c ≡ true) compact

  normalize_dashed :
      (compact : List ℕ) → IsCodeText compact → normalize_login_code o (dashed compact) ≡ compact
  normalize_dashed compact (len, up, up', d, h) = rw up (select_dashed 4 compact d h)

  select-All : (cs : List ℕ) → All (λ (c : ℕ). o.is_alnum c ≡ true) cs → select o.is_alnum cs ≡ cs
  select-All [] h = refl
  select-All (c ∷ cs) h = rw h.0 (ap (c ∷◌) (select-All cs h.1))

  normalize_compact :
      (compact : List ℕ) → IsCodeText compact → normalize_login_code o compact ≡ compact
  normalize_compact compact (len, up, up', d, h) = rw up' (select-All compact h)

  module _ (telegram_id : ℕ) (username display_name : Option String) (compact : List ℕ) (db : Desk)
      (u : DashboardUser) where
    abbrev created : Desk
    created = (create_login_code o now telegram_id username display_name compact db).1

    abbrev created_nonce : LoginNonce
    created_nonce = record {
      id = db.next_nonce;
      nonce = hash_login_code o (dashed compact);
      telegram_id = some telegram_id;
      bound_at = some now;
      expires_at = now + o.nonce_ttl;
      consumed_at = none;
    }

    abbrev has_code : LoginNonce → Bool
    has_code n = str_eq n.nonce (hash_login_code o compact)

    created_is :
        user_by_telegram telegram_id db.users ≡ some u
        → is_admitted u.status ≡ true
        → created ≡ record db {
          users = update_where (λ x. x.id == u.id) (refreshed_user username display_name) db.users;
          nonces =
              update_where (is_unspent_of telegram_id) (spent_row now) db.nonces
              ++ created_nonce ∷ [];
          next_nonce = suc db.next_nonce;
        }
    unfolding create_login_code
    created_is known admitted =
        subst
          (λ found.
            (issue_code o now telegram_id compact
              (upsert_found telegram_id username display_name found db)).1
            ≡ record db {
              users =
                  update_where (λ x. x.id == u.id) (refreshed_user username display_name) db.users;
              nonces =
                  update_where (is_unspent_of telegram_id) (spent_row now) db.nonces
                  ++ created_nonce ∷ [];
              next_nonce = suc db.next_nonce;
            })
          (sym known) (rw admitted refl)

    created_lookup :
        user_by_telegram telegram_id db.users ≡ some u
        → is_admitted u.status ≡ true
        → IsCodeText compact
        → find has_code db.nonces ≡ none
        → nonce_of_code o compact created ≡ some created_nonce
    created_lookup known admitted text unused = rw (created_is known admitted) (
        find-append has_code created_nonce
          (update_where (is_unspent_of telegram_id) (spent_row now) db.nonces)
          (find-update_where-none has_code (is_unspent_of telegram_id) (spent_row now) (λ x. refl)
            db.nonces unused)
          ((str_eq_iff _ _).1 (
            ap o.code_digest
              (normalize_dashed compact text ∙ sym (normalize_compact compact text)))))

    created_user :
        user_by_telegram telegram_id db.users ≡ some u
        → is_admitted u.status ≡ true
        → user_of_nonce o created_nonce created ≡ some (refreshed_user username display_name u)
    created_user known admitted = rw (created_is known admitted) (
        find-update_where (λ (x : DashboardUser). x.telegram_id == telegram_id) (λ x. x.id == u.id)
          (refreshed_user username display_name) (λ x. refl) u db.users known
        ∙ ap (λ b. some (if b then refreshed_user username display_name u else u))
            ((==_iff u.id u.id).1 refl))

    created_count :
        user_by_telegram telegram_id db.users ≡ some u
        → is_admitted u.status ≡ true
        → (count (is_unspent db.next_nonce) created.nonces == 0) ≡ false
    created_count known admitted = rw (created_is known admitted) (
        let sum =
          count-append (is_unspent db.next_nonce)
            (update_where (is_unspent_of telegram_id) (spent_row now) db.nonces)
            (created_nonce ∷ []) in
        ground (arith, sum))

    created_redeems :
        (later : ℕ) (token : String)
        → user_by_telegram telegram_id db.users ≡ some u
        → is_admitted u.status ≡ true
        → IsCodeText compact
        → find has_code db.nonces ≡ none
        → later < now + o.nonce_ttl
        → (redeem_login_code o later token (λ d. d) (dashed compact) created).0
          ≡ approved token (seen_user later (refreshed_user username display_name u))
    unfolding redeem_login_code
    created_redeems later token known admitted text unused due =
        let due' : leb (now + o.nonce_ttl) later ≡ false = ground (arith, due) in
        rw
          (
            normalize_dashed compact text,
            text.0,
            created_lookup known admitted text unused,
            due',
            created_user known admitted,
            created_count known admitted,
            admitted,
          )
          refl

    -- A code that the bot issues to an approved account, and that no stored digest matches, opens
    -- a session for that account when it is typed with its dashes before it expires, under the
    -- reading of Python's `str` methods that letters, digits and the dash have: the outcome carries
    -- the token, and a session of the account with the token's digest, which ends after the session
    -- time, is stored.
    pub create_login_code_redeems :
        (later : ℕ) (token : String)
        → user_by_telegram telegram_id db.users ≡ some u
        → is_admitted u.status ≡ true
        → IsCodeText compact
        → find has_code db.nonces ≡ none
        → later < now + o.nonce_ttl
        → let r = redeem_login_code o later token (λ d. d) (dashed compact) created in
          (r.0 ≡ approved token (seen_user later (refreshed_user username display_name u)))
          × (s : DashboardSession) × In s r.1.sessions
          × (s.user_id ≡ u.id)
          × (s.token_hash ≡ o.token_digest token)
          × (s.expires_at ≡ later + o.session_ttl)
    create_login_code_redeems later token known admitted text unused due =
        let outcome = created_redeems later token known admitted text unused due in
        let (n, _, v, same, _, (_, _, _, _, s, i, of_user, of_token, ends)) =
          redeem_login_code-Opens o later token (λ d. d) (dashed compact) created _ token outcome in
        let id_of_user : v.id ≡ u.id = ap (λ (x : DashboardUser). x.id) (sym same) in
        (outcome, s, i, of_user ∙ id_of_user, of_token, ends)
