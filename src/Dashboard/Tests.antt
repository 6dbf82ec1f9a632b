-- ===== src/Dashboard/Tests.antt =====
-- Runs of the login on small tables.
use linking_engine_backend.Prelude.{
  ℕ, if◌then◌else◌, ◌==◌, ◌≡◌, refl, ◌⊎◌, true, not, String, none, some, List, [], ◌∷◌, In, arith,
}
use linking_engine_backend.Dashboard.Rows.{
  DashboardUser, UserStatus, LoginNonce, DashboardSession, Desk,
}
use linking_engine_backend.Dashboard.Codes.{
  Outside, LoginOutcome, approved, invalid, dashed, create_login_code, redeem_login_code,
  issue_session, normalize_login_code, nonce_of_code, refreshed_user, seen_user,
}
use linking_engine_backend.Dashboard.Codes.Spending.{redeem_login_code_once}
use linking_engine_backend.Dashboard.Codes.Trading.{Opens, redeem_login_code-Opens}
use linking_engine_backend.Dashboard.Codes.Issuing.{IsCodeText, create_login_code_redeems}
use linking_engine_backend.Dashboard.Sessions.{revoke_user, verify_session}
use linking_engine_backend.Dashboard.Sessions.Ending.{
  revoke_user_ends_sessions, issue_session_admits,
}

abbrev digest_of : List ℕ → String
digest_of [] = "empty"
digest_of (c ∷ cs) = if c == 65 then "code-a" else "code-b"

abbrev outside : Outside
outside = record {
  upper = λ cs. cs;
  is_alnum = λ c. not (c == 45);
  code_digest = digest_of;
  token_digest = λ t. t;
  nonce_ttl = 300;
  session_ttl = 3600;
}

abbrev letters : List ℕ
letters = 65 ∷ 66 ∷ 67 ∷ 68 ∷ 69 ∷ 70 ∷ 71 ∷ 72 ∷ 74 ∷ 75 ∷ 76 ∷ 77 ∷ []

abbrev alice : DashboardUser
alice = record {
  id = 1;
  telegram_id = 900;
  username = some "alice";
  display_name = none;
  status = UserStatus.approved;
  is_admin = true;
  approved_at = some 5;
  approved_by = some "bootstrap";
  revoked_at = none;
  last_seen_at = none;
}

abbrev banned : DashboardUser
banned = record alice {
  id = 2;
  telegram_id = 901;
  status = UserStatus.revoked;
  revoked_at = some 6;
}

abbrev desk : Desk
desk = record {
  users = alice ∷ banned ∷ [];
  nonces = [];
  sessions = [];
  next_user = 3;
  next_nonce = 1;
  next_session = 1;
}

abbrev issued : Desk
issued = (create_login_code outside 100 900 none none letters desk).1

abbrev logged_in : LoginOutcome × Desk
logged_in = redeem_login_code outside 200 "token" (λ d. d) (dashed letters) issued

redeems : logged_in.0 ≡ approved "token" (seen_user 200 alice)
unfolding redeem_login_code create_login_code
redeems = refl

redeems_once :
    (redeem_login_code outside 201 "token-2" (λ d. d) (dashed letters) logged_in.1).0 ≡ invalid
unfolding redeem_login_code create_login_code
redeems_once = refl

expires : (redeem_login_code outside 400 "token" (λ d. d) (dashed letters) issued).0 ≡ invalid
unfolding redeem_login_code create_login_code
expires = refl

verifies :
    (verify_session outside 300 true (some "token") logged_in.1).0
    ≡ some (record alice { last_seen_at = some 200 })
unfolding verify_session redeem_login_code create_login_code
verifies = refl

banned_cannot_log_in : (create_login_code outside 100 901 none none letters desk).0.1 ≡ none
unfolding create_login_code
banned_cannot_log_in = refl

redeem_login_code_once_example :
    (logged_in.0 ≡ invalid)
    ⊎ ((redeem_login_code outside 201 "token-2" (λ d. d) (dashed letters) logged_in.1).0 ≡ invalid)
redeem_login_code_once_example =
    redeem_login_code_once outside 200 201 "token" "token-2" (dashed letters) issued (λ d. d)

redeem_login_code-Opens_example :
    (n : LoginNonce) × (nonce_of_code outside (normalize_login_code outside (dashed letters)) issued
      ≡ some n)
    × (u : DashboardUser) × (seen_user 200 alice ≡ seen_user 200 u)
    × (◌≡◌ {A = String} "token" "token")
    × Opens outside 200 "token" issued n u logged_in.1
unfolding redeem_login_code create_login_code
redeem_login_code-Opens_example =
    redeem_login_code-Opens outside 200 "token" (λ d. d) (dashed letters) issued
      (seen_user 200 alice) "token" redeems

letters_text : IsCodeText outside 100 letters
letters_text = ground arith

create_login_code_redeems_example :
    (logged_in.0 ≡ approved "token" (seen_user 200 (refreshed_user none none alice)))
    × (s : DashboardSession) × In s logged_in.1.sessions
    × (s.user_id ≡ 1)
    × (s.token_hash ≡ outside.token_digest "token")
    × (s.expires_at ≡ 3800)
create_login_code_redeems_example =
    create_login_code_redeems outside 100 900 none none letters desk alice 200 "token" refl refl
      letters_text refl (omega arith)

abbrev bob : DashboardUser
bob = record alice { id = 3; telegram_id = 902; last_seen_at = some 200 }

abbrev team : Desk
team = record desk { users = alice ∷ bob ∷ [] }

abbrev open_desk : Desk
open_desk = issue_session outside 200 "token-b" bob (issue_session outside 200 "token" alice team)

after_removal :
    (verify_session outside 220 true
      (some "token-b")
      (record (revoke_user 210 1 open_desk) { users = open_desk.users })).0
    ≡ some bob
unfolding verify_session revoke_user
after_removal = refl

removal_ends_session :
    (verify_session outside 220 true
      (some "token")
      (record (revoke_user 210 1 open_desk) { users = open_desk.users })).0
    ≡ none
unfolding verify_session revoke_user
removal_ends_session = refl

revoke_user_ends_sessions_example : ¬ (bob.id ≡ 1)
revoke_user_ends_sessions_example =
    revoke_user_ends_sessions outside 220 true 210 1 "token-b" open_desk open_desk.users bob
      after_removal

issue_session_admits_example :
    (verify_session outside 300 true
      (some "token")
      (issue_session outside 200 "token" alice desk)).0
    ≡ some (record alice { last_seen_at = some 200 })
issue_session_admits_example =
    issue_session_admits outside 300 true 200 "token" alice desk refl refl refl refl (omega arith)
