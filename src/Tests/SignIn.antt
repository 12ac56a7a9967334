-- ===== src/Tests/SignIn.antt =====
-- An account with one session, a password that is its own hash, and a limit of two attempts.
use ai_hr_sytem.Base.{
  ℕ, ◌≡◌, refl, arith, false, none, some, [], ◌∷◌, ◌==◌, any, Result, ok, err, unauthorized,
}
use ai_hr_sytem.Tokens.{revoke_all_for_user, deny_sessions}
use ai_hr_sytem.Auth.{UserStatus, User, AuthStore, find_user, find_by_email, set_status, context_of}
use ai_hr_sytem.Auth.Mfa.{MfaLibrary}
use ai_hr_sytem.Auth.Service.{
  AuthLibrary, AuthConfig, bad_login, login, refresh, change_password, apply_new_password,
}
use ai_hr_sytem.Auth.Lockout.{Guess, after, locked_out}
use ai_hr_sytem.Auth.SignOut.{is_live, IsReset, by_current, account_of, set_password-IsReset}
use ai_hr_sytem.Auth.Suspension.{suspended_refresh}
use ai_hr_sytem.Tests.Sessions.{one_session, short_lived, same_hash, one_token}

abbrev no_mfa : MfaLibrary
no_mfa = record {
  is_six_digits = λ code. false;
  match_step = λ seed code now. none;
  hash_code = λ code. code;
  required_roles = [];
}

abbrev plain : AuthLibrary
plain = record {
  verify_password = λ hash given. hash == given;
  hash_password = λ salt given. given;
  token_hash = same_hash;
  sign_challenge = λ user now. user;
  read_challenge = λ token now. some token;
  mfa = no_mfa;
}

abbrev two_attempts : AuthConfig
two_attempts = record { max_attempts = 2; lock_minutes = 15; tokens = short_lived }

abbrev account : User
account = record {
  id = 7;
  email = 70;
  password_hash = some 123;
  status = UserStatus.active;
  last_login_at = none;
  password_changed_at = none;
  mfa_enabled = false;
  mfa_secret = none;
  mfa_last_step = none;
  mfa_recovery_codes = [];
  failed_login_attempts = 0;
  locked_until = none;
  roles = [];
  is_deleted = false;
}

abbrev accounts : AuthStore
accounts = record {
  users = account ∷ [];
  next_user_id = 8;
  known_roles = [];
  cache = context_of account ∷ [];
  tokens = one_session;
  audit = [];
  events = [];
}

abbrev one_guess : Guess
one_guess = record { at = 5000; given = 1 }

abbrev last_guess : Guess
last_guess = record { at = 5001; given = 2 }

on_file : find_by_email 70 accounts ≡ some account
unfolding find_by_email
on_file = refl

abbrev shut : AuthStore
shut = after plain two_attempts 70 3 40 (one_guess ∷ last_guess ∷ []) accounts

locked_out_example :
    ((login plain two_attempts 6000 70 123 4 41 shut).0 ≡ err bad_login)
    × ((login plain two_attempts 6000 70 123 4 41 shut).1.tokens ≡ one_session)
locked_out_example =
    locked_out plain two_attempts 70 3 40 account 123 refl refl (one_guess ∷ []) last_guess accounts
      (refl, (refl, tt)) refl on_file 6000 123 4 41 (omega arith)

changes : (change_password plain two_attempts 5500 7 123 456 9 accounts).0 ≡ ok tt
unfolding change_password find_user apply_new_password revoke_all_for_user deny_sessions
changes = refl

set_password-IsReset_example :
    (id : ℕ) × (account_of plain two_attempts 5500 456 9 (by_current 7 123) accounts ≡ ok id)
    × IsReset plain id 456 9 (change_password plain two_attempts 5500 7 123 456 9 accounts).1
set_password-IsReset_example =
    set_password-IsReset plain two_attempts 5500 456 9 (by_current 7 123) accounts changes

suspends : (set_status 7 UserStatus.suspended 1 accounts).0 ≡ ok tt
unfolding set_status find_user
suspends = refl

abbrev refused : Result ℕ × AuthStore
refused = refresh plain two_attempts 5500 40 41 (set_status 7 UserStatus.suspended 1 accounts).1

suspended_refresh_example :
    (refused.0 ≡ err (unauthorized "Account is not active"))
    × (any (is_live 7) refused.1.tokens.refresh_tokens ≡ false)
suspended_refresh_example =
    suspended_refresh plain two_attempts 5500 7 1 40 41 accounts one_token suspends refl refl refl
      refl
