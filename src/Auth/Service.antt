-- ===== src/Auth/Service.antt =====
-- src/modules/auth/auth.service.ts: signing in and out, invitations and passwords. The hash of a
-- password, the signed challenge of the second factor and the random values are the libraries'.
use ai_hr_sytem.Base.{
  ℕ, Bool, false, not, Option, none, some, List, [], ◌∷◌, ◌++◌, ltb, ◌==◌, if◌then◌else◌, Action,
  HttpError, bad_request, unauthorized, pure, throw, gets, or_throw, ◌>>=◌, ◌>>◌, throw_if, modify,
}
use ai_hr_sytem.Tokens.{
  OneTimeTokenType, TokenStore, TokenConfig, issue_for_login, rotate, revoke_by_raw_token,
  revoke_all_for_user, issue_one_time, peek_one_time, consume_one_time,
}
use ai_hr_sytem.Auth.{
  UserStatus, User, AuthUser, FailureReason, unknown_user, locked, password, mfa, AuditEntry,
  login_failed, account_locked, logged_in, AuthEvent, locked_event, invited_event, reset_event,
  changed_event, AuthStore, is_active, is_invited, is_suspended, find_by_email, find_user,
  save_user, invalidate, get_auth_user, create_invited, record_failed_login,
}
use ai_hr_sytem.Auth.Mfa.{MfaLibrary, verify}

-- What the libraries do. A hash of a password is drawn with a salt.
pub record AuthLibrary : Type 0 where
  pub verify_password : ℕ → ℕ → Bool
  pub hash_password : ℕ → ℕ → ℕ
  pub token_hash : ℕ → ℕ
  pub sign_challenge : ℕ → ℕ → ℕ
  pub read_challenge : ℕ → ℕ → Option ℕ
  pub mfa : MfaLibrary

pub record AuthConfig : Type 0 where
  pub max_attempts : ℕ
  pub lock_minutes : ℕ
  pub tokens : TokenConfig

pub data LoginResult : Type 0 where
  session : ℕ → LoginResult
  mfa_required : ℕ → LoginResult

-- A call of the token service.
abbrev pub on_tokens : {A : Type 0} → Action TokenStore A → Action AuthStore A
on_tokens m s = let (r, t) = m s.tokens in (r, record s { tokens = t })

abbrev pub audit_auth : AuditEntry → AuthStore → AuthStore
audit_auth entry s = record s { audit = s.audit ++ entry ∷ [] }

abbrev pub emit : AuthEvent → AuthStore → AuthStore
emit event s = record s { events = s.events ++ event ∷ [] }

-- What is recorded when an attempt locked the account.
abbrev pub tell_locked : ℕ → Option ℕ → AuthStore → AuthStore
tell_locked id none s = s
tell_locked id (some t) s = emit (locked_event id t) (audit_auth (account_locked id t) s)

-- `ctx && ctx.status === ACTIVE`
abbrev pub is_admitted : Option AuthUser → Bool
is_admitted none = false
is_admitted (some c) = is_active c.status

-- `isLocked`
abbrev pub is_locked : ℕ → User → Bool
is_locked now u = elim u.locked_until as (λ _. Bool) [ none ↦ false | some t ↦ ltb now t ]

-- `assertCanLogin`
unfoldable pub assert_can_login : User → Action AuthStore (Unit {0})
assert_can_login u = do
  throw_if (is_suspended u.status) (unauthorized "Account is suspended")
  throw_if (is_invited u.status) (unauthorized "Accept your invitation to activate the account")

abbrev pub bad_login : HttpError
bad_login = unauthorized "Invalid email or password"

abbrev pub bad_code : HttpError
bad_code = unauthorized "Invalid authentication code"

module _ (lib : AuthLibrary) (config : AuthConfig) (now : ℕ) where
  -- `registerFailure`
  unfoldable pub register_failure : User → FailureReason → Action AuthStore (Unit {0})
  register_failure u reason = do
    modify (audit_auth (login_failed (some u.id) reason))
    until ← record_failed_login config.max_attempts config.lock_minutes now u.id
    modify (tell_locked u.id until)

  -- The row after a login.
  abbrev pub signed_in : User → User
  signed_in u = record u {
    failed_login_attempts = 0;
    locked_until = none;
    last_login_at = some now;
  }

  -- `completeLogin`: `family` and `raw` are drawn for the session.
  unfoldable pub complete_login : User → ℕ → ℕ → Action AuthStore LoginResult
  complete_login u family raw = do
    modify (save_user (signed_in u))
    modify (audit_auth (logged_in u.id u.mfa_enabled))
    token ← on_tokens (issue_for_login lib.token_hash config.tokens now u.id family raw)
    pure (session token)

  -- What `login` does with a row that has a password.
  unfoldable pub login_found : User → ℕ → ℕ → ℕ → ℕ → Action AuthStore LoginResult
  login_found u hash given family raw =
      if is_locked now u
      then (modify (audit_auth (login_failed (some u.id) locked)) >> throw bad_login)
      else if not (lib.verify_password hash given)
      then (register_failure u password >> throw bad_login)
      else (assert_can_login u
          >> (if u.mfa_enabled
              then pure (mfa_required (lib.sign_challenge u.id now))
              else complete_login u family raw))

  abbrev pub unknown_login : Action AuthStore LoginResult
  unknown_login = modify (audit_auth (login_failed none unknown_user)) >> throw bad_login

  abbrev pub login_with : User → Option ℕ → ℕ → ℕ → ℕ → Action AuthStore LoginResult
  login_with u none given family raw = unknown_login
  login_with u (some hash) given family raw = login_found u hash given family raw

  abbrev pub login_as : Option User → ℕ → ℕ → ℕ → Action AuthStore LoginResult
  login_as none given family raw = unknown_login
  login_as (some u) given family raw = login_with u u.password_hash given family raw

  -- `login`
  unfoldable pub login : ℕ → ℕ → ℕ → ℕ → Action AuthStore LoginResult
  login email given family raw = do
    user ← gets (find_by_email email)
    login_as user given family raw

  -- `verifyMfa`
  unfoldable pub verify_mfa : ℕ → ℕ → ℕ → ℕ → Action AuthStore LoginResult
  verify_mfa token code family raw = do
    id ← or_throw (lib.read_challenge token now) (unauthorized "MFA session expired; log in again")
    user ← find_user id
    throw_if (is_locked now user) bad_code
    assert_can_login user
    verified ← verify lib.mfa now user code
    elim verified as (λ _. Action AuthStore LoginResult) [
      | none ↦ register_failure user mfa >> throw bad_code
      | some u ↦ complete_login u family raw
    ]

  -- `refresh`: a login that may no longer sign in loses its sessions.
  abbrev pub refresh_for : ℕ → ℕ → Option AuthUser → Action AuthStore ℕ
  refresh_for user fresh ctx =
      if is_admitted ctx
      then pure fresh
      else (on_tokens (modify (revoke_all_for_user lib.token_hash config.tokens now user))
          >> throw (unauthorized "Account is not active"))

  unfoldable pub refresh : ℕ → ℕ → Action AuthStore ℕ
  refresh raw fresh = do
    user ← on_tokens (rotate lib.token_hash config.tokens now raw fresh)
    ctx ← get_auth_user user
    refresh_for user fresh ctx

  -- `logout`
  unfoldable pub logout : ℕ → Action AuthStore (Unit {0})
  logout raw = on_tokens (modify (revoke_by_raw_token lib.token_hash config.tokens now raw))

  -- `logoutAll`
  unfoldable pub logout_all : ℕ → Action AuthStore (Unit {0})
  logout_all user = on_tokens (modify (revoke_all_for_user lib.token_hash config.tokens now user))

  -- `sendInvite`, with the raw value of the link.
  unfoldable pub send_invite : User → ℕ → Action AuthStore (Unit {0})
  send_invite u raw = do
    on_tokens
        (modify (issue_one_time lib.token_hash config.tokens now u.id OneTimeTokenType.invite raw))
    modify (emit (invited_event u.id raw))

  -- `invite`
  unfoldable pub invite : ℕ → List ℕ → ℕ → Action AuthStore User
  invite email roles raw = do user ← create_invited email roles; send_invite user raw; pure user

  -- `resendInvite`
  unfoldable pub resend_invite : ℕ → ℕ → Action AuthStore (Unit {0})
  resend_invite id raw = do
    user ← find_user id
    throw_if (not (is_invited user.status)) (bad_request "User has already accepted their invite")
    send_invite user raw

  -- `acceptInvite`
  unfoldable pub accept_invite : ℕ → ℕ → ℕ → ℕ → ℕ → Action AuthStore ℕ
  accept_invite link given salt family raw = do
    id ← on_tokens (consume_one_time lib.token_hash config.tokens now link OneTimeTokenType.invite)
    user ← find_user id
    throw_if (not (is_invited user.status)) (bad_request "Invite has already been accepted")
    modify (
        save_user (record user {
          password_hash = some (lib.hash_password salt given);
          password_changed_at = some now;
          status = UserStatus.active;
          last_login_at = some now;
        }))
    modify (invalidate user.id)
    on_tokens (issue_for_login lib.token_hash config.tokens now user.id family raw)

  -- `requestPasswordReset`: nothing tells whether the address is known.
  unfoldable pub request_password_reset : ℕ → ℕ → AuthStore → AuthStore
  request_password_reset email raw s = elim (find_by_email email s) as (λ _. AuthStore) [
    | none ↦ s
    | some u ↦
        let type = OneTimeTokenType.password_reset in
        if is_active u.status
        then emit (reset_event u.id raw) (record s {
          tokens = issue_one_time lib.token_hash config.tokens now u.id type raw s.tokens;
        })
        else s
  ]

  -- The row with a new password.
  abbrev pub with_password : ℕ → ℕ → User → User
  with_password given salt u = record u {
    password_hash = some (lib.hash_password salt given);
    password_changed_at = some now;
  }

  -- `applyNewPassword`
  unfoldable pub apply_new_password : User → ℕ → ℕ → Action AuthStore (Unit {0})
  apply_new_password u given salt = do
    modify (save_user (with_password given salt u))
    on_tokens (modify (revoke_all_for_user lib.token_hash config.tokens now u.id))
    modify (invalidate u.id)
    modify (emit (changed_event u.id))

  -- The second factor of a reset: no answer, a wrong one, or the row once it is used up.
  abbrev pub reset_verdict : User → Option User → Action AuthStore User
  reset_verdict u none = register_failure u mfa >> throw bad_code
  reset_verdict u (some v) = pure v

  abbrev pub reset_code : User → Option ℕ → Action AuthStore User
  reset_code u none = throw (unauthorized "MFA_REQUIRED")
  reset_code u (some c) = verify lib.mfa now u c >>= reset_verdict u

  unfoldable pub check_reset_code : User → Option ℕ → Action AuthStore User
  check_reset_code u code = if u.mfa_enabled then reset_code u code else pure u

  -- `resetPassword`, in steps: the code is checked before the link is used up.
  abbrev pub reset_checked : ℕ → ℕ → ℕ → User → Action AuthStore (Unit {0})
  reset_checked link given salt checked =
      on_tokens
        (consume_one_time lib.token_hash config.tokens now link OneTimeTokenType.password_reset)
      >> apply_new_password checked given salt

  abbrev pub reset_found : ℕ → ℕ → Option ℕ → ℕ → User → Action AuthStore (Unit {0})
  reset_found link given code salt user =
      assert_can_login user >> (check_reset_code user code >>= reset_checked link given salt)

  unfoldable pub reset_password : ℕ → ℕ → Option ℕ → ℕ → Action AuthStore (Unit {0})
  reset_password link given code salt = do
    id ←
        on_tokens
          (peek_one_time lib.token_hash config.tokens now link OneTimeTokenType.password_reset)
    user ← find_user id
    reset_found link given code salt user

  abbrev pub is_password : ℕ → User → Bool
  is_password current u = elim u.password_hash as (λ _. Bool) [
    | none ↦ false
    | some h ↦ lib.verify_password h current
  ]

  abbrev pub change_found : ℕ → ℕ → ℕ → User → Action AuthStore (Unit {0})
  change_found current given salt user =
      throw_if (not (is_password current user)) (unauthorized "Current password is incorrect")
      >> (throw_if (current == given) (bad_request "New password must differ from the current one")
          >> apply_new_password user given salt)

  -- `changePassword`
  unfoldable pub change_password : ℕ → ℕ → ℕ → ℕ → Action AuthStore (Unit {0})
  change_password id current given salt = do
    user ← find_user id
    change_found current given salt user

  -- `forceSetPassword`
  unfoldable pub force_set_password : ℕ → ℕ → ℕ → Action AuthStore (Unit {0})
  force_set_password id given salt = do user ← find_user id; apply_new_password user given salt
