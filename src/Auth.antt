-- ===== src/Auth.antt =====
-- src/modules/users/users.service.ts, its entity, and the part of src/modules/rbac/rbac.service.ts
-- that signing in relies on: the logins, the failed attempts, and the cached context of a login.
-- Times are milliseconds; e-mail addresses, names of roles, passwords and codes are numbers.
pub mod Lockout
pub mod SignOut
pub mod Suspension
pub mod Service
pub mod Mfa
use ai_hr_sytem.Base.{
  ℕ, ◌+◌, ◌*◌, Bool, true, false, not, ◌&&◌, Option, none, some, List, [], ◌∷◌, ◌++◌, leb, ltb,
  ◌==◌, if◌then◌else◌, is_some, find, select, any, includes, update_where, Action, bad_request,
  conflict, not_found, ok, pure, throw, gets, or_throw, ◌>>=◌, ◌>>◌, throw_if, modify,
}
use ai_hr_sytem.Tokens.{TokenStore}

pub data UserStatus : Type 0 where
  invited active suspended : UserStatus

pub record User : Type 0 where
  pub id : ℕ
  pub email : ℕ
  pub password_hash : Option ℕ
  pub status : UserStatus
  pub last_login_at : Option ℕ
  pub password_changed_at : Option ℕ
  pub mfa_enabled : Bool
  pub mfa_secret : Option ℕ
  pub mfa_last_step : Option ℕ
  pub mfa_recovery_codes : List ℕ
  pub failed_login_attempts : ℕ
  pub locked_until : Option ℕ
  pub roles : List ℕ
  pub is_deleted : Bool

-- The cached context of a login.
pub record AuthUser : Type 0 where
  pub id : ℕ
  pub status : UserStatus
  pub roles : List ℕ
  pub password_changed_at : Option ℕ
  pub mfa_enabled : Bool

pub data FailureReason : Type 0 where
  unknown_user locked password mfa : FailureReason

-- The entries that signing in leaves in the audit log.
pub data AuditEntry : Type 0 where
  login_failed : Option ℕ → FailureReason → AuditEntry
  account_locked : ℕ → ℕ → AuditEntry
  logged_in : ℕ → Bool → AuditEntry

-- src/modules/auth/auth.events.ts: the mails that are sent, with the raw value of a link.
pub data AuthEvent : Type 0 where
  locked_event : ℕ → ℕ → AuthEvent
  invited_event : ℕ → ℕ → AuthEvent
  reset_event : ℕ → ℕ → AuthEvent
  changed_event : ℕ → AuthEvent

pub record AuthStore : Type 0 where
  pub users : List User
  pub next_user_id : ℕ
  pub known_roles : List ℕ
  pub cache : List AuthUser
  pub tokens : TokenStore
  pub audit : List AuditEntry
  pub events : List AuthEvent

abbrev pub is_active : UserStatus → Bool
is_active UserStatus.active = true
is_active _ = false

abbrev pub is_invited : UserStatus → Bool
is_invited UserStatus.invited = true
is_invited _ = false

abbrev pub is_suspended : UserStatus → Bool
is_suspended UserStatus.suspended = true
is_suspended _ = false

abbrev pub has_id : ℕ → User → Bool
has_id id u = (u.id == id) && not u.is_deleted

-- `findByEmail`
unfoldable pub find_by_email : ℕ → AuthStore → Option User
find_by_email email s = find (λ (u : User). (u.email == email) && not u.is_deleted) s.users

-- `findById`
unfoldable pub find_user : ℕ → Action AuthStore User
find_user id = do
  or_throw (← gets (λ (s : AuthStore). find (has_id id) s.users)) (not_found "User not found")

-- `users.save(user)`
abbrev pub save_user : User → AuthStore → AuthStore
save_user u s = record s { users = update_where (λ (x : User). x.id == u.id) (λ _. u) s.users }

-- `rbac.invalidateAuthUser`
abbrev pub invalidate : ℕ → AuthStore → AuthStore
invalidate id s = record s { cache = select (λ (c : AuthUser). not (c.id == id)) s.cache }

-- The context that `getAuthUser` builds from a row.
abbrev pub context_of : User → AuthUser
context_of u = record {
  id = u.id;
  status = u.status;
  roles = u.roles;
  password_changed_at = u.password_changed_at;
  mfa_enabled = u.mfa_enabled;
}

-- `rbac.getAuthUser`: the cached context, or else that of the row, which is then cached.
abbrev pub answer_context : Option AuthUser → Option User → Action AuthStore (Option AuthUser)
answer_context (some c) row s = (ok (some c), s)
answer_context none none s = (ok none, s)
answer_context none (some u) s =
    (ok (some (context_of u)), record s { cache = context_of u ∷ s.cache })

unfoldable pub get_auth_user : ℕ → Action AuthStore (Option AuthUser)
get_auth_user id s =
    answer_context (find (λ (c : AuthUser). c.id == id) s.cache) (find (has_id id) s.users) s

-- `rbac.findRolesByNames`
unfoldable pub find_roles_by_names : List ℕ → Action AuthStore (List ℕ)
find_roles_by_names names = do
  known ← gets (λ (s : AuthStore). s.known_roles)
  throw_if (any (λ n. not (includes known n)) names) (bad_request "Unknown role(s)")
  pure (select (includes names) known)

abbrev pub new_user : ℕ → ℕ → List ℕ → User
new_user id email roles = record {
  id = id;
  email = email;
  password_hash = none;
  status = UserStatus.invited;
  last_login_at = none;
  password_changed_at = none;
  mfa_enabled = false;
  mfa_secret = none;
  mfa_last_step = none;
  mfa_recovery_codes = [];
  failed_login_attempts = 0;
  locked_until = none;
  roles = roles;
  is_deleted = false;
}

-- `createInvited`: a deleted login keeps its address.
unfoldable pub create_invited : ℕ → List ℕ → Action AuthStore User
create_invited email names = do
  throw_if (← gets (λ (s : AuthStore). any (λ (u : User). u.email == email) s.users))
      (conflict "A user with this email already exists")
  roles ← find_roles_by_names names
  id ← gets (λ (s : AuthStore). s.next_user_id)
  modify (λ (s : AuthStore). record s {
    users = s.users ++ new_user id email roles ∷ [];
    next_user_id = id + 1;
  })
  pure (new_user id email roles)

-- `setRoles`
unfoldable pub set_roles : ℕ → List ℕ → Action AuthStore (Unit {0})
set_roles id names = do
  user ← find_user id
  roles ← find_roles_by_names names
  modify (save_user (record user { roles = roles }))
  modify (invalidate id)

-- `setStatus`
unfoldable pub set_status : ℕ → UserStatus → ℕ → Action AuthStore (Unit {0})
set_status id status actor = do
  throw_if (id == actor) (bad_request "You cannot change your own status")
  user ← find_user id
  throw_if (is_invited user.status && is_active status)
      (bad_request "User must accept their invite to become active")
  modify (save_user (record user { status = status }))
  modify (invalidate id)

-- `unlock`
unfoldable pub unlock : ℕ → Action AuthStore (Unit {0})
unlock id = do
  user ← find_user id
  modify (save_user (record user { failed_login_attempts = 0; locked_until = none }))

module _ (max_attempts lock_minutes now : ℕ) where
  -- The row after one more failed attempt.
  abbrev pub with_failure : User → User
  with_failure u =
      if leb max_attempts (u.failed_login_attempts + 1)
      then record u { locked_until = some (now + lock_minutes * 60000); failed_login_attempts = 0 }
      else record u { failed_login_attempts = u.failed_login_attempts + 1 }

  -- `recordFailedLogin`: one statement on the row, whose new columns are read back.
  unfoldable pub record_failed_login : ℕ → Action AuthStore (Option ℕ)
  record_failed_login id = do
    modify (λ (s : AuthStore). record s {
      users = update_where (λ (u : User). u.id == id) with_failure s.users;
    })
    row ← gets (λ (s : AuthStore). find (λ (u : User). u.id == id) s.users)
    pure (elim row as (λ _. Option ℕ) [
      | none ↦ none
      | some u ↦ if u.failed_login_attempts == 0 then u.locked_until else none
    ])
