-- ===== src/Auth/Mfa.antt =====
-- src/modules/auth/mfa.service.ts: the second factor. The sealed box, the one-time codes of an
-- authenticator, the hash of a recovery code and the random values are the libraries'; a code is
-- the number of its text without spaces and in lower case.
use ai_hr_sytem.Base.{
  ℕ, Bool, true, false, not, Option, none, some, List, [], map, leb, ◌==◌, if◌then◌else◌, is_some,
  select, any, includes, Action, bad_request, pure, ◌>>=◌, ◌>>◌, throw_if, modify,
}
use ai_hr_sytem.Auth.{User, AuthStore, find_user, save_user, invalidate}

-- What the libraries do.
pub record MfaLibrary : Type 0 where
  pub is_six_digits : ℕ → Bool
  pub match_step : ℕ → ℕ → ℕ → Option ℕ  -- seed, code, now
  pub hash_code : ℕ → ℕ
  pub required_roles : List ℕ

-- An accepted row is saved.
abbrev pub keep_accepted : Option User → Action AuthStore (Option User)
keep_accepted none = pure none
keep_accepted (some v) = modify (save_user v) >> pure (some v)

module _ (lib : MfaLibrary) (now : ℕ) where
  -- `isRequiredFor`
  abbrev pub is_required_for : List ℕ → Bool
  is_required_for = any (includes lib.required_roles)

  -- The row once a code is accepted, which uses the code up.
  unfoldable pub accepted : User → ℕ → Option User
  accepted u code = elim u.mfa_secret as (λ _. Option User) [
    | none ↦ none
    | some secret ↦
        if not u.mfa_enabled
        then none
        else if lib.is_six_digits code
        then elim (lib.match_step secret code now) as (λ _. Option User) [
          | none ↦ none
          | some step ↦
              let fresh = elim u.mfa_last_step as (λ _. Bool) [
                | none ↦ true
                | some last ↦ not (leb step last)
              ] in
              if fresh then some (record u { mfa_last_step = some step }) else none
        ]
        else if includes u.mfa_recovery_codes (lib.hash_code code)
        then some (record u {
          mfa_recovery_codes = select (λ h. not (h == lib.hash_code code)) u.mfa_recovery_codes;
        })
        else none
  ]

  -- `verify`: the row is saved, and returned as the caller's object then is.
  unfoldable pub verify : User → ℕ → Action AuthStore (Option User)
  verify u code = keep_accepted (accepted u code)

  -- `beginSetup`, with the seed that was drawn, sealed.
  unfoldable pub begin_setup : ℕ → ℕ → Action AuthStore (Unit {0})
  begin_setup user_id secret = do
    user ← find_user user_id
    throw_if user.mfa_enabled (bad_request "MFA is already enabled")
    modify (save_user (record user { mfa_secret = some secret }))

  -- `enable`, with the recovery codes that were drawn.
  unfoldable pub enable : ℕ → ℕ → List ℕ → Action AuthStore (Unit {0})
  enable user_id code fresh = do
    user ← find_user user_id
    throw_if user.mfa_enabled (bad_request "MFA is already enabled")
    throw_if (not (is_some user.mfa_secret)) (bad_request "Start MFA setup first")
    let step = elim user.mfa_secret as (λ _. Option ℕ) [
      | none ↦ none
      | some x ↦ lib.match_step x code now
    ]
    throw_if (not (is_some step)) (bad_request "Invalid code")
    modify (
        save_user (record user {
          mfa_enabled = true;
          mfa_last_step = step;
          mfa_recovery_codes = map lib.hash_code fresh;
        }))
    modify (invalidate user_id)

  -- `regenerateRecoveryCodes`
  unfoldable pub regenerate_recovery_codes : ℕ → ℕ → List ℕ → Action AuthStore (Unit {0})
  regenerate_recovery_codes user_id code fresh = do
    user ← find_user user_id
    throw_if (not user.mfa_enabled) (bad_request "MFA is not enabled")
    throw_if (not (lib.is_six_digits code))
        (bad_request "Enter a current code from your authenticator app")
    verified ← verify user code
    throw_if (not (is_some verified))
        (bad_request "Enter a current code from your authenticator app")
    modify (λ (s : AuthStore). elim verified as (λ _. AuthStore) [
      | none ↦ s
      | some v ↦ save_user (record v { mfa_recovery_codes = map lib.hash_code fresh }) s
    ])

  -- `clear`
  abbrev pub cleared : User → User
  cleared u = record u {
    mfa_enabled = false;
    mfa_secret = none;
    mfa_last_step = none;
    mfa_recovery_codes = [];
  }

  -- `disable`
  unfoldable pub disable : ℕ → ℕ → Action AuthStore (Unit {0})
  disable user_id code = do
    user ← find_user user_id
    throw_if (not user.mfa_enabled) (bad_request "MFA is not enabled")
    throw_if (is_required_for user.roles) (bad_request "MFA is mandatory for your role")
    verified ← verify user code
    throw_if (not (is_some verified)) (bad_request "Invalid code")
    modify (save_user (cleared user))
    modify (invalidate user_id)

  -- `reset`
  unfoldable pub reset : ℕ → Action AuthStore (Unit {0})
  reset user_id = do
    user ← find_user user_id
    modify (save_user (cleared user))
    modify (invalidate user_id)
