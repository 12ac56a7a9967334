-- ===== src/Tokens.antt =====
-- src/modules/auth/token.service.ts: refresh tokens with rotation and reuse detection, the list of
-- denied sessions, and one-time tokens. Times are milliseconds; a hash and the raw value that it
-- belongs to are numbers, and the hash function of the crypto library is a parameter.
pub mod Rotation
pub mod OneTime
use ai_hr_sytem.Base.{
  ℕ, suc, ◌+◌, ◌*◌, ◌/◌, Bool, true, false, not, ◌&&◌, ◌||◌, Option, none, some, List, [], ◌∷◌,
  ◌++◌, map, ltb, leb, ◌==◌, if◌then◌else◌, is_some, find, select, any, update_where, Action,
  unauthorized, not_found, pure, throw, gets, or_throw, ◌>>=◌, ◌>>◌, throw_if, modify,
}

pub record RefreshToken : Type 0 where
  pub id : ℕ
  pub user_id : ℕ
  pub token_hash : ℕ
  pub family_id : ℕ
  pub expires_at : ℕ
  pub revoked_at : Option ℕ
  pub replaced_by_id : Option ℕ
  pub created_at : ℕ

pub data OneTimeTokenType : Type 0 where
  invite password_reset : OneTimeTokenType

abbrev pub type_eq : OneTimeTokenType → OneTimeTokenType → Bool
type_eq OneTimeTokenType.invite OneTimeTokenType.invite = true
type_eq OneTimeTokenType.password_reset OneTimeTokenType.password_reset = true
type_eq _ _ = false

pub record OneTimeToken : Type 0 where
  pub user_id : ℕ
  pub type : OneTimeTokenType
  pub token_hash : ℕ
  pub expires_at : ℕ
  pub used_at : Option ℕ

-- A key of the deny list, until it expires.
pub record Denial : Type 0 where
  pub family_id : ℕ
  pub until : ℕ

pub record TokenStore : Type 0 where
  pub refresh_tokens : List RefreshToken
  pub one_time_tokens : List OneTimeToken
  pub denied : List Denial
  pub next_id : ℕ

-- The settings: lifetimes in milliseconds.
pub record TokenConfig : Type 0 where
  pub refresh_ttl_ms : ℕ
  pub access_ttl_seconds : ℕ

abbrev pub is_revoked : RefreshToken → Bool
is_revoked t = is_some t.revoked_at

-- `this.expiresAt.getTime() <= Date.now()`
abbrev pub is_expired : ℕ → RefreshToken → Bool
is_expired now t = leb t.expires_at now

-- ONE_TIME_TOKEN_TTL_MS
abbrev pub one_time_ttl_ms : OneTimeTokenType → ℕ
one_time_ttl_ms OneTimeTokenType.invite = 7 * 24 * 60 * 60 * 1000
one_time_ttl_ms OneTimeTokenType.password_reset = 60 * 60 * 1000

abbrev pub is_usable : ℕ → OneTimeToken → Bool
is_usable now t = not (is_some t.used_at) && ltb now t.expires_at

abbrev pub revoked_now : ℕ → RefreshToken → RefreshToken
revoked_now now t = record t { revoked_at = some now }

module _ (hash : ℕ → ℕ) (config : TokenConfig) (now : ℕ) where
  -- `denySessions`: one key for each family, for as long as an access token lives.
  unfoldable pub deny_sessions : List ℕ → TokenStore → TokenStore
  deny_sessions families s = record s {
    denied =
        s.denied
        ++ map (λ f. record { family_id = f; until = now + config.access_ttl_seconds * 1000 })
            families;
  }

  -- `revokeFamily`
  unfoldable pub revoke_family : ℕ → TokenStore → TokenStore
  unfolding deny_sessions
  revoke_family family s = deny_sessions (family ∷ []) (record s {
    refresh_tokens =
        update_where (λ t. (t.family_id == family) && not (is_revoked t)) (revoked_now now)
          s.refresh_tokens;
  })

  -- The row of a new token.
  abbrev pub new_token : ℕ → ℕ → ℕ → ℕ → RefreshToken
  new_token id user family raw = record {
    id = id;
    user_id = user;
    token_hash = hash raw;
    family_id = family;
    expires_at = now + config.refresh_ttl_ms;
    revoked_at = none;
    replaced_by_id = none;
    created_at = now;
  }

  -- `issuePair` with no predecessor: the row is added. `raw` is the random value that was drawn.
  unfoldable pub issue_pair : ℕ → ℕ → ℕ → TokenStore → TokenStore
  issue_pair user family raw s = record s {
    refresh_tokens = s.refresh_tokens ++ new_token s.next_id user family raw ∷ [];
    next_id = s.next_id + 1;
  }

  -- `issuePair` with a predecessor: the row is added, and the predecessor is revoked and linked.
  unfoldable pub issue_successor : ℕ → RefreshToken → TokenStore → TokenStore
  issue_successor raw old s = record s {
    refresh_tokens =
        update_where (λ t. t.id == old.id)
          (λ t. record t { revoked_at = some now; replaced_by_id = some s.next_id })
          (s.refresh_tokens ++ new_token s.next_id old.user_id old.family_id raw ∷ []);
    next_id = s.next_id + 1;
  }

  -- `issueForLogin`: `family` is the random id that was drawn.
  unfoldable pub issue_for_login : ℕ → ℕ → ℕ → Action TokenStore ℕ
  issue_for_login user family raw = modify (issue_pair user family raw) >> pure raw

  abbrev pub with_hash : ℕ → RefreshToken → Bool
  with_hash raw t = t.token_hash == hash raw

  -- What `rotate` does with the row that it found. Its user is there, by the foreign key: nothing
  -- deletes a user softly.
  unfoldable pub rotate_found : RefreshToken → ℕ → Action TokenStore ℕ
  rotate_found old fresh =
      if is_revoked old
      then (modify (revoke_family old.family_id)
          >> throw (unauthorized "Refresh token reuse detected; please log in again"))
      else if is_expired now old
      then throw (unauthorized "Refresh token expired")
      else (modify (issue_successor fresh old) >> pure old.user_id)

  -- `rotate`: `fresh` is the raw value of the successor.
  unfoldable pub rotate : ℕ → ℕ → Action TokenStore ℕ
  rotate raw fresh = do
    old ←
        or_throw (← gets (λ (s : TokenStore). find (with_hash raw) s.refresh_tokens))
          (unauthorized "Invalid refresh token")
    rotate_found old fresh

  -- `revokeByRawToken`: an unknown token is ignored.
  unfoldable pub revoke_by_raw_token : ℕ → TokenStore → TokenStore
  revoke_by_raw_token raw s = elim (find (with_hash raw) s.refresh_tokens) [
    | none ↦ s
    | some t ↦ revoke_family t.family_id s
  ]

  -- `revokeAllForUser`; a family that is listed twice is denied twice, with the same effect.
  unfoldable pub revoke_all_for_user : ℕ → TokenStore → TokenStore
  unfolding deny_sessions
  revoke_all_for_user user s =
      let live =
        select (λ (t : RefreshToken). (t.user_id == user) && not (is_revoked t)) s.refresh_tokens in
      deny_sessions (map RefreshToken.family_id live) (record s {
        refresh_tokens =
            update_where (λ t. (t.user_id == user) && not (is_revoked t)) (revoked_now now)
              s.refresh_tokens;
      })

  -- `revokeSession`
  unfoldable pub revoke_session : ℕ → ℕ → Action TokenStore (Unit {0})
  revoke_session user session = do
    owned ← gets λ (s : TokenStore).
        any (λ (t : RefreshToken). (t.user_id == user) && (t.family_id == session)) s.refresh_tokens
    throw_if (not owned) (not_found "Session not found")
    modify (revoke_family session)

  -- `isSessionRevoked`
  unfoldable pub is_session_revoked : ℕ → TokenStore → Bool
  is_session_revoked sid s = any (λ (d : Denial). (d.family_id == sid) && ltb now d.until) s.denied

  abbrev pub one_time_match : ℕ → OneTimeTokenType → OneTimeToken → Bool
  one_time_match raw type t = (t.token_hash == hash raw) && type_eq t.type type

  -- `issueOneTime`: unused tokens of the type are burnt, and a new one is added.
  unfoldable pub issue_one_time : ℕ → OneTimeTokenType → ℕ → TokenStore → TokenStore
  issue_one_time user type raw s = record s {
    one_time_tokens =
        update_where (λ t. (t.user_id == user) && type_eq t.type type && not (is_some t.used_at))
          (λ t. record t { used_at = some now }) s.one_time_tokens
        ++ record {
          user_id = user;
          type = type;
          token_hash = hash raw;
          expires_at = now + one_time_ttl_ms type;
          used_at = none;
        }
          ∷ [];
  }

  -- The row of a raw value, if it is still good: the common part of the next two.
  unfoldable pub usable_token : ℕ → OneTimeTokenType → Action TokenStore OneTimeToken
  usable_token raw type = do
    t ←
        or_throw (← gets (λ (s : TokenStore). find (one_time_match raw type) s.one_time_tokens))
          (unauthorized "Token is invalid or has expired")
    throw_if (not (is_usable now t)) (unauthorized "Token is invalid or has expired")
    pure t

  -- `peekOneTime`
  unfoldable pub peek_one_time : ℕ → OneTimeTokenType → Action TokenStore ℕ
  peek_one_time raw type = do t ← usable_token raw type; pure t.user_id

  -- `consumeOneTime`: the row is burnt; hashes are unique, so it is the row of this hash.
  unfoldable pub consume_one_time : ℕ → OneTimeTokenType → Action TokenStore ℕ
  consume_one_time raw type = do
    t ← usable_token raw type
    modify (λ (s : TokenStore). record s {
      one_time_tokens =
          update_where (λ (o : OneTimeToken). o.token_hash == t.token_hash)
            (λ o. record o { used_at = some now }) s.one_time_tokens;
    })
    pure t.user_id
