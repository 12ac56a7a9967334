-- ===== src/Tokens/OneTime.antt =====
-- One-time tokens: each is good for one use, and only the newest of its kind.
use ai_hr_sytem.Base.{
  ltb, if◌then◌else◌, ℕ, ◌+◌, ◌≡◌, refl, ap, inl, inr, arith, Bool, true, false, not, ◌&&◌, none,
  some, List, [], ◌∷◌, ◌++◌, ◌==◌, is_some, find, any, update_where, Option-cases, Bool-cases, ok,
  err, HttpError, Result-cases, unauthorized,
}
use ai_hr_sytem.Tokens.{
  OneTimeToken, OneTimeTokenType, type_eq, TokenStore, TokenConfig, one_time_ttl_ms, is_usable,
  one_time_match, issue_one_time, usable_token, consume_one_time,
}

module _ (hash : ℕ → ℕ) (config : TokenConfig) where
  peek_found :
      (now raw : ℕ) (type : OneTimeTokenType) (s : TokenStore) (t : OneTimeToken)
      → (usable_token hash config now raw type s).0 ≡ ok t
      → (find (one_time_match hash config now raw type) s.one_time_tokens ≡ some t)
        × (is_usable now t ≡ true)
        × ((usable_token hash config now raw type s).1 ≡ s)
  unfolding usable_token
  peek_found now raw type s t h =
      elim (Option-cases (find (one_time_match hash config now raw type) s.one_time_tokens)) [
        | inl e ↦ absurd (ground arith)
        | inr (x, e) ↦ elim (Bool-cases (is_usable now x)) [
          | inl u ↦ ground arith
          | inr u ↦ absurd (ground arith)
        ]
      ]

  burnt :
      (now later raw : ℕ) (type : OneTimeTokenType) (l : List OneTimeToken) (t : OneTimeToken)
      → find (one_time_match hash config now raw type) l ≡ some t
      → find (one_time_match hash config later raw type) (
          update_where
            (λ (o : OneTimeToken). o.token_hash == t.token_hash)
            (λ o. record o { used_at = some now })
            l)
        ≡ some (record t { used_at = some now })
  burnt now later raw type [] t h = absurd (ground arith)
  burnt now later raw type (x ∷ l) t h = ground (arith, burnt now later raw type l t)

  consumed_state :
      (now raw : ℕ) (type : OneTimeTokenType) (s : TokenStore) (t : OneTimeToken)
      → (usable_token hash config now raw type s).0 ≡ ok t
      → consume_one_time hash config now raw type s ≡ (
        ok t.user_id,
        record s {
          one_time_tokens =
              update_where
                (λ (o : OneTimeToken). o.token_hash == t.token_hash)
                (λ o. record o { used_at = some now })
                s.one_time_tokens;
        },
      )
  unfolding consume_one_time
  consumed_state now raw type s t h = ground (arith, peek_found now raw type s t h)

  consume_refused :
      (now raw : ℕ) (type : OneTimeTokenType) (s : TokenStore) (x : HttpError)
      → (usable_token hash config now raw type s).0 ≡ err x
      → (consume_one_time hash config now raw type s).0 ≡ err x
  unfolding consume_one_time
  consume_refused now raw type s x h = ground arith

  peek_burnt :
      (later raw : ℕ) (type : OneTimeTokenType) (s : TokenStore) (t : OneTimeToken)
      → find (one_time_match hash config later raw type) s.one_time_tokens ≡ some t
      → is_usable later t ≡ false
      → (usable_token hash config later raw type s).0
        ≡ err (unauthorized "Token is invalid or has expired")
  unfolding usable_token
  peek_burnt later raw type s t e u = ground arith

  -- A one-time token that was consumed is refused whenever it is presented again, at any time.
  pub consume_once :
      (now later raw : ℕ) (type : OneTimeTokenType) (s : TokenStore) {user : ℕ}
      → (consume_one_time hash config now raw type s).0 ≡ ok user
      → (consume_one_time hash config later raw type
          (consume_one_time hash config now raw type s).1).0
        ≡ err (unauthorized "Token is invalid or has expired")
  consume_once now later raw type s {user} h =
      elim (Result-cases (usable_token hash config now raw type s).0) [
        | inr (x, e) ↦ absurd (ground (arith, consume_refused now raw type s x e))
        | inl (t, e) ↦
            let (found, usable, same) = peek_found now raw type s t e in
            let state = consumed_state now raw type s t e in
            rw state (
              consume_refused later raw type _ _ (
                peek_burnt later raw type _ (record t { used_at = some now })
                  (burnt now later raw type s.one_time_tokens t found) refl))
      ]

  find_new :
      (now later raw user : ℕ) (type : OneTimeTokenType) (p : OneTimeToken → Bool)
      (l : List OneTimeToken) (t : OneTimeToken)
      → any (one_time_match hash config later raw type) l ≡ false
      → one_time_match hash config later raw type t ≡ true
      → find
          (one_time_match hash config later raw type)
          (update_where p (λ o. record o { used_at = some now }) l ++ t ∷ [])
        ≡ some t
  find_new now later raw user type p [] t h k = ground arith
  find_new now later raw user type p (x ∷ l) t h k =
      ground (arith, find_new now later raw user type p l t)

  peek_usable :
      (later raw : ℕ) (type : OneTimeTokenType) (s : TokenStore) (t : OneTimeToken)
      → find (one_time_match hash config later raw type) s.one_time_tokens ≡ some t
      → is_usable later t ≡ true
      → (usable_token hash config later raw type s).0 ≡ ok t
  unfolding usable_token
  peek_usable later raw type s t e u = ground arith

  abbrev issued : ℕ → ℕ → OneTimeTokenType → ℕ → OneTimeToken
  issued now user type raw = record {
    user_id = user;
    type = type;
    token_hash = hash raw;
    expires_at = now + one_time_ttl_ms type;
    used_at = none;
  }

  same_type : (type : OneTimeTokenType) → type_eq type type ≡ true
  same_type OneTimeTokenType.invite = refl
  same_type OneTimeTokenType.password_reset = refl

  find-issued :
      (now later raw user : ℕ) (type : OneTimeTokenType) (s : TokenStore)
      → any (one_time_match hash config later raw type) s.one_time_tokens ≡ false
      → find
          (one_time_match hash config later raw type)
          (issue_one_time hash config now user type raw s).one_time_tokens
        ≡ some (issued now user type raw)
  unfolding issue_one_time
  find-issued now later raw user type s fresh =
      find_new now later raw user type
        (λ t. (t.user_id == user) && type_eq t.type type && not (is_some t.used_at))
        s.one_time_tokens (issued now user type raw) fresh (ground (arith, same_type type))

  -- A fresh one-time token is accepted for the user it was issued to until it expires, and is
  -- refused from that moment on; no earlier token of the type has the hash of its raw value.
  pub issue-consume :
      (now later raw user : ℕ) (type : OneTimeTokenType) (s : TokenStore)
      → any (one_time_match hash config later raw type) s.one_time_tokens ≡ false
      → (consume_one_time hash config later raw type
          (issue_one_time hash config now user type raw s)).0
        ≡ (if ltb later (now + one_time_ttl_ms type)
            then ok user
            else err (unauthorized "Token is invalid or has expired"))
  issue-consume now later raw user type s fresh =
      let t = issued now user type raw in
      let u = issue_one_time hash config now user type raw s in
      let found = find-issued now later raw user type s fresh in
      elim (Bool-cases (ltb later (now + one_time_ttl_ms type))) [
        | inl h ↦ rw h (
            ap (λ v. v.0)
              (consumed_state later raw type u t
                (peek_usable later raw type u t found (ground arith))))
        | inr h ↦ rw h (
            consume_refused later raw type u _ (peek_burnt later raw type u t found (ground arith)))
      ]
