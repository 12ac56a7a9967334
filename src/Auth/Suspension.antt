-- ===== src/Auth/Suspension.antt =====
-- `setStatus` of the users and `refresh`: a suspended login, whose context may have been cached.
use ai_hr_sytem.Base.{
  ℕ, ◌≡◌, refl, sym, ap, ◌∙◌, arith, true, false, not, ◌&&◌, Option, none, some, List, [], ◌∷◌,
  ◌==◌, find, any, select, update_where, ok, err, unauthorized, bad_request, modify, ◌>>=◌, ◌>>◌,
  >>=_ok, >>=_inv, throw_if, throw_if_inv,
}
use ai_hr_sytem.Tokens.{
  RefreshToken, TokenStore, with_hash, is_revoked, is_expired, rotate, rotate_found,
}
use ai_hr_sytem.Tokens.Rotation.{revoke_all_for_user_lem}
use ai_hr_sytem.Auth.{
  UserStatus, User, AuthUser, AuthStore, has_id, find_user, save_user, invalidate, get_auth_user,
  set_status, is_active, is_invited, context_of, answer_context,
}
use ai_hr_sytem.Auth.Service.{AuthLibrary, AuthConfig, on_tokens, refresh, refresh_for, is_admitted}
use ai_hr_sytem.Auth.SignOut.{is_live, find_user_inv}

saved_found :
    (l : List User) (id : ℕ) (u v : User)
    → find (has_id id) l ≡ some u
    → has_id id v ≡ true
    → find (has_id id) (update_where (λ (x : User). x.id == v.id) (λ _. v) l) ≡ some v
saved_found [] id u v h k = ground arith
saved_found (x ∷ l) id u v h k = ground (arith, saved_found l id u v)

has_id_found :
    (l : List User) (id : ℕ) (u : User) → find (has_id id) l ≡ some u → has_id id u ≡ true
has_id_found [] id u h = ground arith
has_id_found (x ∷ l) id u h = ground (arith, has_id_found l id u)

not_cached :
    (l : List AuthUser) (id : ℕ)
    → find (λ (c : AuthUser). c.id == id) (select (λ (c : AuthUser). not (c.id == id)) l) ≡ none
not_cached [] id = refl
not_cached (c ∷ l) id = ground (arith, not_cached l id)

-- What a change of status that answers leaves behind.
record HasStatus (id : ℕ) (status : UserStatus) (s t : AuthStore) : Type 0 where
  row : User
  found : find (has_id id) t.users ≡ some row
  set : row.status ≡ status
  kept : t.tokens ≡ s.tokens
  cold : find (λ (c : AuthUser). c.id == id) t.cache ≡ none

set_status-HasStatus :
    (id : ℕ) (status : UserStatus) (actor : ℕ) (s : AuthStore)
    → (set_status id status actor s).0 ≡ ok tt
    → HasStatus id status s (set_status id status actor s).1
unfolding set_status
set_status-HasStatus id status actor s h =
    let write =
      λ (u : User). modify (save_user (record u { status = status })) >> modify (invalidate id) in
    let own = bad_request "You cannot change your own status" in
    let early = bad_request "User must accept their invite to become active" in
    let guard = λ (u : User). is_invited u.status && is_active status in
    let body = λ (u : User). throw_if (guard u) early >> write u in
    let e1 = throw_if_inv (id == actor) own (find_user id >>= body) s tt h in
    let h1 = sym (ap (λ x. x.0) e1) ∙ h in
    let (u, a, b) = >>=_inv (find_user id) body s tt h1 in
    let (c, d) = find_user_inv id s u a in
    let h2 = sym (ap (λ x. x.0) (b ∙ ap (body u) d)) ∙ h1 in
    let e2 = throw_if_inv (guard u) early (write u) s tt h2 in
    rw (ap (λ x. x.1) (e1 ∙ b ∙ ap (body u) d ∙ e2)) (record {
      row = record u { status = status };
      found =
          saved_found s.users id u (record u { status = status }) c (has_id_found s.users id u c);
      set = refl;
      kept = refl;
      cold = not_cached s.cache id;
    })

module _ (lib : AuthLibrary) (config : AuthConfig) (now : ℕ) where
  context_of_set :
      (id : ℕ) (status : UserStatus) (s t : AuthStore) (h : HasStatus id status s t)
      → get_auth_user id t
        ≡ (ok (some (context_of h.row)), record t { cache = context_of h.row ∷ t.cache })
  unfolding get_auth_user
  context_of_set id status s t h =
      ap (λ c. answer_context c (find (has_id id) t.users) t) h.cold
      ∙ ap (λ r. answer_context none r t) h.found

  rotated :
      (raw fresh : ℕ) (s : TokenStore) (old : RefreshToken)
      → find (with_hash lib.token_hash config.tokens now raw) s.refresh_tokens ≡ some old
      → is_revoked old ≡ false
      → is_expired now old ≡ false
      → (rotate lib.token_hash config.tokens now raw fresh s).0 ≡ ok old.user_id
  unfolding rotate rotate_found
  rotated raw fresh s old a b c = rw (a, b, c) refl

  -- Once a login is suspended, a refresh token of it that was still good is refused, whatever
  -- context was cached before, and no session of the login is left open.
  pub suspended_refresh :
      (id actor raw fresh : ℕ) (s : AuthStore) (old : RefreshToken)
      → (set_status id UserStatus.suspended actor s).0 ≡ ok tt
      → find (with_hash lib.token_hash config.tokens now raw) s.tokens.refresh_tokens ≡ some old
      → old.user_id ≡ id
      → is_revoked old ≡ false
      → is_expired now old ≡ false
      → let answer =
          refresh lib config now raw fresh (set_status id UserStatus.suspended actor s).1 in
        (answer.0 ≡ err (unauthorized "Account is not active"))
        × (any (is_live id) answer.1.tokens.refresh_tokens ≡ false)
  unfolding refresh
  suspended_refresh id actor raw fresh s old h a b c d =
      let t = (set_status id UserStatus.suspended actor s).1 in
      let set = set_status-HasStatus id UserStatus.suspended actor s h in
      let turn = on_tokens (rotate lib.token_hash config.tokens now raw fresh) in
      let t1 = (turn t).1 in
      let old_found : find (with_hash lib.token_hash config.tokens now raw) t.tokens.refresh_tokens
          ≡ some old =
        ap (λ x. find (with_hash lib.token_hash config.tokens now raw) x.refresh_tokens) set.kept
        ∙ a in
      let r : turn t ≡ (ok id, t1) =
        ap (λ x. (x, t1)) (rotated raw fresh t.tokens old old_found c d ∙ ap ok b) in
      let h1 : HasStatus id UserStatus.suspended t1 t1 = record {
        row = set.row;
        found = set.found;
        set = set.set;
        kept = refl;
        cold = set.cold;
      } in
      let ctx = context_of set.row in
      let t2 = record t1 { cache = ctx ∷ t1.cache } in
      let ending = λ (ctx : Option AuthUser). refresh_for lib config now id fresh ctx in
      let e =
        >>=_ok turn (λ user. get_auth_user user >>= refresh_for lib config now user fresh) t t1 id r
        ∙ >>=_ok (get_auth_user id) ending t1 t2 (some ctx)
            (context_of_set id UserStatus.suspended t1 t1 h1) in
      let out : is_admitted (some ctx) ≡ false = rw set.set refl in
      rw e (rw out (refl, revoke_all_for_user_lem lib.token_hash config.tokens now id t2.tokens))
