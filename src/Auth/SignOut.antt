-- ===== src/Auth/SignOut.antt =====
-- What ends the sessions of a login: a new password, and a suspension.
use ai_hr_sytem.Base.{
  ℕ, ◌≡◌, refl, sym, ap, subst, ◌∙◌, inl, inr, arith, Bool, true, false, not, ◌&&◌, Option, none,
  some, List, [], ◌∷◌, ◌==◌, ==_refl, ==→eq, find, any, update_where, Result, Bool-cases,
  Option-cases, bad_request, unauthorized, ok, Action, ◌>>=◌, ◌>>◌, >>=_inv, throw_if_inv,
  ok_injective, throw_if,
}
use ai_hr_sytem.Tokens.{
  RefreshToken, is_revoked, revoke_all_for_user, OneTimeTokenType, peek_one_time, consume_one_time,
}
use ai_hr_sytem.Tokens.Rotation.{revoke_all_for_user_lem}
use ai_hr_sytem.Auth.{User, AuthStore, has_id, find_user, save_user, record_failed_login}
use ai_hr_sytem.Auth.Mfa.{MfaLibrary, accepted, keep_accepted, verify}
use ai_hr_sytem.Auth.Service.{
  AuthLibrary, AuthConfig, on_tokens, apply_new_password, register_failure, reset_verdict,
  reset_code, reset_found, reset_checked, assert_can_login, reset_password, change_password,
  change_found, is_password, force_set_password, check_reset_code, with_password,
}

-- A refresh token of the login that is not revoked.
abbrev pub is_live : ℕ → RefreshToken → Bool
is_live id t = (t.user_id == id) && not (is_revoked t)

-- No session of the login is left, and its row has a hash of the new password.
pub record IsReset (lib : AuthLibrary) (id given salt : ℕ) (s : AuthStore) : Type 0 where
  pub ended : any (is_live id) s.tokens.refresh_tokens ≡ false
  pub row : User
  pub found : find (λ (x : User). x.id == id) s.users ≡ some row
  pub fresh : row.password_hash ≡ some (lib.hash_password salt given)

abbrev is_on_file : ℕ → AuthStore → Bool
is_on_file id s = any (λ (x : User). x.id == id) s.users

found_saved :
    (l : List User) (id : ℕ) (v : User)
    → any (λ (x : User). x.id == id) l ≡ true
    → v.id ≡ id
    → find (λ (x : User). x.id == id) (update_where (λ (x : User). x.id == v.id) (λ _. v) l)
      ≡ some v
found_saved [] id v h e = ground arith
found_saved (x ∷ l) id v h e = ground (arith, e, ==_refl id, found_saved l id v)

saved_on_file :
    (l : List User) (id : ℕ) (v : User)
    → any (λ (x : User). x.id == id) l ≡ true
    → any (λ (x : User). x.id == id) (update_where (λ (x : User). x.id == v.id) (λ _. v) l) ≡ true
saved_on_file [] id v h = h
saved_on_file (x ∷ l) id v h = ground (arith, saved_on_file l id v)

found_on_file :
    (l : List User) (id : ℕ) (u : User)
    → find (has_id id) l ≡ some u
    → (any (λ (x : User). x.id == id) l ≡ true) × (u.id ≡ id)
found_on_file [] id u h = ground arith
found_on_file (x ∷ l) id u h = ground (arith, ==→eq x.id id, found_on_file l id u)

pub find_user_inv :
    (id : ℕ) (s : AuthStore) (u : User)
    → (find_user id s).0 ≡ ok u
    → (find (has_id id) s.users ≡ some u) × ((find_user id s).1 ≡ s)
unfolding find_user
find_user_inv id s u h = elim (Option-cases (find (has_id id) s.users)) [
  | inl c ↦ ground (arith, c, h)
  | inr (v, c) ↦ ground (arith, c, h)
]

assert_store : (u : User) (s : AuthStore) → (assert_can_login u s).1 ≡ s
unfolding assert_can_login
assert_store u s = ground arith

-- A code that is accepted leaves the row its id.
accepted_id :
    (lib : MfaLibrary) (now : ℕ) (u : User) (code : ℕ) (v : User)
    → accepted lib now u code ≡ some v
    → v.id ≡ u.id
unfolding accepted
accepted_id lib now u code v h = ground arith

module _ (lib : AuthLibrary) (config : AuthConfig) (now : ℕ) where
  verified :
      (u : User) (c : ℕ) (s : AuthStore) (v : User)
      → is_on_file u.id s ≡ true
      → (verify lib.mfa now u c s).0 ≡ ok (some v)
      → (v.id ≡ u.id) × (is_on_file u.id (verify lib.mfa now u c s).1 ≡ true)
  unfolding verify
  verified u c s v k h = elim (Option-cases (accepted lib.mfa now u c)) [
    | inl e ↦ ground (arith, e, h)
    | inr (w, e) ↦
        let x : verify lib.mfa now u c s ≡ (ok (some w), save_user w s) =
          ap (λ o. keep_accepted o s) e in
        let y : some w ≡ some v = ok_injective (some w) (some v) (sym (ap (λ z. z.0) x) ∙ h) in
        let i : w.id ≡ u.id = accepted_id lib.mfa now u c w e in
        (ground (arith, y, i), ap (λ z. is_on_file u.id z.1) x ∙ saved_on_file s.users u.id w k)
  ]

  verdict :
      (u : User) (o : Option User) (s : AuthStore) (v : User)
      → (reset_verdict lib config now u o s).0 ≡ ok v
      → (o ≡ some v) × ((reset_verdict lib config now u o s).1 ≡ s)
  unfolding register_failure record_failed_login
  verdict u none s v h = ground (arith, h)
  verdict u (some w) s v h = (ap some (ok_injective w v h), refl)

  code_checked :
      (u : User) (code : Option ℕ) (s : AuthStore) (v : User)
      → is_on_file u.id s ≡ true
      → (reset_code lib config now u code s).0 ≡ ok v
      → (v.id ≡ u.id) × (is_on_file u.id (reset_code lib config now u code s).1 ≡ true)
  code_checked u none s v k h = ground (arith, h)
  code_checked u (some c) s v k h =
      let (o, a, b) = >>=_inv (verify lib.mfa now u c) (reset_verdict lib config now u) s v h in
      let (d, e) = verdict u o (verify lib.mfa now u c s).1 v (sym (ap (λ x. x.0) b) ∙ h) in
      let (f, g) = verified u c s v k (a ∙ ap ok d) in
      (f, ap (λ x. is_on_file u.id x.1) b ∙ ap (is_on_file u.id) e ∙ g)

  checked :
      (u : User) (code : Option ℕ) (s : AuthStore) (v : User)
      → is_on_file u.id s ≡ true
      → (check_reset_code lib config now u code s).0 ≡ ok v
      → (v.id ≡ u.id) × (is_on_file u.id (check_reset_code lib config now u code s).1 ≡ true)
  unfolding check_reset_code
  checked u code s v k h = elim (Bool-cases u.mfa_enabled) [
    | inr m ↦
        let e : check_reset_code lib config now u code s ≡ (ok u, s) = rw m refl in
        let f : u ≡ v = ok_injective u v (sym (ap (λ x. x.0) e) ∙ h) in
        (sym (ap User.id f), ap (λ x. is_on_file u.id x.1) e ∙ k)
    | inl m ↦
        let e : check_reset_code lib config now u code s ≡ reset_code lib config now u code s =
          rw m refl in
        let (a, b) = code_checked u code s v k (sym (ap (λ x. x.0) e) ∙ h) in
        (a, ap (λ x. is_on_file u.id x.1) e ∙ b)
  ]

  applied :
      (u : User) (id given salt : ℕ) (s : AuthStore)
      → u.id ≡ id
      → is_on_file id s ≡ true
      → IsReset lib id given salt (apply_new_password lib config now u given salt s).1
  unfolding apply_new_password
  applied u id given salt s e k = record {
    ended =
        subst
          (λ x.
            any (is_live id)
              (revoke_all_for_user lib.token_hash config.tokens now x s.tokens).refresh_tokens
            ≡ false)
          (sym e) (revoke_all_for_user_lem lib.token_hash config.tokens now id s.tokens);
    row = with_password lib config now given salt u;
    found = found_saved s.users id (with_password lib config now given salt u) k e;
    fresh = refl;
  }

-- The three ways to set a new password, with their arguments but the password and its salt.
pub data PasswordCall : Type 0 where
  by_link : ℕ → Option ℕ → PasswordCall
  by_current : ℕ → ℕ → PasswordCall
  by_force : ℕ → PasswordCall

module _ (lib : AuthLibrary) (config : AuthConfig) (now given salt : ℕ) where
  abbrev pub set_password : PasswordCall → Action AuthStore (Unit {0})
  set_password (by_link link code) = reset_password lib config now link given code salt
  set_password (by_current id current) = change_password lib config now id current given salt
  set_password (by_force id) = force_set_password lib config now id given salt

  -- Whose password a call is about.
  abbrev pub account_of : PasswordCall → AuthStore → Result ℕ
  account_of (by_link link code) s =
      (peek_one_time lib.token_hash config.tokens now link OneTimeTokenType.password_reset
        s.tokens).0
  account_of (by_current id current) s = ok id
  account_of (by_force id) s = ok id

  forced :
      (id : ℕ) (s : AuthStore)
      → (force_set_password lib config now id given salt s).0 ≡ ok tt
      → IsReset lib id given salt (force_set_password lib config now id given salt s).1
  unfolding force_set_password
  forced id s h =
      let (u, a, b) =
        >>=_inv (find_user id) (λ u. apply_new_password lib config now u given salt) s tt h in
      let (c, d) = find_user_inv id s u a in
      let (k, e) = found_on_file s.users id u c in
      rw (ap (λ x. x.1) b, d) (applied lib config now u id given salt s e k)

  changed :
      (id current : ℕ) (s : AuthStore)
      → (change_password lib config now id current given salt s).0 ≡ ok tt
      → IsReset lib id given salt (change_password lib config now id current given salt s).1
  unfolding change_password
  changed id current s h =
      let k = change_found lib config now current given salt in
      let (u, a, b) = >>=_inv (find_user id) k s tt h in
      let (c, d) = find_user_inv id s u a in
      let (f, e) = found_on_file s.users id u c in
      let done = b ∙ ap (k u) d in
      let apply = apply_new_password lib config now u given salt in
      let differs = bad_request "New password must differ from the current one" in
      let rest = throw_if (current == given) differs >> apply in
      let h1 = sym (ap (λ x. x.0) done) ∙ h in
      let e1 =
        throw_if_inv (not (is_password lib config now current u))
          (unauthorized "Current password is incorrect") rest s tt h1 in
      let e2 = throw_if_inv (current == given) differs apply s tt (sym (ap (λ x. x.0) e1) ∙ h1) in
      rw (ap (λ x. x.1) (done ∙ e1 ∙ e2)) (applied lib config now u id given salt s e f)

  -- The last steps of a reset, once the code is checked.
  IsReset-finish :
      (link id : ℕ) (v : User) (s : AuthStore)
      → (reset_checked lib config now link given salt v s).0 ≡ ok tt
      → v.id ≡ id
      → is_on_file id s ≡ true
      → IsReset lib id given salt (reset_checked lib config now link given salt v s).1
  IsReset-finish link id v s h e k =
      let type = OneTimeTokenType.password_reset in
      let burn = on_tokens (consume_one_time lib.token_hash config.tokens now link type) in
      let (z, w, y) = >>=_inv burn (λ _. apply_new_password lib config now v given salt) s tt h in
      rw (ap (λ x. x.1) y) (applied lib config now v id given salt (burn s).1 e k)

  IsReset-found :
      (link id : ℕ) (code : Option ℕ) (u : User) (s : AuthStore)
      → (reset_found lib config now link given code salt u s).0 ≡ ok tt
      → u.id ≡ id
      → is_on_file u.id s ≡ true
      → IsReset lib id given salt (reset_found lib config now link given code salt u s).1
  IsReset-found link id code u s h e k =
      let finish = reset_checked lib config now link given salt in
      let check = check_reset_code lib config now u code in
      let (o, g, l) = >>=_inv (assert_can_login u) (λ _. check >>= finish) s tt h in
      let b = l ∙ ap (check >>= finish) (assert_store u s) in
      let h1 = sym (ap (λ x. x.0) b) ∙ h in
      let (v, m, n) = >>=_inv check finish s tt h1 in
      let (q, r) = checked lib config now u code s v k m in
      let h2 = sym (ap (λ x. x.0) n) ∙ h1 in
      rw (ap (λ x. x.1) (b ∙ n)) (
        IsReset-finish link id v (check s).1 h2 (q ∙ e)
          (subst (λ x. is_on_file x (check s).1 ≡ true) e r))

  IsReset-at_link :
      (link : ℕ) (code : Option ℕ) (s : AuthStore)
      → (reset_password lib config now link given code salt s).0 ≡ ok tt
      → (id : ℕ) × (account_of (by_link link code) s ≡ ok id)
        × IsReset lib id given salt (reset_password lib config now link given code salt s).1
  unfolding reset_password
  IsReset-at_link link code s h =
      let type = OneTimeTokenType.password_reset in
      let peek = on_tokens (peek_one_time lib.token_hash config.tokens now link type) in
      let found = reset_found lib config now link given code salt in
      let (id, a, b) = >>=_inv peek (λ id. find_user id >>= found) s tt h in
      let t = (peek s).1 in
      let h1 = sym (ap (λ x. x.0) b) ∙ h in
      let (u, c, d) = >>=_inv (find_user id) found t tt h1 in
      let (e, f) = find_user_inv id t u c in
      let (k, i) = found_on_file t.users id u e in
      let b1 = d ∙ ap (found u) f in
      let h2 = sym (ap (λ x. x.0) b1) ∙ h1 in
      (
        id,
        a,
        rw (ap (λ x. x.1) (b ∙ b1))
            (IsReset-found link id code u t h2 i (subst (λ x. is_on_file x t ≡ true) (sym i) k)),
      )

  -- A call that sets a new password, by a mailed link, by the current password or by the command
  -- line, leaves no session of the account open, and its row with a hash of the new password.
  pub set_password-IsReset :
      (call : PasswordCall) (s : AuthStore)
      → (set_password call s).0 ≡ ok tt
      → (id : ℕ) × (account_of call s ≡ ok id) × IsReset lib id given salt (set_password call s).1
  set_password-IsReset (by_link link code) s h = IsReset-at_link link code s h
  set_password-IsReset (by_current id current) s h = (id, refl, changed id current s h)
  set_password-IsReset (by_force id) s h = (id, refl, forced id s h)
