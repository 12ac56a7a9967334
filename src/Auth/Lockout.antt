-- ===== src/Auth/Lockout.antt =====
-- Wrong passwords: the attempts that are counted, the lock that they end in, and its end.
use ai_hr_sytem.Base.{
  ℕ, ◌+◌, ◌*◌, ◌<◌, ◌≡◌, refl, ap, ◌∙◌, arith, true, false, not, ◌&&◌, Option, none, some, List, [],
  ◌∷◌, ◌++◌, ◌==◌, ==_refl, leb, find, All, update_where, length, err,
}
use ai_hr_sytem.Auth.{
  login_failed, locked, User, password, AuthStore, find_by_email, with_failure, record_failed_login,
}
use ai_hr_sytem.Auth.Service.{
  AuthLibrary, AuthConfig, register_failure, login, login_found, audit_auth, login_as, login_with,
  tell_locked, bad_login, is_locked,
}

-- A change of a row that keeps its address is seen by the next search for the address.
found_changed :
    (email : ℕ) (f : User → User) (id : ℕ) (l : List User) (u : User)
    → ((x : User) → ((f x).email ≡ x.email) × ((f x).is_deleted ≡ x.is_deleted))
    → find (λ (x : User). (x.email == email) && not x.is_deleted) l ≡ some u
    → u.id ≡ id
    → find
        (λ (x : User). (x.email == email) && not x.is_deleted)
        (update_where (λ (x : User). x.id == id) f l)
      ≡ some (f u)
found_changed email f id [] u k h e = ground arith
found_changed email f id (x ∷ l) u k h e =
    ground (arith, k x, found_changed email f id l u k, ==_refl id)

tell_locked_tokens :
    (id : ℕ) (o : Option ℕ) (s : AuthStore) → (tell_locked id o s).tokens ≡ s.tokens
tell_locked_tokens id none s = refl
tell_locked_tokens id (some t) s = refl

tell_locked_users : (id : ℕ) (o : Option ℕ) (s : AuthStore) → (tell_locked id o s).users ≡ s.users
tell_locked_users id none s = refl
tell_locked_users id (some t) s = refl

-- A wrong password that was sent, and when.
pub record Guess : Type 0 where
  pub at : ℕ
  pub given : ℕ

All-split :
    {A : Type 0} (P : A → Type 0) (xs : List A) (x : A) → All P (xs ++ x ∷ []) → All P xs × P x
All-split P [] x (h, k) = (tt, h)
All-split P (y ∷ xs) x (h, k) = ((h, (All-split P xs x k).0), (All-split P xs x k).1)

module _ (lib : AuthLibrary) (config : AuthConfig) where
  module _ (email family raw : ℕ) where
    login_at :
        (now given hash : ℕ) (s : AuthStore) (u : User)
        → find_by_email email s ≡ some u
        → u.password_hash ≡ some hash
        → login lib config now email given family raw s
          ≡ login_found lib config now u hash given family raw s
    unfolding login
    login_at now given hash s u a b =
        ap (λ o. login_as lib config now o given family raw s) a
        ∙ ap (λ o. login_with lib config now u o given family raw s) b

    refused_at :
        (now given hash : ℕ) (s : AuthStore) (u : User)
        → is_locked now u ≡ true
        → login_found lib config now u hash given family raw s
          ≡ (err bad_login, audit_auth (login_failed (some u.id) locked) s)
    unfolding login_found
    refused_at now given hash s u a = rw a refl

    wrong_at :
        (now given hash : ℕ) (s : AuthStore) (u : User)
        → is_locked now u ≡ false
        → lib.verify_password hash given ≡ false
        → login_found lib config now u hash given family raw s
          ≡ (err (bad_login), (register_failure lib config now u password s).1)
    unfolding login_found register_failure record_failed_login
    wrong_at now given hash s u a b = rw (a, b) refl

    -- The tokens and the rows after a failure.
    failure_tokens :
        (now : ℕ) (s : AuthStore) (u : User)
        → (register_failure lib config now u password s).1.tokens ≡ s.tokens
    unfolding register_failure record_failed_login
    failure_tokens now s u = tell_locked_tokens u.id _ _

    failure_users :
        (now : ℕ) (s : AuthStore) (u : User)
        → (register_failure lib config now u password s).1.users
          ≡ update_where
              (λ (x : User). x.id == u.id)
              (with_failure config.max_attempts config.lock_minutes now)
              s.users
    unfolding register_failure record_failed_login
    failure_users now s u = tell_locked_users u.id _ _

  module _ (email family raw : ℕ) where
    -- The store after a row of attempts.
    abbrev pub after : List Guess → AuthStore → AuthStore
    after [] s = s
    after (g ∷ gs) s = after gs (login lib config g.at email g.given family raw s).1

    keeps :
        (now : ℕ) (x : User)
        → ((with_failure config.max_attempts config.lock_minutes now x).email ≡ x.email)
          × ((with_failure config.max_attempts config.lock_minutes now x).is_deleted ≡ x.is_deleted)
    keeps now x = ground arith

    after_append :
        (gs : List Guess) (g : Guess) (s : AuthStore)
        → after (gs ++ g ∷ []) s ≡ after (g ∷ []) (after gs s)
    after_append [] g s = refl
    after_append (x ∷ gs) g s =
        after_append gs g (login lib config x.at email x.given family raw s).1

    module _ (u : User) (hash : ℕ) (has : u.password_hash ≡ some hash)
        (unlocked : u.locked_until ≡ none) where
      abbrev counted : ℕ → User
      counted n = record u { failed_login_attempts = n }

      -- One more wrong password on the row, with `n` of them counted before.
      guessed :
          (g : Guess) (n : ℕ) (s : AuthStore)
          → lib.verify_password hash g.given ≡ false
          → find_by_email email s ≡ some (counted n)
          → (find_by_email email (login lib config g.at email g.given family raw s).1
              ≡ some (with_failure config.max_attempts config.lock_minutes g.at (counted n)))
            × ((login lib config g.at email g.given family raw s).1.tokens ≡ s.tokens)
      unfolding find_by_email
      guessed g n s w a =
          let idle : is_locked g.at (counted n) ≡ false = rw unlocked refl in
          let e =
            login_at email family raw g.at g.given hash s (counted n) a has
            ∙ wrong_at email family raw g.at g.given hash s (counted n) idle w in
          let t = (register_failure lib config g.at (counted n) password s).1 in
          let fail = with_failure config.max_attempts config.lock_minutes g.at in
          let found : find_by_email email t ≡ some (fail (counted n)) =
            ap (find (λ (x : User). (x.email == email) && not x.is_deleted))
              (failure_users email family raw g.at s (counted n))
            ∙ found_changed email fail u.id s.users (counted n) (keeps g.at) a refl in
          rw e (found, failure_tokens email family raw g.at s (counted n))

      guess_run :
          (gs : List Guess) (n : ℕ) (s : AuthStore)
          → All (λ g. lib.verify_password hash g.given ≡ false) gs
          → n + length gs < config.max_attempts
          → find_by_email email s ≡ some (counted n)
          → (find_by_email email (after gs s) ≡ some (counted (n + length gs)))
            × ((after gs s).tokens ≡ s.tokens)
      guess_run [] n s w k a =
          let e : n ≡ n + 0 = omega arith in (a ∙ ap (λ m. some (counted m)) e, refl)
      guess_run (g ∷ gs) n s (w, ws) k a =
          let t = (login lib config g.at email g.given family raw s).1 in
          let (b, c) = guessed g n s w a in
          let below : leb config.max_attempts (n + 1) ≡ false = ground arith in
          let m : (n + 1) + length gs ≡ n + length (g ∷ gs) = omega arith in
          let (d, f) = guess_run gs (n + 1) t ws (omega (arith, k)) (b ∙ rw below refl) in
          (d ∙ ap (λ x. some (counted x)) m, f ∙ c)

      -- The instant at which the lock of a last attempt ends.
      abbrev pub lock_end : Guess → ℕ
      lock_end last = last.at + config.lock_minutes * 60000

      abbrev locked_row : Guess → User
      locked_row last = record u { locked_until = some (lock_end last); failed_login_attempts = 0 }

      module _ (gs : List Guess) (last : Guess) (s : AuthStore)
          (wrong : All (λ g. lib.verify_password hash g.given ≡ false) (gs ++ last ∷ []))
          (enough : u.failed_login_attempts + length gs + 1 ≡ config.max_attempts)
          (found : find_by_email email s ≡ some u) where
        locked_at_last :
            (find_by_email email (after (gs ++ last ∷ []) s) ≡ some (locked_row last))
            × ((after (gs ++ last ∷ []) s).tokens ≡ s.tokens)
        locked_at_last =
            let n = u.failed_login_attempts in
            let (ws, w) = All-split (λ g. lib.verify_password hash g.given ≡ false) gs last wrong in
            let (a, b) = guess_run gs n s ws (omega (arith, enough)) found in
            let (c, d) = guessed last (n + length gs) (after gs s) w a in
            let full : leb config.max_attempts (n + length gs + 1) ≡ true =
              ground (arith, enough) in
            rw (after_append gs last s) (c ∙ rw full refl, d ∙ b)

        -- From an account that is not locked, as many wrong passwords as the limit still allows lock
        -- it: until the lock ends every password is refused alike, and no session is opened.
        pub locked_out :
            (now given family2 raw2 : ℕ)
            → now < lock_end last
            → let t = after (gs ++ last ∷ []) s in
              let answer = login lib config now email given family2 raw2 t in
              (answer.0 ≡ err bad_login) × (answer.1.tokens ≡ s.tokens)
        locked_out now given family2 raw2 k =
            let t = after (gs ++ last ∷ []) s in
            let (a, b) = locked_at_last in
            let shut : is_locked now (locked_row last) ≡ true = ground (arith, k) in
            let e =
              login_at email family2 raw2 now given hash t (locked_row last) a has
              ∙ refused_at email family2 raw2 now given hash t (locked_row last) shut in
            rw e (refl, b)
