-- ===== src/Tokens/Rotation.antt =====
-- Rotation and reuse detection: no session family ever has two live refresh tokens, and a token
-- that is presented again ends its family.
use ai_hr_sytem.Base.{
  ℕ, ◌+◌, ◌*◌, ◌≤◌, ◌<◌, ◌≡◌, refl, subst, ap, ◌∙◌, inl, inr, arith, Bool, true, false, not, ◌&&◌,
  Option, none, some, List, [], ◌∷◌, ◌++◌, ltb, ◌==◌, ==→eq, if◌then◌else◌, find, any, update_where,
  sum_of, sum_of-append, Bool-cases, Option-cases, ok, err, unauthorized,
}
use ai_hr_sytem.Tokens.{
  RefreshToken, Denial, TokenStore, TokenConfig, is_revoked, is_expired, revoked_now, deny_sessions,
  revoke_family, new_token, issue_pair, issue_successor, issue_for_login, with_hash, rotate,
  rotate_found, revoke_all_for_user, is_session_revoked,
}

abbrev pub live_in : ℕ → RefreshToken → ℕ
live_in family t = if (t.family_id == family) && not (is_revoked t) then 1 else 0

-- The live tokens of a family.
abbrev pub live_count : ℕ → List RefreshToken → ℕ
live_count family = sum_of (live_in family)

-- Every family has at most one live token.
abbrev pub IsSingle : TokenStore → Type 0
IsSingle s = (family : ℕ) → live_count family s.refresh_tokens ≤ 1

-- A change that revokes every row it touches leaves no family with more live tokens.
live_count-revoke :
    (family : ℕ) (p : RefreshToken → Bool) (f : RefreshToken → RefreshToken) (l : List RefreshToken)
    → ((t : RefreshToken) → is_revoked (f t) ≡ true)
    → live_count family (update_where p f l) ≤ live_count family l
live_count-revoke family p f [] h = omega arith
live_count-revoke family p f (t ∷ l) h = ground (arith, h t, live_count-revoke family p f l h)

-- Where it touches every live row of a family, none is left.
live_count-none :
    (family : ℕ) (p : RefreshToken → Bool) (f : RefreshToken → RefreshToken) (l : List RefreshToken)
    → ((t : RefreshToken) → is_revoked (f t) ≡ true)
    → ((t : RefreshToken) → ((t.family_id == family) && not (is_revoked t)) ≡ true → p t ≡ true)
    → live_count family (update_where p f l) ≡ 0
live_count-none family p f [] h k = refl
live_count-none family p f (t ∷ l) h k = ground (arith, h t, k t, live_count-none family p f l h k)

-- A change that revokes a live row of the family that is on file leaves one less.
live_count-drop :
    (hash : ℕ → ℕ) (config : TokenConfig) (now raw : ℕ) (f : RefreshToken → RefreshToken)
    (l : List RefreshToken) (old : RefreshToken)
    → ((t : RefreshToken) → is_revoked (f t) ≡ true)
    → find (with_hash hash config now raw) l ≡ some old
    → is_revoked old ≡ false
    → live_count old.family_id (update_where (λ t. t.id == old.id) f l) + 1
      ≤ live_count old.family_id l
live_count-drop hash config now raw f [] old h e k = absurd (ground arith)
live_count-drop hash config now raw f (t ∷ l) old h e k =
    elim (Bool-cases (with_hash hash config now raw t)) [
      | inl q ↦
          let same : t ≡ old = ground arith in
          ground (arith, h t, live_count-revoke old.family_id (λ t. t.id == old.id) f l h)
      | inr q ↦ ground (arith, h t, live_count-drop hash config now raw f l old h (ground arith) k)
    ]

live_in_le : (f : ℕ) (t : RefreshToken) → live_in f t ≤ 1
live_in_le f t = ground arith

not_in : (f : ℕ) (t : RefreshToken) → (t.family_id == f) ≡ false → live_in f t ≡ 0
not_in f t h = ground arith

find-append :
    (p : RefreshToken → Bool) (l m : List RefreshToken) (t : RefreshToken)
    → find p l ≡ some t
    → find p (l ++ m) ≡ some t
find-append p [] m t h = absurd (ground arith)
find-append p (x ∷ l) m t h = ground (arith, find-append p l m t)

module _ (hash : ℕ → ℕ) (config : TokenConfig) (now : ℕ) where
  abbrev found_by : ℕ → TokenStore → Option RefreshToken
  found_by raw s = find (with_hash hash config now raw) s.refresh_tokens

  revoke_family-IsSingle :
      (family : ℕ) (s : TokenStore) → IsSingle s → IsSingle (revoke_family hash config now family s)
  unfolding revoke_family
  revoke_family-IsSingle family s h f = omega (
    arith,
    h f,
    live_count-revoke f (λ t. (t.family_id == family) && not (is_revoked t)) (revoked_now now)
        s.refresh_tokens (λ t. refl),
  )

  issue_successor-IsSingle :
      (raw fresh : ℕ) (old : RefreshToken) (s : TokenStore)
      → found_by raw s ≡ some old
      → is_revoked old ≡ false
      → IsSingle s
      → IsSingle (issue_successor hash config now fresh old s)
  unfolding issue_successor
  issue_successor-IsSingle raw fresh old s e k h f =
      let new = new_token hash config now s.next_id old.user_id old.family_id fresh in
      let l = s.refresh_tokens in
      let g =
        λ (t : RefreshToken). record t { revoked_at = some now; replaced_by_id = some s.next_id } in
      let added = find-append (with_hash hash config now raw) l (new ∷ []) old e in
      elim (Bool-cases (old.family_id == f)) [
        | inl q ↦
            subst
              (λ v. live_count v (issue_successor hash config now fresh old s).refresh_tokens ≤ 1)
              (==→eq old.family_id f q)
              (omega (
                arith,
                live_count-drop hash config now raw g (l ++ new ∷ []) old (λ t. refl) added k,
                sum_of-append (live_in old.family_id) l (new ∷ []),
                live_in_le old.family_id new,
                h old.family_id,
              ))
        | inr q ↦ omega (
          arith,
          live_count-revoke f (λ t. t.id == old.id) g (l ++ new ∷ []) (λ t. refl),
          sum_of-append (live_in f) l (new ∷ []),
          not_in f new q,
          h f,
        )
      ]

  -- The three outcomes of `rotate` on the store.
  rotate_unknown :
      (raw fresh : ℕ) (s : TokenStore)
      → found_by raw s ≡ none
      → rotate hash config now raw fresh s ≡ (err (unauthorized "Invalid refresh token"), s)
  unfolding rotate
  rotate_unknown raw fresh s e = ground arith

  rotate_reused :
      (raw fresh : ℕ) (old : RefreshToken) (s : TokenStore)
      → found_by raw s ≡ some old
      → is_revoked old ≡ true
      → rotate hash config now raw fresh s ≡ (
        err (unauthorized "Refresh token reuse detected; please log in again"),
        revoke_family hash config now old.family_id s,
      )
  unfolding rotate rotate_found
  rotate_reused raw fresh old s e k = ground arith

  rotate_expired :
      (raw fresh : ℕ) (old : RefreshToken) (s : TokenStore)
      → found_by raw s ≡ some old
      → is_revoked old ≡ false
      → is_expired now old ≡ true
      → rotate hash config now raw fresh s ≡ (err (unauthorized "Refresh token expired"), s)
  unfolding rotate rotate_found
  rotate_expired raw fresh old s e k x = ground arith

  rotate_live :
      (raw fresh : ℕ) (old : RefreshToken) (s : TokenStore)
      → found_by raw s ≡ some old
      → is_revoked old ≡ false
      → is_expired now old ≡ false
      → rotate hash config now raw fresh s
        ≡ (ok old.user_id, issue_successor hash config now fresh old s)
  unfolding rotate rotate_found
  rotate_live raw fresh old s e k x = ground arith

  -- In a store where every family has at most one live token, a rotation, whatever its outcome,
  -- leaves every family with at most one live token.
  pub rotate-IsSingle :
      (raw fresh : ℕ) (s : TokenStore)
      → IsSingle s
      → IsSingle (rotate hash config now raw fresh s).1
  rotate-IsSingle raw fresh s h = elim (Option-cases (found_by raw s)) [
    | inl e ↦ rw (rotate_unknown raw fresh s e) h
    | inr (old, e) ↦ elim (Bool-cases (is_revoked old)) [
      | inl k ↦ rw (rotate_reused raw fresh old s e k) (revoke_family-IsSingle old.family_id s h)
      | inr k ↦ elim (Bool-cases (is_expired now old)) [
        | inl x ↦ rw (rotate_expired raw fresh old s e k x) h
        | inr x ↦
            rw (rotate_live raw fresh old s e k x) (issue_successor-IsSingle raw fresh old s e k h)
      ]
    ]
  ]

  -- In a store where every family has at most one live token, a login into a family without a live
  -- token leaves every family with at most one live token.
  pub issue_for_login-IsSingle :
      (user family raw : ℕ) (s : TokenStore)
      → live_count family s.refresh_tokens ≡ 0
      → IsSingle s
      → IsSingle (issue_for_login hash config now user family raw s).1
  unfolding issue_for_login issue_pair
  issue_for_login-IsSingle user family raw s free h f =
      let new = new_token hash config now s.next_id user family raw in
      elim (Bool-cases (family == f)) [
        | inl q ↦ omega (
          arith,
          sum_of-append (live_in f) s.refresh_tokens (new ∷ []),
          live_in_le f new,
          subst (λ v. live_count v s.refresh_tokens ≡ 0) (==→eq family f q) free,
        )
        | inr q ↦
            omega
              (arith, sum_of-append (live_in f) s.refresh_tokens (new ∷ []), not_in f new q, h f)
      ]

  -- A revoked family has no live token, and its session is denied while an access token could
  -- still be alive.
  revoke_family_ends :
      (family : ℕ) (s : TokenStore)
      → 0 < config.access_ttl_seconds
      → let u = revoke_family hash config now family s in
        (live_count family u.refresh_tokens ≡ 0)
        × (is_session_revoked hash config now family u ≡ true)
  unfolding revoke_family is_session_revoked deny_sessions
  revoke_family_ends family s ttl = (
    live_count-none family (λ t. (t.family_id == family) && not (is_revoked t)) (revoked_now now)
        s.refresh_tokens (λ t. refl) (λ t h. h),
    any_last family (now + config.access_ttl_seconds * 1000) s.denied (omega arith),
  )
    where
      any_last :
          (family last : ℕ) (ds : List Denial)
          → now < last
          → any
              (λ (d : Denial). (d.family_id == family) && ltb now d.until)
              (ds ++ record { family_id = family; until = last } ∷ [])
            ≡ true
      any_last family last [] h = ground arith
      any_last family last (d ∷ ds) h = ground (arith, any_last family last ds h)

  -- A refresh token on file that was revoked is refused when it is presented, and its whole family
  -- ends: no live token is left, and, as access tokens live for some time, the session is denied.
  pub reuse_ends_family :
      (raw fresh : ℕ) (s : TokenStore) {old : RefreshToken}
      → 0 < config.access_ttl_seconds
      → found_by raw s ≡ some old
      → is_revoked old ≡ true
      → let (r, u) = rotate hash config now raw fresh s in
        (r ≡ err (unauthorized "Refresh token reuse detected; please log in again"))
        × (live_count old.family_id u.refresh_tokens ≡ 0)
        × (is_session_revoked hash config now old.family_id u ≡ true)
  reuse_ends_family raw fresh s {old} ttl e k =
      let (dead, denied) = revoke_family_ends old.family_id s ttl in
      rw (rotate_reused raw fresh old s e k) (refl, dead, denied)

  find-successor :
      (raw fresh : ℕ) (old : RefreshToken) (s : TokenStore)
      → found_by raw s ≡ some old
      → (t : RefreshToken) × (found_by raw (issue_successor hash config now fresh old s) ≡ some t)
        × (is_revoked t ≡ true)
        × (t.family_id ≡ old.family_id)
  unfolding issue_successor
  find-successor raw fresh old s e = (
    record old { revoked_at = some now; replaced_by_id = some s.next_id },
    go s.refresh_tokens e,
    refl,
    refl,
  )
    where
      go :
          (l : List RefreshToken)
          → find (with_hash hash config now raw) l ≡ some old
          → find (with_hash hash config now raw) (
              update_where
                (λ t. t.id == old.id)
                (λ t. record t { revoked_at = some now; replaced_by_id = some s.next_id })
                (l ++ new_token hash config now s.next_id old.user_id old.family_id fresh ∷ []))
            ≡ some (record old { revoked_at = some now; replaced_by_id = some s.next_id })
      go [] h = absurd (ground arith)
      go (x ∷ l) h = ground (arith, go l)

  -- After a sign-out everywhere no token of the user is live.
  pub revoke_all_for_user_lem :
      (user : ℕ) (s : TokenStore)
      → any
          (λ (t : RefreshToken). (t.user_id == user) && not (is_revoked t))
          (revoke_all_for_user hash config now user s).refresh_tokens
        ≡ false
  unfolding revoke_all_for_user deny_sessions
  revoke_all_for_user_lem user s = go s.refresh_tokens
    where
      go :
          (l : List RefreshToken)
          → any
              (λ (t : RefreshToken). (t.user_id == user) && not (is_revoked t))
              (update_where (λ t. (t.user_id == user) && not (is_revoked t)) (revoked_now now) l)
            ≡ false
      go [] = refl
      go (t ∷ l) = ground (arith, go l)

-- A revoked row on file of a family, found by the raw value of its token.
record IsSpent (hash : ℕ → ℕ) (raw family : ℕ) (l : List RefreshToken) : Type 0 where
  row : RefreshToken
  found : find (λ (t : RefreshToken). t.token_hash == hash raw) l ≡ some row
  dead : is_revoked row ≡ true
  own : row.family_id ≡ family

-- Such a row stays, whatever rows are revoked.
revoked-IsSpent :
    (hash : ℕ → ℕ) (raw family : ℕ) (p : RefreshToken → Bool) (f : RefreshToken → RefreshToken)
    (l : List RefreshToken)
    → ((t : RefreshToken) → (f t).token_hash ≡ t.token_hash)
    → ((t : RefreshToken) → (f t).family_id ≡ t.family_id)
    → ((t : RefreshToken) → is_revoked (f t) ≡ true)
    → IsSpent hash raw family l
    → IsSpent hash raw family (update_where p f l)
revoked-IsSpent hash raw family p f [] same kin ends h = h
revoked-IsSpent hash raw family p f (t ∷ l) same kin ends h =
    elim (Bool-cases (t.token_hash == hash raw)) [
      | inl e ↦
          let first : t ≡ h.row = ground (arith, e, h.found) in
          elim (Bool-cases (p t)) [
            | inl k ↦ record {
              row = f t;
              found = ground (arith, k, same t, e);
              dead = ends t;
              own = kin t ∙ ap RefreshToken.family_id first ∙ h.own;
            }
            | inr k ↦ record {
              row = t;
              found = ground (arith, k, e);
              dead = ap is_revoked first ∙ h.dead;
              own = ap RefreshToken.family_id first ∙ h.own;
            }
          ]
      | inr e ↦
          let later : find (λ (x : RefreshToken). x.token_hash == hash raw) l ≡ some h.row =
            ground (arith, e, h.found) in
          let tail =
            revoked-IsSpent hash raw family p f l same kin ends
              (record { row = h.row; found = later; dead = h.dead; own = h.own }) in
          record {
            row = tail.row;
            found = ground (arith, e, same t, tail.found);
            dead = tail.dead;
            own = tail.own;
          }
    ]

-- A rotation at the instant `at`, of the token `raw`, with `fresh` as the successor.
pub record Turn : Type 0 where
  pub at : ℕ
  pub raw : ℕ
  pub fresh : ℕ

module _ (hash : ℕ → ℕ) (config : TokenConfig) where
  -- Rotations one after the other, refused ones included.
  unfoldable pub rotate_all : List Turn → TokenStore → TokenStore
  rotate_all [] s = s
  rotate_all (x ∷ xs) s = rotate_all xs (rotate hash config x.at x.raw x.fresh s).1

  successor-IsSpent :
      (now raw family fresh : ℕ) (old : RefreshToken) (s : TokenStore)
      → IsSpent hash raw family s.refresh_tokens
      → IsSpent hash raw family (issue_successor hash config now fresh old s).refresh_tokens
  unfolding issue_successor
  successor-IsSpent now raw family fresh old s h =
      let new = new_token hash config now s.next_id old.user_id old.family_id fresh in
      revoked-IsSpent hash raw family (λ t. t.id == old.id)
        (λ t. record t { revoked_at = some now; replaced_by_id = some s.next_id })
        (s.refresh_tokens ++ new ∷ []) (λ _. refl) (λ _. refl) (λ _. refl)
        (record {
          row = h.row;
          found =
              find-append (λ t. t.token_hash == hash raw) s.refresh_tokens (new ∷ []) h.row h.found;
          dead = h.dead;
          own = h.own;
        })

  rotate-IsSpent :
      (x : Turn) (raw family : ℕ) (s : TokenStore)
      → IsSpent hash raw family s.refresh_tokens
      → IsSpent hash raw family (rotate hash config x.at x.raw x.fresh s).1.refresh_tokens
  unfolding revoke_family deny_sessions
  rotate-IsSpent x raw family s h = elim (Option-cases (found_by hash config x.at x.raw s)) [
    | inl e ↦ rw (rotate_unknown hash config x.at x.raw x.fresh s e) h
    | inr (old, e) ↦ elim (Bool-cases (is_revoked old)) [
      | inl k ↦ rw (rotate_reused hash config x.at x.raw x.fresh old s e k) (
          revoked-IsSpent hash raw family
            (λ t. (t.family_id == old.family_id) && not (is_revoked t)) (revoked_now x.at)
            s.refresh_tokens (λ _. refl) (λ _. refl) (λ _. refl) h)
      | inr k ↦ elim (Bool-cases (is_expired x.at old)) [
        | inl d ↦ rw (rotate_expired hash config x.at x.raw x.fresh old s e k d) h
        | inr d ↦
            rw (rotate_live hash config x.at x.raw x.fresh old s e k d)
              (successor-IsSpent x.at raw family x.fresh old s h)
      ]
    ]
  ]

  rotate_all-IsSpent :
      (xs : List Turn) (raw family : ℕ) (s : TokenStore)
      → IsSpent hash raw family s.refresh_tokens
      → IsSpent hash raw family (rotate_all xs s).refresh_tokens
  unfolding rotate_all
  rotate_all-IsSpent [] raw family s h = h
  rotate_all-IsSpent (x ∷ xs) raw family s h =
      rotate_all-IsSpent xs raw family (rotate hash config x.at x.raw x.fresh s).1
        (rotate-IsSpent x raw family s h)

  -- The token that a successful rotation used up stays spent.
  used_up :
      (now raw fresh : ℕ) (s : TokenStore) (old : RefreshToken) (user : ℕ)
      → found_by hash config now raw s ≡ some old
      → (rotate hash config now raw fresh s).0 ≡ ok user
      → IsSpent hash raw old.family_id (rotate hash config now raw fresh s).1.refresh_tokens
  used_up now raw fresh s old user e h = elim (Bool-cases (is_revoked old)) [
    | inl k ↦ absurd (ground (arith, rotate_reused hash config now raw fresh old s e k, h))
    | inr k ↦ elim (Bool-cases (is_expired now old)) [
      | inl x ↦ absurd (ground (arith, rotate_expired hash config now raw fresh old s e k x, h))
      | inr x ↦
          let (t, f, dead, family) = find-successor hash config now raw fresh old s e in
          rw (rotate_live hash config now raw fresh old s e k x)
            (record { row = t; found = f; dead = dead; own = family })
    ]
  ]

  -- The token that a successful rotation used up is refused as reuse when it is presented again, at
  -- any instant and after any rotations in between, and no live token of its family is left then,
  -- the successors included, where access tokens live for some time.
  pub rotate_replay :
      (now raw fresh later again : ℕ) (between : List Turn) (s : TokenStore) {old : RefreshToken}
      {user : ℕ}
      → 0 < config.access_ttl_seconds
      → found_by hash config now raw s ≡ some old
      → (rotate hash config now raw fresh s).0 ≡ ok user
      → let t = rotate_all between (rotate hash config now raw fresh s).1 in
        let (r, u) = rotate hash config later raw again t in
        (r ≡ err (unauthorized "Refresh token reuse detected; please log in again"))
        × (live_count old.family_id u.refresh_tokens ≡ 0)
  rotate_replay now raw fresh later again between s {old} {user} ttl e h =
      let t = rotate_all between (rotate hash config now raw fresh s).1 in
      let spent =
        rotate_all-IsSpent between raw old.family_id (rotate hash config now raw fresh s).1
          (used_up now raw fresh s old user e h) in
      let ends =
        reuse_ends_family hash config later raw again t {old = spent.row} ttl spent.found
          spent.dead in
      (
        ends.0,
        subst (λ v. live_count v (rotate hash config later raw again t).1.refresh_tokens ≡ 0)
            spent.own ends.1,
      )
