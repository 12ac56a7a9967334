-- ===== src/Tests/Sessions.antt =====
-- A store with one session, and a hash that is the identity.
use ai_hr_sytem.Base.{
  ℕ, ◌<◌, ◌≡◌, refl, arith, true, none, some, List, [], ◌∷◌, ok, err, unauthorized,
}
use ai_hr_sytem.Tokens.{
  RefreshToken, OneTimeTokenType, TokenStore, TokenConfig, rotate_found, rotate, issue_successor,
  is_session_revoked, issue_one_time, usable_token, consume_one_time,
}
use ai_hr_sytem.Tokens.Rotation.{
  live_count, IsSingle, rotate-IsSingle, reuse_ends_family, rotate_replay, Turn, rotate_all,
}
use ai_hr_sytem.Tokens.OneTime.{issue-consume}

abbrev pub same_hash : ℕ → ℕ
same_hash raw = raw

abbrev pub short_lived : TokenConfig
short_lived = record { refresh_ttl_ms = 1000; access_ttl_seconds = 900 }

-- One live token of user 7, drawn as 40, in family 3.
abbrev pub one_token : RefreshToken
one_token = record {
  id = 1;
  user_id = 7;
  token_hash = 40;
  family_id = 3;
  expires_at = 6000;
  revoked_at = none;
  replaced_by_id = none;
  created_at = 5000;
}

abbrev pub one_session : TokenStore
one_session = record {
  refresh_tokens = one_token ∷ [];
  one_time_tokens = [];
  denied = [];
  next_id = 2;
}

-- The same token, already revoked.
abbrev ended : RefreshToken
ended = record one_token { revoked_at = some 5100 }

abbrev ended_session : TokenStore
ended_session = record one_session { refresh_tokens = ended ∷ [] }

one_session-IsSingle : IsSingle one_session
one_session-IsSingle f = ground arith

rotate-IsSingle_example : IsSingle (rotate same_hash short_lived 5500 40 41 one_session).1
rotate-IsSingle_example =
    rotate-IsSingle same_hash short_lived 5500 40 41 one_session one_session-IsSingle

rotates : (rotate same_hash short_lived 5500 40 41 one_session).0 ≡ ok 7
unfolding rotate rotate_found issue_successor
rotates = refl

lives : 0 < 900
lives = omega arith

reuse_ends_family_example :
    ((rotate same_hash short_lived 5500 40 41 ended_session).0
      ≡ err (unauthorized "Refresh token reuse detected; please log in again"))
    × (live_count 3 (rotate same_hash short_lived 5500 40 41 ended_session).1.refresh_tokens ≡ 0)
    × (is_session_revoked same_hash short_lived 5500 3
          (rotate same_hash short_lived 5500 40 41 ended_session).1
        ≡ true)
reuse_ends_family_example =
    reuse_ends_family same_hash short_lived 5500 40 41 ended_session {old = ended} lives refl refl

abbrev rotated : TokenStore
rotated = (rotate same_hash short_lived 5500 40 41 one_session).1

-- The successor is rotated before the old token comes back, long after it would have expired.
abbrev in_between : List Turn
in_between = record { at = 5600; raw = 41; fresh = 43 } ∷ []

rotate_replay_example :
    ((rotate same_hash short_lived 9000 40 42
        (rotate_all same_hash short_lived in_between rotated)).0
      ≡ err (unauthorized "Refresh token reuse detected; please log in again"))
    × (live_count 3
          (rotate same_hash short_lived 9000 40 42
            (rotate_all same_hash short_lived in_between rotated)).1.refresh_tokens
        ≡ 0)
rotate_replay_example =
    rotate_replay same_hash short_lived 5500 40 41 9000 42 in_between one_session {old = one_token}
      lives refl rotates

-- An invitation of user 7, drawn as 60.
abbrev invited : TokenStore
invited = issue_one_time same_hash short_lived 5000 7 OneTimeTokenType.invite 60 one_session

invitation_accepted :
    (consume_one_time same_hash short_lived 5500 60 OneTimeTokenType.invite invited).0 ≡ ok 7
unfolding consume_one_time usable_token issue_one_time
invitation_accepted = refl

issue-consume_example :
    (consume_one_time same_hash short_lived 5500 60 OneTimeTokenType.invite invited).0 ≡ ok 7
issue-consume_example =
    issue-consume same_hash short_lived 5000 5500 60 7 OneTimeTokenType.invite one_session refl
