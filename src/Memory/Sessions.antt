-- ===== src/Memory/Sessions.antt =====
-- internal/storage/store/memory/login_sessions.go: the sessions of the login screen, by the hash of
-- their token. Every function holds the mutex of the sessions.
pub mod Expiry
use go_uptime.Clock.{Time}
use go_uptime.Common.{
  ℕ, ◌+◌, String, Bool, true, false, not, Option, none, some, List, [], ◌∷◌, ◌⊎◌, inl, inr, ltb,
  if◌then◌else◌, lookup, insert, delete, string_eq,
}

pub record LoginSession : Type 0 where
  pub token_hash : String
  pub username : String
  pub credential_fingerprint : String
  pub created_at : Time
  pub expires_at : Time

pub data SessionError : Type 0 where
  login_session_not_found : SessionError

abbrev pub Sessions : Type 0
Sessions = List (String × LoginSession)

unfoldable pub create_login_session : LoginSession → Sessions → Sessions
create_login_session session sessions = insert session.token_hash session sessions

abbrev pub found : Option LoginSession → LoginSession ⊎ SessionError
found none = inr login_session_not_found
found (some session) = inl session

unfoldable pub get_login_session : String → Sessions → LoginSession ⊎ SessionError
get_login_session token_hash sessions = found (lookup token_hash sessions)

unfoldable pub delete_login_session : String → Sessions → Sessions
delete_login_session token_hash sessions = delete token_hash sessions

abbrev pub is_expired : Time → LoginSession → Bool
is_expired now session = not (ltb now session.expires_at)

-- The sessions that are left, and how many were deleted.
unfoldable pub delete_expired_login_sessions : Time → Sessions → Sessions × ℕ
delete_expired_login_sessions now [] = ([], 0)
delete_expired_login_sessions now ((hash, session) ∷ sessions) =
    let (rest, deleted) = delete_expired_login_sessions now sessions in
    if is_expired now session then (rest, deleted + 1) else ((hash, session) ∷ rest, deleted)
