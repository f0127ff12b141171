-- ===== src/Memory/Sessions/Expiry.antt =====
-- internal/storage/store/memory/login_sessions.go: the sessions that have expired are gone.
use go_uptime.Memory.Sessions.{
  LoginSession, login_session_not_found, Sessions, create_login_session, found, get_login_session,
  delete_login_session, is_expired, delete_expired_login_sessions,
}
use go_uptime.Clock.{Time}
use go_uptime.Common.{
  ◌+◌, ◌≡◌, refl, sym, ap, ◌∙◌, String, Bool, true, false, Option, none, some, [], ◌∷◌, inl, inr,
  arith, length, lookup, insert, lookup-insert, lookup-delete, string_eq, str_eq, str_eq_iff,
  Bool-cases, if◌then◌else◌,
}

-- A session that is still valid.
abbrev pub unexpired : Time → Option LoginSession → Option LoginSession
unexpired now none = none
unexpired now (some session) = if is_expired now session then none else some session

-- Every hash is there once, as in a Go map.
abbrev pub IsMap : Sessions → Type 0
IsMap [] = Unit
IsMap ((hash, session) ∷ sessions) = (lookup hash sessions ≡ none) × IsMap sessions

lookup-delete_expired :
    (now : Time) (hash : String) (sessions : Sessions)
    → IsMap sessions
    → lookup hash (delete_expired_login_sessions now sessions).0
      ≡ unexpired now (lookup hash sessions)
unfolding lookup delete_expired_login_sessions
lookup-delete_expired now hash [] m = refl
lookup-delete_expired now hash ((j, session) ∷ sessions) (fresh, m) =
    let rest = lookup-delete_expired now hash sessions m in
    elim (Bool-cases (is_expired now session)) [
      | inl out ↦ rw out (elim (Bool-cases (str_eq j hash)) [
        | inl same ↦
            rw (same, out)
              (rest
                ∙ ap (λ h. unexpired now (lookup h sessions)) (sym ((str_eq_iff j hash).0 same))
                ∙ ap (unexpired now) fresh)
        | inr other ↦ rw other rest
      ])
      | inr kept ↦ rw kept (elim (Bool-cases (str_eq j hash)) [
        | inl same ↦ rw (same, kept) refl
        | inr other ↦ rw other rest
      ])
    ]

length-delete_expired :
    (now : Time) (sessions : Sessions)
    → let (rest, deleted) = delete_expired_login_sessions now sessions in
      length rest + deleted ≡ length sessions
unfolding delete_expired_login_sessions
length-delete_expired now [] = refl
length-delete_expired now ((j, session) ∷ sessions) =
    let rest = length-delete_expired now sessions in ground (arith, rest)

-- In a map, where each hash stands once, the deletion of the expired sessions leaves a hash exactly
-- if it was there and its session has not expired, with the same session, and the number returned
-- is the number of sessions deleted.
pub delete_expired_lem :
    (now : Time) (sessions : Sessions)
    → IsMap sessions
    → let (rest, deleted) = delete_expired_login_sessions now sessions in
      ((hash : String) → get_login_session hash rest ≡ found (unexpired now (lookup hash sessions)))
      × (length rest + deleted ≡ length sessions)
unfolding get_login_session
delete_expired_lem now sessions m = (
  λ hash. ap found (lookup-delete_expired now hash sessions m),
  length-delete_expired now sessions,
)

found-if :
    (b : Bool) (session : LoginSession) (o : Option LoginSession)
    → found (if b then some session else o) ≡ (if b then inl session else found o)
found-if true session o = refl
found-if false session o = refl

-- A session that was created is the one found under its hash, and creating or deleting it changes
-- no other hash.
pub get-create_delete :
    (hash : String) (session : LoginSession) (sessions : Sessions)
    → (get_login_session hash (create_login_session session sessions)
        ≡ (if str_eq session.token_hash hash then inl session else get_login_session hash sessions))
      × (get_login_session hash
            (delete_login_session session.token_hash (create_login_session session sessions))
          ≡ (if str_eq session.token_hash hash
              then inr login_session_not_found
              else get_login_session hash sessions))
unfolding get_login_session create_login_session delete_login_session
get-create_delete hash session sessions =
    let key = session.token_hash in
    let created = lookup-insert key hash session sessions in
    let gone = lookup-delete key hash (insert key session sessions) in
    (
      ap found created ∙ found-if (str_eq key hash) session (lookup hash sessions),
      ap found gone
          ∙ without (str_eq key hash) (lookup hash (insert key session sessions))
              (lookup hash sessions) created,
    )
  where
    without :
        (b : Bool) (o p : Option LoginSession)
        → o ≡ (if b then some session else p)
        → found (if b then none else o) ≡ (if b then inr login_session_not_found else found p)
    without true o p h = refl
    without false o p h = ap found h
