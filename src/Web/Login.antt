-- ===== src/Web/Login.antt =====
-- From a login to the request that follows it, and the end of a session.
use cc_base.Base.{
  ℕ, ◌+◌, ◌*◌, ◌^◌, ◌<◌, true, false, none, some, List, [], ◌∷◌, ◌++◌, ◌≡◌, ◌≢◌, refl, sym, ap, inl,
  inr, arith, ltb, length, append_assoc, append-nil, All-append, Bool-cases,
}
use cc_base.Cstring.{Bytes, codes, streq, strchr}
use cc_base.Cstring.Laws.{Lacks, strchr-Lacks, contains-append, streq_refl}
use cc_base.Web.Auth.{is_enabled, authenticate_username_password}
use cc_base.Web.Sessions.{
  TimePoint, second, Session, new_session, SessionManager, cookie_name, session_clear_threshold,
  find_session, emplace, after_first, split_from, cookie_value, cookie_identifier,
  get_session_cookie, is_valid, keep_valid, cleanup_old_sessions, erase_session,
  destroy_session_cookie, authenticate_user,
}
use cc_base.Web.Kept.{find_session-append, find_session-erase_session}
use cc_base.Web.Access.{Context, returns, login_username_password}

split_from-Lacks :
    (sep : ℕ) (part s : Bytes) → Lacks sep s → split_from sep part s ≡ (part ++ s) ∷ []
unfolding split_from
split_from-Lacks sep part [] h = ap (λ l. l ∷ []) (sym (append-nil part))
split_from-Lacks sep part (c ∷ s) h =
    ground (arith, split_from-Lacks sep (part ++ c ∷ []) s h.1, append_assoc part (c ∷ []) s, h.0)

-- The text of the cookie, as `loginUsernamePassword` returns it.
abbrev pub cookie_text : Bytes → Bytes
cookie_text id = cookie_name ++ b'=' ∷ id

cookie_value_lem : (id : Bytes) → cookie_value (cookie_text id) ≡ some id
unfolding cookie_value
cookie_value_lem id = rw (contains-append [] cookie_name (b'=' ∷ id)) (unfold after_first in refl)

cookie_text-Lacks : (id : Bytes) → Lacks b';' id → Lacks b';' (cookie_text id)
unfolding strchr
cookie_text-Lacks id h =
    All-append (λ x. x ≢ b';') cookie_name (b'=' ∷ id) (strchr-Lacks cookie_name b';' refl)
      ((strchr-Lacks (codes "=") b';' refl).0, h)

found_new :
    (m : SessionManager) (id : Bytes) (s : Session)
    → find_session m.sessions id ≡ none
    → find_session (m.sessions ++ (id, s) ∷ []) id ≡ some s
found_new m id s e = rw (find_session-append m.sessions id id s, e, streq_refl id)

identifier_of_cookie :
    (id : Bytes) → Lacks b';' id → cookie_identifier (split_from b';' [] (cookie_text id)) ≡ id
unfolding cookie_identifier
identifier_of_cookie id h =
    rw (split_from-Lacks b';' [] (cookie_text id) (cookie_text-Lacks id h))
      (rw (cookie_identifier, cookie_value_lem id))

cookie_of_new :
    (m : SessionManager) (id : Bytes) (s : Session)
    → is_enabled m.auth_engine ≡ true
    → Lacks b';' id
    → id ≢ []
    → find_session m.sessions id ≡ none
    → get_session_cookie
        (record m { sessions = m.sessions ++ (id, s) ∷ [] })
        (some (cookie_text id))
      ≡ some (some s)
unfolding get_session_cookie
cookie_of_new m [] s on h ne fresh = absurd (ne refl)
cookie_of_new m (c ∷ id) s on h ne fresh =
    rw (on, get_session_cookie, identifier_of_cookie (c ∷ id) h)
      (ap some (found_new m (c ∷ id) s fresh))

-- A user whom a backend accepts, and for whom an identifier is drawn that is new, not empty and
-- without a semicolon, gets a cookie. A request that sends this cookie is in a session of the user.
-- Where the end of its lifetime is below 2 ^ 63 nanoseconds, this session is valid as long as the
-- lifetime lasts and not from then on.
pub login_username_password-get_session_cookie :
    (c : Context) (m : SessionManager) (now later : TimePoint) (id username password : Bytes)
    → c.manager ≡ some m
    → is_enabled m.auth_engine ≡ true
    → authenticate_username_password m.auth_engine username password ≡ true
    → Lacks b';' id
    → id ≢ []
    → find_session m.sessions id ≡ none
    → now + second * m.auth_engine.session_lifetime < 2 ^ 63
    → (after : SessionManager) × (login_username_password c now id username password
        ≡ returns (cookie_text id, after))
      × (get_session_cookie after (some (cookie_text id))
          ≡ some (some (new_session id username now)))
      × (is_valid after later (some (new_session id username now))
          ≡ ltb later (now + second * m.auth_engine.session_lifetime))
unfolding login_username_password authenticate_user emplace is_valid
login_username_password-get_session_cookie c m now later [] username password has on good h ne fresh
      fits =
    absurd (ne refl)
login_username_password-get_session_cookie c m now later (x ∷ id) username password has on good h ne
      fresh fits =
    (
      record m { sessions = m.sessions ++ (x ∷ id, new_session (x ∷ id) username now) ∷ [] },
      rw (login_username_password, has, good, emplace, fresh) (rw good),
      cookie_of_new m (x ∷ id) (new_session (x ∷ id) username now) on h ne fresh,
      rw on (ground arith),
    )

find_session-keep_valid :
    (m : SessionManager) (now : TimePoint) (sessions : List (Bytes × Session)) (id : Bytes)
    → find_session sessions id ≡ none
    → find_session (keep_valid m now sessions) id ≡ none
unfolding find_session keep_valid
find_session-keep_valid m now [] id h = refl
find_session-keep_valid m now ((k, s) ∷ sessions) id h = elim (Bool-cases (streq k id)) [
  | inl hit ↦ absurd (ground (arith, hit, h))
  | inr miss ↦ ground (arith, miss, h, find_session-keep_valid m now sessions id)
]

cleanup_gone :
    (m : SessionManager) (now : TimePoint) (id : Bytes)
    → find_session m.sessions id ≡ none
    → find_session (cleanup_old_sessions m now).sessions id ≡ none
unfolding cleanup_old_sessions
cleanup_gone m now id h = elim (Bool-cases (ltb session_clear_threshold (length m.sessions))) [
  | inl many ↦ rw many (find_session-keep_valid m now m.sessions id h)
  | inr few ↦ rw few h
]

-- After a logout no request is in the session any more, unless it is the one that all users share.
pub destroy_session_cookie_gone :
    (m : SessionManager) (now : TimePoint) (s : Session)
    → streq s.sess_id cookie_name ≡ false
    → find_session (destroy_session_cookie m now (some s)).sessions s.sess_id ≡ none
unfolding destroy_session_cookie
destroy_session_cookie_gone m now s own = rw own (
    cleanup_gone (record m { sessions = erase_session m.sessions s.sess_id }) now s.sess_id
      (rw (find_session-erase_session m.sessions s.sess_id s.sess_id, streq_refl s.sess_id)))
