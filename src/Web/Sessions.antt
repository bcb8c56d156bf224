-- ===== src/Web/Sessions.antt =====
-- `Session` of webserver/src/session.cpp, and webserver/src/sessionmanager.cpp.
use cc_base.Base.{
  ℕ, ◌+◌, ◌*◌, ◌%◌, ◌^◌, Bool, true, false, not, ◌||◌, Option, none, some, List, [], ◌∷◌, ◌++◌,
  if◌then◌else◌, ◌>>=◌, ◌==◌, ltb, leb, length, drop,
}
use cc_base.Cstring.{Bytes, codes, streq, contains}
use cc_base.Web.Auth.{Authentication, is_enabled, authenticate_username_password}

-- A point of the steady clock, in nanoseconds.
abbrev pub TimePoint : Type 0
TimePoint = ℕ

abbrev pub second : ℕ
second = 1000000000

pub record Session : Type 0 where
  pub sess_id : Bytes
  pub username : Bytes
  pub last_hit : TimePoint

-- A session made at a time.
abbrev pub new_session : Bytes → Bytes → TimePoint → Session
new_session sess_id username now = record { sess_id = sess_id; username = username; last_hit = now }

-- The map from identifiers to sessions, in the order of its iteration. A pointer to a session is the
-- session itself: no field of it is ever assigned, and no other request erases it meanwhile.
pub record SessionManager : Type 0 where
  pub auth_engine : Authentication
  pub sessions : List (Bytes × Session)

abbrev pub cookie_name : Bytes
cookie_name = codes "CodeCompass_SESH"

abbrev pub session_clear_threshold : ℕ
session_clear_threshold = 16

-- `find`
unfoldable pub find_session : List (Bytes × Session) → Bytes → Option Session
find_session [] id = none
find_session ((k, s) ∷ sessions) id = if streq k id then some s else find_session sessions id

-- `emplace`: a session that is there stays.
unfoldable pub emplace : List (Bytes × Session) → Bytes → Session → Session × List (Bytes × Session)
unfolding find_session
emplace sessions id s = elim (find_session sessions id) [
  | some old ↦ (old, sessions)
  | none ↦ (s, sessions ++ (id, s) ∷ [])
]

-- `erase`
unfoldable pub erase_session : List (Bytes × Session) → Bytes → List (Bytes × Session)
erase_session [] id = []
erase_session ((k, s) ∷ sessions) id =
    let rest = erase_session sessions id in if streq k id then rest else (k, s) ∷ rest

abbrev pub is_requiring_authentication : SessionManager → Bool
is_requiring_authentication m = is_enabled m.auth_engine

-- `SessionManager (authEngine)`, made at a time
unfoldable pub new_session_manager : Authentication → TimePoint → SessionManager
new_session_manager auth now = record {
  auth_engine = auth;
  sessions =
      if not (is_enabled auth)
      then (cookie_name, new_session cookie_name (codes "Anonymous") now) ∷ []
      else [];
}

-- `boost::algorithm::split` on one byte; the last argument is the part begun.
unfoldable pub split_from : ℕ → Bytes → Bytes → List Bytes
split_from sep part [] = part ∷ []
split_from sep part (c ∷ s) =
    let stop = part ∷ split_from sep [] s in
    let go = split_from sep (part ++ c ∷ []) s in if c == sep then stop else go

-- `substr` from behind the first `c`, or none.
unfoldable pub after_first : ℕ → Bytes → Option Bytes
after_first c [] = none
after_first c (x ∷ s) = let rest = after_first c s in if x == c then some s else rest

-- What stands behind the first `=` that is not before the length of the cookie's name, in a cookie
-- that holds this name.
unfoldable pub cookie_value : Bytes → Option Bytes
unfolding after_first
cookie_value cookie =
    if contains cookie cookie_name
    then after_first b'=' (drop (length cookie_name) cookie)
    else none

-- The loop over the cookies: the first value, or the empty text.
unfoldable pub cookie_identifier : List Bytes → Bytes
unfolding cookie_value
cookie_identifier [] = []
cookie_identifier (cookie ∷ cookies) = elim (cookie_value cookie) [
  | some value ↦ value
  | none ↦ cookie_identifier cookies
]

-- `getSessionCookie`; the inner `none` is NULL, and the outer one the use of the end iterator.
unfoldable pub get_session_cookie : SessionManager → Option Bytes → Option (Option Session)
unfolding find_session cookie_identifier split_from
get_session_cookie m header =
    if not (is_requiring_authentication m)
    then (do s ← find_session m.sessions cookie_name; some (some s))
    else elim header [
      | none ↦ some none
      | some text ↦ elim (cookie_identifier (split_from b';' [] text)) [
        | [] ↦ some none
        | c ∷ identifier ↦ some (find_session m.sessions (c ∷ identifier))
      ]
    ]

-- The time at which a session ends, as the 64 bits that hold it. The lifetime is a `size_t`, and the
-- sum is made in signed nanoseconds, where it wraps around in practice (it is undefined in C++).
abbrev pub expiry : SessionManager → Session → TimePoint
expiry m s = (s.last_hit + second * m.auth_engine.session_lifetime) % 2 ^ 64

-- `now >= expiry`, where the bits from 2 ^ 63 on are a time below zero, and now is not.
abbrev pub is_over : TimePoint → TimePoint → Bool
is_over ends now = leb (2 ^ 63) ends || leb ends now

-- `isValid`, at a time
unfoldable pub is_valid : SessionManager → TimePoint → Option Session → Bool
is_valid m now session =
    if not (is_requiring_authentication m)
    then true
    else elim session [ none ↦ false | some s ↦ if is_over (expiry m s) now then false else true ]

-- The loop of `cleanupOldSessions`.
unfoldable pub keep_valid :
    SessionManager → TimePoint → List (Bytes × Session) → List (Bytes × Session)
unfolding is_valid
keep_valid m now [] = []
keep_valid m now ((k, s) ∷ sessions) =
    let rest = keep_valid m now sessions in
    if not (is_valid m now (some s)) then rest else (k, s) ∷ rest

unfoldable pub cleanup_old_sessions : SessionManager → TimePoint → SessionManager
unfolding keep_valid
cleanup_old_sessions m now =
    if ltb session_clear_threshold (length m.sessions)
    then record m { sessions = keep_valid m now m.sessions }
    else m

-- `destroySessionCookie`
unfoldable pub destroy_session_cookie : SessionManager → TimePoint → Option Session → SessionManager
unfolding erase_session cleanup_old_sessions
destroy_session_cookie m now none = m
destroy_session_cookie m now (some s) =
    if streq s.sess_id cookie_name
    then m
    else cleanup_old_sessions (record m { sessions = erase_session m.sessions s.sess_id }) now

-- `authenticateUserWithNameAndPassword`, at a time and with the hash that is drawn
unfoldable pub authenticate_user :
    SessionManager → TimePoint → Bytes → Bytes → Bytes → Option Session × SessionManager
unfolding emplace
authenticate_user m now id username password =
    if not (authenticate_username_password m.auth_engine username password)
    then (none, m)
    else (let (s, sessions) = emplace m.sessions id (new_session id username now) in
        (some s, record m { sessions = sessions }))
