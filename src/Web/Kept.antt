-- ===== src/Web/Kept.antt =====
-- What the session manager keeps of its sessions, through logins, logouts and cleaning up.
use cc_base.Base.{
  true, false, Option, none, some, List, [], ◌∷◌, ◌++◌, ◌≡◌, ◌≢◌, refl, sym, ap, subst, inl, inr,
  arith, if◌then◌else◌, ltb, length, All, All-append, Bool-cases, Option-cases,
}
use cc_base.Cstring.{Bytes, codes, streq}
use cc_base.Cstring.Laws.{streq_refl, streq→eq}
use cc_base.Web.Auth.{Authentication, is_enabled, authenticate_username_password}
use cc_base.Web.Sessions.{
  TimePoint, Session, SessionManager, cookie_name, session_clear_threshold, new_session,
  find_session, emplace, erase_session, new_session_manager, is_valid, keep_valid,
  cleanup_old_sessions, destroy_session_cookie, authenticate_user,
}

-- A session is stored under its identifier, for a user whom the backends accept with some password.
pub record IsGranted (auth : Authentication) (p : Bytes × Session) : Type 0 where
  pub keyed : p.1.sess_id ≡ p.0
  pub password : Bytes
  pub accepted : authenticate_username_password auth p.1.username password ≡ true

-- All sessions are granted, and without authentication the shared session is there.
pub record IsKept (m : SessionManager) : Type 0 where
  pub granted : All (IsGranted m.auth_engine) m.sessions
  pub shared : is_enabled m.auth_engine ≡ false → find_session m.sessions cookie_name ≢ none

pub find_session-All :
    (P : Bytes × Session → Type 0) (sessions : List (Bytes × Session)) (id : Bytes) (s : Session)
    → All P sessions
    → find_session sessions id ≡ some s
    → P (id, s)
unfolding find_session
find_session-All P [] id s h e = absurd (cc)
find_session-All P ((k, t) ∷ sessions) id s h e = elim (Bool-cases (streq k id)) [
  | inl hit ↦
      let t_is : t ≡ s = ground (arith, hit, e) in subst P (λ i. (streq→eq k id hit i, t_is i)) h.0
  | inr miss ↦ find_session-All P sessions id s h.1 (ground (arith, miss, e))
]

pub find_session-append :
    (sessions : List (Bytes × Session)) (k id : Bytes) (s : Session)
    → find_session (sessions ++ (k, s) ∷ []) id ≡ elim (find_session sessions id) [
      | some t ↦ some t
      | none ↦ if streq k id then some s else none
    ]
unfolding find_session
find_session-append [] k id s = refl
find_session-append ((j, t) ∷ sessions) k id s = elim (Bool-cases (streq j id)) [
  | inl hit ↦ rw hit
  | inr miss ↦ rw miss (find_session-append sessions k id s)
]

find_session-append_stays :
    (sessions : List (Bytes × Session)) (k id : Bytes) (s : Session)
    → find_session sessions id ≢ none
    → find_session (sessions ++ (k, s) ∷ []) id ≢ none
find_session-append_stays sessions k id s h = elim (Option-cases (find_session sessions id)) [
  | inl e ↦ absurd (h e)
  | inr (t, e) ↦ rw (find_session-append sessions k id s, e) (cc)
]

streq_left : (a b c : Bytes) → streq a b ≡ true → streq a c ≡ streq b c
streq_left a b c h = ap (λ x. streq x c) (streq→eq a b h)

streq_right : (a b c : Bytes) → streq b c ≡ true → streq a c ≡ streq a b
streq_right a b c h = ap (streq a) (sym (streq→eq b c h))

-- After an erasure.
pub find_session-erase_session :
    (sessions : List (Bytes × Session)) (k id : Bytes)
    → find_session (erase_session sessions k) id
      ≡ (if streq k id then none else find_session sessions id)
unfolding find_session erase_session
find_session-erase_session [] k id = ground arith
find_session-erase_session ((j, t) ∷ sessions) k id = elim (Bool-cases (streq j k)) [
  | inl gone ↦
      rw gone (ground (arith, find_session-erase_session sessions k id, streq_left j k id gone))
  | inr stays ↦
      rw stays (ground (arith, find_session-erase_session sessions k id, streq_right j k id, stays))
]

erase_session-All :
    (P : Bytes × Session → Type 0) (sessions : List (Bytes × Session)) (k : Bytes)
    → All P sessions
    → All P (erase_session sessions k)
unfolding erase_session
erase_session-All P [] k h = tt
erase_session-All P ((j, t) ∷ sessions) k h = elim (Bool-cases (streq j k)) [
  | inl gone ↦ rw gone (erase_session-All P sessions k h.1)
  | inr stays ↦ rw stays (h.0, erase_session-All P sessions k h.1)
]

keep_valid-All :
    (P : Bytes × Session → Type 0) (m : SessionManager) (now : TimePoint)
    (sessions : List (Bytes × Session))
    → All P sessions
    → All P (keep_valid m now sessions)
unfolding keep_valid
keep_valid-All P m now [] h = tt
keep_valid-All P m now ((j, t) ∷ sessions) h = elim (Bool-cases (is_valid m now (some t))) [
  | inl stays ↦ rw stays (h.0, keep_valid-All P m now sessions h.1)
  | inr gone ↦ rw gone (keep_valid-All P m now sessions h.1)
]

-- Without authentication no session is cleaned up.
keep_valid_all :
    (m : SessionManager) (now : TimePoint) (sessions : List (Bytes × Session))
    → is_enabled m.auth_engine ≡ false
    → keep_valid m now sessions ≡ sessions
unfolding keep_valid is_valid
keep_valid_all m now [] h = refl
keep_valid_all m now (p ∷ sessions) h = ground (arith, h, keep_valid_all m now sessions h)

cleanup-IsKept :
    (m : SessionManager) (now : TimePoint) → IsKept m → IsKept (cleanup_old_sessions m now)
unfolding cleanup_old_sessions
cleanup-IsKept m now h = elim (Bool-cases (ltb session_clear_threshold (length m.sessions))) [
  | inl many ↦ rw many (record {
    granted = keep_valid-All (IsGranted m.auth_engine) m now m.sessions h.granted;
    shared = λ off. rw (keep_valid_all m now m.sessions off) (h.shared off);
  })
  | inr few ↦ rw few h
]

erase-IsKept :
    (m : SessionManager) (k : Bytes)
    → streq k cookie_name ≡ false
    → IsKept m
    → IsKept (record m { sessions = erase_session m.sessions k })
erase-IsKept m k other h = record {
  granted = erase_session-All (IsGranted m.auth_engine) m.sessions k h.granted;
  shared = λ off. rw (find_session-erase_session m.sessions k cookie_name, other) (h.shared off);
}

-- A logout keeps what the manager keeps.
pub destroy-IsKept :
    (m : SessionManager) (now : TimePoint) (s : Option Session)
    → IsKept m
    → IsKept (destroy_session_cookie m now s)
unfolding destroy_session_cookie
destroy-IsKept m now none h = h
destroy-IsKept m now (some s) h = elim (Bool-cases (streq s.sess_id cookie_name)) [
  | inl common ↦ rw common h
  | inr own ↦ rw own (cleanup-IsKept _ now (erase-IsKept m s.sess_id own h))
]

-- So does a login, whatever identifier is drawn.
pub authenticate_user-IsKept :
    (m : SessionManager) (now : TimePoint) (id username password : Bytes)
    → IsKept m
    → IsKept (authenticate_user m now id username password).1
unfolding authenticate_user emplace
authenticate_user-IsKept m now id username password h =
    elim (Bool-cases (authenticate_username_password m.auth_engine username password)) [
      | inr bad ↦ rw bad h
      | inl good ↦ elim (Option-cases (find_session m.sessions id)) [
        | inr (old, e) ↦ rw (good, emplace, e) h
        | inl e ↦
            rw (good, emplace, e)
              (record {
                granted =
                    All-append (IsGranted m.auth_engine) m.sessions _ h.granted
                      (record { keyed = refl; password = password; accepted = good }, tt);
                shared = λ off.
                    find_session-append_stays m.sessions id cookie_name
                      (new_session id username now) (h.shared off);
              })
      ]
    ]

open_to_all :
    (auth : Authentication) (username password : Bytes)
    → is_enabled auth ≡ false
    → authenticate_username_password auth username password ≡ true
unfolding authenticate_username_password
open_to_all auth username password off = rw off

-- And the manager begins so.
pub new_session_manager-IsKept :
    (auth : Authentication) (now : TimePoint) → IsKept (new_session_manager auth now)
unfolding new_session_manager find_session
new_session_manager-IsKept auth now = elim (Bool-cases (is_enabled auth)) [
  | inl on ↦ rw on (record { granted = tt; shared = λ off. absurd (cc) })
  | inr off ↦ rw off (record {
    granted = (
      record {
        keyed = refl;
        password = [];
        accepted = open_to_all auth (codes "Anonymous") [] off;
      },
      tt,
    );
    shared = λ _. rw (streq_refl cookie_name) (cc);
  })
]
