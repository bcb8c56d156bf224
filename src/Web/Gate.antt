-- ===== src/Web/Gate.antt =====
-- Who gets through `handle_event`.
use cc_base.Base.{
  ◌<◌, true, false, Option, none, some, [], ◌∷◌, ◌≡◌, ◌⊎◌, refl, inl, inr, arith, Bool-cases,
  Option-cases,
}
use cc_base.Cstring.{Bytes, codes, streq}
use cc_base.Web.Auth.{is_enabled}
use cc_base.Web.Sessions.{
  TimePoint, Session, SessionManager, cookie_name, find_session, split_from, cookie_identifier,
  get_session_cookie, expiry, is_valid, destroy_session_cookie,
}
use cc_base.Web.Kept.{IsGranted, IsKept, find_session-All}
use cc_base.Web.Handler.{
  Connection, Reply, redirects, Server, Setup, is_protected, execute_with_session_context,
  handle_request,
}

-- The header names the session by its cookie, and the session is stored.
pub record Names (m : SessionManager) (header : Option Bytes) (s : Session) : Type 0 where
  pub text : Bytes
  pub sent : header ≡ some text
  pub stored : find_session m.sessions (cookie_identifier (split_from b';' [] text)) ≡ some s

-- The outcomes of `get_session_cookie` with authentication: no session, or a stored one.
get_session_cookie_on :
    (m : SessionManager) (header : Option Bytes)
    → is_enabled m.auth_engine ≡ true
    → (get_session_cookie m header ≡ some none)
      ⊎ ((s : Session) × (get_session_cookie m header ≡ some (some s)) × Names m header s)
unfolding get_session_cookie
get_session_cookie_on m none on = inl (rw on)
get_session_cookie_on m (some text) on =
    named m text (cookie_identifier (split_from b';' [] text)) refl on
  where
    named :
        (m : SessionManager) (text id : Bytes)
        → cookie_identifier (split_from b';' [] text) ≡ id
        → is_enabled m.auth_engine ≡ true
        → (get_session_cookie m (some text) ≡ some none)
          ⊎ ((s : Session) × (get_session_cookie m (some text) ≡ some (some s))
              × Names m (some text) s)
    named m text [] e on = inl (rw (on, get_session_cookie, e))
    named m text (c ∷ id) e on = elim (Option-cases (find_session m.sessions (c ∷ id))) [
      | inl f ↦ inl (rw (on, get_session_cookie, e, f))
      | inr (s, f) ↦ inr (
        s,
        rw (on, get_session_cookie, e, f),
        record { text = text; sent = refl; stored = rw e f },
      )
    ]

-- A session that is not over, with authentication.
is_valid_iff :
    (m : SessionManager) (now : TimePoint) (s : Session)
    → is_enabled m.auth_engine ≡ true
    → (is_valid m now (some s) ≡ false) ⊎ ((is_valid m now (some s) ≡ true) × (now < expiry m s))
unfolding is_valid
is_valid_iff m now s on = ground (arith, on)

is_valid-none :
    (m : SessionManager) (now : TimePoint)
    → is_enabled m.auth_engine ≡ true
    → is_valid m now none ≡ false
unfolding is_valid
is_valid-none m now on = rw on

-- The request is redirected, and at most a session is destroyed.
abbrev pub IsRedirected : TimePoint → Server → Reply × Server → Type 0
IsRedirected now server r =
    (s : Option Session) × (r ≡ (
      redirects (codes "/login.html"),
      record server { manager = destroy_session_cookie server.manager now s },
    ))

-- With authentication, a request for a protected URI other than that of the authentication service
-- is either redirected to the login page, or handled in a session that its cookie names, that is
-- not over, and whose user the backends accept with some password.
pub handle_request_gated :
    (setup : Setup) (now : TimePoint) (conn : Connection) (server : Server)
    → IsKept server.manager
    → is_enabled server.manager.auth_engine ≡ true
    → is_protected conn ≡ true
    → streq (conn.first ∷ conn.rest) (codes "/AuthenticationService") ≡ false
    → IsRedirected now server (handle_request setup now conn server)
      ⊎ ((s : Session) × Names server.manager conn.cookie s
          × (now < expiry server.manager s)
          × IsGranted server.manager.auth_engine (s.sess_id, s)
          × (handle_request setup now conn server
              ≡ execute_with_session_context (some s) setup now conn server))
unfolding handle_request
handle_request_gated setup now conn server kept on guarded other =
    elim (get_session_cookie_on server.manager conn.cookie on) [
      | inl e ↦
          inl (none, rw (other, guarded, handle_request, e, is_valid-none server.manager now on))
      | inr (s, e, names) ↦ elim (is_valid_iff server.manager now s on) [
        | inl over ↦ inl (some s, rw (other, guarded, handle_request, e, over))
        | inr (valid, early) ↦
            let g =
              find_session-All (IsGranted server.manager.auth_engine) server.manager.sessions _ s
                kept.granted names.stored in
            inr (
              s,
              names,
              early,
              record { keyed = refl; password = g.password; accepted = g.accepted },
              rw (other, guarded, handle_request, e, valid),
            )
      ]
    ]

get_session_cookie_off :
    (m : SessionManager) (header : Option Bytes)
    → is_enabled m.auth_engine ≡ false
    → IsKept m
    → (s : Option Session) × (get_session_cookie m header ≡ some s)
unfolding get_session_cookie
get_session_cookie_off m header off kept =
    elim (Option-cases (find_session m.sessions cookie_name)) [
      | inl e ↦ absurd (kept.shared off e)
      | inr (s, e) ↦ (some s, rw (off, e))
    ]

pub get_session_cookie_total :
    (m : SessionManager) (header : Option Bytes)
    → IsKept m
    → (s : Option Session) × (get_session_cookie m header ≡ some s)
get_session_cookie_total m header kept = elim (Bool-cases (is_enabled m.auth_engine)) [
  | inr off ↦ get_session_cookie_off m header off kept
  | inl on ↦ elim (get_session_cookie_on m header on) [
    | inl e ↦ (none, e)
    | inr (s, e, names) ↦ (some s, e)
  ]
]
