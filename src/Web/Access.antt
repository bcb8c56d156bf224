-- ===== src/Web/Access.antt =====
-- `SessionManagerAccess` of webserver/src/session.cpp, and the handler of the authentication service,
-- service/authentication/src/authenticationservice.cpp.
use cc_base.Base.{Bool, false, Option, none, some, [], ◌∷◌, ◌++◌}
use cc_base.Cstring.{Bytes}
use cc_base.Web.Sessions.{
  TimePoint, Session, SessionManager, cookie_name, is_valid, is_requiring_authentication,
  destroy_session_cookie, authenticate_user,
}

-- The session manager that the access object wraps, which may be NULL, and the session of the
-- current thread.
pub record Context : Type 0 where
  pub manager : Option SessionManager
  pub current : Option Session

-- What a call does: it returns a value, throws `std::runtime_error` or `IncorrectCredentials`, or
-- reads through NULL.
pub data Outcome (A : Type 0) : Type 0 where
  returns : A → Outcome A
  runtime_error : Outcome A
  incorrect_credentials : Outcome A
  null_access : Outcome A

abbrev pub auth_is_requiring_authentication : Context → Bool
auth_is_requiring_authentication c = elim c.manager [
  | none ↦ false
  | some m ↦ is_requiring_authentication m
]

unfoldable pub auth_get_auth_prompt : Context → Bytes
auth_get_auth_prompt c = elim c.manager [ none ↦ [] | some m ↦ m.auth_engine.auth_prompt ]

-- `accessSession`: the function gets the manager and the session.
unfoldable pub access_session :
    {A : Type 0} → Context → (SessionManager → Option Session → Outcome A) → Outcome A
access_session c f = elim c.manager [ none ↦ runtime_error | some m ↦ f m c.current ]

unfoldable pub auth_session_cookie_name : Context → Outcome Bytes
auth_session_cookie_name c = elim c.manager [ none ↦ runtime_error | some m ↦ returns cookie_name ]

unfoldable pub auth_is_current_session_valid : Context → TimePoint → Outcome Bool
unfolding access_session
auth_is_current_session_valid c now = access_session c (λ m s. returns (is_valid m now s))

-- `auth_usernameAndPassword`: the identifier of the session or the empty text, and the manager after.
unfoldable pub auth_username_and_password :
    Context → TimePoint → Bytes → Bytes → Bytes → Outcome (Bytes × SessionManager)
auth_username_and_password c now id username password = elim c.manager [
  | none ↦ runtime_error
  | some m ↦
      let (s, m') = authenticate_user m now id username password in
      elim s [ none ↦ returns ([], m') | some s ↦ returns (s.sess_id, m') ]
]

unfoldable pub auth_logout : Context → TimePoint → Outcome SessionManager
unfolding access_session
auth_logout c now = access_session c (λ m s. returns (destroy_session_cookie m now s))

-- `loginUsernamePassword`: the text of the cookie, and the manager after.
unfoldable pub login_username_password :
    Context → TimePoint → Bytes → Bytes → Bytes → Outcome (Bytes × SessionManager)
unfolding auth_username_and_password
login_username_password c now id username password =
    elim (auth_username_and_password c now id username password) [
      | returns ([], m) ↦ incorrect_credentials
      | returns (x ∷ cookie_id, m) ↦ returns (cookie_name ++ b'=' ∷ (x ∷ cookie_id), m)
      | runtime_error ↦ runtime_error
      | incorrect_credentials ↦ incorrect_credentials
      | null_access ↦ null_access
    ]

-- `logout`
unfoldable pub logout : Context → TimePoint → Outcome (Bytes × SessionManager)
unfolding auth_logout
logout c now = elim (auth_logout c now) [
  | returns m ↦ returns (cookie_name, m)
  | runtime_error ↦ runtime_error
  | incorrect_credentials ↦ incorrect_credentials
  | null_access ↦ null_access
]

-- `getLoggedInUser`, which does not test the session
unfoldable pub get_logged_in_user : Context → Outcome Bytes
unfolding access_session
get_logged_in_user c =
    access_session c (λ m s. elim s [ none ↦ null_access | some s ↦ returns s.username ])
