-- ===== src/Tests/Web.antt =====
-- A web server with one backend, on which a user is logged in.
use cc_base.Base.{
  arith, false, ◌+◌, ◌*◌, ◌<◌, true, none, some, [], ◌∷◌, ◌++◌, ◌≡◌, ◌⊎◌, refl, ltb, subst,
}
use cc_base.Cstring.{Bytes, codes, streq, strchr, starts_with}
use cc_base.Cstring.Laws.{strchr-Lacks}
use cc_base.Web.Auth.{
  Authenticator, Authentication, is_enabled, some_backend_accepts, authenticate_username_password,
}
use cc_base.Web.Plugins.{get_implementation}
use cc_base.Web.Sessions.{
  Session, SessionManager, new_session, find_session, get_session_cookie, is_valid, second, expiry,
  destroy_session_cookie,
}
use cc_base.Web.Access.{returns, login_username_password}
use cc_base.Web.Handler.{
  Connection, Server, RequestHandler, Setup, starts_with_any, is_protected,
  execute_with_session_context, handle_request,
}
use cc_base.Web.Kept.{IsGranted, IsKept, destroy-IsKept}
use cc_base.Web.Gate.{Names, IsRedirected, handle_request_gated}
use cc_base.Web.Left.{Keeps, IsLeft, handle_request-IsLeft}
use cc_base.Web.Login.{cookie_text, login_username_password-get_session_cookie}

abbrev backend : Authenticator
backend = record {
  is_successfully_configured = true;
  supports_username_password = true;
  authenticate_username_password = λ username password. streq password (codes "secret");
}

abbrev engine : Authentication
engine = record {
  auth_config_file_path = codes "/etc/auth.json";
  auth_prompt = [];
  session_lifetime = 60;
  authenticators = backend ∷ [];
}

abbrev empty_manager : SessionManager
empty_manager = record { auth_engine = engine; sessions = [] }

abbrev session_id : Bytes
session_id = codes "12ab"

abbrev session : Session
session = new_session session_id (codes "root") 5

abbrev manager : SessionManager
manager = record { auth_engine = engine; sessions = (session_id, session) ∷ [] }

-- A plugin that logs its caller out.
abbrev service : RequestHandler
service now c s = (some 1, destroy_session_cookie s.manager now s.current)

abbrev setup : Setup
setup = record {
  implementations = (codes "CppService", service) ∷ [];
  data_dir = λ ws. codes "/data/" ++ ws;
  ga_tracking_id_path = [];
}

abbrev conn : Connection
conn = record { first = b'/'; rest = codes "CppService"; cookie = some (cookie_text session_id) }

abbrev server : Server
server = record { manager = manager; current = none }

engine-is_enabled : is_enabled engine ≡ true
unfolding is_enabled streq
engine-is_enabled = refl

root_accepted : authenticate_username_password engine (codes "root") (codes "secret") ≡ true
unfolding authenticate_username_password is_enabled some_backend_accepts streq
root_accepted = refl

manager-IsKept : IsKept manager
unfolding is_enabled streq
manager-IsKept = record {
  granted = (record { keyed = refl; password = codes "secret"; accepted = root_accepted }, tt);
  shared = λ off. absurd (cc);
}

conn-is_protected : is_protected conn ≡ true
unfolding is_protected starts_with_any starts_with
conn-is_protected = refl

handle_request_gated_example :
    IsRedirected 9 server (handle_request setup 9 conn server)
    ⊎ ((s : Session) × Names manager conn.cookie s
        × (9 < expiry manager s)
        × IsGranted engine (s.sess_id, s)
        × (handle_request setup 9 conn server
            ≡ execute_with_session_context (some s) setup 9 conn server))
unfolding streq
handle_request_gated_example =
    handle_request_gated setup 9 conn server manager-IsKept engine-is_enabled conn-is_protected refl

setup-Keeps :
    (handler : RequestHandler)
    → get_implementation setup.implementations conn.rest ≡ some handler
    → Keeps handler
unfolding streq get_implementation
setup-Keeps handler e =
    let same : service ≡ handler = cc in
    subst Keeps same (λ now c s kept. destroy-IsKept s.manager now s.current kept)

handle_request-IsLeft_example : IsLeft (handle_request setup 9 conn server)
handle_request-IsLeft_example =
    handle_request-IsLeft setup 9 conn server setup-Keeps manager-IsKept refl

login_username_password-get_session_cookie_example :
    (after : SessionManager) × (login_username_password
        (record { manager = some empty_manager; current = none })
        5
        session_id
        (codes "root")
        (codes "secret")
      ≡ returns (cookie_text session_id, after))
    × (get_session_cookie after (some (cookie_text session_id)) ≡ some (some session))
    × (is_valid after 9 (some session) ≡ ltb 9 (5 + second * 60))
unfolding find_session strchr
login_username_password-get_session_cookie_example =
    login_username_password-get_session_cookie
      (record { manager = some empty_manager; current = none }) empty_manager 5 9 session_id
      (codes "root") (codes "secret") refl engine-is_enabled root_accepted
      (strchr-Lacks session_id b';' refl) (λ e. absurd (cc)) refl (omega arith)

-- The sum for a lifetime of 9999999999 seconds overflows, and the session is over at once.
over_at_once :
    is_valid
      (record manager { auth_engine = record engine { session_lifetime = 9999999999 } })
      9
      (some session)
    ≡ false
unfolding is_valid is_enabled streq
over_at_once = refl
