-- ===== src/Web/Handler.antt =====
-- webserver/src/mainrequesthandler.cpp: which requests are served, and in which session.
use cc_base.Base.{
  ℕ, Bool, false, not, ◌||◌, Option, none, some, List, [], ◌∷◌, ◌++◌, if◌then◌else◌, ◌==◌,
}
use cc_base.Cstring.{Bytes, codes, slash, streq, starts_with}
use cc_base.Web.Plugins.{get_implementation}
use cc_base.Web.Sessions.{
  TimePoint, Session, SessionManager, get_session_cookie, is_valid, destroy_session_cookie,
}

-- The events of mongoose: MG_AUTH, MG_REQUEST and the rest.
pub data MgEvent : Type 0 where
  auth request other_event : MgEvent

-- A request: the byte at the head of the URI, which mongoose has checked to be there, the bytes
-- behind it, and the header `Cookie`.
pub record Connection : Type 0 where
  pub first : ℕ
  pub rest : Bytes
  pub cookie : Option Bytes

-- What is returned to mongoose, and what was sent before.
pub data Reply : Type 0 where
  -- A plugin's answer.
  answers : ℕ → Reply
  -- MG_MORE, and a file is sent.
  sends_file : Bytes → Reply
  -- MG_TRUE with status 404.
  not_found : Reply
  -- MG_TRUE with status 303 and a location.
  redirects : Bytes → Reply
  -- MG_TRUE and nothing sent.
  accepts : Reply
  -- MG_FALSE: mongoose serves the request.
  declines : Reply
  -- A plugin throws.
  throws : Reply
  -- The code reads through an invalid pointer.
  faults : Reply

-- The handler with the session manager, and `requestSessionOfCurrentTread`.
pub record Server : Type 0 where
  pub manager : SessionManager
  pub current : Option Session

-- A plugin's `beginRequest`, run at a time on the server: `none` says that it throws.
abbrev pub RequestHandler : Type 0
RequestHandler = TimePoint → Connection → Server → Option ℕ × SessionManager

-- `pluginHandler`, `dataDir` and `gaTrackingIdPath`
pub record Setup : Type 0 where
  pub implementations : List (Bytes × RequestHandler)
  pub data_dir : Bytes → Bytes
  pub ga_tracking_id_path : Bytes

abbrev pub unprotected_first_directories : List Bytes
unprotected_first_directories =
    codes "doxygen/"
    ∷ codes "fonts/"
    ∷ codes "images/"
    ∷ codes "scripts/"
    ∷ codes "style/"
    ∷ codes "userguide/"
    ∷ codes "favicon.ico"
    ∷ codes "login.html"
    ∷ codes "ga.txt"
    ∷ []

unfoldable pub starts_with_any : Bytes → List Bytes → Bool
starts_with_any uri [] = false
starts_with_any uri (e ∷ es) = starts_with uri e || starts_with_any uri es

unfoldable pub is_protected : Connection → Bool
unfolding starts_with_any
is_protected conn = not (starts_with_any conn.rest unprotected_first_directories)

-- A text up to the first slash, and from it on.
unfoldable pub first_directory : Bytes → Bytes × Bytes
first_directory [] = ([], [])
first_directory (c ∷ s) =
    let (dir, file) = first_directory s in if c == slash then ([], c ∷ s) else (c ∷ dir, file)

-- `pop_back` on a slash at the end
unfoldable pub pop_slash : Bytes → Bytes
pop_slash [] = []
pop_slash (c ∷ []) = if c == slash then [] else c ∷ []
pop_slash (c ∷ d ∷ s) = c ∷ pop_slash (d ∷ s)

-- What stands behind the first slash, or all if there is none.
unfoldable pub behind_slash : Bytes → Bytes
unfolding first_directory
behind_slash uri = elim (first_directory uri).1 [ [] ↦ uri | c ∷ s ↦ s ]

-- `getDocDirByURI`
unfoldable pub get_doc_dir_by_uri : Setup → Bytes → Bytes
unfolding pop_slash behind_slash first_directory
get_doc_dir_by_uri setup [] = []
get_doc_dir_by_uri setup (c ∷ uri) =
    let (ws, file) = first_directory (behind_slash (pop_slash (c ∷ uri))) in
    setup.data_dir ws ++ (codes "/docs" ++ file)

-- A plugin's answer.
abbrev pub reply_of : Option ℕ → Reply
reply_of (some n) = answers n
reply_of none = throws

-- `begin_request_handler`
unfoldable pub begin_request : Setup → TimePoint → Connection → Server → Reply × Server
unfolding get_doc_dir_by_uri
begin_request setup now conn server = elim (get_implementation setup.implementations conn.rest) [
  | some handler ↦
      let (answer, manager) = handler now conn server in
      (reply_of answer, record server { manager = manager })
  | none ↦
      if streq conn.rest (codes "ga.txt")
      then (elim setup.ga_tracking_id_path [
        | [] ↦ (not_found, server)
        | c ∷ path ↦ (sends_file (c ∷ path), server)
      ])
      else if starts_with conn.rest (codes "doxygen/")
      then (sends_file (get_doc_dir_by_uri setup conn.rest), server)
      else (declines, server)
]

-- `executeWithSessionContext` on `begin_request_handler`: the session of the thread is reset at the
-- return and when an exception passes.
unfoldable pub execute_with_session_context :
    Option Session → Setup → TimePoint → Connection → Server → Reply × Server
unfolding begin_request
execute_with_session_context session setup now conn server =
    let (reply, after) = begin_request setup now conn (record server { current = session }) in
    (reply, record after { current = none })

-- `operator()` on a request
unfoldable pub handle_request : Setup → TimePoint → Connection → Server → Reply × Server
unfolding execute_with_session_context begin_request is_protected
handle_request setup now conn server =
    if streq (conn.first ∷ conn.rest) (codes "/AuthenticationService")
    then elim (get_session_cookie server.manager conn.cookie) [
      | none ↦ (faults, server)
      | some session ↦ execute_with_session_context session setup now conn server
    ]
    else if not (is_protected conn)
    then begin_request setup now conn server
    else elim (get_session_cookie server.manager conn.cookie) [
      | none ↦ (faults, server)
      | some session ↦
          if not (is_valid server.manager now session)
          then (
            redirects (codes "/login.html"),
            record server { manager = destroy_session_cookie server.manager now session },
          )
          else execute_with_session_context session setup now conn server
    ]

-- `operator()`
unfoldable pub handle_event : Setup → TimePoint → MgEvent → Connection → Server → Reply × Server
unfolding handle_request
handle_event setup now auth conn server = (accepts, server)
handle_event setup now request conn server = handle_request setup now conn server
handle_event setup now other_event conn server = (declines, server)
