-- ===== src/Web/Left.antt =====
-- What `handle_request` leaves behind.
use cc_base.Base.{
  ℕ, true, Option, none, some, [], ◌∷◌, ◌≡◌, ◌≢◌, refl, sym, ◌∙◌, subst, inl, inr, Bool-cases,
  Option-cases,
}
use cc_base.Cstring.{Bytes, codes, streq, starts_with}
use cc_base.Web.Plugins.{get_implementation}
use cc_base.Web.Sessions.{TimePoint, Session, is_valid}
use cc_base.Web.Kept.{IsKept, destroy-IsKept}
use cc_base.Web.Handler.{
  Connection, Reply, sends_file, not_found, declines, faults, Server, RequestHandler, Setup,
  is_protected, get_doc_dir_by_uri, reply_of, begin_request, execute_with_session_context,
  handle_request,
}
use cc_base.Web.Gate.{get_session_cookie_total}

-- A plugin keeps what the manager keeps.
abbrev pub Keeps : RequestHandler → Type 0
Keeps handler =
    (now : TimePoint) (conn : Connection) (server : Server)
    → IsKept server.manager
    → IsKept (handler now conn server).1

-- After a request the manager keeps what it kept, the thread is in no session, and the session that
-- all users share was there if it was asked for.
pub record IsLeft (r : Reply × Server) : Type 0 where
  pub kept : IsKept r.1.manager
  pub no_session : r.1.current ≡ none
  pub sound : r.0 ≢ faults

-- The ways through `begin_request`: a plugin answers, or the server stays as it is.
data Begun (setup : Setup) (now : TimePoint) (conn : Connection) (server : Server)
    (r : Reply × Server) : Type 0 where
  by_plugin :
      (handler : RequestHandler)
      → get_implementation setup.implementations conn.rest ≡ some handler
      → r ≡ (
        reply_of (handler now conn server).0,
        record server { manager = (handler now conn server).1 },
      )
      → Begun setup now conn server r
  by_server : (reply : Reply) → reply ≢ faults → r ≡ (reply, server) → Begun setup now conn server r

tracking :
    (setup : Setup) (now : TimePoint) (conn : Connection) (server : Server) (path : Bytes)
    → get_implementation setup.implementations conn.rest ≡ none
    → streq conn.rest (codes "ga.txt") ≡ true
    → setup.ga_tracking_id_path ≡ path
    → Begun setup now conn server (begin_request setup now conn server)
unfolding begin_request
tracking setup now conn server [] e ga p = by_server not_found (cc) (rw (begin_request, e, ga, p))
tracking setup now conn server (c ∷ path) e ga p =
    by_server (sends_file (c ∷ path)) (cc) (rw (begin_request, e, ga, p))

begin_request-Begun :
    (setup : Setup) (now : TimePoint) (conn : Connection) (server : Server)
    → Begun setup now conn server (begin_request setup now conn server)
unfolding begin_request
begin_request-Begun setup now conn server =
    elim (Option-cases (get_implementation setup.implementations conn.rest)) [
      | inr (handler, e) ↦ by_plugin handler e (rw (begin_request, e))
      | inl e ↦ elim (Bool-cases (streq conn.rest (codes "ga.txt"))) [
        | inl ga ↦ tracking setup now conn server setup.ga_tracking_id_path e ga refl
        | inr other ↦ elim (Bool-cases (starts_with conn.rest (codes "doxygen/"))) [
          | inl doc ↦
              by_server (sends_file (get_doc_dir_by_uri setup conn.rest)) (cc)
                (rw (begin_request, e, other, doc))
          | inr rest ↦ by_server declines (cc) (rw (begin_request, e, other, rest))
        ]
      ]
    ]

reply_of-ne-faults : (answer : Option ℕ) → reply_of answer ≢ faults
reply_of-ne-faults none = cc
reply_of-ne-faults (some n) = cc

-- What a call of `begin_request` leaves.
record IsDone (current : Option Session) (r : Reply × Server) : Type 0 where
  kept : IsKept r.1.manager
  same : r.1.current ≡ current
  sound : r.0 ≢ faults

Begun-IsDone :
    (setup : Setup) (now : TimePoint) (conn : Connection) (server : Server) (r : Reply × Server)
    → ((handler : RequestHandler)
        → get_implementation setup.implementations conn.rest ≡ some handler
        → Keeps handler)
    → IsKept server.manager
    → Begun setup now conn server r
    → IsDone server.current r
Begun-IsDone setup now conn server r keeps kept (by_plugin handler e run) =
    subst (IsDone server.current) (sym run) (record {
      kept = keeps handler e now conn server kept;
      same = refl;
      sound = reply_of-ne-faults (handler now conn server).0;
    })
Begun-IsDone setup now conn server r keeps kept (by_server reply sound run) =
    subst (IsDone server.current) (sym run) (record { kept = kept; same = refl; sound = sound })

module _ (setup : Setup) (now : TimePoint) (conn : Connection) (server : Server) where
  execute-IsLeft :
      (session : Option Session)
      → ((handler : RequestHandler)
          → get_implementation setup.implementations conn.rest ≡ some handler
          → Keeps handler)
      → IsKept server.manager
      → IsLeft (execute_with_session_context session setup now conn server)
  unfolding execute_with_session_context
  execute-IsLeft session keeps kept =
      let inside : Server = record server { current = session } in
      let d =
        Begun-IsDone setup now conn inside _ keeps kept
          (begin_request-Begun setup now conn inside) in
      record { kept = d.kept; no_session = refl; sound = d.sound }

  -- After a request that is handled alone, by plugins that keep what the session manager keeps, the
  -- manager keeps it too: each stored session is one that the backends grant, and without
  -- authentication the shared session is stored. The thread that served the request is in no session,
  -- and where the shared session was looked up, it was found.
  pub handle_request-IsLeft :
      ((handler : RequestHandler)
        → get_implementation setup.implementations conn.rest ≡ some handler
        → Keeps handler)
      → IsKept server.manager
      → server.current ≡ none
      → IsLeft (handle_request setup now conn server)
  unfolding handle_request
  handle_request-IsLeft keeps kept outside =
      let (session, e) = get_session_cookie_total server.manager conn.cookie kept in
      elim (Bool-cases (streq (conn.first ∷ conn.rest) (codes "/AuthenticationService"))) [
        | inl service ↦ rw (service, handle_request, e) (execute-IsLeft session keeps kept)
        | inr other ↦ elim (Bool-cases (is_protected conn)) [
          | inr open_uri ↦
              let d =
                Begun-IsDone setup now conn server _ keeps kept
                  (begin_request-Begun setup now conn server) in
              rw (other, open_uri)
                (record { kept = d.kept; no_session = d.same ∙ outside; sound = d.sound })
          | inl guarded ↦ elim (Bool-cases (is_valid server.manager now session)) [
            | inl valid ↦
                rw (other, guarded, handle_request, e, valid) (execute-IsLeft session keeps kept)
            | inr over ↦
                rw (other, guarded, handle_request, e, over)
                  (record {
                    kept = destroy-IsKept server.manager now session kept;
                    no_session = outside;
                    sound = cc;
                  })
          ]
        ]
      ]
