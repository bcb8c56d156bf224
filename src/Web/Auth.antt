-- ===== src/Web/Auth.antt =====
-- webserver/src/authentication.cpp: the backends that check a name and a password.
use cc_base.Base.{
  ℕ, Bool, true, false, not, ◌||◌, Option, none, some, List, [], ◌∷◌, ◌++◌, if◌then◌else◌, ◌>>=◌,
}
use cc_base.Cstring.{Bytes, codes, streq}

-- A backend, as the server sees it: the virtual functions of `Authenticator`.
pub record Authenticator : Type 0 where
  pub is_successfully_configured : Bool
  pub supports_username_password : Bool
  pub authenticate_username_password : Bytes → Bytes → Bool

-- `Authentication`
pub record Authentication : Type 0 where
  pub auth_config_file_path : Bytes
  pub auth_prompt : Bytes
  pub session_lifetime : ℕ
  pub authenticators : List Authenticator

abbrev pub invalid_cfg_file_path : Bytes
invalid_cfg_file_path = codes "/dev/null"

abbrev pub default_session_lifetime : ℕ
default_session_lifetime = 3600

-- What the constructor reads of the JSON tree: a key with its subtree's `enabled`, and the options
-- of the root.
pub record Config : Type 0 where
  pub enabled : Option Bool
  pub prompt : Option Bytes
  pub session_lifetime : Option ℕ
  pub children : List (Bytes × Option Bool)

-- What loading a backend comes to: the library cannot be loaded, it lacks the symbol of the factory,
-- the factory makes nothing, or it makes a backend.
pub data Instance : Type 0 where
  unloadable no_factory nothing_made : Instance
  instance_of : Authenticator → Instance

-- Whether a path is a regular file, what it holds if it can be opened, where none stands for a text
-- that is not well-formed, `fs::path::append` and `DynamicLibrary::extension`, and what the library
-- at a path comes to for a key.
pub record Backends : Type 0 where
  pub is_regular_file : Bytes → Bool
  pub read_config : Bytes → Option (Option Config)
  pub extension : Bytes
  pub append : Bytes → Bytes → Bytes
  pub instantiate : Bytes → Bytes → Instance

-- A constructor that throws a number, or through which another exception passes.
pub data Made (A : Type 0) : Type 0 where
  made : A → Made A
  throws : ℕ → Made A
  escapes : Made A

abbrev pub value_or {ℓ} : {A : Type ℓ} → Option A → A → A
value_or none a = a
value_or (some b) a = b

-- `Authentication ()`, which lets everyone in
abbrev pub open_authentication : Authentication
open_authentication = record {
  auth_config_file_path = invalid_cfg_file_path;
  auth_prompt = [];
  session_lifetime = 0;
  authenticators = [];
}

-- `createAuthenticator`; none is the exception of a missing symbol, which is not caught.
unfoldable pub create_authenticator :
    Backends → Bytes → Bytes → List Authenticator → Option (List Authenticator)
create_authenticator b key path authenticators = elim (b.instantiate path key) [
  | unloadable ↦ some authenticators
  | no_factory ↦ none
  | nothing_made ↦ some authenticators
  | instance_of a ↦
      if not a.is_successfully_configured
      then some authenticators
      else some (authenticators ++ a ∷ [])
]

abbrev pub plugin_path : Backends → Bytes → Bytes → Bytes
plugin_path b dir key = b.append dir (codes "lib" ++ key) ++ (codes "auth" ++ b.extension)

-- One key of the file.
unfoldable pub create_for_key :
    Backends → Bytes → Bytes → Option Bool → List Authenticator → Option (List Authenticator)
unfolding create_authenticator
create_for_key b dir key enabled authenticators =
    if streq key (codes "enabled")
      || (streq key (codes "prompt") || streq key (codes "session_lifetime"))
    then some authenticators
    else if not (value_or enabled false)
    then some authenticators
    else create_authenticator b key (plugin_path b dir key) authenticators

-- The loop over the keys of the file.
unfoldable pub create_authenticators :
    Backends → Bytes → List (Bytes × Option Bool) → List Authenticator → Option (List Authenticator)
unfolding create_for_key
create_authenticators b dir [] authenticators = some authenticators
create_authenticators b dir ((key, enabled) ∷ children) authenticators = do
  next ← create_for_key b dir key enabled authenticators
  create_authenticators b dir children next

-- `Authentication (authPluginDir, authConfigFilePath)`, from the tree that was read
unfoldable pub configured : Backends → Bytes → Bytes → Config → Made Authentication
unfolding create_authenticators
configured b dir path json =
    if not (value_or json.enabled false)
    then made open_authentication
    else elim (create_authenticators b dir json.children []) [
      | none ↦ escapes
      | some authenticators ↦ made (record {
        auth_config_file_path = path;
        auth_prompt = value_or json.prompt [];
        session_lifetime = value_or json.session_lifetime default_session_lifetime;
        authenticators = authenticators;
      })
    ]

-- `Authentication (authPluginDir, authConfigFilePath)`
unfoldable pub load_authentication : Backends → Bytes → Bytes → Made Authentication
unfolding configured
load_authentication b dir path =
    if not (b.is_regular_file path) then throws 1 else elim (b.read_config path) [
      | none ↦ throws 2
      | some none ↦ escapes
      | some (some json) ↦ configured b dir path json
    ]

unfoldable pub is_enabled : Authentication → Bool
is_enabled auth = not (streq auth.auth_config_file_path invalid_cfg_file_path)

-- The loop over the backends.
unfoldable pub some_backend_accepts : List Authenticator → Bytes → Bytes → Bool
some_backend_accepts [] username password = false
some_backend_accepts (a ∷ authenticators) username password =
    let rest = some_backend_accepts authenticators username password in
    if not a.supports_username_password
    then rest
    else if a.authenticate_username_password username password
    then true
    else rest

unfoldable pub authenticate_username_password : Authentication → Bytes → Bytes → Bool
unfolding is_enabled some_backend_accepts
authenticate_username_password auth username password =
    if not (is_enabled auth)
    then true
    else some_backend_accepts auth.authenticators username password
