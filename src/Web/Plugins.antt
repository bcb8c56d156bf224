-- ===== src/Web/Plugins.antt =====
-- The plugins of the server: webserver/include/webserver/pluginhandler.h, and the libraries that it
-- loads, util/src/dynamiclibrary.cpp.
use cc_base.Base.{Bool, ◌&&◌, Option, none, some, List, [], ◌∷◌, ◌++◌, if◌then◌else◌}
use cc_base.Cstring.{Bytes, codes, streq}

-- `extension`
abbrev pub library_extension : Bytes
library_extension = codes ".so"

-- `dlopen` and `dlsym`, with a handle and an address in a type each.
pub record Loader (Handle Address : Type 0) : Type 0 where
  pub dlopen : Bytes → Option Handle
  pub dlsym : Handle → Bytes → Option Address

-- `DynamicLibrary (path)`: the handle, or none if it throws.
unfoldable pub open_library :
    {Handle Address : Type 0} → Loader Handle Address → Bytes → Option Handle
open_library loader [] = none
open_library loader (c ∷ path) = loader.dlopen (c ∷ path)

-- `getSymbol`, which throws where the library has no such symbol.
abbrev pub get_symbol :
    {Handle Address : Type 0} → Loader Handle Address → Handle → Bytes → Option Address
get_symbol loader handle name = loader.dlsym handle name

-- An entry of a directory: its path, whether it is a regular file, and its extension.
pub record DirEntry : Type 0 where
  pub path : Bytes
  pub is_regular : Bool
  pub extension : Bytes

-- `_dynamicLibraries` and `_implementationMap`
pub record PluginHandler (Handle Base : Type 0) : Type 0 where
  pub dynamic_libraries : List Handle
  pub implementation_map : List (Bytes × Base)

-- The call returns, or an exception leaves the libraries loaded before.
pub data Added (A : Type 0) : Type 0 where
  completed : A → Added A
  interrupted : A → Added A

-- The loop of `addDirectory` over the entries of the directory.
unfoldable pub add_entries :
    {Handle Address Base : Type 0}
    → Loader Handle Address
    → List DirEntry
    → PluginHandler Handle Base
    → Added (PluginHandler Handle Base)
unfolding open_library
add_entries loader [] p = completed p
add_entries loader (e ∷ entries) p =
    if e.is_regular && streq e.extension library_extension
    then elim (open_library loader e.path) [
      | none ↦ interrupted p
      | some handle ↦
          add_entries loader entries
            (record p { dynamic_libraries = p.dynamic_libraries ++ handle ∷ [] })
    ]
    else add_entries loader entries p

-- `addDirectory`; the listing is none where the path is not a directory.
unfoldable pub add_directory :
    {Handle Address Base : Type 0}
    → Loader Handle Address
    → Option (List DirEntry)
    → PluginHandler Handle Base
    → Added (PluginHandler Handle Base)
unfolding add_entries
add_directory loader none p = interrupted p
add_directory loader (some entries) p = add_entries loader entries p

-- `find` in the map
unfoldable pub get_implementation : {Base : Type 0} → List (Bytes × Base) → Bytes → Option Base
get_implementation [] key = none
get_implementation ((k, b) ∷ map) key = if streq k key then some b else get_implementation map key

-- `registerImplementation`: the value of the key is replaced, or the key is new.
unfoldable pub register_implementation :
    {Base : Type 0} → Bytes → Base → List (Bytes × Base) → List (Bytes × Base)
register_implementation key b [] = (key, b) ∷ []
register_implementation key b ((k, c) ∷ map) =
    let rest = register_implementation key b map in
    if streq k key then (k, b) ∷ map else (k, c) ∷ rest

-- The loop of `configure`. What `registerPlugin` of a library does to the map is an argument.
unfoldable pub configure_each :
    {Handle Address Base : Type 0}
    → Loader Handle Address
    → (Address → List (Bytes × Base) → List (Bytes × Base))
    → List Handle
    → List (Bytes × Base)
    → Added (List (Bytes × Base))
configure_each loader run [] map = completed map
configure_each loader run (lib ∷ libs) map = elim (get_symbol loader lib (codes "registerPlugin")) [
  | none ↦ interrupted map
  | some register ↦ configure_each loader run libs (run register map)
]

-- `configure`: the map is made anew.
unfoldable pub configure :
    {Handle Address Base : Type 0}
    → Loader Handle Address
    → (Address → List (Bytes × Base) → List (Bytes × Base))
    → PluginHandler Handle Base
    → Added (List (Bytes × Base))
unfolding configure_each
configure loader run p = configure_each loader run p.dynamic_libraries []
