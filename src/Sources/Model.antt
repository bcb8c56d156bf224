-- ===== src/Sources/Model.antt =====
-- The records of model/include/model/file.h and filecontent.h, the hash of util/include/util/hash.h,
-- and the disk and the database as the source manager uses them.
use Prim.Native.Nat.{bit_xor}
use cc_base.Base.{ℕ, ◌+◌, ◌-◌, ◌*◌, ◌%◌, ◌^◌, Bool, Option, List, [], ◌∷◌, if◌then◌else◌, ltb}
use cc_base.Cstring.{Bytes, codes}

-- `lazy_shared_ptr<FileContent>`: the identifier, and the text while it is loaded.
pub record LazyContent : Type 0 where
  pub object_id : Bytes
  pub loaded : Option Bytes

pub data ParseStatus : Type 0 where
  ps_none ps_partially_parsed ps_fully_parsed : ParseStatus

-- `File`; the parent is given by its identifier.
pub record File : Type 0 where
  pub id : ℕ
  pub file_type : Bytes
  pub path : Bytes
  pub filename : Bytes
  pub timestamp : ℕ
  pub content : Option LazyContent
  pub parent : Option ℕ
  pub parse_status : ParseStatus
  pub in_search_index : Bool

abbrev pub directory_type : Bytes
directory_type = codes "Dir"

abbrev pub unknown_type : Bytes
unknown_type = codes "Unknown"

abbrev pub binary_type : Bytes
binary_type = codes "Binary"

-- A byte as a `char` that is widened: the sign is spread over the 64 bits.
abbrev pub widen : ℕ → ℕ
widen c = if ltb c 128 then c else c + (2 ^ 64 - 256)

-- The loop of `fnvHash`.
unfoldable pub fnv_from : ℕ → Bytes → ℕ
fnv_from hash [] = hash
fnv_from hash (c ∷ data_) = fnv_from (bit_xor hash (widen c) * 1099511628211 % 2 ^ 64) data_

unfoldable pub fnv_hash : Bytes → ℕ
unfolding fnv_from
fnv_hash data_ = fnv_from 14695981039346656037 data_

-- `FileContent`
pub record FileContent : Type 0 where
  pub hash : Bytes
  pub content : Bytes

-- The tables of the database.
pub record Database : Type 0 where
  pub files : List File
  pub contents : List FileContent

-- Boost's file system, the reading of a file, libmagic, and the hash of Boost's uuids.
pub record Disk : Type 0 where
  pub canonical : Bytes → Option Bytes
  pub parent_path : Bytes → Bytes
  pub filename : Bytes → Bytes
  pub last_write_time : Bytes → Option ℕ
  pub exists : Bytes → Bool
  pub is_directory : Bytes → Bool
  pub is_regular_file : Bytes → Bool
  pub read : Bytes → Option Bytes
  pub magic_file : Bytes → Option Bytes
  pub sha1_hash : Bytes → Bytes
