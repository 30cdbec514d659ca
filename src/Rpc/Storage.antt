-- ===== src/Rpc/Storage.antt =====
-- The storage requests with one response, of rpc/protobuf_rpc.py.
use flipperzero_mcp.Link.{◌>>=◌, pure, M}
use flipperzero_mcp.Base.{
  ◌∷◌, [], some, none, Option, false, Bool, ◌+◌, ℕ, Text, Bytes, if◌then◌else◌, ◌==◌,
}
use flipperzero_mcp.Proto.{Codec, Content, File, dir_type}
use flipperzero_mcp.Rpc.Call.{limited, query, command}

pub data EntryKind : Type 0 where
  file dir : EntryKind

-- The dict of a file or directory: `md5sum` is there if the device gave one.
pub record Entry : Type 0 where
  pub name : Text
  pub kind : EntryKind
  pub size : ℕ
  pub md5sum : Option Text

abbrev pub kind_of : ℕ → EntryKind
kind_of kind = if kind == dir_type then dir else file

-- `x or None`
abbrev pub non_empty : Text → Option Text
non_empty [] = none
non_empty (x ∷ xs) = some (x ∷ xs)

abbrev pub entry_of : File → Entry
entry_of f = record {
  name = f.name;
  kind = kind_of f.kind;
  size = f.size;
  md5sum = non_empty f.md5sum;
}

abbrev read_data : Content → Option Bytes
read_data (Content.storage_read_response f) = some f.file_data
read_data _ = none

abbrev pub or_nothing : Option Bytes → Bytes
or_nothing none = []
or_nothing (some bytes) = bytes

abbrev space : Content → Option (ℕ × ℕ)
space (Content.storage_info_response total free) = some (total, free)
space _ = none

abbrev stat_entry : Content → Option Entry
stat_entry (Content.storage_stat_response f) = some (entry_of f)
stat_entry _ = none

abbrev timestamp : Content → Option ℕ
timestamp (Content.storage_timestamp_response t) = some t
timestamp _ = none

abbrev digest : Content → Option Text
digest (Content.storage_md5sum_response md5) = non_empty md5
digest _ = none

-- _MD5SUM_RESPONSE_TIMEOUT_S
abbrev md5sum_response_timeout : ℕ
md5sum_response_timeout = 180000

module _ ⦃c : Codec⦄ where
  unfoldable pub storage_read : Text → M Bytes
  storage_read path =
      limited 3000 [] (do
        found ← query (Content.storage_read_request path) 2500 read_data
        pure (or_nothing found))

  unfoldable pub storage_info : Text → M (Option (ℕ × ℕ))
  storage_info path = limited 3000 none (query (Content.storage_info_request path) 2500 space)

  unfoldable pub storage_stat : Text → M (Option Entry)
  storage_stat path = limited 3000 none (query (Content.storage_stat_request path) 2500 stat_entry)

  unfoldable pub storage_timestamp : Text → M (Option ℕ)
  storage_timestamp path =
      limited 3000 none (query (Content.storage_timestamp_request path) 2500 timestamp)

  unfoldable pub storage_mkdir : Text → M Bool
  storage_mkdir path = limited 3000 false (command (Content.storage_mkdir_request path))

  unfoldable pub storage_delete : Text → Bool → M Bool
  storage_delete path recursive =
      limited 3000 false (command (Content.storage_delete_request path recursive))

  unfoldable pub storage_rename : Text → Text → M Bool
  storage_rename old_path new_path =
      limited 3000 false (command (Content.storage_rename_request old_path new_path))

  unfoldable pub storage_md5sum : Text → M (Option Text)
  storage_md5sum path =
      limited (md5sum_response_timeout + 5000) none
        (query (Content.storage_md5sum_request path) md5sum_response_timeout digest)
