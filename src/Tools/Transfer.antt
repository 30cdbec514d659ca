-- ===== src/Tools/Transfer.antt =====
-- `flipperzero_fs_push` and `flipperzero_fs_pull` of tools/storage.py, over the client and the disk
-- of the host.
pub mod Returned
pub mod Verified
pub mod Pulled
pub mod Reports
pub mod Within
use flipperzero_mcp.Base.{
  List, [], ◌∷◌, some, none, Option, Bool, true, not, ◌&&◌, ◌||◌, ◌==◌, ltb, ℕ, text_eq, Text,
  Bytes, take, length, if◌then◌else◌, leb,
}
use flipperzero_mcp.Base.Dict.{lookup, insert}
use flipperzero_mcp.Action.{F, pure, raise, ◌>>=◌, ◌>>◌, handle}
use flipperzero_mcp.Proto.{Codec}
use flipperzero_mcp.Client.{Client}
use flipperzero_mcp.Config.{FlipperConfig}
use flipperzero_mcp.Cli.Risk.{Case}
use flipperzero_mcp.Link.{
  is_os_error, cancelled, digest_mismatch, no_digest, local_file_failed, ok, failed, tool_error,
  Result, raised, Exn,
}
use flipperzero_mcp.Tools.Common.{
  Attempt, classified_end, require, require_write_tools, get_rpc, on_link, classify_client_error,
}
use flipperzero_mcp.Rpc.Storage.{storage_md5sum, storage_read}
use flipperzero_mcp.Rpc.Write.{storage_write}

-- The files of the host: their contents, the paths that cannot be opened for writing, and the bytes
-- that fit on the disk.
pub record Disk : Type 0 where
  pub files : List (Text × Bytes)
  pub is_denied : Text → Bool
  pub room : ℕ

pub record World : Type 0 where
  pub client : Client
  pub disk : Disk

abbrev pub stored : Text → Bytes → World → World
stored path content s = record s {
  disk = record s.disk { files = insert path content s.disk.files };
}

-- What a path can hold, on a host whose file names are UTF-8: no null, and of the surrogates those
-- that stand for single bytes.
abbrev pub is_path_character : ℕ → Bool
is_path_character c =
    not (c == 0) && (ltb c 0xD800 || ltb 0xDFFF c || (leb 0xDC80 c && leb c 0xDCFF))

abbrev pub is_path : Text → Bool
is_path [] = true
is_path (c ∷ path) = is_path_character c && is_path path

-- What `open` does first: "embedded null byte", or a UnicodeEncodeError, which is a ValueError too.
abbrev pub with_path : {A : Type 0} → Text → F World A → F World A
with_path path m = if is_path path then m else raise Exn.value_error

-- The file is emptied when it is opened, and a full disk cuts it short.
unfoldable pub write_file : Text → Bytes → F World (Unit {0})
write_file path content s =
    if s.disk.is_denied path
    then (raised Exn.os_error, s)
    else if leb (length content) s.disk.room
    then (ok tt, stored path content s)
    else (raised Exn.os_error, stored path (take s.disk.room content) s)

-- `Path.write_bytes`
unfoldable pub write_bytes : Text → Bytes → F World (Unit {0})
write_bytes path content = with_path path (write_file path content)

abbrev pub found : Option Bytes → F World Bytes
found none = raise Exn.os_error
found (some content) = pure content

unfoldable pub read_file : Text → F World Bytes
read_file path s = found (lookup path s.disk.files) s

-- `Path.read_bytes`
unfoldable pub read_bytes : Text → F World Bytes
read_bytes path = with_path path (read_file path)

abbrev pub beside : {A : Type 0} → Disk → Result A × Client → Result A × World
beside disk (r, cl) = (r, record { client = cl; disk = disk })

-- An action of the client.
unfoldable pub on_client : {A : Type 0} → F Client A → F World A
on_client m s = beside s.disk (m s.client)

-- `except OSError as e: raise ToolError(…)`
unfoldable pub local : {A : Type 0} → F World A → F World A
local m s = handle is_os_error (m s) (raise (tool_error local_file_failed))

-- `except ToolError: raise`, then `except Exception as e: _classify_client_error(e)`
unfoldable pub classified_but_tool_end : {A : Type 0} → Result A × Client → Result A × Client
classified_but_tool_end (ok a, s) = (ok a, s)
classified_but_tool_end (raised (tool_error reason), s) = (raised (tool_error reason), s)
classified_but_tool_end (raised e, s) = (raised (tool_error (classify_client_error e)), s)
classified_but_tool_end (cancelled, s) = (cancelled, s)

-- `hashlib.md5(content).hexdigest()`
pub record Hash : Type 0 where
  pub md5_hex : Bytes → Text

module _ ⦃k : Case⦄ where
  -- `_verify_md5`
  unfoldable pub verify_md5 : {S : Type 0} → Text → Option Text → F S (Unit {0})
  verify_md5 local_md5 none = raise (tool_error no_digest)
  verify_md5 local_md5 (some device_md5) =
      require (text_eq (k.lower device_md5) (k.lower local_md5)) digest_mismatch

  module _ ⦃c : Codec⦄ ⦃h : Hash⦄ where
    -- The `try` of the push.
    unfoldable pub upload : Attempt → Text → Bytes → F Client (Option Text)
    upload attempt dest_path content = do
      get_rpc attempt
      wrote ← on_link (storage_write dest_path content)
      require wrote failed
      on_link (storage_md5sum dest_path)

    -- The dict's `bytes` and `md5`; `verified` is always True.
    unfoldable pub flipperzero_fs_push : FlipperConfig → Attempt → Text → Text → F World (ℕ × Text)
    flipperzero_fs_push config attempt local_path dest_path = do
      require_write_tools config
      content ← local (read_bytes local_path)
      device_md5 ← on_client (λ cl. classified_but_tool_end (upload attempt dest_path content cl))
      verify_md5 (h.md5_hex content) device_md5
      pure (length content, h.md5_hex content)

    -- The `try` of the pull.
    unfoldable pub download : Attempt → Text → F Client (Bytes × Option Text)
    download attempt src_path = do
      get_rpc attempt
      content ← on_link (storage_read src_path)
      device_md5 ← on_link (storage_md5sum src_path)
      pure (content, device_md5)

    -- Past the `try`: the file is written, read again, and compared.
    unfoldable pub keep : Text → Bytes → Option Text → F World (ℕ × Text)
    keep local_path content device_md5 = do
      written ← local (write_bytes local_path content >> read_bytes local_path)
      verify_md5 (h.md5_hex written) device_md5
      pure (length written, h.md5_hex written)

    unfoldable pub flipperzero_fs_pull : Attempt → Text → Text → F World (ℕ × Text)
    flipperzero_fs_pull attempt src_path local_path = do
      (content, device_md5) ← on_client (λ cl. classified_end (download attempt src_path cl))
      keep local_path content device_md5
