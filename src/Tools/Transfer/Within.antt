-- ===== src/Tools/Transfer/Within.antt =====
-- A transfer sends what the configuration permits.
use flipperzero_mcp.Tools.Transfer.Returned.{verify_md5-Keeps}
use flipperzero_mcp.Rpc.ReadOnly.{storage_read-OnlyReads, storage_md5sum-OnlyReads}
use flipperzero_mcp.Link.{is_os_error, cancelled, Exn, tool_error, raised, ok, Result}
use flipperzero_mcp.Base.Dict.{lookup}
use flipperzero_mcp.Tools.Call.Within.{
  on_link-IsWithin, classified-IsWithin, get_rpc-IsWithin, IsWithin,
}
use flipperzero_mcp.Config.{FlipperConfig}
use flipperzero_mcp.Cli.Risk.{Case}
use flipperzero_mcp.Proto.{Codec}
use flipperzero_mcp.Base.{
  some, none, Option, false, true, Bool, inr, inl, ◌≡◌, Text, Bytes, take, length, Bool-cases,
  if◌then◌else◌, leb,
}
use flipperzero_mcp.Action.{F}
use flipperzero_mcp.Action.Keeps.{
  Keeps, Keeps-pure, Keeps-raise, Keeps-if, Keeps-bind, Keeps-handle,
}
use flipperzero_mcp.Client.{Client}
use flipperzero_mcp.Tools.Common.{Attempt, require_write_tools}
use flipperzero_mcp.Tools.Permitted.{OnlyReads-Obeys, storage_write-Obeys}
use flipperzero_mcp.Tools.Transfer.{
  flipperzero_fs_pull, flipperzero_fs_push, World, Hash, on_client, local, is_path, read_file,
  write_file, read_bytes, write_bytes, upload, download, keep, classified_but_tool_end, found,
  beside, stored,
}

module _ ⦃c : Codec⦄ ⦃k : Case⦄ (config : FlipperConfig) where
  -- The same of the client in the world.
  abbrev pub IsWorldWithin : World → Type 0
  IsWorldWithin s = IsWithin config s.client

  pub on_client-IsWithin :
      {A : Type 0} {m : F Client A} → Keeps (IsWithin config) m → Keeps IsWorldWithin (on_client m)
  unfolding on_client
  on_client-IsWithin {A = A} {m = m} p = record {
    at = λ s h. by_end s (m s.client) (p.at s.client h);
  }
    where
      by_end :
          (s : World) (r : Result A × Client)
          → IsWithin config r.1
          → IsWorldWithin (beside s.disk r).1
      by_end s (r, cl) h = h

  local-IsWithin :
      {A : Type 0} (m : F World A) → Keeps IsWorldWithin m → Keeps IsWorldWithin (local m)
  unfolding local
  local-IsWithin m p = Keeps-handle is_os_error m _ p (Keeps-raise _)

  read_file-IsWithin : (path : Text) → Keeps IsWorldWithin (read_file path)
  unfolding read_file
  read_file-IsWithin path = record { at = λ s h. by_file s (lookup path s.disk.files) h }
    where
      by_file : (s : World) (o : Option Bytes) → IsWorldWithin s → IsWorldWithin (found o s).1
      by_file s none h = h
      by_file s (some content) h = h

  write_file-IsWithin :
      (path : Text) (content : Bytes) → Keeps IsWorldWithin (write_file path content)
  unfolding write_file
  write_file-IsWithin path content = record {
    at = λ s h. by_tests s (s.disk.is_denied path) (leb (length content) s.disk.room) h;
  }
    where
      by_tests :
          (s : World) (denied fits : Bool)
          → IsWorldWithin s
          → IsWorldWithin
              (if◌then◌else◌ {A = Result (Unit {0}) × World} denied
                (raised Exn.os_error, s)
                (if fits
                  then (ok tt, stored path content s)
                  else (raised Exn.os_error, stored path (take s.disk.room content) s))).1
      by_tests s true fits h = h
      by_tests s false true h = h
      by_tests s false false h = h

  read_bytes-IsWithin : (path : Text) → Keeps IsWorldWithin (read_bytes path)
  unfolding read_bytes
  read_bytes-IsWithin path = Keeps-if (is_path path) _ _ (read_file-IsWithin path) (Keeps-raise _)

  write_bytes-IsWithin :
      (path : Text) (content : Bytes) → Keeps IsWorldWithin (write_bytes path content)
  unfolding write_bytes
  write_bytes-IsWithin path content =
      Keeps-if (is_path path) _ _ (write_file-IsWithin path content) (Keeps-raise _)

  but_tool-IsWithin :
      {A : Type 0} {m : F Client A}
      → Keeps (IsWithin config) m
      → Keeps (IsWithin config) (λ cl. classified_but_tool_end (m cl))
  unfolding classified_but_tool_end
  but_tool-IsWithin {A = A} {m = m} p = record { at = λ cl h. by_end (m cl) (p.at cl h) }
    where
      by_end :
          (r : Result A × Client)
          → IsWithin config r.1
          → IsWithin config (classified_but_tool_end r).1
      by_end (ok a, cl) h = h
      by_end (raised (tool_error reason), cl) h = h
      by_end (raised _, cl) h = h
      by_end (cancelled, cl) h = h

  module _ ⦃h : Hash⦄ where
    upload-IsWithin :
        (attempt : Attempt) (path : Text) (content : Bytes)
        → config.enable_write_tools ≡ true
        → Keeps (IsWithin config) (upload attempt path content)
    unfolding upload
    upload-IsWithin attempt path content on = Keeps-bind _ _ (get_rpc-IsWithin config attempt) λ _.
        Keeps-bind _ _ (on_link-IsWithin config (storage_write-Obeys config on path content))
          λ wrote.
            Keeps-bind _ _ (Keeps-if wrote _ _ (Keeps-pure tt) (Keeps-raise _)) λ _.
              on_link-IsWithin config (OnlyReads-Obeys config 11 (storage_md5sum-OnlyReads path))

    pub push-IsWithin :
        (attempt : Attempt) (local_path dest_path : Text)
        → Keeps IsWorldWithin (flipperzero_fs_push config attempt local_path dest_path)
    unfolding flipperzero_fs_push require_write_tools
    push-IsWithin attempt local_path dest_path = elim (Bool-cases config.enable_write_tools) [
      | inr off ↦ rw off (record { at = λ s h. h })
      | inl on ↦
          Keeps-bind _ _ (Keeps-if config.enable_write_tools _ _ (Keeps-pure tt) (Keeps-raise _))
            λ _.
              Keeps-bind _ _
                (local-IsWithin (read_bytes local_path) (read_bytes-IsWithin local_path))
                λ content.
                  Keeps-bind _ _
                    (on_client-IsWithin
                      (but_tool-IsWithin (upload-IsWithin attempt dest_path content on)))
                    λ digest. Keeps-bind _ _ (verify_md5-Keeps _ digest) λ _. Keeps-pure _
    ]

    download-IsWithin :
        (attempt : Attempt) (path : Text) → Keeps (IsWithin config) (download attempt path)
    unfolding download
    download-IsWithin attempt path = Keeps-bind _ _ (get_rpc-IsWithin config attempt) λ _.
        Keeps-bind _ _
          (on_link-IsWithin config (OnlyReads-Obeys config 11 (storage_read-OnlyReads path)))
          λ content.
            Keeps-bind _ _
              (on_link-IsWithin config (OnlyReads-Obeys config 11 (storage_md5sum-OnlyReads path)))
              λ digest. Keeps-pure _

    pub pull-IsWithin :
        (attempt : Attempt) (src_path local_path : Text)
        → Keeps IsWorldWithin (flipperzero_fs_pull attempt src_path local_path)
    unfolding flipperzero_fs_pull keep
    pull-IsWithin attempt src_path local_path =
        Keeps-bind _ _
          (on_client-IsWithin (classified-IsWithin config (download-IsWithin attempt src_path)))
          λ p.
            Keeps-bind _ _
              (local-IsWithin _ (
                Keeps-bind _ _ (write_bytes-IsWithin local_path p.0)
                  λ _. read_bytes-IsWithin local_path))
              λ written. Keeps-bind _ _ (verify_md5-Keeps _ p.1) λ _. Keeps-pure _
