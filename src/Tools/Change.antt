-- ===== src/Tools/Change.antt =====
-- The tools that change the device through one RPC request, behind the write gate: of
-- tools/storage.py and tools/apps.py.
use flipperzero_mcp.Base.{Bool, Text}
use flipperzero_mcp.Action.{F, ◌>>=◌, ◌>>◌}
use flipperzero_mcp.Proto.{Codec}
use flipperzero_mcp.Client.{Client}
use flipperzero_mcp.Config.{FlipperConfig}
use flipperzero_mcp.Tools.Common.{Attempt, requested, require, require_write_tools}
use flipperzero_mcp.Rpc.Storage.{storage_mkdir, storage_delete, storage_rename}
use flipperzero_mcp.Rpc.System.{app_start}
use flipperzero_mcp.Link.{failed, M}

-- The shape of the four: the gate, the request, and an error unless the device accepted.
unfoldable pub changed : FlipperConfig → Attempt → M Bool → F Client (Unit {0})
changed config attempt m =
    require_write_tools config >> requested attempt m >>= λ accepted. require accepted failed

module _ ⦃c : Codec⦄ where
  unfoldable pub flipperzero_fs_mkdir : FlipperConfig → Attempt → Text → F Client (Unit {0})
  flipperzero_fs_mkdir config attempt path = changed config attempt (storage_mkdir path)

  unfoldable pub flipperzero_fs_delete : FlipperConfig → Attempt → Text → Bool → F Client (Unit {0})
  flipperzero_fs_delete config attempt path recursive =
      changed config attempt (storage_delete path recursive)

  unfoldable pub flipperzero_fs_rename : FlipperConfig → Attempt → Text → Text → F Client (Unit {0})
  flipperzero_fs_rename config attempt old_path new_path =
      changed config attempt (storage_rename old_path new_path)

  unfoldable pub flipperzero_app_start : FlipperConfig → Attempt → Text → Text → F Client (Unit {0})
  flipperzero_app_start config attempt name args = changed config attempt (app_start name args)
