-- ===== src/Tools/Call.antt =====
-- A call of a tool, and a sequence of them: what an agent can do to the server's client and to the
-- files of its host.
pub mod Within
pub mod Obeyed
pub mod Reported
use flipperzero_mcp.Action.{pure, ◌>>◌, F}
use flipperzero_mcp.Tools.Connection.{
  flipperzero_connection_reconnect, flipperzero_connection_health,
}
use flipperzero_mcp.Tools.Cli.{cli_typed, flipperzero_cli_exec}
use flipperzero_mcp.Tools.Change.{
  flipperzero_app_start, flipperzero_fs_rename, flipperzero_fs_delete, flipperzero_fs_mkdir,
}
use flipperzero_mcp.Config.{FlipperConfig}
use flipperzero_mcp.Cli.Risk.{Case}
use flipperzero_mcp.Link.{Result}
use flipperzero_mcp.Proto.{Codec}
use flipperzero_mcp.Tools.Common.{Attempt}
use flipperzero_mcp.Base.{Option, some, none, false, true, ◌∷◌, [], List, Bool, ℕ, Text}
use flipperzero_mcp.Tools.Read.Sent.{ReadTool, run}
use flipperzero_mcp.Tools.Transfer.{
  flipperzero_fs_pull, flipperzero_fs_push, World, Hash, on_client,
}

-- The tools but the firmware install and the system information; the typed CLI tools run `cli_typed`
-- on their command lines.
pub data Call : Type 0 where
  read : ReadTool → Attempt → Call
  mkdir : Attempt → Text → Call
  delete : Attempt → Text → Bool → Call
  rename : Attempt → Text → Text → Call
  app_start : Attempt → Text → Text → Call
  push : Attempt → Text → Text → Call
  pull : Attempt → Text → Text → Call
  execute : Attempt → Text → ℕ → Bool → Call
  typed : Attempt → Text → Call
  -- `probe_rpc`, and what the transport does
  health : Bool → Result Bool → Call
  reconnect : Bool → Result (Unit {0}) → Result Bool → Result Bool → Call

-- A tool, less what it returns.
abbrev pub done : {S A : Type 0} → F S A → F S (Unit {0})
done m = m >> pure tt

-- The tools of tools/connection.py, which map no exception to a ToolError.
abbrev pub is_connection_tool : Call → Bool
is_connection_tool (health probe_rpc transport) = true
is_connection_tool (reconnect probe_rpc disconnects connects transport) = true
is_connection_tool _ = false

-- The file of the host that a tool opens.
abbrev pub local_path_of : Call → Option Text
local_path_of (push attempt local_path dest_path) = some local_path
local_path_of (pull attempt src_path local_path) = some local_path
local_path_of _ = none

module _ ⦃c : Codec⦄ ⦃k : Case⦄ ⦃h : Hash⦄ where
  unfoldable pub call_tool : FlipperConfig → Call → F World (Unit {0})
  call_tool config (read tool attempt) = done (on_client (run tool attempt))
  call_tool config (mkdir attempt path) =
      done (on_client (flipperzero_fs_mkdir config attempt path))
  call_tool config (delete attempt path recursive) =
      done (on_client (flipperzero_fs_delete config attempt path recursive))
  call_tool config (rename attempt old_path new_path) =
      done (on_client (flipperzero_fs_rename config attempt old_path new_path))
  call_tool config (app_start attempt name args) =
      done (on_client (flipperzero_app_start config attempt name args))
  call_tool config (push attempt local_path dest_path) =
      done (flipperzero_fs_push config attempt local_path dest_path)
  call_tool config (pull attempt src_path local_path) =
      done (flipperzero_fs_pull attempt src_path local_path)
  call_tool config (execute attempt command timeout i_accept_responsibility) =
      done (on_client (flipperzero_cli_exec config attempt command timeout i_accept_responsibility))
  call_tool config (typed attempt command) = done (on_client (cli_typed attempt command))
  call_tool config (health probe_rpc transport) =
      done (on_client (flipperzero_connection_health probe_rpc transport))
  call_tool config (reconnect probe_rpc disconnects connects transport) =
      done (on_client (flipperzero_connection_reconnect probe_rpc disconnects connects transport))

  -- What a call leaves behind, whether it returns or raises.
  unfoldable pub perform : FlipperConfig → Call → World → World
  perform config call s = (call_tool config call s).1

  unfoldable pub perform_all : FlipperConfig → List Call → World → World
  perform_all config [] s = s
  perform_all config (call ∷ calls) s = perform_all config calls (perform config call s)
