-- ===== src/Tools/Cli.antt =====
-- tools/cli.py, and `cli_typed` of tools/_common.py.
use flipperzero_mcp.Link.{gated_command}
use flipperzero_mcp.Base.{not, false, Bool, ℕ, Text}
use flipperzero_mcp.Action.{F, ◌>>◌}
use flipperzero_mcp.Proto.{Codec}
use flipperzero_mcp.Client.{Client}
use flipperzero_mcp.Config.{FlipperConfig}
use flipperzero_mcp.Cli.Risk.{Case, classify}
use flipperzero_mcp.Cli.Exec.{CliExecResult, cli_exec}
use flipperzero_mcp.Tools.Common.{Attempt, classified, require, ensure_connected}

module _ ⦃c : Codec⦄ ⦃k : Case⦄ where
  unfoldable pub flipperzero_cli_exec :
      FlipperConfig → Attempt → Text → ℕ → Bool → F Client CliExecResult
  flipperzero_cli_exec config attempt command timeout i_accept_responsibility = classified (
      ensure_connected attempt
      >> cli_exec command timeout i_accept_responsibility config.enable_tx_tools)

  -- `cli_typed`; every caller leaves the timeout at its default of 8 s.
  unfoldable pub cli_typed : Attempt → Text → F Client CliExecResult
  cli_typed attempt command =
      require (not (classify command).gated) gated_command
      >> classified (ensure_connected attempt >> cli_exec command 8000 false false)
