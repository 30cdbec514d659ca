-- ===== src/Tools/Call/Obeyed.antt =====
-- No sequence of tool calls sends what the configuration does not permit.
use flipperzero_mcp.Tools.Transfer.Within.{
  pull-IsWithin, push-IsWithin, on_client-IsWithin, IsWorldWithin,
}
use flipperzero_mcp.Rpc.Call.Sends.{command-SendsOnly, limited-SendsOnly}
use flipperzero_mcp.Rpc.System.{app_start}
use flipperzero_mcp.Rpc.Storage.{storage_rename, storage_delete, storage_mkdir}
use flipperzero_mcp.Cli.Exec.{cli_exec}
use flipperzero_mcp.Tools.Common.Sent.{connect-HasSent, disconnect-HasSent}
use flipperzero_mcp.Link.Sends.{All-map}
use mathlib.Core.Path.{subst}
use flipperzero_mcp.Tools.Change.{
  flipperzero_app_start, flipperzero_fs_rename, flipperzero_fs_delete, flipperzero_fs_mkdir,
}
use flipperzero_mcp.Link.{Result}
use flipperzero_mcp.Tools.Connection.{
  flipperzero_connection_health, flipperzero_connection_reconnect,
}
use flipperzero_mcp.Tools.Cli.{flipperzero_cli_exec, cli_typed}
use flipperzero_mcp.Tools.Call.Within.{
  changed-IsWithin, cli_exec-IsWithin, health-IsWithin, connected-IsWithin, classified-IsWithin,
  HasSent-IsWithin, IsWithin,
}
use flipperzero_mcp.Config.{FlipperConfig}
use flipperzero_mcp.Cli.Risk.{classify, Case}
use flipperzero_mcp.Proto.{Codec}
use flipperzero_mcp.Base.{
  ◌∷◌, [], List, not, false, true, Bool, sym, refl, ◌≡◌, ℕ, Text, All-append, All,
}
use flipperzero_mcp.Action.{F, ◌>>◌}
use flipperzero_mcp.Action.Keeps.{Keeps, Keeps-pure, Keeps-raise, Keeps-if, Keeps-bind}
use flipperzero_mcp.Client.{connect, disconnect}
use flipperzero_mcp.Tools.Common.{ensure_connected, classified, Attempt}
use flipperzero_mcp.Tools.Permitted.{reading_allowed, IsPermitted, changes-Obeys}
use flipperzero_mcp.Tools.Call.{
  call_tool, done, Call, perform, perform_all, read, mkdir, delete, rename, push, pull, execute,
  typed, health,
}
use flipperzero_mcp.Tools.Read.Sent.{ReadTool, run, run-ToolSends}
use flipperzero_mcp.Tools.Transfer.{World, Hash}

module _ ⦃c : Codec⦄ ⦃k : Case⦄ (config : FlipperConfig) where
  -- A read-only tool, by what it adds.
  run-IsWithin : (tool : ReadTool) (attempt : Attempt) → Keeps (IsWithin config) (run tool attempt)
  run-IsWithin tool attempt = record {
    at = λ cl h.
        let a = run-ToolSends tool attempt cl in
        subst (All (IsPermitted config)) (sym a.appended) (
          All-append (IsPermitted config) cl.link.sent a.extra h
            (All-map (reading_allowed config) a.extra a.kind));
  }

  cli_tool-IsWithin :
      (attempt : Attempt) (command : Text) (timeout : ℕ) (a t : Bool)
      → (t ≡ true → config.enable_tx_tools ≡ true)
      → Keeps
          (IsWithin config)
          (classified (ensure_connected attempt >> cli_exec command timeout a t))
  cli_tool-IsWithin attempt command timeout a t on = classified-IsWithin config (
      Keeps-bind _ _ (connected-IsWithin config attempt)
        λ _. cli_exec-IsWithin config command timeout a t on)

  cli_typed-IsWithin :
      (attempt : Attempt) (command : Text) → Keeps (IsWithin config) (cli_typed attempt command)
  unfolding cli_typed
  cli_typed-IsWithin attempt command =
      Keeps-bind _ _ (Keeps-if (not (classify command).gated) _ _ (Keeps-pure tt) (Keeps-raise _))
        λ _. cli_tool-IsWithin attempt command 8000 false false (λ e. cc e)

  reconnect-IsWithin :
      (probe : Bool) (d : Result (Unit {0})) (r t : Result Bool)
      → Keeps (IsWithin config) (flipperzero_connection_reconnect probe d r t)
  unfolding flipperzero_connection_reconnect
  reconnect-IsWithin probe d r t =
      Keeps-bind _ _ (HasSent-IsWithin config (disconnect d) (λ l. disconnect-HasSent d)) λ _.
        Keeps-bind _ _ (HasSent-IsWithin config (connect r) (λ l. connect-HasSent r))
          λ ok. Keeps-bind _ _ (health-IsWithin config probe t) λ health. Keeps-pure _

  module _ ⦃h : Hash⦄ where
    done-IsWithin :
        {A : Type 0} {m : F World A}
        → Keeps (IsWorldWithin config) m
        → Keeps (IsWorldWithin config) (done m)
    done-IsWithin p = Keeps-bind _ _ p λ _. Keeps-pure tt

    perform-IsWithin :
        (call : Call) (s : World)
        → IsWorldWithin config s
        → IsWorldWithin config (perform config call s)
    unfolding perform call_tool flipperzero_fs_mkdir flipperzero_fs_delete flipperzero_fs_rename
        flipperzero_app_start flipperzero_cli_exec flipperzero_connection_health storage_mkdir
        storage_delete storage_rename app_start
    perform-IsWithin (read tool attempt) s w =
        (done-IsWithin (on_client-IsWithin config (run-IsWithin tool attempt))).at s w
    perform-IsWithin (mkdir attempt path) s w =
        (done-IsWithin (
            on_client-IsWithin config (
              changed-IsWithin config attempt λ on.
                changes-Obeys config 11 on
                  (limited-SendsOnly 11 3000 false (command-SendsOnly _ refl))))).at
          s w
    perform-IsWithin (delete attempt path recursive) s w =
        (done-IsWithin (
            on_client-IsWithin config (
              changed-IsWithin config attempt λ on.
                changes-Obeys config 11 on
                  (limited-SendsOnly 11 3000 false (command-SendsOnly _ refl))))).at
          s w
    perform-IsWithin (rename attempt old_path new_path) s w =
        (done-IsWithin (
            on_client-IsWithin config (
              changed-IsWithin config attempt λ on.
                changes-Obeys config 11 on
                  (limited-SendsOnly 11 3000 false (command-SendsOnly _ refl))))).at
          s w
    perform-IsWithin (Call.app_start attempt name args) s w =
        (done-IsWithin (
            on_client-IsWithin config (
              changed-IsWithin config attempt
                λ on. changes-Obeys config 11 on (command-SendsOnly _ refl)))).at
          s w
    perform-IsWithin (push attempt local_path dest_path) s w =
        (done-IsWithin (push-IsWithin config attempt local_path dest_path)).at s w
    perform-IsWithin (pull attempt src_path local_path) s w =
        (done-IsWithin (pull-IsWithin config attempt src_path local_path)).at s w
    perform-IsWithin (execute attempt command timeout a) s w =
        (done-IsWithin (
            on_client-IsWithin config
              (cli_tool-IsWithin attempt command timeout a config.enable_tx_tools (λ e. e)))).at
          s w
    perform-IsWithin (typed attempt command) s w =
        (done-IsWithin (on_client-IsWithin config (cli_typed-IsWithin attempt command))).at s w
    perform-IsWithin (health probe transport) s w =
        (done-IsWithin (on_client-IsWithin config (health-IsWithin config probe transport))).at s w
    perform-IsWithin (Call.reconnect probe d r t) s w =
        (done-IsWithin (on_client-IsWithin config (reconnect-IsWithin probe d r t))).at s w

    -- Whatever tools are called but the firmware install and the system information, in whatever order
    -- and however each of them ends, all that has been sent is permitted by the configuration, if what
    -- was sent before them is: nothing that changes the device by RPC while write tools are disabled,
    -- and no gated command line while transmit tools are.
    pub perform_all-IsWithin :
        (calls : List Call) (s : World)
        → All (IsPermitted config) s.client.link.sent
        → All (IsPermitted config) (perform_all config calls s).client.link.sent
    unfolding perform_all
    perform_all-IsWithin [] s w = w
    perform_all-IsWithin (call ∷ calls) s w =
        perform_all-IsWithin calls (perform config call s) (perform-IsWithin call s w)
