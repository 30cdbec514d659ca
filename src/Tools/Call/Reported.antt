-- ===== src/Tools/Call/Reported.antt =====
-- What a tool can raise.
use flipperzero_mcp.Tools.Transfer.Reports.{
  verify_md5-Reports, write_bytes-FailsOn, but_tool-Reports, FailsOn-then, read_bytes-FailsOn,
  local-ReportsBut, on_client-Reports, ReportsBut, ReportsBut-bind, Reports-ReportsBut,
}
use flipperzero_mcp.Tools.Common.Reports.{
  Reports-pure, Reports-require, Reports-present, Reports-classified, Reports-bind, Reports,
}
use flipperzero_mcp.Tools.Cli.{cli_typed, flipperzero_cli_exec}
use flipperzero_mcp.Config.{FlipperConfig}
use flipperzero_mcp.Tools.Change.{
  flipperzero_app_start, flipperzero_fs_rename, flipperzero_fs_delete, flipperzero_fs_mkdir,
  changed,
}
use flipperzero_mcp.Tools.Read.{
  flipperzero_system_datetime, flipperzero_system_protobuf_version, flipperzero_system_power_info,
  flipperzero_system_property_get, flipperzero_system_ping, flipperzero_gpio_read,
  flipperzero_desktop_is_locked, flipperzero_app_get_error, flipperzero_app_lock_status,
  flipperzero_fs_list, flipperzero_fs_timestamp, flipperzero_fs_stat, flipperzero_fs_info,
}
use flipperzero_mcp.Proto.{Codec}
use flipperzero_mcp.Cli.Risk.{Case}
use flipperzero_mcp.Link.{
  out_of_range, gated_command, failed, write_tools_disabled, unavailable, M, tool_error, raised,
  Reason, Exn,
}
use flipperzero_mcp.Base.{Option, some, none, inl, inr, refl, ◌⊎◌, false, Bool, ◌≡◌, Text}
use mathlib.Core.Path.{subst}
use flipperzero_mcp.Action.{F, ◌>>=◌}
use flipperzero_mcp.Tools.Common.{require_write_tools, Attempt, requested, present}
use flipperzero_mcp.Tools.Call.{
  Call, call_tool, done, local_path_of, is_connection_tool, read, mkdir, delete, rename, push, pull,
  execute, typed, health,
}
use flipperzero_mcp.Tools.Read.Sent.{
  ReadTool, run, fs_info, fs_stat, fs_timestamp, fs_list, system_ping, system_property_get,
}
use flipperzero_mcp.Tools.Transfer.{
  flipperzero_fs_pull, flipperzero_fs_push, World, Hash, read_bytes, write_bytes, is_path, upload,
  download, keep,
}

module _ ⦃c : Codec⦄ where
  asked-Reports :
      {A : Type 0} (attempt : Attempt) (m : M (Option A))
      → Reports (requested attempt m >>= present unavailable)
  unfolding requested
  asked-Reports attempt m = Reports-bind (Reports-classified _) (Reports-present unavailable)

  run-Reports : (tool : ReadTool) (attempt : Attempt) → Reports (run tool attempt)
  unfolding run requested flipperzero_fs_info flipperzero_fs_stat flipperzero_fs_timestamp
      flipperzero_fs_list flipperzero_app_lock_status flipperzero_app_get_error
      flipperzero_desktop_is_locked flipperzero_gpio_read flipperzero_system_ping
      flipperzero_system_property_get flipperzero_system_power_info
      flipperzero_system_protobuf_version flipperzero_system_datetime
  run-Reports (fs_info path) attempt = asked-Reports attempt _
  run-Reports (fs_stat path) attempt = asked-Reports attempt _
  run-Reports (fs_timestamp path) attempt = asked-Reports attempt _
  run-Reports (fs_list path) attempt = Reports-classified _
  run-Reports ReadTool.app_lock_status attempt = asked-Reports attempt _
  run-Reports ReadTool.app_get_error attempt = asked-Reports attempt _
  run-Reports ReadTool.desktop_is_locked attempt = asked-Reports attempt _
  run-Reports (ReadTool.gpio_read pin) attempt =
      Reports-bind (Reports-bind (Reports-require _ out_of_range) λ _. Reports-classified _)
        (Reports-present unavailable)
  run-Reports system_ping attempt = asked-Reports attempt _
  run-Reports (system_property_get key) attempt = asked-Reports attempt _
  run-Reports ReadTool.system_power_info attempt = asked-Reports attempt _
  run-Reports ReadTool.system_protobuf_version attempt = asked-Reports attempt _
  run-Reports ReadTool.system_datetime attempt = asked-Reports attempt _

  changed-Reports :
      (config : FlipperConfig) (attempt : Attempt) (m : M Bool) → Reports (changed config attempt m)
  unfolding changed requested require_write_tools
  changed-Reports config attempt m =
      Reports-bind (Reports-bind (Reports-require _ write_tools_disabled) λ _. Reports-classified _)
        λ accepted. Reports-require accepted failed

  module _ ⦃k : Case⦄ ⦃h : Hash⦄ where
    push-Reports :
        (config : FlipperConfig) (attempt : Attempt) (local_path dest_path : Text)
        → ReportsBut local_path (flipperzero_fs_push config attempt local_path dest_path)
    unfolding flipperzero_fs_push require_write_tools
    push-Reports config attempt local_path dest_path =
        ReportsBut-bind (Reports-ReportsBut (Reports-require _ write_tools_disabled)) λ _.
          ReportsBut-bind
            (local-ReportsBut local_path (read_bytes local_path) (read_bytes-FailsOn local_path))
            λ content. Reports-ReportsBut (
              Reports-bind (on_client-Reports (but_tool-Reports (upload attempt dest_path content)))
                λ digest. Reports-bind (verify_md5-Reports _ digest) λ _. Reports-pure _)

    pull-Reports :
        (attempt : Attempt) (src_path local_path : Text)
        → ReportsBut local_path (flipperzero_fs_pull attempt src_path local_path)
    unfolding flipperzero_fs_pull keep
    pull-Reports attempt src_path local_path =
        ReportsBut-bind
          (Reports-ReportsBut (on_client-Reports (Reports-classified (download attempt src_path))))
          λ p.
            ReportsBut-bind
              (local-ReportsBut local_path _ (
                FailsOn-then local_path (write_bytes local_path p.0) (read_bytes local_path)
                  (write_bytes-FailsOn local_path p.0) (read_bytes-FailsOn local_path)))
              λ written.
                Reports-ReportsBut (Reports-bind (verify_md5-Reports _ p.1) λ _. Reports-pure _)

    done-Reports : {A : Type 0} {m : F World A} → Reports m → Reports (done m)
    done-Reports p = Reports-bind p λ _. Reports-pure tt

    call-Reports :
        (config : FlipperConfig) (call : Call)
        → is_connection_tool call ≡ false
        → local_path_of call ≡ none
        → Reports (call_tool config call)
    unfolding call_tool flipperzero_fs_mkdir flipperzero_fs_delete flipperzero_fs_rename
        flipperzero_app_start flipperzero_cli_exec cli_typed
    call-Reports config (read tool attempt) n w =
        done-Reports (on_client-Reports (run-Reports tool attempt))
    call-Reports config (mkdir attempt path) n w =
        done-Reports (on_client-Reports (changed-Reports config attempt _))
    call-Reports config (delete attempt path recursive) n w =
        done-Reports (on_client-Reports (changed-Reports config attempt _))
    call-Reports config (rename attempt old_path new_path) n w =
        done-Reports (on_client-Reports (changed-Reports config attempt _))
    call-Reports config (Call.app_start attempt name args) n w =
        done-Reports (on_client-Reports (changed-Reports config attempt _))
    call-Reports config (push attempt local_path dest_path) n w = cc w
    call-Reports config (pull attempt src_path local_path) n w = cc w
    call-Reports config (execute attempt command timeout a) n w =
        done-Reports (on_client-Reports (Reports-classified _))
    call-Reports config (typed attempt command) n w = done-Reports (
        on_client-Reports
          (Reports-bind (Reports-require _ gated_command) λ _. Reports-classified _))
    call-Reports config (health probe transport) n w = cc n
    call-Reports config (Call.reconnect probe d r t) n w = cc n

    -- A transfer, too, but for its local path.
    transfer-Reports :
        (config : FlipperConfig) (call : Call) {path : Text}
        → local_path_of call ≡ some path
        → ReportsBut path (call_tool config call)
    unfolding call_tool
    transfer-Reports config (push attempt local_path dest_path) w =
        subst (λ p. ReportsBut p (call_tool config (push attempt local_path dest_path))) (path_eq w)
          (ReportsBut-bind (push-Reports config attempt local_path dest_path)
            λ _. Reports-ReportsBut (Reports-pure tt))
      where
        path_eq : {a b : Text} → ◌≡◌ {A = Option Text} (some a) (some b) → a ≡ b
        path_eq w = cc w
    transfer-Reports config (pull attempt src_path local_path) w =
        subst (λ p. ReportsBut p (call_tool config (pull attempt src_path local_path))) (path_eq w)
          (ReportsBut-bind (pull-Reports attempt src_path local_path)
            λ _. Reports-ReportsBut (Reports-pure tt))
      where
        path_eq : {a b : Text} → ◌≡◌ {A = Option Text} (some a) (some b) → a ≡ b
        path_eq w = cc w
    transfer-Reports config (read tool attempt) w = cc w
    transfer-Reports config (mkdir attempt path) w = cc w
    transfer-Reports config (delete attempt path recursive) w = cc w
    transfer-Reports config (rename attempt old_path new_path) w = cc w
    transfer-Reports config (Call.app_start attempt name args) w = cc w
    transfer-Reports config (execute attempt command timeout a) w = cc w
    transfer-Reports config (typed attempt command) w = cc w
    transfer-Reports config (health probe transport) w = cc w
    transfer-Reports config (Call.reconnect probe d r t) w = cc w

    -- Whatever goes wrong in a tool, on the device, on the link or on the host, what it raises is a
    -- ToolError with one of the known reasons, with one exception: a ValueError, from a push or a pull
    -- whose local path cannot be a path of the host (it holds a null or a lone surrogate). The
    -- connection tools, the firmware install, the system information and the parsers of the typed CLI
    -- tools are not meant.
    pub call_tool-ToolError :
        (config : FlipperConfig) (call : Call) (s : World) {e : Exn} {s' : World}
        → is_connection_tool call ≡ false
        → call_tool config call s ≡ (raised e, s')
        → ((reason : Reason) × (e ≡ tool_error reason))
          ⊎ ((e ≡ Exn.value_error)
              × ((path : Text) × (local_path_of call ≡ some path) × (is_path path ≡ false)))
    call_tool-ToolError config call s {e = e} n q = by_path (local_path_of call) refl
      where
        by_path :
            (o : Option Text)
            → local_path_of call ≡ o
            → ((reason : Reason) × (e ≡ tool_error reason))
              ⊎ ((e ≡ Exn.value_error)
                  × ((path : Text) × (local_path_of call ≡ some path) × (is_path path ≡ false)))
        by_path none w = inl ((call-Reports config call n w).at s q)
        by_path (some path) w = elim ((transfer-Reports config call w).at s q) [
          | inl reported ↦ inl reported
          | inr (value, bad) ↦ inr (value, (path, w, bad))
        ]
