-- ===== src/Tools/Read/Sent.antt =====
-- What the tools that ask the device by one RPC query put on the wire.
use flipperzero_mcp.Rpc.ReadOnly.{
  system_datetime-OnlyReads, system_protobuf_version-OnlyReads, system_power_info-OnlyReads,
  get_property-OnlyReads, ping-OnlyReads, desktop_is_locked-OnlyReads, app_get_error-OnlyReads,
  app_lock_status-OnlyReads, storage_list_detailed-OnlyReads, storage_timestamp-OnlyReads,
  storage_stat-OnlyReads, storage_info-OnlyReads, gpio_read-OnlyReads, reads, OnlyReads,
}
use flipperzero_mcp.Link.{out_of_range, unavailable, M}
use flipperzero_mcp.Tools.Read.{
  flipperzero_system_datetime, flipperzero_system_protobuf_version, flipperzero_system_power_info,
  flipperzero_system_property_get, flipperzero_system_ping, flipperzero_desktop_is_locked,
  gpio_pin_max, flipperzero_app_get_error, flipperzero_app_lock_status, flipperzero_fs_list,
  flipperzero_fs_timestamp, flipperzero_fs_stat, flipperzero_gpio_read, flipperzero_fs_info,
}
use flipperzero_mcp.Base.{List, Option, false, true, Bool, refl, ℕ, codes, Text, Bytes, leb}
use flipperzero_mcp.Action.{F, ◌>>=◌, ◌>>◌}
use flipperzero_mcp.Link.Sends.{Adds-same, Adds, SendsOnly-weaken}
use flipperzero_mcp.Proto.{Codec, DateTime}
use flipperzero_mcp.Client.{Client}
use flipperzero_mcp.Rpc.Call.Sends.{IsAllowed}
use flipperzero_mcp.Rpc.Storage.{Entry}
use flipperzero_mcp.Rpc.System
use flipperzero_mcp.Rpc.System.{Pin, Info}
use flipperzero_mcp.Tools.Common.{Attempt, requested, require, present}
use flipperzero_mcp.Tools.Common.Sent.{ToolSends, requested-ToolSends, ToolSends-then, present-sent}

-- The tools that their annotations mark as read-only and that make one RPC query. (The system
-- information, the health report and the typed CLI tools are marked so too, and are not among them.)
pub data ReadTool : Type 0 where
  fs_info fs_stat fs_timestamp fs_list : Text → ReadTool
  app_lock_status app_get_error desktop_is_locked : ReadTool
  gpio_read : ℕ → ReadTool
  system_ping : ReadTool
  system_property_get : Text → ReadTool
  system_power_info system_protobuf_version system_datetime : ReadTool

abbrev pub Answer : ReadTool → Type 0
Answer (fs_info path) = ℕ × ℕ
Answer (fs_stat path) = Entry
Answer (fs_timestamp path) = ℕ
Answer (fs_list path) = List Entry
Answer app_lock_status = Bool
Answer app_get_error = ℕ × Text
Answer desktop_is_locked = Bool
Answer (gpio_read pin) = Pin
Answer system_ping = Bytes
Answer (system_property_get key) = Text
Answer system_power_info = Info
Answer system_protobuf_version = ℕ × ℕ
Answer system_datetime = DateTime

module _ ⦃c : Codec⦄ where
  unfoldable pub run : (tool : ReadTool) → Attempt → F Client (Answer tool)
  run (fs_info path) attempt = flipperzero_fs_info attempt path
  run (fs_stat path) attempt = flipperzero_fs_stat attempt path
  run (fs_timestamp path) attempt = flipperzero_fs_timestamp attempt path
  run (fs_list path) attempt = flipperzero_fs_list attempt path
  run app_lock_status attempt = flipperzero_app_lock_status attempt
  run app_get_error attempt = flipperzero_app_get_error attempt
  run desktop_is_locked attempt = flipperzero_desktop_is_locked attempt
  run (gpio_read pin) attempt = flipperzero_gpio_read attempt pin
  run system_ping attempt = flipperzero_system_ping attempt
  run (system_property_get key) attempt = flipperzero_system_property_get attempt key
  run system_power_info attempt = flipperzero_system_power_info attempt
  run system_protobuf_version attempt = flipperzero_system_protobuf_version attempt
  run system_datetime attempt = flipperzero_system_datetime attempt

  -- One request, and an error for no answer.
  asked :
      {A : Type 0} (attempt : Attempt) {m : M (Option A)}
      → OnlyReads 11 m
      → ToolSends (IsAllowed reads) 22 (requested attempt m >>= present unavailable)
  asked attempt p =
      ToolSends-then 22 (present unavailable)
        (requested-ToolSends 22 attempt (SendsOnly-weaken 11 11 p)) (present-sent unavailable)

  gpio_read-ToolSends :
      (pin : ℕ) (attempt : Attempt)
      → ToolSends (IsAllowed reads) 22 (flipperzero_gpio_read attempt pin)
  unfolding flipperzero_gpio_read
  gpio_read-ToolSends pin attempt = record { at = λ cl. ranged (leb pin gpio_pin_max) cl }
    where
      ranged :
          (b : Bool) (cl : Client)
          → Adds
              (IsAllowed reads)
              22
              cl.link.sent
              (((require b out_of_range
                    >> requested attempt (flipperzero_mcp.Rpc.System.gpio_read pin))
                  >>= present unavailable)
                cl).1.link.sent
      ranged true cl =
          (ToolSends-then 22 (present unavailable)
              (requested-ToolSends 22 attempt (gpio_read-OnlyReads pin))
              (present-sent unavailable)).at
            cl
      ranged false cl = Adds-same 22 refl

  -- Whatever the transport and the device do, and however it ends, each of the thirteen tools of
  -- one RPC query (storage info, stat, timestamp and list, application lock and error, desktop lock,
  -- GPIO read, ping, property, power info, protobuf version, date) sends at most 22 messages, each of
  -- them one of the negotiation's or a request that only reads.
  pub run-ToolSends :
      (tool : ReadTool) (attempt : Attempt) (cl : Client)
      → Adds (IsAllowed reads) 22 cl.link.sent (run tool attempt cl).1.link.sent
  unfolding run flipperzero_fs_info flipperzero_fs_stat flipperzero_fs_timestamp flipperzero_fs_list
      flipperzero_app_lock_status flipperzero_app_get_error flipperzero_desktop_is_locked
      flipperzero_system_ping flipperzero_system_property_get flipperzero_system_power_info
      flipperzero_system_protobuf_version flipperzero_system_datetime
  run-ToolSends (fs_info path) attempt cl = (asked attempt (storage_info-OnlyReads path)).at cl
  run-ToolSends (fs_stat path) attempt cl = (asked attempt (storage_stat-OnlyReads path)).at cl
  run-ToolSends (fs_timestamp path) attempt cl =
      (asked attempt (storage_timestamp-OnlyReads path)).at cl
  run-ToolSends (fs_list path) attempt cl =
      (requested-ToolSends 22 attempt
          (SendsOnly-weaken 11 11 (storage_list_detailed-OnlyReads path false 0))).at
        cl
  run-ToolSends app_lock_status attempt cl = (asked attempt app_lock_status-OnlyReads).at cl
  run-ToolSends app_get_error attempt cl = (asked attempt app_get_error-OnlyReads).at cl
  run-ToolSends desktop_is_locked attempt cl = (asked attempt desktop_is_locked-OnlyReads).at cl
  run-ToolSends (gpio_read pin) attempt cl = (gpio_read-ToolSends pin attempt).at cl
  run-ToolSends system_ping attempt cl = (asked attempt (ping-OnlyReads (codes "ping"))).at cl
  run-ToolSends (system_property_get key) attempt cl =
      (asked attempt (get_property-OnlyReads key)).at cl
  run-ToolSends system_power_info attempt cl = (asked attempt system_power_info-OnlyReads).at cl
  run-ToolSends system_protobuf_version attempt cl =
      (asked attempt system_protobuf_version-OnlyReads).at cl
  run-ToolSends system_datetime attempt cl = (asked attempt system_datetime-OnlyReads).at cl
