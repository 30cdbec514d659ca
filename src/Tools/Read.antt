-- ===== src/Tools/Read.antt =====
-- The tools that only read, through one RPC request: of tools/storage.py, device.py, diagnostics.py
-- and systeminfo.py. A dict that is returned stands for the values in it.
pub mod Sent
use flipperzero_mcp.Link.{out_of_range, unavailable}
use flipperzero_mcp.Base.{List, false, Bool, ℕ, codes, Text, Bytes, leb}
use flipperzero_mcp.Action.{F, ◌>>=◌, ◌>>◌}
use flipperzero_mcp.Proto.{Codec, DateTime}
use flipperzero_mcp.Client.{Client}
use flipperzero_mcp.Tools.Common.{Attempt, requested, present, require}
use flipperzero_mcp.Rpc.Storage.{Entry, storage_info, storage_stat, storage_timestamp}
use flipperzero_mcp.Rpc.Listing.{storage_list_detailed}
use flipperzero_mcp.Rpc.System.{
  Pin, Info, ping, app_lock_status, app_get_error, desktop_is_locked, gpio_read, get_property,
  system_protobuf_version, system_datetime, system_power_info,
}

-- _GPIO_PIN_MAX
abbrev pub gpio_pin_max : ℕ
gpio_pin_max = 7

module _ ⦃c : Codec⦄ where
  unfoldable pub flipperzero_fs_info : Attempt → Text → F Client (ℕ × ℕ)
  flipperzero_fs_info attempt path = requested attempt (storage_info path) >>= present unavailable

  unfoldable pub flipperzero_fs_stat : Attempt → Text → F Client Entry
  flipperzero_fs_stat attempt path = requested attempt (storage_stat path) >>= present unavailable

  unfoldable pub flipperzero_fs_timestamp : Attempt → Text → F Client ℕ
  flipperzero_fs_timestamp attempt path =
      requested attempt (storage_timestamp path) >>= present unavailable

  unfoldable pub flipperzero_fs_list : Attempt → Text → F Client (List Entry)
  flipperzero_fs_list attempt path = requested attempt (storage_list_detailed path false 0)

  unfoldable pub flipperzero_app_lock_status : Attempt → F Client Bool
  flipperzero_app_lock_status attempt = requested attempt app_lock_status >>= present unavailable

  unfoldable pub flipperzero_app_get_error : Attempt → F Client (ℕ × Text)
  flipperzero_app_get_error attempt = requested attempt app_get_error >>= present unavailable

  unfoldable pub flipperzero_desktop_is_locked : Attempt → F Client Bool
  flipperzero_desktop_is_locked attempt =
      requested attempt desktop_is_locked >>= present unavailable

  -- A pin is a native number here; a negative one is refused like one above the maximum.
  unfoldable pub flipperzero_gpio_read : Attempt → ℕ → F Client Pin
  flipperzero_gpio_read attempt pin =
      require (leb pin gpio_pin_max) out_of_range
      >> requested attempt (gpio_read pin)
      >>= present unavailable

  -- The bytes that are decoded to `echo`.
  unfoldable pub flipperzero_system_ping : Attempt → F Client Bytes
  flipperzero_system_ping attempt = requested attempt (ping (codes "ping")) >>= present unavailable

  unfoldable pub flipperzero_system_property_get : Attempt → Text → F Client Text
  flipperzero_system_property_get attempt key =
      requested attempt (get_property key) >>= present unavailable

  unfoldable pub flipperzero_system_power_info : Attempt → F Client Info
  flipperzero_system_power_info attempt =
      requested attempt system_power_info >>= present unavailable

  unfoldable pub flipperzero_system_protobuf_version : Attempt → F Client (ℕ × ℕ)
  flipperzero_system_protobuf_version attempt =
      requested attempt system_protobuf_version >>= present unavailable

  unfoldable pub flipperzero_system_datetime : Attempt → F Client DateTime
  flipperzero_system_datetime attempt = requested attempt system_datetime >>= present unavailable
