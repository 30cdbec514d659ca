-- ===== src/Tools/SystemInfo.antt =====
-- `flipperzero_system_info` of tools/systeminfo.py: the health, the device's pairs, its firmware and
-- its SD card in one answer.
use flipperzero_mcp.Link.{Result}
use flipperzero_mcp.Base.{
  ◌∷◌, [], some, none, Option, true, Bool, text_eq, codes, Text, if◌then◌else◌,
}
use flipperzero_mcp.Base.Dict.{lookup}
use flipperzero_mcp.Action.{F, pure, ◌>>=◌, ◌>>◌}
use flipperzero_mcp.Proto.{Codec}
use flipperzero_mcp.Client.{Client, check_sd_card_available}
use flipperzero_mcp.Client.Health.{ConnectionHealth, get_connection_health}
use flipperzero_mcp.Client.Info.{get_device_info}
use flipperzero_mcp.Cli.Risk.{Case}
use flipperzero_mcp.Firmware.Flavor.{FirmwareInfo, classify}
use flipperzero_mcp.Rpc.System.{Info}
use flipperzero_mcp.Tools.Common.{Attempt, classified, ensure_connected}

pub record SystemInfo : Type 0 where
  pub health : ConnectionHealth
  pub device : Info
  pub firmware : FirmwareInfo
  pub version : Option Text
  pub sd_card_available : Bool

-- `device["firmware"] if device.get("firmware") not in (None, "Unknown") else None`
abbrev known : Option Text → Option Text
known none = none
known (some version) = if text_eq version (codes "Unknown") then none else some version

-- `firmware.version or (…)`
abbrev pub shown_version : Option Text → Option Text → Option Text
shown_version none firmware = known firmware
shown_version (some []) firmware = known firmware
shown_version (some (c ∷ t)) firmware = some (c ∷ t)

module _ ⦃c : Codec⦄ ⦃k : Case⦄ where
  unfoldable pub flipperzero_system_info : Attempt → Result Bool → F Client SystemInfo
  flipperzero_system_info attempt transport = classified (do
    ensure_connected attempt
    health ← get_connection_health true transport
    device ← get_device_info
    available ← check_sd_card_available
    pure (record {
      health = health;
      device = device;
      firmware = classify device;
      version = shown_version (classify device).version (lookup (codes "firmware") device);
      sd_card_available = available;
    }))
