-- ===== src/Config.antt =====
-- FlipperConfig of config.py: the settings, their check, and what the transports are given.
use flipperzero_mcp.Base.{
  ◌∷◌, [], some, none, Option, ◌&&◌, not, false, true, Bool, ℕ, is_empty, Text, if◌then◌else◌,
}
use flipperzero_mcp.Link.{ok, raised, Result, value_error}
use flipperzero_mcp.Cli.Words.{strip}

-- The literals of the field `transport`.
pub data TransportType : Type 0 where
  auto_transport usb_transport wifi_transport : TransportType

-- The settings after pydantic has read them, each a field of its type.
pub record FlipperConfig : Type 0 where
  pub transport : TransportType
  pub usb_port : Option Text
  pub usb_baudrate : ℕ
  pub wifi_host : Option Text
  pub wifi_port : ℕ
  pub enable_tx_tools : Bool
  pub enable_write_tools : Bool
  pub enable_firmware_flash : Bool
  pub debug : Bool

-- `bool(x and x.strip())`
abbrev pub is_set : Option Text → Bool
is_set none = false
is_set (some host) = not (is_empty (strip host))

-- `wifi_configured`
abbrev pub wifi_configured : FlipperConfig → Bool
wifi_configured config = is_set config.wifi_host

abbrev pub is_wifi_transport : TransportType → Bool
is_wifi_transport wifi_transport = true
is_wifi_transport _ = false

-- `_require_wifi_host_for_wifi_transport`
unfoldable pub require_wifi_host_for_wifi_transport : FlipperConfig → Result FlipperConfig
require_wifi_host_for_wifi_transport config =
    if is_wifi_transport config.transport && not (wifi_configured config)
    then raised value_error
    else ok config

-- The dict of `as_transport_config`: a port or host that is empty is left out.
pub record TransportConfig : Type 0 where
  pub transport : TransportType
  pub usb_baudrate : ℕ
  pub usb_port : Option Text
  pub wifi_port : ℕ
  pub wifi_host : Option Text

abbrev pub if_filled : Option Text → Option Text
if_filled none = none
if_filled (some []) = none
if_filled (some (c ∷ t)) = some (c ∷ t)

unfoldable pub as_transport_config : FlipperConfig → TransportConfig
as_transport_config config = record {
  transport = config.transport;
  usb_baudrate = config.usb_baudrate;
  usb_port = if_filled config.usb_port;
  wifi_port = config.wifi_port;
  wifi_host = if_filled config.wifi_host;
}
