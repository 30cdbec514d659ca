-- ===== src/Transport.antt =====
-- The transports that the server is configured with: transport/__init__.py, usb.py and wifi.py.
pub mod Usb
pub mod Wifi
use flipperzero_mcp.Link.{value_error, raised, ok, Result}
use flipperzero_mcp.Base.{Option, ℕ, text_eq, codes, Text, if◌then◌else◌}
use flipperzero_mcp.Config.{TransportConfig}
use flipperzero_mcp.Cli.Risk.{Case}

-- The class that is made, and the section of the configuration that it is given.
pub data Chosen : Type 0 where
  auto_section : TransportConfig → Chosen
  -- the port and the baud rate
  usb_section : Option Text → ℕ → Chosen
  -- the host and the port
  wifi_section : Option Text → ℕ → Chosen

-- `get_transport`: a ValueError for another name. The section is that of the name, whatever the
-- configuration's own type says.
unfoldable pub get_transport : ⦃k : Case⦄ → Text → TransportConfig → Result Chosen
get_transport ⦃k = k⦄ transport_type config =
    if text_eq (k.lower transport_type) (codes "auto")
    then ok (auto_section config)
    else if text_eq (k.lower transport_type) (codes "usb")
    then ok (usb_section config.usb_port config.usb_baudrate)
    else if text_eq (k.lower transport_type) (codes "wifi")
    then ok (wifi_section config.wifi_host config.wifi_port)
    else raised value_error
