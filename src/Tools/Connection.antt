-- ===== src/Tools/Connection.antt =====
-- tools/connection.py: the tools that run while the device is down.
use flipperzero_mcp.Link.{Result}
use flipperzero_mcp.Base.{Bool}
use flipperzero_mcp.Action.{F, pure, ◌>>=◌, ◌>>◌}
use flipperzero_mcp.Proto.{Codec}
use flipperzero_mcp.Client.{Client, connect, disconnect}
use flipperzero_mcp.Client.Health.{ConnectionHealth, get_connection_health}

module _ ⦃c : Codec⦄ where
  -- `flipperzero_connection_health`, by what `transport.is_connected()` does.
  unfoldable pub flipperzero_connection_health : Bool → Result Bool → F Client ConnectionHealth
  flipperzero_connection_health probe_rpc transport = get_connection_health probe_rpc transport

  -- `flipperzero_connection_reconnect`: the health, and `reconnect_ok`.
  unfoldable pub flipperzero_connection_reconnect :
      Bool → Result (Unit {0}) → Result Bool → Result Bool → F Client (ConnectionHealth × Bool)
  flipperzero_connection_reconnect probe_rpc disconnects connects transport = do
    disconnect disconnects
    reconnect_ok ← connect connects
    health ← get_connection_health probe_rpc transport
    pure (health, reconnect_ok)
