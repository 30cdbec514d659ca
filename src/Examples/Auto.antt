-- ===== src/Examples/Auto.antt =====
-- USB fails, WiFi connects, and the disconnect raises.
use flipperzero_mcp.Link.{os_error, raised, ok}
use flipperzero_mcp.Base.{[], none, false, true, ◌≡◌}
use flipperzero_mcp.Auto.{connect, disconnect, is_active, Auto}
use flipperzero_mcp.Auto.Chosen.{Reach, start, next, connects, disconnects, Reach-connected}

abbrev made : Auto
made = record { active = none; connected = false; rx_buffer = [] }

over_wifi-Reach : Reach (connect (ok false) true (ok true) made).1
over_wifi-Reach = next start (connects (ok false) true (ok true) made)

Reach-connected_example :
    (disconnect (raised os_error) (connect (ok false) true (ok true) made).1).1.connected
    ≡ is_active (disconnect (raised os_error) (connect (ok false) true (ok true) made).1).1.active
Reach-connected_example = Reach-connected (
    next over_wifi-Reach (disconnects (raised os_error) (connect (ok false) true (ok true) made).1))
