-- ===== src/Auto.antt =====
-- AutoTransport of transport/auto.py: USB if it connects, else WiFi if it is configured.
use flipperzero_mcp.Link.{cancelled, raised, ok, Result}
use flipperzero_mcp.Base.{[], some, none, Option, false, true, Bool, Bytes}
pub mod Chosen

-- The class of `_active`.
pub data Backend : Type 0 where
  usb wifi : Backend

-- `rx_buffer` is the transport's own, from FlipperTransport.
pub record Auto : Type 0 where
  pub active : Option Backend
  pub connected : Bool
  pub rx_buffer : Bytes

abbrev selected : Backend → Auto → Result Bool × Auto
selected backend a = (ok true, record a { active = some backend; connected = true; rx_buffer = [] })

abbrev nothing_selected : Auto → Result Bool × Auto
nothing_selected a = (ok false, record a { active = none; connected = false })

-- The attempt on WiFi, by what its `connect` does.
connect_wifi : Result Bool → Auto → Result Bool × Auto
connect_wifi (ok true) a = selected wifi a
connect_wifi (ok false) a = nothing_selected a
connect_wifi (raised e) a = (raised e, a)
connect_wifi cancelled a = (cancelled, a)

-- `connect`, by what the `connect` of USB does, whether a WiFi host is set, and what WiFi's does.
unfoldable pub connect : Result Bool → Bool → Result Bool → Auto → Result Bool × Auto
unfolding connect_wifi
connect (ok true) wifi_is_configured over_wifi a = selected usb a
connect (ok false) true over_wifi a = connect_wifi over_wifi a
connect (ok false) false over_wifi a = nothing_selected a
connect (raised e) wifi_is_configured over_wifi a = (raised e, a)
connect cancelled wifi_is_configured over_wifi a = (cancelled, a)

-- The `finally` of `disconnect` runs however the inner transport's `disconnect` ends.
abbrev reset : Auto → Auto
reset a = record a { active = none; connected = false; rx_buffer = [] }

disconnect_active : Option Backend → Result (Unit {0}) → Auto → Result (Unit {0}) × Auto
disconnect_active none inner a = (ok tt, reset a)
disconnect_active (some backend) inner a = (inner, reset a)

-- `disconnect`, by what the `disconnect` of the active transport does.
unfoldable pub disconnect : Result (Unit {0}) → Auto → Result (Unit {0}) × Auto
unfolding disconnect_active
disconnect inner a = disconnect_active a.active inner a

abbrev pub is_active : Option Backend → Bool
is_active none = false
is_active (some backend) = true
