-- ===== src/Auto/Chosen.antt =====
-- Which transport is in use after any connects and disconnects.
use flipperzero_mcp.Link.{cancelled, raised, ok, Result}
use flipperzero_mcp.Base.{[], some, none, Option, false, true, Bool, refl, ◌≡◌}
use flipperzero_mcp.Auto.{
  Backend, Auto, connect, connect_wifi, disconnect, disconnect_active, is_active,
}

-- One connect or disconnect, whatever the transports inside do.
pub data Step : Auto → Auto → Type 0 where
  connects :
      (over_usb : Result Bool) (wifi_is_configured : Bool) (over_wifi : Result Bool) (a : Auto)
      → Step a (connect over_usb wifi_is_configured over_wifi a).1
  disconnects : (inner : Result (Unit {0})) (a : Auto) → Step a (disconnect inner a).1

-- From a transport that has just been made.
pub data Reach : Auto → Type 0 where
  start : Reach (record { active = none; connected = false; rx_buffer = [] })
  next : {a b : Auto} → Reach a → Step a b → Reach b

Step-connected :
    {a b : Auto} → Step a b → a.connected ≡ is_active a.active → b.connected ≡ is_active b.active
unfolding connect connect_wifi disconnect disconnect_active
Step-connected (connects (ok true) w o a) h = refl
Step-connected (connects (ok false) true (ok true) a) h = refl
Step-connected (connects (ok false) true (ok false) a) h = refl
Step-connected (connects (ok false) true (raised e) a) h = h
Step-connected (connects (ok false) true cancelled a) h = h
Step-connected (connects (ok false) false o a) h = refl
Step-connected (connects (raised e) w o a) h = h
Step-connected (connects cancelled w o a) h = h
Step-connected (disconnects inner a) h = closed a.active
  where
    closed :
        (o : Option Backend)
        → (disconnect_active o inner a).1.connected
          ≡ is_active (disconnect_active o inner a).1.active
    closed none = refl
    closed (some backend) = refl

-- After any sequence of connects and disconnects, some of which may have raised, the transport counts
-- as connected exactly if there is one inside to send to.
pub Reach-connected : {a : Auto} → Reach a → a.connected ≡ is_active a.active
Reach-connected start = refl
Reach-connected (next r step) = Step-connected step (Reach-connected r)
