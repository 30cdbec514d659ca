-- ===== src/Transport/Usb.antt =====
-- USBTransport of transport/usb.py: the choice of a port, and the operations by what pyserial does.
use flipperzero_mcp.Base.{
  ◌++◌, ◌∷◌, [], List, some, none, Option, ◌||◌, ◌&&◌, false, true, Bool, inr, inl, ◌⊎◌, ap, refl,
  ◌≡◌, suc, zero, ℕ, starts_with, codes, Text, Bytes, All, Bool-cases, if◌then◌else◌, ◌==◌,
}
use flipperzero_mcp.Action.{F}
use flipperzero_mcp.Cli.Words.{contains}
use flipperzero_mcp.Cli.Risk.{Case}
use flipperzero_mcp.Link.{cancelled, runtime_error, raised, ok, Result, is_os_error}

-- An entry of `comports()`; `description` is its text.
pub record Port : Type 0 where
  pub device : Text
  pub vid : Option ℕ
  pub pid : Option ℕ
  pub description : Text

-- The host: macOS or not, and which paths exist.
pub record Host : Type 0 where
  pub is_darwin : Bool
  pub exists : Text → Bool

abbrev is_number : ℕ → Option ℕ → Bool
is_number n none = false
is_number n (some m) = m == n

-- `device.replace("/dev/tty.", "/dev/cu.")`, left to right
abbrev replaced_from : ℕ → Text → Text
replaced_from skip [] = []
replaced_from (suc skip) (c ∷ t) = replaced_from skip t
replaced_from zero (c ∷ t) =
    let matched = codes "/dev/cu." ++ replaced_from 8 t in
    let kept = c ∷ replaced_from zero t in
    if starts_with (codes "/dev/tty.") (c ∷ t) then matched else kept

module _ ⦃k : Case⦄ where
  unfoldable pub is_flipper : Host → Port → Bool
  is_flipper host port =
      (is_number 0x0483 port.vid && is_number 0x5740 port.pid)
      || contains (codes "Flipper") port.description
      || (host.is_darwin
          && contains (codes "usbmodem") (k.lower port.device)
          && contains (codes "flip") (k.lower port.device))

  -- On macOS the device for outgoing connections is preferred, if it exists.
  unfoldable pub preferred : Host → Text → Text
  preferred host device =
      if host.is_darwin
        && starts_with (codes "/dev/tty.") device
        && host.exists (replaced_from zero device)
      then replaced_from zero device
      else device

  -- The first port that is detected.
  unfoldable pub first_detected : Host → List Port → Option Text
  first_detected host [] = none
  first_detected host (port ∷ ports) =
      let later = first_detected host ports in
      if is_flipper host port then some (preferred host port.device) else later

  abbrev pub fallback : Bool → Text
  fallback true = codes "/dev/tty.usbmodemflip_1"
  fallback false = codes "/dev/ttyACM0"

  abbrev pub or_fallback : Host → Option Text → Text
  or_fallback host none = fallback host.is_darwin
  or_fallback host (some device) = device

  -- `_auto_detect_port`
  unfoldable pub auto_detect_port : Host → List Port → Text
  auto_detect_port host ports = or_fallback host (first_detected host ports)

  -- `configured_port or self._auto_detect_port()`
  unfoldable pub port_of : Host → List Port → Option Text → Text
  port_of host ports none = auto_detect_port host ports
  port_of host ports (some []) = auto_detect_port host ports
  port_of host ports (some (c ∷ t)) = c ∷ t

  -- The port is a Flipper's, and none before it in the list is.
  pub data IsFirst (host : Host) : List Port → Port → Type 0 where
    here :
        {port : Port} {ports : List Port}
        → is_flipper host port ≡ true
        → IsFirst host (port ∷ ports) port
    later :
        {other port : Port} {ports : List Port}
        → is_flipper host other ≡ false
        → IsFirst host ports port
        → IsFirst host (other ∷ ports) port

  first_detected-IsFirst :
      (host : Host) (ports : List Port)
      → ((port : Port) × IsFirst host ports port
          × (first_detected host ports ≡ some (preferred host port.device)))
        ⊎ (All (λ p. is_flipper host p ≡ false) ports × (first_detected host ports ≡ none))
  unfolding first_detected
  first_detected-IsFirst host [] = inr (tt, refl)
  first_detected-IsFirst host (port ∷ ports) = elim (Bool-cases (is_flipper host port)) [
    | inl y ↦ inl (port, here y, rw y)
    | inr n ↦ elim (first_detected-IsFirst host ports) [
      | inl (found, i, e) ↦ inl (found, later n i, rw n e)
      | inr (none_is, e) ↦ inr ((n, none_is), rw n e)
    ]
  ]

  -- The port is that of the first Flipper in the list, by its preferred device; the fallback of the
  -- platform is only taken if there is none.
  pub auto_detect_port-IsFirst :
      (host : Host) (ports : List Port)
      → ((port : Port) × IsFirst host ports port
          × (auto_detect_port host ports ≡ preferred host port.device))
        ⊎ (All (λ p. is_flipper host p ≡ false) ports
            × (auto_detect_port host ports ≡ fallback host.is_darwin))
  unfolding auto_detect_port
  auto_detect_port-IsFirst host ports = elim (first_detected-IsFirst host ports) [
    | inl (port, i, e) ↦ inl (port, i, ap (or_fallback host) e)
    | inr (none_is, e) ↦ inr (none_is, ap (or_fallback host) e)
  ]

-- `serial` is the port that was opened last, and whether it is open.
pub record Usb : Type 0 where
  pub connected : Bool
  pub serial : Option Bool

abbrev pub is_open : Option Bool → Bool
is_open none = false
is_open (some b) = b

-- `connect`, by how opening the port ends (a SerialException is an OSError).
unfoldable pub connect : Result (Unit {0}) → F Usb Bool
connect (ok tt) t = (ok true, record t { serial = some true; connected = true })
connect (raised e) t =
    if is_os_error e then (ok false, record t { connected = false }) else (raised e, t)
connect cancelled t = (cancelled, t)

abbrev shut : Option Bool → Option Bool
shut none = none
shut (some b) = some false

-- `disconnect`
unfoldable pub disconnect : F Usb (Unit {0})
disconnect t = (ok tt, record t { serial = shut t.serial; connected = false })

-- `send`, by how the write ends.
unfoldable pub send : Result (Unit {0}) → F Usb (Unit {0})
send writes t = if is_open t.serial then (writes, t) else (raised runtime_error, t)

-- `receive`, by how the blocking read ends; its timeout is put back however it does.
unfoldable pub receive : Result Bytes → F Usb Bytes
receive read t = if is_open t.serial then (read, t) else (raised runtime_error, t)

-- `is_connected`
abbrev pub is_connected : Usb → Bool
is_connected t = t.connected && is_open t.serial
