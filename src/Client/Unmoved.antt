-- ===== src/Client/Unmoved.antt =====
-- The operations of rpc/client.py that ask the device and leave the connection as it is.
use flipperzero_mcp.Base.{
  [], none, Option, false, true, Bool, refl, ◌≡◌, ◌∙◌, ◌&&◌, Bytes, if◌then◌else◌,
}
use flipperzero_mcp.Link.{Exn, cancelled, raised, ok, Result, Link}
use flipperzero_mcp.Proto.{Codec}
use flipperzero_mcp.Rpc.System.{Info, ping}
use flipperzero_mcp.Rpc.System
use flipperzero_mcp.Client.{Client, caught, exception, guarded, is_os_or_runtime}
use flipperzero_mcp.Client.Health.{
  asked, get_connection_health, health_probe, is_echo, note_unanswered, probed, with_transport,
}
use flipperzero_mcp.Client.Info.{normalized}
use flipperzero_mcp.Client.Info

-- Whether the client is connected, whether it has a session layer, and its mode are the same.
abbrev pub IsUnmoved : Client → Client → Type 0
IsUnmoved cl cl' =
    (cl'.connected ≡ cl.connected) × (cl'.has_rpc ≡ cl.has_rpc) × (cl'.mode ≡ cl.mode)

IsUnmoved-trans : (a b d : Client) → IsUnmoved a b → IsUnmoved b d → IsUnmoved a d
IsUnmoved-trans a b d p q = (q.0 ∙ p.0, q.1 ∙ p.1, q.2 ∙ p.2)

if-IsUnmoved :
    {A : Type 0} (b : Bool) (cl : Client) (x y : Result A × Client)
    → IsUnmoved cl x.1
    → IsUnmoved cl y.1
    → IsUnmoved cl (if◌then◌else◌ {A = Result A × Client} b x y).1
if-IsUnmoved true cl x y p q = p
if-IsUnmoved false cl x y p q = q

caught-IsUnmoved : {A : Type 0} (e : Exn) (a : A) (cl : Client) → IsUnmoved cl (caught e a cl).1
caught-IsUnmoved e a cl =
    if-IsUnmoved (is_os_or_runtime e) cl _ _ (refl, refl, refl) (refl, refl, refl)

guarded-IsUnmoved :
    {A : Type 0} (a : A) (cl : Client) (r : Result A × Link) → IsUnmoved cl (guarded a cl r).1
guarded-IsUnmoved a cl (ok b, w) = (refl, refl, refl)
guarded-IsUnmoved a cl (raised e, w) = caught-IsUnmoved e a (record cl { link = w })
guarded-IsUnmoved a cl (cancelled, w) = (refl, refl, refl)

note_unanswered-IsUnmoved : (b : Bool) (cl : Client) → IsUnmoved cl (note_unanswered b cl)
note_unanswered-IsUnmoved true cl = (refl, refl, refl)
note_unanswered-IsUnmoved false cl = (refl, refl, refl)

probed-IsUnmoved :
    (t : Bool) (cl : Client) (r : Result (Option Bytes)) (u : Client)
    → IsUnmoved cl u
    → IsUnmoved cl (probed t (r, u)).1
unfolding probed
probed-IsUnmoved t cl (ok echoed) u p =
    IsUnmoved-trans cl u (note_unanswered (is_echo echoed) u) p
      (note_unanswered-IsUnmoved (is_echo echoed) u)
probed-IsUnmoved t cl (raised e) u p = p
probed-IsUnmoved t cl cancelled u p = p

module _ ⦃c : Codec⦄ where
  with_transport-IsUnmoved :
      (probe : Bool) (cl : Client) (r : Result Bool) (u : Client)
      → IsUnmoved cl u
      → IsUnmoved cl (with_transport probe (r, u)).1
  unfolding with_transport
  with_transport-IsUnmoved false cl (ok t) u p = p
  with_transport-IsUnmoved true cl (ok t) u p =
      let asked = guarded none u (ping health_probe u.link) in
      let same = guarded-IsUnmoved none u (ping health_probe u.link) in
      if-IsUnmoved (t && u.has_rpc) cl _ _
        (probed-IsUnmoved t cl asked.0 asked.1 (IsUnmoved-trans cl u asked.1 p same)) p
  with_transport-IsUnmoved false cl (raised e) u p = p
  with_transport-IsUnmoved true cl (raised e) u p = p
  with_transport-IsUnmoved false cl cancelled u p = p
  with_transport-IsUnmoved true cl cancelled u p = p

  -- A health report may note an error, but leaves the connection as it is, also where the probe fails.
  pub get_connection_health-IsUnmoved :
      (probe : Bool) (transport : Result Bool) (cl : Client)
      → IsUnmoved cl (get_connection_health probe transport cl).1
  unfolding get_connection_health asked
  get_connection_health-IsUnmoved probe (ok b) cl =
      with_transport-IsUnmoved probe cl (ok b) cl (refl, refl, refl)
  get_connection_health-IsUnmoved probe (raised e) cl =
      with_transport-IsUnmoved probe cl (caught e false cl).0 (caught e false cl).1
        (caught-IsUnmoved e false cl)
  get_connection_health-IsUnmoved probe cancelled cl =
      with_transport-IsUnmoved probe cl cancelled cl (refl, refl, refl)

  normalized-IsUnmoved :
      (cl : Client) (r : Result Info) (u : Client)
      → IsUnmoved cl u
      → IsUnmoved cl (normalized (r, u)).1
  unfolding normalized
  normalized-IsUnmoved cl (ok info) u p = p
  normalized-IsUnmoved cl (raised e) u p = p
  normalized-IsUnmoved cl cancelled u p = p

  -- Nor does asking for the device info change it.
  pub get_device_info-IsUnmoved :
      (cl : Client) → IsUnmoved cl (flipperzero_mcp.Client.Info.get_device_info cl).1
  unfolding flipperzero_mcp.Client.Info.get_device_info
  get_device_info-IsUnmoved cl =
      let asked = guarded [] cl (flipperzero_mcp.Rpc.System.get_device_info cl.link) in
      if-IsUnmoved cl.has_rpc cl _ _
        (normalized-IsUnmoved cl asked.0 asked.1
          (guarded-IsUnmoved [] cl (flipperzero_mcp.Rpc.System.get_device_info cl.link)))
        (refl, refl, refl)
