-- ===== src/Client/Health.antt =====
-- `get_connection_health` of rpc/client.py.
use flipperzero_mcp.Rpc.System.{ping}
use flipperzero_mcp.Proto.{Codec}
use flipperzero_mcp.Client.{
  exception, is_os_or_runtime, caught, guarded, ping_unanswered, Client, ConnectionError,
}
use flipperzero_mcp.Link.{Outcome-cases, cancelled, raised, ok, Result, Link}
use flipperzero_mcp.Base.{
  inr, inl, ◌∙◌, refl, Bool-cases, some, none, Option, ◌&&◌, false, true, Bool, ◌⊎◌, ap, ◌≡◌,
  text_eq→eq, text_eq, codes, Bytes, if◌then◌else◌,
}

-- _HEALTH_PROBE
abbrev pub health_probe : Bytes
health_probe = codes "mcp_health"

-- ConnectionHealth, without the time stamp and the name of the transport.
pub record ConnectionHealth : Type 0 where
  pub is_connected : Bool
  pub transport_connected : Bool
  pub rpc_responsive : Option Bool
  pub last_error : Option ConnectionError

-- `echoed == _HEALTH_PROBE`
abbrev pub is_echo : Option Bytes → Bool
is_echo none = false
is_echo (some echoed) = text_eq echoed health_probe

-- `if not rpc_responsive and self.last_connection_error is None: …`
abbrev error_if_none : Option ConnectionError → Option ConnectionError
error_if_none none = some ping_unanswered
error_if_none (some e) = some e

abbrev pub note_unanswered : Bool → Client → Client
note_unanswered true cl = cl
note_unanswered false cl = record cl {
  last_connection_error = error_if_none cl.last_connection_error;
}

abbrev pub report : Bool → Option Bool → Bool → Client → Result ConnectionHealth × Client
report transport_connected responsive connected cl = (
  ok (record {
    is_connected = connected;
    transport_connected = transport_connected;
    rpc_responsive = responsive;
    last_error = cl.last_connection_error;
  }),
  cl,
)

-- Past the probe, by what it gave.
unfoldable pub probed : Bool → Result (Option Bytes) × Client → Result ConnectionHealth × Client
probed transport_connected (ok echoed, cl) =
    report transport_connected (some (is_echo echoed)) (transport_connected && is_echo echoed)
      (note_unanswered (is_echo echoed) cl)
probed transport_connected (raised e, cl) = (raised e, cl)
probed transport_connected (cancelled, cl) = (cancelled, cl)

module _ ⦃c : Codec⦄ where
  -- Past `transport.is_connected()`, by its result and whether to probe.
  unfoldable pub with_transport : Bool → Result Bool × Client → Result ConnectionHealth × Client
  with_transport false (ok transport_connected, cl) =
      report transport_connected none transport_connected cl
  with_transport true (ok transport_connected, cl) =
      if transport_connected && cl.has_rpc
      then probed transport_connected (guarded none cl (ping health_probe cl.link))
      else report transport_connected (some false) (transport_connected && false) cl
  with_transport probe (raised e, cl) = (raised e, cl)
  with_transport probe (cancelled, cl) = (cancelled, cl)

  unfoldable pub asked : Result Bool → Client → Result Bool × Client
  asked (ok b) cl = (ok b, cl)
  asked (raised e) cl = caught e false cl
  asked cancelled cl = (cancelled, cl)

  -- `get_connection_health`, by what `transport.is_connected()` does.
  unfoldable pub get_connection_health :
      Bool → Result Bool → Client → Result ConnectionHealth × Client
  unfolding probed with_transport asked
  get_connection_health probe transport cl = with_transport probe (asked transport cl)

  is_echo-eq : (o : Option Bytes) → is_echo o ≡ true → o ≡ some health_probe
  is_echo-eq none h = cc h
  is_echo-eq (some b) h = ap some (text_eq→eq b health_probe h)

  -- A link that is reported as up has echoed the probe; one that was probed and is not comes with an
  -- error; the rest were not probed.
  abbrev IsHonest : Client → ConnectionHealth → Type 0
  IsHonest cl h =
      ((h.is_connected ≡ true)
        × (cl.has_rpc ≡ true)
        × ((w : Link) × (ping health_probe cl.link ≡ (ok (some health_probe), w))))
      ⊎ ((h.is_connected ≡ false) × ((e : ConnectionError) × (h.last_error ≡ some e)))
      ⊎ ((h.is_connected ≡ false) × ((h.transport_connected && cl.has_rpc) ≡ false))

  error_if_none-some :
      (o : Option ConnectionError) → (e : ConnectionError) × (error_if_none o ≡ some e)
  error_if_none-some none = (ping_unanswered, refl)
  error_if_none-some (some e) = (e, refl)

  unanswered :
      (t : Bool) (cl : Client) {h : ConnectionHealth} {cl' : Client}
      → report t (some false) (t && false) (note_unanswered false cl) ≡ (ok h, cl')
      → (h.is_connected ≡ false) × ((e : ConnectionError) × (h.last_error ≡ some e))
  unanswered true cl q =
      let found = error_if_none-some cl.last_connection_error in (cc q, (found.0, cc (q, found.1)))
  unanswered false cl q =
      let found = error_if_none-some cl.last_connection_error in (cc q, (found.0, cc (q, found.1)))

  probed-IsHonest :
      (t : Bool) (cl : Client) {h : ConnectionHealth} {cl' : Client}
      → t ≡ true
      → cl.has_rpc ≡ true
      → probed t (guarded none cl (ping health_probe cl.link)) ≡ (ok h, cl')
      → IsHonest cl h
  unfolding probed
  probed-IsHonest t cl up has q = elim (Outcome-cases (ping health_probe cl.link)) [
    | inl (o, w, e) ↦ elim (Bool-cases (is_echo o)) [
      | inl y ↦ inl (cc (rw (e, y, up) at q), has, (w, e ∙ ap (λ a. (ok a, w)) (is_echo-eq o y)))
      | inr n ↦ inr (inl (unanswered t (record cl { link = w }) (rw (e, n) at q)))
    ]
    | inr (inl (x, w, e)) ↦ elim (Bool-cases (is_os_or_runtime x)) [
      | inl y ↦ inr (
          inl (
            unanswered t (record cl { link = w; last_connection_error = some (exception x) })
              (rw (e, y) at q)))
      | inr n ↦ cc (rw (e, n) at q)
    ]
    | inr (inr (w, e)) ↦ cc (rw e at q)
  ]

  both_true : (t b : Bool) → (t && b) ≡ true → (t ≡ true) × (b ≡ true)
  both_true true true h = (refl, refl)
  both_true true false h = cc h
  both_true false b h = cc h

  unprobed :
      (t : Bool) (cl : Client) {h : ConnectionHealth} {cl' : Client}
      → (t && cl.has_rpc) ≡ false
      → report t (some false) (t && false) cl ≡ (ok h, cl')
      → (h.is_connected ≡ false) × ((h.transport_connected && cl.has_rpc) ≡ false)
  unprobed true cl n q = (cc q, cc (q, n))
  unprobed false cl n q = (cc q, cc (q, n))

  with_transport-IsHonest :
      (t : Bool) (cl : Client) {h : ConnectionHealth} {cl' : Client}
      → with_transport true (ok t, cl) ≡ (ok h, cl')
      → IsHonest cl h
  unfolding with_transport probed
  with_transport-IsHonest t cl q = elim (Bool-cases (t && cl.has_rpc)) [
    | inl y ↦ let both = both_true t cl.has_rpc y in probed-IsHonest t cl both.0 both.1 (rw y at q)
    | inr n ↦ inr (inr (unprobed t cl n (rw n at q)))
  ]

  -- A health report with the probe says that the link is up only if there is a session layer and the
  -- device has echoed the probe. Otherwise it says that it is not up, and carries an error unless
  -- there was nothing to probe: the transport was not connected, or there is no session layer.
  pub get_connection_health-IsHonest :
      (transport : Result Bool) (cl : Client) {h : ConnectionHealth} {cl' : Client}
      → get_connection_health true transport cl ≡ (ok h, cl')
      → ((h.is_connected ≡ true)
          × (cl.has_rpc ≡ true)
          × ((w : Link) × (ping health_probe cl.link ≡ (ok (some health_probe), w))))
        ⊎ ((h.is_connected ≡ false) × ((e : ConnectionError) × (h.last_error ≡ some e)))
        ⊎ ((h.is_connected ≡ false) × ((h.transport_connected && cl.has_rpc) ≡ false))
  unfolding get_connection_health asked with_transport
  get_connection_health-IsHonest (ok t) cl q = with_transport-IsHonest t cl q
  get_connection_health-IsHonest (raised x) cl q = elim (Bool-cases (is_os_or_runtime x)) [
    | inl y ↦
        with_transport-IsHonest false (record cl { last_connection_error = some (exception x) })
          (rw y at q)
    | inr n ↦ cc (rw n at q)
  ]
  get_connection_health-IsHonest cancelled cl q = cc q
