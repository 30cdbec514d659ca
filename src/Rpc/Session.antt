-- ===== src/Rpc/Session.antt =====
-- Command ids, StopSession and the negotiation of an RPC session, of rpc/protobuf_rpc.py.
pub mod Sends
pub mod Settled
use flipperzero_mcp.Base.{
  ◌++◌, ◌∷◌, [], some, none, Option, ◌||◌, false, true, Bool, ◌%◌, ◌-◌, ◌+◌, ℕ, text_eq, codes,
  Bytes, if◌then◌else◌, ltb,
}
use flipperzero_mcp.Proto.{
  Main, Codec, Content, request, system_ping_request, system_ping_response, stop_session,
}
use flipperzero_mcp.Link.{
  sleep, except, ◌>>◌, ◌>>=◌, pure, M, ok, send, clear_receive_buffer, drain_host_rx,
}
use flipperzero_mcp.Rpc.Frame.{frame, receive_main_message}

-- `_get_next_command_id`
unfoldable pub get_next_command_id : M ℕ
get_next_command_id w =
    let id = (w.command_id + 1) % 0xFFFFFFFF in (ok id, record w { command_id = id })

-- _NEGOTIATION_COOLDOWN_SECONDS
abbrev pub negotiation_cooldown : ℕ
negotiation_cooldown = 5000

unfoldable pub set_started : Bool → M (Unit {0})
set_started b w = (ok tt, record w { rpc_session_started = b })

-- `self._rpc_session_started = ok; if not ok: self._last_negotiation_failure = time.monotonic()`
record_attempt : Bool → M (Unit {0})
record_attempt true w = (ok tt, record w { rpc_session_started = true })
record_attempt false w =
    (ok tt, record w { rpc_session_started = false; last_negotiation_failure = some w.clock })

-- `time.monotonic() - self._last_negotiation_failure < _NEGOTIATION_COOLDOWN_SECONDS`
abbrev pub is_cooling_down : Option ℕ → ℕ → Bool
is_cooling_down none now = false
is_cooling_down (some t) now = ltb (now - t) negotiation_cooldown

abbrev is_mcp_echo : Content → Bool
is_mcp_echo (system_ping_response echoed) = text_eq echoed (codes "mcp")
is_mcp_echo _ = false

abbrev is_probe_answer : Option Main → Bool
is_probe_answer none = false
is_probe_answer (some m) = is_mcp_echo m.content

-- Ctrl-C and CR; the command ends with CR alone.
abbrev pub cancel_line : Bytes
cancel_line = 0x03 ∷ 0x0D ∷ []

abbrev pub start_command : Bytes
start_command = codes "start_rpc_session" ++ 0x0D ∷ []

module _ ⦃c : Codec⦄ where
  -- `send_stop_session`
  unfoldable pub send_stop_session : M (Unit {0})
  unfolding set_started
  send_stop_session = do send (frame (request 0 stop_session)); drain_host_rx 400; set_started false

  -- the nested `probe_rpc`
  unfoldable pub probe_rpc : ℕ → M Bool
  probe_rpc timeout =
      except
        (do
          clear_receive_buffer
          drain_host_rx 200
          send (frame (request 1 (system_ping_request (codes "mcp"))))
          msg ← receive_main_message timeout
          pure (is_probe_answer msg))
        (do drain_host_rx 500; pure false)

  -- the nested `start_session_attempt`
  unfoldable pub start_session_attempt : M Bool
  start_session_attempt = do
    except (do send cancel_line; send start_command) (pure tt)
    drain_host_rx 400
    clear_receive_buffer
    sleep 200
    probe_rpc 1200

  -- `if not ok: ok = await start_session_attempt()`
  retry_unless : Bool → M Bool
  retry_unless true = pure true
  retry_unless false = start_session_attempt

  -- Up to three attempts.
  unfoldable pub start_session : M (Unit {0})
  unfolding retry_unless record_attempt
  start_session = do
    first ← start_session_attempt
    second ← retry_unless first
    third ← retry_unless second
    record_attempt third

  -- Past the probe: started, or the switch from the CLI.
  after_probe : Bool → M (Unit {0})
  after_probe true = set_started true
  after_probe false = start_session

  negotiate_usb : Bool → M (Unit {0})
  negotiate_usb true = start_session
  negotiate_usb false = probe_rpc 400 >>= after_probe

  -- Past the early returns. WiFi speaks protobuf from the start: nothing is sent there.
  unfoldable pub negotiate : M (Unit {0})
  unfolding set_started after_probe negotiate_usb
  negotiate = do
    clear_receive_buffer
    sleep 300
    λ w. if w.is_wifi then set_started true w else negotiate_usb w.force_start w

  -- `_ensure_rpc_session_started`
  unfoldable pub ensure_rpc_session_started : M (Unit {0})
  ensure_rpc_session_started w =
      if w.rpc_session_started || is_cooling_down w.last_negotiation_failure w.clock
      then (ok tt, w)
      else negotiate w
