-- ===== src/Client.antt =====
-- FlipperClient of rpc/client.py: the connection, its mode, its health, and one CLI command.
pub mod Reach
pub mod Health
pub mod Info
pub mod Machine
pub mod Unmoved
use flipperzero_mcp.Rpc.Storage.{storage_info}
use flipperzero_mcp.Rpc.Session.{send_stop_session, ensure_rpc_session_started}
use flipperzero_mcp.Proto.{Codec}
use flipperzero_mcp.Link.{Exn, cancelled, raised, ok, Result, Link}
use flipperzero_mcp.Base.{some, none, Option, false, true, Bool, ℕ, codes, if◌then◌else◌, ltb}

-- LinkMode
pub data LinkMode : Type 0 where
  unknown cli rpc : LinkMode

-- What `last_connection_error` can hold: the text of an exception, or "RPC ping unanswered".
pub data ConnectionError : Type 0 where
  exception : Exn → ConnectionError
  ping_unanswered : ConnectionError

-- `has_rpc` is `self.rpc is not None`; the fields of that ProtobufRPC are the link's.
pub record Client : Type 0 where
  pub link : Link
  pub supports_cli_text_mode : Bool
  pub connected : Bool
  pub has_rpc : Bool
  pub last_connection_error : Option ConnectionError
  pub sd_card_available : Option Bool
  pub mode : LinkMode

-- `except (OSError, RuntimeError)`; TimeoutError is an OSError.
abbrev pub is_os_or_runtime : Exn → Bool
is_os_or_runtime Exn.os_error = true
is_os_or_runtime Exn.connection_lost = true
is_os_or_runtime Exn.runtime_error = true
is_os_or_runtime Exn.timeout_error = true
is_os_or_runtime Exn.flash_error = true
is_os_or_runtime Exn.bundle_error = true
is_os_or_runtime _ = false

-- `except (OSError, RuntimeError) as exc: self.last_connection_error = str(exc)`, with the value
-- that the code goes on with.
abbrev pub caught : {A : Type 0} → Exn → A → Client → Result A × Client
caught e default cl =
    if is_os_or_runtime e
    then (ok default, record cl { last_connection_error = some (ConnectionError.exception e) })
    else (raised e, cl)

-- An action of the RPC layer under such a `try`.
abbrev pub guarded : {A : Type 0} → A → Client → Result A × Link → Result A × Client
guarded default cl (ok a, w) = (ok a, record cl { link = w })
guarded default cl (raised e, w) = caught e default (record cl { link = w })
guarded default cl (cancelled, w) = (cancelled, record cl { link = w })

-- `connect`, by what `transport.connect()` does. The new ProtobufRPC counts its commands
-- from 0. (What the transport itself changes then, such as the receive buffer, which WiFi and auto
-- clear, is a change of the link by its environment.)
unfoldable pub connect : Result Bool → Client → Result Bool × Client
connect (ok true) cl = (
  ok true,
  record cl {
    link = record cl.link {
      command_id = 0;
      rpc_session_started = false;
      last_negotiation_failure = none;
    };
    connected = true;
    has_rpc = true;
    last_connection_error = none;
    sd_card_available = none;
    mode = unknown;
  },
)
connect (ok false) cl = (ok false, cl)
connect (raised e) cl = caught e false cl
connect cancelled cl = (cancelled, cl)

abbrev pub closed : Client → Client
closed cl = record cl {
  connected = false;
  has_rpc = false;
  sd_card_available = none;
  mode = unknown;
}

unfoldable pub close_after : Result (Unit {0}) × Client → Result (Unit {0}) × Client
close_after (ok tt, cl) = (ok tt, closed cl)
close_after (raised e, cl) = (raised e, cl)
close_after (cancelled, cl) = (cancelled, cl)

-- `disconnect`, by what `transport.disconnect()` does.
unfoldable pub disconnect : Result (Unit {0}) → Client → Result (Unit {0}) × Client
unfolding close_after
disconnect (ok tt) cl = close_after (ok tt, cl)
disconnect (raised e) cl = close_after (caught e tt cl)
disconnect cancelled cl = (cancelled, cl)

-- Once the switch of `enter_rpc` or `enter_cli` is done, the mode is recorded and returned.
switched : LinkMode → Client → Result (Unit {0}) × Link → Result LinkMode × Client
switched to cl (ok tt, w) = (ok to, record cl { link = w; mode = to })
switched to cl (raised e, w) = (raised e, record cl { link = w })
switched to cl (cancelled, w) = (cancelled, record cl { link = w })

module _ ⦃c : Codec⦄ where
  unfoldable pub enter_rpc : Client → Result LinkMode × Client
  unfolding switched
  enter_rpc cl =
      if cl.has_rpc then switched rpc cl (ensure_rpc_session_started cl.link) else (ok cl.mode, cl)

  unfoldable pub enter_cli : Client → Result LinkMode × Client
  unfolding switched
  enter_cli cl =
      if cl.has_rpc then switched cli cl (send_stop_session cl.link) else (ok cl.mode, cl)

  sd_mounted : Option (ℕ × ℕ) → Bool
  sd_mounted none = false
  sd_mounted (some (total, free)) = ltb 0 total

  remember : Result (Option (ℕ × ℕ)) × Client → Result Bool × Client
  remember (ok info, cl) =
      (ok (sd_mounted info), record cl { sd_card_available = some (sd_mounted info) })
  remember (raised e, cl) = (raised e, cl)
  remember (cancelled, cl) = (cancelled, cl)

  cached_or_asked : Option Bool → Client → Result Bool × Client
  cached_or_asked (some available) cl = (ok available, cl)
  cached_or_asked none cl =
      if cl.has_rpc
      then remember (guarded none cl (storage_info (codes "/ext") cl.link))
      else remember (ok none, cl)

  -- `check_sd_card_available`
  unfoldable pub check_sd_card_available : Client → Result Bool × Client
  unfolding sd_mounted remember cached_or_asked
  check_sd_card_available cl = cached_or_asked cl.sd_card_available cl
