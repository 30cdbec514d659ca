-- ===== src/Tools/Common.antt =====
-- tools/_common.py and `_classify_client_error` of errors.py: the gates, the reconnect before a tool
-- runs, and what the agent is told of an exception.
pub mod Sent
pub mod Reports
use flipperzero_mcp.Base.{some, none, Option, false, true, Bool, if◌then◌else◌}
use flipperzero_mcp.Action.{cancel, F, pure, raise, ◌>>=◌, ◌>>◌}
use flipperzero_mcp.Client.{Client, connect, disconnect, is_os_or_runtime}
use flipperzero_mcp.Config.{FlipperConfig}
use flipperzero_mcp.Link.{
  unexpected, flipper_failed, protocol_failed, connection_failed, cancelled, timed_out, Link,
  tool_error, not_connected, raised, ok, firmware_flash_disabled, write_tools_disabled, Result,
  Reason, Exn, M,
}

-- `_classify_client_error`, by the first `isinstance` that holds.
unfoldable pub classify_client_error : Exn → Reason
classify_client_error Exn.flipper_not_connected = not_connected
classify_client_error Exn.flipper_timeout = timed_out
classify_client_error Exn.flipper_connection = connection_failed
classify_client_error Exn.flipper_protocol = protocol_failed
classify_client_error Exn.flipper_cli_unavailable = Reason.cli_unavailable
classify_client_error Exn.flipper_cli_refused = Reason.cli_refused
classify_client_error Exn.flipper_error = flipper_failed
classify_client_error _ = unexpected

-- `try: … except Exception as e: _classify_client_error(e)`
unfoldable pub classified_end : {S A : Type 0} → Result A × S → Result A × S
classified_end (ok a, s) = (ok a, s)
classified_end (raised e, s) = (raised (tool_error (classify_client_error e)), s)
classified_end (cancelled, s) = (cancelled, s)

abbrev pub classified : {S A : Type 0} → F S A → F S A
classified m s = classified_end (m s)

-- A check that a tool makes before it goes on.
abbrev pub require : {S : Type 0} → Bool → Reason → F S (Unit {0})
require b reason = if b then pure tt else raise (tool_error reason)

-- `if x is None: raise ToolError(…)`
abbrev pub present : {S A : Type 0} → Reason → Option A → F S A
present reason none = raise (tool_error reason)
present reason (some a) = pure a

-- `require_write_tools`
unfoldable pub require_write_tools : {S : Type 0} → FlipperConfig → F S (Unit {0})
require_write_tools config = require config.enable_write_tools write_tools_disabled

-- `require_firmware_flash`
unfoldable pub require_firmware_flash : {S : Type 0} → FlipperConfig → F S (Unit {0})
require_firmware_flash config =
    require_write_tools config >> require config.enable_firmware_flash firmware_flash_disabled

-- What the transport does when a tool asks whether it is up, and tears it down and opens it again.
pub record Attempt : Type 0 where
  pub is_connected : Result Bool
  pub disconnects : Result (Unit {0})
  pub connects : Result Bool

-- Past `client.connect()`.
abbrev pub connected_or_raise : Bool → F Client (Unit {0})
connected_or_raise true = pure tt
connected_or_raise false = raise Exn.flipper_not_connected

unfoldable pub reconnect : Attempt → F Client (Unit {0})
reconnect attempt = do
  disconnect attempt.disconnects
  up ← connect attempt.connects
  connected_or_raise up

unfoldable pub after_check : Attempt → Result Bool → F Client (Unit {0})
after_check attempt (ok true) = pure tt
after_check attempt (ok false) = reconnect attempt
after_check attempt (raised e) = if is_os_or_runtime e then reconnect attempt else raise e
after_check attempt cancelled = cancel

-- `ensure_connected`; the client it returns is the state.
unfoldable pub ensure_connected : Attempt → F Client (Unit {0})
unfolding after_check
ensure_connected attempt = after_check attempt attempt.is_connected

abbrev pub rpc_or_raise : F Client (Unit {0})
rpc_or_raise cl = if cl.has_rpc then (ok tt, cl) else (raised Exn.flipper_not_connected, cl)

-- `get_rpc`; the ProtobufRPC it returns is part of the client.
unfoldable pub get_rpc : Attempt → F Client (Unit {0})
get_rpc attempt = ensure_connected attempt >> rpc_or_raise

-- A request of the RPC layer, as an action of the client that holds the link.
abbrev pub relinked : {A : Type 0} → Client → Result A × Link → Result A × Client
relinked cl (r, w) = (r, record cl { link = w })

unfoldable pub on_link : {A : Type 0} → M A → F Client A
on_link m cl = relinked cl (m cl.link)

-- `rpc = await get_rpc(ctx)`, one request, and the error mapping around both.
unfoldable pub requested : {A : Type 0} → Attempt → M A → F Client A
requested attempt m = classified (get_rpc attempt >> on_link m)
