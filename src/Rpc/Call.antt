-- ===== src/Rpc/Call.antt =====
-- One request and its response, of rpc/protobuf_rpc.py.
pub mod Exchange
pub mod Sends
use flipperzero_mcp.Base.{some, none, Option, false, Bool, ℕ, if◌then◌else◌}
use flipperzero_mcp.Proto.{Main, Codec, Content, request, is_ok}
use flipperzero_mcp.Link.{wait_for, except, ◌>>◌, ◌>>=◌, pure, M, send}
use flipperzero_mcp.Rpc.Frame.{frame, receive_main_message}
use flipperzero_mcp.Rpc.Session.{get_next_command_id, ensure_rpc_session_started}

-- A response of status OK that has the field; `field` is `HasField` and the read of it.
abbrev pub answer : {A : Type 0} → (Content → Option A) → Option Main → Option A
answer field none = none
answer field (some m) = if is_ok m then field m.content else none

-- `bool(response and response.command_status == CommandStatus.OK)`
abbrev pub acknowledged : Option Main → Bool
acknowledged none = false
acknowledged (some m) = is_ok m

-- `asyncio.wait_for` in a `try` whose handler returns a default.
abbrev pub limited : {A : Type 0} → ℕ → A → M A → M A
limited timeout default m = except (wait_for timeout m) (pure default)

module _ ⦃c : Codec⦄ where
  -- `_send_rpc_message`
  unfoldable pub send_rpc_message : Main → ℕ → M (Option Main)
  send_rpc_message m response_timeout =
      except (do ensure_rpc_session_started; send (frame m); receive_main_message response_timeout)
        (pure none)

  -- A request with the next command id, and its response.
  unfoldable pub call : Content → ℕ → M (Option Main)
  call content response_timeout = do
    id ← get_next_command_id
    send_rpc_message (request id content) response_timeout

  -- The body that most methods share: None on any failure.
  unfoldable pub query : {A : Type 0} → Content → ℕ → (Content → Option A) → M (Option A)
  query content response_timeout field =
      except (do response ← call content response_timeout; pure (answer field response)) (pure none)

  -- The same for a method that returns whether the device accepted.
  unfoldable pub command : Content → M Bool
  command content =
      except (do response ← call content 2500; pure (acknowledged response)) (pure false)
