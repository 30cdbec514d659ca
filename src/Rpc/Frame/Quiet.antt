-- ===== src/Rpc/Frame/Quiet.antt =====
-- Receiving a message sends nothing.
use flipperzero_mcp.Base.{some, none, Option, ℕ, Bytes}
use flipperzero_mcp.Proto.{Codec}
use flipperzero_mcp.Link.Quiet.{IsQuiet, quiet_rules, receive_exact-IsQuiet}
use flipperzero_mcp.Rpc.Varint.Quiet.{read_varint-IsQuiet}
use flipperzero_mcp.Rpc.Frame.{parse_payload, receive_payload, receive_main_message}

module _ ⦃c : Codec⦄ where
  parse_payload-IsQuiet : (n : ℕ) (payload : Bytes) → IsQuiet (parse_payload n payload)
  unfolding parse_payload
  parse_payload-IsQuiet n payload = search quiet_rules

  receive_payload-IsQuiet :
      (timeout : ℕ) (found : Option ℕ) → IsQuiet (receive_payload timeout found)
  unfolding receive_payload
  receive_payload-IsQuiet timeout none = search quiet_rules
  receive_payload-IsQuiet timeout (some n) =
      search (quiet_rules, receive_exact-IsQuiet, parse_payload-IsQuiet)

  pub receive_main_message-IsQuiet : (timeout : ℕ) → IsQuiet (receive_main_message timeout)
  unfolding receive_main_message
  receive_main_message-IsQuiet timeout =
      search (quiet_rules, read_varint-IsQuiet, receive_payload-IsQuiet)
