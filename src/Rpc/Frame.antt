-- ===== src/Rpc/Frame.antt =====
-- The framing of rpc/protobuf_rpc.py: `[varint length][payload]`, sent and received.
pub mod RoundTrip
pub mod Quiet
use flipperzero_mcp.Base.{
  ℕ, Option, none, some, ◌||◌, ◌++◌, Bytes, ltb, ◌==◌, length, if◌then◌else◌, not,
}
use flipperzero_mcp.Proto.{Main, Codec}
use flipperzero_mcp.Link.{M, pure, except, ◌>>=◌, receive_exact}
use flipperzero_mcp.Rpc.Varint.{encode_varint, read_varint}

module _ ⦃c : Codec⦄ where
  -- `self._encode_varint(len(payload)) + payload` for the payload of a message.
  unfoldable pub frame : Main → Bytes
  frame m = let payload = c.serialize m in encode_varint (length payload) ++ payload

  -- `msg.ParseFromString(payload)`, whose DecodeError `_receive_main_message` turns into None.
  parse_payload : ℕ → Bytes → M (Option Main)
  parse_payload payload_len payload =
      if length payload == 0 || not (length payload == payload_len)
      then pure none
      else pure (c.parse payload)

  receive_payload : ℕ → Option ℕ → M (Option Main)
  receive_payload timeout none = pure none
  receive_payload timeout (some payload_len) =
      if payload_len == 0 || ltb 1000000 payload_len
      then pure none
      else receive_exact payload_len timeout >>= parse_payload payload_len

  unfoldable pub receive_main_message : ℕ → M (Option Main)
  unfolding parse_payload receive_payload
  receive_main_message timeout =
      except (read_varint timeout >>= receive_payload timeout) (pure none)
