-- ===== src/Rpc/Frame/RoundTrip.antt =====
-- `_receive_main_message` reads back a framed message, however its bytes arrive.
use flipperzero_mcp.Link.{receive_exact, ◌>>=◌, pure, Link}
use flipperzero_mcp.Base.{
  arith, append_assoc, ◌++◌, some, none, ◌||◌, not, false, ◌≡◌, ◌<◌, ◌≤◌, ◌+◌, ℕ, Bytes, length,
  ◌==◌, ltb,
}
use flipperzero_mcp.Proto.{Main, Codec, RoundTrips}
use flipperzero_mcp.Rpc.Varint.{read_varint}
use flipperzero_mcp.Rpc.Varint.RoundTrip.{read_varint-encode_varint}
use flipperzero_mcp.Rpc.Frame.{frame, parse_payload, receive_payload, receive_main_message}
use flipperzero_mcp.Link.Prompt.{Delivers}
use flipperzero_mcp.Link.Reading.{
  Reading, Reading-bind, Reading-pure, Reading-except, receive_exact-Reading,
}

module _ ⦃c : Codec⦄ where
  -- What the client can read: it decodes to itself, is not empty and has at most a million bytes.
  pub record Fits (m : Main) : Type 0 where
    pub decodes : RoundTrips m
    pub not_empty : 0 < length (c.serialize m)
    pub not_large : length (c.serialize m) ≤ 1000000

  payload_length :
      (m : Main)
      → Fits m
      → (length (c.serialize m) == 0) || ltb 1000000 (length (c.serialize m)) ≡ false
  payload_length m f = ground (arith, f.not_empty, f.not_large)

  payload_taken :
      (m : Main)
      → Fits m
      → (length (c.serialize m) == 0) || not (length (c.serialize m) == length (c.serialize m))
        ≡ false
  payload_taken m f = ground (arith, f.not_empty)

  -- A message that decodes to itself and has at least one byte and at most a million, and that arrives
  -- in time, in whatever pieces, is returned, and what follows it is left.
  pub receive_main_message-frame :
      (m : Main) (timeout stop : ℕ) (rest : Bytes) (w : Link)
      → Fits m
      → stop ≤ w.clock + timeout
      → Delivers stop (frame m ++ rest) w
      → Reading stop rest w (some m) (receive_main_message timeout w)
  unfolding receive_main_message frame
  receive_main_message-frame m timeout stop rest w f l d =
      let payload = c.serialize m in
      let n = length payload in
      Reading-except (read_varint timeout >>= receive_payload timeout) (pure none) w (
        Reading-bind (read_varint timeout) (receive_payload timeout) w
          (read_varint-encode_varint n timeout stop (payload ++ rest) w (omega (arith, f.not_large))
            l (rw append_assoc at d))
          λ u later d'. rw (payload_length m f) (
            Reading-bind (receive_exact n timeout) (parse_payload n) u
              (receive_exact-Reading payload rest timeout stop u (omega (arith, l, later)) d')
              λ v later' d''. rw (payload_taken m f, f.decodes) (Reading-pure v (some m) d'')))
