-- ===== src/Rpc/Session/Sends.antt =====
-- What the negotiation of a session puts on the wire.
use flipperzero_mcp.Rpc.Frame.Quiet.{receive_main_message-IsQuiet}
use flipperzero_mcp.Link.Quiet.{
  pass_time-IsQuiet, drain_host_rx-IsQuiet, clear_receive_buffer-IsQuiet,
}
use flipperzero_mcp.Link.Sends.{
  send-SendsOnly, IsQuiet-SendsOnly, Adds, SendsOnly-weaken, SendsOnly-bind, SendsOnly-except,
  SendsOnly,
}
use flipperzero_mcp.Rpc.Frame.{frame}
use flipperzero_mcp.Proto.{system_ping_request, request, Codec}
use flipperzero_mcp.Link.{pure, M, ok, Link}
use flipperzero_mcp.Base.{
  arith, append-nil, [], ◌||◌, false, true, Bool, inr, inl, ◌⊎◌, ◌∙◌, sym, refl, ◌≡◌, ℕ, codes,
  Bytes, if◌then◌else◌,
}
use flipperzero_mcp.Rpc.Session.{
  is_cooling_down, cancel_line, start_command, probe_rpc, start_session_attempt, retry_unless,
  start_session, after_probe, negotiate_usb, negotiate, ensure_rpc_session_started, set_started,
  record_attempt,
}

module _ ⦃c : Codec⦄ where
  -- The three messages of a negotiation: the ping that probes, Ctrl-C, and the CLI command.
  abbrev pub IsNegotiation : Bytes → Type 0
  IsNegotiation message =
      (message ≡ frame (request 1 (system_ping_request (codes "mcp"))))
      ⊎ (message ≡ cancel_line)
      ⊎ (message ≡ start_command)

  -- An action that keeps the log.
  keeps_sent :
      {A : Type 0} (m : M A) → ((w : Link) → (m w).1.sent ≡ w.sent) → SendsOnly IsNegotiation 0 m
  keeps_sent m e = record {
    at = λ w. record {
      extra = [];
      appended = e w ∙ sym (append-nil w.sent);
      kind = tt;
      few = omega arith;
    };
  }

  pure-SendsOnly : {A : Type 0} (a : A) → SendsOnly IsNegotiation 0 (pure a)
  pure-SendsOnly a = keeps_sent (pure a) (λ w. refl)

  set_started-SendsOnly : (b : Bool) → SendsOnly IsNegotiation 0 (set_started b)
  unfolding set_started
  set_started-SendsOnly b = keeps_sent (set_started b) (λ w. refl)

  record_attempt-SendsOnly : (b : Bool) → SendsOnly IsNegotiation 0 (record_attempt b)
  unfolding record_attempt
  record_attempt-SendsOnly true = keeps_sent (record_attempt true) (λ w. refl)
  record_attempt-SendsOnly false = keeps_sent (record_attempt false) (λ w. refl)

  probe_rpc-SendsOnly : (timeout : ℕ) → SendsOnly IsNegotiation 1 (probe_rpc timeout)
  unfolding probe_rpc
  probe_rpc-SendsOnly timeout =
      SendsOnly-except 1 0
        (SendsOnly-bind 0 1 (IsQuiet-SendsOnly clear_receive_buffer-IsQuiet) λ _.
          SendsOnly-bind 0 1 (IsQuiet-SendsOnly (drain_host_rx-IsQuiet 200)) λ _.
            SendsOnly-bind 1 0 (send-SendsOnly _ (inl refl)) λ _.
              SendsOnly-bind 0 0 (IsQuiet-SendsOnly (receive_main_message-IsQuiet timeout))
                λ _. pure-SendsOnly _)
        (SendsOnly-bind 0 0 (IsQuiet-SendsOnly (drain_host_rx-IsQuiet 500)) λ _. pure-SendsOnly _)

  start_session_attempt-SendsOnly : SendsOnly IsNegotiation 3 start_session_attempt
  unfolding start_session_attempt
  start_session_attempt-SendsOnly =
      SendsOnly-bind 2 1
        (SendsOnly-except 2 0
          (SendsOnly-bind 1 1 (send-SendsOnly _ (inr (inl refl)))
            λ _. send-SendsOnly _ (inr (inr refl)))
          (pure-SendsOnly tt))
        λ _. SendsOnly-bind 0 1 (IsQuiet-SendsOnly (drain_host_rx-IsQuiet 400)) λ _.
          SendsOnly-bind 0 1 (IsQuiet-SendsOnly clear_receive_buffer-IsQuiet) λ _.
            SendsOnly-bind 0 1 (IsQuiet-SendsOnly (pass_time-IsQuiet 200))
              λ _. probe_rpc-SendsOnly 1200

  retry_unless-SendsOnly : (b : Bool) → SendsOnly IsNegotiation 3 (retry_unless b)
  unfolding retry_unless
  retry_unless-SendsOnly true = SendsOnly-weaken 0 3 (pure-SendsOnly true)
  retry_unless-SendsOnly false = start_session_attempt-SendsOnly

  start_session-SendsOnly : SendsOnly IsNegotiation 9 start_session
  unfolding start_session
  start_session-SendsOnly = SendsOnly-bind 3 6 start_session_attempt-SendsOnly λ first.
      SendsOnly-bind 3 3 (retry_unless-SendsOnly first)
        λ second. SendsOnly-bind 3 0 (retry_unless-SendsOnly second) record_attempt-SendsOnly

  after_probe-SendsOnly : (b : Bool) → SendsOnly IsNegotiation 9 (after_probe b)
  unfolding after_probe
  after_probe-SendsOnly true = SendsOnly-weaken 0 9 (set_started-SendsOnly true)
  after_probe-SendsOnly false = start_session-SendsOnly

  negotiate_usb-SendsOnly : (b : Bool) → SendsOnly IsNegotiation 10 (negotiate_usb b)
  unfolding negotiate_usb
  negotiate_usb-SendsOnly true = SendsOnly-weaken 9 1 start_session-SendsOnly
  negotiate_usb-SendsOnly false = SendsOnly-bind 1 9 (probe_rpc-SendsOnly 400) after_probe-SendsOnly

  -- The choice of the transport is read off the link.
  by_transport-SendsOnly :
      SendsOnly IsNegotiation 10
        (λ w. if w.is_wifi then set_started true w else negotiate_usb w.force_start w)
  by_transport-SendsOnly = record { at = λ w. choose w w.is_wifi }
    where
      choose :
          (w : Link) (b : Bool)
          → Adds IsNegotiation 10 w.sent
              (if b then set_started true w else negotiate_usb w.force_start w).1.sent
      choose w true = (SendsOnly-weaken 0 10 (set_started-SendsOnly true)).at w
      choose w false = (negotiate_usb-SendsOnly w.force_start).at w

  negotiate-SendsOnly : SendsOnly IsNegotiation 10 negotiate
  unfolding negotiate
  negotiate-SendsOnly = SendsOnly-bind 0 10 (IsQuiet-SendsOnly clear_receive_buffer-IsQuiet) λ _.
      SendsOnly-bind 0 10 (IsQuiet-SendsOnly (pass_time-IsQuiet 300)) λ _. by_transport-SendsOnly

  -- However the negotiation of a session ends, also by an exception or cut short by a timeout, it has
  -- sent at most ten messages, each of them the probe, Ctrl-C with CR, or the start command.
  pub ensure_rpc_session_started-SendsOnly : SendsOnly IsNegotiation 10 ensure_rpc_session_started
  unfolding ensure_rpc_session_started
  ensure_rpc_session_started-SendsOnly = record {
    at =
        λ w. choose w (w.rpc_session_started || is_cooling_down w.last_negotiation_failure w.clock);
  }
    where
      choose :
          (w : Link) (b : Bool)
          → Adds IsNegotiation 10 w.sent (if b then (ok tt, w) else negotiate w).1.sent
      choose w true = (SendsOnly-weaken 0 10 (pure-SendsOnly tt)).at w
      choose w false = negotiate-SendsOnly.at w
