-- ===== src/Rpc/Call/Sends.antt =====
-- What one request puts on the wire: the negotiation if there is no session yet, and one frame.
use flipperzero_mcp.Link.{M}
use flipperzero_mcp.Base.{
  arith, append-nil, [], none, Option, false, true, Bool, inr, inl, ◌⊎◌, sym, refl, ◌≡◌, ◌+◌, ℕ,
  Bytes,
}
use flipperzero_mcp.Link.Sends.{
  SendsOnly, SendsOnly-bind, SendsOnly-except, SendsOnly-map, SendsOnly-wait_for, IsQuiet-SendsOnly,
  send-SendsOnly,
}
use flipperzero_mcp.Link.Quiet.{IsQuiet, IsQuiet-pure}
use flipperzero_mcp.Proto.{Codec, Content, request}
use flipperzero_mcp.Rpc.Session.Sends.{IsNegotiation, ensure_rpc_session_started-SendsOnly}
use flipperzero_mcp.Rpc.Session.{get_next_command_id}
use flipperzero_mcp.Rpc.Frame.{frame}
use flipperzero_mcp.Rpc.Frame.Quiet.{receive_main_message-IsQuiet}
use flipperzero_mcp.Rpc.Call.{send_rpc_message, call, query, command, limited}

module _ ⦃c : Codec⦄ (allowed : Content → Bool) where
  -- A message of the negotiation, or a request whose content is allowed.
  abbrev pub IsAllowed : Bytes → Type 0
  IsAllowed message =
      IsNegotiation message
      ⊎ ((id : ℕ) × (content : Content) × (allowed content ≡ true)
          × (message ≡ frame (request id content)))

module _ ⦃c : Codec⦄ {allowed : Content → Bool} where
  pub quiet-SendsOnly : {A : Type 0} {m : M A} → IsQuiet m → SendsOnly (IsAllowed allowed) 0 m
  quiet-SendsOnly q = IsQuiet-SendsOnly q

  get_next_command_id-SendsOnly : SendsOnly (IsAllowed allowed) 0 get_next_command_id
  unfolding get_next_command_id
  get_next_command_id-SendsOnly = record {
    at = λ w. record {
      extra = [];
      appended = sym (append-nil w.sent);
      kind = tt;
      few = omega arith;
    };
  }

  module _ (content : Content) (is_allowed : allowed content ≡ true) where
    pub call-SendsOnly : (timeout : ℕ) → SendsOnly (IsAllowed allowed) 11 (call content timeout)
    unfolding call send_rpc_message
    call-SendsOnly timeout = SendsOnly-bind 0 11 get_next_command_id-SendsOnly λ id.
        SendsOnly-except 11 0
          (SendsOnly-bind 10 1 (SendsOnly-map (λ m. inl) 10 ensure_rpc_session_started-SendsOnly)
            λ _.
              SendsOnly-bind 1 0 (send-SendsOnly _ (inr (id, content, is_allowed, refl)))
                λ _. quiet-SendsOnly (receive_main_message-IsQuiet timeout))
          (quiet-SendsOnly (IsQuiet-pure none))

    pub query-SendsOnly :
        {A : Type 0} (timeout : ℕ) (field : Content → Option A)
        → SendsOnly (IsAllowed allowed) 11 (query content timeout field)
    unfolding query
    query-SendsOnly timeout field =
        SendsOnly-except 11 0
          (SendsOnly-bind 11 0 (call-SendsOnly timeout) λ r. quiet-SendsOnly (IsQuiet-pure _))
          (quiet-SendsOnly (IsQuiet-pure none))

    pub command-SendsOnly : SendsOnly (IsAllowed allowed) 11 (command content)
    unfolding command
    command-SendsOnly =
        SendsOnly-except 11 0
          (SendsOnly-bind 11 0 (call-SendsOnly 2500) λ r. quiet-SendsOnly (IsQuiet-pure _))
          (quiet-SendsOnly (IsQuiet-pure false))

  pub limited-SendsOnly :
      {A : Type 0} (n timeout : ℕ) (default : A) {m : M A}
      → SendsOnly (IsAllowed allowed) n m
      → SendsOnly (IsAllowed allowed) (n + 0) (limited timeout default m)
  limited-SendsOnly n timeout default p =
      SendsOnly-except n 0 (SendsOnly-wait_for n timeout p) (quiet-SendsOnly (IsQuiet-pure default))
